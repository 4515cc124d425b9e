-- ===== src/Teams/Membership.antt =====
-- Members of a team: adding, changing and removing them, and joining by an invitation.
use hermes_python.Prelude.{
  ℕ, Bool, true, false, not, Option, none, some, String, List, [], ◌∷◌, ◌++◌, ◌==◌, nat_has_eq,
  string_has_eq, ltb, find?, keep, if◌then◌else◌,
}
use hermes_python.Governance.{default_policy}
use hermes_python.Http.{Reply, ok, check, found, ◌>>=◌, ◌>>◌}
use hermes_python.Teams.{
  Team, TeamMember, User, Tables, membership, is_row, require_permission, require_manager, put_team,
}

abbrev pub is_none {ℓ} : {A : Type ℓ} → Option A → Bool
is_none none = true
is_none (some x) = false

-- `create_team`, with the id of the new row.
unfoldable pub create_team : ℕ → String → ℕ → Tables → Tables
create_team t name owner d = record d {
  teams =
      d.teams
      ++ record {
        id = t;
        name = name;
        policy = some default_policy;
        shared_agents = "hermes" ∷ [];
        shared_profile_ids = [];
        channel_mode = "mention";
        invite_token = none;
        invite_expires_at = none;
        invite_role = "member";
      }
        ∷ [];
  members = d.members ++ record { team_id = t; user_id = owner; role = "owner" } ∷ [];
}

-- `svc.add_member`, with the email in lower case.
unfoldable pub add_row : ℕ → String → String → Tables → Reply Tables
add_row t email role d = do
  user ← found (find? (λ (u : User). u.email == email) d.users) 404
  check (is_none (membership t user.id d.members)) 409
  ok (record d {
    members = d.members ++ record { team_id = t; user_id = user.id; role = role } ∷ [];
  })

unfoldable pub set_role : ℕ → ℕ → String → List TeamMember → List TeamMember
set_role t u role [] = []
set_role t u role (m ∷ ms) =
    record m { role = if is_row t u m then role else m.role } ∷ set_role t u role ms

-- `svc.update_member_role`
unfoldable pub update_member_role : ℕ → ℕ → String → Tables → Reply Tables
unfolding set_role
update_member_role t u role d = do
  member ← found (membership t u d.members) 404
  check (not (member.role == "owner")) 400
  ok (record d { members = set_role t u role d.members })

unfoldable pub without_row : ℕ → ℕ → List TeamMember → List TeamMember
without_row t u ms = keep (λ m. not (is_row t u m)) ms

-- `svc.remove_member`
unfoldable pub remove_row : ℕ → ℕ → Tables → Reply Tables
unfolding without_row
remove_row t u d = do
  member ← found (membership t u d.members) 404
  check (not (member.role == "owner")) 400
  ok (record d { members = without_row t u d.members })

-- The handlers, for the user who calls.
unfoldable pub add_member : ℕ → ℕ → String → String → Tables → Reply Tables
add_member actor t email role d = do
  got ← require_permission d t actor "member.invite"
  add_row t email role d

unfoldable pub update_member : ℕ → ℕ → ℕ → String → Tables → Reply Tables
update_member actor t u role d = do
  got ← require_permission d t actor "member.role"
  update_member_role t u role d

unfoldable pub remove_member : ℕ → ℕ → ℕ → Tables → Reply Tables
remove_member actor t u d = do got ← require_permission d t actor "member.remove"; remove_row t u d

-- The token is a random one, and the time is that of expiry, if it is ever to expire.
unfoldable pub generate_invite_token : ℕ → ℕ → String → String → Option ℕ → Tables → Reply Tables
generate_invite_token actor t token role expires d = do
  got ← require_manager d t actor
  ok (record d {
    teams =
        put_team t
          (λ x. record x {
            invite_token = some token;
            invite_expires_at = expires;
            invite_role = role;
          })
          d.teams;
  })

abbrev pub has_token : String → Team → Bool
has_token token x = elim x.invite_token [ none ↦ false | some s ↦ s == token ]

-- `team.invite_expires_at and team.invite_expires_at < now`
abbrev pub is_expired : ℕ → Team → Bool
is_expired now x = elim x.invite_expires_at [ none ↦ false | some e ↦ ltb e now ]

unfoldable pub join_by_token : ℕ → String → ℕ → Tables → Reply Tables
join_by_token actor token now d = do
  team ← found (find? (has_token token) d.teams) 404
  check (not (is_expired now team)) 410
  elim (membership team.id actor d.members) [
    | some m ↦ ok d
    | none ↦ ok (record d {
      members =
          d.members ++ record { team_id = team.id; user_id = actor; role = team.invite_role } ∷ [];
    })
  ]
