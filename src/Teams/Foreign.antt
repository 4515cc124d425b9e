-- ===== src/Teams/Foreign.antt =====
-- How far a permission in one team reaches: to the knowledge of another, and to the owner's role.
use hermes_python.Prelude.{
  ℕ, ◌≡◌, refl, true, false, not, none, some, String, List, [], ◌∷◌, arith, Option-cases,
  Bool-cases, inl, inr, ◌==◌, nat_has_eq, string_has_eq, find?, keep,
}
use hermes_python.Http.{is_ok, ok}
use hermes_python.Teams.{
  Team, TeamMember, Knowledge, Tables, team_of, membership, is_row, require_membership,
  require_permission,
}
use hermes_python.Teams.Membership.{set_role, update_member, update_member_role}
use hermes_python.Teams.Content.{entry, delete_knowledge, get_knowledge_content}
use hermes_python.Teams.Requests.{permits, handle, after, deletes_knowledge, updates_member}
use hermes_python.Teams.Rows.{is_owner}

pub permitted :
    (d : Tables) (t u : ℕ) (perm : String)
    → permits d t u perm ≡ true
    → (x : Team × TeamMember) × require_permission d t u perm ≡ ok x
unfolding permits require_permission require_membership
permitted d t u perm h = elim (Option-cases (team_of t d)) [
  | inl e ↦ ground (arith, rw (e, permits) at h)
  | inr (team, e) ↦ elim (Option-cases (membership t u d.members)) [
    | inl g ↦ ground (arith, rw (e, g, permits) at h)
    | inr (m, g) ↦
        let may = rw (e, g, permits) at h in
        ((team, m), rw (e, g, require_permission, require_membership, may) refl)
  ]
]

entry-keep :
    (k : ℕ) (rows : List Knowledge)
    → find? (λ (x : Knowledge). x.id == k) (keep (λ (x : Knowledge). not (x.id == k)) rows) ≡ none
entry-keep k [] = refl
entry-keep k (x ∷ rows) = ground (arith, entry-keep k rows)

-- Who may delete knowledge in one team can delete any entry: the request for it is not refused, and
-- the entry is gone afterwards, whichever team it is of.
pub delete_knowledge_elsewhere :
    (d : Tables) (actor t k : ℕ)
    → permits d t actor "knowledge.delete" ≡ true
    → (is_ok (handle (deletes_knowledge actor t k) d) ≡ true)
      × (entry k (after (deletes_knowledge actor t k) d) ≡ none)
unfolding handle delete_knowledge
delete_knowledge_elsewhere d actor t k h =
    let got = permitted d t actor "knowledge.delete" h in
    (rw (got.1, delete_knowledge) refl, rw (got.1, delete_knowledge) (entry-keep k d.knowledge))

-- What is read of a team's knowledge is an entry of that team.
pub get_knowledge_content_own :
    (d : Tables) (actor t k : ℕ) (row : Knowledge)
    → get_knowledge_content actor t k d ≡ ok row
    → row.team_id ≡ t
unfolding get_knowledge_content
get_knowledge_content_own d actor t k row h = ground (arith, nat_has_eq.same_iff row.team_id t)

owner-set_role :
    (t u : ℕ) (ms : List TeamMember) (m : TeamMember)
    → membership t u ms ≡ some m
    → is_owner t u (set_role t u "owner" ms) ≡ true
unfolding set_role
owner-set_role t u [] m h = ground arith
owner-set_role t u (x ∷ ms) m h = elim (Bool-cases (is_row t u x)) [
  | inl y ↦ rw (y, set_role, is_owner) refl
  | inr n ↦ rw (n, set_role, is_owner) (owner-set_role t u ms m (rw n at h))
]

member_of :
    (d : Tables) (t u : ℕ) (perm : String)
    → permits d t u perm ≡ true
    → (m : TeamMember) × (membership t u d.members ≡ some m)
unfolding permits
member_of d t u perm h = elim (Option-cases (team_of t d)) [
  | inl e ↦ ground (arith, rw (e, permits) at h)
  | inr (team, e) ↦ elim (Option-cases (membership t u d.members)) [
    | inl g ↦ ground (arith, rw (e, g, permits) at h)
    | inr (m, g) ↦ (m, g)
  ]
]

-- Who may change roles in a team, and is not an owner of it, is an owner after asking for that role
-- for itself.
pub promotes_itself :
    (d : Tables) (actor t : ℕ)
    → permits d t actor "member.role" ≡ true
    → is_owner t actor d.members ≡ false
    → is_owner t actor (after (updates_member actor t actor "owner") d).members ≡ true
unfolding handle update_member update_member_role
promotes_itself d actor t h n =
    let got = permitted d t actor "member.role" h in
    let row = member_of d t actor "member.role" h in
    let lower = rw (is_owner, row.1) at n in
    rw (got.1, row.1, update_member, update_member_role, lower)
      (owner-set_role t actor d.members row.0 row.1)
