-- ===== src/Teams/Tests.antt =====
-- A club of an owner, an admin and a member, and a second team with an entry of its own.
use hermes_python.Prelude.{◌≡◌, refl, true, none, List, [], ◌∷◌, arith}
use hermes_python.Governance.{default_policy, can, ensure_policy, default_from}
use hermes_python.Http.{is_ok}
use hermes_python.Teams.{Team, TeamMember, User, Tables}
use hermes_python.Teams.Content.{entry}
use hermes_python.Teams.Membership.{create_team}
use hermes_python.Teams.Requests.{
  Request, adds_member, removes_member, updates_member, deletes_knowledge, deletes_team, handle,
  after, after_all, permits, allowed,
}
use hermes_python.Teams.Rows.{is_owner}
use hermes_python.Teams.Owners.{nothing, next, owners_stay}
use hermes_python.Teams.Allowed.{handle-allowed}
use hermes_python.Teams.Foreign.{delete_knowledge_elsewhere, promotes_itself}

abbrev nobody : Tables
nobody = record {
  users = record { id = 1; email = "a@x" } ∷ record { id = 2; email = "b@x" } ∷ [];
  teams = [];
  members = [];
  knowledge = [];
  projects = [];
  tasks = [];
  docs = [];
}

abbrev two_teams : Tables
two_teams = create_team 20 "other" 2 (create_team 10 "club" 1 nobody)

handle-allowed_example : allowed (adds_member 1 10 "b@x" "admin") two_teams ≡ true
unfolding handle create_team hermes_python.Teams.Membership.add_member
    hermes_python.Teams.require_permission hermes_python.Teams.require_membership can
    hermes_python.Teams.Membership.add_row
handle-allowed_example = handle-allowed (adds_member 1 10 "b@x" "admin") two_teams refl

abbrev asked : List Request
asked = removes_member 1 10 1 ∷ updates_member 1 10 1 "member" ∷ deletes_team 2 20 ∷ []

owners_stay_example : is_owner 10 1 (after_all asked two_teams).members ≡ true
unfolding create_team
owners_stay_example =
    owners_stay 10 1
      (next {r = removes_member 1 10 1} tt (
        next {r = updates_member 1 10 1 "member"} tt
          (next {r = deletes_team 2 20} (λ e. ground arith) nothing)))
      two_teams refl

abbrev staffed : Tables
staffed = record two_teams {
  members =
      record { team_id = 10; user_id = 1; role = "owner" }
      ∷ record { team_id = 20; user_id = 2; role = "owner" }
      ∷ record { team_id = 10; user_id = 2; role = "admin" }
      ∷ [];
  knowledge = record { id = 7; team_id = 20; name = "plan"; content = none } ∷ [];
}

delete_knowledge_elsewhere_example :
    (is_ok (handle (deletes_knowledge 1 10 7) staffed) ≡ true)
    × (entry 7 (after (deletes_knowledge 1 10 7) staffed) ≡ none)
unfolding create_team permits can
delete_knowledge_elsewhere_example = delete_knowledge_elsewhere staffed 1 10 7 refl

promotes_itself_example :
    is_owner 10 2 (after (updates_member 2 10 2 "owner") staffed).members ≡ true
unfolding create_team permits can ensure_policy default_policy default_from hermes_python.Dict.get
    hermes_python.Dict.put hermes_python.Dict.merge hermes_python.Dict.keep_keys
    hermes_python.Governance.default_row hermes_python.Governance.is_team_role
promotes_itself_example = promotes_itself staffed 2 10 refl refl
