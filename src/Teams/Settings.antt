-- ===== src/Teams/Settings.antt =====
-- What the managers of a team, or those with a permission for it, change of it.
use hermes_python.Prelude.{
  ℕ, Bool, false, ◌||◌, not, Option, none, some, String, List, ◌==◌, nat_has_eq, string_has_eq,
  keep,
}
use hermes_python.Governance.{Policy, ensure_policy}
use hermes_python.Http.{Reply, ok, check, ◌>>=◌, ◌>>◌}
use hermes_python.Teams.{
  Team, TeamMember, Knowledge, Project, Task, Doc, Tables, require_membership, require_permission,
  require_manager, put_team,
}
use hermes_python.Teams.Projects.{project_of}

-- The fields that are set in the payload; the name stands for the three of them.
unfoldable pub update_team : ℕ → ℕ → Option String → Tables → Reply Tables
update_team actor t name d = do
  got ← require_manager d t actor
  ok (record d {
    teams = put_team t (λ x. record x { name = elim name [ none ↦ x.name | some n ↦ n ] }) d.teams;
  })

-- The project stands, and is of the team.
abbrev pub is_project_of : ℕ → Tables → ℕ → Bool
is_project_of t d p = elim (project_of p d) [ none ↦ false | some x ↦ x.team_id == t ]

-- What is of the team goes with it, and what is of its projects with them.
unfoldable pub delete_team : ℕ → ℕ → Tables → Reply Tables
delete_team actor t d = do
  got ← require_membership d t actor
  check (got.1.role == "owner") 403
  ok (record d {
    teams = keep (λ (x : Team). not (x.id == t)) d.teams;
    members = keep (λ (m : TeamMember). not (m.team_id == t)) d.members;
    knowledge = keep (λ (k : Knowledge). not (k.team_id == t)) d.knowledge;
    projects = keep (λ (p : Project). not (p.team_id == t)) d.projects;
    tasks = keep (λ (x : Task). not (is_project_of t d x.project_id)) d.tasks;
    docs = keep (λ (x : Doc). not (is_project_of t d x.project_id)) d.docs;
  })

unfoldable pub set_channel_mode : ℕ → ℕ → String → Tables → Reply Tables
set_channel_mode actor t mode d = do
  got ← require_manager d t actor
  check (mode == "off" || mode == "mention" || mode == "always") 422
  ok (record d { teams = put_team t (λ x. record x { channel_mode = mode }) d.teams })

unfoldable pub put_policy : ℕ → ℕ → Policy → Tables → Reply Tables
put_policy actor t policy d = do
  got ← require_manager d t actor
  ok (record d {
    teams = put_team t (λ x. record x { policy = some (ensure_policy (some policy)) }) d.teams;
  })

unfoldable pub set_shared_agents : ℕ → ℕ → List String → Tables → Reply Tables
set_shared_agents actor t ids d = do
  got ← require_permission d t actor "agent.manage"
  ok (record d { teams = put_team t (λ x. record x { shared_agents = ids }) d.teams })

unfoldable pub set_shared_profiles : ℕ → ℕ → List String → Tables → Reply Tables
set_shared_profiles actor t ids d = do
  got ← require_permission d t actor "agent.manage"
  ok (record d { teams = put_team t (λ x. record x { shared_profile_ids = ids }) d.teams })
