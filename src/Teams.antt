-- ===== src/Teams.antt =====
-- backend/app/services/team_service.py, and the handlers of backend/app/api/v1/teams.py: the tables
-- of teams, their members and what they own. A handler gives the new tables or an HTTP error.
pub mod Membership
pub mod Settings
pub mod Content
pub mod Projects
pub mod Requests
pub mod Rows
pub mod Owners
pub mod Allowed
pub mod Foreign
mod Tests
use hermes_python.Prelude.{
  ℕ, Bool, true, false, ◌&&◌, ◌||◌, not, Option, none, some, String, List, [], ◌∷◌, ◌++◌, HasEq,
  ◌==◌, nat_has_eq, string_has_eq, find?, if◌then◌else◌,
}
use hermes_python.Governance.{Policy, can}
use hermes_python.Http.{Reply, ok, http, check, found, ◌>>=◌, ◌>>◌}

pub record Team : Type 0 where
  pub id : ℕ
  pub name : String
  pub policy : Option Policy
  pub shared_agents : List String
  pub shared_profile_ids : List String
  pub channel_mode : String
  pub invite_token : Option String
  pub invite_expires_at : Option ℕ
  pub invite_role : String

pub record TeamMember : Type 0 where
  pub team_id : ℕ
  pub user_id : ℕ
  pub role : String

pub record User : Type 0 where
  pub id : ℕ
  pub email : String

pub record Knowledge : Type 0 where
  pub id : ℕ
  pub team_id : ℕ
  pub name : String
  pub content : Option String

pub record Project : Type 0 where
  pub id : ℕ
  pub team_id : ℕ
  pub name : String
  pub member_ids : List ℕ

pub record Task : Type 0 where
  pub id : ℕ
  pub project_id : ℕ
  pub title : String
  pub status : String
  pub order_idx : ℕ

pub record Doc : Type 0 where
  pub id : ℕ
  pub project_id : ℕ
  pub name : String

pub record Tables : Type 0 where
  pub users : List User
  pub teams : List Team
  pub members : List TeamMember
  pub knowledge : List Knowledge
  pub projects : List Project
  pub tasks : List Task
  pub docs : List Doc

abbrev pub team_of : ℕ → Tables → Option Team
team_of t d = find? (λ (x : Team). x.id == t) d.teams

abbrev pub is_row : ℕ → ℕ → TeamMember → Bool
is_row t u m = m.team_id == t && m.user_id == u

-- `get_membership`
abbrev pub membership : ℕ → ℕ → List TeamMember → Option TeamMember
membership t u ms = find? (is_row t u) ms

unfoldable pub require_membership : Tables → ℕ → ℕ → Reply (Team × TeamMember)
require_membership d t u = do
  team ← found (team_of t d) 404
  member ← found (membership t u d.members) 403
  ok (team, member)

unfoldable pub require_permission : Tables → ℕ → ℕ → String → Reply (Team × TeamMember)
require_permission d t u perm = do
  got ← require_membership d t u
  check (can got.0.policy perm got.1.role) 403
  ok got

-- `member.role in ("owner", "admin")`
abbrev pub is_manager : TeamMember → Bool
is_manager m = m.role == "owner" || m.role == "admin"

unfoldable pub require_manager : Tables → ℕ → ℕ → Reply (Team × TeamMember)
require_manager d t u = do got ← require_membership d t u; check (is_manager got.1) 403; ok got

-- A row written back.
unfoldable pub put_team : ℕ → (Team → Team) → List Team → List Team
put_team t f [] = []
put_team t f (x ∷ xs) = (if x.id == t then f x else x) ∷ put_team t f xs
