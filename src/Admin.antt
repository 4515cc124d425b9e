-- ===== src/Admin.antt =====
-- backend/app/api/v1/admin.py: the matrix of platform permissions with what is stored over it, the
-- users, the settings and the MCP servers.
pub mod Shown
mod Tests
use hermes_python.Prelude.{
  ℕ, ◌+◌, Bool, true, false, ◌&&◌, ◌||◌, not, Option, none, some, String, List, [], ◌∷◌, ◌++◌, map,
  HasEq, ◌==◌, nat_has_eq, string_has_eq, contains, find?, keep, leb, if◌then◌else◌,
}
use hermes_python.Dict.{Dict, get, put}
use hermes_python.Http.{Reply, ok, http, check, found, ◌>>=◌, ◌>>◌}
use hermes_python.Rbac.{Item, Group, role_rank, permission_catalog}

-- `permission_overrides` of the settings: the roles of a permission.
abbrev pub Overrides : Type 0
Overrides = Dict String (List String)

abbrev pub overridden : Overrides → Item → Item
overridden o i = record i { roles = elim (get i.id o) [ none ↦ i.roles | some rs ↦ rs ] }

-- `_build_permissions`
abbrev pub build_permissions : Overrides → List Group
build_permissions o =
    map (λ (g : Group). record g { items = map (overridden o) g.items }) permission_catalog

abbrev pub in_items : String → List Item → Option (List String)
in_items p [] = none
in_items p (i ∷ is) = if i.id == p then some i.roles else in_items p is

-- The loops over the catalog, of which only the inner one breaks.
abbrev pub in_groups : String → List Group → Option (List String)
in_groups p [] = none
in_groups p (g ∷ gs) = elim (in_groups p gs) [ some rs ↦ some rs | none ↦ in_items p g.items ]

abbrev pub role_names : List String
role_names = "super_admin" ∷ "admin" ∷ "team_admin" ∷ "member" ∷ "viewer" ∷ []

-- `list.remove`
unfoldable pub remove : String → List String → List String
remove r [] = []
remove r (x ∷ xs) = if x == r then xs else x ∷ remove r xs

abbrev pub is_some {ℓ} : {A : Type ℓ} → Option A → Bool
is_some none = false
is_some (some a) = true

-- The roles that a permission has now.
abbrev pub current_roles : Overrides → String → List String
current_roles o p = elim (get p o) [
  | some rs ↦ rs
  | none ↦ elim (in_groups p permission_catalog) [ none ↦ [] | some rs ↦ rs ]
]

unfoldable pub changed : Bool → String → List String → List String
unfolding remove
changed granted role rs =
    if granted && not (contains role rs)
    then rs ++ role ∷ []
    else if not granted && contains role rs
    then remove role rs
    else rs

-- The role of who asks, the permission, the role and whether it is to have it.
unfoldable pub toggle_permission : String → String → String → Bool → Overrides → Reply Overrides
unfolding changed
toggle_permission admin p role granted o = do
  check (leb (role_rank "super_admin") (role_rank admin)) 403
  check (is_some (in_groups p permission_catalog)) 404
  check (contains role role_names) 422
  ok (put p (changed granted role (current_roles o p)) o)

pub record User : Type 0 where
  pub id : ℕ
  pub email : String
  pub role : String
  pub status : String
  pub is_active : Bool
  pub department : Option String
  pub title : Option String

-- The fields of `AdminUserUpdate` that are set.
pub record Changes : Type 0 where
  pub role : Option String
  pub status : Option String
  pub is_active : Option Bool

abbrev or_old {ℓ} : {A : Type ℓ} → Option A → A → A
or_old none old = old
or_old (some new) old = new

abbrev is_inactive : Option String → Bool
is_inactive none = false
is_inactive (some s) = s == "inactive"

unfoldable pub update_user : Changes → User → User
update_user c u = record u {
  role = or_old c.role u.role;
  status = or_old c.status u.status;
  is_active = if is_inactive c.status then false else or_old c.is_active u.is_active;
}

-- `create_user`: the email in lower case must not be taken.
unfoldable pub create_user : User → List User → Reply (List User)
create_user u us = do
  check (not (is_some (find? (λ (x : User). x.email == u.email) us))) 409
  ok (us ++ u ∷ [])

pub record McpServer : Type 0 where
  pub name : String
  pub transport : String
  pub command : Option String
  pub url : Option String

unfoldable pub add_mcp_server : McpServer → List McpServer → Reply (List McpServer)
add_mcp_server s servers = do
  check (not (is_some (find? (λ (x : McpServer). x.name == s.name) servers))) 409
  ok (servers ++ s ∷ [])

unfoldable pub delete_mcp_server : String → List McpServer → List McpServer
delete_mcp_server name servers = keep (λ (x : McpServer). not (x.name == name)) servers
