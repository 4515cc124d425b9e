-- ===== src/Profiles.antt =====
-- backend/app/api/v1/agents.py: the agents that are found on the machine, and the profiles, which
-- are agents with a role of their own.
pub mod Scanned
mod Tests
use hermes_python.Prelude.{
  ℕ, zero, suc, ◌+◌, Bool, true, false, ◌&&◌, ◌||◌, not, Option, none, some, String, List, [], ◌∷◌,
  ◌++◌, ◌<>◌, map, HasEq, ◌==◌, nat_has_eq, string_has_eq, contains, find?, keep, if◌then◌else◌,
}
use hermes_python.Http.{Reply, ok, http, check, found, ◌>>=◌, ◌>>◌}

pub record Agent : Type 0 where
  pub id : String
  pub label : String
  pub kind : String
  pub available : Bool
  pub version : Option String
  pub color : String
  pub icon : String
  pub description : String

pub record Profile : Type 0 where
  pub id : ℕ
  pub name : String
  pub handle : String
  pub scope : String
  pub color : String
  pub icon : String
  pub desc : String
  pub default_agent_id : String
  pub default_model : String
  pub system_prompt : Option String
  pub skills : Option String
  pub team_id : Option ℕ
  pub path : Option String
  pub featured : Bool

-- `_require_admin`
abbrev pub require_admin : String → Reply (Unit {0})
require_admin role = check (role == "super_admin" || role == "admin") 403

abbrev pub row : ℕ → List Profile → Option Profile
row id ps = find? (λ (p : Profile). p.id == id) ps

unfoldable pub create_profile : String → Profile → List Profile → Reply (List Profile)
create_profile role p ps = do require_admin role; ok (ps ++ p ∷ [])

unfoldable pub put_profile : ℕ → (Profile → Profile) → List Profile → List Profile
put_profile id f [] = []
put_profile id f (p ∷ ps) = (if p.id == id then f p else p) ∷ put_profile id f ps

-- The change stands for the fields that are set in the payload.
unfoldable pub update_profile :
    String → ℕ → (Profile → Profile) → List Profile → Reply (List Profile)
unfolding put_profile
update_profile role id change ps = do
  require_admin role
  p ← found (row id ps) 404
  ok (put_profile id change ps)

unfoldable pub delete_profile : String → ℕ → List Profile → Reply (List Profile)
delete_profile role id ps = do
  require_admin role
  p ← found (row id ps) 404
  ok (keep (λ (p : Profile). not (p.id == id)) ps)

-- The six digits of the new handle are random, as is the id.
unfoldable pub clone_profile : String → ℕ → ℕ → String → List Profile → Reply (List Profile)
clone_profile role id new_id hex ps = do
  require_admin role
  p ← found (row id ps) 404
  ok (
      ps
      ++ record p {
        id = new_id;
        name = p.name <> " (副本)";
        handle = p.handle <> "-copy-" <> hex;
        featured = false;
      }
        ∷ [])

abbrev pub handles : List Profile → List String
handles ps = map (λ (p : Profile). p.handle) ps

-- The loop of `import_profiles`; the random digits come with each item.
unfoldable pub import_each : List (Profile × String) → List Profile → List Profile
import_each [] ps = ps
import_each ((p, hex) ∷ more) ps = import_each more (
    ps
    ++ record p {
      handle = if contains p.handle (handles ps) then p.handle <> "-" <> hex else p.handle;
      team_id = none;
      path = none;
    }
      ∷ [])

unfoldable pub import_profiles :
    String → List (Profile × String) → List Profile → Reply (List Profile)
unfolding import_each
import_profiles role items ps = do require_admin role; ok (import_each items ps)

-- Rows whose handle is not taken yet are added; the number is how many.
unfoldable pub add_missing : List Profile → List Profile → List Profile × ℕ
add_missing [] ps = (ps, 0)
add_missing (c ∷ cs) ps =
    let taken = contains c.handle (handles ps) in
    let rest = add_missing cs (if taken then ps else ps ++ c ∷ []) in
    (rest.0, (if taken then 0 else 1) + rest.1)

-- A profile that is found in the file system.
pub record Found : Type 0 where
  pub id : ℕ
  pub name : String
  pub handle : String
  pub model : Option String
  pub path : Option String

abbrev or_default : String → String → String
or_default s default = if s == "" then default else s

abbrev pub from_files : Found → Profile
from_files f = record {
  id = f.id;
  name = f.name;
  handle = f.handle;
  scope = "personal";
  color = "#b8852a";
  icon = "brand";
  desc = "";
  default_agent_id = "hermes";
  default_model = elim f.model [ none ↦ "hermes-4" | some m ↦ m ];
  system_prompt = none;
  skills = none;
  team_id = none;
  path = f.path;
  featured = false;
}

abbrev pub from_agent : Agent × ℕ → Profile
from_agent (a, id) = record {
  id = id;
  name = a.label;
  handle = "agent-" <> a.id;
  scope = "global";
  color = or_default a.color "#b8852a";
  icon = or_default a.icon "sparkle";
  desc = a.description;
  default_agent_id = a.id;
  default_model = "hermes-4";
  system_prompt = none;
  skills = none;
  team_id = none;
  path = none;
  featured = false;
}

-- `scan_profiles`: what was found, the agents with ids for new rows, and whether the commit works.
-- A failed one is rolled back and counts none.
unfoldable pub scan_profiles :
    String → List Found → List (Agent × ℕ) → Bool → List Profile → Reply (List Profile × ℕ)
unfolding add_missing
scan_profiles role fs agents commits ps = do
  require_admin role
  let of_agents = keep (λ (x : Agent × ℕ). x.0.available) agents in
      let got = add_missing (map from_files fs ++ map from_agent of_agents) ps in
      ok (if commits then got else (ps, 0))

-- The rows after `scan_agents`, and how many were created and how many updated.
unfoldable pub put_agent : Agent → List Agent → List Agent
put_agent a [] = a ∷ []
put_agent a (x ∷ xs) = if x.id == a.id then a ∷ xs else x ∷ put_agent a xs

abbrev pub has_agent : String → List Agent → Bool
has_agent id xs = elim (find? (λ (x : Agent). x.id == id) xs) [ none ↦ false | some x ↦ true ]

unfoldable pub upsert_each : List Agent → List Agent → List Agent × ℕ × ℕ
unfolding put_agent
upsert_each [] rows = (rows, 0, 0)
upsert_each (a ∷ more) rows =
    let known = has_agent a.id rows in
    let rest = upsert_each more (put_agent a rows) in
    (rest.0, (if known then 0 else 1) + rest.1, (if known then 1 else 0) + rest.2)

unfoldable pub scan_agents : String → List Agent → List Agent → Reply (List Agent × ℕ × ℕ)
unfolding upsert_each
scan_agents role discovered rows = do require_admin role; ok (upsert_each discovered rows)
