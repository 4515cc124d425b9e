-- ===== src/Profiles/Tests.antt =====
-- Two scans of one directory and two agents.
use hermes_python.Prelude.{
  ℕ, ◌≡◌, refl, Bool, true, false, none, some, String, List, [], ◌∷◌, ◌++◌, map, string_has_eq,
  keep,
}
use hermes_python.Http.{ok}
use hermes_python.Profiles.{
  Agent, Profile, Found, handles, add_missing, from_files, from_agent, scan_profiles,
}
use hermes_python.Profiles.Scanned.{scan_profiles_again}

abbrev files : List Found
files = record { id = 1; name = "Main"; handle = "main"; model = none; path = some "/h/main" } ∷ []

abbrev agent : String → Bool → Agent
agent id available = record {
  id = id;
  label = id;
  kind = "acp_cli";
  available = available;
  version = none;
  color = "";
  icon = "";
  description = "";
}

abbrev agents : List (Agent × ℕ)
agents = (agent "hermes" true, 2) ∷ (agent "coder" false, 3) ∷ []

abbrev scanned : List Profile × ℕ
scanned =
    add_missing
      (map from_files files ++ map from_agent (keep (λ (x : Agent × ℕ). x.0.available) agents)) []

scan_profiles_again_example :
    (scan_profiles "admin" files agents true [] ≡ ok scanned)
    × (scan_profiles "admin" files agents true scanned.0 ≡ ok (scanned.0, 0))
scan_profiles_again_example = scan_profiles_again files agents true []

-- The agent that is not available has no profile.
found : handles scanned.0 ≡ "main" ∷ "agent-hermes" ∷ []
unfolding add_missing
found = refl
