-- ===== src/Identity/Tests.antt =====
-- A login from a directory that links a local account, and a configuration with a password.
use hermes_python.Prelude.{
  ◌≡◌, Bool, true, none, some, String, [], ◌∷◌, ◌==◌, string_has_eq, length,
}
use hermes_python.Identity.{IdentityInfo, Mapping, Directory, Provider, provision_user}
use hermes_python.Identity.Again.{provision_user_again}

abbrev info : IdentityInfo
info = record {
  external_id = "cn=ann";
  email = "ann@x";
  name = "Ann";
  source = "ldap";
  department = some "it";
  groups = [];
}

abbrev it_team : Mapping
it_team = record {
  id = 1;
  provider_id = "ldap";
  match_basis = "attribute";
  source_value = "it";
  default_role = "member";
  auto_join_team_id = some 10;
}

abbrev local : Directory
local = record {
  users =
      record {
        id = 4;
        email = "ann@x";
        name = "Ann";
        department = none;
        source = "local";
        external_id = none;
        password_hash = some "h";
        role = "admin";
        status = "active";
      }
      ∷ [];
  members = [];
}

abbrev lower : String → String
lower s = s

abbrev is_in : String → String → Bool
is_in s t = s == t

provision_user_again_example :
    let first = provision_user lower is_in info (it_team ∷ []) 5 local in
    let second = provision_user lower is_in info (it_team ∷ []) 6 first.0 in
    (second.1 ≡ first.1)
    × (length second.0.users ≡ length first.0.users)
    × (second.0.members ≡ first.0.members)
provision_user_again_example = provision_user_again lower is_in info (it_team ∷ []) 5 6 local

abbrev ldap : Provider
ldap = record {
  id = "ldap";
  enabled = true;
  config = ("bind_password", "s3cret") ∷ ("host", "a") ∷ [];
}
