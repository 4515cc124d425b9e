-- ===== src/Identity.antt =====
-- backend/app/services/identity_service.py: users that come from a directory, their teams, and the
-- configuration of the directories.
pub mod Again
pub mod Secrets
mod Tests
use hermes_python.Prelude.{
  ℕ, Bool, true, false, ◌&&◌, ◌||◌, not, Option, none, some, String, List, [], ◌∷◌, ◌++◌, HasEq,
  ◌==◌, nat_has_eq, string_has_eq, contains, find?, keep, if◌then◌else◌,
}
use hermes_python.Dict.{Dict, get, put}
use hermes_python.Http.{Reply, ok, http, check, found, ◌>>=◌, ◌>>◌}

-- What a directory says of who logs in.
pub record IdentityInfo : Type 0 where
  pub external_id : String
  pub email : String
  pub name : String
  pub source : String
  pub department : Option String
  pub groups : List String

pub record Mapping : Type 0 where
  pub id : ℕ
  pub provider_id : String
  pub match_basis : String
  pub source_value : String
  pub default_role : String
  pub auto_join_team_id : Option ℕ

pub record User : Type 0 where
  pub id : ℕ
  pub email : String
  pub name : String
  pub department : Option String
  pub source : String
  pub external_id : Option String
  pub password_hash : Option String
  pub role : String
  pub status : String

pub record Member : Type 0 where
  pub team_id : ℕ
  pub user_id : ℕ
  pub role : String

pub record Directory : Type 0 where
  pub users : List User
  pub members : List Member

pub record Provider : Type 0 where
  pub id : String
  pub enabled : Bool
  pub config : Dict String String

abbrev pub is_truthy : Option String → Bool
is_truthy none = false
is_truthy (some s) = not (s == "")

abbrev pub secret_keys : List String
secret_keys = "bind_password" ∷ "app_secret" ∷ []

-- `k in _SECRET_KEYS and v == "" and existing.get(k)`
unfoldable pub is_kept : Dict String String → String → String → Bool
unfolding get
is_kept existing k v = contains k secret_keys && v == "" && is_truthy (get k existing)

-- The loop over the items of the new configuration.
unfoldable pub merged :
    Dict String String → Dict String String → Dict String String → Dict String String
unfolding is_kept put
merged existing [] acc = acc
merged existing ((k, v) ∷ rest) acc =
    merged existing rest (if is_kept existing k v then acc else put k v acc)

unfoldable pub update_provider : Option Bool → Option (Dict String String) → Provider → Provider
unfolding merged
update_provider enabled config p = record p {
  enabled = elim enabled [ none ↦ p.enabled | some e ↦ e ];
  config = elim config [ none ↦ p.config | some c ↦ merged p.config c p.config ];
}

unfoldable pub add_mapping : Mapping → List Mapping → List Mapping
add_mapping m ms = ms ++ m ∷ []

unfoldable pub delete_mapping : ℕ → List Mapping → List Mapping
delete_mapping id ms = keep (λ (m : Mapping). not (m.id == id)) ms

abbrev pub list_mappings : String → List Mapping → List Mapping
list_mappings pid ms = keep (λ (m : Mapping). m.provider_id == pid) ms

unfoldable pub any : (String → Bool) → List String → Bool
any p [] = false
any p (x ∷ xs) = p x || any p xs

-- Python's `lower` of a text, and its `in` for two.
module _ (lower : String → String) (is_in : String → String → Bool) where
  abbrev pub matches : IdentityInfo → Mapping → Bool
  matches info m =
      if m.match_basis == "dn"
      then any (λ g. is_in (lower m.source_value) (lower g)) info.groups
        || is_in (lower m.source_value) (lower info.external_id)
      else elim info.department [
        | none ↦ false
        | some dep ↦ not (dep == "") && lower dep == lower m.source_value
      ]

  -- `_match`: the first that matches.
  abbrev pub match_of : IdentityInfo → List Mapping → Option Mapping
  match_of info ms = find? (matches info) ms

  abbrev pub is_linked : IdentityInfo → User → Bool
  is_linked info u =
      u.source == info.source
      && elim u.external_id [ none ↦ false | some e ↦ e == info.external_id ]

  unfoldable pub put_user : ℕ → (User → User) → List User → List User
  put_user id f [] = []
  put_user id f (u ∷ us) = (if u.id == id then f u else u) ∷ put_user id f us

  -- `if info.department: user.department = info.department`
  abbrev pub with_department : IdentityInfo → User → User
  with_department info u = record u {
    department = if is_truthy info.department then info.department else u.department;
  }

  abbrev pub linked : IdentityInfo → User → User
  linked info u = record u { source = info.source; external_id = some info.external_id }

  abbrev pub new_user : ℕ → IdentityInfo → String → User
  new_user id info role = record {
    id = id;
    email = lower info.email;
    name = info.name;
    department = info.department;
    source = info.source;
    external_id = some info.external_id;
    password_hash = none;
    role = role;
    status = "active";
  }

  -- The users afterwards, and which of them it is: by the directory's id, else by email, else a new one.
  unfoldable pub provision_row : IdentityInfo → String → ℕ → List User → List User × ℕ
  unfolding put_user
  provision_row info role id us = elim (find? (is_linked info) us) [
    | some u ↦ (put_user u.id (with_department info) us, u.id)
    | none ↦ elim (find? (λ (u : User). u.email == lower info.email) us) [
      | some u ↦ (put_user u.id (λ x. with_department info (linked info x)) us, u.id)
      | none ↦ (us ++ new_user id info role ∷ [], id)
    ]
  ]

  abbrev pub is_row : ℕ → ℕ → Member → Bool
  is_row t u m = m.team_id == t && m.user_id == u

  unfoldable pub auto_join : Option Mapping → ℕ → List Member → List Member
  auto_join none u ms = ms
  auto_join (some m) u ms = elim m.auto_join_team_id [
    | none ↦ ms
    | some t ↦ elim (find? (is_row t u) ms) [
      | some x ↦ ms
      | none ↦ ms ++ record { team_id = t; user_id = u; role = m.default_role } ∷ []
    ]
  ]

  abbrev pub role_of : Option Mapping → String
  role_of none = "member"
  role_of (some m) = m.default_role

  -- `provision_user`, with the id of a new row; the number is the user's.
  unfoldable pub provision_user : IdentityInfo → List Mapping → ℕ → Directory → Directory × ℕ
  unfolding provision_row auto_join
  provision_user info ms id d =
      let mapping = match_of info ms in
      let got = provision_row info (role_of mapping) id d.users in
      (record { users = got.0; members = auto_join mapping got.1 d.members }, got.1)

  -- `authenticate_external`; what the directory answers is the user's identity or an HTTP error.
  unfoldable pub authenticate_external :
      Option Provider
      → String
      → Reply IdentityInfo
      → List Mapping
      → ℕ
      → Directory
      → Reply (Directory × ℕ)
  unfolding provision_user
  authenticate_external provider method answer ms id d = do
    p ← found provider 403
    check p.enabled 403
    check (method == "ldap") 501
    info ← answer
    ok (provision_user info (list_mappings method ms) id d)
