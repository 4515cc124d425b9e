-- ===== src/Auth.antt =====
-- backend/app/services/auth_service.py. The library that reads and signs tokens, the hash of
-- passwords and the keys that expire in Redis are parameters.
pub mod Revoked
pub mod Refreshed
mod Tests
use hermes_python.Prelude.{
  ℕ, ◌+◌, ◌-◌, ◌≤◌, ◌<◌, ◌≡◌, ◌≢◌, Bool, true, false, ◌&&◌, ◌||◌, not, Option, none, some, String,
  List, [], ◌∷◌, ◌==◌, nat_has_eq, string_has_eq, find?, max, if◌then◌else◌,
}

pub record User : Type 0 where
  pub id : ℕ
  pub email : String
  pub password_hash : Option String
  pub is_active : Bool
  pub status : String

-- The payload of a token.
pub record Claims : Type 0 where
  pub sub : ℕ
  pub kind : String
  pub jti : Option String
  pub exp : ℕ

-- `decode_token` at a time; `none` is the exception of a token that is not valid then.
pub record Tokens : Type 0 where
  pub decode : ℕ → String → Option Claims

-- A token says the same whenever it is read, and is read only before it expires. The ids of tokens are
-- of `uuid4`, so that tokens of one id are one token.
pub record AreTokens (T : Tokens) : Type 0 where
  pub stable :
      (s t : ℕ) (token : String) (c d : Claims)
      → T.decode s token ≡ some c
      → T.decode t token ≡ some d
      → c ≡ d
  pub unexpired : (t : ℕ) (token : String) (c : Claims) → T.decode t token ≡ some c → t < c.exp
  pub by_id :
      (s t : ℕ) (a b : String) (c d : Claims) (j : String)
      → T.decode s a ≡ some c
      → T.decode t b ≡ some d
      → c.jti ≡ some j
      → d.jti ≡ some j
      → c ≡ d

-- The keys that `blacklist_jti` sets: at a time, for some seconds.
pub record Blacklist : Type 1 where
  pub State : Type 0
  pub blacklist_jti : ℕ → String → ℕ → State → State
  pub is_blacklisted : ℕ → String → State → Bool

-- A key is there from when it is set until its seconds are over, whatever other keys are set.
pub record Expires (B : Blacklist) : Type 0 where
  pub held :
      (now t ttl : ℕ) (jti : String) (s : B.State)
      → now ≤ t
      → t < now + ttl
      → B.is_blacklisted t jti (B.blacklist_jti now jti ttl s) ≡ true
  pub other :
      (now t ttl : ℕ) (jti key : String) (s : B.State)
      → key ≢ jti
      → B.is_blacklisted t jti (B.blacklist_jti now key ttl s) ≡ B.is_blacklisted t jti s

-- How `refresh_tokens` ends: with the user for whom new tokens are issued, or with an error.
pub data Refresh : Type 0 where
  invalid_token wrong_type revoked_token unknown_user : Refresh
  refreshed : User → Refresh

abbrev pub user_of : ℕ → List User → Option User
user_of i users = find? (λ (u : User). u.id == i) users

-- `if jti`
abbrev pub given_id : Option String → Option String
given_id none = none
given_id (some j) = if j == "" then none else some j

module _ (T : Tokens) (B : Blacklist) where
  -- `max(int(payload["exp"]) - now, 1)` seconds
  abbrev pub revoke : ℕ → Claims → B.State → B.State
  revoke now c s = elim (given_id c.jti) [
    | none ↦ s
    | some j ↦ B.blacklist_jti now j (max (c.exp - now) 1) s
  ]

  abbrev pub is_revoked : ℕ → Claims → B.State → Bool
  is_revoked now c s = elim (given_id c.jti) [ none ↦ false | some j ↦ B.is_blacklisted now j s ]

  -- What follows the reading of the token.
  unfoldable pub refresh_claims : ℕ → List User → Claims → B.State → Refresh × B.State
  refresh_claims now users c s =
      if not (c.kind == "refresh")
      then (wrong_type, s)
      else if is_revoked now c s
      then (revoked_token, s)
      else elim (user_of c.sub users) [
        | none ↦ (unknown_user, s)
        | some u ↦ if u.is_active then (refreshed u, revoke now c s) else (unknown_user, s)
      ]

  unfoldable pub refresh_tokens : ℕ → List User → String → B.State → Refresh × B.State
  refresh_tokens now users token s = elim (T.decode now token) [
    | none ↦ (invalid_token, s)
    | some c ↦ refresh_claims now users c s
  ]

  unfoldable pub logout : ℕ → Option String → B.State → B.State
  logout now token s = elim (given_id token) [
    | none ↦ s
    | some t ↦ elim (T.decode now t) [ none ↦ s | some c ↦ revoke now c s ]
  ]

  -- A refresh or a logout, with its time. The reading of the blacklist and the writing of it in one
  -- refresh are one step here: nothing comes between.
  pub data Action : Type 0 where
    refreshes : ℕ → List User → String → Action
    logs_out : ℕ → Option String → Action

  abbrev pub time_of : Action → ℕ
  time_of (refreshes now users token) = now
  time_of (logs_out now token) = now

  abbrev pub after : Action → B.State → B.State
  after (refreshes now users token) s = (refresh_tokens now users token s).1
  after (logs_out now token) s = logout now token s

  abbrev pub after_all : List Action → B.State → B.State
  after_all [] s = s
  after_all (a ∷ more) s = after_all more (after a s)

-- How `authenticate_local` ends: with the user's row, or with 401 or 403.
pub data Login : Type 0 where
  bad_credentials disabled : Login
  logged_in : User → Login

-- The library of password hashes.
pub record Hasher : Type 0 where
  pub verify : String → String → Bool
  pub needs_rehash : String → Bool
  pub hash : String → String

unfoldable pub authenticate_user : Hasher → String → User → Login
authenticate_user h password u = elim (given_id u.password_hash) [
  | none ↦ bad_credentials
  | some stored ↦
      if not (h.verify password stored)
      then bad_credentials
      else if not u.is_active || u.status == "inactive"
      then disabled
      else logged_in (record u {
        password_hash = some (if h.needs_rehash stored then h.hash password else stored);
      })
]

-- The user is looked up by the lower-case form of the name given.
unfoldable pub authenticate_local : Hasher → String → String → List User → Login
authenticate_local h email password users = elim (find? (λ (u : User). u.email == email) users) [
  | none ↦ bad_credentials
  | some u ↦ authenticate_user h password u
]
