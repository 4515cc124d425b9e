-- ===== src/Auth/Tests.antt =====
-- A token that expires at 100, and keys that expire in a function.
use hermes_python.Prelude.{
  ℕ, ◌+◌, ◌<◌, ◌≡◌, refl, true, false, none, some, String, List, [], ◌∷◌, ◌==◌, string_has_eq, ltb,
  arith, Bool-cases, inl, inr, if◌then◌else◌,
}
use hermes_python.Auth.{
  User, Claims, Tokens, AreTokens, Blacklist, Expires, refresh_claims, refresh_tokens, Action,
  refreshes, logs_out, after_all,
}
use hermes_python.Auth.Revoked.{is_refreshed}
use hermes_python.Auth.Refreshed.{refresh_tokens_once}

abbrev claims : Claims
claims = record { sub = 7; kind = "refresh"; jti = some "j1"; exp = 100 }

abbrev tokens : Tokens
tokens = record { decode = λ now token. if ltb now 100 then some claims else none }

tokens-AreTokens : AreTokens tokens
tokens-AreTokens = record {
  stable = λ s t token c d e f. ground arith;
  unexpired = λ t token c e. expired_later t c e;
  by_id = λ s t a b c d j e f g h. ground arith;
}
  where
    expired_later :
        (t : ℕ) (c : Claims) → (if ltb t 100 then some claims else none) ≡ some c → t < c.exp
    expired_later t c e = elim (Bool-cases (ltb t 100)) [
      | inl early ↦ ground (arith, rw early at e)
      | inr late ↦ ground (arith, rw late at e)
    ]

abbrev keys : Blacklist
keys = record {
  State = String → ℕ;
  blacklist_jti = λ now jti ttl s. λ k. if jti == k then now + ttl else s k;
  is_blacklisted = λ now jti s. ltb now (s jti);
}

keys-Expires : Expires keys
keys-Expires = record {
  held = λ now t ttl jti s later early. ground (arith, string_has_eq.same_iff jti jti);
  other = λ now t ttl jti key s d. ground (arith, d, string_has_eq.same_iff key jti);
}

abbrev users : List User
users =
    record { id = 7; email = "a@b.c"; password_hash = none; is_active = true; status = "active" }
    ∷ []

-- Another refresh, which is refused, and a logout with the same token.
abbrev between : List (Action tokens keys)
between = refreshes 12 users "t" ∷ logs_out 15 (some "t") ∷ []

refresh_tokens_once_example :
    is_refreshed
      (refresh_tokens tokens keys 20 users "t"
        (after_all tokens keys between (refresh_tokens tokens keys 10 users "t" (λ k. 0)).1)).0
    ≡ false
unfolding refresh_tokens refresh_claims
refresh_tokens_once_example =
    refresh_tokens_once tokens keys tokens-AreTokens keys-Expires 10 "t" claims "j1" refl refl 20
      users users between (λ k. 0) (omega arith, (omega arith, omega arith)) refl
