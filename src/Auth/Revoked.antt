-- ===== src/Auth/Revoked.antt =====
-- What a refresh does to the blacklist, by how it ends.
use hermes_python.Prelude.{
  ℕ, ◌-◌, ◌≤◌, ◌≡◌, refl, ap, ◌∙◌, subst, Bool, true, false, some, String, List, ◌==◌, nat_has_eq,
  string_has_eq, max, arith, Option-cases, Bool-cases, inl, inr,
}
use hermes_python.Auth.{
  User, Claims, Tokens, AreTokens, Blacklist, Expires, Refresh, refreshed, user_of, given_id,
  revoke, is_revoked, refresh_claims, refresh_tokens,
}

abbrev pub is_refreshed : Refresh → Bool
is_refreshed (refreshed u) = true
is_refreshed _ = false

module _ (T : Tokens) (B : Blacklist) where
  pub revoke_named :
      (now : ℕ) (c : Claims) (j : String) (s : B.State)
      → given_id c.jti ≡ some j
      → revoke T B now c s ≡ B.blacklist_jti now j (max (c.exp - now) 1) s
  revoke_named now c j s named = rw (named, revoke) refl

  pub is_revoked_named :
      (now : ℕ) (c : Claims) (j : String) (s : B.State)
      → given_id c.jti ≡ some j
      → is_revoked T B now c s ≡ B.is_blacklisted now j s
  is_revoked_named now c j s named = rw (named, is_revoked) refl

  revoked_stays :
      AreTokens T
      → Expires B
      → (now t : ℕ) (token : String) (c : Claims) (j : String) (s : B.State) → now ≤ t
      → given_id c.jti ≡ some j
      → T.decode t token ≡ some c
      → is_revoked T B t c (revoke T B now c s) ≡ true
  revoked_stays tokens expires now t token c j s later named read =
      is_revoked_named t c j (revoke T B now c s) named
      ∙ ap (λ st. B.is_blacklisted t j st) (revoke_named now c j s named)
      ∙ (expires.held now t (max (c.exp - now) 1) j s later
          (omega (arith, tokens.unexpired t token c read)))

  pub refresh_revoked :
      (now : ℕ) (users : List User) (c : Claims) (s : B.State)
      → is_revoked T B now c s ≡ true
      → is_refreshed (refresh_claims T B now users c s).0 ≡ false
  unfolding refresh_claims
  refresh_revoked now users c s revoked = elim (Bool-cases (c.kind == "refresh")) [
    | inl e ↦ rw (e, revoked, refresh_claims) refl
    | inr e ↦ rw (e, refresh_claims) refl
  ]

  pub refreshed_state :
      (now : ℕ) (users : List User) (c : Claims) (s : B.State)
      → is_refreshed (refresh_claims T B now users c s).0 ≡ true
      → (refresh_claims T B now users c s).1 ≡ revoke T B now c s
  unfolding refresh_claims
  refreshed_state now users c s ok = elim (Bool-cases (c.kind == "refresh")) [
    | inl e ↦ elim (Bool-cases (is_revoked T B now c s)) [
      | inl r ↦ ground (arith, refresh_revoked now users c s r)
      | inr r ↦ elim (Option-cases (user_of c.sub users)) [
        | inl absent ↦ ground (arith, rw (e, r, absent, refresh_claims) at ok)
        | inr (u, there) ↦ elim (Bool-cases u.is_active) [
          | inl active ↦ rw (e, r, there, active, refresh_claims) refl
          | inr off ↦ ground (arith, rw (e, r, there, off, refresh_claims) at ok)
        ]
      ]
    ]
    | inr e ↦ ground (arith, rw (e, refresh_claims) at ok)
  ]

  pub refused_state :
      (now : ℕ) (users : List User) (c : Claims) (s : B.State)
      → is_refreshed (refresh_claims T B now users c s).0 ≡ false
      → (refresh_claims T B now users c s).1 ≡ s
  unfolding refresh_claims
  refused_state now users c s failed = elim (Bool-cases (c.kind == "refresh")) [
    | inl e ↦ elim (Bool-cases (is_revoked T B now c s)) [
      | inl r ↦ rw (e, r, refresh_claims) refl
      | inr r ↦ elim (Option-cases (user_of c.sub users)) [
        | inl absent ↦ rw (e, r, absent, refresh_claims) refl
        | inr (u, there) ↦ elim (Bool-cases u.is_active) [
          | inl active ↦ ground (arith, rw (e, r, there, active, refresh_claims) at failed)
          | inr off ↦ rw (e, r, there, off, refresh_claims) refl
        ]
      ]
    ]
    | inr e ↦ rw (e, refresh_claims) refl
  ]

  pub refused_after :
      AreTokens T
      → Expires B
      → (now t : ℕ) (users : List User) (token : String) (c : Claims) (j : String) (s : B.State)
      → now ≤ t
      → T.decode now token ≡ some c
      → given_id c.jti ≡ some j
      → is_refreshed (refresh_tokens T B t users token (revoke T B now c s)).0 ≡ false
  unfolding refresh_tokens
  refused_after tokens expires now t users token c j s later read named =
      elim (Option-cases (T.decode t token)) [
        | inl gone ↦ rw (gone, refresh_tokens) refl
        | inr (d, again) ↦
            let same = tokens.stable t now token d c again read in
            let again' : T.decode t token ≡ some c =
              subst (λ x. T.decode t token ≡ some x) same again in
            rw (again', refresh_tokens)
              (refresh_revoked t users c (revoke T B now c s)
                (revoked_stays tokens expires now t token c j s later named again'))
      ]

  pub state_after :
      (now : ℕ) (users : List User) (token : String) (c : Claims) (s : B.State)
      → T.decode now token ≡ some c
      → (refresh_tokens T B now users token s).1 ≡ (refresh_claims T B now users c s).1
  unfolding refresh_tokens
  state_after now users token c s read = rw (read, refresh_tokens) refl
