-- ===== src/Auth/Refreshed.antt =====
-- A refresh token works once, and not after a logout.
use hermes_python.Prelude.{
  ℕ, ◌-◌, ◌≤◌, ◌<◌, ◌≡◌, ◌⊎◌, [], ◌∷◌, Option, none, refl, sym, ap, ◌∙◌, subst, true, false, some,
  String, List, ◌==◌, nat_has_eq, string_has_eq, max, arith, Option-cases, Bool-cases, inl, inr,
}
use hermes_python.Auth.{
  User, Claims, Tokens, AreTokens, Blacklist, Expires, given_id, revoke, refresh_claims,
  refresh_tokens, logout, Action, refreshes, logs_out, time_of, after, after_all,
}
use hermes_python.Auth.Revoked.{
  is_refreshed, revoke_named, is_revoked_named, refresh_revoked, refreshed_state, refused_state,
  refused_after, state_after,
}

module _ (T : Tokens) (B : Blacklist) where
  -- The actions come one after the other, from one time to another.
  abbrev pub Later : ℕ → List (Action T B) → ℕ → Type 0
  Later now [] t = now ≤ t
  Later now (a ∷ more) t = (now ≤ time_of T B a) × Later (time_of T B a) more t

  module _ (tokens : AreTokens T) (expires : Expires B) (first : ℕ) (token : String) (c : Claims)
      (j : String) (read : T.decode first token ≡ some c) (named : given_id c.jti ≡ some j) where
    -- From now on until the token expires, its id is on the blacklist.
    abbrev Barred : ℕ → B.State → Type 0
    Barred now s = (t : ℕ) → now ≤ t → t < c.exp → B.is_blacklisted t j s ≡ true

    later_Barred : (now n : ℕ) (s : B.State) → now ≤ n → Barred now s → Barred n s
    later_Barred now n s l b t m u = b t (omega (arith, l, m)) u

    own_id : (o : Option String) (k : String) → given_id o ≡ some k → o ≡ some k
    own_id none k e = ground (arith, e)
    own_id (some x) k e = ground arith

    revoke-Barred :
        (now n : ℕ) (b : String) (d : Claims) (s : B.State)
        → now ≤ n
        → T.decode n b ≡ some d
        → Barred now s
        → Barred n (revoke T B n d s)
    revoke-Barred now n b d s l e h t m u = elim (Option-cases (given_id d.jti)) [
      | inl z ↦ rw (z, revoke) (h t (omega (arith, l, m)) u)
      | inr (k, z) ↦ elim (Bool-cases (k == j)) [
        | inl y ↦
            ap (λ st. B.is_blacklisted t j st)
              (revoke_named T B n d j s (z ∙ ap some ((string_has_eq.same_iff k j).0 y)))
            ∙ expires.held n t (max (d.exp - n) 1) j s m (
                omega (
                  arith,
                  u,
                  ap (λ (x : Claims). x.exp)
                      (tokens.by_id first n token b c d j read e (own_id c.jti j named)
                        (own_id d.jti j (z ∙ ap some ((string_has_eq.same_iff k j).0 y)))),
                ))
        | inr o ↦
            ap (λ st. B.is_blacklisted t j st) (revoke_named T B n d k s z)
            ∙ expires.other n t (max (d.exp - n) 1) j k s
                (λ q. ground (arith, o, (string_has_eq.same_iff k j).1 q))
            ∙ h t (omega (arith, l, m)) u
      ]
    ]

    refreshes-Barred :
        (now n : ℕ) (users : List User) (b : String) (s : B.State)
        → now ≤ n
        → Barred now s
        → Barred n (refresh_tokens T B n users b s).1
    unfolding refresh_tokens
    refreshes-Barred now n users b s l h = elim (Option-cases (T.decode n b)) [
      | inl e ↦ rw (e, refresh_tokens) (later_Barred now n s l h)
      | inr (d, e) ↦
          rw (e, refresh_tokens)
            (by_outcome d e (Bool-cases (is_refreshed (refresh_claims T B n users d s).0)))
    ]
      where
        by_outcome :
            (d : Claims)
            → T.decode n b ≡ some d
            → (is_refreshed (refresh_claims T B n users d s).0 ≡ true)
              ⊎ (is_refreshed (refresh_claims T B n users d s).0 ≡ false)
            → Barred n (refresh_claims T B n users d s).1
        by_outcome d e (inl ok) =
            subst (Barred n) (sym (refreshed_state T B n users d s ok))
              (revoke-Barred now n b d s l e h)
        by_outcome d e (inr failed) =
            subst (Barred n) (sym (refused_state T B n users d s failed)) (later_Barred now n s l h)

    logout-Barred :
        (now n : ℕ) (given : Option String) (s : B.State)
        → now ≤ n
        → Barred now s
        → Barred n (logout T B n given s)
    unfolding logout
    logout-Barred now n given s l h = elim (Option-cases (given_id given)) [
      | inl z ↦ rw (z, logout) (later_Barred now n s l h)
      | inr (b, z) ↦ elim (Option-cases (T.decode n b)) [
        | inl e ↦ rw (z, e, logout) (later_Barred now n s l h)
        | inr (d, e) ↦ rw (z, e, logout) (revoke-Barred now n b d s l e h)
      ]
    ]

    after-Barred :
        (now : ℕ) (a : Action T B) (s : B.State)
        → now ≤ time_of T B a
        → Barred now s
        → Barred (time_of T B a) (after T B a s)
    after-Barred now (refreshes n users b) s l h = refreshes-Barred now n users b s l h
    after-Barred now (logs_out n given) s l h = logout-Barred now n given s l h

    after_all-Barred :
        (acts : List (Action T B)) (now t : ℕ) (s : B.State)
        → Later now acts t
        → Barred now s
        → Barred t (after_all T B acts s)
    after_all-Barred [] now t s l h = later_Barred now t s l h
    after_all-Barred (a ∷ more) now t s l h =
        after_all-Barred more (time_of T B a) t (after T B a s) l.1 (after-Barred now a s l.0 h)

    refused_again :
        (t : ℕ) (users : List User) (s : B.State)
        → Barred t s
        → is_refreshed (refresh_tokens T B t users token s).0 ≡ false
    unfolding refresh_tokens
    refused_again t users s h = elim (Option-cases (T.decode t token)) [
      | inl gone ↦ rw (gone, refresh_tokens) refl
      | inr (d, again) ↦
          let same = tokens.stable t first token d c again read in
          let again' : T.decode t token ≡ some c =
            subst (λ x. T.decode t token ≡ some x) same again in
          rw (again', refresh_tokens)
            (refresh_revoked T B t users c s (
              is_revoked_named T B t c j s named
              ∙ h t (omega arith) (tokens.unexpired t token c again')))
    ]

    own-Barred : (s : B.State) → Barred first (revoke T B first c s)
    own-Barred s t l u =
        ap (λ st. B.is_blacklisted t j st) (revoke_named T B first c j s named)
        ∙ expires.held first t (max (c.exp - first) 1) j s l (omega (arith, u))

    -- A token with an id of its own, once it has been refreshed, is refused by every refresh that comes
    -- after the first is over, whatever refreshes and logouts there were between, one after the other.
    pub refresh_tokens_once :
        (t : ℕ) (users later_users : List User) (acts : List (Action T B)) (s : B.State)
        → Later first acts t
        → is_refreshed (refresh_tokens T B first users token s).0 ≡ true
        → is_refreshed
            (refresh_tokens T B t later_users token
              (after_all T B acts (refresh_tokens T B first users token s).1)).0
          ≡ false
    unfolding refresh_tokens
    refresh_tokens_once t users later_users acts s later ok =
        let done = refreshed_state T B first users c s (rw (read, refresh_tokens) at ok) in
        refused_again t later_users (after_all T B acts (refresh_tokens T B first users token s).1)
          (after_all-Barred acts first t (refresh_tokens T B first users token s).1 later (
            subst (Barred first) (sym (state_after T B first users token c s read ∙ done))
              (own-Barred s)))

  -- After a logout with a token that has an id, the token is never refreshed.
  pub refresh_tokens-logout :
      AreTokens T
      → Expires B
      → (now t : ℕ) (users : List User) (token : String) (c : Claims) (j : String) (s : B.State)
      → now ≤ t
      → given_id (some token) ≡ some token
      → T.decode now token ≡ some c
      → given_id c.jti ≡ some j
      → is_refreshed (refresh_tokens T B t users token (logout T B now (some token) s)).0 ≡ false
  unfolding logout
  refresh_tokens-logout tokens expires now t users token c j s later named_token read named =
      rw (named_token, read, logout)
        (refused_after T B tokens expires now t users token c j s later read named)
