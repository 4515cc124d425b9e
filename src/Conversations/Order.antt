-- ===== src/Conversations/Order.antt =====
-- The order of a query's rows: the newest first, none twice at one time.
use hermes_python.Prelude.{
  ℕ, ◌<◌, ◌≡◌, ◌≢◌, refl, Bool, true, false, String, List, [], ◌∷◌, arith, nat_has_eq, keep, All,
  ltb→lt, lt→ltb, Bool-cases, inl, inr,
}
use hermes_python.Conversations.{Message, is_before, insert, newest_first, is_older}

-- No two of the messages are of one time.
abbrev pub Distinct : List Message → Type 0
Distinct [] = Unit
Distinct (m ∷ ms) = All (λ (x : Message). x.created_at ≢ m.created_at) ms × Distinct ms

abbrev pub Falling : List Message → Type 0
Falling [] = Unit
Falling (m ∷ ms) = All (λ (x : Message). x.created_at < m.created_at) ms × Falling ms

module _ (role_le : String → String → Bool) where
  All-insert :
      (P : Message → Type 0) (m : Message) (ms : List Message)
      → P m
      → All P ms
      → All P (insert role_le m ms)
  unfolding insert
  All-insert P m [] h a = (h, tt)
  All-insert P m (x ∷ ms) h a = elim (Bool-cases (is_before role_le m x)) [
    | inl y ↦ rw y (h, a)
    | inr n ↦ rw n (a.0, All-insert P m ms h a.1)
  ]

  -- What holds of all messages holds of them in the order of the query.
  pub All-newest_first :
      (P : Message → Type 0) (ms : List Message) → All P ms → All P (newest_first role_le ms)
  unfolding newest_first
  All-newest_first P [] a = tt
  All-newest_first P (m ∷ ms) a =
      All-insert P m (newest_first role_le ms) a.0 (All-newest_first P ms a.1)

  All-below :
      (low high : ℕ) (ms : List Message)
      → low < high
      → All (λ (x : Message). x.created_at < low) ms
      → All (λ (x : Message). x.created_at < high) ms
  All-below low high [] h a = tt
  All-below low high (m ∷ ms) h a = (omega (arith, a.0), All-below low high ms h a.1)

  insert-Falling :
      (m : Message) (ms : List Message)
      → All (λ (x : Message). x.created_at ≢ m.created_at) ms
      → Falling ms
      → Falling (insert role_le m ms)
  unfolding insert
  insert-Falling m [] a f = (tt, tt)
  insert-Falling m (x ∷ ms) a f = elim (Bool-cases (is_before role_le m x)) [
    | inl y ↦
        let below = lower y in rw y ((below, All-below x.created_at m.created_at ms below f.0), f)
    | inr n ↦ rw n (All-insert _ m ms (higher n) f.0, insert-Falling m ms a.1 f.1)
  ]
    where
      lower : is_before role_le m x ≡ true → x.created_at < m.created_at
      lower y = ground (
        arith,
        a.0,
        ltb→lt x.created_at m.created_at,
        nat_has_eq.same_iff x.created_at m.created_at,
      )

      higher : is_before role_le m x ≡ false → m.created_at < x.created_at
      higher n = ground (
        arith,
        a.0,
        lt→ltb x.created_at m.created_at,
        nat_has_eq.same_iff x.created_at m.created_at,
      )

  pub newest_first-Falling : (ms : List Message) → Distinct ms → Falling (newest_first role_le ms)
  unfolding newest_first
  newest_first-Falling [] h = tt
  newest_first-Falling (m ∷ ms) h =
      insert-Falling m (newest_first role_le ms) (All-newest_first _ ms h.0)
        (newest_first-Falling ms h.1)

  keep-insert :
      (t : ℕ) (m : Message) (ms : List Message)
      → keep (is_older t) (insert role_le m ms) ≡ elim (is_older t m) [
        | true ↦ insert role_le m (keep (is_older t) ms)
        | false ↦ keep (is_older t) ms
      ]
  unfolding insert
  keep-insert t m [] = ground arith
  keep-insert t m (x ∷ ms) = ground (
    arith,
    keep-insert t m ms,
    ltb→lt x.created_at m.created_at,
    lt→ltb x.created_at m.created_at,
    nat_has_eq.same_iff x.created_at m.created_at,
    ltb→lt m.created_at t,
    lt→ltb m.created_at t,
    ltb→lt x.created_at t,
    lt→ltb x.created_at t,
  )

  -- A condition on the time and the order may be applied in either turn.
  pub keep-newest_first :
      (t : ℕ) (ms : List Message)
      → newest_first role_le (keep (is_older t) ms) ≡ keep (is_older t) (newest_first role_le ms)
  unfolding newest_first
  keep-newest_first t [] = refl
  keep-newest_first t (m ∷ ms) =
      ground (arith, keep-newest_first t ms, keep-insert t m (newest_first role_le ms))
