-- ===== src/Conversations/Roles.antt =====
-- Messages of one time, which a query gives in the order of their roles.
use hermes_python.Prelude.{
  ℕ, length, true, false, All-append, ◌≡◌, refl, sym, ap, ◌∙◌, Bool, Option, String, List, [], ◌∷◌,
  ◌++◌, map, arith, nat_has_eq, keep, All, ltb→lt, Bool-cases, inl, inr, if◌then◌else◌,
}
use hermes_python.Conversations.{Message, insert, newest_first, reversed, is_before}

-- What a message says, without its id, its conversation and its time.
abbrev pub Said : Type 0
Said = Option ℕ × String × Option String × String × String

abbrev pub said : Message → Said
said m = (m.owner_id, m.role, m.agent_id, m.content, m.status)

-- Rows in the order of their roles alone.
abbrev pub put_by_role : (String → String → Bool) → Message → List Message → List Message
put_by_role role_le m [] = m ∷ []
put_by_role role_le m (x ∷ xs) =
    if role_le m.role x.role then m ∷ x ∷ xs else x ∷ put_by_role role_le m xs

abbrev pub by_role : (String → String → Bool) → List Message → List Message
by_role role_le [] = []
by_role role_le (m ∷ ms) = put_by_role role_le m (by_role role_le ms)

module _ (role_le : String → String → Bool) where
  insert-same_time :
      (t : ℕ) (m : Message) (ms : List Message)
      → m.created_at ≡ t
      → All (λ (x : Message). x.created_at ≡ t) ms
      → (insert role_le m ms ≡ put_by_role role_le m ms)
        × All (λ (x : Message). x.created_at ≡ t) (insert role_le m ms)
  unfolding insert
  insert-same_time t m [] h a = (refl, (h, tt))
  insert-same_time t m (x ∷ ms) h a =
      let rest = insert-same_time t m ms h a.1 in
      let same = role_only (h ∙ sym a.0) in
      elim (Bool-cases (role_le m.role x.role)) [
        | inl y ↦ rw (same ∙ y, y) (refl, (h, a))
        | inr n ↦ rw (same ∙ n, n) (ap (λ l. x ∷ l) rest.0, (a.0, rest.1))
      ]
    where
      role_only : m.created_at ≡ x.created_at → is_before role_le m x ≡ role_le m.role x.role
      role_only e =
          ground
            (arith, nat_has_eq.same_iff x.created_at m.created_at, ltb→lt x.created_at m.created_at)

  pub newest_first-same_time :
      (t : ℕ) (ms : List Message)
      → All (λ (x : Message). x.created_at ≡ t) ms
      → (newest_first role_le ms ≡ by_role role_le ms)
        × All (λ (x : Message). x.created_at ≡ t) (newest_first role_le ms)
  unfolding newest_first
  newest_first-same_time t [] a = (refl, tt)
  newest_first-same_time t (m ∷ ms) a =
      let rest = newest_first-same_time t ms a.1 in
      let here = insert-same_time t m (newest_first role_le ms) a.0 rest.1 in
      (here.0 ∙ ap (put_by_role role_le m) rest.0, here.1)

  -- The order of the roles is total and transitive.
  pub record IsOrder : Type 0 where
    pub total : (a b : String) → role_le a b ≡ false → role_le b a ≡ true
    pub trans : (a b c : String) → role_le a b ≡ true → role_le b c ≡ true → role_le a c ≡ true

  -- Each message is followed by those of a role that is not after its own, or not before it.
  abbrev pub Falls : List Message → Type 0
  Falls [] = Unit
  Falls (m ∷ ms) = All (λ (x : Message). role_le m.role x.role ≡ true) ms × Falls ms

  abbrev pub ByRole : List Message → Type 0
  ByRole [] = Unit
  ByRole (m ∷ ms) = All (λ (x : Message). role_le x.role m.role ≡ true) ms × ByRole ms

  All-put_by_role :
      (P : Message → Type 0) (m : Message) (ms : List Message)
      → P m
      → All P ms
      → All P (put_by_role role_le m ms)
  All-put_by_role P m [] h a = (h, tt)
  All-put_by_role P m (x ∷ ms) h a = elim (Bool-cases (role_le m.role x.role)) [
    | inl y ↦ rw (y, put_by_role) (h, a)
    | inr n ↦ rw (n, put_by_role) (a.0, All-put_by_role P m ms h a.1)
  ]

  All-after :
      IsOrder
      → (a b : String) (ms : List Message) → role_le a b ≡ true
      → All (λ (x : Message). role_le b x.role ≡ true) ms
      → All (λ (x : Message). role_le a x.role ≡ true) ms
  All-after order a b [] h k = tt
  All-after order a b (x ∷ ms) h k = (order.trans a b x.role h k.0, All-after order a b ms h k.1)

  Falls-put_by_role :
      IsOrder → (m : Message) (ms : List Message) → Falls ms → Falls (put_by_role role_le m ms)
  Falls-put_by_role order m [] f = (tt, tt)
  Falls-put_by_role order m (x ∷ ms) f = elim (Bool-cases (role_le m.role x.role)) [
    | inl y ↦ rw (y, put_by_role) ((y, All-after order m.role x.role ms y f.0), f)
    | inr n ↦
        rw (n, put_by_role)
          (
            All-put_by_role _ m ms (order.total m.role x.role n) f.0,
            Falls-put_by_role order m ms f.1,
          )
  ]

  pub Falls-by_role : IsOrder → (ms : List Message) → Falls (by_role role_le ms)
  Falls-by_role order [] = tt
  Falls-by_role order (m ∷ ms) = Falls-put_by_role order m _ (Falls-by_role order ms)

  ByRole-last :
      (ms : List Message) (m : Message)
      → ByRole ms
      → All (λ (x : Message). role_le m.role x.role ≡ true) ms
      → ByRole (ms ++ m ∷ [])
  ByRole-last [] m b a = (tt, tt)
  ByRole-last (x ∷ ms) m b a = (All-append _ ms (m ∷ []) b.0 (a.0, tt), ByRole-last ms m b.1 a.1)

  All-reversed : (P : Message → Type 0) (ms : List Message) → All P ms → All P (reversed ms)
  unfolding reversed
  All-reversed P [] a = tt
  All-reversed P (m ∷ ms) a = All-append P (reversed ms) (m ∷ []) (All-reversed P ms a.1) (a.0, tt)

  pub ByRole-reversed : IsOrder → (ms : List Message) → Falls ms → ByRole (reversed ms)
  unfolding reversed
  ByRole-reversed order [] f = tt
  ByRole-reversed order (m ∷ ms) f =
      ByRole-last (reversed ms) m (ByRole-reversed order ms f.1) (All-reversed _ ms f.0)

  module _ (p : Said → Bool) where
    length-put_by_role :
        (m : Message) (ms : List Message)
        → length (keep p (map said (put_by_role role_le m ms)))
          ≡ length (keep p (map said (m ∷ ms)))
    length-put_by_role m [] = refl
    length-put_by_role m (x ∷ ms) = ground (arith, length-put_by_role m ms)

    pub length-by_role :
        (ms : List Message)
        → length (keep p (map said (by_role role_le ms))) ≡ length (keep p (map said ms))
    length-by_role [] = refl
    length-by_role (m ∷ ms) =
        ground (arith, length-put_by_role m (by_role role_le ms), length-by_role ms)

    length-last :
        (ms : List Message) (m : Message)
        → length (keep p (map said (ms ++ m ∷ []))) ≡ length (keep p (map said (m ∷ ms)))
    length-last [] m = refl
    length-last (x ∷ ms) m = ground (arith, length-last ms m)

    pub length-reversed :
        (ms : List Message)
        → length (keep p (map said (reversed ms))) ≡ length (keep p (map said ms))
    unfolding reversed
    length-reversed [] = refl
    length-reversed (m ∷ ms) = ground (arith, length-last (reversed ms) m, length-reversed ms)
