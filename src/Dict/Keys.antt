-- ===== src/Dict/Keys.antt =====
-- Dictionaries with no key twice, and the keys under which a value passes a test.
use hermes_python.Prelude.{
  ◌≡◌, refl, Bool, false, Option, none, some, List, [], ◌∷◌, arith, HasEq, contains, if◌then◌else◌,
}
use hermes_python.Dict.{Dict, get, put, pop, get-put, get-pop}

abbrev pub passes {ℓ} : {V : Type ℓ} → (V → Bool) → Option V → Bool
passes p none = false
passes p (some v) = p v

module _ {ℓ κ} {K : Type ℓ} {V : Type κ} ⦃e : HasEq K⦄ where
  abbrev pub IsDict : Dict K V → Type κ
  IsDict [] = Unit
  IsDict ((k, v) ∷ d) = (get k d ≡ none) × IsDict d

  -- [k for k, v in d.items() if p(v)]
  unfoldable pub keys_where : (V → Bool) → Dict K V → List K
  keys_where p [] = []
  keys_where p ((k, v) ∷ d) = let rest = keys_where p d in if p v then k ∷ rest else rest

  contains-keys_where_absent :
      (p : V → Bool) (k : K) (d : Dict K V) → get k d ≡ none → contains k (keys_where p d) ≡ false
  unfolding keys_where get
  contains-keys_where_absent p k [] h = refl
  contains-keys_where_absent p k ((j, v) ∷ d) h =
      ground (arith, e.same_iff j k, e.same_iff k j, contains-keys_where_absent p k d)

  pub contains-keys_where :
      (p : V → Bool) (k : K) (d : Dict K V)
      → IsDict d
      → contains k (keys_where p d) ≡ passes p (get k d)
  unfolding keys_where get
  contains-keys_where p k [] h = refl
  contains-keys_where p k ((j, v) ∷ d) h = ground (
    arith,
    e.same_iff j k,
    e.same_iff k j,
    contains-keys_where p k d h.1,
    contains-keys_where_absent p k d,
  )

  pub put-IsDict : (k : K) (v : V) (d : Dict K V) → IsDict d → IsDict (put k v d)
  unfolding put get
  put-IsDict k v [] h = (refl, tt)
  put-IsDict k v ((j, w) ∷ d) h =
      ground (arith, put-IsDict k v d h.1, get-put k j v d, e.same_iff j k, e.same_iff k j)

  pub pop-IsDict : (k : K) (d : Dict K V) → IsDict d → IsDict (pop k d)
  unfolding pop
  pop-IsDict k [] h = tt
  pop-IsDict k ((j, w) ∷ d) h =
      ground (arith, pop-IsDict k d h.1, get-pop k j d, e.same_iff j k, e.same_iff k j)
