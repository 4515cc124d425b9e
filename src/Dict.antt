-- ===== src/Dict.antt =====
-- Python's `dict` as an association list. Every lookup law is unconditional, so the operations can
-- stay shut in the proofs about the code that uses them.
pub mod Keys
use hermes_python.Prelude.{
  ◌≡◌, refl, Bool, true, false, Option, none, some, List, [], ◌∷◌, arith, HasEq, ◌==◌,
  if◌then◌else◌,
}

abbrev pub Dict {ℓ κ} : Type ℓ → Type κ → Type (ℓ ⊔ κ)
Dict K V = List (K × V)

module _ {ℓ κ} {K : Type ℓ} {V : Type κ} ⦃e : HasEq K⦄ where
  -- d.get(k)
  unfoldable pub get : K → Dict K V → Option V
  get k [] = none
  get k ((j, v) ∷ d) = if j == k then some v else get k d

  -- `k in d`
  unfoldable pub has : K → Dict K V → Bool
  unfolding get
  has k d = elim (get k d) [ none ↦ false | some _ ↦ true ]

  -- d[k] = v
  unfoldable pub put : K → V → Dict K V → Dict K V
  put k v [] = (k, v) ∷ []
  put k v ((j, w) ∷ d) = if j == k then (k, v) ∷ d else (j, w) ∷ put k v d

  -- d.pop(k, None)
  unfoldable pub pop : K → Dict K V → Dict K V
  pop k [] = []
  pop k ((j, v) ∷ d) = let rest = pop k d in if j == k then rest else (j, v) ∷ rest

  -- {k: v for k, v in d.items() if p(k)}
  unfoldable pub keep_keys : (K → Bool) → Dict K V → Dict K V
  keep_keys p [] = []
  keep_keys p ((j, v) ∷ d) = let rest = keep_keys p d in if p j then (j, v) ∷ rest else rest

  -- d | more
  unfoldable pub merge : Dict K V → Dict K V → Dict K V
  unfolding put
  merge d [] = d
  merge d ((k, v) ∷ more) = put k v (merge d more)

  pub get-nil : (k : K) → let empty : Dict K V = [] in get k empty ≡ none
  unfolding get
  get-nil k = refl

  pub get-put :
      (k j : K) (v : V) (d : Dict K V) → get j (put k v d) ≡ (if k == j then some v else get j d)
  unfolding get put
  get-put k j v [] = refl
  get-put k j v ((i, w) ∷ d) =
      ground (arith, e.same_iff k j, e.same_iff i k, e.same_iff i j, get-put k j v d)

  pub get-pop : (k j : K) (d : Dict K V) → get j (pop k d) ≡ (if k == j then none else get j d)
  unfolding get pop
  get-pop k j [] = ground arith
  get-pop k j ((i, w) ∷ d) =
      ground (arith, e.same_iff k j, e.same_iff i k, e.same_iff i j, get-pop k j d)

  pub get-keep_keys :
      (p : K → Bool) (j : K) (d : Dict K V)
      → get j (keep_keys p d) ≡ (if p j then get j d else none)
  unfolding get keep_keys
  get-keep_keys p j [] = ground arith
  get-keep_keys p j ((i, w) ∷ d) = ground (arith, e.same_iff i j, get-keep_keys p j d)

  -- The right operand of `|` wins.
  pub get-merge :
      (j : K) (d more : Dict K V)
      → get j (merge d more) ≡ elim (get j more) [ none ↦ get j d | some v ↦ some v ]
  unfolding get merge
  get-merge j d [] = refl
  get-merge j d ((i, w) ∷ more) = ground (arith, get-put i j w (merge d more), get-merge j d more)

pub ruleset dict_laws = (get-put, get-pop, get-keep_keys, get-merge)
