-- ===== src/Texts/Prefix.antt =====
-- What the tests on whole texts and on prefixes mean.
use hermes_python.Prelude.{◌≡◌, refl, true, [], ◌∷◌, ◌++◌, arith, ◌==◌, nat_has_eq}
use hermes_python.Texts.{Text, text_eq, starts_with}

pub text_eq-eq : (s t : Text) → text_eq s t ≡ true → s ≡ t
text_eq-eq [] [] h = refl
text_eq-eq [] (y ∷ t) h = cc
text_eq-eq (x ∷ s) [] h = cc
text_eq-eq (x ∷ s) (y ∷ t) h = ground (arith, text_eq-eq s t)

pub starts_with-append : (t p : Text) → starts_with t p ≡ true → (rest : Text) × (t ≡ p ++ rest)
unfolding starts_with
starts_with-append t [] h = (t, refl)
starts_with-append [] (c ∷ p) h = cc
starts_with-append (x ∷ t) (c ∷ p) h =
    let ih : (x == c) ≡ true → starts_with t p ≡ true → (rest : Text) × (x ∷ t ≡ c ∷ (p ++ rest)) =
      λ e k. let (rest, q) = starts_with-append t p k in (rest, ground (arith, q)) in
    ih (ground arith) (ground arith)

pub text_eq_refl : (t : Text) → text_eq t t ≡ true
text_eq_refl [] = refl
text_eq_refl (c ∷ t) = ground (arith, text_eq_refl t)
