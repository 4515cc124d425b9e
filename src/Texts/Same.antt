-- ===== src/Texts/Same.antt =====
-- `==` on texts, and on values that may be `None`.
use hermes_python.Prelude.{◌≡◌, subst, ◌↔◌, Bool, true, false, Option, none, some, HasEq, ◌==◌}
use hermes_python.Texts.{Text, text_eq}
use hermes_python.Texts.Prefix.{text_eq-eq, text_eq_refl}

pub text_eq_iff : (s t : Text) → (text_eq s t ≡ true) ↔ (s ≡ t)
text_eq_iff s t = (text_eq-eq s t, λ e. subst (λ u. text_eq s u ≡ true) e (text_eq_refl s))

instance abbrev pub text_has_eq : HasEq Text
text_has_eq = record { same = text_eq; same_iff = text_eq_iff }

-- A column that may be null, against a value that may be `None`: `IS NULL` there.
abbrev pub same_option {ℓ} : {A : Type ℓ} ⦃e : HasEq A⦄ → Option A → Option A → Bool
same_option none none = true
same_option none (some y) = false
same_option (some x) none = false
same_option (some x) (some y) = x == y
