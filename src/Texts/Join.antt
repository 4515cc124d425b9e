-- ===== src/Texts/Join.antt =====
-- Splitting what was joined gives the parts back.
use hermes_python.Prelude.{
  ℕ, ◌≡◌, refl, ap, ◌∙◌, false, List, [], ◌∷◌, ◌++◌, arith, ◌==◌, nat_has_eq, All,
}
use hermes_python.Texts.{Text, split, join}

-- No character of the text is `sep`.
abbrev pub Free : ℕ → Text → Type 0
Free sep = All (λ c. (c == sep) ≡ false)

pub split_whole : (sep : ℕ) (w : Text) → Free sep w → split sep w ≡ w ∷ []
unfolding split
split_whole sep [] h = refl
split_whole sep (c ∷ w) h = ground (arith, split_whole sep w h.1)

split-append :
    (sep : ℕ) (w rest : Text) → Free sep w → split sep (w ++ sep ∷ rest) ≡ w ∷ split sep rest
unfolding split
split-append sep [] rest h = ground arith
split-append sep (c ∷ w) rest h = ground (arith, split-append sep w rest h.1)

pub split-join :
    (sep : ℕ) (w : Text) (ws : List Text)
    → All (Free sep) (w ∷ ws)
    → split sep (join sep (w ∷ ws)) ≡ w ∷ ws
unfolding join
split-join sep w [] h = split_whole sep w h.0
split-join sep w (v ∷ ws) h =
    split-append sep w (join sep (v ∷ ws)) h.0 ∙ ap (λ l. w ∷ l) (split-join sep v ws h.1)

-- No part that `split` returns has the separator in it.
pub split-Free : (sep : ℕ) (t : Text) → All (Free sep) (split sep t)
unfolding split
split-Free sep [] = (tt, tt)
split-Free sep (c ∷ t) = ground (arith, split-Free sep t)
