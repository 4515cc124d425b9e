-- ===== src/Memory/Excerpts.antt =====
-- The excerpts for a consolidation never exceed their budget.
use hermes_python.Prelude.{
  ℕ, ◌+◌, ◌-◌, ◌≤◌, ◌≡◌, refl, List, [], ◌∷◌, ◌++◌, arith, leb, length, length-take, Bool-cases,
  inl, inr,
}
use hermes_python.Texts.{Text, codes}
use hermes_python.Memory.{Said, lines_joined, section, sections, lines_of}

abbrev pub total_length : List Text → ℕ
total_length [] = 0
total_length (t ∷ ts) = length t + total_length ts

length-section :
    (budget used : ℕ) (title : Text) (lines : List Text)
    → used ≤ budget
    → used + length (section budget used title lines) ≤ budget
length-section budget used title lines h = ground (
  arith,
  length-take (budget - used) (codes "## 会话「" ++ title ++ codes "」\n" ++ lines_joined lines),
)

-- If no more than the budget is used so far, the sections with that stay within the budget.
pub length-sections :
    (limit budget used : ℕ) (convos : List (Text × List Said))
    → used ≤ budget
    → used + total_length (sections limit budget used convos) ≤ budget
unfolding sections
length-sections limit budget used [] h = omega arith
length-sections limit budget used ((title, said) ∷ more) h =
    by_lines (lines_of limit said) refl (λ u k. length-sections limit budget u more k)
  where
    by_lines :
        (ls : List Text)
        → lines_of limit said ≡ ls
        → ((u : ℕ) → u ≤ budget → u + total_length (sections limit budget u more) ≤ budget)
        → used + total_length (sections limit budget used ((title, said) ∷ more)) ≤ budget
    by_lines [] e ih = rw (e, sections) (ih used h)
    by_lines (l ∷ ls) e ih =
        let s = section budget used title (lines_of limit said) in
        let fits = length-section budget used title (lines_of limit said) h in
        elim (Bool-cases (leb budget (used + length s))) [
          | inl full ↦ rw (e, full, sections) (omega (arith, fits))
          | inr free ↦ rw (e, free, sections) (omega (arith, ih (used + length s) fits))
        ]
