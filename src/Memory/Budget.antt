-- ===== src/Memory/Budget.antt =====
-- A consolidation never writes more than the budget.
use native.Mathlib.Nat.{le_of_mul-le-mul_right}
use hermes_python.Prelude.{
  ℕ, ◌+◌, ◌-◌, ◌*◌, ◌≤◌, ◌<◌, ◌≡◌, refl, Option, none, some, [], ◌∷◌, arith, leb, length, take,
  length-take, Bool-cases, inl, inr,
}
use hermes_python.Texts.{Text}
use hermes_python.Memory.{
  Blocks, AgentMemory, total_of, text_of, or_none, memory_total_len, upsert_memory, filled,
  trim_memory_to_budget, consolidated,
}

-- The rounded share of a length is at most its exact share.
pub record RoundsDown (scale : ℕ → ℕ → ℕ → ℕ) : Type 0 where
  pub share : (n budget total : ℕ) → scale n budget total * total ≤ n * budget

shares-le :
    (x y budget a b c : ℕ)
    → budget < a + b + c
    → x * (a + b + c) ≤ a * budget
    → y * (a + b + c) ≤ b * budget
    → x + y ≤ budget
shares-le x y budget a b c over hx hy =
    le_of_mul-le-mul_right {m = x + y} {n = budget} {k = a + b + c} (whole hx hy) (omega arith)
  where
    whole :
        x * (a + b + c) ≤ a * budget
        → y * (a + b + c) ≤ b * budget
        → (x + y) * (a + b + c) ≤ budget * (a + b + c)
    whole h k = omega arith

total-cut :
    (scale : ℕ → ℕ → ℕ → ℕ) (m : Blocks) (budget : ℕ)
    → RoundsDown scale
    → budget < total_of m
    → total_of (trim_memory_to_budget scale m budget) ≤ budget
unfolding trim_memory_to_budget
total-cut scale m budget rounds over =
    let total = total_of m in
    let p = scale (length m.user_profile) budget total in
    let s = scale (length m.soul) budget total in
    ground (
      arith,
      shares-le p s budget (length m.user_profile) (length m.soul) (length m.notes) over
          (rounds.share (length m.user_profile) budget total)
          (rounds.share (length m.soul) budget total),
      length-take p m.user_profile,
      length-take s m.soul,
      length-take (budget - (length (take p m.user_profile) + length (take s m.soul))) m.notes,
    )

-- Whatever the fields, the trimmed ones have at most the budget's characters together.
pub total-trim_memory_to_budget :
    (scale : ℕ → ℕ → ℕ → ℕ) (m : Blocks) (budget : ℕ)
    → RoundsDown scale
    → total_of (trim_memory_to_budget scale m budget) ≤ budget
unfolding trim_memory_to_budget
total-trim_memory_to_budget scale m budget rounds = elim (Bool-cases (leb (total_of m) budget)) [
  | inl e ↦ ground arith
  | inr e ↦ total-cut scale m budget rounds (ground arith)
]

text_of-or_none : (t : Text) → text_of (or_none t) ≡ t
text_of-or_none [] = refl
text_of-or_none (c ∷ t) = refl

-- The row that a consolidation writes holds at most the budget's characters, whatever was parsed
-- and whatever was there.
pub memory_total_len-consolidated :
    (scale : ℕ → ℕ → ℕ → ℕ) (parsed old : Blocks) (budget now : ℕ) (row : Option AgentMemory)
    → RoundsDown scale
    → let m = consolidated scale parsed old budget now row in
      memory_total_len m.notes m.user_profile m.soul ≤ budget
unfolding consolidated memory_total_len upsert_memory
memory_total_len-consolidated scale parsed old budget now none rounds =
    omega (arith, total-trim_memory_to_budget scale (filled parsed old) budget rounds)
memory_total_len-consolidated scale parsed old budget now (some m) rounds =
    let t = trim_memory_to_budget scale (filled parsed old) budget in
    rw (text_of-or_none t.notes, text_of-or_none t.user_profile, text_of-or_none t.soul)
      (omega (arith, total-trim_memory_to_budget scale (filled parsed old) budget rounds))
