-- ===== src/Memory/Tests.antt =====
-- A memory of twelve characters, and a budget of eight.
use native.Mathlib.Nat.{div-mul-le_self}
use hermes_python.Prelude.{ℕ, ◌*◌, ◌/◌, ◌≤◌, none, []}
use hermes_python.Texts.{codes}
use hermes_python.Memory.{Blocks, Said, consolidated, memory_total_len}
use hermes_python.Memory.Budget.{RoundsDown, memory_total_len-consolidated}

abbrev exact : ℕ → ℕ → ℕ → ℕ
exact n budget total = n * budget / total

exact-RoundsDown : RoundsDown exact
exact-RoundsDown = record { share = λ n budget total. div-mul-le_self (n * budget) total }

abbrev blocks : Blocks
blocks = record { user_profile = codes "coder"; soul = codes "kind"; notes = codes "abc" }

abbrev said : Said
said = record { role = codes "user"; status = codes "complete"; text = codes " hi "; merged = [] }

memory_total_len-consolidated_example :
    let m = consolidated exact blocks blocks 8 5 none in
    memory_total_len m.notes m.user_profile m.soul ≤ 8
memory_total_len-consolidated_example =
    memory_total_len-consolidated exact blocks blocks 8 5 none exact-RoundsDown
