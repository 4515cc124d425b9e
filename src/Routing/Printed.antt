-- ===== src/Routing/Printed.antt =====
-- The fuel of `digits`.
use hermes_python.Prelude.{ℕ, zero, suc, ◌/◌, ◌≤◌, ◌≡◌, arith}
use hermes_python.Routing.{digits}

-- A number is fuel enough for itself: more of it changes nothing.
pub digits_lem : (fuel n : ℕ) → n ≤ fuel → digits (suc fuel) n ≡ digits fuel n
unfolding digits
digits_lem zero n h = ground arith
digits_lem (suc fuel) n h = ground (arith, digits_lem fuel (n / 10))
