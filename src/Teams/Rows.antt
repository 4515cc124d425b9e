-- ===== src/Teams/Rows.antt =====
-- What the changes of the table of members leave of a row.
use hermes_python.Prelude.{
  ℕ, ◌≡◌, ◌≢◌, refl, Bool, true, false, ◌&&◌, not, none, some, String, List, [], ◌∷◌, ◌++◌, arith,
  ◌==◌, nat_has_eq, string_has_eq, keep, Bool-cases, inl, inr,
}
use hermes_python.Teams.{TeamMember, membership}
use hermes_python.Teams.Membership.{set_role, without_row}

-- The user is an owner of the team.
abbrev pub is_owner : ℕ → ℕ → List TeamMember → Bool
is_owner t u ms = elim (membership t u ms) [ none ↦ false | some m ↦ m.role == "owner" ]

pub is_owner-append :
    (t u : ℕ) (ms more : List TeamMember)
    → is_owner t u ms ≡ true
    → is_owner t u (ms ++ more) ≡ true
is_owner-append t u [] more h = cc
is_owner-append t u (m ∷ ms) more h = ground (arith, is_owner-append t u ms more)

other-set_role :
    (t u s v : ℕ) (role : String) (ms : List TeamMember)
    → (s == t && v == u) ≡ false
    → membership t u (set_role s v role ms) ≡ membership t u ms
unfolding set_role
other-set_role t u s v role [] k = refl
other-set_role t u s v role (m ∷ ms) k = ground (
  arith,
  other-set_role t u s v role ms,
  nat_has_eq.same_iff m.team_id t,
  nat_has_eq.same_iff m.team_id s,
  nat_has_eq.same_iff m.user_id u,
  nat_has_eq.same_iff m.user_id v,
  nat_has_eq.same_iff s t,
  nat_has_eq.same_iff v u,
)

-- The role of a row is set, if that row is not an owner's.
pub is_owner-set_role :
    (t u s v : ℕ) (role : String) (ms : List TeamMember)
    → is_owner s v ms ≡ false
    → is_owner t u ms ≡ true
    → is_owner t u (set_role s v role ms) ≡ true
is_owner-set_role t u s v role ms k h = elim (Bool-cases (s == t && v == u)) [
  | inl same ↦ ground (arith, nat_has_eq.same_iff s t, nat_has_eq.same_iff v u)
  | inr other ↦ rw (is_owner, other-set_role t u s v role ms other) h
]

other-without_row :
    (t u s v : ℕ) (ms : List TeamMember)
    → (s == t && v == u) ≡ false
    → membership t u (without_row s v ms) ≡ membership t u ms
unfolding without_row
other-without_row t u s v [] k = refl
other-without_row t u s v (m ∷ ms) k = ground (
  arith,
  other-without_row t u s v ms,
  nat_has_eq.same_iff m.team_id t,
  nat_has_eq.same_iff m.team_id s,
  nat_has_eq.same_iff m.user_id u,
  nat_has_eq.same_iff m.user_id v,
  nat_has_eq.same_iff s t,
  nat_has_eq.same_iff v u,
)

pub is_owner-without_row :
    (t u s v : ℕ) (ms : List TeamMember)
    → is_owner s v ms ≡ false
    → is_owner t u ms ≡ true
    → is_owner t u (without_row s v ms) ≡ true
is_owner-without_row t u s v ms k h = elim (Bool-cases (s == t && v == u)) [
  | inl same ↦ ground (arith, nat_has_eq.same_iff s t, nat_has_eq.same_iff v u)
  | inr other ↦ rw (is_owner, other-without_row t u s v ms other) h
]

pub is_owner-keep_other :
    (t u s : ℕ) (ms : List TeamMember)
    → s ≢ t
    → is_owner t u ms ≡ true
    → is_owner t u (keep (λ (m : TeamMember). not (m.team_id == s)) ms) ≡ true
is_owner-keep_other t u s [] k h = cc
is_owner-keep_other t u s (m ∷ ms) k h = ground (
  arith,
  is_owner-keep_other t u s ms,
  nat_has_eq.same_iff m.team_id t,
  nat_has_eq.same_iff m.team_id s,
)
