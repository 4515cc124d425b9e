-- ===== src/Rbac/Monotone.antt =====
-- The catalog follows the ranks: a higher role holds whatever a lower role holds.
use hermes_python.Prelude.{
  ◌≡◌, ◌≤◌, Bool, true, String, List, [], ◌∷◌, arith, leb→le, contains, string_has_eq, ◌==◌, All,
  Bool-cases, inl, inr,
}
use hermes_python.Rbac.{
  Item, Group, role_rank, has_at_least, top, admins, team_admins, members, permission_catalog,
  has_in_items, has_in_groups, has_permission,
}

-- The roles that hold `roles` are closed under a higher rank, for two given roles.
abbrev Lifts : String → String → List String → Type 0
Lifts low high roles = contains low roles ≡ true → contains high roles ≡ true

module _ (low high : String) (up : role_rank low ≤ role_rank high) where
  lift-top : Lifts low high top
  unfolding role_rank
  lift-top h = ground arith

  lift-admins : Lifts low high admins
  unfolding role_rank
  lift-admins h = ground arith

  lift-team_admins : Lifts low high team_admins
  unfolding role_rank
  lift-team_admins h = ground arith

  lift-members : Lifts low high members
  unfolding role_rank
  lift-members h = ground arith

  lift-has_in_items :
      (p : String) (items : List Item) (a b : Bool)
      → All (λ (i : Item). Lifts low high i.roles) items
      → (a ≡ true → b ≡ true)
      → has_in_items low p items a ≡ true
      → has_in_items high p items b ≡ true
  unfolding has_in_items
  lift-has_in_items p [] a b l f h = f h
  lift-has_in_items p (i ∷ items) a b l f h = elim (Bool-cases (i.id == p)) [
    | inl hit ↦ rw hit (l.0 (rw hit at h))
    | inr miss ↦ rw miss (lift-has_in_items p items a b l.1 f (rw miss at h))
  ]

  lift-has_in_groups :
      (p : String) (groups : List Group)
      → All (λ (g : Group). All (λ (i : Item). Lifts low high i.roles) g.items) groups
      → has_in_groups low p groups ≡ true
      → has_in_groups high p groups ≡ true
  unfolding has_in_groups
  lift-has_in_groups p [] l h = h
  lift-has_in_groups p (g ∷ groups) l h =
      lift-has_in_items p g.items (has_in_groups low p groups) (has_in_groups high p groups) l.0
        (lift-has_in_groups p groups l.1) h

-- A role that passes `has_at_least` against a role that holds a permission holds it too.
pub has_permission_mono :
    (low high p : String)
    → has_at_least high low ≡ true
    → has_permission low p ≡ true
    → has_permission high p ≡ true
unfolding has_permission has_at_least
has_permission_mono low high p up =
    let r = leb→le (role_rank low) (role_rank high) up in
    let t = lift-top low high r in
    let a = lift-admins low high r in
    let m = lift-members low high r in
    let x = lift-team_admins low high r in
    lift-has_in_groups low high r p permission_catalog (
      (m, (m, (a, (m, tt)))),
      ((a, (x, (m, (x, tt)))), ((x, (a, (m, (x, tt)))), ((a, (t, (t, (t, (a, tt))))), tt))),
    )
