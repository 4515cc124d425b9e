-- ===== src/Admin/Shown.antt =====
-- Which roles a permission has after a toggle.
use hermes_python.Prelude.{
  ◌≡◌, map, false≢true, refl, sym, ap, ◌∙◌, Bool, true, false, ◌&&◌, Option, none, some, String,
  List, [], ◌∷◌, ◌++◌, arith, ◌==◌, ==_refl, string_has_eq, contains, leb, Bool-cases, Option-cases,
  inl, inr, if◌then◌else◌,
}
use hermes_python.Dict.{get, put, get-put}
use hermes_python.Http.{Reply, ok, http, check, ◌>>=◌}
use hermes_python.Rbac.{Item, Group, role_rank, permission_catalog}
use hermes_python.Admin.{
  Overrides, current_roles, changed, remove, toggle_permission, is_some, in_groups, in_items,
  overridden, build_permissions, role_names,
}

-- The role is in the list of the permission, by what is stored for it or else by the catalog.
abbrev has_role : Overrides → String → String → Bool
has_role o p role = contains role (current_roles o p)

abbrev listed : Option (List String) → List String
listed none = []
listed (some rs) = rs

-- The matrix that is shown lists the role for the permission.
abbrev pub shows : Overrides → String → String → Bool
shows o p role = contains role (listed (in_groups p (build_permissions o)))

contains-append :
    (r s : String) (rs : List String)
    → contains r (rs ++ s ∷ []) ≡ (if r == s then true else contains r rs)
contains-append r s [] = ground (arith, Bool-cases (r == s))
contains-append r s (x ∷ rs) = ground (arith, contains-append r s rs)

contains-remove_other :
    (r s : String) (rs : List String) → (r == s) ≡ false → contains r (remove s rs) ≡ contains r rs
unfolding remove
contains-remove_other r s [] h = refl
contains-remove_other r s (x ∷ rs) h = ground (
  arith,
  contains-remove_other r s rs h,
  h,
  string_has_eq.same_iff x s,
  string_has_eq.same_iff r x,
  string_has_eq.same_iff r s,
)

own_changed :
    (granted : Bool) (role : String) (rs : List String)
    → contains role (remove role rs) ≡ false
    → contains role (changed granted role rs) ≡ granted
unfolding changed
own_changed true role rs h = elim (Bool-cases (contains role rs)) [
  | inl y ↦ rw (changed, y) y
  | inr n ↦ rw (changed, n) (contains-append role role rs ∙ rw (==_refl role) refl)
]
own_changed false role rs h = elim (Bool-cases (contains role rs)) [
  | inl y ↦ rw (changed, y) h
  | inr n ↦ rw (changed, n) n
]

other_changed :
    (granted : Bool) (role r : String) (rs : List String)
    → (r == role) ≡ false
    → contains r (changed granted role rs) ≡ contains r rs
unfolding changed
other_changed true role r rs d = elim (Bool-cases (contains role rs)) [
  | inl y ↦ rw (changed, y) refl
  | inr n ↦ rw (changed, n) (contains-append r role rs ∙ rw d refl)
]
other_changed false role r rs d = elim (Bool-cases (contains role rs)) [
  | inl y ↦ rw (changed, y) (contains-remove_other r role rs d)
  | inr n ↦ rw (changed, n) refl
]

changed_lem :
    (granted : Bool) (role r : String) (rs : List String)
    → contains role (remove role rs) ≡ false
    → contains r (changed granted role rs) ≡ (if r == role then granted else contains r rs)
changed_lem granted role r rs h = elim (Bool-cases (r == role)) [
  | inl y ↦
      ap (λ z. contains z (changed granted role rs)) ((string_has_eq.same_iff r role).0 y)
      ∙ own_changed granted role rs h
      ∙ sym (rw y refl)
  | inr n ↦ other_changed granted role r rs n ∙ sym (rw n refl)
]

abbrev roles_at : String → Option (List String) → List String
roles_at p none = elim (in_groups p permission_catalog) [ none ↦ [] | some rs ↦ rs ]
roles_at p (some rs) = rs

current_roles_lem : (o : Overrides) (p : String) → current_roles o p ≡ roles_at p (get p o)
current_roles_lem o p = elim (Option-cases (get p o)) [
  | inl e ↦ rw (e, current_roles) refl
  | inr (rs, e) ↦ rw (e, current_roles) refl
]

has_role-put :
    (o : Overrides) (p q r : String) (rs : List String)
    → has_role (put p rs o) q r ≡ (if p == q then contains r rs else has_role o q r)
has_role-put o p q r rs =
    ap (contains r) (current_roles_lem (put p rs o) q ∙ ap (roles_at q) (get-put p q rs o))
    ∙ cases (p == q)
  where
    cases :
        (b : Bool)
        → contains r (roles_at q (if b then some rs else get q o))
          ≡ (if b then contains r rs else has_role o q r)
    cases true = refl
    cases false = ap (contains r) (sym (current_roles_lem o q))

passed :
    (a b c : Bool) (x new : Overrides)
    → (check a 403 >>= λ _. check b 404 >>= λ _. check c 422 >>= λ _. ok x) ≡ ok new
    → x ≡ new
passed true true true x new t = ap (λ (w : Reply Overrides). elim w [ ok y ↦ y | http s ↦ x ]) t
passed true true false x new t = ground (arith, t)
passed true false c x new t = ground (arith, t)
passed false b c x new t = ground (arith, t)

stored_lem :
    (admin p role q r : String) (granted : Bool) (o new : Overrides)
    → contains role (remove role (current_roles o p)) ≡ false
    → toggle_permission admin p role granted o ≡ ok new
    → has_role new q r ≡ (if p == q && r == role then granted else has_role o q r)
unfolding toggle_permission
stored_lem admin p role q r granted o new h t =
    ap (λ w. has_role w q r)
      (sym (
        passed (leb (role_rank "super_admin") (role_rank admin))
          (is_some (in_groups p permission_catalog)) (contains role role_names)
          (put p (changed granted role (current_roles o p)) o) new t))
    ∙ has_role-put o p q r (changed granted role (current_roles o p))
    ∙ here (p == q) refl
  where
    here :
        (b : Bool)
        → b ≡ (p == q)
        → (if b then contains r (changed granted role (current_roles o p)) else has_role o q r)
          ≡ (if b && r == role then granted else has_role o q r)
    here true e =
        changed_lem granted role r (current_roles o p) h
        ∙ ap (λ z. if r == role then granted else has_role o z r)
            ((string_has_eq.same_iff p q).0 (sym e))
    here false e = refl

overridden_roles : Overrides → String → Option (List String) → Option (List String)
overridden_roles o p none = none
overridden_roles o p (some rs) = some (elim (get p o) [ none ↦ rs | some own ↦ own ])

in_items-overridden :
    (o : Overrides) (p : String) (is : List Item)
    → in_items p (map (overridden o) is) ≡ overridden_roles o p (in_items p is)
unfolding overridden_roles
in_items-overridden o p [] = refl
in_items-overridden o p (i ∷ is) = elim (Bool-cases (i.id == p)) [
  | inl y ↦ rw y (
      ap (λ k. some (elim (get k o) [ none ↦ i.roles | some own ↦ own ]))
        ((string_has_eq.same_iff i.id p).0 y))
  | inr n ↦ rw n (in_items-overridden o p is)
]

in_groups-overridden :
    (o : Overrides) (p : String) (gs : List Group)
    → in_groups p (map (λ (g : Group). record g { items = map (overridden o) g.items }) gs)
      ≡ overridden_roles o p (in_groups p gs)
unfolding overridden_roles
in_groups-overridden o p [] = refl
in_groups-overridden o p (g ∷ gs) =
    ap (λ r. elim r [ some rs ↦ some rs | none ↦ in_items p (map (overridden o) g.items) ])
      (in_groups-overridden o p gs)
    ∙ later (in_groups p gs)
  where
    later :
        (r : Option (List String))
        → elim (overridden_roles o p r) [
          | some rs ↦ some rs
          | none ↦ in_items p (map (overridden o) g.items)
        ]
          ≡ overridden_roles o p (elim r [ some rs ↦ some rs | none ↦ in_items p g.items ])
    later none = in_items-overridden o p g.items
    later (some rs) = refl

shows_known :
    (o : Overrides) (q r : String) (rs : List String)
    → in_groups q permission_catalog ≡ some rs
    → shows o q r ≡ has_role o q r
unfolding overridden_roles
shows_known o q r rs e =
    ap (λ l. contains r (listed l))
      (in_groups-overridden o q permission_catalog ∙ ap (overridden_roles o q) e)
    ∙ ap (contains r) (sym (current_roles_lem o q ∙ by_stored (get q o)))
  where
    by_stored : (g : Option (List String)) → roles_at q g ≡ elim g [ none ↦ rs | some own ↦ own ]
    by_stored none = rw (e, roles_at) refl
    by_stored (some own) = refl

shows_unknown :
    (o : Overrides) (q r : String) → in_groups q permission_catalog ≡ none → shows o q r ≡ false
unfolding overridden_roles
shows_unknown o q r e =
    ap (λ l. contains r (listed l))
      (in_groups-overridden o q permission_catalog ∙ ap (overridden_roles o q) e)

known :
    (a b c : Bool) (x new : Overrides)
    → (check a 403 >>= λ _. check b 404 >>= λ _. check c 422 >>= λ _. ok x) ≡ ok new
    → b ≡ true
known true true c x new t = refl
known true false c x new t = ground (arith, t)
known false b c x new t = ground (arith, t)

-- After a toggle that is not refused, of a role that the stored list of the permission does not have
-- twice, the matrix that is shown lists the role for the permission exactly if that was granted, and
-- every other role, and every role of another permission, exactly if it did before.
pub toggle_permission_lem :
    (admin p role q r : String) (granted : Bool) (o new : Overrides)
    → contains role (remove role (current_roles o p)) ≡ false
    → toggle_permission admin p role granted o ≡ ok new
    → shows new q r ≡ (if p == q && r == role then granted else shows o q r)
unfolding toggle_permission
toggle_permission_lem admin p role q r granted o new h t =
    elim (Option-cases (in_groups q permission_catalog)) [
      | inl e ↦
          shows_unknown new q r e
          ∙ sym (
              ap (λ b. if b && r == role then granted else shows o q r) (apart e)
              ∙ shows_unknown o q r e)
      | inr (rs, e) ↦
          shows_known new q r rs e
          ∙ stored_lem admin p role q r granted o new h t
          ∙ ap (λ b. if p == q && r == role then granted else b) (sym (shows_known o q r rs e))
    ]
  where
    apart : in_groups q permission_catalog ≡ none → (p == q) ≡ false
    apart e = elim (Bool-cases (p == q)) [
      | inl y ↦
          let there =
            known (leb (role_rank "super_admin") (role_rank admin))
              (is_some (in_groups p permission_catalog)) (contains role role_names)
              (put p (changed granted role (current_roles o p)) o) new t in
          let gone =
            ap is_some
              (ap (λ k. in_groups k permission_catalog) ((string_has_eq.same_iff p q).0 y) ∙ e) in
          absurd (false≢true (sym gone ∙ there))
      | inr n ↦ n
    ]
