-- ===== src/Governance/Cells.antt =====
-- What one cell of a completed policy is: the stored value, or the default of its role.
use hermes_python.Prelude.{
  ◌≡◌, refl, Bool, true, false, ◌&&◌, ◌||◌, Option, none, some, String, List, [], ◌∷◌, arith, ◌==◌,
  string_has_eq, contains, if◌then◌else◌, Bool-cases, inl, inr,
}
use hermes_python.Dict
use hermes_python.Dict.{get, get-nil, get-put, get-keep_keys, get-merge}
use hermes_python.Governance.{
  Row, Policy, permission_ids, is_team_role, is_known, get_or_false, row_of, default_row,
  default_from, default_policy, complete_row, complete_from, ensure_policy, can,
}

abbrev pub IsDistinct : List String → Type 0
IsDistinct [] = Unit
IsDistinct (x ∷ xs) = (contains x xs ≡ false) × IsDistinct xs

get-default_from :
    (x : String) (ids : List String) (policy : Policy)
    → get x (default_from ids policy)
      ≡ (if contains x ids then some (default_row x) else get x policy)
unfolding default_from
get-default_from x [] policy = refl
get-default_from x (pid ∷ ids) policy = ground (
  arith,
  get-default_from x ids (Dict.put pid (default_row pid) policy),
  get-put pid x (default_row pid) policy,
  string_has_eq.same_iff pid x,
  string_has_eq.same_iff x pid,
)

get-complete_from_ne :
    (policy : Policy) (x : String) (ids : List String) (base : Policy)
    → contains x ids ≡ false
    → get x (complete_from policy ids base) ≡ get x base
unfolding complete_from
get-complete_from_ne policy x [] base h = refl
get-complete_from_ne policy x (pid ∷ ids) base h =
    let row = complete_row (row_of base pid) (row_of policy pid) in
    ground (
      arith,
      get-complete_from_ne policy x ids (Dict.put pid row base),
      get-put pid x row base,
      string_has_eq.same_iff pid x,
      string_has_eq.same_iff x pid,
    )

get-complete_from :
    (policy : Policy) (x : String) (ids : List String) (base : Policy)
    → IsDistinct ids
    → contains x ids ≡ true
    → get x (complete_from policy ids base) ≡ some (complete_row (row_of base x) (row_of policy x))
unfolding complete_from
get-complete_from policy x [] base d h = cc
get-complete_from policy x (pid ∷ ids) base d h =
    let row = complete_row (row_of base pid) (row_of policy pid) in
    ground (
      arith,
      get-complete_from policy x ids (Dict.put pid row base),
      get-complete_from_ne policy pid ids (Dict.put pid row base),
      get-put pid x row base,
      get-put pid pid row base,
      string_has_eq.same_iff pid x,
      string_has_eq.same_iff pid pid,
      string_has_eq.same_iff x pid,
    )

-- The value that the stored policy holds for a cell, if it is one of a team role.
abbrev pub stored : Option Policy → String → String → Option Bool
stored none pid role = none
stored (some policy) pid role = if is_team_role role then get role (row_of policy pid) else none

abbrev pub or_default : Option Bool → String → String → Bool
or_default none pid role = get_or_false role (default_row pid)
or_default (some b) pid role = b

get-default_policy :
    (x : String) → get x default_policy ≡ (if is_known x then some (default_row x) else none)
unfolding default_policy is_known get
get-default_policy x = get-default_from x permission_ids []

row_of-default_policy :
    (x : String) → row_of default_policy x ≡ (if is_known x then default_row x else [])
row_of-default_policy x = ground (arith, get-default_policy x)

get-complete_row :
    (role : String) (base row : Row)
    → (role == "owner") ≡ false
    → get role (complete_row base row) ≡ elim (if is_team_role role then get role row else none) [
      | none ↦ get role base
      | some b ↦ some b
    ]
unfolding complete_row
get-complete_row role base row h = ground (
  arith,
  get-put "owner" role true (Dict.merge base (Dict.keep_keys is_team_role row)),
  get-merge role base (Dict.keep_keys is_team_role row),
  get-keep_keys is_team_role role row,
  string_has_eq.same_iff "owner" role,
  string_has_eq.same_iff role "owner",
)

permission_ids-IsDistinct : IsDistinct permission_ids
permission_ids-IsDistinct = (
  refl,
  (
    refl,
    (refl, (refl, (refl, (refl, (refl, (refl, (refl, (refl, (refl, (refl, (refl, tt))))))))))),
  ),
)

module _ (policy : Policy) (pid : String) where
  row_of-complete_known :
      is_known pid ≡ true
      → row_of (complete_from policy permission_ids default_policy) pid
        ≡ complete_row (default_row pid) (row_of policy pid)
  row_of-complete_known known = ground (
    arith,
    get-complete_from policy pid permission_ids default_policy permission_ids-IsDistinct
        (unfold is_known in known),
    row_of-default_policy pid,
  )

  row_of-complete_unknown :
      is_known pid ≡ false → row_of (complete_from policy permission_ids default_policy) pid ≡ []
  row_of-complete_unknown unknown = ground (
    arith,
    get-complete_from_ne policy pid permission_ids default_policy (unfold is_known in unknown),
    row_of-default_policy pid,
  )

cell-ensure_policy :
    (policy : Option Policy) (pid role : String)
    → (role == "owner") ≡ false
    → get_or_false role (row_of (ensure_policy policy) pid)
      ≡ (is_known pid && or_default (stored policy pid role) pid role)
unfolding ensure_policy
cell-ensure_policy none pid role h =
    ground (arith, row_of-default_policy pid, get-nil {V = Bool} role)
cell-ensure_policy (some []) pid role h =
    ground (arith, row_of-default_policy pid, get-nil {V = Bool} role, get-nil {V = Row} pid)
cell-ensure_policy (some (r ∷ rows)) pid role h = ground (
  arith,
  row_of-complete_known (r ∷ rows) pid,
  row_of-complete_unknown (r ∷ rows) pid,
  get-nil {V = Bool} role,
  get-complete_row role (default_row pid) (row_of (r ∷ rows) pid) h,
)

get-default_row :
    (pid role : String)
    → is_team_role role ≡ true
    → get role (default_row pid) ≡ some (get_or_false role (default_row pid))
unfolding default_row is_team_role get
get-default_row pid role h = ground (
  arith,
  string_has_eq.same_iff role "owner",
  string_has_eq.same_iff role "admin",
  string_has_eq.same_iff role "member",
  string_has_eq.same_iff role "viewer",
  string_has_eq.same_iff "owner" role,
  string_has_eq.same_iff "admin" role,
  string_has_eq.same_iff "member" role,
  string_has_eq.same_iff "viewer" role,
)

-- A completed policy has an entry for every team role at every known permission.
pub get-ensure_policy :
    (policy : Policy) (pid role : String)
    → (role == "owner") ≡ false
    → is_team_role role ≡ true
    → is_known pid ≡ true
    → get role (row_of (ensure_policy (some policy)) pid)
      ≡ some (or_default (stored (some policy) pid role) pid role)
unfolding ensure_policy
get-ensure_policy [] pid role h team known = ground (
  arith,
  row_of-default_policy pid,
  get-nil {V = Bool} role,
  get-nil {V = Row} pid,
  get-default_row pid role,
)
get-ensure_policy (r ∷ rows) pid role h team known = ground (
  arith,
  row_of-complete_known (r ∷ rows) pid known,
  get-complete_row role (default_row pid) (row_of (r ∷ rows) pid) h,
  get-default_row pid role team,
)

-- `can` grants a cell exactly if it is the owner's, or that of a known permission whose stored
-- value, or else whose default, is true.
pub can_lem :
    (policy : Option Policy) (pid role : String)
    → can policy pid role
      ≡ (role == "owner" || is_known pid && or_default (stored policy pid role) pid role)
unfolding can
can_lem policy pid role = elim (Bool-cases (role == "owner")) [
  | inl owner ↦ rw owner
  | inr other ↦ rw other (cell-ensure_policy policy pid role other)
]
