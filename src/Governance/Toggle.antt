-- ===== src/Governance/Toggle.antt =====
-- What one toggle changes: its own cell, and no other.
use hermes_python.Prelude.{
  ◌≡◌, Bool, true, false, not, ◌&&◌, some, String, arith, ◌==◌, string_has_eq, if◌then◌else◌,
}
use hermes_python.Dict
use hermes_python.Dict.{get, get-put}
use hermes_python.Governance.{
  Policy, is_team_role, is_known, get_or_false, row_of, ensure_policy, can, toggle,
}
use hermes_python.Governance.Cells.{stored, or_default, get-ensure_policy, can_lem}

-- The cells that a toggle can flip: those of a known permission and a team role but the owner's.
abbrev pub is_editable : String → String → Bool
is_editable pid role = is_known pid && is_team_role role && not (role == "owner")

get-toggle :
    (policy : Policy) (pid role q s : String)
    → (s == "owner") ≡ false
    → is_team_role s ≡ true
    → is_known q ≡ true
    → let cell = or_default (stored (some policy) q s) q s in
      get s (row_of (toggle policy pid role) q)
      ≡ some (if q == pid && s == role then not cell else cell)
unfolding toggle
get-toggle policy pid role q s h team known =
    let pol = ensure_policy (some policy) in
    let row = row_of pol pid in
    ground (
      arith,
      get-put pid q (Dict.put role (not (get_or_false role row)) row) pol,
      get-put role s (not (get_or_false role row)) row,
      get-ensure_policy policy q s h team known,
      get-ensure_policy policy pid s h team,
      string_has_eq.same_iff pid q,
      string_has_eq.same_iff q pid,
      string_has_eq.same_iff role s,
      string_has_eq.same_iff s role,
    )

-- After `toggle` of (pid, role) the answer of `can` is negated at that very cell, if it is a known
-- permission and a team role other than the owner, and is the same at every other cell.
pub can-toggle :
    (policy : Policy) (pid role q s : String)
    → can (some (toggle policy pid role)) q s ≡ (
        if q == pid && s == role && is_editable pid role
        then not (can (some policy) q s)
        else can (some policy) q s)
can-toggle policy pid role q s = ground (
  arith,
  can_lem (some policy) q s,
  can_lem (some (toggle policy pid role)) q s,
  get-toggle policy pid role q s,
  string_has_eq.same_iff q pid,
  string_has_eq.same_iff s role,
)
