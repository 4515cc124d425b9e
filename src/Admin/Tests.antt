-- ===== src/Admin/Tests.antt =====
-- A grant that is stored over the catalog, and a user who is let in again.
use hermes_python.Prelude.{◌≡◌, refl, true, false, none, some, String, [], ◌∷◌, string_has_eq}
use hermes_python.Dict.{get, put}
use hermes_python.Rbac.{has_permission}
use hermes_python.Admin.{Overrides, toggle_permission, User, Changes, update_user}
use hermes_python.Admin.Shown.{shows, toggle_permission_lem}

abbrev granted : Overrides
granted = ("kb.delete", "super_admin" ∷ "admin" ∷ "team_admin" ∷ "member" ∷ []) ∷ []

toggle_permission_lem_example : shows granted "kb.delete" "member" ≡ true
unfolding hermes_python.Admin.remove toggle_permission hermes_python.Admin.changed get put
    hermes_python.Rbac.role_rank
toggle_permission_lem_example =
    toggle_permission_lem "super_admin" "kb.delete" "member" "kb.delete" "member" true [] granted
      refl refl

abbrev user : User
user = record {
  id = 1;
  email = "a@x";
  role = "member";
  status = "active";
  is_active = true;
  department = none;
  title = none;
}

abbrev to_status : String → Changes
to_status s = record { role = none; status = some s; is_active = none }

-- Made active again, the user still may not log in.
let_in_again :
    (update_user (to_status "active") (update_user (to_status "inactive") user)).is_active ≡ false
unfolding update_user
let_in_again = refl
