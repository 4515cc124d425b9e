-- ===== src/Governance/Tests.antt =====
-- Runs of the permission matrix on small policies.
use hermes_python.Prelude.{◌≡◌, refl, true, false, some, [], ◌∷◌, string_has_eq}
use hermes_python.Dict.{get, put, merge, keep_keys}
use hermes_python.Governance.{
  Policy, can, toggle, is_known, is_team_role, default_row, ensure_policy, assert_known,
}
use hermes_python.Governance.Toggle.{can-toggle}

abbrev strict : Policy
strict = ("project.create", ("member", false) ∷ ("owner", false) ∷ []) ∷ []

member_denied : can (some strict) "project.create" "member" ≡ false
unfolding can ensure_policy default_row is_team_role get put merge keep_keys
member_denied = refl

member_regains :
    can (some (toggle strict "project.create" "member")) "project.create" "member" ≡ true
unfolding can toggle is_known ensure_policy default_row is_team_role get put merge keep_keys
member_regains = refl

unknown_role : can (some (toggle strict "project.create" "guest")) "project.create" "guest" ≡ false
unfolding can toggle is_known ensure_policy default_row is_team_role get put merge keep_keys
unknown_role = refl

unknown_reported : assert_known ("member.role" ∷ "team.burn" ∷ []) ≡ some "team.burn"
unfolding assert_known is_known
unknown_reported = refl

can-toggle_example :
    can (some (toggle strict "project.create" "member")) "project.create" "admin"
    ≡ can (some strict) "project.create" "admin"
can-toggle_example = can-toggle strict "project.create" "member" "project.create" "admin"
