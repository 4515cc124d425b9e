-- ===== src/Rbac/Tests.antt =====
-- Runs of the platform roles.
use hermes_python.Prelude.{◌≡◌, refl, false}
use hermes_python.Rbac.{has_permission}

viewer_reads_only : has_permission "viewer" "chat.create" ≡ false
unfolding has_permission
viewer_reads_only = refl

unknown_permission : has_permission "super_admin" "chat.burn" ≡ false
unfolding has_permission
unknown_permission = refl
