-- ===== src/Workspace/Objects.antt =====
-- backend/app/core/object_storage.py: the store of objects behind it is a service.
use hermes_python.Prelude.{◌≡◌, Option, some}
use hermes_python.Texts.{Text}

-- `put` and `get`; `none` is an exception.
pub record ObjectStore : Type 1 where
  pub State : Type 0
  pub put : State → Text → Text → Option State
  pub get : State → Text → Option Text

-- Reading a key gives what was last written there.
pub record IsLawful (O : ObjectStore) : Type 0 where
  pub get-put : (s t : O.State) (key v : Text) → O.put s key v ≡ some t → O.get t key ≡ some v
