-- ===== src/Files/Confined.antt =====
-- What passes `confine_to_dir` lies in the base directory.
use hermes_python.Prelude.{◌≡◌, ◌⊎◌, some, ◌++◌, [], ◌∷◌, arith, nat_has_eq}
use hermes_python.Texts.{Text}
use hermes_python.Texts.Prefix.{text_eq-eq, starts_with-append}
use hermes_python.Files.{slash, join_path, confine_to_dir}

module _ (realpath : Text → Text) where
  -- An accepted target is the resolved base itself or lies below it, and it is what the joined path
  -- resolves to.
  pub confine_to_dir-below :
      (base relative target : Text)
      → confine_to_dir realpath base relative ≡ some target
      → (target ≡ realpath (join_path (realpath base) relative))
        × ((target ≡ realpath base)
            ⊎ ((rest : Text) × (target ≡ (realpath base ++ slash ∷ []) ++ rest)))
  unfolding confine_to_dir
  confine_to_dir-below base relative target h =
      let base_real = realpath base in
      let t = realpath (join_path base_real relative) in
      ground (arith, text_eq-eq t base_real, starts_with-append t (base_real ++ slash ∷ []))
