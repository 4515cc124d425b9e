-- ===== src/Files/Tests.antt =====
-- Runs of the path and upload helpers.
use hermes_python.Prelude.{◌≡◌, refl, ◌⊎◌, List, [], ◌∷◌, arith, All}
use hermes_python.Texts.{Text, codes, split}
use hermes_python.Files.{slash, safe_relative_path}
use hermes_python.Files.Relative.{IsPlain, safe_relative_path-IsPlain}

abbrev sneaky : Text
sneaky = codes "a/../../b\\../etc//./passwd "

abbrev untitled : Text
untitled = codes "untitled.txt"

climb : safe_relative_path sneaky untitled ≡ codes "etc/passwd"
unfolding safe_relative_path
climb = refl

safe_relative_path-IsPlain_example :
    All IsPlain (split slash (safe_relative_path sneaky untitled))
    ⊎ (safe_relative_path sneaky untitled ≡ untitled)
safe_relative_path-IsPlain_example = safe_relative_path-IsPlain sneaky untitled

abbrev src : Text
src = codes "src"

abbrev main_py : Text
main_py = codes "main.py"

nested-IsPlain : All IsPlain (src ∷ main_py ∷ [])
nested-IsPlain = ground arith

abbrev stream : List Text
stream = (1 ∷ 2 ∷ []) ∷ (3 ∷ []) ∷ [] ∷ (4 ∷ []) ∷ []

abbrev workspace : Text
workspace = codes "/w"

-- A file system without links and relative paths.
abbrev plain_paths : Text → Text
plain_paths p = p
