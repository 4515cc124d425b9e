-- ===== src/Files.antt =====
-- backend/app/core/files.py: bounded upload reads and path confinement. `realpath` reads the file
-- system, and is a parameter.
pub mod Relative
pub mod Upload
pub mod Confined
mod Tests
use hermes_python.Prelude.{
  ℕ, ◌+◌, Bool, true, false, ◌&&◌, ◌||◌, not, Option, none, some, String, List, [], ◌∷◌, ◌++◌, ◌==◌,
  nat_has_eq, ltb, length, if◌then◌else◌,
}
use hermes_python.Texts.{
  Text, codes, text_eq, is_empty, replace, strip, lstrip_by, split, join, starts_with, ends_in,
}

pub data Read : Type 0 where
  too_large : Read
  content : Text → Read

-- One turn of the loop gets the next chunk; an empty chunk, or no further one, is the end of the
-- file. `total` is `len(b"".join(chunks))` so far.
read_from : ℕ → List Text → Text → ℕ → Read
read_from max_bytes [] chunks total = content chunks
read_from max_bytes (chunk ∷ rest) chunks total =
    let total' = total + length chunk in
    let next = read_from max_bytes rest (chunks ++ chunk) total' in
    if is_empty chunk then content chunks else if ltb max_bytes total' then too_large else next

unfoldable pub read_upload_capped : List Text → ℕ → Read
unfolding read_from
read_upload_capped stream max_bytes = read_from max_bytes stream [] 0

abbrev pub slash : ℕ
slash = 47

abbrev dot : Text
dot = 46 ∷ []

abbrev dot_dot : Text
dot_dot = 46 ∷ 46 ∷ []

-- The `posixpath.normpath` of the standard library: a component is dropped, kept, or takes the one
-- before it away. The components kept so far stand in reverse.
unfoldable pub norm_step : Bool → List Text → Text → List Text
norm_step rooted kept comp =
    if is_empty comp || text_eq comp dot
    then kept
    else if not (text_eq comp dot_dot)
    then comp ∷ kept
    else elim kept [
      | [] ↦ if rooted then [] else comp ∷ []
      | last ∷ before ↦ if text_eq last dot_dot then comp ∷ last ∷ before else before
    ]

unfoldable pub norm_from : Bool → List Text → List Text → List Text
unfolding norm_step
norm_from rooted kept [] = kept
norm_from rooted kept (comp ∷ comps) = norm_from rooted (norm_step rooted kept comp) comps

unfoldable pub in_order : List Text → List Text → List Text
in_order [] done = done
in_order (w ∷ ws) done = in_order ws (w ∷ done)

abbrev initial_slashes : Text → Text
initial_slashes path =
    if starts_with path (slash ∷ slash ∷ []) && not (starts_with path (slash ∷ slash ∷ slash ∷ []))
    then slash ∷ slash ∷ []
    else if starts_with path (slash ∷ [])
    then slash ∷ []
    else []

abbrev pub or_else : Text → Text → Text
or_else t fallback = if is_empty t then fallback else t

unfoldable pub normpath : Text → Text
unfolding norm_from in_order split join starts_with
normpath path =
    let slashes = initial_slashes path in
    let kept = norm_from (not (is_empty slashes)) [] (split slash path) in
    if is_empty path then dot else or_else (slashes ++ join slash (in_order kept [])) dot

unfoldable pub safe_relative_path : Text → Text → Text
unfolding normpath strip replace lstrip_by
safe_relative_path name fallback =
    let candidate = strip (replace 92 slash name) in
    let normalized = lstrip_by (λ c. c == slash) (normpath (slash ∷ candidate)) in
    or_else (replace slash slash normalized) fallback

-- `os.path.join(base, relative)`
unfoldable pub join_path : Text → Text → Text
unfolding starts_with ends_in
join_path base relative =
    if starts_with relative (slash ∷ [])
    then relative
    else if is_empty base || ends_in slash base
    then base ++ relative
    else base ++ slash ∷ relative

module _ (realpath : Text → Text) where
  -- `none` is the `HTTPException` of an escape.
  unfoldable pub confine_to_dir : Text → Text → Option Text
  unfolding join_path starts_with
  confine_to_dir base_dir relative =
      let base_real = realpath base_dir in
      let target = realpath (join_path base_real relative) in
      if not (text_eq target base_real) && not (starts_with target (base_real ++ slash ∷ []))
      then none
      else some target
