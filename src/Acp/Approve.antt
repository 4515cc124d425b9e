-- ===== src/Acp/Approve.antt =====
-- `request_permission`: which path an edit is about, and whether it lies in the workspace. `realpath`
-- and `expanduser` read the file system and the environment, and are parameters.
use hermes_python.Prelude.{Bool, false, ◌||◌, [], ◌∷◌, ◌++◌, String, if◌then◌else◌}
use hermes_python.Json.{Json, Items, Fields, nil, cons, text, get_key, fields, items, ◌or◌}
use hermes_python.Texts.{Text, codes, is_empty, text_eq, starts_with}
use hermes_python.Files.{slash, join_path}

-- The text of a value, `""` if it is not one.
abbrev pub text_of : Json → Text
text_of (text s) = codes s
text_of _ = []

abbrev either_key : String → String → Fields → Text
either_key a b fs = text_of (get_key a fs or get_key b fs)

-- `for loc in ...: edit_path = ...; if edit_path: break`
first_in : (Fields → Text) → Items → Text
first_in at nil = []
first_in at (cons v vs) =
    let rest = first_in at vs in let here = at (fields v) in if is_empty here then rest else here

infixr 20 ◌orelse◌
abbrev ◌orelse◌ : Text → Text → Text
a orelse b = if is_empty a then b else a

unfoldable pub tool_call : Fields → Fields
tool_call params = fields (get_key "toolCall" params or get_key "tool_call" params)

unfoldable pub arguments : Fields → Fields
arguments call =
    let raw = fields (get_key "rawInput" call or get_key "raw_input" call) in
    fields (get_key "arguments" raw or get_key "args" raw)

unfoldable pub edit_path : Fields → Text
unfolding tool_call arguments first_in
edit_path params =
    let call = tool_call params in
    either_key "path" "file_path" (arguments call)
    orelse first_in (either_key "path" "uri") (items (get_key "locations" call))
    orelse first_in (λ c. text_of (get_key "path" c)) (items (get_key "content" call))
    orelse either_key "path" "file_path" params
    orelse either_key "path" "file_path" (fields (get_key "input" call))

unfoldable pub file_content : Fields → Text
unfolding arguments first_in
file_content call =
    either_key "content" "file_content" (arguments call)
    orelse first_in (either_key "content" "text") (items (get_key "content" call))
    orelse text_of (get_key "content" call)

module _ (realpath expanduser : Text → Text) where
  -- The path against the workspace, if it is a relative one.
  unfoldable pub against_cwd : Text → Text → Text
  unfolding starts_with join_path
  against_cwd cwd path = if starts_with path (slash ∷ []) then path else join_path cwd path

  unfoldable pub is_inside : Text → Text → Bool
  unfolding starts_with
  is_inside cwd path =
      let real_cwd = realpath cwd in
      let real_edit = realpath (expanduser path) in
      starts_with real_edit (real_cwd ++ slash ∷ []) || text_eq real_edit real_cwd

  unfoldable pub approved : Text → Text → Bool
  unfolding against_cwd is_inside
  approved cwd path = if is_empty path then false else is_inside cwd (against_cwd cwd path)
