-- ===== src/Acp/Dispatch.antt =====
-- `_dispatch`: one message from the agent. Where a field should be an object, an id or a text and is of
-- another type, the code may raise, which ends the reader; here it is as if it were not there.
use hermes_python.Prelude.{
  ℕ, Bool, ◌&&◌, ◌||◌, not, Option, none, some, String, [], ◌∷◌, ◌++◌, ◌==◌, string_has_eq,
  if◌then◌else◌,
}
use hermes_python.Json.{
  Json, Fields, null, flag, num, text, obj, end, field, has_key, get_key, truthy, fields, ◌or◌,
}
use hermes_python.Texts.{Text, codes, is_empty}
use hermes_python.Acp.{
  Client, Call, Future, on_update, on_fs_write, respond, write, settle, returned, raised,
}
use hermes_python.Acp.Approve.{tool_call, edit_path, file_content, against_cwd, approved}

-- The key under which Python's `dict` finds a value among integer keys.
abbrev pub key_of : Json → Option ℕ
key_of (num n) = some n
key_of (flag b) = some (if b then 1 else 0)
key_of _ = none

abbrev call_back : Call → Client → Client
call_back k c = record c { calls = c.calls ++ k ∷ [] }

-- `"id" in msg and ("result" in msg or "error" in msg)`
unfoldable pub is_response : Fields → Bool
is_response msg = has_key "id" msg && (has_key "result" msg || has_key "error" msg)

-- `str(msg["error"])` is the parameter `show`.
abbrev pub outcome : (Json → String) → Fields → Future
outcome show msg =
    if has_key "error" msg
    then raised (show (get_key "error" msg))
    else returned (get_key "result" msg or obj end)

unfoldable pub handle_response : (Json → String) → Fields → Client → Client
handle_response show msg c = elim (key_of (get_key "id" msg)) [
  | none ↦ c
  | some rid ↦ settle rid (outcome show msg) c
]

abbrev pub decision : Bool → Json
decision ok = obj (
    field "outcome"
      (obj (
        field "outcome" (text "selected")
          (field "optionId" (text (if ok then "allow_once" else "deny")) end)))
      end)

-- What the code assumes of the host: path resolution, and the printing of an error.
pub record Host : Type 0 where
  pub realpath : Text → Text
  pub expanduser : Text → Text
  pub relpath : Text → Text → Text
  pub show : Json → String

-- `d.get(k, default)`
abbrev text_or : String → Text → Fields → Text
text_or k default fs = elim (get_key k fs) [
  | text s ↦ codes s
  | _ ↦ if has_key k fs then [] else default
]

-- `fs/write_text_file`; an exception of the callback is logged and dropped.
unfoldable pub handle_write : Fields → Fields → Client → Client
handle_write msg params c = write (respond (get_key "id" msg) null) (
    call_back
      (on_fs_write (text_or "path" (codes "untitled.txt") params) (text_or "content" [] params)) c)

unfoldable pub handle_permission : Host → Fields → Fields → Client → Client
handle_permission h msg params c =
    let path = edit_path params in
    let full = against_cwd h.realpath h.expanduser c.cwd path in
    let ok = approved h.realpath h.expanduser c.cwd path in
    let body = file_content (tool_call params) in
    write (respond (get_key "id" msg) (decision ok)) (
      if ok && not (is_empty body)
      then call_back (on_fs_write (h.relpath full c.cwd) body) c
      else c)

unfoldable pub is_permission : String → Bool
is_permission method =
    method == "request_permission"
    || method == "session_request_permission"
    || method == "session/request_permission"

unfoldable pub handle_request : Host → String → Fields → Fields → Client → Client
handle_request h method msg params c =
    if method == "fs/write_text_file"
    then handle_write msg params c
    else if is_permission method
    then handle_permission h msg params c
    else write (respond (get_key "id" msg) null) c

-- `self.on_update(params.get("update") or params)`
unfoldable pub handle_notification : String → Fields → Client → Client
handle_notification method params c =
    if method == "session/update"
    then call_back (on_update (get_key "update" params or obj params)) c
    else c

abbrev pub method_of : Fields → String
method_of msg = elim (get_key "method" msg) [ text s ↦ s | _ ↦ "" ]

-- The test `method and "id" in msg`.
abbrev pub is_request : Fields → Bool
is_request msg = truthy (get_key "method" msg) && has_key "id" msg

unfoldable pub dispatch : Host → Fields → Client → Client
dispatch h msg c =
    let params = fields (get_key "params" msg) in
    if is_response msg
    then handle_response h.show msg c
    else if is_request msg
    then handle_request h (method_of msg) msg params c
    else handle_notification (method_of msg) params c
