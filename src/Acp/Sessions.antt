-- ===== src/Acp/Sessions.antt =====
-- The session calls of `acp_client.py`, over the outcome of the request that each one makes.
use hermes_python.Prelude.{
  Bool, ◌||◌, Option, none, some, String, ◌==◌, string_has_eq, if◌then◌else◌,
}
use hermes_python.Json.{Json, Fields, text, obj, field, end, has_key, get_key, fields, ◌or◌}
use hermes_python.Acp.{Client, Proc}

-- How `_request` ends: with the result object, `ACPTimeout`, or another `ACPError`.
pub data Rpc : Type 0 where
  replied : Fields → Rpc
  acp_timeout acp_error : Rpc

-- A method that may raise; what it wrote to the object stays written.
pub data Outcome {ℓ} (A : Type ℓ) : Type ℓ where
  ok : A → Outcome A
  timeout error : Outcome A

-- A value that is used as a session id: the text, if it is a non-empty one.
abbrev pub id_of : Json → Option String
id_of (text s) = if s == "" then none else some s
id_of _ = none

unfoldable pub new_session : Rpc → Client → Outcome String × Client
new_session acp_timeout c = (timeout, c)
new_session acp_error c = (error, c)
new_session (replied res) c =
    let sid = id_of (get_key "sessionId" res) in
    let c' = record c { session_id = sid } in elim sid [ none ↦ (error, c') | some s ↦ (ok s, c') ]

-- `load_session` has the same body.
unfoldable pub resume_session : Rpc → String → Client → Outcome String × Client
resume_session acp_timeout sid c = (timeout, c)
resume_session acp_error sid c = (error, c)
resume_session (replied res) sid c = (ok sid, record c { session_id = some sid })

unfoldable pub fork_session : Rpc → Client → Outcome (Option String) × Client
fork_session acp_timeout c = (timeout, c)
fork_session acp_error c = (error, c)
fork_session (replied res) c =
    let sid = id_of (get_key "sessionId" res or get_key "session_id" res) in
    (ok sid, record c { session_id = sid })

-- `start`: the spawned process runs, or the call raises.
unfoldable pub start : Rpc → Client → Outcome (Unit {0}) × Client
start acp_timeout c = (timeout, c)
start acp_error c = (error, c)
start (replied _) c = (ok tt, record c { proc = Proc.running })

abbrev pub simple : Rpc → Outcome Fields
simple acp_timeout = timeout
simple acp_error = error
simple (replied res) = ok res

-- The parameters of `session/prompt`.
abbrev pub session_json : Option String → Json
session_json none = Json.null
session_json (some s) = text s

unfoldable pub prompt_params : Json → Client → Json
prompt_params blocks c =
    obj (field "sessionId" (session_json c.session_id) (field "prompt" blocks end))

-- The tests on the answer to `initialize`: the values may be empty objects, so the keys count.
unfoldable pub supports_resume : Fields → Bool
supports_resume init =
    let agent_caps =
      fields (get_key "agentCapabilities" init or get_key "agent_capabilities" init) in
    let session_caps =
      fields
        (get_key "sessionCapabilities" agent_caps or get_key "session_capabilities" agent_caps) in
    has_key "resume" session_caps
    || has_key "loadSession" agent_caps
    || has_key "load_session" agent_caps
    || has_key "loadSession" init
