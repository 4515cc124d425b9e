-- ===== src/Acp/Tests.antt =====
-- Runs of the client on messages of an agent.
use hermes_python.Prelude.{
  ◌≡◌, refl, true, false, ◌⊎◌, inl, none, some, String, [], ◌∷◌, ◌++◌, nat_has_eq, if◌then◌else◌,
  string_has_eq,
}
use hermes_python.Dict.{get}
use hermes_python.Json.{Fields, get_key, num, text, obj, end, field}
use hermes_python.Texts.{Text, codes}
use hermes_python.Files.{slash}
use hermes_python.Acp.{
  Client, respond, Proc, waiting, raised, create, is_waiting, open_request, begin_request,
  fail_pending,
}
use hermes_python.Acp.Approve.{edit_path, approved, file_content}
use hermes_python.Acp.Dispatch.{
  handle_request, handle_permission, Host, decision, outcome, is_permission, is_response, dispatch,
}
use hermes_python.Acp.Pending.{IsTracked, begin_request-IsTracked, fail_pending_lem}
use hermes_python.Acp.Answers.{
  dispatch-IsTracked, dispatch_response, permission_inside, reply, resolved,
}

-- A file system without links, and errors that print alike.
abbrev host : Host
host = record { realpath = λ p. p; expanduser = λ p. p; relpath = λ p base. p; show = λ e. "error" }

abbrev started : Client
started = record (create 1 (codes "/w") 7 none) { proc = Proc.running }

started-IsTracked : IsTracked started
unfolding get
started-IsTracked = record { listed = λ r. refl; issued = λ r lt. refl }

abbrev asked : Client
asked = open_request "session/new" (obj end) started

asked_begun :
    IsTracked asked
    × (get asked.next_id started.futures ≡ none)
    × (get asked.next_id asked.futures ≡ some waiting)
unfolding begin_request
asked_begun = begin_request-IsTracked "session/new" (obj end) started asked started-IsTracked refl

asked-IsTracked : IsTracked asked
asked-IsTracked = asked_begun.0

fail_pending_lem_example : get 1 (fail_pending "subprocess closed" asked).futures ≡ (
    if is_waiting (get 1 asked.futures)
    then some (raised "subprocess closed")
    else get 1 asked.futures)
fail_pending_lem_example = fail_pending_lem "subprocess closed" asked 1 asked-IsTracked

abbrev answer : Fields
answer = field "id" (num 1) (field "result" (obj (field "sessionId" (text "s1") end)) end)

dispatch-IsTracked_example : IsTracked (dispatch host answer asked)
dispatch-IsTracked_example = dispatch-IsTracked host answer asked asked-IsTracked

dispatch_response_example : get 1 (dispatch host answer asked).futures ≡ (
    if is_waiting (get 1 asked.futures)
    then some (outcome host.show answer)
    else get 1 asked.futures)
unfolding is_response
dispatch_response_example = dispatch_response host answer asked 1 1 asked-IsTracked refl refl

-- An edit of a file in the workspace, and one of a file outside it.
abbrev edit : String → Fields
edit path = field "id" (num 9) (
    field "method" (text "session/request_permission")
      (field "params" (obj (field "path" (text path) end)) end))

outside_denied : reply host (edit "/etc/passwd") started ≡ decision false
unfolding is_permission approved edit_path
outside_denied = refl

inside_granted :
    (dispatch host (edit "/w/a.txt") started).sent
    ≡ started.sent ++ respond (get_key "id" (edit "/w/a.txt")) (decision true) ∷ []
unfolding is_permission approved edit_path dispatch is_response handle_request handle_permission
    file_content
inside_granted = refl

permission_inside_example :
    (resolved host (edit "/w/a.txt") started ≡ codes "/w")
    ⊎ ((rest : Text) × (resolved host (edit "/w/a.txt") started
          ≡ (codes "/w" ++ slash ∷ []) ++ rest))
unfolding is_permission is_response
permission_inside_example =
    permission_inside host (edit "/w/a.txt") started refl refl refl (inl inside_granted)
