-- ===== src/Acp/Answers.antt =====
-- What one message from the agent does: to the requests in flight, to the wire, to the workspace.
use hermes_python.Prelude.{
  ℕ, ◌≡◌, ◌≢◌, refl, sym, ap, ◌∙◌, List, Bool, true, false, ◌&&◌, some, String, [], ◌∷◌, ◌++◌,
  arith, ◌==◌, nat_has_eq, string_has_eq, if◌then◌else◌, Bool-cases, inl, inr, ◌⊎◌, Option-cases,
}
use hermes_python.Dict.{get, get-put}
use hermes_python.Json.{Json, Fields, get_key, fields}
use hermes_python.Texts.{Text}
use hermes_python.Files.{slash}
use hermes_python.Texts.Prefix.{text_eq-eq, starts_with-append}
use hermes_python.Acp.{Client, Future, Out, is_waiting, request, notify, respond, settle}
use hermes_python.Acp.Approve.{edit_path, against_cwd, approved, is_inside}
use hermes_python.Acp.Dispatch.{
  Host, key_of, outcome, decision, is_response, is_request, is_permission, handle_response,
  handle_write, handle_permission, handle_request, handle_notification, method_of, dispatch,
}
use hermes_python.Acp.Pending.{IsTracked, settle-IsTracked}

-- The request table of `d` is that of `c`.
record SameTable (c d : Client) : Type 0 where
  next_id : d.next_id ≡ c.next_id
  pending : d.pending ≡ c.pending
  futures : d.futures ≡ c.futures

SameTable-IsTracked : (c d : Client) → SameTable c d → IsTracked c → IsTracked d
SameTable-IsTracked c d s t = record {
  listed = λ r. ground (arith, t.listed r);
  issued = λ r lt. ground (arith, t.issued r);
}

handle_request-SameTable :
    (h : Host) (method : String) (msg params : Fields) (c : Client)
    → SameTable c (handle_request h method msg params c)
unfolding handle_request handle_write handle_permission
handle_request-SameTable h method msg params c = ground arith

handle_notification-SameTable :
    (method : String) (params : Fields) (c : Client)
    → SameTable c (handle_notification method params c)
unfolding handle_notification
handle_notification-SameTable method params c = ground arith

handle_response-IsTracked :
    (show : Json → String) (msg : Fields) (c : Client)
    → IsTracked c
    → IsTracked (handle_response show msg c)
unfolding handle_response
handle_response-IsTracked show msg c t = elim (Option-cases (key_of (get_key "id" msg))) [
  | inl e ↦ rw (e, handle_response) t
  | inr (rid, e) ↦
      rw (e, handle_response) (settle-IsTracked rid (outcome show msg) c (ground arith) t)
]

-- No message from the agent breaks the table of requests in flight.
pub dispatch-IsTracked :
    (h : Host) (msg : Fields) (c : Client) → IsTracked c → IsTracked (dispatch h msg c)
unfolding dispatch
dispatch-IsTracked h msg c t =
    let params = fields (get_key "params" msg) in
    elim (Bool-cases (is_response msg)) [
      | inl e ↦ rw e (handle_response-IsTracked h.show msg c t)
      | inr e ↦ elim (Bool-cases (is_request msg)) [
        | inl k ↦
            rw (e, k)
              (SameTable-IsTracked c _ (handle_request-SameTable h (method_of msg) msg params c) t)
        | inr k ↦
            rw (e, k)
              (SameTable-IsTracked c _ (handle_notification-SameTable (method_of msg) params c) t)
      ]
    ]

get-settle :
    (rid r : ℕ) (f : Future) (c : Client)
    → IsTracked c
    → get r (settle rid f c).futures
      ≡ (if r == rid && is_waiting (get r c.futures) then some f else get r c.futures)
unfolding settle
get-settle rid r f c t = ground (arith, t.listed rid, get-put rid r f c.futures)

-- A response settles the request whose id it carries, if that is in flight, and no other.
pub dispatch_response :
    (h : Host) (msg : Fields) (c : Client) (rid r : ℕ)
    → IsTracked c
    → is_response msg ≡ true
    → key_of (get_key "id" msg) ≡ some rid
    → get r (dispatch h msg c).futures ≡ (
        if r == rid && is_waiting (get r c.futures)
        then some (outcome h.show msg)
        else get r c.futures)
unfolding dispatch handle_response
dispatch_response h msg c rid r t e k =
    rw (e, k, handle_response) (get-settle rid r (outcome h.show msg) c t)

-- What the client answers to a request of the agent.
abbrev pub reply : Host → Fields → Client → Json
reply h msg c =
    let params = fields (get_key "params" msg) in
    if is_permission (method_of msg)
    then decision (approved h.realpath h.expanduser c.cwd (edit_path params))
    else Json.null

write-not-permission :
    (method : String) → (method == "fs/write_text_file") ≡ true → is_permission method ≡ false
unfolding is_permission
write-not-permission method h = rw ((string_has_eq.same_iff method "fs/write_text_file").0 h)

handle_request-sent :
    (h : Host) (msg : Fields) (c : Client)
    → (handle_request h (method_of msg) msg (fields (get_key "params" msg)) c).sent
      ≡ c.sent ++ respond (get_key "id" msg) (reply h msg c) ∷ []
unfolding handle_request handle_write handle_permission
handle_request-sent h msg c = ground (arith, write-not-permission (method_of msg))

-- Each request of the agent is answered once, under its own id, and nothing else is written. The
-- answer is null, or, to a request for permission, the decision about the edit's path.
pub dispatch_answers :
    (h : Host) (msg : Fields) (c : Client)
    → is_response msg ≡ false
    → is_request msg ≡ true
    → (dispatch h msg c).sent ≡ c.sent ++ respond (get_key "id" msg) (reply h msg c) ∷ []
unfolding dispatch
dispatch_answers h msg c e k = rw (e, k) (handle_request-sent h msg c)

-- The path that a request asks to edit, as the client resolves it.
abbrev pub resolved : Host → Fields → Client → Text
resolved h msg c = h.realpath (
    h.expanduser
      (against_cwd h.realpath h.expanduser c.cwd (edit_path (fields (get_key "params" msg)))))

approved-inside :
    (h : Host) (cwd path : Text)
    → approved h.realpath h.expanduser cwd path ≡ true
    → let full = h.realpath (h.expanduser (against_cwd h.realpath h.expanduser cwd path)) in
      (full ≡ h.realpath cwd) ⊎ ((rest : Text) × (full ≡ (h.realpath cwd ++ slash ∷ []) ++ rest))
unfolding approved is_inside
approved-inside h cwd path e =
    let full = h.realpath (h.expanduser (against_cwd h.realpath h.expanduser cwd path)) in
    ground (
      arith,
      text_eq-eq full (h.realpath cwd),
      starts_with-append full (h.realpath cwd ++ slash ∷ []),
    )

decision_grants : (b : Bool) → decision b ≡ decision true → b ≡ true
decision_grants true e = refl
decision_grants false e = ground (arith, string_has_eq.same_iff "deny" "allow_once")

-- The answer in the last line that was written.
abbrev last_answer : Json → List Out → Json
last_answer old [] = old
last_answer old (respond rid v ∷ more) = last_answer v more
last_answer old (request n m v ∷ more) = last_answer old more
last_answer old (notify m v ∷ more) = last_answer old more

last_answer-append :
    (old : Json) (lines : List Out) (rid v : Json)
    → last_answer old (lines ++ respond rid v ∷ []) ≡ v
last_answer-append old [] rid v = refl
last_answer-append old (respond r w ∷ more) rid v = last_answer-append w more rid v
last_answer-append old (request n m v ∷ more) rid w = last_answer-append old more rid w
last_answer-append old (notify m v ∷ more) rid w = last_answer-append old more rid w

same_answer :
    (lines : List Out) (rid v w : Json)
    → lines ++ respond rid v ∷ [] ≡ lines ++ respond rid w ∷ []
    → v ≡ w
same_answer lines rid v w e =
    sym (last_answer-append Json.null lines rid v)
    ∙ ap (last_answer Json.null) e
    ∙ last_answer-append Json.null lines rid w

answered :
    (h : Host) (msg : Fields) (c : Client)
    → is_response msg ≡ false
    → is_request msg ≡ true
    → is_permission (method_of msg) ≡ true
    → (dispatch h msg c).sent
      ≡ c.sent
        ++ respond (get_key "id" msg) (
            decision
              (approved h.realpath h.expanduser c.cwd (edit_path (fields (get_key "params" msg)))))
          ∷ []
answered h msg c r q e = dispatch_answers h msg c r q ∙ rw e refl

calls-denied :
    (h : Host) (msg : Fields) (c : Client)
    → is_response msg ≡ false
    → is_request msg ≡ true
    → is_permission (method_of msg) ≡ true
    → approved h.realpath h.expanduser c.cwd (edit_path (fields (get_key "params" msg))) ≡ false
    → (dispatch h msg c).calls ≡ c.calls
unfolding dispatch handle_request handle_permission
calls-denied h msg c r q e denied =
    rw (r, q) (ground (arith, denied, e, write-not-permission (method_of msg)))

-- If the client writes a grant in answer to a request for permission, or saves the content that comes
-- with it, then the path of the edit resolves to the workspace directory or to something below it.
pub permission_inside :
    (h : Host) (msg : Fields) (c : Client)
    → is_response msg ≡ false
    → is_request msg ≡ true
    → is_permission (method_of msg) ≡ true
    → ((dispatch h msg c).sent ≡ c.sent ++ respond (get_key "id" msg) (decision true) ∷ [])
      ⊎ ((dispatch h msg c).calls ≢ c.calls)
    → (resolved h msg c ≡ h.realpath c.cwd)
      ⊎ ((rest : Text) × (resolved h msg c ≡ (h.realpath c.cwd ++ slash ∷ []) ++ rest))
permission_inside h msg c r q e (inl granted) =
    let path = edit_path (fields (get_key "params" msg)) in
    let ok = approved h.realpath h.expanduser c.cwd path in
    approved-inside h c.cwd path (
      decision_grants ok (
        same_answer c.sent (get_key "id" msg) (decision ok) (decision true)
          (sym (answered h msg c r q e) ∙ granted)))
permission_inside h msg c r q e (inr saved) =
    let path = edit_path (fields (get_key "params" msg)) in
    approved-inside h c.cwd path (elim (Bool-cases (approved h.realpath h.expanduser c.cwd path)) [
      | inl ok ↦ ok
      | inr denied ↦ absurd (saved (calls-denied h msg c r q e denied))
    ])
