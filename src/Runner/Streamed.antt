-- ===== src/Runner/Streamed.antt =====
-- What was streamed is what is stored, and how a turn ends.
use hermes_python.Prelude.{
  ◌≡◌, refl, sym, ap, ◌∙◌, Bool, List, [], ◌∷◌, ◌++◌, arith, Bool-cases, inl, inr, if◌then◌else◌,
}
use hermes_python.Texts.{Text, is_empty}
use hermes_python.Runner.{
  start_event, Acc, Event, token_event, tool_event, thought_event, file_event, done_event,
  plan_event, usage_event, title_event, context_event, request_event, Update, message_chunk,
  tool_call, thought, plan, usage, session_info, usage_update, confirmation_request, unknown, Step,
  Row, Run, Input, cancel_request, agent_update, agent_write, publish, apply_update, check_cancel,
  receive, receive_all, begin,
}

module _ {ℓ} {A : Type ℓ} where
  abbrev pub gather : (Event → List A) → List Event → List A
  gather f [] = []
  gather f (e ∷ es) = f e ++ gather f es

  append_assoc : (xs ys zs : List A) → (xs ++ ys) ++ zs ≡ xs ++ (ys ++ zs)
  append_assoc [] ys zs = refl
  append_assoc (x ∷ xs) ys zs = ap (λ l. x ∷ l) (append_assoc xs ys zs)

  append_nil : (xs : List A) → xs ++ [] ≡ xs
  append_nil [] = refl
  append_nil (x ∷ xs) = ap (λ l. x ∷ l) (append_nil xs)

  pub gather-append :
      (f : Event → List A) (xs ys : List Event) → gather f (xs ++ ys) ≡ gather f xs ++ gather f ys
  gather-append f [] ys = refl
  gather-append f (e ∷ es) ys =
      ap (λ l. f e ++ l) (gather-append f es ys)
      ∙ sym (append_assoc (f e) (gather f es) (gather f ys))

  gather-last :
      (f : Event → List A) (xs : List Event) (e : Event)
      → gather f (xs ++ e ∷ []) ≡ gather f xs ++ f e
  gather-last f xs e = gather-append f xs (e ∷ []) ∙ ap (λ l. gather f xs ++ l) (append_nil (f e))

abbrev pub token_of : Event → Text
token_of (token_event t) = t
token_of _ = []

abbrev pub thought_of : Event → Text
thought_of (thought_event t) = t
thought_of _ = []

abbrev pub tool_of : Event → List Step
tool_of (tool_event s) = s ∷ []
tool_of _ = []

abbrev pub end_of : Event → List Text
end_of (done_event status text) = status ∷ []
end_of _ = []

-- The events tell what `acc` holds, no end among them, and the client was told to cancel once if
-- the turn is cancelled and never if not.
pub record IsStreamed (r : Run) : Type 0 where
  pub tokens : gather token_of r.events ≡ r.acc.text
  pub thoughts : gather thought_of r.events ≡ r.acc.thinking
  pub tools : gather tool_of r.events ≡ r.acc.steps
  pub open_end : gather end_of r.events ≡ []
  pub told : r.cancels ≡ (if r.acc.cancelled then 1 else 0)

begin-IsStreamed :
    (flag : Bool) (title : Text) (row : Row)
    → IsStreamed (publish start_event (begin flag title row))
begin-IsStreamed flag title row = record {
  tokens = refl;
  thoughts = refl;
  tools = refl;
  open_end = refl;
  told = refl;
}

-- An event beside a change of `acc` that it tells.
publish-IsStreamed :
    (r : Run) (e : Event) (a : Acc) (title : Text)
    → IsStreamed r
    → a.text ≡ r.acc.text ++ token_of e
    → a.thinking ≡ r.acc.thinking ++ thought_of e
    → a.steps ≡ r.acc.steps ++ tool_of e
    → end_of e ≡ []
    → a.cancelled ≡ r.acc.cancelled
    → IsStreamed (publish e (record r { acc = a; title = title }))
publish-IsStreamed r e a title h text thinking steps open_end cancelled = record {
  tokens = gather-last token_of r.events e ∙ rw h.tokens (sym text);
  thoughts = gather-last thought_of r.events e ∙ rw h.thoughts (sym thinking);
  tools = gather-last tool_of r.events e ∙ rw h.tools (sym steps);
  open_end = gather-last end_of r.events e ∙ rw (h.open_end, open_end) refl;
  told = rw cancelled h.told;
}

quiet_event :
    (r : Run) (e : Event) (a : Acc) (title : Text)
    → IsStreamed r
    → token_of e ≡ []
    → thought_of e ≡ []
    → tool_of e ≡ []
    → end_of e ≡ []
    → a.text ≡ r.acc.text
    → a.thinking ≡ r.acc.thinking
    → a.steps ≡ r.acc.steps
    → a.cancelled ≡ r.acc.cancelled
    → IsStreamed (publish e (record r { acc = a; title = title }))
quiet_event r e a title h no_token no_thought no_tool no_end text thinking steps cancelled =
    publish-IsStreamed r e a title h (text ∙ rw no_token (sym (append_nil r.acc.text)))
      (thinking ∙ rw no_thought (sym (append_nil r.acc.thinking)))
      (steps ∙ rw no_tool (sym (append_nil r.acc.steps))) no_end cancelled

apply_update-IsStreamed : (u : Update) (r : Run) → IsStreamed r → IsStreamed (apply_update u r)
unfolding apply_update
apply_update-IsStreamed (message_chunk delta) r h = elim (Bool-cases (is_empty delta)) [
  | inl e ↦ rw (e, apply_update) h
  | inr e ↦
      rw (e, apply_update)
        (publish-IsStreamed r (token_event delta) _ r.title h refl (sym (append_nil r.acc.thinking))
          (sym (append_nil r.acc.steps)) refl refl)
]
apply_update-IsStreamed (tool_call step) r h =
    publish-IsStreamed r (tool_event step) _ r.title h (sym (append_nil r.acc.text))
      (sym (append_nil r.acc.thinking)) refl refl refl
apply_update-IsStreamed (thought text delta) r h =
    elim (Bool-cases (is_empty (if is_empty text then delta else text))) [
      | inl e ↦ rw (e, apply_update) h
      | inr e ↦
          rw (e, apply_update)
            (publish-IsStreamed r (thought_event _) _ r.title h (sym (append_nil r.acc.text)) refl
              (sym (append_nil r.acc.steps)) refl refl)
    ]
apply_update-IsStreamed (plan []) r h = h
apply_update-IsStreamed (plan (e ∷ es)) r h =
    quiet_event r (plan_event (e ∷ es)) _ r.title h refl refl refl refl refl refl refl refl
apply_update-IsStreamed (usage input output) r h =
    quiet_event r (usage_event input output) _ r.title h refl refl refl refl refl refl refl refl
apply_update-IsStreamed (session_info title) r h = elim (Bool-cases (is_empty title)) [
  | inl e ↦ rw (e, apply_update) h
  | inr e ↦
      rw (e, apply_update)
        (quiet_event r (title_event title) r.acc title h refl refl refl refl refl refl refl refl)
]
apply_update-IsStreamed (usage_update size used) r h =
    quiet_event r (context_event size used) r.acc r.title h refl refl refl refl refl refl refl refl
apply_update-IsStreamed (confirmation_request q) r h =
    quiet_event r (request_event q) r.acc r.title h refl refl refl refl refl refl refl refl
apply_update-IsStreamed unknown r h = h

check_cancel-IsStreamed : (r : Run) → IsStreamed r → IsStreamed (check_cancel r)
unfolding check_cancel
check_cancel-IsStreamed r h = record {
  tokens = h.tokens;
  thoughts = h.thoughts;
  tools = h.tools;
  open_end = h.open_end;
  told = ground (arith, h.told);
}

receive-IsStreamed : (i : Input) (r : Run) → IsStreamed r → IsStreamed (receive i r)
unfolding receive
receive-IsStreamed cancel_request r h = record {
  tokens = h.tokens;
  thoughts = h.thoughts;
  tools = h.tools;
  open_end = h.open_end;
  told = h.told;
}
receive-IsStreamed (agent_update u) r h =
    check_cancel-IsStreamed (apply_update u r) (apply_update-IsStreamed u r h)
receive-IsStreamed (agent_write f) r h =
    quiet_event r (file_event f) _ r.title h refl refl refl refl refl refl refl refl

pub receive_all-IsStreamed :
    (inputs : List Input) (r : Run) → IsStreamed r → IsStreamed (receive_all inputs r)
unfolding receive_all
receive_all-IsStreamed [] r h = h
receive_all-IsStreamed (i ∷ more) r h =
    receive_all-IsStreamed more (receive i r) (receive-IsStreamed i r h)

-- The state that a turn of a found agent reaches before it ends.
pub before_end-IsStreamed :
    (inputs : List Input) (flag : Bool) (title : Text) (row : Row)
    → IsStreamed (receive_all inputs (publish start_event (begin flag title row)))
before_end-IsStreamed inputs flag title row =
    receive_all-IsStreamed inputs (publish start_event (begin flag title row))
      (begin-IsStreamed flag title row)
