-- ===== src/Routing/Enqueued.antt =====
-- Which agents a message is enqueued for.
use hermes_python.Prelude.{
  ℕ, ◌+◌, ◌≡◌, refl, ap, ◌∙◌, Bool, true, false, Option, List, [], ◌∷◌, ◌++◌, arith, ◌==◌, ◌||◌,
  contains, map, length, length-append, Bool-cases, inl, inr, if◌then◌else◌,
}
use hermes_python.Texts.{Text, codes}
use hermes_python.Texts.Same.{text_has_eq}
use hermes_python.Groups.{Conversation, group_agents}
use hermes_python.Groups.Mentions.{
  all_humans, IsListing, resolve_mentions, contains-resolve_mentions,
}
use hermes_python.Routing.{Prompt, single, roundtable, Chat, Turn}
use hermes_python.Routing.Sending.{send_user_only, send_message, send_roundtable}
use hermes_python.Routing.Dispatch.{
  Context, dispatch, dispatch_group, is_silent, responders, set_active_agents, mode_of,
}

-- The agents that a prompt is for.
abbrev pub answering : Prompt → List Text
answering (single cid mid agent text blocks system dir) = agent ∷ []
answering (roundtable cid mid agents text system dir) = agents

abbrev pub has_any : List Text → Bool
has_any [] = false
has_any (a ∷ more) = true

queue_lem :
    (x : Context) (t : Turn) (mentions : List Text) (skip : Bool) (override : Option Text)
    (c : Chat)
    → length (dispatch_group x t mentions skip override c).queue
      ≡ length c.queue
        + (if is_silent c.convo mentions skip
            then 0
            else if has_any (responders x c.convo mentions)
            then 1
            else 0)
unfolding dispatch_group send_user_only send_message send_roundtable
queue_lem x t mentions skip override c =
    by_silence (is_silent c.convo mentions skip) refl (responders x c.convo mentions) refl
  where
    by_silence :
        (b : Bool)
        → is_silent c.convo mentions skip ≡ b
        → (rs : List Text) → responders x c.convo mentions ≡ rs
        → length (dispatch_group x t mentions skip override c).queue
          ≡ length c.queue
            + (if is_silent c.convo mentions skip
                then 0
                else if has_any (responders x c.convo mentions)
                then 1
                else 0)
    by_silence true e rs f = rw (e, dispatch_group) (omega arith)
    by_silence false e [] f = rw (e, f, dispatch_group) (omega arith)
    by_silence false e (a ∷ []) f = rw (e, f, dispatch_group) (length-append c.queue _)
    by_silence false e (a ∷ b ∷ more) f = rw (e, f, dispatch_group) (length-append c.queue _)

-- Whether a group of this setting has an agent answer, where `named` are its agents that the mentions
-- name, and `agents` all of them.
abbrev pub has_answer : Text → List Text → List Text → Bool
has_answer mode named agents =
    if mode == codes "off"
    then false
    else if has_any named
    then true
    else if mode == codes "always"
    then has_any agents
    else false

-- How many prompts a message to the group enqueues.
abbrev pub to_send : Context → Conversation → List Text → Bool → ℕ
to_send x c mentions skip =
    if skip || contains all_humans mentions
    then 0
    else if has_answer (mode_of c) (resolve_mentions x.set_list x.profiles c.id x.members mentions)
        (group_agents c.id x.members)
    then 1
    else 0

-- What the code tests in its turn.
abbrev to_enqueue : Context → Conversation → List Text → Bool → ℕ
to_enqueue x c mentions skip =
    if is_silent c mentions skip then 0 else if has_any (responders x c mentions) then 1 else 0

answered_lem :
    (x : Context) (c : Conversation) (mentions : List Text) (skip : Bool)
    → to_enqueue x c mentions skip ≡ to_send x c mentions skip
unfolding is_silent responders
answered_lem x c mentions skip =
    by_named (resolve_mentions x.set_list x.profiles c.id x.members mentions) refl
  where
    cases : (b : Bool) → let zero : ℕ = 0 in zero ≡ (if b then 0 else 0)
    cases true = refl
    cases false = refl

    by_named :
        (rs : List Text)
        → resolve_mentions x.set_list x.profiles c.id x.members mentions ≡ rs
        → to_enqueue x c mentions skip ≡ to_send x c mentions skip
    by_named [] e =
        rw (e, responders)
          (elim (Bool-cases (mode_of c == codes "off")) [
            | inl y ↦ rw y (cases (skip || contains all_humans mentions))
            | inr n ↦ elim (Bool-cases (mode_of c == codes "always")) [
              | inl w ↦ rw (n, w) refl
              | inr w ↦ rw (n, w) refl
            ]
          ])
    by_named (a ∷ more) e =
        rw (e, responders)
          (elim (Bool-cases (mode_of c == codes "off")) [
            | inl y ↦ rw y (cases (skip || contains all_humans mentions))
            | inr n ↦ rw n refl
          ])

-- A message to a group that is not sent to the people alone, by a flag or by a mention of all humans,
-- enqueues one prompt if the group is not switched off and a mention names one of its agents or, in a
-- group set to `always`, it has any agent; else, and if it is for the people alone, none.
pub queue-dispatch_group :
    (x : Context) (t : Turn) (mentions : List Text) (skip : Bool) (override : Option Text)
    (c : Chat)
    → length (dispatch_group x t mentions skip override c).queue
      ≡ length c.queue + to_send x c.convo mentions skip
queue-dispatch_group x t mentions skip override c =
    queue_lem x t mentions skip override c
    ∙ ap (λ n. length c.queue + n) (answered_lem x c.convo mentions skip)

map-append : (xs ys : List Prompt) → map answering (xs ++ ys) ≡ map answering xs ++ map answering ys
map-append [] ys = refl
map-append (x ∷ xs) ys = ap (λ zs. answering x ∷ zs) (map-append xs ys)

-- Where a message is not silent and one agent is to answer, one prompt is enqueued, for the
-- conversation's primary agent, whoever that one is.
pub answering-dispatch_group :
    (x : Context) (t : Turn) (mentions : List Text) (skip : Bool) (override : Option Text)
    (c : Chat) (a : Text)
    → is_silent c.convo mentions skip ≡ false
    → responders x c.convo mentions ≡ a ∷ []
    → map answering (dispatch_group x t mentions skip override c).queue
      ≡ map answering c.queue ++ (c.convo.primary_agent_id ∷ []) ∷ []
unfolding dispatch_group send_user_only send_message
answering-dispatch_group x t mentions skip override c a e f =
    rw (e, f, dispatch_group) (map-append c.queue _)

-- Whatever order Python lists a set in, the agents that are to answer are agents of the group.
pub responders-group :
    (x : Context) (c : Conversation) (mentions : List Text) (a : Text)
    → IsListing x.set_list
    → contains a (responders x c mentions) ≡ true
    → contains a (group_agents c.id x.members) ≡ true
unfolding responders
responders-group x c mentions a law h =
    by_found (resolve_mentions x.set_list x.profiles c.id x.members mentions) refl
  where
    by_found :
        (rs : List Text)
        → resolve_mentions x.set_list x.profiles c.id x.members mentions ≡ rs
        → contains a (group_agents c.id x.members) ≡ true
    by_found [] e = elim (Bool-cases (mode_of c == codes "always")) [
      | inl always ↦ rw (e, always, responders) at h
      | inr other ↦ ground (arith, rw (e, other, responders) at h)
    ]
    by_found (b ∷ more) e =
        contains-resolve_mentions x.set_list x.profiles c.id x.members mentions a law
          (ap (contains a) e ∙ rw (e, responders) at h)

-- Once the active agents are set, a message is enqueued for exactly those.
pub answering-dispatch :
    (x : Context) (t : Turn) (override : Option Text) (ids : List Text) (c : Chat)
    → let d = record c { convo = set_active_agents ids c.convo } in
      (p : Prompt) × ((dispatch x t false override d).queue ≡ d.queue ++ p ∷ [])
      × (answering p ≡ d.convo.active_agent_ids)
unfolding dispatch set_active_agents send_message send_roundtable
answering-dispatch x t override [] c = (_, refl, refl)
answering-dispatch x t override (a ∷ []) c = (_, refl, refl)
answering-dispatch x t override (a ∷ b ∷ more) c = (_, refl, refl)
