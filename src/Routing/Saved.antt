-- ===== src/Routing/Saved.antt =====
-- The rows that a message leaves.
use hermes_python.Prelude.{
  ◌≡◌, refl, ap, ◌∙◌, Bool, true, false, Option, List, [], ◌∷◌, ◌++◌, arith, ◌==◌, keep,
}
use hermes_python.Texts.{Text, codes}
use hermes_python.Texts.Same.{text_has_eq}
use hermes_python.Routing.{Attached, Message, Chat, Settings, Turn}
use hermes_python.Routing.Sending.{
  user_message, agent_message, send_user_only, send_message, send_roundtable,
}
use hermes_python.Routing.Dispatch.{Context, dispatch_group, is_silent, responders}

abbrev pub users_of : List Message → List Message
users_of ms = keep (λ (m : Message). m.role == codes "user") ms

users_of-append : (xs ys : List Message) → users_of (xs ++ ys) ≡ users_of xs ++ users_of ys
users_of-append [] ys = refl
users_of-append (x ∷ xs) ys = ground (arith, users_of-append xs ys)

append_nil : (ms : List Message) → ms ++ [] ≡ ms
append_nil [] = refl
append_nil (m ∷ ms) = ap (λ ns. m ∷ ns) (append_nil ms)

users-user_only :
    (t : Turn) (mentions : List Text) (c : Chat)
    → users_of (send_user_only t mentions c).messages
      ≡ users_of c.messages ++ user_message t c.convo.id [] mentions ∷ []
unfolding send_user_only
users-user_only t mentions c =
    users_of-append c.messages (user_message t c.convo.id [] mentions ∷ [])

users-send_existing :
    (s : Settings) (t : Turn) (prompt dir : Option Text) (c : Chat)
    → users_of (send_message s t prompt dir true c).messages ≡ users_of c.messages
unfolding send_message
users-send_existing s t prompt dir c =
    users_of-append c.messages (agent_message t c.convo ∷ []) ∙ append_nil (users_of c.messages)

users-roundtable :
    (t : Turn) (agents mentions : List Text) (prompt dir : Option Text) (c : Chat)
    → users_of (send_roundtable t agents mentions prompt dir c).messages
      ≡ users_of c.messages ++ user_message t c.convo.id t.attached mentions ∷ []
unfolding send_roundtable
users-roundtable t agents mentions prompt dir c = users_of-append c.messages _

-- Whatever the mode and the mentions, a message to a group leaves exactly one user row, its own.
pub users-dispatch_group :
    (x : Context) (t : Turn) (mentions : List Text) (skip : Bool) (override : Option Text)
    (c : Chat)
    → (files : List Attached) × (users_of (dispatch_group x t mentions skip override c).messages
        ≡ users_of c.messages ++ user_message t c.convo.id files mentions ∷ [])
unfolding dispatch_group
users-dispatch_group x t mentions skip override c =
    by_silence (is_silent c.convo mentions skip) refl (responders x c.convo mentions) refl
  where
    by_silence :
        (b : Bool)
        → is_silent c.convo mentions skip ≡ b
        → (rs : List Text) → responders x c.convo mentions ≡ rs
        → (files : List Attached) × (users_of (dispatch_group x t mentions skip override c).messages
            ≡ users_of c.messages ++ user_message t c.convo.id files mentions ∷ [])
    by_silence true e rs f = ([], rw (e, dispatch_group) (users-user_only t mentions c))
    by_silence false e [] f = ([], rw (e, f, dispatch_group) (users-user_only t mentions c))
    by_silence false e (a ∷ []) f = (
      [],
      rw (e, f, dispatch_group)
          (users-send_existing x.settings t _ _ (send_user_only t mentions c)
            ∙ users-user_only t mentions c),
    )
    by_silence false e (a ∷ b ∷ more) f =
        (t.attached, rw (e, f, dispatch_group) (users-roundtable t (a ∷ b ∷ more) mentions _ _ c))
