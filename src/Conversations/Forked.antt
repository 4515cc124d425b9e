-- ===== src/Conversations/Forked.antt =====
-- The messages of a conversation that is forked.
use hermes_python.Prelude.{
  ℕ, ◌+◌, ◌<◌, ◌≢◌, length, subst, ◌≡◌, refl, sym, ap, ◌∙◌, Bool, none, some, String, List, [], ◌∷◌,
  ◌++◌, map, arith, nat_has_eq, keep, All, ltb→lt,
}
use hermes_python.Http.{or_unchanged}
use hermes_python.Conversations.{
  Conversation, Message, Tables, get_conversation, insert, newest_first, reversed, is_of,
  get_messages, up_to,
}
use hermes_python.Conversations.Order.{All-newest_first}
use hermes_python.Conversations.Requests.{fork_conversation, copies}
use hermes_python.Conversations.Roles.{
  Said, said, by_role, newest_first-same_time, IsOrder, Falls-by_role, ByRole, ByRole-reversed,
  length-by_role, length-reversed,
}

said-copies :
    (cid first now : ℕ) (ms : List Message) → map said (copies cid first now ms) ≡ map said ms
unfolding copies
said-copies cid first now [] = refl
said-copies cid first now (m ∷ ms) = ap (λ l. said m ∷ l) (said-copies cid (first + 1) now ms)

of-copies :
    (cid first now : ℕ) (ms : List Message)
    → keep (is_of cid) (copies cid first now ms) ≡ copies cid first now ms
unfolding copies
of-copies cid first now [] = refl
of-copies cid first now (m ∷ ms) =
    ground (arith, of-copies cid (first + 1) now ms, nat_has_eq.same_iff cid cid)

of-append :
    (cid : ℕ) (ms more : List Message)
    → keep (is_of cid) ms ≡ []
    → keep (is_of cid) more ≡ more
    → keep (is_of cid) (ms ++ more) ≡ more
of-append cid [] more h k = k
of-append cid (m ∷ ms) more h k = ground (arith, of-append cid ms more)

module _ (role_le : String → String → Bool) where
  time-copies :
      (cid first now : ℕ) (ms : List Message)
      → All (λ (x : Message). x.created_at ≡ now) (copies cid first now ms)
  unfolding copies
  time-copies cid first now [] = tt
  time-copies cid first now (m ∷ ms) = (refl, time-copies cid (first + 1) now ms)

  -- Messages of which each is later than those before it.
  abbrev pub Rising : List Message → Type 0
  Rising [] = Unit
  Rising (m ∷ ms) = All (λ (x : Message). m.created_at < x.created_at) ms × Rising ms

  insert-oldest :
      (m : Message) (ms : List Message)
      → All (λ (x : Message). m.created_at < x.created_at) ms
      → insert role_le m ms ≡ ms ++ m ∷ []
  unfolding insert
  insert-oldest m [] a = refl
  insert-oldest m (x ∷ ms) a = ground (
    arith,
    insert-oldest m ms a.1,
    a.0,
    ltb→lt x.created_at m.created_at,
    nat_has_eq.same_iff x.created_at m.created_at,
  )

  reversed_last : (ms : List Message) (m : Message) → reversed (ms ++ m ∷ []) ≡ m ∷ reversed ms
  unfolding reversed
  reversed_last [] m = refl
  reversed_last (x ∷ ms) m = ap (λ l. l ++ x ∷ []) (reversed_last ms m)

  read-Rising : (ms : List Message) → Rising ms → reversed (newest_first role_le ms) ≡ ms
  unfolding newest_first reversed
  read-Rising [] r = refl
  read-Rising (m ∷ ms) r =
      ap reversed (insert-oldest m (newest_first role_le ms) (All-newest_first role_le _ ms r.0))
      ∙ reversed_last (newest_first role_le ms) m
      ∙ ap (λ l. m ∷ l) (read-Rising ms r.1)

  up_to-chosen :
      (front rest : List Message) (m : Message)
      → All (λ (x : Message). x.id ≢ m.id) front
      → up_to m.id (front ++ m ∷ rest) ≡ front ++ m ∷ []
  unfolding up_to
  up_to-chosen [] rest m a = ground (arith, nat_has_eq.same_iff m.id m.id)
  up_to-chosen (x ∷ front) rest m a =
      ground (arith, up_to-chosen front rest m a.1, a.0, nat_has_eq.same_iff x.id m.id)

  module _ (d : Tables) (u source cid first now : ℕ) (front rest : List Message) (m : Message) where
    abbrev pub forked : Tables
    forked = or_unchanged d (fork_conversation role_le u source m.id cid first now d)

    -- The user sees the source, no message is of the new id, and the messages of the source came one
    -- after the other, `m` after `front` and before `rest`, and no other of its id before it.
    pub record MayFork (c : Conversation) : Type 0 where
      pub seen : get_conversation d source u ≡ some c
      pub unused : keep (is_of cid) d.messages ≡ []
      pub stored : keep (is_of source) d.messages ≡ front ++ m ∷ rest
      pub rising : Rising (front ++ m ∷ rest)
      pub first_of_id : All (λ (x : Message). x.id ≢ m.id) front

    cut-messages :
        (c : Conversation)
        → MayFork c
        → up_to m.id (get_messages role_le d source none none) ≡ front ++ m ∷ []
    unfolding get_messages
    cut-messages c h =
        ap (λ l. up_to m.id (reversed (newest_first role_le l))) h.stored
        ∙ ap (up_to m.id) (read-Rising (front ++ m ∷ rest) h.rising)
        ∙ up_to-chosen front rest m h.first_of_id

    of-forked :
        (c : Conversation)
        → MayFork c
        → keep (is_of cid) forked.messages ≡ copies cid first now (front ++ m ∷ [])
    unfolding fork_conversation
    of-forked c h =
        rw (h.seen, fork_conversation)
          (of-append cid d.messages _ h.unused (of-copies cid first now _))
        ∙ ap (copies cid first now) (cut-messages c h)

    -- A user forks a conversation that they see at its message `m`, under an id that no message had; the
    -- messages of the source came one after the other, `front` before `m` and `rest` after it, and none
    -- in `front` has the id of `m`. Then the rows of the fork are, in their order, `front` and `m`: by
    -- whom, in which role, by which agent, what and in which status.
    pub said-forked :
        (c : Conversation)
        → MayFork c
        → map said (keep (is_of cid) forked.messages) ≡ map said (front ++ m ∷ [])
    said-forked c h = ap (map said) (of-forked c h) ∙ said-copies cid first now (front ++ m ∷ [])

    read-forked :
        (c : Conversation)
        → MayFork c
        → get_messages role_le forked cid none none
          ≡ reversed (by_role role_le (copies cid first now (front ++ m ∷ [])))
    unfolding get_messages
    read-forked c h =
        ap (λ l. reversed (newest_first role_le l)) (of-forked c h)
        ∙ ap reversed
            (newest_first-same_time role_le now _ (time-copies cid first now (front ++ m ∷ []))).0

    -- After such a fork its messages are read in the order of their roles, whatever their order in time
    -- was: each is followed only by messages of a role that is not before its own, as long as the
    -- database's order of roles is total and transitive. And they are the chosen ones: of any kind, by
    -- what they say, there are as many as in `front` and `m`.
    pub get_messages-forked :
        (c : Conversation)
        → IsOrder role_le
        → MayFork c
        → let read = get_messages role_le forked cid none none in
          ByRole role_le read
          × ((p : Said → Bool)
              → length (keep p (map said read)) ≡ length (keep p (map said (front ++ m ∷ []))))
    get_messages-forked c order h = (
      subst (ByRole role_le) (sym (read-forked c h)) (
          ByRole-reversed role_le order (by_role role_le (copies cid first now (front ++ m ∷ [])))
            (Falls-by_role role_le order (copies cid first now (front ++ m ∷ [])))),
      λ p.
          ap (λ l. length (keep p (map said l))) (read-forked c h)
          ∙ length-reversed role_le p (by_role role_le (copies cid first now (front ++ m ∷ [])))
          ∙ length-by_role role_le p (copies cid first now (front ++ m ∷ []))
          ∙ ap (λ l. length (keep p l)) (said-copies cid first now (front ++ m ∷ [])),
    )
