-- ===== src/Conversations/Private.antt =====
-- What one user's requests leave of another's conversation.
use hermes_python.Prelude.{
  ℕ, ◌+◌, ◌≡◌, ◌≢◌, refl, ap, ◌∙◌, Bool, true, false, not, none, some, String, List, [], ◌∷◌, ◌++◌,
  arith, ◌==◌, nat_has_eq, string_has_eq, find?, keep, Option-cases, Bool-cases, inl, inr,
}
use hermes_python.Http.{Reply, or_unchanged, ◌>>=◌}
use hermes_python.Conversations.{
  Conversation, Message, Tables, can_see, row, get_conversation, require_convo, is_of,
}
use hermes_python.Conversations.Requests.{
  Request, creates, updates, deletes, bulk_deletes, forks, shares, sets_mode, sets_agents,
  forks_session, sends, send_message, stored_for, handle, after, put, is_chosen,
  create_conversation, update_conversation, delete_conversation, bulk_delete, fork_conversation,
  share_conversation, set_session_mode, set_agents, fork_session, has_session, is_in_chosen, copies,
}

module _ (c : Conversation) where
  -- The row of that id.
  abbrev Holds : Tables → Type 0
  Holds d = row c.id d ≡ some c

  find?-append :
      (cs more : List Conversation)
      → find? (λ (x : Conversation). x.id == c.id) cs ≡ some c
      → find? (λ (x : Conversation). x.id == c.id) (cs ++ more) ≡ some c
  find?-append [] more h = ground arith
  find?-append (x ∷ cs) more h = ground (arith, find?-append cs more)

  find?-put :
      (cid : ℕ) (f : Conversation → Conversation) (cs : List Conversation)
      → cid ≢ c.id
      → ((x : Conversation) → (f x).id ≡ x.id)
      → find? (λ (x : Conversation). x.id == c.id) cs ≡ some c
      → find? (λ (x : Conversation). x.id == c.id) (put cid f cs) ≡ some c
  unfolding put
  find?-put cid f [] k i h = ground arith
  find?-put cid f (x ∷ cs) k i h = ground (
    arith,
    find?-put cid f cs,
    i x,
    nat_has_eq.same_iff x.id cid,
    nat_has_eq.same_iff x.id c.id,
    nat_has_eq.same_iff (f x).id c.id,
  )

  find?-keep :
      (p : Conversation → Bool) (cs : List Conversation)
      → p c ≡ true
      → find? (λ (x : Conversation). x.id == c.id) cs ≡ some c
      → find? (λ (x : Conversation). x.id == c.id) (keep p cs) ≡ some c
  find?-keep p [] k h = ground arith
  find?-keep p (x ∷ cs) k h = ground (arith, find?-keep p cs)

  -- No other user sees a conversation that is neither a channel nor a group.
  unseen : (d : Tables) (u : ℕ) → Holds d → can_see u c ≡ false → get_conversation d c.id u ≡ none
  unfolding get_conversation
  unseen d u h k = rw (h, k, get_conversation) refl

  other_than :
      (d : Tables) (u cid : ℕ)
      → Holds d
      → can_see u c ≡ false
      → (x : Conversation) → get_conversation d cid u ≡ some x
      → cid ≢ c.id
  other_than d u cid h k x e same =
      let none_there = unseen d u h k in ground (arith, ap (λ i. get_conversation d i u) same)

  abbrev mine : Tables → List Message
  mine d = keep (is_of c.id) d.messages

  -- The row and the messages are as they were.
  abbrev pub Untouched : Tables → Tables → Type 0
  Untouched d new = (row c.id new ≡ some c) × (mine new ≡ mine d)

  guarded :
      (d : Tables) (u cid : ℕ) (f : Conversation → Reply Tables)
      → Holds d
      → can_see u c ≡ false
      → ((x : Conversation) → cid ≢ c.id → Untouched d (or_unchanged d (f x)))
      → Untouched d (or_unchanged d (require_convo d cid u >>= f))
  guarded d u cid f h k go = elim (Option-cases (get_conversation d cid u)) [
    | inl e ↦ rw (e, require_convo) (h, refl)
    | inr (x, e) ↦ rw (e, require_convo) (go x (other_than d u cid h k x e))
  ]

  mine-copies :
      (cid first now : ℕ) (ms : List Message)
      → cid ≢ c.id
      → keep (is_of c.id) (copies cid first now ms) ≡ []
  unfolding copies
  mine-copies cid first now [] k = refl
  mine-copies cid first now (m ∷ ms) k =
      ground (arith, mine-copies cid (first + 1) now ms, nat_has_eq.same_iff cid c.id)

  mine-stored_for :
      (cid : ℕ) (ms : List Message) → cid ≢ c.id → keep (is_of c.id) (stored_for cid ms) ≡ []
  mine-stored_for cid [] k = refl
  mine-stored_for cid (m ∷ ms) k =
      ground (arith, mine-stored_for cid ms, nat_has_eq.same_iff cid c.id)

  mine-append :
      (ms more : List Message)
      → keep (is_of c.id) more ≡ []
      → keep (is_of c.id) (ms ++ more) ≡ keep (is_of c.id) ms
  mine-append [] more h = h
  mine-append (m ∷ ms) more h = ground (arith, mine-append ms more)

  mine-keep :
      (p : Message → Bool) (ms : List Message)
      → ((m : Message) → is_of c.id m ≡ true → p m ≡ true)
      → keep (is_of c.id) (keep p ms) ≡ keep (is_of c.id) ms
  mine-keep p [] h = refl
  mine-keep p (m ∷ ms) h = ground (arith, mine-keep p ms, h m)

  -- A new conversation has an id of its own.
  abbrev pub Fresh : Request → Type 0
  Fresh (forks source before cid first) = cid ≢ c.id
  Fresh r = Unit

  other_owner : (u : ℕ) (ids : List ℕ) → can_see u c ≡ false → is_chosen u ids c ≡ false
  other_owner u ids k = ground arith

  mine-chosen :
      (d : Tables) (u : ℕ) (ids : List ℕ)
      → Holds d
      → can_see u c ≡ false
      → (m : Message) → is_of c.id m ≡ true
      → not (is_in_chosen u ids d m) ≡ true
  mine-chosen d u ids h k m i =
      let same = (nat_has_eq.same_iff m.conversation_id c.id).0 i in
      ap (λ cid. not (is_in_chosen u ids d (record m { conversation_id = cid }))) same
      ∙ rw (h, is_in_chosen, other_owner u ids k) refl

  -- A conversation that is neither a channel nor a group stays as it is, with its messages, when
  -- another user than its owner makes one of these requests, whatever it names: to create, update,
  -- delete (one or several), fork, share or send to a conversation, to set its mode or its agents, or to
  -- fork its session; if the id of a fork is not its own. Deleting the team or the project of a
  -- conversation is none of these.
  pub private-Untouched :
      (role_le : String → String → Bool) (u now : ℕ) (r : Request) (d : Tables)
      → row c.id d ≡ some c
      → can_see u c ≡ false
      → Fresh r
      → Untouched d (after role_le u now r d)
  unfolding handle create_conversation update_conversation delete_conversation bulk_delete
      fork_conversation share_conversation set_session_mode set_agents fork_session send_message
  private-Untouched role_le u now (creates cid title agent profile team project) d h k p =
      (find?-append d.convos _ h, refl)
  private-Untouched role_le u now (updates cid title pinned mode) d h k p =
      guarded d u cid _ h k (λ x o. (find?-put cid _ d.convos o (λ _. refl) h, refl))
  private-Untouched role_le u now (deletes cid) d h k p = guarded d u cid _ h k (λ x o. (
    find?-keep _ d.convos (kept_row cid o) h,
    mine-keep _ d.messages (λ m i. kept_message cid m o i),
  ))
    where
      kept_row : (cid : ℕ) → cid ≢ c.id → not (c.id == cid) ≡ true
      kept_row cid o = ground (arith, nat_has_eq.same_iff c.id cid)

      kept_message :
          (cid : ℕ) (m : Message) → cid ≢ c.id → is_of c.id m ≡ true → not (is_of cid m) ≡ true
      kept_message cid m o i = ground (
        arith,
        nat_has_eq.same_iff m.conversation_id cid,
        nat_has_eq.same_iff m.conversation_id c.id,
      )
  private-Untouched role_le u now (bulk_deletes ids) d h k p = (
    find?-keep _ d.convos (rw (other_owner u ids k) refl) h,
    mine-keep _ d.messages (mine-chosen d u ids h k),
  )
  private-Untouched role_le u now (forks source before cid first) d h k p =
      guarded d u source _ h k (λ x o.
        (find?-append d.convos _ h, mine-append d.messages _ (mine-copies cid first now _ p)))
  private-Untouched role_le u now (shares cid) d h k p =
      guarded d u cid _ h k (λ x o. (find?-put cid _ d.convos o (λ _. refl) h, refl))
  private-Untouched role_le u now (sets_mode cid mode) d h k p =
      guarded d u cid _ h k (λ x o. (find?-put cid _ d.convos o (λ _. refl) h, refl))
  private-Untouched role_le u now (sets_agents cid ids) d h k p =
      guarded d u cid _ h k (λ x o. (find?-put cid _ d.convos o (λ _. refl) h, refl))
  private-Untouched role_le u now (forks_session source cid answer) d h k p =
      guarded d u source _ h k (λ x o. elim (Bool-cases (has_session x.acp_session_id)) [
        | inl y ↦ rw y (find?-append d.convos _ h, refl)
        | inr n ↦ rw n (h, refl)
      ])
  private-Untouched role_le u now (sends cid allowed title rows) d h k p =
      guarded d u cid _ h k (λ x o. elim (Bool-cases allowed) [
        | inl y ↦ rw y (
          find?-put cid _ d.convos o (λ _. refl) h,
          mine-append d.messages _ (mine-stored_for cid rows o),
        )
        | inr n ↦ rw n (h, refl)
      ])
