-- ===== src/Conversations/Tests.antt =====
-- A small database: a private conversation of user 1 with four messages, and another's.
use hermes_python.Prelude.{
  ℕ, ◌≡◌, refl, Bool, false, ◌||◌, not, ◌++◌, length, Option, none, some, String, List, [], ◌∷◌,
  map, keep, arith, ◌==◌, nat_has_eq, string_has_eq, if◌then◌else◌,
}
use hermes_python.Conversations.{
  Conversation, Message, Tables, get_messages, get_conversation, is_of, can_see, row, reversed,
  newest_first, insert, up_to,
}
use hermes_python.Conversations.Requests.{bulk_deletes, after, fork_conversation, copies}
use hermes_python.Conversations.Private.{private-Untouched, Untouched}
use hermes_python.Conversations.Pages.{scroll, scroll-get_messages}
use hermes_python.Conversations.Roles.{Said, said, IsOrder, ByRole}
use hermes_python.Conversations.Forked.{MayFork, forked, said-forked, get_messages-forked}
use hermes_python.Conversations.Cached.{Cache, Key, Asked, Listing, ids, ids_of}

abbrev convo : ℕ → ℕ → Conversation
convo id owner = record {
  id = id;
  owner_id = owner;
  title = "plan";
  kind = "personal";
  is_channel = false;
  channel_mode = "mention";
  primary_agent_id = "hermes";
  active_agent_ids = "hermes" ∷ [];
  profile_id = none;
  team_id = none;
  project_id = none;
  acp_session_id = none;
  session_mode = none;
  pinned = false;
  visibility = "private";
  updated_at = 1;
}

abbrev message : ℕ → ℕ → String → String → Message
message id time role content = record {
  id = id;
  conversation_id = 5;
  owner_id = none;
  role = role;
  agent_id = none;
  content = content;
  status = "complete";
  created_at = time;
}

-- The agent's role before any other.
abbrev role_le : String → String → Bool
role_le a b = a == "agent" || not (b == "agent")

abbrev filled : Tables
filled = record {
  convos = convo 5 1 ∷ convo 6 2 ∷ [];
  messages =
      message 11 1 "user" "hi"
      ∷ message 12 2 "agent" "hello"
      ∷ message 13 3 "user" "and?"
      ∷ message 14 4 "agent" "done"
      ∷ [];
}

private-Untouched_example :
    Untouched (convo 5 1) filled (after role_le 2 9 (bulk_deletes (5 ∷ [])) filled)
private-Untouched_example =
    private-Untouched (convo 5 1) role_le 2 9 (bulk_deletes (5 ∷ [])) filled refl refl tt

scroll-get_messages_example :
    scroll role_le filled 5 5 1 none ≡ get_messages role_le filled 5 none none
unfolding newest_first insert
scroll-get_messages_example =
    scroll-get_messages role_le filled 5 1
      (
        ((λ e. ground arith), ((λ e. ground arith), ((λ e. ground arith), tt))),
        (((λ e. ground arith), ((λ e. ground arith), tt)), (((λ e. ground arith), tt), (tt, tt))),
      )
      (refl, (refl, (refl, (refl, tt))))

abbrev question : Message
question = message 13 3 "user" "and?"

abbrev asked_before : List Message
asked_before = message 11 1 "user" "hi" ∷ message 12 2 "agent" "hello" ∷ []

abbrev last_answer : Message
last_answer = message 14 4 "agent" "done"

question-MayFork :
    MayFork role_le filled 1 5 7 20 30 asked_before (last_answer ∷ []) question (convo 5 1)
unfolding get_conversation
question-MayFork = record {
  seen = refl;
  unused = refl;
  stored = refl;
  rising = (
    (omega arith, (omega arith, (omega arith, tt))),
    ((omega arith, (omega arith, tt)), ((omega arith, tt), (tt, tt))),
  );
  first_of_id = ((λ e. ground arith), ((λ e. ground arith), tt));
}

said-forked_example :
    map said (
      keep
        (is_of 7)
        (forked role_le filled 1 5 7 20 30 asked_before (last_answer ∷ []) question).messages)
    ≡ map said (asked_before ++ question ∷ [])
said-forked_example =
    said-forked role_le filled 1 5 7 20 30 asked_before (last_answer ∷ []) question (convo 5 1)
      question-MayFork

role_le-IsOrder : IsOrder role_le
role_le-IsOrder = record { total = λ a b. ground arith; trans = λ a b c. ground arith }

get_messages-forked_example :
    let read =
      get_messages role_le
        (forked role_le filled 1 5 7 20 30 asked_before (last_answer ∷ []) question)
        7
        none
        none in
    ByRole role_le read
    × ((p : Said → Bool)
        → length (keep p (map said read))
          ≡ length (keep p (map said (asked_before ++ question ∷ []))))
get_messages-forked_example =
    get_messages-forked role_le filled 1 5 7 20 30 asked_before (last_answer ∷ []) question
      (convo 5 1) role_le-IsOrder question-MayFork

-- Read back, the questions come before both answers.
scrambled :
    map
      (λ (m : Message). m.content)
      (get_messages role_le
        (forked role_le filled 1 5 7 20 30 (asked_before ++ question ∷ []) [] last_answer)
        7
        none
        none)
    ≡ "and?" ∷ "hi" ∷ "done" ∷ "hello" ∷ []
unfolding get_messages get_conversation fork_conversation copies up_to newest_first insert reversed
scrambled = refl

-- A cache with one entry for each user.
abbrev per_user : Cache
per_user = record {
  State = ℕ → Option (List ℕ);
  get = λ s k. s k.owner_id;
  set = λ s k ids. some (λ u. if u == k.owner_id then some ids else s u);
  delete_all = λ s owner u. if u == owner then none else s u;
}

abbrev all_of_them : Asked
all_of_them = record { q = none; pinned_only = false; limit = 100; offset = 0 }

abbrev emptied : Tables
emptied = record { convos = []; messages = [] }
