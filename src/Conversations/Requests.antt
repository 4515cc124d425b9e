-- ===== src/Conversations/Requests.antt =====
-- The requests of backend/app/api/v1/conversations.py that change conversations, and their handlers.
-- That a conversation loses its team or project when that is deleted is left out.
use hermes_python.Prelude.{
  ℕ, ◌+◌, Bool, false, ◌&&◌, not, Option, none, some, String, List, [], ◌∷◌, ◌++◌, ◌<>◌, ◌==◌,
  nat_has_eq, string_has_eq, contains, keep, length, if◌then◌else◌,
}
use hermes_python.Http.{Reply, ok, check, or_unchanged, ◌>>=◌, ◌>>◌}
use hermes_python.Conversations.{
  Conversation, Message, Tables, row, require_convo, get_messages, up_to, is_of,
}

unfoldable pub put : ℕ → (Conversation → Conversation) → List Conversation → List Conversation
put cid f [] = []
put cid f (c ∷ cs) = (if c.id == cid then f c else c) ∷ put cid f cs

abbrev or_kept {ℓ} : {A : Type ℓ} → Option A → A → A
or_kept none old = old
or_kept (some new) old = new

-- `if title is empty` is the first case of `title or "新会话"`.
abbrev title_or_new : Option String → String
title_or_new none = "新会话"
title_or_new (some t) = if t == "" then "新会话" else t

-- A row with the columns' defaults.
abbrev blank : ℕ → ℕ → ℕ → Conversation
blank id owner now = record {
  id = id;
  owner_id = owner;
  title = "新会话";
  kind = "personal";
  is_channel = false;
  channel_mode = "mention";
  primary_agent_id = "hermes";
  active_agent_ids = "hermes" ∷ [];
  profile_id = none;
  team_id = none;
  project_id = none;
  acp_session_id = none;
  session_mode = none;
  pinned = false;
  visibility = "private";
  updated_at = now;
}

-- `svc.create_conversation`, with the id of the new row and the time of the transaction.
unfoldable pub create_conversation :
    ℕ → ℕ → Option String → String → Option String → Option ℕ → Option ℕ → ℕ → Tables → Tables
create_conversation owner cid title agent profile team project now d = record d {
  convos =
      d.convos
      ++ record (blank cid owner now) {
        title = title_or_new title;
        primary_agent_id = agent;
        profile_id = profile;
        team_id = team;
        project_id = project;
      }
        ∷ [];
}

-- `PATCH`, for the fields that are set.
unfoldable pub update_conversation :
    ℕ → ℕ → Option String → Option Bool → Option String → Tables → Reply Tables
unfolding put
update_conversation actor cid title pinned mode d = do
  convo ← require_convo d cid actor
  ok (record d {
    convos =
        put cid
          (λ c. record c {
            title = or_kept title c.title;
            pinned = or_kept pinned c.pinned;
            channel_mode = or_kept mode c.channel_mode;
          })
          d.convos;
  })

abbrev pub without : ℕ → Tables → Tables
without cid d = record {
  convos = keep (λ (c : Conversation). not (c.id == cid)) d.convos;
  messages = keep (λ m. not (is_of cid m)) d.messages;
}

-- The messages go with their conversation.
unfoldable pub delete_conversation : ℕ → ℕ → Tables → Reply Tables
delete_conversation actor cid d = do convo ← require_convo d cid actor; ok (without cid d)

abbrev pub is_chosen : ℕ → List ℕ → Conversation → Bool
is_chosen owner ids c = c.owner_id == owner && contains c.id ids

-- The message is of a conversation that is chosen.
abbrev pub is_in_chosen : ℕ → List ℕ → Tables → Message → Bool
is_in_chosen owner ids d m = elim (row m.conversation_id d) [
  | none ↦ false
  | some c ↦ is_chosen owner ids c
]

-- `bulk_delete` of the service, with the number it gives.
unfoldable pub bulk_delete : ℕ → List ℕ → Tables → Tables × ℕ
bulk_delete owner ids d = (
  record {
    convos = keep (λ c. not (is_chosen owner ids c)) d.convos;
    messages = keep (λ m. not (is_in_chosen owner ids d m)) d.messages;
  },
  length (keep (is_chosen owner ids) d.convos),
)

-- The copies, with ids from `first` on and the time of the one transaction.
unfoldable pub copies : ℕ → ℕ → ℕ → List Message → List Message
copies cid first now [] = []
copies cid first now (m ∷ ms) =
    record m { id = first; conversation_id = cid; created_at = now } ∷ copies cid (first + 1) now ms

unfoldable pub fork_conversation :
    (String → String → Bool) → ℕ → ℕ → ℕ → ℕ → ℕ → ℕ → Tables → Reply Tables
unfolding up_to copies
fork_conversation role_le actor source_id before_id cid first now d = do
  source ← require_convo d source_id actor
  ok (record {
    convos =
        d.convos
        ++ record (blank cid actor now) {
          title = "[分支] " <> source.title;
          primary_agent_id = source.primary_agent_id;
          profile_id = source.profile_id;
          team_id = source.team_id;
          project_id = source.project_id;
        }
          ∷ [];
    messages =
        d.messages
        ++ copies cid first now (up_to before_id (get_messages role_le d source_id none none));
  })

unfoldable pub share_conversation : ℕ → ℕ → Tables → Reply Tables
unfolding put
share_conversation actor cid d = do
  convo ← require_convo d cid actor
  ok (record d { convos = put cid (λ c. record c { visibility = "shared" }) d.convos })

unfoldable pub set_session_mode : ℕ → ℕ → String → Tables → Reply Tables
unfolding put
set_session_mode actor cid mode d = do
  convo ← require_convo d cid actor
  ok (record d { convos = put cid (λ c. record c { session_mode = some mode }) d.convos })

-- `svc.set_active_agents`: no agents are the default one.
abbrev agents_or_default : List String → List String
agents_or_default [] = "hermes" ∷ []
agents_or_default (a ∷ more) = a ∷ more

abbrev first_agent : List String → String
first_agent [] = "hermes"
first_agent (a ∷ more) = a

unfoldable pub set_agents : ℕ → ℕ → List String → Tables → Reply Tables
unfolding put
set_agents actor cid ids d = do
  convo ← require_convo d cid actor
  ok (record d {
    convos =
        put cid
          (λ c. record c {
            active_agent_ids = agents_or_default ids;
            primary_agent_id = first_agent ids;
          })
          d.convos;
  })

-- `if not convo.acp_session_id`, for the string that is empty too.
abbrev pub has_session : Option String → Bool
has_session none = false
has_session (some s) = not (s == "")

-- The session that the runner answers with; none is its error, or no answer in time.
unfoldable pub fork_session : ℕ → ℕ → ℕ → Option String → ℕ → Tables → Reply Tables
fork_session actor source_id cid answer now d = do
  source ← require_convo d source_id actor
  check (has_session source.acp_session_id) 400
  ok (record d {
    convos =
        d.convos
        ++ record (blank cid actor now) {
          title = "Fork: " <> source.title;
          team_id = source.team_id;
          project_id = source.project_id;
          primary_agent_id = source.primary_agent_id;
          active_agent_ids = source.active_agent_ids;
          profile_id = source.profile_id;
          session_mode = source.session_mode;
          acp_session_id = answer;
        }
          ∷ [];
  })

-- The rows that are stored for a conversation.
abbrev pub stored_for : ℕ → List Message → List Message
stored_for cid [] = []
stored_for cid (m ∷ ms) = record m { conversation_id = cid } ∷ stored_for cid ms

-- Whether the limit of sends allows it, the title that the conversation gets, if it is to have another,
-- and the rows of `dispatch`, which Routing is about, are given.
unfoldable pub send_message : ℕ → ℕ → Bool → Option String → List Message → Tables → Reply Tables
unfolding put
send_message actor cid allowed title rows d = do
  convo ← require_convo d cid actor
  check allowed 429
  ok (record {
    convos = put cid (λ c. record c { title = or_kept title c.title }) d.convos;
    messages = d.messages ++ stored_for cid rows;
  })

-- A request; who makes it, the order of roles in the database and the time are given apart.
pub data Request : Type 0 where
  creates : ℕ → Option String → String → Option String → Option ℕ → Option ℕ → Request
  updates : ℕ → Option String → Option Bool → Option String → Request
  deletes : ℕ → Request
  bulk_deletes : List ℕ → Request
  forks : ℕ → ℕ → ℕ → ℕ → Request
  shares : ℕ → Request
  sets_mode : ℕ → String → Request
  sets_agents : ℕ → List String → Request
  forks_session : ℕ → ℕ → Option String → Request
  sends : ℕ → Bool → Option String → List Message → Request

unfoldable pub handle : (String → String → Bool) → ℕ → ℕ → Request → Tables → Reply Tables
handle role_le u now (creates cid title agent profile team project) d =
    ok (create_conversation u cid title agent profile team project now d)
handle role_le u now (updates cid title pinned mode) d =
    update_conversation u cid title pinned mode d
handle role_le u now (deletes cid) d = delete_conversation u cid d
handle role_le u now (bulk_deletes ids) d = ok (bulk_delete u ids d).0
handle role_le u now (forks source before cid first) d =
    fork_conversation role_le u source before cid first now d
handle role_le u now (shares cid) d = share_conversation u cid d
handle role_le u now (sets_mode cid mode) d = set_session_mode u cid mode d
handle role_le u now (sets_agents cid ids) d = set_agents u cid ids d
handle role_le u now (forks_session source cid answer) d = fork_session u source cid answer now d
handle role_le u now (sends cid allowed title rows) d = send_message u cid allowed title rows d

abbrev pub after : (String → String → Bool) → ℕ → ℕ → Request → Tables → Tables
after role_le u now r d = or_unchanged d (handle role_le u now r d)
