-- ===== src/Conversations.antt =====
-- Conversations and their messages: the queries of backend/app/services/conversation_service.py and
-- the handlers of backend/app/api/v1/conversations.py.
pub mod Requests
pub mod Private
pub mod Order
pub mod Pages
pub mod Roles
pub mod Forked
pub mod Cached
mod Tests
use hermes_python.Prelude.{
  ℕ, zero, suc, ◌+◌, ◌-◌, Bool, true, false, ◌&&◌, ◌||◌, not, Option, none, some, String, List, [],
  ◌∷◌, ◌++◌, ◌<>◌, HasEq, ◌==◌, nat_has_eq, string_has_eq, contains, keep, find?, take, length, ltb,
  if◌then◌else◌,
}
use hermes_python.Http.{Reply, found}

pub record Conversation : Type 0 where
  pub id : ℕ
  pub owner_id : ℕ
  pub title : String
  pub kind : String
  pub is_channel : Bool
  pub channel_mode : String
  pub primary_agent_id : String
  pub active_agent_ids : List String
  pub profile_id : Option String
  pub team_id : Option ℕ
  pub project_id : Option ℕ
  pub acp_session_id : Option String
  pub session_mode : Option String
  pub pinned : Bool
  pub visibility : String
  pub updated_at : ℕ

pub record Message : Type 0 where
  pub id : ℕ
  pub conversation_id : ℕ
  pub owner_id : Option ℕ
  pub role : String
  pub agent_id : Option String
  pub content : String
  pub status : String
  pub created_at : ℕ

pub record Tables : Type 0 where
  pub convos : List Conversation
  pub messages : List Message

-- The condition of the query in `get_conversation`.
abbrev pub can_see : ℕ → Conversation → Bool
can_see u c = c.owner_id == u || c.is_channel || c.kind == "group"

abbrev pub row : ℕ → Tables → Option Conversation
row cid d = find? (λ (c : Conversation). c.id == cid) d.convos

unfoldable pub get_conversation : Tables → ℕ → ℕ → Option Conversation
get_conversation d cid u = elim (row cid d) [
  | none ↦ none
  | some c ↦ if can_see u c then some c else none
]

abbrev pub require_convo : Tables → ℕ → ℕ → Reply Conversation
require_convo d cid u = found (get_conversation d cid u) 404

-- `_` of the query's `order_by(created_at.desc(), role.asc())`; the order of the roles is a
-- parameter, that of the database's text.
abbrev pub is_before : (String → String → Bool) → Message → Message → Bool
is_before role_le a b =
    ltb b.created_at a.created_at || (b.created_at == a.created_at && role_le a.role b.role)

unfoldable pub insert : (String → String → Bool) → Message → List Message → List Message
insert role_le m [] = m ∷ []
insert role_le m (x ∷ xs) = if is_before role_le m x then m ∷ x ∷ xs else x ∷ insert role_le m xs

unfoldable pub newest_first : (String → String → Bool) → List Message → List Message
unfolding insert
newest_first role_le [] = []
newest_first role_le (m ∷ ms) = insert role_le m (newest_first role_le ms)

unfoldable pub reversed {ℓ} : {A : Type ℓ} → List A → List A
reversed [] = []
reversed (x ∷ xs) = reversed xs ++ x ∷ []

abbrev pub is_of : ℕ → Message → Bool
is_of cid m = m.conversation_id == cid

abbrev pub is_older : ℕ → Message → Bool
is_older time m = ltb m.created_at time

-- `stmt.where(Message.created_at < cursor_ts)`: no row is before the time of a message that there is not.
abbrev pub older_than : Option ℕ → List Message → List Message → List Message
older_than none all ms = ms
older_than (some b) all ms = elim (find? (λ (m : Message). m.id == b) all) [
  | none ↦ []
  | some c ↦ keep (is_older c.created_at) ms
]

-- `if limit:`
abbrev pub limited {ℓ} : {A : Type ℓ} → Option ℕ → List A → List A
limited none ms = ms
limited (some zero) ms = ms
limited (some (suc n)) ms = take (suc n) ms

unfoldable pub get_messages :
    (String → String → Bool) → Tables → ℕ → Option ℕ → Option ℕ → List Message
unfolding newest_first reversed
get_messages role_le d cid limit before = reversed (
    limited limit
      (newest_first role_le (older_than before d.messages (keep (is_of cid) d.messages))))

-- `next((i for i, m in enumerate(all_msgs) if m.id == b), len(all_msgs) - 1)`, one more: how many
-- messages `all_msgs[: cut + 1]` has.
unfoldable pub up_to : ℕ → List Message → List Message
up_to b [] = []
up_to b (m ∷ ms) = if m.id == b then m ∷ [] else m ∷ up_to b ms
