-- ===== src/Routing/Tests.antt =====
-- A group of two agents, and a message that names the second.
use hermes_python.Prelude.{
  ◌≡◌, refl, true, false, none, some, List, [], ◌∷◌, ◌++◌, length, map, contains,
}
use hermes_python.Texts.{Text, codes}
use hermes_python.Texts.Same.{text_has_eq}
use hermes_python.Groups.{Conversation, Member, human, bot, group_agents}
use hermes_python.Groups.Mentions.{
  IsListing, resolve_mentions, resolve_each, resolve_one, contains-resolve_mentions,
}
use hermes_python.Routing.{Attached, Chat, Turn}
use hermes_python.Routing.Sending.{user_message}
use hermes_python.Routing.Dispatch.{Context, dispatch_group, is_silent, responders}
use hermes_python.Routing.Saved.{users_of, users-dispatch_group}
use hermes_python.Routing.Enqueued.{answering, queue-dispatch_group, answering-dispatch_group}

abbrev members : List Member
members = human 1 10 (codes "admin") ∷ bot 1 (codes "hermes") ∷ bot 1 (codes "coder") ∷ []

abbrev group : Conversation
group = record {
  id = 1;
  owner_id = 10;
  title = codes "team";
  primary_agent_id = codes "hermes";
  active_agent_ids = codes "hermes" ∷ codes "coder" ∷ [];
  channel_mode = codes "mention";
  visibility = codes "private";
  team_id = none;
  profile_id = none;
  acp_session_id = none;
}

abbrev chat : Chat
chat = record { convo = group; messages = []; queue = []; cancelled = true }

abbrev context : Context
context = record {
  settings = record { clarify_disabled = false; workspace_root = codes "/ws" };
  profiles = [];
  members = members;
  memory = λ u. none;
  dirname = λ t. t;
  set_list = λ ts. ts;
}

abbrev turn : Turn
turn = record {
  text = codes "hi";
  attached = [];
  owner_id = some 10;
  user_message_id = 1;
  agent_message_id = 2;
}

abbrev coder : List Text
coder = codes "coder" ∷ []

listing : IsListing (λ ts. ts)
listing = record { same_elements = λ a ts. refl }

contains-resolve_mentions_example : contains (codes "coder") (group_agents 1 members) ≡ true
unfolding resolve_mentions resolve_each resolve_one group_agents
contains-resolve_mentions_example =
    contains-resolve_mentions (λ ts. ts) [] 1 members coder (codes "coder") listing refl

users-dispatch_group_example :
    (files : List Attached) × (users_of (dispatch_group context turn coder false none chat).messages
      ≡ users_of [] ++ user_message turn 1 files coder ∷ [])
users-dispatch_group_example = users-dispatch_group context turn coder false none chat

queue-dispatch_group_example : length (dispatch_group context turn coder false none chat).queue ≡ 1
unfolding is_silent responders resolve_mentions resolve_each resolve_one group_agents
queue-dispatch_group_example = queue-dispatch_group context turn coder false none chat

answering-dispatch_group_example :
    map answering (dispatch_group context turn coder false none chat).queue
    ≡ (codes "hermes" ∷ []) ∷ []
unfolding is_silent responders resolve_mentions resolve_each resolve_one group_agents
answering-dispatch_group_example =
    answering-dispatch_group context turn coder false none chat (codes "coder") refl refl
