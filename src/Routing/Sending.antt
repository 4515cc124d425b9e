-- ===== src/Routing/Sending.antt =====
-- `send_user_only`, `send_message` and `send_roundtable`.
use hermes_python.Prelude.{
  ℕ, Bool, true, false, Option, none, some, List, [], ◌∷◌, ◌++◌, map, if◌then◌else◌,
}
use hermes_python.Texts.{Text, codes}
use hermes_python.Groups.{Conversation, first_or}
use hermes_python.Routing.{
  Attached, Message, Block, text_block, single, roundtable, Chat, Settings, Turn, blank_line,
  digits, file_write_preamble, no_clarify_roundtable, clarify_directives, quoted, part_of,
  with_parts, links, images, several, retitle,
}

abbrev pub user_message : Turn → ℕ → List Attached → List Text → Message
user_message t cid files mentions = record {
  id = t.user_message_id;
  conversation_id = cid;
  owner_id = t.owner_id;
  role = codes "user";
  agent_id = none;
  text = t.text;
  files = files;
  replies = [];
  mentions = mentions;
  status = codes "complete";
}

-- A user's message alone: `send_user_only`, and the same steps of `dispatch_group`.
unfoldable pub send_user_only : Turn → List Text → Chat → Chat
send_user_only t mentions c = record c {
  convo = retitle t.text c.convo;
  messages = c.messages ++ user_message t c.convo.id [] mentions ∷ [];
}

abbrev pub agent_message : Turn → Conversation → Message
agent_message t c = record {
  id = t.agent_message_id;
  conversation_id = c.id;
  owner_id = none;
  role = codes "agent";
  agent_id = some c.primary_agent_id;
  text = [];
  files = [];
  replies = [];
  mentions = [];
  status = codes "streaming";
}

-- `convo.acp_session_id is None`
abbrev pub is_first_turn : Option Text → Bool
is_first_turn none = true
is_first_turn (some x) = false

unfoldable pub full_text : Settings → Turn → Bool → Text
full_text s t first =
    file_write_preamble
    ++ clarify_directives s first
    ++ blank_line
    ++ with_parts t.text (map part_of t.attached)

unfoldable pub prompt_blocks : Settings → Turn → Conversation → List Block
prompt_blocks s t c =
    let cwd = s.workspace_root ++ codes "/" ++ digits c.id c.id in
    text_block (full_text s t (is_first_turn c.acp_session_id)) ∷ links cwd t.attached
    ++ images t.attached

-- The flag says that the user's row stands already.
unfoldable pub send_message : Settings → Turn → Option Text → Option Text → Bool → Chat → Chat
send_message s t system_prompt profile_dir existing c =
    let blocks = prompt_blocks s t c.convo in
    let user = if existing then [] else user_message t c.convo.id t.attached [] ∷ [] in
    record {
      convo = retitle t.text c.convo;
      messages = c.messages ++ (user ++ agent_message t c.convo ∷ []);
      queue =
          c.queue
          ++ single c.convo.id t.agent_message_id c.convo.primary_agent_id
              (full_text s t (is_first_turn c.convo.acp_session_id)) (several blocks) system_prompt
              profile_dir
            ∷ [];
      cancelled = false;
    }

abbrev pub roundtable_message : Turn → ℕ → List Text → Message
roundtable_message t cid agents = record {
  id = t.agent_message_id;
  conversation_id = cid;
  owner_id = none;
  role = codes "roundtable";
  agent_id = some (first_or [] agents);
  text = [];
  files = [];
  replies = agents;
  mentions = [];
  status = codes "streaming";
}

unfoldable pub send_roundtable :
    Turn → List Text → List Text → Option Text → Option Text → Chat → Chat
send_roundtable t agents mentions system_prompt profile_dir c =
    let text =
      file_write_preamble
      ++ no_clarify_roundtable
      ++ blank_line
      ++ with_parts t.text (map quoted t.attached) in
    record {
      convo = retitle t.text c.convo;
      messages =
          c.messages
          ++ user_message t c.convo.id t.attached mentions
            ∷ roundtable_message t c.convo.id agents
            ∷ [];
      queue =
          c.queue
          ++ roundtable c.convo.id t.agent_message_id agents text system_prompt profile_dir ∷ [];
      cancelled = false;
    }
