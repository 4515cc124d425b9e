-- ===== src/Runner/Tests.antt =====
-- A turn with tokens, a tool call, a write and a cancellation.
use hermes_python.Prelude.{◌≡◌, refl, true, false, none, some, List, [], ◌∷◌, ◌++◌, nat_has_eq}
use hermes_python.Texts.{Text, codes}
use hermes_python.Texts.Same.{text_has_eq}
use hermes_python.Groups.{Conversation}
use hermes_python.Routing.{Settings, Turn, several}
use hermes_python.Routing.Sending.{full_text, prompt_blocks}
use hermes_python.Runner.{
  message_chunk, tool_call, FileEntry, Request, Row, Run, Input, cancel_request, agent_update,
  agent_write, begin,
}
use hermes_python.Runner.Single.{
  Extraction, returned, raised, handle_single, role_section, prompt_content,
}
use hermes_python.Runner.Streamed.{gather, token_of, thought_of, tool_of, end_of}
use hermes_python.Runner.Ended.{handle_single-streamed, handle_single_ends}
use hermes_python.Runner.Prompted.{opening, opening-prompt_content}

abbrev old_row : Row
old_row = record {
  text = [];
  tool_calls = [];
  thinking = [];
  plan = none;
  files = [];
  clarifies = [];
  status = codes "streaming";
}

abbrev report : FileEntry
report = record { id = 4; name = codes "a.md"; kind = codes "md"; version = 2; diff = none }

abbrev inputs : List Input
inputs =
    agent_update (message_chunk (codes "he"))
    ∷ agent_update (tool_call (record { title = codes "grep"; status = codes "done" }))
    ∷ agent_write report
    ∷ cancel_request
    ∷ agent_update (message_chunk (codes "llo"))
    ∷ []

abbrev nothing : Extraction
nothing = record { extracted = λ t. []; save = λ x. none }

abbrev started : Run
started = begin false (codes "chat") old_row

abbrev finished : Run
finished = handle_single nothing true inputs returned started

handle_single-streamed_example :
    (finished.row.text ≡ gather token_of finished.events)
    × (finished.row.thinking ≡ gather thought_of finished.events)
    × (finished.row.tool_calls ≡ gather tool_of finished.events)
handle_single-streamed_example = handle_single-streamed nothing inputs false (codes "chat") old_row

handle_single_ends_example :
    let r = handle_single nothing true inputs (raised (codes "timeout")) started in
    gather end_of r.events ≡ r.row.status ∷ []
handle_single_ends_example =
    handle_single_ends nothing true inputs (raised (codes "timeout")) false (codes "chat") old_row

abbrev found : List (Text × Text)
found = (codes "a.py", codes "1") ∷ (codes "a.py", codes "2") ∷ []

abbrev convo : Conversation
convo = record {
  id = 1;
  owner_id = 10;
  title = codes "chat";
  primary_agent_id = codes "hermes";
  active_agent_ids = [];
  channel_mode = codes "mention";
  visibility = codes "private";
  team_id = none;
  profile_id = none;
  acp_session_id = none;
}

abbrev settings : Settings
settings = record { clarify_disabled = true; workspace_root = codes "/ws" }

abbrev turn : Turn
turn = record {
  text = codes "hi";
  attached = [];
  owner_id = none;
  user_message_id = 1;
  agent_message_id = 2;
}

opening-prompt_content_example :
    opening (
      prompt_content
        (full_text settings turn true)
        (several (prompt_blocks settings turn convo))
        (some (codes "be brief")))
    ≡ role_section (codes "be brief") ++ full_text settings turn true
opening-prompt_content_example = opening-prompt_content settings turn convo (codes "be brief") refl

abbrev question : Request
question = record { id = codes "q1"; question = codes "which?"; options = [] }
