-- ===== src/Runner/Single.antt =====
-- The end of `handle_single`: `_extract_and_save_files`, `_finalize` and `_fail`, and what is sent
-- to the agent at its start. The regular expressions that find files in a text and `save_file` are
-- parameters here.
use hermes_python.Prelude.{
  Bool, true, false, Option, none, some, List, [], ◌∷◌, ◌++◌, contains, if◌then◌else◌,
}
use hermes_python.Texts.{Text, codes, is_empty}
use hermes_python.Texts.Same.{text_has_eq}
use hermes_python.Routing.{Block, text_block, resource_link, image_block}
use hermes_python.Runner.{
  Acc, Event, start_event, publish, file_event, error_event, done_event, FileEntry, Row, Run, Input,
  receive_all,
}

-- Each name once, with the first content found for it.
unfoldable pub unique : List Text → List (Text × Text) → List (Text × Text)
unique seen [] = []
unique seen ((name, content) ∷ more) =
    let rest = unique seen more in
    let next = unique (name ∷ seen) more in
    if contains name seen then rest else (name, content) ∷ next

-- `none` is the exception of a failed save, which is logged.
unfoldable pub save_each : (Text × Text → Option FileEntry) → List (Text × Text) → List Event
save_each save [] = []
save_each save (x ∷ xs) =
    let rest = save_each save xs in elim (save x) [ none ↦ rest | some f ↦ file_event f ∷ rest ]

unfoldable pub finalize : Acc → Text → Row
finalize a status = record {
  text = a.text;
  tool_calls = a.steps;
  thinking = a.thinking;
  plan = a.plan;
  files = a.files;
  clarifies = a.clarifies;
  status = status;
}

abbrev pub failure : Text → Text
failure detail = codes "⚠ 生成失败：" ++ detail

unfoldable pub fail : Text → Run → Run
fail detail r = record r {
  events = r.events ++ error_event detail ∷ done_event (codes "error") [] ∷ [];
  row = record {
    text = failure detail;
    tool_calls = [];
    thinking = [];
    plan = none;
    files = [];
    clarifies = [];
    status = codes "error";
  };
}

-- How the turn ends: `prompt` returns, and what follows does; it, or a call before it, raises with this
-- detail, and the client is dropped; or it raises and dropping the client raises too, or it returns and
-- saving the row at the end raises, so that the exception leaves `handle_single`.
pub data Fate : Type 0 where
  returned : Fate
  raised : Text → Fate
  raised_in_drop : Fate
  raised_in_finalize : Fate

pub record Extraction : Type 0 where
  pub extracted : Text → List (Text × Text)
  pub save : Text × Text → Option FileEntry

abbrev pub status_of : Bool → Text
status_of true = codes "cancelled"
status_of false = codes "complete"

-- `if status == "complete" and acc["text"]:`
unfoldable pub extract_and_save_files : Extraction → Acc → List Event
unfolding unique save_each
extract_and_save_files x a =
    if a.cancelled
    then []
    else if is_empty a.text
    then []
    else save_each x.save (unique [] (x.extracted a.text))

unfoldable pub complete : Extraction → Run → Run
unfolding finalize
complete x r = record r {
  events =
      r.events
      ++ (extract_and_save_files x r.acc ++ done_event (status_of r.acc.cancelled) r.acc.text ∷ []);
  flag = false;
  row = finalize r.acc (status_of r.acc.cancelled);
}

-- `handle_single`: whether an agent is found, what happens during the turn, and how it ends. The
-- client that a failed turn drops is the pool's. That the directory or the row cannot be read before the
-- turn, that `_fail` raises and that the last event cannot be published are left out.
unfoldable pub handle_single : Extraction → Bool → List Input → Fate → Run → Run
unfolding complete fail
handle_single x false inputs fate r = fail (codes "没有可用的 agent") r
handle_single x true inputs (raised detail) r =
    fail detail (receive_all inputs (publish start_event r))
handle_single x true inputs raised_in_drop r = receive_all inputs (publish start_event r)
handle_single x true inputs raised_in_finalize r =
    let sent = receive_all inputs (publish start_event r) in
    record sent { events = sent.events ++ extract_and_save_files x sent.acc }
handle_single x true inputs returned r = complete x (receive_all inputs (publish start_event r))

-- What is sent to the agent.
pub data Content : Type 0 where
  plain_text : Text → Content
  content_blocks : List Block → Content

abbrev pub role_section : Text → Text
role_section prompt = codes "【角色设定】\n" ++ prompt ++ codes "\n【角色设定结束】\n\n"

-- The first text block gets the role.
unfoldable pub prefix_first : Text → List Block → List Block
prefix_first prompt [] = []
prefix_first prompt (text_block t ∷ bs) = text_block (role_section prompt ++ t) ∷ bs
prefix_first prompt (resource_link u n m k ∷ bs) = resource_link u n m k ∷ prefix_first prompt bs
prefix_first prompt (image_block m d ∷ bs) = image_block m d ∷ prefix_first prompt bs

unfoldable pub prompt_content : Text → Option (List Block) → Option Text → Content
unfolding prefix_first
prompt_content text blocks system_prompt = elim (given_text system_prompt) [
  | none ↦ elim (given_blocks blocks) [ none ↦ plain_text text | some bs ↦ content_blocks bs ]
  | some p ↦ elim (given_blocks blocks) [
    | none ↦ plain_text (role_section p ++ text)
    | some bs ↦ content_blocks (prefix_first p bs)
  ]
]
  where
    given_text : Option Text → Option Text
    given_text none = none
    given_text (some t) = if is_empty t then none else some t

    given_blocks : Option (List Block) → Option (List Block)
    given_blocks none = none
    given_blocks (some []) = none
    given_blocks (some (b ∷ bs)) = some (b ∷ bs)
