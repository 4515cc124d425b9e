-- ===== src/Runner.antt =====
-- backend/agent_runner/runner.py, one prompt of one agent: what the agent sends while it works
-- (`on_update` and `on_fs_write` of `handle_single`), the events published for it and the row of
-- the message at the end. backend/agent_runner/runner_clarify.py keeps the clarify entries.
pub mod Single
pub mod Streamed
pub mod Written
pub mod Prompted
pub mod Ended
pub mod Clarify
mod Tests
use hermes_python.Prelude.{
  ℕ, ◌+◌, Bool, true, false, ◌&&◌, not, Option, none, some, List, [], ◌∷◌, ◌++◌, HasEq, ◌==◌,
  nat_has_eq, ltb, contains, map, if◌then◌else◌,
}
use hermes_python.Texts.{Text, codes, is_empty}
use hermes_python.Texts.Same.{text_has_eq}

pub record PlanEntry : Type 0 where
  pub content : Text
  pub status : Text
  pub priority : ℕ

pub record Step : Type 0 where
  pub title : Text
  pub status : Text

pub record FileEntry : Type 0 where
  pub id : ℕ
  pub name : Text
  pub kind : Text
  pub version : ℕ
  pub diff : Option Text

pub record ClarifyEntry : Type 0 where
  pub id : Text
  pub question : Text
  pub options : List Text
  pub status : Text
  pub choice : Option Text

pub record Request : Type 0 where
  pub id : Text
  pub question : Text
  pub options : List Text

-- An update of the agent by its `sessionUpdate`, with the fields that the handler reads. The entries
-- of a plan are objects.
pub data Update : Type 0 where
  message_chunk : Text → Update
  tool_call : Step → Update
  thought : Text → Text → Update
  plan : List PlanEntry → Update
  usage : ℕ → ℕ → Update
  session_info : Text → Update
  usage_update : ℕ → ℕ → Update
  confirmation_request : Request → Update
  unknown : Update

pub data Event : Type 0 where
  start_event : Event
  token_event : Text → Event
  tool_event : Step → Event
  thought_event : Text → Event
  plan_event : List PlanEntry → Event
  usage_event : ℕ → ℕ → Event
  title_event : Text → Event
  context_event : ℕ → ℕ → Event
  request_event : Request → Event
  file_event : FileEntry → Event
  error_event : Text → Event
  done_event : Text → Text → Event

-- `acc`, and the list `steps` beside it.
pub record Acc : Type 0 where
  pub text : Text
  pub cancelled : Bool
  pub tool_since_split : Bool
  pub thinking : Text
  pub plan : Option (List PlanEntry)
  pub files : List FileEntry
  pub steps : List Step
  pub total_tokens : Option ℕ
  pub clarifies : List ClarifyEntry

-- The row of the message.
pub record Row : Type 0 where
  pub text : Text
  pub tool_calls : List Step
  pub thinking : Text
  pub plan : Option (List PlanEntry)
  pub files : List FileEntry
  pub clarifies : List ClarifyEntry
  pub status : Text

-- The state of a turn: `acc`, the events published, how often the client was told to cancel, the
-- cancel flag in Redis, the title and the row.
pub record Run : Type 0 where
  pub acc : Acc
  pub events : List Event
  pub cancels : ℕ
  pub flag : Bool
  pub title : Text
  pub row : Row

abbrev pub publish : Event → Run → Run
publish e r = record r { events = r.events ++ e ∷ [] }

-- The branches on `sessionUpdate`.
unfoldable pub apply_update : Update → Run → Run
apply_update (message_chunk delta) r =
    let acc = record r.acc { text = r.acc.text ++ delta; tool_since_split = false } in
    elim (is_empty delta) [
      | true ↦ r
      | false ↦ publish (token_event delta) (record r { acc = acc })
    ]
apply_update (tool_call step) r =
    publish (tool_event step) (record r {
      acc = record r.acc { tool_since_split = true; steps = r.acc.steps ++ step ∷ [] };
    })
apply_update (thought text delta) r =
    let part = if is_empty text then delta else text in
    elim (is_empty part) [
      | true ↦ r
      | false ↦
          publish (thought_event part)
            (record r { acc = record r.acc { thinking = r.acc.thinking ++ part } })
    ]
apply_update (plan []) r = r
apply_update (plan (e ∷ es)) r =
    publish (plan_event (e ∷ es)) (record r { acc = record r.acc { plan = some (e ∷ es) } })
apply_update (usage input output) r =
    publish (usage_event input output)
      (record r { acc = record r.acc { total_tokens = some (input + output) } })
apply_update (session_info title) r = elim (is_empty title) [
  | true ↦ r
  | false ↦ publish (title_event title) (record r { title = title })
]
apply_update (usage_update size used) r = publish (context_event size used) r
apply_update (confirmation_request q) r = publish (request_event q) r
apply_update unknown r = r

-- The end of `on_update`: the client is told once.
unfoldable pub check_cancel : Run → Run
check_cancel r =
    let now = not r.acc.cancelled && r.flag in
    record r {
      acc = record r.acc { cancelled = if now then true else r.acc.cancelled };
      cancels = r.cancels + (if now then 1 else 0);
    }

unfoldable pub on_update : Update → Run → Run
on_update u r = check_cancel (apply_update u r)

-- The entry of a file replaces the one that has its id.
unfoldable pub put_file : FileEntry → List FileEntry → List FileEntry
put_file f [] = f ∷ []
put_file f (g ∷ gs) = let rest = put_file f gs in if g.id == f.id then f ∷ gs else g ∷ rest

-- `on_fs_write`, for the row that `save_file` gave; the copy on disk and the diff are I/O.
unfoldable pub on_fs_write : FileEntry → Run → Run
unfolding put_file
on_fs_write f r =
    publish (file_event f) (record r { acc = record r.acc { files = put_file f r.acc.files } })

-- What happens during a turn, in order: the user cancels, the agent sends an update or writes.
pub data Input : Type 0 where
  cancel_request : Input
  agent_update : Update → Input
  agent_write : FileEntry → Input

unfoldable pub receive : Input → Run → Run
unfolding on_update on_fs_write
receive cancel_request r = record r { flag = true }
receive (agent_update u) r = on_update u r
receive (agent_write f) r = on_fs_write f r

unfoldable pub receive_all : List Input → Run → Run
receive_all [] r = r
receive_all (i ∷ is) r = receive_all is (receive i r)

abbrev pub empty_acc : Acc
empty_acc = record {
  text = [];
  cancelled = false;
  tool_since_split = false;
  thinking = [];
  plan = none;
  files = [];
  steps = [];
  total_tokens = none;
  clarifies = [];
}

-- The state when `handle_single` starts.
abbrev pub begin : Bool → Text → Row → Run
begin flag title row = record {
  acc = empty_acc;
  events = [];
  cancels = 0;
  flag = flag;
  title = title;
  row = row;
}
