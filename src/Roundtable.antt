-- ===== src/Roundtable.antt =====
-- backend/agent_runner/runner_roundtable.py: the replies of several agents, run side by side, and
-- their merge. What each agent sends, and how its calls end, are arguments; the events of different
-- agents interleave, and are listed for each agent here.
pub mod Ended
mod Tests
use hermes_python.Prelude.{
  ℕ, zero, suc, ◌+◌, Bool, true, false, ◌&&◌, not, Option, none, some, List, [], ◌∷◌, ◌++◌, HasEq,
  ◌==◌, if◌then◌else◌,
}
use hermes_python.Texts.{Text, codes, is_empty, strip}
use hermes_python.Texts.Same.{text_has_eq}

-- How the calls to an agent end.
pub data Ending : Type 0 where
  finished timed_out failed : Ending

-- A reply or its failure before a client was made: neither the agent nor hermes is known.
pub data Answer : Type 0 where
  no_agent : Answer
  sent : List Text → Ending → Answer

pub record Slot : Type 0 where
  pub agent_id : Text
  pub answer : Answer

pub record Reply : Type 0 where
  pub agent_id : Text
  pub text : Text
  pub status : Text

pub data Event : Type 0 where
  rt_start : List Text → Event
  rt_token : ℕ → Text → Event
  rt_reply_done : ℕ → Text → Event
  merge_start : Event
  merge_token : Text → Event
  error_event : Text → Event
  done_event : Text → Event

-- The content and the status of the message's row.
pub record Row : Type 0 where
  pub replies : List Reply
  pub merged : Text
  pub merged_status : Text
  pub status : Text

pub record Run : Type 0 where
  pub events : List Event
  pub row : Row
  pub cancelled : Bool

-- The text chunks that are not empty, one after the other.
unfoldable pub joined : List Text → Text
joined [] = []
joined (d ∷ ds) = d ++ joined ds

unfoldable pub tokens : (Text → Event) → List Text → List Event
tokens f [] = []
tokens f (d ∷ ds) = let rest = tokens f ds in if is_empty d then rest else f d ∷ rest

abbrev pub text_or : Text → Text → Text
text_or [] d = d
text_or (c ∷ t) d = c ∷ t

-- `run_one`: what was streamed stays, and a placeholder stands for nothing.
unfoldable pub run_one : Slot → Reply
unfolding joined
run_one s = elim s.answer [
  | no_agent ↦ record { agent_id = s.agent_id; text = codes "（作答失败）"; status = codes "error" }
  | sent ds finished ↦ record { agent_id = s.agent_id; text = joined ds; status = codes "complete" }
  | sent ds timed_out ↦ record {
    agent_id = s.agent_id;
    text = text_or (joined ds) (codes "（" ++ s.agent_id ++ codes " 超时未响应）");
    status = codes "timeout";
  }
  | sent ds failed ↦ record {
    agent_id = s.agent_id;
    text = text_or (joined ds) (codes "（该助手作答失败）");
    status = codes "error";
  }
]

unfoldable pub run_all : List Slot → List Reply
run_all [] = []
run_all (s ∷ ss) = run_one s ∷ run_all ss

unfoldable pub events_of : ℕ → List Slot → List Event
unfolding tokens
events_of i [] = []
events_of i (s ∷ ss) =
    let rest = events_of (i + 1) ss in
    elim s.answer [
      | no_agent ↦ rest
      | sent ds e ↦ tokens (rt_token i) ds ++ (rt_reply_done i (run_one s).status ∷ rest)
    ]

-- The replies that count: complete, and not blank.
unfoldable pub counts : Reply → Bool
counts r = r.status == codes "complete" && not (is_empty (strip r.text))

unfoldable pub ok_replies : List Reply → List Reply
ok_replies [] = []
ok_replies (r ∷ rs) = let rest = ok_replies rs in if counts r then r ∷ rest else rest

-- `_finalize_roundtable`
unfoldable pub finalize_roundtable : List Reply → Text → Text → Row
finalize_roundtable replies merged status = record {
  replies = replies;
  merged = merged;
  merged_status = status;
  status = status;
}

abbrev pub ended : List Event → Row → List Event → Run → Run
ended more row last r = record { events = r.events ++ (more ++ last); row = row; cancelled = false }

-- A merge: neither hermes nor the first agent is known, and the call raises there; or there are these
-- chunks, however its prompt ends, and then stopping its client raises too or does not.
pub data Merge : Type 0 where
  unknown : Merge
  stuck : List Text → Merge
  done : List Text → Merge

-- `handle_roundtable`, with its merge, if it comes to that. That the row cannot be saved at the end and
-- that an event cannot be published are left out.
unfoldable pub handle_roundtable : List Slot → List Text → Merge → Run → Run
unfolding ok_replies finalize_roundtable
handle_roundtable slots agents merge r =
    let replies = run_all slots in
    let more = rt_start agents ∷ events_of 0 slots in
    elim r.cancelled [
      | true ↦
          ended more (finalize_roundtable replies [] (codes "cancelled"))
            (done_event (codes "cancelled") ∷ []) r
      | false ↦ elim (ok_replies replies) [
        | [] ↦
            ended more (finalize_roundtable replies [] (codes "error"))
              (error_event (codes "所有助手均作答失败") ∷ done_event (codes "error") ∷ []) r
        | a ∷ [] ↦
            ended more (finalize_roundtable replies a.text (codes "complete"))
              (merge_start ∷ merge_token a.text ∷ done_event (codes "complete") ∷ []) r
        | a ∷ b ∷ rest ↦ elim merge [
          | unknown ↦ record r { events = r.events ++ (more ++ merge_start ∷ []) }
          | stuck ds ↦ record r {
            events = r.events ++ (more ++ merge_start ∷ tokens merge_token ds);
          }
          | done ds ↦
              ended more (finalize_roundtable replies (joined ds) (codes "complete"))
                (merge_start ∷ tokens merge_token ds ++ done_event (codes "complete") ∷ []) r
        ]
      ]
    ]
