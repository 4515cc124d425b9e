-- ===== src/Roundtable/Tests.antt =====
-- Two agents, one of which runs out of time.
use hermes_python.Prelude.{List, [], ◌∷◌}
use hermes_python.Texts.{codes}
use hermes_python.Roundtable.{Slot, sent, finished, timed_out, Row}

abbrev slots : List Slot
slots =
    record { agent_id = codes "a"; answer = sent (codes "one" ∷ []) finished }
    ∷ record { agent_id = codes "b"; answer = sent [] timed_out }
    ∷ []

abbrev row : Row
row = record {
  replies = [];
  merged = [];
  merged_status = codes "pending";
  status = codes "streaming";
}
