-- ===== src/Runner/Clarify.antt =====
-- The clarify entries of a turn: backend/agent_runner/runner_clarify.py.
use hermes_python.Prelude.{
  ◌≡◌, Option, none, some, List, [], ◌∷◌, ◌++◌, ◌==◌, find?, arith, if◌then◌else◌,
}
use hermes_python.Texts.{Text, codes}
use hermes_python.Texts.Same.{text_has_eq, text_eq_iff}
use hermes_python.Runner.{ClarifyEntry, Request}

-- `_record_clarify`, with the request's defaults filled in.
unfoldable pub record_clarify : Request → List ClarifyEntry → List ClarifyEntry
record_clarify q es =
    es
    ++ record {
      id = q.id;
      question = q.question;
      options = q.options;
      status = codes "pending";
      choice = none;
    }
      ∷ []

abbrev pub status_of_choice : Text → Text
status_of_choice choice =
    if choice == codes "已取消"
    then codes "cancelled"
    else if choice == codes "超时"
    then codes "timeout"
    else codes "answered"

-- `_update_clarify`
unfoldable pub update_clarify : Text → Text → Text → List ClarifyEntry → List ClarifyEntry
update_clarify id status choice [] = []
update_clarify id status choice (e ∷ es) =
    (if e.id == id then record e { status = status; choice = some choice } else e)
    ∷ update_clarify id status choice es

-- The end of `_wait_and_unblock_clarify`
unfoldable pub settle_clarify : Text → Text → List ClarifyEntry → List ClarifyEntry
unfolding update_clarify
settle_clarify id choice es = update_clarify id (status_of_choice choice) choice es

abbrev pub of_id : Text → List ClarifyEntry → Option ClarifyEntry
of_id id es = find? (λ (e : ClarifyEntry). e.id == id) es

-- An answer to a request whose id has no entry yet settles the entry made for it, and no other.
pub settle_clarify_lem :
    (id choice : Text) (q : Request) (es : List ClarifyEntry)
    → of_id q.id es ≡ none
    → of_id id (settle_clarify q.id choice (record_clarify q es)) ≡ (
        if q.id == id
        then some record {
          id = q.id;
          question = q.question;
          options = q.options;
          status = status_of_choice choice;
          choice = some choice;
        }
        else of_id id es)
unfolding settle_clarify record_clarify
settle_clarify_lem id choice q [] absent = ground (arith, text_eq_iff q.id q.id)
settle_clarify_lem id choice q (e ∷ es) absent = ground (
  arith,
  settle_clarify_lem id choice q es,
  text_eq_iff e.id q.id,
  text_eq_iff q.id id,
  text_eq_iff e.id id,
)
