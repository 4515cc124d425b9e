-- ===== src/Roundtable/Ended.antt =====
-- How a roundtable ends: with one event, the status of the row, and a merge that was streamed.
use hermes_python.Prelude.{◌≡◌, Bool, List, [], ◌∷◌, ◌++◌}
use hermes_python.Texts.{Text}
use hermes_python.Texts.Same.{text_has_eq}
use hermes_python.Roundtable.{Slot, Event, merge_token, done_event, Row, Run, run_all}

module _ {ℓ} {A : Type ℓ} where
  abbrev pub gather : (Event → List A) → List Event → List A
  gather f [] = []
  gather f (e ∷ es) = f e ++ gather f es

abbrev pub merge_of : Event → Text
merge_of (merge_token t) = t
merge_of _ = []

abbrev pub end_of : Event → List Text
end_of (done_event status) = status ∷ []
end_of _ = []

-- The state of a roundtable's message before the work starts.
abbrev pub waiting : Bool → Row → Run
waiting flag row = record { events = []; row = row; cancelled = flag }

-- What the events and the row say together at the end.
abbrev pub Agrees : List Slot → Run → Type 0
Agrees slots h =
    (gather end_of h.events ≡ h.row.status ∷ [])
    × (gather merge_of h.events ≡ h.row.merged)
    × (h.row.replies ≡ run_all slots)
