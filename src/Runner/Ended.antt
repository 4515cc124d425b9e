-- ===== src/Runner/Ended.antt =====
-- How a turn ends.
use hermes_python.Prelude.{
  ◌≡◌, refl, sym, ap, ◌∙◌, Bool, true, false, Option, List, [], ◌∷◌, ◌++◌, Bool-cases, Option-cases,
  inl, inr, if◌then◌else◌,
}
use hermes_python.Texts.{Text, codes, is_empty}
use hermes_python.Runner.{
  Event, start_event, publish, file_event, error_event, done_event, Row, Run, Input, receive_all,
  begin, FileEntry,
}
use hermes_python.Runner.Single.{
  Extraction, Fate, returned, raised, raised_in_drop, raised_in_finalize, handle_single, complete,
  fail, finalize, extract_and_save_files, save_each, status_of, unique,
}
use hermes_python.Runner.Streamed.{
  gather, gather-append, token_of, thought_of, tool_of, end_of, before_end-IsStreamed,
}

-- What a file event does not tell.
module _ {ℓ} {A : Type ℓ} (f : Event → List A)
    (quiet : (g : FileEntry) → f (file_event g) ≡ []) where
  gather-save_each :
      (save : Text × Text → Option FileEntry) (xs : List (Text × Text))
      → gather f (save_each save xs) ≡ []
  unfolding save_each
  gather-save_each save [] = refl
  gather-save_each save (x ∷ xs) = elim (Option-cases (save x)) [
    | inl e ↦ rw (e, save_each) (gather-save_each save xs)
    | inr (g, e) ↦ rw (e, save_each, quiet g) (gather-save_each save xs)
  ]

  gather-extracted : (x : Extraction) (r : Run) → gather f (extract_and_save_files x r.acc) ≡ []
  unfolding extract_and_save_files
  gather-extracted x r = elim (Bool-cases r.acc.cancelled) [
    | inl e ↦ rw (e, extract_and_save_files) refl
    | inr e ↦ elim (Bool-cases (is_empty r.acc.text)) [
      | inl g ↦ rw (e, g, extract_and_save_files) refl
      | inr g ↦
          rw (e, g, extract_and_save_files)
            (gather-save_each x.save (unique [] (x.extracted r.acc.text)))
    ]
  ]

  gather-complete :
      (x : Extraction) (r : Run)
      → gather f (complete x r).events
        ≡ gather f r.events ++ (f (done_event (status_of r.acc.cancelled) r.acc.text) ++ [])
  unfolding complete extract_and_save_files
  gather-complete x r =
      gather-append f r.events _
      ∙ ap (λ l. gather f r.events ++ l)
          (gather-append f (extract_and_save_files x r.acc) _
            ∙ ap (λ l. l ++ (f (done_event (status_of r.acc.cancelled) r.acc.text) ++ []))
                (gather-extracted x r))

append_none : {A : Type 0} (xs : List A) → xs ++ ([] ++ []) ≡ xs
append_none [] = refl
append_none (x ∷ xs) = ap (λ l. x ∷ l) (append_none xs)

-- A turn that ends without an error stores what it streamed: the text of the tokens, the thoughts
-- and the tool calls, whatever came in between.
pub handle_single-streamed :
    (x : Extraction) (inputs : List Input) (flag : Bool) (title : Text) (row : Row)
    → let r = handle_single x true inputs returned (begin flag title row) in
      (r.row.text ≡ gather token_of r.events)
      × (r.row.thinking ≡ gather thought_of r.events)
      × (r.row.tool_calls ≡ gather tool_of r.events)
unfolding handle_single finalize
handle_single-streamed x inputs flag title row =
    let r = receive_all inputs (publish start_event (begin flag title row)) in
    let h = before_end-IsStreamed inputs flag title row in
    (
      sym (gather-complete token_of (λ g. refl) x r ∙ append_none _ ∙ h.tokens),
      sym (gather-complete thought_of (λ g. refl) x r ∙ append_none _ ∙ h.thoughts),
      sym (gather-complete tool_of (λ g. refl) x r ∙ append_none _ ∙ h.tools),
    )

-- Whether the exception of a turn is met before it leaves `handle_single`.
abbrev pub is_met : Bool → Fate → Bool
is_met true raised_in_drop = false
is_met true raised_in_finalize = false
is_met found fate = true

-- The report of a failure and the last event do not fail themselves. Then a turn publishes one `done`,
-- with the status of the row, if it finds no agent, if the prompt returns and the row is saved, and if the
-- prompt raises and dropping the client does not. If dropping the client or saving the row raises, it
-- publishes none.
pub handle_single_ends :
    (x : Extraction) (found : Bool) (inputs : List Input) (fate : Fate) (flag : Bool) (title : Text)
    (row : Row)
    → let r = handle_single x found inputs fate (begin flag title row) in
      gather end_of r.events ≡ (if is_met found fate then r.row.status ∷ [] else [])
unfolding handle_single fail finalize
handle_single_ends x false inputs fate flag title row = refl
handle_single_ends x true inputs (raised detail) flag title row =
    gather-append end_of (receive_all inputs (publish start_event (begin flag title row))).events
      (error_event detail ∷ done_event (codes "error") [] ∷ [])
    ∙ rw (before_end-IsStreamed inputs flag title row).open_end refl
handle_single_ends x true inputs raised_in_drop flag title row =
    (before_end-IsStreamed inputs flag title row).open_end
handle_single_ends x true inputs raised_in_finalize flag title row =
    let sent = receive_all inputs (publish start_event (begin flag title row)) in
    gather-append end_of sent.events (extract_and_save_files x sent.acc)
    ∙ rw (before_end-IsStreamed inputs flag title row).open_end
        (gather-extracted end_of (λ g. refl) x sent)
handle_single_ends x true inputs returned flag title row =
    gather-complete end_of (λ g. refl) x
      (receive_all inputs (publish start_event (begin flag title row)))
    ∙ rw (before_end-IsStreamed inputs flag title row).open_end refl

-- The client is told to cancel once or never, and once exactly if the row says cancelled.
pub cancels-handle_single :
    (x : Extraction) (inputs : List Input) (flag : Bool) (title : Text) (row : Row)
    → let r = handle_single x true inputs returned (begin flag title row) in
      (r.cancels ≡ (if r.acc.cancelled then 1 else 0)) × (r.row.status ≡ status_of r.acc.cancelled)
unfolding handle_single complete finalize
cancels-handle_single x inputs flag title row =
    ((before_end-IsStreamed inputs flag title row).told, refl)
