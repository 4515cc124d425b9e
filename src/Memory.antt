-- ===== src/Memory.antt =====
-- The long-term memory of a user: backend/agent_runner/runner_memory.py and
-- backend/app/services/memory_service.py. The agent's answer is parsed by a regular expression and
-- a JSON library; its rounding of a share is a parameter.
pub mod Budget
pub mod Excerpts
mod Tests
use hermes_python.Prelude.{
  ℕ, ◌+◌, ◌-◌, Bool, true, false, ◌||◌, Option, none, some, List, [], ◌∷◌, ◌++◌, HasEq, ◌==◌, ltb,
  leb, length, take, if◌then◌else◌,
}
use hermes_python.Texts.{Text, codes, is_empty, strip}
use hermes_python.Texts.Same.{text_has_eq}

-- The three fields, of a parsed answer or of what a user has.
pub record Blocks : Type 0 where
  pub user_profile : Text
  pub soul : Text
  pub notes : Text

-- A row of the table, with `None` for a cleared field.
pub record AgentMemory : Type 0 where
  pub user_profile : Option Text
  pub soul : Option Text
  pub notes : Option Text
  pub last_consolidated_at : Option ℕ

abbrev pub text_of : Option Text → Text
text_of none = []
text_of (some t) = t

unfoldable pub memory_total_len : Option Text → Option Text → Option Text → ℕ
memory_total_len notes user_profile soul =
    length (text_of notes) + length (text_of user_profile) + length (text_of soul)

abbrev pub total_of : Blocks → ℕ
total_of m = length m.user_profile + length m.soul + length m.notes

-- `text or None`
abbrev pub or_none : Text → Option Text
or_none [] = none
or_none (c ∷ t) = some (c ∷ t)

abbrev pub updated : Option Text → Option Text → Option Text
updated given old = elim given [ none ↦ old | some t ↦ or_none t ]

abbrev pub stamped : Option ℕ → Option ℕ → Option ℕ
stamped none old = old
stamped (some t) old = some t

-- `upsert_memory`, for the row there is, if any: notes, user profile, soul and the time.
unfoldable pub upsert_memory :
    Option Text → Option Text → Option Text → Option ℕ → Option AgentMemory → AgentMemory
upsert_memory notes user_profile soul at none = record {
  user_profile = user_profile;
  soul = soul;
  notes = notes;
  last_consolidated_at = at;
}
upsert_memory notes user_profile soul at (some m) = record {
  user_profile = updated user_profile m.user_profile;
  soul = updated soul m.soul;
  notes = updated notes m.notes;
  last_consolidated_at = stamped at m.last_consolidated_at;
}

-- `parsed[k] or old[k]`
abbrev pub or_old : Text → Text → Text
or_old [] old = old
or_old (c ∷ t) old = c ∷ t

unfoldable pub filled : Blocks → Blocks → Blocks
filled parsed old = record {
  user_profile = or_old parsed.user_profile old.user_profile;
  soul = or_old parsed.soul old.soul;
  notes = or_old parsed.notes old.notes;
}

-- The parameter is `int(len * (budget / total))` of a length, the budget and the total.
unfoldable pub trim_memory_to_budget : (ℕ → ℕ → ℕ → ℕ) → Blocks → ℕ → Blocks
trim_memory_to_budget scale m budget =
    let total = total_of m in
    let profile = take (scale (length m.user_profile) budget total) m.user_profile in
    let soul = take (scale (length m.soul) budget total) m.soul in
    let within = leb total budget in
    record {
      user_profile = if within then m.user_profile else profile;
      soul = if within then m.soul else soul;
      notes = if within then m.notes else take (budget - (length profile + length soul)) m.notes;
    }

-- What a consolidation writes for a parsed answer.
unfoldable pub consolidated :
    (ℕ → ℕ → ℕ → ℕ) → Blocks → Blocks → ℕ → ℕ → Option AgentMemory → AgentMemory
unfolding filled trim_memory_to_budget upsert_memory
consolidated scale parsed old budget now row =
    let m = trim_memory_to_budget scale (filled parsed old) budget in
    upsert_memory (some m.notes) (some m.user_profile) (some m.soul) (some now) row

-- A message as the excerpts read it: role, status, its text, and the merged text of a roundtable.
pub record Said : Type 0 where
  pub role : Text
  pub status : Text
  pub text : Text
  pub merged : Text

abbrev pub cut_at : ℕ → Text → Text
cut_at limit t = if ltb limit (length t) then take limit t ++ codes "…" else t

abbrev pub line_of : ℕ → Text → Text → Option Text
line_of limit prefix text =
    let t = strip text in if is_empty t then none else some (prefix ++ codes ": " ++ cut_at limit t)

-- `_message_excerpt`, with the limit of the settings.
unfoldable pub message_excerpt : ℕ → Said → Option Text
message_excerpt limit m =
    if m.role == codes "system" || m.status == codes "error"
    then none
    else if m.role == codes "roundtable"
    then line_of limit (codes "AI(圆桌)") m.merged
    else if m.role == codes "agent"
    then line_of limit (codes "AI") m.text
    else if m.role == codes "user"
    then line_of limit (codes "用户") m.text
    else none

unfoldable pub lines_of : ℕ → List Said → List Text
unfolding message_excerpt
lines_of limit [] = []
lines_of limit (m ∷ ms) =
    let rest = lines_of limit ms in
    elim (message_excerpt limit m) [ none ↦ rest | some t ↦ t ∷ rest ]

abbrev pub lines_joined : List Text → Text
lines_joined [] = []
lines_joined (l ∷ []) = l
lines_joined (l ∷ k ∷ ls) = l ++ codes "\n" ++ lines_joined (k ∷ ls)

-- A conversation's section, cut to what the budget leaves.
abbrev pub section : ℕ → ℕ → Text → List Text → Text
section budget used title lines =
    let whole = codes "## 会话「" ++ title ++ codes "」\n" ++ lines_joined lines in
    if ltb budget (used + length whole) then take (budget - used) whole else whole

-- The loop over the conversations: their titles and messages, and what is used so far.
unfoldable pub sections : ℕ → ℕ → ℕ → List (Text × List Said) → List Text
unfolding lines_of
sections limit budget used [] = []
sections limit budget used ((title, said) ∷ more) =
    let same = sections limit budget used more in
    let lines = lines_of limit said in
    let s = section budget used title lines in
    let next = sections limit budget (used + length s) more in
    elim lines [ [] ↦ same | l ∷ ls ↦ if leb budget (used + length s) then s ∷ [] else s ∷ next ]
