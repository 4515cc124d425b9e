-- ===== src/Groups/Mentions.antt =====
-- `resolve_mentions` of backend/app/services/conversation_service.py: the agents of a group that a
-- message names. The order in which Python lists a set is a parameter.
use hermes_python.Prelude.{
  ℕ, ◌≡◌, refl, sym, ◌∙◌, Bool, true, ◌&&◌, ◌||◌, none, some, List, [], ◌∷◌, ◌++◌, arith, ◌==◌,
  contains, find?, Option-cases, Bool-cases, inl, inr, if◌then◌else◌,
}
use hermes_python.Texts.{Text, codes, starts_with}
use hermes_python.Texts.Same.{text_has_eq, text_eq_iff}
use hermes_python.Groups.{Member, Profile, group_agents}

-- `part in text`
unfoldable pub occurs_in : Text → Text → Bool
occurs_in part [] = starts_with [] part
occurs_in part (c ∷ t) = let rest = occurs_in part t in starts_with (c ∷ t) part || rest

-- The query by name, handle or default agent, among active profiles.
abbrev pub is_called : Text → Profile → Bool
is_called mention p =
    p.is_active && (p.name == mention || p.handle == mention || p.default_agent_id == mention)

abbrev pub stands_for : Text → Profile → Bool
stands_for agent p = p.default_agent_id == agent && p.is_active

-- The agent whose profile's name the mention is a part of, the first of them.
unfoldable pub guess : List Profile → Text → List Text → List Text
guess profiles mention [] = []
guess profiles mention (a ∷ more) =
    let rest = guess profiles mention more in
    elim (find? (stands_for a) profiles) [
      | none ↦ rest
      | some p ↦ if occurs_in mention p.name || starts_with p.name mention then a ∷ [] else rest
    ]

-- One turn of the loop over the mentions.
unfoldable pub resolve_one : List Profile → List Text → Text → List Text
resolve_one profiles agents mention =
    if contains mention agents then mention ∷ [] else elim (find? (is_called mention) profiles) [
      | none ↦ guess profiles mention agents
      | some p ↦
          if contains p.default_agent_id agents
          then p.default_agent_id ∷ []
          else guess profiles mention agents
    ]

unfoldable pub resolve_each : List Profile → List Text → List Text → List Text
resolve_each profiles agents [] = []
resolve_each profiles agents (m ∷ ms) =
    resolve_one profiles agents m ++ resolve_each profiles agents ms

-- `list(set(ts))` has the elements of ts.
pub record IsListing (set_list : List Text → List Text) : Type 0 where
  pub same_elements : (a : Text) (ts : List Text) → contains a (set_list ts) ≡ contains a ts

abbrev pub all_agents : Text
all_agents = codes "__all_agents__"

abbrev pub all_humans : Text
all_humans = codes "__all_humans__"

unfoldable pub resolve_mentions :
    (List Text → List Text) → List Profile → ℕ → List Member → List Text → List Text
resolve_mentions set_list profiles cid members [] = []
resolve_mentions set_list profiles cid members (m ∷ ms) =
    if contains all_agents (m ∷ ms)
    then group_agents cid members
    else if contains all_humans (m ∷ ms)
    then []
    else set_list (resolve_each profiles (group_agents cid members) (m ∷ ms))

contains-append :
    (a : Text) (xs ys : List Text) → contains a (xs ++ ys) ≡ contains a xs || contains a ys
contains-append a [] ys = refl
contains-append a (x ∷ xs) ys = ground (arith, contains-append a xs ys)

contains-guess :
    (profiles : List Profile) (mention a : Text) (agents : List Text)
    → contains a (guess profiles mention agents) ≡ true
    → contains a agents ≡ true
unfolding guess
contains-guess profiles mention a [] h = h
contains-guess profiles mention a (b ∷ more) h =
    elim (Option-cases (find? (stands_for b) profiles)) [
      | inl e ↦ ground (arith, contains-guess profiles mention a more, rw (e, guess) at h)
      | inr (p, e) ↦ ground (arith, contains-guess profiles mention a more)
    ]

contains-resolve_one :
    (profiles : List Profile) (agents : List Text) (mention a : Text)
    → contains a (resolve_one profiles agents mention) ≡ true
    → contains a agents ≡ true
unfolding resolve_one
contains-resolve_one profiles agents mention a h = elim (Bool-cases (contains mention agents)) [
  | inl e ↦ ground (arith, text_eq_iff a mention)
  | inr e ↦ elim (Option-cases (find? (is_called mention) profiles)) [
    | inl none_called ↦ ground (arith, contains-guess profiles mention a agents)
    | inr (p, called) ↦
        ground (arith, contains-guess profiles mention a agents, text_eq_iff a p.default_agent_id)
  ]
]

contains-resolve_each :
    (profiles : List Profile) (agents ms : List Text) (a : Text)
    → contains a (resolve_each profiles agents ms) ≡ true
    → contains a agents ≡ true
unfolding resolve_each
contains-resolve_each profiles agents [] a h = cc
contains-resolve_each profiles agents (m ∷ ms) a h = ground (
  arith,
  contains-append a (resolve_one profiles agents m) (resolve_each profiles agents ms),
  contains-resolve_one profiles agents m a,
  contains-resolve_each profiles agents ms a,
)

-- A mention never reaches an agent that is not in the group.
pub contains-resolve_mentions :
    (set_list : List Text → List Text) (profiles : List Profile) (cid : ℕ) (members : List Member)
    (mentions : List Text) (a : Text)
    → IsListing set_list
    → contains a (resolve_mentions set_list profiles cid members mentions) ≡ true
    → contains a (group_agents cid members) ≡ true
unfolding resolve_mentions
contains-resolve_mentions set_list profiles cid members [] a law h = cc
contains-resolve_mentions set_list profiles cid members (m ∷ ms) a law h =
    let agents = group_agents cid members in
    let found = resolve_each profiles agents (m ∷ ms) in
    elim (Bool-cases (contains all_agents (m ∷ ms))) [
      | inl e ↦ rw e at h
      | inr e ↦ elim (Bool-cases (contains all_humans (m ∷ ms))) [
        | inl f ↦ ground arith
        | inr f ↦
            contains-resolve_each profiles agents (m ∷ ms) a
              (sym (law.same_elements a found) ∙ rw (e, f) at h)
      ]
    ]
