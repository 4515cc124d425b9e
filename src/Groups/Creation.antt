-- ===== src/Groups/Creation.antt =====
-- The rows of a new group.
use hermes_python.Prelude.{
  ℕ, ◌≡◌, refl, true, false, Option, List, [], ◌∷◌, arith, nat_has_eq, ==_refl, contains, All,
  All-append, Bool-cases, inl, inr, if◌then◌else◌,
}
use hermes_python.Texts.{Text, is_empty}
use hermes_python.Texts.Same.{text_has_eq, text_eq_iff}
use hermes_python.Groups.{
  Profile, Team, group_agents, is_user, is_agent, add_humans, add_bots, chosen_agents,
  chosen_humans, create_group,
}
use hermes_python.Groups.Members.{
  count, count-append, is_plain, IsGroup, group_agents-append, text_eq_comm,
}

-- Names of agents, none of them empty and none twice.
abbrev pub AreDistinct : List Text → Type 0
AreDistinct [] = Unit
AreDistinct (a ∷ more) = (is_empty a ≡ false) × (contains a more ≡ false) × AreDistinct more

users-add_humans :
    (cid v : ℕ) (added us : List ℕ)
    → count (is_user cid v) (add_humans cid added us)
      ≡ (if contains v added then 0 else if contains v us then 1 else 0)
unfolding add_humans
users-add_humans cid v added [] = ground arith
users-add_humans cid v added (u ∷ us) = elim (Bool-cases (contains u added)) [
  | inl old ↦
      ground
        (arith, users-add_humans cid v added us, nat_has_eq.same_iff u v, nat_has_eq.same_iff v u)
  | inr new ↦ ground (
    arith,
    users-add_humans cid v (u ∷ added) us,
    nat_has_eq.same_iff u v,
    nat_has_eq.same_iff v u,
    ==_refl cid,
  )
]

humans-plain :
    (cid : ℕ) (added us : List ℕ) → All (λ m. is_plain m ≡ true) (add_humans cid added us)
unfolding add_humans
humans-plain cid added [] = tt
humans-plain cid added (u ∷ us) =
    ground (arith, humans-plain cid added us, humans-plain cid (u ∷ added) us)

agents-add_humans :
    (cid : ℕ) (a : Text) (added us : List ℕ) → count (is_agent cid a) (add_humans cid added us) ≡ 0
unfolding add_humans
agents-add_humans cid a added [] = refl
agents-add_humans cid a added (u ∷ us) =
    ground (arith, agents-add_humans cid a added us, agents-add_humans cid a (u ∷ added) us)

group-add_humans : (cid : ℕ) (added us : List ℕ) → group_agents cid (add_humans cid added us) ≡ []
unfolding add_humans group_agents
group-add_humans cid added [] = refl
group-add_humans cid added (u ∷ us) =
    ground (arith, group-add_humans cid added us, group-add_humans cid (u ∷ added) us)

users-add_bots : (cid v : ℕ) (bs : List Text) → count (is_user cid v) (add_bots cid bs) ≡ 0
unfolding add_bots
users-add_bots cid v [] = refl
users-add_bots cid v (b ∷ bs) = ground (arith, users-add_bots cid v bs)

bots-plain :
    (cid : ℕ) (bs : List Text) → AreDistinct bs → All (λ m. is_plain m ≡ true) (add_bots cid bs)
unfolding add_bots
bots-plain cid [] h = tt
bots-plain cid (b ∷ bs) h = (ground arith, bots-plain cid bs h.2)

absent-add_bots :
    (cid : ℕ) (a : Text) (bs : List Text)
    → contains a bs ≡ false
    → count (is_agent cid a) (add_bots cid bs) ≡ 0
unfolding add_bots
absent-add_bots cid a [] h = refl
absent-add_bots cid a (b ∷ bs) h = ground (arith, absent-add_bots cid a bs, text_eq_comm a b)

agents-add_bots :
    (cid : ℕ) (a : Text) (bs : List Text)
    → AreDistinct bs
    → count (is_agent cid a) (add_bots cid bs) ≡ (if contains a bs then 1 else 0)
unfolding add_bots
agents-add_bots cid a [] h = refl
agents-add_bots cid a (b ∷ bs) h = ground (
  arith,
  agents-add_bots cid a bs h.2,
  absent-add_bots cid b bs h.1,
  text_eq_iff b a,
  text_eq_comm a b,
  ==_refl cid,
)

group-add_bots :
    (cid : ℕ) (bs : List Text) → AreDistinct bs → group_agents cid (add_bots cid bs) ≡ bs
unfolding add_bots group_agents
group-add_bots cid [] h = refl
group-add_bots cid (b ∷ bs) h = ground (arith, group-add_bots cid bs h.2, ==_refl cid)

-- The people of a new group: its owner and those chosen.
abbrev pub people_of : ℕ → Option Team → List ℕ → List ℕ
people_of owner team users = owner ∷ chosen_humans team users

one_row :
    (profiles : List Profile) (cid owner v : ℕ) (title : Text) (team : Option Team) (users : List ℕ)
    (asked : List Text)
    → count (is_user cid v) (create_group profiles cid owner title team users asked).1
      ≡ (if contains v (people_of owner team users) then 1 else 0)
unfolding create_group
one_row profiles cid owner v title team users asked =
    let agents = chosen_agents profiles team asked in
    ground (
      arith,
      count-append (is_user cid v) (add_humans cid (owner ∷ []) (chosen_humans team users))
          (add_bots cid agents),
      users-add_humans cid v (owner ∷ []) (chosen_humans team users),
      users-add_bots cid v agents,
      nat_has_eq.same_iff owner v,
      nat_has_eq.same_iff v owner,
      ==_refl cid,
    )

one_bot :
    (profiles : List Profile) (cid owner : ℕ) (title a : Text) (team : Option Team) (users : List ℕ)
    (asked : List Text)
    → AreDistinct (chosen_agents profiles team asked)
    → count (is_agent cid a) (create_group profiles cid owner title team users asked).1
      ≡ (if contains a (chosen_agents profiles team asked) then 1 else 0)
unfolding create_group
one_bot profiles cid owner title a team users asked distinct =
    let agents = chosen_agents profiles team asked in
    ground (
      arith,
      count-append (is_agent cid a) (add_humans cid (owner ∷ []) (chosen_humans team users))
          (add_bots cid agents),
      agents-add_humans cid a (owner ∷ []) (chosen_humans team users),
      agents-add_bots cid a agents distinct,
    )

well_formed :
    (profiles : List Profile) (cid owner : ℕ) (title : Text) (team : Option Team) (users : List ℕ)
    (asked : List Text)
    → AreDistinct (chosen_agents profiles team asked)
    → let made = create_group profiles cid owner title team users asked in
      IsGroup (record { convo = made.0; members = made.1 })
unfolding create_group group_agents
well_formed profiles cid owner title team users asked distinct =
    let agents = chosen_agents profiles team asked in
    let people = add_humans cid (owner ∷ []) (chosen_humans team users) in
    let bots = add_bots cid agents in
    record {
      plain = (
        refl,
        All-append (λ m. is_plain m ≡ true) people bots
            (humans-plain cid (owner ∷ []) (chosen_humans team users))
            (bots-plain cid agents distinct),
      );
      once = λ v. ground (arith, one_row profiles cid owner v title team users asked);
      named_once =
          λ a. ground (arith, one_bot profiles cid owner title a team users asked distinct);
      synced = ground (
        arith,
        group_agents-append cid people bots,
        group-add_humans cid (owner ∷ []) (chosen_humans team users),
        group-add_bots cid agents distinct,
      );
    }

-- If the agents chosen for a new group are named and distinct, the group is well formed, and its rows
-- are one for the owner and for each person chosen, however often the person is asked for, one for
-- each agent chosen, and none for anybody else.
pub create_group-IsGroup :
    (profiles : List Profile) (cid owner : ℕ) (title : Text) (team : Option Team) (users : List ℕ)
    (asked : List Text)
    → AreDistinct (chosen_agents profiles team asked)
    → let made = create_group profiles cid owner title team users asked in
      IsGroup (record { convo = made.0; members = made.1 })
      × ((v : ℕ)
          → count (is_user cid v) made.1
            ≡ (if contains v (people_of owner team users) then 1 else 0))
      × ((a : Text)
          → count (is_agent cid a) made.1
            ≡ (if contains a (chosen_agents profiles team asked) then 1 else 0))
create_group-IsGroup profiles cid owner title team users asked distinct = (
  well_formed profiles cid owner title team users asked distinct,
  λ v. one_row profiles cid owner v title team users asked,
  λ a. one_bot profiles cid owner title a team users asked distinct,
)
