-- ===== src/Groups/Members.antt =====
-- The rows of a group: one for each of its people and agents, and its agents are the active ones.
use hermes_python.Prelude.{
  ℕ, suc, ◌+◌, ◌≤◌, ◌≡◌, refl, sym, ap, ◌∙◌, Bool, true, false, not, none, some, List, [], ◌∷◌,
  ◌++◌, arith, ◌==◌, nat_has_eq, ==_refl, contains, keep, All, All-append, ltb, Option-cases,
  Bool-cases, inl, inr, if◌then◌else◌,
}
use hermes_python.Texts.{Text, is_empty, text_eq}
use hermes_python.Texts.Same.{text_has_eq}
use hermes_python.Groups.{
  Member, Group, one_or_none, group_agents, is_user, is_agent, is_row, is_group_member, human,
  add_group_member,
}

abbrev pub count : (Member → Bool) → List Member → ℕ
count p [] = 0
count p (m ∷ ms) = let rest = count p ms in if p m then suc rest else rest

-- A row of the table is of a person or of a named agent.
abbrev pub is_plain : Member → Bool
is_plain m = elim m.user_id [
  | none ↦ elim m.agent_id [ none ↦ false | some a ↦ not (is_empty a) ]
  | some u ↦ elim m.agent_id [ none ↦ true | some a ↦ false ]
]

pub record IsGroup (g : Group) : Type 0 where
  pub plain : All (λ m. is_plain m ≡ true) g.members
  pub once : (u : ℕ) → count (is_user g.convo.id u) g.members ≤ 1
  pub named_once : (a : Text) → count (is_agent g.convo.id a) g.members ≤ 1
  pub synced : group_agents g.convo.id g.members ≡ g.convo.active_agent_ids

pub count-append :
    (p : Member → Bool) (xs ys : List Member) → count p (xs ++ ys) ≡ count p xs + count p ys
count-append p [] ys = omega arith
count-append p (x ∷ xs) ys = ground (arith, count-append p xs ys)

pub keep_none : (p : Member → Bool) (ms : List Member) → count p ms ≡ 0 → keep p ms ≡ []
keep_none p [] h = refl
keep_none p (m ∷ ms) h = ground (arith, keep_none p ms)

pub keep_one :
    (p : Member → Bool) (ms : List Member)
    → count p ms ≡ 1
    → (m : Member) × (one_or_none (keep p ms) ≡ some (some m))
keep_one p [] h = ground arith
keep_one p (m ∷ ms) h = elim (Bool-cases (p m)) [
  | inl hit ↦ (m, rw (hit, keep_none p ms (ground arith)) refl)
  | inr miss ↦ let (x, e) = keep_one p ms (ground arith) in (x, rw miss e)
]

keep-row_user :
    (cid u : ℕ) (ms : List Member)
    → All (λ m. is_plain m ≡ true) ms
    → keep (is_row cid (some u) none) ms ≡ keep (is_user cid u) ms
keep-row_user cid u [] h = refl
keep-row_user cid u (m ∷ ms) h = ground (arith, keep-row_user cid u ms h.1)

pub keep-row_agent :
    (cid : ℕ) (a : Text) (ms : List Member)
    → All (λ m. is_plain m ≡ true) ms
    → keep (is_row cid none (some a)) ms ≡ keep (is_agent cid a) ms
keep-row_agent cid a [] h = refl
keep-row_agent cid a (m ∷ ms) h = ground (arith, keep-row_agent cid a ms h.1)

pub group_agents-append :
    (cid : ℕ) (xs ys : List Member)
    → group_agents cid (xs ++ ys) ≡ group_agents cid xs ++ group_agents cid ys
unfolding group_agents
group_agents-append cid [] ys = refl
group_agents-append cid (x ∷ xs) ys = ground (arith, group_agents-append cid xs ys)

pub text_eq_comm : (s t : Text) → text_eq s t ≡ text_eq t s
text_eq_comm [] [] = refl
text_eq_comm [] (y ∷ t) = refl
text_eq_comm (x ∷ s) [] = refl
text_eq_comm (x ∷ s) (y ∷ t) = ground (arith, text_eq_comm s t)

-- An agent is listed exactly if it has a row.
pub contains-group_agents :
    (cid : ℕ) (a : Text) (ms : List Member)
    → All (λ m. is_plain m ≡ true) ms
    → contains a (group_agents cid ms) ≡ ltb 0 (count (is_agent cid a) ms)
unfolding group_agents
contains-group_agents cid a [] h = refl
contains-group_agents cid a (m ∷ ms) h = elim (Option-cases m.agent_id) [
  | inl e ↦ ground (arith, contains-group_agents cid a ms h.1)
  | inr (b, e) ↦ ground (arith, contains-group_agents cid a ms h.1, text_eq_comm a b)
]

is_group_member-one :
    (cid u : ℕ) (ms : List Member)
    → count (is_user cid u) ms ≡ 1
    → is_group_member cid u ms ≡ some true
unfolding is_group_member
is_group_member-one cid u ms h = ground (arith, (keep_one (is_user cid u) ms h).1)

is_group_member-none :
    (cid u : ℕ) (ms : List Member)
    → count (is_user cid u) ms ≡ 0
    → is_group_member cid u ms ≡ some false
unfolding is_group_member
is_group_member-none cid u ms h = ground (arith, keep_none (is_user cid u) ms h)

-- Looking up a member never meets several rows.
pub is_group_member-count :
    (g : Group) (u : ℕ)
    → IsGroup g
    → is_group_member g.convo.id u g.members ≡ some (ltb 0 (count (is_user g.convo.id u) g.members))
is_group_member-count g u h = elim (Bool-cases (ltb 0 (count (is_user g.convo.id u) g.members))) [
  | inl e ↦
      is_group_member-one g.convo.id u g.members (ground (arith, h.once u))
      ∙ ap (λ b. some b) (sym e)
  | inr e ↦ is_group_member-none g.convo.id u g.members (ground arith) ∙ ap (λ b. some b) (sym e)
]

append_nil : (ts : List Text) → ts ++ [] ≡ ts
append_nil [] = refl
append_nil (t ∷ ts) = ap (λ us. t ∷ us) (append_nil ts)

-- What adding a person gives.
abbrev pub Joined : Group → ℕ → Group → Type 0
Joined g u h =
    IsGroup h
    × (h.convo ≡ g.convo)
    × ((v : ℕ)
        → is_group_member g.convo.id v h.members
          ≡ (if u == v then some true else is_group_member g.convo.id v g.members))

add_absent :
    (g : Group) (u : ℕ) (role : Text)
    → IsGroup g
    → count (is_user g.convo.id u) g.members ≡ 0
    → let row = human g.convo.id u role in
      Joined g u (record { convo = g.convo; members = g.members ++ row ∷ [] })
unfolding group_agents
add_absent g u role h z =
    let cid = g.convo.id in
    let row = human cid u role in
    let after : Group = record { convo = g.convo; members = g.members ++ row ∷ [] } in
    let counted : (v : ℕ)
        → count (is_user cid v) (g.members ++ row ∷ [])
          ≡ count (is_user cid v) g.members + (if u == v then 1 else 0) =
      λ v.
        ground
          (arith, count-append (is_user cid v) g.members (row ∷ []), nat_has_eq.same_iff u v) in
    let good : IsGroup after = record {
      plain = All-append (λ m. is_plain m ≡ true) g.members (row ∷ []) h.plain (refl, tt);
      once = λ v. ground (arith, counted v, h.once v, nat_has_eq.same_iff u v, z);
      named_once =
          λ a. ground (arith, count-append (is_agent cid a) g.members (row ∷ []), h.named_once a);
      synced =
          group_agents-append cid g.members (row ∷ [])
          ∙ rw (==_refl cid, append_nil (group_agents cid g.members)) h.synced;
    } in
    (
      good,
      refl,
      λ v. ground (
        arith,
        is_group_member-count after v good,
        is_group_member-count g v h,
        counted v,
        z,
        nat_has_eq.same_iff u v,
      ),
    )

-- To a well-formed group a person can always be added, and is a member then; nobody else's
-- membership changes, nor does the conversation, and the group stays well formed.
pub add_group_member-Joined :
    (g : Group) (u : ℕ) (role : Text)
    → IsGroup g
    → (h : Group) × (add_group_member (some u) none role g ≡ some h) × Joined g u h
unfolding add_group_member
add_group_member-Joined g u role ok =
    let cid = g.convo.id in
    let rows = keep-row_user cid u g.members ok.plain in
    elim (Bool-cases (ltb 0 (count (is_user cid u) g.members))) [
      | inl e ↦
          let (m, one) = keep_one (is_user cid u) g.members (ground (arith, ok.once u)) in
          (
            g,
            ground (arith, rows, one),
            (
              ok,
              refl,
              λ v. ground (arith, is_group_member-count g u ok, e, nat_has_eq.same_iff u v),
            ),
          )
      | inr e ↦ (
        record { convo = g.convo; members = g.members ++ human cid u role ∷ [] },
        ground (arith, rows, keep_none (is_user cid u) g.members),
        add_absent g u role ok (ground arith),
      )
    ]
