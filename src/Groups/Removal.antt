-- ===== src/Groups/Removal.antt =====
-- Taking a person or an agent out of a group.
use hermes_python.Prelude.{
  ℕ, ◌-◌, ◌≤◌, ◌≡◌, ◌≢◌, refl, ◌∙◌, Bool, true, false, none, some, List, [], ◌∷◌, arith, ◌==◌,
  nat_has_eq, All, ltb, Option-cases, Bool-cases, inl, inr, if◌then◌else◌,
}
use hermes_python.Texts.Same.{text_has_eq}
use hermes_python.Groups.{
  Member, Group, group_agents, is_user, is_agent, is_group_member, remove_group_member,
  delete_first,
}
use hermes_python.Groups.Members.{
  count, is_plain, IsGroup, keep_none, keep_one, is_group_member-count,
}

pub count-delete_first :
    (p q : Member → Bool) (ms : List Member) → count q (delete_first p ms) ≤ count q ms
unfolding delete_first
count-delete_first p q [] = omega arith
count-delete_first p q (m ∷ ms) = ground (arith, count-delete_first p q ms)

delete_first-count :
    (p : Member → Bool) (ms : List Member) → count p (delete_first p ms) ≡ count p ms - 1
unfolding delete_first
delete_first-count p [] = omega arith
delete_first-count p (m ∷ ms) = ground (arith, delete_first-count p ms)

-- The first row of a person has no say in the rows of another.
delete_first_other :
    (cid u v : ℕ) (ms : List Member)
    → u ≢ v
    → count (is_user cid v) (delete_first (is_user cid u) ms) ≡ count (is_user cid v) ms
unfolding delete_first
delete_first_other cid u v [] h = refl
delete_first_other cid u v (m ∷ ms) h = elim (Option-cases m.user_id) [
  | inl e ↦ ground (arith, delete_first_other cid u v ms h)
  | inr (w, e) ↦
      ground
        (arith, delete_first_other cid u v ms h, nat_has_eq.same_iff w u, nat_has_eq.same_iff w v)
]

pub plain-delete_first :
    (p : Member → Bool) (ms : List Member)
    → All (λ m. is_plain m ≡ true) ms
    → All (λ m. is_plain m ≡ true) (delete_first p ms)
unfolding delete_first
plain-delete_first p [] h = tt
plain-delete_first p (m ∷ ms) h = ground (arith, plain-delete_first p ms h.1)

agents-delete_user :
    (cid u : ℕ) (ms : List Member)
    → All (λ m. is_plain m ≡ true) ms
    → group_agents cid (delete_first (is_user cid u) ms) ≡ group_agents cid ms
unfolding delete_first group_agents
agents-delete_user cid u [] h = refl
agents-delete_user cid u (m ∷ ms) h = elim (Option-cases m.user_id) [
  | inl e ↦ ground (arith, agents-delete_user cid u ms h.1)
  | inr (w, e) ↦ elim (Option-cases m.agent_id) [
    | inl f ↦ ground (arith, agents-delete_user cid u ms h.1)
    | inr (b, f) ↦ ground arith
  ]
]

-- What taking a person out gives.
abbrev pub Left : Group → ℕ → Group → Type 0
Left g u h =
    IsGroup h
    × (h.convo ≡ g.convo)
    × ((v : ℕ)
        → is_group_member g.convo.id v h.members
          ≡ (if u == v then some false else is_group_member g.convo.id v g.members))

remove_there :
    (g : Group) (u : ℕ)
    → IsGroup g
    → let rest = delete_first (is_user g.convo.id u) g.members in
      Left g u (record { convo = g.convo; members = rest })
remove_there g u ok =
    let cid = g.convo.id in
    let p = is_user cid u in
    let after : Group = record { convo = g.convo; members = delete_first p g.members } in
    let good : IsGroup after = record {
      plain = plain-delete_first p g.members ok.plain;
      once = λ v. omega (arith, count-delete_first p (is_user cid v) g.members, ok.once v);
      named_once =
          λ a. omega (arith, count-delete_first p (is_agent cid a) g.members, ok.named_once a);
      synced = agents-delete_user cid u g.members ok.plain ∙ ok.synced;
    } in
    (
      good,
      refl,
      λ v. elim (Bool-cases (u == v)) [
        | inl e ↦ ground (
          arith,
          is_group_member-count after v good,
          nat_has_eq.same_iff u v,
          delete_first-count p g.members,
          ok.once u,
        )
        | inr e ↦ ground (
          arith,
          is_group_member-count after v good,
          is_group_member-count g v ok,
          delete_first_other cid u v g.members,
          nat_has_eq.same_iff u v,
        )
      ],
    )

-- Taking a person out of a well-formed group never fails, ends that membership only, leaves the
-- conversation as it is and the group well formed.
pub remove_group_member-Left :
    (g : Group) (u : ℕ)
    → IsGroup g
    → (h : Group) × (remove_group_member (some u) none g ≡ some h) × Left g u h
unfolding remove_group_member
remove_group_member-Left g u ok =
    let cid = g.convo.id in
    elim (Bool-cases (ltb 0 (count (is_user cid u) g.members))) [
      | inl e ↦
          let (m, one) = keep_one (is_user cid u) g.members (ground (arith, ok.once u)) in
          (
            record { convo = g.convo; members = delete_first (is_user cid u) g.members },
            ground (arith, one),
            remove_there g u ok,
          )
      | inr e ↦ (
        g,
        ground (arith, keep_none (is_user cid u) g.members),
        (ok, refl, λ v. ground (arith, is_group_member-count g u ok, e, nat_has_eq.same_iff u v)),
      )
    ]
