-- ===== src/Groups/Agents.antt =====
-- Adding an agent to a group, and taking it out: the active agents follow the rows.
use hermes_python.Prelude.{
  ℕ, ◌≤◌, ◌≡◌, refl, ◌∙◌, subst, true, false, not, none, some, List, [], ◌∷◌, ◌++◌, arith, ◌==◌,
  nat_has_eq, ==_refl, contains, keep, All, All-append, ltb, Option-cases, Bool-cases, inl, inr,
}
use hermes_python.Texts.{Text, is_empty}
use hermes_python.Texts.Prefix.{text_eq_refl}
use hermes_python.Texts.Same.{text_has_eq, text_eq_iff}
use hermes_python.Groups.{
  Member, Conversation, Group, one_or_none, group_agents, is_user, is_agent, activated,
  add_group_member, remove_group_member, remove_row, delete_first,
}
use hermes_python.Groups.Members.{
  count, count-append, is_plain, IsGroup, keep_none, keep_one, keep-row_agent, group_agents-append,
  text_eq_comm, contains-group_agents,
}
use hermes_python.Groups.Removal.{count-delete_first, plain-delete_first}

contains-append_last : (a : Text) (ts : List Text) → contains a (ts ++ a ∷ []) ≡ true
contains-append_last a [] = ground (arith, text_eq_refl a)
contains-append_last a (t ∷ ts) = ground (arith, contains-append_last a ts)

contains-keep_out : (a : Text) (ts : List Text) → contains a (keep (λ b. not (b == a)) ts) ≡ false
contains-keep_out a [] = refl
contains-keep_out a (t ∷ ts) = ground (arith, contains-keep_out a ts, text_eq_comm a t)

activated-new :
    (a : Text) (c : Conversation)
    → is_empty a ≡ false
    → contains a c.active_agent_ids ≡ false
    → (activated (some a) c).active_agent_ids ≡ c.active_agent_ids ++ a ∷ []
activated-new a c named absent = ground arith

remove_named :
    (g : Group) (a : Text) (m : Member)
    → is_empty a ≡ false
    → one_or_none (keep (is_agent g.convo.id a) g.members) ≡ some (some m)
    → remove_group_member none (some a) g
      ≡ some record {
        convo = record g.convo {
          active_agent_ids = keep (λ b. not (b == a)) g.convo.active_agent_ids;
        };
        members = delete_first (is_agent g.convo.id a) g.members;
      }
unfolding remove_group_member remove_row
remove_named g [] m named one = ground arith
remove_named g (c ∷ t) m named one = rw (one, remove_row) refl

remove_absent :
    (g : Group) (a : Text)
    → is_empty a ≡ false
    → keep (is_agent g.convo.id a) g.members ≡ []
    → remove_group_member none (some a) g ≡ some g
unfolding remove_group_member remove_row
remove_absent g [] named no_row = ground arith
remove_absent g (c ∷ t) named no_row = rw (no_row, remove_row) refl

-- What adding an agent gives: a group in which it is active.
abbrev pub IsActive : Text → Group → Type 0
IsActive a h = IsGroup h × (contains a h.convo.active_agent_ids ≡ true)

add_absent_agent :
    (g : Group) (a role : Text)
    → is_empty a ≡ false
    → IsGroup g
    → count (is_agent g.convo.id a) g.members ≡ 0
    → let row : Member = record {
      conversation_id = g.convo.id;
      user_id = none;
      agent_id = some a;
      role = role;
    } in
      IsActive a (record { convo = activated (some a) g.convo; members = g.members ++ row ∷ [] })
unfolding group_agents
add_absent_agent g a role named ok z =
    let cid = g.convo.id in
    let row : Member = record {
      conversation_id = cid;
      user_id = none;
      agent_id = some a;
      role = role;
    } in
    let absent : contains a g.convo.active_agent_ids ≡ false =
      subst (λ ts. contains a ts ≡ false) ok.synced
        (ground (arith, contains-group_agents cid a g.members ok.plain)) in
    let listed : (activated (some a) g.convo).active_agent_ids
        ≡ g.convo.active_agent_ids ++ a ∷ [] =
      activated-new a g.convo named absent in
    (
      record {
        plain =
            All-append (λ m. is_plain m ≡ true) g.members (row ∷ []) ok.plain (ground arith, tt);
        once = λ v. ground (arith, count-append (is_user cid v) g.members (row ∷ []), ok.once v);
        named_once = λ b. ground (
          arith,
          count-append (is_agent cid b) g.members (row ∷ []),
          ok.named_once b,
          text_eq_iff a b,
          z,
        );
        synced =
            group_agents-append cid g.members (row ∷ [])
            ∙ rw (==_refl cid, named, listed, ok.synced) refl;
      },
      rw listed (contains-append_last a g.convo.active_agent_ids),
    )

-- To a well-formed group a named agent can always be added, and is active then; the group stays
-- well formed.
pub add_group_member-IsActive :
    (g : Group) (a role : Text)
    → is_empty a ≡ false
    → IsGroup g
    → (h : Group) × (add_group_member none (some a) role g ≡ some h) × IsActive a h
unfolding add_group_member
add_group_member-IsActive g a role named ok =
    let cid = g.convo.id in
    let rows = keep-row_agent cid a g.members ok.plain in
    elim (Bool-cases (ltb 0 (count (is_agent cid a) g.members))) [
      | inl e ↦
          let (m, one) = keep_one (is_agent cid a) g.members (ground (arith, ok.named_once a)) in
          (
            g,
            ground (arith, rows, one),
            (
              ok,
              subst (λ ts. contains a ts ≡ true) ok.synced
                  (contains-group_agents cid a g.members ok.plain ∙ e),
            ),
          )
      | inr e ↦ (
        record {
          convo = activated (some a) g.convo;
          members =
              g.members
              ++ record { conversation_id = cid; user_id = none; agent_id = some a; role = role }
                ∷ [];
        },
        ground (arith, rows, keep_none (is_agent cid a) g.members),
        add_absent_agent g a role named ok (ground arith),
      )
    ]

keep-group_agents :
    (cid : ℕ) (a : Text) (ms : List Member)
    → All (λ m. is_plain m ≡ true) ms
    → count (is_agent cid a) ms ≡ 0
    → keep (λ b. not (b == a)) (group_agents cid ms) ≡ group_agents cid ms
unfolding group_agents
keep-group_agents cid a [] h z = refl
keep-group_agents cid a (m ∷ ms) h z = elim (Option-cases m.agent_id) [
  | inl e ↦ ground (arith, keep-group_agents cid a ms h.1)
  | inr (b, e) ↦ ground (arith, keep-group_agents cid a ms h.1)
]

agents-delete_agent :
    (cid : ℕ) (a : Text) (ms : List Member)
    → All (λ m. is_plain m ≡ true) ms
    → count (is_agent cid a) ms ≤ 1
    → group_agents cid (delete_first (is_agent cid a) ms)
      ≡ keep (λ b. not (b == a)) (group_agents cid ms)
unfolding delete_first group_agents
agents-delete_agent cid a [] h z = refl
agents-delete_agent cid a (m ∷ ms) h z = elim (Option-cases m.agent_id) [
  | inl e ↦ ground (arith, agents-delete_agent cid a ms h.1)
  | inr (b, e) ↦ ground (arith, agents-delete_agent cid a ms h.1, keep-group_agents cid a ms h.1)
]

-- Taking a named agent out of a well-formed group never fails, and it is active no more; the group
-- stays well formed.
pub remove_group_member_agent :
    (g : Group) (a : Text)
    → is_empty a ≡ false
    → IsGroup g
    → (h : Group) × (remove_group_member none (some a) g ≡ some h)
      × (IsGroup h × (contains a h.convo.active_agent_ids ≡ false))
remove_group_member_agent g a named ok =
    let cid = g.convo.id in
    let p = is_agent cid a in
    elim (Bool-cases (ltb 0 (count p g.members))) [
      | inl e ↦
          let (m, one) = keep_one p g.members (ground (arith, ok.named_once a)) in
          (
            record {
              convo = record g.convo {
                active_agent_ids = keep (λ b. not (b == a)) g.convo.active_agent_ids;
              };
              members = delete_first p g.members;
            },
            remove_named g a m named one,
            (
              record {
                plain = plain-delete_first p g.members ok.plain;
                once =
                    λ v. omega (arith, count-delete_first p (is_user cid v) g.members, ok.once v);
                named_once = λ b.
                    omega (arith, count-delete_first p (is_agent cid b) g.members, ok.named_once b);
                synced =
                    agents-delete_agent cid a g.members ok.plain (ok.named_once a)
                    ∙ rw ok.synced refl;
              },
              contains-keep_out a g.convo.active_agent_ids,
            ),
          )
      | inr e ↦ (
        g,
        remove_absent g a named (keep_none p g.members (ground arith)),
        (
          ok,
          subst (λ ts. contains a ts ≡ false) ok.synced
              (ground (arith, contains-group_agents cid a g.members ok.plain)),
        ),
      )
    ]
