-- ===== src/Groups/Tests.antt =====
-- A group of two people and an agent.
use hermes_python.Prelude.{
  ℕ, ◌≡◌, refl, contains, if◌then◌else◌, none, some, List, [], ◌∷◌, nat_has_eq,
}
use hermes_python.Texts.{Text, codes}
use hermes_python.Texts.Same.{text_has_eq}
use hermes_python.Groups.{
  Group, Conversation, Member, create_group, chosen_agents, add_group_member, remove_group_member,
  is_user, is_agent,
}
use hermes_python.Groups.Members.{count, IsGroup, Joined, add_group_member-Joined}
use hermes_python.Groups.Removal.{Left, remove_group_member-Left}
use hermes_python.Groups.Creation.{people_of, create_group-IsGroup}

abbrev made : Conversation × List Member
made = create_group [] 1 10 (codes "team") none (11 ∷ 10 ∷ 11 ∷ []) (codes "hermes" ∷ [])

abbrev group : Group
group = record { convo = made.0; members = made.1 }

create_group-IsGroup_example :
    IsGroup group
    × ((v : ℕ)
        → count (is_user 1 v) made.1
          ≡ (if contains v (people_of 10 none (11 ∷ 10 ∷ 11 ∷ [])) then 1 else 0))
    × ((a : Text)
        → count (is_agent 1 a) made.1
          ≡ (if contains a (chosen_agents [] none (codes "hermes" ∷ [])) then 1 else 0))
unfolding chosen_agents
create_group-IsGroup_example =
    create_group-IsGroup [] 1 10 (codes "team") none (11 ∷ 10 ∷ 11 ∷ []) (codes "hermes" ∷ [])
      (refl, refl, tt)

group-IsGroup : IsGroup group
unfolding chosen_agents
group-IsGroup =
    (create_group-IsGroup [] 1 10 (codes "team") none (11 ∷ 10 ∷ 11 ∷ []) (codes "hermes" ∷ [])
      (refl, refl, tt)).0

add_group_member-Joined_example :
    (h : Group) × (add_group_member (some 12) none (codes "member") group ≡ some h)
    × Joined group 12 h
add_group_member-Joined_example = add_group_member-Joined group 12 (codes "member") group-IsGroup

remove_group_member-Left_example :
    (h : Group) × (remove_group_member (some 11) none group ≡ some h) × Left group 11 h
remove_group_member-Left_example = remove_group_member-Left group 11 group-IsGroup
