-- ===== src/Groups.antt =====
-- The group chats of backend/app/services/conversation_service.py: rows of the table of group
-- members, in the order in which they joined, and the agents of a conversation.
pub mod Members
pub mod Mentions
pub mod Removal
pub mod Agents
pub mod Creation
mod Tests
use hermes_python.Prelude.{
  ℕ, zero, suc, ◌+◌, Bool, true, false, ◌&&◌, ◌||◌, not, Option, none, some, String, List, [], ◌∷◌,
  ◌++◌, HasEq, ◌==◌, nat_has_eq, contains, keep, find?, if◌then◌else◌,
}
use hermes_python.Texts.{Text, codes, is_empty, starts_with}
use hermes_python.Texts.Same.{text_has_eq, same_option}

pub record Member : Type 0 where
  pub conversation_id : ℕ
  pub user_id : Option ℕ
  pub agent_id : Option Text
  pub role : Text

pub record Conversation : Type 0 where
  pub id : ℕ
  pub owner_id : ℕ
  pub title : Text
  pub primary_agent_id : Text
  pub active_agent_ids : List Text
  pub channel_mode : Text
  pub visibility : Text
  pub team_id : Option ℕ
  pub profile_id : Option Text
  pub acp_session_id : Option Text

pub record Profile : Type 0 where
  pub id : Text
  pub name : Text
  pub handle : Text
  pub default_agent_id : Text
  pub is_active : Bool
  pub path : Option Text
  pub system_prompt : Option Text

pub record Team : Type 0 where
  pub id : ℕ
  pub channel_mode : Text
  pub shared_agents : List Text
  pub shared_profile_ids : List Text
  pub user_ids : List ℕ

-- `scalar_one_or_none`: `none` is the exception for several rows.
abbrev pub one_or_none : {A : Type 0} → List A → Option (Option A)
one_or_none [] = some none
one_or_none (x ∷ []) = some (some x)
one_or_none (x ∷ y ∷ ys) = none

abbrev pub or_else : {A : Type 0} → List A → List A → List A
or_else [] d = d
or_else (x ∷ xs) d = x ∷ xs

-- The agent of a row, if it is one: `m.agent_id for m in members if m.agent_id`
abbrev pub agent_of : Member → List Text
agent_of m = elim m.agent_id [ none ↦ [] | some a ↦ if is_empty a then [] else a ∷ [] ]

unfoldable pub group_agents : ℕ → List Member → List Text
group_agents cid [] = []
group_agents cid (m ∷ ms) =
    let rest = group_agents cid ms in if m.conversation_id == cid then agent_of m ++ rest else rest

unfoldable pub get_group_members : ℕ → List Member → List Member
get_group_members cid ms = keep (λ (m : Member). m.conversation_id == cid) ms

abbrev pub is_user : ℕ → ℕ → Member → Bool
is_user cid u m = m.conversation_id == cid && same_option m.user_id (some u)

-- `none` is the exception for several rows.
unfoldable pub is_group_member : ℕ → ℕ → List Member → Option Bool
is_group_member cid u ms = elim (one_or_none (keep (is_user cid u) ms)) [
  | none ↦ none
  | some none ↦ some false
  | some (some m) ↦ some true
]

abbrev pub human : ℕ → ℕ → Text → Member
human cid u role = record { conversation_id = cid; user_id = some u; agent_id = none; role = role }

abbrev pub bot : ℕ → Text → Member
bot cid a = record {
  conversation_id = cid;
  user_id = none;
  agent_id = some a;
  role = codes "member";
}

-- The other people, each once, none of those already added.
unfoldable pub add_humans : ℕ → List ℕ → List ℕ → List Member
add_humans cid added [] = []
add_humans cid added (u ∷ us) =
    let rest = add_humans cid (u ∷ added) us in
    let same = add_humans cid added us in
    if contains u added then same else human cid u (codes "member") ∷ rest

unfoldable pub add_bots : ℕ → List Text → List Member
add_bots cid [] = []
add_bots cid (a ∷ more) = bot cid a ∷ add_bots cid more

unfoldable pub add_shared : List Profile → List Text → List Text → List Text
add_shared profiles [] agents = agents
add_shared profiles (pid ∷ pids) agents =
    let same = add_shared profiles pids agents in
    elim (find? (λ (p : Profile). p.id == pid) profiles) [
      | none ↦ same
      | some p ↦
          let more = add_shared profiles pids (agents ++ p.default_agent_id ∷ []) in
          if is_empty p.default_agent_id || contains p.default_agent_id agents then same else more
    ]

abbrev pub hermes : List Text
hermes = codes "hermes" ∷ []

-- The agents of a new group, by those asked for and the team.
unfoldable pub chosen_agents : List Profile → Option Team → List Text → List Text
chosen_agents profiles none asked = or_else asked hermes
chosen_agents profiles (some t) asked =
    or_else
      (or_else asked (add_shared profiles t.shared_profile_ids (or_else t.shared_agents hermes)))
      hermes

abbrev pub chosen_humans : Option Team → List ℕ → List ℕ
chosen_humans none asked = asked
chosen_humans (some t) asked = or_else asked t.user_ids

abbrev pub first_or : Text → List Text → Text
first_or d [] = d
first_or d (a ∷ more) = a

-- The conversation and the rows that `create_group` adds.
unfoldable pub create_group :
    List Profile → ℕ → ℕ → Text → Option Team → List ℕ → List Text → Conversation × List Member
create_group profiles cid owner title team users asked =
    let agents = chosen_agents profiles team asked in
    (
      record {
        id = cid;
        owner_id = owner;
        title = title;
        primary_agent_id = first_or (codes "hermes") agents;
        active_agent_ids = agents;
        channel_mode = elim team [
          | none ↦ codes "mention"
          | some t ↦ if is_empty t.channel_mode then codes "mention" else t.channel_mode
        ];
        visibility = elim team [ none ↦ codes "private" | some t ↦ codes "team" ];
        team_id = elim team [ none ↦ none | some t ↦ some t.id ];
        profile_id = none;
        acp_session_id = none;
      },
      human cid owner (codes "admin") ∷ add_humans cid (owner ∷ []) (chosen_humans team users)
          ++ add_bots cid agents,
    )

abbrev pub is_row : ℕ → Option ℕ → Option Text → Member → Bool
is_row cid u a m = m.conversation_id == cid && (same_option m.user_id u && same_option m.agent_id a)

abbrev pub given : Option Text → List Text
given a = elim a [ none ↦ [] | some t ↦ if is_empty t then [] else t ∷ [] ]

pub record Group : Type 0 where
  pub convo : Conversation
  pub members : List Member

-- `if agent_id: ...` of `add_group_member`
abbrev pub activated : Option Text → Conversation → Conversation
activated a c = record c {
  active_agent_ids = elim (given a) [
    | [] ↦ c.active_agent_ids
    | t ∷ _ ↦
        if contains t c.active_agent_ids then c.active_agent_ids else c.active_agent_ids ++ t ∷ []
  ];
}

-- `none` is an exception: nobody is named, or there are several such rows.
unfoldable pub add_group_member : Option ℕ → Option Text → Text → Group → Option Group
add_group_member u a role g = elim u [
  | none ↦ elim (given a) [ [] ↦ none | t ∷ _ ↦ add_row none ]
  | some v ↦ add_row (some v)
]
  where
    add_row : Option ℕ → Option Group
    add_row w = elim (one_or_none (keep (is_row g.convo.id w a) g.members)) [
      | none ↦ none
      | some (some m) ↦ some g
      | some none ↦ some record {
        convo = activated a g.convo;
        members =
            g.members
            ++ record { conversation_id = g.convo.id; user_id = w; agent_id = a; role = role } ∷ [];
      }
    ]

unfoldable pub delete_first : (Member → Bool) → List Member → List Member
delete_first p [] = []
delete_first p (m ∷ ms) = let rest = delete_first p ms in if p m then ms else m ∷ rest

abbrev pub is_agent : ℕ → Text → Member → Bool
is_agent cid a m = m.conversation_id == cid && same_option m.agent_id (some a)

unfoldable pub remove_row : (Member → Bool) → List Text → Group → Option Group
remove_row p agent g = elim (one_or_none (keep p g.members)) [
  | none ↦ none
  | some none ↦ some g
  | some (some m) ↦ some record {
    convo = record g.convo {
      active_agent_ids = elim agent [
        | [] ↦ g.convo.active_agent_ids
        | a ∷ _ ↦ keep (λ b. not (b == a)) g.convo.active_agent_ids
      ];
    };
    members = delete_first p g.members;
  }
]

-- `none` is the exception for several rows.
unfoldable pub remove_group_member : Option ℕ → Option Text → Group → Option Group
unfolding remove_row
remove_group_member (some u) a g = remove_row (is_user g.convo.id u) (given a) g
remove_group_member none a g = elim (given a) [
  | [] ↦ some g
  | t ∷ ts ↦ remove_row (is_agent g.convo.id t) (t ∷ ts) g
]
