-- ===== src/Routing/Dispatch.antt =====
-- `dispatch` and `dispatch_group`. The directory of a profile's path is computed by os.path, and
-- is a parameter, as is the order in which Python lists a set.
use hermes_python.Prelude.{
  ℕ, Bool, true, false, ◌||◌, Option, none, some, List, [], ◌∷◌, ◌==◌, contains, find?,
  if◌then◌else◌,
}
use hermes_python.Texts.{Text, codes, is_empty}
use hermes_python.Texts.Same.{text_has_eq}
use hermes_python.Groups.{Conversation, Member, Profile, group_agents, or_else, hermes, first_or}
use hermes_python.Groups.Mentions.{all_humans, resolve_mentions, stands_for}
use hermes_python.Routing.{
  Chat, Settings, Turn, Memory, build_memory_prompt, either, add_section, anti_clarify,
}
use hermes_python.Routing.Sending.{send_user_only, send_message, send_roundtable}

-- What the database and Python hold for a call.
pub record Context : Type 0 where
  pub settings : Settings
  pub profiles : List Profile
  pub members : List Member
  pub memory : ℕ → Option Memory
  pub dirname : Text → Text
  pub set_list : List Text → List Text

abbrev pub nonempty : Option Text → Option Text
nonempty none = none
nonempty (some t) = if is_empty t then none else some t

unfoldable pub profile_of : Context → Option Text → Option Profile
profile_of x id = elim (nonempty id) [
  | none ↦ none
  | some i ↦ find? (λ (p : Profile). p.id == i) x.profiles
]

unfoldable pub system_prompt_of : Option Profile → Option Text
system_prompt_of none = none
system_prompt_of (some p) = nonempty p.system_prompt

-- `_profile_dir`
unfoldable pub profile_dir_of : Context → Option Profile → Option Text
profile_dir_of x none = none
profile_dir_of x (some p) = elim (nonempty p.path) [ none ↦ none | some t ↦ some (x.dirname t) ]

abbrev pub memory_of : Context → Turn → Option Text
memory_of x t = elim t.owner_id [ none ↦ none | some u ↦ build_memory_prompt (x.memory u) ]

-- The guidance for the turns after the first.
abbrev pub follow_up : Conversation → Bool → Option Text
follow_up c alone = elim (nonempty c.acp_session_id) [
  | none ↦ none
  | some i ↦ if alone then some anti_clarify else none
]

unfoldable pub prompt_for : Context → Turn → Conversation → Option Profile → Bool → Option Text
prompt_for x t c profile alone =
    add_section (add_section (system_prompt_of profile) (memory_of x t)) (follow_up c alone)

-- `convo.active_agent_ids or [convo.primary_agent_id]`
abbrev pub active_agents : Conversation → List Text
active_agents c = elim c.active_agent_ids [ [] ↦ c.primary_agent_id ∷ [] | a ∷ more ↦ a ∷ more ]

unfoldable pub dispatch : Context → Turn → Bool → Option Text → Chat → Chat
dispatch x t skip_agent override c =
    let profile = profile_of x (either override c.convo.profile_id) in
    let agents = active_agents c.convo in
    let one =
      send_message x.settings t (prompt_for x t c.convo profile true) (profile_dir_of x profile)
        false c in
    let many =
      send_roundtable t agents [] (prompt_for x t c.convo profile false) (profile_dir_of x profile)
        c in
    if skip_agent
    then send_user_only t [] c
    else elim agents [ [] ↦ one | a ∷ [] ↦ one | a ∷ b ∷ more ↦ many ]

-- The profile for one agent of a group: that asked for, else the agent's, else the conversation's.
unfoldable pub group_profile : Context → Conversation → Option Text → Text → Option Profile
group_profile x c override agent = elim (nonempty override) [
  | some o ↦ profile_of x (some o)
  | none ↦ elim (find? (stands_for agent) x.profiles) [
    | some p ↦ profile_of x (some p.id)
    | none ↦ profile_of x c.profile_id
  ]
]

-- `getattr(convo, "channel_mode", "mention") or "mention"`
abbrev pub mode_of : Conversation → Text
mode_of c = if is_empty c.channel_mode then codes "mention" else c.channel_mode

-- A message that no agent is to answer.
unfoldable pub is_silent : Conversation → List Text → Bool → Bool
is_silent c mentions skip_agent =
    mode_of c == codes "off" || skip_agent || contains all_humans mentions

-- The agents that are to answer: those mentioned, or in mode `always` everyone.
unfoldable pub responders : Context → Conversation → List Text → List Text
responders x c mentions = elim (resolve_mentions x.set_list x.profiles c.id x.members mentions) [
  | [] ↦ if mode_of c == codes "always" then group_agents c.id x.members else []
  | a ∷ more ↦ a ∷ more
]

unfoldable pub dispatch_group : Context → Turn → List Text → Bool → Option Text → Chat → Chat
dispatch_group x t mentions skip_agent override c =
    let profile = profile_of x (either override c.convo.profile_id) in
    let quiet = send_user_only t mentions c in
    elim (is_silent c.convo mentions skip_agent) [
      | true ↦ quiet
      | false ↦ elim (responders x c.convo mentions) [
        | [] ↦ quiet
        | a ∷ [] ↦
            let own = group_profile x c.convo override a in
            send_message x.settings t (prompt_for x t c.convo own true) (profile_dir_of x own) true
              quiet
        | a ∷ b ∷ more ↦
            send_roundtable t (a ∷ b ∷ more) mentions (prompt_for x t c.convo profile false)
              (profile_dir_of x profile) c
      ]
    ]

unfoldable pub set_active_agents : List Text → Conversation → Conversation
set_active_agents ids c =
    let agents = or_else ids hermes in
    record c { active_agent_ids = agents; primary_agent_id = first_or [] agents }
