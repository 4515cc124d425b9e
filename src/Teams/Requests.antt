-- ===== src/Teams/Requests.antt =====
-- The requests that change the tables, one handler for each, and who may make them. Creating a team,
-- uploading knowledge and documents and clearing the channel are left out.
use hermes_python.Prelude.{
  ℕ, Bool, true, false, Option, none, some, String, List, [], ◌∷◌, ◌==◌, string_has_eq,
}
use hermes_python.Governance.{Policy, can}
use hermes_python.Http.{Reply, or_unchanged}
use hermes_python.Teams.{TeamMember, Tables, team_of, membership, is_manager}
use hermes_python.Teams.Membership.{
  add_member, update_member, remove_member, generate_invite_token, join_by_token,
}
use hermes_python.Teams.Settings.{
  update_team, delete_team, set_channel_mode, put_policy, set_shared_agents, set_shared_profiles,
}
use hermes_python.Teams.Content.{add_knowledge, delete_knowledge, update_knowledge}
use hermes_python.Teams.Projects.{
  project_of, task_of, doc_of, create_project, set_project_members, update_project, delete_project,
  create_task, update_task, delete_task, add_doc, delete_doc,
}

-- In each the first number is the user who calls.
pub data Request : Type 0 where
  adds_member : ℕ → ℕ → String → String → Request
  updates_member : ℕ → ℕ → ℕ → String → Request
  removes_member : ℕ → ℕ → ℕ → Request
  invites : ℕ → ℕ → String → String → Option ℕ → Request
  joins : ℕ → String → ℕ → Request
  updates_team : ℕ → ℕ → Option String → Request
  deletes_team : ℕ → ℕ → Request
  sets_channel : ℕ → ℕ → String → Request
  puts_policy : ℕ → ℕ → Policy → Request
  shares_agents : ℕ → ℕ → List String → Request
  shares_profiles : ℕ → ℕ → List String → Request
  adds_knowledge : ℕ → ℕ → ℕ → String → Option String → Request
  deletes_knowledge : ℕ → ℕ → ℕ → Request
  updates_knowledge : ℕ → ℕ → ℕ → Option String → Option String → Request
  creates_project : ℕ → ℕ → ℕ → String → Request
  sets_project_members : ℕ → ℕ → List ℕ → Request
  updates_project : ℕ → ℕ → Option String → Request
  deletes_project : ℕ → ℕ → Request
  creates_task : ℕ → ℕ → ℕ → String → Request
  updates_task : ℕ → ℕ → Option String → Option String → Request
  deletes_task : ℕ → ℕ → Request
  adds_doc : ℕ → ℕ → ℕ → String → Request
  deletes_doc : ℕ → ℕ → Request

unfoldable pub handle : Request → Tables → Reply Tables
handle (adds_member a t email role) d = add_member a t email role d
handle (updates_member a t u role) d = update_member a t u role d
handle (removes_member a t u) d = remove_member a t u d
handle (invites a t token role expires) d = generate_invite_token a t token role expires d
handle (joins a token now) d = join_by_token a token now d
handle (updates_team a t name) d = update_team a t name d
handle (deletes_team a t) d = delete_team a t d
handle (sets_channel a t mode) d = set_channel_mode a t mode d
handle (puts_policy a t policy) d = put_policy a t policy d
handle (shares_agents a t ids) d = set_shared_agents a t ids d
handle (shares_profiles a t ids) d = set_shared_profiles a t ids d
handle (adds_knowledge a t k name content) d = add_knowledge a t k name content d
handle (deletes_knowledge a t k) d = delete_knowledge a t k d
handle (updates_knowledge a t k name content) d = update_knowledge a t k name content d
handle (creates_project a t p name) d = create_project a t p name d
handle (sets_project_members a p ids) d = set_project_members a p ids d
handle (updates_project a p name) d = update_project a p name d
handle (deletes_project a p) d = delete_project a p d
handle (creates_task a p k title) d = create_task a p k title d
handle (updates_task a k title status) d = update_task a k title status d
handle (deletes_task a k) d = delete_task a k d
handle (adds_doc a p k name) d = add_doc a p k name d
handle (deletes_doc a k) d = delete_doc a k d

-- The tables after a request: an error writes nothing.
abbrev pub after : Request → Tables → Tables
after r d = or_unchanged d (handle r d)

unfoldable pub after_all : List Request → Tables → Tables
after_all [] d = d
after_all (r ∷ rs) d = after_all rs (after r d)

-- The caller is a member of the team whose role has the permission.
unfoldable pub permits : Tables → ℕ → ℕ → String → Bool
permits d t u perm = elim (team_of t d) [
  | none ↦ false
  | some team ↦ elim (membership t u d.members) [
    | none ↦ false
    | some m ↦ can team.policy perm m.role
  ]
]

unfoldable pub has_member : Tables → ℕ → ℕ → (TeamMember → Bool) → Bool
has_member d t u p = elim (team_of t d) [
  | none ↦ false
  | some team ↦ elim (membership t u d.members) [ none ↦ false | some m ↦ p m ]
]

abbrev pub manages : Tables → ℕ → ℕ → Bool
manages d t u = has_member d t u is_manager

abbrev pub edits : Tables → ℕ → ℕ → String → Bool
edits d p u perm = elim (project_of p d) [ none ↦ false | some x ↦ permits d x.team_id u perm ]

-- Who may make a request: the rule that the module's head states, for each of them.
abbrev pub allowed : Request → Tables → Bool
allowed (adds_member a t email role) d = permits d t a "member.invite"
allowed (updates_member a t u role) d = permits d t a "member.role"
allowed (removes_member a t u) d = permits d t a "member.remove"
allowed (invites a t token role expires) d = manages d t a
allowed (joins a token now) d = true
allowed (updates_team a t name) d = manages d t a
allowed (deletes_team a t) d = has_member d t a (λ m. m.role == "owner")
allowed (sets_channel a t mode) d = manages d t a
allowed (puts_policy a t policy) d = manages d t a
allowed (shares_agents a t ids) d = permits d t a "agent.manage"
allowed (shares_profiles a t ids) d = permits d t a "agent.manage"
allowed (adds_knowledge a t k name content) d = permits d t a "knowledge.upload"
allowed (deletes_knowledge a t k) d = permits d t a "knowledge.delete"
allowed (updates_knowledge a t k name content) d = permits d t a "knowledge.upload"
allowed (creates_project a t p name) d = permits d t a "project.create"
allowed (sets_project_members a p ids) d = edits d p a "project.edit"
allowed (updates_project a p name) d = edits d p a "project.edit"
allowed (deletes_project a p) d = edits d p a "project.delete"
allowed (creates_task a p k title) d = edits d p a "project.edit"
allowed (updates_task a k title status) d = elim (task_of k d) [
  | none ↦ false
  | some x ↦ edits d x.project_id a "project.edit"
]
allowed (deletes_task a k) d = elim (task_of k d) [
  | none ↦ false
  | some x ↦ edits d x.project_id a "project.edit"
]
allowed (adds_doc a p k name) d = edits d p a "project.edit"
allowed (deletes_doc a k) d = elim (doc_of k d) [
  | none ↦ false
  | some x ↦ edits d x.project_id a "project.edit"
]
