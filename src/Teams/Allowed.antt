-- ===== src/Teams/Allowed.antt =====
-- A request changes something only for those who may make it.
use hermes_python.Prelude.{
  ℕ, ◌≡◌, refl, Bool, true, String, arith, Option-cases, inl, inr, Bool-cases, ◌==◌, string_has_eq,
}
use hermes_python.Governance.{can}
use hermes_python.Http.{Reply, ok, http, check, is_ok, ◌>>=◌, ◌>>◌}
use hermes_python.Teams.{
  Team, TeamMember, Project, Tables, team_of, membership, is_manager, require_membership,
  require_permission, require_manager,
}
use hermes_python.Teams.Membership.{add_member, update_member, remove_member, generate_invite_token}
use hermes_python.Teams.Settings.{
  update_team, delete_team, set_channel_mode, put_policy, set_shared_agents, set_shared_profiles,
}
use hermes_python.Teams.Content.{add_knowledge, delete_knowledge, update_knowledge}
use hermes_python.Teams.Projects.{
  project_of, task_of, doc_of, project_with_perm, create_project, set_project_members,
  update_project, delete_project, create_task, update_task, delete_task, add_doc, delete_doc,
}
use hermes_python.Teams.Requests.{
  Request, adds_member, updates_member, removes_member, invites, joins, updates_team, deletes_team,
  sets_channel, puts_policy, shares_agents, shares_profiles, adds_knowledge, deletes_knowledge,
  updates_knowledge, creates_project, sets_project_members, updates_project, deletes_project,
  creates_task, updates_task, deletes_task, adds_doc, deletes_doc, handle, permits, has_member,
  edits, allowed,
}

module _ {ℓ} {A : Type ℓ} (d : Tables) where
  ok-require_membership :
      (t u : ℕ) (p : TeamMember → Bool) (f : Team × TeamMember → Reply A)
      → ((x : Team × TeamMember) → is_ok (f x) ≡ true → p x.1 ≡ true)
      → is_ok (require_membership d t u >>= f) ≡ true
      → has_member d t u p ≡ true
  unfolding require_membership has_member
  ok-require_membership t u p f rest h = elim (Option-cases (team_of t d)) [
    | inl e ↦ ground (arith, rw (e, require_membership) at h)
    | inr (team, e) ↦ elim (Option-cases (membership t u d.members)) [
      | inl g ↦ ground (arith, rw (e, g, require_membership) at h)
      | inr (m, g) ↦ rw (e, g, has_member) (rest (team, m) (rw (e, g, require_membership) at h))
    ]
  ]

  ok-require_manager :
      (t u : ℕ) (f : Team × TeamMember → Reply A)
      → is_ok (require_manager d t u >>= f) ≡ true
      → has_member d t u is_manager ≡ true
  unfolding require_manager require_membership has_member
  ok-require_manager t u f h = elim (Option-cases (team_of t d)) [
    | inl e ↦ ground (arith, rw (e, require_manager, require_membership) at h)
    | inr (team, e) ↦ elim (Option-cases (membership t u d.members)) [
      | inl g ↦ ground (arith, rw (e, g, require_manager, require_membership) at h)
      | inr (m, g) ↦ elim (Bool-cases (is_manager m)) [
        | inl y ↦ rw (e, g, has_member) y
        | inr n ↦ ground (arith, rw (e, g, n, require_manager, require_membership) at h)
      ]
    ]
  ]

  pub ok-require_permission :
      (t u : ℕ) (perm : String) (f : Team × TeamMember → Reply A)
      → is_ok (require_permission d t u perm >>= f) ≡ true
      → permits d t u perm ≡ true
  unfolding require_permission require_membership permits
  ok-require_permission t u perm f h = elim (Option-cases (team_of t d)) [
    | inl e ↦ ground (arith, rw (e, require_permission, require_membership) at h)
    | inr (team, e) ↦ elim (Option-cases (membership t u d.members)) [
      | inl g ↦ ground (arith, rw (e, g, require_permission, require_membership) at h)
      | inr (m, g) ↦ elim (Bool-cases (can team.policy perm m.role)) [
        | inl y ↦ rw (e, g, permits) y
        | inr n ↦ ground (arith, rw (e, g, n, require_permission, require_membership) at h)
      ]
    ]
  ]

  ok-project_with_perm :
      (p u : ℕ) (perm : String) (f : Project → Reply A)
      → is_ok (project_with_perm d p u perm >>= f) ≡ true
      → edits d p u perm ≡ true
  unfolding project_with_perm
  ok-project_with_perm p u perm f h = elim (Option-cases (project_of p d)) [
    | inl e ↦ ground (arith, rw (e, project_with_perm) at h)
    | inr (x, e) ↦
        rw (e, edits)
          (by_permission x (require_permission d x.team_id u perm) refl
            (rw (e, project_with_perm) at h))
  ]
    where
      by_permission :
          (x : Project) (r : Reply (Team × TeamMember))
          → require_permission d x.team_id u perm ≡ r
          → is_ok ((require_permission d x.team_id u perm >>= λ got. ok x) >>= f) ≡ true
          → permits d x.team_id u perm ≡ true
      by_permission x (ok got) e k =
          ok-require_permission x.team_id u perm (λ got. f x) (rw e (rw e at k))
      by_permission x (http s) e k = ground (arith, rw e at k)

-- Of the requests of Teams/Requests, one that is not refused, other than a join, which asks nothing of
-- its maker, is made by a member of the team whose role has the permission that is asked for, by a manager
-- or by an owner, as the request asks.
pub handle-allowed : (r : Request) (d : Tables) → is_ok (handle r d) ≡ true → allowed r d ≡ true
unfolding handle add_member update_member remove_member generate_invite_token update_team
    delete_team set_channel_mode put_policy set_shared_agents set_shared_profiles add_knowledge
    delete_knowledge update_knowledge create_project set_project_members update_project
    delete_project create_task update_task delete_task add_doc delete_doc
handle-allowed (adds_member a t email role) d h = ok-require_permission d t a "member.invite" _ h
handle-allowed (updates_member a t u role) d h = ok-require_permission d t a "member.role" _ h
handle-allowed (removes_member a t u) d h = ok-require_permission d t a "member.remove" _ h
handle-allowed (invites a t token role expires) d h = ok-require_manager d t a _ h
handle-allowed (joins a token now) d h = refl
handle-allowed (updates_team a t name) d h = ok-require_manager d t a _ h
handle-allowed (deletes_team a t) d h =
    ok-require_membership d t a (λ m. m.role == "owner") _ (λ x k. owner _ x.1.role k) h
  where
    owner :
        (new : Tables) (role : String)
        → is_ok (check (role == "owner") 403 >> ok new) ≡ true
        → (role == "owner") ≡ true
    owner new role k = elim (Bool-cases (role == "owner")) [
      | inl y ↦ y
      | inr n ↦ ground (arith, rw n at k)
    ]
handle-allowed (sets_channel a t mode) d h = ok-require_manager d t a _ h
handle-allowed (puts_policy a t policy) d h = ok-require_manager d t a _ h
handle-allowed (shares_agents a t ids) d h = ok-require_permission d t a "agent.manage" _ h
handle-allowed (shares_profiles a t ids) d h = ok-require_permission d t a "agent.manage" _ h
handle-allowed (adds_knowledge a t k name content) d h =
    ok-require_permission d t a "knowledge.upload" _ h
handle-allowed (deletes_knowledge a t k) d h = ok-require_permission d t a "knowledge.delete" _ h
handle-allowed (updates_knowledge a t k name content) d h =
    ok-require_permission d t a "knowledge.upload" _ h
handle-allowed (creates_project a t p name) d h = ok-require_permission d t a "project.create" _ h
handle-allowed (sets_project_members a p ids) d h = ok-project_with_perm d p a "project.edit" _ h
handle-allowed (updates_project a p name) d h = ok-project_with_perm d p a "project.edit" _ h
handle-allowed (deletes_project a p) d h = ok-project_with_perm d p a "project.delete" _ h
handle-allowed (creates_task a p k title) d h = ok-project_with_perm d p a "project.edit" _ h
handle-allowed (updates_task a k title status) d h = elim (Option-cases (task_of k d)) [
  | inl e ↦ ground (arith, rw (e, update_task) at h)
  | inr (x, e) ↦
      rw (e, allowed)
        (ok-project_with_perm d x.project_id a "project.edit" _ (rw (e, update_task) at h))
]
handle-allowed (deletes_task a k) d h = elim (Option-cases (task_of k d)) [
  | inl e ↦ ground (arith, rw (e, delete_task) at h)
  | inr (x, e) ↦
      rw (e, allowed)
        (ok-project_with_perm d x.project_id a "project.edit" _ (rw (e, delete_task) at h))
]
handle-allowed (adds_doc a p k name) d h = ok-project_with_perm d p a "project.edit" _ h
handle-allowed (deletes_doc a k) d h = elim (Option-cases (doc_of k d)) [
  | inl e ↦ ground (arith, rw (e, delete_doc) at h)
  | inr (x, e) ↦
      rw (e, allowed)
        (ok-project_with_perm d x.project_id a "project.edit" _ (rw (e, delete_doc) at h))
]
