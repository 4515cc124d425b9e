-- ===== src/Teams/Owners.antt =====
-- A team never loses an owner, but by its deletion.
use hermes_python.Prelude.{
  ℕ, ◌≡◌, ◌≢◌, true, false, not, ◌||◌, some, String, List, [], ◌∷◌, Option-cases, Bool-cases, inl,
  inr, ◌==◌, nat_has_eq, string_has_eq, find?,
}
use hermes_python.Http.{Reply, ok, http, check, found, or_unchanged, ◌>>=◌, ◌>>◌}
use hermes_python.Teams.{
  Team, TeamMember, User, Tables, membership, require_membership, require_manager,
  require_permission,
}
use hermes_python.Teams.Membership.{
  add_row, update_member_role, remove_row, add_member, update_member, remove_member,
  generate_invite_token, join_by_token, has_token, is_expired, is_none,
}
use hermes_python.Teams.Settings.{
  update_team, delete_team, set_channel_mode, put_policy, set_shared_agents, set_shared_profiles,
}
use hermes_python.Teams.Content.{entry, add_knowledge, delete_knowledge, update_knowledge}
use hermes_python.Teams.Projects.{
  task_of, doc_of, project_with_perm, create_project, set_project_members, update_project,
  delete_project, create_task, update_task, delete_task, add_doc, delete_doc,
}
use hermes_python.Teams.Requests.{
  Request, adds_member, updates_member, removes_member, invites, joins, updates_team, deletes_team,
  sets_channel, puts_policy, shares_agents, shares_profiles, adds_knowledge, deletes_knowledge,
  updates_knowledge, creates_project, sets_project_members, updates_project, deletes_project,
  creates_task, updates_task, deletes_task, adds_doc, deletes_doc, handle, after, after_all,
}
use hermes_python.Teams.Rows.{
  is_owner, is_owner-append, is_owner-set_role, is_owner-without_row, is_owner-keep_other,
}

-- The request is not the deletion of the team.
abbrev pub Spares : ℕ → Request → Type 0
Spares t (deletes_team a s) = s ≢ t
Spares t r = Unit

pub data AllSpare (t : ℕ) : List Request → Type 0 where
  nothing : AllSpare t []
  next : {r : Request} {rs : List Request} → Spares t r → AllSpare t rs → AllSpare t (r ∷ rs)

module _ (t u : ℕ) where
  abbrev Owned : Tables → Reply Tables → Type 0
  Owned d out = is_owner t u (or_unchanged d out).members ≡ true

  kept {ℓ} :
      {A : Type ℓ} (d : Tables) (r : Reply A) (f : A → Reply Tables)
      → is_owner t u d.members ≡ true
      → ((x : A) → Owned d (f x))
      → Owned d (r >>= f)
  kept d (ok x) f h k = k x
  kept d (http s) f h k = h

  kept_add_row :
      (s : ℕ) (email role : String) (d : Tables)
      → is_owner t u d.members ≡ true
      → Owned d (add_row s email role d)
  unfolding add_row
  kept_add_row s email role d h =
      kept d (found (find? (λ (x : User). x.email == email) d.users) 404) _ h (λ x.
        kept d (check (is_none (membership s x.id d.members)) 409) _ h
          (λ _. is_owner-append t u d.members _ h))

  not_owner :
      (s v : ℕ) (ms : List TeamMember) (m : TeamMember)
      → membership s v ms ≡ some m
      → (m.role == "owner") ≡ false
      → is_owner s v ms ≡ false
  not_owner s v ms m e n = rw (e, is_owner) n

  -- A change of a row that the check lets through.
  kept_row :
      (s v : ℕ) (d new : Tables)
      → is_owner t u d.members ≡ true
      → (is_owner s v d.members ≡ false → is_owner t u new.members ≡ true)
      → Owned d (
          found (membership s v d.members) 404 >>= λ m.
          check (not (m.role == "owner")) 400 >> ok new)
  kept_row s v d new h k = elim (Option-cases (membership s v d.members)) [
    | inl e ↦ rw (e, Owned) h
    | inr (m, e) ↦ elim (Bool-cases (m.role == "owner")) [
      | inl y ↦ rw (e, y, Owned) h
      | inr n ↦ rw (e, n, Owned) (k (not_owner s v d.members m e n))
    ]
  ]

  -- A user who is an owner of a team is one after each request but the deletion of that team.
  pub owner_stays :
      (r : Request) (d : Tables)
      → Spares t r
      → is_owner t u d.members ≡ true
      → is_owner t u (after r d).members ≡ true
  unfolding handle add_member update_member remove_member update_member_role remove_row
      generate_invite_token join_by_token update_team delete_team set_channel_mode put_policy
      set_shared_agents set_shared_profiles add_knowledge delete_knowledge update_knowledge
      create_project set_project_members update_project delete_project create_task update_task
      delete_task add_doc delete_doc
  owner_stays (adds_member a s email role) d p h =
      kept d (require_permission d s a "member.invite") _ h (λ _. kept_add_row s email role d h)
  owner_stays (updates_member a s v role) d p h =
      kept d (require_permission d s a "member.role") _ h
        (λ _. kept_row s v d _ h (λ k. is_owner-set_role t u s v role d.members k h))
  owner_stays (removes_member a s v) d p h =
      kept d (require_permission d s a "member.remove") _ h
        (λ _. kept_row s v d _ h (λ k. is_owner-without_row t u s v d.members k h))
  owner_stays (invites a s token role expires) d p h = kept d (require_manager d s a) _ h (λ _. h)
  owner_stays (joins a token now) d p h =
      kept d (found (find? (has_token token) d.teams) 404) _ h (λ team.
        kept d (check (not (is_expired now team)) 410) _ h (λ _.
          elim (Option-cases (membership team.id a d.members)) [
            | inl e ↦ rw (e, Owned) (is_owner-append t u d.members _ h)
            | inr (m, e) ↦ rw (e, Owned) h
          ]))
  owner_stays (updates_team a s name) d p h = kept d (require_manager d s a) _ h (λ _. h)
  owner_stays (deletes_team a s) d p h =
      kept d (require_membership d s a) _ h (λ (x : Team × TeamMember).
        kept d (check (x.1.role == "owner") 403) _ h (λ _. is_owner-keep_other t u s d.members p h))
  owner_stays (sets_channel a s mode) d p h = kept d (require_manager d s a) _ h (λ _.
      kept d (check (mode == "off" || mode == "mention" || mode == "always") 422) _ h (λ _. h))
  owner_stays (puts_policy a s policy) d p h = kept d (require_manager d s a) _ h (λ _. h)
  owner_stays (shares_agents a s ids) d p h =
      kept d (require_permission d s a "agent.manage") _ h (λ _. h)
  owner_stays (shares_profiles a s ids) d p h =
      kept d (require_permission d s a "agent.manage") _ h (λ _. h)
  owner_stays (adds_knowledge a s k name content) d p h =
      kept d (require_permission d s a "knowledge.upload") _ h (λ _. h)
  owner_stays (deletes_knowledge a s k) d p h =
      kept d (require_permission d s a "knowledge.delete") _ h (λ _. h)
  owner_stays (updates_knowledge a s k name content) d p h =
      kept d (require_permission d s a "knowledge.upload") _ h
        (λ _. kept d (found (entry k d) 404) _ h (λ _. h))
  owner_stays (creates_project a s q name) d p h =
      kept d (require_permission d s a "project.create") _ h (λ _. h)
  owner_stays (sets_project_members a q ids) d p h =
      kept d (project_with_perm d q a "project.edit") _ h (λ _. h)
  owner_stays (updates_project a q name) d p h =
      kept d (project_with_perm d q a "project.edit") _ h (λ _. h)
  owner_stays (deletes_project a q) d p h =
      kept d (project_with_perm d q a "project.delete") _ h (λ _. h)
  owner_stays (creates_task a q k title) d p h =
      kept d (project_with_perm d q a "project.edit") _ h (λ _. h)
  owner_stays (updates_task a k title status) d p h =
      kept d (found (task_of k d) 404) _ h
        (λ x. kept d (project_with_perm d x.project_id a "project.edit") _ h (λ _. h))
  owner_stays (deletes_task a k) d p h =
      kept d (found (task_of k d) 404) _ h
        (λ x. kept d (project_with_perm d x.project_id a "project.edit") _ h (λ _. h))
  owner_stays (adds_doc a q k name) d p h =
      kept d (project_with_perm d q a "project.edit") _ h (λ _. h)
  owner_stays (deletes_doc a k) d p h =
      kept d (found (doc_of k d) 404) _ h
        (λ x. kept d (project_with_perm d x.project_id a "project.edit") _ h (λ _. h))

-- After requests of which none deletes the team, each owner of the team is still an owner of it: by
-- no sequence of the others can a team be left without one.
pub owners_stay :
    (t u : ℕ) {rs : List Request}
    → AllSpare t rs
    → (d : Tables) → is_owner t u d.members ≡ true
    → is_owner t u (after_all rs d).members ≡ true
unfolding after_all
owners_stay t u nothing d h = h
owners_stay t u (next {r = r} p ps) d h = owners_stay t u ps (after r d) (owner_stays t u r d p h)
