-- ===== src/Teams/Projects.antt =====
-- The projects of a team, their tasks and documents.
use hermes_python.Prelude.{
  ℕ, not, Option, none, some, String, List, [], ◌∷◌, ◌++◌, ◌==◌, nat_has_eq, string_has_eq, keep,
  find?, length, if◌then◌else◌,
}
use hermes_python.Http.{Reply, ok, found, ◌>>=◌}
use hermes_python.Teams.{Project, Task, Doc, Tables, require_permission}

abbrev pub project_of : ℕ → Tables → Option Project
project_of p d = find? (λ (x : Project). x.id == p) d.projects

abbrev pub task_of : ℕ → Tables → Option Task
task_of k d = find? (λ (x : Task). x.id == k) d.tasks

abbrev pub doc_of : ℕ → Tables → Option Doc
doc_of k d = find? (λ (x : Doc). x.id == k) d.docs

unfoldable pub create_project : ℕ → ℕ → ℕ → String → Tables → Reply Tables
create_project actor t p name d = do
  got ← require_permission d t actor "project.create"
  ok (record d {
    projects =
        d.projects ++ record { id = p; team_id = t; name = name; member_ids = actor ∷ [] } ∷ [];
  })

-- `_project_with_perm`
unfoldable pub project_with_perm : Tables → ℕ → ℕ → String → Reply Project
project_with_perm d p actor perm = do
  proj ← found (project_of p d) 404
  got ← require_permission d proj.team_id actor perm
  ok proj

unfoldable pub put_project : ℕ → (Project → Project) → List Project → List Project
put_project p f [] = []
put_project p f (x ∷ xs) = (if x.id == p then f x else x) ∷ put_project p f xs

unfoldable pub set_project_members : ℕ → ℕ → List ℕ → Tables → Reply Tables
unfolding put_project
set_project_members actor p ids d = do
  proj ← project_with_perm d p actor "project.edit"
  ok (record d { projects = put_project p (λ x. record x { member_ids = ids }) d.projects })

-- The name stands for the fields that are set in the payload.
unfoldable pub update_project : ℕ → ℕ → Option String → Tables → Reply Tables
unfolding put_project
update_project actor p name d = do
  proj ← project_with_perm d p actor "project.edit"
  ok (record d {
    projects =
        put_project p (λ x. record x { name = elim name [ none ↦ x.name | some n ↦ n ] })
          d.projects;
  })

-- Tasks and documents go with the project.
unfoldable pub delete_project : ℕ → ℕ → Tables → Reply Tables
delete_project actor p d = do
  proj ← project_with_perm d p actor "project.delete"
  ok (record d {
    projects = keep (λ (x : Project). not (x.id == p)) d.projects;
    tasks = keep (λ (x : Task). not (x.project_id == p)) d.tasks;
    docs = keep (λ (x : Doc). not (x.project_id == p)) d.docs;
  })

-- `svc.create_task` puts it behind the tasks that there are.
unfoldable pub create_task : ℕ → ℕ → ℕ → String → Tables → Reply Tables
create_task actor p k title d = do
  proj ← project_with_perm d p actor "project.edit"
  ok (record d {
    tasks =
        d.tasks
        ++ record {
          id = k;
          project_id = p;
          title = title;
          status = "todo";
          order_idx = length (keep (λ (x : Task). x.project_id == p) d.tasks);
        }
          ∷ [];
  })

unfoldable pub put_task : ℕ → (Task → Task) → List Task → List Task
put_task k f [] = []
put_task k f (x ∷ xs) = (if x.id == k then f x else x) ∷ put_task k f xs

-- The title and the status stand for the fields that are set in the payload.
unfoldable pub update_task : ℕ → ℕ → Option String → Option String → Tables → Reply Tables
unfolding put_task
update_task actor k title status d = do
  task ← found (task_of k d) 404
  proj ← project_with_perm d task.project_id actor "project.edit"
  ok (record d {
    tasks =
        put_task k
          (λ x. record x {
            title = elim title [ none ↦ x.title | some n ↦ n ];
            status = elim status [ none ↦ x.status | some n ↦ n ];
          })
          d.tasks;
  })

unfoldable pub delete_task : ℕ → ℕ → Tables → Reply Tables
delete_task actor k d = do
  task ← found (task_of k d) 404
  proj ← project_with_perm d task.project_id actor "project.edit"
  ok (record d { tasks = keep (λ (x : Task). not (x.id == k)) d.tasks })

unfoldable pub add_doc : ℕ → ℕ → ℕ → String → Tables → Reply Tables
add_doc actor p k name d = do
  proj ← project_with_perm d p actor "project.edit"
  ok (record d { docs = d.docs ++ record { id = k; project_id = p; name = name } ∷ [] })

unfoldable pub delete_doc : ℕ → ℕ → Tables → Reply Tables
delete_doc actor k d = do
  doc ← found (doc_of k d) 404
  proj ← project_with_perm d doc.project_id actor "project.edit"
  ok (record d { docs = keep (λ (x : Doc). not (x.id == k)) d.docs })
