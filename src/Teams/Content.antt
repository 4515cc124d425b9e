-- ===== src/Teams/Content.antt =====
-- The knowledge of a team.
use hermes_python.Prelude.{
  ℕ, not, Option, none, some, String, List, [], ◌∷◌, ◌++◌, ◌==◌, nat_has_eq, string_has_eq, keep,
  find?, if◌then◌else◌,
}
use hermes_python.Http.{Reply, ok, check, found, ◌>>=◌, ◌>>◌}
use hermes_python.Teams.{Knowledge, Tables, require_membership, require_permission}

abbrev pub entry : ℕ → Tables → Option Knowledge
entry k d = find? (λ (x : Knowledge). x.id == k) d.knowledge

-- The id is that of the new row.
unfoldable pub add_knowledge : ℕ → ℕ → ℕ → String → Option String → Tables → Reply Tables
add_knowledge actor t k name content d = do
  got ← require_permission d t actor "knowledge.upload"
  ok (record d {
    knowledge = d.knowledge ++ record { id = k; team_id = t; name = name; content = content } ∷ [];
  })

-- The team of the entry is not looked at.
unfoldable pub delete_knowledge : ℕ → ℕ → ℕ → Tables → Reply Tables
delete_knowledge actor t k d = do
  got ← require_permission d t actor "knowledge.delete"
  ok (record d { knowledge = keep (λ (x : Knowledge). not (x.id == k)) d.knowledge })

unfoldable pub set_entry : ℕ → Option String → Option String → List Knowledge → List Knowledge
set_entry k name content [] = []
set_entry k name content (x ∷ xs) =
    (if x.id == k
      then record x {
        name = elim name [ none ↦ x.name | some n ↦ n ];
        content = elim content [ none ↦ x.content | some c ↦ some c ];
      }
      else x)
    ∷ set_entry k name content xs

unfoldable pub update_knowledge : ℕ → ℕ → ℕ → Option String → Option String → Tables → Reply Tables
unfolding set_entry
update_knowledge actor t k name content d = do
  got ← require_permission d t actor "knowledge.upload"
  row ← found (entry k d) 404
  ok (record d { knowledge = set_entry k name content d.knowledge })

unfoldable pub get_knowledge_content : ℕ → ℕ → ℕ → Tables → Reply Knowledge
get_knowledge_content actor t k d = do
  got ← require_membership d t actor
  row ← found (entry k d) 404
  check (row.team_id == t) 404
  ok row
