-- ===== src/Workspace/Overwritten.antt =====
-- What is archived of the content that a save replaces.
use mathlib.Core.Option.{some-injective}
use hermes_python.Prelude.{
  ℕ, ◌≡◌, refl, ◌∙◌, subst, true, false, Option, none, some, String, ◌∷◌, arith, find?,
  Option-cases, inl, inr,
}
use hermes_python.Texts.{Text, is_empty}
use hermes_python.Workspace.Objects.{ObjectStore, IsLawful}
use hermes_python.Workspace.{
  File, Disk, Saving, version_of, pruned, overwrite, store_file, write_file, save_file, matches,
  name_of, is_blank, key_of, utf8_size,
}
use hermes_python.Workspace.RoundTrip.{find?-store_file}

module _ (O : ObjectStore) where
  overwrite_inline :
      (s : O.State) (f : File) (inline key : Option Text) (size : ℕ) (agent : Option String)
      (old : Text)
      → f.content ≡ some old
      → is_empty old ≡ false
      → (overwrite O s f inline key size agent).versions
        ≡ version_of f agent old ∷ pruned f.versions
  unfolding overwrite
  overwrite_inline s f inline key size agent old at filled = ground arith

  overwrite_object :
      (s : O.State) (f : File) (inline key : Option Text) (size : ℕ) (agent : Option String)
      (k old : Text)
      → f.content ≡ none
      → f.storage_key ≡ some k
      → O.get s k ≡ some old
      → is_empty old ≡ false
      → (overwrite O s f inline key size agent).versions
        ≡ version_of f agent old ∷ pruned f.versions
  unfolding overwrite
  overwrite_object s f inline key size agent k old none_inline at there filled = ground arith

  -- On the inline backend, a save of content that is not blank over a file with inline content that
  -- is not empty makes the content that was there the newest version.
  pub save_file_inline :
      (r : Saving) (d e : Disk O) (f : File) (old : Text)
      → r.minio ≡ false
      → is_blank r.content ≡ false
      → find? (matches r.conversation_id (name_of r.path)) d.files ≡ some f
      → f.content ≡ some old
      → is_empty old ≡ false
      → save_file O r d ≡ some e
      → (g : File) × (find? (matches r.conversation_id (name_of r.path)) e.files ≡ some g)
        × (g.versions ≡ version_of f r.agent_id old ∷ pruned f.versions)
  unfolding save_file write_file
  save_file_inline r d e f old local filled found at ne saved =
      let name = name_of r.path in
      let g = overwrite O d.objects f (some r.content) none (utf8_size r.content) r.agent_id in
      (
        g,
        subst (λ (x : Disk O). find? (matches r.conversation_id name) x.files ≡ some g)
            (some-injective (store_file O r name r.content (some r.content) none d) e
              (ground arith))
            (find?-store_file O r name r.content (some r.content) none d ∙ rw found refl),
        overwrite_inline d.objects f _ _ _ _ old at ne,
      )

  -- On the object backend, a save of content that is not blank over a file whose object has the key
  -- of the save makes the content just written the newest version, and not what it replaces: the
  -- object is put before it is read.
  pub save_file_object :
      IsLawful O
      → (r : Saving) (d e : Disk O) (f : File) → r.minio ≡ true
      → is_blank r.content ≡ false
      → find? (matches r.conversation_id (name_of r.path)) d.files ≡ some f
      → f.content ≡ none
      → f.storage_key ≡ some (key_of r)
      → save_file O r d ≡ some e
      → (g : File) × (find? (matches r.conversation_id (name_of r.path)) e.files ≡ some g)
        × (g.versions ≡ version_of f r.agent_id r.content ∷ pruned f.versions)
  unfolding save_file write_file
  save_file_object law r d e f minio filled found at key saved =
      let name = name_of r.path in
      elim (Option-cases (O.put d.objects (key_of r) r.content)) [
        | inl failed ↦ ground arith
        | inr (s, done) ↦
            let d' = record d { objects = s } in
            let g = overwrite O s f none (some (key_of r)) (utf8_size r.content) r.agent_id in
            (
              g,
              subst (λ (x : Disk O). find? (matches r.conversation_id name) x.files ≡ some g)
                  (some-injective (store_file O r name r.content none (some (key_of r)) d') e
                    (ground arith))
                  (find?-store_file O r name r.content none (some (key_of r)) d' ∙ rw found refl),
              overwrite_object s f _ _ _ _ (key_of r) r.content at key
                  (law.get-put d.objects s (key_of r) r.content done) (ground arith),
            )
      ]
