-- ===== src/Workspace/History.antt =====
-- Every write keeps the history of every file: at most ten versions, with numbers that fall.
use mathlib.Core.Option.{some-injective}
use hermes_python.Prelude.{
  ℕ, ◌+◌, ◌≡◌, Bool, Option, none, some, String, List, [], ◌∷◌, arith, All, All-append, All-find?,
  subst, length-append, find?, nat_has_eq, ◌==◌, Option-cases, Bool-cases, inl, inr,
}
use hermes_python.Texts.{Text}
use hermes_python.Workspace.Objects.{ObjectStore}
use hermes_python.Workspace.{
  Version, File, Disk, Saving, archived, pruned, old_content, update_file_content,
  restore_file_version, overwrite, replace_file, store_file, write_file, save_file, matches,
  name_of, new_file, is_blank, key_of, utf8_size,
}
use hermes_python.Workspace.Versions.{
  Below-mono, IsHistory, pruned-Below, length-pruned-le, archived-Below, length-archived-le,
}

replace_file-All :
    (p : File → Bool) (g : File) (fs : List File)
    → IsHistory g
    → All IsHistory fs
    → All IsHistory (replace_file p g fs)
unfolding replace_file
replace_file-All p g [] hg h = tt
replace_file-All p g (f ∷ fs) hg h = ground (arith, replace_file-All p g fs hg h.1)

module _ (O : ObjectStore) where
  pub update_file_content-IsHistory :
      (s : O.State) (f : File) (content : Text) (author : Option String)
      → IsHistory f
      → IsHistory (update_file_content O s f content author)
  unfolding update_file_content
  update_file_content-IsHistory s f content author h =
      let old = old_content O s f in
      record {
        falling =
            archived-Below f author old (pruned f.versions)
              (pruned-Below f.current_version f.versions h.falling);
        short = omega (
          arith,
          length-append (archived f author old) (pruned f.versions),
          length-archived-le f author old,
          length-pruned-le f.versions,
        );
      }

  -- Restoring any version number keeps the history.
  pub restore_file_version-IsHistory :
      (s : O.State) (f : File) (n : ℕ) (author : Option String)
      → IsHistory f
      → IsHistory (restore_file_version O s f n author)
  unfolding restore_file_version
  restore_file_version-IsHistory s f n author h =
      elim (Option-cases (find? (λ (v : Version). v.version_num == n) f.versions)) [
        | inl e ↦ rw (e, restore_file_version) h
        | inr (v, e) ↦
            rw (e, restore_file_version) (update_file_content-IsHistory s f v.content author h)
      ]

  overwrite-IsHistory :
      (s : O.State) (f : File) (inline key : Option Text) (size : ℕ) (agent : Option String)
      → IsHistory f
      → IsHistory (overwrite O s f inline key size agent)
  unfolding overwrite
  overwrite-IsHistory s f inline key size agent h = ground (
    arith,
    pruned-Below f.current_version f.versions h.falling,
    length-pruned-le f.versions,
    Below-mono f.current_version (f.current_version + 1) f.versions,
  )

  store_file-All :
      (r : Saving) (name content : Text) (inline key : Option Text) (d : Disk O)
      → All IsHistory d.files
      → All IsHistory (store_file O r name content inline key d).files
  unfolding store_file
  store_file-All r name content inline key d h =
      elim (Option-cases (find? (matches r.conversation_id name) d.files)) [
        | inl e ↦
            rw (e, store_file)
              (All-append IsHistory d.files (new_file r name inline key content ∷ []) h
                (omega arith, tt))
        | inr (f, e) ↦
            rw (e, store_file)
              (replace_file-All (matches r.conversation_id name) _ d.files
                (overwrite-IsHistory d.objects f inline key (utf8_size content) r.agent_id
                  (All-find? IsHistory (matches r.conversation_id name) d.files f h e))
                h)
      ]

  write_file-All :
      (r : Saving) (content : Text) (d e : Disk O)
      → All IsHistory d.files
      → write_file O r content d ≡ some e
      → All IsHistory e.files
  unfolding write_file
  write_file-All r content d e h saved =
      let name = name_of r.path in
      let key = key_of r in
      elim (Bool-cases r.minio) [
        | inl minio ↦ elim (Option-cases (O.put d.objects key content)) [
          | inl failed ↦ ground arith
          | inr (s, done) ↦
              let d' = record d { objects = s } in
              subst (λ (x : Disk O). All IsHistory x.files)
                (some-injective (store_file O r name content none (some key) d') e (ground arith))
                (store_file-All r name content none (some key) d' h)
        ]
        | inr inline ↦
            subst (λ (x : Disk O). All IsHistory x.files)
              (some-injective (store_file O r name content (some content) none d) e (ground arith))
              (store_file-All r name content (some content) none d h)
      ]

  -- Whatever is saved, and where, the history of every file is kept.
  pub save_file-IsHistory :
      (r : Saving) (d e : Disk O)
      → All IsHistory d.files
      → save_file O r d ≡ some e
      → All IsHistory e.files
  unfolding save_file
  save_file-IsHistory r d e h saved = elim (Bool-cases (is_blank r.content)) [
    | inl blank ↦ elim (Option-cases (find? (matches r.conversation_id (name_of r.path)) d.files)) [
      | inl absent ↦ write_file-All r [] d e h (ground arith)
      | inr (f, there) ↦
          subst (λ (x : Disk O). All IsHistory x.files) (some-injective d e (ground arith)) h
    ]
    | inr filled ↦ write_file-All r r.content d e h (ground arith)
  ]
