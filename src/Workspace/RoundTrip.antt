-- ===== src/Workspace/RoundTrip.antt =====
-- What was saved is what is read, on both backends.
use mathlib.Core.Option.{some-injective}
use hermes_python.Prelude.{
  ◌≡◌, refl, ◌∙◌, subst, Bool, true, false, Option, none, some, List, [], ◌∷◌, ◌++◌, arith, find?,
  nat_has_eq, Option-cases, Bool-cases, inl, inr,
}
use hermes_python.Texts.{Text}
use hermes_python.Texts.Prefix.{text_eq_refl}
use hermes_python.Workspace.Objects.{ObjectStore, IsLawful}
use hermes_python.Workspace.{
  File, Disk, Saving, read_content, overwrite, replace_file, store_file, write_file, save_file,
  matches, name_of, new_file, is_blank, key_of, utf8_size, get_existing_content, has_several,
}

find?-replace_file :
    (p : File → Bool) (f g : File) (fs : List File)
    → find? p fs ≡ some f
    → p g ≡ true
    → find? p (replace_file p g fs) ≡ some g
unfolding replace_file
find?-replace_file p f g [] e h = cc
find?-replace_file p f g (x ∷ fs) e h = ground (arith, find?-replace_file p f g fs)

find?-append :
    (p : File → Bool) (g : File) (fs : List File)
    → find? p fs ≡ none
    → p g ≡ true
    → find? p (fs ++ g ∷ []) ≡ some g
find?-append p g [] e h = rw h
find?-append p g (x ∷ fs) e h = ground (arith, find?-append p g fs)

find?-holds : (p : File → Bool) (fs : List File) (f : File) → find? p fs ≡ some f → p f ≡ true
find?-holds p [] f e = cc
find?-holds p (x ∷ fs) f e = elim (Bool-cases (p x)) [
  | inl hit ↦ subst (λ y. p y ≡ true) (some-injective x f (rw hit at e)) hit
  | inr miss ↦ find?-holds p fs f (rw miss at e)
]

has_several-append :
    (p : File → Bool) (g : File) (fs : List File)
    → find? p fs ≡ none
    → has_several p (fs ++ g ∷ []) ≡ false
unfolding has_several
has_several-append p g [] e = ground arith
has_several-append p g (x ∷ fs) e = ground (arith, has_several-append p g fs)

find?-replaced_none :
    (p : File → Bool) (g : File) (fs : List File)
    → find? p fs ≡ none
    → find? p (replace_file p g fs) ≡ none
unfolding replace_file
find?-replaced_none p g [] e = refl
find?-replaced_none p g (x ∷ fs) e = ground (arith, find?-replaced_none p g fs)

has_several-replace_file :
    (p : File → Bool) (g : File) (fs : List File)
    → p g ≡ true
    → has_several p fs ≡ false
    → has_several p (replace_file p g fs) ≡ false
unfolding has_several replace_file
has_several-replace_file p g [] h s = refl
has_several-replace_file p g (x ∷ fs) h s =
    ground (arith, has_several-replace_file p g fs, find?-replaced_none p g fs)

-- What a save that returned has found of the name.
pub save_file_one :
    (O : ObjectStore) (r : Saving) (d e : Disk O)
    → save_file O r d ≡ some e
    → has_several (matches r.conversation_id (name_of r.path)) d.files ≡ false
unfolding save_file
save_file_one O r d e saved =
    elim (Bool-cases (has_several (matches r.conversation_id (name_of r.path)) d.files)) [
      | inl y ↦ ground (arith, rw (y, save_file) at saved)
      | inr n ↦ n
    ]

module _ (O : ObjectStore) where
  -- The row that a save leaves for its path.
  pub find?-store_file :
      (r : Saving) (name content : Text) (inline key : Option Text) (d : Disk O)
      → find? (matches r.conversation_id name) (store_file O r name content inline key d).files
        ≡ some (elim (find? (matches r.conversation_id name) d.files) [
          | none ↦ new_file r name inline key content
          | some f ↦ overwrite O d.objects f inline key (utf8_size content) r.agent_id
        ])
  unfolding store_file
  find?-store_file r name content inline key d =
      let p = matches r.conversation_id name in
      elim (Option-cases (find? p d.files)) [
        | inl e ↦
            rw (e, store_file)
              (find?-append p (new_file r name inline key content) d.files e
                (ground (arith, text_eq_refl r.conversation_id, text_eq_refl name)))
        | inr (f, e) ↦
            rw (e, store_file)
              (find?-replace_file p f
                (overwrite O d.objects f inline key (utf8_size content) r.agent_id) d.files e
                (unfold overwrite in find?-holds p d.files f e))
      ]

  stored_content :
      (r : Saving) (name content : Text) (inline key : Option Text) (d : Disk O)
      → (g : File) × (find?
            (matches r.conversation_id name)
            (store_file O r name content inline key d).files
          ≡ some g)
        × (g.content ≡ inline)
        × (g.storage_key ≡ key)
  unfolding overwrite
  stored_content r name content inline key d =
      elim (Option-cases (find? (matches r.conversation_id name) d.files)) [
        | inl e ↦ (
          new_file r name inline key content,
          find?-store_file r name content inline key d ∙ rw e,
          refl,
          refl,
        )
        | inr (f, e) ↦ (
          overwrite O d.objects f inline key (utf8_size content) r.agent_id,
          find?-store_file r name content inline key d ∙ rw e,
          refl,
          refl,
        )
      ]

  objects-store_file :
      (r : Saving) (name content : Text) (inline key : Option Text) (d : Disk O)
      → (store_file O r name content inline key d).objects ≡ d.objects
  unfolding store_file
  objects-store_file r name content inline key d = ground arith

  has_several-store_file :
      (r : Saving) (name content : Text) (inline key : Option Text) (d : Disk O)
      → let p = matches r.conversation_id name in
        has_several p d.files ≡ false
        → has_several p (store_file O r name content inline key d).files ≡ false
  unfolding store_file
  has_several-store_file r name content inline key d h =
      let p = matches r.conversation_id name in
      elim (Option-cases (find? p d.files)) [
        | inl e ↦
            rw (e, store_file) (has_several-append p (new_file r name inline key content) d.files e)
        | inr (f, e) ↦
            let g = overwrite O d.objects f inline key (utf8_size content) r.agent_id in
            rw (e, store_file)
              (has_several-replace_file p g d.files (unfold overwrite in find?-holds p d.files f e)
                h)
      ]

  get_stored :
      (r : Saving) (d : Disk O) (g : File) (cid path : Text)
      → has_several (matches cid (name_of path)) d.files ≡ false
      → find? (matches cid (name_of path)) d.files ≡ some g
      → get_existing_content O cid path d
        ≡ elim (read_content O d.objects g) [ none ↦ none | some t ↦ some (some t) ]
  unfolding get_existing_content
  get_stored r d g cid path one e = rw (one, e, get_existing_content) refl

  -- Content that is not blank is what reading its path gives, when the save returns.
  pub save_file-get_existing_content :
      IsLawful O
      → (r : Saving) (d e : Disk O) → is_blank r.content ≡ false
      → save_file O r d ≡ some e
      → get_existing_content O r.conversation_id r.path e ≡ some (some r.content)
  unfolding save_file write_file read_content
  save_file-get_existing_content law r d e filled saved =
      let name = name_of r.path in
      let key = key_of r in
      let one = save_file_one O r d e saved in
      elim (Bool-cases r.minio) [
        | inl minio ↦ elim (Option-cases (O.put d.objects key r.content)) [
          | inl failed ↦ ground arith
          | inr (s, done) ↦
              let d' = record d { objects = s } in
              let (g, found, inline, at) = stored_content r name r.content none (some key) d' in
              subst
                (λ (x : Disk O).
                  get_existing_content O r.conversation_id r.path x ≡ some (some r.content))
                (some-injective (store_file O r name r.content none (some key) d') e (ground arith))
                (get_stored r _ g r.conversation_id r.path
                    (has_several-store_file r name r.content none (some key) d' one) found
                  ∙ rw
                      (
                        inline,
                        at,
                        objects-store_file r name r.content none (some key) d',
                        law.get-put d.objects s key r.content done,
                      )
                      refl)
        ]
        | inr local ↦
            let (g, found, inline, at) = stored_content r name r.content (some r.content) none d in
            subst
              (λ (x : Disk O).
                get_existing_content O r.conversation_id r.path x ≡ some (some r.content))
              (some-injective (store_file O r name r.content (some r.content) none d) e
                (ground arith))
              (get_stored r _ g r.conversation_id r.path
                  (has_several-store_file r name r.content (some r.content) none d one) found
                ∙ rw inline refl)
      ]
