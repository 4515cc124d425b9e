-- ===== src/Workspace.antt =====
-- backend/agent_runner/storage.py, and the file versions of
-- backend/app/services/conversation_service.py. A file carries the rows of its versions. The object
-- store is a service, and is a parameter; a text stands for its UTF-8 bytes there.
pub mod Objects
pub mod Versions
pub mod History
pub mod RoundTrip
pub mod Overwritten
mod Tests
use hermes_python.Prelude.{
  ℕ, ◌+◌, ◌-◌, Bool, true, false, ◌&&◌, ◌||◌, not, Option, none, some, String, List, [], ◌∷◌, ◌++◌,
  ◌==◌, nat_has_eq, string_has_eq, ltb, leb, take, keep, find?, if◌then◌else◌,
}
use hermes_python.Texts.{Text, codes, is_empty, text_eq, strip, split, lstrip_by}
use hermes_python.Files.{slash, safe_relative_path}
use Objects.{ObjectStore}

pub record Version : Type 0 where
  pub version_num : ℕ
  pub content : Text
  pub size_bytes : ℕ
  pub author : Option String

pub record File : Type 0 where
  pub id : ℕ
  pub conversation_id : Text
  pub name : Text
  pub kind : Text
  pub content : Option Text
  pub storage_key : Option Text
  pub size_bytes : ℕ
  pub current_version : ℕ
  pub versions : List Version

-- `len(content.encode("utf-8"))`
unfoldable pub utf8_size : Text → ℕ
utf8_size [] = 0
utf8_size (c ∷ t) =
    (if ltb c 0x80 then 1 else if ltb c 0x800 then 2 else if ltb c 0x10000 then 3 else 4)
    + utf8_size t

lower : ℕ → ℕ
lower c = if leb 65 c && leb c 90 then c + 32 else c

lower_all : Text → Text
unfolding lower
lower_all [] = []
lower_all (c ∷ t) = lower c ∷ lower_all t

last_of : List Text → Text
last_of [] = []
last_of (w ∷ []) = w
last_of (w ∷ v ∷ ws) = last_of (v ∷ ws)

-- The extension without its dot, by `os.path.splitext`: none where only leading dots stand before.
ext_of : Text → Text
unfolding last_of split lstrip_by
ext_of name =
    let base = lstrip_by (λ c. c == 46) (last_of (split slash name)) in
    elim (split 46 base) [ [] ↦ [] | w ∷ [] ↦ [] | w ∷ v ∷ ws ↦ last_of (v ∷ ws) ]

-- `_kind_of`, over `_KIND_BY_EXT`
unfoldable pub kind_of : Text → Text
unfolding ext_of lower_all
kind_of name =
    let ext = ext_of (lower_all name) in
    if text_eq ext (codes "md") || text_eq ext (codes "markdown")
    then codes "md"
    else if text_eq ext (codes "docx") || text_eq ext (codes "doc")
    then codes "docx"
    else if text_eq ext (codes "csv") || text_eq ext (codes "tsv")
    then codes "csv"
    else if text_eq ext (codes "json")
    then codes "json"
    else codes "txt"

-- `ORDER BY version_num DESC`
insert_desc : Version → List Version → List Version
insert_desc v [] = v ∷ []
insert_desc v (w ∷ ws) =
    if leb w.version_num v.version_num then v ∷ w ∷ ws else w ∷ insert_desc v ws

unfoldable pub sort_desc : List Version → List Version
unfolding insert_desc
sort_desc [] = []
sort_desc (v ∷ vs) = insert_desc v (sort_desc vs)

-- What the deletion leaves of the rows that were there: all from offset 9 on are deleted. The row
-- added before it is not flushed yet (the session has `autoflush=False`), and is not among them.
abbrev pub pruned : List Version → List Version
pruned vs = take 9 (sort_desc vs)

abbrev pub version_of : File → Option String → Text → Version
version_of f author old = record {
  version_num = f.current_version;
  content = old;
  size_bytes = f.size_bytes;
  author = author;
}

-- `if old_content:` as a row to add
abbrev pub archived : File → Option String → Option Text → List Version
archived f author none = []
archived f author (some old) = if is_empty old then [] else version_of f author old ∷ []

pub record Saving : Type 0 where
  pub minio : Bool
  pub conversation_id : Text
  pub path : Text
  pub content : Text
  pub agent_id : Option String
  pub new_id : ℕ

abbrev pub matches : Text → Text → File → Bool
matches cid name f = text_eq f.conversation_id cid && text_eq f.name name

abbrev pub new_file : Saving → Text → Option Text → Option Text → Text → File
new_file r name inline key content = record {
  id = r.new_id;
  conversation_id = r.conversation_id;
  name = name;
  kind = kind_of name;
  content = inline;
  storage_key = key;
  size_bytes = utf8_size content;
  current_version = 1;
  versions = [];
}

replace_file : (File → Bool) → File → List File → List File
replace_file p g [] = []
replace_file p g (f ∷ fs) = let rest = replace_file p g fs in if p f then g ∷ fs else f ∷ rest

abbrev pub is_blank : Text → Bool
is_blank t = is_empty t || is_empty (strip t)

-- The name that `save_file` gives a path.
abbrev pub name_of : Text → Text
name_of path = safe_relative_path path (codes "untitled.txt")

abbrev pub key_of : Saving → Text
key_of r = r.conversation_id ++ slash ∷ name_of r.path

-- Whether several rows pass, for which `scalar_one_or_none` raises.
unfoldable pub has_several : (File → Bool) → List File → Bool
has_several p [] = false
has_several p (f ∷ fs) =
    let rest = has_several p fs in
    if p f then elim (find? p fs) [ none ↦ false | some g ↦ true ] else rest

module _ (O : ObjectStore) where
  -- Inline content, or that of the object; `none` where reading the object fails.
  abbrev pub old_content : O.State → File → Option Text
  old_content s f = elim f.content [
    | some t ↦ some t
    | none ↦ elim f.storage_key [ none ↦ none | some key ↦ O.get s key ]
  ]

  -- `none` is the exception of a failed read.
  unfoldable pub read_content : O.State → File → Option Text
  read_content s f = elim f.content [
    | some t ↦ some t
    | none ↦ elim f.storage_key [ none ↦ some [] | some key ↦ O.get s key ]
  ]

  -- conversation_service.update_file_content
  unfoldable pub update_file_content : O.State → File → Text → Option String → File
  update_file_content s f content author = record f {
    content = some content;
    size_bytes = utf8_size content;
    current_version = f.current_version + 1;
    versions = archived f author (old_content s f) ++ pruned f.versions;
  }

  unfoldable pub list_file_versions : File → List Version
  list_file_versions f = sort_desc f.versions

  unfoldable pub restore_file_version : O.State → File → ℕ → Option String → File
  restore_file_version s f n author =
      elim (find? (λ (v : Version). v.version_num == n) f.versions) [
        | none ↦ f
        | some v ↦ update_file_content s f v.content author
      ]

  -- storage.save_file on the file found; the pruning stands under `if old_content` here.
  unfoldable pub overwrite : O.State → File → Option Text → Option Text → ℕ → Option String → File
  overwrite s f inline key size agent =
      let added = archived f agent (old_content s f) in
      record f {
        content = inline;
        storage_key = key;
        size_bytes = size;
        current_version = f.current_version + 1;
        versions = elim added [ [] ↦ f.versions | v ∷ vs ↦ v ∷ pruned f.versions ];
      }

  pub record Disk : Type 0 where
    pub files : List File
    pub objects : O.State

  -- The second half of `save_file`: the row is written, over the content of the objects by then.
  unfoldable pub store_file : Saving → Text → Text → Option Text → Option Text → Disk → Disk
  unfolding replace_file
  store_file r name content inline key d = elim (find? (matches r.conversation_id name) d.files) [
    | none ↦ record d { files = d.files ++ new_file r name inline key content ∷ [] }
    | some f ↦ record d {
      files =
          replace_file (matches r.conversation_id name)
            (overwrite d.objects f inline key (utf8_size content) r.agent_id) d.files;
    }
  ]

  -- `none` is an exception of the object store.
  write_file : Saving → Text → Disk → Option Disk
  unfolding store_file
  write_file r content d =
      if r.minio
      then elim (O.put d.objects (key_of r) content) [
        | none ↦ none
        | some s ↦ some (
            store_file r (name_of r.path) content none (some (key_of r)) (record d { objects = s }))
      ]
      else some (store_file r (name_of r.path) content (some content) none d)

  -- Blank content never replaces what is there. `none` is an exception: of the object store, or of
  -- `scalar_one_or_none` where several rows are of the name.
  unfoldable pub save_file : Saving → Disk → Option Disk
  unfolding write_file has_several
  save_file r d =
      if has_several (matches r.conversation_id (name_of r.path)) d.files
      then none
      else if is_blank r.content
      then elim (find? (matches r.conversation_id (name_of r.path)) d.files) [
        | none ↦ write_file r [] d
        | some f ↦ some d
      ]
      else write_file r r.content d

  -- `none` is the exception of a failed read, or of several rows of the name, and `some none` that there
  -- is no such file.
  unfoldable pub get_existing_content : Text → Text → Disk → Option (Option Text)
  unfolding has_several
  get_existing_content cid path d =
      let name = name_of path in
      if has_several (matches cid name) d.files
      then none
      else elim (find? (matches cid name) d.files) [
        | none ↦ some none
        | some f ↦ elim (read_content d.objects f) [ none ↦ none | some t ↦ some (some t) ]
      ]
