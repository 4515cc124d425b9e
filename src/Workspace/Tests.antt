-- ===== src/Workspace/Tests.antt =====
-- Concrete saves, over objects held in a function.
use hermes_python.Prelude.{
  ◌≡◌, refl, ap, sym, ◌∙◌, Bool, true, Option, none, some, [], ◌∷◌, arith, find?, All,
  if◌then◌else◌,
}
use hermes_python.Texts.{Text, codes, text_eq, strip}
use hermes_python.Files.{safe_relative_path}
use hermes_python.Texts.Prefix.{text_eq_refl}
use hermes_python.Workspace.Objects.{ObjectStore, IsLawful}
use hermes_python.Workspace.{
  File, Disk, Saving, save_file, get_existing_content, matches, name_of, version_of, pruned,
}
use hermes_python.Workspace.Versions.{IsHistory}
use hermes_python.Workspace.History.{save_file-IsHistory}
use hermes_python.Workspace.RoundTrip.{save_file-get_existing_content}
use hermes_python.Workspace.Overwritten.{save_file_object}

abbrev shelf : ObjectStore
shelf = record {
  State = Text → Option Text;
  put = λ s key v. some (λ k. if text_eq key k then some v else s k);
  get = λ s key. s key;
}

shelf-IsLawful : IsLawful shelf
shelf-IsLawful = record {
  get-put = λ s t key v e.
      ap (λ (o : Option (Text → Option Text)). elim o [ none ↦ none | some u ↦ u key ]) (sym e)
      ∙ rw (text_eq_refl key) refl;
}

abbrev saving : Bool → Saving
saving minio = record {
  minio = minio;
  conversation_id = codes "c1";
  path = codes "./notes/a.md";
  content = codes "two";
  agent_id = some "default";
  new_id = 7;
}

abbrev written : Option Text → Option Text → File
written content key = record {
  id = 3;
  conversation_id = codes "c1";
  name = codes "notes/a.md";
  kind = codes "md";
  content = content;
  storage_key = key;
  size_bytes = 3;
  current_version = 2;
  versions = record { version_num = 1; content = codes "zero"; size_bytes = 4; author = none } ∷ [];
}

abbrev inline_disk : Disk shelf
inline_disk = record { files = written (some (codes "one")) none ∷ []; objects = λ k. none }

abbrev object_disk : Disk shelf
object_disk = record {
  files = written none (some (codes "c1/notes/a.md")) ∷ [];
  objects = λ k. some (codes "one");
}

abbrev saved : Saving → Disk shelf → Disk shelf
saved r d = elim (save_file shelf r d) [ none ↦ d | some e ↦ e ]

written-IsHistory : (content key : Option Text) → IsHistory (written content key)
written-IsHistory content key = record { falling = (omega arith, tt); short = omega arith }

save_file-get_existing_content_example :
    get_existing_content shelf (codes "c1") (codes "./notes/a.md") (saved (saving true) object_disk)
    ≡ some (some (codes "two"))
unfolding save_file strip safe_relative_path
save_file-get_existing_content_example =
    save_file-get_existing_content shelf shelf-IsLawful (saving true) object_disk
      (saved (saving true) object_disk) refl refl

save_file_object_example :
    (g : File) × (find?
        (matches (codes "c1") (name_of (codes "./notes/a.md")))
        (saved (saving true) object_disk).files
      ≡ some g)
    × (g.versions
        ≡ version_of (written none (some (codes "c1/notes/a.md"))) (some "default") (codes "two")
          ∷ pruned (written none (some (codes "c1/notes/a.md"))).versions)
unfolding save_file strip safe_relative_path
save_file_object_example =
    save_file_object shelf shelf-IsLawful (saving true) object_disk
      (saved (saving true) object_disk) (written none (some (codes "c1/notes/a.md"))) refl refl refl
      refl refl refl

save_file-IsHistory_example : All IsHistory (saved (saving true) object_disk).files
unfolding save_file strip safe_relative_path
save_file-IsHistory_example =
    save_file-IsHistory shelf (saving true) object_disk (saved (saving true) object_disk)
      (written-IsHistory none (some (codes "c1/notes/a.md")), tt) refl
