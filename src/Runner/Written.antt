-- ===== src/Runner/Written.antt =====
-- The files of a turn: an entry for each, with its last version; and those found in its text.
use hermes_python.Prelude.{
  ℕ, suc, ◌≤◌, ◌≡◌, refl, Option, none, some, List, [], ◌∷◌, arith, ◌==◌, nat_has_eq, max, contains,
  find?, if◌then◌else◌,
}
use hermes_python.Texts.{Text}
use hermes_python.Texts.Same.{text_has_eq, text_eq_iff}
use hermes_python.Runner.{FileEntry, Run, put_file, on_fs_write}
use hermes_python.Runner.Single.{unique}

abbrev pub file_of : ℕ → List FileEntry → Option FileEntry
file_of i fs = find? (λ (f : FileEntry). f.id == i) fs

file_of-put_file :
    (i : ℕ) (f : FileEntry) (fs : List FileEntry)
    → file_of i (put_file f fs) ≡ (if f.id == i then some f else file_of i fs)
unfolding put_file
file_of-put_file i f [] = refl
file_of-put_file i f (g ∷ gs) = ground (
  arith,
  file_of-put_file i f gs,
  nat_has_eq.same_iff g.id f.id,
  nat_has_eq.same_iff g.id i,
  nat_has_eq.same_iff f.id i,
)

abbrev pub mentions : ℕ → List FileEntry → ℕ
mentions i [] = 0
mentions i (f ∷ fs) = let rest = mentions i fs in if f.id == i then suc rest else rest

mentions-put_file :
    (i : ℕ) (f : FileEntry) (fs : List FileEntry)
    → mentions i (put_file f fs) ≡ (if f.id == i then max 1 (mentions i fs) else mentions i fs)
unfolding put_file
mentions-put_file i f [] = ground arith
mentions-put_file i f (g ∷ gs) = ground (
  arith,
  mentions-put_file i f gs,
  nat_has_eq.same_iff g.id f.id,
  nat_has_eq.same_iff g.id i,
  nat_has_eq.same_iff f.id i,
)

-- A write leaves its own entry for its file and the others' as they were, and no file's entries
-- grow beyond one.
pub on_fs_write_lem :
    (f : FileEntry) (r : Run) (i : ℕ)
    → (file_of i (on_fs_write f r).acc.files
        ≡ (if f.id == i then some f else file_of i r.acc.files))
      × (mentions i (on_fs_write f r).acc.files ≤ max 1 (mentions i r.acc.files))
unfolding on_fs_write
on_fs_write_lem f r i =
    (file_of-put_file i f r.acc.files, ground (arith, mentions-put_file i f r.acc.files))

abbrev pub content_of : Text → List (Text × Text) → Option Text
content_of name [] = none
content_of name ((n, c) ∷ more) =
    let rest = content_of name more in if n == name then some c else rest

abbrev pub times : Text → List (Text × Text) → ℕ
times name [] = 0
times name ((n, c) ∷ more) = let rest = times name more in if n == name then suc rest else rest

unique_content :
    (name : Text) (seen : List Text) (xs : List (Text × Text))
    → content_of name (unique seen xs) ≡ (if contains name seen then none else content_of name xs)
unfolding unique
unique_content name seen [] = ground arith
unique_content name seen ((n, c) ∷ more) = ground (
  arith,
  unique_content name seen more,
  unique_content name (n ∷ seen) more,
  text_eq_iff n name,
  text_eq_iff name n,
)

times-unique :
    (name : Text) (seen : List Text) (xs : List (Text × Text))
    → times name (unique seen xs) ≤ (if contains name seen then 0 else 1)
unfolding unique
times-unique name seen [] = ground arith
times-unique name seen ((n, c) ∷ more) = ground (
  arith,
  times-unique name seen more,
  times-unique name (n ∷ seen) more,
  text_eq_iff n name,
  text_eq_iff name n,
)

-- Of the files found in a text each name is kept once, with the first content found for it.
pub unique_lem :
    (name : Text) (xs : List (Text × Text))
    → (content_of name (unique [] xs) ≡ content_of name xs) × (times name (unique [] xs) ≤ 1)
unique_lem name xs = (unique_content name [] xs, times-unique name [] xs)
