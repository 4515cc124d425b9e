-- ===== src/Workspace/Versions.antt =====
-- The rows of a file's versions: their numbers fall, and stay below the current one.
use hermes_python.Prelude.{
  ℕ, zero, suc, ◌+◌, ◌≤◌, ◌<◌, ◌≡◌, refl, Option, none, some, String, List, [], ◌∷◌, ◌++◌, arith,
  length, take, length-take,
}
use hermes_python.Texts.{Text}
use hermes_python.Workspace.{Version, File, insert_desc, sort_desc, pruned, archived}

abbrev pub Below : ℕ → List Version → Type 0
Below n [] = Unit
Below n (v ∷ vs) = (v.version_num < n) × Below v.version_num vs

pub Below-mono : (m n : ℕ) (vs : List Version) → m ≤ n → Below m vs → Below n vs
Below-mono m n [] h b = tt
Below-mono m n (v ∷ vs) h b = (omega arith, b.1)

insert_desc-Below :
    (v : Version) (vs : List Version) → Below v.version_num vs → insert_desc v vs ≡ v ∷ vs
unfolding insert_desc
insert_desc-Below v [] b = refl
insert_desc-Below v (w ∷ ws) b = ground arith

-- Rows whose numbers fall are in the order of the query.
pub sort_desc-Below : (n : ℕ) (vs : List Version) → Below n vs → sort_desc vs ≡ vs
unfolding sort_desc
sort_desc-Below n [] b = refl
sort_desc-Below n (v ∷ vs) b =
    ground (arith, sort_desc-Below v.version_num vs b.1, insert_desc-Below v vs b.1)

take-Below : (k n : ℕ) (vs : List Version) → Below n vs → Below n (take k vs)
take-Below zero n vs b = tt
take-Below (suc k) n [] b = tt
take-Below (suc k) n (v ∷ vs) b = (b.0, take-Below k v.version_num vs b.1)

pub pruned-Below : (n : ℕ) (vs : List Version) → Below n vs → Below n (pruned vs)
pruned-Below n vs b = ground (arith, sort_desc-Below n vs b, take-Below 9 n vs b)

pub length-pruned-le : (vs : List Version) → length (pruned vs) ≤ 9
length-pruned-le vs = omega (arith, length-take 9 (sort_desc vs))

-- At most ten versions are kept, each with a number of its own below the current one.
pub record IsHistory (f : File) : Type 0 where
  pub falling : Below f.current_version f.versions
  pub short : length f.versions ≤ 10

pub archived-Below :
    (f : File) (author : Option String) (old : Option Text) (vs : List Version)
    → Below f.current_version vs
    → Below (f.current_version + 1) (archived f author old ++ vs)
archived-Below f author none vs b =
    Below-mono f.current_version (f.current_version + 1) vs (omega arith) b
archived-Below f author (some []) vs b =
    Below-mono f.current_version (f.current_version + 1) vs (omega arith) b
archived-Below f author (some (c ∷ t)) vs b = (omega arith, b)

pub length-archived-le :
    (f : File) (author : Option String) (old : Option Text) → length (archived f author old) ≤ 1
length-archived-le f author none = omega arith
length-archived-le f author (some []) = omega arith
length-archived-le f author (some (c ∷ t)) = omega arith
