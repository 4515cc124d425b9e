-- ===== src/Files/Upload.antt =====
-- The capped read keeps the whole upload or none of it, and never holds more than one chunk above
-- the limit.
use mathlib.Core.List.{append-nil, append_assoc}
use hermes_python.Prelude.{
  ℕ, ◌+◌, ◌≤◌, ◌≡◌, List, [], ◌∷◌, ◌++◌, arith, length, length-append, ltb, if◌then◌else◌,
}
use hermes_python.Texts.{Text, is_empty}
use hermes_python.Files.{too_large, content, read_from, read_upload_capped}

-- What the stream holds: its chunks up to the first empty one.
abbrev pub body : List Text → Text
body [] = []
body (chunk ∷ rest) = let more = chunk ++ body rest in if is_empty chunk then [] else more

read_from-body :
    (max_bytes : ℕ) (stream : List Text) (chunks : Text)
    → length chunks ≤ max_bytes
    → read_from max_bytes stream chunks (length chunks) ≡ (
        if ltb max_bytes (length chunks + length (body stream))
        then too_large
        else content (chunks ++ body stream))
unfolding read_from
read_from-body max_bytes [] chunks h = ground (arith, append-nil chunks)
read_from-body max_bytes ([] ∷ rest) chunks h = ground (arith, append-nil chunks)
read_from-body max_bytes ((b ∷ chunk) ∷ rest) chunks h = ground (
  arith,
  length-append chunks (b ∷ chunk),
  length-append (b ∷ chunk) (body rest),
  append_assoc chunks (b ∷ chunk) (body rest),
  read_from-body max_bytes rest (chunks ++ (b ∷ chunk)),
)

-- The read returns the whole body if it fits in `max_bytes`, and aborts if it does not.
pub read_upload_capped-body :
    (stream : List Text) (max_bytes : ℕ)
    → read_upload_capped stream max_bytes
      ≡ (if ltb max_bytes (length (body stream)) then too_large else content (body stream))
unfolding read_upload_capped
read_upload_capped-body stream max_bytes =
    ground (arith, read_from-body max_bytes stream [] (omega arith))
