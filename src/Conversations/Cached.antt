-- ===== src/Conversations/Cached.antt =====
-- The list of a user's conversations, with the cache of it.
use hermes_python.Prelude.{
  ℕ, ◌≡◌, refl, Bool, true, false, ◌&&◌, ◌||◌, not, Option, none, some, String, List, [], ◌∷◌, map,
  ◌==◌, nat_has_eq, string_has_eq, contains, keep, drop, take, min, max, ltb, Bool-cases, inl, inr,
  if◌then◌else◌,
}
use hermes_python.Conversations.{Conversation, Tables}

-- What is asked for. The search is the database's.
pub record Asked : Type 0 where
  pub q : Option String
  pub pinned_only : Bool
  pub limit : ℕ
  pub offset : ℕ

-- `f"{_CONV_LIST_CACHE_PREFIX}{owner_id}:{pinned_only}:{limit}"`, by its parts.
pub record Key : Type 0 where
  pub owner_id : ℕ
  pub pinned_only : Bool
  pub limit : ℕ

-- The cache of backend/app/core/redis.py, which keeps JSON texts; those here are lists of ids. A write may fail.
pub record Cache : Type 1 where
  pub State : Type 0
  pub get : State → Key → Option (List ℕ)
  pub set : State → Key → List ℕ → Option State
  pub delete_all : State → ℕ → State

-- A value that is written can be read, until it is written again, deleted, or its time is over.
pub record IsCache (c : Cache) : Type 0 where
  pub get-set :
      (s new : c.State) (k : Key) (ids : List ℕ) → c.set s k ids ≡ some new → c.get new k ≡ some ids
  pub get-delete_all : (s : c.State) (k : Key) → c.get (c.delete_all s k.owner_id) k ≡ none

-- What is given: the rows, or, as `json.loads` reads them, the texts of their ids.
pub data Listing : Type 0 where
  rows : List Conversation → Listing
  ids : List ℕ → Listing

-- Whether `q` is set and not empty.
abbrev pub searches : Option String → Bool
searches none = false
searches (some q) = not (q == "")

-- The rows of groups are those of which the user is a member, `groups`.
abbrev pub is_listed : ℕ → List ℕ → Conversation → Bool
is_listed u groups c = c.owner_id == u || (c.kind == "group" && contains c.id groups)

-- `order_by(pinned.desc(), updated_at.desc())`
abbrev pub goes_before : Conversation → Conversation → Bool
goes_before a b =
    let newer = not (ltb a.updated_at b.updated_at) in
    if a.pinned then not b.pinned || newer else not b.pinned && newer

unfoldable pub put_row : Conversation → List Conversation → List Conversation
put_row c [] = c ∷ []
put_row c (x ∷ xs) = if goes_before c x then c ∷ x ∷ xs else x ∷ put_row c xs

unfoldable pub sort_rows : List Conversation → List Conversation
unfolding put_row
sort_rows [] = []
sort_rows (c ∷ cs) = put_row c (sort_rows cs)

-- The query, with the database's search as a parameter.
unfoldable pub query :
    (String → Conversation → Bool) → ℕ → List ℕ → Asked → Tables → List Conversation
unfolding sort_rows
query found u groups a d = take (max 1 (min a.limit 200)) (
    drop a.offset (
      sort_rows (
        keep
          (λ c.
            is_listed u groups c
            && (not a.pinned_only || c.pinned)
            && elim a.q [ none ↦ true | some q ↦ q == "" || found q c ])
          d.convos)))

abbrev pub ids_of : List Conversation → List ℕ
ids_of cs = map (λ (c : Conversation). c.id) cs

module _ (c : Cache) (found : String → Conversation → Bool) where
  -- `if cache_key and result`, and the failure of the cache that is passed over.
  abbrev pub remembered : c.State → Key → List Conversation → c.State
  remembered s k [] = s
  remembered s k (x ∷ xs) = elim (c.set s k (ids_of (x ∷ xs))) [ none ↦ s | some new ↦ new ]

  abbrev pub key_of : ℕ → Asked → Key
  key_of u a = record { owner_id = u; pinned_only = a.pinned_only; limit = a.limit }

  unfoldable pub list_conversations : ℕ → List ℕ → Asked → Tables → c.State → Listing × c.State
  list_conversations u groups a d s =
      let result = query found u groups a d in
      if searches a.q || not (a.offset == 0)
      then (rows result, s)
      else elim (c.get s (key_of u a)) [
        | some cached ↦ (ids cached, s)
        | none ↦ (rows result, remembered s (key_of u a) result)
      ]

  -- `invalidate_conversation_cache`
  unfoldable pub invalidate_conversation_cache : ℕ → c.State → c.State
  invalidate_conversation_cache u s = c.delete_all s u

  module _ (law : IsCache c) (u : ℕ) (groups : List ℕ) (a : Asked) where
    -- After the cache is cleared for a user, the list is that of the tables.
    pub list_after_invalidation :
        (d : Tables) (s : c.State)
        → (list_conversations u groups a d (invalidate_conversation_cache u s)).0
          ≡ rows (query found u groups a d)
    unfolding list_conversations invalidate_conversation_cache
    list_after_invalidation d s = elim (Bool-cases (searches a.q || not (a.offset == 0))) [
      | inl y ↦ rw (y, list_conversations) refl
      | inr n ↦
          rw
            (
              n,
              law.get-delete_all s (key_of u a),
              list_conversations,
              invalidate_conversation_cache,
            )
            refl
    ]
