-- ===== src/Redis/Stream.antt =====
-- The events of a conversation: publishing them, and the stream of them to a client that may come
-- back (`publish_event` and `read_events` of backend/app/core/redis.py, `stream` of
-- backend/app/api/v1/conversations.py).
use hermes_python.Prelude.{
  ℕ, ◌+◌, ◌<◌, ◌≡◌, Bool, true, false, Option, none, some, String, List, [], ◌∷◌, ◌++◌, keep, take,
  length, ltb,
}

-- An entry's id and its field `data`.
pub record Entry : Type 0 where
  pub id : ℕ
  pub data_field : String

-- A Redis Stream. Adding may fail.
pub record Streams : Type 1 where
  pub State : Type 0
  pub entries : State → List Entry
  pub add : State → String → Option State
  pub read : State → ℕ → ℕ → List Entry

-- The id of the newest entry, 0 if there is none.
abbrev pub last_of : ℕ → List Entry → ℕ
last_of n [] = n
last_of n (e ∷ es) = last_of e.id es

-- Ids grow.
abbrev pub Growing : ℕ → List Entry → Type 0
Growing n [] = Unit
Growing n (e ∷ es) = (n < e.id) × Growing e.id es

abbrev pub is_after : ℕ → Entry → Bool
is_after n e = ltb n e.id

-- `EVENT_STREAM_MAXLEN`
abbrev pub maxlen : ℕ
maxlen = 2000

-- `XADD` puts an entry behind the others, under an id above theirs. `MAXLEN ~` cuts off older ones, but
-- none from a stream with that many or fewer, so that of a longer one nothing is said. `XREAD` gives the
-- first of those after an id. That the stream runs out, a day after its last event, is left out.
pub record IsStreams (c : Streams) : Type 0 where
  pub entries-add :
      (s new : c.State) (text : String)
      → length (c.entries s) < maxlen
      → c.add s text ≡ some new
      → (id : ℕ) × (last_of 0 (c.entries s) < id)
        × (c.entries new ≡ c.entries s ++ record { id = id; data_field = text } ∷ [])
  pub read-entries :
      (s : c.State) (after count : ℕ)
      → c.read s after count ≡ take count (keep (is_after after) (c.entries s))

module _ (c : Streams) where
  abbrev pub latest_event_id : c.State → ℕ
  latest_event_id s = last_of 0 (c.entries s)

  abbrev pub read_events : c.State → ℕ → List Entry
  read_events s after = c.read s after 256

  -- Two attempts, of which each may add the event. A first that fails adds nothing, unless only its
  -- answer was lost, as the flag says: then the event is added again. None is that nothing was added.
  unfoldable pub publish_event : Bool → String → c.State → Option c.State
  publish_event unanswered text s = elim (c.add s text) [
    | none ↦ none
    | some new ↦ elim unanswered [
      | true ↦ elim (c.add new text) [ none ↦ some new | some more ↦ some more ]
      | false ↦ some new
    ]
  ]

  -- A client: the id of the last frame it has, or the `since` it came with; where the server's loop
  -- for it is; and what it received.
  pub record Client : Type 0 where
    pub resume : Option ℕ
    pub last_id : ℕ
    pub received : List Entry

  -- `last_id = resume_id or await redis_core.latest_event_id(cid)`
  unfoldable pub opened : c.State → Option ℕ → List Entry → Client
  opened s resume received = record {
    resume = resume;
    last_id = elim resume [ none ↦ latest_event_id s | some n ↦ n ];
    received = received;
  }

  -- The id of the last frame that came; with none, the one there was.
  abbrev pub resumed : Option ℕ → List Entry → Option ℕ
  resumed old [] = old
  resumed old (e ∷ es) = some (last_of e.id es)

  -- Frames that the client gets, one after the other.
  unfoldable pub handed : Client → List Entry → Client
  handed k es = record {
    resume = resumed k.resume es;
    last_id = last_of k.last_id es;
    received = k.received ++ es;
  }

  -- What happens: an event is published; the loop of `event_gen` goes round once; or the connection is
  -- lost after so many frames of a round, and opened again with the `Last-Event-ID` of the client.
  pub data Happening : Type 0 where
    publishes : Bool → String → Happening
    goes_round : Happening
    breaks_after : ℕ → Happening

  unfoldable pub happen : Happening → c.State → Client → c.State × Client
  unfolding publish_event handed opened
  happen (publishes unanswered text) s k = elim (publish_event unanswered text s) [
    | none ↦ (s, k)
    | some new ↦ (new, k)
  ]
  happen goes_round s k = (s, handed k (read_events s k.last_id))
  happen (breaks_after n) s k =
      let seen = handed k (take n (read_events s k.last_id)) in
      (s, opened s seen.resume seen.received)

  abbrev pub happen_all : List Happening → c.State → Client → c.State × Client
  happen_all [] s k = (s, k)
  happen_all (x ∷ xs) s k = let next = happen x s k in happen_all xs next.0 next.1

  -- How many entries the happenings add at most: an event is added twice if the first answer is lost.
  abbrev pub adds_at_most : List Happening → ℕ
  adds_at_most [] = 0
  adds_at_most (publishes unanswered text ∷ xs) = 2 + adds_at_most xs
  adds_at_most (goes_round ∷ xs) = adds_at_most xs
  adds_at_most (breaks_after n ∷ xs) = adds_at_most xs
