-- ===== src/Redis/Limits.antt =====
-- backend/app/core/ratelimit.py: how many messages a user may send in a minute, and how many were
-- sent in a month.
use hermes_python.Prelude.{
  ℕ, zero, suc, ◌+◌, ◌-◌, ◌≡◌, ◌≢◌, sym, ap, ◌∙◌, Bool, true, false, Option, none, some, arith,
  ◌==◌, nat_has_eq, leb, leb→le, min, max, Bool-cases, inl, inr, if◌then◌else◌,
}

-- The keys `rl:msg:{user}` and `usage:msg:{user}:{month}`.
pub data Key : Type 0 where
  sent : ℕ → Key
  usage : ℕ → ℕ → Key

-- The counters of Redis; one that there is not counts 0.
pub record Counters : Type 1 where
  pub State : Type 0
  pub count : State → Key → ℕ
  pub incr : State → Key → State × ℕ
  pub expire : State → Key → ℕ → State

-- `INCR` adds one to its own counter and gives the sum; `EXPIRE` changes no counter yet.
pub record IsCounters (c : Counters) : Type 0 where
  pub incr-count : (s : c.State) (k : Key) → (c.incr s k).1 ≡ c.count s k + 1
  pub count-incr : (s : c.State) (k : Key) → c.count (c.incr s k).0 k ≡ c.count s k + 1
  pub count-incr_other : (s : c.State) (k j : Key) → j ≢ k → c.count (c.incr s k).0 j ≡ c.count s j
  pub count-expire :
      (s : c.State) (k j : Key) (seconds : ℕ) → c.count (c.expire s k seconds) j ≡ c.count s j

-- What is stored under `cfg:rate_limit_per_min`: nothing, a text that is not a number, or a number.
abbrev pub get_rate_limit : Option (Option ℕ) → ℕ → ℕ
get_rate_limit none default = default
get_rate_limit (some none) default = default
get_rate_limit (some (some n)) default = n

abbrev pub set_rate_limit : ℕ → Option (Option ℕ)
set_rate_limit n = some (some (max 1 n))

one_more :
    (b : Bool) (n limit before now more : ℕ)
    → b ≡ leb (before + 1) limit
    → now ≡ before + 1
    → more ≡ min n (limit - now)
    → (if b then 1 else 0) + more ≡ min (suc n) (limit - before)
one_more true n limit before now more e h k = omega (arith, h, k, leb→le (before + 1) limit (sym e))
one_more false n limit before now more e h k = ground (arith, h, k, e)

module _ (c : Counters) where
  -- `INCR`, and `EXPIRE` when it is the first.
  unfoldable pub bump : Key → ℕ → c.State → c.State × ℕ
  bump k seconds s =
      let got = c.incr s k in ((if got.1 == 1 then c.expire got.0 k seconds else got.0), got.1)

  unfoldable pub hit : Key → ℕ → ℕ → c.State → c.State × Bool × ℕ
  unfolding bump
  hit k limit seconds s = let got = bump k seconds s in (got.0, leb got.1 limit, limit - got.1)

  unfoldable pub incr_monthly_messages : ℕ → ℕ → c.State → c.State × ℕ
  unfolding bump
  incr_monthly_messages u month s = bump (usage u month) 3456000 s

  unfoldable pub allow_send : ℕ → ℕ → ℕ → c.State → c.State × Bool
  unfolding hit incr_monthly_messages
  allow_send u month limit s =
      let got = hit (sent u) limit 60 s in
      ((if got.1 then (incr_monthly_messages u month got.0).0 else got.0), got.1)

  -- So many sends in one window and month, and how many of them were allowed.
  abbrev pub sends : ℕ → ℕ → ℕ → ℕ → c.State → c.State × ℕ
  sends zero u month limit s = (s, 0)
  sends (suc n) u month limit s =
      let got = allow_send u month limit s in
      let rest = sends n u month limit got.0 in (rest.0, (if got.1 then 1 else 0) + rest.1)

  module _ (law : IsCounters c) where
    count-bump :
        (k : Key) (seconds : ℕ) (s : c.State) → c.count (bump k seconds s).0 k ≡ c.count s k + 1
    unfolding bump
    count-bump k seconds s = elim (Bool-cases ((c.incr s k).1 == 1)) [
      | inl y ↦ rw (bump, y, law.count-expire (c.incr s k).0 k k seconds) (law.count-incr s k)
      | inr n ↦ rw (bump, n) (law.count-incr s k)
    ]

    count-bump_other :
        (k j : Key) (seconds : ℕ) (s : c.State)
        → j ≢ k
        → c.count (bump k seconds s).0 j ≡ c.count s j
    unfolding bump
    count-bump_other k j seconds s d = elim (Bool-cases ((c.incr s k).1 == 1)) [
      | inl y ↦
          rw (bump, y, law.count-expire (c.incr s k).0 k j seconds) (law.count-incr_other s k j d)
      | inr n ↦ rw (bump, n) (law.count-incr_other s k j d)
    ]

    bump-count : (k : Key) (seconds : ℕ) (s : c.State) → (bump k seconds s).1 ≡ c.count s k + 1
    unfolding bump
    bump-count k seconds s = law.incr-count s k

    apart : (u v month : ℕ) → sent u ≢ usage v month
    apart u v month = ground arith

    allow_send-sent :
        (u month limit : ℕ) (s : c.State)
        → c.count (allow_send u month limit s).0 (sent u) ≡ c.count s (sent u) + 1
    unfolding allow_send hit incr_monthly_messages
    allow_send-sent u month limit s = elim (Bool-cases (leb (bump (sent u) 60 s).1 limit)) [
      | inl y ↦
          rw (allow_send, hit, incr_monthly_messages, y)
            (count-bump_other (usage u month) (sent u) 3456000 (bump (sent u) 60 s).0
                (apart u u month)
              ∙ count-bump (sent u) 60 s)
      | inr n ↦ rw (allow_send, hit, n) (count-bump (sent u) 60 s)
    ]

    allow_send-usage :
        (u month limit : ℕ) (s : c.State)
        → c.count (allow_send u month limit s).0 (usage u month)
          ≡ c.count s (usage u month) + (if (allow_send u month limit s).1 then 1 else 0)
    unfolding allow_send hit incr_monthly_messages
    allow_send-usage u month limit s = elim (Bool-cases (leb (bump (sent u) 60 s).1 limit)) [
      | inl y ↦
          rw (allow_send, hit, incr_monthly_messages, y)
            (count-bump (usage u month) 3456000 (bump (sent u) 60 s).0
              ∙ ap (λ n. n + 1) (other u month s))
      | inr n ↦ rw (allow_send, hit, n) (other u month s ∙ omega arith)
    ]
      where
        other :
            (u month : ℕ) (s : c.State)
            → c.count (bump (sent u) 60 s).0 (usage u month) ≡ c.count s (usage u month)
        other u month s =
            count-bump_other (sent u) (usage u month) 60 s (λ e. apart u u month (sym e))

    allow_send_lem :
        (u month limit : ℕ) (s : c.State)
        → (allow_send u month limit s).1 ≡ leb (c.count s (sent u) + 1) limit
    unfolding allow_send hit
    allow_send_lem u month limit s = ap (λ n. leb n limit) (bump-count (sent u) 60 s)

    -- Of the sends of a user in one window exactly as many are allowed as the limit has left, the first
    -- ones; and the count of the month grows by those and no others.
    pub sends_lem :
        (n u month limit : ℕ) (s : c.State)
        → ((sends n u month limit s).1 ≡ min n (limit - c.count s (sent u)))
          × (c.count (sends n u month limit s).0 (usage u month)
              ≡ c.count s (usage u month) + (sends n u month limit s).1)
    sends_lem zero u month limit s = (omega arith, omega arith)
    sends_lem (suc n) u month limit s =
        let new = (allow_send u month limit s).0 in
        let rest = sends_lem n u month limit new in
        (
          one_more (allow_send u month limit s).1 n limit (c.count s (sent u))
              (c.count new (sent u)) (sends n u month limit new).1 (allow_send_lem u month limit s)
              (allow_send-sent u month limit s) rest.0,
          omega (arith, rest.1, allow_send-usage u month limit s),
        )
