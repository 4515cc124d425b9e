-- ===== src/Redis/Lock.antt =====
-- The lock of the runner and its heartbeat: `_acquire_lock`, `_refresh_lock`, `_release_lock` and
-- `_heartbeat_loop` of backend/agent_runner/runner.py. Times are seconds.
use hermes_python.Prelude.{
  ℕ, zero, suc, ◌+◌, ◌*◌, ◌/◌, ◌%◌, ◌≤◌, ◌<◌, ◌≡◌, ◌≢◌, refl, sym, ap, ◌∙◌, Bool, true, false, ◌&&◌,
  not, Option, none, some, String, List, [], ◌∷◌, arith, ◌==◌, string_has_eq, leb, leb→le, ==_refl,
  ==_ne, Bool-cases, inl, inr, if◌then◌else◌,
}

-- The one key of Redis. `holder` is what `GET` gives at a time.
pub record Locks : Type 1 where
  pub State : Type 0
  pub holder : State → ℕ → Option String
  pub set_nx : State → ℕ → String → ℕ → State × Bool
  pub expire : State → ℕ → ℕ → State
  pub delete_if : State → ℕ → String → State

-- `SET NX EX` takes the key only when it is free; a key stands until its time is over, and `EXPIRE`
-- gives it that time anew; the script deletes it only for who holds it.
pub record IsLocks (c : Locks) : Type 0 where
  pub set_nx_free :
      (s : c.State) (now ttl : ℕ) (t : String)
      → c.holder s now ≡ none
      → (c.set_nx s now t ttl).1 ≡ true
  pub holder-set_nx :
      (s : c.State) (now ttl later : ℕ) (t : String)
      → c.holder s now ≡ none
      → now ≤ later
      → later < now + ttl
      → c.holder (c.set_nx s now t ttl).0 later ≡ some t
  pub set_nx_held :
      (s : c.State) (now ttl : ℕ) (t other : String)
      → c.holder s now ≡ some other
      → c.set_nx s now t ttl ≡ (s, false)
  pub holder-expire :
      (s : c.State) (now ttl later : ℕ) (t : String)
      → c.holder s now ≡ some t
      → now ≤ later
      → later < now + ttl
      → c.holder (c.expire s now ttl) later ≡ some t
  pub delete_if_other :
      (s : c.State) (now : ℕ) (t other : String)
      → c.holder s now ≡ some other
      → t ≢ other
      → c.delete_if s now t ≡ s

abbrev pub is_holder : String → Option String → Bool
is_holder t none = false
is_holder t (some u) = u == t

module _ (c : Locks) where
  -- The token is a new one for each runner.
  unfoldable pub acquire_lock : String → ℕ → c.State → c.State × Bool
  acquire_lock t now s = c.set_nx s now t 30

  -- `GET` and `EXPIRE`, taken as one command.
  unfoldable pub refresh_lock : Option String → ℕ → c.State → c.State
  refresh_lock none now s = s
  refresh_lock (some t) now s = if is_holder t (c.holder s now) then c.expire s now 30 else s

  unfoldable pub release_lock : Option String → ℕ → c.State → c.State
  release_lock none now s = s
  release_lock (some t) now s = c.delete_if s now t

  -- What runners do: the one that has the lock beats, and others, each by its token, try to get it,
  -- beat or leave.
  pub data Move : Type 0 where
    beats : ℕ → Move
    tries : String → ℕ → Move
    beats_other : String → ℕ → Move
    leaves : String → ℕ → Move

  unfoldable pub move : String → Move → c.State → c.State
  unfolding acquire_lock refresh_lock release_lock
  move mine (beats now) s = refresh_lock (some mine) now s
  move mine (tries t now) s = (acquire_lock t now s).0
  move mine (beats_other t now) s = refresh_lock (some t) now s
  move mine (leaves t now) s = release_lock (some t) now s

  unfoldable pub moves : String → List Move → c.State → c.State
  unfolding move
  moves mine [] s = s
  moves mine (m ∷ ms) s = moves mine ms (move mine m s)

  -- Whether each try of the others failed.
  unfoldable pub all_fail : String → List Move → c.State → Bool
  unfolding move
  all_fail mine [] s = true
  all_fail mine (tries t now ∷ ms) s =
      not (acquire_lock t now s).1 && all_fail mine ms (move mine (tries t now) s)
  all_fail mine (beats now ∷ ms) s = all_fail mine ms (move mine (beats now) s)
  all_fail mine (beats_other t now ∷ ms) s = all_fail mine ms (move mine (beats_other t now) s)
  all_fail mine (leaves t now ∷ ms) s = all_fail mine ms (move mine (leaves t now) s)

  -- Every move comes before the lock is over that was refreshed last, at the given time.
  abbrev pub Timely : String → ℕ → List Move → Type 0
  Timely mine last [] = Unit
  Timely mine last (beats now ∷ ms) = (last ≤ now) × (now < last + 30) × Timely mine now ms
  Timely mine last (tries t now ∷ ms) = (last ≤ now) × (now < last + 30) × Timely mine last ms
  Timely mine last (beats_other t now ∷ ms) =
      (last ≤ now) × (now < last + 30) × (t ≢ mine) × Timely mine last ms
  Timely mine last (leaves t now ∷ ms) =
      (last ≤ now) × (now < last + 30) × (t ≢ mine) × Timely mine last ms

  module _ (law : IsLocks c) (mine : String) where
    abbrev Held : ℕ → c.State → Type 0
    Held last s = (later : ℕ) → last ≤ later → later < last + 30 → c.holder s later ≡ some mine

    refresh_other :
        (t : String) (now : ℕ) (s : c.State)
        → c.holder s now ≡ some mine
        → t ≢ mine
        → refresh_lock (some t) now s ≡ s
    unfolding refresh_lock
    refresh_other t now s h d = rw (h, refresh_lock, ==_ne mine t (λ e. d (sym e))) refl

    refresh_mine :
        (now : ℕ) (s : c.State)
        → c.holder s now ≡ some mine
        → refresh_lock (some mine) now s ≡ c.expire s now 30
    unfolding refresh_lock
    refresh_mine now s h = rw (h, refresh_lock, ==_refl mine) refl

    -- While the lock is refreshed in time, each other runner that tries to get it fails.
    all_fail_lem :
        (ms : List Move) (last : ℕ) (s : c.State)
        → Held last s
        → Timely mine last ms
        → all_fail mine ms s ≡ true
    unfolding all_fail move acquire_lock release_lock
    all_fail_lem [] last s h t = refl
    all_fail_lem (beats now ∷ ms) last s h t =
        all_fail_lem ms now (refresh_lock (some mine) now s)
          (λ later l u.
            ap (λ z. c.holder z later) (refresh_mine now s (h now t.0 t.1))
            ∙ law.holder-expire s now 30 later mine (h now t.0 t.1) l u)
          t.2
    all_fail_lem (tries o now ∷ ms) last s h t =
        ap (λ z. not z.1 && all_fail mine ms z.0) (law.set_nx_held s now 30 o mine (h now t.0 t.1))
        ∙ all_fail_lem ms last s h t.2
    all_fail_lem (beats_other o now ∷ ms) last s h t =
        ap (all_fail mine ms) (refresh_other o now s (h now t.0 t.1) t.2)
        ∙ all_fail_lem ms last s h t.3
    all_fail_lem (leaves o now ∷ ms) last s h t =
        ap (all_fail mine ms) (law.delete_if_other s now o mine (h now t.0 t.1) t.2)
        ∙ all_fail_lem ms last s h t.3

    -- A runner that got the lock keeps it from every other, as long as it refreshes it in time: no try
    -- of another succeeds, whatever the others do meanwhile.
    pub acquire_lock-all_fail :
        (ms : List Move) (now : ℕ) (s : c.State)
        → c.holder s now ≡ none
        → Timely mine now ms
        → ((acquire_lock mine now s).1 ≡ true)
          × (all_fail mine ms (acquire_lock mine now s).0 ≡ true)
    unfolding acquire_lock
    acquire_lock-all_fail ms now s h t = (
      law.set_nx_free s now 30 mine h,
      all_fail_lem ms now (acquire_lock mine now s).0
          (λ later l u. law.holder-set_nx s now 30 later mine h l u) t,
    )

-- The counters of `_heartbeat_loop`, and how often it reclaimed and evicted.
pub record Beats : Type 0 where
  pub reclaim_counter : ℕ
  pub evict_counter : ℕ
  pub reclaims : ℕ
  pub evictions : ℕ

abbrev pub no_beats : Beats
no_beats = record { reclaim_counter = 0; evict_counter = 0; reclaims = 0; evictions = 0 }

-- Once round the loop, every 10 seconds.
unfoldable pub beat : Beats → Beats
beat b =
    let r = b.reclaim_counter + 1 in
    let e = b.evict_counter + 1 in
    let due = leb 30 (r * 10) in
    let idle = leb 300 (e * 10) in
    record {
      reclaim_counter = if due then 0 else r;
      evict_counter = if idle then 0 else e;
      reclaims = b.reclaims + (if due then 1 else 0);
      evictions = b.evictions + (if idle then 1 else 0);
    }

unfoldable pub beats_for : ℕ → Beats
unfolding beat
beats_for zero = no_beats
beats_for (suc n) = beat (beats_for n)

every_third :
    (r k n : ℕ)
    → r ≡ n % 3
    → k ≡ n / 3
    → ((if leb 30 ((r + 1) * 10) then 0 else r + 1) ≡ suc n % 3)
      × (k + (if leb 30 ((r + 1) * 10) then 1 else 0) ≡ suc n / 3)
every_third r k n h i = elim (Bool-cases (leb 30 ((r + 1) * 10))) [
  | inl y ↦ rw y (
    omega (arith, h, i, leb→le 30 ((r + 1) * 10) y),
    omega (arith, h, i, leb→le 30 ((r + 1) * 10) y),
  )
  | inr n' ↦ rw n' (omega (arith, h, i, below n'), omega (arith, h, i, below n'))
]
  where
    below : leb 30 ((r + 1) * 10) ≡ false → (r + 1) * 10 < 30
    below e = ground (arith, e)

every_thirtieth :
    (r k n : ℕ)
    → r ≡ n % 30
    → k ≡ n / 30
    → ((if leb 300 ((r + 1) * 10) then 0 else r + 1) ≡ suc n % 30)
      × (k + (if leb 300 ((r + 1) * 10) then 1 else 0) ≡ suc n / 30)
every_thirtieth r k n h i = elim (Bool-cases (leb 300 ((r + 1) * 10))) [
  | inl y ↦ rw y (
    omega (arith, h, i, leb→le 300 ((r + 1) * 10) y),
    omega (arith, h, i, leb→le 300 ((r + 1) * 10) y),
  )
  | inr n' ↦ rw n' (omega (arith, h, i, below n'), omega (arith, h, i, below n'))
]
  where
    below : leb 300 ((r + 1) * 10) ≡ false → (r + 1) * 10 < 300
    below e = ground (arith, e)

counters :
    (n : ℕ)
    → ((beats_for n).reclaim_counter ≡ n % 3)
      × ((beats_for n).evict_counter ≡ n % 30)
      × ((beats_for n).reclaims ≡ n / 3)
      × ((beats_for n).evictions ≡ n / 30)
unfolding beats_for beat
counters zero = (omega arith, omega arith, omega arith, omega arith)
counters (suc n) =
    let h = counters n in
    let r = every_third (beats_for n).reclaim_counter (beats_for n).reclaims n h.0 h.2 in
    let e = every_thirtieth (beats_for n).evict_counter (beats_for n).evictions n h.1 h.3 in
    (r.0, e.0, r.1, e.1)

-- In so many rounds of 10 seconds, stale prompts are reclaimed once for every 30 seconds that are
-- over, and idle sessions are evicted once for every 300.
pub beats_for_lem :
    (n : ℕ) → ((beats_for n).reclaims ≡ n * 10 / 30) × ((beats_for n).evictions ≡ n * 10 / 300)
beats_for_lem n = let h = counters n in (omega (arith, h.2), omega (arith, h.3))
