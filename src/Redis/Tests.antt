-- ===== src/Redis/Tests.antt =====
-- A Redis in memory, and runs on it.
use hermes_python.Prelude.{
  ℕ, suc, ◌+◌, ◌-◌, ◌≡◌, ◌≢◌, refl, sym, ap, Bool, true, false, false≢true, ◌&&◌, not, Option, none,
  some, String, List, [], ◌∷◌, ◌++◌, arith, ◌==◌, nat_has_eq, string_has_eq, ==_refl, ==_ne, keep,
  take, ltb, lt→ltb, Bool-cases, inl, inr, if◌then◌else◌,
}
use hermes_python.Redis.Limits.{Key, sent, usage, Counters, IsCounters, sends, sends_lem}
use hermes_python.Redis.Stream.{
  Entry, Streams, IsStreams, last_of, is_after, Happening, publishes, goes_round, breaks_after,
  Client, opened, happen_all,
}
use hermes_python.Redis.Delivered.{received_all}
use hermes_python.Redis.Wakeup.{
  Bus, IsBus, waits, answers, notifies_other, cancels, Event, polling, returned, step, steps,
}
use hermes_python.Redis.Answered.{five, begun, answer_arrives}
use hermes_python.Redis.Lock.{
  Locks, IsLocks, is_holder, Move, beats, tries, leaves, acquire_lock, all_fail,
  acquire_lock-all_fail, beats_for, beats_for_lem,
}

-- Counters in a function.
abbrev is_key : Key → Key → Bool
is_key (sent u) (sent v) = u == v
is_key (usage u m) (usage v n) = u == v && m == n
is_key (sent u) (usage v n) = false
is_key (usage u m) (sent v) = false

is_key_refl : (k : Key) → is_key k k ≡ true
is_key_refl (sent u) = ==_refl u
is_key_refl (usage u m) = ground (arith, ==_refl u, ==_refl m)

is_key_ne : (j k : Key) → j ≢ k → is_key j k ≡ false
is_key_ne (sent u) (sent v) d = ==_ne u v (λ e. d (ap sent e))
is_key_ne (usage u m) (usage v n) d = elim (Bool-cases (u == v && m == n)) [
  | inl y ↦ ground (arith, d, nat_has_eq.same_iff u v, nat_has_eq.same_iff m n)
  | inr k ↦ k
]
is_key_ne (sent u) (usage v n) d = refl
is_key_ne (usage u m) (sent v) d = refl

abbrev tally : Counters
tally = record {
  State = Key → ℕ;
  count = λ s k. s k;
  incr = λ s k. ((λ j. if is_key j k then s j + 1 else s j), s k + 1);
  expire = λ s k seconds. s;
}

tally-IsCounters : IsCounters tally
tally-IsCounters = record {
  incr-count = λ s k. refl;
  count-incr = λ s k. rw (is_key_refl k) refl;
  count-incr_other = λ s k j d. rw (is_key_ne j k d) refl;
  count-expire = λ s k j seconds. refl;
}

abbrev ten_sends : (Key → ℕ) × ℕ
ten_sends = sends tally 10 1 202501 3 (λ k. 0)

sends_lem_example : (ten_sends.1 ≡ 3) × (ten_sends.0 (usage 1 202501) ≡ 0 + ten_sends.1)
sends_lem_example = sends_lem tally tally-IsCounters 10 1 202501 3 (λ k. 0)

-- A stream in a list.
abbrev listed : Streams
listed = record {
  State = List Entry;
  entries = λ s. s;
  add = λ s text. some (s ++ record { id = suc (last_of 0 s); data_field = text } ∷ []);
  read = λ s after count. take count (keep (is_after after) s);
}

listed-IsStreams : IsStreams listed
listed-IsStreams = record {
  entries-add = λ s new text room e. (
    suc (last_of 0 s),
    omega arith,
    ap (λ (o : Option (List Entry)). elim o [ none ↦ s | some t ↦ t ]) (sym e),
  );
  read-entries = λ s after count. refl;
}

abbrev so_far : List Entry
so_far = record { id = 4; data_field = "a" } ∷ []

abbrev happenings : List (Happening listed)
happenings =
    publishes false "b"
    ∷ publishes true "c"
    ∷ breaks_after 1
    ∷ publishes false "d"
    ∷ goes_round
    ∷ []

abbrev at_end : List Entry × Client listed
at_end = happen_all listed happenings so_far (opened listed so_far (some 4) [])

received_all_example : at_end.1.received ≡ keep (is_after 4) at_end.0
unfolding opened hermes_python.Redis.Stream.happen hermes_python.Redis.Stream.publish_event
    hermes_python.Redis.Stream.handed
received_all_example =
    received_all listed listed-IsStreams 4 happenings so_far (omega arith, tt) (omega arith)
      (omega arith) refl

-- One key, one channel with one subscriber, and a flag.
record Line : Type 0 where
  value : Option String
  subscriber : Bool
  confirmed : Bool
  queued : ℕ
  cancelled : Bool

abbrev line : Bus
line = record {
  State = Line;
  stored = λ l. l.value;
  is_subscribed = λ l. l.subscriber;
  waiting = λ l. l.queued;
  is_confirmed = λ l. l.confirmed;
  is_cancelled = λ l. l.cancelled;
  subscribe = λ l. record l { subscriber = true };
  get_message = λ l. (
    record l { confirmed = true; queued = if l.confirmed then l.queued - 1 else l.queued },
    l.confirmed && not (l.queued == 0),
  );
  set = λ l v. record l { value = some v };
  delete = λ l. record l { value = none };
  publish = λ l. record l { queued = l.queued + (if l.subscriber then 1 else 0) };
  cancel = λ l. record l { cancelled = true };
}

line-IsBus : IsBus line
line-IsBus = record {
  stored-subscribe = λ l. refl;
  is_subscribed-subscribe = λ l. refl;
  stored-get_message = λ l. refl;
  is_subscribed-get_message = λ l. refl;
  is_cancelled-get_message = λ l. refl;
  is_confirmed-get_message = λ l. refl;
  get_message_confirms = λ l h. (rw h refl, rw h refl);
  get_message_none = λ l y h. ground (arith, y, h, nat_has_eq.same_iff l.queued 0);
  stored-set = λ l v. refl;
  is_subscribed-set = λ l v. refl;
  stored-publish = λ l. refl;
  is_subscribed-publish = λ l. refl;
  waiting-publish = λ l h. rw h refl;
  stored-cancel = λ l. refl;
  is_subscribed-cancel = λ l. refl;
  waiting-cancel = λ l. refl;
}

abbrev silent : Line
silent = record {
  value = none;
  subscriber = false;
  confirmed = false;
  queued = 0;
  cancelled = false;
}

-- The answer is stored and published after the first look, before any poll.
abbrev interleaved : List Event
interleaved = waits ∷ waits ∷ answers ∷ notifies_other ∷ cancels ∷ answers ∷ []

answer_arrives_example :
    (steps line false "yes"
      (five line line-IsBus false "yes")
      (steps line false "yes" interleaved (begun line line-IsBus false "yes" silent))).phase
    ≡ returned "yes"
unfolding step hermes_python.Redis.Wakeup.wait_step hermes_python.Redis.Wakeup.respond_step
answer_arrives_example =
    answer_arrives line line-IsBus false "yes" interleaved silent refl refl refl refl

-- A lock: its token, and when it is over.
abbrev standing : Option (String × ℕ) → ℕ → Option String
standing none now = none
standing (some h) now = if ltb now h.1 then some h.0 else none

abbrev key : Locks
key = record {
  State = Option (String × ℕ);
  holder = standing;
  set_nx = λ s now t ttl. elim (standing s now) [
    | none ↦ (some (t, now + ttl), true)
    | some o ↦ (s, false)
  ];
  expire = λ s now ttl. elim (standing s now) [ none ↦ none | some t ↦ some (t, now + ttl) ];
  delete_if = λ s now t. if is_holder t (standing s now) then none else s;
}

key-IsLocks : IsLocks key
key-IsLocks = record {
  set_nx_free = λ s now ttl t h. rw (key, h) refl;
  holder-set_nx = λ s now ttl later t h l u. rw (key, h, lt→ltb later (now + ttl) u) refl;
  set_nx_held = λ s now ttl t other h. rw (key, h) refl;
  holder-expire = λ s now ttl later t h l u. rw (key, h, lt→ltb later (now + ttl) u) refl;
  delete_if_other = λ s now t other h d. rw (key, h, ==_ne other t (λ e. d (sym e))) refl;
}

abbrev other : String
other = "b"

not_a : other ≢ "a"
not_a e = false≢true (sym (ap (λ (t : String). t == "b") e))

abbrev busy_minute : List (Move key)
busy_minute = beats 110 ∷ tries "b" 115 ∷ beats 120 ∷ leaves "b" 125 ∷ tries "c" 149 ∷ []

acquire_lock-all_fail_example :
    ((acquire_lock key "a" 100 none).1 ≡ true)
    × (all_fail key "a" busy_minute (acquire_lock key "a" 100 none).0 ≡ true)
acquire_lock-all_fail_example =
    acquire_lock-all_fail key key-IsLocks "a" busy_minute 100 none refl (
      omega arith,
      omega arith,
      (
        omega arith,
        omega arith,
        (
          omega arith,
          omega arith,
          (omega arith, omega arith, not_a, (omega arith, omega arith, tt)),
        ),
      ),
    )

beats_for_lem_example : ((beats_for 7).reclaims ≡ 2) × ((beats_for 7).evictions ≡ 0)
beats_for_lem_example = beats_for_lem 7
