-- ===== src/Redis/Wakeup.antt =====
-- The answer to a question of a run: `wait_for_confirmation` and `respond_to_confirmation` of
-- backend/app/core/redis.py, which run in two processes, one command of Redis at a time.
use hermes_python.Prelude.{
  ℕ, ◌+◌, ◌≡◌, Bool, true, false, ◌&&◌, Option, none, some, String, List, [], ◌∷◌, if◌then◌else◌,
}

-- What the two share: the value under `confirm:{conversation}:{request}`, the channel of the
-- conversation with the notifications that the waiting side has not taken, whether the confirmation
-- of its subscription is taken, and its cancel flag. That the value runs out, after five minutes, and
-- that a command fails are left out.
pub record Bus : Type 1 where
  pub State : Type 0
  pub stored : State → Option String
  pub is_subscribed : State → Bool
  pub is_confirmed : State → Bool
  pub waiting : State → ℕ
  pub is_cancelled : State → Bool
  pub subscribe : State → State
  pub get_message : State → State × Bool
  pub set : State → String → State
  pub delete : State → State
  pub publish : State → State
  pub cancel : State → State

-- No command changes what it is not about; a channel keeps what is published for who is subscribed. The
-- first `get_message` after `subscribe` takes the confirmation, which it ignores, and gives nothing.
pub record IsBus (b : Bus) : Type 0 where
  pub stored-subscribe : (s : b.State) → b.stored (b.subscribe s) ≡ b.stored s
  pub is_subscribed-subscribe : (s : b.State) → b.is_subscribed (b.subscribe s) ≡ true
  pub stored-get_message : (s : b.State) → b.stored (b.get_message s).0 ≡ b.stored s
  pub is_subscribed-get_message :
      (s : b.State) → b.is_subscribed (b.get_message s).0 ≡ b.is_subscribed s
  pub is_cancelled-get_message :
      (s : b.State) → b.is_cancelled (b.get_message s).0 ≡ b.is_cancelled s
  pub is_confirmed-get_message : (s : b.State) → b.is_confirmed (b.get_message s).0 ≡ true
  pub get_message_confirms :
      (s : b.State)
      → b.is_confirmed s ≡ false
      → ((b.get_message s).1 ≡ false) × (b.waiting (b.get_message s).0 ≡ b.waiting s)
  pub get_message_none :
      (s : b.State) → b.is_confirmed s ≡ true → (b.get_message s).1 ≡ false → b.waiting s ≡ 0
  pub stored-set : (s : b.State) (v : String) → b.stored (b.set s v) ≡ some v
  pub is_subscribed-set :
      (s : b.State) (v : String) → b.is_subscribed (b.set s v) ≡ b.is_subscribed s
  pub stored-publish : (s : b.State) → b.stored (b.publish s) ≡ b.stored s
  pub is_subscribed-publish : (s : b.State) → b.is_subscribed (b.publish s) ≡ b.is_subscribed s
  pub waiting-publish :
      (s : b.State) → b.is_subscribed s ≡ true → b.waiting (b.publish s) ≡ b.waiting s + 1
  pub stored-cancel : (s : b.State) → b.stored (b.cancel s) ≡ b.stored s
  pub is_subscribed-cancel : (s : b.State) → b.is_subscribed (b.cancel s) ≡ b.is_subscribed s
  pub waiting-cancel : (s : b.State) → b.waiting (b.cancel s) ≡ b.waiting s

-- Where the waiting side is.
pub data Phase : Type 0 where
  subscribing : Phase
  looking : Phase
  polling : Phase
  notified : Phase
  checking : Phase
  deleting : String → Phase
  returned : String → Phase

-- Where the answering side is: before `set`, before `publish`, or done.
pub data Sender : Type 0 where
  idle : Sender
  sending : Sender
  sent : Sender

pub data Event : Type 0 where
  waits : Event
  answers : Event
  notifies_other : Event
  cancels : Event
  times_out : Event

module _ (b : Bus) (cancel_check : Bool) (choice : String) where
  pub record World : Type 0 where
    pub bus : b.State
    pub phase : Phase
    pub sender : Sender

  abbrev found_or : Option String → Phase → Phase
  found_or none otherwise = otherwise
  found_or (some v) otherwise = deleting v

  -- One command of `wait_for_confirmation`.
  unfoldable pub wait_step : b.State → Phase → b.State × Phase
  wait_step s subscribing = (b.subscribe s, looking)
  wait_step s looking = (s, found_or (b.stored s) polling)
  wait_step s polling = let got = b.get_message s in (got.0, (if got.1 then notified else checking))
  wait_step s notified = (s, found_or (b.stored s) checking)
  wait_step s checking = (s, (if cancel_check && b.is_cancelled s then returned "已取消" else polling))
  wait_step s (deleting v) = (b.delete s, returned v)
  wait_step s (returned v) = (s, returned v)

  -- One command of `respond_to_confirmation`.
  unfoldable pub respond_step : b.State → Sender → b.State × Sender
  respond_step s idle = (b.set s choice, sending)
  respond_step s sending = (b.publish s, sent)
  respond_step s sent = (s, sent)

  -- The time is over at the head of the loop.
  abbrev pub late : Phase → Phase
  late polling = returned "超时"
  late p = p

  unfoldable pub step : Event → World → World
  unfolding wait_step respond_step
  step waits w = let next = wait_step w.bus w.phase in record w { bus = next.0; phase = next.1 }
  step answers w =
      let next = respond_step w.bus w.sender in record w { bus = next.0; sender = next.1 }
  step notifies_other w = record w { bus = b.publish w.bus }
  step cancels w = record w { bus = b.cancel w.bus }
  step times_out w = record w { phase = late w.phase }

  abbrev pub steps : List Event → World → World
  steps [] w = w
  steps (e ∷ es) w = steps es (step e w)
