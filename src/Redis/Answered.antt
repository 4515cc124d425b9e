-- ===== src/Redis/Answered.antt =====
-- No answer is missed: however the commands of the two sides fall.
use hermes_python.Prelude.{
  ℕ, ◌≤◌, ◌<◌, ◌≡◌, ◌⊎◌, refl, sym, ap, ◌∙◌, subst, Bool, true, false, ◌&&◌, Option, none, some,
  String, List, [], ◌∷◌, arith, Bool-cases, inl, inr, if◌then◌else◌,
}
use hermes_python.Redis.Wakeup.{
  Bus, IsBus, Phase, subscribing, looking, polling, notified, checking, deleting, returned, Sender,
  idle, sending, sent, Event, waits, answers, notifies_other, cancels, times_out, World, wait_step,
  respond_step, late, step, steps,
}

module _ (b : Bus) (law : IsBus b) (cancel_check : Bool) (choice : String) where
  -- What is stored, by how far the answering side is.
  abbrev Written : Sender → Option String → Type 0
  Written idle o = o ≡ none
  Written sending o = o ≡ some choice
  Written sent o = o ≡ some choice

  -- Once the answer is published, a notification is there.
  abbrev Due : Sender → ℕ → Type 0
  Due sent n = 0 < n
  Due q n = Unit

  abbrev pub Outcome : String → Type 0
  Outcome v = (v ≡ choice) ⊎ ((v ≡ "已取消") ⊎ (v ≡ "超时"))

  abbrev pub Good : Phase → Sender → b.State → Type 0
  Good subscribing q s = Written q (b.stored s)
  Good looking q s = (b.is_subscribed s ≡ true) × Written q (b.stored s)
  Good polling q s = (b.is_subscribed s ≡ true) × Written q (b.stored s) × Due q (b.waiting s)
  Good notified q s = (b.is_subscribed s ≡ true) × Written q (b.stored s)
  Good checking q s = (b.is_subscribed s ≡ true) × Written q (b.stored s) × Due q (b.waiting s)
  Good (deleting v) q s = v ≡ choice
  Good (returned v) q s = Outcome v

  wait-Good :
      (p : Phase) (q : Sender) (s : b.State)
      → Good p q s
      → let next = wait_step b cancel_check choice s p in Good next.1 q next.0
  unfolding wait_step
  wait-Good subscribing q s h =
      (law.is_subscribed-subscribe s, subst (Written q) (sym (law.stored-subscribe s)) h)
  wait-Good looking idle s h = rw (h.1, wait_step) (h.0, h.1, tt)
  wait-Good looking sending s h = rw (h.1, wait_step) refl
  wait-Good looking sent s h = rw (h.1, wait_step) refl
  wait-Good polling q s h = elim (Bool-cases (b.get_message s).1) [
    | inl y ↦
        rw (y, wait_step)
          (
            law.is_subscribed-get_message s ∙ h.0,
            subst (Written q) (sym (law.stored-get_message s)) h.1,
          )
    | inr n ↦
        rw (n, wait_step)
          (
            law.is_subscribed-get_message s ∙ h.0,
            subst (Written q) (sym (law.stored-get_message s)) h.1,
            undue q n h.2,
          )
  ]
    where
      undue :
          (q : Sender)
          → (b.get_message s).1 ≡ false
          → Due q (b.waiting s)
          → Due q (b.waiting (b.get_message s).0)
      undue idle n d = tt
      undue sending n d = tt
      undue sent n d = elim (Bool-cases (b.is_confirmed s)) [
        | inl y ↦ omega (arith, law.get_message_none s y n, d)
        | inr z ↦ omega (arith, (law.get_message_confirms s z).1, d)
      ]
  wait-Good notified idle s h = rw (h.1, wait_step) (h.0, h.1, tt)
  wait-Good notified sending s h = rw (h.1, wait_step) refl
  wait-Good notified sent s h = rw (h.1, wait_step) refl
  wait-Good checking q s h = elim (Bool-cases (cancel_check && b.is_cancelled s)) [
    | inl y ↦ rw (y, wait_step) (inr (inl refl))
    | inr n ↦ rw (n, wait_step) h
  ]
  wait-Good (deleting v) q s h = inl h
  wait-Good (returned v) q s h = h

  respond-Good :
      (p : Phase) (q : Sender) (s : b.State)
      → Good p q s
      → let next = respond_step b cancel_check choice s q in Good p next.1 next.0
  unfolding respond_step
  respond-Good subscribing idle s h = law.stored-set s choice
  respond-Good looking idle s h = (law.is_subscribed-set s choice ∙ h.0, law.stored-set s choice)
  respond-Good polling idle s h =
      (law.is_subscribed-set s choice ∙ h.0, law.stored-set s choice, tt)
  respond-Good notified idle s h = (law.is_subscribed-set s choice ∙ h.0, law.stored-set s choice)
  respond-Good checking idle s h =
      (law.is_subscribed-set s choice ∙ h.0, law.stored-set s choice, tt)
  respond-Good subscribing sending s h = law.stored-publish s ∙ h
  respond-Good looking sending s h = (law.is_subscribed-publish s ∙ h.0, law.stored-publish s ∙ h.1)
  respond-Good polling sending s h = (
    law.is_subscribed-publish s ∙ h.0,
    law.stored-publish s ∙ h.1,
    omega (arith, law.waiting-publish s h.0),
  )
  respond-Good notified sending s h =
      (law.is_subscribed-publish s ∙ h.0, law.stored-publish s ∙ h.1)
  respond-Good checking sending s h = (
    law.is_subscribed-publish s ∙ h.0,
    law.stored-publish s ∙ h.1,
    omega (arith, law.waiting-publish s h.0),
  )
  respond-Good (deleting v) q s h = h
  respond-Good (returned v) q s h = h
  respond-Good p sent s h = h

  still : (q : Sender) (m n : ℕ) → m ≤ n → Due q m → Due q n
  still idle m n l d = tt
  still sending m n l d = tt
  still sent m n l d = omega (arith, l, d)

  -- A command that leaves the value, and takes no notification away.
  other-Good :
      (p : Phase) (q : Sender) (s t : b.State)
      → b.stored t ≡ b.stored s
      → b.is_subscribed t ≡ b.is_subscribed s
      → (b.is_subscribed s ≡ true → b.waiting s ≤ b.waiting t)
      → Good p q s
      → Good p q t
  other-Good subscribing q s t e f g h = subst (Written q) (sym e) h
  other-Good looking q s t e f g h = (f ∙ h.0, subst (Written q) (sym e) h.1)
  other-Good polling q s t e f g h =
      (f ∙ h.0, subst (Written q) (sym e) h.1, still q (b.waiting s) (b.waiting t) (g h.0) h.2)
  other-Good notified q s t e f g h = (f ∙ h.0, subst (Written q) (sym e) h.1)
  other-Good checking q s t e f g h =
      (f ∙ h.0, subst (Written q) (sym e) h.1, still q (b.waiting s) (b.waiting t) (g h.0) h.2)
  other-Good (deleting v) q s t e f g h = h
  other-Good (returned v) q s t e f g h = h

  late-Good :
      (p : Phase) (q : Sender) (s : b.State) → Good p q s → Good (late b cancel_check choice p) q s
  late-Good polling q s h = inr (inr refl)
  late-Good subscribing q s h = h
  late-Good looking q s h = h
  late-Good notified q s h = h
  late-Good checking q s h = h
  late-Good (deleting v) q s h = h
  late-Good (returned v) q s h = h

  step-Good :
      (e : Event) (w : World b cancel_check choice)
      → Good w.phase w.sender w.bus
      → let next = step b cancel_check choice e w in Good next.phase next.sender next.bus
  unfolding step
  step-Good waits w h = wait-Good w.phase w.sender w.bus h
  step-Good answers w h = respond-Good w.phase w.sender w.bus h
  step-Good notifies_other w h =
      other-Good w.phase w.sender w.bus (b.publish w.bus) (law.stored-publish w.bus)
        (law.is_subscribed-publish w.bus) (λ y. omega (arith, law.waiting-publish w.bus y)) h
  step-Good cancels w h =
      other-Good w.phase w.sender w.bus (b.cancel w.bus) (law.stored-cancel w.bus)
        (law.is_subscribed-cancel w.bus) (λ y. omega (arith, law.waiting-cancel w.bus)) h
  step-Good times_out w h = late-Good w.phase w.sender w.bus h

  pub steps-Good :
      (es : List Event) (w : World b cancel_check choice)
      → Good w.phase w.sender w.bus
      → let next = steps b cancel_check choice es w in Good next.phase next.sender next.bus
  steps-Good [] w h = h
  steps-Good (e ∷ es) w h = steps-Good es (step b cancel_check choice e w) (step-Good e w h)

  abbrev pub begun : b.State → World b cancel_check choice
  begun s = record { bus = s; phase = subscribing; sender = idle }

  -- What is given back is the answer, or that the run was cancelled, or that the time was over.
  pub returned-Outcome :
      (es : List Event) (s : b.State) (v : String)
      → b.stored s ≡ none
      → (steps b cancel_check choice es (begun s)).phase ≡ returned v
      → Outcome v
  returned-Outcome es s v h e =
      subst
        (λ p.
          Good p (steps b cancel_check choice es (begun s)).sender
            (steps b cancel_check choice es (begun s)).bus)
        e (steps-Good es (begun s) h)

  abbrev pub five : List Event
  five = waits ∷ waits ∷ waits ∷ waits ∷ waits ∷ []

  abbrev FoundInFive : b.State → Type 0
  FoundInFive s =
      (steps b cancel_check choice five (record { bus = s; phase = polling; sender = sent })).phase
      ≡ returned choice

  -- The poll takes a notification.
  taken : (s : b.State) → b.is_confirmed s ≡ true → Good polling sent s → (b.get_message s).1 ≡ true
  taken s y h = elim (Bool-cases (b.get_message s).1) [
    | inl e ↦ e
    | inr n ↦ ground (arith, law.get_message_none s y n, h.2)
  ]

  at_once : (s : b.State) → b.is_confirmed s ≡ true → Good polling sent s → FoundInFive s
  unfolding step wait_step
  at_once s y h = rw (taken s y h, step, wait_step, law.stored-get_message s, h.1) refl

  -- The confirmation is taken first, and the notification by the poll after it.
  one_later :
      (s : b.State)
      → b.is_confirmed s ≡ false
      → (cancel_check && b.is_cancelled s) ≡ false
      → Good polling sent s
      → FoundInFive s
  unfolding step wait_step
  one_later s z c h =
      let next = (b.get_message s).0 in
      let first = law.get_message_confirms s z in
      let same : (cancel_check && b.is_cancelled next) ≡ false =
        ap (λ t. cancel_check && t) (law.is_cancelled-get_message s) ∙ c in
      let good : Good polling sent next = (
        law.is_subscribed-get_message s ∙ h.0,
        law.stored-get_message s ∙ h.1,
        omega (arith, first.1, h.2),
      ) in
      ap
        (λ (w : World b cancel_check choice).
          (steps b cancel_check choice (waits ∷ waits ∷ waits ∷ []) w).phase)
        (two s first.0 same)
      ∙ three next good (law.is_confirmed-get_message s)
    where
      checked :
          (t : b.State)
          → (cancel_check && b.is_cancelled t) ≡ false
          → step b cancel_check choice waits (record { bus = t; phase = checking; sender = sent })
            ≡ record { bus = t; phase = polling; sender = sent }
      checked t n = rw (n, step, wait_step) refl

      two :
          (s : b.State)
          → (b.get_message s).1 ≡ false
          → (cancel_check && b.is_cancelled (b.get_message s).0) ≡ false
          → steps b cancel_check choice
              (waits ∷ waits ∷ [])
              (record { bus = s; phase = polling; sender = sent })
            ≡ record { bus = (b.get_message s).0; phase = polling; sender = sent }
      two s e n =
          ap
            (λ (y : Bool). step b cancel_check choice waits (record {
              bus = (b.get_message s).0;
              phase = if y then notified else checking;
              sender = sent;
            }))
            e
          ∙ checked (b.get_message s).0 n

      three :
          (t : b.State)
          → Good polling sent t
          → b.is_confirmed t ≡ true
          → (steps b cancel_check choice
              (waits ∷ waits ∷ waits ∷ [])
              (record { bus = t; phase = polling; sender = sent })).phase
            ≡ returned choice
      three t g y = rw (taken t y g, step, wait_step, law.stored-get_message t, g.1) refl

  in_five :
      (s : b.State)
      → (cancel_check && b.is_cancelled s) ≡ false
      → Good polling sent s
      → FoundInFive s
  in_five s c h = elim (Bool-cases (b.is_confirmed s)) [
    | inl y ↦ at_once s y h
    | inr z ↦ one_later s z c h
  ]

  -- Whenever the answer was sent, the waiting side is at its poll and, if it looks at the cancel flag,
  -- the flag is not set, its next five commands, before its time is over, find the answer and give it
  -- back: also if the first poll gets the confirmation of the subscription, and however the commands of
  -- the two sides, notifications for other questions and a cancelling came before.
  pub answer_arrives :
      (es : List Event) (s : b.State)
      → b.stored s ≡ none
      → (steps b cancel_check choice es (begun s)).sender ≡ sent
      → (steps b cancel_check choice es (begun s)).phase ≡ polling
      → (cancel_check && b.is_cancelled (steps b cancel_check choice es (begun s)).bus) ≡ false
      → (steps b cancel_check choice five (steps b cancel_check choice es (begun s))).phase
        ≡ returned choice
  answer_arrives es s h q p c =
      at_poll (steps b cancel_check choice es (begun s)) p q c (steps-Good es (begun s) h)
    where
      at_poll :
          (w : World b cancel_check choice)
          → w.phase ≡ polling
          → w.sender ≡ sent
          → (cancel_check && b.is_cancelled w.bus) ≡ false
          → Good w.phase w.sender w.bus
          → (steps b cancel_check choice five w).phase ≡ returned choice
      at_poll w i j c g =
          let state = subst (λ p. Good p sent w.bus) i (subst (λ q. Good w.phase q w.bus) j g) in
          ap
            (λ p.
              (steps b cancel_check choice five
                (record { bus = w.bus; phase = p; sender = w.sender })).phase)
            i
          ∙ ap
              (λ q.
                (steps b cancel_check choice five
                  (record { bus = w.bus; phase = polling; sender = q })).phase)
              j
          ∙ in_five w.bus c state
