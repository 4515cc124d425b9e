-- ===== src/Pool/Get.antt =====
-- What `get` returns and leaves behind, on success and on failure.
use hermes_python.Prelude.{
  ℕ, ◌≡◌, ◌≢◌, Bool, ◌==◌, if◌then◌else◌, sym, ap, refl, true, false, ◌⊎◌, inl, inr, Option, none,
  some, String, List, [], ◌∷◌, ◌++◌, arith, string_has_eq, nat_has_eq, contains, Option-cases,
  Bool-cases, ◌∙◌, ◌&&◌,
}
use hermes_python.Dict
use hermes_python.Dict.{Dict, get, get-put, get-pop}
use hermes_python.Acp.{Client, profile_env, create}
use hermes_python.Acp.Sessions.{Outcome, ok, timeout, error}
use hermes_python.Pool.{
  Pool, Want, Agent, Got, alive, drop, connect, finish, spawn, profile_of, same_option,
  same_profile, rebind, touch, acquire,
}
use hermes_python.Pool.Pinned.{
  IsReady, Connects, connect-Connects, IsPinned, put-IsPinned, drop-IsPinned, spawn-IsPinned,
}

-- What a call of `get` that returned has left in the pool.
pub record IsServed (w : Want) (c : Client) (p q : Pool) : Type 0 where
  pub kept : get w.conv q.clients ≡ some c
  pub profile : profile_of q w.conv ≡ w.profile_dir
  pub others : (j : String) → j ≢ w.conv → get j q.clients ≡ get j p.clients

-- What one that raised has left: no client for the conversation, and the new one stopped.
pub record IsUndone (w : Want) (p q : Pool) : Type 0 where
  pub gone : get w.conv q.clients ≡ none
  pub others : (j : String) → j ≢ w.conv → get j q.clients ≡ get j p.clients
  pub stopped : contains w.uid q.stopped ≡ true

contains-snoc : (u : ℕ) (l : List ℕ) → contains u (l ++ u ∷ []) ≡ true
contains-snoc u [] = ground arith
contains-snoc u (x ∷ l) = ground (arith, contains-snoc u l)

abbrev pub Spawns : Want → Agent → Pool → Got → Type 0
Spawns w a p (ok (c, new), q) = IsReady w a new c × IsServed w c p q
Spawns w a p (timeout, q) = IsUndone w p q
Spawns w a p (error, q) = IsUndone w p q

finish-Spawns :
    (w : Want) (a : Agent) (p : Pool) (r : Outcome (Option String) × Client)
    → get w.conv p.clients ≡ none
    → Connects w a r
    → Spawns w a p (finish w p r)
finish-Spawns w a p (ok new, c) absent h = (
  h,
  record {
    kept = ground (arith, get-put w.conv w.conv c p.clients, string_has_eq.same_iff w.conv w.conv);
    profile = ground (
      arith,
      get-put w.conv w.conv w.profile_dir p.profile_dirs,
      string_has_eq.same_iff w.conv w.conv,
    );
    others = λ j ne. ground (arith, get-put w.conv j c p.clients, string_has_eq.same_iff w.conv j);
  },
)
finish-Spawns w a p (timeout, c) absent h = record {
  gone = absent;
  others = λ j ne. refl;
  stopped = rw h (contains-snoc w.uid p.stopped);
}
finish-Spawns w a p (error, c) absent h = record {
  gone = absent;
  others = λ j ne. refl;
  stopped = rw h (contains-snoc w.uid p.stopped);
}

spawn-Spawns :
    (w : Want) (a : Agent) (p : Pool) → get w.conv p.clients ≡ none → Spawns w a p (spawn w a p)
unfolding spawn
spawn-Spawns w a p absent =
    finish-Spawns w a p
      (connect w.acp_session_id a
        (create w.uid w.cwd w.handler (profile_env a.is_dir w.profile_dir)))
      absent (connect-Connects w a)

same_option-eq : (a b : Option String) → same_option a b ≡ true → a ≡ b
same_option-eq none none h = refl
same_option-eq none (some b) h = cc
same_option-eq (some a) none h = cc
same_option-eq (some a) (some b) h = ground (arith, string_has_eq.same_iff a b)

-- What a call of `get` promises.
abbrev pub Gets : Want → Agent → Pool → Got → Type 0
Gets w a p (ok (c, new), q) =
    (alive c ≡ true)
    × (c.home ≡ profile_env a.is_dir w.profile_dir)
    × (c.handler ≡ w.handler)
    × IsServed w c p q
    × ((new ≡ none) ⊎ (c.session_id ≡ new))
Gets w a p (timeout, q) = IsUndone w p q
Gets w a p (error, q) = IsUndone w p q

Spawns-Gets :
    (w : Want) (a : Agent) (p p' : Pool) (r : Got)
    → ((j : String) → j ≢ w.conv → get j p'.clients ≡ get j p.clients)
    → Spawns w a p' r
    → Gets w a p r
Spawns-Gets w a p p' (ok (c, none), q) same (ready, served) = (
  ready.is_alive,
  ready.at_home,
  ready.handles,
  record {
    kept = served.kept;
    profile = served.profile;
    others = λ j ne. served.others j ne ∙ same j ne;
  },
  inl refl,
)
Spawns-Gets w a p p' (ok (c, some s), q) same (ready, served) = (
  ready.is_alive,
  ready.at_home,
  ready.handles,
  record {
    kept = served.kept;
    profile = served.profile;
    others = λ j ne. served.others j ne ∙ same j ne;
  },
  inr ready.session,
)
Spawns-Gets w a p p' (timeout, q) same u = record {
  gone = u.gone;
  others = λ j ne. u.others j ne ∙ same j ne;
  stopped = u.stopped;
}
Spawns-Gets w a p p' (error, q) same u = record {
  gone = u.gone;
  others = λ j ne. u.others j ne ∙ same j ne;
  stopped = u.stopped;
}

drop-gone : (conv : String) (p : Pool) → get conv (drop conv p).clients ≡ none
unfolding drop
drop-gone conv p = ground (arith, get-pop conv conv p.clients, string_has_eq.same_iff conv conv)

drop-others :
    (conv j : String) (p : Pool) → j ≢ conv → get j (drop conv p).clients ≡ get j p.clients
unfolding drop
drop-others conv j p ne = ground (arith, get-pop conv j p.clients, string_has_eq.same_iff conv j)

module _ (w : Want) (a : Agent) (now : ℕ) (p : Pool) where
  pub acquire_absent : get w.conv p.clients ≡ none → acquire w a now p ≡ spawn w a (touch w now p)
  unfolding acquire
  acquire_absent absent = rw (absent, acquire)

  abbrev pub reused : Client → Got
  reused c =
      let c' = rebind w.handler c in
      (ok (c', none), record (touch w now p) { clients = Dict.put w.conv c' p.clients })

  pub acquire_reuse :
      (c : Client)
      → get w.conv p.clients ≡ some c
      → (alive c && same_profile p w) ≡ true
      → acquire w a now p ≡ reused c
  unfolding acquire
  acquire_reuse c e usable = rw (e, acquire) (rw usable)

  pub acquire_spent :
      (c : Client)
      → get w.conv p.clients ≡ some c
      → (alive c && same_profile p w) ≡ false
      → acquire w a now p ≡ spawn w a (drop w.conv (touch w now p))
  unfolding acquire
  acquire_spent c e spent = rw (e, acquire) (rw spent)

  reused-Gets :
      (c : Client)
      → get w.conv p.clients ≡ some c
      → IsPinned a.is_dir p
      → (alive c && same_profile p w) ≡ true
      → Gets w a p (reused c)
  unfolding same_profile alive
  reused-Gets c e pinned usable = (
    ground arith,
    pinned w.conv c e ∙ ap (profile_env a.is_dir) same_dir,
    refl,
    record {
      kept = ground (
        arith,
        get-put w.conv w.conv (rebind w.handler c) p.clients,
        string_has_eq.same_iff w.conv w.conv,
      );
      profile = ground (arith, same_option-eq (profile_of p w.conv) w.profile_dir);
      others = λ j ne.
          ground (
            arith,
            get-put w.conv j (rebind w.handler c) p.clients,
            string_has_eq.same_iff w.conv j,
          );
    },
    inl refl,
  )
    where
      same_dir : profile_of p w.conv ≡ w.profile_dir
      same_dir = ground (arith, same_option-eq (profile_of p w.conv) w.profile_dir)

  reused-IsPinned :
      (c : Client)
      → get w.conv p.clients ≡ some c
      → IsPinned a.is_dir p
      → IsPinned a.is_dir (reused c).1
  reused-IsPinned c e pinned =
      put-IsPinned a.is_dir w.conv (rebind w.handler c) (profile_of p w.conv) p (reused c).1 pinned
        (pinned w.conv c e) refl (λ conv. same_key (w.conv == conv) conv refl)
    where
      same_key :
          (b : Bool) (conv : String)
          → (w.conv == conv) ≡ b
          → profile_of p conv ≡ (if w.conv == conv then profile_of p w.conv else profile_of p conv)
      same_key true conv y =
          rw y (ap (profile_of p) (sym ((string_has_eq.same_iff w.conv conv).0 y)))
      same_key false conv n = rw n refl

  -- If each client has the environment of the profile that it is recorded under, and stopping a client
  -- raises nothing, then `get` returns a client whose process is not known to have ended, spawned with
  -- the environment of the wanted profile, bound to the caller's callbacks and held by the pool, with
  -- an id only if its session is new; or it raises, the client that it made is stopped, and the pool
  -- holds none for the conversation. Either way no other conversation's client changes, and each client
  -- has the environment of its profile.
  pub acquire-Gets :
      IsPinned a.is_dir p → Gets w a p (acquire w a now p) × IsPinned a.is_dir (acquire w a now p).1
  acquire-Gets pinned = elim (Option-cases (get w.conv p.clients)) [
    | inl absent ↦ rw (acquire_absent absent) (
      Spawns-Gets w a p (touch w now p) (spawn w a (touch w now p)) (λ j ne. refl)
          (spawn-Spawns w a (touch w now p) absent),
      spawn-IsPinned w a (touch w now p) pinned,
    )
    | inr (c, e) ↦ elim (Bool-cases (alive c && same_profile p w)) [
      | inl usable ↦
          rw (acquire_reuse c e usable) (reused-Gets c e pinned usable, reused-IsPinned c e pinned)
      | inr spent ↦
          let q = drop w.conv (touch w now p) in
          rw (acquire_spent c e spent) (
            Spawns-Gets w a p q (spawn w a q) (λ j ne. drop-others w.conv j (touch w now p) ne)
                (spawn-Spawns w a q (drop-gone w.conv (touch w now p))),
            spawn-IsPinned w a q (drop-IsPinned a.is_dir w.conv (touch w now p) pinned),
          )
    ]
  ]
