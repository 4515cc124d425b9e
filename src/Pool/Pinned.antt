-- ===== src/Pool/Pinned.antt =====
-- The environment of a client: that of the profile that it was spawned for.
use hermes_python.Prelude.{
  ◌≡◌, Bool, ◌==◌, if◌then◌else◌, sym, ap, refl, true, false, Option, none, some, String, arith,
  string_has_eq, nat_has_eq, ◌∙◌,
}
use hermes_python.Dict
use hermes_python.Dict.{Dict, get, get-put, get-pop}
use hermes_python.Acp.{Client, profile_env, create}
use hermes_python.Acp.Sessions.{Outcome, ok, timeout, error, start, new_session, resume_session}
use hermes_python.Pool.{
  Pool, Want, Agent, alive, drop, choose_session, connect, finish, spawn, profile_of,
}

-- A client that a connection handed out: running, with a session, and the caller's callbacks.
pub record IsReady (w : Want) (a : Agent) (new : Option String) (c : Client) : Type 0 where
  pub is_alive : alive c ≡ true
  pub handles : c.handler ≡ w.handler
  pub at_cwd : c.cwd ≡ w.cwd
  pub at_home : c.home ≡ profile_env a.is_dir w.profile_dir
  pub session : c.session_id ≡ elim new [ none ↦ w.acp_session_id | some s ↦ some s ]

abbrev pub Connects : Want → Agent → Outcome (Option String) × Client → Type 0
Connects w a (ok new, c) = IsReady w a new c
Connects w a (timeout, c) = c.uid ≡ w.uid
Connects w a (error, c) = c.uid ≡ w.uid

pub connect-Connects :
    (w : Want) (a : Agent)
    → Connects w a (
        connect w.acp_session_id a
          (create w.uid w.cwd w.handler (profile_env a.is_dir w.profile_dir)))
unfolding connect choose_session start new_session resume_session alive
connect-Connects w a = ground arith

-- Each client has the environment of the profile that it is recorded under.
abbrev pub IsPinned : (String → Bool) → Pool → Type 0
IsPinned is_dir p =
    (conv : String) (c : Client)
    → get conv p.clients ≡ some c
    → c.home ≡ profile_env is_dir (profile_of p conv)

abbrev recorded : Option (Option String) → Option String
recorded o = elim o [ none ↦ none | some d ↦ d ]

-- A client that is put under a conversation, with its profile.
pub put-IsPinned :
    (is_dir : String → Bool) (key : String) (new : Client) (dir : Option String) (p q : Pool)
    → IsPinned is_dir p
    → new.home ≡ profile_env is_dir dir
    → q.clients ≡ Dict.put key new p.clients
    → ((conv : String) → profile_of q conv ≡ (if key == conv then dir else profile_of p conv))
    → IsPinned is_dir q
put-IsPinned is_dir key new dir p q pinned h cs ds conv c e =
    by_key (key == conv) refl (sym (get-put key conv new p.clients) ∙ ap (get conv) (sym cs) ∙ e)
    ∙ ap (profile_env is_dir) (sym (ds conv))
  where
    by_key :
        (b : Bool)
        → (key == conv) ≡ b
        → (if key == conv then some new else get conv p.clients) ≡ some c
        → c.home ≡ profile_env is_dir (if key == conv then dir else profile_of p conv)
    by_key true y k = rw y (
        ap (λ (o : Option Client). elim o [ none ↦ new.home | some x ↦ x.home ]) (sym (rw y at k))
        ∙ h)
    by_key false n k = rw n (pinned conv c (rw n at k))

finish-IsPinned :
    (w : Want) (a : Agent) (p : Pool) (r : Outcome (Option String) × Client)
    → IsPinned a.is_dir p
    → Connects w a r
    → IsPinned a.is_dir (finish w p r).1
finish-IsPinned w a p (ok new, c) pinned h =
    put-IsPinned a.is_dir w.conv c w.profile_dir p (finish w p (ok new, c)).1 pinned h.at_home refl
      (λ conv.
        ap recorded (get-put w.conv conv w.profile_dir p.profile_dirs)
        ∙ choose (w.conv == conv) conv)
  where
    choose :
        (b : Bool) (conv : String)
        → recorded (if b then some w.profile_dir else get conv p.profile_dirs)
          ≡ (if b then w.profile_dir else profile_of p conv)
    choose true conv = refl
    choose false conv = refl
finish-IsPinned w a p (timeout, c) pinned h = pinned
finish-IsPinned w a p (error, c) pinned h = pinned

pub drop-IsPinned :
    (is_dir : String → Bool) (key : String) (p : Pool)
    → IsPinned is_dir p
    → IsPinned is_dir (drop key p)
unfolding drop
drop-IsPinned is_dir key p pinned conv c e =
    by_key (key == conv) refl (sym (get-pop key conv p.clients) ∙ e)
    ∙ ap (λ o. profile_env is_dir (recorded o)) (sym (get-pop key conv p.profile_dirs))
  where
    by_key :
        (b : Bool)
        → (key == conv) ≡ b
        → (if key == conv then none else get conv p.clients) ≡ some c
        → c.home
          ≡ profile_env is_dir (recorded (if key == conv then none else get conv p.profile_dirs))
    by_key true y k = ground (arith, rw y at k)
    by_key false n k = rw n (pinned conv c (rw n at k))

pub spawn-IsPinned :
    (w : Want) (a : Agent) (p : Pool) → IsPinned a.is_dir p → IsPinned a.is_dir (spawn w a p).1
unfolding spawn
spawn-IsPinned w a p pinned =
    finish-IsPinned w a p
      (connect w.acp_session_id a
        (create w.uid w.cwd w.handler (profile_env a.is_dir w.profile_dir)))
      pinned (connect-Connects w a)
