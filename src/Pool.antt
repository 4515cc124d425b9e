-- ===== src/Pool.antt =====
-- backend/agent_runner/session_pool.py: one ACP subprocess for each conversation. The outcomes of
-- the calls to a new subprocess are an argument; time is the reading of the monotonic clock.
pub mod Pinned
pub mod Get
pub mod Evict
pub mod Respawn
mod Tests
use hermes_python.Prelude.{
  ℕ, ◌+◌, Bool, true, false, ◌&&◌, not, Option, none, some, String, List, [], ◌∷◌, ◌++◌, ◌==◌,
  string_has_eq, ltb, map, if◌then◌else◌,
}
use hermes_python.Dict.{Dict, get, put, pop}
use hermes_python.Dict.Keys.{keys_where}
use hermes_python.Texts.{Text}
use hermes_python.Json.{Fields}
use hermes_python.Acp
use hermes_python.Acp.{Client, Proc, profile_env, create, stop}
use hermes_python.Acp.Sessions.{
  Rpc, Outcome, ok, timeout, error, simple, start, new_session, resume_session, supports_resume,
}

abbrev pub idle_timeout : ℕ
idle_timeout = 3600

pub record Pool : Type 0 where
  pub clients : Dict String Client
  pub last_used : Dict String ℕ
  pub profile_dirs : Dict String (Option String)
  -- The identities of the clients stopped so far.
  pub stopped : List ℕ

abbrev pub init : Pool
init = record { clients = []; last_used = []; profile_dirs = []; stopped = [] }

unfoldable pub alive : Client → Bool
alive c = elim c.proc [ Proc.running ↦ not c.closed | _ ↦ false ]

-- The arguments of `get`, and the identity of the client object if one is made.
pub record Want : Type 0 where
  pub conv : String
  pub cwd : Text
  pub handler : ℕ
  pub acp_session_id : Option String
  pub profile_dir : Option String
  pub uid : ℕ

-- The directories of the host, and how the calls to the new subprocess end, each under its deadline.
pub record Agent : Type 0 where
  pub is_dir : String → Bool
  pub started : Rpc
  pub initialized : Rpc
  pub authenticated : Rpc
  pub resumed : Rpc
  pub created : Rpc
  -- `settings.hermes_acp_auth_method` is set.
  pub needs_auth : Bool

unfoldable pub drop : String → Pool → Pool
drop conv p = record p {
  clients = pop conv p.clients;
  last_used = pop conv p.last_used;
  profile_dirs = pop conv p.profile_dirs;
  stopped = elim (get conv p.clients) [ none ↦ p.stopped | some c ↦ p.stopped ++ c.uid ∷ [] ];
}

abbrev pub fresh_session : Agent → Client → Outcome (Option String) × Client
fresh_session a c =
    let (r, c') = new_session a.created c in
    (elim r [ ok s ↦ ok (some s) | timeout ↦ timeout | error ↦ error ], c')

-- Resume if an id is stored and the agent can, and fall back to a new session.
unfoldable pub choose_session :
    Option String → Agent → Fields → Client → Outcome (Option String) × Client
choose_session none a caps c = fresh_session a c
choose_session (some sid) a caps c =
    let (r, c') = resume_session a.resumed sid c in
    if supports_resume caps
    then (elim r [ ok _ ↦ (ok none, c') | _ ↦ fresh_session a c' ])
    else fresh_session a c

abbrev pub authenticated? : Agent → Outcome Fields
authenticated? a = if a.needs_auth then simple a.authenticated else ok Fields.end

-- The body of the `try` in `get`.
unfoldable pub connect : Option String → Agent → Client → Outcome (Option String) × Client
connect acp_session_id a c =
    let (s, c') = start a.started c in
    elim s [
      | ok _ ↦ elim (simple a.initialized) [
        | ok caps ↦ elim (authenticated? a) [
          | ok _ ↦ choose_session acp_session_id a caps c'
          | timeout ↦ (timeout, c')
          | error ↦ (error, c')
        ]
        | timeout ↦ (timeout, c')
        | error ↦ (error, c')
      ]
      | timeout ↦ (timeout, c')
      | error ↦ (error, c')
    ]

abbrev pub Got : Type 0
Got = Outcome (Client × Option String) × Pool

-- On any exception the client is stopped and the pool keeps no entry for it.
abbrev finish : Want → Pool → Outcome (Option String) × Client → Got
finish w p (ok new, c) = (
  ok (c, new),
  record p {
    clients = put w.conv c p.clients;
    profile_dirs = put w.conv w.profile_dir p.profile_dirs;
  },
)
finish w p (timeout, c) = (timeout, record p { stopped = p.stopped ++ c.uid ∷ [] })
finish w p (error, c) = (error, record p { stopped = p.stopped ++ c.uid ∷ [] })

unfoldable pub spawn : Want → Agent → Pool → Got
spawn w a p =
    finish w p (
      connect w.acp_session_id a
        (create w.uid w.cwd w.handler (profile_env a.is_dir w.profile_dir)))

abbrev same_option : Option String → Option String → Bool
same_option none none = true
same_option none (some b) = false
same_option (some a) none = false
same_option (some a) (some b) = a == b

-- `self._profile_dirs.get(conversation_id)`
abbrev pub profile_of : Pool → String → Option String
profile_of p conv = elim (get conv p.profile_dirs) [ none ↦ none | some d ↦ d ]

unfoldable pub same_profile : Pool → Want → Bool
same_profile p w = same_option (profile_of p w.conv) w.profile_dir

abbrev rebind : ℕ → Client → Client
rebind handler c = record c { handler = handler }

abbrev pub touch : Want → ℕ → Pool → Pool
touch w now p = record p { last_used = put w.conv now p.last_used }

unfoldable pub acquire : Want → Agent → ℕ → Pool → Got
acquire w a now p =
    let p' = touch w now p in
    elim (get w.conv p.clients) [
      | none ↦ spawn w a p'
      | some c ↦
          if alive c && same_profile p w
          then (let c' = rebind w.handler c in
              (ok (c', none), record p' { clients = put w.conv c' p.clients }))
          else spawn w a (drop w.conv p')
    ]

-- `t < cutoff`, with the cutoff `idle_timeout` seconds before now
abbrev pub is_stale : ℕ → ℕ → Bool
is_stale now t = ltb (t + idle_timeout) now

drop_each : List String → Pool → Pool
drop_each [] p = p
drop_each (k ∷ ks) p = drop_each ks (drop k p)

unfoldable pub evict_idle : ℕ → Pool → Pool
unfolding drop_each keys_where
evict_idle now p = drop_each (keys_where (is_stale now) p.last_used) p

abbrev values : Dict String Client → List ℕ
values d = map (λ e. e.1.uid) d

unfoldable pub close_all : Pool → Pool
close_all p = record init { stopped = p.stopped ++ values p.clients }
