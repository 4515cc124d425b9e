-- ===== src/Pool/Tests.antt =====
-- Runs of the pool with an agent that answers, and with one that does not start.
use hermes_python.Prelude.{
  ℕ, ◌≡◌, ◌==◌, arith, refl, false, Option, none, some, String, [], ◌∷◌, string_has_eq,
}
use hermes_python.Dict.{get, put}
use hermes_python.Json.{text, end, field}
use hermes_python.Acp.{Client, Proc, create}
use hermes_python.Acp.Sessions.{replied, acp_timeout, start, new_session}
use hermes_python.Pool.{
  Pool, Want, Agent, init, acquire, alive, same_profile, connect, choose_session, spawn,
}
use hermes_python.Pool.Pinned.{IsPinned}
use hermes_python.Pool.Get.{Gets, acquire-Gets}
use hermes_python.Pool.Respawn.{evict_all, respawn_not_evicted}

abbrev agent : Agent
agent = record {
  is_dir = λ d. d == "p";
  started = replied end;
  initialized = replied end;
  authenticated = acp_timeout;
  resumed = acp_timeout;
  created = replied (field "sessionId" (text "s1") end);
  needs_auth = false;
}

abbrev want : ℕ → Option String → Want
want uid profile = record {
  conv = "c";
  cwd = [];
  handler = 7;
  acp_session_id = none;
  profile_dir = profile;
  uid = uid;
}

abbrev first : Pool
first = (acquire (want 1 none) agent 100 init).1

started : (acquire (want 1 none) agent 100 init).1.last_used ≡ ("c", 100) ∷ []
unfolding acquire spawn connect choose_session start new_session put get
started = refl

abbrev running_client : Client
running_client = record (create 1 [] 7 none) { proc = Proc.running; session_id = some "s1" }

abbrev held : Pool
held = record {
  clients = ("c", running_client) ∷ [];
  last_used = ("c", 100) ∷ [];
  profile_dirs = ("c", none) ∷ [];
  stopped = [];
}

acquire_first : first ≡ held
unfolding acquire spawn connect choose_session start new_session put get
acquire_first = refl

held-IsPinned : IsPinned agent.is_dir held
unfolding get
held-IsPinned conv c e = ground arith

acquire-Gets_example :
    Gets (want 2 (some "p")) agent held (acquire (want 2 (some "p")) agent 200 held)
    × IsPinned agent.is_dir (acquire (want 2 (some "p")) agent 200 held).1
acquire-Gets_example = acquire-Gets (want 2 (some "p")) agent 200 held held-IsPinned

-- The profile has changed: the client is replaced, and a day later it is still there.
respawn_not_evicted_example :
    let q = (acquire (want 2 (some "p")) agent 200 held).1 in
    get "c" (evict_all (5000 ∷ 90000 ∷ []) q).clients ≡ get "c" q.clients
unfolding get alive same_profile
respawn_not_evicted_example =
    respawn_not_evicted (want 2 (some "p")) agent 200 (5000 ∷ 90000 ∷ []) held running_client
      (refl, tt) refl refl
