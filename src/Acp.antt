-- ===== src/Acp.antt =====
-- backend/agent_runner/acp_client.py: the JSON-RPC client of an agent subprocess.
pub mod Approve
pub mod Dispatch
pub mod Pending
pub mod Answers
pub mod Sessions
mod Tests
use hermes_python.Prelude.{
  ℕ, ◌+◌, Bool, true, false, Option, none, some, String, List, [], ◌∷◌, ◌++◌, ◌==◌, nat_has_eq,
  string_has_eq, contains, keep, not, if◌then◌else◌, ◌&&◌,
}
use hermes_python.Dict.{Dict, get, put}
use hermes_python.Json.{Json, Fields}
use hermes_python.Texts.{Text}

pub data Proc : Type 0 where
  unspawned running exited : Proc

-- An `asyncio.Future`, with how it ended.
pub data Future : Type 0 where
  waiting timed_out : Future
  returned : Json → Future
  raised : String → Future

-- The lines written to the agent.
pub data Out : Type 0 where
  request : ℕ → String → Json → Out
  notify : String → Json → Out
  respond : Json → Json → Out

-- The calls of the two callbacks.
pub data Call : Type 0 where
  on_update : Json → Call
  on_fs_write : Text → Text → Call

pub record Client : Type 0 where
  pub uid : ℕ
  pub cwd : Text
  pub handler : ℕ
  pub home : Option String
  pub proc : Proc
  pub closed : Bool
  pub session_id : Option String
  pub next_id : ℕ
  pub pending : List ℕ
  pub futures : Dict ℕ Future
  pub sent : List Out
  pub calls : List Call

-- `profile_env`, which sets `HERMES_HOME` to a profile's directory, if it is one on this host.
abbrev pub profile_env : (String → Bool) → Option String → Option String
profile_env is_dir none = none
profile_env is_dir (some d) = if d == "" then none else if is_dir d then some d else none

-- `ACPClient(...)`, without its command; `home` is what its environment sets; the new object's identity and its callbacks are `uid` and `handler`.
abbrev pub create : ℕ → Text → ℕ → Option String → Client
create uid cwd handler home = record {
  uid = uid;
  cwd = cwd;
  handler = handler;
  home = home;
  proc = unspawned;
  closed = false;
  session_id = none;
  next_id = 0;
  pending = [];
  futures = [];
  sent = [];
  calls = [];
}

abbrev pub write : Out → Client → Client
write line c = record c { sent = c.sent ++ line ∷ [] }

abbrev pub without : ℕ → List ℕ → List ℕ
without r = keep (λ q. not (q == r))

-- A fresh id with its future, and the request on the wire.
unfoldable pub open_request : String → Json → Client → Client
open_request method params c =
    let rid = c.next_id + 1 in
    record c {
      next_id = rid;
      pending = c.pending ++ rid ∷ [];
      futures = put rid waiting c.futures;
      sent = c.sent ++ request rid method params ∷ [];
    }

-- The part of `_request` before its wait: `none` is "subprocess not started".
unfoldable pub begin_request : String → Json → Client → Option Client
begin_request method params c = elim c.proc [
  | unspawned ↦ none
  | _ ↦ some (open_request method params c)
]

-- The deadline of `_request`: `wait_for` cancels the future, and the entry is popped.
unfoldable pub time_out : ℕ → Client → Client
time_out rid c = record c { pending = without rid c.pending; futures = put rid timed_out c.futures }

abbrev is_waiting : Option Future → Bool
is_waiting (some waiting) = true
is_waiting _ = false

-- `fut = self._pending.pop(rid, None)`, and the future settled if it is not done.
unfoldable pub settle : ℕ → Future → Client → Client
settle rid outcome c = record c {
  pending = without rid c.pending;
  futures =
      if contains rid c.pending && is_waiting (get rid c.futures)
      then put rid outcome c.futures
      else c.futures;
}

fail_each : String → List ℕ → Dict ℕ Future → Dict ℕ Future
fail_each detail [] futures = futures
fail_each detail (rid ∷ rids) futures =
    fail_each detail rids
      (if is_waiting (get rid futures) then put rid (raised detail) futures else futures)

-- The `finally` of `_read_loop`.
unfoldable pub fail_pending : String → Client → Client
unfolding fail_each
fail_pending detail c = record c { pending = []; futures = fail_each detail c.pending c.futures }

-- `stop`, of a client whose reader did not die of an exception, which it would raise before it ends the
-- process: the reader is cancelled, which fails what is pending, and the process is ended.
unfoldable pub stop : String → Client → Client
unfolding fail_pending
stop detail c =
    let c' = fail_pending detail (record c { closed = true }) in
    elim c.proc [ running ↦ record c' { proc = exited } | _ ↦ c' ]

unfoldable pub cancel : Client → Client
cancel c = elim c.session_id [
  | none ↦ c
  | some sid ↦
      write
        (notify "session/cancel" (Json.obj (Fields.field "sessionId" (Json.text sid) Fields.end))) c
]
