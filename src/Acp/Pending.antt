-- ===== src/Acp/Pending.antt =====
-- The table of requests in flight: it lists exactly the futures that still wait.
use hermes_python.Prelude.{
  ℕ, ◌+◌, ◌≤◌, ◌<◌, ◌≡◌, refl, false, not, ◌||◌, ◌&&◌, none, some, String, List, [], ◌∷◌, ◌++◌,
  arith, ◌==◌, nat_has_eq, contains, if◌then◌else◌,
}
use hermes_python.Dict
use hermes_python.Dict.{Dict, get, get-put}
use hermes_python.Json.{Json}
use hermes_python.Acp.{
  Client, Future, waiting, raised, without, is_waiting, open_request, begin_request, time_out,
  settle, fail_each, fail_pending,
}

-- A request is listed exactly while its future waits, and no id beyond `next_id` is in use.
pub record IsTracked (c : Client) : Type 0 where
  pub listed : (r : ℕ) → contains r c.pending ≡ is_waiting (get r c.futures)
  pub issued : (r : ℕ) → c.next_id < r → get r c.futures ≡ none

contains-append : (r q : ℕ) (l : List ℕ) → contains r (l ++ q ∷ []) ≡ (contains r l || r == q)
contains-append r q [] = ground arith
contains-append r q (x ∷ l) = ground (arith, contains-append r q l)

contains-without :
    (r q : ℕ) (l : List ℕ) → contains r (without q l) ≡ (contains r l && not (r == q))
contains-without r q [] = ground arith
contains-without r q (x ∷ l) = ground (arith, contains-without r q l)

open_request-IsTracked :
    (method : String) (params : Json) (c : Client)
    → IsTracked c
    → IsTracked (open_request method params c)
unfolding open_request
open_request-IsTracked method params c t =
    let rid = c.next_id + 1 in
    record {
      listed = λ r. ground (
        arith,
        t.listed r,
        t.issued rid,
        contains-append r rid c.pending,
        get-put rid r waiting c.futures,
      );
      issued = λ r lt. ground (arith, t.issued r, get-put rid r waiting c.futures);
    }

open_request_fresh :
    (method : String) (params : Json) (c : Client)
    → ((open_request method params c).next_id ≡ c.next_id + 1)
      × (get (c.next_id + 1) (open_request method params c).futures ≡ some waiting)
unfolding open_request
open_request_fresh method params c =
    let rid = c.next_id + 1 in (refl, ground (arith, get-put rid rid waiting c.futures))

-- A new request is listed, and it is given an id that no earlier request had.
pub begin_request-IsTracked :
    (method : String) (params : Json) (c d : Client)
    → IsTracked c
    → begin_request method params c ≡ some d
    → IsTracked d × (get d.next_id c.futures ≡ none) × (get d.next_id d.futures ≡ some waiting)
unfolding begin_request
begin_request-IsTracked method params c d t e =
    let rid = c.next_id + 1 in
    ground (
      arith,
      open_request-IsTracked method params c t,
      t.issued rid,
      open_request_fresh method params c,
    )

pub settle-IsTracked :
    (rid : ℕ) (f : Future) (c : Client)
    → is_waiting (some f) ≡ false
    → IsTracked c
    → IsTracked (settle rid f c)
unfolding settle
settle-IsTracked rid f c h t = record {
  listed = λ r. ground (
    arith,
    t.listed r,
    t.listed rid,
    contains-without r rid c.pending,
    get-put rid r f c.futures,
  );
  issued = λ r lt. ground (arith, t.issued r lt, t.issued rid, get-put rid r f c.futures);
}

pub time_out-IsTracked :
    (rid : ℕ) (c : Client) → rid ≤ c.next_id → IsTracked c → IsTracked (time_out rid c)
unfolding time_out
time_out-IsTracked rid c h t = record {
  listed = λ r. ground (
    arith,
    t.listed r,
    contains-without r rid c.pending,
    get-put rid r Future.timed_out c.futures,
  );
  issued = λ r lt. ground (arith, t.issued r lt, get-put rid r Future.timed_out c.futures);
}

get-fail_each :
    (detail : String) (r : ℕ) (rids : List ℕ) (futures : Dict ℕ Future)
    → get r (fail_each detail rids futures) ≡ (
        if contains r rids && is_waiting (get r futures)
        then some (raised detail)
        else get r futures)
unfolding fail_each
get-fail_each detail r [] futures = ground arith
get-fail_each detail r (x ∷ rids) futures = ground (
  arith,
  get-fail_each detail r rids futures,
  get-fail_each detail r rids (Dict.put x (raised detail) futures),
  get-put x r (raised detail) futures,
)

pub fail_pending-IsTracked :
    (detail : String) (c : Client) → IsTracked c → IsTracked (fail_pending detail c)
unfolding fail_pending
fail_pending-IsTracked detail c t = record {
  listed = λ r. ground (arith, t.listed r, get-fail_each detail r c.pending c.futures);
  issued = λ r lt. ground (arith, t.issued r lt, get-fail_each detail r c.pending c.futures);
}

-- When the subprocess closes, no caller is left waiting: a request that was in flight fails with
-- the given detail, and one that had ended keeps its outcome.
pub fail_pending_lem :
    (detail : String) (c : Client) (r : ℕ)
    → IsTracked c
    → get r (fail_pending detail c).futures
      ≡ (if is_waiting (get r c.futures) then some (raised detail) else get r c.futures)
unfolding fail_pending
fail_pending_lem detail c r t =
    ground (arith, t.listed r, get-fail_each detail r c.pending c.futures)
