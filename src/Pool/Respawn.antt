-- ===== src/Pool/Respawn.antt =====
-- The respawn path of `get` forgets when the conversation was last used: `_last_used` is set at the
-- top, and `drop` pops it again before the new client is stored.
use hermes_python.Prelude.{
  ℕ, ◌≡◌, refl, ◌∙◌, true, false, ◌&&◌, Option, none, some, String, List, [], ◌∷◌, arith,
  string_has_eq, nat_has_eq,
}
use hermes_python.Dict
use hermes_python.Dict.{get, get-put, get-pop}
use hermes_python.Acp.{Client, profile_env, create}
use hermes_python.Acp.Sessions.{Outcome, ok, timeout, error}
use hermes_python.Pool.{
  Pool, Want, Agent, alive, drop, connect, finish, spawn, same_profile, touch, acquire, evict_idle,
  drop_each, is_stale,
}
use hermes_python.Pool.Get.{acquire_reuse, acquire_spent}
use hermes_python.Dict.Keys.{keys_where, IsDict, put-IsDict, pop-IsDict}
use hermes_python.Pool.Evict.{clients-evict_idle}

last_used-finish :
    (w : Want) (p : Pool) (r : Outcome (Option String) × Client)
    → (finish w p r).1.last_used ≡ p.last_used
last_used-finish w p (ok new, c) = refl
last_used-finish w p (timeout, c) = refl
last_used-finish w p (error, c) = refl

last_used-spawn : (w : Want) (a : Agent) (p : Pool) → (spawn w a p).1.last_used ≡ p.last_used
unfolding spawn
last_used-spawn w a p =
    last_used-finish w p (
      connect w.acp_session_id a
        (create w.uid w.cwd w.handler (profile_env a.is_dir w.profile_dir)))

-- A first use, and the use of a client that is alive under the wanted profile, is recorded.
pub last_used-acquire :
    (w : Want) (a : Agent) (now : ℕ) (p : Pool) (c : Client)
    → get w.conv p.clients ≡ some c
    → (alive c && same_profile p w) ≡ true
    → get w.conv (acquire w a now p).1.last_used ≡ some now
last_used-acquire w a now p c e usable =
    rw (acquire_reuse w a now p c e usable)
      (ground (arith, get-put w.conv w.conv now p.last_used, string_has_eq.same_iff w.conv w.conv))

last_used-acquire_spent :
    (w : Want) (a : Agent) (now : ℕ) (p : Pool) (c : Client)
    → get w.conv p.clients ≡ some c
    → (alive c && same_profile p w) ≡ false
    → get w.conv (acquire w a now p).1.last_used ≡ none
unfolding drop
last_used-acquire_spent w a now p c e spent = rw (acquire_spent w a now p c e spent) (
    rw (last_used-spawn w a (drop w.conv (touch w now p))) (
      ground (
        arith,
        get-pop w.conv w.conv (Dict.put w.conv now p.last_used),
        string_has_eq.same_iff w.conv w.conv,
      )))

last_used-acquire-IsDict :
    (w : Want) (a : Agent) (now : ℕ) (p : Pool) (c : Client)
    → get w.conv p.clients ≡ some c
    → (alive c && same_profile p w) ≡ false
    → IsDict p.last_used
    → IsDict (acquire w a now p).1.last_used
unfolding drop
last_used-acquire-IsDict w a now p c e spent d = rw (acquire_spent w a now p c e spent) (
    rw (last_used-spawn w a (drop w.conv (touch w now p)))
      (pop-IsDict w.conv (Dict.put w.conv now p.last_used) (put-IsDict w.conv now p.last_used d)))

-- Evictions at these times, one after the other.
abbrev pub evict_all : List ℕ → Pool → Pool
evict_all [] p = p
evict_all (t ∷ ts) p = evict_all ts (evict_idle t p)

unused-drop_each :
    (j : String) (ks : List String) (p : Pool)
    → get j p.last_used ≡ none
    → get j (drop_each ks p).last_used ≡ none
unfolding drop_each drop
unused-drop_each j [] p h = h
unused-drop_each j (k ∷ ks) p h =
    unused-drop_each j ks (drop k p) (ground (arith, get-pop k j p.last_used))

drop_each-IsDict :
    (ks : List String) (p : Pool) → IsDict p.last_used → IsDict (drop_each ks p).last_used
unfolding drop_each drop
drop_each-IsDict [] p d = d
drop_each-IsDict (k ∷ ks) p d = drop_each-IsDict ks (drop k p) (pop-IsDict k p.last_used d)

clients-evict_all :
    (ts : List ℕ) (j : String) (p : Pool)
    → IsDict p.last_used
    → get j p.last_used ≡ none
    → get j (evict_all ts p).clients ≡ get j p.clients
unfolding evict_idle
clients-evict_all [] j p d h = refl
clients-evict_all (t ∷ ts) j p d h =
    clients-evict_all ts j (evict_idle t p)
      (drop_each-IsDict (keys_where (is_stale t) p.last_used) p d)
      (unused-drop_each j (keys_where (is_stale t) p.last_used) p h)
    ∙ clients-evict_idle t j p d
    ∙ rw h refl

-- After a respawn, be it for a dead client or for another profile, no eviction drops the new client,
-- however many there are and however late, as long as nothing else is done with the pool.
pub respawn_not_evicted :
    (w : Want) (a : Agent) (now : ℕ) (later : List ℕ) (p : Pool) (c : Client)
    → IsDict p.last_used
    → get w.conv p.clients ≡ some c
    → (alive c && same_profile p w) ≡ false
    → let q = (acquire w a now p).1 in get w.conv (evict_all later q).clients ≡ get w.conv q.clients
respawn_not_evicted w a now later p c d e spent =
    clients-evict_all later w.conv (acquire w a now p).1
      (last_used-acquire-IsDict w a now p c e spent d) (last_used-acquire_spent w a now p c e spent)
