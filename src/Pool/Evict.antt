-- ===== src/Pool/Evict.antt =====
-- `evict_idle` drops the conversations whose last use is older than the timeout, and no other.
use hermes_python.Prelude.{
  ℕ, ◌≡◌, refl, none, String, List, [], ◌∷◌, arith, string_has_eq, contains, if◌then◌else◌,
}
use hermes_python.Dict.{get, get-pop}
use hermes_python.Dict.Keys.{IsDict, keys_where, passes, contains-keys_where}
use hermes_python.Pool.{Pool, drop, is_stale, drop_each, evict_idle}

clients-drop_each :
    (j : String) (ks : List String) (p : Pool)
    → get j (drop_each ks p).clients ≡ (if contains j ks then none else get j p.clients)
unfolding drop_each drop
clients-drop_each j [] p = refl
clients-drop_each j (k ∷ ks) p = ground (
  arith,
  clients-drop_each j ks (drop k p),
  get-pop k j p.clients,
  string_has_eq.same_iff j k,
  string_has_eq.same_iff k j,
)

-- After an eviction a conversation has no client if its last use is recorded and stale, and the
-- client that it had otherwise.
pub clients-evict_idle :
    (now : ℕ) (j : String) (p : Pool)
    → IsDict p.last_used
    → get j (evict_idle now p).clients
      ≡ (if passes (is_stale now) (get j p.last_used) then none else get j p.clients)
unfolding evict_idle
clients-evict_idle now j p d =
    rw (clients-drop_each j (keys_where (is_stale now) p.last_used) p)
      (rw (contains-keys_where (is_stale now) j p.last_used d))
