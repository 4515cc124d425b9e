-- ===== src/Identity/Secrets.antt =====
-- A secret of a configuration is not lost.
use hermes_python.Prelude.{
  ◌≡◌, ◌⊎◌, subst, Bool, true, false, not, Option, none, some, String, [], ◌∷◌, arith, ◌==◌,
  string_has_eq, contains, Bool-cases, inl, inr, if◌then◌else◌,
}
use hermes_python.Dict.{Dict, get, put, get-put}
use hermes_python.Identity.{Provider, is_truthy, secret_keys, is_kept, merged, update_provider}

step_stays :
    (existing acc : Dict String String) (k j v : String)
    → contains k secret_keys ≡ true
    → is_truthy (get k existing) ≡ true
    → is_truthy (get k acc) ≡ true
    → is_truthy (get k (if is_kept existing j v then acc else put j v acc)) ≡ true
unfolding is_kept
step_stays existing acc k j v s h a = elim (Bool-cases (is_kept existing j v)) [
  | inl y ↦ rw y a
  | inr n ↦ rw (n, get-put j k v acc) (written (Bool-cases (j == k)) n)
]
  where
    not_empty : is_kept existing k v ≡ false → not (v == "") ≡ true
    not_empty n = ground (arith, rw (is_kept, s, h) at n)

    written :
        ((j == k) ≡ true) ⊎ ((j == k) ≡ false)
        → is_kept existing j v ≡ false
        → is_truthy (if j == k then some v else get k acc) ≡ true
    written (inr d) n = rw d a
    written (inl e) n =
        rw e (
          not_empty
            (subst (λ z. is_kept existing z v ≡ false) ((string_has_eq.same_iff j k).0 e) n))

merged_stays :
    (existing new acc : Dict String String) (k : String)
    → contains k secret_keys ≡ true
    → is_truthy (get k existing) ≡ true
    → is_truthy (get k acc) ≡ true
    → is_truthy (get k (merged existing new acc)) ≡ true
unfolding merged
merged_stays existing [] acc k s h a = a
merged_stays existing ((j, v) ∷ new) acc k s h a =
    merged_stays existing new (if is_kept existing j v then acc else put j v acc) k s h
      (step_stays existing acc k j v s h a)

-- A secret that is set stays set, whatever configuration is sent: an empty text does not clear it.
pub secret_stays :
    (p : Provider) (enabled : Option Bool) (config : Option (Dict String String)) (k : String)
    → contains k secret_keys ≡ true
    → is_truthy (get k p.config) ≡ true
    → is_truthy (get k (update_provider enabled config p).config) ≡ true
unfolding update_provider
secret_stays p enabled none k s h = h
secret_stays p enabled (some new) k s h = merged_stays p.config new p.config k s h h
