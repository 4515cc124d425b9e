-- ===== src/Profiles/Scanned.antt =====
-- Scanning again.
use hermes_python.Prelude.{
  ℕ, ◌+◌, ◌≡◌, refl, sym, ap, Bool, true, false, String, List, [], ◌∷◌, ◌++◌, map, arith, All,
  length, ==_refl, string_has_eq, contains, keep, Bool-cases, inl, inr, if◌then◌else◌,
}
use hermes_python.Http.{ok}
use hermes_python.Profiles.{
  Agent, Profile, Found, handles, add_missing, from_files, from_agent, scan_profiles, put_agent,
  has_agent, upsert_each,
}

contains-append :
    (h : String) (ps : List Profile) (c : Profile)
    → contains h (handles ps) ≡ true
    → contains h (handles (ps ++ c ∷ [])) ≡ true
contains-append h [] c k = ground (arith, k)
contains-append h (p ∷ ps) c k = ground (arith, contains-append h ps c, k)

contains-new : (ps : List Profile) (c : Profile) → contains c.handle (handles (ps ++ c ∷ [])) ≡ true
contains-new [] c = ground (arith, ==_refl c.handle)
contains-new (p ∷ ps) c = ground (arith, contains-new ps c)

-- A handle that is taken stays so.
stays :
    (h : String) (cs ps : List Profile)
    → contains h (handles ps) ≡ true
    → contains h (handles (add_missing cs ps).0) ≡ true
unfolding add_missing
stays h [] ps k = k
stays h (c ∷ cs) ps k = elim (Bool-cases (contains c.handle (handles ps))) [
  | inl y ↦ rw (y, add_missing) (stays h cs ps k)
  | inr n ↦ rw (n, add_missing) (stays h cs (ps ++ c ∷ []) (contains-append h ps c k))
]

abbrev Taken : List Profile → List Profile → Type 0
Taken ps cs = All (λ (c : Profile). contains c.handle (handles ps) ≡ true) cs

add_missing-Taken : (cs ps : List Profile) → Taken (add_missing cs ps).0 cs
unfolding add_missing
add_missing-Taken [] ps = tt
add_missing-Taken (c ∷ cs) ps =
    let next = if contains c.handle (handles ps) then ps else ps ++ c ∷ [] in
    (
      stays c.handle cs next (present (contains c.handle (handles ps)) refl),
      add_missing-Taken cs next,
    )
  where
    present :
        (b : Bool)
        → b ≡ contains c.handle (handles ps)
        → contains c.handle (handles (if b then ps else ps ++ c ∷ [])) ≡ true
    present true e = sym e
    present false e = contains-new ps c

none_missing : (cs ps : List Profile) → Taken ps cs → add_missing cs ps ≡ (ps, 0)
unfolding add_missing
none_missing [] ps t = refl
none_missing (c ∷ cs) ps t = rw (t.0, add_missing, none_missing cs ps t.1) refl

add_missing_again :
    (cs ps : List Profile) → add_missing cs (add_missing cs ps).0 ≡ ((add_missing cs ps).0, 0)
add_missing_again cs ps = none_missing cs (add_missing cs ps).0 (add_missing-Taken cs ps)

-- A second scan of the same files and agents, after one that was stored, adds no profile and leaves
-- those there are.
pub scan_profiles_again :
    (fs : List Found) (agents : List (Agent × ℕ)) (commits : Bool) (ps : List Profile)
    → let of_agents = keep (λ (x : Agent × ℕ). x.0.available) agents in
      let first = add_missing (map from_files fs ++ map from_agent of_agents) ps in
      (scan_profiles "admin" fs agents true ps ≡ ok first)
      × (scan_profiles "admin" fs agents commits first.0 ≡ ok (first.0, 0))
unfolding scan_profiles
scan_profiles_again fs agents true ps = (
  refl,
  ap ok (
      add_missing_again
        (map from_files fs ++ map from_agent (keep (λ (x : Agent × ℕ). x.0.available) agents)) ps),
)
scan_profiles_again fs agents false ps = (refl, refl)

has-put_agent :
    (id : String) (a : Agent) (rows : List Agent)
    → has_agent id rows ≡ true
    → has_agent id (put_agent a rows) ≡ true
unfolding put_agent
has-put_agent id a [] h = ground (arith, h)
has-put_agent id a (x ∷ rows) h = ground (
  arith,
  has-put_agent id a rows,
  h,
  string_has_eq.same_iff x.id a.id,
  string_has_eq.same_iff x.id id,
  string_has_eq.same_iff a.id id,
)

has-put_agent_own : (a : Agent) (rows : List Agent) → has_agent a.id (put_agent a rows) ≡ true
unfolding put_agent
has-put_agent_own a [] = ground (arith, ==_refl a.id)
has-put_agent_own a (x ∷ rows) = ground (arith, has-put_agent_own a rows, ==_refl a.id)

has-upsert_each :
    (id : String) (ds rows : List Agent)
    → has_agent id rows ≡ true
    → has_agent id (upsert_each ds rows).0 ≡ true
unfolding upsert_each
has-upsert_each id [] rows h = h
has-upsert_each id (a ∷ ds) rows h =
    has-upsert_each id ds (put_agent a rows) (has-put_agent id a rows h)

abbrev Known : List Agent → List Agent → Type 0
Known rows ds = All (λ (a : Agent). has_agent a.id rows ≡ true) ds

upsert_each-Known : (ds rows : List Agent) → Known (upsert_each ds rows).0 ds
unfolding upsert_each
upsert_each-Known [] rows = tt
upsert_each-Known (a ∷ ds) rows = (
  has-upsert_each a.id ds (put_agent a rows) (has-put_agent_own a rows),
  upsert_each-Known ds (put_agent a rows),
)

put_agent-Known : (a : Agent) (rows ds : List Agent) → Known rows ds → Known (put_agent a rows) ds
put_agent-Known a rows [] k = tt
put_agent-Known a rows (d ∷ ds) k = (has-put_agent d.id a rows k.0, put_agent-Known a rows ds k.1)

none_created : (ds rows : List Agent) → Known rows ds → (upsert_each ds rows).1 ≡ 0
unfolding upsert_each
none_created [] rows k = refl
none_created (a ∷ ds) rows k =
    rw (k.0, upsert_each)
      (omega (arith, none_created ds (put_agent a rows) (put_agent-Known a rows ds k.1)))

counted : (ds rows : List Agent) → (upsert_each ds rows).1 + (upsert_each ds rows).2 ≡ length ds
unfolding upsert_each
counted [] rows = refl
counted (a ∷ ds) rows = ground (arith, counted ds (put_agent a rows))

-- Each agent that a scan finds is counted once, as created or as updated, and a second scan that
-- finds the same ones creates none.
pub upsert_each_lem :
    (ds rows : List Agent)
    → ((upsert_each ds rows).1 + (upsert_each ds rows).2 ≡ length ds)
      × ((upsert_each ds (upsert_each ds rows).0).1 ≡ 0)
upsert_each_lem ds rows =
    (counted ds rows, none_created ds (upsert_each ds rows).0 (upsert_each-Known ds rows))
