-- ===== src/Redis/Delivered.antt =====
-- A client that has a place in the stream misses no event of it, however often it comes back.
use mathlib.Core.List.{append_assoc, append-nil}
use hermes_python.Prelude.{
  ℕ, ◌+◌, length, zero, suc, ◌≤◌, ◌<◌, ◌≡◌, refl, sym, ap, ◌∙◌, subst, Bool, true, false, Option,
  none, some, String, List, [], ◌∷◌, ◌++◌, arith, max, keep, take, drop, lt→ltb, ltb→lt,
  Option-cases, Bool-cases, inl, inr,
}
use hermes_python.Redis.Stream.{
  maxlen, adds_at_most, Entry, Streams, IsStreams, last_of, Growing, is_after, latest_event_id,
  read_events, publish_event, Client, resumed, opened, handed, Happening, publishes, goes_round,
  breaks_after, happen, happen_all,
}

all_after : (m n : ℕ) (es : List Entry) → m ≤ n → Growing n es → keep (is_after m) es ≡ es
all_after m n [] h g = refl
all_after m n (e ∷ es) h g =
    ground (arith, all_after m e.id es (omega (arith, h, g.0)) g.1, g.0, lt→ltb m e.id)

grows : (n : ℕ) (es : List Entry) → Growing n es → n ≤ last_of n es
grows n [] g = omega arith
grows n (e ∷ es) g = omega (arith, g.0, grows e.id es g.1)

skip :
    (m : ℕ) (e : Entry) (es : List Entry)
    → e.id ≤ m
    → keep (is_after m) (e ∷ es) ≡ keep (is_after m) es
skip m e es h = ground (arith, h, ltb→lt m e.id)

not_after : (m : ℕ) (e : Entry) → is_after m e ≡ false → e.id ≤ m
not_after m e h = ground (arith, h, lt→ltb m e.id)

-- After some of the entries that come after an id, the others are those after the last of them.
cut_at :
    (b m : ℕ) (entries xs ys : List Entry)
    → Growing b entries
    → keep (is_after m) entries ≡ xs ++ ys
    → (keep (is_after (last_of m xs)) entries ≡ ys)
      × (m ≤ last_of m xs)
      × (last_of m xs ≤ max m (last_of b entries))
cut_at b m entries [] ys g h = (h, omega arith, omega arith)
cut_at b m [] (x ∷ xs) ys g h = ground (arith, h)
cut_at b m (e ∷ es) (x ∷ xs) ys g h = elim (Bool-cases (is_after m e)) [
  | inl y ↦
      let same = rw y at h in
      let first = ap (λ l. elim l [ [] ↦ e | z ∷ zs ↦ z ]) same in
      let rest = ap (λ l. elim l [ [] ↦ [] | z ∷ zs ↦ zs ]) same in
      let tail =
        all_after e.id e.id es (omega arith) g.1
        ∙ sym (all_after m e.id es (omega (arith, ltb→lt m e.id y)) g.1)
        ∙ rest in
      let more =
        subst
          (λ (z : Entry).
            (keep (is_after (last_of z.id xs)) es ≡ ys)
            × (e.id ≤ last_of z.id xs)
            × (last_of z.id xs ≤ max e.id (last_of e.id es)))
          first (cut_at e.id e.id es xs ys g.1 tail) in
      (
        skip (last_of x.id xs) e es more.1 ∙ more.0,
        omega (arith, more.1, ltb→lt m e.id y),
        omega (arith, more.2, grows e.id es g.1),
      )
  | inr n ↦
      let more = cut_at e.id m es (x ∷ xs) ys g.1 (rw n at h) in
      (
        skip (last_of x.id xs) e es (omega (arith, more.1, not_after m e n)) ∙ more.0,
        more.1,
        more.2,
      )
]

module _ (c : Streams) (law : IsStreams c) (start : ℕ) where
  -- The client has a place, and has received what came after the start up to there.
  pub record Follows (s : c.State) (k : Client c) : Type 0 where
    pub growing : Growing 0 (c.entries s)
    pub placed : k.resume ≡ some k.last_id
    pub within : k.last_id ≤ latest_event_id c s
    pub begun : start ≤ latest_event_id c s
    pub same :
        k.received ++ keep (is_after k.last_id) (c.entries s) ≡ keep (is_after start) (c.entries s)

  Growing-append :
      (n : ℕ) (es : List Entry) (e : Entry)
      → Growing n es
      → last_of n es < e.id
      → Growing n (es ++ e ∷ [])
  Growing-append n [] e g h = (h, tt)
  Growing-append n (x ∷ es) e g h = (g.0, Growing-append x.id es e g.1 h)

  last_of-append : (n : ℕ) (es : List Entry) (e : Entry) → last_of n (es ++ e ∷ []) ≡ e.id
  last_of-append n [] e = refl
  last_of-append n (x ∷ es) e = last_of-append x.id es e

  keep-append :
      (m : ℕ) (es : List Entry) (e : Entry)
      → m < e.id
      → keep (is_after m) (es ++ e ∷ []) ≡ keep (is_after m) es ++ e ∷ []
  keep-append m [] e h = ground (arith, h, lt→ltb m e.id)
  keep-append m (x ∷ es) e h = ground (arith, keep-append m es e h)

  grown-Follows :
      (s new : c.State) (k : Client c) (e : Entry)
      → latest_event_id c s < e.id
      → c.entries new ≡ c.entries s ++ e ∷ []
      → Follows s k
      → Follows new k
  grown-Follows s new k e above h f =
      let last = ap (last_of 0) h ∙ last_of-append 0 (c.entries s) e in
      record {
        growing = subst (Growing 0) (sym h) (Growing-append 0 (c.entries s) e f.growing above);
        placed = f.placed;
        within = omega (arith, f.within, last, above);
        begun = omega (arith, f.begun, last, above);
        same =
            ap (λ l. k.received ++ keep (is_after k.last_id) l) h
            ∙ ap (λ l. k.received ++ l)
                (keep-append k.last_id (c.entries s) e (omega (arith, f.within, above)))
            ∙ sym (append_assoc k.received (keep (is_after k.last_id) (c.entries s)) (e ∷ []))
            ∙ ap (λ l. l ++ e ∷ []) f.same
            ∙ sym (keep-append start (c.entries s) e (omega (arith, f.begun, above)))
            ∙ ap (keep (is_after start)) (sym h);
      }

  length-added : (es : List Entry) (e : Entry) → length (es ++ e ∷ []) ≡ length es + 1
  length-added [] e = refl
  length-added (x ∷ es) e = omega (arith, length-added es e)

  -- The client still follows, and there are so many entries more at most.
  abbrev Grown : ℕ → c.State → c.State → Client c → Type 0
  Grown n s new k = Follows new k × (length (c.entries new) ≤ length (c.entries s) + n)

  added-Follows :
      (s new : c.State) (k : Client c) (text : String)
      → length (c.entries s) < maxlen
      → c.add s text ≡ some new
      → Follows s k
      → Grown 1 s new k
  added-Follows s new k text room h f =
      let grown = law.entries-add s new text room h in
      let e : Entry = record { id = grown.0; data_field = text } in
      (
        grown-Follows s new k e grown.1 grown.2 f,
        omega (arith, ap length grown.2, length-added (c.entries s) e),
      )

  published-Follows :
      (s new : c.State) (k : Client c) (unanswered : Bool) (text : String)
      → length (c.entries s) + 2 ≤ maxlen
      → publish_event c unanswered text s ≡ some new
      → Follows s k
      → Grown 2 s new k
  unfolding publish_event
  published-Follows s new k unanswered text room h f = elim (Option-cases (c.add s text)) [
    | inl e ↦ ground (arith, rw (e, publish_event) at h)
    | inr (t, e) ↦
        twice unanswered t (added-Follows s t k text (omega (arith, room)) e f)
          (rw (e, publish_event) at h)
  ]
    where
      same_state : (t u : c.State) → some t ≡ some u → Grown 2 s t k → Grown 2 s u k
      same_state t u e g =
          subst (λ w. Grown 2 s w k)
            (ap (λ (o : Option c.State). elim o [ none ↦ t | some w ↦ w ]) e) g

      more_room : (t : c.State) → Grown 1 s t k → Grown 2 s t k
      more_room t g = (g.0, omega (arith, g.1))

      again : (t more : c.State) → Grown 1 s t k → c.add t text ≡ some more → Grown 2 s more k
      again t more g e =
          let last = added-Follows t more k text (omega (arith, room, g.1)) e g.0 in
          (last.0, omega (arith, last.1, g.1))

      twice :
          (unanswered : Bool) (t : c.State)
          → Grown 1 s t k
          → elim unanswered [
            | true ↦ elim (c.add t text) [ none ↦ some t | some more ↦ some more ]
            | false ↦ some t
          ]
            ≡ some new
          → Grown 2 s new k
      twice true t g i = elim (Option-cases (c.add t text)) [
        | inl e ↦ same_state t new (rw e at i) (more_room t g)
        | inr (more, e) ↦ same_state more new (rw e at i) (again t more g e)
      ]
      twice false t g i = same_state t new i (more_room t g)

  place-handed :
      (k : Client c) (es : List Entry)
      → k.resume ≡ some k.last_id
      → resumed c k.resume es ≡ some (last_of k.last_id es)
  place-handed k [] h = h
  place-handed k (e ∷ es) h = refl

  handed-Follows :
      (s : c.State) (k : Client c) (es rest : List Entry)
      → keep (is_after k.last_id) (c.entries s) ≡ es ++ rest
      → Follows s k
      → Follows s (handed c k es)
  unfolding handed
  handed-Follows s k es rest h f =
      let at_end = cut_at 0 k.last_id (c.entries s) es rest f.growing h in
      record {
        growing = f.growing;
        placed = place-handed k es f.placed;
        within = omega (arith, at_end.2, f.within);
        begun = f.begun;
        same =
            ap (λ l. k.received ++ es ++ l) at_end.0
            ∙ append_assoc k.received es rest
            ∙ ap (λ l. k.received ++ l) (sym h)
            ∙ f.same;
      }

  opened-Follows :
      (s : c.State) (k : Client c) → Follows s k → Follows s (opened c s k.resume k.received)
  unfolding opened
  opened-Follows s k f =
      let same_place =
        ap (λ (r : Option ℕ). elim r [ none ↦ latest_event_id c s | some n ↦ n ]) f.placed in
      record {
        growing = f.growing;
        placed = f.placed ∙ ap some (sym same_place);
        within = omega (arith, same_place, f.within);
        begun = f.begun;
        same = ap (λ n. k.received ++ keep (is_after n) (c.entries s)) same_place ∙ f.same;
      }

  split : (n : ℕ) (es : List Entry) → es ≡ take n es ++ drop n es
  split zero es = refl
  split (suc n) [] = refl
  split (suc n) (e ∷ es) = ap (λ l. e ∷ l) (split n es)

  happen-Follows :
      (x : Happening c) (s : c.State) (k : Client c)
      → length (c.entries s) + adds_at_most c (x ∷ []) ≤ maxlen
      → Follows s k
      → let next = happen c x s k in Grown (adds_at_most c (x ∷ [])) s next.0 next.1
  unfolding happen
  happen-Follows (publishes unanswered text) s k room f =
      elim (Option-cases (publish_event c unanswered text s)) [
        | inl e ↦ rw (e, happen) (f, omega arith)
        | inr (new, e) ↦ rw (e, happen) (published-Follows s new k unanswered text room e f)
      ]
  happen-Follows goes_round s k room f =
      let pending = keep (is_after k.last_id) (c.entries s) in
      (
        handed-Follows s k (read_events c s k.last_id) (drop 256 pending)
            (split 256 pending
              ∙ ap (λ l. l ++ drop 256 pending) (sym (law.read-entries s k.last_id 256)))
            f,
        omega arith,
      )
  happen-Follows (breaks_after n) s k room f =
      let pending = keep (is_after k.last_id) (c.entries s) in
      let got = read_events c s k.last_id in
      (
        opened-Follows s (handed c k (take n got)) (
            handed-Follows s k (take n got) (drop n got ++ drop 256 pending)
              (split 256 pending
                ∙ ap (λ l. l ++ drop 256 pending)
                    (sym (law.read-entries s k.last_id 256) ∙ split n got)
                ∙ append_assoc (take n got) (drop n got) (drop 256 pending))
              f),
        omega arith,
      )

  adds-cons :
      (x : Happening c) (xs : List (Happening c))
      → adds_at_most c (x ∷ xs) ≡ adds_at_most c (x ∷ []) + adds_at_most c xs
  adds-cons (publishes unanswered text) xs = omega arith
  adds-cons goes_round xs = omega arith
  adds-cons (breaks_after n) xs = omega arith

  happen_all-Follows :
      (xs : List (Happening c)) (s : c.State) (k : Client c)
      → length (c.entries s) + adds_at_most c xs ≤ maxlen
      → Follows s k
      → let next = happen_all c xs s k in Follows next.0 next.1
  happen_all-Follows [] s k room f = f
  happen_all-Follows (x ∷ xs) s k room f =
      let next = happen c x s k in
      let here = happen-Follows x s k (omega (arith, room, adds-cons x xs)) f in
      happen_all-Follows xs next.0 next.1 (omega (arith, room, here.1, adds-cons x xs)) here.0

  none_taken : (n : ℕ) (es : List Entry) → take (suc n) es ≡ [] → es ≡ []
  none_taken n [] h = refl
  none_taken n (e ∷ es) h = ground (arith, h)

  -- A client opens the stream at the id of an entry, or at any place before the newest, and the stream,
  -- which does not run out meanwhile, has with all that is published at most as many entries as it may
  -- keep. Then the client has, as soon as a round finds nothing more, received each entry after that place
  -- once and in order: whatever was published, however the rounds fell, and wherever between two frames
  -- its connection was lost and opened again. An event that was published twice is two entries.
  pub received_all :
      (xs : List (Happening c)) (s : c.State)
      → Growing 0 (c.entries s)
      → start ≤ latest_event_id c s
      → length (c.entries s) + adds_at_most c xs ≤ maxlen
      → read_events c
          (happen_all c xs s (opened c s (some start) [])).0
          (happen_all c xs s (opened c s (some start) [])).1.last_id
        ≡ []
      → (happen_all c xs s (opened c s (some start) [])).1.received
        ≡ keep (is_after start) (c.entries (happen_all c xs s (opened c s (some start) [])).0)
  unfolding opened
  received_all xs s g h room quiet =
      let f =
        happen_all-Follows xs s (opened c s (some start) []) room
          (record { growing = g; placed = refl; within = h; begun = h; same = refl }) in
      at_rest _ _ f quiet
    where
      at_rest :
          (t : c.State) (k : Client c)
          → Follows t k
          → read_events c t k.last_id ≡ []
          → k.received ≡ keep (is_after start) (c.entries t)
      at_rest t k f q =
          sym (append-nil k.received)
          ∙ ap (λ l. k.received ++ l)
              (sym (
                none_taken 255 (keep (is_after k.last_id) (c.entries t))
                  (sym (law.read-entries t k.last_id 256) ∙ q)))
          ∙ f.same
