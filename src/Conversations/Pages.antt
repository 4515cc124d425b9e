-- ===== src/Conversations/Pages.antt =====
-- Reading a conversation page by page.
use hermes_python.Prelude.{
  ℕ, zero, suc, ◌<◌, ◌≡◌, ◌⊎◌, refl, sym, ap, ◌∙◌, subst, Bool, Option, none, some, String, List,
  [], ◌∷◌, ◌++◌, arith, ◌==◌, nat_has_eq, keep, find?, take, length, All, ltb→lt, lt→ltb,
  Bool-cases, inl, inr,
}
use mathlib.Core.List.{append_assoc, append-nil}
use hermes_python.Conversations.{
  Message, Tables, newest_first, reversed, is_older, is_of, get_messages, older_than,
}
use hermes_python.Conversations.Order.{Distinct, Falling, newest_first-Falling, keep-newest_first}

keep_none :
    (t : ℕ) (ms : List Message)
    → All (λ (x : Message). x.created_at < t) ms
    → keep (is_older t) ms ≡ ms
keep_none t [] a = refl
keep_none t (m ∷ ms) a = ground (arith, keep_none t ms a.1, a.0, lt→ltb m.created_at t)

keep_older :
    (newer : List Message) (c : Message) (older : List Message)
    → Falling (newer ++ c ∷ older)
    → keep (is_older c.created_at) (newer ++ c ∷ older) ≡ older
keep_older [] c older f =
    ground (arith, keep_none c.created_at older f.0, ltb→lt c.created_at c.created_at)
keep_older (x ∷ newer) c older f =
    ground (arith, keep_older newer c older f.1, after newer f.0, ltb→lt x.created_at c.created_at)
  where
    after :
        (ms : List Message)
        → All (λ (y : Message). y.created_at < x.created_at) (ms ++ c ∷ older)
        → c.created_at < x.created_at
    after [] a = a.0
    after (m ∷ ms) a = after ms a.1

-- A page is empty or ends, on the old side, with a message `c` that what is left comes after.
abbrev Cut : ℕ → List Message → Type 0
Cut n older =
    (older ≡ [])
    ⊎ ((front : List Message) × (c : Message) × (rest : List Message) × (take (suc n) older
          ≡ front ++ c ∷ [])
        × (older ≡ front ++ c ∷ rest)
        × (length rest < length older))

cut : (n : ℕ) (older : List Message) → Cut n older
cut n [] = inl refl
cut zero (m ∷ ms) = inr ([], m, ms, refl, refl, omega arith)
cut (suc n) (m ∷ ms) = elim (cut n ms) [
  | inl e ↦ inr ([], m, [], ap (λ l. m ∷ take (suc n) l) e, ap (λ l. m ∷ l) e, omega arith)
  | inr (front, c, rest, t, o, l) ↦
      inr (m ∷ front, c, rest, ap (λ k. m ∷ k) t, ap (λ k. m ∷ k) o, omega (arith, l))
]

reversed-append : (xs ys : List Message) → reversed (xs ++ ys) ≡ reversed ys ++ reversed xs
unfolding reversed
reversed-append [] ys = sym (append-nil (reversed ys))
reversed-append (x ∷ xs) ys =
    ap (λ l. l ++ x ∷ []) (reversed-append xs ys)
    ∙ append_assoc (reversed ys) (reversed xs) (x ∷ [])

module _ (role_le : String → String → Bool) (d : Tables) (cid : ℕ) where
  -- The messages of the conversation, the newest first.
  abbrev pub rows : List Message
  rows = newest_first role_le (keep (is_of cid) d.messages)

  older_at :
      (c : Message)
      → find? (λ (m : Message). m.id == c.id) d.messages ≡ some c
      → (ms : List Message) → older_than (some c.id) d.messages ms ≡ keep (is_older c.created_at) ms
  older_at c k ms =
      ap (λ (o : Option Message). elim o [ none ↦ [] | some x ↦ keep (is_older x.created_at) ms ]) k

  -- The page before a message holds the messages that are next to it in time, as many as asked for.
  pub page_before :
      (newer : List Message) (c : Message) (older : List Message) (n : ℕ)
      → Distinct (keep (is_of cid) d.messages)
      → rows ≡ newer ++ c ∷ older
      → find? (λ (m : Message). m.id == c.id) d.messages ≡ some c
      → get_messages role_le d cid (some (suc n)) (some c.id) ≡ reversed (take (suc n) older)
  unfolding get_messages
  page_before newer c older n h e k =
      ap (λ l. reversed (take (suc n) (newest_first role_le l)))
        (older_at c k (keep (is_of cid) d.messages))
      ∙ ap (λ l. reversed (take (suc n) l))
          (keep-newest_first role_le c.created_at (keep (is_of cid) d.messages)
            ∙ ap (keep (is_older c.created_at)) e
            ∙ keep_older newer c older
                (subst Falling e (newest_first-Falling role_le (keep (is_of cid) d.messages) h)))

  -- A reader that asks for the page before the oldest message it has, until a page is empty.
  abbrev pub scroll : ℕ → ℕ → Option ℕ → List Message
  scroll zero n before = []
  scroll (suc k) n before = elim (get_messages role_le d cid (some (suc n)) before) [
    | [] ↦ []
    | m ∷ page ↦ scroll k n (some m.id) ++ m ∷ page
  ]

  -- Each message is found by its id.
  abbrev pub Keyed : List Message → Type 0
  Keyed ms = All (λ (m : Message). find? (λ (x : Message). x.id == m.id) d.messages ≡ some m) ms

  scroll_from :
      (k n : ℕ) (before : Option ℕ) (newer older : List Message)
      → Distinct (keep (is_of cid) d.messages)
      → Keyed rows
      → rows ≡ newer ++ older
      → get_messages role_le d cid (some (suc n)) before ≡ reversed (take (suc n) older)
      → length older < k
      → scroll k n before ≡ reversed older
  unfolding reversed
  scroll_from zero n before newer older h ids e page l = ground (arith, l)
  scroll_from (suc k) n before newer older h ids e page l = elim (cut n older) [
    | inl none_left ↦
        rw (page ∙ ap (λ l. reversed (take (suc n) l)) none_left, scroll)
          (ap reversed (sym none_left))
    | inr (front, c, rest, t, o, shorter) ↦
        let so_far = e ∙ ap (λ l. newer ++ l) o ∙ sym (append_assoc newer front (c ∷ rest)) in
        let key = found_at (newer ++ front) c rest (subst Keyed so_far ids) in
        let next = page_before (newer ++ front) c rest n h so_far key in
        let all = so_far ∙ sym (append_assoc (newer ++ front) (c ∷ []) rest) in
        rw (page ∙ ap reversed t ∙ reversed-append front (c ∷ []), scroll)
          (ap (λ l. l ++ c ∷ reversed front)
              (scroll_from k n (some c.id) (newer ++ front ++ c ∷ []) rest h ids all next
                (omega (arith, shorter, l)))
            ∙ back front c rest
            ∙ ap reversed (sym o))
  ]
    where
      found_at :
          (xs : List Message) (c : Message) (rest : List Message)
          → Keyed (xs ++ c ∷ rest)
          → find? (λ (x : Message). x.id == c.id) d.messages ≡ some c
      found_at [] c rest a = a.0
      found_at (x ∷ xs) c rest a = found_at xs c rest a.1

      back :
          (front : List Message) (c : Message) (rest : List Message)
          → reversed rest ++ c ∷ reversed front ≡ reversed (front ++ c ∷ rest)
      back front c rest =
          sym (append_assoc (reversed rest) (c ∷ []) (reversed front))
          ∙ sym (reversed-append front (c ∷ rest))

  -- Where no two messages of a conversation are of one time, and each is found by its id, reading it
  -- page by page from the newest page back gives each message once and in order, whatever the length
  -- of a page: as many pages as there are messages, and one more, are enough.
  pub scroll-get_messages :
      (n : ℕ)
      → Distinct (keep (is_of cid) d.messages)
      → Keyed rows
      → scroll (suc (length rows)) n none ≡ get_messages role_le d cid none none
  unfolding get_messages
  scroll-get_messages n h ids =
      scroll_from (suc (length rows)) n none [] rows h ids refl refl (omega arith)

All-older :
    (t : ℕ) (ms : List Message) → All (λ (x : Message). x.created_at < t) (keep (is_older t) ms)
All-older t [] = tt
All-older t (m ∷ ms) = elim (Bool-cases (is_older t m)) [
  | inl y ↦ rw y (ltb→lt m.created_at t y, All-older t ms)
  | inr n ↦ rw n (All-older t ms)
]
