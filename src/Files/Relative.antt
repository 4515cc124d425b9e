-- ===== src/Files/Relative.antt =====
-- `safe_relative_path` never climbs: every component of its result is a plain name.
use mathlib.Core.List.{append-nil}
use hermes_python.Prelude.{
  ◌≡◌, refl, ap, ◌∙◌, Bool, true, false, List, [], ◌∷◌, ◌++◌, ◌⊎◌, inl, inr, arith, All, ◌==◌,
  nat_has_eq, ℕ,
}
use hermes_python.Texts.{
  Text, text_eq, is_empty, replace, lstrip_by, split, join, starts_with, strip,
}
use hermes_python.Texts.Join.{Free, split-join, split-Free}
use hermes_python.Files.{
  slash, dot, dot_dot, norm_step, norm_from, in_order, initial_slashes, or_else, normpath,
  safe_relative_path,
}

-- A name that stays in its directory: not empty, not `.`, not `..`, and with no slash.
pub record IsPlain (w : Text) : Type 0 where
  pub free : Free slash w
  pub filled : is_empty w ≡ false
  pub no_dot : text_eq w dot ≡ false
  pub no_dot_dot : text_eq w dot_dot ≡ false

norm_step-IsPlain :
    (kept : List Text) (comp : Text)
    → All IsPlain kept
    → Free slash comp
    → All IsPlain (norm_step true kept comp)
unfolding norm_step
norm_step-IsPlain [] comp h f = ground arith
norm_step-IsPlain (last ∷ before) comp h f = ground arith

norm_from-IsPlain :
    (kept comps : List Text)
    → All IsPlain kept
    → All (Free slash) comps
    → All IsPlain (norm_from true kept comps)
unfolding norm_from
norm_from-IsPlain kept [] h f = h
norm_from-IsPlain kept (comp ∷ comps) h f =
    norm_from-IsPlain (norm_step true kept comp) comps (norm_step-IsPlain kept comp h f.0) f.1

in_order-IsPlain :
    (ws done : List Text) → All IsPlain ws → All IsPlain done → All IsPlain (in_order ws done)
unfolding in_order
in_order-IsPlain [] done h d = d
in_order-IsPlain (w ∷ ws) done h d = in_order-IsPlain ws (w ∷ done) h.1 (h.0, d)

abbrev is_slash : ℕ → Bool
is_slash c = c == slash

-- Joined plain names do not begin with a slash.
lstrip-join : (ws : List Text) → All IsPlain ws → lstrip_by is_slash (join slash ws) ≡ join slash ws
unfolding lstrip_by join
lstrip-join [] h = refl
lstrip-join ([] ∷ ws) h = ground arith
lstrip-join ((c ∷ w) ∷ []) h = ground arith
lstrip-join ((c ∷ w) ∷ v ∷ ws) h = ground arith

lstrip-initial :
    (path t : Text) → lstrip_by is_slash (initial_slashes path ++ t) ≡ lstrip_by is_slash t
unfolding lstrip_by
lstrip-initial path t = ground arith

rooted : (t : Text) → is_empty (initial_slashes (slash ∷ t)) ≡ false
unfolding starts_with
rooted t = ground arith

replace-same : (c : ℕ) (t : Text) → replace c c t ≡ t
unfolding replace
replace-same c [] = refl
replace-same c (x ∷ t) = ground (arith, replace-same c t)

is_empty-append : (s t : Text) → is_empty s ≡ false → is_empty (s ++ t) ≡ false
is_empty-append [] t h = cc
is_empty-append (x ∷ s) t h = refl

-- The components that survive the normalisation of a rooted path.
abbrev survivors : Text → List Text
survivors t = in_order (norm_from true [] (split slash (slash ∷ t))) []

survivors-IsPlain : (t : Text) → All IsPlain (survivors t)
survivors-IsPlain t =
    in_order-IsPlain (norm_from true [] (split slash (slash ∷ t))) []
      (norm_from-IsPlain [] (split slash (slash ∷ t)) tt (split-Free slash (slash ∷ t))) tt

normpath-survivors :
    (t : Text) → normpath (slash ∷ t) ≡ initial_slashes (slash ∷ t) ++ join slash (survivors t)
unfolding normpath
normpath-survivors t =
    let s = initial_slashes (slash ∷ t) in
    ground (arith, rooted t, is_empty-append s (join slash (survivors t)))

safe-survivors :
    (name fallback : Text)
    → safe_relative_path name fallback
      ≡ or_else (join slash (survivors (strip (replace 92 slash name)))) fallback
unfolding safe_relative_path
safe-survivors name fallback =
    let t = strip (replace 92 slash name) in
    ap (λ (u : Text). or_else u fallback)
      (replace-same slash _
        ∙ ap (lstrip_by is_slash) (normpath-survivors t)
        ∙ lstrip-initial (slash ∷ t) (join slash (survivors t))
        ∙ lstrip-join (survivors t) (survivors-IsPlain t))

is_empty-join :
    (w : Text) (ws : List Text) → All IsPlain (w ∷ ws) → is_empty (join slash (w ∷ ws)) ≡ false
unfolding join
is_empty-join [] ws h = ground arith
is_empty-join (c ∷ w) [] h = refl
is_empty-join (c ∷ w) (v ∷ ws) h = refl

All-Free : (ws : List Text) → All IsPlain ws → All (Free slash) ws
All-Free [] h = tt
All-Free (w ∷ ws) h = (h.0.free, All-Free ws h.1)

joined-IsPlain :
    (ws : List Text) (fallback : Text)
    → All IsPlain ws
    → All IsPlain (split slash (or_else (join slash ws) fallback))
      ⊎ (or_else (join slash ws) fallback ≡ fallback)
unfolding join
joined-IsPlain [] fallback h = inr refl
joined-IsPlain (w ∷ ws) fallback h =
    inl (rw (is_empty-join w ws h) (rw (split-join slash w ws (All-Free (w ∷ ws) h)) h))

-- Whatever the name, the result is the fallback, or each of its components is a plain name: not
-- empty, not `.` and not `..`.
pub safe_relative_path-IsPlain :
    (name fallback : Text)
    → All IsPlain (split slash (safe_relative_path name fallback))
      ⊎ (safe_relative_path name fallback ≡ fallback)
safe_relative_path-IsPlain name fallback =
    let t = strip (replace 92 slash name) in
    rw (safe-survivors name fallback) (joined-IsPlain (survivors t) fallback (survivors-IsPlain t))

norm_from-plain : (kept ws : List Text) → All IsPlain ws → norm_from true kept ws ≡ in_order ws kept
unfolding norm_from norm_step in_order
norm_from-plain kept [] h = refl
norm_from-plain kept (w ∷ ws) h = ground (arith, norm_from-plain (w ∷ kept) ws h.1)

in_order-in_order :
    (ws acc done : List Text) → in_order (in_order ws acc) done ≡ in_order acc (ws ++ done)
unfolding in_order
in_order-in_order [] acc done = refl
in_order-in_order (w ∷ ws) acc done = in_order-in_order ws (w ∷ acc) done

survivors-join :
    (w : Text) (ws : List Text) → All IsPlain (w ∷ ws) → survivors (join slash (w ∷ ws)) ≡ w ∷ ws
unfolding split norm_from norm_step in_order
survivors-join w ws h =
    rw (split-join slash w ws (All-Free (w ∷ ws) h))
      (rw (norm_from-plain [] (w ∷ ws) h) (in_order-in_order (w ∷ ws) [] [] ∙ append-nil (w ∷ ws)))

-- A nested path of plain names that needs no trimming and has no backslash is left as it is.
pub safe_relative_path-join :
    (w : Text) (ws : List Text) (fallback : Text)
    → All IsPlain (w ∷ ws)
    → strip (replace 92 slash (join slash (w ∷ ws))) ≡ join slash (w ∷ ws)
    → safe_relative_path (join slash (w ∷ ws)) fallback ≡ join slash (w ∷ ws)
safe_relative_path-join w ws fallback h e =
    safe-survivors (join slash (w ∷ ws)) fallback
    ∙ rw e (rw (survivors-join w ws h) (rw (is_empty-join w ws h)))
