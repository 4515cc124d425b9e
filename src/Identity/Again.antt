-- ===== src/Identity/Again.antt =====
-- Logging in again from a directory.
use hermes_python.Prelude.{
  ℕ, suc, ◌≡◌, refl, sym, ap, ◌∙◌, Bool, true, false, Option, none, some, String, List, [], ◌∷◌,
  ◌++◌, arith, length, ◌==◌, ==_refl, nat_has_eq, string_has_eq, find?, Option-cases, Bool-cases,
  inl, inr, if◌then◌else◌,
}
use hermes_python.Identity.{
  IdentityInfo, Mapping, User, Member, Directory, match_of, is_linked, put_user, with_department,
  linked, new_user, provision_row, is_row, auto_join, role_of, provision_user,
}

module _ (lower : String → String) (is_in : String → String → Bool) where
  length-put_user :
      (id : ℕ) (f : User → User) (us : List User)
      → length (put_user lower is_in id f us) ≡ length us
  unfolding put_user
  length-put_user id f [] = refl
  length-put_user id f (u ∷ us) = ap suc (length-put_user id f us)

  -- A change that leaves the id and what is looked for leaves the row that is found.
  found-put_user :
      (p : User → Bool) (id : ℕ) (f : User → User) (us : List User) (u : User)
      → ((x : User) → p (f x) ≡ p x)
      → ((x : User) → (f x).id ≡ x.id)
      → find? p us ≡ some u
      → (v : User) × (find? p (put_user lower is_in id f us) ≡ some v) × (v.id ≡ u.id)
  unfolding put_user
  found-put_user p id f [] u k i h = ground (arith, h)
  found-put_user p id f (x ∷ us) u k i h = elim (Bool-cases (p x)) [
    | inl y ↦
        let here = ap (λ o. elim o [ none ↦ x | some z ↦ z ]) (rw y at h) in
        rw (changed (x.id == id) ∙ y) (_, refl, kept_id (x.id == id) ∙ ap (λ (z : User). z.id) here)
    | inr n ↦ rw (changed (x.id == id) ∙ n) (found-put_user p id f us u k i (rw n at h))
  ]
    where
      changed : (b : Bool) → p (if b then f x else x) ≡ p x
      changed true = k x
      changed false = refl

      kept_id : (b : Bool) → (if b then f x else x).id ≡ x.id
      kept_id true = i x
      kept_id false = refl

  -- A row that is found by one test, and that a change makes pass another.
  linked-put_user :
      (p q : User → Bool) (f : User → User) (us : List User) (u : User)
      → ((x : User) → p (f x) ≡ true)
      → ((x : User) → (f x).id ≡ x.id)
      → find? p us ≡ none
      → find? q us ≡ some u
      → (v : User) × (find? p (put_user lower is_in u.id f us) ≡ some v) × (v.id ≡ u.id)
  unfolding put_user
  linked-put_user p q f [] u k i h g = ground (arith, g)
  linked-put_user p q f (x ∷ us) u k i h g = elim (Bool-cases (x.id == u.id)) [
    | inl y ↦ rw (y, k x) (f x, refl, i x ∙ (nat_has_eq.same_iff x.id u.id).0 y)
    | inr n ↦
        rw (n, not_here (p x) refl)
          (linked-put_user p q f us u k i (later (p x) refl) (other (q x) refl n))
  ]
    where
      not_here : (b : Bool) → b ≡ p x → p x ≡ false
      not_here true e = ground (arith, rw (sym e) at h)
      not_here false e = sym e

      later : (b : Bool) → b ≡ p x → find? p us ≡ none
      later true e = ground (arith, rw (sym e) at h)
      later false e = rw (sym e) at h

      other : (b : Bool) → b ≡ q x → (x.id == u.id) ≡ false → find? q us ≡ some u
      other true e n = ground (
        arith,
        n,
        nat_has_eq.same_iff x.id u.id,
        ap {B = ℕ} (λ (o : Option User). elim o [ none ↦ x.id | some z ↦ z.id ]) (rw (sym e) at g),
      )
      other false e n = rw (sym e) at g

  found-append :
      (p : User → Bool) (us : List User) (u : User)
      → find? p us ≡ none
      → p u ≡ true
      → find? p (us ++ u ∷ []) ≡ some u
  found-append p [] u h k = rw k refl
  found-append p (x ∷ us) u h k = ground (arith, found-append p us u, h, k)

  is_linked_self :
      (info : IdentityInfo) (x : User)
      → is_linked lower is_in info (with_department lower is_in info (linked lower is_in info x))
        ≡ true
  is_linked_self info x = ground (arith, ==_refl info.source, ==_refl info.external_id)

  found_after :
      (info : IdentityInfo) (role : String) (id : ℕ) (us : List User)
      → let got = provision_row lower is_in info role id us in
        (v : User) × (find? (is_linked lower is_in info) got.0 ≡ some v) × (v.id ≡ got.1)
  unfolding provision_row
  found_after info role id us = elim (Option-cases (find? (is_linked lower is_in info) us)) [
    | inr (u, e) ↦
        rw (e, provision_row)
          (found-put_user (is_linked lower is_in info) u.id (with_department lower is_in info) us u
            (λ x. refl) (λ x. refl) e)
    | inl e ↦ elim (Option-cases (find? (λ (u : User). u.email == lower info.email) us)) [
      | inr (u, g) ↦
          rw (e, g, provision_row)
            (linked-put_user (is_linked lower is_in info)
              (λ (x : User). x.email == lower info.email)
              (λ x. with_department lower is_in info (linked lower is_in info x)) us u
              (is_linked_self info) (λ x. refl) e g)
      | inl g ↦
          rw (e, g, provision_row)
            (
              new_user lower is_in id info role,
              found-append (is_linked lower is_in info) us (new_user lower is_in id info role) e
                  (ground (arith, ==_refl info.source, ==_refl info.external_id)),
              refl,
            )
    ]
  ]

  joined_once :
      (m : Option Mapping) (u : ℕ) (ms : List Member)
      → auto_join lower is_in m u (auto_join lower is_in m u ms) ≡ auto_join lower is_in m u ms
  unfolding auto_join
  joined_once none u ms = refl
  joined_once (some m) u ms = elim (Option-cases m.auto_join_team_id) [
    | inl e ↦ no_team e (auto_join lower is_in (some m) u ms)
    | inr (t, e) ↦ elim (Option-cases (find? (is_row lower is_in t u) ms)) [
      | inr (x, g) ↦ ap (auto_join lower is_in (some m) u) (is_member t e ms x g)
      | inl g ↦
          let new : Member = record { team_id = t; user_id = u; role = m.default_role } in
          let once = joins_now t e ms g in
          let row = there t ms new (ground (arith, ==_refl t, ==_refl u)) g in
          ap (auto_join lower is_in (some m) u) once
          ∙ is_member t e (ms ++ new ∷ []) new row
          ∙ sym once
    ]
  ]
    where
      there :
          (t : ℕ) (ms : List Member) (new : Member)
          → is_row lower is_in t u new ≡ true
          → find? (is_row lower is_in t u) ms ≡ none
          → find? (is_row lower is_in t u) (ms ++ new ∷ []) ≡ some new
      there t [] new k h = rw k refl
      there t (x ∷ ms) new k h = ground (arith, there t ms new, k, h)

      no_team :
          m.auto_join_team_id ≡ none → (l : List Member) → auto_join lower is_in (some m) u l ≡ l
      no_team e l = rw (e, auto_join) refl

      is_member :
          (t : ℕ)
          → m.auto_join_team_id ≡ some t
          → (l : List Member) (x : Member) → find? (is_row lower is_in t u) l ≡ some x
          → auto_join lower is_in (some m) u l ≡ l
      is_member t e l x g = rw (e, g, auto_join) refl

      joins_now :
          (t : ℕ)
          → m.auto_join_team_id ≡ some t
          → (l : List Member) → find? (is_row lower is_in t u) l ≡ none
          → auto_join lower is_in (some m) u l
            ≡ l ++ record { team_id = t; user_id = u; role = m.default_role } ∷ []
      joins_now t e l g = rw (e, g, auto_join) refl

  -- Who logs in again from a directory, with the same identity information and under the same mappings,
  -- and with nothing changed between, is the same user, and no row of users or of members is added.
  pub provision_user_again :
      (info : IdentityInfo) (ms : List Mapping) (id later : ℕ) (d : Directory)
      → let first = provision_user lower is_in info ms id d in
        let second = provision_user lower is_in info ms later first.0 in
        (second.1 ≡ first.1)
        × (length second.0.users ≡ length first.0.users)
        × (second.0.members ≡ first.0.members)
  unfolding provision_user provision_row
  provision_user_again info ms id later d =
      let mapping = match_of lower is_in info ms in
      let got = provision_row lower is_in info (role_of lower is_in mapping) id d.users in
      let found = found_after info (role_of lower is_in mapping) id d.users in
      let same = row_again info (role_of lower is_in mapping) later got.0 found.0 found.1 in
      (
        ap (λ r. r.1) same ∙ found.2,
        ap (λ r. length r.0) same
            ∙ length-put_user found.0.id (with_department lower is_in info) got.0,
        ap (λ r. auto_join lower is_in mapping r.1 (auto_join lower is_in mapping got.1 d.members))
              same
            ∙ ap
                (λ u.
                  auto_join lower is_in mapping u (auto_join lower is_in mapping got.1 d.members))
                found.2
            ∙ joined_once mapping got.1 d.members,
      )
    where
      row_again :
          (info : IdentityInfo) (role : String) (later : ℕ) (us : List User) (v : User)
          → find? (is_linked lower is_in info) us ≡ some v
          → provision_row lower is_in info role later us
            ≡ (put_user lower is_in v.id (with_department lower is_in info) us, v.id)
      row_again info role later us v e = rw (e, provision_row) refl
