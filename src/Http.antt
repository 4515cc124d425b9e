-- ===== src/Http.antt =====
-- What a handler of the API gives: a value, or the status of an HTTPException.
use hermes_python.Prelude.{ℕ, Bool, true, false, Option, none, some}

pub data Reply {ℓ} (A : Type ℓ) : Type ℓ where
  ok : A → Reply A
  http : ℕ → Reply A

infixl 5 ◌>>=◌ ◌>>◌
abbrev pub ◌>>=◌ {ℓ κ} : {A : Type ℓ} {B : Type κ} → Reply A → (A → Reply B) → Reply B
ok a >>= f = f a
http s >>= f = http s

abbrev pub ◌>>◌ {ℓ} : {B : Type ℓ} → Reply (Unit {0}) → Reply B → Reply B
m >> k = m >>= λ _. k

-- `if not test: raise HTTPException(status)`
abbrev pub check : Bool → ℕ → Reply (Unit {0})
check true s = ok tt
check false s = http s

-- `if row is None: raise HTTPException(status)`
abbrev pub found {ℓ} : {A : Type ℓ} → Option A → ℕ → Reply A
found none s = http s
found (some a) s = ok a

abbrev pub is_ok {ℓ} : {A : Type ℓ} → Reply A → Bool
is_ok (ok a) = true
is_ok (http s) = false

-- The state after a request: what it gives, or what there was.
abbrev pub or_unchanged {ℓ} : {A : Type ℓ} → A → Reply A → A
or_unchanged old (ok new) = new
or_unchanged old (http s) = old
