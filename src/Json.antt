-- ===== src/Json.antt =====
-- JSON values, as `json.loads` returns them. Numbers are the non-negative integers, the only ones
-- that the code compares.
use hermes_python.Prelude.{
  ℕ, Bool, true, false, ◌||◌, not, String, ◌==◌, string_has_eq, nat_has_eq, if◌then◌else◌,
}

mutual
  pub data Json : Type 0 where
    null : Json
    flag : Bool → Json
    num : ℕ → Json
    text : String → Json
    arr : Items → Json
    obj : Fields → Json

  pub data Items : Type 0 where
    nil : Items
    cons : Json → Items → Items

  pub data Fields : Type 0 where
    end : Fields
    field : String → Json → Fields → Fields

-- `k in d`
abbrev pub has_key : String → Fields → Bool
has_key k end = false
has_key k (field j v fs) = j == k || has_key k fs

-- d.get(k)
abbrev pub get_key : String → Fields → Json
get_key k end = null
get_key k (field j v fs) = if j == k then v else get_key k fs

-- `bool(v)`
abbrev pub truthy : Json → Bool
truthy null = false
truthy (flag b) = b
truthy (num n) = not (n == 0)
truthy (text s) = not (s == "")
truthy (arr nil) = false
truthy (arr (cons v vs)) = true
truthy (obj end) = false
truthy (obj (field k v fs)) = true

-- `a or b`
infixr 30 ◌or◌
abbrev pub ◌or◌ : Json → Json → Json
a or b = if truthy a then a else b

-- `v or {}`, for a value that is an object if it is anything.
abbrev pub fields : Json → Fields
fields (obj fs) = fs
fields _ = end

-- `v or []`
abbrev pub items : Json → Items
items (arr vs) = vs
items _ = nil
