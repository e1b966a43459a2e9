-- ===== src/Json.antt =====
-- The values that Python's `json.loads` returns, and what the program asks of them.
use logline.Base.{
  ℕ, Bool, true, false, not, Option, none, some, [], ◌∷◌, ◌==◌, if◌then◌else◌, Text, text_eq,
}
use logline.Base.Int.{ℤ, pos, negsuc}

-- Of a float the program sees no more than whether it is zero, which the constructor keeps.
mutual
  pub data Value : Type 0 where
    null : Value
    bool : Bool → Value
    int : ℤ → Value
    float : Bool → Value
    str : Text → Value
    arr : Items → Value
    obj : Fields → Value

  pub data Items : Type 0 where
    nil : Items
    cons : Value → Items → Items

  pub data Fields : Type 0 where
    end : Fields
    field : Text → Value → Fields → Fields

-- `d.get(key)` of a dict: `None` where the key is missing.
unfoldable pub get : Text → Fields → Value
get key end = null
get key (field k v fs) = if text_eq k key then v else get key fs

-- `bool(v)`
unfoldable pub truthy : Value → Bool
truthy null = false
truthy (bool b) = b
truthy (int (pos n)) = not (n == 0)
truthy (int (negsuc n)) = true
truthy (float nonzero) = nonzero
truthy (str []) = false
truthy (str (c ∷ s)) = true
truthy (arr nil) = false
truthy (arr (cons v vs)) = true
truthy (obj end) = false
truthy (obj (field k v fs)) = true

-- `isinstance(v, str)`, with the text.
abbrev pub as_str : Value → Option Text
as_str (str s) = some s
as_str _ = none

-- `isinstance(v, dict)`, with the fields.
abbrev pub as_dict : Value → Option Fields
as_dict (obj fs) = some fs
as_dict _ = none

-- `isinstance(v, int) and not isinstance(v, bool) and v >= 0`, with the number.
abbrev pub as_nat : Value → Option ℕ
as_nat (int (pos n)) = some n
as_nat _ = none

-- `isinstance(v, int) and not isinstance(v, bool)`, with the integer.
abbrev pub as_int : Value → Option ℤ
as_int (int z) = some z
as_int _ = none
