-- ===== src/Js.antt =====
-- JavaScript values that reach the code unvalidated (typed `unknown` in the source), as far as the
-- code tells them apart: the language's own primitives, arrays and plain objects.
use runcell.Prelude.{
  ℕ, ℤ, pos, negsuc, String, Bool, List, [], ◌∷◌, leb, ltb, str_eq, if◌then◌else◌,
}

-- `number` is an integral number, `fraction` any other number (with its text): a fraction, NaN or
-- an infinity. `function` stands for every value without fields or JSON text.
mutual
  pub data Value : Type 0 where
    undefined null function : Value
    boolean : Bool → Value
    number : ℤ → Value
    fraction : String → Value
    string : String → Value
    array : Values → Value
    object : Fields → Value

  pub data Values : Type 0 where
    nil : Values
    cons : Value → Values → Values

  pub data Fields : Type 0 where
    end : Fields
    field : String → Value → Fields → Fields

-- `Object.entries(value)`: the own fields in their order.
abbrev pub entries : Fields → List (String × Value)
entries end = []
entries (field k v fs) = (k, v) ∷ entries fs

-- `value[key]`: a missing field reads as `undefined`.
abbrev pub get : Fields → String → Value
get end key = undefined
get (field k v fs) key = if str_eq k key then v else get fs key

-- `Number.MAX_SAFE_INTEGER`.
abbrev pub max_safe : ℕ
max_safe = 9007199254740991

-- `Number.isSafeInteger` of an integral number.
unfoldable pub is_safe : ℤ → Bool
is_safe (pos n) = leb n max_safe
is_safe (negsuc n) = ltb n max_safe
