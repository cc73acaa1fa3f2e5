-- ===== src/Schema/Value.antt =====
-- The dynamic values of backend/internal/schema: what Go's `any` holds after JSON decoding, in
-- documents and in validators. A map has each key once.
use pbvex.Base.{
  ℕ, suc, ◌/◌, ◌%◌, ◌^◌, ◌==◌, Bool, not, ◌||◌, Option, none, some, List, ℤ, same, if◌then◌else◌,
}

-- A Go number: an IEEE-754 bit pattern of 64 or 32 bits, or an int, int32, int64 or uint32.
pub data Number : Type 0 where
  float64 float32 : ℕ → Number
  integer : ℤ → Number

mutual
  pub data Value : Type 0 where
    null : Value
    bool : Bool → Value
    number : Number → Value
    text : List ℕ → Value
    arr : Items → Value
    obj : Fields → Value

  pub data Items : Type 0 where
    nil : Items
    cons : Value → Items → Items

  pub data Fields : Type 0 where
    end : Fields
    field : List ℕ → Value → Fields → Fields

-- What the code takes from outside: float64(v) of an integer and of a float32, JSON.stringify of a
-- float64, json.Marshal of a text, strconv's decimal text, and the table and record of an opaque ID.
pub record Wire : Type 0 where
  pub from_integer : ℤ → ℕ
  pub from_float32 : ℕ → ℕ
  pub stringify : ℕ → List ℕ
  pub quote : List ℕ → List ℕ
  pub itoa : ℤ → List ℕ
  pub opaque_id_target : List ℕ → Option (List ℕ × List ℕ)

-- m[key].
unfoldable pub member : List ℕ → Fields → Option Value
member key end = none
member key (field k v fs) = let rest = member key fs in if same k key then some v else rest

-- len(m).
unfoldable pub count_fields : Fields → ℕ
count_fields end = 0
count_fields (field k v fs) = suc (count_fields fs)

-- value.(string) of a member.
unfoldable pub as_text : Option Value → Option (List ℕ)
as_text (some (text s)) = some s
as_text _ = none

-- float64 of a number.
unfoldable pub to_float64 : Wire → Number → ℕ
to_float64 w (float64 bits) = bits
to_float64 w (float32 bits) = w.from_float32 bits
to_float64 w (integer n) = w.from_integer n

-- Neither NaN nor an infinity: the exponent bits are not all ones.
unfoldable pub is_finite : ℕ → Bool
is_finite bits = not (bits / 2 ^ 52 % 2048 == 2047)

-- finiteFloat.
unfoldable pub finite_float : Wire → Number → Option ℕ
unfolding to_float64 is_finite
finite_float w n = if is_finite (to_float64 w n) then some (to_float64 w n) else none

-- The bits of 0 and of -0.
unfoldable pub is_zero_float : ℕ → Bool
is_zero_float bits = bits == 0 || bits == 2 ^ 63
