-- ===== src/Schema/Key.antt =====
-- backend/internal/schema/order.go: the keys of scalar and compound values, before a validator has a say.
pub mod Special
use pbvex.Base.{
  ℕ, ◌+◌, ◌-◌, ◌^◌, ◌==◌, leb, Bool, true, false, ◌&&◌, Option, none, some, List, ◌∷◌, ◌++◌, length,
  codes, same, Result, ok, err, if◌then◌else◌,
}
use pbvex.Schema.Bytes.{hex, big_endian, little_endian, base64_encode, base64_decode}
use pbvex.Schema.Value.{
  Value, null, bool, number, text, arr, obj, Fields, Wire, member, count_fields, as_text,
  finite_float, is_zero_float,
}
use pbvex.Schema.Canonical.{canonical_order_json}

pub data OrderError : Type 0 where
  invalid_validator invalid_null invalid_union invalid_boolean invalid_number : OrderError
  invalid_string invalid_id invalid_int64 invalid_bytes invalid_literal : OrderError
  invalid_compound unsupported : OrderError

abbrev pub Key : Type 0
Key = Result OrderError (List ℕ)

-- The ranks orderMissing to orderComplex.
abbrev pub order_missing : List ℕ
order_missing = codes "00"

abbrev pub order_null : List ℕ
order_null = codes "01"

abbrev pub order_false : List ℕ
order_false = codes "02"

abbrev pub order_true : List ℕ
order_true = codes "03"

abbrev pub order_number : List ℕ
order_number = codes "04"

abbrev pub order_string : List ℕ
order_string = codes "05"

abbrev pub order_id : List ℕ
order_id = codes "06"

abbrev pub order_int64 : List ℕ
order_int64 = codes "07"

abbrev pub order_bytes : List ℕ
order_bytes = codes "08"

abbrev pub order_complex : List ℕ
order_complex = codes "09"

-- bits ^ (1 << 63) for a positive number and ^bits for a negative one.
unfoldable pub sortable_float : ℕ → ℕ
sortable_float bits = if leb (2 ^ 63) bits then 2 ^ 64 - 1 - bits else bits + 2 ^ 63

-- u ^ (1 << 63).
unfoldable pub flip_sign : ℕ → ℕ
flip_sign u = if leb (2 ^ 63) u then u - 2 ^ 63 else u + 2 ^ 63

unfoldable pub number_bits_key : ℕ → List ℕ
unfolding sortable_float is_zero_float
number_bits_key bits =
    order_number ++ hex (big_endian 8 (sortable_float (if is_zero_float bits then 0 else bits)))

unfoldable pub number_key : Wire → Value → Key
unfolding number_bits_key
number_key w (number n) = elim (finite_float w n) [
  | none ↦ err invalid_number
  | some bits ↦ ok (number_bits_key bits)
]
number_key w v = err invalid_number

unfoldable pub string_key : Value → Key
string_key (text s) = ok (order_string ++ hex s)
string_key v = err invalid_string

unfoldable pub boolean_key : Value → Key
boolean_key (bool b) = ok (if b then order_true else order_false)
boolean_key v = err invalid_boolean

-- {"$integer": ...} or {"$bytes": ...} with one member: the bytes of its base64 text, which has to
-- be canonical.
unfoldable pub special_bytes : List ℕ → Fields → Option (List ℕ)
unfolding member as_text count_fields
special_bytes name fs = elim (as_text (member name fs)) [
  | none ↦ none
  | some encoded ↦ elim (base64_decode encoded) [
    | none ↦ none
    | some b ↦ if count_fields fs == 1 && same (base64_encode b) encoded then some b else none
  ]
]

unfoldable pub int64_key : Value → Key
unfolding special_bytes flip_sign
int64_key (obj fs) = elim (special_bytes (codes "$integer") fs) [
  | none ↦ err invalid_int64
  | some b ↦
      if length b == 8
      then ok (order_int64 ++ hex (big_endian 8 (flip_sign (little_endian b))))
      else err invalid_int64
]
int64_key v = err invalid_int64

unfoldable pub bytes_key : Value → Key
unfolding special_bytes
bytes_key (obj fs) = elim (special_bytes (codes "$bytes") fs) [
  | none ↦ err invalid_bytes
  | some b ↦ ok (order_bytes ++ hex b)
]
bytes_key v = err invalid_bytes

unfoldable pub complex_key : Wire → Value → Key
complex_key w v = elim (canonical_order_json w v) [
  | none ↦ err invalid_compound
  | some t ↦ ok (order_complex ++ hex t)
]

unfoldable pub has_member : List ℕ → Fields → Bool
unfolding member
has_member key fs = elim (member key fs) [ none ↦ false | some v ↦ true ]

-- genericOrderKey of a value that is present.
unfoldable pub generic_key : Wire → Value → Key
unfolding string_key number_key boolean_key int64_key bytes_key complex_key has_member
generic_key w null = ok order_null
generic_key w (bool b) = boolean_key (bool b)
generic_key w (text s) = string_key (text s)
generic_key w (number n) = number_key w (number n)
generic_key w (obj fs) =
    if has_member (codes "$integer") fs
    then int64_key (obj fs)
    else if has_member (codes "$bytes") fs
    then bytes_key (obj fs)
    else complex_key w (obj fs)
generic_key w (arr xs) = complex_key w (arr xs)

-- GenericOrderKey; `none` is a value that is absent.
unfoldable pub generic_order_key : Wire → Option Value → Key
unfolding generic_key
generic_order_key w none = ok order_missing
generic_order_key w (some v) = generic_key w v

-- OpaqueIDOrderKey.
unfoldable pub opaque_id_order_key : List ℕ → List ℕ → List ℕ
opaque_id_order_key table raw = order_id ++ hex (table ++ (0 ∷ raw))

-- wireEqual.
unfoldable pub wire_equal : Wire → Value → Value → Bool
wire_equal w a b = elim (canonical_order_json w a) [
  | none ↦ false
  | some s ↦ elim (canonical_order_json w b) [ none ↦ false | some t ↦ same s t ]
]
