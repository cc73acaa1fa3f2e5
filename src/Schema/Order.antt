-- ===== src/Schema/Order.antt =====
-- backend/internal/schema/order.go: the order keys of values, by a validator or by the value alone.
-- Validators are dynamic values, as they are in the source; each function recurs on the validator.
pub mod Scalars
pub mod Sorted
pub mod Denoted
use pbvex.Base.{
  ℕ, zero, suc, ◌+◌, ◌-◌, ◌^◌, ◌==◌, leb, ltb, Bool, true, false, not, ◌&&◌, ◌||◌, Option, none,
  some, List, [], ◌∷◌, ◌++◌, length, codes, same, Result, ok, err, if◌then◌else◌,
}
use pbvex.Schema.Bytes.{hex, big_endian, little_endian, base64_encode, base64_decode}
use pbvex.Schema.Value.{
  Number, float64, float32, integer, Value, null, bool, number, text, arr, obj, Items, nil, cons,
  Fields, end, field, Wire, member, count_fields, as_text, finite_float, is_zero_float,
}
use pbvex.Schema.Canonical.{canonical_order_json}
use pbvex.Schema.Key.{
  Key, OrderError, boolean_key, bytes_key, complex_key, flip_sign, generic_key, generic_order_key,
  has_member, int64_key, invalid_boolean, invalid_bytes, invalid_compound, invalid_id,
  invalid_int64, invalid_literal, invalid_null, invalid_number, invalid_string, invalid_union,
  invalid_validator, number_bits_key, number_key, opaque_id_order_key, order_bytes, order_complex,
  order_false, order_id, order_int64, order_missing, order_null, order_number, order_string,
  order_true, sortable_float, special_bytes, string_key, unsupported, wire_equal,
}

-- IDChecker, or nil.
abbrev pub IdChecker : Type 0
IdChecker = Option (List ℕ → List ℕ → Bool)

abbrev pub passes : IdChecker → List ℕ → List ℕ → Bool
passes none s table = true
passes (some check) s table = check s table

abbrev pub is_empty : List ℕ → Bool
is_empty [] = true
is_empty (c ∷ cs) = false

-- The case "id" for the validator's table name.
unfoldable pub id_key : Wire → IdChecker → List ℕ → Value → Key
unfolding opaque_id_order_key
id_key w check table (text s) = elim (w.opaque_id_target s) [
  | none ↦ err invalid_id
  | some (target, raw) ↦
      if is_empty table || not (same target table) || not (passes check s table)
      then err invalid_id
      else ok (opaque_id_order_key target raw)
]
id_key w check table v = err invalid_id

-- The types of validators that the sources name; a text that they do not name is `compound`.
pub data Kind : Type 0 where
  wrapper union null_kind any_kind boolean number_kind string_kind id_kind int64 bytes literal
        compound :
      Kind

unfoldable pub kind_of : List ℕ → Kind
kind_of t =
    if same t (codes "optional") || same t (codes "defaulted")
    then wrapper
    else if same t (codes "union")
    then union
    else if same t (codes "null")
    then null_kind
    else if same t (codes "any")
    then any_kind
    else if same t (codes "boolean")
    then boolean
    else if same t (codes "number") || same t (codes "float64")
    then number_kind
    else if same t (codes "string") || same t (codes "image")
    then string_kind
    else if same t (codes "id")
    then id_kind
    else if same t (codes "int64")
    then int64
    else if same t (codes "bytes")
    then bytes
    else if same t (codes "literal")
    then literal
    else compound

-- validatorType.
unfoldable pub validator_type : Fields → Option Kind
unfolding member as_text kind_of
validator_type fs = elim (as_text (member (codes "type") fs)) [
  | none ↦ none
  | some t ↦ if is_empty t then none else some (kind_of t)
]

abbrev pub type_key : List ℕ
type_key = codes "type"

abbrev pub validator_key : List ℕ
validator_key = codes "validator"

abbrev pub validators_key : List ℕ
validators_key = codes "validators"

-- o["tableName"].
unfoldable pub table_name : Fields → List ℕ
unfolding member as_text
table_name fs = elim (as_text (member (codes "tableName") fs)) [ none ↦ [] | some t ↦ t ]

-- A step over the kind that does not recur: null is allowed by the types null and any.
abbrev is_null_kind : Kind → Bool
is_null_kind null_kind = true
is_null_kind any_kind = true
is_null_kind _ = false

abbrev pub is_wrapper : Kind → Bool
is_wrapper wrapper = true
is_wrapper _ = false

abbrev pub is_union : Kind → Bool
is_union union = true
is_union _ = false

-- validatorAllowsNull: of a validator, of the validator under a key, of some branch under
-- "validators", and of some item.
unfoldable mutual
  unfolding validator_type

  pub allows_null : Value → Bool
  allows_null (obj fs) = elim (validator_type fs) [
    | none ↦ false
    | some k ↦
        if is_wrapper k
        then allows_null_at validator_key fs
        else if is_null_kind k
        then true
        else if is_union k
        then allows_null_branch validators_key fs
        else false
  ]
  allows_null _ = false

  pub allows_null_at : List ℕ → Fields → Bool
  allows_null_at key end = false
  allows_null_at key (field k v fs) =
      let here = allows_null v in
      let rest = allows_null_at key fs in if same k key then here else rest

  pub allows_null_branch : List ℕ → Fields → Bool
  allows_null_branch key end = false
  allows_null_branch key (field k (arr xs) fs) =
      let here = allows_null_some xs in
      let rest = allows_null_branch key fs in if same k key then here else rest
  allows_null_branch key (field k v fs) =
      let rest = allows_null_branch key fs in if same k key then false else rest

  pub allows_null_some : Items → Bool
  allows_null_some nil = false
  allows_null_some (cons x xs) = allows_null x || allows_null_some xs

-- validatorIDTable: the table of an id validator, through its wrappers. It is none for a validator
-- that is no id, so it also answers validatorIsID.
unfoldable mutual
  unfolding validator_type table_name

  pub id_table : Value → Option (List ℕ)
  id_table (obj fs) = elim (validator_type fs) [
    | none ↦ none
    | some wrapper ↦ id_table_at validator_key fs
    | some id_kind ↦ if is_empty (table_name fs) then none else some (table_name fs)
    | some other ↦ none
  ]
  id_table _ = none

  pub id_table_at : List ℕ → Fields → Option (List ℕ)
  id_table_at key end = none
  id_table_at key (field k v fs) =
      let here = id_table v in let rest = id_table_at key fs in if same k key then here else rest

-- The branch of a union is an id of the table that the text names, and the checker agrees.
unfoldable pub is_id_branch : Wire → IdChecker → List ℕ → Value → Bool
unfolding id_table
is_id_branch w check s branch = elim (w.opaque_id_target s) [
  | none ↦ false
  | some (target, raw) ↦ elim (id_table branch) [
    | none ↦ false
    | some table ↦ same target table && passes check s table
  ]
]

unfoldable pub is_id_value : Wire → IdChecker → Value → Value → Bool
unfolding is_id_branch
is_id_value w check (text s) branch = is_id_branch w check s branch
is_id_value w check v branch = false

abbrev pub is_nil : Items → Bool
is_nil nil = true
is_nil (cons x xs) = false

-- o["value"], which is nil where it is missing.
unfoldable pub literal_value : Fields → Value
unfolding member
literal_value fs = elim (member (codes "value") fs) [ none ↦ null | some v ↦ v ]

-- The switch on the type, for a value that is not nil and a type that is neither wrapper nor union.
unfoldable pub scalar_key : Wire → IdChecker → Kind → Fields → Value → Key
unfolding generic_key boolean_key number_key string_key id_key int64_key bytes_key wire_equal
    literal_value complex_key table_name
scalar_key w check null_kind fs v = err invalid_null
scalar_key w check any_kind fs v = generic_key w v
scalar_key w check boolean fs v = boolean_key v
scalar_key w check number_kind fs v = number_key w v
scalar_key w check string_kind fs v = string_key v
scalar_key w check id_kind fs v = id_key w check (table_name fs) v
scalar_key w check int64 fs v = int64_key v
scalar_key w check bytes fs v = bytes_key v
scalar_key w check literal fs v =
    if wire_equal w (literal_value fs) v
    then generic_key w (literal_value fs)
    else err invalid_literal
scalar_key w check _ fs v = complex_key w v

abbrev pub is_null : Value → Bool
is_null null = true
is_null _ = false

-- The first of two keys that is no error.
abbrev pub or_else : Key → Key → Key
or_else (ok k) l = ok k
or_else (err e) l = l

-- OrderKeyWithID for a value that is present: by a validator, by the validator under a key, by the
-- branches under "validators", by the branches that are ids of the text's table, and by the first
-- branch that takes the value.
unfoldable mutual
  unfolding validator_type allows_null scalar_key is_id_value

  pub order_key : Wire → IdChecker → Value → Value → Key
  order_key w check (obj fs) v = elim (validator_type fs) [
    | none ↦ err invalid_validator
    | some k ↦
        if is_wrapper k
        then key_at w check validator_key fs v
        else if is_null v
        then (if allows_null (obj fs) then ok order_null else err invalid_null)
        else if is_union k
        then union_key w check validators_key fs v
        else scalar_key w check k fs v
  ]
  order_key w check _ v = err invalid_validator

  pub key_at : Wire → IdChecker → List ℕ → Fields → Value → Key
  key_at w check key end v = err invalid_validator
  key_at w check key (field k x fs) v =
      let here = order_key w check x v in
      let rest = key_at w check key fs v in if same k key then here else rest

  pub union_key : Wire → IdChecker → List ℕ → Fields → Value → Key
  union_key w check key end v = err invalid_validator
  union_key w check key (field k (arr xs) fs) v =
      let ids = id_branch_keys w check xs v in
      let here = first_key w check xs v in
      let rest = union_key w check key fs v in
      if same k key then (if is_nil xs then err invalid_validator else or_else ids here) else rest
  union_key w check key (field k x fs) v =
      let rest = union_key w check key fs v in if same k key then err invalid_validator else rest

  pub id_branch_keys : Wire → IdChecker → Items → Value → Key
  id_branch_keys w check nil v = err invalid_union
  id_branch_keys w check (cons x xs) v =
      let here = order_key w check x v in
      let rest = id_branch_keys w check xs v in
      if is_id_value w check v x then or_else here rest else rest

  pub first_key : Wire → IdChecker → Items → Value → Key
  first_key w check nil v = err invalid_union
  first_key w check (cons x xs) v = or_else (order_key w check x v) (first_key w check xs v)

-- OrderKeyWithID; `none` is a value that is absent.
unfoldable pub order_key_with_id : Wire → IdChecker → Value → Option Value → Key
unfolding order_key
order_key_with_id w check validator none = ok order_missing
order_key_with_id w check validator (some v) = order_key w check validator v
