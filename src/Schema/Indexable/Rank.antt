-- ===== src/Schema/Indexable/Rank.antt =====
-- backend/internal/schema/order.go: the keys under validators that IndexableValidator admits.
use pbvex.Base.{
  ℕ, ◌==◌, leb, ◌≡◌, refl, inl, inr, Bool, Bool-cases, Option-cases, true, false, not, ◌&&◌, Option,
  none, some, List, length, codes, same, ok, arith, if◌then◌else◌,
}
use pbvex.Schema.Bytes.{little_endian}
use pbvex.Schema.Value.{
  Value, null, bool, number, text, arr, obj, Items, nil, cons, Fields, end, field, Wire,
  finite_float, member, as_text,
}
use pbvex.Schema.Key.{
  number_key, string_key, boolean_key, int64_key, bytes_key, special_bytes, has_member, generic_key,
  wire_equal, order_null,
}
use pbvex.Schema.Order.{
  Kind, wrapper, union, null_kind, any_kind, number_kind, string_kind, id_kind, literal, compound,
  validator_type, IdChecker, id_key, table_name, scalar_key, literal_value, is_null, allows_null,
  order_key, key_at, union_key, id_branch_keys, first_key, order_key_with_id, is_id_value, is_nil,
  is_wrapper, is_union, validator_key, validators_key,
}
use pbvex.Schema.Order.Scalars.{
  Scalar, missing, null_value, boolean_value, number_value, string_value, id_value, int64_value,
  bytes_value, compound_value,
}
use pbvex.Schema.Order.Sorted.{key_of}
use pbvex.Schema.Order.Denoted.{or_else-ok}
use pbvex.Schema.Indexable.{
  count_items, canonical_special_literal, literal_indexable, indexable_kind, indexable,
  indexable_at, indexable_branches, indexable_all, indexable_validator,
}

abbrev pub is_compound : Scalar → Bool
is_compound (compound_value t) = true
is_compound a = false

-- The key is that of a scalar, with no canonical JSON in it.
abbrev pub IsScalarKey : List ℕ → Type 0
IsScalarKey k = (a : Scalar) × (is_compound a ≡ false) × (k ≡ key_of a)

number_key-IsScalarKey : (w : Wire) (v : Value) {k : List ℕ} → number_key w v ≡ ok k → IsScalarKey k
unfolding number_key key_of
number_key-IsScalarKey w (number n) {k} h = elim (Option-cases (finite_float w n)) [
  | inl e ↦ absurd (ground arith)
  | inr (bits, e) ↦ (number_value bits, refl, ground arith)
]
number_key-IsScalarKey w null h = absurd (ground arith)
number_key-IsScalarKey w (bool b) h = absurd (ground arith)
number_key-IsScalarKey w (text s) h = absurd (ground arith)
number_key-IsScalarKey w (arr xs) h = absurd (ground arith)
number_key-IsScalarKey w (obj fs) h = absurd (ground arith)

string_key-IsScalarKey : (v : Value) {k : List ℕ} → string_key v ≡ ok k → IsScalarKey k
unfolding string_key key_of
string_key-IsScalarKey (text s) h = (string_value s, refl, ground arith)
string_key-IsScalarKey null h = absurd (ground arith)
string_key-IsScalarKey (bool b) h = absurd (ground arith)
string_key-IsScalarKey (number n) h = absurd (ground arith)
string_key-IsScalarKey (arr xs) h = absurd (ground arith)
string_key-IsScalarKey (obj fs) h = absurd (ground arith)

boolean_key-IsScalarKey : (v : Value) {k : List ℕ} → boolean_key v ≡ ok k → IsScalarKey k
unfolding boolean_key key_of
boolean_key-IsScalarKey (bool b) h = (boolean_value b, refl, ground arith)
boolean_key-IsScalarKey null h = absurd (ground arith)
boolean_key-IsScalarKey (text s) h = absurd (ground arith)
boolean_key-IsScalarKey (number n) h = absurd (ground arith)
boolean_key-IsScalarKey (arr xs) h = absurd (ground arith)
boolean_key-IsScalarKey (obj fs) h = absurd (ground arith)

int64_key-IsScalarKey : (v : Value) {k : List ℕ} → int64_key v ≡ ok k → IsScalarKey k
unfolding int64_key key_of
int64_key-IsScalarKey (obj fs) {k} h = elim (Option-cases (special_bytes (codes "$integer") fs)) [
  | inl e ↦ absurd (ground arith)
  | inr (b, e) ↦ elim (Bool-cases (length b == 8)) [
    | inl q ↦ (int64_value (little_endian b), refl, ground arith)
    | inr q ↦ absurd (ground arith)
  ]
]
int64_key-IsScalarKey null h = absurd (ground arith)
int64_key-IsScalarKey (text s) h = absurd (ground arith)
int64_key-IsScalarKey (number n) h = absurd (ground arith)
int64_key-IsScalarKey (arr xs) h = absurd (ground arith)
int64_key-IsScalarKey (bool b) h = absurd (ground arith)

bytes_key-IsScalarKey : (v : Value) {k : List ℕ} → bytes_key v ≡ ok k → IsScalarKey k
unfolding bytes_key key_of
bytes_key-IsScalarKey (obj fs) {k} h = elim (Option-cases (special_bytes (codes "$bytes") fs)) [
  | inl e ↦ absurd (ground arith)
  | inr (b, e) ↦ (bytes_value b, refl, ground arith)
]
bytes_key-IsScalarKey null h = absurd (ground arith)
bytes_key-IsScalarKey (text s) h = absurd (ground arith)
bytes_key-IsScalarKey (number n) h = absurd (ground arith)
bytes_key-IsScalarKey (arr xs) h = absurd (ground arith)
bytes_key-IsScalarKey (bool b) h = absurd (ground arith)

id_key-IsScalarKey :
    (w : Wire) (check : IdChecker) (table : List ℕ) (v : Value) {k : List ℕ}
    → id_key w check table v ≡ ok k
    → IsScalarKey k
unfolding id_key key_of
id_key-IsScalarKey w check table (text s) {k} h = elim (Option-cases (w.opaque_id_target s)) [
  | inl e ↦ absurd (ground arith)
  | inr ((t, r), e) ↦ (id_value t r, refl, ground arith)
]
id_key-IsScalarKey w check table null h = absurd (ground arith)
id_key-IsScalarKey w check table (bool b) h = absurd (ground arith)
id_key-IsScalarKey w check table (number n) h = absurd (ground arith)
id_key-IsScalarKey w check table (arr xs) h = absurd (ground arith)
id_key-IsScalarKey w check table (obj fs) h = absurd (ground arith)

-- A special literal has the member that it is named for.
special-has_member :
    (name : List ℕ) (want : Option ℕ) (fs : Fields)
    → canonical_special_literal name want fs ≡ true
    → has_member name fs ≡ true
unfolding canonical_special_literal special_bytes has_member as_text
special-has_member name want fs h = elim (Option-cases (member name fs)) [
  | inl e ↦ absurd (ground arith)
  | inr (v, e) ↦ ground arith
]

literal-IsScalarKey :
    (w : Wire) (v : Value) {k : List ℕ}
    → literal_indexable v ≡ true
    → generic_key w v ≡ ok k
    → IsScalarKey k
unfolding generic_key literal_indexable key_of
literal-IsScalarKey w null i h = (null_value, refl, ground arith)
literal-IsScalarKey w (bool b) i h = boolean_key-IsScalarKey (bool b) h
literal-IsScalarKey w (text s) i h = string_key-IsScalarKey (text s) h
literal-IsScalarKey w (number n) i h = number_key-IsScalarKey w (number n) h
literal-IsScalarKey w (arr xs) i h = absurd (ground arith)
literal-IsScalarKey w (obj fs) {k} i h = elim (Bool-cases (has_member (codes "$integer") fs)) [
  | inl e ↦ int64_key-IsScalarKey (obj fs) {k = k} (ground arith)
  | inr e ↦ elim (Bool-cases (has_member (codes "$bytes") fs)) [
    | inl f ↦ bytes_key-IsScalarKey (obj fs) {k = k} (ground arith)
    | inr f ↦
        let one = special-has_member (codes "$integer") (some 8) fs in
        let two = special-has_member (codes "$bytes") none fs in absurd (ground arith)
  ]
]

kind-IsScalarKey :
    (w : Wire) (check : IdChecker) (kind : Kind) (fs : Fields) (v : Value) {k : List ℕ}
    → indexable_kind kind fs ≡ true
    → scalar_key w check kind fs v ≡ ok k
    → IsScalarKey k
unfolding scalar_key indexable_kind
kind-IsScalarKey w check null_kind fs v i h = absurd (ground arith)
kind-IsScalarKey w check any_kind fs v i h = absurd (ground arith)
kind-IsScalarKey w check Kind.boolean fs v i h = boolean_key-IsScalarKey v h
kind-IsScalarKey w check number_kind fs v i h = number_key-IsScalarKey w v h
kind-IsScalarKey w check string_kind fs v i h = string_key-IsScalarKey v h
kind-IsScalarKey w check id_kind fs v i h = id_key-IsScalarKey w check (table_name fs) v h
kind-IsScalarKey w check Kind.int64 fs v i h = int64_key-IsScalarKey v h
kind-IsScalarKey w check Kind.bytes fs v i h = bytes_key-IsScalarKey v h
kind-IsScalarKey w check literal fs v {k} i h =
    elim (Bool-cases (wire_equal w (literal_value fs) v)) [
      | inl e ↦ literal-IsScalarKey w (literal_value fs) {k = k} i (ground arith)
      | inr e ↦ absurd (ground arith)
    ]
kind-IsScalarKey w check wrapper fs v i h = absurd (ground arith)
kind-IsScalarKey w check union fs v i h = absurd (ground arith)
kind-IsScalarKey w check compound fs v i h = absurd (ground arith)

null-IsScalarKey : {k : List ℕ} → order_null ≡ k → IsScalarKey k
unfolding key_of
null-IsScalarKey h = (null_value, refl, ground arith)

and_left : (a b : Bool) → (a && b) ≡ true → a ≡ true
and_left true b h = refl
and_left false b h = h

and_right : (a b : Bool) → (a && b) ≡ true → b ≡ true
and_right true b h = h
and_right false b h = absurd (ground arith)

branch_all : (b a c d r : Bool) → b ≡ true → (if b then a && c && d else r) ≡ true → d ≡ true
branch_all b a c d r e h = ground arith

branches_all :
    (key j : List ℕ) (xs : Items) (fs : Fields)
    → same j key ≡ true
    → indexable_branches key (field j (arr xs) fs) ≡ true
    → indexable_all xs ≡ true
unfolding indexable
branches_all key j xs fs e i =
    branch_all (same j key) (not (is_nil xs)) (leb (count_items xs) 64) (indexable_all xs)
      (indexable_branches key fs) e i

mutual
  unfolding order_key indexable

  order_key-scalar :
      (w : Wire) (check : IdChecker) (d v : Value) (k : List ℕ)
      → indexable d ≡ true
      → order_key w check d v ≡ ok k
      → IsScalarKey k
  order_key-scalar w check (obj fs) v k i h = elim (Option-cases (validator_type fs)) [
    | inl e ↦ absurd (ground arith)
    | inr (kind, e) ↦ elim (Bool-cases (is_wrapper kind)) [
      | inl q ↦ key_at-scalar w check validator_key fs v k (ground arith) (ground arith)
      | inr q ↦ elim (Bool-cases (is_null v)) [
        | inl z ↦ elim (Bool-cases (allows_null (obj fs))) [
          | inl y ↦ null-IsScalarKey {k = k} (ground arith)
          | inr y ↦ absurd (ground arith)
        ]
        | inr z ↦ elim (Bool-cases (is_union kind)) [
          | inl y ↦ union_key-scalar w check validators_key fs v k (ground arith) (ground arith)
          | inr y ↦ kind-IsScalarKey w check kind fs v {k = k} (ground arith) (ground arith)
        ]
      ]
    ]
  ]
  order_key-scalar w check null v k i h = absurd (ground arith)
  order_key-scalar w check (bool b) v k i h = absurd (ground arith)
  order_key-scalar w check (number n) v k i h = absurd (ground arith)
  order_key-scalar w check (text s) v k i h = absurd (ground arith)
  order_key-scalar w check (arr xs) v k i h = absurd (ground arith)

  key_at-scalar :
      (w : Wire) (check : IdChecker) (key : List ℕ) (fs : Fields) (v : Value) (k : List ℕ)
      → indexable_at key fs ≡ true
      → key_at w check key fs v ≡ ok k
      → IsScalarKey k
  key_at-scalar w check key end v k i h = absurd (ground arith)
  key_at-scalar w check key (field j x fs) v k i h = elim (Bool-cases (same j key)) [
    | inl e ↦ order_key-scalar w check x v k (ground arith) (ground arith)
    | inr e ↦ key_at-scalar w check key fs v k (ground arith) (ground arith)
  ]

  union_key-scalar :
      (w : Wire) (check : IdChecker) (key : List ℕ) (fs : Fields) (v : Value) (k : List ℕ)
      → indexable_branches key fs ≡ true
      → union_key w check key fs v ≡ ok k
      → IsScalarKey k
  union_key-scalar w check key end v k i h = absurd (ground arith)
  union_key-scalar w check key (field j (arr xs) fs) v k i h = elim (Bool-cases (same j key)) [
    | inl e ↦ elim (Bool-cases (is_nil xs)) [
      | inl n ↦ absurd (ground arith)
      | inr n ↦
          elim (or_else-ok (id_branch_keys w check xs v) (first_key w check xs v) {k = k}
            (ground arith)) [
              | inl q ↦ id_branch_keys-scalar w check xs v k (branches_all key j xs fs e i) q
              | inr q ↦ first_key-scalar w check xs v k (branches_all key j xs fs e i) q
            ]
    ]
    | inr e ↦ union_key-scalar w check key fs v k (ground arith) (ground arith)
  ]
  union_key-scalar w check key (field j null fs) v k i h =
      union_key-scalar w check key fs v k (ground arith) (ground arith)
  union_key-scalar w check key (field j (bool b) fs) v k i h =
      union_key-scalar w check key fs v k (ground arith) (ground arith)
  union_key-scalar w check key (field j (number n) fs) v k i h =
      union_key-scalar w check key fs v k (ground arith) (ground arith)
  union_key-scalar w check key (field j (text s) fs) v k i h =
      union_key-scalar w check key fs v k (ground arith) (ground arith)
  union_key-scalar w check key (field j (obj gs) fs) v k i h =
      union_key-scalar w check key fs v k (ground arith) (ground arith)

  id_branch_keys-scalar :
      (w : Wire) (check : IdChecker) (xs : Items) (v : Value) (k : List ℕ)
      → indexable_all xs ≡ true
      → id_branch_keys w check xs v ≡ ok k
      → IsScalarKey k
  id_branch_keys-scalar w check nil v k i h = absurd (ground arith)
  id_branch_keys-scalar w check (cons x xs) v k i h = elim (Bool-cases (is_id_value w check v x)) [
    | inl e ↦
        elim (or_else-ok (order_key w check x v) (id_branch_keys w check xs v) {k = k}
          (ground arith)) [
            | inl q ↦ order_key-scalar w check x v k (and_left (indexable x) _ i) q
            | inr q ↦ id_branch_keys-scalar w check xs v k (and_right (indexable x) _ i) q
          ]
    | inr e ↦ id_branch_keys-scalar w check xs v k (and_right (indexable x) _ i) (ground arith)
  ]

  first_key-scalar :
      (w : Wire) (check : IdChecker) (xs : Items) (v : Value) (k : List ℕ)
      → indexable_all xs ≡ true
      → first_key w check xs v ≡ ok k
      → IsScalarKey k
  first_key-scalar w check nil v k i h = absurd (ground arith)
  first_key-scalar w check (cons x xs) v k i h =
      elim (or_else-ok (order_key w check x v) (first_key w check xs v) {k = k} (ground arith)) [
        | inl q ↦ order_key-scalar w check x v k (and_left (indexable x) _ i) q
        | inr q ↦ first_key-scalar w check xs v k (and_right (indexable x) _ i) q
      ]

-- Under a validator that IndexableValidator admits, every key that OrderKeyWithID returns, of a value
-- that is present or absent, is the key of a scalar: no index holds the rank of compound values.
pub indexable_validator-IsScalarKey :
    (w : Wire) (check : IdChecker) (d : Value) (v : Option Value) (k : List ℕ)
    → indexable_validator d ≡ true
    → order_key_with_id w check d v ≡ ok k
    → IsScalarKey k
unfolding order_key_with_id indexable_validator key_of
indexable_validator-IsScalarKey w check d none k i h = (missing, refl, ground arith)
indexable_validator-IsScalarKey w check d (some v) k i h = order_key-scalar w check d v k i h
