-- ===== src/Schema/Order/Denoted.antt =====
-- backend/internal/schema/order.go: the keys of OrderKeyWithID as keys of scalars that values denote.
use pbvex.Base.{
  ◌⊎◌, ℕ, ◌≡◌, ◌==◌, Bool, Bool-cases, true, Option-cases, some, List, length, codes, same, ok, err,
  inl, inr, arith, false, refl,
}
use pbvex.Schema.Bytes.{little_endian}
use pbvex.Schema.Value.{
  Number, Value, null, bool, number, text, arr, obj, Items, nil, cons, Fields, end, field, Wire,
  finite_float,
}
use pbvex.Schema.Canonical.{canonical_order_json}
use pbvex.Schema.Order.{
  IdChecker, passes, is_empty, id_key, Kind, wrapper, union, null_kind, any_kind, number_kind,
  string_kind, id_kind, literal, compound, validator_type, table_name, allows_null, literal_value,
  scalar_key, is_null, or_else, order_key, key_at, union_key, id_branch_keys, first_key,
  order_key_with_id, is_id_value, is_nil, is_wrapper, is_union, validator_key, validators_key,
}
use pbvex.Schema.Key.{
  Key, special_bytes, number_key, string_key, boolean_key, int64_key, bytes_key, complex_key,
  has_member, generic_key, wire_equal,
}
use pbvex.Schema.Order
use pbvex.Schema.Order.Scalars.{
  Scalar, null_value, boolean_value, number_value, string_value, id_value, int64_value, bytes_value,
  compound_value,
}
use pbvex.Schema.Order.Sorted.{key_of}

-- What a value on the wire denotes by itself: a list, and an object that is no special value,
-- denotes its canonical JSON.
pub data Denotes (w : Wire) : Value → Scalar → Type 0 where
  nothing : Denotes w null null_value
  truth : (b : Bool) → Denotes w (bool b) (boolean_value b)
  float :
      (n : Number) (bits : ℕ)
      → finite_float w n ≡ some bits
      → Denotes w (number n) (number_value bits)
  string : (s : List ℕ) → Denotes w (text s) (string_value s)
  long :
      (fs : Fields) (b : List ℕ)
      → special_bytes (codes "$integer") fs ≡ some b
      → length b ≡ 8
      → Denotes w (obj fs) (int64_value (little_endian b))
  blob :
      (fs : Fields) (b : List ℕ)
      → special_bytes (codes "$bytes") fs ≡ some b
      → Denotes w (obj fs) (bytes_value b)
  list :
      (xs : Items) (t : List ℕ)
      → canonical_order_json w (arr xs) ≡ some t
      → Denotes w (arr xs) (compound_value t)
  tree :
      (fs : Fields) (t : List ℕ)
      → has_member (codes "$integer") fs ≡ false
      → has_member (codes "$bytes") fs ≡ false
      → canonical_order_json w (obj fs) ≡ some t
      → Denotes w (obj fs) (compound_value t)

-- The scalar is one of those that a validator of the kind takes.
abbrev pub IsOfKind : Kind → Scalar → Type 0
IsOfKind Kind.boolean (boolean_value b) = Unit
IsOfKind number_kind (number_value bits) = Unit
IsOfKind string_kind (string_value s) = Unit
IsOfKind Kind.int64 (int64_value n) = Unit
IsOfKind Kind.bytes (bytes_value b) = Unit
IsOfKind _ _ = ⊥

-- A text names a record of the validator's table, and the checker, if there is one, has passed it.
abbrev pub Identifies : Wire → IdChecker → List ℕ → Value → Scalar → Type 0
Identifies w check table v a =
    (s : List ℕ) × (t : List ℕ) × (r : List ℕ) × (v ≡ text s)
    × (w.opaque_id_target s ≡ some (t, r))
    × (is_empty table ≡ false)
    × (same t table ≡ true)
    × (passes check s table ≡ true)
    × (a ≡ id_value t r)

-- What a value denotes to a validator of a kind that is neither wrapper nor union.
abbrev pub DenotesAs : Wire → IdChecker → Kind → Fields → Value → Scalar → Type 0
DenotesAs w check any_kind fs v a = Denotes w v a
DenotesAs w check id_kind fs v a = Identifies w check (table_name fs) v a
DenotesAs w check literal fs v a =
    (wire_equal w (literal_value fs) v ≡ true) × Denotes w (literal_value fs) a
DenotesAs w check compound fs v a =
    (t : List ℕ) × (canonical_order_json w v ≡ some t) × (a ≡ compound_value t)
DenotesAs w check kind fs v a = Denotes w v a × IsOfKind kind a

abbrev pub IsField : List ℕ → Value → Fields → Type 0
IsField key x end = ⊥
IsField key x (field j y fs) = ((same j key ≡ true) × (y ≡ x)) ⊎ IsField key x fs

abbrev pub IsItem : Value → Items → Type 0
IsItem x nil = ⊥
IsItem x (cons y xs) = (y ≡ x) ⊎ IsItem x xs

-- The validators that are reached through wrappers and the branches of unions.
pub data IsLeaf : Value → Kind → Fields → Type 0 where
  itself :
      (kind : Kind) (fs : Fields)
      → validator_type fs ≡ some kind
      → is_wrapper kind ≡ false
      → is_union kind ≡ false
      → IsLeaf (obj fs) kind fs
  wrapped :
      (x : Value) (fs : Fields) (outer kind : Kind) (gs : Fields)
      → validator_type fs ≡ some outer
      → is_wrapper outer ≡ true
      → IsField validator_key x fs
      → IsLeaf x kind gs
      → IsLeaf (obj fs) kind gs
  branch :
      (x : Value) (xs : Items) (fs : Fields) (outer kind : Kind) (gs : Fields)
      → validator_type fs ≡ some outer
      → is_union outer ≡ true
      → IsField validators_key (arr xs) fs
      → IsItem x xs
      → IsLeaf x kind gs
      → IsLeaf (obj fs) kind gs

-- The key stands for a scalar that the value denotes by itself.
abbrev IsKeyOf : Wire → Value → List ℕ → Type 0
IsKeyOf w v k = (a : Scalar) × Denotes w v a × (k ≡ key_of a)

abbrev IsKeyFor : Kind → Wire → Value → List ℕ → Type 0
IsKeyFor kind w v k = (a : Scalar) × (Denotes w v a × IsOfKind kind a) × (k ≡ key_of a)

abbrev IsKeyAs : Wire → IdChecker → Kind → Fields → Value → List ℕ → Type 0
IsKeyAs w check kind fs v k = (a : Scalar) × DenotesAs w check kind fs v a × (k ≡ key_of a)

-- The key is that of null for null, or it stands for a scalar that the value denotes to some
-- validator that is reached through wrappers and unions.
abbrev pub IsKeyUnder : Wire → IdChecker → Value → Value → List ℕ → Type 0
IsKeyUnder w check d v k =
    ((v ≡ null) × (k ≡ key_of null_value))
    ⊎ ((kind : Kind) × (fs : Fields) × IsLeaf d kind fs × IsKeyAs w check kind fs v k)

number_key-IsKeyFor :
    (w : Wire) (v : Value) {k : List ℕ} → number_key w v ≡ ok k → IsKeyFor number_kind w v k
unfolding number_key key_of
number_key-IsKeyFor w (number n) {k} h = elim (Option-cases (finite_float w n)) [
  | inl e ↦ absurd (ground arith)
  | inr (bits, e) ↦ (number_value bits, (float n bits e, tt), ground arith)
]
number_key-IsKeyFor w null h = absurd (ground arith)
number_key-IsKeyFor w (bool b) h = absurd (ground arith)
number_key-IsKeyFor w (text s) h = absurd (ground arith)
number_key-IsKeyFor w (arr xs) h = absurd (ground arith)
number_key-IsKeyFor w (obj fs) h = absurd (ground arith)

string_key-IsKeyFor :
    (w : Wire) (v : Value) {k : List ℕ} → string_key v ≡ ok k → IsKeyFor string_kind w v k
unfolding string_key key_of
string_key-IsKeyFor w (text s) h = (string_value s, (string s, tt), ground arith)
string_key-IsKeyFor w null h = absurd (ground arith)
string_key-IsKeyFor w (bool b) h = absurd (ground arith)
string_key-IsKeyFor w (number n) h = absurd (ground arith)
string_key-IsKeyFor w (arr xs) h = absurd (ground arith)
string_key-IsKeyFor w (obj fs) h = absurd (ground arith)

boolean_key-IsKeyFor :
    (w : Wire) (v : Value) {k : List ℕ} → boolean_key v ≡ ok k → IsKeyFor Kind.boolean w v k
unfolding boolean_key key_of
boolean_key-IsKeyFor w (bool b) h = (boolean_value b, (truth b, tt), ground arith)
boolean_key-IsKeyFor w null h = absurd (ground arith)
boolean_key-IsKeyFor w (text s) h = absurd (ground arith)
boolean_key-IsKeyFor w (number n) h = absurd (ground arith)
boolean_key-IsKeyFor w (arr xs) h = absurd (ground arith)
boolean_key-IsKeyFor w (obj fs) h = absurd (ground arith)

int64_key-IsKeyFor :
    (w : Wire) (v : Value) {k : List ℕ} → int64_key v ≡ ok k → IsKeyFor Kind.int64 w v k
unfolding int64_key key_of
int64_key-IsKeyFor w (obj fs) {k} h = elim (Option-cases (special_bytes (codes "$integer") fs)) [
  | inl e ↦ absurd (ground arith)
  | inr (b, e) ↦ elim (Bool-cases (length b == 8)) [
    | inl q ↦ (int64_value (little_endian b), (long fs b e (ground arith), tt), ground arith)
    | inr q ↦ absurd (ground arith)
  ]
]
int64_key-IsKeyFor w null h = absurd (ground arith)
int64_key-IsKeyFor w (text s) h = absurd (ground arith)
int64_key-IsKeyFor w (number n) h = absurd (ground arith)
int64_key-IsKeyFor w (arr xs) h = absurd (ground arith)
int64_key-IsKeyFor w (bool b) h = absurd (ground arith)

bytes_key-IsKeyFor :
    (w : Wire) (v : Value) {k : List ℕ} → bytes_key v ≡ ok k → IsKeyFor Kind.bytes w v k
unfolding bytes_key key_of
bytes_key-IsKeyFor w (obj fs) {k} h = elim (Option-cases (special_bytes (codes "$bytes") fs)) [
  | inl e ↦ absurd (ground arith)
  | inr (b, e) ↦ (bytes_value b, (blob fs b e, tt), ground arith)
]
bytes_key-IsKeyFor w null h = absurd (ground arith)
bytes_key-IsKeyFor w (text s) h = absurd (ground arith)
bytes_key-IsKeyFor w (number n) h = absurd (ground arith)
bytes_key-IsKeyFor w (arr xs) h = absurd (ground arith)
bytes_key-IsKeyFor w (bool b) h = absurd (ground arith)

complex_key-found :
    (w : Wire) (v : Value) {k : List ℕ}
    → complex_key w v ≡ ok k
    → (t : List ℕ) × (canonical_order_json w v ≡ some t) × (k ≡ key_of (compound_value t))
unfolding complex_key key_of
complex_key-found w v {k} h = elim (Option-cases (canonical_order_json w v)) [
  | inl e ↦ absurd (ground arith)
  | inr (t, e) ↦ (t, e, ground arith)
]

id_key-found :
    (w : Wire) (check : IdChecker) (table : List ℕ) (v : Value) {k : List ℕ}
    → id_key w check table v ≡ ok k
    → (a : Scalar) × Identifies w check table v a × (k ≡ key_of a)
unfolding id_key key_of
id_key-found w check table (text s) {k} h = elim (Option-cases (w.opaque_id_target s)) [
  | inl e ↦ absurd (ground arith)
  | inr ((t, r), e) ↦ (
    id_value t r,
    (s, t, r, refl, e, ground arith, ground arith, ground arith, refl),
    ground arith,
  )
]
id_key-found w check table null h = absurd (ground arith)
id_key-found w check table (bool b) h = absurd (ground arith)
id_key-found w check table (number n) h = absurd (ground arith)
id_key-found w check table (arr xs) h = absurd (ground arith)
id_key-found w check table (obj fs) h = absurd (ground arith)

-- A key for a kind is one for the value by itself.
loosened : (kind : Kind) (w : Wire) (v : Value) (k : List ℕ) → IsKeyFor kind w v k → IsKeyOf w v k
loosened kind w v k (a, (d, o), e) = (a, d, e)

generic_key-IsKeyOf : (w : Wire) (v : Value) {k : List ℕ} → generic_key w v ≡ ok k → IsKeyOf w v k
unfolding generic_key key_of
generic_key-IsKeyOf w null h = (null_value, nothing, ground arith)
generic_key-IsKeyOf w (bool b) {k} h =
    loosened Kind.boolean w (bool b) k (boolean_key-IsKeyFor w (bool b) h)
generic_key-IsKeyOf w (text s) {k} h =
    loosened string_kind w (text s) k (string_key-IsKeyFor w (text s) h)
generic_key-IsKeyOf w (number n) {k} h =
    loosened number_kind w (number n) k (number_key-IsKeyFor w (number n) h)
generic_key-IsKeyOf w (arr xs) {k} h =
    let (t, e, q) = complex_key-found w (arr xs) {k = k} h in (compound_value t, list xs t e, q)
generic_key-IsKeyOf w (obj fs) {k} h = elim (Bool-cases (has_member (codes "$integer") fs)) [
  | inl e ↦ loosened Kind.int64 w (obj fs) k (int64_key-IsKeyFor w (obj fs) {k = k} (ground arith))
  | inr e ↦ elim (Bool-cases (has_member (codes "$bytes") fs)) [
    | inl f ↦
        loosened Kind.bytes w (obj fs) k (bytes_key-IsKeyFor w (obj fs) {k = k} (ground arith))
    | inr f ↦
        let (t, c, q) = complex_key-found w (obj fs) {k = k} (ground arith) in
        (compound_value t, tree fs t e f c, q)
  ]
]

scalar_key-IsKeyAs :
    (w : Wire) (check : IdChecker) (kind : Kind) (fs : Fields) (v : Value) {k : List ℕ}
    → is_wrapper kind ≡ false
    → is_union kind ≡ false
    → scalar_key w check kind fs v ≡ ok k
    → IsKeyAs w check kind fs v k
unfolding scalar_key
scalar_key-IsKeyAs w check null_kind fs v p u h = absurd (ground arith)
scalar_key-IsKeyAs w check any_kind fs v p u h = generic_key-IsKeyOf w v h
scalar_key-IsKeyAs w check Kind.boolean fs v p u h = boolean_key-IsKeyFor w v h
scalar_key-IsKeyAs w check number_kind fs v p u h = number_key-IsKeyFor w v h
scalar_key-IsKeyAs w check string_kind fs v p u h = string_key-IsKeyFor w v h
scalar_key-IsKeyAs w check id_kind fs v p u h = id_key-found w check (table_name fs) v h
scalar_key-IsKeyAs w check Kind.int64 fs v p u h = int64_key-IsKeyFor w v h
scalar_key-IsKeyAs w check Kind.bytes fs v p u h = bytes_key-IsKeyFor w v h
scalar_key-IsKeyAs w check literal fs v {k} p u h =
    elim (Bool-cases (wire_equal w (literal_value fs) v)) [
      | inl e ↦
          let (a, d, q) = generic_key-IsKeyOf w (literal_value fs) {k = k} (ground arith) in
          (a, (e, d), q)
      | inr e ↦ absurd (ground arith)
    ]
scalar_key-IsKeyAs w check wrapper fs v p u h = absurd (ground arith)
scalar_key-IsKeyAs w check union fs v p u h = absurd (ground arith)
scalar_key-IsKeyAs w check compound fs v {k} p u h =
    let (t, e, q) = complex_key-found w v {k = k} h in (compound_value t, (t, e, refl), q)

pub or_else-ok : (a b : Key) {k : List ℕ} → or_else a b ≡ ok k → (a ≡ ok k) ⊎ (b ≡ ok k)
or_else-ok (ok x) b h = inl h
or_else-ok (err e) b h = inr h

null-is : (v : Value) → is_null v ≡ true → v ≡ null
null-is null e = refl
null-is (bool b) e = absurd (ground arith)
null-is (number n) e = absurd (ground arith)
null-is (text s) e = absurd (ground arith)
null-is (arr xs) e = absurd (ground arith)
null-is (obj fs) e = absurd (ground arith)

null_key : (k : List ℕ) → Order.order_null ≡ k → k ≡ key_of null_value
unfolding key_of
null_key k h = ground arith

abbrev InBranch : Wire → IdChecker → List ℕ → Fields → Value → List ℕ → Type 0
InBranch w check key fs v k =
    (xs : Items) × (x : Value) × IsField key (arr xs) fs × IsItem x xs × IsKeyUnder w check x v k

later_field :
    (w : Wire) (check : IdChecker) (key j : List ℕ) (y : Value) (fs : Fields) (v : Value)
    (k : List ℕ)
    → InBranch w check key fs v k
    → InBranch w check key (field j y fs) v k
later_field w check key j y fs v k (xs, x, f, m, i) = (xs, x, inr f, m, i)

mutual
  unfolding order_key

  order_key-found :
      (w : Wire) (check : IdChecker) (d v : Value) (k : List ℕ)
      → order_key w check d v ≡ ok k
      → IsKeyUnder w check d v k
  order_key-found w check (obj fs) v k h = elim (Option-cases (validator_type fs)) [
    | inl e ↦ absurd (ground arith)
    | inr (kind, e) ↦ elim (Bool-cases (is_wrapper kind)) [
      | inl q ↦
          let (x, f, i) = key_at-found w check validator_key fs v k (ground arith) in
          elim i [
            | inl z ↦ inl z
            | inr (leaf, gs, l, key) ↦ inr (leaf, gs, wrapped x fs kind leaf gs e q f l, key)
          ]
      | inr q ↦ elim (Bool-cases (is_null v)) [
        | inl z ↦ elim (Bool-cases (allows_null (obj fs))) [
          | inl y ↦ inl (null-is v z, null_key k (ground arith))
          | inr y ↦ absurd (ground arith)
        ]
        | inr z ↦ elim (Bool-cases (is_union kind)) [
          | inl y ↦
              let (xs, x, f, m, i) = union_key-found w check validators_key fs v k (ground arith) in
              elim i [
                | inl n ↦ inl n
                | inr (leaf, gs, l, key) ↦
                    inr (leaf, gs, branch x xs fs kind leaf gs e y f m l, key)
              ]
          | inr y ↦ inr (
            kind,
            fs,
            itself kind fs e q y,
            scalar_key-IsKeyAs w check kind fs v {k = k} q y (ground arith),
          )
        ]
      ]
    ]
  ]
  order_key-found w check null v k h = absurd (ground arith)
  order_key-found w check (bool b) v k h = absurd (ground arith)
  order_key-found w check (number n) v k h = absurd (ground arith)
  order_key-found w check (text s) v k h = absurd (ground arith)
  order_key-found w check (arr xs) v k h = absurd (ground arith)

  key_at-found :
      (w : Wire) (check : IdChecker) (key : List ℕ) (fs : Fields) (v : Value) (k : List ℕ)
      → key_at w check key fs v ≡ ok k
      → (x : Value) × IsField key x fs × IsKeyUnder w check x v k
  key_at-found w check key end v k h = absurd (ground arith)
  key_at-found w check key (field j x fs) v k h = elim (Bool-cases (same j key)) [
    | inl e ↦ (x, inl (e, refl), order_key-found w check x v k (ground arith))
    | inr e ↦ let (y, f, i) = key_at-found w check key fs v k (ground arith) in (y, inr f, i)
  ]

  union_key-found :
      (w : Wire) (check : IdChecker) (key : List ℕ) (fs : Fields) (v : Value) (k : List ℕ)
      → union_key w check key fs v ≡ ok k
      → InBranch w check key fs v k
  union_key-found w check key end v k h = absurd (ground arith)
  union_key-found w check key (field j (arr xs) fs) v k h = elim (Bool-cases (same j key)) [
    | inl e ↦ elim (Bool-cases (is_nil xs)) [
      | inl n ↦ absurd (ground arith)
      | inr n ↦
          elim (or_else-ok (id_branch_keys w check xs v) (first_key w check xs v) {k = k}
            (ground arith)) [
              | inl q ↦
                  let (x, m, i) = id_branch_keys-found w check xs v k q in
                  (xs, x, inl (e, refl), m, i)
              | inr q ↦
                  let (x, m, i) = first_key-found w check xs v k q in (xs, x, inl (e, refl), m, i)
            ]
    ]
    | inr e ↦
        later_field w check key j (arr xs) fs v k
          (union_key-found w check key fs v k (ground arith))
  ]
  union_key-found w check key (field j null fs) v k h =
      later_field w check key j null fs v k (union_key-found w check key fs v k (ground arith))
  union_key-found w check key (field j (bool b) fs) v k h =
      later_field w check key j (bool b) fs v k (union_key-found w check key fs v k (ground arith))
  union_key-found w check key (field j (number n) fs) v k h =
      later_field w check key j (number n) fs v k
        (union_key-found w check key fs v k (ground arith))
  union_key-found w check key (field j (text s) fs) v k h =
      later_field w check key j (text s) fs v k (union_key-found w check key fs v k (ground arith))
  union_key-found w check key (field j (obj gs) fs) v k h =
      later_field w check key j (obj gs) fs v k (union_key-found w check key fs v k (ground arith))

  id_branch_keys-found :
      (w : Wire) (check : IdChecker) (xs : Items) (v : Value) (k : List ℕ)
      → id_branch_keys w check xs v ≡ ok k
      → (x : Value) × IsItem x xs × IsKeyUnder w check x v k
  id_branch_keys-found w check nil v k h = absurd (ground arith)
  id_branch_keys-found w check (cons x xs) v k h = elim (Bool-cases (is_id_value w check v x)) [
    | inl e ↦
        elim (or_else-ok (order_key w check x v) (id_branch_keys w check xs v) {k = k}
          (ground arith)) [
            | inl q ↦ (x, inl refl, order_key-found w check x v k q)
            | inr q ↦ let (y, m, i) = id_branch_keys-found w check xs v k q in (y, inr m, i)
          ]
    | inr e ↦ let (y, m, i) = id_branch_keys-found w check xs v k (ground arith) in (y, inr m, i)
  ]

  first_key-found :
      (w : Wire) (check : IdChecker) (xs : Items) (v : Value) (k : List ℕ)
      → first_key w check xs v ≡ ok k
      → (x : Value) × IsItem x xs × IsKeyUnder w check x v k
  first_key-found w check nil v k h = absurd (ground arith)
  first_key-found w check (cons x xs) v k h =
      elim (or_else-ok (order_key w check x v) (first_key w check xs v) {k = k} (ground arith)) [
        | inl q ↦ (x, inl refl, order_key-found w check x v k q)
        | inr q ↦ let (y, m, i) = first_key-found w check xs v k q in (y, inr m, i)
      ]

-- Every key that OrderKeyWithID returns for a value that is present is that of null, for null, or
-- that of a scalar which the value denotes to one of the validators that are reached through
-- wrappers and the branches of unions: a boolean, number, string, int64 or bytes as its kind says,
-- an ID of the validator's table that the checker has passed, what an equal literal denotes, and
-- canonical JSON only for compound kinds and, where any value is allowed, for lists and for
-- objects that are no special value.
pub order_key_with_id-IsKeyUnder :
    (w : Wire) (check : IdChecker) (d v : Value) (k : List ℕ)
    → order_key_with_id w check d (some v) ≡ ok k
    → IsKeyUnder w check d v k
unfolding order_key_with_id
order_key_with_id-IsKeyUnder w check d v k h = order_key-found w check d v k h
