-- ===== src/Schema/Order/Scalars.antt =====
-- The order of scalar wire values that the keys stand for, stated without bytes.
use Prim.Native.Nat.{compare, Ordering}
use pbvex.Base.{
  ℕ, ◌-◌, ◌^◌, leb, Bool, true, false, List, ℤ, pos, negsuc, compare_texts, then_compare, All, ◌<◌,
  if◌then◌else◌,
}
use pbvex.Schema.Bytes.{AreBytes}

abbrev pub compare_ints : ℤ → ℤ → Ordering
compare_ints (pos a) (pos b) = compare a b
compare_ints (pos a) (negsuc b) = Ordering.gt
compare_ints (negsuc a) (pos b) = Ordering.lt
compare_ints (negsuc a) (negsuc b) = compare b a

-- The signed number that eight bytes stand for, in two's complement.
abbrev pub signed64 : ℕ → ℤ
signed64 u = if leb (2 ^ 63) u then negsuc (2 ^ 64 - 1 - u) else pos u

-- A number that orders finite floats like their values: the bits below the sign, negated for a
-- negative float. Both zeros are 0.
abbrev pub float_rank : ℕ → ℤ
float_rank bits =
    if leb bits (2 ^ 63)
    then (if leb (2 ^ 63) bits then pos 0 else pos bits)
    else negsuc (bits - 2 ^ 63 - 1)

-- A value by what orders it. An ID is its table and its record, a compound its canonical JSON.
pub data Scalar : Type 0 where
  missing null_value : Scalar
  boolean_value : Bool → Scalar
  number_value : ℕ → Scalar
  string_value : List ℕ → Scalar
  id_value : List ℕ → List ℕ → Scalar
  int64_value : ℕ → Scalar
  bytes_value : List ℕ → Scalar
  compound_value : List ℕ → Scalar

abbrev pub rank : Scalar → ℕ
rank missing = 0
rank null_value = 1
rank (boolean_value false) = 2
rank (boolean_value true) = 3
rank (number_value n) = 4
rank (string_value s) = 5
rank (id_value t r) = 6
rank (int64_value u) = 7
rank (bytes_value b) = 8
rank (compound_value t) = 9

-- The protocol's order: by rank, and within a rank by value.
unfoldable pub compare_scalars : Scalar → Scalar → Ordering
compare_scalars (number_value a) (number_value b) = compare_ints (float_rank a) (float_rank b)
compare_scalars (string_value a) (string_value b) = compare_texts a b
compare_scalars (id_value t r) (id_value u q) = then_compare (compare_texts t u) (compare_texts r q)
compare_scalars (int64_value a) (int64_value b) = compare_ints (signed64 a) (signed64 b)
compare_scalars (bytes_value a) (bytes_value b) = compare_texts a b
compare_scalars (compound_value a) (compound_value b) = compare_texts a b
compare_scalars a b = compare (rank a) (rank b)

-- The parts of a value are bytes, and its bit patterns have 64 bits; a table's name has no NUL.
abbrev pub IsProper : Scalar → Type 0
IsProper (number_value bits) = bits < 2 ^ 64
IsProper (string_value s) = AreBytes s
IsProper (id_value t r) = AreBytes t × All (λ c. 0 < c) t × AreBytes r
IsProper (int64_value u) = u < 2 ^ 64
IsProper (bytes_value b) = AreBytes b
IsProper (compound_value t) = AreBytes t
IsProper _ = Unit
