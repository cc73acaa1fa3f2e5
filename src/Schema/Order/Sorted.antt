-- ===== src/Schema/Order/Sorted.antt =====
-- The keys sort like the scalars that they stand for.
use Prim.Native.Nat.{compare}
use pbvex.Base.{
  ℕ, ◌^◌, ◌<◌, ◌≡◌, refl, ◌∙◌, true, false, List, [], ◌∷◌, ◌++◌, All, compare_texts, then_compare,
  if◌then◌else◌, arith,
}
use pbvex.Schema.Bytes.{AreBytes, hex, big_endian}
use pbvex.Schema.Bytes.Compare.{hex-compare, big_endian-compare, big_endian-AreBytes}
use pbvex.Schema.Value.{is_zero_float}
use pbvex.Schema.Key.{
  order_missing, order_null, order_false, order_true, order_string, order_int64, order_bytes,
  order_complex, sortable_float, flip_sign, number_bits_key, opaque_id_order_key,
}
use pbvex.Schema.Order.Scalars.{
  compare_ints, signed64, float_rank, Scalar, missing, null_value, boolean_value, number_value,
  string_value, id_value, int64_value, bytes_value, compound_value, compare_scalars, IsProper,
}

-- The key of a scalar.
unfoldable pub key_of : Scalar → List ℕ
unfolding number_bits_key opaque_id_order_key
key_of missing = order_missing
key_of null_value = order_null
key_of (boolean_value b) = if b then order_true else order_false
key_of (number_value bits) = number_bits_key bits
key_of (string_value s) = order_string ++ hex s
key_of (id_value t r) = opaque_id_order_key t r
key_of (int64_value u) = order_int64 ++ hex (big_endian 8 (flip_sign u))
key_of (bytes_value b) = order_bytes ++ hex b
key_of (compound_value t) = order_complex ++ hex t

word_key-compare :
    (u v : ℕ)
    → u < 2 ^ 64
    → v < 2 ^ 64
    → compare_texts (hex (big_endian 8 u)) (hex (big_endian 8 v)) ≡ compare u v
word_key-compare u v h k =
    hex-compare (big_endian 8 u) (big_endian 8 v) (big_endian-AreBytes 8 u)
      (big_endian-AreBytes 8 v)
    ∙ big_endian-compare 8 u v (omega (arith, h)) (omega (arith, k))

sortable_float-compare :
    (a b : ℕ)
    → a < 2 ^ 64
    → b < 2 ^ 64
    → compare
        (sortable_float (if is_zero_float a then 0 else a))
        (sortable_float (if is_zero_float b then 0 else b))
      ≡ compare_ints (float_rank a) (float_rank b)
unfolding sortable_float is_zero_float
sortable_float-compare a b h k = ground arith

flip_sign-compare :
    (a b : ℕ)
    → a < 2 ^ 64
    → b < 2 ^ 64
    → compare (flip_sign a) (flip_sign b) ≡ compare_ints (signed64 a) (signed64 b)
unfolding flip_sign
flip_sign-compare a b h k = ground arith

sortable_float-lt :
    (a : ℕ) → a < 2 ^ 64 → sortable_float (if is_zero_float a then 0 else a) < 2 ^ 64
unfolding sortable_float is_zero_float
sortable_float-lt a h = ground arith

flip_sign-lt : (a : ℕ) → a < 2 ^ 64 → flip_sign a < 2 ^ 64
unfolding flip_sign
flip_sign-lt a h = ground arith

-- With no NUL in the tables, a NUL behind them lets the records decide only between equal tables.
nul-compare :
    (t u r q : List ℕ)
    → All (λ c. 0 < c) t
    → All (λ c. 0 < c) u
    → compare_texts (t ++ (0 ∷ r)) (u ++ (0 ∷ q))
      ≡ then_compare (compare_texts t u) (compare_texts r q)
unfolding compare_texts
nul-compare [] [] r q h k = ground arith
nul-compare [] (y ∷ ys) r q h k = ground arith
nul-compare (x ∷ xs) [] r q h k = ground arith
nul-compare (x ∷ xs) (y ∷ ys) r q h k = ground (arith, nul-compare xs ys r q h.1 k.1)

nul-AreBytes : (t r : List ℕ) → AreBytes t → AreBytes r → AreBytes (t ++ (0 ∷ r))
nul-AreBytes [] r h k = (omega arith, k)
nul-AreBytes (x ∷ xs) r h k = (h.0, nul-AreBytes xs r h.1 k)

-- The bytes of two keys compare like the scalars in the protocol's order: by rank, and within a
-- rank numbers, floats of either sign included, by value, texts and bytes byte by byte, and IDs by
-- table and then record.
pub key_of-compare :
    (a b : Scalar)
    → IsProper a
    → IsProper b
    → compare_texts (key_of a) (key_of b) ≡ compare_scalars a b
unfolding key_of compare_scalars compare_texts
key_of-compare (number_value a) (number_value b) h k =
    word_key-compare _ _ (sortable_float-lt a h) (sortable_float-lt b k)
    ∙ sortable_float-compare a b h k
key_of-compare (string_value a) (string_value b) h k = hex-compare a b h k
key_of-compare (id_value t r) (id_value u q) h k =
    hex-compare (t ++ (0 ∷ r)) (u ++ (0 ∷ q)) (nul-AreBytes t r h.0 h.2) (nul-AreBytes u q k.0 k.2)
    ∙ nul-compare t u r q h.1 k.1
key_of-compare (int64_value a) (int64_value b) h k =
    word_key-compare _ _ (flip_sign-lt a h) (flip_sign-lt b k) ∙ flip_sign-compare a b h k
key_of-compare (bytes_value a) (bytes_value b) h k = hex-compare a b h k
key_of-compare (compound_value a) (compound_value b) h k = hex-compare a b h k
key_of-compare (boolean_value true) (boolean_value true) h k = refl
key_of-compare (boolean_value true) (boolean_value false) h k = refl
key_of-compare (boolean_value false) (boolean_value true) h k = refl
key_of-compare (boolean_value false) (boolean_value false) h k = refl
key_of-compare missing missing h k = refl
key_of-compare null_value null_value h k = refl
key_of-compare (boolean_value true) b h k = refl
key_of-compare (boolean_value false) b h k = refl
key_of-compare missing (boolean_value true) h k = refl
key_of-compare missing (boolean_value false) h k = refl
key_of-compare null_value (boolean_value true) h k = refl
key_of-compare null_value (boolean_value false) h k = refl
key_of-compare a (boolean_value true) h k = refl
key_of-compare a (boolean_value false) h k = refl
key_of-compare a b h k = refl
