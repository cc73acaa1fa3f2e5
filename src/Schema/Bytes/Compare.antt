-- ===== src/Schema/Bytes/Compare.antt =====
-- Hexadecimal text and big-endian bytes keep the order.
use Prim.Native.Nat.{compare, Ordering}
use native.Mathlib.Nat.{pow-suc}
use pbvex.Base.{
  ℕ, zero, suc, ◌/◌, ◌%◌, ◌^◌, ◌<◌, ◌≡◌, refl, ◌∙◌, ap, sym, List, [], ◌∷◌, ◌++◌, length,
  compare_texts, then_compare, arith,
}
use pbvex.Schema.Bytes.{AreBytes, hex, hex_digit, big_endian}

hex_digit-compare : (m n : ℕ) → m < 16 → n < 16 → compare (hex_digit m) (hex_digit n) ≡ compare m n
unfolding hex_digit
hex_digit-compare m n h k = ground arith

then_compare_assoc :
    (a b c : Ordering) → then_compare a (then_compare b c) ≡ then_compare (then_compare a b) c
then_compare_assoc Ordering.lt b c = refl
then_compare_assoc Ordering.eq b c = refl
then_compare_assoc Ordering.gt b c = refl

byte-compare :
    (a b : ℕ)
    → a < 256
    → b < 256
    → then_compare (compare (a / 16) (b / 16)) (compare (a % 16) (b % 16)) ≡ compare a b
byte-compare a b h k = ground arith

-- Two byte strings compare like their hexadecimal texts.
pub hex-compare :
    (a b : List ℕ) → AreBytes a → AreBytes b → compare_texts (hex a) (hex b) ≡ compare_texts a b
unfolding hex compare_texts
hex-compare [] [] h k = refl
hex-compare [] (y ∷ ys) h k = refl
hex-compare (x ∷ xs) [] h k = refl
hex-compare (x ∷ xs) (y ∷ ys) h k =
    rw (hex_digit-compare (x / 16) (y / 16) (omega arith) (omega arith)) (
      rw (hex_digit-compare (x % 16) (y % 16) (omega arith) (omega arith)) (
        rw (hex-compare xs ys h.1 k.1) (
          then_compare_assoc (compare (x / 16) (y / 16)) (compare (x % 16) (y % 16))
            (compare_texts xs ys)
          ∙ ap (λ o. then_compare o (compare_texts xs ys)) (byte-compare x y h.0 k.0))))

compare_texts-snoc :
    (xs ys : List ℕ) (a b : ℕ)
    → length xs ≡ length ys
    → compare_texts (xs ++ a ∷ []) (ys ++ b ∷ []) ≡ then_compare (compare_texts xs ys) (compare a b)
unfolding compare_texts
compare_texts-snoc [] [] a b h = ground arith
compare_texts-snoc [] (y ∷ ys) a b h = absurd (omega arith)
compare_texts-snoc (x ∷ xs) [] a b h = absurd (omega arith)
compare_texts-snoc (x ∷ xs) (y ∷ ys) a b h =
    rw (compare_texts-snoc xs ys a b (omega arith))
      (then_compare_assoc (compare x y) (compare_texts xs ys) (compare a b))

length-snoc : (xs : List ℕ) (a : ℕ) → length (xs ++ a ∷ []) ≡ suc (length xs)
length-snoc [] a = refl
length-snoc (x ∷ xs) a = omega (arith, length-snoc xs a)

pub length-big_endian : (k u : ℕ) → length (big_endian k u) ≡ k
unfolding big_endian
length-big_endian zero u = refl
length-big_endian (suc k) u =
    omega (arith, length-snoc (big_endian k (u / 256)) (u % 256), length-big_endian k (u / 256))

digit-compare :
    (u v : ℕ)
    → then_compare (compare (u / 256) (v / 256)) (compare (u % 256) (v % 256)) ≡ compare u v
digit-compare u v = ground arith

high-lt : (u k : ℕ) → u < 256 ^ suc k → u / 256 < 256 ^ k
high-lt u k h = omega (arith, pow-suc 256 k)

-- Numbers of k bytes compare like their big-endian bytes.
pub big_endian-compare :
    (k u v : ℕ)
    → u < 256 ^ k
    → v < 256 ^ k
    → compare_texts (big_endian k u) (big_endian k v) ≡ compare u v
unfolding big_endian compare_texts
big_endian-compare zero u v h k = ground arith
big_endian-compare (suc k) u v h g =
    rw
      (compare_texts-snoc (big_endian k (u / 256)) (big_endian k (v / 256)) (u % 256) (v % 256)
        (length-big_endian k (u / 256) ∙ sym (length-big_endian k (v / 256))))
      (rw (big_endian-compare k (u / 256) (v / 256) (high-lt u k h) (high-lt v k g))
        (digit-compare u v))

bytes-append : (xs : List ℕ) (a : ℕ) → AreBytes xs → a < 256 → AreBytes (xs ++ a ∷ [])
bytes-append [] a h k = (k, tt)
bytes-append (x ∷ xs) a h k = (h.0, bytes-append xs a h.1 k)

pub big_endian-AreBytes : (k u : ℕ) → AreBytes (big_endian k u)
unfolding big_endian
big_endian-AreBytes zero u = tt
big_endian-AreBytes (suc k) u =
    bytes-append (big_endian k (u / 256)) (u % 256) (big_endian-AreBytes k (u / 256)) (omega arith)
