-- ===== src/Base/Texts.antt =====
-- Texts as lists of bytes: equality and the byte order of Go's strings and SQLite's BINARY texts.
use Prim.Native.Nat.{ℕ, compare, Ordering}
use mathlib.Core.Path.{◌≡◌, refl}
use mathlib.Core.Bool.{Bool, true, false, ◌&&◌}
use mathlib.Core.List.{List, [], ◌∷◌}
use native.Mathlib.Omega.{arith}
use pbvex.Base.Tests.{◌==◌}

abbrev pub same : List ℕ → List ℕ → Bool
same [] [] = true
same [] (y ∷ ys) = false
same (x ∷ xs) [] = false
same (x ∷ xs) (y ∷ ys) = x == y && same xs ys

pub same_eq : (xs ys : List ℕ) → same xs ys ≡ true → xs ≡ ys
same_eq [] [] h = refl
same_eq [] (y ∷ ys) h = cc
same_eq (x ∷ xs) [] h = cc
same_eq (x ∷ xs) (y ∷ ys) h = ground (arith, same_eq xs ys)

pub same_self : (xs : List ℕ) → same xs xs ≡ true
same_self [] = refl
same_self (x ∷ xs) = ground (arith, same_self xs)

-- `then_compare o p` is `o`, or `p` where `o` says that the heads are equal.
abbrev pub then_compare : Ordering → Ordering → Ordering
then_compare Ordering.lt p = Ordering.lt
then_compare Ordering.eq p = p
then_compare Ordering.gt p = Ordering.gt

unfoldable pub compare_texts : List ℕ → List ℕ → Ordering
compare_texts [] [] = Ordering.eq
compare_texts [] (y ∷ ys) = Ordering.lt
compare_texts (x ∷ xs) [] = Ordering.gt
compare_texts (x ∷ xs) (y ∷ ys) = then_compare (compare x y) (compare_texts xs ys)
