-- ===== src/Schema/Canonical.antt =====
-- backend/internal/schema/order.go: canonicalOrderJSON. A value here is a tree, so the check for a
-- cycle never fires and is left out.
pub mod Unordered
use pbvex.Base.{
  ℕ, zero, suc, ◌+◌, ltb, Bool, true, false, not, Option, none, some, List, [], ◌∷◌, ◌++◌, codes,
  compare_texts, if◌then◌else◌,
}
use Prim.Native.Nat.{Ordering}
use pbvex.Schema.Value.{
  Number, float64, float32, integer, Value, null, bool, number, text, arr, obj, Items, nil, cons,
  Fields, end, field, Wire, is_finite, is_zero_float,
}

-- MaxValidatorDepth.
abbrev pub max_validator_depth : ℕ
max_validator_depth = 128

unfoldable pub write_float : Wire → ℕ → Option (List ℕ)
unfolding is_finite is_zero_float
write_float w bits =
    if not (is_finite bits)
    then none
    else if is_zero_float bits
    then some (codes "0")
    else some (w.stringify bits)

unfoldable pub write_number : Wire → Number → Option (List ℕ)
unfolding write_float
write_number w (float64 bits) = write_float w bits
write_number w (float32 bits) = write_float w (w.from_float32 bits)
write_number w (integer n) = some (w.itoa n)

-- A key that was written with its value.
abbrev pub Member : Type 0
Member = List ℕ × List ℕ

abbrev pub comes_first : Ordering → Bool
comes_first Ordering.gt = false
comes_first _ = true

-- sort.Strings over the keys.
unfoldable pub insert_member : Member → List Member → List Member
insert_member m [] = m ∷ []
insert_member m (n ∷ ns) =
    let rest = insert_member m ns in
    if comes_first (compare_texts m.0 n.0) then m ∷ n ∷ ns else n ∷ rest

unfoldable pub join_items : List (List ℕ) → List ℕ
join_items [] = []
join_items (t ∷ []) = t
join_items (t ∷ u ∷ ts) = t ++ (b',' ∷ join_items (u ∷ ts))

unfoldable pub join_members : Wire → List Member → List ℕ
join_members w [] = []
join_members w ((k, t) ∷ []) = w.quote k ++ (b':' ∷ t)
join_members w ((k, t) ∷ n ∷ ns) = w.quote k ++ (b':' ∷ (t ++ (b',' ∷ join_members w (n ∷ ns))))

unfoldable pub both : Option (List ℕ) → Option (List (List ℕ)) → Option (List (List ℕ))
both (some t) (some ts) = some (t ∷ ts)
both _ _ = none

unfoldable pub with_member : List ℕ → Option (List ℕ) → Option (List Member) → Option (List Member)
unfolding insert_member
with_member k (some t) (some ms) = some (insert_member (k, t) ms)
with_member k _ _ = none

unfoldable pub bracket : Option (List (List ℕ)) → Option (List ℕ)
unfolding join_items
bracket none = none
bracket (some ts) = some (b'[' ∷ (join_items ts ++ b']' ∷ []))

unfoldable pub brace : Wire → Option (List Member) → Option (List ℕ)
unfolding join_members
brace w none = none
brace w (some ms) = some (b'{' ∷ (join_members w ms ++ b'}' ∷ []))

abbrev pub guard_depth : ℕ → Option (List ℕ) → Option (List ℕ)
guard_depth depth t = if ltb max_validator_depth depth then none else t

-- writeCanonicalOrderJSON: the text that is written, or an error. `write_fields` has the members
-- in the order of their keys. A key and its value have the same depth, so one check serves both.
unfoldable mutual
  unfolding write_number both with_member bracket brace

  pub write : Wire → ℕ → Value → Option (List ℕ)
  write w depth null = guard_depth depth (some (codes "null"))
  write w depth (bool b) = guard_depth depth (some (if b then codes "true" else codes "false"))
  write w depth (number n) = guard_depth depth (write_number w n)
  write w depth (text s) = guard_depth depth (some (w.quote s))
  write w depth (arr xs) = guard_depth depth (bracket (write_items w (suc depth) xs))
  write w depth (obj fs) = guard_depth depth (brace w (write_fields w (suc depth) fs))

  pub write_items : Wire → ℕ → Items → Option (List (List ℕ))
  write_items w depth nil = some []
  write_items w depth (cons x xs) = both (write w depth x) (write_items w depth xs)

  pub write_fields : Wire → ℕ → Fields → Option (List Member)
  write_fields w depth end = some []
  write_fields w depth (field k v fs) = with_member k (write w depth v) (write_fields w depth fs)

-- canonicalOrderJSON.
unfoldable pub canonical_order_json : Wire → Value → Option (List ℕ)
unfolding write
canonical_order_json w v = write w 0 v
