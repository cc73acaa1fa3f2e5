-- ===== src/Schema/Canonical/Unordered.antt =====
-- The canonical text does not depend on the order in which Go iterates over a map.
use pbvex.Base.{
  ℕ, suc, ◌≡◌, ◌≢◌, refl, ap, ◌∙◌, Bool, true, false, Option, none, some, List, [], ◌∷◌,
  compare_texts, arith,
}
use pbvex.Schema.Value.{Value, obj, arr, Items, nil, cons, Fields, end, field, Wire}
use pbvex.Schema.Canonical.{
  Member, comes_first, insert_member, with_member, write, write_items, write_fields, bracket, brace,
  canonical_order_json, guard_depth,
}

abbrev le_text : List ℕ → List ℕ → Bool
le_text x y = comes_first (compare_texts x y)

le_text_antisymm : (x y : List ℕ) → le_text x y ≡ true → le_text y x ≡ true → x ≡ y
unfolding compare_texts
le_text_antisymm [] [] h k = refl
le_text_antisymm [] (b ∷ y) h k = cc
le_text_antisymm (a ∷ x) [] h k = cc
le_text_antisymm (a ∷ x) (b ∷ y) h k = ground (arith, le_text_antisymm x y)

le_text-total : (x y : List ℕ) → le_text x y ≡ false → le_text y x ≡ true
unfolding compare_texts
le_text-total [] [] h = cc
le_text-total [] (b ∷ y) h = cc
le_text-total (a ∷ x) [] h = refl
le_text-total (a ∷ x) (b ∷ y) h = ground (arith, le_text-total x y)

le_text_trans : (x y z : List ℕ) → le_text x y ≡ true → le_text y z ≡ true → le_text x z ≡ true
unfolding compare_texts
le_text_trans [] [] z h k = k
le_text_trans [] (b ∷ y) [] h k = refl
le_text_trans [] (b ∷ y) (c ∷ z) h k = refl
le_text_trans (a ∷ x) [] z h k = cc
le_text_trans (a ∷ x) (b ∷ y) [] h k = cc
le_text_trans (a ∷ x) (b ∷ y) (c ∷ z) h k = ground (arith, le_text_trans x y z)

-- Members of different keys can be put into a sorted list in either order.
insert_member_comm :
    (m n : Member) (l : List Member)
    → m.0 ≢ n.0
    → insert_member m (insert_member n l) ≡ insert_member n (insert_member m l)
unfolding insert_member
insert_member_comm m n [] ne = ground (arith, le_text_antisymm m.0 n.0, le_text-total m.0 n.0)
insert_member_comm m n (o ∷ l) ne = ground (
  arith,
  insert_member_comm m n l ne,
  le_text_antisymm m.0 n.0,
  le_text-total m.0 n.0,
  le_text-total n.0 m.0,
  le_text-total m.0 o.0,
  le_text-total n.0 o.0,
  le_text_trans m.0 n.0 o.0,
  le_text_trans n.0 m.0 o.0,
  le_text_trans m.0 o.0 n.0,
  le_text_trans n.0 o.0 m.0,
)

with_member_comm :
    (k j : List ℕ) (s t : Option (List ℕ)) (ms : Option (List Member))
    → k ≢ j
    → with_member k s (with_member j t ms) ≡ with_member j t (with_member k s ms)
unfolding with_member
with_member_comm k j none none ms ne = refl
with_member_comm k j none (some t) none ne = refl
with_member_comm k j none (some t) (some ms) ne = refl
with_member_comm k j (some s) none none ne = refl
with_member_comm k j (some s) none (some ms) ne = refl
with_member_comm k j (some s) (some t) none ne = refl
with_member_comm k j (some s) (some t) (some ms) ne =
    ap some (insert_member_comm (k, s) (j, t) ms ne)

-- Two values are the same up to the order of members, at any depth.
mutual
  pub data Alike : Value → Value → Type 0 where
    itself : (v : Value) → Alike v v
    arrays : {xs ys : Items} → AlikeItems xs ys → Alike (arr xs) (arr ys)
    objects : {fs gs : Fields} → AlikeFields fs gs → Alike (obj fs) (obj gs)

  pub data AlikeItems : Items → Items → Type 0 where
    no_items : AlikeItems nil nil
    items :
        {x y : Value} {xs ys : Items}
        → Alike x y
        → AlikeItems xs ys
        → AlikeItems (cons x xs) (cons y ys)

  pub data AlikeFields : Fields → Fields → Type 0 where
    no_fields : AlikeFields end end
    keep :
        (k : List ℕ) {x y : Value} {fs gs : Fields}
        → Alike x y
        → AlikeFields fs gs
        → AlikeFields (field k x fs) (field k y gs)
    swap :
        (k j : List ℕ) (x y : Value) (fs : Fields)
        → k ≢ j
        → AlikeFields (field k x (field j y fs)) (field j y (field k x fs))
    chain : {fs gs hs : Fields} → AlikeFields fs gs → AlikeFields gs hs → AlikeFields fs hs

mutual
  unfolding write

  write-Alike : (w : Wire) (depth : ℕ) {u v : Value} → Alike u v → write w depth u ≡ write w depth v
  write-Alike w depth (itself v) = refl
  write-Alike w depth (arrays h) =
      ap (λ t. guard_depth depth (bracket t)) (write-AlikeItems w (suc depth) h)
  write-Alike w depth (objects h) =
      ap (λ t. guard_depth depth (brace w t)) (write-AlikeFields w (suc depth) h)

  write-AlikeItems :
      (w : Wire) (depth : ℕ) {xs ys : Items}
      → AlikeItems xs ys
      → write_items w depth xs ≡ write_items w depth ys
  write-AlikeItems w depth no_items = refl
  write-AlikeItems w depth (items h hs) = rw (write-Alike w depth h, write-AlikeItems w depth hs)

  write-AlikeFields :
      (w : Wire) (depth : ℕ) {fs gs : Fields}
      → AlikeFields fs gs
      → write_fields w depth fs ≡ write_fields w depth gs
  write-AlikeFields w depth no_fields = refl
  write-AlikeFields w depth (keep k h hs) = rw (write-Alike w depth h, write-AlikeFields w depth hs)
  write-AlikeFields w depth (swap k j x y fs ne) =
      with_member_comm k j (write w depth x) (write w depth y) _ ne
  write-AlikeFields w depth (chain h k) = write-AlikeFields w depth h ∙ write-AlikeFields w depth k

-- Values that differ only in the order of the members of objects, at any depth, have the same
-- canonical JSON, or none of them has one.
pub canonical_order_json-Alike :
    (w : Wire) {u v : Value} → Alike u v → canonical_order_json w u ≡ canonical_order_json w v
unfolding canonical_order_json
canonical_order_json-Alike w h = write-Alike w 0 h
