-- ===== src/Schema/Indexable.antt =====
-- backend/internal/schema/order.go: IndexableValidator, the validators over whose fields an index may
-- be declared.
pub mod Rank
use pbvex.Base.{
  ℕ, zero, suc, ◌+◌, ◌==◌, leb, Bool, true, false, not, ◌&&◌, ◌||◌, Option, none, some, List, [],
  ◌∷◌, length, codes, same, if◌then◌else◌,
}
use pbvex.Schema.Value.{
  Value, null, bool, number, text, arr, obj, Items, nil, cons, Fields, end, field,
}
use pbvex.Schema.Key.{special_bytes}
use pbvex.Schema.Order.{
  Kind, wrapper, union, null_kind, any_kind, boolean, number_kind, string_kind, id_kind, int64,
  bytes, literal, compound, validator_type, validator_key, validators_key, literal_value,
  is_wrapper, is_union, is_nil,
}

-- canonicalSpecialLiteral; `none` is a wanted length below 0.
unfoldable pub canonical_special_literal : List ℕ → Option ℕ → Fields → Bool
unfolding special_bytes
canonical_special_literal name want fs = elim (special_bytes name fs) [
  | none ↦ false
  | some b ↦ elim want [ none ↦ true | some n ↦ length b == n ]
]

unfoldable pub literal_indexable : Value → Bool
unfolding canonical_special_literal
literal_indexable (obj fs) =
    canonical_special_literal (codes "$integer") (some 8) fs
    || canonical_special_literal (codes "$bytes") none fs
literal_indexable (arr xs) = false
literal_indexable v = true

-- The switch of IndexableValidator, for a type that is neither wrapper nor union.
unfoldable pub indexable_kind : Kind → Fields → Bool
unfolding literal_indexable literal_value
indexable_kind literal fs = literal_indexable (literal_value fs)
indexable_kind any_kind fs = false
indexable_kind compound fs = false
indexable_kind wrapper fs = false
indexable_kind union fs = false
indexable_kind kind fs = true

abbrev pub count_items : Items → ℕ
count_items nil = 0
count_items (cons x xs) = suc (count_items xs)

-- IndexableValidator: of a validator, of the validator under a key, of the branches under
-- "validators", and of all items.
unfoldable mutual
  unfolding validator_type indexable_kind

  pub indexable : Value → Bool
  indexable (obj fs) = elim (validator_type fs) [
    | none ↦ false
    | some k ↦
        if is_wrapper k
        then indexable_at validator_key fs
        else if is_union k
        then indexable_branches validators_key fs
        else indexable_kind k fs
  ]
  indexable _ = false

  pub indexable_at : List ℕ → Fields → Bool
  indexable_at key end = false
  indexable_at key (field k v fs) =
      let here = indexable v in let rest = indexable_at key fs in if same k key then here else rest

  pub indexable_branches : List ℕ → Fields → Bool
  indexable_branches key end = false
  indexable_branches key (field k (arr xs) fs) =
      let here = indexable_all xs in
      let rest = indexable_branches key fs in
      if same k key then not (is_nil xs) && leb (count_items xs) 64 && here else rest
  indexable_branches key (field k v fs) =
      let rest = indexable_branches key fs in if same k key then false else rest

  pub indexable_all : Items → Bool
  indexable_all nil = true
  indexable_all (cons x xs) = indexable x && indexable_all xs

-- IndexableValidator.
unfoldable pub indexable_validator : Value → Bool
unfolding indexable
indexable_validator v = indexable v
