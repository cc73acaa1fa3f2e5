-- ===== src/Examples/Keys.antt =====
-- Order keys, canonical texts and base64 at concrete values.
use pbvex.Base.{◌↔◌, ◌≡◌, refl, true, none, some, [], ◌∷◌, codes, compare_texts, ok, arith}
use pbvex.Schema.Bytes.{base64_encode, base64_decode}
use pbvex.Schema.Key.Special.{special_bytes_iff}
use pbvex.Schema.Value.{
  Value, text, Fields, obj, end, field, null, member, count_fields, bool, Wire,
}
use pbvex.Schema.Canonical.{canonical_order_json}
use pbvex.Schema.Canonical.Unordered.{objects, swap, canonical_order_json-Alike}
use pbvex.Schema.Order.{order_key_with_id}
use pbvex.Schema.Key.{special_bytes, order_true}
use pbvex.Schema.Order.Scalars.{number_value, compare_scalars}
use pbvex.Schema.Order.Sorted.{key_of, key_of-compare}
use pbvex.Schema.Order.Denoted.{IsKeyUnder, order_key_with_id-IsKeyUnder}
use pbvex.Schema.Indexable.{indexable_validator}
use pbvex.Schema.Indexable.Rank.{IsScalarKey, indexable_validator-IsScalarKey}

-- A wire whose texts quote to themselves and that has no IDs.
abbrev plain_wire : Wire
plain_wire = record {
  from_integer = λ n. 0;
  from_float32 = λ n. 0;
  stringify = λ n. codes "1";
  quote = λ s. s;
  itoa = λ n. codes "1";
  opaque_id_target = λ s. none;
}

abbrev special_bytes_value : Fields
special_bytes_value = field (codes "$bytes") (text (codes "/wAHAQ==")) end

special_bytes_iff_example :
    (special_bytes (codes "$bytes") special_bytes_value ≡ some (255 ∷ 0 ∷ 7 ∷ 1 ∷ [])) ↔ (
      (member (codes "$bytes") special_bytes_value
        ≡ some (text (base64_encode (255 ∷ 0 ∷ 7 ∷ 1 ∷ []))))
      × (count_fields special_bytes_value ≡ 1))
special_bytes_iff_example =
    special_bytes_iff (codes "$bytes") special_bytes_value (255 ∷ 0 ∷ 7 ∷ 1 ∷ [])
      (omega arith, (omega arith, (omega arith, (omega arith, tt))))

-- The text is the canonical one, so the value reads as its bytes.
special_bytes_read :
    special_bytes (codes "$bytes") special_bytes_value ≡ some (255 ∷ 0 ∷ 7 ∷ 1 ∷ [])
unfolding special_bytes base64_decode base64_encode
special_bytes_read = refl

abbrev one_way : Value
one_way = obj (field (codes "a") null (field (codes "b") (bool true) end))

abbrev other_way : Value
other_way = obj (field (codes "b") (bool true) (field (codes "a") null end))

canonical_order_json-Alike_example :
    canonical_order_json plain_wire one_way ≡ canonical_order_json plain_wire other_way
canonical_order_json-Alike_example =
    canonical_order_json-Alike plain_wire
      (objects (swap (codes "a") (codes "b") null (bool true) end (λ e. ground arith)))

-- -1 and 2 as floats.
key_of-compare_example :
    compare_texts
      (key_of (number_value 0xBFF0000000000000))
      (key_of (number_value 0x4000000000000000))
    ≡ compare_scalars (number_value 0xBFF0000000000000) (number_value 0x4000000000000000)
key_of-compare_example =
    key_of-compare (number_value 0xBFF0000000000000) (number_value 0x4000000000000000) (omega arith)
      (omega arith)

abbrev optional_boolean : Value
optional_boolean = obj (
    field (codes "type") (text (codes "optional"))
      (field (codes "validator") (obj (field (codes "type") (text (codes "boolean")) end)) end))

optional_boolean_key :
    order_key_with_id plain_wire none optional_boolean (some (bool true)) ≡ ok order_true
unfolding order_key_with_id
optional_boolean_key = refl

order_key_with_id-IsKeyUnder_example :
    IsKeyUnder plain_wire none optional_boolean (bool true) order_true
order_key_with_id-IsKeyUnder_example =
    order_key_with_id-IsKeyUnder plain_wire none optional_boolean (bool true) order_true
      optional_boolean_key

optional_boolean_indexable : indexable_validator optional_boolean ≡ true
unfolding indexable_validator
optional_boolean_indexable = refl

indexable_validator-IsScalarKey_example : IsScalarKey order_true
indexable_validator-IsScalarKey_example =
    indexable_validator-IsScalarKey plain_wire none optional_boolean (some (bool true)) order_true
      optional_boolean_indexable optional_boolean_key
