-- ===== src/Schema/Key/Special.antt =====
-- backend/internal/schema/order.go: the special values that carry base64 text.
use pbvex.Base.{
  ℕ, ◌≡◌, ◌==◌, Bool-cases, Option-cases, ◌&&◌, ◌↔◌, inl, inr, Option, none, some, List, same,
  same_eq, same_self, sym, ap, ◌∙◌, arith,
}
use pbvex.Schema.Bytes.{AreBytes, base64_encode, base64_decode}
use pbvex.Schema.Bytes.RoundTrip.{base64_decode-encode}
use pbvex.Schema.Value.{
  Value, null, bool, number, text, arr, obj, Fields, member, as_text, count_fields,
}
use pbvex.Schema.Key.{special_bytes}

as_text-eq : (o : Option Value) {s : List ℕ} → as_text o ≡ some s → o ≡ some (text s)
unfolding as_text
as_text-eq none h = absurd (ground arith)
as_text-eq (some (text t)) h = ground arith
as_text-eq (some null) h = absurd (ground arith)
as_text-eq (some (bool b)) h = absurd (ground arith)
as_text-eq (some (number n)) h = absurd (ground arith)
as_text-eq (some (arr xs)) h = absurd (ground arith)
as_text-eq (some (obj fs)) h = absurd (ground arith)

special-canonical :
    (name : List ℕ) (fs : Fields) {b : List ℕ}
    → special_bytes name fs ≡ some b
    → (member name fs ≡ some (text (base64_encode b))) × (count_fields fs ≡ 1)
unfolding special_bytes
special-canonical name fs {b} h = elim (Option-cases (as_text (member name fs))) [
  | inl e ↦ absurd (ground arith)
  | inr (encoded, e) ↦ elim (Option-cases (base64_decode encoded)) [
    | inl d ↦ absurd (ground arith)
    | inr (c, d) ↦ elim (Bool-cases (count_fields fs == 1 && same (base64_encode c) encoded)) [
      | inl q ↦
          let eq = same_eq (base64_encode c) encoded (ground arith) in
          let found = as_text-eq (member name fs) e in
          let same_bytes : c ≡ b = ground arith in
          let spelled : encoded ≡ base64_encode b = sym eq ∙ ap base64_encode same_bytes in
          (found ∙ ap (λ (t : List ℕ). some (text t)) spelled, ground arith)
      | inr q ↦ absurd (ground arith)
    ]
  ]
]

canonical-special :
    (name : List ℕ) (fs : Fields) (b : List ℕ)
    → AreBytes b
    → member name fs ≡ some (text (base64_encode b))
    → count_fields fs ≡ 1
    → special_bytes name fs ≡ some b
unfolding special_bytes as_text
canonical-special name fs b h m c =
    ground (arith, base64_decode-encode b h, same_self (base64_encode b))

-- A special value with that name reads as some bytes exactly where it has one member and that
-- member is the base64 text of the bytes, in its canonical spelling.
pub special_bytes_iff :
    (name : List ℕ) (fs : Fields) (b : List ℕ)
    → AreBytes b
    → (special_bytes name fs ≡ some b)
      ↔ ((member name fs ≡ some (text (base64_encode b))) × (count_fields fs ≡ 1))
special_bytes_iff name fs b h =
    (λ k. special-canonical name fs k, λ (m, c). canonical-special name fs b h m c)
