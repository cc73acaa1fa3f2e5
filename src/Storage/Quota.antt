-- ===== src/Storage/Quota.antt =====
-- backend/internal/storage/quota.go: the boundary to the host's quota service. The observer's
-- answers come from outside, one for each attempt; sleeps and log lines are left out, but for the
-- label of the line that a failed delivery writes.
pub mod Promises
use pbvex.Base.{
  ℕ, zero, suc, ◌+◌, ◌==◌, leb, Bool, true, false, not, ◌&&◌, ◌||◌, Option, none, some, List, [],
  ◌∷◌, ℤ, pos, negsuc, Result, ok, err, if◌then◌else◌,
}

-- An error by what errors.Is finds in it.
pub data QuotaError : Type 0 where
  quota_denied quota_unavailable provider_error : QuotaError

pub data QuotaPurpose : Type 0 where
  upload variant : QuotaPurpose

pub record QuotaReservationRequest : Type 0 where
  pub op_id : ℕ
  pub purpose : QuotaPurpose
  pub storage_id : ℕ
  pub key : List ℕ
  pub worst_case : ℕ

-- A QuotaReservation value: nil, noopQuotaReservation or the observer's, by its id.
pub data Reservation : Type 0 where
  nil_reservation noop_reservation : Reservation
  held : ℕ → Reservation

-- res == nil || isNoopReservation(res)
abbrev pub is_empty : Reservation → Bool
is_empty (held id) = false
is_empty _ = true

-- The observer's Reserve; no observer is standalone mode.
abbrev pub Observer : Type 0
Observer = Option (QuotaReservationRequest → Result QuotaError Reservation)

unfoldable pub sanitize : Result QuotaError Reservation → Result QuotaError Reservation
sanitize (ok nil_reservation) = err quota_unavailable
sanitize (ok res) = ok res
sanitize (err quota_denied) = err quota_denied
sanitize (err e) = err quota_unavailable

unfoldable pub quota_reserve : Observer → QuotaReservationRequest → Result QuotaError Reservation
unfolding sanitize
quota_reserve none req = ok noop_reservation
quota_reserve (some reserve) req = sanitize (reserve req)

-- classifyQuotaError for an error that is not nil.
pub data Label : Type 0 where
  denied unavailable : Label

unfoldable pub classify_quota_error : QuotaError → Label
classify_quota_error quota_denied = denied
classify_quota_error _ = unavailable

abbrev pub quota_settlement_attempts : ℕ
quota_settlement_attempts = 3

-- A delivery: how often the provider was called, and the label of the warning if it failed.
pub record Delivery : Type 0 where
  pub calls : ℕ
  pub warning : Option Label

abbrev is_denied : QuotaError → Bool
is_denied quota_denied = true
is_denied _ = false

-- for attempt := 0; attempt < 3; attempt++; `answer k` is what the call of attempt k returns,
-- and `stops` says whether a denial breaks out of the loop.
unfoldable pub deliver_loop : Bool → (ℕ → Option QuotaError) → ℕ → ℕ → QuotaError → Delivery
unfolding classify_quota_error
deliver_loop stops answer zero attempt last = record {
  calls = attempt;
  warning = some (classify_quota_error last);
}
deliver_loop stops answer (suc rounds) attempt last = elim (answer attempt) [
  | none ↦ record { calls = suc attempt; warning = none }
  | some e ↦
      let again = deliver_loop stops answer rounds (suc attempt) e in
      if stops && is_denied e
      then record { calls = suc attempt; warning = some (classify_quota_error e) }
      else again
]

abbrev pub idle : Delivery
idle = record { calls = 0; warning = none }

-- The error before the first attempt is nil; some attempt always replaces it.
abbrev no_attempt : QuotaError
no_attempt = provider_error

abbrev is_negative : ℤ → Bool
is_negative (pos n) = false
is_negative (negsuc n) = true

abbrev is_positive : ℤ → Bool
is_positive (pos n) = not (n == 0)
is_positive (negsuc n) = false

-- quotaSettle.
unfoldable pub quota_settle : Reservation → ℤ → (ℕ → Option QuotaError) → Delivery
unfolding deliver_loop
quota_settle res actual_bytes settle =
    if is_empty res || is_negative actual_bytes
    then idle
    else deliver_loop true settle quota_settlement_attempts 0 no_attempt

unfoldable pub quota_release : Reservation → (ℕ → Option QuotaError) → Delivery
unfolding deliver_loop
quota_release res release =
    if is_empty res then idle else deliver_loop true release quota_settlement_attempts 0 no_attempt

-- quotaCredit; `attached` is s.quota != nil, `bytes` is req.Bytes.
unfoldable pub quota_credit : Bool → ℤ → (ℕ → Option QuotaError) → Delivery
unfolding deliver_loop
quota_credit attached bytes credit =
    if not attached || not (is_positive bytes)
    then idle
    else deliver_loop false credit quota_settlement_attempts 0 no_attempt

abbrev is_empty_key : List ℕ → Bool
is_empty_key [] = true
is_empty_key (c ∷ cs) = false

-- objectExists, as the filesystem answers: `none` where it fails.
unfoldable pub release_reservation_if_gone :
    Option Bool → List ℕ → Reservation → (ℕ → Option QuotaError) → Bool × Delivery
unfolding quota_release
release_reservation_if_gone exists key res release =
    if is_empty res || is_empty_key key then (false, idle) else elim exists [
      | none ↦ (false, idle)
      | some true ↦ (false, idle)
      | some false ↦ (true, quota_release res release)
    ]

-- The typed upload errors of reserveQuotaForUpload and reserveQuotaForVariant.
pub data UploadError : Type 0 where
  storage_full internal : UploadError

unfoldable pub admit : Result QuotaError Reservation → Result UploadError Reservation
admit (ok res) = ok res
admit (err quota_denied) = err storage_full
admit (err e) = err internal

unfoldable pub reserve_quota_for_upload :
    Observer → ℕ → ℕ → List ℕ → ℕ → Result UploadError Reservation
unfolding quota_reserve admit
reserve_quota_for_upload none op storage_id stage_key max_size = ok nil_reservation
reserve_quota_for_upload (some reserve) op storage_id stage_key max_size = admit (
    quota_reserve (some reserve) (record {
      op_id = op;
      purpose = upload;
      storage_id = storage_id;
      key = stage_key;
      worst_case = max_size;
    }))

unfoldable pub reserve_quota_for_variant :
    Observer → ℕ → ℕ → List ℕ → ℕ → Result UploadError Reservation
unfolding quota_reserve admit
reserve_quota_for_variant none op storage_id thumb_key exact = ok nil_reservation
reserve_quota_for_variant (some reserve) op storage_id thumb_key exact = admit (
    quota_reserve (some reserve) (record {
      op_id = op;
      purpose = variant;
      storage_id = storage_id;
      key = thumb_key;
      worst_case = exact;
    }))
