-- ===== src/Hosting/StorageQuota/Capacity.antt =====
-- backend/hosting/storagequota/reference.go: the byte capacity over any sequence of requests.
use pbvex.Base.{
  ℕ, ◌+◌, ◌^◌, ◌≤◌, ◌<◌, ◌≡◌, refl, Bool-cases, true, false, Option-cases, none, some, List, [],
  ◌∷◌, length, same, le_i64, if◌then◌else◌, inl, inr, arith, sign_bit,
}
use pbvex.Hosting.StorageQuota.{
  ReserveRequest, SettleRequest, CreditRequest, valid_reserve, valid_settle, valid_credit, Status,
  reserved, settled, released, Reservation, QuotaService, decided, is_reserved, inflight, decide,
  find_request, reserve_new, reserve, reservation_by_id, update_by_id, mark_settled, mark_released,
  settle_found, settle, release_found, release, credit_new, credit, Call, hello_call, reserve_call,
  settle_call, release_call, credit_call, unknown_path, dispatch, HttpRequest, serve_http,
  set_capacity, allowed_code,
}

-- The bytes of the reservations that are neither settled nor released, as a sum that does not wrap.
unfoldable pub reserved_sum : List Reservation → ℕ
reserved_sum [] = 0
reserved_sum (r ∷ rs) = (if is_reserved r.status then r.bytes else 0) + reserved_sum rs

-- Settled usage and open reservations fit into the capacity, an int64 that is not negative.
pub record IsWithin (s : QuotaService) : Type 0 where
  pub fits : s.used_bytes + reserved_sum s.reservations ≤ s.capacity_bytes
  pub range : s.capacity_bytes < sign_bit

inflight-eq : (rs : List Reservation) → reserved_sum rs < 2 ^ 64 → inflight rs ≡ reserved_sum rs
unfolding inflight reserved_sum
inflight-eq [] h = refl
inflight-eq (r ∷ rs) h = omega (arith, inflight-eq rs (omega (arith, h)))

reserved_sum-update :
    (id : List ℕ) (f : Reservation → Reservation) (rs : List Reservation) {r : Reservation}
    → reservation_by_id id rs ≡ some r
    → is_reserved (f r).status ≡ false
    → r.status ≡ reserved
    → reserved_sum (update_by_id id f rs) + r.bytes ≡ reserved_sum rs
unfolding reservation_by_id update_by_id reserved_sum
reserved_sum-update id f [] h k m = cc
reserved_sum-update id f (x ∷ xs) {r} h k m =
    elim (Bool-cases (same x.decision.reservation_id id)) [
      | inl e ↦ rw e (ground (arith, h))
      | inr e ↦ rw e (omega (arith, reserved_sum-update id f xs (rest e) k m))
    ]
  where
    rest : same x.decision.reservation_id id ≡ false → reservation_by_id id xs ≡ some r
    rest e = ground arith

-- The request asks for so few bytes that the sum of the capacity check cannot reach 2 ^ 63.
abbrev pub Fits : QuotaService → Call → Type 0
Fits s (reserve_call (some req)) = s.capacity_bytes + req.bytes < sign_bit
Fits s _ = Unit

reserve_new-IsWithin :
    (id : List ℕ) (req : ReserveRequest) (s : QuotaService)
    → s.capacity_bytes + req.bytes < sign_bit
    → IsWithin s
    → IsWithin (reserve_new id req s).0
unfolding reserve_new decide reserved_sum
reserve_new-IsWithin id req s h v =
    ground (arith, inflight-eq s.reservations (omega (arith, v.fits, v.range)))

reserve-IsWithin :
    (id : List ℕ) (req : ReserveRequest) (s : QuotaService)
    → s.capacity_bytes + req.bytes < sign_bit
    → IsWithin s
    → IsWithin (reserve id req s).0
unfolding reserve
reserve-IsWithin id req s h v = ground (arith, reserve_new-IsWithin id req s h v)

settle_found-IsWithin :
    (req : SettleRequest) (res : Reservation) (st : Status) (s : QuotaService)
    → reservation_by_id req.reservation_id s.reservations ≡ some res
    → res.status ≡ st
    → le_i64 0 req.bytes ≡ true
    → req.bytes < 2 ^ 64
    → IsWithin s
    → IsWithin (settle_found req res st s).0
unfolding settle_found
settle_found-IsWithin req res settled s found e h k v = ground arith
settle_found-IsWithin req res reserved s found e h k v = ground (
  arith,
  reserved_sum-update req.reservation_id (mark_settled req.bytes) s.reservations found refl e,
)
settle_found-IsWithin req res released s found e h k v = ground arith

settle-IsWithin :
    (req : SettleRequest) (s : QuotaService)
    → le_i64 0 req.bytes ≡ true
    → req.bytes < 2 ^ 64
    → IsWithin s
    → IsWithin (settle req s).0
unfolding settle
settle-IsWithin req s h k v =
    elim (Option-cases (reservation_by_id req.reservation_id s.reservations)) [
      | inl e ↦ rw (e, settle) v
      | inr (res, e) ↦ rw (e, settle) (settle_found-IsWithin req res res.status s e refl h k v)
    ]

release_found-IsWithin :
    (id : List ℕ) (res : Reservation) (st : Status) (s : QuotaService)
    → reservation_by_id id s.reservations ≡ some res
    → res.status ≡ st
    → IsWithin s
    → IsWithin (release_found id st s).0
unfolding release_found
release_found-IsWithin id res settled s found e v = ground arith
release_found-IsWithin id res reserved s found e v =
    ground (arith, reserved_sum-update id mark_released s.reservations found refl e)
release_found-IsWithin id res released s found e v = ground arith

release-IsWithin : (id : List ℕ) (s : QuotaService) → IsWithin s → IsWithin (release id s).0
unfolding release
release-IsWithin id s v = elim (Option-cases (reservation_by_id id s.reservations)) [
  | inl e ↦ rw (e, release) v
  | inr (res, e) ↦ rw (e, release) (release_found-IsWithin id res res.status s e refl v)
]

credit_new-IsWithin :
    (req : CreditRequest) (s : QuotaService)
    → le_i64 0 req.bytes ≡ true
    → req.bytes < 2 ^ 64
    → IsWithin s
    → IsWithin (credit_new req s).0
unfolding credit_new
credit_new-IsWithin req s h k v = ground arith

credit-IsWithin :
    (req : CreditRequest) (s : QuotaService)
    → le_i64 0 req.bytes ≡ true
    → req.bytes < 2 ^ 64
    → IsWithin s
    → IsWithin (credit req s).0
unfolding credit
credit-IsWithin req s h k v = ground (arith, credit_new-IsWithin req s h k v)

-- Every byte count of a decoded request is an int64.
abbrev pub IsDecoded : Call → Type 0
IsDecoded (reserve_call (some req)) = req.bytes < 2 ^ 64
IsDecoded (settle_call (some req)) = req.bytes < 2 ^ 64
IsDecoded (credit_call (some req)) = req.bytes < 2 ^ 64
IsDecoded _ = Unit

pub dispatch-IsWithin :
    (id : List ℕ) (call : Call) (s : QuotaService)
    → IsDecoded call
    → Fits s call
    → IsWithin s
    → IsWithin (dispatch id call s).0
unfolding dispatch valid_settle valid_credit
dispatch-IsWithin id (hello_call none) s d f v = v
dispatch-IsWithin id (hello_call (some u)) s d f v = v
dispatch-IsWithin id (reserve_call none) s d f v = v
dispatch-IsWithin id (reserve_call (some req)) s d f v =
    ground (arith, reserve-IsWithin id req s f v)
dispatch-IsWithin id (settle_call none) s d f v = v
dispatch-IsWithin id (settle_call (some req)) s d f v = ground (arith, settle-IsWithin req s)
dispatch-IsWithin id (release_call none) s d f v = v
dispatch-IsWithin id (release_call (some rid)) s d f v = ground (arith, release-IsWithin rid s v)
dispatch-IsWithin id (credit_call none) s d f v = v
dispatch-IsWithin id (credit_call (some req)) s d f v = ground (arith, credit-IsWithin req s)
dispatch-IsWithin id unknown_path s d f v = v

serve_http-IsWithin :
    (id : List ℕ) (r : HttpRequest) (s : QuotaService)
    → IsDecoded r.call
    → Fits s r.call
    → IsWithin s
    → IsWithin (serve_http id r s).0
unfolding serve_http
serve_http-IsWithin id r s d f v = ground (arith, dispatch-IsWithin id r.call s d f v)

-- Any sequence of requests, each small enough for the sum of its capacity check, and of raised
-- capacities.
pub data Serves (s : QuotaService) : QuotaService → Type 0 where
  here : Serves s s
  served :
      {t : QuotaService}
      → Serves s t
      → (id : List ℕ) (r : HttpRequest) → IsDecoded r.call
      → Fits t r.call
      → Serves s (serve_http id r t).0
  raised :
      {t : QuotaService}
      → Serves s t
      → (n : ℕ) → t.capacity_bytes ≤ n
      → n < sign_bit
      → Serves s (set_capacity n t)

-- From a service within its capacity, over any sequence of requests whose byte counts leave the
-- sum of the capacity check below 2 ^ 63, and of raised capacities, settled usage and open
-- reservations together stay within the capacity.
pub Serves-IsWithin : {s t : QuotaService} → Serves s t → IsWithin s → IsWithin t
unfolding set_capacity
Serves-IsWithin here v = v
Serves-IsWithin (served run id r d f) v = serve_http-IsWithin id r _ d f (Serves-IsWithin run v)
Serves-IsWithin (raised run n h k) v =
    let w = Serves-IsWithin run v in record { fits = omega (arith, w.fits); range = k }

-- Where the sum of the capacity check reaches 2 ^ 63, it wraps below zero: a service that is
-- within its capacity and has room for a record allows a valid new reservation although it does
-- not fit, whatever the capacity.
pub dispatch-oversized :
    (id : List ℕ) (req : ReserveRequest) (s : QuotaService)
    → IsWithin s
    → valid_reserve req ≡ true
    → req.bytes < 2 ^ 64
    → find_request req.request_id s.reservations ≡ none
    → length s.reservations < s.limit
    → sign_bit ≤ s.used_bytes + reserved_sum s.reservations + req.bytes
    → (dispatch id (reserve_call (some req)) s).1
      ≡ decided (record { allowed = true; code = allowed_code; reservation_id = id })
unfolding dispatch reserve reserve_new decide valid_reserve
dispatch-oversized id req s v valid d new room over =
    ground (arith, inflight-eq s.reservations (omega (arith, v.fits, v.range)))
