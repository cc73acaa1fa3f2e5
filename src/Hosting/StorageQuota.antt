-- ===== src/Hosting/StorageQuota.antt =====
-- backend/hosting/storagequota: protocol.go (the requests and their checks) and reference.go
-- (ReferenceQuotaService). A byte count is an int64 bit pattern; sums wrap as they do in Go. The
-- map of reservations is a list; what JSON decoding yields is an argument.
pub mod Capacity
pub mod Replay
use pbvex.Base.{
  ℕ, zero, suc, ◌+◌, ◌==◌, leb, ltb, Bool, true, false, not, ◌&&◌, ◌||◌, Option, none, some, List,
  [], ◌∷◌, ◌++◌, length, codes, same, wrap, lt_i64, le_i64, sub_i64, if◌then◌else◌,
}
use pbvex.Sql.{find_row}
use pbvex.Hosting.Token.{token, optional_token}

pub record ReserveRequest : Type 0 where
  pub request_id : List ℕ
  pub purpose : List ℕ
  pub storage_id : List ℕ
  pub key : List ℕ
  pub bytes : ℕ

pub data Code : Type 0 where
  allowed_code quota_exhausted : Code

-- ReserveStorageDecision; the policy version is the constant "initial".
pub record Decision : Type 0 where
  pub allowed : Bool
  pub code : Code
  pub reservation_id : List ℕ

pub record SettleRequest : Type 0 where
  pub reservation_id : List ℕ
  pub bytes : ℕ

pub record CreditRequest : Type 0 where
  pub event_id : List ℕ
  pub storage_id : List ℕ
  pub key : List ℕ
  pub bytes : ℕ

unfoldable pub valid_object_key : List ℕ → Bool
valid_object_key s = leb (length s) 256 && token s

unfoldable pub optional_key : List ℕ → Bool
optional_key [] = true
optional_key (c ∷ cs) = valid_object_key (c ∷ cs)

unfoldable pub valid_reserve : ReserveRequest → Bool
valid_reserve r =
    token r.request_id
    && (same r.purpose (codes "upload") || same r.purpose (codes "variant"))
    && optional_token r.storage_id
    && optional_key r.key
    && le_i64 0 r.bytes

unfoldable pub valid_settle : SettleRequest → Bool
valid_settle r = token r.reservation_id && le_i64 0 r.bytes

unfoldable pub valid_credit : CreditRequest → Bool
valid_credit r =
    token r.event_id && optional_token r.storage_id && optional_key r.key && le_i64 0 r.bytes

pub data Status : Type 0 where
  reserved settled released : Status

pub record Reservation : Type 0 where
  pub request : ReserveRequest
  pub decision : Decision
  pub bytes : ℕ
  pub charged : ℕ
  pub status : Status

pub record QuotaService : Type 0 where
  pub limit : ℕ
  pub capacity_bytes : ℕ
  pub used_bytes : ℕ
  pub reservations : List Reservation
  pub credits : List CreditRequest

unfoldable pub new_service : ℕ → ℕ → QuotaService
new_service limit capacity = record {
  limit = if lt_i64 limit 1 then 1000 else limit;
  capacity_bytes = capacity;
  used_bytes = 0;
  reservations = [];
  credits = [];
}

unfoldable pub set_capacity : ℕ → QuotaService → QuotaService
set_capacity capacity s = record s { capacity_bytes = capacity }

-- What ServeHTTP writes: a status code of fail, or the body of a success.
pub data Reply : Type 0 where
  failed : ℕ → Reply
  hello : Reply
  decided : Decision → Reply
  settle_ack : List ℕ → ℕ → Reply
  release_ack : List ℕ → Reply
  credit_ack : List ℕ → Reply

-- old.Request != req
unfoldable pub same_reserve : ReserveRequest → ReserveRequest → Bool
same_reserve a b =
    same a.request_id b.request_id
    && same a.purpose b.purpose
    && same a.storage_id b.storage_id
    && same a.key b.key
    && a.bytes == b.bytes

unfoldable pub same_credit : CreditRequest → CreditRequest → Bool
same_credit a b =
    same a.event_id b.event_id
    && same a.storage_id b.storage_id
    && same a.key b.key
    && a.bytes == b.bytes

abbrev pub is_reserved : Status → Bool
is_reserved reserved = true
is_reserved _ = false

unfoldable pub inflight : List Reservation → ℕ
inflight [] = 0
inflight (r ∷ rs) = wrap ((if is_reserved r.status then r.bytes else 0) + inflight rs)

-- The decision on a new request and the bytes that it reserves; `id` is hosting.NewID().
unfoldable pub decide : List ℕ → ReserveRequest → QuotaService → Decision × ℕ
unfolding inflight
decide id req s =
    if lt_i64 s.capacity_bytes (wrap (s.used_bytes + inflight s.reservations + req.bytes))
    then (record { allowed = false; code = quota_exhausted; reservation_id = [] }, 0)
    else (record { allowed = true; code = allowed_code; reservation_id = id }, req.bytes)

-- s.reservations[req.RequestID]
unfoldable pub find_request : List ℕ → List Reservation → Option Reservation
unfolding find_row
find_request id rs = find_row (λ r. same r.request.request_id id) rs

unfoldable pub reserve_new : List ℕ → ReserveRequest → QuotaService → QuotaService × Reply
unfolding decide
reserve_new id req s =
    let (d, bytes) = decide id req s in
    if leb s.limit (length s.reservations) then (s, failed 503) else (
      record s {
        reservations =
            record { request = req; decision = d; bytes = bytes; charged = 0; status = reserved }
            ∷ s.reservations;
      },
      decided d,
    )

unfoldable pub reserve : List ℕ → ReserveRequest → QuotaService → QuotaService × Reply
unfolding find_request reserve_new
reserve id req s = elim (find_request req.request_id s.reservations) [
  | some old ↦ if same_reserve old.request req then (s, decided old.decision) else (s, failed 409)
  | none ↦ reserve_new id req s
]

-- reservationByID, and the write through the pointer that it returns.
unfoldable pub reservation_by_id : List ℕ → List Reservation → Option Reservation
reservation_by_id id [] = none
reservation_by_id id (r ∷ rs) =
    let rest = reservation_by_id id rs in if same r.decision.reservation_id id then some r else rest

unfoldable pub update_by_id :
    List ℕ → (Reservation → Reservation) → List Reservation → List Reservation
update_by_id id f [] = []
update_by_id id f (r ∷ rs) =
    let rest = update_by_id id f rs in
    if same r.decision.reservation_id id then f r ∷ rs else r ∷ rest

abbrev pub mark_settled : ℕ → Reservation → Reservation
mark_settled n r = record r { status = settled; charged = n }

abbrev pub mark_released : Reservation → Reservation
mark_released r = record r { status = released }

unfoldable pub settle_found :
    SettleRequest → Reservation → Status → QuotaService → QuotaService × Reply
unfolding update_by_id
settle_found req res settled s =
    if res.charged == req.bytes
    then (s, settle_ack req.reservation_id res.charged)
    else (s, failed 409)
settle_found req res reserved s = if lt_i64 res.bytes req.bytes then (s, failed 409) else (
  record s {
    reservations = update_by_id req.reservation_id (mark_settled req.bytes) s.reservations;
    used_bytes = wrap (s.used_bytes + req.bytes);
  },
  settle_ack req.reservation_id req.bytes,
)
settle_found req res released s = (s, failed 409)

unfoldable pub settle : SettleRequest → QuotaService → QuotaService × Reply
unfolding settle_found reservation_by_id
settle req s = elim (reservation_by_id req.reservation_id s.reservations) [
  | none ↦ (s, failed 409)
  | some res ↦ settle_found req res res.status s
]

unfoldable pub release_found : List ℕ → Status → QuotaService → QuotaService × Reply
unfolding update_by_id
release_found id released s = (s, release_ack id)
release_found id reserved s =
    (record s { reservations = update_by_id id mark_released s.reservations }, release_ack id)
release_found id settled s = (s, failed 409)

unfoldable pub release : List ℕ → QuotaService → QuotaService × Reply
unfolding release_found reservation_by_id
release id s = elim (reservation_by_id id s.reservations) [
  | none ↦ (s, failed 409)
  | some res ↦ release_found id res.status s
]

unfoldable pub credit_new : CreditRequest → QuotaService → QuotaService × Reply
credit_new req s =
    let used = sub_i64 s.used_bytes req.bytes in
    if leb s.limit (length s.credits) then (s, failed 503) else (
      record s { credits = req ∷ s.credits; used_bytes = if lt_i64 used 0 then 0 else used },
      credit_ack req.event_id,
    )

unfoldable pub credit : CreditRequest → QuotaService → QuotaService × Reply
unfolding find_row credit_new
credit req s = elim (find_row (λ c. same c.event_id req.event_id) s.credits) [
  | some old ↦ if same_credit old req then (s, credit_ack req.event_id) else (s, failed 409)
  | none ↦ credit_new req s
]

-- A request by its path, with what decodeStrict makes of the body: `none` is an error.
pub data Call : Type 0 where
  hello_call : Option (Unit {0}) → Call
  reserve_call : Option ReserveRequest → Call
  settle_call : Option SettleRequest → Call
  release_call : Option (List ℕ) → Call
  credit_call : Option CreditRequest → Call
  unknown_path : Call

-- The switch on the path, under the lock.
unfoldable pub dispatch : List ℕ → Call → QuotaService → QuotaService × Reply
unfolding reserve settle release credit
dispatch id (hello_call none) s = (s, failed 400)
dispatch id (hello_call (some u)) s = (s, hello)
dispatch id (reserve_call none) s = (s, failed 400)
dispatch id (reserve_call (some req)) s =
    if valid_reserve req then reserve id req s else (s, failed 400)
dispatch id (settle_call none) s = (s, failed 400)
dispatch id (settle_call (some req)) s = if valid_settle req then settle req s else (s, failed 400)
dispatch id (release_call none) s = (s, failed 400)
dispatch id (release_call (some rid)) s = if token rid then release rid s else (s, failed 400)
dispatch id (credit_call none) s = (s, failed 400)
dispatch id (credit_call (some req)) s = if valid_credit req then credit req s else (s, failed 400)
dispatch id unknown_path s = (s, failed 426)

-- The parts of an HTTP request that ServeHTTP looks at; `small` is a body that can be read and is
-- not larger than MaxPayload.
pub record HttpRequest : Type 0 where
  pub post : Bool
  pub json : Bool
  pub small : Bool
  pub call : Call

unfoldable pub serve_http : List ℕ → HttpRequest → QuotaService → QuotaService × Reply
unfolding dispatch
serve_http id r s =
    if not r.post
    then (s, failed 405)
    else if not r.json
    then (s, failed 415)
    else if not r.small
    then (s, failed 413)
    else dispatch id r.call s
