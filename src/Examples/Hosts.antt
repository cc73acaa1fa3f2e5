-- ===== src/Examples/Hosts.antt =====
-- The reference services and the hooks on record saves at concrete requests.
use pbvex.Base.{
  ◌==◌, ℕ, inr, inl, ◌≡◌, ◌≤◌, ◌<◌, ◌+◌, refl, true, false, none, some, List, [], ◌∷◌, All, codes,
  sign_bit, arith, Result, ok, ◌↔◌,
}
use pbvex.Hosting.StorageQuota.{
  ReserveRequest, QuotaService, Decision, decided, allowed_code, serve_http, dispatch, new_service,
  set_capacity, reserve_call, valid_reserve, optional_key, find_request,
}
use pbvex.Hosting.StorageQuota.Capacity.{IsWithin, Serves, Serves-IsWithin, dispatch-oversized}
use pbvex.Hosting.StorageQuota.Capacity
use pbvex.Hosting.StorageQuota.Replay.{Runs, reserve_post, serve_http_idem}
use pbvex.Hosting.StorageQuota.Replay
use pbvex.Sql.{find_row}
use pbvex.Hosting.Token.{token, optional_token}
use pbvex.Hosting.Reference.{
  ReferenceService, new_reference_service, set_policy, serve, admit_call, event_call, state_of,
}
use pbvex.Hosting.Protocol.{Operation, AdmissionRequest, Event, started, empty}
use pbvex.Hosting.Reference.Ledger.{Serving, IsOrderly, serves, sets, Serving-IsOrderly}
use pbvex.Hosting.Reference.Ledger
use pbvex.Storage.Quota.{QuotaError, Reservation, nil_reservation, held, QuotaReservationRequest}
use pbvex.Storage.NativeQuota.{
  one_file, one_name, FileField, NativeRecord, native_reserve_upload, native_settle_uploads,
  settles, releases, credits, Filesystem, native_handle_save_error, is_nil, no_uploads,
}
use pbvex.Storage.NativeQuota.Reports.{
  upload_request, native_settle_uploads-IsReserved, native_handle_save_error_iff,
}
use pbvex.Storage.NativeQuota.Held.{fields_bytes, IsStored}

abbrev small_upload : ReserveRequest
small_upload = record {
  request_id = codes "r1";
  purpose = codes "upload";
  storage_id = [];
  key = [];
  bytes = 60;
}

abbrev full_service : QuotaService
full_service = record {
  limit = 10;
  capacity_bytes = 100;
  used_bytes = 50;
  reservations = [];
  credits = [];
}

full_service-IsWithin : IsWithin full_service
unfolding Capacity.reserved_sum
full_service-IsWithin = record { fits = omega arith; range = omega arith }

abbrev after_upload : QuotaService
after_upload = (serve_http (codes "id1") (reserve_post small_upload) full_service).0

Serves-IsWithin_example : IsWithin after_upload
Serves-IsWithin_example =
    Serves-IsWithin
      (Capacity.served Capacity.here (codes "id1") (reserve_post small_upload) (omega arith)
        (omega arith))
      full_service-IsWithin

abbrev vast_upload : ReserveRequest
vast_upload = record small_upload { bytes = 0x7FFFFFFFFFFFFFFF }

vast_upload_valid : valid_reserve vast_upload ≡ true
unfolding valid_reserve token optional_token optional_key
vast_upload_valid = refl

no_vast_upload : find_request vast_upload.request_id full_service.reservations ≡ none
unfolding find_request
no_vast_upload = refl

over_the_range :
    sign_bit
    ≤ full_service.used_bytes + Capacity.reserved_sum full_service.reservations + vast_upload.bytes
unfolding Capacity.reserved_sum
over_the_range = omega arith

dispatch-oversized_example :
    (dispatch (codes "id1") (reserve_call (some vast_upload)) full_service).1
    ≡ decided (record { allowed = true; code = allowed_code; reservation_id = codes "id1" })
dispatch-oversized_example =
    dispatch-oversized (codes "id1") vast_upload full_service full_service-IsWithin
      vast_upload_valid (omega arith) no_vast_upload (omega arith) over_the_range

abbrev allowed_upload : Decision
allowed_upload = record { allowed = true; code = allowed_code; reservation_id = codes "id1" }

abbrev uploaded : QuotaService
uploaded = (serve_http (codes "id1") (reserve_post small_upload) (new_service 10 100)).0

small_upload_decided :
    serve_http (codes "id1") (reserve_post small_upload) (new_service 10 100)
    ≡ (uploaded, decided allowed_upload)
unfolding serve_http valid_reserve token optional_token optional_key new_service
small_upload_decided = refl

-- The capacity falls to zero between the two attempts.
serve_http_idem_example :
    serve_http (codes "id2") (reserve_post small_upload) (set_capacity 0 uploaded)
    ≡ (set_capacity 0 uploaded, decided allowed_upload)
serve_http_idem_example =
    serve_http_idem small_upload (codes "id1") (codes "id2") (new_service 10 100)
      small_upload_decided (Replay.resized Replay.here 0)

abbrev call_of_f : Operation
call_of_f = record {
  id = codes "op1";
  root_id = codes "op1";
  parent_id = [];
  session_id = codes "s1";
  kind = codes "query";
  origin = codes "http";
  deployment_id = [];
  function_name = [];
  namespace = [];
}

abbrev admission_of_f : AdmissionRequest
admission_of_f = record {
  request_id = codes "r1";
  capability = codes "function.execute";
  operation = call_of_f;
}

abbrev start_of_f : Event
start_of_f = record {
  event_id = codes "e1";
  sequence = 1;
  operation = call_of_f;
  reservation_id = codes "id1";
  policy_version = codes "p1";
  phase = started;
  outcome = empty;
  at = 1;
  duration_micros = 0;
}

abbrev new_ledger : ReferenceService
new_ledger = new_reference_service 0

-- The capability is granted, the call is admitted, and its start is reported.
abbrev granted_ledger : ReferenceService
granted_ledger = (set_policy (codes "p1") ((codes "function.execute", true) ∷ []) new_ledger).0

abbrev admitted_ledger : ReferenceService
admitted_ledger =
    (serve true true true (codes "id1") (admit_call (some admission_of_f)) granted_ledger).0

abbrev started_ledger : ReferenceService
started_ledger =
    (serve true true true (codes "id2") (event_call (some start_of_f)) admitted_ledger).0

new_ledger-IsOrderly : IsOrderly new_ledger
unfolding new_reference_service state_of
new_ledger-IsOrderly = record {
  lifecycle = λ r. refl;
  covered = tt;
  sequenced = tt;
  single = tt;
  admissions = omega arith;
  events = omega arith;
  range = omega arith;
}

first_id : state_of (codes "id1") granted_ledger.states ≡ none
unfolding set_policy state_of token new_reference_service
first_id = refl

second_id : state_of (codes "id2") admitted_ledger.states ≡ none
unfolding serve find_row set_policy new_reference_service
second_id = refl

-- One event was recorded.
one_start : started_ledger.events ≡ start_of_f ∷ []
unfolding serve find_row set_policy new_reference_service
one_start = refl

Serving-IsOrderly_example : IsOrderly started_ledger
Serving-IsOrderly_example =
    Serving-IsOrderly
      (serves
        (serves (sets Ledger.here (codes "p1") ((codes "function.execute", true) ∷ [])) true true
          true (codes "id1") (admit_call (some admission_of_f)) first_id)
        true true true (codes "id2") (event_call (some start_of_f)) second_id)
      new_ledger-IsOrderly

-- A provider that grants every request with reservation 4.
abbrev grants : QuotaReservationRequest → Result QuotaError Reservation
grants req = ok (held 4)

-- A record whose one file field replaces file 8 by file 9, of 60 bytes.
abbrev replacing : NativeRecord
replacing = record {
  base_files_path = codes "c/r";
  fields =
      record {
        field = 1;
        value = one_file (some (record { name = 9; size = 60 }));
        original = one_name 8;
      }
      ∷ [];
  uploads = [];
  removals = [];
  reservation = nil_reservation;
}

abbrev reserved_save : NativeRecord
reserved_save = record replacing {
  uploads = record { field = 1; name = 9; size = 60; thumb_bytes = 0 } ∷ [];
  reservation = held 4;
}

abbrev saved_fields : List FileField
saved_fields = record { field = 1; value = one_name 9; original = one_name 8 } ∷ []

save_is_reserved : native_reserve_upload (some grants) 1 replacing ≡ ok reserved_save
unfolding native_reserve_upload
save_is_reserved = refl

save_settles :
    (native_settle_uploads (record reserved_save { fields = saved_fields })).1 ≡ settles (held 4) 60
unfolding native_settle_uploads
save_settles = refl

small_save : fields_bytes (λ m. true) replacing.fields < sign_bit
small_save = omega arith

-- The saved record holds file 9.
nine-IsStored : (m : ℕ) → ((m == 9) ≡ true) ↔ IsStored saved_fields m
nine-IsStored m = (
  λ e. (λ z. ground arith, inl (ground arith)),
  λ (z, h). elim h [ inl e ↦ ground arith | inr k ↦ absurd k ],
)

native_settle_uploads-IsReserved_example :
    (grants (upload_request 1 replacing 60) ≡ ok (held 4))
    × (60 ≡ fields_bytes (λ m. m == 9) replacing.fields)
    × (60 ≤ fields_bytes (λ m. true) replacing.fields)
native_settle_uploads-IsReserved_example =
    native_settle_uploads-IsReserved grants 1 replacing reserved_save saved_fields (held 4) 60
      (λ m. m == 9) nine-IsStored small_save refl save_is_reserved save_settles

abbrev empty_store : Filesystem
empty_store = record {
  exists = λ name. some false;
  attributes = λ name. none;
  thumbs = λ name. some [];
}

native_handle_save_error_iff_example :
    ((native_handle_save_error (some empty_store) reserved_save).1
      ≡ releases reserved_save.reservation)
    ↔ ((is_nil reserved_save.reservation ≡ false)
        × (no_uploads reserved_save.uploads ≡ false)
        × ((fs : Filesystem) × (some empty_store ≡ some fs)
            × All (λ u. fs.exists u.name ≡ some false) reserved_save.uploads))
native_handle_save_error_iff_example = native_handle_save_error_iff (some empty_store) reserved_save

-- The store before the update: file 8 with 30 bytes and 5 bytes of variants.
abbrev old_store : Filesystem
old_store = record {
  exists = λ name. some true;
  attributes = λ name. some 30;
  thumbs = λ name. some (some 5 ∷ none ∷ []);
}

abbrev saved : NativeRecord
saved = record replacing { fields = saved_fields }
