-- ===== src/Storage/NativeQuota/Reports.antt =====
-- backend/internal/storage/nativequota.go: settlements and releases against
-- what was reserved and verified.
use pbvex.Base.{
  ℕ, ◌≤◌, ◌<◌, ◌≡◌, ◌≢◌, refl, sym, ap, ◌∙◌, ◌==◌, Bool, Bool-cases, true, false, ◌||◌, ◌↔◌, ◌⊎◌,
  inl, inr, Option, none, some, List, [], ◌∷◌, ◌++◌, any, All, Result, ok, err, sign_bit, arith,
}
use pbvex.Storage.Quota.{
  QuotaError, quota_denied, quota_unavailable, provider_error, Reservation, nil_reservation,
  noop_reservation, held, QuotaReservationRequest, upload, quota_reserve, sanitize,
}
use pbvex.Storage.NativeQuota.Held.{
  total_size, fields_bytes, IsStored, pending_uploads-bytes, is_listed, stored_names_iff,
}
use pbvex.Storage.NativeQuota.{
  NativeUpload, NativeRecord, FileField, pending_uploads, sum_sizes, native_reserve_upload,
  stored_names, is_nil, no_uploads, settles, releases, native_settle_uploads, Filesystem,
  all_absent, native_handle_save_error,
}

abbrev pub every_upload : NativeUpload → Bool
every_upload u = true

abbrev pub is_stored : List FileField → NativeUpload → Bool
is_stored fields u = any (λ n. n == u.name) (stored_names fields)

-- The request of an upload of that many bytes.
abbrev pub upload_request : ℕ → NativeRecord → ℕ → QuotaReservationRequest
upload_request op r bytes = record {
  op_id = op;
  purpose = upload;
  storage_id = 0;
  key = r.base_files_path ++ (b'/' ∷ []);
  worst_case = bytes;
}

-- The request of nativeReserveUpload.
abbrev pub native_request : ℕ → NativeRecord → QuotaReservationRequest
native_request op r = record {
  op_id = op;
  purpose = upload;
  storage_id = 0;
  key = r.base_files_path ++ (b'/' ∷ []);
  worst_case = total_size every_upload (pending_uploads r.fields);
}

total_size-le :
    (p : NativeUpload → Bool) (us : List NativeUpload)
    → total_size p us ≤ total_size every_upload us
total_size-le p [] = omega arith
total_size-le p (u ∷ us) = let ih = total_size-le p us in ground arith

sum_sizes-eq :
    (p : NativeUpload → Bool) (us : List NativeUpload)
    → total_size every_upload us < sign_bit
    → sum_sizes p us ≡ total_size p us
unfolding sum_sizes
sum_sizes-eq p [] h = refl
sum_sizes-eq p (u ∷ us) h =
    let ih = sum_sizes-eq p us (omega arith) in let le = total_size-le p us in ground arith

sanitize-ok :
    (a : Result QuotaError Reservation) {res : Reservation} → sanitize a ≡ ok res → a ≡ ok res
unfolding sanitize
sanitize-ok (ok nil_reservation) h = absurd (ground arith)
sanitize-ok (ok noop_reservation) h = h
sanitize-ok (ok (held id)) h = h
sanitize-ok (err quota_denied) h = absurd (ground arith)
sanitize-ok (err quota_unavailable) h = absurd (ground arith)
sanitize-ok (err provider_error) h = absurd (ground arith)

-- A save has reserved nothing, or exactly its pending uploads.
pub record IsReserved (reserve : QuotaReservationRequest → Result QuotaError Reservation) (op : ℕ)
    (r s : NativeRecord) : Type 0 where
  pub answered : reserve (native_request op r) ≡ ok s.reservation
  pub stashed : s.uploads ≡ pending_uploads r.fields

after_answer :
    (us : List NativeUpload) (r : NativeRecord) {s : NativeRecord}
    (a : Result QuotaError Reservation)
    → (elim a as (λ a. Result QuotaError NativeRecord) [
      | err e ↦ err e
      | ok res ↦ ok (record r { uploads = us; reservation = res })
    ])
      ≡ ok s
    → (a ≡ ok s.reservation) × (s.uploads ≡ us)
after_answer us r (err e) h = absurd (ground arith)
after_answer us r (ok res) h = (ground arith, ground arith)

native_reserve_upload-cases :
    (reserve : QuotaReservationRequest → Result QuotaError Reservation) (op : ℕ) (r : NativeRecord)
    {s : NativeRecord}
    → total_size every_upload (pending_uploads r.fields) < sign_bit
    → native_reserve_upload (some reserve) op r ≡ ok s
    → (s ≡ r) ⊎ IsReserved reserve op r s
unfolding native_reserve_upload quota_reserve
native_reserve_upload-cases reserve op r {s} small =
    rw (sum_sizes-eq every_upload (pending_uploads r.fields) small, native_reserve_upload)
      (elim (Bool-cases (total_size every_upload (pending_uploads r.fields) == 0)) [
        | inl e ↦ rw e (λ h. inl (ground arith))
        | inr e ↦ rw e (λ h.
            let (answer, stash) =
              after_answer (pending_uploads r.fields) r {s = s}
                (sanitize (reserve (native_request op r))) h in
            inr (record { answered = sanitize-ok _ answer; stashed = stash }))
      ])

-- What a settlement says of a save.
settled-report :
    (s : NativeRecord) {res : Reservation} {n : ℕ}
    → (native_settle_uploads s).1 ≡ settles res n
    → (s.reservation ≡ res)
      × (s.reservation ≢ nil_reservation)
      × (n ≡ sum_sizes (is_stored s.fields) s.uploads)
unfolding native_settle_uploads
settled-report s {res} {n} h = elim (Bool-cases (is_nil s.reservation || no_uploads s.uploads)) [
  | inl e ↦ absurd (ground arith)
  | inr e ↦ (ground arith, λ k. ground arith, ground arith)
]

settled_reservation :
    (reserve : QuotaReservationRequest → Result QuotaError Reservation) (op : ℕ)
    (r s : NativeRecord) (fields : List FileField) (res : Reservation) (n : ℕ)
    → total_size every_upload (pending_uploads r.fields) < sign_bit
    → r.reservation ≡ nil_reservation
    → native_reserve_upload (some reserve) op r ≡ ok s
    → (native_settle_uploads (record s { fields = fields })).1 ≡ settles res n
    → (reserve (native_request op r) ≡ ok res)
      × (n ≡ total_size (is_stored fields) (pending_uploads r.fields))
settled_reservation reserve op r s fields res n small clean h k =
    let (same_res, not_nil, bytes) =
      settled-report (record s { fields = fields }) {res = res} {n = n} k in
    elim (native_reserve_upload-cases reserve op r {s = s} small h) [
      | inl e ↦ absurd (not_nil (ap (λ (x : NativeRecord). x.reservation) e ∙ clean))
      | inr i ↦ (
        i.answered ∙ ap ok same_res,
        bytes
            ∙ ap (sum_sizes (is_stored fields)) i.stashed
            ∙ sum_sizes-eq (is_stored fields) (pending_uploads r.fields) small,
      )
    ]

total_size-same :
    (p q : ℕ → Bool) (us : List NativeUpload)
    → ((m : ℕ) → (p m ≡ true) ↔ (q m ≡ true))
    → total_size (λ u. p u.name) us ≡ total_size (λ u. q u.name) us
total_size-same p q [] h = refl
total_size-same p q (u ∷ us) h =
    let ih = total_size-same p q us h in
    let there = (h u.name).0 in
    let back = (h u.name).1 in
    elim (Bool-cases (p u.name)) [
      | inl e ↦ let d = there e in ground arith
      | inr e ↦ elim (Bool-cases (q u.name)) [
        | inl d ↦ let c = back d in ground arith
        | inr d ↦ ground arith
      ]
    ]

-- With an observer and on a record that held no reservation, the reservation that a save settles
-- is the one that the observer made for exactly the bytes of all files that the record's fields
-- hold, if they stay below 2 ^ 63; and it is settled to the bytes of those whose names the saved
-- record holds, whatever the save did to its fields, which is no more than was reserved. A file
-- counts in whichever shape a field holds it, and a negative size counts nothing.
pub native_settle_uploads-IsReserved :
    (reserve : QuotaReservationRequest → Result QuotaError Reservation) (op : ℕ)
    (r s : NativeRecord) (fields : List FileField) (res : Reservation) (n : ℕ) (stored : ℕ → Bool)
    → ((m : ℕ) → (stored m ≡ true) ↔ IsStored fields m)
    → fields_bytes (λ m. true) r.fields < sign_bit
    → r.reservation ≡ nil_reservation
    → native_reserve_upload (some reserve) op r ≡ ok s
    → (native_settle_uploads (record s { fields = fields })).1 ≡ settles res n
    → (reserve (upload_request op r (fields_bytes (λ m. true) r.fields)) ≡ ok res)
      × (n ≡ fields_bytes stored r.fields)
      × (n ≤ fields_bytes (λ m. true) r.fields)
native_settle_uploads-IsReserved reserve op r s fields res n stored decides small clean h k =
    let all = pending_uploads-bytes (λ m. true) r.fields in
    let (answered, bytes) =
      settled_reservation reserve op r s fields res n (omega (arith, all, small)) clean h k in
    let exact : n ≡ fields_bytes stored r.fields =
      bytes
      ∙ total_size-same (λ m. is_listed m (stored_names fields)) stored (pending_uploads r.fields)
          (λ m. (
            λ e. (decides m).1 ((stored_names_iff m fields).0 e),
            λ e. (stored_names_iff m fields).1 ((decides m).0 e),
          ))
      ∙ pending_uploads-bytes stored r.fields in
    (
      ap (λ b. reserve (upload_request op r b)) (sym all) ∙ answered,
      exact,
      omega (arith, bytes, all, total_size-le (is_stored fields) (pending_uploads r.fields)),
    )

all_absent_iff :
    (fs : Filesystem) (us : List NativeUpload)
    → (all_absent fs us ≡ true) ↔ All (λ u. fs.exists u.name ≡ some false) us
unfolding all_absent
all_absent_iff fs us = (found us, gone us)
  where
    found :
        (us : List NativeUpload)
        → all_absent fs us ≡ true
        → All (λ u. fs.exists u.name ≡ some false) us
    found [] h = tt
    found (u ∷ us) h = (ground arith, found us (ground arith))

    gone :
        (us : List NativeUpload)
        → All (λ u. fs.exists u.name ≡ some false) us
        → all_absent fs us ≡ true
    gone [] h = refl
    gone (u ∷ us) h = rw (h.0, all_absent) (gone us h.1)

-- A failed save releases its reservation in this case and no other: it made one for some uploads,
-- the filesystem could be opened, and every uploaded object is answered to be absent.
pub native_handle_save_error_iff :
    (open_fs : Option Filesystem) (r : NativeRecord)
    → ((native_handle_save_error open_fs r).1 ≡ releases r.reservation) ↔ (
        (is_nil r.reservation ≡ false)
        × (no_uploads r.uploads ≡ false)
        × ((fs : Filesystem) × (open_fs ≡ some fs)
            × All (λ u. fs.exists u.name ≡ some false) r.uploads))
unfolding native_handle_save_error
native_handle_save_error_iff none r =
    (λ h. absurd (ground arith), λ (a, b, (fs, e, all)). absurd (ground arith))
native_handle_save_error_iff (some fs) r = (
  λ h. (ground arith, ground arith, (fs, refl, (all_absent_iff fs r.uploads).0 (ground arith))),
  λ (a, b, (gs, e, all)). let absent = (all_absent_iff gs r.uploads).1 all in ground arith,
)
