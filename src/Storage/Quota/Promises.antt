-- ===== src/Storage/Quota/Promises.antt =====
-- backend/internal/storage/quota.go: what the service promises the host's quota service.
use pbvex.Base.{
  ◌↔◌, ◌⊎◌, inl, refl, [], ◌∷◌, ℕ, zero, suc, ◌≡◌, ◌≢◌, ◌≤◌, ◌<◌, Bool, true, false, Option, none,
  some, List, Result, ok, err, arith, pos,
}
use pbvex.Storage.Quota.{
  QuotaError, quota_denied, quota_unavailable, provider_error, Reservation, nil_reservation,
  noop_reservation, held, QuotaReservationRequest, quota_reserve, deliver_loop, Delivery,
  quota_settle, quota_release, quota_credit, release_reservation_if_gone, upload, admit, sanitize,
  reserve_quota_for_upload,
}

-- A delivery of one to three calls that follow one another: every call but the last one failed,
-- none but the last one was denied where a denial ends it, and a delivery without a warning that
-- made a call ends with one that was accepted.
pub record IsDelivered (stops : Bool) (answer : ℕ → Option QuotaError) (d : Delivery) : Type 0 where
  pub called : 0 < d.calls
  pub calls : d.calls ≤ 3
  pub failed : (k : ℕ) → suc k < d.calls → answer k ≢ none
  pub refused : (k : ℕ) → suc k < d.calls → stops ≡ true → answer k ≢ some quota_denied
  pub accepted : (k : ℕ) → d.calls ≡ suc k → d.warning ≡ none → answer k ≡ none
  pub warned : (k : ℕ) → d.calls ≡ suc k → d.warning ≢ none → answer k ≢ none

failed-attempt :
    (stops : Bool) (answer : ℕ → Option QuotaError) (k : ℕ)
    → suc k < (deliver_loop stops answer 3 0 provider_error).calls
    → answer k ≢ none
unfolding deliver_loop
failed-attempt stops answer zero h = ground arith
failed-attempt stops answer (suc zero) h = ground arith
failed-attempt stops answer (suc (suc k)) h = ground arith

refused-attempt :
    (stops : Bool) (answer : ℕ → Option QuotaError) (k : ℕ)
    → suc k < (deliver_loop stops answer 3 0 provider_error).calls
    → stops ≡ true
    → answer k ≢ some quota_denied
unfolding deliver_loop
refused-attempt stops answer zero h s = ground arith
refused-attempt stops answer (suc zero) h s = ground arith
refused-attempt stops answer (suc (suc k)) h s = ground arith

accepted-attempt :
    (stops : Bool) (answer : ℕ → Option QuotaError) (k : ℕ)
    → (deliver_loop stops answer 3 0 provider_error).calls ≡ suc k
    → (deliver_loop stops answer 3 0 provider_error).warning ≡ none
    → answer k ≡ none
unfolding deliver_loop
accepted-attempt stops answer zero h w = ground arith
accepted-attempt stops answer (suc zero) h w = ground arith
accepted-attempt stops answer (suc (suc zero)) h w = ground arith
accepted-attempt stops answer (suc (suc (suc k))) h w = ground arith

warned-attempt :
    (stops : Bool) (answer : ℕ → Option QuotaError) (k : ℕ)
    → (deliver_loop stops answer 3 0 provider_error).calls ≡ suc k
    → (deliver_loop stops answer 3 0 provider_error).warning ≢ none
    → answer k ≢ none
unfolding deliver_loop
warned-attempt stops answer zero h w = ground arith
warned-attempt stops answer (suc zero) h w = ground arith
warned-attempt stops answer (suc (suc zero)) h w = ground arith
warned-attempt stops answer (suc (suc (suc k))) h w = ground arith

three_attempts :
    (stops : Bool) (answer : ℕ → Option QuotaError)
    → IsDelivered stops answer (deliver_loop stops answer 3 0 provider_error)
unfolding deliver_loop
three_attempts stops answer = record {
  called = ground arith;
  calls = ground arith;
  failed = failed-attempt stops answer;
  refused = refused-attempt stops answer;
  accepted = accepted-attempt stops answer;
  warned = warned-attempt stops answer;
}

quota_credit-delivers :
    (freed : ℕ) (credit : ℕ → Option QuotaError)
    → quota_credit true (pos (suc freed)) credit ≡ deliver_loop false credit 3 0 provider_error
unfolding quota_credit
quota_credit-delivers freed credit = ground arith

-- A settlement of a held reservation with a size that is not negative, its release, and a credit
-- of a positive size make one to three calls, stop at the first accepted one (settlement and
-- release at the first denial too), and end without a warning only on an accepted call.
pub deliveries-IsDelivered :
    (id actual freed : ℕ) (settle release credit : ℕ → Option QuotaError)
    → IsDelivered true settle (quota_settle (held id) (pos actual) settle)
      × IsDelivered true release (quota_release (held id) release)
      × IsDelivered false credit (quota_credit true (pos (suc freed)) credit)
unfolding quota_settle quota_release
deliveries-IsDelivered id actual freed settle release credit = (
  three_attempts true settle,
  three_attempts true release,
  rw (quota_credit-delivers freed credit) (three_attempts false credit),
)

released_iff :
    (exists : Option Bool) (key : List ℕ) (res : Reservation) (release : ℕ → Option QuotaError)
    → ((release_reservation_if_gone exists key res release).0 ≡ true)
      ↔ ((exists ≡ some false) × (key ≢ []) × ((id : ℕ) × (res ≡ held id)))
unfolding release_reservation_if_gone
released_iff none key res release = (λ h. absurd (ground arith), λ (e, k, r). absurd (ground arith))
released_iff (some true) key res release =
    (λ h. absurd (ground arith), λ (e, k, r). absurd (ground arith))
released_iff (some false) [] res release =
    (λ h. absurd (ground arith), λ (e, k, r). absurd (k refl))
released_iff (some false) (c ∷ cs) nil_reservation release =
    (λ h. absurd (ground arith), λ (e, k, (id, r)). absurd (ground arith))
released_iff (some false) (c ∷ cs) noop_reservation release =
    (λ h. absurd (ground arith), λ (e, k, (id, r)). absurd (ground arith))
released_iff (some false) (c ∷ cs) (held id) release =
    (λ h. (refl, λ e. ground arith, (id, refl)), λ k. refl)

released_calls :
    (exists : Option Bool) (key : List ℕ) (res : Reservation) (release : ℕ → Option QuotaError)
    → (((release_reservation_if_gone exists key res release).0 ≡ true)
        × IsDelivered true release (release_reservation_if_gone exists key res release).1)
      ⊎ (((release_reservation_if_gone exists key res release).0 ≡ false)
          × ((release_reservation_if_gone exists key res release).1.calls ≡ 0))
unfolding release_reservation_if_gone quota_release
released_calls none [] res release = ground arith
released_calls none (c ∷ cs) nil_reservation release = ground arith
released_calls none (c ∷ cs) noop_reservation release = ground arith
released_calls none (c ∷ cs) (held id) release = ground arith
released_calls (some true) [] res release = ground arith
released_calls (some true) (c ∷ cs) nil_reservation release = ground arith
released_calls (some true) (c ∷ cs) noop_reservation release = ground arith
released_calls (some true) (c ∷ cs) (held id) release = ground arith
released_calls (some false) [] res release = ground arith
released_calls (some false) (c ∷ cs) nil_reservation release = ground arith
released_calls (some false) (c ∷ cs) noop_reservation release = ground arith
released_calls (some false) (c ∷ cs) (held id) release = inl (refl, three_attempts true release)

-- The cleanup path reports a release exactly where the filesystem has answered that a key that is
-- not empty does not exist and the reservation is one that an observer made; it then delivers the
-- release to the provider, with one to three calls, and otherwise it makes no call.
pub release_reservation_if_gone_iff :
    (exists : Option Bool) (key : List ℕ) (res : Reservation) (release : ℕ → Option QuotaError)
    → (((release_reservation_if_gone exists key res release).0 ≡ true)
        ↔ ((exists ≡ some false) × (key ≢ []) × ((id : ℕ) × (res ≡ held id))))
      × ((((release_reservation_if_gone exists key res release).0 ≡ true)
            × IsDelivered true release (release_reservation_if_gone exists key res release).1)
          ⊎ (((release_reservation_if_gone exists key res release).0 ≡ false)
              × ((release_reservation_if_gone exists key res release).1.calls ≡ 0)))
release_reservation_if_gone_iff exists key res release =
    (released_iff exists key res release, released_calls exists key res release)

admitted :
    (r : Result QuotaError Reservation) (res : Reservation)
    → admit (sanitize r) ≡ ok res
    → (r ≡ ok res) × (res ≢ nil_reservation)
unfolding admit sanitize
admitted (ok nil_reservation) res h = ground arith
admitted (ok noop_reservation) res h = ground arith
admitted (ok (held id)) res h = ground arith
admitted (err quota_denied) res h = ground arith
admitted (err quota_unavailable) res h = ground arith
admitted (err provider_error) res h = ground arith

-- With an observer attached, an upload is admitted only with a reservation that the observer
-- itself made for this operation, the upload purpose, the stage key and the worst case, and that
-- is not nil.
pub reserve_quota_for_upload-admitted :
    (reserve : QuotaReservationRequest → Result QuotaError Reservation) (op storage_id : ℕ)
    (stage_key : List ℕ) (max_size : ℕ) (res : Reservation)
    → reserve_quota_for_upload (some reserve) op storage_id stage_key max_size ≡ ok res
    → (reserve (record {
      op_id = op;
      purpose = upload;
      storage_id = storage_id;
      key = stage_key;
      worst_case = max_size;
    })
        ≡ ok res)
      × (res ≢ nil_reservation)
unfolding reserve_quota_for_upload quota_reserve
reserve_quota_for_upload-admitted reserve op storage_id stage_key max_size res h =
    admitted (reserve _) res h
