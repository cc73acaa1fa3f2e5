-- ===== src/Hosting/StorageQuota/Replay.antt =====
-- backend/hosting/storagequota/reference.go: a reservation attempt that is sent again.
use pbvex.Base.{
  ℕ, ◌≡◌, refl, ap, ◌∙◌, Bool-cases, true, false, Option, Option-cases, none, some, List, [], ◌∷◌,
  same, same_eq, same_self, if◌then◌else◌, inl, inr, arith,
}
use pbvex.Sql.{find_row}
use pbvex.Hosting.StorageQuota.{
  ReserveRequest, Decision, SettleRequest, valid_reserve, Status, reserved, settled, released,
  Reservation, QuotaService, decided, same_reserve, find_request, reserve_new, reserve,
  reservation_by_id, update_by_id, mark_settled, mark_released, settle_found, settle, release_found,
  release, credit_new, credit, Call, hello_call, reserve_call, settle_call, release_call,
  credit_call, unknown_path, dispatch, HttpRequest, serve_http, set_capacity,
}

-- The decision that the service remembers for this very request.
unfoldable pub recall : ReserveRequest → List Reservation → Option Decision
recall req [] = none
recall req (r ∷ rs) =
    let rest = recall req rs in
    if same r.request.request_id req.request_id
    then (if same_reserve r.request req then some r.decision else none)
    else rest

recall-find :
    (req : ReserveRequest) (rs : List Reservation) {d : Decision}
    → recall req rs ≡ some d
    → (old : Reservation) × (find_request req.request_id rs ≡ some old)
      × (same_reserve old.request req ≡ true)
      × (old.decision ≡ d)
unfolding recall find_request find_row
recall-find req [] h = absurd (ground arith)
recall-find req (r ∷ rs) h = elim (Bool-cases (same r.request.request_id req.request_id)) [
  | inl e ↦ elim (Bool-cases (same_reserve r.request req)) [
    | inl q ↦ (r, rw e, q, ground arith)
    | inr q ↦ absurd (ground arith)
  ]
  | inr e ↦ rw e (recall-find req rs (ground arith))
]

recall-update_by_id :
    (req : ReserveRequest) (id : List ℕ) (f : Reservation → Reservation) (rs : List Reservation)
    → ((r : Reservation) → ((f r).request ≡ r.request) × ((f r).decision ≡ r.decision))
    → recall req (update_by_id id f rs) ≡ recall req rs
unfolding recall update_by_id
recall-update_by_id req id f [] keep = refl
recall-update_by_id req id f (r ∷ rs) keep = elim (Bool-cases (same r.decision.reservation_id id)) [
  | inl e ↦ rw e (rw ((keep r).0, (keep r).1))
  | inr e ↦ rw e (rw (recall-update_by_id req id f rs keep))
]

-- A request id that is not in the table differs from one that is.
new_id-ne :
    (new req : ReserveRequest) (rs : List Reservation) {d : Decision}
    → find_request new.request_id rs ≡ none
    → recall req rs ≡ some d
    → same new.request_id req.request_id ≡ false
new_id-ne new req rs {d} absent h = elim (Bool-cases (same new.request_id req.request_id)) [
  | inr e ↦ e
  | inl e ↦
      let (old, found, eq, dec) = recall-find req rs h in
      let ids : new.request_id ≡ req.request_id = same_eq new.request_id req.request_id e in
      absurd (ground (arith, ap (λ (i : List ℕ). find_request i rs) ids))
]

reserve_new-recall :
    (req : ReserveRequest) (id : List ℕ) (new : ReserveRequest) (s : QuotaService) {d : Decision}
    → find_request new.request_id s.reservations ≡ none
    → recall req s.reservations ≡ some d
    → recall req (reserve_new id new s).0.reservations ≡ some d
unfolding reserve_new recall
reserve_new-recall req id new s absent h = ground (arith, new_id-ne new req s.reservations absent h)

reserve-recall :
    (req : ReserveRequest) (id : List ℕ) (new : ReserveRequest) (s : QuotaService) {d : Decision}
    → recall req s.reservations ≡ some d
    → recall req (reserve id new s).0.reservations ≡ some d
unfolding reserve
reserve-recall req id new s {d} h =
    elim (Option-cases (find_request new.request_id s.reservations)) [
      | inl e ↦ rw (e, reserve) (reserve_new-recall req id new s e h)
      | inr (old, e) ↦ ground arith
    ]

settle_found-recall :
    (req : ReserveRequest) (call : SettleRequest) (res : Reservation) (st : Status)
    (s : QuotaService) {d : Decision}
    → recall req s.reservations ≡ some d
    → recall req (settle_found call res st s).0.reservations ≡ some d
unfolding settle_found
settle_found-recall req call res settled s h = ground arith
settle_found-recall req call res reserved s h = ground (
  arith,
  recall-update_by_id req call.reservation_id (mark_settled call.bytes) s.reservations
      (λ r. (refl, refl)),
)
settle_found-recall req call res released s h = h

release_found-recall :
    (req : ReserveRequest) (id : List ℕ) (st : Status) (s : QuotaService) {d : Decision}
    → recall req s.reservations ≡ some d
    → recall req (release_found id st s).0.reservations ≡ some d
unfolding release_found
release_found-recall req id settled s h = h
release_found-recall req id reserved s h =
    recall-update_by_id req id mark_released s.reservations (λ r. (refl, refl)) ∙ h
release_found-recall req id released s h = h

dispatch-recall :
    (req : ReserveRequest) (id : List ℕ) (call : Call) (s : QuotaService) {d : Decision}
    → recall req s.reservations ≡ some d
    → recall req (dispatch id call s).0.reservations ≡ some d
unfolding dispatch settle release credit credit_new
dispatch-recall req id (hello_call none) s h = h
dispatch-recall req id (hello_call (some u)) s h = h
dispatch-recall req id (reserve_call none) s h = h
dispatch-recall req id (reserve_call (some new)) s h = ground (arith, reserve-recall req id new s h)
dispatch-recall req id (settle_call none) s h = h
dispatch-recall req id (settle_call (some call)) s h =
    elim (Option-cases (reservation_by_id call.reservation_id s.reservations)) [
      | inl e ↦ ground arith
      | inr (res, e) ↦ ground (arith, settle_found-recall req call res res.status s h)
    ]
dispatch-recall req id (release_call none) s h = h
dispatch-recall req id (release_call (some rid)) s h =
    elim (Option-cases (reservation_by_id rid s.reservations)) [
      | inl e ↦ ground arith
      | inr (res, e) ↦ ground (arith, release_found-recall req rid res.status s h)
    ]
dispatch-recall req id (credit_call none) s h = h
dispatch-recall req id (credit_call (some call)) s h = ground arith
dispatch-recall req id unknown_path s h = h

-- Any sequence of requests and changes of the capacity.
pub data Runs (s : QuotaService) : QuotaService → Type 0 where
  here : Runs s s
  served :
      {t : QuotaService} → Runs s t → (id : List ℕ) (r : HttpRequest) → Runs s (serve_http id r t).0
  resized : {t : QuotaService} → Runs s t → (n : ℕ) → Runs s (set_capacity n t)

serve_http-recall :
    (req : ReserveRequest) (id : List ℕ) (r : HttpRequest) (s : QuotaService) {d : Decision}
    → recall req s.reservations ≡ some d
    → recall req (serve_http id r s).0.reservations ≡ some d
unfolding serve_http
serve_http-recall req id r s h = ground (arith, dispatch-recall req id r.call s h)

Runs-recall :
    (req : ReserveRequest) {s t : QuotaService} {d : Decision}
    → Runs s t
    → recall req s.reservations ≡ some d
    → recall req t.reservations ≡ some d
unfolding set_capacity
Runs-recall req here h = h
Runs-recall req (served run id r) h = serve_http-recall req id r _ (Runs-recall req run h)
Runs-recall req (resized run n) h = Runs-recall req run h

abbrev pub reserve_post : ReserveRequest → HttpRequest
reserve_post req = record { post = true; json = true; small = true; call = reserve_call (some req) }

find-recall :
    (req : ReserveRequest) (rs : List Reservation) {old : Reservation}
    → find_request req.request_id rs ≡ some old
    → same_reserve old.request req ≡ true
    → recall req rs ≡ some old.decision
unfolding recall find_request find_row
find-recall req [] h eq = absurd (ground arith)
find-recall req (r ∷ rs) {old} h eq = elim (Bool-cases (same r.request.request_id req.request_id)) [
  | inl e ↦ rw e (ground arith)
  | inr e ↦ rw e (find-recall req rs {old = old} (ground arith) eq)
]

same_reserve_self : (req : ReserveRequest) → same_reserve req req ≡ true
unfolding same_reserve
same_reserve_self req = ground (
  arith,
  same_self req.request_id,
  same_self req.purpose,
  same_self req.storage_id,
  same_self req.key,
)

reserve_new-decided :
    (req : ReserveRequest) (id : List ℕ) (s : QuotaService) {t : QuotaService} {d : Decision}
    → reserve_new id req s ≡ (t, decided d)
    → recall req t.reservations ≡ some d
unfolding reserve_new recall
reserve_new-decided req id s h = ground (arith, same_self req.request_id, same_reserve_self req)

reserve-decided :
    (req : ReserveRequest) (id : List ℕ) (s : QuotaService) {t : QuotaService} {d : Decision}
    → reserve id req s ≡ (t, decided d)
    → recall req t.reservations ≡ some d
unfolding reserve
reserve-decided req id s {t} {d} h =
    elim (Option-cases (find_request req.request_id s.reservations)) [
      | inl e ↦ reserve_new-decided req id s {t = t} {d = d} (ground arith)
      | inr (old, e) ↦ elim (Bool-cases (same_reserve old.request req)) [
        | inl q ↦ ground (arith, find-recall req s.reservations e q)
        | inr q ↦ absurd (ground arith)
      ]
    ]

-- A decision is remembered from the moment it is sent.
decided-recall :
    (req : ReserveRequest) (id : List ℕ) (s : QuotaService) {t : QuotaService} {d : Decision}
    → serve_http id (reserve_post req) s ≡ (t, decided d)
    → (recall req t.reservations ≡ some d) × (valid_reserve req ≡ true)
unfolding serve_http dispatch
decided-recall req id s {t} {d} h = elim (Bool-cases (valid_reserve req)) [
  | inl e ↦ (reserve-decided req id s {t = t} {d = d} (ground arith), e)
  | inr e ↦ absurd (ground arith)
]

-- A remembered decision is the answer, and nothing changes.
recall-serves :
    (req : ReserveRequest) (id : List ℕ) (s : QuotaService) {d : Decision}
    → valid_reserve req ≡ true
    → recall req s.reservations ≡ some d
    → serve_http id (reserve_post req) s ≡ (s, decided d)
unfolding serve_http dispatch reserve
recall-serves req id s valid h =
    let (old, found, eq, dec) = recall-find req s.reservations h in ground arith

-- A reservation attempt is idempotent: once it has been answered with a decision, the same request
-- gets the same decision after any sequence of other requests and changes of the capacity, and
-- changes nothing.
pub serve_http_idem :
    (req : ReserveRequest) (id again : List ℕ) (s : QuotaService) {t u : QuotaService}
    {d : Decision}
    → serve_http id (reserve_post req) s ≡ (t, decided d)
    → Runs t u
    → serve_http again (reserve_post req) u ≡ (u, decided d)
serve_http_idem req id again s h run =
    let (first, valid) = decided-recall req id s h in
    recall-serves req again _ valid (Runs-recall req run first)
