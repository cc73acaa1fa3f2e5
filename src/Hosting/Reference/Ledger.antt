-- ===== src/Hosting/Reference/Ledger.antt =====
-- backend/hosting/reference.go: the admissions and events over any sequence of requests.
use pbvex.Base.{
  ℕ, ◌*◌, ◌≤◌, ◌<◌, ◌≡◌, leb, Bool, Bool-cases, Option-cases, true, false, not, ◌&&◌, inl, inr,
  none, some, List, ◌∷◌, length, any, All, same, wrap, le_i64, sign_bit, arith, if◌then◌else◌,
}
use pbvex.Sql.{find_row}
use pbvex.Hosting.Token.{token}
use pbvex.Hosting.Reference.{
  Admission, ReferenceService, all_tokens, set_policy, state_of, set_state, Reply, decision,
  admit_new, admit, may_follow, covers, record_event, report, Call, hello_call, check_call,
  admit_call, event_call, unknown_path, handle, serve,
}
use pbvex.Hosting.Protocol.{AdmissionRequest, Phase, Event, valid_admission, valid_event}
use pbvex.Hosting.Reference.History.{
  All-covered, Apart, admitted-path, find-covered, history, history-path, is_for, path,
  same_invocation, takes_place,
}

pub record IsOrderly (s : ReferenceService) : Type 0 where
  pub lifecycle : (r : List ℕ) → history r s.events ≡ path (state_of r s.states)
  pub covered : All (λ e. any (is_for e) s.admissions ≡ true) s.events
  pub sequenced : Apart takes_place s.events
  pub single : Apart same_invocation s.admissions
  pub admissions : length s.admissions ≤ s.limit
  pub events : length s.events ≤ s.limit * 3
  pub range : s.limit * 3 < sign_bit

-- Any sequence of requests and policies. NewID gives an id that names no reservation yet.
pub data Serving (s : ReferenceService) : ReferenceService → Type 0 where
  here : Serving s s
  serves :
      {t : ReferenceService}
      → Serving s t
      → (post json small : Bool) (id : List ℕ) (call : Call) → state_of id t.states ≡ none
      → Serving s (serve post json small id call t).0
  sets :
      {t : ReferenceService}
      → Serving s t
      → (version : List ℕ) (capabilities : List (List ℕ × Bool))
      → Serving s (set_policy version capabilities t).0

-- A request that is admitted, with or without a reservation.
admits-IsOrderly :
    (a : Admission) (states : List (List ℕ × Phase)) (s : ReferenceService)
    → IsOrderly s
    → ((r : List ℕ) → history r s.events ≡ path (state_of r states))
    → leb s.limit (length s.admissions) ≡ false
    → any (same_invocation a) s.admissions ≡ false
    → IsOrderly (record s { states = states; admissions = a ∷ s.admissions })
admits-IsOrderly a states s h lifecycle room alone = record {
  lifecycle = lifecycle;
  covered = All-covered a s.admissions s.events h.covered;
  sequenced = h.sequenced;
  single = (alone, h.single);
  admissions = ground arith;
  events = h.events;
  range = h.range;
}

admit_new-IsOrderly :
    (id : List ℕ) (req : AdmissionRequest) (s : ReferenceService)
    → state_of id s.states ≡ none
    → IsOrderly s
    → IsOrderly (admit_new id req s).0
unfolding admit_new
admit_new-IsOrderly id req s fresh h =
    let a : Admission = record { request = req; decision = decision req.capability s } in
    elim (Bool-cases (leb s.limit (length s.admissions))) [
      | inl full ↦ simp full h
      | inr room ↦ elim (Bool-cases (any (same_invocation a) s.admissions)) [
        | inl taken ↦ simp (room, taken) h
        | inr alone ↦ elim (Bool-cases (decision req.capability s).allowed) [
          | inl allowed ↦
              simp (room, alone, allowed)
                (admits-IsOrderly _ _ s h (λ r. admitted-path id r s fresh (h.lifecycle r)) room
                  alone)
          | inr refused ↦
              simp (room, alone, refused) (admits-IsOrderly _ _ s h h.lifecycle room alone)
        ]
      ]
    ]

admit-IsOrderly :
    (id : List ℕ) (req : AdmissionRequest) (s : ReferenceService)
    → state_of id s.states ≡ none
    → IsOrderly s
    → IsOrderly (admit id req s).0
unfolding admit
admit-IsOrderly id req s fresh h =
    elim (Option-cases (find_row (λ a. same a.request.request_id req.request_id) s.admissions)) [
      | inr (old, e) ↦ ground arith
      | inl e ↦ rw (e, admit) (admit_new-IsOrderly id req s fresh h)
    ]

records-IsOrderly :
    (e : Event) (a : Admission) (s : ReferenceService)
    → IsOrderly s
    → find_row (λ a. same a.decision.reservation_id e.reservation_id) s.admissions ≡ some a
    → covers e a ≡ true
    → le_i64 (wrap (s.limit * 3)) (length s.events) ≡ false
    → any (takes_place e) s.events ≡ false
    → may_follow (state_of e.reservation_id s.states) e.phase ≡ true
    → IsOrderly
        (record s { events = e ∷ s.events; states = set_state e.reservation_id e.phase s.states })
records-IsOrderly e a s h found cover room new next_phase = record {
  lifecycle = λ r. history-path e s r (h.lifecycle r) (h.lifecycle e.reservation_id) next_phase;
  covered = (find-covered e s.admissions found cover, h.covered);
  sequenced = (new, h.sequenced);
  single = h.single;
  admissions = h.admissions;
  events = let le = h.events in let range = h.range in ground arith;
  range = h.range;
}

record_event-IsOrderly :
    (e : Event) (s : ReferenceService) → IsOrderly s → IsOrderly (record_event e s).0
unfolding record_event
record_event-IsOrderly e s h = elim (Bool-cases (le_i64 (wrap (s.limit * 3)) (length s.events))) [
  | inl full ↦ rw (full, record_event) h
  | inr room ↦
      elim (Option-cases
        (find_row (λ a. same a.decision.reservation_id e.reservation_id) s.admissions)) [
          | inl missing ↦ rw (room, missing, record_event) h
          | inr (a, found) ↦ elim (Bool-cases (covers e a)) [
            | inr foreign ↦ rw (room, found, foreign, record_event) h
            | inl cover ↦ elim (Bool-cases (any (takes_place e) s.events)) [
              | inl taken ↦ rw (room, found, cover, taken, record_event) h
              | inr new ↦
                  elim (Bool-cases (may_follow (state_of e.reservation_id s.states) e.phase)) [
                    | inr bad ↦ rw (room, found, cover, new, bad, record_event) h
                    | inl good ↦
                        rw (room, found, cover, new, good, record_event)
                          (records-IsOrderly e a s h found cover room new good)
                  ]
            ]
          ]
        ]
]

report-IsOrderly : (e : Event) (s : ReferenceService) → IsOrderly s → IsOrderly (report e s).0
unfolding report
report-IsOrderly e s h =
    elim (Option-cases (find_row (λ old. same old.event_id e.event_id) s.events)) [
      | inr (old, k) ↦ ground arith
      | inl k ↦ rw (k, report) (record_event-IsOrderly e s h)
    ]

branches-IsOrderly :
    (b : Bool) (x y : ReferenceService × Reply)
    → IsOrderly x.0
    → IsOrderly y.0
    → IsOrderly (if b then x else y).0
branches-IsOrderly true x y h k = h
branches-IsOrderly false x y h k = k

handle-IsOrderly :
    (id : List ℕ) (call : Call) (s : ReferenceService)
    → state_of id s.states ≡ none
    → IsOrderly s
    → IsOrderly (handle id call s).0
unfolding handle
handle-IsOrderly id (hello_call d) s fresh h = branches-IsOrderly d _ _ h h
handle-IsOrderly id (check_call none) s fresh h = h
handle-IsOrderly id (check_call (some c)) s fresh h = branches-IsOrderly (token c) _ _ h h
handle-IsOrderly id (admit_call none) s fresh h = h
handle-IsOrderly id (admit_call (some req)) s fresh h =
    branches-IsOrderly (valid_admission req) _ _ (admit-IsOrderly id req s fresh h) h
handle-IsOrderly id (event_call none) s fresh h = h
handle-IsOrderly id (event_call (some e)) s fresh h =
    branches-IsOrderly (valid_event e) _ _ (report-IsOrderly e s h) h
handle-IsOrderly id unknown_path s fresh h = h

serve-IsOrderly :
    (post json small : Bool) (id : List ℕ) (call : Call) (s : ReferenceService)
    → state_of id s.states ≡ none
    → IsOrderly s
    → IsOrderly (serve post json small id call s).0
unfolding serve
serve-IsOrderly post json small id call s fresh h = branches-IsOrderly (not post) _ _ h (
    branches-IsOrderly (not json) _ _ h
      (branches-IsOrderly (not small) _ _ h (handle-IsOrderly id call s fresh h)))

set_policy-IsOrderly :
    (version : List ℕ) (capabilities : List (List ℕ × Bool)) (s : ReferenceService)
    → IsOrderly s
    → IsOrderly (set_policy version capabilities s).0
unfolding set_policy
set_policy-IsOrderly version capabilities s h =
    elim (Bool-cases (token version && all_tokens capabilities)) [
      | inr e ↦ rw (e, set_policy) h
      | inl e ↦
          rw (e, set_policy)
            (record {
              lifecycle = h.lifecycle;
              covered = h.covered;
              sequenced = h.sequenced;
              single = h.single;
              admissions = h.admissions;
              events = h.events;
              range = h.range;
            })
    ]

-- From an orderly service, such as a new one, over any sequence of requests and policies, if NewID
-- names no reservation yet: the events of each reservation are none, its start, its start and
-- completion, or its release, in that order, as its state says; each event is of the operation
-- that its reservation admitted, under the same policy version; no session uses a sequence number
-- twice and no invocation is admitted twice; and there are at most limit admissions and three
-- times as many events, where three times the limit is below 2 ^ 63.
pub Serving-IsOrderly : {s t : ReferenceService} → Serving s t → IsOrderly s → IsOrderly t
Serving-IsOrderly here h = h
Serving-IsOrderly (serves run post json small id call fresh) h =
    serve-IsOrderly post json small id call _ fresh (Serving-IsOrderly run h)
Serving-IsOrderly (sets run version capabilities) h =
    set_policy-IsOrderly version capabilities _ (Serving-IsOrderly run h)
