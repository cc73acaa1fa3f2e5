-- ===== src/Hosting/Reference.antt =====
-- backend/hosting/reference.go: ReferenceService. A map is a list; what JSON decoding yields is an
-- argument.
pub mod History
pub mod Ledger
use pbvex.Base.{
  ℕ, zero, suc, ◌+◌, ◌*◌, ◌==◌, leb, ltb, Bool, true, false, not, ◌&&◌, ◌||◌, Option, none, some,
  List, [], ◌∷◌, length, any, codes, same, wrap, lt_i64, le_i64, if◌then◌else◌,
}
use pbvex.Sql.{find_row}
use pbvex.Hosting.Token.{token, optional_token}
use pbvex.Hosting.Protocol.{
  AdmissionRequest, Event, Operation, Outcome, Phase, Verdict, admitted, canceled, completed, empty,
  error, other, outcome_number, phase_number, released, same_admission, same_event, same_operation,
  started, success, timeout, valid_admission, valid_event, valid_operation, valid_phase,
}

-- referenceAdmission
pub record Admission : Type 0 where
  pub request : AdmissionRequest
  pub decision : Verdict

pub record ReferenceService : Type 0 where
  pub policy : List (List ℕ × Bool)
  pub version : List ℕ
  pub limit : ℕ
  pub admissions : List Admission
  pub events : List Event
  pub states : List (List ℕ × Phase)

unfoldable pub new_reference_service : ℕ → ReferenceService
new_reference_service limit = record {
  policy = [];
  version = codes "initial";
  limit = if lt_i64 limit 1 then 1000 else limit;
  admissions = [];
  events = [];
  states = [];
}

abbrev pub all_tokens : List (List ℕ × Bool) → Bool
all_tokens [] = true
all_tokens ((k, v) ∷ ps) = token k && all_tokens ps

-- SetPolicy: the service after it, and whether there was no error.
unfoldable pub set_policy :
    List ℕ → List (List ℕ × Bool) → ReferenceService → ReferenceService × Bool
set_policy version capabilities s =
    if token version && all_tokens capabilities
    then (record s { policy = capabilities; version = version }, true)
    else (s, false)

-- s.policy[capability], which is false where it is missing.
unfoldable pub granted : List ℕ → List (List ℕ × Bool) → Bool
granted c [] = false
granted c ((k, v) ∷ ps) = let rest = granted c ps in if same k c then v else rest

unfoldable pub decision : List ℕ → ReferenceService → Verdict
unfolding granted
decision c s = record {
  allowed = granted c s.policy;
  policy_version = s.version;
  reservation_id = [];
}

-- s.states[id]
unfoldable pub state_of : List ℕ → List (List ℕ × Phase) → Option Phase
state_of r [] = none
state_of r ((k, p) ∷ ps) = let rest = state_of r ps in if same k r then some p else rest

unfoldable pub set_state : List ℕ → Phase → List (List ℕ × Phase) → List (List ℕ × Phase)
set_state r p [] = (r, p) ∷ []
set_state r p ((k, q) ∷ ps) =
    let rest = set_state r p ps in if same k r then (k, p) ∷ ps else (k, q) ∷ rest

-- What ServeHTTP writes: a status code of fail, or the body of a success.
pub data Reply : Type 0 where
  failed : ℕ → Reply
  hello : List (List ℕ × Bool) → Reply
  verdict : Verdict → Reply
  ack : List ℕ → Reply

-- The admission of a request whose id is new; `id` is NewID().
unfoldable pub admit_new : List ℕ → AdmissionRequest → ReferenceService → ReferenceService × Reply
unfolding decision set_state
admit_new id req s =
    let d = decision req.capability s in
    let reserved = record d { reservation_id = id } in
    if leb s.limit (length s.admissions)
    then (s, failed 503)
    else if any
        (λ old.
          same old.request.operation.id req.operation.id
          && same old.request.operation.session_id req.operation.session_id)
        s.admissions
    then (s, failed 409)
    else if d.allowed
    then (
      record s {
        states = set_state id admitted s.states;
        admissions = record { request = req; decision = reserved } ∷ s.admissions;
      },
      verdict reserved,
    )
    else (
      record s { admissions = record { request = req; decision = d } ∷ s.admissions },
      verdict d,
    )

unfoldable pub admit : List ℕ → AdmissionRequest → ReferenceService → ReferenceService × Reply
unfolding admit_new
admit id req s = elim (find_row (λ a. same a.request.request_id req.request_id) s.admissions) [
  | some old ↦ if same_admission old.request req then (s, verdict old.decision) else (s, failed 409)
  | none ↦ admit_new id req s
]

-- The phases that may follow each other.
unfoldable pub may_follow : Option Phase → Phase → Bool
may_follow (some admitted) started = true
may_follow (some admitted) released = true
may_follow (some started) completed = true
may_follow st p = false

-- The admission is of the event's operation and under its policy version.
unfoldable pub covers : Event → Admission → Bool
unfolding same_operation
covers e a =
    same_operation a.request.operation e.operation
    && same a.decision.policy_version e.policy_version

-- An event whose id is new.
unfoldable pub record_event : Event → ReferenceService → ReferenceService × Reply
unfolding state_of set_state may_follow covers
record_event e s =
    if le_i64 (wrap (s.limit * 3)) (length s.events)
    then (s, failed 503)
    else elim (find_row (λ a. same a.decision.reservation_id e.reservation_id) s.admissions) [
      | none ↦ (s, failed 409)
      | some a ↦
          if not (covers e a)
          then (s, failed 409)
          else if any
              (λ old.
                same old.operation.session_id e.operation.session_id && old.sequence == e.sequence)
              s.events
          then (s, failed 409)
          else if may_follow (state_of e.reservation_id s.states) e.phase
          then (
            record s {
              events = e ∷ s.events;
              states = set_state e.reservation_id e.phase s.states;
            },
            ack e.event_id,
          )
          else (s, failed 409)
    ]

unfoldable pub report : Event → ReferenceService → ReferenceService × Reply
unfolding record_event
report e s = elim (find_row (λ old. same old.event_id e.event_id) s.events) [
  | some old ↦ if same_event old e then (s, ack e.event_id) else (s, failed 409)
  | none ↦ record_event e s
]

-- A request by its path, with what decode makes of the body: `none` is an error.
pub data Call : Type 0 where
  hello_call : Bool → Call
  check_call : Option (List ℕ) → Call
  admit_call : Option AdmissionRequest → Call
  event_call : Option Event → Call
  unknown_path : Call

unfoldable pub handle : List ℕ → Call → ReferenceService → ReferenceService × Reply
unfolding admit report decision valid_admission valid_event
handle id (hello_call decoded) s = if decoded then (s, hello s.policy) else (s, failed 400)
handle id (check_call none) s = (s, failed 400)
handle id (check_call (some c)) s = if token c then (s, verdict (decision c s)) else (s, failed 400)
handle id (admit_call none) s = (s, failed 400)
handle id (admit_call (some req)) s =
    if valid_admission req then admit id req s else (s, failed 400)
handle id (event_call none) s = (s, failed 400)
handle id (event_call (some e)) s = if valid_event e then report e s else (s, failed 400)
handle id unknown_path s = (s, failed 426)

-- ServeHTTP: the method, the content type and the size of the body, and then the path.
unfoldable pub serve :
    Bool → Bool → Bool → List ℕ → Call → ReferenceService → ReferenceService × Reply
unfolding handle
serve post json small id call s =
    if not post
    then (s, failed 405)
    else if not json
    then (s, failed 415)
    else if not small
    then (s, failed 413)
    else handle id call s
