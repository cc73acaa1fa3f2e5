-- ===== src/Hosting/Protocol.antt =====
-- backend/hosting/client.go: the requests and events of the policy protocol and their checks. A phase
-- or an outcome that the source does not name is `other`, and an instant is a number, 0 for the
-- zero time.
use pbvex.Base.{ℕ, ◌==◌, ltb, Bool, true, false, not, ◌&&◌, List, same, le_i64}
use pbvex.Hosting.Token.{token, optional_token}

pub record Operation : Type 0 where
  pub id : List ℕ
  pub root_id : List ℕ
  pub parent_id : List ℕ
  pub session_id : List ℕ
  pub kind : List ℕ
  pub origin : List ℕ
  pub deployment_id : List ℕ
  pub function_name : List ℕ
  pub namespace : List ℕ

pub record AdmissionRequest : Type 0 where
  pub request_id : List ℕ
  pub capability : List ℕ
  pub operation : Operation

-- Decision; the code is "allowed" or "denied" as `allowed` says.
pub record Verdict : Type 0 where
  pub allowed : Bool
  pub policy_version : List ℕ
  pub reservation_id : List ℕ

-- The phases of an event, and "admitted" of a reservation.
pub data Phase : Type 0 where
  admitted started completed released other : Phase

pub data Outcome : Type 0 where
  empty success error timeout canceled other : Outcome

pub record Event : Type 0 where
  pub event_id : List ℕ
  pub sequence : ℕ
  pub operation : Operation
  pub reservation_id : List ℕ
  pub policy_version : List ℕ
  pub phase : Phase
  pub outcome : Outcome
  pub at : ℕ
  pub duration_micros : ℕ

unfoldable pub valid_operation : Operation → Bool
unfolding optional_token
valid_operation o =
    token o.id
    && token o.root_id
    && optional_token o.parent_id
    && token o.session_id
    && token o.kind
    && token o.origin
    && optional_token o.deployment_id
    && optional_token o.function_name
    && optional_token o.namespace

unfoldable pub valid_admission : AdmissionRequest → Bool
unfolding valid_operation
valid_admission r = token r.request_id && token r.capability && valid_operation r.operation

-- The phase with its outcome and duration.
unfoldable pub valid_phase : Phase → Outcome → ℕ → Bool
valid_phase started empty d = d == 0
valid_phase completed success d = true
valid_phase completed error d = true
valid_phase completed timeout d = true
valid_phase completed canceled d = true
valid_phase released canceled d = d == 0
valid_phase p o d = false

unfoldable pub valid_event : Event → Bool
unfolding valid_operation valid_phase
valid_event e =
    token e.event_id
    && ltb 0 e.sequence
    && valid_operation e.operation
    && token e.reservation_id
    && token e.policy_version
    && not (e.at == 0)
    && le_i64 0 e.duration_micros
    && valid_phase e.phase e.outcome e.duration_micros

-- reflect.DeepEqual on operations, admissions and events.
unfoldable pub same_operation : Operation → Operation → Bool
same_operation a b =
    same a.id b.id
    && same a.root_id b.root_id
    && same a.parent_id b.parent_id
    && same a.session_id b.session_id
    && same a.kind b.kind
    && same a.origin b.origin
    && same a.deployment_id b.deployment_id
    && same a.function_name b.function_name
    && same a.namespace b.namespace

unfoldable pub same_admission : AdmissionRequest → AdmissionRequest → Bool
unfolding same_operation
same_admission a b =
    same a.request_id b.request_id
    && same a.capability b.capability
    && same_operation a.operation b.operation

abbrev pub phase_number : Phase → ℕ
phase_number admitted = 0
phase_number started = 1
phase_number completed = 2
phase_number released = 3
phase_number other = 4

abbrev pub outcome_number : Outcome → ℕ
outcome_number empty = 0
outcome_number success = 1
outcome_number error = 2
outcome_number timeout = 3
outcome_number canceled = 4
outcome_number other = 5

unfoldable pub same_event : Event → Event → Bool
unfolding same_operation
same_event a b =
    same a.event_id b.event_id
    && a.sequence == b.sequence
    && same_operation a.operation b.operation
    && same a.reservation_id b.reservation_id
    && same a.policy_version b.policy_version
    && phase_number a.phase == phase_number b.phase
    && outcome_number a.outcome == outcome_number b.outcome
    && a.at == b.at
    && a.duration_micros == b.duration_micros
