-- ===== src/Scheduler/Job.antt =====
-- The rows of the jobs table (backend/internal/schema/collections.go names the fields) and the
-- values in them. A text that the scheduler only compares (record ids, lease tokens, deployment
-- ids, names, hashes, namespaces) is a number, 0 for the empty text. A DateTime is a number in
-- SQLite's text order, 0 for the empty text of types.DateTime{}.
use pbvex.Base.{ℕ, ◌==◌, Bool, true, false, not, ◌&&◌, Option, List, codes}

pub data Status : Type 0 where
  pending running canceled failed completed : Status

abbrev pub is_pending : Status → Bool
is_pending pending = true
is_pending _ = false

abbrev pub is_running : Status → Bool
is_running running = true
is_running _ = false

-- status = 'pending' OR status = 'running'
abbrev pub is_open : Status → Bool
is_open pending = true
is_open running = true
is_open _ = false

-- status IN ('completed','failed','canceled')
abbrev pub is_terminal : Status → Bool
is_terminal s = not (is_open s)

-- The payload that buildPayload makes; `args` is the JSON text.
pub record Payload : Type 0 where
  pub deployment_id : ℕ
  pub function_name : ℕ
  pub bundle_hash : ℕ
  pub args : List ℕ
  pub owner_namespace : ℕ
  pub target_namespace : ℕ

pub data ErrorType : Type 0 where
  no_error execution_admission max_attempts timeout canceled_error goja_exception : ErrorType
  deployment_not_found forbidden active_not_found invalid_bundle invalid_manifest : ErrorType
  activation_failed internal_error : ErrorType

-- The metadata column: 'null', or the object that fail writes.
pub data Metadata : Type 0 where
  null_metadata : Metadata
  failure : ErrorType → List ℕ → Metadata

-- JobTypeScheduled is the only type, so the column is left out. `payload` is `none` where its
-- JSON does not decode.
pub record Job : Type 0 where
  pub id : ℕ
  pub deployment_id : ℕ
  pub status : Status
  pub payload : Option Payload
  pub scheduled_at : ℕ
  pub started : ℕ
  pub finished : ℕ
  pub attempts : ℕ
  pub lease : ℕ
  pub lease_expires_at : ℕ
  pub result : List ℕ
  pub error : List ℕ
  pub metadata : Metadata
  pub created : ℕ
  pub updated : ℕ

-- The JSON text 'null'.
abbrev pub null_json : List ℕ
null_json = codes "null"

-- id = {:id} AND status = 'running' AND lease = {:lease}: the compare-and-swap of every write
-- that a running attempt makes.
abbrev pub holds : ℕ → ℕ → Job → Bool
holds id lease j = j.id == id && is_running j.status && j.lease == lease
