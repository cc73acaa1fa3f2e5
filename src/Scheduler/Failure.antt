-- ===== src/Scheduler/Failure.antt =====
-- Go errors as far as the scheduler looks into them: the causes that errors.Is and errors.As find
-- along the chain, outermost first, and the text. backend/internal/scheduler/worker.go:
-- handledHandlerFailure, persistedErrorMessage, errorType; service.go: truncateError.
use pbvex.Base.{
  ℕ, Bool, true, false, not, Option, none, some, List, [], ◌∷◌, ◌++◌, take, any, codes,
  if◌then◌else◌,
}
use pbvex.Scheduler.Job.{
  ErrorType, execution_admission, max_attempts, timeout, canceled_error, goja_exception,
  deployment_not_found, forbidden, active_not_found, invalid_bundle, invalid_manifest,
  activation_failed, internal_error,
}

-- `application` carries its category; `admission` carries ExecutionAdmissionError.Started.
pub data Cause : Type 0 where
  context_canceled deadline_exceeded handled goja err_max_attempts : Cause
  err_deployment_not_found err_forbidden err_active_not_found : Cause
  err_invalid_bundle err_invalid_manifest err_activation_failed other : Cause
  application : List ℕ → Cause
  admission : Bool → Cause

pub record GoError : Type 0 where
  pub causes : List Cause
  pub message : List ℕ

abbrev pub is_canceled : Cause → Bool
is_canceled context_canceled = true
is_canceled _ = false

abbrev pub is_deadline : Cause → Bool
is_deadline deadline_exceeded = true
is_deadline _ = false

abbrev pub is_handled : Cause → Bool
is_handled handled = true
is_handled _ = false

abbrev pub is_goja : Cause → Bool
is_goja goja = true
is_goja _ = false

abbrev pub is_max_attempts : Cause → Bool
is_max_attempts err_max_attempts = true
is_max_attempts _ = false

abbrev pub is_deployment_not_found : Cause → Bool
is_deployment_not_found err_deployment_not_found = true
is_deployment_not_found _ = false

abbrev pub is_forbidden : Cause → Bool
is_forbidden err_forbidden = true
is_forbidden _ = false

abbrev pub is_active_not_found : Cause → Bool
is_active_not_found err_active_not_found = true
is_active_not_found _ = false

abbrev pub is_invalid_bundle : Cause → Bool
is_invalid_bundle err_invalid_bundle = true
is_invalid_bundle _ = false

abbrev pub is_invalid_manifest : Cause → Bool
is_invalid_manifest err_invalid_manifest = true
is_invalid_manifest _ = false

abbrev pub is_activation_failed : Cause → Bool
is_activation_failed err_activation_failed = true
is_activation_failed _ = false

abbrev pub is_application : Cause → Bool
is_application (application c) = true
is_application _ = false

abbrev pub is_admission : Cause → Bool
is_admission (admission s) = true
is_admission _ = false

-- errors.Is(err, X) and errors.As(err, &x) as tests.
abbrev pub has : (Cause → Bool) → GoError → Bool
has p e = any p e.causes

-- errors.As into *ExecutionAdmissionError: the Started of the outermost one.
unfoldable pub admission_started : List Cause → Option Bool
admission_started [] = none
admission_started (admission s ∷ r) = some s
admission_started (_ ∷ r) = admission_started r

-- errors.As into *ApplicationError: the Category of the outermost one.
unfoldable pub application_category : List Cause → Option (List ℕ)
application_category [] = none
application_category (application c ∷ r) = some c
application_category (_ ∷ r) = application_category r

-- &handledHandlerFailure{err: err}: the text is that of the wrapped error.
abbrev pub handled_failure : GoError → GoError
handled_failure e = record e { causes = handled ∷ e.causes }

abbrev pub error_field_limit : ℕ
error_field_limit = 5000

-- The nil error does not reach the callers.
unfoldable pub truncate_error : GoError → List ℕ
truncate_error e = take error_field_limit e.message

application_message : Option (List ℕ) → List ℕ
application_message (some category) = codes "application error: " ++ category
application_message none = codes "Function invocation failed."

unfoldable pub persisted_error_message : GoError → List ℕ
unfolding truncate_error application_category application_message
persisted_error_message e =
    if not (has is_handled e)
    then truncate_error e
    else application_message (application_category e.causes)

unfoldable pub error_type : GoError → ErrorType
error_type e =
    if has is_admission e
    then execution_admission
    else if has is_max_attempts e
    then max_attempts
    else if has is_deadline e
    then timeout
    else if has is_canceled e
    then canceled_error
    else if has is_goja e
    then goja_exception
    else if has is_deployment_not_found e
    then deployment_not_found
    else if has is_forbidden e
    then forbidden
    else if has is_active_not_found e
    then active_not_found
    else if has is_invalid_bundle e
    then invalid_bundle
    else if has is_invalid_manifest e
    then invalid_manifest
    else if has is_activation_failed e
    then activation_failed
    else internal_error
