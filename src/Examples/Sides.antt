-- ===== src/Examples/Sides.antt =====
-- The backoff, the configuration, the recurring jobs and the quota boundary.
use pbvex.Base.{
  List, ◌⊎◌, ◌↔◌, ℕ, suc, zero, ◌≡◌, ◌≢◌, ◌≤◌, ◌*◌, ◌^◌, ◌-◌, ◌+◌, ◌∷◌, Option, none, some, [],
  refl, arith, true, false, Result, ok, All, pos,
}
use Prim.Native.Nat.{min}
use pbvex.Scheduler.Config.{Config, default_config, new_service}
use pbvex.Scheduler.Config.Normal.{IsPattern, IsNormal, new_service-IsNormal}
use pbvex.Scheduler.Backoff.{retry_backoff}
use pbvex.Scheduler.Backoff.Bounds.{retry_backoff-eq, retry_backoff-bounds}
use pbvex.Scheduler.Duration.{second, minute}
use pbvex.Scheduler.Cron.{Cron, Definition, contains, active_deployment_changed}
use pbvex.Scheduler.Cron.Mirror.{
  active_deployment_changed-registered, active_deployment_changed-own,
  active_deployment_changed-foreign, entry, ids_of,
}
use pbvex.Storage.Quota.{
  QuotaReservationRequest, upload, QuotaError, provider_error, Reservation, held, nil_reservation,
  quota_settle, quota_release, quota_credit, release_reservation_if_gone, reserve_quota_for_upload,
  quota_reserve, sanitize, admit,
}
use pbvex.Storage.Quota.Promises.{
  IsDelivered, deliveries-IsDelivered, release_reservation_if_gone_iff,
  reserve_quota_for_upload-admitted,
}

retry_backoff-eq_example :
    retry_backoff default_config (λ d. 0) 4
    ≡ min (1 * minute) (min (1 * minute) (1 * second * 2 ^ (4 - 1)) + 0)
retry_backoff-eq_example =
    retry_backoff-eq default_config (λ d. 0) 4 (omega arith) (λ d. omega arith) (omega arith)

retry_backoff-bounds_example :
    (1 * second ≤ retry_backoff default_config (λ d. 0) 9)
    × (retry_backoff default_config (λ d. 0) 9 ≤ 1 * minute)
retry_backoff-bounds_example =
    retry_backoff-bounds default_config (λ d. 0) 9 (omega arith) (omega arith) (λ d. omega arith)

-- A caller that sets every value to zero, but for a heartbeat longer than the lease.
abbrev careless : Config
careless = record {
  poll_interval = 0;
  max_concurrency = 0;
  lease_duration = 1 * second;
  renew_interval = 1 * minute;
  max_execution_duration = 0;
  claim_batch = 0;
  retry_initial_delay = 0;
  retry_max_delay = 0;
  max_attempts = 0;
  cleanup_interval = 0;
  cleanup_batch = 0;
  job_history_retention = 0;
}

careless-IsPattern : IsPattern careless
careless-IsPattern = record {
  poll = omega arith;
  concurrency = omega arith;
  lease = omega arith;
  renew = omega arith;
  execution = omega arith;
  batch = omega arith;
  initial_delay = omega arith;
  max_delay = omega arith;
  attempts = omega arith;
  cleanup = omega arith;
  history_batch = omega arith;
  retention = omega arith;
}

new_service-IsNormal_example : IsNormal (new_service careless)
new_service-IsNormal_example = new_service-IsNormal careless careless-IsPattern

abbrev nightly : Definition
nightly = record { id = 3; schedule = 8; function_name = 7; args = [] }

-- The manager has registered 2; the entry 9 is PocketBase's own.
abbrev registry : Cron
registry = record {
  registered = 2 ∷ [];
  entries =
      record { id = 2; schedule = 8; task = none }
      ∷ record { id = 9; schedule = 1; task = none }
      ∷ [];
}

active_deployment_changed-registered_example :
    contains 2 (active_deployment_changed (λ e. true) 1 (nightly ∷ []) registry).registered
    ≡ contains 2 (ids_of (nightly ∷ []))
active_deployment_changed-registered_example =
    active_deployment_changed-registered (λ e. true) 1 (nightly ∷ []) registry 2 (refl, tt)

active_deployment_changed-own_example :
    All
      (λ d.
        entry d.id (active_deployment_changed (λ e. true) 1 (nightly ∷ []) registry)
        ≡ some (record {
          id = d.id;
          schedule = d.schedule;
          task =
              some (record { deployment_id = 1; function_name = d.function_name; args = d.args });
        }))
      (nightly ∷ [])
active_deployment_changed-own_example =
    active_deployment_changed-own (λ e. true) 1 (nightly ∷ []) registry (tt, tt) (refl, tt)

active_deployment_changed-foreign_example :
    entry 9 (active_deployment_changed (λ e. true) 1 (nightly ∷ []) registry) ≡ entry 9 registry
unfolding contains
active_deployment_changed-foreign_example =
    active_deployment_changed-foreign (λ e. true) 1 (nightly ∷ []) registry 9 refl refl

-- The provider fails once and then accepts.
abbrev second_try : ℕ → Option QuotaError
second_try zero = some provider_error
second_try (suc k) = none

deliveries-IsDelivered_example :
    IsDelivered true second_try (quota_settle (held 4) (pos 100) second_try)
    × IsDelivered true second_try (quota_release (held 4) second_try)
    × IsDelivered false second_try (quota_credit true (pos (suc 50)) second_try)
deliveries-IsDelivered_example = deliveries-IsDelivered 4 100 50 second_try second_try second_try

abbrev object_key : List ℕ
object_key = 1 ∷ []

release_reservation_if_gone_iff_example :
    (((release_reservation_if_gone (some false) object_key (held 4) second_try).0 ≡ true)
      ↔ ((some false ≡ some false) × (object_key ≢ []) × ((id : ℕ) × (held 4 ≡ held id))))
    × ((((release_reservation_if_gone (some false) object_key (held 4) second_try).0 ≡ true)
          × IsDelivered true second_try
              (release_reservation_if_gone (some false) object_key (held 4) second_try).1)
        ⊎ (((release_reservation_if_gone (some false) object_key (held 4) second_try).0 ≡ false)
            × ((release_reservation_if_gone (some false) object_key (held 4) second_try).1.calls
                ≡ 0)))
release_reservation_if_gone_iff_example =
    release_reservation_if_gone_iff (some false) object_key (held 4) second_try

abbrev generous : QuotaReservationRequest → Result QuotaError Reservation
generous req = ok (held req.op_id)

reserve_quota_for_upload-admitted_example :
    (generous
        (record { op_id = 4; purpose = upload; storage_id = 6; key = 1 ∷ []; worst_case = 100 })
      ≡ ok (held 4))
    × (held 4 ≢ nil_reservation)
unfolding reserve_quota_for_upload quota_reserve sanitize admit
reserve_quota_for_upload-admitted_example =
    reserve_quota_for_upload-admitted generous 4 6 (1 ∷ []) 100 (held 4) refl
