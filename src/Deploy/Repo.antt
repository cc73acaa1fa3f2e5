-- ===== src/Deploy/Repo.antt =====
-- backend/internal/deploy/repo.go and service.go: the deployments table, the pin counter and the
-- trimming of old deployments; backend/internal/schema/schema.go: migratePinCount.
pub mod Pins
pub mod Trim
use pbvex.Base.{
  ℕ, zero, suc, ◌+◌, ◌-◌, ◌==◌, leb, ltb, Bool, true, false, not, ◌&&◌, Option, none, some, List,
  [], ◌∷◌, ◌++◌, length, take, any, ℤ, pos, negsuc, Result, ok, err, ◌>>=◌, if◌then◌else◌,
}
use pbvex.Sql.{
  Fault, no_fault, execute_fault, rows_fault, exec_update, delete_rows, count_rows, find_row,
  order_by, select_rows,
}
use pbvex.Deploy.Manifest.{DeploymentManifest}
use pbvex.Scheduler.Job.{Job}

-- `manifest` is `none` where recordManifest cannot decode the column.
-- A NULL pinCount reads as 0 everywhere in the sources, and is 0 here.
pub record Deployment : Type 0 where
  pub id : ℕ
  pub deployment_id : ℕ
  pub active : Bool
  pub pin_count : ℕ
  pub created : ℕ
  pub bundle_hash : ℕ
  pub manifest : Option DeploymentManifest

-- The database as far as the two services share it.
pub record Store : Type 0 where
  pub deployments : List Deployment
  pub jobs : List Job

pub data RepoError : Type 0 where
  deployment_not_found pin_underflow bad_manifest database : RepoError

-- GetDeployment; `queried` is false where the query fails.
unfoldable pub get_deployment : Bool → ℕ → List Deployment → Result RepoError Deployment
get_deployment false id t = err database
get_deployment true id t = elim (find_row (λ d. d.deployment_id == id) t) [
  | none ↦ err deployment_not_found
  | some d ↦ ok d
]

record_manifest : Deployment → Result RepoError (DeploymentManifest × ℕ)
record_manifest d = elim d.manifest [ none ↦ err bad_manifest | some m ↦ ok (m, d.bundle_hash) ]

-- Resolve: the manifest and the bundle hash of a deployment.
unfoldable pub resolve : Bool → ℕ → List Deployment → Result RepoError (DeploymentManifest × ℕ)
unfolding get_deployment record_manifest
resolve queried id t = do d ← get_deployment queried id t; record_manifest d

unfoldable pub pin_reply : ℤ → Option ℕ → List Deployment → Result RepoError (List Deployment)
pin_reply delta none t = err database
pin_reply (pos n) (some affected) t = if affected == 0 then err deployment_not_found else ok t
pin_reply (negsuc n) (some affected) t = if affected == 0 then err pin_underflow else ok t

-- The UPDATE of Pin, at the record that GetDeployment found.
unfoldable pub pin_record :
    Fault → ℤ → Deployment → List Deployment → Result RepoError (List Deployment)
unfolding pin_reply
pin_record fault (pos n) d t =
    let (t', affected) =
      exec_update fault (λ x. x.id == d.id) (λ x. record x { pin_count = x.pin_count + n }) t in
    pin_reply (pos n) affected t'
pin_record fault (negsuc n) d t =
    let (t', affected) =
      exec_update fault (λ x. x.id == d.id && ltb 0 x.pin_count)
        (λ x. record x { pin_count = x.pin_count - 1 }) t in
    pin_reply (negsuc n) affected t'

unfoldable pub pin_found :
    Fault → ℤ → Result RepoError Deployment → List Deployment → Result RepoError (List Deployment)
unfolding pin_record
pin_found fault delta (err e) t = err e
pin_found fault delta (ok d) t = pin_record fault delta d t

-- Pin. A failure leaves a table that the caller's transaction rolls back.
unfoldable pub pin : Bool → Fault → ℕ → ℤ → List Deployment → Result RepoError (List Deployment)
unfolding pin_found
pin queried fault id (pos zero) t = ok t
pin queried fault id delta t = pin_found fault delta (get_deployment queried id t) t

-- Whether some job refers to the deployment.
unfoldable pub referenced : ℕ → List Job → Bool
referenced id jobs = any (λ j. j.deployment_id == id) jobs

-- The candidates of DeleteOldestInactive, oldest first, before the keep quota.
unfoldable pub deletable : ℕ → ℕ → Store → List Deployment
deletable active_id previous_id s =
    select_rows (λ d. not (referenced d.deployment_id s.jobs) && not (ltb 0 d.pin_count))
      (order_by (λ d e. leb d.created e.created)
        (select_rows
          (λ d.
            not d.active
            && not (d.deployment_id == active_id)
            && not (d.deployment_id == previous_id))
          s.deployments))

-- The conditional DELETE of one candidate.
unfoldable pub delete_guard : Deployment → List Job → Deployment → Bool
unfolding referenced
delete_guard rec jobs d =
    d.id == rec.id && not d.active && d.pin_count == 0 && not (referenced rec.deployment_id jobs)

deleted_with : Deployment → ℕ → List ℕ → List ℕ
deleted_with rec affected deleted =
    if ltb 0 affected then deleted ++ rec.deployment_id ∷ [] else deleted

-- The loop over the candidates: the table and the ids deleted, or nothing if a statement fails.
unfoldable pub delete_all :
    (ℕ → Fault)
    → List Job
    → List Deployment
    → List Deployment
    → List ℕ
    → Option (List Deployment × List ℕ)
unfolding deleted_with
delete_all faults jobs [] t deleted = some (t, deleted)
delete_all faults jobs (rec ∷ rest) t deleted =
    let guard = delete_guard rec jobs in
    elim (faults rec.id) [
      | no_fault ↦
          delete_all faults jobs rest (delete_rows guard t)
            (deleted_with rec (count_rows guard t) deleted)
      | _ ↦ none
    ]

-- DeleteOldestInactive in the transaction of trimHistory; `queried` is false where one of its
-- queries fails. A failure rolls the transaction back.
unfoldable pub trim_history : Bool → (ℕ → Fault) → ℕ → ℕ → ℕ → Store → Store × Option (List ℕ)
trim_history queried faults active_id previous_id keep s =
    let candidates = deletable active_id previous_id s in
    let doomed = take (length candidates - keep) candidates in
    if leb keep 0
    then (s, some [])
    else if not queried
    then (s, none)
    else if leb (length candidates) keep
    then (s, some [])
    else elim (delete_all faults s.jobs doomed s.deployments []) [
      | none ↦ (s, none)
      | some (t, deleted) ↦ (record s { deployments = t }, some deleted)
    ]

-- The number of jobs that refer to the deployment.
unfoldable pub job_count : ℕ → List Job → ℕ
job_count id jobs = count_rows (λ j. j.deployment_id == id) jobs

-- migratePinCount: the pin counters become the numbers of jobs. A record that already agrees is
-- left alone; `saved` says whether the record's save succeeds, and the loop stops where it does not.
unfoldable pub migrate_pin_count : (ℕ → Bool) → List Job → List Deployment → List Deployment
migrate_pin_count saved jobs [] = []
migrate_pin_count saved jobs (d ∷ ds) =
    let rest = migrate_pin_count saved jobs ds in
    let expected = job_count d.deployment_id jobs in
    if d.pin_count == expected
    then d ∷ rest
    else if saved d.id
    then record d { pin_count = expected } ∷ rest
    else d ∷ ds
