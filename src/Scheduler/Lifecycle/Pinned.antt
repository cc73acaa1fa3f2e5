-- ===== src/Scheduler/Lifecycle/Pinned.antt =====
-- The pin counter of each deployment is the number of its jobs, and every job has its deployment.
use mathlib.Core.Path.{subst}
use pbvex.Base.{
  ℕ, ◌+◌, ◌==◌, ◌≡◌, sym, ◌∙◌, ap, ◌≢◌, inl, inr, ◌<◌, Bool, ◌&&◌, List, [], ◌∷◌, ◌++◌, pos, ok,
  All, arith, Bool-cases, if◌then◌else◌,
}
use pbvex.Sql.{Fault, count_rows, delete_rows}
use pbvex.Sql.Rows.{
  Pointwise, Pointwise-All, Pointwise-count_rows, All-weaken, All-append, count_rows-delete_rows,
  count_rows-add_le, find_row-count_rows,
}
use pbvex.Sql.Unique.{Pointwise-Distinct, Distinct-append_one, count_rows-le_one}
use pbvex.Deploy.Repo.{Deployment, Store, job_count, pin}
use pbvex.Deploy.Repo.Pins.{Keyed, SameKeys, SameKeys-Keyed, pin-SameKeys, pin-found, pin_up-All}
use pbvex.Scheduler.Job.{Job}
use pbvex.Scheduler.Edges.{Edge, Moves, Edge-Kept}
use pbvex.Scheduler.Worker.Claiming.{DistinctIds}

-- The rows of the deployments table with this deployment id.
abbrev pub deployment_rows : ℕ → List Deployment → ℕ
deployment_rows id t = count_rows (λ d. d.deployment_id == id) t

abbrev pub IsBalanced : List Job → Deployment → Type 0
IsBalanced jobs d = d.pin_count ≡ job_count d.deployment_id jobs

abbrev pub HasDeployment : List Deployment → Job → Type 0
HasDeployment t j = 0 < deployment_rows j.deployment_id t

pub record Sound (s : Store) : Type 0 where
  pub ids : DistinctIds s.jobs
  pub keyed : Keyed s.deployments
  pub balanced : All (IsBalanced s.jobs) s.deployments
  pub supported : All (HasDeployment s.deployments) s.jobs

job_count-Moves : (u d : ℕ) (t t' : List Job) → Moves u t t' → job_count d t' ≡ job_count d t
unfolding job_count
job_count-Moves u d t t' m =
    Pointwise-count_rows (Edge u) (λ j. j.deployment_id == d) t t'
      (λ j k e. ap (λ (x : ℕ). x == d) (Edge-Kept u j k e).deployment) m

-- Changes of rows along the diagram leave the books as they are.
pub Moves-Sound :
    (u : ℕ) (s : Store) (t : List Job) → Moves u s.jobs t → Sound s → Sound (record s { jobs = t })
Moves-Sound u s t m h = record {
  ids = Pointwise-Distinct (λ j. j.id) (Edge u) s.jobs t (λ j k e. (Edge-Kept u j k e).id) m h.ids;
  keyed = h.keyed;
  balanced =
      All-weaken _ _ s.deployments (λ d e. e ∙ sym (job_count-Moves u d.deployment_id s.jobs t m))
        h.balanced;
  supported =
      Pointwise-All (Edge u) (HasDeployment s.deployments) s.jobs t
        (λ j k e k_has. rw (Edge-Kept u j k e).deployment k_has) m h.supported;
}

pub deployment_rows-SameKeys :
    (id : ℕ) (t t' : List Deployment)
    → Pointwise SameKeys t t'
    → deployment_rows id t' ≡ deployment_rows id t
deployment_rows-SameKeys id t t' same =
    Pointwise-count_rows SameKeys (λ d. d.deployment_id == id) t t'
      (λ x y e. ap (λ (z : ℕ). z == id) e.1) same

pub job_count-snoc :
    (d : ℕ) (t : List Job) (j : Job)
    → job_count d (t ++ j ∷ []) ≡ job_count d t + (if j.deployment_id == d then 1 else 0)
unfolding job_count count_rows
job_count-snoc d [] j = ground arith
job_count-snoc d (k ∷ t) j = ground (arith, job_count-snoc d t j)

-- One pin and one new job of the same deployment keep the books balanced.
pub insert-Sound :
    (s : Store) (j : Job) (queried : Bool) (fault : Fault) {pinned : List Deployment}
    → pin queried fault j.deployment_id (pos 1) s.deployments ≡ ok pinned
    → All (λ k. k.id ≢ j.id) s.jobs
    → Sound s
    → Sound (record { deployments = pinned; jobs = s.jobs ++ j ∷ [] })
insert-Sound s j queried fault {pinned} h isnew v =
    let same =
      pin-SameKeys queried fault j.deployment_id (pos 1) s.deployments (λ e. ground arith) h in
    let (d, found, done) =
      pin-found queried fault j.deployment_id (pos 1) s.deployments (λ e. ground arith) h in
    record {
      ids = Distinct-append_one (λ k. k.id) s.jobs j isnew v.ids;
      keyed = SameKeys-Keyed s.deployments pinned same v.keyed;
      balanced =
          pin_up-All s.deployments v.keyed (IsBalanced s.jobs) (IsBalanced (s.jobs ++ j ∷ []))
            queried fault j.deployment_id 0 h
            (λ x e here. rw (job_count-snoc x.deployment_id s.jobs j) (ground arith))
            (λ x e other. rw (job_count-snoc x.deployment_id s.jobs j) (ground arith)) v.balanced;
      supported =
          All-append _ s.jobs (j ∷ [])
            (All-weaken _ _ s.jobs
              (λ k has. rw (deployment_rows-SameKeys k.deployment_id s.deployments pinned same) has)
              v.supported)
            (
              rw (deployment_rows-SameKeys j.deployment_id s.deployments pinned same)
                  (find_row-count_rows _ s.deployments found),
              tt,
            );
    }

-- The row of a record that a query returned is still there.
abbrev pub IsPresent : List Job → Job → Type 0
IsPresent t r = count_rows (λ j. j.deployment_id == r.deployment_id && j.id == r.id) t ≡ 1

abbrev pub delete_id : ℕ → List Job → List Job
delete_id id t = delete_rows (λ j. j.id == id) t

-- The jobs of a deployment after the deletion of one job.
pub job_count-delete_id :
    (d : ℕ) (t : List Job) (r : Job)
    → DistinctIds t
    → IsPresent t r
    → job_count d (delete_id r.id t) + (if r.deployment_id == d then 1 else 0) ≡ job_count d t
unfolding job_count
job_count-delete_id d t r ids here =
    let split = count_rows-delete_rows (λ j. j.id == r.id) (λ (j : Job). j.deployment_id == d) t in
    let one =
      count_rows-le_one (λ j. j.id) (λ (j : Job). j.id == r.id) r.id (λ j e. ground arith) t ids in
    elim (Bool-cases (r.deployment_id == d)) [
      | inl same ↦
          let eq : r.deployment_id ≡ d = ground arith in
          let mine =
            subst (λ z. count_rows (λ (j : Job). j.deployment_id == z && j.id == r.id) t ≡ 1) eq
              here in
          rw same (omega (arith, split, mine))
      | inr other ↦
          let apart =
            count_rows-add_le (λ (j : Job). j.deployment_id == r.deployment_id && j.id == r.id)
              (λ (j : Job). j.deployment_id == d && j.id == r.id) (λ (j : Job). j.id == r.id) t
              (λ j e. ground arith) (λ j e. ground arith) in
          rw other (omega (arith, split, apart, one, here))
    ]
