-- ===== src/Deploy/Repo/Trim.antt =====
-- Trimming keeps every deployment that a job refers to.
use mathlib.Core.Path.{subst}
use pbvex.Base.{
  ℕ, ◌-◌, ◌==◌, ◌≡◌, sym, ◌∙◌, ◌⊎◌, inl, inr, Bool, true, false, ◌&&◌, some, List, [], ◌∷◌, All,
  arith, Bool-cases, Option-cases, length, take, leb,
}
use pbvex.Sql.{Fault, count_rows, delete_rows}
use pbvex.Sql.Rows.{
  All-weaken, All-delete_rows, All-select_rows, All-order_by, All-take, count_rows-delete_rows,
  count_rows_none,
}
use pbvex.Sql.Unique.{Distinct-delete_rows, keys_agree}
use pbvex.Scheduler.Job.{Job}
use pbvex.Deploy.Repo.{
  Deployment, Store, referenced, deletable, delete_guard, deleted_with, delete_all, trim_history,
}
use pbvex.Deploy.Repo.Pins.{Keyed}

-- The candidate's record id stands for its deployment id.
abbrev pub Agrees : List Deployment → Deployment → Type 0
Agrees t rec = All (λ d. d.id ≡ rec.id → d.deployment_id ≡ rec.deployment_id) t

pub referenced-All : (jobs : List Job) → All (λ j. referenced j.deployment_id jobs ≡ true) jobs
unfolding referenced
referenced-All [] = tt
referenced-All (j ∷ js) =
    (ground arith, All-weaken _ _ js (λ k h. ground arith) (referenced-All js))

-- One conditional DELETE takes no row of a deployment that is referred to.
delete_guard-spares :
    (rec : Deployment) (jobs : List Job) (id : ℕ) (t : List Deployment)
    → referenced id jobs ≡ true
    → Agrees t rec
    → count_rows (λ d. d.deployment_id == id) (delete_rows (delete_guard rec jobs) t)
      ≡ count_rows (λ d. d.deployment_id == id) t
unfolding delete_guard
delete_guard-spares rec jobs id t busy agrees =
    let split =
      count_rows-delete_rows (delete_guard rec jobs) (λ (d : Deployment). d.deployment_id == id)
        t in
    let none_of =
      count_rows_none (λ (d : Deployment). d.deployment_id == id && delete_guard rec jobs d) t
        (All-weaken _ _ t (λ d h. spared d h) agrees) in
    omega (arith, split, none_of)
  where
    spared :
        (d : Deployment)
        → (d.id ≡ rec.id → d.deployment_id ≡ rec.deployment_id)
        → (d.deployment_id == id && delete_guard rec jobs d) ≡ false
    spared d h = elim (Bool-cases (d.deployment_id == id && delete_guard rec jobs d)) [
      | inr off ↦ off
      | inl on ↦
          let same : d.deployment_id ≡ rec.deployment_id = h (ground arith) in
          let eq : rec.deployment_id ≡ id = ground arith in
          absurd (clash (subst (λ z. referenced z jobs ≡ true) (sym eq) busy) (ground arith))
    ]
      where
        clash :
            referenced rec.deployment_id jobs ≡ true → referenced rec.deployment_id jobs ≡ false → ⊥
        clash a b = cc

-- A round that does not abort goes on from the table without the row.
no_fault_step :
    (faults : ℕ → Fault) (jobs : List Job) (rec : Deployment) (rest t : List Deployment)
    (deleted : List ℕ) {r : List Deployment × List ℕ}
    → delete_all faults jobs (rec ∷ rest) t deleted ≡ some r
    → delete_all faults jobs rest
        (delete_rows (delete_guard rec jobs) t)
        (deleted_with rec (count_rows (delete_guard rec jobs) t) deleted)
      ≡ some r
unfolding delete_all
no_fault_step faults jobs rec rest t deleted h = ground arith

-- The rows that the loop goes through.
abbrev pub doomed_of : ℕ → ℕ → ℕ → Store → List Deployment
doomed_of active_id previous_id keep s =
    let candidates = deletable active_id previous_id s in take (length candidates - keep) candidates

-- What one conditional DELETE keeps, over the whole loop.
module _ (jobs : List Job) where
  pub delete_all-spares :
      (faults : ℕ → Fault) (id : ℕ) (doomed t : List Deployment) (deleted : List ℕ)
      {t' : List Deployment} {ids : List ℕ}
      → referenced id jobs ≡ true
      → All (Agrees t) doomed
      → delete_all faults jobs doomed t deleted ≡ some (t', ids)
      → count_rows (λ d. d.deployment_id == id) t' ≡ count_rows (λ d. d.deployment_id == id) t
  unfolding delete_all
  delete_all-spares faults id [] t deleted {t'} busy agrees h =
      let same : t' ≡ t = ground arith in rw same
  delete_all-spares faults id (rec ∷ rest) t deleted busy agrees h =
      let t₁ = delete_rows (delete_guard rec jobs) t in
      delete_all-spares faults id rest t₁ _ busy
        (All-weaken _ _ rest (λ d a. All-delete_rows _ (delete_guard rec jobs) t a) agrees.1)
        (no_fault_step faults jobs rec rest t deleted h)
      ∙ delete_guard-spares rec jobs id t busy agrees.0

  pub delete_all-All :
      (P : Deployment → Type 0) (faults : ℕ → Fault) (doomed t : List Deployment) (deleted : List ℕ)
      {t' : List Deployment} {ids : List ℕ}
      → delete_all faults jobs doomed t deleted ≡ some (t', ids)
      → All P t
      → All P t'
  unfolding delete_all
  delete_all-All P faults [] t deleted {t'} h all = let same : t' ≡ t = ground arith in rw same all
  delete_all-All P faults (rec ∷ rest) t deleted h all =
      delete_all-All P faults rest (delete_rows (delete_guard rec jobs) t) _
        (no_fault_step faults jobs rec rest t deleted h) (All-delete_rows P _ t all)

  pub delete_all-Keyed :
      (faults : ℕ → Fault) (doomed t : List Deployment) (deleted : List ℕ) {t' : List Deployment}
      {ids : List ℕ}
      → delete_all faults jobs doomed t deleted ≡ some (t', ids)
      → Keyed t
      → Keyed t'
  unfolding delete_all
  delete_all-Keyed faults [] t deleted {t'} h k = let same : t' ≡ t = ground arith in rw same k
  delete_all-Keyed faults (rec ∷ rest) t deleted h k =
      delete_all-Keyed faults rest (delete_rows (delete_guard rec jobs) t) _
        (no_fault_step faults jobs rec rest t deleted h)
        (record {
          by_id = Distinct-delete_rows (λ d. d.id) _ t k.by_id;
          by_deployment = Distinct-delete_rows (λ d. d.deployment_id) _ t k.by_deployment;
        })

-- Trimming changes nothing, or runs its whole loop over some of the candidates.
pub trim_history-cases :
    (queried : Bool) (faults : ℕ → Fault) (active_id previous_id keep : ℕ) (s : Store)
    → ((trim_history queried faults active_id previous_id keep s).0 ≡ s)
      ⊎ ((t : List Deployment) × (ids : List ℕ) × (delete_all faults s.jobs
              (doomed_of active_id previous_id keep s)
              s.deployments
              []
            ≡ some (t, ids))
          × ((trim_history queried faults active_id previous_id keep s)
              ≡ (record s { deployments = t }, some ids)))
unfolding trim_history
trim_history-cases queried faults active_id previous_id keep s =
    elim (Option-cases
      (delete_all faults s.jobs (doomed_of active_id previous_id keep s) s.deployments [])) [
        | inl stuck ↦ inl (ground arith)
        | inr ((t, ids), done) ↦ elim (Bool-cases (leb keep 0)) [
          | inl off ↦ inl (ground arith)
          | inr on ↦ elim (Bool-cases queried) [
            | inr fails ↦ inl (ground arith)
            | inl fine ↦ elim (Bool-cases (leb (length (deletable active_id previous_id s)) keep)) [
              | inl few ↦ inl (ground arith)
              | inr many ↦ inr (t, ids, done, ground arith)
            ]
          ]
        ]
      ]

pub doomed-Agrees :
    (active_id previous_id keep : ℕ) (s : Store)
    → Keyed s.deployments
    → All (Agrees s.deployments) (doomed_of active_id previous_id keep s)
unfolding deletable
doomed-Agrees active_id previous_id keep s k = All-take _ _ _ (
    All-select_rows _ _ _ (
      All-order_by _ _ _ (
        All-select_rows _ _ _
          (keys_agree (λ d. d.id) (λ d. d.deployment_id) s.deployments k.by_id))))

-- In a table with unique ids, trimming never deletes a deployment that a job refers to, whatever
-- its pin counter says, and whichever statements fail: as many rows have its deployment id as
-- before.
pub trim_history-spares :
    (queried : Bool) (faults : ℕ → Fault) (active_id previous_id keep id : ℕ) (s : Store)
    → Keyed s.deployments
    → referenced id s.jobs ≡ true
    → count_rows
        (λ d. d.deployment_id == id)
        (trim_history queried faults active_id previous_id keep s).0.deployments
      ≡ count_rows (λ d. d.deployment_id == id) s.deployments
trim_history-spares queried faults active_id previous_id keep id s k busy =
    elim (trim_history-cases queried faults active_id previous_id keep s) [
      | inl same ↦ rw same
      | inr (t, ids, done, same) ↦ rw same (
          delete_all-spares s.jobs faults id (doomed_of active_id previous_id keep s) s.deployments
            [] busy (doomed-Agrees active_id previous_id keep s k) done)
    ]
