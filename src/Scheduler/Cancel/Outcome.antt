-- ===== src/Scheduler/Cancel/Outcome.antt =====
-- What a caller of Cancel may rely on.
use pbvex.Base.{
  ℕ, zero, suc, ◌==◌, ◌≡◌, refl, ◌∙◌, inl, inr, ◌<◌, Bool, true, false, not, ◌&&◌, Option, some,
  List, [], ◌∷◌, ok, All, arith, Bool-cases, Option-cases,
}
use pbvex.Sql.{find_row, exec_update, update_rows, count_rows}
use pbvex.Sql.Rows.{Fails, All-find_row, Pointwise-exec_update}
use pbvex.Sql.Unique.{update_rows-Fails, Pointwise-Distinct}
use pbvex.Scheduler.Env.{Env}
use pbvex.Scheduler.Job.{Job, Status, canceled}
use pbvex.Scheduler.Service.{ScheduleNamespaces}
use pbvex.Scheduler.Worker.Claiming.{DistinctIds}
use pbvex.Scheduler.Cancel.{cancelable, mark_canceled, cancel_write, cancel_loop, cancel}

abbrev is_canceled : Status → Bool
is_canceled canceled = true
is_canceled _ = false

-- The row with this id, if any, is canceled and no attempt holds it.
abbrev not_canceled : ℕ → Job → Bool
not_canceled id j = j.id == id && not (is_canceled j.status && j.lease == 0)

pub IsCanceled : ℕ → List Job → Type 0
IsCanceled id = Fails (not_canceled id)

pub cancelable-id : (r j : Job) → cancelable r.id r.lease j ≡ true → j.id ≡ r.id
unfolding cancelable
cancelable-id r j h = ground arith

-- A statement that reports its rows has written them.
pub written :
    (env : Env) (r : Job) (t : List Job) {t' : List Job} {n : ℕ}
    → cancel_write env r t ≡ (t', some n)
    → (t' ≡ update_rows (cancelable r.id r.lease) (mark_canceled env) t)
      × (count_rows (cancelable r.id r.lease) t ≡ n)
unfolding cancel_write exec_update
written env r t h = ground arith

mark_canceled_lem : (env : Env) (id : ℕ) (j : Job) → not_canceled id (mark_canceled env j) ≡ false
unfolding mark_canceled
mark_canceled_lem env id j = ground arith

not_canceled-id : (id : ℕ) (j : Job) → not_canceled id j ≡ true → j.id ≡ id
not_canceled-id id j h = ground arith

cancel_write-IsCanceled :
    (env : Env) (r : Job) (id n : ℕ) (t : List Job) {t' : List Job}
    → DistinctIds t
    → r.id ≡ id
    → cancel_write env r t ≡ (t', some n)
    → 0 < n
    → IsCanceled id t'
unfolding IsCanceled
cancel_write-IsCanceled env r id n t {t'} ids same done pos =
    let w = written env r t done in
    rw w.0 (
      update_rows-Fails (λ j. j.id) (cancelable r.id r.lease) id (λ j h. cancelable-id r j h ∙ same)
        (not_canceled id) (mark_canceled env) t (λ j h. mark_canceled_lem env id j)
        (λ j h. not_canceled-id id j h) ids (omega (arith, w.1)))

cancel_write-DistinctIds :
    (env : Env) (r : Job) (t : List Job) → DistinctIds t → DistinctIds (cancel_write env r t).0
unfolding cancel_write mark_canceled
cancel_write-DistinctIds env r t ids =
    Pointwise-Distinct (λ j. j.id) (λ j k. k.id ≡ j.id) t _ (λ j k e. e)
      (Pointwise-exec_update (λ (j k : Job). k.id ≡ j.id) (λ j. refl) env.fault _ _ t (λ j h. refl))
      ids

All-Unit : (t : List Job) → All (λ j. Unit {0}) t
All-Unit [] = tt
All-Unit (j ∷ t) = (tt, All-Unit t)

find_row-id : (id : ℕ) (t : List Job) {r : Job} → find_row (λ j. j.id == id) t ≡ some r → r.id ≡ id
find_row-id id t {r} found =
    let passes =
      (All-find_row (λ (j : Job). Unit {0}) (λ (j : Job). j.id == id) t found (All-Unit t)).0 in
    ground arith

module _ (envs : ℕ → Env) (meddle : ℕ → List Job → List Job) (requester : Option ScheduleNamespaces)
    (id : ℕ) (tame : (k : ℕ) (t : List Job) → DistinctIds t → DistinctIds (meddle k t)) where
  kept :
      (k : ℕ) (r : Job) (t : List Job)
      → DistinctIds t
      → DistinctIds (cancel_write (envs k) r (meddle k t)).0
  kept k r t ids = cancel_write-DistinctIds (envs k) r (meddle k t) (tame k t ids)

  -- One attempt, for the record that it read; `again` is the claim for the attempts left.
  attempt :
      (rounds : ℕ) (t : List Job) (r : Job) {t' : List Job} {token : Option ℕ}
      → find_row (λ j. j.id == id) t ≡ some r
      → DistinctIds t
      → cancel_loop (suc rounds) envs meddle requester id t ≡ (t', ok token)
      → (cancel_loop rounds envs meddle requester id
              (cancel_write (envs rounds) r (meddle rounds t)).0
            ≡ (t', ok token)
          → IsCanceled id t')
      → IsCanceled id t'
  unfolding cancel_loop
  attempt rounds t r {t'} {token} found ids h again =
      elim (Option-cases (cancel_write (envs rounds) r (meddle rounds t)).1) [
        | inl broken ↦ absurd (ground arith)
        | inr (n, counted) ↦ elim (Bool-cases (n == 0)) [
          | inl missed ↦ again (ground arith)
          | inr hit ↦
              let done : cancel_write (envs rounds) r (meddle rounds t) ≡ (t', some n) =
                ground arith in
              cancel_write-IsCanceled (envs rounds) r id n (meddle rounds t) (tame rounds t ids)
                (find_row-id id t found) done (ground arith)
        ]
      ]

  cancel_loop-IsCanceled :
      (rounds : ℕ) (t : List Job) {t' : List Job} {token : Option ℕ}
      → DistinctIds t
      → cancel_loop rounds envs meddle requester id t ≡ (t', ok token)
      → IsCanceled id t'
  unfolding cancel_loop
  cancel_loop-IsCanceled zero t ids h = absurd (ground arith)
  cancel_loop-IsCanceled (suc rounds) t {t'} ids h =
      elim (Option-cases (find_row (λ j. j.id == id) t)) [
        | inl missing ↦ absurd (ground arith)
        | inr (r, found) ↦
            attempt rounds t r found ids h (cancel_loop-IsCanceled rounds _ (kept rounds r t ids))
      ]

-- A call of Cancel that returns nil has canceled the job: in the table that it leaves, the row
-- of the job is canceled and carries no lease, whatever other workers and requests did
-- meanwhile, as long as record ids are unique and stay so.
pub cancel-IsCanceled :
    (envs : ℕ → Env) (meddle : ℕ → List Job → List Job) (requester : Option ScheduleNamespaces)
    (id : ℕ) (t : List Job) {t' : List Job} {token : Option ℕ}
    → ((k : ℕ) (u : List Job) → DistinctIds u → DistinctIds (meddle k u))
    → DistinctIds t
    → cancel envs meddle requester id t ≡ (t', ok token)
    → IsCanceled id t'
unfolding cancel
cancel-IsCanceled envs meddle requester id t tame ids h =
    cancel_loop-IsCanceled envs meddle requester id tame 4 t ids h
