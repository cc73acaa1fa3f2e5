-- ===== src/Scheduler/Polling/Started.antt =====
-- backend/internal/scheduler/worker.go: the runs that one poll starts.
use pbvex.Base.{
  ℕ, suc, ◌≤◌, ◌<◌, ◌≡◌, refl, ◌&&◌, leb, Bool, true, false, Bool-cases, List, [], ◌∷◌, length,
  length-take-le, All, ◌⊎◌, inl, inr, arith,
}
use pbvex.Sql.{no_fault, count_rows, select_rows, order_by, exec_update}
use pbvex.Sql.Rows.{All-take, All-order_by, All-weaken}
use pbvex.Scheduler.Config.{Config}
use pbvex.Scheduler.Duration.{add_time}
use pbvex.Scheduler.Env.{Env}
use pbvex.Scheduler.Job.{
  Job, Status, pending, running, canceled, failed, completed, is_pending, is_running,
}
use pbvex.Scheduler.Worker.{
  Claim, claim_error, not_claimed, claimed, claim_one, claim_reply, take_lease, claimable,
}
use pbvex.Scheduler.Polling.{
  due, earlier_first, due_batch, Poll, started_with, claim_all, claim_due,
}

-- The row is in the table.
abbrev pub IsJob : Job → List Job → Type 0
IsJob r [] = ⊥
IsJob r (x ∷ xs) = (x ≡ r) ⊎ IsJob r xs

-- The row may be run at this date: it is pending and its time has come, or its lease is over.
abbrev pub IsDue : ℕ → Job → Type 0
IsDue now j =
    ((j.status ≡ pending) × (j.scheduled_at ≤ now))
    ⊎ ((j.status ≡ running) × (j.lease_expires_at ≤ now))

-- The record of a run that a poll of the table `t` has started: it is that of a row that was due,
-- and it is running, under the token drawn for it, until the end of a lease that starts at the
-- poll's instant; the statement that took the lease has not failed.
pub record IsStarted (c : Config) (w : Poll) (t : List Job) (j : Job) : Type 0 where
  pub row : Job
  pub listed : IsJob row t × (j.id ≡ row.id)
  pub due : IsDue (w.date_time w.now) row
  pub ran : (w.envs j.id).fault ≡ no_fault
  pub status : j.status ≡ running
  pub lease : j.lease ≡ (w.envs j.id).uuid
  pub expiry : j.lease_expires_at ≡ w.date_time (add_time w.now c.lease_duration)
  pub attempts : 0 < j.attempts

status-pending : (s : Status) → is_pending s ≡ true → s ≡ pending
status-pending pending h = refl
status-pending running h = absurd (ground arith)
status-pending canceled h = absurd (ground arith)
status-pending failed h = absurd (ground arith)
status-pending completed h = absurd (ground arith)

status-running : (s : Status) → is_running s ≡ true → s ≡ running
status-running running h = refl
status-running pending h = absurd (ground arith)
status-running canceled h = absurd (ground arith)
status-running failed h = absurd (ground arith)
status-running completed h = absurd (ground arith)

due-IsDue : (now : ℕ) (j : Job) → due now j ≡ true → IsDue now j
unfolding due
due-IsDue now j h = elim (Bool-cases (is_pending j.status && leb j.scheduled_at now)) [
  | inl e ↦ inl (status-pending j.status (ground arith), ground arith)
  | inr e ↦ inr (status-running j.status (ground arith), ground arith)
]

claimable-IsDue :
    (r : Job) (now : ℕ) (j : Job) (s : Status)
    → r.status ≡ s
    → claimable r now j ≡ true
    → (j.id ≡ r.id) × IsDue now j
unfolding claimable
claimable-IsDue r now j pending e h =
    (ground arith, inl (status-pending j.status (ground arith), ground arith))
claimable-IsDue r now j running e h =
    (ground arith, inr (status-running j.status (ground arith), ground arith))
claimable-IsDue r now j canceled e h = absurd (ground arith)
claimable-IsDue r now j failed e h = absurd (ground arith)
claimable-IsDue r now j completed e h = absurd (ground arith)

taken_before :
    (r : Job) (now : ℕ) (t : List Job)
    → All (λ j. j.id ≡ r.id → ¬ IsDue now j) t
    → count_rows (claimable r now) t ≡ 0
unfolding count_rows
taken_before r now [] h = refl
taken_before r now (j ∷ t) h = elim (Bool-cases (claimable r now j)) [
  | inl e ↦ let (same, is_due) = claimable-IsDue r now j r.status refl e in absurd (h.0 same is_due)
  | inr e ↦ rw e (taken_before r now t h.1)
]

selected-rows :
    (now : ℕ) (t : List Job) → All (λ r. IsJob r t × IsDue now r) (select_rows (due now) t)
unfolding select_rows
selected-rows now [] = tt
selected-rows now (x ∷ t) =
    let rest =
      All-weaken (λ r. IsJob r t × IsDue now r) (λ r. IsJob r (x ∷ t) × IsDue now r)
        (select_rows (due now) t) (λ r k. (inr k.0, k.1)) (selected-rows now t) in
    elim (Bool-cases (due now x)) [
      | inl e ↦ rw e ((inl refl, due-IsDue now x e), rest)
      | inr e ↦ rw e rest
    ]

due_batch-rows :
    (c : Config) (now : ℕ) (t : List Job) → All (λ r. IsJob r t × IsDue now r) (due_batch c now t)
unfolding due_batch
due_batch-rows c now t =
    All-take _ c.claim_batch (order_by earlier_first (select_rows (due now) t))
      (All-order_by _ earlier_first (select_rows (due now) t) (selected-rows now t))

module _ (c : Config) (w : Poll) (t₀ : List Job) (lost : ℕ → Bool)
    (taken : (k : ℕ)
      → lost k ≡ true
      → (u : List Job) → All (λ j. j.id ≡ k → ¬ IsDue (w.date_time w.now) j) (w.meddle k u)) where
  -- What a claim has to leave of a record that it returns.
  abbrev Starts : Job → Type 0
  Starts j = IsStarted c w t₀ j × (lost j.id ≡ false)

  claimed-Starts :
      (r : Job) (t : List Job) {mine : Job}
      → IsJob r t₀ × IsDue (w.date_time w.now) r
      → (claim_one c
          (record (w.envs r.id) { now = w.now; date_time = w.date_time })
          r
          (w.meddle r.id t)).1
        ≡ claimed mine
      → Starts mine
  unfolding claim_one claim_reply take_lease exec_update
  claimed-Starts r t listed h = (
    record {
      row = r;
      listed = (listed.0, ground arith);
      due = listed.1;
      ran = ground arith;
      status = ground arith;
      lease = ground arith;
      expiry = ground arith;
      attempts = ground arith;
    },
    elim (Bool-cases (lost r.id)) [
      | inr e ↦ ground arith
      | inl e ↦
          let none_left = taken_before r (w.date_time w.now) (w.meddle r.id t) (taken r.id e t) in
          absurd (ground arith)
    ],
  )

  started_with-Starts :
      (reply : Claim) (rest : List Job)
      → ((mine : Job) → reply ≡ claimed mine → Starts mine)
      → All Starts rest
      → All Starts (started_with reply rest)
  unfolding started_with
  started_with-Starts claim_error rest h k = k
  started_with-Starts not_claimed rest h k = k
  started_with-Starts (claimed r) rest h k = (h r refl, k)

  claim_all-Starts :
      (rs t : List Job)
      → All (λ r. IsJob r t₀ × IsDue (w.date_time w.now) r) rs
      → All Starts (claim_all c w rs t).1
  unfolding claim_all
  claim_all-Starts [] t h = tt
  claim_all-Starts (r ∷ rest) t h = elim (Bool-cases (w.acquires r.id)) [
    | inr full ↦ rw full tt
    | inl slot ↦
        let env : Env = record (w.envs r.id) { now = w.now; date_time = w.date_time } in
        let step = claim_one c env r (w.meddle r.id t) in
        rw slot (
          started_with-Starts step.1 (claim_all c w rest step.0).1
            (λ mine e. claimed-Starts r t h.0 e) (claim_all-Starts rest step.0 h.1))
  ]

length-started_with :
    (reply : Claim) (rest : List Job) → length (started_with reply rest) ≤ suc (length rest)
unfolding started_with
length-started_with claim_error rest = omega arith
length-started_with not_claimed rest = omega arith
length-started_with (claimed r) rest = omega arith

length-claim_all :
    (c : Config) (w : Poll) (rs t : List Job) → length (claim_all c w rs t).1 ≤ length rs
unfolding claim_all
length-claim_all c w [] t = omega arith
length-claim_all c w (r ∷ rest) t = elim (Bool-cases (w.acquires r.id)) [
  | inr full ↦ rw full (omega arith)
  | inl slot ↦
      let env : Env = record (w.envs r.id) { now = w.now; date_time = w.date_time } in
      let step = claim_one c env r (w.meddle r.id t) in
      let again = length-claim_all c w rest step.0 in
      rw slot (omega (arith, again, length-started_with step.1 (claim_all c w rest step.0).1))
]

length-due_batch :
    (c : Config) (now : ℕ) (t : List Job) → length (due_batch c now t) ≤ c.claim_batch
unfolding due_batch
length-due_batch c now t = length-take-le c.claim_batch _

-- One poll starts at most as many runs as the batch size says. Every run that it starts is of a
-- row of the table that was due (pending and its time come, or its lease over), by a statement
-- that did not fail, and has a record that is running, with the token drawn for it and a lease
-- from the instant of the poll. A job that others have taken when it is claimed, so that no row
-- with its id is due any more, is not started; others may do anything to the rows meanwhile.
pub claim_due-IsStarted :
    (c : Config) (w : Poll) (t : List Job) (lost : ℕ → Bool)
    → ((k : ℕ)
        → lost k ≡ true
        → (u : List Job) → All (λ j. j.id ≡ k → ¬ IsDue (w.date_time w.now) j) (w.meddle k u))
    → All (IsStarted c w t) (claim_due c w t).1
      × (length (claim_due c w t).1 ≤ c.claim_batch)
      × All (λ j. lost j.id ≡ false) (claim_due c w t).1
unfolding claim_due
claim_due-IsStarted c w t lost taken = elim (Bool-cases (w.ready && w.queried)) [
  | inr quiet ↦ rw quiet (tt, omega arith, tt)
  | inl asked ↦
      let now = w.date_time w.now in
      let batch = due_batch c now t in
      let starts = claim_all-Starts c w t lost taken batch t (due_batch-rows c now t) in
      let few = length-claim_all c w batch t in
      rw asked (
        All-weaken _ _ (claim_all c w batch t).1 (λ j k. k.0) starts,
        omega (arith, few, length-due_batch c now t),
        All-weaken _ _ (claim_all c w batch t).1 (λ j k. k.1) starts,
      )
]
