-- ===== src/Scheduler/Edges.antt =====
-- The life of a job's row: which changes of a row the scheduler makes, as a relation that does not
-- mention the code, and what it keeps.
use pbvex.Base.{ℕ, ◌+◌, ◌<◌, ◌≡◌, refl, ◌≢◌, ◌⊎◌, true, List, arith}
use pbvex.Sql.Rows.{Pointwise, Pointwise-refl}
use pbvex.Scheduler.Job.{Job, pending, running, canceled, failed, completed, is_open, is_terminal}

-- The columns that no operation writes after the insertion.
pub record Kept (j k : Job) : Type 0 where
  pub id : k.id ≡ j.id
  pub deployment : k.deployment_id ≡ j.deployment_id
  pub payload : k.payload ≡ j.payload
  pub created : k.created ≡ j.created

-- A row that no attempt holds.
pub record IsIdle (j : Job) : Type 0 where
  pub lease : j.lease ≡ 0
  pub expiry : j.lease_expires_at ≡ 0

-- A row that an attempt holds.
pub record IsHeld (j : Job) : Type 0 where
  pub status : j.status ≡ running
  pub lease : 0 < j.lease
  pub expiry : 0 < j.lease_expires_at
  pub started : 0 < j.started
  pub attempts : 0 < j.attempts

-- The changes of a row by one operation that draws the lease token `u`.
pub data Edge (u : ℕ) (j k : Job) : Type 0 where
  stay : k ≡ j → Edge u j k
  claim :
      is_open j.status ≡ true
      → IsHeld k
      → k.lease ≡ u
      → k.attempts ≡ j.attempts + 1
      → k.finished ≡ j.finished
      → Kept j k
      → Edge u j k
  renew :
      j.status ≡ running
      → k.status ≡ running
      → k.lease ≡ j.lease
      → 0 < k.lease_expires_at
      → k.started ≡ j.started
      → k.attempts ≡ j.attempts
      → k.finished ≡ j.finished
      → Kept j k
      → Edge u j k
  yield :
      j.status ≡ running
      → k.status ≡ pending
      → IsIdle k
      → k.finished ≡ j.finished
      → Kept j k
      → Edge u j k
  settle :
      j.status ≡ running
      → (k.status ≡ completed) ⊎ (k.status ≡ failed)
      → IsIdle k
      → 0 < k.finished
      → Kept j k
      → Edge u j k
  cancel :
      is_open j.status ≡ true
      → k.status ≡ canceled
      → IsIdle k
      → 0 < k.finished
      → Kept j k
      → Edge u j k
  requeue :
      is_terminal j.status ≡ true
      → k.status ≡ pending
      → IsIdle k
      → k.finished ≡ 0
      → k.attempts ≡ 0
      → Kept j k
      → Edge u j k

-- What holds of every row between two operations: a running row, and no other, carries a lease
-- with an expiry, and a finished time stands in the terminal rows, and in no other.
pub record IsValid (j : Job) : Type 0 where
  pub held : j.status ≡ running → IsHeld j
  pub idle : j.status ≢ running → IsIdle j
  pub unfinished : is_open j.status ≡ true → j.finished ≡ 0
  pub ended : is_terminal j.status ≡ true → 0 < j.finished

-- Every change of the diagram keeps a row valid.
pub Edge-IsValid : (u : ℕ) (j k : Job) → Edge u j k → IsValid j → IsValid k
Edge-IsValid u j k (stay e) v = ground arith
Edge-IsValid u j k (claim o h l a f kept) v = ground arith
Edge-IsValid u j k (renew r r' l x s a f kept) v = ground arith
Edge-IsValid u j k (yield r p i f kept) v = ground arith
Edge-IsValid u j k (settle r e i f kept) v = ground arith
Edge-IsValid u j k (cancel o c i f kept) v = ground arith
Edge-IsValid u j k (requeue t p i f a kept) v = ground arith

pub Edge-Kept : (u : ℕ) (j k : Job) → Edge u j k → Kept j k
Edge-Kept u j k (stay e) = ground arith
Edge-Kept u j k (claim o h l a f kept) = kept
Edge-Kept u j k (renew r r' l x s a f kept) = kept
Edge-Kept u j k (yield r p i f kept) = kept
Edge-Kept u j k (settle r e i f kept) = kept
Edge-Kept u j k (cancel o c i f kept) = kept
Edge-Kept u j k (requeue t p i f a kept) = kept

-- The changes of a whole table by one operation.
abbrev pub Moves : ℕ → List Job → List Job → Type 0
Moves u = Pointwise (Edge u)

pub Moves-refl : (u : ℕ) (t : List Job) → Moves u t t
Moves-refl u = Pointwise-refl (Edge u) (λ j. stay refl)
