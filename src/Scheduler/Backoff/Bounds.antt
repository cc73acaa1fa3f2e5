-- ===== src/Scheduler/Backoff/Bounds.antt =====
-- The backoff delay stays in range, and is the capped power of two that the loop computes.
use Prim.Native.Nat.{min}
use native.Mathlib.Nat.{pow-suc, min-eq_right}
use native.Mathlib.Decide.{dec_le}
use pbvex.Base.{ℕ, zero, suc, ◌+◌, ◌-◌, ◌*◌, ◌^◌, ◌≤◌, ◌<◌, ◌≡◌, refl, arith, Bool-cases, inl, inr}
use pbvex.Scheduler.Duration.{lt_i64}
use pbvex.Scheduler.Config.{Config}
use pbvex.Scheduler.Backoff.{double_capped, backoff_loop, retry_backoff}

-- Delays below 146 years: doubling one does not leave int64.
abbrev pub IsModest : ℕ → Type 0
IsModest d = d < 2 ^ 62

double_capped_lem :
    (max base : ℕ) → IsModest max → base ≤ max → double_capped max base ≡ min max (base * 2)
unfolding double_capped
double_capped_lem max base h k = ground arith

pow_pos : (k : ℕ) → 0 < 2 ^ k
pow_pos zero = omega arith
pow_pos (suc k) = rw pow-suc (omega (arith, pow_pos k))

-- One more doubling before or after the cap makes no difference.
min-mul_cap : (m b p : ℕ) → 0 < p → min m (min m (b * 2) * p) ≡ min m (b * (p * 2))
min-mul_cap m b p h = elim (dec_le (b * 2) m) [
  | yes small ↦ rw (min-eq_right small) (omega arith)
  | no large ↦
      let cap : m ≤ m * p = grind arith in
      let below : m ≤ b * 2 * p = grind arith in
      let full : min m (b * 2) ≡ m = omega arith in rw full (omega arith)
]

le-mul_pow : (b k : ℕ) → b ≤ b * 2 ^ k
le-mul_pow b k = let p : 0 < 2 ^ k = pow_pos k in grind arith

full_pow : (b k : ℕ) → min b (b * 2 ^ k) ≡ b
full_pow b k = omega (arith, le-mul_pow b k)

-- At the cap the loop stops.
backoff_loop_cap :
    (rounds max base : ℕ) → IsModest max → base ≡ max → backoff_loop rounds max base ≡ max
unfolding backoff_loop
backoff_loop_cap zero max base h e = e
backoff_loop_cap (suc rounds) max base h e = ground arith

backoff_loop_above :
    (rounds max base : ℕ)
    → IsModest max
    → IsModest base
    → max ≤ base
    → backoff_loop rounds max base ≡ base
unfolding backoff_loop
backoff_loop_above zero max base h k e = refl
backoff_loop_above (suc rounds) max base h k e = ground arith

backoff_loop-eq :
    (rounds max base : ℕ)
    → IsModest max
    → base ≤ max
    → backoff_loop rounds max base ≡ min max (base * 2 ^ rounds)
unfolding backoff_loop
backoff_loop-eq zero max base h k = omega arith
backoff_loop-eq (suc rounds) max base h k =
    let step = double_capped_lem max base h k in
    let more : double_capped max base ≤ max = omega arith in
    let rest = backoff_loop-eq rounds max (double_capped max base) h more in
    let cap = min-mul_cap max base (2 ^ rounds) (pow_pos rounds) in
    elim (Bool-cases (lt_i64 base max)) [
      | inl below ↦ rw below (rw (rest, step, cap, pow-suc) refl)
      | inr reached ↦
          let full : base ≡ max = ground arith in
          rw reached (rw full (omega (arith, full_pow max (suc rounds))))
    ]

-- With a cap below 146 years, the first delay within the cap, and a jitter of at most its base,
-- the delay of attempt n is the first one doubled n - 1 times, capped, with the jitter added and
-- capped again; nothing wraps.
pub retry_backoff-eq :
    (c : Config) (jitter : ℕ → ℕ) (attempts : ℕ)
    → IsModest c.retry_max_delay
    → ((d : ℕ) → jitter d ≤ d)
    → c.retry_initial_delay ≤ c.retry_max_delay
    → let base = min c.retry_max_delay (c.retry_initial_delay * 2 ^ (attempts - 1)) in
      retry_backoff c jitter attempts ≡ min c.retry_max_delay (base + jitter base)
unfolding retry_backoff
retry_backoff-eq c jitter n h j k =
    rw (backoff_loop-eq (n - 1) c.retry_max_delay c.retry_initial_delay h k)
      (ground (arith, j (min c.retry_max_delay (c.retry_initial_delay * 2 ^ (n - 1)))))

-- A first delay above the cap is cut down to it at once.
retry_backoff_above :
    (c : Config) (jitter : ℕ → ℕ) (attempts : ℕ)
    → IsModest c.retry_max_delay
    → IsModest c.retry_initial_delay
    → ((d : ℕ) → jitter d ≤ d)
    → c.retry_max_delay ≤ c.retry_initial_delay
    → retry_backoff c jitter attempts ≡ c.retry_max_delay
unfolding retry_backoff
retry_backoff_above c jitter n h i j k =
    rw (backoff_loop_above (n - 1) c.retry_max_delay c.retry_initial_delay h i k)
      (ground (arith, j c.retry_initial_delay))

-- With both delays below 146 years and a jitter of at most its base, whatever the attempt, the
-- delay lies between the smaller of the two configured delays and the largest one, also where
-- the first delay is above the cap.
pub retry_backoff-bounds :
    (c : Config) (jitter : ℕ → ℕ) (attempts : ℕ)
    → IsModest c.retry_max_delay
    → IsModest c.retry_initial_delay
    → ((d : ℕ) → jitter d ≤ d)
    → (min c.retry_initial_delay c.retry_max_delay ≤ retry_backoff c jitter attempts)
      × (retry_backoff c jitter attempts ≤ c.retry_max_delay)
retry_backoff-bounds c jitter n h i j = elim (dec_le c.retry_initial_delay c.retry_max_delay) [
  | yes k ↦
      let base = min c.retry_max_delay (c.retry_initial_delay * 2 ^ (n - 1)) in
      let grows : c.retry_initial_delay ≤ c.retry_initial_delay * 2 ^ (n - 1) =
        le-mul_pow _ (n - 1) in
      rw (retry_backoff-eq c jitter n h j k) (omega (arith, j base))
  | no k ↦ rw (retry_backoff_above c jitter n h i j (omega arith)) (omega arith)
]
