-- ===== src/Deploy/Repo/Pins.antt =====
-- What Pin does to the deployments table.
use mathlib.Core.Path.{subst}
use pbvex.Base.{
  ℕ, zero, suc, ◌+◌, ◌-◌, ◌==◌, ◌≡◌, refl, ◌≢◌, ◌⊎◌, ◌<◌, Bool, true, false, ◌&&◌, some, List, [],
  ◌∷◌, ℤ, pos, negsuc, ok, err, All, arith, inl, inr, Bool-cases, Option-cases, ltb,
}
use pbvex.Sql.{Fault, no_fault, execute_fault, rows_fault, find_row, update_rows, exec_update}
use pbvex.Sql.Rows.{
  Pointwise, Pointwise-update_rows, Fails, All-find_row, All-zip, All-weaken, All-update_map,
  find_row-none,
}
use pbvex.Sql.Unique.{Distinct, Pointwise-Distinct}
use pbvex.Deploy.Repo.{
  Deployment, deployment_not_found, get_deployment, pin, pin_found, pin_record, pin_reply,
}

-- Both keys of the table are unique.
pub record Keyed (t : List Deployment) : Type 0 where
  pub by_id : Distinct (λ d. d.id) t
  pub by_deployment : Distinct (λ d. d.deployment_id) t

-- The record id of the row that GetDeployment finds picks the same rows as the deployment id.
same_row :
    (id : ℕ) (t : List Deployment) {d : Deployment}
    → find_row (λ x. x.deployment_id == id) t ≡ some d
    → Distinct (λ x. x.id) t
    → Distinct (λ x. x.deployment_id) t
    → All (λ x. (x.id == d.id) ≡ (x.deployment_id == id)) t
unfolding find_row
same_row id [] found i k = tt
same_row id (x ∷ xs) {d} found i k = elim (Bool-cases (x.deployment_id == id)) [
  | inl here ↦
      let first : x ≡ d = ground arith in
      subst (λ z. All (λ (y : Deployment). (y.id == z.id) ≡ (y.deployment_id == id)) (x ∷ xs)) first
        (ground arith, All-weaken _ _ xs (λ y ne. ground arith) (All-zip _ _ xs i.0 k.0))
  | inr later ↦
      let rest : find_row (λ (y : Deployment). y.deployment_id == id) xs ≡ some d = ground arith in
      let other = (All-find_row (λ (y : Deployment). y.id ≢ x.id) _ xs rest i.0).1 in
      (ground arith, same_row id xs rest i.1 k.1)
]

abbrev pub add_pins : ℕ → Deployment → Deployment
add_pins n x = record x { pin_count = x.pin_count + n }

abbrev pub drop_pin : Deployment → Deployment
drop_pin x = record x { pin_count = x.pin_count - 1 }

-- The row that Pin finds, whatever the delta.
pub pin-found :
    (queried : Bool) (fault : Fault) (id : ℕ) (delta : ℤ) (t : List Deployment)
    {t' : List Deployment}
    → delta ≢ pos 0
    → pin queried fault id delta t ≡ ok t'
    → (d : Deployment) × (find_row (λ x. x.deployment_id == id) t ≡ some d)
      × (pin_record fault delta d t ≡ ok t')
unfolding pin get_deployment
pin-found queried fault id (pos zero) t nz h = absurd (nz refl)
pin-found true fault id (pos (suc n)) t nz h =
    elim (Option-cases (find_row (λ x. x.deployment_id == id) t)) [
      | inl missing ↦ absurd (ground arith)
      | inr (d, found) ↦ (d, found, ground arith)
    ]
pin-found true fault id (negsuc n) t nz h =
    elim (Option-cases (find_row (λ x. x.deployment_id == id) t)) [
      | inl missing ↦ absurd (ground arith)
      | inr (d, found) ↦ (d, found, ground arith)
    ]
pin-found false fault id (pos (suc n)) t nz h = absurd (ground arith)
pin-found false fault id (negsuc n) t nz h = absurd (ground arith)

pin_up_table :
    (fault : Fault) (n : ℕ) (d : Deployment) (t : List Deployment) {t' : List Deployment}
    → pin_record fault (pos (suc n)) d t ≡ ok t'
    → t' ≡ update_rows (λ x. x.id == d.id) (add_pins (suc n)) t
unfolding pin_record pin_reply exec_update
pin_up_table no_fault n d t h = ground arith
pin_up_table execute_fault n d t h = absurd (ground arith)
pin_up_table rows_fault n d t h = absurd (ground arith)

pin_down_table :
    (fault : Fault) (n : ℕ) (d : Deployment) (t : List Deployment) {t' : List Deployment}
    → pin_record fault (negsuc n) d t ≡ ok t'
    → t' ≡ update_rows (λ x. x.id == d.id && ltb 0 x.pin_count) drop_pin t
unfolding pin_record pin_reply exec_update
pin_down_table no_fault n d t h = ground arith
pin_down_table execute_fault n d t h = absurd (ground arith)
pin_down_table rows_fault n d t h = absurd (ground arith)

module _ (t : List Deployment) (keyed : Keyed t) where
  -- A pin by n adds n to the counter of the deployment, and changes no other row.
  pub pin_up-All :
      (P : Deployment → Type 0) (Q : Deployment → Type 0) (queried : Bool) (fault : Fault)
      (id n : ℕ) {t' : List Deployment}
      → pin queried fault id (pos (suc n)) t ≡ ok t'
      → ((x : Deployment) → P x → x.deployment_id ≡ id → Q (add_pins (suc n) x))
      → ((x : Deployment) → P x → x.deployment_id ≢ id → Q x)
      → All P t
      → All Q t'
  pin_up-All P Q queried fault id n {t'} h hit miss all =
      let (d, found, done) = pin-found queried fault id (pos (suc n)) t (λ e. cc) h in
      let rows = same_row id t found keyed.by_id keyed.by_deployment in
      rw (pin_up_table fault n d t done) (
        All-update_map (λ x. P x × ((x.id == d.id) ≡ (x.deployment_id == id))) Q (λ x. x.id == d.id)
          (add_pins (suc n)) t (λ x e k. hit x k.0 (ground arith))
          (λ x e k. miss x k.0 (λ q. ground arith)) (All-zip P _ t all rows))

  -- Giving a pin back takes one from the counter of the deployment, and changes no other row.
  pub pin_down-All :
      (P : Deployment → Type 0) (Q : Deployment → Type 0) (queried : Bool) (fault : Fault)
      (id n : ℕ) {t' : List Deployment}
      → pin queried fault id (negsuc n) t ≡ ok t'
      → ((x : Deployment) → P x → x.deployment_id ≡ id → 0 < x.pin_count → Q (drop_pin x))
      → ((x : Deployment) → P x → (x.deployment_id ≢ id) ⊎ (x.pin_count ≡ 0) → Q x)
      → All P t
      → All Q t'
  pin_down-All P Q queried fault id n {t'} h hit miss all =
      let (d, found, done) = pin-found queried fault id (negsuc n) t (λ e. cc) h in
      let rows = same_row id t found keyed.by_id keyed.by_deployment in
      rw (pin_down_table fault n d t done) (
        All-update_map (λ x. P x × ((x.id == d.id) ≡ (x.deployment_id == id))) Q
          (λ x. x.id == d.id && ltb 0 x.pin_count) drop_pin t
          (λ x e k. hit x k.0 (ground arith) (ground arith)) (λ x e k. miss x k.0 (ground arith))
          (All-zip P _ t all rows))

-- Rows with the same keys.
abbrev pub SameKeys : Deployment → Deployment → Type 0
SameKeys x y = (y.id ≡ x.id) × (y.deployment_id ≡ x.deployment_id)

-- A pin keeps the keys of every row.
pub pin-SameKeys :
    (queried : Bool) (fault : Fault) (id : ℕ) (delta : ℤ) (t : List Deployment)
    {t' : List Deployment}
    → delta ≢ pos 0
    → pin queried fault id delta t ≡ ok t'
    → Pointwise SameKeys t t'
pin-SameKeys queried fault id (pos zero) t nz h = absurd (nz refl)
pin-SameKeys queried fault id (pos (suc n)) t nz h =
    let (d, found, done) = pin-found queried fault id (pos (suc n)) t nz h in
    rw (pin_up_table fault n d t done)
      (Pointwise-update_rows SameKeys (λ x. (refl, refl)) _ _ t (λ x e. (refl, refl)))
pin-SameKeys queried fault id (negsuc n) t nz h =
    let (d, found, done) = pin-found queried fault id (negsuc n) t nz h in
    rw (pin_down_table fault n d t done)
      (Pointwise-update_rows SameKeys (λ x. (refl, refl)) _ _ t (λ x e. (refl, refl)))

pub SameKeys-Keyed : (t u : List Deployment) → Pointwise SameKeys t u → Keyed t → Keyed u
SameKeys-Keyed t u same k = record {
  by_id = Pointwise-Distinct (λ d. d.id) SameKeys t u (λ x y e. e.0) same k.by_id;
  by_deployment =
      Pointwise-Distinct (λ d. d.deployment_id) SameKeys t u (λ x y e. e.1) same k.by_deployment;
}

-- A pin of a deployment that is not there: only GetDeployment says so when a pin is given back.
pub pin_down-missing :
    (queried : Bool) (fault : Fault) (id n : ℕ) (t : List Deployment)
    → pin queried fault id (negsuc n) t ≡ err deployment_not_found
    → Fails (λ x. x.deployment_id == id) t
unfolding pin get_deployment pin_found pin_record pin_reply
pin_down-missing false fault id n t h = absurd (ground arith)
pin_down-missing true fault id n t h =
    elim (Option-cases (find_row (λ x. x.deployment_id == id) t)) [
      | inl missing ↦ find_row-none _ t missing
      | inr (d, found) ↦ absurd (ground arith)
    ]
