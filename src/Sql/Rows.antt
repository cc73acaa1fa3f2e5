-- ===== src/Sql/Rows.antt =====
-- Laws of updates and deletions over the rows of a table.
use pbvex.Base.{
  ℕ, zero, suc, ◌+◌, ◌≤◌, ◌<◌, ◌≡◌, refl, inl, inr, Bool, true, false, ◌&&◌, List, [], ◌∷◌, ◌++◌,
  arith, Bool-cases, All, none, some, take, Option-cases, ◌==◌,
}
use mathlib.Core.Path.{subst}
use pbvex.Sql.{
  Fault, no_fault, execute_fault, rows_fault, update_rows, delete_rows, count_rows, find_row,
  exec_update, insert_ordered, order_by, select_rows,
}

-- Two tables with related rows at equal places.
module _ {ℓ} {A : Type ℓ} (R : A → A → Type 0) where
  abbrev pub Pointwise : List A → List A → Type 0
  Pointwise [] [] = Unit
  Pointwise [] (y ∷ ys) = ⊥
  Pointwise (x ∷ xs) [] = ⊥
  Pointwise (x ∷ xs) (y ∷ ys) = R x y × Pointwise xs ys

module _ {ℓ} {A : Type ℓ} (R : A → A → Type 0) (stay : (x : A) → R x x) where
  pub Pointwise-refl : (t : List A) → Pointwise R t t
  Pointwise-refl [] = tt
  Pointwise-refl (x ∷ xs) = (stay x, Pointwise-refl xs)

  pub Pointwise-update_rows :
      (p : A → Bool) (f : A → A) (t : List A)
      → ((x : A) → p x ≡ true → R x (f x))
      → Pointwise R t (update_rows p f t)
  unfolding update_rows
  Pointwise-update_rows p f [] step = tt
  Pointwise-update_rows p f (x ∷ xs) step = elim (Bool-cases (p x)) [
    | inl e ↦ rw e (step x e, Pointwise-update_rows p f xs step)
    | inr e ↦ rw e (stay x, Pointwise-update_rows p f xs step)
  ]

  -- An UPDATE relates the table to the one after it, whichever fault it meets.
  pub Pointwise-exec_update :
      (fault : Fault) (p : A → Bool) (f : A → A) (t : List A)
      → ((x : A) → p x ≡ true → R x (f x))
      → Pointwise R t (exec_update fault p f t).0
  unfolding exec_update
  Pointwise-exec_update no_fault p f t step = Pointwise-update_rows p f t step
  Pointwise-exec_update execute_fault p f t step = Pointwise-refl t
  Pointwise-exec_update rows_fault p f t step = Pointwise-update_rows p f t step

module _ {ℓ κ} {A : Type ℓ} (R : A → A → Type 0) (P : A → Type κ) where
  pub Pointwise-All :
      (t u : List A) → ((x y : A) → R x y → P x → P y) → Pointwise R t u → All P t → All P u
  Pointwise-All [] [] keep r h = tt
  Pointwise-All [] (y ∷ ys) keep r h = absurd r
  Pointwise-All (x ∷ xs) [] keep r h = absurd r
  Pointwise-All (x ∷ xs) (y ∷ ys) keep r h = (keep x y r.0 h.0, Pointwise-All xs ys keep r.1 h.1)

module _ {ℓ} {A : Type ℓ} (R : A → A → Type 0) where
  pub Pointwise-count_rows :
      (p : A → Bool) (t u : List A)
      → ((x y : A) → R x y → p y ≡ p x)
      → Pointwise R t u
      → count_rows p u ≡ count_rows p t
  unfolding count_rows
  Pointwise-count_rows p [] [] same r = refl
  Pointwise-count_rows p [] (y ∷ ys) same r = absurd r
  Pointwise-count_rows p (x ∷ xs) [] same r = absurd r
  Pointwise-count_rows p (x ∷ xs) (y ∷ ys) same r =
      rw (same x y r.0, Pointwise-count_rows p xs ys same r.1) refl

module _ {ℓ} {A : Type ℓ} where
  abbrev pub Fails : (A → Bool) → List A → Type 0
  Fails p = All (λ x. p x ≡ false)

  -- Where no row passes the WHERE, nothing is written and nothing is counted.
  pub update_rows_none : (p : A → Bool) (f : A → A) (t : List A) → Fails p t → update_rows p f t ≡ t
  unfolding update_rows
  update_rows_none p f [] h = refl
  update_rows_none p f (x ∷ xs) h = rw (h.0, update_rows_none p f xs h.1) refl

  pub exec_update_none :
      (fault : Fault) (p : A → Bool) (f : A → A) (t : List A)
      → Fails p t
      → (exec_update fault p f t).0 ≡ t
  unfolding exec_update
  exec_update_none no_fault p f t h = update_rows_none p f t h
  exec_update_none execute_fault p f t h = refl
  exec_update_none rows_fault p f t h = update_rows_none p f t h

  pub count_rows_none : (p : A → Bool) (t : List A) → Fails p t → count_rows p t ≡ 0
  unfolding count_rows
  count_rows_none p [] h = refl
  count_rows_none p (x ∷ xs) h = rw (h.0, count_rows_none p xs h.1) refl

  pub count_rows-append :
      (p : A → Bool) (t u : List A) → count_rows p (t ++ u) ≡ count_rows p t + count_rows p u
  unfolding count_rows
  count_rows-append p [] u = omega arith
  count_rows-append p (x ∷ xs) u = elim (Bool-cases (p x)) [
    | inl e ↦ rw e (omega (arith, count_rows-append p xs u))
    | inr e ↦ rw e (omega (arith, count_rows-append p xs u))
  ]

module _ {ℓ κ} {A : Type ℓ} (P : A → Type κ) where
  pub All-append : (t u : List A) → All P t → All P u → All P (t ++ u)
  All-append [] u h k = k
  All-append (x ∷ xs) u h k = (h.0, All-append xs u h.1 k)

  pub All-delete_rows : (p : A → Bool) (t : List A) → All P t → All P (delete_rows p t)
  unfolding delete_rows
  All-delete_rows p [] h = tt
  All-delete_rows p (x ∷ xs) h = elim (Bool-cases (p x)) [
    | inl e ↦ rw e (All-delete_rows p xs h.1)
    | inr e ↦ rw e (h.0, All-delete_rows p xs h.1)
  ]

  pub All-select_rows : (p : A → Bool) (t : List A) → All P t → All P (select_rows p t)
  unfolding select_rows
  All-select_rows p [] h = tt
  All-select_rows p (x ∷ xs) h = elim (Bool-cases (p x)) [
    | inl e ↦ rw e (h.0, All-select_rows p xs h.1)
    | inr e ↦ rw e (All-select_rows p xs h.1)
  ]

  pub All-insert_ordered :
      (before : A → A → Bool) (x : A) (t : List A)
      → P x
      → All P t
      → All P (insert_ordered before x t)
  unfolding insert_ordered
  All-insert_ordered before x [] h k = (h, tt)
  All-insert_ordered before x (y ∷ ys) h k = elim (Bool-cases (before x y)) [
    | inl e ↦ rw e (h, k)
    | inr e ↦ rw e (k.0, All-insert_ordered before x ys h k.1)
  ]

  pub All-order_by : (before : A → A → Bool) (t : List A) → All P t → All P (order_by before t)
  unfolding order_by
  All-order_by before [] h = tt
  All-order_by before (x ∷ xs) h =
      All-insert_ordered before x (order_by before xs) h.0 (All-order_by before xs h.1)

  pub All-take : (n : ℕ) (t : List A) → All P t → All P (take n t)
  All-take zero t h = tt
  All-take (suc n) [] h = tt
  All-take (suc n) (x ∷ xs) h = (h.0, All-take n xs h.1)

  -- The row that a query returns passes its test, and has what every row has.
  pub All-find_row :
      (p : A → Bool) (t : List A) {x : A} → find_row p t ≡ some x → All P t → (p x ≡ true) × P x
  unfolding find_row
  All-find_row p [] e h = cc
  All-find_row p (y ∷ ys) {x} e h = elim (Bool-cases (p y)) [
    | inl passes ↦
        let here : y ≡ x = ground arith in subst (λ z. (p z ≡ true) × P z) here (passes, h.0)
    | inr fails ↦ All-find_row p ys (rw fails at e) h.1
  ]

module _ {ℓ κ μ} {A : Type ℓ} (P : A → Type κ) (Q : A → Type μ) where
  pub All-zip : (t : List A) → All P t → All Q t → All (λ x. P x × Q x) t
  All-zip [] h k = tt
  All-zip (x ∷ xs) h k = ((h.0, k.0), All-zip xs h.1 k.1)

  pub All-weaken : (t : List A) → ((x : A) → P x → Q x) → All P t → All Q t
  All-weaken [] f h = tt
  All-weaken (x ∷ xs) f h = (f x h.0, All-weaken xs f h.1)

  -- An UPDATE, by what holds of the rows before it.
  pub All-update_map :
      (p : A → Bool) (f : A → A) (t : List A)
      → ((x : A) → p x ≡ true → P x → Q (f x))
      → ((x : A) → p x ≡ false → P x → Q x)
      → All P t
      → All Q (update_rows p f t)
  unfolding update_rows
  All-update_map p f [] yes_step no_step h = tt
  All-update_map p f (x ∷ xs) yes_step no_step h = elim (Bool-cases (p x)) [
    | inl e ↦ rw e (yes_step x e h.0, All-update_map p f xs yes_step no_step h.1)
    | inr e ↦ rw e (no_step x e h.0, All-update_map p f xs yes_step no_step h.1)
  ]

module _ {ℓ} {A : Type ℓ} where
  -- A DELETE takes out of each count what passed both tests.
  pub count_rows-delete_rows :
      (p q : A → Bool) (t : List A)
      → count_rows q (delete_rows p t) + count_rows (λ x. q x && p x) t ≡ count_rows q t
  unfolding count_rows delete_rows
  count_rows-delete_rows p q [] = omega arith
  count_rows-delete_rows p q (x ∷ xs) = ground (arith, count_rows-delete_rows p q xs)

  pub find_row-none : (p : A → Bool) (t : List A) → find_row p t ≡ none → Fails p t
  unfolding find_row
  find_row-none p [] e = tt
  find_row-none p (x ∷ xs) e = elim (Bool-cases (p x)) [
    | inl passes ↦ absurd (ground arith)
    | inr fails ↦ (fails, find_row-none p xs (ground arith))
  ]

  -- Tests that exclude one another and imply a third share its rows.
  pub count_rows-add_le :
      (p q u : A → Bool) (t : List A)
      → ((x : A) → p x ≡ true → (u x ≡ true) × (q x ≡ false))
      → ((x : A) → q x ≡ true → u x ≡ true)
      → count_rows p t + count_rows q t ≤ count_rows u t
  unfolding count_rows
  count_rows-add_le p q u [] hp hq = omega arith
  count_rows-add_le p q u (x ∷ xs) hp hq =
      ground (arith, count_rows-add_le p q u xs hp hq, hp x, hq x)

  pub find_row-count_rows :
      (p : A → Bool) (t : List A) {x : A} → find_row p t ≡ some x → 0 < count_rows p t
  unfolding find_row count_rows
  find_row-count_rows p [] e = absurd (ground arith)
  find_row-count_rows p (y ∷ ys) {x} e = elim (Bool-cases (p y)) [
    | inl passes ↦ rw passes (omega arith)
    | inr fails ↦
        let later : find_row p ys ≡ some x = ground arith in
        rw fails (find_row-count_rows p ys later)
  ]

pub All-of {ℓ κ} : {A : Type ℓ} (P : A → Type κ) (t : List A) → ((x : A) → P x) → All P t
All-of P [] h = tt
All-of P (x ∷ xs) h = (h x, All-of P xs h)

module _ {ℓ} {A : Type ℓ} where
  pub find_row_pos :
      (p : A → Bool) (t : List A) → 0 < count_rows p t → (x : A) × (find_row p t ≡ some x)
  find_row_pos p t h = elim (Option-cases (find_row p t)) [
    | inl missing ↦
        let zero_rows = count_rows_none p t (find_row-none p t missing) in absurd (omega arith)
    | inr found ↦ found
  ]

  -- Each row counts among those that share its column.
  pub count_column_pos : (f : A → ℕ) (t : List A) → All (λ x. 0 < count_rows (λ y. f y == f x) t) t
  unfolding count_rows
  count_column_pos f [] = tt
  count_column_pos f (x ∷ xs) =
      (ground arith, All-weaken _ _ xs (λ y h. ground arith) (count_column_pos f xs))
