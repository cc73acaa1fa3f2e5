-- ===== src/Sql/Unique.antt =====
-- Tables whose rows have distinct keys, as a primary key or a unique index keeps them.
use mathlib.Core.Path.{subst}
use pbvex.Base.{
  ℕ, zero, suc, ◌≤◌, ◌<◌, ◌≡◌, refl, sym, ◌∙◌, ◌≢◌, inl, inr, Bool, true, false, List, [], ◌∷◌,
  ◌++◌, arith, Bool-cases, All, take, ap, ◌==◌, ◌&&◌, ==_self,
}
use pbvex.Sql.{update_rows, delete_rows, count_rows, select_rows, insert_ordered, order_by}
use pbvex.Sql.Rows.{
  Pointwise, Fails, All-append, All-select_rows, All-insert_ordered, All-order_by, All-take,
  All-weaken, All-zip, All-delete_rows, count_rows_none, update_rows_none,
}

module _ {ℓ} {A : Type ℓ} (key : A → ℕ) where
  abbrev pub Distinct : List A → Type 0
  Distinct [] = Unit
  Distinct (x ∷ xs) = All (λ y. key y ≢ key x) xs × Distinct xs

  Pointwise-ne :
      (R : A → A → Type 0) (a : ℕ) (t u : List A)
      → ((x y : A) → R x y → key y ≡ key x)
      → Pointwise R t u
      → All (λ y. key y ≢ a) t
      → All (λ y. key y ≢ a) u
  Pointwise-ne R a [] [] same r h = tt
  Pointwise-ne R a [] (y ∷ ys) same r h = absurd r
  Pointwise-ne R a (x ∷ xs) [] same r h = absurd r
  Pointwise-ne R a (x ∷ xs) (y ∷ ys) same r h =
      ((λ e. h.0 (sym (same x y r.0) ∙ e)), Pointwise-ne R a xs ys same r.1 h.1)

  pub Pointwise-Distinct :
      (R : A → A → Type 0) (t u : List A)
      → ((x y : A) → R x y → key y ≡ key x)
      → Pointwise R t u
      → Distinct t
      → Distinct u
  Pointwise-Distinct R [] [] same r h = tt
  Pointwise-Distinct R [] (y ∷ ys) same r h = absurd r
  Pointwise-Distinct R (x ∷ xs) [] same r h = absurd r
  Pointwise-Distinct R (x ∷ xs) (y ∷ ys) same r h = (
    rw (same x y r.0) (Pointwise-ne R (key x) xs ys same r.1 h.0),
    Pointwise-Distinct R xs ys same r.1 h.1,
  )

  pub Distinct-append_one :
      (t : List A) (x : A) → All (λ y. key y ≢ key x) t → Distinct t → Distinct (t ++ x ∷ [])
  Distinct-append_one [] x h d = (tt, tt)
  Distinct-append_one (y ∷ ys) x h d =
      (All-append _ ys (x ∷ []) d.0 ((λ e. h.0 (sym e)), tt), Distinct-append_one ys x h.1 d.1)

  pub Distinct-delete_rows : (p : A → Bool) (t : List A) → Distinct t → Distinct (delete_rows p t)
  unfolding delete_rows
  Distinct-delete_rows p [] d = tt
  Distinct-delete_rows p (x ∷ xs) d = elim (Bool-cases (p x)) [
    | inl e ↦ rw e (Distinct-delete_rows p xs d.1)
    | inr e ↦ rw e (All-delete_rows _ p xs d.0, Distinct-delete_rows p xs d.1)
  ]

  -- A test that only rows with the key `a` pass fails where no row has that key.
  pub Fails-ne :
      (p : A → Bool) (a : ℕ)
      → ((x : A) → p x ≡ true → key x ≡ a)
      → (t : List A) → All (λ y. key y ≢ a) t
      → Fails p t
  Fails-ne p a keyed [] h = tt
  Fails-ne p a keyed (x ∷ xs) h = elim (Bool-cases (p x)) [
    | inl e ↦ absurd (h.0 (keyed x e))
    | inr e ↦ (e, Fails-ne p a keyed xs h.1)
  ]

  -- A WHERE that fixes the key: it passes at most one row.
  module _ (p : A → Bool) (a : ℕ) (keyed : (x : A) → p x ≡ true → key x ≡ a) where
    count_pos-ne : (b : ℕ) (t : List A) → 0 < count_rows p t → All (λ y. key y ≢ b) t → b ≢ a
    count_pos-ne b t h k e =
        let none =
          count_rows_none p t (Fails-ne p a keyed t (subst (λ z. All (λ y. key y ≢ z) t) e k)) in
        omega arith

    pub count_rows-le_one : (t : List A) → Distinct t → count_rows p t ≤ 1
    unfolding count_rows
    count_rows-le_one [] d = omega arith
    count_rows-le_one (x ∷ xs) d = elim (Bool-cases (p x)) [
      | inl e ↦
          let none =
            count_rows_none p xs
              (Fails-ne p a keyed xs (subst (λ z. All (λ y. key y ≢ z) xs) (keyed x e) d.0)) in
          rw e (omega arith)
      | inr e ↦ rw e (count_rows-le_one xs d.1)
    ]

    -- Where the UPDATE writes its one row, another test that the written row fails, and that
    -- only rows with the key can pass, passes nowhere afterwards.
    pub update_rows-Fails :
        (q : A → Bool) (f : A → A) (t : List A)
        → ((x : A) → p x ≡ true → q (f x) ≡ false)
        → ((x : A) → q x ≡ true → key x ≡ a)
        → Distinct t
        → 0 < count_rows p t
        → Fails q (update_rows p f t)
    unfolding update_rows count_rows
    update_rows-Fails q f [] wr qk d h = absurd (omega arith)
    update_rows-Fails q f (x ∷ xs) wr qk d h = elim (Bool-cases (p x)) [
      | inl e ↦
          let ne = subst (λ z. All (λ y. key y ≢ z) xs) (keyed x e) d.0 in
          rw (e, update_rows_none p f xs (Fails-ne p a keyed xs ne)) (wr x e, Fails-ne q a qk xs ne)
      | inr e ↦
          let more : 0 < count_rows p xs = rw e at h in
          let other = count_pos-ne (key x) xs more d.0 in
          rw e (elim (Bool-cases (q x)) [
            | inl passes ↦ absurd (other (qk x passes))
            | inr fails ↦ (fails, update_rows-Fails q f xs wr qk d.1 more)
          ])
    ]

module _ {ℓ} {A : Type ℓ} (key : A → ℕ) where
  pub Distinct-select_rows :
      (p : A → Bool) (t : List A) → Distinct key t → Distinct key (select_rows p t)
  unfolding select_rows
  Distinct-select_rows p [] d = tt
  Distinct-select_rows p (x ∷ xs) d = elim (Bool-cases (p x)) [
    | inl e ↦ rw e (All-select_rows _ p xs d.0, Distinct-select_rows p xs d.1)
    | inr e ↦ rw e (Distinct-select_rows p xs d.1)
  ]

  Distinct-insert_ordered :
      (before : A → A → Bool) (x : A) (t : List A)
      → All (λ y. key y ≢ key x) t
      → Distinct key t
      → Distinct key (insert_ordered before x t)
  unfolding insert_ordered
  Distinct-insert_ordered before x [] h d = (tt, tt)
  Distinct-insert_ordered before x (y ∷ ys) h d = elim (Bool-cases (before x y)) [
    | inl e ↦ rw e (h, d)
    | inr e ↦ rw e (
      All-insert_ordered _ before x ys (λ q. h.0 (sym q)) d.0,
      Distinct-insert_ordered before x ys h.1 d.1,
    )
  ]

  pub Distinct-order_by :
      (before : A → A → Bool) (t : List A) → Distinct key t → Distinct key (order_by before t)
  unfolding order_by
  Distinct-order_by before [] d = tt
  Distinct-order_by before (x ∷ xs) d =
      Distinct-insert_ordered before x (order_by before xs) (All-order_by _ before xs d.0)
        (Distinct-order_by before xs d.1)

  pub Distinct-take : (n : ℕ) (t : List A) → Distinct key t → Distinct key (take n t)
  Distinct-take zero t d = tt
  Distinct-take (suc n) [] d = tt
  Distinct-take (suc n) (x ∷ xs) d = (All-take _ n xs d.0, Distinct-take n xs d.1)

  -- Rows of one table with equal keys are one row, so they agree in every other column.
  pub keys_agree :
      (f : A → ℕ) (t : List A)
      → Distinct key t
      → All (λ x. All (λ y. key y ≡ key x → f y ≡ f x) t) t
  keys_agree f [] d = tt
  keys_agree f (x ∷ xs) d = (
    ((λ e. refl), All-weaken _ _ xs (λ y ne e. absurd (ne e)) d.0),
    All-weaken _ _ xs (λ y both. ((λ e. absurd (both.0 (sym e))), both.1))
        (All-zip _ _ xs d.0 (keys_agree f xs d.1)),
  )

  -- Every row of the table is found once by its key and another column.
  pub count_key-one :
      (f : A → ℕ) (t : List A)
      → Distinct key t
      → All (λ x. count_rows (λ y. f y == f x && key y == key x) t ≡ 1) t
  unfolding count_rows
  count_key-one f [] d = tt
  count_key-one f (x ∷ xs) d = (
    rw (==_self (f x), ==_self (key x))
        (ap suc (count_rows_none _ xs (All-weaken _ _ xs (λ y ne. ground arith) d.0))),
    All-weaken _ _ xs (λ y both. ground arith) (All-zip _ _ xs d.0 (count_key-one f xs d.1)),
  )
