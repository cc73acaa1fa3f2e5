-- ===== src/Scheduler/Listing/Ordered.antt =====
-- backend/internal/scheduler/service.go: the rows that the query of List selects, and their order.
use pbvex.Base.{
  ◌≤◌, ◌<◌, ◌≡◌, refl, ◌∙◌, Bool, Bool-cases, true, false, ◌&&◌, ◌↔◌, ◌⊎◌, inl, inr, Option, none,
  some, List, [], ◌∷◌, All, arith,
}
use pbvex.Sql.{count_rows, select_rows, insert_ordered, order_by}
use pbvex.Sql.Rows.{All-weaken}
use pbvex.Scheduler.Job.{Job, Status, pending, running, canceled, failed, completed}
use pbvex.Scheduler.Listing.{
  StatusFilter, all_statuses, only, unknown_status, same_status, passes_filter, ListCursor, ListEnv,
  after_cursor, later_first, matching,
}

-- The row has the status that was asked for.
abbrev pub IsAsked : StatusFilter → Job → Type 0
IsAsked all_statuses j = Unit
IsAsked (only s) j = j.status ≡ s
IsAsked unknown_status j = Unit

-- The row stands behind the last row of the page that the cursor was made from.
abbrev pub IsBehind : ListEnv → Option ListCursor → Job → Type 0
IsBehind env none j = Unit
IsBehind env (some c) j =
    (j.scheduled_at < env.date_time c.scheduled_at)
    ⊎ ((j.scheduled_at ≡ env.date_time c.scheduled_at) × (j.id < c.id))

-- Latest scheduled first, and of those at one time the largest id first.
abbrev pub MayPrecede : Job → Job → Type 0
MayPrecede a b =
    (b.scheduled_at < a.scheduled_at) ⊎ ((a.scheduled_at ≡ b.scheduled_at) × (b.id ≤ a.id))

abbrev pub IsSorted : List Job → Type 0
IsSorted [] = Unit
IsSorted (x ∷ xs) = All (MayPrecede x) xs × IsSorted xs

later_first-found : (a b : Job) → later_first a b ≡ true → MayPrecede a b
unfolding later_first
later_first-found a b h = ground arith

later_first-flips : (a b : Job) → later_first a b ≡ false → MayPrecede b a
unfolding later_first
later_first-flips a b h = ground arith

MayPrecede-trans : (a b c : Job) → MayPrecede a b → MayPrecede b c → MayPrecede a c
MayPrecede-trans a b c h k = ground arith

insert-All :
    (P : Job → Type 0) (x : Job) (xs : List Job)
    → P x
    → All P xs
    → All P (insert_ordered later_first x xs)
unfolding insert_ordered
insert-All P x [] h k = (h, tt)
insert-All P x (y ∷ ys) h k = elim (Bool-cases (later_first x y)) [
  | inl e ↦ rw e (h, k)
  | inr e ↦ rw e (k.0, insert-All P x ys h k.1)
]

insert-IsSorted :
    (x : Job) (xs : List Job) → IsSorted xs → IsSorted (insert_ordered later_first x xs)
unfolding insert_ordered
insert-IsSorted x [] h = (tt, tt)
insert-IsSorted x (y ∷ ys) h = elim (Bool-cases (later_first x y)) [
  | inl e ↦
      let first = later_first-found x y e in
      rw e ((first, All-weaken _ _ ys (λ z. MayPrecede-trans x y z first) h.0), h)
  | inr e ↦
      rw e (insert-All (MayPrecede y) x ys (later_first-flips x y e) h.0, insert-IsSorted x ys h.1)
]

order_by-IsSorted : (xs : List Job) → IsSorted (order_by later_first xs)
unfolding order_by
order_by-IsSorted [] = tt
order_by-IsSorted (x ∷ xs) = insert-IsSorted x (order_by later_first xs) (order_by-IsSorted xs)

count_rows-insert :
    (p : Job → Bool) (before : Job → Job → Bool) (x : Job) (xs : List Job)
    → count_rows p (insert_ordered before x xs) ≡ count_rows p (x ∷ xs)
unfolding insert_ordered count_rows
count_rows-insert p before x [] = refl
count_rows-insert p before x (y ∷ ys) =
    let ih = count_rows-insert p before x ys in
    elim (Bool-cases (before x y)) [ inl e ↦ rw e refl | inr e ↦ rw e (ground arith) ]

count_rows-order_by :
    (p : Job → Bool) (before : Job → Job → Bool) (xs : List Job)
    → count_rows p (order_by before xs) ≡ count_rows p xs
unfolding order_by count_rows
count_rows-order_by p before [] = refl
count_rows-order_by p before (x ∷ xs) =
    let ih = count_rows-order_by p before xs in
    let step = count_rows-insert p before x (order_by before xs) in ground arith

count_rows-select :
    (p q : Job → Bool) (xs : List Job)
    → count_rows p (select_rows q xs) ≡ count_rows (λ j. p j && q j) xs
unfolding select_rows count_rows
count_rows-select p q [] = refl
count_rows-select p q (x ∷ xs) = let ih = count_rows-select p q xs in ground arith

same_test : (a b : Bool) → (a ≡ true) ↔ (b ≡ true) → a ≡ b
same_test true b h = ground arith
same_test false true h = ground arith
same_test false false h = refl

pub count_rows-same :
    (p q : Job → Bool) (xs : List Job) → ((j : Job) → p j ≡ q j) → count_rows p xs ≡ count_rows q xs
unfolding count_rows
count_rows-same p q [] h = refl
count_rows-same p q (x ∷ xs) h = let ih = count_rows-same p q xs h in let here = h x in ground arith

same_status-found : (a b : Status) → same_status a b ≡ true → a ≡ b
same_status-found pending b h = ground arith
same_status-found running b h = ground arith
same_status-found canceled b h = ground arith
same_status-found failed b h = ground arith
same_status-found completed b h = ground arith

==_same_status : (a : Status) → same_status a a ≡ true
==_same_status pending = refl
==_same_status running = refl
==_same_status canceled = refl
==_same_status failed = refl
==_same_status completed = refl

pub passes_filter-eq :
    (filter : StatusFilter) (j : Job) (b : Bool)
    → (b ≡ true) ↔ IsAsked filter j
    → b ≡ passes_filter filter j
unfolding passes_filter
passes_filter-eq all_statuses j b h = h.1 tt
passes_filter-eq unknown_status j b h = h.1 tt
passes_filter-eq (only s) j b h =
    same_test b (same_status j.status s)
      (λ e. rw (h.0 e) (==_same_status s), λ e. h.1 (same_status-found j.status s e))

pub after_cursor-eq :
    (env : ListEnv) (c : Option ListCursor) (j : Job) (b : Bool)
    → (b ≡ true) ↔ IsBehind env c j
    → b ≡ after_cursor env c j
unfolding after_cursor
after_cursor-eq env none j b h = h.1 tt
after_cursor-eq env (some c) j b h =
    same_test b (after_cursor env (some c) j)
      (λ e. let k = h.0 e in ground arith, λ e. h.1 (ground arith))

-- The rows that a query lists: those that pass two tests, each as often as the table has it, in
-- the order of List.
pub record IsListing (asked behind : Job → Bool) (table rows : List Job) : Type 0 where
  pub same :
      (p : Job → Bool) → count_rows p rows ≡ count_rows (λ j. p j && (asked j && behind j)) table
  pub sorted : IsSorted rows

pub matching-IsListing :
    (env : ListEnv) (filter : StatusFilter) (c : Option ListCursor) (table : List Job)
    (asked behind : Job → Bool)
    → ((j : Job) → (asked j ≡ true) ↔ IsAsked filter j)
    → ((j : Job) → (behind j ≡ true) ↔ IsBehind env c j)
    → IsListing asked behind table (matching env filter c table)
unfolding matching
matching-IsListing env filter c table asked behind h k = record {
  same = λ p.
      count_rows-order_by p later_first
        (select_rows (λ j. passes_filter filter j && after_cursor env c j) table)
      ∙ count_rows-select p (λ j. passes_filter filter j && after_cursor env c j) table
      ∙ count_rows-same (λ j. p j && (passes_filter filter j && after_cursor env c j))
          (λ j. p j && (asked j && behind j)) table
          (λ j.
            let a = passes_filter-eq filter j (asked j) (h j) in
            let b = after_cursor-eq env c j (behind j) (k j) in rw (a, b) refl);
  sorted =
      order_by-IsSorted (select_rows (λ j. passes_filter filter j && after_cursor env c j) table);
}
