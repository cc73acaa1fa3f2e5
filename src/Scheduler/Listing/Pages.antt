-- ===== src/Scheduler/Listing/Pages.antt =====
-- backend/internal/scheduler/service.go: the pages that List returns.
use pbvex.Base.{
  ℕ, zero, suc, ◌==◌, ltb, Bool, true, ◌&&◌, Option, none, List, [], ◌∷◌, map, length, take, ℤ, pos,
  negsuc, ok, if◌then◌else◌, ◌≡◌, refl, ◌≤◌, ◌<◌, ◌↔◌, arith, All, ap, sym, ◌∙◌, inl, inr,
  Bool-cases, length-take-le,
}
use pbvex.Sql.{count_rows, select_rows}
use pbvex.Sql.Rows.{All-take, All-order_by, All-weaken}
use pbvex.Scheduler.Job.{Job}
use pbvex.Scheduler.Listing.Ordered.{
  IsAsked, IsBehind, IsListing, matching-IsListing, passes_filter-eq, count_rows-same,
}
use pbvex.Scheduler.Listing.{
  JobStatus, job_status_from_record, StatusFilter, all_statuses, only, unknown_status, same_status,
  passes_filter, ListCursor, ListEnv, after_cursor, later_first, page_limit, ListResult,
  list_result, matching, list_page, list_jobs,
}

-- The item's status is the one that was asked for.
abbrev pub Wanted : StatusFilter → JobStatus → Type 0
Wanted (only s) j = same_status j.status s ≡ true
Wanted _ j = Unit

-- A page of the rows that match the query, in its order.
pub record IsPage (env : ListEnv) (filter : StatusFilter) (rows : List Job) (r : ListResult)
    : Type 0 where
  pub limited : (1 ≤ r.limit) × (r.limit ≤ 200)
  pub front : r.items ≡ map (job_status_from_record env.time) (take r.limit rows)
  pub short : length r.items ≤ r.limit
  pub wanted : All (Wanted filter) r.items
  pub more : (r.has_more ≡ true) ↔ (r.limit < length rows)

page_limit-bounds : (limit : ℤ) → (1 ≤ page_limit limit) × (page_limit limit ≤ 200)
unfolding page_limit
page_limit-bounds (pos zero) = ground arith
page_limit-bounds (pos (suc n)) = ground arith
page_limit-bounds (negsuc n) = ground arith

length-map : {A B : Type 0} (f : A → B) (xs : List A) → length (map f xs) ≡ length xs
length-map f [] = refl
length-map f (x ∷ xs) = ap suc (length-map f xs)

length-take_succ :
    {A : Type 0} (n : ℕ) (xs : List A) → (n < length (take (suc n) xs)) ↔ (n < length xs)
length-take_succ zero [] = ground arith
length-take_succ zero (x ∷ xs) = ground arith
length-take_succ (suc n) [] = ground arith
length-take_succ (suc n) (x ∷ xs) = ground (arith, length-take_succ n xs)

take-take_succ : {A : Type 0} (n : ℕ) (xs : List A) → take n (take (suc n) xs) ≡ take n xs
take-take_succ zero xs = refl
take-take_succ (suc n) [] = refl
take-take_succ (suc n) (x ∷ xs) = ap (λ t. x ∷ t) (take-take_succ n xs)

take-short : {A : Type 0} (n : ℕ) (xs : List A) → length xs ≤ n → take n xs ≡ xs
take-short zero [] h = refl
take-short zero (x ∷ xs) h = ground arith
take-short (suc n) [] h = refl
take-short (suc n) (x ∷ xs) h = ap (λ t. x ∷ t) (take-short n xs (omega (arith, h)))

-- What is left of the query's records once the extra one is dropped.
front-take :
    {A : Type 0} (n : ℕ) (rows : List A)
    → (if ltb n (length (take (suc n) rows)) then take n (take (suc n) rows) else take (suc n) rows)
      ≡ take n rows
front-take n rows = elim (Bool-cases (ltb n (length (take (suc n) rows)))) [
  | inl e ↦ rw e (take-take_succ n rows)
  | inr e ↦
      rw e (sym (sym (take-take_succ n rows) ∙ take-short n (take (suc n) rows) (ground arith)))
]

All-map :
    {A B : Type 0} (P : B → Type 0) (f : A → B) (xs : List A)
    → All (λ a. P (f a)) xs
    → All P (map f xs)
All-map P f [] h = tt
All-map P f (x ∷ xs) h = (h.0, All-map P f xs h.1)

All-passing : {A : Type 0} (p : A → Bool) (xs : List A) → All (λ a. p a ≡ true) (select_rows p xs)
unfolding select_rows
All-passing p [] = tt
All-passing p (x ∷ xs) = elim (Bool-cases (p x)) [
  | inl e ↦ rw e (e, All-passing p xs)
  | inr e ↦ rw e (All-passing p xs)
]

passed-Wanted :
    (env : ListEnv) (filter : StatusFilter) (c : Option ListCursor) (j : Job)
    → (passes_filter filter j && after_cursor env c j) ≡ true
    → Wanted filter (job_status_from_record env.time j)
unfolding passes_filter job_status_from_record
passed-Wanted env all_statuses c j h = tt
passed-Wanted env (only s) c j h = ground arith
passed-Wanted env unknown_status c j h = tt

matching-Wanted :
    (env : ListEnv) (filter : StatusFilter) (c : Option ListCursor) (table : List Job)
    → All (λ j. Wanted filter (job_status_from_record env.time j)) (matching env filter c table)
unfolding matching
matching-Wanted env filter c table =
    All-order_by _ later_first
      (select_rows (λ j. passes_filter filter j && after_cursor env c j) table)
      (All-weaken _ _ (select_rows (λ j. passes_filter filter j && after_cursor env c j) table)
        (passed-Wanted env filter c)
        (All-passing (λ j. passes_filter filter j && after_cursor env c j) table))

list_result-IsPage :
    (env : ListEnv) (filter : StatusFilter) (total : ℕ) (limit : ℤ) (rows : List Job)
    → All (λ j. Wanted filter (job_status_from_record env.time j)) rows
    → IsPage env filter rows
        (list_result env total (page_limit limit) (take (suc (page_limit limit)) rows))
unfolding list_result
list_result-IsPage env filter total limit rows h = record {
  limited = page_limit-bounds limit;
  front = ap (map (job_status_from_record env.time)) (front-take (page_limit limit) rows);
  short = rw (front-take (page_limit limit) rows) (
      rw (length-map (job_status_from_record env.time) (take (page_limit limit) rows))
        (length-take-le (page_limit limit) rows));
  wanted = rw (front-take (page_limit limit) rows) (
      All-map (Wanted filter) (job_status_from_record env.time) (take (page_limit limit) rows)
        (All-take _ (page_limit limit) rows h));
  more = ground (arith, length-take_succ (page_limit limit) rows);
}

list_page-made :
    (env : ListEnv) (filter : StatusFilter) (limit : ℕ) (c : Option ListCursor) (table : List Job)
    (page : ListResult)
    → list_page env filter limit c table ≡ ok page
    → page
      ≡ list_result env
          (count_rows (passes_filter filter) table)
          limit
          (take (suc limit) (matching env filter c table))
unfolding list_page
list_page-made env filter limit c table page h = ground arith

list_page-IsPage :
    (env : ListEnv) (filter : StatusFilter) (limit : ℤ) (c : Option ListCursor) (table : List Job)
    (page : ListResult)
    → list_page env filter (page_limit limit) c table ≡ ok page
    → (page.total ≡ count_rows (passes_filter filter) table)
      × IsPage env filter (matching env filter c table) page
unfolding list_result
list_page-IsPage env filter limit c table page h = (
  ap (λ r. r.total) (list_page-made env filter (page_limit limit) c table page h),
  rw (list_page-made env filter (page_limit limit) c table page h) (
      list_result-IsPage env filter _ limit (matching env filter c table)
        (matching-Wanted env filter c table)),
)

-- The cursor that List decodes: none for the empty text.
abbrev pub opened : ListEnv → ℕ → Option ListCursor
opened env cursor = if cursor == 0 then none else env.decode cursor

list_jobs-opened :
    (env : ListEnv) (filter : StatusFilter) (limit : ℤ) (cursor : ℕ) (table : List Job)
    (page : ListResult)
    → list_jobs env filter limit cursor table ≡ ok page
    → list_page env filter (page_limit limit) (opened env cursor) table ≡ ok page
unfolding list_jobs
list_jobs-opened env all_statuses limit cursor table page h = ground arith
list_jobs-opened env (only s) limit cursor table page h = ground arith
list_jobs-opened env unknown_status limit cursor table page h = ground arith

-- List answers with a page of between 1 and 200 items at most: the first of the rows that have the
-- status asked for and stand behind the cursor (scheduled before it, or at its time with a smaller
-- id), each as often as the table has it, latest scheduled first and then largest id first; each
-- item has the status asked for, the page reports more exactly where rows are left, and its total
-- counts the rows of the status, behind the cursor or not.
pub list_jobs-IsPage :
    (env : ListEnv) (filter : StatusFilter) (limit : ℤ) (cursor : ℕ) (table : List Job)
    (page : ListResult) (asked behind : Job → Bool)
    → ((j : Job) → (asked j ≡ true) ↔ IsAsked filter j)
    → ((j : Job) → (behind j ≡ true) ↔ IsBehind env (opened env cursor) j)
    → list_jobs env filter limit cursor table ≡ ok page
    → (page.total ≡ count_rows asked table)
      × ((rows : List Job) × IsListing asked behind table rows × IsPage env filter rows page)
list_jobs-IsPage env filter limit cursor table page asked behind decides places h =
    let (total, is_page) =
      list_page-IsPage env filter limit (opened env cursor) table page
        (list_jobs-opened env filter limit cursor table page h) in
    (
      total
          ∙ sym (
              count_rows-same asked (passes_filter filter) table
                (λ j. passes_filter-eq filter j (asked j) (decides j))),
      (
        matching env filter (opened env cursor) table,
        matching-IsListing env filter (opened env cursor) table asked behind decides places,
        is_page,
      ),
    )
