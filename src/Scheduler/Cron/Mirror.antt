-- ===== src/Scheduler/Cron/Mirror.antt =====
-- The registry mirrors the recurring jobs of the active deployment, and nothing else is touched.
use pbvex.Base.{
  ℕ, ◌==◌, ◌≡◌, refl, ◌∙◌, ◌≢◌, Bool, true, false, not, ◌&&◌, ◌||◌, Option, some, List, [], ◌∷◌,
  map, All, arith, Bool-cases, inl, inr, ==_self,
}
use pbvex.Sql.{delete_rows, select_rows, find_row}
use pbvex.Sql.Unique.{Distinct}
use pbvex.Scheduler.Cron.{
  Definition, Entry, Cron, contains, remove, remove_all, drop_undesired, entry_of, add, add_all,
  active_deployment_changed, clear,
}

abbrev pub ids_of : List Definition → List ℕ
ids_of defs = map (λ d. d.id) defs

abbrev pub entry : ℕ → Cron → Option Entry
entry id m = find_row (λ e. e.id == id) m.entries

contains-delete_rows :
    (k id : ℕ) (ids : List ℕ)
    → contains k (delete_rows (λ j. j == id) ids) ≡ (contains k ids && not (id == k))
unfolding contains delete_rows
contains-delete_rows k id [] = refl
contains-delete_rows k id (j ∷ ids) = ground (arith, contains-delete_rows k id ids)

contains-select_rows :
    (k : ℕ) (p : ℕ → Bool) (ids : List ℕ) → contains k (select_rows p ids) ≡ (contains k ids && p k)
unfolding contains select_rows
contains-select_rows k p [] = refl
contains-select_rows k p (j ∷ ids) = elim (Bool-cases (j == k)) [
  | inl e ↦
      let same : j ≡ k = ground arith in rw same (ground (arith, contains-select_rows k p ids))
  | inr e ↦ ground (arith, contains-select_rows k p ids)
]

contains-remove_all :
    (k : ℕ) (ids : List ℕ) (m : Cron)
    → contains k (remove_all ids m).registered ≡ (contains k m.registered && not (contains k ids))
unfolding remove_all remove contains
contains-remove_all k [] m = ground arith
contains-remove_all k (id ∷ ids) m =
    rw (contains-remove_all k ids (remove id m), contains-delete_rows k id m.registered)
      (ground arith)

contains-add_all :
    (k : ℕ) (parses : ℕ → Bool) (deployment : ℕ) (defs : List Definition) (m : Cron)
    → All (λ d. parses d.schedule ≡ true) defs
    → contains k (add_all parses deployment defs m).registered
      ≡ (contains k (ids_of defs) || contains k m.registered)
unfolding add_all add contains
contains-add_all k parses deployment [] m h = ground arith
contains-add_all k parses deployment (d ∷ ds) m h =
    rw (contains-add_all k parses deployment ds (add parses deployment d m) h.1)
      (ground (arith, h.0, contains-delete_rows k d.id m.registered))

find_row-delete_ne :
    (k id : ℕ) (t : List Entry)
    → k ≢ id
    → find_row (λ e. e.id == k) (delete_rows (λ e. e.id == id) t) ≡ find_row (λ e. e.id == k) t
unfolding find_row delete_rows
find_row-delete_ne k id [] ne = refl
find_row-delete_ne k id (e ∷ t) ne = ground (arith, find_row-delete_ne k id t ne)

entry-remove_all :
    (k : ℕ) (ids : List ℕ) (m : Cron)
    → contains k ids ≡ false
    → entry k (remove_all ids m) ≡ entry k m
unfolding remove_all remove contains
entry-remove_all k [] m h = refl
entry-remove_all k (id ∷ ids) m h =
    entry-remove_all k ids (remove id m) (ground arith)
    ∙ find_row-delete_ne k id m.entries (λ e. ground arith)

entry-add :
    (k : ℕ) (parses : ℕ → Bool) (deployment : ℕ) (d : Definition) (m : Cron)
    → k ≢ d.id
    → entry k (add parses deployment d m) ≡ entry k m
unfolding add entry_of find_row
entry-add k parses deployment d m ne = ground (arith, find_row-delete_ne k d.id m.entries ne)

entry-add_all :
    (k : ℕ) (parses : ℕ → Bool) (deployment : ℕ) (defs : List Definition) (m : Cron)
    → contains k (ids_of defs) ≡ false
    → entry k (add_all parses deployment defs m) ≡ entry k m
unfolding add_all add contains
entry-add_all k parses deployment [] m h = refl
entry-add_all k parses deployment (d ∷ ds) m h =
    entry-add_all k parses deployment ds (add parses deployment d m) (ground arith)
    ∙ entry-add k parses deployment d m (λ e. ground arith)

contains-drop :
    (k : ℕ) (defs : List Definition) (m : Cron)
    → contains k (drop_undesired defs m).registered
      ≡ (contains k m.registered && contains k (ids_of defs))
unfolding drop_undesired
contains-drop k defs m =
    let ids = select_rows (λ id. not (contains id (ids_of defs))) m.registered in
    let gone = contains-remove_all k ids m in
    let stale = contains-select_rows k (λ id. not (contains id (ids_of defs))) m.registered in
    ground arith

-- After the switch to a deployment whose schedules all parse, the manager has registered exactly
-- the ids of that deployment's recurring jobs, whatever was registered before.
pub active_deployment_changed-registered :
    (parses : ℕ → Bool) (deployment : ℕ) (defs : List Definition) (m : Cron) (k : ℕ)
    → All (λ d. parses d.schedule ≡ true) defs
    → contains k (active_deployment_changed parses deployment defs m).registered
      ≡ contains k (ids_of defs)
unfolding active_deployment_changed
active_deployment_changed-registered parses deployment defs m k h =
    let added = contains-add_all k parses deployment defs (drop_undesired defs m) h in
    let dropped = contains-drop k defs m in ground arith

-- An entry that the manager has not registered and the deployment does not define, such as
-- PocketBase's own, stays as it is, also where some schedule does not parse.
pub active_deployment_changed-foreign :
    (parses : ℕ → Bool) (deployment : ℕ) (defs : List Definition) (m : Cron) (k : ℕ)
    → contains k m.registered ≡ false
    → contains k (ids_of defs) ≡ false
    → entry k (active_deployment_changed parses deployment defs m) ≡ entry k m
unfolding active_deployment_changed drop_undesired
active_deployment_changed-foreign parses deployment defs m k theirs undefined_here =
    let stale = contains-select_rows k (λ id. not (contains id (ids_of defs))) m.registered in
    entry-add_all k parses deployment defs (drop_undesired defs m) undefined_here
    ∙ entry-remove_all k (select_rows (λ id. not (contains id (ids_of defs))) m.registered) m
        (ground arith)

find_row-add_self :
    (parses : ℕ → Bool) (deployment : ℕ) (d : Definition) (m : Cron)
    → parses d.schedule ≡ true
    → entry d.id (add parses deployment d m) ≡ some (entry_of deployment d)
unfolding add entry_of find_row
find_row-add_self parses deployment d m h = ground (arith, ==_self d.id)

contains-ids_ne :
    (k : ℕ) (defs : List Definition) → All (λ d. d.id ≢ k) defs → contains k (ids_of defs) ≡ false
unfolding contains
contains-ids_ne k [] h = refl
contains-ids_ne k (d ∷ ds) h = let rest = contains-ids_ne k ds h.1 in ground (arith, h.0)

entry-add_all_own :
    (parses : ℕ → Bool) (deployment : ℕ) (defs : List Definition) (m : Cron)
    → Distinct (λ d. d.id) defs
    → All (λ d. parses d.schedule ≡ true) defs
    → All (λ d. entry d.id (add_all parses deployment defs m) ≡ some (entry_of deployment d)) defs
unfolding add_all
entry-add_all_own parses deployment [] m ids h = tt
entry-add_all_own parses deployment (d ∷ ds) m ids h = (
  entry-add_all d.id parses deployment ds (add parses deployment d m)
        (contains-ids_ne d.id ds ids.0)
      ∙ find_row-add_self parses deployment d m h.0,
  entry-add_all_own parses deployment ds (add parses deployment d m) ids.1 h.1,
)

-- With distinct names and schedules that parse, every recurring job of the new deployment has an
-- entry with its own schedule, and the entry's task runs its function on the new deployment.
pub active_deployment_changed-own :
    (parses : ℕ → Bool) (deployment : ℕ) (defs : List Definition) (m : Cron)
    → Distinct (λ d. d.id) defs
    → All (λ d. parses d.schedule ≡ true) defs
    → All
        (λ d.
          entry d.id (active_deployment_changed parses deployment defs m)
          ≡ some (record {
            id = d.id;
            schedule = d.schedule;
            task = some (record {
              deployment_id = deployment;
              function_name = d.function_name;
              args = d.args;
            });
          }))
        defs
unfolding active_deployment_changed entry_of
active_deployment_changed-own parses deployment defs m =
    entry-add_all_own parses deployment defs (drop_undesired defs m)

-- Clear leaves nothing registered, and leaves every entry that the manager had not registered.
pub clear-registered :
    (m : Cron) (k : ℕ)
    → (contains k (clear m).registered ≡ false)
      × (contains k m.registered ≡ false → entry k (clear m) ≡ entry k m)
unfolding clear
clear-registered m k =
    let gone = contains-remove_all k m.registered m in
    (ground arith, entry-remove_all k m.registered m)
