-- ===== src/Scheduler/Cron.antt =====
-- backend/internal/scheduler/cron.go: CronManager. The application's cron registry is PocketBase's
-- and holds other jobs too: it is the list of its job ids with what each of them runs.
pub mod Mirror
use pbvex.Base.{
  ℕ, ◌==◌, Bool, true, false, not, ◌||◌, Option, none, some, List, [], ◌∷◌, map, any, if◌then◌else◌,
}
use pbvex.Sql.{delete_rows, select_rows}

-- CronJobDescriptor; `id` is the job id "pbvex:" + Name.
pub record Definition : Type 0 where
  pub id : ℕ
  pub schedule : ℕ
  pub function_name : ℕ
  pub args : List ℕ

-- An entry of the registry. `task` is what the closure captures: the deployment, the function and
-- its arguments; it is `none` for an entry that this manager did not add.
pub record Task : Type 0 where
  pub deployment_id : ℕ
  pub function_name : ℕ
  pub args : List ℕ

pub record Entry : Type 0 where
  pub id : ℕ
  pub schedule : ℕ
  pub task : Option Task

-- The manager's registered set and the registry.
pub record Cron : Type 0 where
  pub registered : List ℕ
  pub entries : List Entry

unfoldable pub contains : ℕ → List ℕ → Bool
contains id ids = any (λ k. k == id) ids

-- Cron().Remove and delete(m.registered, id).
unfoldable pub remove : ℕ → Cron → Cron
remove id m = record {
  registered = delete_rows (λ k. k == id) m.registered;
  entries = delete_rows (λ e. e.id == id) m.entries;
}

unfoldable pub remove_all : List ℕ → Cron → Cron
remove_all [] m = m
remove_all (id ∷ ids) m = remove_all ids (remove id m)

-- The loop over m.registered that drops what is not desired.
unfoldable pub drop_undesired : List Definition → Cron → Cron
drop_undesired defs m =
    remove_all (select_rows (λ id. not (contains id (map (λ d. d.id) defs))) m.registered) m

unfoldable pub entry_of : ℕ → Definition → Entry
entry_of deployment d = record {
  id = d.id;
  schedule = d.schedule;
  task =
      some (record { deployment_id = deployment; function_name = d.function_name; args = d.args });
}

-- Cron().Add replaces an entry of the same id; it fails where the schedule does not parse.
unfoldable pub add : (ℕ → Bool) → ℕ → Definition → Cron → Cron
add parses deployment d m =
    if parses d.schedule
    then record {
      registered = d.id ∷ delete_rows (λ k. k == d.id) m.registered;
      entries = entry_of deployment d ∷ delete_rows (λ e. e.id == d.id) m.entries;
    }
    else m

unfoldable pub add_all : (ℕ → Bool) → ℕ → List Definition → Cron → Cron
add_all parses deployment [] m = m
add_all parses deployment (d ∷ ds) m = add_all parses deployment ds (add parses deployment d m)

-- ActiveDeploymentChanged.
unfoldable pub active_deployment_changed : (ℕ → Bool) → ℕ → List Definition → Cron → Cron
active_deployment_changed parses deployment defs m =
    add_all parses deployment defs (drop_undesired defs m)

-- Clear.
unfoldable pub clear : Cron → Cron
clear m = remove_all m.registered m
