-- ===== src/Realtime/Broadcaster/Fence.antt =====
-- backend/internal/realtime/realtime.go: the activation fence and the invalidations, over any
-- interleaving of requests, runs, activations and invalidations.
use pbvex.Base.{
  ℕ, ◌+◌, ◌^◌, ◌≤◌, ◌<◌, ◌≡◌, refl, ◌⊎◌, inl, inr, ◌==◌, Bool, Bool-cases, true, false, Option,
  none, some, List, [], ◌∷◌, map, All, wrap, arith,
}
use pbvex.Sql.{delete_rows, update_rows}
use pbvex.Sql.Rows.{All-delete_rows, All-weaken, All-update_map}
use pbvex.Realtime.Broadcaster.{
  Subscription, Broadcaster, mark_notified, cancel, invalidate_all, reconnect_all,
  admission_generation, subscribe_with_fence, unsubscribe, new_subscription, run_once,
  receive_notify, at_handle,
}

-- A request between its admission and its registration: the generation that it recorded, and the
-- deployment that it resolved, once it has.
pub record Admission : Type 0 where
  pub gen : ℕ
  pub snap : Option ℕ

-- The broadcaster among what it works with: the active deployment, whether an activation has not
-- yet been followed by its ReconnectAll, the version of the data, and the requests under way.
pub record World : Type 0 where
  pub broadcaster : Broadcaster
  pub active : ℕ
  pub stale : Bool
  pub version : ℕ
  pub admissions : List Admission

abbrev pub resolved_now : ℕ → Admission → Admission
resolved_now active a = record a { snap = some active }

-- The request is one of those under way.
abbrev pub IsUnderWay : Admission → List Admission → Type 0
IsUnderWay a [] = ⊥
IsUnderWay a (b ∷ bs) = (a ≡ b) ⊎ IsUnderWay a bs

-- One step of some request, subscription, activation or write. `reconnects` and `invalidates` are
-- the completed calls, so that the states between the steps are those with no such call half done.
pub data Step (w : World) : World → Type 0 where
  admits : Step w (record w {
    admissions = record { gen = admission_generation w.broadcaster; snap = none } ∷ w.admissions;
  })
  resolves :
      (p : Admission → Bool)
      → Step w (record w { admissions = update_rows p (resolved_now w.active) w.admissions })
  abandons : (p : Admission → Bool) → Step w (record w { admissions = delete_rows p w.admissions })
  registers :
      (a : Admission) (d handle id : ℕ)
      → IsUnderWay a w.admissions
      → a.snap ≡ some d
      → Step w (record w {
        broadcaster = (subscribe_with_fence (new_subscription handle id d) a.gen w.broadcaster).0;
      })
  unsubscribes : (handle : ℕ) → Step w (record w { broadcaster = unsubscribe handle w.broadcaster })
  runs :
      (handle : ℕ) (denied : Bool)
      → Step w
          (record w { broadcaster = at_handle handle (run_once denied w.version) w.broadcaster })
  receives :
      (handle : ℕ)
      → Step w (record w { broadcaster = at_handle handle receive_notify w.broadcaster })
  cancels : (handle : ℕ) → Step w (record w { broadcaster = at_handle handle cancel w.broadcaster })
  activates : (d : ℕ) → Step w (record w { active = d; stale = true })
  reconnects :
      w.broadcaster.generation + 1 < 2 ^ 64
      → Step w (record w { broadcaster = reconnect_all w.broadcaster; stale = false })
  invalidates :
      Step w (record w { broadcaster = invalidate_all w.broadcaster; version = w.version + 1 })

unwrapped : (g : ℕ) → g + 1 < 2 ^ 64 → wrap (g + 1) ≡ g + 1
unwrapped g h = omega arith

pub data Reach (w : World) : World → Type 0 where
  here : Reach w w
  next : {u v : World} → Reach w u → Step u v → Reach w v

-- The subscription has been cancelled, or runs against the active deployment, unless an activation
-- still has to reconnect it; and it will run again unless its last run has seen the newest data.
pub record IsFresh (stale : Bool) (active version : ℕ) (s : Subscription) : Type 0 where
  pub current : s.cancelled ≡ true ⊎ stale ≡ true ⊎ s.snap ≡ active
  pub awake :
      s.cancelled ≡ true
      ⊎ s.admission_paused ≡ true
      ⊎ s.notify ≡ true
      ⊎ s.pending ≡ true
      ⊎ s.seen ≡ version

-- What a request under way has resolved is active, unless an activation has intervened.
pub record IsFenced (gen : ℕ) (stale : Bool) (active : ℕ) (a : Admission) : Type 0 where
  pub old : a.gen ≤ gen
  pub current : a.gen < gen ⊎ stale ≡ true ⊎ a.snap ≡ none ⊎ a.snap ≡ some active

pub record IsSound (w : World) : Type 0 where
  pub subs : All (IsFresh w.stale w.active w.version) w.broadcaster.subs
  pub admissions : All (IsFenced w.broadcaster.generation w.stale w.active) w.admissions

at-underway :
    (P : Admission → Type 0) (a : Admission) (l : List Admission) → IsUnderWay a l → All P l → P a
at-underway P a [] u h = absurd u
at-underway P a (b ∷ bs) (inl e) h = rw e h.0
at-underway P a (b ∷ bs) (inr u) h = at-underway P a bs u h.1

All-map_subs :
    (P Q : Subscription → Type 0) (f : Subscription → Subscription) (l : List Subscription)
    → ((s : Subscription) → P s → Q (f s))
    → All P l
    → All Q (map f l)
All-map_subs P Q f [] k h = tt
All-map_subs P Q f (x ∷ xs) k h = (k x h.0, All-map_subs P Q f xs k h.1)

-- A change of the subscription with one handle that keeps it fresh keeps all of them fresh.
at_handle-IsFresh :
    (stale : Bool) (active version handle : ℕ) (f : Subscription → Subscription) (b : Broadcaster)
    → ((s : Subscription) → IsFresh stale active version s → IsFresh stale active version (f s))
    → All (IsFresh stale active version) b.subs
    → All (IsFresh stale active version) (at_handle handle f b).subs
unfolding at_handle
at_handle-IsFresh stale active version handle f b keep h =
    All-update_map _ _ (λ s. s.handle == handle) f b.subs (λ s e. keep s) (λ s e k. k) h

run_once-IsFresh :
    (stale : Bool) (active version : ℕ) (denied : Bool) (s : Subscription)
    → IsFresh stale active version s
    → IsFresh stale active version (run_once denied version s)
unfolding run_once
run_once-IsFresh stale active version denied s h = ground arith

receive_notify-IsFresh :
    (stale : Bool) (active version : ℕ) (s : Subscription)
    → IsFresh stale active version s
    → IsFresh stale active version (receive_notify s)
unfolding receive_notify
receive_notify-IsFresh stale active version s h = ground arith

cancelled-IsFresh :
    (stale : Bool) (active version : ℕ) (s : Subscription) → IsFresh stale active version (cancel s)
cancelled-IsFresh stale active version s = record { current = inl refl; awake = inl refl }

stale-IsFresh :
    (stale : Bool) (active later version : ℕ) (s : Subscription)
    → IsFresh stale active version s
    → IsFresh true later version s
stale-IsFresh stale active later version s h = ground arith

notified-IsFresh :
    (stale : Bool) (active version later : ℕ) (s : Subscription)
    → IsFresh stale active version s
    → IsFresh stale active later (mark_notified s)
notified-IsFresh stale active version later s h = ground arith

registered-IsFresh :
    (gen : ℕ) (stale : Bool) (active version handle id d : ℕ) (a : Admission)
    → IsFenced gen stale active a
    → a.snap ≡ some d
    → a.gen ≡ gen
    → IsFresh stale active version (new_subscription handle id d)
unfolding new_subscription
registered-IsFresh gen stale active version handle id d a h e g = ground arith

resolved-IsFenced :
    (gen : ℕ) (stale : Bool) (active : ℕ) (a : Admission)
    → IsFenced gen stale active a
    → IsFenced gen stale active (resolved_now active a)
resolved-IsFenced gen stale active a h = ground arith

raised-IsFenced :
    (gen : ℕ) (stale : Bool) (active : ℕ) (a : Admission)
    → IsFenced gen stale active a
    → IsFenced (gen + 1) false active a
raised-IsFenced gen stale active a h = ground arith

stale-IsFenced :
    (gen : ℕ) (stale : Bool) (active later : ℕ) (a : Admission)
    → IsFenced gen stale active a
    → IsFenced gen true later a
stale-IsFenced gen stale active later a h = ground arith

registers-IsSound :
    (w : World) (a : Admission) (d handle id : ℕ)
    → IsUnderWay a w.admissions
    → a.snap ≡ some d
    → IsSound w
    → IsSound (record w {
      broadcaster = (subscribe_with_fence (new_subscription handle id d) a.gen w.broadcaster).0;
    })
unfolding subscribe_with_fence
registers-IsSound w a d handle id under e h =
    elim (Bool-cases (w.broadcaster.generation == a.gen)) [
      | inr no_match ↦
          rw (no_match, subscribe_with_fence) (record { subs = h.subs; admissions = h.admissions })
      | inl match ↦
          rw (match, subscribe_with_fence)
            (record {
              subs = (
                registered-IsFresh w.broadcaster.generation w.stale w.active w.version handle id d a
                    (at-underway _ a w.admissions under h.admissions) e (ground arith),
                h.subs,
              );
              admissions = h.admissions;
            })
    ]

Step-IsSound : {w v : World} → Step w v → IsSound w → IsSound v
unfolding admission_generation unsubscribe reconnect_all invalidate_all at_handle
Step-IsSound {w} admits h = record {
  subs = h.subs;
  admissions = (record { old = omega arith; current = inr (inr (inl refl)) }, h.admissions);
}
Step-IsSound {w} (resolves p) h = record {
  subs = h.subs;
  admissions =
      All-update_map _ _ p (resolved_now w.active) w.admissions
        (λ a e. resolved-IsFenced w.broadcaster.generation w.stale w.active a) (λ a e k. k)
        h.admissions;
}
Step-IsSound {w} (abandons p) h = record {
  subs = h.subs;
  admissions = All-delete_rows _ p w.admissions h.admissions;
}
Step-IsSound {w} (registers a d handle id under e) h = registers-IsSound w a d handle id under e h
Step-IsSound {w} (unsubscribes handle) h = record {
  subs = All-delete_rows _ (λ s. s.handle == handle) w.broadcaster.subs h.subs;
  admissions = h.admissions;
}
Step-IsSound {w} (runs handle denied) h = record {
  subs =
      at_handle-IsFresh w.stale w.active w.version handle (run_once denied w.version) w.broadcaster
        (run_once-IsFresh w.stale w.active w.version denied) h.subs;
  admissions = h.admissions;
}
Step-IsSound {w} (receives handle) h = record {
  subs =
      at_handle-IsFresh w.stale w.active w.version handle receive_notify w.broadcaster
        (receive_notify-IsFresh w.stale w.active w.version) h.subs;
  admissions = h.admissions;
}
Step-IsSound {w} (cancels handle) h = record {
  subs =
      at_handle-IsFresh w.stale w.active w.version handle cancel w.broadcaster
        (λ s k. cancelled-IsFresh w.stale w.active w.version s) h.subs;
  admissions = h.admissions;
}
Step-IsSound {w} (activates d) h = record {
  subs = All-weaken _ _ w.broadcaster.subs (stale-IsFresh w.stale w.active d w.version) h.subs;
  admissions =
      All-weaken _ _ w.admissions (stale-IsFenced w.broadcaster.generation w.stale w.active d)
        h.admissions;
}
Step-IsSound {w} (reconnects room) h = record {
  subs =
      All-map_subs _ _ cancel w.broadcaster.subs
        (λ s k. cancelled-IsFresh false w.active w.version s) h.subs;
  admissions = rw (unwrapped w.broadcaster.generation room) (
      All-weaken _ _ w.admissions (raised-IsFenced w.broadcaster.generation w.stale w.active)
        h.admissions);
}
Step-IsSound {w} invalidates h = record {
  subs =
      All-map_subs _ _ mark_notified w.broadcaster.subs
        (notified-IsFresh w.stale w.active w.version (w.version + 1)) h.subs;
  admissions = h.admissions;
}

-- In every run from a sound world, such as one without subscriptions and requests, in which the
-- generation stays below 2 ^ 64: once an activation has reconnected, no subscription that is not cancelled runs against another
-- deployment than the active one, however its request overlapped the activation; and no
-- invalidation is lost: a subscription whose last run has not read the newest data is cancelled,
-- paused by admission, notified or about to run.
pub Reach-IsSound : {w v : World} → Reach w v → IsSound w → IsSound v
Reach-IsSound here h = h
Reach-IsSound (next run st) h = Step-IsSound st (Reach-IsSound run h)
