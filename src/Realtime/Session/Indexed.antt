-- ===== src/Realtime/Session/Indexed.antt =====
-- backend/internal/realtime/session.go: the entries of a session against its running
-- subscriptions, over any interleaving of control requests, runs, activations and invalidations.
use pbvex.Base.{
  ℕ, ◌+◌, ◌≤◌, ◌<◌, ◌≡◌, refl, ◌==◌, ==_self, leb, Bool, Bool-cases, Option-cases, false, inl, inr,
  none, some, Option, any, ◌&&◌, ◌∷◌, length, map, All, arith,
}
use pbvex.Sql.Rows.{All-delete_rows, All-weaken, All-update_map}
use pbvex.Realtime.Broadcaster.{
  Config, Broadcaster, Subscription, mark_notified, cancel, invalidate_all, reconnect_all,
  subscribe_with_fence, unsubscribe, new_subscription, run_once, receive_notify, at_handle,
}
use pbvex.Realtime.Session.{
  Event, Session, Hub, lookup, told, add_session_subscription, remove, forget, close_session,
  AddReply, session_gone, already_subscribed, too_many, late, registered, finish_add, announce,
  cancel_removed,
}
use pbvex.Realtime.Session.Entries.{
  All-both, All-mapped, IsEntered, IsOld, IsTame, cancel-IsTame, forget-running,
  forgotten-IsEntered, fresh_entry, length-delete, length-forget, mark_notified-IsTame, not_running,
  raised-IsOld, raised_running, receive_notify-IsTame, removed-IsEntered, absent-IsEntered,
  spared-IsEntered, run_once-IsTame, tame-IsEntered, tame-IsOld,
}

pub record IsIndexed (c : Config) (h : Hub) : Type 0 where
  pub entered : All (IsEntered h.cancelling h.session.running h.session.subs) h.broadcaster.subs
  pub old : All (IsOld h.fresh) h.broadcaster.subs
  pub running : All (λ e. e.0 < h.fresh) h.session.running
  pub bounded : length h.session.subs ≤ c.max_subscriptions_per_session

-- A step of this session, of a subscription, or of the rest of the program. ReconnectAll and
-- InvalidateAll may also go one cancel or send at a time, by `raises`, `cancels` and `notifies`.
pub data Turn (c : Config) (h : Hub) : Hub → Type 0 where
  adds : (id snap gen : ℕ) → Turn c h (add_session_subscription c id snap gen h).0
  finishes : (id : ℕ) (reply : AddReply) → Turn c h (finish_add id reply h).0
  removes : (id : ℕ) → Turn c h (remove id h).0
  cancels_removed : (sub : Option ℕ) → Turn c h (cancel_removed sub h)
  ends : (sub : ℕ) → Turn c h (record h { broadcaster = unsubscribe sub h.broadcaster })
  forgets :
      (sub id : ℕ)
      → All (λ s. (s.handle == sub) ≡ false) h.broadcaster.subs
      → Turn c h (record h { session = forget sub id h.session })
  tells : (e : Event) → Turn c h (record h { session = told e h.session })
  closes : Turn c h (record h { session = close_session h.session })
  others :
      (id snap gen : ℕ)
      → Turn c h (record h {
        broadcaster = (subscribe_with_fence (new_subscription h.fresh id snap) gen h.broadcaster).0;
        fresh = h.fresh + 1;
      })
  runs :
      (sub version : ℕ) (denied : Bool)
      → Turn c h (record h { broadcaster = at_handle sub (run_once denied version) h.broadcaster })
  receives :
      (sub : ℕ) → Turn c h (record h { broadcaster = at_handle sub receive_notify h.broadcaster })
  cancels : (sub : ℕ) → Turn c h (record h { broadcaster = at_handle sub cancel h.broadcaster })
  raises :
      (generation : ℕ)
      → Turn c h (record h { broadcaster = record h.broadcaster { generation = generation } })
  notifies :
      (sub : ℕ) → Turn c h (record h { broadcaster = at_handle sub mark_notified h.broadcaster })
  reconnects : Turn c h (record h { broadcaster = reconnect_all h.broadcaster })
  invalidates : Turn c h (record h { broadcaster = invalidate_all h.broadcaster })

pub data Turns (c : Config) (h : Hub) : Hub → Type 0 where
  still : Turns c h h
  turn : {i j : Hub} → Turns c h i → Turn c i j → Turns c h j

module _ (f : Subscription → Subscription) (tame : IsTame f) where
  at-IsIndexed :
      (c : Config) (sub : ℕ) (h : Hub)
      → IsIndexed c h
      → IsIndexed c (record h { broadcaster = at_handle sub f h.broadcaster })
  unfolding at_handle
  at-IsIndexed c sub h k = record {
    entered =
        All-update_map _ _ (λ s. s.handle == sub) f h.broadcaster.subs
          (λ s e. tame-IsEntered f tame h.cancelling h.session.running h.session.subs s)
          (λ s e i. i) k.entered;
    old =
        All-update_map _ _ (λ s. s.handle == sub) f h.broadcaster.subs
          (λ s e. tame-IsOld f tame h.fresh s) (λ s e i. i) k.old;
    running = k.running;
    bounded = k.bounded;
  }

  all-IsIndexed :
      (c : Config) (b : Broadcaster) (h : Hub)
      → b.subs ≡ map f h.broadcaster.subs
      → IsIndexed c h
      → IsIndexed c (record h { broadcaster = b })
  all-IsIndexed c b h e k = record {
    entered = rw e (
        All-mapped _ _ f h.broadcaster.subs
          (tame-IsEntered f tame h.cancelling h.session.running h.session.subs) k.entered);
    old = rw e (All-mapped _ _ f h.broadcaster.subs (tame-IsOld f tame h.fresh) k.old);
    running = k.running;
    bounded = k.bounded;
  }

-- A subscription that is registered and entered at once.
entered-IsIndexed :
    (c : Config) (id snap : ℕ) (session : Session) (h : Hub)
    → IsIndexed c h
    → lookup id h.session.subs ≡ none
    → leb c.max_subscriptions_per_session (length h.session.subs) ≡ false
    → session.subs ≡ (id, h.fresh) ∷ h.session.subs
    → session.running ≡ (h.fresh, id) ∷ h.session.running
    → IsIndexed c (record h {
      broadcaster = record h.broadcaster {
        subs = new_subscription h.fresh id snap ∷ h.broadcaster.subs;
      };
      session = session;
      fresh = h.fresh + 1;
    })
unfolding lookup new_subscription
entered-IsIndexed c id snap session h k absent room m r =
    rw (m, r)
      (record {
        entered = (
          inr (inr (inr (rw (==_self id) refl))),
          All-both _ _ h.broadcaster.subs
              (λ s. fresh_entry h.fresh id h.cancelling h.session.running h.session.subs s absent)
              k.entered k.old,
        );
        old = (omega arith, All-weaken _ _ h.broadcaster.subs (raised-IsOld h.fresh) k.old);
        running = (omega arith, raised_running h.fresh h.session.running k.running);
        bounded = ground arith;
      })

refused-IsIndexed :
    (c : Config) (session : Session) (h : Hub)
    → IsIndexed c h
    → session.subs ≡ h.session.subs
    → session.running ≡ h.session.running
    → IsIndexed c (record h { session = session; fresh = h.fresh + 1 })
refused-IsIndexed c session h k m r =
    rw (m, r)
      (record {
        entered = k.entered;
        old = All-weaken _ _ h.broadcaster.subs (raised-IsOld h.fresh) k.old;
        running = raised_running h.fresh h.session.running k.running;
        bounded = k.bounded;
      })

kept-IsIndexed :
    (c : Config) (session : Session) (h : Hub)
    → IsIndexed c h
    → session.subs ≡ h.session.subs
    → session.running ≡ h.session.running
    → IsIndexed c (record h { session = session })
kept-IsIndexed c session h k m r =
    rw (m, r)
      (record { entered = k.entered; old = k.old; running = k.running; bounded = k.bounded })

add-IsIndexed :
    (c : Config) (id snap gen : ℕ) (h : Hub)
    → IsIndexed c h
    → IsIndexed c (add_session_subscription c id snap gen h).0
unfolding add_session_subscription subscribe_with_fence
add-IsIndexed c id snap gen h k = elim (Bool-cases h.session.closed) [
  | inl closed ↦ simp closed k
  | inr opened ↦ elim (Option-cases (lookup id h.session.subs)) [
    | inr (other, e) ↦ simp (opened, e) k
    | inl e ↦ elim (Bool-cases (leb c.max_subscriptions_per_session (length h.session.subs))) [
      | inl full ↦ simp (opened, e, full) k
      | inr room ↦ elim (Bool-cases (h.broadcaster.generation == gen)) [
        | inl match ↦
            simp (opened, e, room, match) (entered-IsIndexed c id snap _ h k e room refl refl)
        | inr differ ↦ simp (opened, e, room, differ) (refused-IsIndexed c h.session h k refl refl)
      ]
    ]
  ]
]

other-IsIndexed :
    (c : Config) (id snap gen : ℕ) (h : Hub)
    → IsIndexed c h
    → IsIndexed c (record h {
      broadcaster = (subscribe_with_fence (new_subscription h.fresh id snap) gen h.broadcaster).0;
      fresh = h.fresh + 1;
    })
unfolding subscribe_with_fence new_subscription
other-IsIndexed c id snap gen h k = elim (Bool-cases (h.broadcaster.generation == gen)) [
  | inr differ ↦ rw differ (refused-IsIndexed c h.session h k refl refl)
  | inl match ↦ rw match (record {
    entered = (inl (not_running h.fresh h.session.running k.running), k.entered);
    old = (omega arith, All-weaken _ _ h.broadcaster.subs (raised-IsOld h.fresh) k.old);
    running = raised_running h.fresh h.session.running k.running;
    bounded = k.bounded;
  })
]

remove-IsIndexed : (c : Config) (id : ℕ) (h : Hub) → IsIndexed c h → IsIndexed c (remove id h).0
unfolding remove
remove-IsIndexed c id h k = elim (Option-cases (lookup id h.session.subs)) [
  | inl absent ↦
      rw (absent, remove)
        (record {
          entered =
              All-weaken _ _ h.broadcaster.subs
                (λ s. absent-IsEntered id h.cancelling h.session.running h.session.subs s absent)
                k.entered;
          old = k.old;
          running = k.running;
          bounded = omega (arith, k.bounded, length-delete id h.session.subs);
        })
  | inr (sub, found) ↦
      rw (found, remove)
        (record {
          entered =
              All-weaken _ _ h.broadcaster.subs
                (λ s.
                  removed-IsEntered id sub h.cancelling h.session.running h.session.subs s found)
                k.entered;
          old = k.old;
          running = k.running;
          bounded = omega (arith, k.bounded, length-delete id h.session.subs);
        })
]

cancel_removed-IsIndexed :
    (c : Config) (sub : Option ℕ) (h : Hub) → IsIndexed c h → IsIndexed c (cancel_removed sub h)
unfolding cancel_removed at_handle
cancel_removed-IsIndexed c none h k = k
cancel_removed-IsIndexed c (some sub) h k = record {
  entered =
      All-update_map _ _ (λ s. s.handle == sub) cancel h.broadcaster.subs (λ s p i. inr (inl refl))
        (λ s p i. spared-IsEntered sub h.cancelling h.session.running h.session.subs s p i)
        k.entered;
  old =
      All-update_map _ _ (λ s. s.handle == sub) cancel h.broadcaster.subs (λ s p i. i) (λ s p i. i)
        k.old;
  running = k.running;
  bounded = k.bounded;
}

finish-IsIndexed :
    (c : Config) (id : ℕ) (reply : AddReply) (h : Hub)
    → IsIndexed c h
    → IsIndexed c (finish_add id reply h).0
unfolding finish_add announce told
finish-IsIndexed c id session_gone h k = k
finish-IsIndexed c id already_subscribed h k = k
finish-IsIndexed c id too_many h k = kept-IsIndexed c _ h k refl refl
finish-IsIndexed c id late h k = kept-IsIndexed c _ h k refl refl
finish-IsIndexed c id (registered sub) h k =
    elim (Bool-cases (any (λ s. s.handle == sub && s.cancelled) h.broadcaster.subs)) [
      | inl e ↦ simp e k
      | inr e ↦ simp e (kept-IsIndexed c _ h k refl refl)
    ]

forget-IsIndexed :
    (c : Config) (sub id : ℕ) (h : Hub)
    → All (λ s. (s.handle == sub) ≡ false) h.broadcaster.subs
    → IsIndexed c h
    → IsIndexed c (record h { session = forget sub id h.session })
forget-IsIndexed c sub id h gone k = record {
  entered =
      All-both _ _ h.broadcaster.subs (λ s d. forgotten-IsEntered sub id h.cancelling h.session s d)
        gone k.entered;
  old = k.old;
  running =
      rw (forget-running sub id h.session)
        (All-delete_rows _ (λ e. e.0 == sub) h.session.running k.running);
  bounded = omega (arith, k.bounded, length-forget sub id h.session);
}

Turn-IsIndexed : {c : Config} {h i : Hub} → Turn c h i → IsIndexed c h → IsIndexed c i
unfolding unsubscribe reconnect_all invalidate_all close_session told
Turn-IsIndexed {c} {h} (adds id snap gen) k = add-IsIndexed c id snap gen h k
Turn-IsIndexed {c} {h} (removes id) k = remove-IsIndexed c id h k
Turn-IsIndexed {c} {h} (finishes id reply) k = finish-IsIndexed c id reply h k
Turn-IsIndexed {c} {h} (cancels_removed sub) k = cancel_removed-IsIndexed c sub h k
Turn-IsIndexed {c} {h} (ends sub) k = record {
  entered = All-delete_rows _ (λ s. s.handle == sub) h.broadcaster.subs k.entered;
  old = All-delete_rows _ (λ s. s.handle == sub) h.broadcaster.subs k.old;
  running = k.running;
  bounded = k.bounded;
}
Turn-IsIndexed {c} {h} (forgets sub id gone) k = forget-IsIndexed c sub id h gone k
Turn-IsIndexed {c} {h} (tells e) k = kept-IsIndexed c _ h k refl refl
Turn-IsIndexed {c} {h} closes k = kept-IsIndexed c _ h k refl refl
Turn-IsIndexed {c} {h} (others id snap gen) k = other-IsIndexed c id snap gen h k
Turn-IsIndexed {c} {h} (runs sub version denied) k =
    at-IsIndexed _ (run_once-IsTame denied version) c sub h k
Turn-IsIndexed {c} {h} (receives sub) k = at-IsIndexed _ receive_notify-IsTame c sub h k
Turn-IsIndexed {c} {h} (cancels sub) k = at-IsIndexed _ cancel-IsTame c sub h k
Turn-IsIndexed {c} {h} (raises generation) k = record {
  entered = k.entered;
  old = k.old;
  running = k.running;
  bounded = k.bounded;
}
Turn-IsIndexed {c} {h} (notifies sub) k = at-IsIndexed _ mark_notified-IsTame c sub h k
Turn-IsIndexed {c} {h} reconnects k = all-IsIndexed _ cancel-IsTame c _ h refl k
Turn-IsIndexed {c} {h} invalidates k = all-IsIndexed _ mark_notified-IsTame c _ h refl k

-- Over any turns of a session and of the rest of the program, from a hub in which this holds: the
-- session has at most MaxSubscriptionsPerSession entries, and each registered subscription that it
-- runs is cancelled, or about to be cancelled by the unsubscribe request that removed its entry, or
-- entered under its id, so that an unsubscribe request reaches every other live one.
pub Turns-IsIndexed : {c : Config} {h i : Hub} → Turns c h i → IsIndexed c h → IsIndexed c i
Turns-IsIndexed still k = k
Turns-IsIndexed (turn run last) k = Turn-IsIndexed last (Turns-IsIndexed run k)
