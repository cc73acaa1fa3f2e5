-- ===== src/Realtime/Session.antt =====
-- backend/internal/realtime/session.go: the subscriptions of one multiplexed session, and the
-- control requests that change them. The map of the session is the list of its entries, each the
-- id of a subscription with its pointer; identities, ids and pointers are numbers.
pub mod Control
pub mod Entries
pub mod Indexed
use pbvex.Base.{
  ℕ, zero, suc, ◌+◌, ◌==◌, ◌&&◌, any, leb, Bool, true, false, Option, none, some, List, [], ◌∷◌,
  length, if◌then◌else◌,
}
use pbvex.Sql.{delete_rows}
use pbvex.Realtime.Broadcaster.{
  Config, Broadcaster, Subscription, cancel, admission_generation, subscribe_with_fence,
  unsubscribe, new_subscription, at_handle,
}

-- What the session's stream is told of a subscription: it was announced, it was over the limit, or
-- its request could not be resolved.
pub data Event : Type 0 where
  announced over_limit unresolved : ℕ → Event

-- session; `running` is what its WaitGroup waits for, the pointers and ids of the subscriptions
-- whose goroutine has not ended, and `stream` the events, the newest first. `cancelled` is the
-- context of the session alone; it ends those of its subscriptions as well.
pub record Session : Type 0 where
  pub id : ℕ
  pub auth_key : ℕ
  pub closed : Bool
  pub cancelled : Bool
  pub subs : List (ℕ × ℕ)
  pub running : List (ℕ × ℕ)
  pub stream : List Event

-- A session with the broadcaster, a pointer above every one that was handed out, and the pointers
-- that `remove` has taken out of the map and not yet cancelled.
pub record Hub : Type 0 where
  pub broadcaster : Broadcaster
  pub session : Session
  pub fresh : ℕ
  pub cancelling : List ℕ

-- What resolveSubscription makes of an entry: the deployment of its snapshot, unless it fails.
pub record Entry : Type 0 where
  pub id : ℕ
  pub snap : Option ℕ

unfoldable pub lookup : ℕ → List (ℕ × ℕ) → Option ℕ
lookup id [] = none
lookup id ((a, h) ∷ m) = let rest = lookup id m in if a == id then some h else rest

-- eventStream.write with the context of the session, which drops the event when that is done.
unfoldable pub told : Event → Session → Session
told e s = record s { stream = if s.cancelled then s.stream else e ∷ s.stream }

-- sendSubscribe, which writes with the context of the subscription.
unfoldable pub announce : ℕ → ℕ → Hub → Hub
unfolding told
announce sub id h =
    if any (λ s. s.handle == sub && s.cancelled) h.broadcaster.subs
    then h
    else record h { session = told (announced id) h.session }

-- How the part of addSessionSubscription under the session's lock ends.
pub data AddReply : Type 0 where
  session_gone already_subscribed too_many late : AddReply
  registered : ℕ → AddReply

-- addSessionSubscription up to the unlock, for a request with that id whose snapshot is of
-- deployment `snap`.
unfoldable pub add_session_subscription : Config → ℕ → ℕ → ℕ → Hub → Hub × AddReply
unfolding lookup
add_session_subscription c id snap gen h =
    let (fenced, held) =
      subscribe_with_fence (new_subscription h.fresh id snap) gen h.broadcaster in
    if h.session.closed then (h, session_gone) else elim (lookup id h.session.subs) [
      | some other ↦ (h, already_subscribed)
      | none ↦
          if leb c.max_subscriptions_per_session (length h.session.subs)
          then (h, too_many)
          else if held
          then (
            record h {
              broadcaster = fenced;
              session = record h.session {
                subs = (id, h.fresh) ∷ h.session.subs;
                running = (h.fresh, id) ∷ h.session.running;
              };
              fresh = h.fresh + 1;
            },
            registered h.fresh,
          )
          else (record h { fresh = h.fresh + 1 }, late)
    ]

-- addSessionSubscription from the unlock on, with its answer.
unfoldable pub finish_add : ℕ → AddReply → Hub → Hub × Bool
unfolding announce told
finish_add id session_gone h = (h, false)
finish_add id already_subscribed h = (h, true)
finish_add id too_many h = (record h { session = told (over_limit id) h.session }, true)
finish_add id late h = (record h { session = record h.session { cancelled = true } }, false)
finish_add id (registered sub) h = (announce sub id h, true)

-- remove up to the unlock: the entry leaves the map, and its pointer is still to be cancelled.
unfoldable pub remove : ℕ → Hub → Hub × Option ℕ
unfolding lookup
remove id h =
    let session = record h.session { subs = delete_rows (λ e. e.0 == id) h.session.subs } in
    elim (lookup id h.session.subs) [
      | none ↦ (record h { session = session }, none)
      | some sub ↦ (record h { session = session; cancelling = sub ∷ h.cancelling }, some sub)
    ]

-- remove from the unlock on.
unfoldable pub cancel_removed : Option ℕ → Hub → Hub
cancel_removed none h = h
cancel_removed (some sub) h = record h {
  broadcaster = at_handle sub cancel h.broadcaster;
  cancelling = delete_rows (λ p. p == sub) h.cancelling;
}

-- forget, and the end of the goroutine of that subscription.
unfoldable pub forget : ℕ → ℕ → Session → Session
unfolding lookup
forget sub id s =
    let running = delete_rows (λ e. e.0 == sub) s.running in
    elim (lookup id s.subs) [
      | none ↦ record s { running = running }
      | some other ↦
          if other == sub
          then record s { running = running; subs = delete_rows (λ e. e.0 == id) s.subs }
          else record s { running = running }
    ]

-- closeSession, after the session has left the broadcaster's map.
unfoldable pub close_session : Session → Session
close_session s = record s { closed = true; cancelled = true }

-- What HandleSessionControl answers from the lookup of the session on.
pub data ControlReply : Type 0 where
  session_not_found other_identity no_content : ControlReply

-- What others do to the hub while a control request runs, before it takes the session's lock and
-- after it gives it back, by the number of ids or entries that are left.
pub record Others : Type 0 where
  pub before_lock : ℕ → Hub → Hub
  pub after_unlock : ℕ → Hub → Hub

unfoldable pub remove_each : Others → List ℕ → Hub → Hub
unfolding remove cancel_removed
remove_each o [] h = h
remove_each o (id ∷ ids) h =
    let (taken, sub) = remove id (o.before_lock (length ids) h) in
    remove_each o ids (cancel_removed sub (o.after_unlock (length ids) taken))

unfoldable pub add_each : Config → Others → ℕ → List Entry → Hub → Hub × ControlReply
unfolding add_session_subscription finish_add told
add_each c o gen [] h = (h, no_content)
add_each c o gen (e ∷ es) h =
    let before = o.before_lock (length es) h in
    elim e.snap [
      | none ↦
          add_each c o gen es (record before { session = told (unresolved e.id) before.session })
      | some snap ↦
          let (locked, reply) = add_session_subscription c e.id snap gen before in
          let (next, alive) = finish_add e.id reply (o.after_unlock (length es) locked) in
          let rest = add_each c o gen es next in if alive then rest else (next, session_not_found)
    ]

-- HandleSessionControl for a request that passed validation; `found` says that the broadcaster's
-- map has the session, `auth` is the identity of the request, and others act
-- on the hub while entries are removed and while they are added.
unfoldable pub handle_session_control :
    Config → Others → Others → Bool → ℕ → List ℕ → List Entry → Hub → Hub × ControlReply
unfolding add_each remove_each
handle_session_control c removing adding found auth unsubscribe subscribe h =
    let gen = admission_generation h.broadcaster in
    let done = add_each c adding gen subscribe (remove_each removing unsubscribe h) in
    if found
    then (if h.session.auth_key == auth then done else (h, other_identity))
    else (h, session_not_found)
