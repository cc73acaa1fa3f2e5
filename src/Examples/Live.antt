-- ===== src/Examples/Live.antt =====
-- Realtime subscriptions at concrete worlds: one request, an activation that it overlaps, the limits
-- of one stream, and a session that replaces a subscription.
use pbvex.Base.{refl, true, false, some, [], ◌∷◌, arith, none, List}
use pbvex.Sql.{update_rows}
use pbvex.Realtime.Broadcaster.{
  Config, Broadcaster, admit_stream, admission_generation, reconnect_all, invalidate_all,
  per_ip_count,
}
use pbvex.Realtime.Broadcaster.Fence.{
  World, Admission, Step, Reach, IsSound, admits, resolves, activates, registers, reconnects,
  invalidates, Reach-IsSound,
}
use pbvex.Realtime.Broadcaster.Fence
use pbvex.Realtime.Broadcaster.Limits.{Gate, Moves, IsCounted, Moves-IsCounted, asks, still, moves}
use pbvex.Realtime.Session.{Hub, add_session_subscription, remove, Entry, Others}
use pbvex.Realtime.Session.Indexed.{Turns, IsIndexed, Turns-IsIndexed, adds, removes, turn}
use pbvex.Realtime.Session.Indexed

abbrev no_subscriptions : Broadcaster
no_subscriptions = record { subs = []; sessions = []; generation = 0 }

abbrev first_world : World
first_world = record {
  broadcaster = no_subscriptions;
  active = 1;
  stale = false;
  version = 0;
  admissions = [];
}

abbrev last_world : World
last_world = record {
  broadcaster = record { subs = []; sessions = []; generation = 1 };
  active = 2;
  stale = false;
  version = 1;
  admissions = record { gen = 0; snap = some 1 } ∷ [];
}

-- A request is admitted and resolved, deployment 2 is activated, and a write invalidates.
fenced_run : Reach first_world last_world
unfolding admission_generation reconnect_all invalidate_all update_rows
fenced_run =
    Fence.next
      (Fence.next
        (Fence.next (Fence.next (Fence.next Fence.here admits) (resolves (λ a. true)))
          (activates 2))
        (reconnects (omega arith)))
      invalidates

first_world-IsSound : IsSound first_world
first_world-IsSound = record { subs = tt; admissions = tt }

Reach-IsSound_example : IsSound last_world
Reach-IsSound_example = Reach-IsSound fenced_run first_world-IsSound

abbrev small_config : Config
small_config = record {
  ping_interval = 1;
  max_connections = 2;
  max_connections_per_ip = 1;
  max_concurrent_queries = 1;
  max_body_bytes = 1;
  max_get_args_bytes = 1;
  max_subscriptions_per_session = 1;
}

abbrev no_streams : Gate
no_streams = record { streams = record { conns = 0; per_ip = [] }; streaming = [] }

-- An address asks twice; the second request is refused.
abbrev one_stream : Gate
one_stream = record { streams = record { conns = 1; per_ip = (7, 1) ∷ [] }; streaming = 7 ∷ [] }

two_requests : Moves small_config no_streams one_stream
unfolding admit_stream
two_requests = moves (moves still (asks true 7)) (asks true 7)

no_streams-IsCounted : IsCounted small_config no_streams
unfolding per_ip_count
no_streams-IsCounted = record {
  conns = refl;
  bounded = omega arith;
  per_ip = λ ip. refl;
  per_ip_bounded = λ ip. omega arith;
}

Moves-IsCounted_example : IsCounted small_config one_stream
Moves-IsCounted_example = Moves-IsCounted two_requests no_streams-IsCounted

abbrev new_hub : Hub
new_hub = record {
  broadcaster = no_subscriptions;
  session = record {
    id = 3;
    auth_key = 9;
    closed = false;
    cancelled = false;
    subs = [];
    running = [];
    stream = [];
  };
  fresh = 0;
  cancelling = [];
}

-- Subscription 5 is added and its entry removed; before the removed one is cancelled, a new one
-- takes its id.
abbrev replaced_hub : Hub
replaced_hub =
    (add_session_subscription small_config 5 1 0
      (remove 5 (add_session_subscription small_config 5 1 0 new_hub).0).0).0

replaced : Turns small_config new_hub replaced_hub
replaced = turn (turn (turn Indexed.still (adds 5 1 0)) (removes 5)) (adds 5 1 0)

new_hub-IsIndexed : IsIndexed small_config new_hub
new_hub-IsIndexed = record { entered = tt; old = tt; running = tt; bounded = omega arith }

Turns-IsIndexed_example : IsIndexed small_config replaced_hub
Turns-IsIndexed_example = Turns-IsIndexed replaced new_hub-IsIndexed

-- Others activate a deployment whenever the request has given the session's lock back.
abbrev activating : Others
activating = record {
  before_lock = λ n h. h;
  after_unlock = λ n h. record h { broadcaster = reconnect_all h.broadcaster };
}

abbrev requested : List Entry
requested = record { id = 6; snap = some 1 } ∷ record { id = 7; snap = none } ∷ []
