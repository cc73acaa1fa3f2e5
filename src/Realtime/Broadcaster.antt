-- ===== src/Realtime/Broadcaster.antt =====
-- backend/internal/realtime/realtime.go: Broadcaster, its registry of subscriptions with the
-- activation fence, and the limits on streams; subscription.go: the loop of Subscription.run.
-- A map is a list. A function is what runs under one lock, with the sends and cancels that the
-- call makes after the unlock in reconnect_all and invalidate_all: each is the completed call.
pub mod Fence
pub mod Limits
use pbvex.Base.{
  ℕ, zero, suc, ◌+◌, ◌-◌, ◌*◌, ◌==◌, leb, ltb, Bool, true, false, not, ◌&&◌, ◌||◌, Option, none,
  some, List, [], ◌∷◌, map, wrap, le_i64, if◌then◌else◌,
}
use pbvex.Sql.{delete_rows, update_rows, count_rows}

-- Config; the durations and limits are int64 bit patterns.
pub record Config : Type 0 where
  pub ping_interval : ℕ
  pub max_connections : ℕ
  pub max_connections_per_ip : ℕ
  pub max_concurrent_queries : ℕ
  pub max_body_bytes : ℕ
  pub max_get_args_bytes : ℕ
  pub max_subscriptions_per_session : ℕ

abbrev or_default : ℕ → ℕ → ℕ
or_default x d = if le_i64 x 0 then d else x

-- NewBroadcaster's configuration; `d` is DefaultConfig().
unfoldable pub normalized : Config → Config → Config
normalized d c = record {
  ping_interval = or_default c.ping_interval d.ping_interval;
  max_connections = or_default c.max_connections d.max_connections;
  max_connections_per_ip = or_default c.max_connections_per_ip d.max_connections_per_ip;
  max_concurrent_queries = or_default c.max_concurrent_queries d.max_concurrent_queries;
  max_body_bytes = or_default c.max_body_bytes d.max_body_bytes;
  max_get_args_bytes = or_default c.max_get_args_bytes d.max_get_args_bytes;
  max_subscriptions_per_session =
      or_default c.max_subscriptions_per_session d.max_subscriptions_per_session;
}

-- A Subscription: `handle` is its pointer, `snap` the deployment of its snapshot, `notify` whether
-- the channel of capacity one holds a message, `pending` the variable of run. `seen` is the version
-- of the data at the last invocation; it is not in the source and no operation reads it.
pub record Subscription : Type 0 where
  pub handle : ℕ
  pub id : ℕ
  pub snap : ℕ
  pub cancelled : Bool
  pub notify : Bool
  pub pending : Bool
  pub admission_paused : Bool
  pub seen : ℕ

-- The part of a session that the broadcaster holds.
pub record SessionEntry : Type 0 where
  pub id : ℕ
  pub cancelled : Bool

pub record Broadcaster : Type 0 where
  pub subs : List Subscription
  pub sessions : List SessionEntry
  pub generation : ℕ

abbrev pub mark_notified : Subscription → Subscription
mark_notified s = record s { notify = true }

abbrev pub cancel : Subscription → Subscription
cancel s = record s { cancelled = true }

abbrev pub cancel_session : SessionEntry → SessionEntry
cancel_session s = record s { cancelled = true }

-- InvalidateAll, when it returns: a send that does not block on the channel of each subscription
-- that was registered when it read them; the sends follow the unlock.
unfoldable pub invalidate_all : Broadcaster → Broadcaster
invalidate_all b = record b { subs = map mark_notified b.subs }

-- ReconnectAll, when it returns: the generation, a uint64, is raised under the lock, and the
-- cancels of what was registered then follow the unlock.
unfoldable pub reconnect_all : Broadcaster → Broadcaster
reconnect_all b = record {
  subs = map cancel b.subs;
  sessions = map cancel_session b.sessions;
  generation = wrap (b.generation + 1);
}

unfoldable pub admission_generation : Broadcaster → ℕ
admission_generation b = b.generation

unfoldable pub subscribe_with_fence : Subscription → ℕ → Broadcaster → Broadcaster × Bool
subscribe_with_fence s gen b =
    if b.generation == gen then (record b { subs = s ∷ b.subs }, true) else (b, false)

unfoldable pub register_session : SessionEntry → ℕ → Broadcaster → Broadcaster × Bool
register_session s gen b =
    if b.generation == gen then (record b { sessions = s ∷ b.sessions }, true) else (b, false)

unfoldable pub unsubscribe : ℕ → Broadcaster → Broadcaster
unsubscribe handle b = record b { subs = delete_rows (λ s. s.handle == handle) b.subs }

-- The subscription that Handle and addSessionSubscription make for a resolved request.
unfoldable pub new_subscription : ℕ → ℕ → ℕ → Subscription
new_subscription handle id snap = record {
  handle = handle;
  id = id;
  snap = snap;
  cancelled = false;
  notify = false;
  pending = true;
  admission_paused = false;
  seen = 0;
}

-- One round of run: runOnce where `pending` is set, and then what the select receives. `denied`
-- says that the invocation failed admission; `version` is that of the data that it reads.
unfoldable pub run_once : Bool → ℕ → Subscription → Subscription
run_once denied version s =
    if s.cancelled || s.admission_paused
    then record s { pending = false }
    else record s { pending = false; seen = version; admission_paused = denied }

unfoldable pub receive_notify : Subscription → Subscription
receive_notify s =
    if s.notify then record s { notify = false; pending = not s.admission_paused } else s

unfoldable pub at_handle : ℕ → (Subscription → Subscription) → Broadcaster → Broadcaster
at_handle handle f b = record b { subs = update_rows (λ s. s.handle == handle) f b.subs }

-- The stream limits: the number of slots of connsSem in use, and perIPConns.
pub record Streams : Type 0 where
  pub conns : ℕ
  pub per_ip : List (ℕ × ℕ)

unfoldable pub per_ip_count : ℕ → List (ℕ × ℕ) → ℕ
per_ip_count ip [] = 0
per_ip_count ip ((a, n) ∷ m) = let rest = per_ip_count ip m in if a == ip then n else rest

unfoldable pub set_per_ip : ℕ → ℕ → List (ℕ × ℕ) → List (ℕ × ℕ)
set_per_ip ip n [] = (ip, n) ∷ []
set_per_ip ip n ((a, k) ∷ m) =
    let rest = set_per_ip ip n m in if a == ip then (a, n) ∷ m else (a, k) ∷ rest

unfoldable pub delete_per_ip : ℕ → List (ℕ × ℕ) → List (ℕ × ℕ)
delete_per_ip ip [] = []
delete_per_ip ip ((a, k) ∷ m) =
    let rest = delete_per_ip ip m in if a == ip then rest else (a, k) ∷ rest

unfoldable pub acquire_conn_per_ip : Config → ℕ → List (ℕ × ℕ) → List (ℕ × ℕ) × Bool
unfolding per_ip_count set_per_ip
acquire_conn_per_ip c ip m =
    if leb c.max_connections_per_ip (per_ip_count ip m)
    then (m, false)
    else (set_per_ip ip (per_ip_count ip m + 1) m, true)

unfoldable pub release_conn_per_ip : ℕ → List (ℕ × ℕ) → List (ℕ × ℕ)
unfolding per_ip_count set_per_ip delete_per_ip
release_conn_per_ip ip m =
    let lowered =
      if ltb 0 (per_ip_count ip m) then set_per_ip ip (per_ip_count ip m - 1) m else m in
    if per_ip_count ip lowered == 0 then delete_per_ip ip lowered else lowered

-- What admitStream answers.
pub data Admitted : Type 0 where
  not_acceptable limit_reached per_ip_limit_reached : Admitted
  stream_open : Admitted

-- admitStream; `accepts` is acceptsEventStream of the Accept header.
unfoldable pub admit_stream : Config → Bool → ℕ → Streams → Streams × Admitted
unfolding acquire_conn_per_ip
admit_stream c accepts ip s =
    let (per_ip, held) = acquire_conn_per_ip c ip s.per_ip in
    if not accepts
    then (s, not_acceptable)
    else if leb c.max_connections s.conns
    then (s, limit_reached)
    else if held
    then (record { conns = s.conns + 1; per_ip = per_ip }, stream_open)
    else (record s { per_ip = per_ip }, per_ip_limit_reached)

-- The release that admitStream returns.
unfoldable pub release_stream : ℕ → Streams → Streams
unfolding release_conn_per_ip
release_stream ip s = record { conns = s.conns - 1; per_ip = release_conn_per_ip ip s.per_ip }
