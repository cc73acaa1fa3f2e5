-- ===== src/Realtime/Session/Control.antt =====
-- backend/internal/realtime/session.go: HandleSessionControl as a run of the session's steps.
use pbvex.Base.{ℕ}
use pbvex.Realtime.Broadcaster.{Config}
use pbvex.Realtime.Session.{Hub, Others}
use pbvex.Realtime.Session.Indexed.{Turns}

-- What others do is itself a run of the session's steps.
pub record AreTurns (c : Config) (o : Others) : Type 0 where
  pub before : (n : ℕ) (h : Hub) → Turns c h (o.before_lock n h)
  pub after : (n : ℕ) (h : Hub) → Turns c h (o.after_unlock n h)
