-- ===== src/Lifecycle/Restore.antt =====
-- internal/server/session.go: `RestoreSessions`, which at start-up makes the persisted sessions again. The
-- loaded records, and what the outside decides of each, are arguments; the background open that follows is
-- Progress.Opening.
use ida_pilot.Common.{
  string_key, ℕ, String, Bool, true, false, List, [], ◌∷◌, Option, none, some, if◌then◌else◌,
}
use ida_pilot.Cache.{delete_session_cache}
use ida_pilot.Progress.{record_progress}
use ida_pilot.Registry
use ida_pilot.Registry.{Registry, Metadata, Result, ok, err, restore, on_session}
use ida_pilot.Tiers.{ToolServer}
use ida_pilot.Workers
use ida_pilot.Workers.{get_client}
use ida_pilot.Lifecycle.{Outside, Server, delete_session_state, snapshot}

-- A persisted record, whether its binary is there, the process ID of its worker, if it starts, and whether
-- the worker is still there when its client is asked for.
pub record Restart : Type 0 where
  pub meta : Metadata
  pub accessible : Bool
  pub launched : Option ℕ
  pub alive : Bool
  pub now : ℕ

module _ {t : ToolServer} {Item : Type 0} where
  -- The deletions behind a worker that does not start; the progress stays.
  unfoldable pub discard : Outside → Server t Item → String → Server t Item
  discard o s id = record s {
    registry = Registry.delete s.registry id;
    saved = delete_session_state o s.saved id;
    caches = delete_session_cache s.caches id;
  }

  unfoldable pub with_worker : Restart → Server t Item → ℕ → ℕ → Server t Item
  with_worker q s p pid = record s {
    workers = Workers.start s.workers q.meta.id pid;
    registry = on_session s.registry p (λ x. record x { worker_pid = pid });
  }

  unfoldable pub with_client : Outside → Restart → Server t Item → Bool → Server t Item
  unfolding discard
  with_client o q s true = record s {
    progress = record_progress s.progress q.meta.id (snapshot "opening" 4 q.now);
  }
  with_client o q s false =
      discard o
        (record s { workers = Workers.stop o.stops (Workers.exited s.workers q.meta.id) q.meta.id })
        q.meta.id

  unfoldable pub restart_worker : Outside → Restart → Server t Item → ℕ → Option ℕ → Server t Item
  unfolding with_worker with_client discard
  restart_worker o q s p none = discard o s q.meta.id
  restart_worker o q s p (some pid) = with_client o q (with_worker q s p pid) q.alive

  unfoldable pub restore_result : Outside → Restart → Server t Item → Result → Server t Item
  unfolding restart_worker
  restore_result o q s (err e) = s
  restore_result o q s (ok r p) = restart_worker o q (record s { registry = r }) p q.launched

  unfoldable pub restore_one : Outside → Restart → Server t Item → Server t Item
  unfolding restore_result
  restore_one o q s =
      if q.accessible
      then restore_result o q s (restore s.registry q.meta)
      else record s { saved = delete_session_state o s.saved q.meta.id }

  unfoldable pub restore_each : Outside → List Restart → Server t Item → Server t Item
  unfolding restore_one
  restore_each o [] s = s
  restore_each o (q ∷ qs) s = restore_each o qs (restore_one o q s)

  -- Without a store, or if it does not load, there is nothing to restore.
  unfoldable pub restore_sessions : Outside → Option (List Restart) → Server t Item → Server t Item
  unfolding restore_each
  restore_sessions o none s = s
  restore_sessions o (some qs) s = restore_each o qs s
