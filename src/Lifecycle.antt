-- ===== src/Lifecycle.antt =====
-- internal/server/session.go and internal/server/util.go: how sessions come and go. `openBinary`,
-- `closeBinary`, the watchdog and `resolveSession`, over the registry, the workers, the persisted records,
-- the caches, the progress store and the tools of the server.
-- What the outside decides is an argument: the ID of a new session, the time, the launch of a worker, and
-- whether a process stops and a file is written or removed. The background part of an open is
-- Progress.Opening.
pub mod Forget
pub mod Open
pub mod Tidy
pub mod Watchdog
pub mod Tick
pub mod Restore
pub mod Touches
pub mod Restored
mod Tests
use ida_pilot.Common.{
  string_key, ◌==◌, ℕ, suc, ◌+◌, String, Bool, true, false, ◌&&◌, not, List, [], ◌∷◌, Option, none,
  some, length, ltb, eqb, if◌then◌else◌,
}
use ida_pilot.Common.Map
use ida_pilot.Common.Map.{Map}
use ida_pilot.Cache.{SessionCache, delete_session_cache}
use ida_pilot.Progress.{ProgressStore, SessionProgress, record_progress, clear_progress}
use ida_pilot.Registry
use ida_pilot.Registry.{
  Registry, Session, Metadata, Result, ok, err, metadata, create, find_by_binary_path, on_session,
  list, is_expired, has_in_flight,
}
use ida_pilot.Tiers.{ToolServer, Tiers, promote_to_tier, demote_to_tier0}
use ida_pilot.Workers
use ida_pilot.Workers.{Workers}

-- Whether a process stops, and whether a record is written and removed.
pub record Outside : Type 0 where
  pub stops : Bool
  pub saves : Bool
  pub removes : Bool

-- The persisted records, by session ID; `none` for a server without a store.
abbrev pub Saved : Type 0
Saved = Option (Map String Metadata)

unfoldable pub persist_session : Outside → Saved → String → Metadata → Saved
persist_session o none id meta = none
persist_session o (some files) id meta =
    if o.saves then some (Map.insert id meta files) else some files

unfoldable pub delete_session_state : Outside → Saved → String → Saved
delete_session_state o none id = none
delete_session_state o (some files) id =
    if o.removes then some (Map.delete id files) else some files

module _ (t : ToolServer) (Item : Type 0) where
  pub record Server : Type 0 where
    pub registry : Registry
    pub workers : Workers
    pub saved : Saved
    pub caches : Map String (SessionCache Item)
    pub progress : ProgressStore
    pub tiers : Tiers t

pub data ResolveError : Type 0 where
  not_found : ResolveError
  none_active : ResolveError
  several_active : ResolveError

pub data Resolved : Type 0 where
  found : ℕ → Resolved
  unresolved : ResolveError → Resolved

unfoldable pub the_only : List ℕ → Resolved
the_only [] = unresolved none_active
the_only (s ∷ []) = found s
the_only (s ∷ t ∷ l) = unresolved several_active

unfoldable pub known : Option ℕ → Resolved
known none = unresolved not_found
known (some s) = found s

unfoldable pub resolve_session : Registry → String → Resolved
unfolding the_only known
resolve_session r id = if id == "" then the_only (list r) else known (Registry.get r id)

pub data Opening : Type 0 where
  reused : String → Opening
  refused : Opening
  not_started : Opening
  opening : String → Opening

pub data Closing : Type 0 where
  closed : Closing
  not_closed : ResolveError → Closing

-- What the outside decides of one `openBinary`: `launched` is the process ID, `alive` whether the worker
-- is still there when its client is asked for.
pub record Request : Type 0 where
  pub path : String
  pub id : String
  pub timeout : ℕ
  pub now : ℕ
  pub launched : Option ℕ
  pub alive : Bool

unfoldable pub snapshot : String → ℕ → ℕ → SessionProgress
snapshot stage step now = record {
  stage = stage;
  message = "";
  progress = step;
  total = 16;
  updated_at = now;
}

module _ {t : ToolServer} {Item : Type 0} where
  -- The deletions that closing, expiry and a failed open have in common.
  unfoldable pub drop_session : Server t Item → String → Server t Item
  drop_session s id = record s {
    registry = Registry.delete s.registry id;
    caches = delete_session_cache s.caches id;
    progress = clear_progress s.progress id;
  }

  -- The steps of `closeBinary` and of the watchdog for one session.
  unfoldable pub forget_session : Outside → Server t Item → String → Server t Item
  unfolding drop_session
  forget_session o s id =
      let d = drop_session s id in
      record d {
        workers = Workers.stop o.stops s.workers id;
        saved = delete_session_state o s.saved id;
      }

  unfoldable pub demote_if_empty : Server t Item → Server t Item
  demote_if_empty s =
      if eqb (length (list s.registry)) 0 then record s { tiers = demote_to_tier0 t s.tiers } else s

  unfoldable pub close_found : Outside → Server t Item → Resolved → Server t Item × Closing
  unfolding forget_session demote_if_empty
  close_found o s (unresolved e) = (s, not_closed e)
  close_found o s (found p) = (demote_if_empty (forget_session o s (s.registry.heap p).id), closed)

  unfoldable pub close_binary : Outside → Server t Item → String → Server t Item × Closing
  unfolding close_found
  close_binary o s id = close_found o s (resolve_session s.registry id)

  unfoldable pub promote : Server t Item → Server t Item
  promote s = record s { tiers = promote_to_tier t 1 s.tiers }

  -- `workers.Start`, for a launch that gave a process ID.
  unfoldable pub running : Request → Server t Item → ℕ → ℕ → Server t Item
  running q s p pid = record s {
    workers = Workers.start s.workers q.id pid;
    registry = on_session s.registry p (λ x. record x { worker_pid = pid });
  }

  -- From the client of the worker on: it is there, or the process has ended.
  unfoldable pub after_start :
      Outside → Request → Server t Item → ℕ → Bool → Server t Item × Opening
  unfolding promote snapshot
  after_start o q s p true =
      let kept =
        promote
          (record s { saved = persist_session o s.saved q.id (metadata (s.registry.heap p)) }) in
      (
        record kept { progress = record_progress kept.progress q.id (snapshot "opening" 4 q.now) },
        opening q.id,
      )
  after_start o q s p false =
      let ended = Workers.exited s.workers q.id in
      (drop_session (record s { workers = Workers.stop o.stops ended q.id }) q.id, not_started)

  -- From the start of the worker on, for the session `p` that was created.
  unfoldable pub start_session :
      Outside → Request → Server t Item → ℕ → Option ℕ → Server t Item × Opening
  unfolding running after_start drop_session
  start_session o q s p none = (drop_session s q.id, not_started)
  start_session o q s p (some pid) = after_start o q (running q s p pid) p q.alive

  unfoldable pub open_created : Outside → Request → Server t Item → Result → Server t Item × Opening
  unfolding start_session snapshot
  open_created o q s (err e) = (s, refused)
  open_created o q s (ok r p) =
      start_session o q
        (record s {
          registry = r;
          progress = record_progress s.progress q.id (snapshot "starting" 0 q.now);
        })
        p q.launched

  unfoldable pub open_known : Outside → Request → Server t Item → Option ℕ → Server t Item × Opening
  unfolding open_created promote
  open_known o q s (some p) = (promote s, reused (s.registry.heap p).id)
  open_known o q s none = open_created o q s (create s.registry q.id q.path q.timeout q.now)

  -- `openBinary` for a path that is valid.
  unfoldable pub open_binary : Outside → Request → Server t Item → Server t Item × Opening
  unfolding open_known
  open_binary o q s = open_known o q s (find_by_binary_path s.registry q.path)

  -- `cleanupExpiredSessions` over the snapshot of the expired sessions, at a time.
  unfoldable pub cleanup_expired_sessions :
      Outside → ℕ → List ℕ → Server t Item → ℕ → Server t Item × ℕ
  unfolding forget_session
  cleanup_expired_sessions o now [] s cleaned = (s, cleaned)
  cleanup_expired_sessions o now (p ∷ rest) s cleaned =
      let x = s.registry.heap p in
      let skip = cleanup_expired_sessions o now rest s cleaned in
      let next = cleanup_expired_sessions o now rest (forget_session o s x.id) (suc cleaned) in
      if has_in_flight x then skip else if is_expired now x then next else skip

  -- One tick of `Watchdog`.
  unfoldable pub watchdog : Outside → ℕ → Server t Item → Server t Item
  unfolding demote_if_empty
  watchdog o now s =
      let r = cleanup_expired_sessions o now (Registry.expired s.registry now) s 0 in
      if ltb 0 r.1 then demote_if_empty r.0 else r.0
