-- ===== src/Progress.antt =====
-- internal/server/progress.go and the readiness gate of internal/server/util.go: the progress snapshot
-- of each session, the reporter that also notifies the client, and what a stage means.
-- Progress numbers count quarters, the smallest fraction that the code reports. The time of a snapshot
-- is an argument.
pub mod Readiness
pub mod Opening
pub mod Notify
pub mod Waiting
mod Tests
use ida_pilot.Common.{
  string_key, ◌==◌, ℕ, String, Bool, true, false, ◌&&◌, ◌||◌, not, List, [], ◌∷◌, ◌++◌, Option,
  none, some, ltb, if◌then◌else◌,
}
use ida_pilot.Common.Map
use ida_pilot.Common.Map.{Map}

-- `sessionProgress`.
pub record SessionProgress : Type 0 where
  pub stage : String
  pub message : String
  pub progress : ℕ
  pub total : ℕ
  pub updated_at : ℕ

abbrev pub ProgressStore : Type 0
ProgressStore = Map String SessionProgress

-- An empty session ID is ignored.
unfoldable pub record_progress : ProgressStore → String → SessionProgress → ProgressStore
record_progress store id p = if id == "" then store else Map.insert id p store

unfoldable pub clear_progress : ProgressStore → String → ProgressStore
clear_progress store id = if id == "" then store else Map.delete id store

unfoldable pub get_progress : ProgressStore → String → Option SessionProgress
get_progress store id = Map.lookup id store

-- `inProgressStages`.
unfoldable pub in_progress : String → Bool
in_progress stage =
    stage == "starting" || stage == "opening" || stage == "analyzing" || stage == "warming"

pub data NotReady : Type 0 where
  load_failed : (message : String) → NotReady
  still : (stage : String) → NotReady

-- `readinessError`; a session without a snapshot is ready.
unfoldable pub stage_error : Option SessionProgress → Option NotReady
unfolding in_progress
stage_error none = none
stage_error (some p) =
    if p.stage == "failed"
    then some (load_failed p.message)
    else if in_progress p.stage
    then some (still p.stage)
    else none

unfoldable pub readiness_error : ProgressStore → String → Option NotReady
unfolding stage_error get_progress
readiness_error store id = stage_error (get_progress store id)

-- The stage that `getSessionProgress` shows.
unfoldable pub shown_stage : Option SessionProgress → String
shown_stage none = "idle"
shown_stage (some p) = p.stage

-- `auto_running` of `getSessionProgress`: the worker is asked only if nothing runs and no stage is in
-- progress; `worker` is its answer, `none` if it gives none in time.
unfoldable pub auto_running : Bool → String → Option Bool → Bool
unfolding in_progress
auto_running analysis_running stage none = analysis_running
auto_running analysis_running stage (some worker) =
    if analysis_running || in_progress stage then analysis_running else worker

-- `ready` of `getSessionProgress`.
unfoldable pub is_ready : ProgressStore → String → Bool → Option Bool → Bool
unfolding shown_stage auto_running in_progress
is_ready store id analysis_running worker =
    let stage = shown_stage (get_progress store id) in
    not analysis_running
    && (not (auto_running analysis_running stage worker)
        && (not (stage == "failed") && not (in_progress stage)))

-- `progressReporter`: `listens` is whether the client gave a progress token.
pub record Reporter : Type 0 where
  pub listens : Bool
  pub last : ℕ
  pub stage : String

pub record Notification : Type 0 where
  pub progress : ℕ
  pub message : String
  pub total : Option ℕ

-- `Emit`: the snapshot that is recorded, and the notification that is sent, if any.
pub record Emitted : Type 0 where
  pub reporter : Reporter
  pub recorded : SessionProgress
  pub sent : Option Notification

unfoldable pub emit : Reporter → SessionProgress → Emitted
emit r p =
    let stage = if p.stage == "" then r.stage else p.stage in
    let progress = if ltb p.progress r.last then r.last else p.progress in
    let last = if r.listens then progress else r.last in
    record {
      reporter = record { listens = r.listens; last = last; stage = stage };
      recorded = record p { stage = stage };
      sent =
          if r.listens
          then some (record {
            progress = progress;
            message = p.message;
            total = if ltb 0 p.total then some p.total else none;
          })
          else none;
    }

-- `emitProgress`: through the reporter if there is one, and into the store.
unfoldable pub emit_progress :
    Option Reporter → ProgressStore → String → SessionProgress → Option Reporter × ProgressStore
unfolding emit record_progress
emit_progress none store id p = (none, record_progress store id p)
emit_progress (some r) store id p =
    (some (emit r p).reporter, record_progress store id (emit r p).recorded)
