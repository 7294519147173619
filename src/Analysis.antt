-- ===== src/Analysis.antt =====
-- internal/server/session.go: the auto-analysis of one session, `beginBackgroundAnalysis` with
-- `executeAnalysisWithHeartbeat`, as steps of goroutines that run at the same time.
-- The state is the session with its guard and its leases, its caches, its progress, and the goroutines,
-- each at the step that it does next. A step happens at once: each is one atomic operation of the code,
-- or runs under one mutex.
pub mod Exclusion
pub mod Draining
mod Tests
use ida_pilot.Common.{
  string_key, ℕ, suc, ◌+◌, String, Bool, true, false, List, [], ◌∷◌, ◌++◌, Option, none, some,
  get_elem?, set, if◌then◌else◌,
}
use ida_pilot.Common.Map.{Map}
use ida_pilot.Cache.{SessionCache, delete_session_cache}
use ida_pilot.Progress.{ProgressStore, SessionProgress, record_progress}
use ida_pilot.Registry.{
  Session, acquire_in_flight, release_in_flight, try_begin_analysis, end_analysis,
}

-- What a goroutine does next, with whether its analysis succeeded. `load_holds` is the load of the binary,
-- while it has the guard for its own analysis; it takes no lease here.
pub data Phase : Type 0 where
  record_start : Phase
  wait : Phase
  load_holds : Phase
  drop_cache : Phase
  record_ready : Phase
  record_failed : Phase
  end_guard : Bool → Phase
  signal : Bool → Phase
  release : Bool → Phase
  ended : Bool → Phase

-- The start of an analysis, the next step of a goroutine, or a heartbeat of one; the load's claim of the guard;
-- and a stage that another part of the server records for the session, as the load and `watchAutoAnalysis` do.
pub data Event : Type 0 where
  begin : Event
  step_of : ℕ → (success : Bool) → (now : ℕ) → Event
  beat_of : ℕ → (now : ℕ) → Event
  load_claims : Event
  other_records : (stage : String) → (at now : ℕ) → Event

unfoldable pub stage_at : String → ℕ → ℕ → SessionProgress
stage_at stage step now = record {
  stage = stage;
  message = "";
  progress = step;
  total = 16;
  updated_at = now;
}

module _ (Item : Type 0) where
  pub record World : Type 0 where
    pub session : Session
    pub caches : Map String (SessionCache Item)
    pub progress : ProgressStore
    pub jobs : List Phase

module _ {Item : Type 0} where
  unfoldable pub record_stage : World Item → String → ℕ → ℕ → World Item
  unfolding stage_at
  record_stage w stage step now = record w {
    progress = record_progress w.progress w.session.id (stage_at stage step now);
  }

  -- `beginBackgroundAnalysis` up to its return, and whether it started an analysis.
  unfoldable pub begin_background_analysis : World Item → World Item × Bool
  unfolding try_begin_analysis acquire_in_flight
  begin_background_analysis w =
      let claim = try_begin_analysis w.session in
      if claim.1
      then (
        record w { session = acquire_in_flight claim.0; jobs = w.jobs ++ record_start ∷ [] },
        true,
      )
      else (w, false)

  -- The claim of `backgroundOpen`, which skips its analysis if another one has the guard.
  unfoldable pub claim_for_load : World Item → World Item
  unfolding try_begin_analysis
  claim_for_load w =
      let claim = try_begin_analysis w.session in
      if claim.1 then record w { session = claim.0; jobs = w.jobs ++ load_holds ∷ [] } else w

  -- The next step of a goroutine. In `wait` it has the worker's reply.
  unfoldable pub advance : World Item → Bool → ℕ → Phase → World Item × Phase
  unfolding record_stage end_analysis release_in_flight
  advance w success now record_start = (record_stage w "analyzing" 8 now, wait)
  advance w success now wait = (w, if success then drop_cache else record_failed)
  advance w success now load_holds = (record w { session = end_analysis w.session }, ended success)
  advance w success now drop_cache =
      (record w { caches = delete_session_cache w.caches w.session.id }, record_ready)
  advance w success now record_ready = (record_stage w "ready" 16 now, end_guard true)
  advance w success now record_failed = (record_stage w "failed" 0 now, end_guard false)
  advance w success now (end_guard b) = (record w { session = end_analysis w.session }, signal b)
  advance w success now (signal b) = (w, release b)
  advance w success now (release b) =
      (record w { session = release_in_flight now w.session }, ended b)
  advance w success now (ended b) = (w, ended b)

  unfoldable pub put_job : ℕ → World Item × Phase → World Item
  put_job i (w, p) = record w { jobs = set w.jobs i p }

  unfoldable pub step_job : World Item → Bool → ℕ → ℕ → Option Phase → World Item
  unfolding put_job advance
  step_job w success now i none = w
  step_job w success now i (some p) = put_job i (advance w success now p)

  -- A heartbeat comes while the worker is waited for.
  unfoldable pub beat_job : World Item → ℕ → Option Phase → World Item
  unfolding record_stage
  beat_job w now (some wait) = record_stage w "analyzing" 8 now
  beat_job w now other = w

  unfoldable pub step : World Item → Event → World Item
  unfolding begin_background_analysis claim_for_load step_job beat_job record_stage
  step w begin = (begin_background_analysis w).0
  step w (step_of i success now) = step_job w success now i (get_elem? w.jobs i)
  step w (beat_of i now) = beat_job w now (get_elem? w.jobs i)
  step w load_claims = claim_for_load w
  step w (other_records stage at now) = record_stage w stage at now

  unfoldable pub run : World Item → List Event → World Item
  run w [] = w
  run w (e ∷ es) = run (step w e) es
