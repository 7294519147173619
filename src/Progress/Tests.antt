-- ===== src/Progress/Tests.antt =====
-- The theorems of progress at concrete inputs.
use ida_pilot.Common.{
  ◌⊎◌, some, string_key, ℕ, ◌≡◌, ◌↔◌, refl, true, false, String, List, [], ◌∷◌, ◌++◌, none, length,
}
use ida_pilot.Registry.{blank}
use ida_pilot.Progress.{
  SessionProgress, ProgressStore, Reporter, record_progress, readiness_error, is_ready,
}
use ida_pilot.Progress.Readiness.{is_ready_iff}
use ida_pilot.Progress.Notify.{emit_all, Rising, emit_all-Rising}
use ida_pilot.Progress.Waiting.{Poll, goes_on, all_go_on, has_failed, all_failed}
use ida_pilot.Progress.{stage_error, in_progress}
use ida_pilot.Progress.Opening.{
  Course, opened, background_open, all_in_progress, background_open-stages,
}

abbrev at_stage : String → ℕ → SessionProgress
at_stage stage n = record {
  stage = stage;
  message = "busy";
  progress = n;
  total = 16;
  updated_at = 1;
}

abbrev loading : ProgressStore
loading = record_progress [] "s1" (at_stage "opening" 4)

is_ready_iff_example : (is_ready loading "s1" false (some true) ≡ true) ↔ (
    (readiness_error loading "s1" ≡ none)
    × (false ≡ false)
    × ((some true ≡ none) ⊎ (some true ≡ some false)))
is_ready_iff_example = is_ready_iff loading "s1" false (some true)

abbrev listener : Reporter
listener = record { listens = true; last = 0; stage = "loading" }

abbrev reports : List SessionProgress
reports = at_stage "opening" 4 ∷ at_stage "" 2 ∷ at_stage "warming" 12 ∷ []

emit_all-Rising_example :
    Rising 0 (emit_all listener reports) × (length (emit_all listener reports) ≡ length reports)
emit_all-Rising_example = emit_all-Rising listener reports refl

abbrev course : Course
course = record {
  reply = opened;
  load_beats = 2;
  analysis_beats = 1;
  has_client = true;
  warm_steps = 4;
  finished_at = 99;
}

background_open-stages_example :
    (before : List String) × ((background_open true course blank).1 ≡ before ++ "ready" ∷ [])
    × (all_in_progress before ≡ true)
background_open-stages_example = background_open-stages true course blank

abbrev poll : String → Poll
poll stage = record { shown = some (at_stage stage 4); done = false }

still_loading : all_go_on (poll "opening" ∷ poll "warming" ∷ []) ≡ true
unfolding all_go_on stage_error in_progress
still_loading = refl

is_over : goes_on (poll "ready") ≡ false
unfolding stage_error in_progress
is_over = refl

broken : all_failed (poll "failed" ∷ poll "failed" ∷ []) ≡ true
unfolding all_failed has_failed
broken = refl
