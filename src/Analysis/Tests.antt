-- ===== src/Analysis/Tests.antt =====
-- The theorems of the analyses at concrete schedules.
use ida_pilot.Common.{
  string_key, ◌≡◌, ◌≤◌, ◌⊎◌, ◌+◌, ◌*◌, refl, ℕ, true, false, List, [], ◌∷◌, some, length, get_elem?,
  if◌then◌else◌,
}
use ida_pilot.Common.Int.{pos}
use ida_pilot.Progress.{readiness_error, still}
use ida_pilot.Registry.{blank, try_begin_analysis, acquire_in_flight}
use ida_pilot.Analysis.{
  World, Event, begin, step_of, beat_of, load_claims, run, step, begin_background_analysis,
  step_job, put_job, advance, record_stage,
}
use ida_pilot.Analysis.Exclusion.{holds, leased, busy, total, undisturbed, Idle, analyses_exclude}
use ida_pilot.Analysis.Draining.{left, is_live, Working, analyses_end}

abbrev idle_world : World ℕ
idle_world = record { session = record blank { id = "a1" }; caches = []; progress = []; jobs = [] }

idle : Idle 0 idle_world
idle = (refl, refl, refl, refl)

-- A second start, and the claim of the load, while the first analysis runs.
abbrev schedule : List Event
schedule = begin ∷ step_of 0 true 1 ∷ begin ∷ load_claims ∷ beat_of 0 2 ∷ []

analyses_exclude_example :
    (total holds (run idle_world schedule).jobs
      ≡ (if (run idle_world schedule).session.analysis_active then 1 else 0))
    × ((run idle_world schedule).session.in_flight
        ≡ pos (0 + total leased (run idle_world schedule).jobs))
    × ((undisturbed schedule ≡ false)
        ⊎ (total busy (run idle_world schedule).jobs ≡ 0)
        ⊎ (readiness_error (run idle_world schedule).progress (run idle_world schedule).session.id
            ≡ some (still "analyzing")))
analyses_exclude_example = analyses_exclude 0 idle_world schedule idle

abbrev after : World ℕ
after = run (run idle_world (begin ∷ [])) (step_of 0 true 1 ∷ step_of 0 true 2 ∷ [])

works : Working (run idle_world (begin ∷ [])) (step_of 0 true 1 ∷ step_of 0 true 2 ∷ [])
unfolding run step begin_background_analysis try_begin_analysis acquire_in_flight step_job put_job
    advance record_stage
works = (refl, (refl, tt))

analyses_end_example :
    (2 + total left after.jobs ≤ 7 * length (run idle_world (begin ∷ [])).jobs)
    × (((i : ℕ) × (is_live (get_elem? after.jobs i) ≡ true))
        ⊎ ((after.session.analysis_active ≡ false) × (after.session.in_flight ≡ pos 0)))
analyses_end_example =
    analyses_end 0 idle_world (begin ∷ []) (step_of 0 true 1 ∷ step_of 0 true 2 ∷ []) idle works
