-- ===== src/Progress/Readiness.antt =====
-- The two answers to whether a session is ready: the gate in front of the tools, and the flag that the
-- client polls.
use ida_pilot.Common.{
  string_key, ◌==◌, ◌≡◌, ◌↔◌, ◌⊎◌, inl, inr, refl, ap, ◌∙◌, String, Bool, true, false, not, ◌&&◌,
  Option, none, some, arith,
}
use ida_pilot.Common.Map.{lookup-insert_self}
use ida_pilot.Progress.{
  SessionProgress, ProgressStore, record_progress, get_progress, in_progress, stage_error,
  readiness_error, shown_stage, auto_running, is_ready,
}

-- The gate by the stage alone.
gate :
    (o : Option SessionProgress)
    → (stage_error o ≡ none)
      ↔ ((not (shown_stage o == "failed") && not (in_progress (shown_stage o))) ≡ true)
unfolding stage_error shown_stage
gate none = ((λ h. refl), (λ h. refl))
gate (some p) = ((λ h. ground arith), (λ h. ground arith))

-- What the flag is made of, by the worker's answer.
flag :
    (o : Option SessionProgress) (running : Bool) (worker : Option Bool)
    → ((not running
          && (not (auto_running running (shown_stage o) worker)
              && (not (shown_stage o == "failed") && not (in_progress (shown_stage o)))))
        ≡ true)
      ↔ ((stage_error o ≡ none) × (running ≡ false) × ((worker ≡ none) ⊎ (worker ≡ some false)))
unfolding auto_running
flag o running none =
    let g = gate o in
    (
      (λ h. (g.1 (ground arith), ground arith, inl refl)),
      (λ h. let e = g.0 h.0 in let r = h.1 in ground arith),
    )
flag o running (some true) =
    let g = gate o in
    (
      (λ h. absurd (ground arith)),
      (λ h. absurd (elim h.2 [ inl e ↦ cc | inr e ↦ let x : some true ≡ some false = e in cc ])),
    )
flag o running (some false) =
    let g = gate o in
    (
      (λ h. (g.1 (ground arith), ground arith, inr refl)),
      (λ h. let e = g.0 h.0 in let r = h.1 in ground arith),
    )

-- The flag is set exactly if the gate is open, no analysis of the server runs, and the worker, where it
-- answers in time, says that its own analysis does not run either.
pub is_ready_iff :
    (store : ProgressStore) (id : String) (analysis_running : Bool) (worker : Option Bool)
    → (is_ready store id analysis_running worker ≡ true) ↔ (
        (readiness_error store id ≡ none)
        × (analysis_running ≡ false)
        × ((worker ≡ none) ⊎ (worker ≡ some false)))
unfolding is_ready readiness_error
is_ready_iff store id running worker = flag (get_progress store id) running worker

-- Whatever stage a session was in, `watchAutoAnalysis` records "auto_analysis" for it, which opens the
-- gate, though the database may still be loading.
pub watch-opens_gate :
    (store : ProgressStore) (id : String) (p : SessionProgress)
    → (id == "") ≡ false
    → p.stage ≡ "auto_analysis"
    → readiness_error (record_progress store id p) id ≡ none
unfolding readiness_error record_progress get_progress stage_error in_progress
watch-opens_gate store id p named stage =
    rw named (ap stage_error (lookup-insert_self id p store) ∙ rw stage refl)
