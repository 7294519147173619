-- ===== src/Analysis/Draining.antt =====
-- Every analysis comes to its end: the steps that are left are bounded, and the last of them gives back
-- what the analysis took.
use ida_pilot.Common.{
  ℕ, suc, ◌+◌, ◌*◌, ◌≡◌, ◌≤◌, ◌⊎◌, inl, inr, refl, Bool, true, false, List, [], ◌∷◌, Option, none,
  some, get_elem?, arith, length,
}
use ida_pilot.Common.Int.{pos}
use ida_pilot.Analysis.{
  Phase, record_start, wait, drop_cache, record_ready, record_failed, end_guard, signal, release,
  ended, Event, begin, step_of, beat_of, World, record_stage, advance, put_job, step_job, beat_job,
  step, run, load_holds, load_claims, other_records,
}
use ida_pilot.Analysis.Exclusion.{holds, leased, total, total-set, Inv, run-Inv, Idle, Idle-Inv}

-- At most how many steps a goroutine has left.
abbrev pub left : Phase → ℕ
left record_start = 7
left wait = 6
left load_holds = 1
left drop_cache = 5
left record_ready = 4
left record_failed = 4
left (end_guard b) = 3
left (signal b) = 2
left (release b) = 1
left (ended b) = 0

abbrev pub is_live : Option Phase → Bool
is_live none = false
is_live (some (ended b)) = false
is_live (some other) = true

-- The steps of goroutines in a schedule.
abbrev pub steps : List Event → ℕ
steps [] = 0
steps (step_of i success now ∷ es) = suc (steps es)
steps (begin ∷ es) = steps es
steps (beat_of i now ∷ es) = steps es
steps (load_claims ∷ es) = steps es
steps (other_records stage at now ∷ es) = steps es

module _ {Item : Type 0} where
  -- No analysis starts, and the steps are those of goroutines that have one; heartbeats and the stages that
  -- others record are free.
  abbrev pub Working : World Item → List Event → Type 0
  Working w [] = Unit
  Working w (begin ∷ es) = ⊥
  Working w (load_claims ∷ es) = ⊥
  Working w (other_records stage at now ∷ es) = Working (step w (other_records stage at now)) es
  Working w (step_of i success now ∷ es) =
      (is_live (get_elem? w.jobs i) ≡ true) × Working (step w (step_of i success now)) es
  Working w (beat_of i now ∷ es) = Working (step w (beat_of i now)) es

  advance-left :
      (w : World Item) (success : Bool) (now i : ℕ) (p : Phase)
      → get_elem? w.jobs i ≡ some p
      → is_live (some p) ≡ true
      → suc (total left (put_job i (advance w success now p)).jobs) ≤ total left w.jobs
  unfolding put_job advance record_stage
  advance-left w success now i record_start h live =
      omega (arith, total-set left w.jobs i record_start wait h)
  advance-left w true now i wait h live = omega (arith, total-set left w.jobs i wait drop_cache h)
  advance-left w false now i wait h live =
      omega (arith, total-set left w.jobs i wait record_failed h)
  advance-left w success now i load_holds h live =
      omega (arith, total-set left w.jobs i load_holds (ended success) h)
  advance-left w success now i drop_cache h live =
      omega (arith, total-set left w.jobs i drop_cache record_ready h)
  advance-left w success now i record_ready h live =
      omega (arith, total-set left w.jobs i record_ready (end_guard true) h)
  advance-left w success now i record_failed h live =
      omega (arith, total-set left w.jobs i record_failed (end_guard false) h)
  advance-left w success now i (end_guard b) h live =
      omega (arith, total-set left w.jobs i (end_guard b) (signal b) h)
  advance-left w success now i (signal b) h live =
      omega (arith, total-set left w.jobs i (signal b) (release b) h)
  advance-left w success now i (release b) h live =
      omega (arith, total-set left w.jobs i (release b) (ended b) h)
  advance-left w success now i (ended b) h live = absurd (cc)

  step-left :
      (w : World Item) (success : Bool) (now i : ℕ) (o : Option Phase)
      → get_elem? w.jobs i ≡ o
      → is_live o ≡ true
      → suc (total left (step_job w success now i o).jobs) ≤ total left w.jobs
  unfolding step_job
  step-left w success now i none h live = absurd (cc)
  step-left w success now i (some p) h live = advance-left w success now i p h live

  beat-left :
      (w : World Item) (now : ℕ) (o : Option Phase)
      → total left (beat_job w now o).jobs ≡ total left w.jobs
  unfolding beat_job record_stage
  beat-left w now (some wait) = refl
  beat-left w now o = refl

  run-left :
      (es : List Event) (w : World Item)
      → Working w es
      → steps es + total left (run w es).jobs ≤ total left w.jobs
  unfolding run step record_stage
  run-left [] w h = omega arith
  run-left (begin ∷ es) w h = absurd h
  run-left (load_claims ∷ es) w h = absurd h
  run-left (other_records stage at now ∷ es) w h =
      run-left es (step w (other_records stage at now)) h
  run-left (step_of i success now ∷ es) w h = omega (
    arith,
    step-left w success now i (get_elem? w.jobs i) refl h.0,
    run-left es (step w (step_of i success now)) h.1,
  )
  run-left (beat_of i now ∷ es) w h =
      omega (arith, beat-left w now (get_elem? w.jobs i), run-left es (step w (beat_of i now)) h)

left-le : (ps : List Phase) → total left ps ≤ 7 * length ps
left-le [] = omega arith
left-le (p ∷ ps) = omega (arith, bound p, left-le ps)
  where
    bound : (p : Phase) → left p ≤ 7
    bound record_start = omega arith
    bound wait = omega arith
    bound load_holds = omega arith
    bound drop_cache = omega arith
    bound record_ready = omega arith
    bound record_failed = omega arith
    bound (end_guard b) = omega arith
    bound (signal b) = omega arith
    bound (release b) = omega arith
    bound (ended b) = omega arith

live_or_ended :
    (ps : List Phase)
    → ((i : ℕ) × (is_live (get_elem? ps i) ≡ true)) ⊎ ((total holds ps ≡ 0) × (total leased ps ≡ 0))
live_or_ended [] = inr (refl, refl)
live_or_ended (ended b ∷ ps) = elim (live_or_ended ps) [
  | inl (i, h) ↦ inl (suc i, h)
  | inr e ↦ inr (omega arith, omega arith)
]
live_or_ended (record_start ∷ ps) = inl (0, refl)
live_or_ended (wait ∷ ps) = inl (0, refl)
live_or_ended (load_holds ∷ ps) = inl (0, refl)
live_or_ended (drop_cache ∷ ps) = inl (0, refl)
live_or_ended (record_ready ∷ ps) = inl (0, refl)
live_or_ended (record_failed ∷ ps) = inl (0, refl)
live_or_ended (end_guard b ∷ ps) = inl (0, refl)
live_or_ended (signal b ∷ ps) = inl (0, refl)
live_or_ended (release b ∷ ps) = inl (0, refl)

module _ {Item : Type 0} (base : ℕ) where
  free_or_live :
      (v : World Item)
      → Inv false base v
      → ((i : ℕ) × (is_live (get_elem? v.jobs i) ≡ true))
        ⊎ ((v.session.analysis_active ≡ false) × (v.session.in_flight ≡ pos base))
  free_or_live v inv = elim (live_or_ended v.jobs) [
    | inl live ↦ inl live
    | inr none_live ↦ inr (ground arith, ground arith)
  ]

  -- Once no analysis is started any more, the goroutines of a session that was idle have at most seven
  -- steps each. Before they are done, one of them has a next step; when they are, the guard is free and
  -- the session has the leases that it had.
  pub analyses_end :
      (w : World Item) (before rest : List Event)
      → Idle base w
      → Working (run w before) rest
      → let v = run (run w before) rest in
        (steps rest + total left v.jobs ≤ 7 * length (run w before).jobs)
        × (((i : ℕ) × (is_live (get_elem? v.jobs i) ≡ true))
            ⊎ ((v.session.analysis_active ≡ false) × (v.session.in_flight ≡ pos base)))
  analyses_end w before rest idle working =
      let inv = run-Inv false base before w (inl refl) (Idle-Inv base false w idle) in
      (
        omega (arith, run-left rest (run w before) working, left-le (run w before).jobs),
        free_or_live (run (run w before) rest)
            (run-Inv false base rest (run w before) (inl refl) inv),
      )
