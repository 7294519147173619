-- ===== src/Analysis/Exclusion.antt =====
-- What holds of the analyses of one session, however their steps and those of others mix.
use ida_pilot.Common.{
  string_key, ◌==◌, ℕ, zero, suc, ◌+◌, ◌≡◌, ◌≤◌, ◌<◌, refl, sym, ◌∙◌, String, Bool, true, false,
  List, [], ◌∷◌, ◌++◌, Option, none, some, get_elem?, set, if◌then◌else◌, arith, eqb, ◌⊎◌,
  Bool-cases, inl, inr,
}
use ida_pilot.Common.Int.{pos}
use ida_pilot.Common.Map.{lookup-insert_self}
use ida_pilot.Progress.{
  ProgressStore, readiness_error, still, record_progress, get_progress, stage_error, in_progress,
}
use ida_pilot.Registry.{
  acquire_in_flight, release_in_flight, touch, try_begin_analysis, end_analysis,
}
use ida_pilot.Analysis.{
  Phase, record_start, wait, drop_cache, record_ready, record_failed, end_guard, signal, release,
  ended, Event, begin, step_of, beat_of, World, stage_at, record_stage, begin_background_analysis,
  advance, put_job, step_job, beat_job, step, run, load_holds, load_claims, other_records,
  claim_for_load,
}

-- Whether a goroutine has the guard, a lease, and a worker that it waits for or has to report on.
abbrev pub holds : Phase → ℕ
holds (signal b) = 0
holds (release b) = 0
holds (ended b) = 0
holds other = 1

abbrev pub leased : Phase → ℕ
leased (ended b) = 0
leased load_holds = 0
leased other = 1

abbrev pub busy : Phase → ℕ
busy wait = 1
busy drop_cache = 1
busy record_ready = 1
busy record_failed = 1
busy other = 0

abbrev pub total : (Phase → ℕ) → List Phase → ℕ
total f [] = 0
total f (p ∷ ps) = f p + total f ps

pub total-set :
    (f : Phase → ℕ) (ps : List Phase) (i : ℕ) (p q : Phase)
    → get_elem? ps i ≡ some p
    → total f (set ps i q) + f p ≡ total f ps + f q
total-set f [] i p q h = absurd (cc)
total-set f (x ∷ ps) zero p q h = let e : x ≡ p = ground arith in rw e (omega arith)
total-set f (x ∷ ps) (suc i) p q h = omega (arith, total-set f ps i p q h)

pub total-append :
    (f : Phase → ℕ) (ps qs : List Phase) → total f (ps ++ qs) ≡ total f ps + total f qs
total-append f [] qs = omega arith
total-append f (p ∷ ps) qs = omega (arith, total-append f ps qs)

busy-le-holds : (p : Phase) → busy p ≤ holds p
busy-le-holds record_start = omega arith
busy-le-holds wait = omega arith
busy-le-holds load_holds = omega arith
busy-le-holds drop_cache = omega arith
busy-le-holds record_ready = omega arith
busy-le-holds record_failed = omega arith
busy-le-holds (end_guard b) = omega arith
busy-le-holds (signal b) = omega arith
busy-le-holds (release b) = omega arith
busy-le-holds (ended b) = omega arith

total-le : (ps : List Phase) → total busy ps ≤ total holds ps
total-le [] = omega arith
total-le (p ∷ ps) = omega (arith, busy-le-holds p, total-le ps)

-- What a step of one goroutine changes of the three counts.
moved :
    (ps : List Phase) (i : ℕ) (p q : Phase)
    → get_elem? ps i ≡ some p
    → (total holds (set ps i q) + holds p ≡ total holds ps + holds q)
      × (total leased (set ps i q) + leased p ≡ total leased ps + leased q)
      × (total busy (set ps i q) + busy p ≡ total busy ps + busy q)
      × (total busy ps ≤ total holds ps)
moved ps i p q h = (
  total-set holds ps i p q h,
  total-set leased ps i p q h,
  total-set busy ps i p q h,
  total-le ps,
)

-- Whether nothing else records a stage.
abbrev pub undisturbed : List Event → Bool
undisturbed [] = true
undisturbed (other_records stage at now ∷ es) = false
undisturbed (e ∷ es) = undisturbed es

-- With `base` leases of others: one goroutine has the guard if it is taken, and none otherwise; each
-- analysis that has not ended has its lease; and, as long as all is `quiet`, while one waits for the worker, or
-- has not yet reported what it replied, the gate refuses the session as analyzing.
pub record Inv {Item : Type 0} (quiet : Bool) (base : ℕ) (w : World Item) : Type 0 where
  pub guard : total holds w.jobs ≡ (if w.session.analysis_active then 1 else 0)
  pub leases : w.session.in_flight ≡ pos (base + total leased w.jobs)
  pub named : (w.session.id == "") ≡ false
  pub refused :
      quiet ≡ true
      → 0 < total busy w.jobs
      → readiness_error w.progress w.session.id ≡ some (still "analyzing")

refuses :
    (store : ProgressStore) (id : String) (n now : ℕ)
    → (id == "") ≡ false
    → readiness_error (record_progress store id (stage_at "analyzing" n now)) id
      ≡ some (still "analyzing")
unfolding readiness_error record_progress get_progress stage_error in_progress stage_at
refuses store id n now h = rw (h, lookup-insert_self id (stage_at "analyzing" n now) store) refl

module _ {Item : Type 0} (quiet : Bool) (base : ℕ) where
  begin-Inv : (w : World Item) → Inv quiet base w → Inv quiet base (step w begin)
  unfolding step begin_background_analysis try_begin_analysis acquire_in_flight
  begin-Inv w inv = ground (
    arith,
    inv.refused,
    total-append holds w.jobs (record_start ∷ []),
    total-append leased w.jobs (record_start ∷ []),
    total-append busy w.jobs (record_start ∷ []),
  )

  advance-Inv :
      (w : World Item) (success : Bool) (now i : ℕ) (p : Phase)
      → get_elem? w.jobs i ≡ some p
      → Inv quiet base w
      → Inv quiet base (put_job i (advance w success now p))
  unfolding put_job advance record_stage end_analysis release_in_flight touch
  advance-Inv w success now i record_start h inv = ground (
    arith,
    inv.refused,
    moved w.jobs i record_start wait h,
    refuses w.progress w.session.id 8 now inv.named,
  )
  advance-Inv w true now i wait h inv =
      ground (arith, inv.refused, moved w.jobs i wait drop_cache h)
  advance-Inv w false now i wait h inv =
      ground (arith, inv.refused, moved w.jobs i wait record_failed h)
  advance-Inv w success now i load_holds h inv =
      ground (arith, inv.refused, moved w.jobs i load_holds (ended success) h)
  advance-Inv w success now i drop_cache h inv =
      ground (arith, inv.refused, moved w.jobs i drop_cache record_ready h)
  advance-Inv w success now i record_ready h inv =
      ground (arith, inv.refused, moved w.jobs i record_ready (end_guard true) h)
  advance-Inv w success now i record_failed h inv =
      ground (arith, inv.refused, moved w.jobs i record_failed (end_guard false) h)
  advance-Inv w success now i (end_guard b) h inv =
      ground (arith, inv.refused, moved w.jobs i (end_guard b) (signal b) h)
  advance-Inv w success now i (signal b) h inv =
      ground (arith, inv.refused, moved w.jobs i (signal b) (release b) h)
  advance-Inv w success now i (release b) h inv =
      ground (arith, inv.refused, moved w.jobs i (release b) (ended b) h)
  advance-Inv w success now i (ended b) h inv =
      ground (arith, inv.refused, moved w.jobs i (ended b) (ended b) h)

  step_job-Inv :
      (w : World Item) (success : Bool) (now i : ℕ) (o : Option Phase)
      → get_elem? w.jobs i ≡ o
      → Inv quiet base w
      → Inv quiet base (step_job w success now i o)
  unfolding step_job
  step_job-Inv w success now i none h inv = inv
  step_job-Inv w success now i (some p) h inv = advance-Inv w success now i p h inv

  beat_job-Inv :
      (w : World Item) (now : ℕ) (o : Option Phase)
      → Inv quiet base w
      → Inv quiet base (beat_job w now o)
  unfolding beat_job record_stage
  beat_job-Inv w now (some wait) inv =
      ground (arith, refuses w.progress w.session.id 8 now inv.named)
  beat_job-Inv w now o inv = inv

  claim-Inv : (w : World Item) → Inv quiet base w → Inv quiet base (claim_for_load w)
  unfolding claim_for_load try_begin_analysis
  claim-Inv w inv = ground (
    arith,
    inv.refused,
    total-append holds w.jobs (load_holds ∷ []),
    total-append leased w.jobs (load_holds ∷ []),
    total-append busy w.jobs (load_holds ∷ []),
  )

  record-Inv :
      (w : World Item) (stage : String) (at now : ℕ)
      → quiet ≡ false
      → Inv quiet base w
      → Inv quiet base (record_stage w stage at now)
  unfolding record_stage
  record-Inv w stage at now loud inv = record {
    guard = inv.guard;
    leases = inv.leases;
    named = inv.named;
    refused = λ q h. absurd (let e : true ≡ false = sym q ∙ loud in cc);
  }

  -- `quiet` at most if nothing else records a stage.
  pub run-Inv :
      (es : List Event) (w : World Item)
      → (quiet ≡ false) ⊎ (undisturbed es ≡ true)
      → Inv quiet base w
      → Inv quiet base (run w es)
  unfolding run step
  run-Inv [] w u inv = inv
  run-Inv (begin ∷ es) w u inv = run-Inv es (step w begin) u (begin-Inv w inv)
  run-Inv (step_of i success now ∷ es) w u inv =
      run-Inv es (step w (step_of i success now)) u
        (step_job-Inv w success now i (get_elem? w.jobs i) refl inv)
  run-Inv (beat_of i now ∷ es) w u inv =
      run-Inv es (step w (beat_of i now)) u (beat_job-Inv w now (get_elem? w.jobs i) inv)
  run-Inv (load_claims ∷ es) w u inv = run-Inv es (step w load_claims) u (claim-Inv w inv)
  run-Inv (other_records stage at now ∷ es) w (inl loud) inv =
      run-Inv es (step w (other_records stage at now)) (inl loud)
        (record-Inv w stage at now loud inv)
  run-Inv (other_records stage at now ∷ es) w (inr u) inv = absurd (let e : false ≡ true = u in cc)

module _ {Item : Type 0} (base : ℕ) where
  -- A session that no analysis has touched.
  abbrev pub Idle : World Item → Type 0
  Idle w =
      (w.jobs ≡ [])
      × (w.session.analysis_active ≡ false)
      × (w.session.in_flight ≡ pos base)
      × ((w.session.id == "") ≡ false)

  pub Idle-Inv : (quiet : Bool) (w : World Item) → Idle w → Inv quiet base w
  Idle-Inv quiet w (none_yet, free, leases, named) = record {
    guard = rw (none_yet, free) refl;
    leases = ground arith;
    named = named;
    refused = λ q h. absurd (ground arith);
  }

  -- However analyses of an idle session are started, their steps mix, the load of the binary claims the
  -- guard for its own analysis, and others record stages: the guard is taken if and only if exactly one
  -- goroutine has it, and never have it two; and the session has one lease more for each analysis that
  -- was started and has not ended. If no one else records a stage, then while a goroutine waits for the
  -- worker or has yet to report its reply, the gate refuses the session as analyzing.
  pub analyses_exclude :
      (w : World Item) (es : List Event)
      → Idle w
      → let v = run w es in
        (total holds v.jobs ≡ (if v.session.analysis_active then 1 else 0))
        × (v.session.in_flight ≡ pos (base + total leased v.jobs))
        × ((undisturbed es ≡ false)
            ⊎ (total busy v.jobs ≡ 0)
            ⊎ (readiness_error v.progress v.session.id ≡ some (still "analyzing")))
  analyses_exclude w es idle = elim (Bool-cases (undisturbed es)) [
    | inl u ↦
        let inv = run-Inv true base es w (inr u) (Idle-Inv true w idle) in
        (
          inv.guard,
          inv.leases,
          elim (Bool-cases (eqb (total busy (run w es).jobs) 0)) [
            | inl e ↦ inr (inl (ground arith))
            | inr e ↦ inr (inr (inv.refused refl (ground arith)))
          ],
        )
    | inr loud ↦
        let inv = run-Inv false base es w (inl refl) (Idle-Inv false w idle) in
        (inv.guard, inv.leases, inl loud)
  ]
