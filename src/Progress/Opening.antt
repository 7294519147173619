-- ===== src/Progress/Opening.antt =====
-- internal/server/session.go: `backgroundOpen`, with `withHeartbeat`, `executeAnalysisWithHeartbeat` and
-- the stages of internal/server/cache.go `warmSessionCache`, and `beginBackgroundAnalysis`: the stages
-- that they record, in order, and what they do to the session.
-- The worker's replies, the number of heartbeats and the time are arguments. Messages are left out.
use mathlib.Core.List.{append_assoc}
use ida_pilot.Common.{
  string_key, ℕ, ◌≡◌, refl, sym, ap, ◌∙◌, String, Bool, true, false, List, [], ◌∷◌, ◌++◌, arith,
  replicate, if◌then◌else◌, Bool-cases, inl, inr, zero, suc,
}
use ida_pilot.Common.Int.{ℤ, inc, dec, pos, negsuc}
use ida_pilot.Progress.{in_progress}
use ida_pilot.Registry.{
  Session, touch, acquire_in_flight, release_in_flight, try_begin_analysis, end_analysis,
}

-- The reply to `OpenBinary`.
pub data Opened : Type 0 where
  rpc_failed : Opened
  ida_failed : Opened
  opened : Opened

-- What happens in the course of one background open.
pub record Course : Type 0 where
  pub reply : Opened
  pub load_beats : ℕ
  pub analysis_beats : ℕ
  pub has_client : Bool
  pub warm_steps : ℕ
  pub finished_at : ℕ

unfoldable pub with_heartbeat : String → ℕ → List String
with_heartbeat stage beats = stage ∷ replicate beats stage

-- One record for the start of the warming, and one for each step that a listening client is told of.
unfoldable pub warm_stages : Bool → ℕ → List String
warm_stages has_client steps = if has_client then "warming" ∷ replicate steps "warming" else []

-- The stages after a successful load, and what they do to the analysis guard.
unfoldable pub analyse : Bool → Course → Session → Session × List String
unfolding with_heartbeat warm_stages try_begin_analysis end_analysis
analyse auto_analyze o s =
    let claim = try_begin_analysis s in
    let warm = warm_stages o.has_client o.warm_steps in
    if auto_analyze
    then (if claim.1
        then (end_analysis claim.0, with_heartbeat "analyzing" o.analysis_beats ++ warm)
        else (claim.0, warm))
    else (s, [])

unfoldable pub after_load : Opened → Bool → Course → Session → Session × List String
unfolding analyse
after_load rpc_failed auto_analyze o s = (s, "failed" ∷ [])
after_load ida_failed auto_analyze o s = (s, "failed" ∷ [])
after_load opened auto_analyze o s = let r = analyse auto_analyze o s in (r.0, r.1 ++ "ready" ∷ [])

unfoldable pub background_open : Bool → Course → Session → Session × List String
unfolding after_load with_heartbeat acquire_in_flight release_in_flight
background_open auto_analyze o s =
    let s1 = acquire_in_flight s in
    let r = after_load o.reply auto_analyze o s1 in
    (release_in_flight o.finished_at r.0, with_heartbeat "opening" o.load_beats ++ r.1)

unfoldable pub all_in_progress : List String → Bool
all_in_progress [] = true
all_in_progress (s ∷ l) = if in_progress s then all_in_progress l else false

abbrev pub last_stage : Opened → String
last_stage opened = "ready"
last_stage rpc_failed = "failed"
last_stage ida_failed = "failed"

append-in_progress :
    (l m : List String)
    → all_in_progress l ≡ true
    → all_in_progress m ≡ true
    → all_in_progress (l ++ m) ≡ true
unfolding all_in_progress
append-in_progress [] m a b = b
append-in_progress (s ∷ l) m a b = ground (arith, append-in_progress l m)

replicate-in_progress :
    (n : ℕ) (s : String) → in_progress s ≡ true → all_in_progress (replicate n s) ≡ true
unfolding all_in_progress
replicate-in_progress zero s h = refl
replicate-in_progress (suc n) s h = rw h (replicate-in_progress n s h)

beat-in_progress :
    (n : ℕ) (s : String) → in_progress s ≡ true → all_in_progress (with_heartbeat s n) ≡ true
unfolding with_heartbeat all_in_progress
beat-in_progress n s h = rw h (replicate-in_progress n s h)

busy_stages :
    (in_progress "opening" ≡ true)
    × (in_progress "analyzing" ≡ true)
    × (in_progress "warming" ≡ true)
unfolding in_progress
busy_stages = (refl, refl, refl)

warm-in_progress : (b : Bool) (n : ℕ) → all_in_progress (warm_stages b n) ≡ true
unfolding warm_stages all_in_progress
warm-in_progress true n = rw busy_stages.2 (replicate-in_progress n "warming" busy_stages.2)
warm-in_progress false n = refl

analyse-in_progress :
    (auto_analyze : Bool) (o : Course) (s : Session)
    → all_in_progress (analyse auto_analyze o s).1 ≡ true
unfolding analyse all_in_progress
analyse-in_progress true o s = elim (Bool-cases (try_begin_analysis s).1) [
  | inl c ↦ rw c (
      append-in_progress (with_heartbeat "analyzing" o.analysis_beats)
        (warm_stages o.has_client o.warm_steps)
        (beat-in_progress o.analysis_beats "analyzing" busy_stages.1)
        (warm-in_progress o.has_client o.warm_steps))
  | inr c ↦ rw c (warm-in_progress o.has_client o.warm_steps)
]
analyse-in_progress false o s = refl

-- The stages of a load that has ended: all but the last one keep the session not ready, and the last one
-- is "ready" if the load succeeded and "failed" otherwise.
pub background_open-stages :
    (auto_analyze : Bool) (o : Course) (s : Session)
    → (before : List String) × ((background_open auto_analyze o s).1
        ≡ before ++ last_stage o.reply ∷ [])
      × (all_in_progress before ≡ true)
unfolding background_open after_load
background_open-stages auto_analyze o s = go o.reply
  where
    load : List String
    load = with_heartbeat "opening" o.load_beats

    loading : all_in_progress load ≡ true
    loading = beat-in_progress o.load_beats "opening" busy_stages.0

    go :
        (reply : Opened)
        → (before : List String) × (load
              ++ (after_load reply auto_analyze o (acquire_in_flight s)).1
            ≡ before ++ last_stage reply ∷ [])
          × (all_in_progress before ≡ true)
    go rpc_failed = (load, refl, loading)
    go ida_failed = (load, refl, loading)
    go opened =
        let a = analyse auto_analyze o (acquire_in_flight s) in
        (
          load ++ a.1,
          sym (append_assoc load a.1 ("ready" ∷ [])),
          append-in_progress load a.1 loading
              (analyse-in_progress auto_analyze o (acquire_in_flight s)),
        )

guard_kept :
    (auto_analyze : Bool) (o : Course) (s : Session)
    → ((analyse auto_analyze o s).0.in_flight ≡ s.in_flight)
      × ((analyse auto_analyze o s).0.analysis_active ≡ s.analysis_active)
unfolding analyse try_begin_analysis end_analysis
guard_kept auto_analyze o s = (ground arith, ground arith)

after_load-kept :
    (reply : Opened) (auto_analyze : Bool) (o : Course) (s : Session)
    → ((after_load reply auto_analyze o s).0.in_flight ≡ s.in_flight)
      × ((after_load reply auto_analyze o s).0.analysis_active ≡ s.analysis_active)
unfolding after_load
after_load-kept rpc_failed auto_analyze o s = (refl, refl)
after_load-kept ida_failed auto_analyze o s = (refl, refl)
after_load-kept opened auto_analyze o s = guard_kept auto_analyze o s

dec-inc : (i : ℤ) → dec (inc i) ≡ i
dec-inc (pos n) = refl
dec-inc (negsuc zero) = refl
dec-inc (negsuc (suc n)) = refl

-- A load that has ended leaves the in-flight count and the analysis guard as they were, so that the
-- watchdog and the next analysis are not held up, and counts as activity when it ends.
pub background_open-leases :
    (auto_analyze : Bool) (o : Course) (s : Session)
    → let s' = (background_open auto_analyze o s).0 in
      (s'.in_flight ≡ s.in_flight)
      × (s'.analysis_active ≡ s.analysis_active)
      × (s'.last_activity ≡ o.finished_at)
unfolding background_open acquire_in_flight release_in_flight touch
background_open-leases auto_analyze o s =
    let k = after_load-kept o.reply auto_analyze o (record s { in_flight = inc s.in_flight }) in
    (ap dec k.0 ∙ dec-inc s.in_flight, k.1, refl)
