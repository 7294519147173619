-- ===== src/Progress/Waiting.antt =====
-- internal/server/util.go: `waitForReady`, the loop of a tool call that waits for its session. A poll is
-- what one round sees: the snapshot of the session, and whether the call was cancelled by the next tick.
-- The progress that each round emits is left out.
use ida_pilot.Common.{
  string_key, ◌==◌, ◌≡◌, refl, Bool, true, false, not, ◌&&◌, List, [], ◌∷◌, ◌++◌, Option, none,
  some, arith, is_some, if◌then◌else◌,
}
use ida_pilot.Progress.{SessionProgress, stage_error}

pub record Poll : Type 0 where
  pub shown : Option SessionProgress
  pub done : Bool

-- How the wait ended, if it did within the polls.
pub data Waited : Type 0 where
  ready : Waited
  cancelled : Waited
  waiting : Waited

unfoldable pub wait_for_ready : List Poll → Waited
wait_for_ready [] = waiting
wait_for_ready (p ∷ ps) =
    let rest = wait_for_ready ps in
    if is_some (stage_error p.shown) then (if p.done then cancelled else rest) else ready

-- A poll that does not end the wait.
abbrev pub goes_on : Poll → Bool
goes_on p = is_some (stage_error p.shown) && not p.done

unfoldable pub all_go_on : List Poll → Bool
all_go_on [] = true
all_go_on (p ∷ ps) = goes_on p && all_go_on ps

-- The wait ends at the first poll that shows the session ready or finds the call cancelled: with success
-- in the first case, and otherwise with the cancellation.
pub wait_for_ready-first :
    (before : List Poll) (p : Poll) (after : List Poll)
    → all_go_on before ≡ true
    → goes_on p ≡ false
    → wait_for_ready (before ++ p ∷ after)
      ≡ (if is_some (stage_error p.shown) then cancelled else ready)
unfolding wait_for_ready all_go_on
wait_for_ready-first [] p after quiet stops = ground arith
wait_for_ready-first (b ∷ before) p after quiet stops =
    ground (arith, wait_for_ready-first before p after)

-- Whether the snapshot is that of a load that has failed.
unfoldable pub has_failed : Option SessionProgress → Bool
has_failed none = false
has_failed (some x) = x.stage == "failed"

unfoldable pub all_failed : List Poll → Bool
unfolding has_failed
all_failed [] = true
all_failed (p ∷ ps) = (has_failed p.shown && not p.done) && all_failed ps

failed-goes_on : (o : Option SessionProgress) → has_failed o ≡ true → is_some (stage_error o) ≡ true
unfolding has_failed stage_error
failed-goes_on none h = absurd (cc)
failed-goes_on (some x) h = rw h refl

-- A load that has failed never becomes ready, but the wait does not end on it: as long as the call is not
-- cancelled, every further poll goes on waiting.
pub wait_for_ready-failed : (ps : List Poll) → all_failed ps ≡ true → wait_for_ready ps ≡ waiting
unfolding wait_for_ready all_failed
wait_for_ready-failed [] h = refl
wait_for_ready-failed (p ∷ ps) h = ground (arith, failed-goes_on p.shown, wait_for_ready-failed ps)
