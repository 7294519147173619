-- ===== src/Xrefs/Tests.antt =====
-- The theorems of the references at concrete inputs.
use ida_pilot.Common.{◌≡◌, refl, ℕ, true, false, List, map, [], ◌∷◌, none, some}
use ida_pilot.Cache.{new_session_cache, get_xrefs, find_in}
use ida_pilot.Xrefs.{shown, show_xrefs}
use ida_pilot.Xrefs.Kept.{Later, run_later, expected, show_xrefs-kept}

not_kept : get_xrefs (new_session_cache ℕ) 16 ≡ none
unfolding get_xrefs find_in
not_kept = refl

-- A call for both directions, one for the references from the address, and one more for both.
abbrev later : List (Later ℕ)
later =
    record { first = true; to = none; from = none; direction = "" }
    ∷ record { first = true; to = none; from = some (48 ∷ []); direction = "from" }
    ∷ record { first = false; to = some []; from = none; direction = "both" }
    ∷ []

show_xrefs-kept_example :
    let r = show_xrefs false (some (32 ∷ [])) (some []) (new_session_cache ℕ) 16 "both" in
    (r.1 ≡ shown (32 ∷ []) []) × (run_later 16 later r.0 ≡ (r.0, map (expected (32 ∷ []) []) later))
show_xrefs-kept_example = show_xrefs-kept false (32 ∷ []) [] later (new_session_cache ℕ) 16 not_kept
