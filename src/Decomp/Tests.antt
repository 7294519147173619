-- ===== src/Decomp/Tests.antt =====
-- Runs of the decompilation cache, and its theorems at concrete inputs.
use ida_pilot.Common.{◌≡◌, refl, String, Bool, List, [], ◌∷◌, arith}
use ida_pilot.Common.Map
use ida_pilot.Common.{number_key, string_key, ◌==◌}
use ida_pilot.Decomp.{DecompCache, new_decomp_cache, set}
use ida_pilot.Decomp.Spec.{spec_get, spec_set, drop_last}
use ida_pilot.Decomp.Invariant.{IsWell, set-IsWell, new-IsWell}
use ida_pilot.Decomp.Bounds.{Op, gets, sets, run, spec_run, spec_step, Implements, run-Implements}

abbrev demo : List Op
demo = sets 4096 "main" ∷ sets 8192 "init" ∷ gets 4096 ∷ sets 12288 "fini" ∷ []

-- The third insertion evicts the entry that was used least recently.
demo_view : spec_run 2 [] demo ≡ (12288, "fini") ∷ (4096, "main") ∷ []
unfolding spec_run spec_step spec_get spec_set drop_last Map.lookup Map.delete
demo_view = refl

run-Implements_example : Implements 2 (run (new_decomp_cache 2) demo) (spec_run 2 [] demo)
run-Implements_example = run-Implements 2 demo (omega arith)

abbrev two_entries : DecompCache
two_entries = set (set (new_decomp_cache 4) 4096 "main") 8192 "init"

two_entries-IsWell : IsWell two_entries
two_entries-IsWell =
    set-IsWell (set (new_decomp_cache 4) 4096 "main") 8192 "init"
      (set-IsWell (new_decomp_cache 4) 4096 "main" (new-IsWell 4))

abbrev is_main : String → Bool
is_main code = code == "main"
