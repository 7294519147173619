-- ===== src/Composite/Tests.antt =====
-- The theorems of the composite tools on a worker with two functions that call each other.
use ida_pilot.Common.{
  number_key, string_key, ◌==◌, ◌≡◌, refl, ℕ, String, true, false, List, [], ◌∷◌, Option, none,
  some, arith, if◌then◌else◌, map, ltb,
}
use ida_pilot.Text
use ida_pilot.Text.{Text, codes}
use ida_pilot.Cache.{SessionCache, new_session_cache, set_note, or_empty, get_xrefs, find_in}
use ida_pilot.Cache.Entries.{text_of}
use ida_pilot.Cache.Notes.{noted}
use ida_pilot.Outputs.{new_output_store}
use ida_pilot.Parallel.{value, error, Arrives, ends, all_ended, here, there, spawn}
use ida_pilot.Composite.{
  Worker, CacheItem, Task, ask_decompiled, ask_info, ask_xrefs, ask_comment, all_tasks,
}
use ida_pilot.Composite.Single.{analyze_single_function}
use ida_pilot.Composite.Faithful.{Faithful}
use ida_pilot.Composite.Fresh.{analyze_single_function-fresh}
use ida_pilot.Composite.Batch.{
  Schedule, functions, analyze_functions, fresh_slot, analyze_functions-fresh,
}
use ida_pilot.Composite.Edits.{
  AnnotateRequest, Batch, Body, object, py_eval, prune_context, get_analysis_context,
}
use ida_pilot.Composite.Edited.{py_eval-fresh, prune_context-keeps}

abbrev worker_of : String → Worker
worker_of code = record {
  decompiled = λ a. if a == 64 then value code else value "call sub_40";
  function_info = λ a. error "no function";
  xrefs_to = λ a. value (record { from = 96; to = a; type = 17 } ∷ []);
  xrefs_from = λ a. value [];
  func_comment = λ a. value "";
}

abbrev before : Worker
before = worker_of "int v1"

abbrev later : Worker
later = worker_of "int count"

abbrev behind : List Task
behind = ask_comment ∷ ask_xrefs ∷ ask_info ∷ ask_decompiled ∷ []

behind-Arrives : Arrives all_tasks behind
behind-Arrives =
    ends (there (there (there here)))
      (ends (there (there here)) (ends (there here) (ends here all_ended)))

new-Faithful : (w : Worker) → Faithful w (new_session_cache (CacheItem ℕ))
unfolding text_of get_xrefs find_in
new-Faithful w = record {
  healthy = tt;
  codes = λ a code h. absurd (cc);
  references = λ a entry h. absurd (cc);
}

-- The cache after an analysis of the function at 64.
abbrev warm : SessionCache (CacheItem ℕ)
warm = (analyze_single_function before behind true 5 (new_session_cache (CacheItem ℕ)) 64).0

warm-Faithful : Faithful before warm
warm-Faithful =
    (analyze_single_function-fresh before behind true 5 (new_session_cache (CacheItem ℕ)) 64
      behind-Arrives (new-Faithful before)).1

abbrev course : ℕ → Schedule
course i = record { order = behind; to_first = ltb 0 i; now = 7 }

abbrev addresses : List Text
addresses = codes "0x60" ∷ codes "0x40" ∷ codes "main" ∷ []

abbrev ended : List (ℕ × Text)
ended = (2, codes "main") ∷ (0, codes "0x60") ∷ (1, codes "0x40") ∷ []

ended-Arrives : Arrives (spawn 0 addresses) ended
unfolding spawn
ended-Arrives = ends (there (there here)) (ends here (ends here all_ended))

analyze_functions-fresh_example :
    let r = analyze_functions before course ended true warm addresses in
    (r.1 ≡ functions (map (fresh_slot before) addresses)) × Faithful before r.0
analyze_functions-fresh_example =
    analyze_functions-fresh before course ended warm (codes "0x60")
      (codes "0x40" ∷ codes "main" ∷ []) (omega arith) ended-Arrives (λ i. behind-Arrives)
      warm-Faithful

abbrev runs : String → Option String
runs code = some "done"

py_eval-fresh_example :
    let r = py_eval runs true warm "rename()" false in
    (r.1 ≡ some "done")
    × ((analyze_functions later course ended true r.0 addresses).1
        ≡ functions (map (fresh_slot later) addresses))
py_eval-fresh_example =
    py_eval-fresh runs "rename()" "done" warm later course ended (codes "0x60")
      (codes "0x40" ∷ codes "main" ∷ []) refl (omega arith) ended-Arrives (λ i. behind-Arrives)

abbrev request : AnnotateRequest
request = record {
  address = codes "0x40";
  name = "";
  comment = "";
  renames = ("v1", "count") ∷ [];
  retypes = [];
  decomp_comments = [];
}

abbrev accept : Batch → Body
accept b = object

-- The same cache, with a note on the function.
abbrev with_note : SessionCache (CacheItem ℕ)
with_note = set_note warm 64 9 "counts bytes"

with_note-Faithful : Faithful before with_note
unfolding set_note get_xrefs
with_note-Faithful = record {
  healthy = warm-Faithful.healthy;
  codes = warm-Faithful.codes;
  references = warm-Faithful.references;
}

prune_context-keeps_example :
    let r = (prune_context true new_output_store with_note).0 in
    (r.0 ≡ new_output_store)
    × (get_analysis_context true r.1 ≡ get_analysis_context true with_note)
    × Faithful before r.1
    × ((a : ℕ)
        → (text_of r.1.decomp a
            ≡ (if noted (or_empty with_note.visited) a then none else text_of with_note.decomp a))
          × (get_xrefs r.1 a
              ≡ (if noted (or_empty with_note.visited) a then none else get_xrefs with_note a)))
    × (r.1.visited ≡ with_note.visited)
    × (r.1.strings ≡ with_note.strings)
    × (r.1.functions ≡ with_note.functions)
    × (r.1.imports ≡ with_note.imports)
    × (r.1.exports ≡ with_note.exports)
    × (r.1.segments ≡ with_note.segments)
prune_context-keeps_example =
    prune_context-keeps before new_output_store with_note with_note-Faithful
