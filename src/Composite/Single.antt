-- ===== src/Composite/Single.antt =====
-- internal/server/composite.go: `analyzeSingleFunction` and `analyzeFunction`.
use ida_pilot.Common.{number_key, string_key, ℕ, Bool, List, Option, none, some, if◌then◌else◌}
use ida_pilot.Text.{Text}
use ida_pilot.Address.{Parsed, ok, err, parse_addr}
use ida_pilot.Cache.{SessionCache, mark_visited}
use ida_pilot.Parallel.{run_labeled}
use ida_pilot.Tiers.{ToolServer, Tiers, promote_to_tier}
use ida_pilot.Composite.{ResultEntry, Worker, CacheItem, Task, run_tasks}
use ida_pilot.Composite.Result.{result_of}

module _ {Item : Type 0} where
  -- `order` is the order in which the tasks end, and `to_first` that of the two calls for references.
  unfoldable pub analyze_single_function :
      Worker
      → List Task
      → (to_first : Bool) → (now : ℕ) → SessionCache (CacheItem Item)
      → (addr : ℕ) → SessionCache (CacheItem Item) × List ResultEntry
  unfolding run_tasks result_of run_labeled
  analyze_single_function w order to_first now c addr =
      let r = run_tasks w to_first addr order c in
      (mark_visited r.0 addr now "", result_of (run_labeled r.1))

  unfoldable pub analyze_parsed :
      Worker
      → List Task
      → (to_first : Bool) → (now : ℕ) → (t : ToolServer) → SessionCache (CacheItem Item) × Tiers t
      → Parsed
      → (SessionCache (CacheItem Item) × Tiers t) × Option (List ResultEntry)
  unfolding analyze_single_function
  analyze_parsed w order to_first now t s (err e) = (s, none)
  analyze_parsed w order to_first now t (c, tiers) (ok addr) =
      let r = analyze_single_function w order to_first now c addr in
      ((r.0, promote_to_tier t 2 tiers), some r.1)

  -- `analyzeFunction`: an error, without a session or for an address that does not parse, is `none`.
  unfoldable pub analyze_function :
      Worker
      → List Task
      → (to_first : Bool) → (now : ℕ) → (t : ToolServer) → SessionCache (CacheItem Item) × Tiers t
      → (resolved : Bool) → Text
      → (SessionCache (CacheItem Item) × Tiers t) × Option (List ResultEntry)
  unfolding analyze_parsed
  analyze_function w order to_first now t s resolved a =
      if resolved then analyze_parsed w order to_first now t s (parse_addr a) else (s, none)
