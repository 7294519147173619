-- ===== src/Parallel/Labeled.antt =====
-- `runLabeled` gives the same two maps in whatever order its tasks end.
use ida_pilot.Common.{
  ◌==◌, ◌≡◌, refl, Key, String, string_key, [], Option, none, some, arith, if◌then◌else◌,
}
use ida_pilot.Common.Map
use ida_pilot.Common.Map.{Map}
use ida_pilot.Parallel.{
  Takes, here, there, Arrives, all_ended, ends, Returned, value, error, drain, run_labeled,
}

-- Taking one entry of a map is deleting its key.
pub Takes-IsMap {ℓ} :
    {K V : Type ℓ} ⦃key : Key K⦄ {k : K} {v : V} {m rest : Map K V}
    → Takes (k, v) m rest
    → Map.IsMap m
    → Map.IsMap rest
      × (Map.lookup k rest ≡ none)
      × ((j : K) → Map.lookup j m ≡ (if k == j then some v else Map.lookup j rest))
unfolding Map.lookup
Takes-IsMap here (fresh, h) = (h, fresh, λ j. refl)
Takes-IsMap ⦃key⦄ {k} {v} (there {y = (i, w)} {l = l} {rest = rest} t) (fresh, h) =
    let (good, gone, split) = Takes-IsMap t h in
    (
      (ground (arith, split i, key.same_iff k i), good),
      ground (arith, split i, key.same_iff i k, key.same_iff k i),
      λ j. ground (arith, split j, split i, key.same_iff i j, key.same_iff k j, key.same_iff k i),
    )

module _ {V E : Type 0} where
  abbrev pub value_or : Option (Returned V E) → Option V → Option V
  value_or (some (value v)) o = some v
  value_or (some (error e)) o = o
  value_or none o = o

  abbrev pub error_or : Option (Returned V E) → Option E → Option E
  error_or (some (value v)) o = o
  error_or (some (error e)) o = some e
  error_or none o = o

  drain_lem :
      {tasks order : Map String (Returned V E)}
      → Arrives tasks order
      → Map.IsMap tasks
      → (results : Map String V) (errs : Map String E) (k : String)
      → (Map.lookup k (drain order results errs).0
          ≡ value_or (Map.lookup k tasks) (Map.lookup k results))
        × (Map.lookup k (drain order results errs).1
            ≡ error_or (Map.lookup k tasks) (Map.lookup k errs))
  unfolding drain Map.lookup
  drain_lem all_ended h results errs k = (refl, refl)
  drain_lem (ends {x = (i, value v)} {rest = rest} t more) h results errs k =
      let (good, gone, split) = Takes-IsMap t h in
      let ih = drain_lem more good (Map.insert i v results) errs k in
      ground (arith, ih, split k, string_key.same_iff i k, Map.lookup-insert i k v results)
  drain_lem (ends {x = (i, error e)} {rest = rest} t more) h results errs k =
      let (good, gone, split) = Takes-IsMap t h in
      let ih = drain_lem more good results (Map.insert i e errs) k in
      ground (arith, ih, split k, string_key.same_iff i k, Map.lookup-insert i k e errs)

  -- A task with a value stands in the results under its name, a task with an error stands in the errors,
  -- and neither map has anything else: in whatever order the tasks end.
  pub run_labeled_lem :
      (tasks order : Map String (Returned V E)) (k : String)
      → Map.IsMap tasks
      → Arrives tasks order
      → (Map.lookup k (run_labeled order).0 ≡ value_or (Map.lookup k tasks) none)
        × (Map.lookup k (run_labeled order).1 ≡ error_or (Map.lookup k tasks) none)
  unfolding run_labeled Map.lookup
  run_labeled_lem tasks order k h a = drain_lem a h [] [] k
