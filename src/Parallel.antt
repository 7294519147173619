-- ===== src/Parallel.antt =====
-- internal/server/parallel.go: `runLabeled` and `parallelMap`, which run tasks at the same time.
-- The goroutines may end in any order: `Arrives tasks order` holds of the orders in which all of the
-- started tasks end, each once. A task is what its function returns.
pub mod Labeled
pub mod Mapped
pub mod Inspect
pub mod Replies
pub mod Report
mod Tests
use ida_pilot.Common.{
  ℕ, suc, ◌==◌, String, string_key, List, [], ◌∷◌, Option, none, some, set, length, replicate,
}
use ida_pilot.Common.Map
use ida_pilot.Common.Map.{Map}

-- One of the tasks that still run is the next to end.
pub data Takes {ℓ} {A : Type ℓ} : A → List A → List A → Type ℓ where
  here : {x : A} {l : List A} → Takes x (x ∷ l) l
  there : {x y : A} {l rest : List A} → Takes x l rest → Takes x (y ∷ l) (y ∷ rest)

pub data Arrives {ℓ} {A : Type ℓ} : List A → List A → Type ℓ where
  all_ended : Arrives [] []
  ends :
      {x : A} {running rest order : List A}
      → Takes x running rest
      → Arrives rest order
      → Arrives running (x ∷ order)

-- What a task returns: a value, or an error.
pub data Returned {ℓ} (V E : Type ℓ) : Type ℓ where
  value : V → Returned V E
  error : E → Returned V E

-- The loop that reads one message of the channel for each task, and files it in one of two maps.
unfoldable pub drain :
    {V E : Type 0}
    → List (String × Returned V E)
    → Map String V
    → Map String E
    → Map String V × Map String E
drain [] results errs = (results, errs)
drain ((k, value v) ∷ rest) results errs = drain rest (Map.insert k v results) errs
drain ((k, error e) ∷ rest) results errs = drain rest results (Map.insert k e errs)

-- The results and the errors, for an order in which the tasks end.
unfoldable pub run_labeled :
    {V E : Type 0} → List (String × Returned V E) → Map String V × Map String E
unfolding drain
run_labeled order = drain order [] []

-- The loop that starts the goroutines: each has its index and its item.
unfoldable pub spawn : {T : Type 0} → ℕ → List T → List (ℕ × T)
spawn i [] = []
spawn i (x ∷ xs) = (i, x) ∷ spawn (suc i) xs

-- The goroutines' writes, in the order in which they happen.
unfoldable pub write_all : {T R : Type 0} → (T → R) → List (ℕ × T) → List R → List R
write_all fn [] results = results
write_all fn ((i, x) ∷ rest) results = write_all fn rest (set results i (fn x))

-- `make([]R, n)` has `zero_value` in each place; the return waits for every goroutine.
unfoldable pub parallel_map : {T R : Type 0} → R → (T → R) → List T → List (ℕ × T) → List R
unfolding write_all
parallel_map zero_value fn items order = write_all fn order (replicate (length items) zero_value)
