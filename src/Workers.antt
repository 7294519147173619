-- ===== src/Workers.antt =====
-- internal/worker/manager.go: `Manager`, the map from a session to its worker process. The launcher and
-- the process are arguments: whether a launch and a stop succeed, and the process ID.
use ida_pilot.Common.{string_key, ℕ, String, Bool, Option, none, some, if◌then◌else◌}
use ida_pilot.Common.Map
use ida_pilot.Common.Map.{Map}

abbrev pub Workers : Type 0
Workers = Map String ℕ

-- `none` for an error.
unfoldable pub get_client : Workers → String → Option ℕ
get_client workers id = Map.lookup id workers

-- `Start`, for a launch that gave a process ID.
unfoldable pub start : Workers → String → ℕ → Workers
start workers id pid = Map.insert id pid workers

-- What `monitorWorker` does when the process has ended.
unfoldable pub exited : Workers → String → Workers
exited workers id = Map.delete id workers

-- `Stop`: a worker that cannot be stopped stays in the map.
unfoldable pub stop : Bool → Workers → String → Workers
unfolding get_client
stop stopped workers id = elim (get_client workers id) [
  | none ↦ workers
  | some pid ↦ if stopped then Map.delete id workers else workers
]
