-- ===== src/Registry.antt =====
-- internal/session/registry.go: `Session` and `Registry` with their methods.
-- A `*Session` is a number, and `heap` the store of the sessions that were allocated: both maps and the
-- handlers share them. `uuid.New`, the clock and `filepath.Clean` are arguments (an ID, a time, and the
-- path as it was cleaned). `SocketPath`, which only the launcher reads, is left out.
pub mod Coherent
pub mod Unique
mod Tests
use ida_pilot.Common.{
  string_key, ℕ, suc, ◌+◌, ◌-◌, String, Bool, true, false, ◌&&◌, not, List, [], ◌∷◌, Option, none,
  some, length, leb, ltb, eqb, is_some, map, keep, if◌then◌else◌,
}
use ida_pilot.Common.Int.{ℤ, pos, inc, dec, is_pos}
use ida_pilot.Common.Map
use ida_pilot.Common.Map.{Map}

pub record Session : Type 0 where
  pub id : String
  pub binary_path : String
  pub created_at : ℕ
  pub last_activity : ℕ
  pub timeout : ℕ
  pub worker_pid : ℕ
  pub in_flight : ℤ
  pub analysis_active : Bool

unfoldable pub touch : ℕ → Session → Session
touch now s = record s { last_activity = now }

-- `time.Since(s.LastActivity) > s.Timeout`.
unfoldable pub is_expired : ℕ → Session → Bool
is_expired now s = ltb (s.last_activity + s.timeout) now

unfoldable pub acquire_in_flight : Session → Session
acquire_in_flight s = record s { in_flight = inc s.in_flight }

unfoldable pub release_in_flight : ℕ → Session → Session
unfolding touch
release_in_flight now s = let t = touch now s in record t { in_flight = dec t.in_flight }

unfoldable pub has_in_flight : Session → Bool
has_in_flight s = is_pos s.in_flight

-- The compare-and-swap: whether the caller owns the slot now.
unfoldable pub try_begin_analysis : Session → Session × Bool
try_begin_analysis s =
    if s.analysis_active then (s, false) else (record s { analysis_active = true }, true)

unfoldable pub end_analysis : Session → Session
end_analysis s = record s { analysis_active = false }

-- What is persisted of a session.
pub record Metadata : Type 0 where
  pub id : String
  pub binary_path : String
  pub created_at : ℕ
  pub last_activity : ℕ
  pub timeout : ℕ

unfoldable pub metadata : Session → Metadata
metadata s = record {
  id = s.id;
  binary_path = s.binary_path;
  created_at = s.created_at;
  last_activity = s.last_activity;
  timeout = s.timeout;
}

pub record Registry : Type 0 where
  pub sessions : Map String ℕ
  pub binary_index : Map String ℕ
  pub max_sessions : ℕ
  pub heap : ℕ → Session
  pub next : ℕ

abbrev pub blank : Session
blank = record {
  id = "";
  binary_path = "";
  created_at = 0;
  last_activity = 0;
  timeout = 0;
  worker_pid = 0;
  in_flight = pos 0;
  analysis_active = false;
}

-- A `maxSessions` of zero or less means no limit.
unfoldable pub new_registry : ℕ → Registry
new_registry max_sessions = record {
  sessions = [];
  binary_index = [];
  max_sessions = max_sessions;
  heap = λ r. blank;
  next = 0;
}

pub data RegistryError : Type 0 where
  max_sessions_reached : RegistryError
  already_exists : RegistryError

pub data Result : Type 0 where
  ok : Registry → ℕ → Result
  err : RegistryError → Result

abbrev pub write : (ℕ → Session) → ℕ → Session → ℕ → Session
write h r s q = if eqb q r then s else h q

unfoldable pub is_full : Registry → Bool
is_full r = ltb 0 r.max_sessions && leb r.max_sessions (length r.sessions)

-- The new object, and the two map writes that `Create` and `Restore` share.
unfoldable pub add : Registry → Session → Registry
add r s = record r {
  sessions = Map.insert s.id r.next r.sessions;
  binary_index = Map.insert s.binary_path r.next r.binary_index;
  heap = write r.heap r.next s;
  next = suc r.next;
}

unfoldable pub create : Registry → String → String → ℕ → ℕ → Result
unfolding is_full add
create r id path timeout now =
    if is_full r
    then err max_sessions_reached
    else ok
        (add r (record {
          id = id;
          binary_path = path;
          created_at = now;
          last_activity = now;
          timeout = timeout;
          worker_pid = 0;
          in_flight = pos 0;
          analysis_active = false;
        }))
        r.next

unfoldable pub restore : Registry → Metadata → Result
unfolding is_full add
restore r meta =
    if is_full r
    then err max_sessions_reached
    else if Map.has meta.id r.sessions
    then err already_exists
    else ok
        (add r (record {
          id = meta.id;
          binary_path = meta.binary_path;
          created_at = meta.created_at;
          last_activity = meta.last_activity;
          timeout = meta.timeout;
          worker_pid = 0;
          in_flight = pos 0;
          analysis_active = false;
        }))
        r.next

unfoldable pub find_by_binary_path : Registry → String → Option ℕ
find_by_binary_path r path = Map.lookup path r.binary_index

unfoldable pub get : Registry → String → Option ℕ
get r id = Map.lookup id r.sessions

unfoldable pub delete : Registry → String → Registry
delete r id = elim (Map.lookup id r.sessions) [
  | none ↦ r
  | some s ↦ record r {
    binary_index = Map.delete (r.heap s).binary_path r.binary_index;
    sessions = Map.delete id r.sessions;
  }
]

-- The sessions in some order; Go's order is not specified.
unfoldable pub list : Registry → List ℕ
list r = map (λ e. e.1) r.sessions

unfoldable pub expired : Registry → ℕ → List ℕ
unfolding list is_expired
expired r now = keep (λ s. is_expired now (r.heap s)) (list r)

-- A method of a session runs on the shared object.
unfoldable pub on_session : Registry → ℕ → (Session → Session) → Registry
on_session r s f = record r { heap = write r.heap s (f (r.heap s)) }
