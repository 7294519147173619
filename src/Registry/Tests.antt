-- ===== src/Registry/Tests.antt =====
-- The theorems of the registry on a registry of at most two sessions that holds one.
use ida_pilot.Common.{string_key, ◌≡◌, refl, String, none, some, arith, inr}
use ida_pilot.Common.Map
use ida_pilot.Registry.{
  Session, Metadata, Registry, new_registry, blank, add, create, find_by_binary_path, get, delete,
}
use ida_pilot.Registry.Coherent.{
  IsCoherent, WithinLimit, new-IsCoherent, add-IsCoherent, Outcome, create-Outcome, Deleted,
  delete-Deleted,
}

abbrev session : String → String → Session
session id path = record blank {
  id = id;
  binary_path = path;
  created_at = 10;
  last_activity = 10;
  timeout = 60;
}

abbrev empty : Registry
empty = new_registry 2

abbrev one_session : Registry
one_session = add empty (session "s1" "/bin/ls")

no_sessions : get empty "s1" ≡ none
unfolding get new_registry Map.lookup
no_sessions = refl

no_paths : find_by_binary_path empty "/bin/ls" ≡ none
unfolding find_by_binary_path new_registry Map.lookup
no_paths = refl

one_session-IsCoherent : IsCoherent one_session
unfolding get
one_session-IsCoherent =
    add-IsCoherent empty (session "s1" "/bin/ls") (new-IsCoherent 2) no_sessions

one_session-WithinLimit : WithinLimit one_session
unfolding add new_registry Map.insert
one_session-WithinLimit = inr (omega arith)

fresh : get one_session "s2" ≡ none
unfolding get add new_registry Map.insert Map.lookup
fresh = refl

create-Outcome_example :
    Outcome one_session "s2" "/bin/cat" (create one_session "s2" "/bin/cat" 60 20)
unfolding get
create-Outcome_example =
    create-Outcome one_session "s2" "/bin/cat" 60 20 one_session-IsCoherent one_session-WithinLimit
      fresh

abbrev saved : Metadata
saved = record {
  id = "s3";
  binary_path = "/bin/cat";
  created_at = 1;
  last_activity = 2;
  timeout = 60;
}

delete-Deleted_example : Deleted one_session "s1" (delete one_session "s1")
delete-Deleted_example =
    delete-Deleted one_session "s1" one_session-IsCoherent one_session-WithinLimit

found : find_by_binary_path one_session "/bin/ls" ≡ some 0
unfolding find_by_binary_path add new_registry Map.insert Map.lookup
found = refl

abbrev after : Registry
after = delete (add one_session (session "s2" "/bin/ls")) "s2"
