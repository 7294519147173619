-- ===== src/Lifecycle/Tests.antt =====
-- The theorems of the lifecycle on a server with one session.
use ida_pilot.Common.{
  List, string_key, ◌==◌, ℕ, ◌≡◌, refl, Bool, true, false, String, [], ◌∷◌, none, some, arith, inl,
  if◌then◌else◌,
}
use ida_pilot.Common.Map
use ida_pilot.Registry
use ida_pilot.Registry.{Registry, Session, new_registry, blank, add, list}
use ida_pilot.Registry.Coherent.{new-IsCoherent, add-IsCoherent}
use ida_pilot.Tiers.{ToolServer, Tiers, elem, register_tools, promote_to_tier}
use ida_pilot.Tiers.Coherent.{register_tools-IsCoherent, promote_to_tier-IsCoherent}
use ida_pilot.Lifecycle.{Outside, Request, Server, watchdog, open_binary}
use ida_pilot.Lifecycle.Forget.{IsOrderly, IsTidy}
use ida_pilot.Lifecycle.Restore.{Restart, restore_sessions}
use ida_pilot.Lifecycle.Restored.{Restored, restore_sessions-Restored}
use ida_pilot.Lifecycle.Tick.{idle_at, watchdog-tick}
use ida_pilot.Lifecycle.Tidy.{open_binary-IsTidy}

abbrev name_set : ToolServer
name_set = record {
  State = String → Bool;
  offers = λ s n. s n;
  add_tool = λ n s m. if m == n then true else s m;
  remove_tools = λ ns s m. if elem m ns then false else s m;
  offers-add = λ s n m. refl;
  offers-remove = λ s ns m. refl;
}

abbrev booted : Tiers name_set
booted = register_tools name_set (record { tier = 0; enable_py_eval = false; tools = λ n. false })

abbrev session : Session
session = record blank { id = "s1"; binary_path = "/bin/ls"; last_activity = 10; timeout = 60 }

abbrev one_session : Registry
one_session = add (new_registry 0) session

abbrev server : Server name_set ℕ
server = record {
  registry = one_session;
  workers = ("s1", 4711) ∷ [];
  saved = some [];
  caches = [];
  progress = [];
  tiers = promote_to_tier name_set 1 booted;
}

server-IsOrderly : IsOrderly server
unfolding add new_registry Map.lookup
server-IsOrderly = record {
  coherent = add-IsCoherent (new_registry 0) session (new-IsCoherent 0) refl;
  within = inl refl;
}

server-IsTidy : IsTidy server
unfolding list add new_registry Map.insert
server-IsTidy =
    let started : Tiers name_set = record {
      tier = 0;
      enable_py_eval = false;
      tools = λ n. false;
    } in
    let p =
      promote_to_tier-IsCoherent name_set booted
        (register_tools-IsCoherent name_set started refl (λ n. refl)) 1 (omega arith) in
    record { offered = p.0; idle = p.2 }

abbrev outside : Outside
outside = record { stops = true; saves = true; removes = false }

no_blank : Registry.get one_session "" ≡ none
unfolding Registry.get add new_registry Map.insert Map.lookup
no_blank = refl

-- At time 100 the session, last used at 10, is removed.
watchdog-tick_example :
    let s' = watchdog outside 100 server in
    IsOrderly s'
    × IsTidy s'
    × ((k : String)
        → Registry.get s'.registry k ≡ (
            if idle_at 100 one_session.heap (Registry.get one_session k)
            then none
            else Registry.get one_session k))
watchdog-tick_example = watchdog-tick outside 100 server server-IsOrderly server-IsTidy no_blank

abbrev request : Request
request = record {
  path = "/bin/cat";
  id = "s2";
  timeout = 60;
  now = 20;
  launched = some 4712;
  alive = true;
}

no_second : Registry.get one_session "s2" ≡ none
unfolding Registry.get add new_registry Map.insert Map.lookup
no_second = refl

open_binary-IsTidy_example : IsTidy (open_binary outside request server).0
open_binary-IsTidy_example =
    open_binary-IsTidy outside request server server-IsOrderly server-IsTidy refl no_second

-- One record whose session is there already, and one whose binary is.
abbrev restarts : List Restart
restarts =
    record {
      meta = record {
        id = "s1";
        binary_path = "/bin/ls";
        created_at = 0;
        last_activity = 5;
        timeout = 60;
      };
      accessible = true;
      launched = some 5001;
      alive = true;
      now = 20;
    }
    ∷ record {
      meta = record {
        id = "s3";
        binary_path = "/bin/cat";
        created_at = 0;
        last_activity = 5;
        timeout = 60;
      };
      accessible = true;
      launched = some 5002;
      alive = true;
      now = 21;
    }
    ∷ []

restore_sessions-Restored_example :
    Restored server (restore_sessions outside (some restarts) server)
restore_sessions-Restored_example =
    restore_sessions-Restored outside restarts server server-IsOrderly refl
