-- ===== src/Composite.antt =====
-- internal/server/composite.go: what `analyzeSingleFunction` asks of the worker, over the pseudocode
-- and the references that the session's cache keeps.
-- A `Worker` is what the worker replies about an address; a call that fails, and a reply with an error
-- text, are both `error`. The four tasks touch different parts of the cache, so that each is one step;
-- they end in any order.
mod Tests
pub mod Edits
pub mod Result
pub mod Single
pub mod Shown
pub mod Faithful
pub mod Fresh
pub mod Batch
pub mod Edited
use ida_pilot.Common.{
  number_key, string_key, ℕ, String, Bool, List, [], ◌∷◌, Option, none, some, if◌then◌else◌,
}
use ida_pilot.Common.Map
use ida_pilot.Common.Map.{Map}
use ida_pilot.Text.{Text}
use ida_pilot.Cache.{SessionCache, XrefsEntry, get_decomp, set_decomp, get_xrefs, set_xrefs}
use ida_pilot.Parallel.{Returned, value, error, run_labeled}

pub record Reference : Type 0 where
  pub from : ℕ
  pub to : ℕ
  pub type : ℕ

pub record FunctionReply : Type 0 where
  pub name : String
  pub start : ℕ
  pub end : ℕ
  pub size : ℕ
  pub calling_convention : String
  pub return_type : String
  pub num_args : ℕ
  pub is_library : Bool
  pub is_thunk : Bool
  pub no_return : Bool

pub record Worker : Type 0 where
  pub decompiled : ℕ → Returned String String
  pub function_info : ℕ → Returned FunctionReply String
  pub xrefs_to : ℕ → Returned (List Reference) String
  pub xrefs_from : ℕ → Returned (List Reference) String
  pub func_comment : ℕ → Returned String String

-- What a cache holds: the messages of its lists, and the tuples of an address and a type.
pub data CacheItem (Item : Type 0) : Type 0 where
  message : Item → CacheItem Item
  tuple : (address type : ℕ) → CacheItem Item

-- The entries of the result.
pub data ResultEntry : Type 0 where
  decompilation : String → ResultEntry
  decompilation_error : List String → ResultEntry
  name : String → ResultEntry
  start : Text → ResultEntry
  end : Text → ResultEntry
  size : ℕ → ResultEntry
  calling_convention : String → ResultEntry
  return_type : String → ResultEntry
  num_args : ℕ → ResultEntry
  flags : List String → ResultEntry
  xrefs_to : List (Text × ℕ) → ResultEntry
  xrefs_from : List (Text × ℕ) → ResultEntry
  xrefs_error : List String → ResultEntry
  comment : String → ResultEntry

-- The goroutines of an analysis.
pub data Task : Type 0 where
  ask_decompiled : Task
  ask_info : Task
  ask_xrefs : Task
  ask_comment : Task

unfoldable pub key_of : Task → String
key_of ask_decompiled = "decompiled"
key_of ask_info = "info"
key_of ask_xrefs = "xrefs"
key_of ask_comment = "comment"

abbrev pub all_tasks : List Task
all_tasks = ask_decompiled ∷ ask_info ∷ ask_xrefs ∷ ask_comment ∷ []

-- `errors.Join` of two errors: their texts, or nil.
unfoldable pub join_errors : Option String → Option String → Option (List String)
join_errors none none = none
join_errors (some e) none = some (e ∷ [])
join_errors none (some f) = some (f ∷ [])
join_errors (some e) (some f) = some (e ∷ f ∷ [])

-- The values of the result map of `runLabeled`, by their dynamic type.
pub data TaskValue (Item : Type 0) : Type 0 where
  as_code : String → TaskValue Item
  as_info : FunctionReply → TaskValue Item
  as_xrefs : XrefsEntry (CacheItem Item) → TaskValue Item
  as_comment : String → TaskValue Item

-- A missing result leaves its side of the entry nil.
unfoldable pub or_nil : Option (List Reference) → List Reference
or_nil none = []
or_nil (some xs) = xs

-- The two calls for references, in the order in which they end.
unfoldable pub ask_both : Worker → Bool → ℕ → Map String (List Reference) × Map String String
unfolding run_labeled
ask_both w to_first addr =
    if to_first
    then run_labeled (("to", w.xrefs_to addr) ∷ ("from", w.xrefs_from addr) ∷ [])
    else run_labeled (("from", w.xrefs_from addr) ∷ ("to", w.xrefs_to addr) ∷ [])

module _ {Item : Type 0} where
  unfoldable pub tuples_to : List Reference → List (CacheItem Item)
  tuples_to [] = []
  tuples_to (x ∷ xs) = tuple x.from x.type ∷ tuples_to xs

  unfoldable pub tuples_from : List Reference → List (CacheItem Item)
  tuples_from [] = []
  tuples_from (x ∷ xs) = tuple x.to x.type ∷ tuples_from xs

  unfoldable pub store_entry :
      SessionCache (CacheItem Item)
      → ℕ
      → Map String (List Reference) × Map String String
      → SessionCache (CacheItem Item) × Returned (TaskValue Item) (List String)
  unfolding join_errors or_nil tuples_to tuples_from
  store_entry c addr (xres, xerrs) =
      elim (join_errors (Map.lookup "to" xerrs) (Map.lookup "from" xerrs)) [
        | some e ↦ (c, error e)
        | none ↦
            let entry : XrefsEntry (CacheItem Item) = record {
              to = tuples_to (or_nil (Map.lookup "to" xres));
              from = tuples_from (or_nil (Map.lookup "from" xres));
            } in
            (set_xrefs c addr entry, value (as_xrefs entry))
      ]

  unfoldable pub store_code :
      SessionCache (CacheItem Item)
      → ℕ
      → Returned String String
      → SessionCache (CacheItem Item) × Returned (TaskValue Item) (List String)
  store_code c addr (error e) = (c, error (e ∷ []))
  store_code c addr (value code) = (set_decomp c addr code, value (as_code code))

  unfoldable pub pass_on :
      {V : Type 0}
      → (V → TaskValue Item)
      → Returned V String
      → Returned (TaskValue Item) (List String)
  pass_on as_value (error e) = error (e ∷ [])
  pass_on as_value (value v) = value (as_value v)

  unfoldable pub run_task :
      Worker
      → Bool
      → ℕ
      → SessionCache (CacheItem Item)
      → Task
      → SessionCache (CacheItem Item) × Returned (TaskValue Item) (List String)
  unfolding store_code store_entry pass_on ask_both
  run_task w to_first addr c ask_decompiled = elim (get_decomp c addr).1 [
    | some code ↦ ((get_decomp c addr).0, value (as_code code))
    | none ↦ store_code (get_decomp c addr).0 addr (w.decompiled addr)
  ]
  run_task w to_first addr c ask_info = (c, pass_on as_info (w.function_info addr))
  run_task w to_first addr c ask_xrefs = elim (get_xrefs c addr) [
    | some entry ↦ (c, value (as_xrefs entry))
    | none ↦ store_entry c addr (ask_both w to_first addr)
  ]
  run_task w to_first addr c ask_comment = (c, pass_on as_comment (w.func_comment addr))

  -- The tasks in the order in which they end.
  unfoldable pub run_tasks :
      Worker
      → Bool
      → ℕ
      → List Task
      → SessionCache (CacheItem Item)
      → SessionCache (CacheItem Item) × List (String × Returned (TaskValue Item) (List String))
  unfolding run_task key_of
  run_tasks w to_first addr [] c = (c, [])
  run_tasks w to_first addr (t ∷ ts) c =
      let r = run_task w to_first addr c t in
      let rest = run_tasks w to_first addr ts r.0 in (rest.0, (key_of t, r.1) ∷ rest.1)
