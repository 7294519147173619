-- ===== src/Cross.antt =====
-- internal/server/cross.go: the two tools that look into several sessions, `crossReference` and
-- `crossSearch`. What a session's worker replies is an argument; `none` is a call that failed.
pub mod Results
mod Tests
use ida_pilot.Common.{
  string_key, ◌==◌, ℕ, String, Bool, true, false, not, ◌||◌, List, [], ◌∷◌, ◌++◌, Option, none,
  some, keep, map, take, length, ltb, if◌then◌else◌,
}
use ida_pilot.Common.Int.{ℤ, pos, is_nonpos, to_ℕ}
use ida_pilot.Text.{Text, codes}
use ida_pilot.Address.{Parsed, ok, err, parse_addr}
use ida_pilot.Paging.{max_page_limit}
use ida_pilot.Lists.{Library, compile_regex}
use ida_pilot.Requests.{CrossReferenceRequest, CrossSearchRequest}

-- A function, import or export, or a string with its value as the name.
pub record Entry : Type 0 where
  pub address : ℕ
  pub name : String
  pub of_module : String

pub record CrossMatch : Type 0 where
  pub category : String
  pub address : ℕ
  pub name : String
  pub of_module : String
  pub value : String

-- What a worker has: each list is the reply to one call, or to `fetchAllStrings`.
pub record Binary : Type 0 where
  pub imports : Option (List Entry)
  pub exports : Option (List Entry)
  pub functions : Option (List Entry)
  pub strings : Option (List Entry)

abbrev pub entries : Option (List Entry) → List Entry
entries none = []
entries (some es) = es

-- `matchFilter`.
unfoldable pub match_filter : String → Option (Text → Bool) → String → Bool
match_filter name none needle = if needle == "" then true else name == needle
match_filter name (some matches) needle =
    if needle == "" then matches (codes name) else name == needle

pub data Found : Type 0 where
  bad_address : Found
  name_failed : Found
  no_name : ℕ → Found
  found : String → List CrossMatch → Found

abbrev pub as_import : Entry → CrossMatch
as_import e = record {
  category = "import";
  address = e.address;
  name = e.name;
  of_module = e.of_module;
  value = "";
}

abbrev pub as_named : String → Entry → CrossMatch
as_named category e = record {
  category = category;
  address = e.address;
  name = e.name;
  of_module = "";
  value = "";
}

unfoldable pub with_name : String → List Entry → List Entry
with_name symbol es = keep (λ e. e.name == symbol) es

unfoldable pub cross_matches : String → Binary → List CrossMatch
unfolding with_name
cross_matches symbol b =
    map as_import (with_name symbol (entries b.imports))
    ++ (map (as_named "export") (with_name symbol (entries b.exports))
        ++ (map (as_named "function") (with_name symbol (entries b.functions))
            ++ map (as_named "string") (with_name symbol (entries b.strings))))

-- The name at an address, or the function's name where that is empty; `none` is a failed call.
unfoldable pub or_function_name : String → Option String → String
or_function_name name none = name
or_function_name name (some fn) = if name == "" then fn else name

unfoldable pub search_name : ℕ → String → Binary → Found
unfolding cross_matches
search_name addr symbol target =
    if symbol == "" then no_name addr else found symbol (cross_matches symbol target)

unfoldable pub reference_at : Parsed → (ℕ → Option String) → (ℕ → Option String) → Binary → Found
unfolding search_name or_function_name
reference_at (err e) name_at function_at target = bad_address
reference_at (ok addr) name_at function_at target = elim (name_at addr) [
  | none ↦ name_failed
  | some name ↦ search_name addr (or_function_name name (function_at addr)) target
]

-- `crossReference`, for two sessions that are resolved.
unfoldable pub cross_reference :
    CrossReferenceRequest → (ℕ → Option String) → (ℕ → Option String) → Binary → Found
unfolding reference_at
cross_reference q name_at function_at target =
    reference_at (parse_addr (codes q.address)) name_at function_at target

-- What resolving a session of a search gives: an error, or its ID, its path and its worker.
pub data Session : Type 0 where
  unresolved : Session
  resolved : (id path : String) → Binary → Session

pub data SessionResult : Type 0 where
  session_error : (id : String) → SessionResult
  session_items : (id path : String) → List CrossMatch → SessionResult

pub data Searched : Type 0 where
  mode_required : Searched
  no_sessions : Searched
  invalid_regex : Searched
  invalid_mode : Searched
  searched : List SessionResult → Searched

abbrev pub as_value : Entry → CrossMatch
as_value e = record {
  category = "";
  address = e.address;
  name = "";
  of_module = "";
  value = e.name;
}

abbrev pub as_imported : Entry → CrossMatch
as_imported e = record {
  category = "";
  address = e.address;
  name = e.name;
  of_module = e.of_module;
  value = "";
}

-- The items of a session for a mode, before the limit; `none` for a mode that there is not.
unfoldable pub search_items : String → (String → Bool) → Binary → Option (List CrossMatch)
search_items mode passes b =
    let matching = λ (es : Option (List Entry)). keep (λ e. passes e.name) (entries es) in
    if mode == "functions"
    then some (map (as_named "") (matching b.functions))
    else if mode == "imports"
    then some (map as_imported (matching b.imports))
    else if mode == "exports"
    then some (map (as_named "") (matching b.exports))
    else if mode == "strings"
    then some (map as_value (matching b.strings))
    else none

unfoldable pub search_limit : ℤ → ℕ
search_limit limit = if is_nonpos limit || ltb max_page_limit (to_ℕ limit) then 100 else to_ℕ limit

unfoldable pub add_result :
    Option SessionResult → Option (List SessionResult) → Option (List SessionResult)
add_result (some r) (some rs) = some (r ∷ rs)
add_result (some r) none = none
add_result none rs = none

unfoldable pub search_session :
    String → (String → Bool) → ℕ → String → Session → Option SessionResult
unfolding search_items
search_session mode passes limit sid unresolved = some (session_error sid)
search_session mode passes limit sid (resolved id path b) = elim (search_items mode passes b) [
  | none ↦ none
  | some items ↦ some (session_items id path (take limit items))
]

-- The loop over the sessions, which a mode that there is not ends.
unfoldable pub search_all :
    String → (String → Bool) → ℕ → (String → Session) → List String → Option (List SessionResult)
unfolding search_session add_result
search_all mode passes limit resolve [] = some []
search_all mode passes limit resolve (sid ∷ ids) =
    add_result (search_session mode passes limit sid (resolve sid))
      (search_all mode passes limit resolve ids)

unfoldable pub or_all : List String → List String → List String
or_all [] active = active
or_all (sid ∷ ids) active = sid ∷ ids

abbrev pub as_searched : Option (List SessionResult) → Searched
as_searched none = invalid_mode
as_searched (some rs) = searched rs

unfoldable pub search_sessions :
    CrossSearchRequest → Option (Option (Text → Bool)) → (String → Session) → List String → Searched
unfolding search_all match_filter search_limit
search_sessions q pattern resolve [] = no_sessions
search_sessions q none resolve (sid ∷ ids) = invalid_regex
search_sessions q (some p) resolve (sid ∷ ids) = as_searched (
    search_all q.mode (λ name. match_filter name p q.needle) (search_limit q.limit) resolve
      (sid ∷ ids))

-- `crossSearch`; `active` has the IDs that the registry lists.
unfoldable pub cross_search :
    Library → CrossSearchRequest → (String → Session) → (active : List String) → Searched
unfolding search_sessions or_all
cross_search lib q resolve active =
    if q.mode == ""
    then mode_required
    else search_sessions q (compile_regex lib (codes q.regex) true) resolve
        (or_all q.session_ids active)
