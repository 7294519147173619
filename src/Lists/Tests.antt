-- ===== src/Lists/Tests.antt =====
-- The theorems of the list tools at concrete inputs.
use ida_pilot.Common.{
  string_key, ◌≡◌, ◌≤◌, refl, ℕ, suc, String, Bool, true, arith, List, [], ◌∷◌, Option, some, keep,
  length,
}
use ida_pilot.Common.Int.{pos}
use ida_pilot.Text.{Text, codes, has_prefix}
use ida_pilot.Cache.{new_session_cache, Fetched, fetched}
use ida_pilot.Requests.{GetFunctionsRequest}
use ida_pilot.Paging.{effective_limit, max_page_limit}
use ida_pilot.Paging.Walk.{read}
use ida_pilot.Lists.{Library, compile_regex, get_functions}
use ida_pilot.Lists.Filters.{page_of, selects_function, get_functions-selects}
use ida_pilot.Lists.Pages.{read_functions, read_functions-selects}

-- Expressions that stand for a text in front.
abbrev prefixes : Library
prefixes = record { compile = λ expr. some (λ t. has_prefix t expr); to_lower = λ t. t }

abbrev Named : Type 0
Named = ℕ × String

abbrev name_of : Named → Text
name_of (addr, name) = codes name

abbrev database : List Named
database = (16, "main") ∷ (32, "sub_20") ∷ (48, "memcpy") ∷ (64, "memset") ∷ []

-- A worker that counts its calls.
abbrev worker : ℕ → ℕ × Fetched Named
worker n = (suc n, fetched (some database))

abbrev request : GetFunctionsRequest
request = record {
  session_id = "a1";
  offset = pos 0;
  limit = pos 1;
  regex = "mem";
  case_sens = true;
  named_only = true;
}

abbrev starts_mem : Option (Text → Bool)
starts_mem = some (λ t. has_prefix t (codes "mem"))

compiled : compile_regex prefixes (codes "mem") true ≡ some starts_mem
unfolding compile_regex
compiled = refl

get_functions-selects_example :
    get_functions prefixes name_of worker request (new_session_cache Named, 0) ≡ (
      (record (new_session_cache Named) { functions = some database }, 1),
      page_of (pos 0) (pos 1) (keep (selects_function name_of request starts_mem) database),
    )
get_functions-selects_example =
    get_functions-selects prefixes name_of worker (new_session_cache Named) 0 database starts_mem
      request compiled refl

accepted : effective_limit (pos 1) ≤ max_page_limit
unfolding effective_limit
accepted = omega arith

read_functions-selects_example :
    read_functions prefixes name_of worker request
      (suc (length (keep (selects_function name_of request starts_mem) database)))
      (new_session_cache Named, 0)
    ≡ (
      (record (new_session_cache Named) { functions = some database }, 1),
      read (keep (selects_function name_of request starts_mem) database),
    )
read_functions-selects_example =
    read_functions-selects prefixes name_of worker request (new_session_cache Named) 0 database
      starts_mem accepted compiled refl
