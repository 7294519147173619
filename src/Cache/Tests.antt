-- ===== src/Cache/Tests.antt =====
-- The theorems of the session cache on a cache with two functions, one of them noted. An item is its
-- address.
use ida_pilot.Common.{
  String, List, arith, number_key, string_key, ℕ, suc, ◌≡◌, refl, true, false, [], ◌∷◌, none, some,
  inr,
}
use ida_pilot.Common.Map
use ida_pilot.Cache.{
  SessionCache, new_session_cache, set_in, mark_visited, get_visited, find_in, Fetched, fetched,
  loaded, load_cached,
}
use ida_pilot.Cache.Entries.{Healthy, set_in-text_of}
use ida_pilot.Cache.Fetching.{outcome, fetch_all_strings, serve, slice_of, fetch_all_strings-serve}
use ida_pilot.Cache.Loading.{concurrent_loads, load_cached-retries}
use ida_pilot.Cache.Notes.{mark_visited_lem, note_of}

-- The worker counts the calls that it gets.
abbrev two_names : ℕ → ℕ × Fetched ℕ
two_names calls = (suc calls, fetched (some (64 ∷ 96 ∷ [])))

abbrev no_names : ℕ → ℕ × Fetched ℕ
no_names calls = (suc calls, fetched none)

concurrent_loads_example :
    let first = load_cached two_names none none 7 in
    let second = load_cached two_names none first.0.0 first.0.1 in
    let later = load_cached two_names second.0.0 second.0.0 second.0.1 in
    (first.1 ≡ loaded (some (64 ∷ 96 ∷ [])) false)
    × (second.1 ≡ loaded (some (64 ∷ 96 ∷ [])) false)
    × (second.0.1 ≡ 8)
    × (later ≡ ((some (64 ∷ 96 ∷ []), 8), loaded (some (64 ∷ 96 ∷ [])) true))
concurrent_loads_example = concurrent_loads two_names 7 (64 ∷ 96 ∷ []) refl

load_cached-retries_example :
    let first = load_cached no_names none none 7 in
    (first.0.0 ≡ none)
    × (load_cached no_names first.0.0 first.0.0 first.0.1 ≡ load_cached no_names none none 8)
load_cached-retries_example = load_cached-retries no_names 7 (inr refl)

abbrev two_texts : SessionCache ℕ
two_texts = record (new_session_cache ℕ) {
  decomp = set_in (set_in none 64 "main calls init") 96 "init";
  functions = some (64 ∷ 96 ∷ []);
  visited = some (
      (64, record { timestamp = 3; note = "entry point" })
      ∷ (96, record { timestamp = 4; note = "" })
      ∷ []);
}

two_texts-Healthy : Healthy two_texts.decomp
two_texts-Healthy =
    (set_in-text_of (set_in none 64 "main calls init") 96 "init"
      (set_in-text_of none 64 "main calls init" tt).1).1

-- A visit without a note.
mark_visited_lem_example :
    find_in (get_visited (mark_visited two_texts 64 9 "")) 64
    ≡ some (record { timestamp = 9; note = "entry point" })
unfolding note_of find_in get_visited Map.lookup
mark_visited_lem_example = mark_visited_lem two_texts 64 9 "" 64

abbrev three_strings : List String
three_strings = "a" ∷ "b" ∷ "c" ∷ []

fetch_all_strings-serve_example :
    (outcome (fetch_all_strings 1 (serve three_strings)) ≡ some (fetched (slice_of three_strings)))
    × (outcome (fetch_all_strings 0 (serve three_strings)) ≡ none)
fetch_all_strings-serve_example = fetch_all_strings-serve three_strings (omega arith)
