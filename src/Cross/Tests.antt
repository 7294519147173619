-- ===== src/Cross/Tests.antt =====
-- The theorems of the cross-session search at concrete inputs.
use ida_pilot.Common.{
  string_key, ◌==◌, ◌≡◌, refl, String, true, List, [], ◌∷◌, none, some, map, if◌then◌else◌,
}
use ida_pilot.Common.Int.{pos}
use ida_pilot.Text.{codes, has_prefix}
use ida_pilot.Requests.{CrossSearchRequest}
use ida_pilot.Lists.{Library, compile_regex}
use ida_pilot.Cross.{
  Binary, Session, unresolved, resolved, SessionResult, session_error, searched, invalid_mode,
  cross_search, or_all,
}
use ida_pilot.Cross.Results.{
  Answered, Matches, limit_of, any_resolved, cross_search-Answered, invalid_mode_lem,
}

abbrev prefixes : Library
prefixes = record { compile = λ expr. some (λ t. has_prefix t expr); to_lower = λ t. t }

abbrev small_binary : Binary
small_binary = record {
  imports = none;
  exports = some [];
  functions = some (record { address = 16; name = "main"; of_module = "" } ∷ []);
  strings = none;
}

abbrev sessions : String → Session
sessions sid = if sid == "a1" then resolved "a1" "/bin/x" small_binary else unresolved

abbrev request : String → CrossSearchRequest
request mode = record {
  session_ids = "b2" ∷ "a1" ∷ [];
  mode = mode;
  regex = "";
  needle = "main";
  limit = pos 5;
}

both : or_all ("b2" ∷ "a1" ∷ []) [] ≡ "b2" ∷ "a1" ∷ []
unfolding or_all
both = refl

no_regex : compile_regex prefixes (codes "") true ≡ some none
unfolding compile_regex
no_regex = refl

cross_search-Answered_example :
    (rs : List SessionResult) × (cross_search prefixes (request "functions") sessions []
      ≡ searched rs)
    × Answered "functions"
        (λ name. Matches name none "main")
        (limit_of (pos 5))
        sessions
        ("b2" ∷ "a1" ∷ [])
        rs
cross_search-Answered_example =
    cross_search-Answered prefixes (request "functions") sessions [] "b2" ("a1" ∷ []) none refl both
      no_regex

invalid_mode_lem_example : cross_search prefixes (request "globals") sessions [] ≡ (
    if any_resolved sessions ("b2" ∷ "a1" ∷ [])
    then invalid_mode
    else searched (map session_error ("b2" ∷ "a1" ∷ [])))
invalid_mode_lem_example =
    invalid_mode_lem prefixes (request "globals") sessions [] "b2" ("a1" ∷ []) none refl refl both
      no_regex
