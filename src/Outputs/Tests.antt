-- ===== src/Outputs/Tests.antt =====
-- The theorems of the output cache at concrete inputs: a store with one output, and a call on it.
use ida_pilot.Common.{
  string_key, suc, ◌+◌, ◌<◌, ◌≡◌, refl, true, ltb, ◌++◌, if◌then◌else◌, List, [], ◌∷◌, Option, none,
  some, arith, length, replicate,
}
use ida_pilot.Common.Int.{pos}
use ida_pilot.Common.Map
use ida_pilot.Outputs.{
  Bytes, OutputEntry, OutputStore, new_output_store, put, get, evict_expired, evict_over,
  append_entry, chunk_limit, int_bound, default_max_output_chars,
}
use ida_pilot.Outputs.Store.{Stored, put-Stored, get-put, new-IsSound}
use ida_pilot.Outputs.Lasting.{Put, puts, get-puts}
use ida_pilot.Outputs.Reading.{is_ascii, read_all, read_all-content}

abbrev listing : Bytes
listing = replicate 8100 65

abbrev listing_entry : OutputEntry
listing_entry = record { id = "a1"; tool = "query"; content = listing; created_at = 5 }

abbrev one_output : OutputStore
one_output = put new_output_store "a1" 5 "query" listing

fresh : Map.lookup "a1" new_output_store.entries ≡ none
unfolding Map.lookup
fresh = refl

listing-long : default_max_output_chars < length listing
listing-long = omega arith

put-Stored_example : Stored new_output_store listing_entry one_output
put-Stored_example = put-Stored new_output_store "a1" 5 "query" listing new-IsSound fresh

fresh_b : Map.lookup "b2" one_output.entries ≡ none
unfolding put evict_expired evict_over append_entry Map.lookup Map.insert
fresh_b = refl

-- The first output just before its hour is over, after a second one.
abbrev second : List Put
second = record { id = "b2"; now = 9; tool = "search"; content = 66 ∷ [] } ∷ []

get-puts_example :
    get (puts one_output second) 3600000000005 "a1"
    ≡ some (record { id = "a1"; tool = "query"; content = listing; created_at = 5 })
get-puts_example =
    get-puts new_output_store "a1" 5 3600000000005 "query" listing second new-IsSound fresh
      (omega arith) (fresh_b, omega arith, tt) (omega arith)

found : get one_output 7 "a1" ≡ some listing_entry
found = get-put new_output_store "a1" 5 7 "query" listing new-IsSound fresh

small : length listing + chunk_limit (pos 3000) < int_bound
unfolding chunk_limit
small = omega arith

-- Every byte that is no ASCII is replaced.
abbrev ascii_only : Bytes → Bytes
ascii_only [] = []
ascii_only (b ∷ bs) = (if ltb b 128 then b ∷ [] else 239 ∷ 191 ∷ 189 ∷ []) ++ ascii_only bs

ascii_only-keeps : (b : Bytes) → is_ascii b ≡ true → ascii_only b ≡ b
ascii_only-keeps [] h = refl
ascii_only-keeps (b ∷ bs) h = ground (arith, ascii_only-keeps bs)

-- In steps of 3000 bytes.
read_all-content_example :
    read_all ascii_only (suc (length listing)) one_output 7 "a1" (pos 3000) 0 ≡ some listing
read_all-content_example =
    read_all-content ascii_only ascii_only-keeps one_output 7 "a1" (pos 3000) listing_entry found
      small refl

abbrev no_json : Bytes → Option Bytes
no_json b = none
