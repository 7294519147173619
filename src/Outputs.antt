-- ===== src/Outputs.antt =====
-- internal/server/output_cache.go: the store of truncated outputs (`outputStore` with `put`, `get` and
-- `clear`), `getCachedOutput`, and the decision of `maybeCacheResult`.
-- Times are numbers of nanoseconds on one clock; an ID of `genCacheID` is an argument of `put`.
pub mod Store
pub mod Lasting
pub mod Reading
mod Tests
use ida_pilot.Common.{
  string_key, ℕ, suc, zero, ◌+◌, ◌-◌, ◌*◌, ◌%◌, ◌^◌, String, Bool, List, [], ◌∷◌, ◌++◌, Option,
  none, some, length, leb, ltb, slice, if◌then◌else◌, take,
}
use ida_pilot.Common.Int.{ℤ, pos, negsuc, is_neg, is_nonpos, to_ℕ}
use ida_pilot.Common.Map
use ida_pilot.Common.Map.{Map}

-- A text is the list of its bytes.
abbrev pub Bytes : Type 0
Bytes = List ℕ

abbrev pub default_max_output_chars : ℕ
default_max_output_chars = 8000

abbrev pub max_cache_entries : ℕ
max_cache_entries = 200

-- One hour.
abbrev pub cache_entry_ttl : ℕ
cache_entry_ttl = 3600000000000

pub record OutputEntry : Type 0 where
  pub id : String
  pub tool : String
  pub content : Bytes
  pub created_at : ℕ

pub record OutputStore : Type 0 where
  pub entries : Map String OutputEntry
  pub order : List String

abbrev pub new_output_store : OutputStore
new_output_store = record { entries = []; order = [] }

-- `now.Sub(e.CreatedAt) > cacheEntryTTL`, with no subtraction.
unfoldable pub is_expired : ℕ → OutputEntry → Bool
is_expired now e = ltb (e.created_at + cache_entry_ttl) now

-- The first loop of `put`: it stops at the first entry that is missing or not expired.
unfoldable pub evict_expired : ℕ → List String → Map String OutputEntry → OutputStore
unfolding is_expired
evict_expired now [] entries = record { entries = entries; order = [] }
evict_expired now (oldest ∷ rest) entries = elim (Map.lookup oldest entries) [
  | none ↦ record { entries = entries; order = oldest ∷ rest }
  | some e ↦
      let next = evict_expired now rest (Map.delete oldest entries) in
      if is_expired now e then next else record { entries = entries; order = oldest ∷ rest }
]

-- The second loop: it drops the oldest until there is room for one more.
unfoldable pub evict_over : List String → Map String OutputEntry → OutputStore
evict_over [] entries = record { entries = entries; order = [] }
evict_over (oldest ∷ rest) entries =
    let next = evict_over rest (Map.delete oldest entries) in
    if leb max_cache_entries (length (oldest ∷ rest))
    then next
    else record { entries = entries; order = oldest ∷ rest }

unfoldable pub append_entry : OutputEntry → OutputStore → OutputStore
append_entry e s = record { entries = Map.insert e.id e s.entries; order = s.order ++ e.id ∷ [] }

unfoldable pub put : OutputStore → String → ℕ → String → Bytes → OutputStore
unfolding append_entry
put s id now tool content =
    let s1 = evict_expired now s.order s.entries in
    let s2 = evict_over s1.order s1.entries in
    append_entry (record { id = id; tool = tool; content = content; created_at = now }) s2

unfoldable pub get : OutputStore → ℕ → String → Option OutputEntry
unfolding is_expired
get s now id = elim (Map.lookup id s.entries) [
  | none ↦ none
  | some e ↦ if is_expired now e then none else some e
]

unfoldable pub clear : OutputStore → OutputStore × ℕ
clear s = (new_output_store, length s.entries)

-- `getCachedOutput`. Go's `int` has 64 bits: `offset + limit` wraps to a negative number from 2^63 on,
-- and the slice `content[offset:end]` then panics. `to_text` is what `json.Marshal` makes of the bytes of a
-- string; it replaces those that are no UTF-8, as where the slice cuts a character.
pub record Chunk : Type 0 where
  pub tool : String
  pub content : Bytes
  pub offset : ℕ
  pub limit : ℕ
  pub total_chars : ℕ
  pub has_more : Bool
  pub next_offset : Option ℕ

pub data Reply : Type 0 where
  not_found : Reply
  panics : Reply
  chunk : Chunk → Reply

abbrev pub int_bound : ℕ
int_bound = 2 ^ 63

-- offset < 0 becomes 0, and offset > total becomes total.
unfoldable pub clamp_offset : ℤ → ℕ → ℕ
clamp_offset offset total = if ltb total (to_ℕ offset) then total else to_ℕ offset

unfoldable pub chunk_limit : ℤ → ℕ
chunk_limit limit = if is_nonpos limit then default_max_output_chars else to_ℕ limit

unfoldable pub read_chunk : (to_text : Bytes → Bytes) → OutputEntry → ℕ → ℕ → Reply
read_chunk to_text entry offset limit =
    let total = length entry.content in
    let stop = if ltb total (offset + limit) then total else offset + limit in
    let has_more = ltb stop total in
    if leb int_bound (offset + limit)
    then panics
    else chunk (record {
      tool = entry.tool;
      content = to_text (slice offset stop entry.content);
      offset = offset;
      limit = limit;
      total_chars = total;
      has_more = has_more;
      next_offset = if has_more then some stop else none;
    })

unfoldable pub get_cached_output :
    (to_text : Bytes → Bytes) → OutputStore → ℕ → String → ℤ → ℤ → Reply
unfolding get read_chunk clamp_offset chunk_limit
get_cached_output to_text s now id offset limit = elim (get s now id) [
  | none ↦ not_found
  | some e ↦ read_chunk to_text e (clamp_offset offset (length e.content)) (chunk_limit limit)
]

-- The result of a tool: no content, or a first content that is a text or something else.
pub data ToolResult : Type 0 where
  no_result : ToolResult
  no_content : ToolResult
  other_content : ToolResult
  text : Bytes → ToolResult

-- What `maybeCacheResult` hands back: the result as it was, the truncated JSON object, or the preview
-- of a raw text.
pub data Sent (Object : Type 0) : Type 0 where
  as_is : ToolResult → Sent Object
  truncated_json : Object → String → ℕ → Sent Object
  truncated_text : (cache_id : String) → (total : ℕ) → (next : ℕ) → (preview : Bytes) → Sent Object

-- `parse` is `json.Unmarshal` into a map, with `none` for its error.
unfoldable pub maybe_cache_result :
    {Object : Type 0}
    → (Bytes → Option Object)
    → OutputStore
    → String
    → ℕ
    → String
    → ToolResult
    → OutputStore × Sent Object
unfolding put
maybe_cache_result parse s id now tool (text full) =
    if leb (length full) default_max_output_chars then (s, as_is (text full)) else (
      put s id now tool full,
      elim (parse full) [
        | some object ↦ truncated_json object id (length full)
        | none ↦
            truncated_text id (length full) default_max_output_chars
              (take default_max_output_chars full)
      ],
    )
maybe_cache_result parse s id now tool result = (s, as_is result)
