-- ===== src/Outputs/Reading.antt =====
-- `getCachedOutput`: the chunks that it returns lie inside the content, following `next_offset` reads
-- the whole content, and a limit near the largest int makes it panic. `maybeCacheResult` loses nothing.
use ida_pilot.Common.{
  string_key, lt→ltb, lt→leb-false, le→leb, le→ltb-false, ltb-false→le, Bool, true, ◌&&◌, [], ◌∷◌,
  ℕ, suc, zero, ◌+◌, ◌-◌, ◌≤◌, ◌<◌, ◌≡◌, refl, sym, ap, ◌∙◌, String, List, ◌++◌, Option, none, some,
  arith, length, drop, take, slice, min, ltb, if◌then◌else◌, Bool-cases, Option-cases, inl, inr,
  length-take, length-drop, take-min, take-append-drop, drop-drop, take_of_length-le,
}
use ida_pilot.Common.Int.{ℤ, pos, negsuc}
use ida_pilot.Common.Map
use ida_pilot.Outputs.{
  OutputEntry, OutputStore, get, Bytes, Chunk, Reply, not_found, panics, chunk, int_bound,
  clamp_offset, chunk_limit, read_chunk, get_cached_output, cache_entry_ttl, text,
  maybe_cache_result, Sent, as_is, truncated_json, truncated_text, default_max_output_chars,
}
use ida_pilot.Outputs.Store.{IsSound, get-put}

-- The reply is one of three, and each comes exactly when it should: no entry, an index that wraps, or
-- the stretch of the content from the clamped offset on, as long as the limit and the content allow.
pub record Reads (to_text : Bytes → Bytes) (entry : OutputEntry) (offset limit : ℕ) (c : Chunk)
    : Type 0 where
  pub tool : c.tool ≡ entry.tool
  pub from : c.offset ≡ offset
  pub total : c.total_chars ≡ length entry.content
  pub content : c.content ≡ to_text (take limit (drop offset entry.content))
  pub next :
      c.next_offset
      ≡ (if ltb (offset + limit) (length entry.content) then some (offset + limit) else none)

-- A slice whose end is clamped.
slice_clamped {ℓ} :
    {A : Type ℓ} (offset limit : ℕ) (xs : List A)
    → offset ≤ length xs
    → slice offset (min (offset + limit) (length xs)) xs ≡ take limit (drop offset xs)
slice_clamped offset limit xs h =
    let e : min (offset + limit) (length xs) - offset ≡ min limit (length (drop offset xs)) =
      omega (arith, length-drop offset xs) in
    ap (λ k. take k (drop offset xs)) e ∙ take-min limit (drop offset xs)

clamp_offset-le : (offset : ℤ) (total : ℕ) → clamp_offset offset total ≤ total
unfolding clamp_offset
clamp_offset-le offset total = ground arith

-- With no overflow, one call returns the right stretch, and names the next offset exactly if content is left.
pub read_chunk-Reads :
    (to_text : Bytes → Bytes) (entry : OutputEntry) (offset limit : ℕ)
    → offset ≤ length entry.content
    → offset + limit < int_bound
    → (c : Chunk) × (read_chunk to_text entry offset limit ≡ chunk c)
      × Reads to_text entry offset limit c
unfolding read_chunk
read_chunk-Reads to_text entry offset limit h small =
    let total = length entry.content in
    let stop = if ltb total (offset + limit) then total else offset + limit in
    let more = ltb stop total in
    let e : stop ≡ min (offset + limit) total = ground arith in
    let c : Chunk = record {
      tool = entry.tool;
      content = to_text (slice offset stop entry.content);
      offset = offset;
      limit = limit;
      total_chars = total;
      has_more = more;
      next_offset = if more then some stop else none;
    } in
    (
      c,
      ground arith,
      record {
        tool = refl;
        from = refl;
        total = refl;
        content =
            ap (λ s. to_text (slice offset s entry.content)) e
            ∙ ap to_text (slice_clamped offset limit entry.content h);
        next = ground arith;
      },
    )

-- What a client does with a reply that names a next offset: it goes on from there.
unfoldable pub follow : Reply → (ℕ → Option Bytes) → Option Bytes
follow not_found more = none
follow panics more = none
follow (chunk c) more = elim c.next_offset [
  | none ↦ some c.content
  | some next ↦ elim (more next) [ none ↦ none | some rest ↦ some (c.content ++ rest) ]
]

-- The client's loop, with fuel: the concatenation of the contents, or `none` when a call fails or the
-- fuel runs out.
unfoldable pub read_all :
    (to_text : Bytes → Bytes) → ℕ → OutputStore → ℕ → String → ℤ → ℕ → Option Bytes
unfolding follow
read_all to_text zero s now id limit offset = none
read_all to_text (suc fuel) s now id limit offset =
    follow (get_cached_output to_text s now id (pos offset) limit)
      (λ next. read_all to_text fuel s now id limit next)

chunk_limit-positive : (limit : ℤ) → 0 < chunk_limit limit
unfolding chunk_limit
chunk_limit-positive (pos n) = ground arith
chunk_limit-positive (negsuc n) = omega arith

-- A call at an offset inside the content, with no overflow.
call_Reads :
    (to_text : Bytes → Bytes) (s : OutputStore) (now : ℕ) (id : String) (limit : ℤ)
    (e : OutputEntry) (offset : ℕ)
    → get s now id ≡ some e
    → offset + chunk_limit limit < int_bound
    → offset ≤ length e.content
    → (c : Chunk) × (get_cached_output to_text s now id (pos offset) limit ≡ chunk c)
      × Reads to_text e offset (chunk_limit limit) c
unfolding get_cached_output clamp_offset
call_Reads to_text s now id limit e offset found small h =
    let (c, r, f) = read_chunk-Reads to_text e offset (chunk_limit limit) h small in
    let same : clamp_offset (pos offset) (length e.content) ≡ offset = ground arith in
    (
      c,
      rw (found, get_cached_output) (ap (λ o. read_chunk to_text e o (chunk_limit limit)) same ∙ r),
      f,
    )

-- Whether all bytes are ASCII; then no slice cuts a character.
abbrev pub is_ascii : Bytes → Bool
is_ascii [] = true
is_ascii (b ∷ bs) = ltb b 128 && is_ascii bs

drop-is_ascii : (n : ℕ) (bs : Bytes) → is_ascii bs ≡ true → is_ascii (drop n bs) ≡ true
drop-is_ascii zero bs h = h
drop-is_ascii (suc n) [] h = h
drop-is_ascii (suc n) (b ∷ bs) h = drop-is_ascii n bs (ground arith)

take-is_ascii : (n : ℕ) (bs : Bytes) → is_ascii bs ≡ true → is_ascii (take n bs) ≡ true
take-is_ascii zero bs h = refl
take-is_ascii (suc n) [] h = refl
take-is_ascii (suc n) (b ∷ bs) h =
    let rest : is_ascii bs ≡ true = ground arith in ground (arith, take-is_ascii n bs rest)

module _ (to_text : Bytes → Bytes) (keeps_ascii : (b : Bytes) → is_ascii b ≡ true → to_text b ≡ b)
    (s : OutputStore) (now : ℕ) (id : String) (limit : ℤ) (e : OutputEntry)
    (found : get s now id ≡ some e) (small : length e.content + chunk_limit limit < int_bound)
    (ascii : is_ascii e.content ≡ true) where
  read_from :
      (fuel offset : ℕ)
      → offset ≤ length e.content
      → length e.content < offset + fuel
      → read_all to_text fuel s now id limit offset ≡ some (drop offset e.content)
  unfolding read_all
  read_from zero offset h enough = absurd (omega arith)
  read_from (suc fuel) offset h enough =
      let n : ℕ = chunk_limit limit in
      let (c, r, f) = call_Reads to_text s now id limit e offset found (omega arith) h in
      let content : c.content ≡ take n (drop offset e.content) =
        f.content
        ∙ keeps_ascii (take n (drop offset e.content))
            (take-is_ascii n (drop offset e.content) (drop-is_ascii offset e.content ascii)) in
      elim (Bool-cases (ltb (offset + n) (length e.content))) [
        | inl more ↦
            let next : c.next_offset ≡ some (offset + n) = rw more at f.next in
            let ih =
              read_from fuel (offset + n) (ground arith)
                (omega (arith, chunk_limit-positive limit)) in
            rw (r, follow, next, follow, ih)
              (ap some (
                ap (λ l. l ++ drop (offset + n) e.content) content
                ∙ ap (λ l. take n (drop offset e.content) ++ l) (sym (drop-drop n offset e.content))
                ∙ take-append-drop n (drop offset e.content)))
        | inr last ↦
            let next : c.next_offset ≡ none = rw last at f.next in
            rw (r, follow, next, follow)
              (ap some (
                content
                ∙ take_of_length-le n (drop offset e.content) (
                    omega (
                      arith,
                      length-drop offset e.content,
                      ltb-false→le (offset + n) (length e.content) last,
                    ))))
      ]

  -- For ASCII content, that `json.Marshal` does not change: following `next_offset` from 0 on, with whatever
  -- limit, reads the whole content and ends.
  pub read_all-content : read_all to_text (suc (length e.content)) s now id limit 0 ≡ some e.content
  read_all-content = read_from (suc (length e.content)) 0 (omega arith) (omega arith)

-- The largest int as a limit: `offset + limit` wraps, and the call panics, for every stored output that
-- is not empty and every offset from 1 on.
pub overflow_panics :
    (to_text : Bytes → Bytes) (s : OutputStore) (now : ℕ) (id : String) (e : OutputEntry)
    (offset : ℕ)
    → get s now id ≡ some e
    → 0 < length e.content
    → 0 < offset
    → get_cached_output to_text s now id (pos offset) (pos (int_bound - 1)) ≡ panics
unfolding get_cached_output clamp_offset chunk_limit read_chunk
overflow_panics to_text s now id e offset found h k = rw (found, get_cached_output) (ground arith)

-- A limit of 0 does not return the whole of a truncated output, as the hint of the truncated response
-- and the schema say: of an ASCII content over 8000 bytes it returns 8000, and names a next offset.
pub limit_zero :
    (to_text : Bytes → Bytes) (s : OutputStore) (now : ℕ) (id : String) (e : OutputEntry)
    → get s now id ≡ some e
    → ((b : Bytes) → is_ascii b ≡ true → to_text b ≡ b)
    → is_ascii e.content ≡ true
    → default_max_output_chars < length e.content
    → (c : Chunk) × (get_cached_output to_text s now id (pos 0) (pos 0) ≡ chunk c)
      × (length c.content ≡ default_max_output_chars)
      × (c.next_offset ≡ some default_max_output_chars)
unfolding get_cached_output clamp_offset chunk_limit
limit_zero to_text s now id e found keeps_ascii ascii long =
    let (c, r, f) = call_Reads to_text s now id (pos 0) e 0 found (omega arith) (omega arith) in
    (
      c,
      r,
      ap length (
            f.content
            ∙ keeps_ascii (take default_max_output_chars e.content)
                (take-is_ascii default_max_output_chars e.content ascii))
          ∙ length-take default_max_output_chars e.content
          ∙ omega arith,
      rw (lt→ltb default_max_output_chars (length e.content) long) at f.next,
    )

-- The ID that a truncated response names.
unfoldable pub cache_id_of : {Object : Type 0} → Sent Object → Option String
cache_id_of (as_is r) = none
cache_id_of (truncated_json o id total) = some id
cache_id_of (truncated_text id total next preview) = some id

-- A text of more than 8000 bytes is sent truncated, under an ID by which its full text is found for an
-- hour, whether it parses as a JSON object or not.
pub maybe_cache_result-get :
    {Object : Type 0} (parse : Bytes → Option Object) (s : OutputStore) (id : String)
    (now later : ℕ) (tool : String) (full : Bytes)
    → IsSound s
    → Map.lookup id s.entries ≡ none
    → default_max_output_chars < length full
    → later ≤ now + cache_entry_ttl
    → (cache_id_of (maybe_cache_result parse s id now tool (text full)).1 ≡ some id)
      × (get (maybe_cache_result parse s id now tool (text full)).0 later id
          ≡ some (record { id = id; tool = tool; content = full; created_at = now }))
unfolding maybe_cache_result cache_id_of
maybe_cache_result-get parse s id now later tool full i fresh long soon =
    let big = lt→leb-false (length full) default_max_output_chars long in
    (
      rw big (elim (Option-cases (parse full)) [
        | inl e ↦ rw (e, cache_id_of)
        | inr (o, e) ↦ rw (e, cache_id_of)
      ]),
      rw big (
          get-put s id now later tool full i fresh
          ∙ rw (le→ltb-false (now + cache_entry_ttl) later soon)),
    )

-- A text of at most 8000 bytes passes unchanged, and so does the store.
pub maybe_cache_result-short :
    {Object : Type 0} (parse : Bytes → Option Object) (s : OutputStore) (id : String) (now : ℕ)
    (tool : String) (full : Bytes)
    → length full ≤ default_max_output_chars
    → maybe_cache_result parse s id now tool (text full) ≡ (s, as_is (text full))
unfolding maybe_cache_result
maybe_cache_result-short parse s id now tool full short =
    rw (le→leb (length full) default_max_output_chars short)
