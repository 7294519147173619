-- ===== src/Cache/Fetching.antt =====
-- internal/server/cache.go: `fetchAllStrings`, the loop that reads the strings of a database from the
-- worker in chunks of 1000.
use ida_pilot.Common.{
  ℕ, zero, suc, ◌+◌, ◌-◌, ◌*◌, ◌/◌, ◌%◌, ◌^◌, ◌<◌, ◌≤◌, ◌≡◌, ◌∙◌, refl, ap, min, true, false, List,
  [], ◌∷◌, ◌++◌, Option, none, some, ltb, eqb, if◌then◌else◌, length, take, drop, arith,
  length-take, length-drop, take-nil, Bool-cases, inl, inr, take_of_length-le,
}
use ida_pilot.Cache.{Fetched, fails, fetched}

-- The worker's reply to one `GetStrings`, with the total that it names.
pub data ChunkReply {ℓ} (A : Type ℓ) : Type ℓ where
  rpc_fails : ChunkReply A
  ida_fails : ChunkReply A
  chunk : List A → ℕ → ChunkReply A

abbrev pub chunk_size : ℕ
chunk_size = 1000

-- A report of progress: how many strings there are, and of how many.
abbrev pub Report : Type 0
Report = ℕ × ℕ

-- `append` of nothing to a nil slice is nil.
unfoldable pub slice_of {ℓ} : {A : Type ℓ} → List A → Option (List A)
slice_of [] = none
slice_of (x ∷ xs) = some (x ∷ xs)

abbrev pub with_report {ℓ} :
    {A : Type ℓ} → Report → Option (Fetched A × List Report) → Option (Fetched A × List Report)
with_report r none = none
with_report r (some (f, rs)) = some (f, r ∷ rs)

-- One round, from the reply on; `more` is the next round.
unfoldable pub take_chunk {ℓ} :
    {A : Type ℓ}
    → ChunkReply A
    → ℕ
    → List A
    → ℕ
    → (ℕ → List A → ℕ → Option (Fetched A × List Report))
    → Option (Fetched A × List Report)
unfolding slice_of
take_chunk rpc_fails offset all total more = some (fails, (length all, total) ∷ [])
take_chunk ida_fails offset all total more = some (fails, (length all, total) ∷ [])
take_chunk (chunk items named) offset all total more =
    let all' = all ++ items in
    let total' = if eqb total 0 then named else total in
    let report : Report = (length all', total') in
    with_report report (
      if ltb (length items) chunk_size
      then some (fetched (slice_of all'), report ∷ [])
      else more (offset + length items) all' total')

-- The loop, with fuel; `none` means that the fuel ran out. The offset goes to the worker as an `int32`,
-- given here by its bits.
unfoldable pub fetch_strings {ℓ} :
    {A : Type ℓ} → ℕ → (ℕ → ChunkReply A) → ℕ → List A → ℕ → Option (Fetched A × List Report)
unfolding take_chunk
fetch_strings zero rpc offset all total = none
fetch_strings (suc fuel) rpc offset all total =
    take_chunk (rpc (offset % 2 ^ 32)) offset all total (fetch_strings fuel rpc)

unfoldable pub fetch_all_strings {ℓ} :
    {A : Type ℓ} → ℕ → (ℕ → ChunkReply A) → Option (Fetched A × List Report)
unfolding fetch_strings
fetch_all_strings fuel rpc = fetch_strings fuel rpc 0 [] 0

-- A worker that serves a list: the part from the offset on, as far as one chunk goes.
abbrev pub serve {ℓ} : {A : Type ℓ} → List A → ℕ → ChunkReply A
serve xs offset = chunk (take chunk_size (drop offset xs)) (length xs)

-- What the loop returns, apart from its reports.
abbrev pub outcome {ℓ} : {A : Type ℓ} → Option (Fetched A × List Report) → Option (Fetched A)
outcome none = none
outcome (some (f, rs)) = some f

module _ {ℓ} {A : Type ℓ} where
  outcome-with_report :
      (r : Report) (o : Option (Fetched A × List Report)) → outcome (with_report r o) ≡ outcome o
  outcome-with_report r none = refl
  outcome-with_report r (some x) = refl

  take_chunk-last :
      (items all : List A) (named offset total : ℕ)
      (more : ℕ → List A → ℕ → Option (Fetched A × List Report))
      → ltb (length items) chunk_size ≡ true
      → outcome (take_chunk (chunk items named) offset all total more)
        ≡ some (fetched (slice_of (all ++ items)))
  unfolding take_chunk
  take_chunk-last items all named offset total more h = rw h refl

  take_chunk-full :
      (items all : List A) (named offset total : ℕ)
      (more : ℕ → List A → ℕ → Option (Fetched A × List Report))
      → ltb (length items) chunk_size ≡ false
      → outcome (take_chunk (chunk items named) offset all total more)
        ≡ outcome
            (more (offset + length items) (all ++ items) (if eqb total 0 then named else total))
  unfolding take_chunk
  take_chunk-full items all named offset total more h = rw h (outcome-with_report _ _)

  take-append-take : (n m : ℕ) (xs : List A) → take n xs ++ take m (drop n xs) ≡ take (n + m) xs
  take-append-take zero m xs = ap (λ k. take k xs) (omega arith)
  take-append-take (suc n) m [] =
      let e : suc n + m ≡ suc (n + m) = omega arith in rw (e, take-nil m) refl
  take-append-take (suc n) m (x ∷ xs) =
      let e : suc n + m ≡ suc (n + m) = omega arith in rw (e, take-append-take n m xs) refl

module _ {ℓ} {A : Type ℓ} (xs : List A) (small : length xs < 2 ^ 31) where
  loop :
      (fuel offset total : ℕ)
      → offset ≤ length xs
      → length xs - offset < chunk_size * fuel
      → outcome (fetch_strings fuel (serve xs) offset (take offset xs) total)
        ≡ some (fetched (slice_of xs))
  unfolding fetch_strings
  loop zero offset total h enough = absurd (omega arith)
  loop (suc fuel) offset total h enough =
      let bits : offset % 2 ^ 32 ≡ offset = omega arith in
      let all : List A = take offset xs in
      let items : List A = take chunk_size (drop offset xs) in
      let size : length items ≡ min chunk_size (length xs - offset) =
        length-take chunk_size (drop offset xs) ∙ ap (min chunk_size) (length-drop offset xs) in
      let joined : all ++ items ≡ take (offset + chunk_size) xs =
        take-append-take offset chunk_size xs in
      let next : ℕ → List A → ℕ → Option (Fetched A × List Report) =
        fetch_strings fuel (serve xs) in
      ap (λ o. outcome (take_chunk (serve xs o) offset all total next)) bits
      ∙ elim (Bool-cases (ltb (length items) chunk_size)) [
        | inl last ↦
            take_chunk-last items all (length xs) offset total next last
            ∙ ap (λ l. some (fetched (slice_of l)))
                (joined ∙ take_of_length-le (offset + chunk_size) xs (ground (arith, size)))
        | inr full ↦
            let step : length items ≡ chunk_size = ground (arith, size) in
            take_chunk-full items all (length xs) offset total next full
            ∙ ap
                (λ k.
                  outcome
                    (next (offset + k) (all ++ items) (if eqb total 0 then length xs else total)))
                step
            ∙ ap
                (λ l.
                  outcome (next (offset + chunk_size) l (if eqb total 0 then length xs else total)))
                joined
            ∙ loop fuel (offset + chunk_size) (if eqb total 0 then length xs else total)
                (omega (arith, size, step)) (omega (arith, size, step))
      ]

  -- With fuel for the full chunks alone the loop does not end.
  too_short :
      (fuel offset total : ℕ)
      → offset + chunk_size * fuel ≤ length xs
      → outcome (fetch_strings fuel (serve xs) offset (take offset xs) total) ≡ none
  unfolding fetch_strings
  too_short zero offset total h = refl
  too_short (suc fuel) offset total h =
      let bits : offset % 2 ^ 32 ≡ offset = omega arith in
      let all : List A = take offset xs in
      let items : List A = take chunk_size (drop offset xs) in
      let step : length items ≡ chunk_size =
        length-take chunk_size (drop offset xs)
        ∙ ap (min chunk_size) (length-drop offset xs)
        ∙ omega arith in
      let full : ltb (length items) chunk_size ≡ false = ground (arith, step) in
      let joined : all ++ items ≡ take (offset + chunk_size) xs =
        take-append-take offset chunk_size xs in
      let next : ℕ → List A → ℕ → Option (Fetched A × List Report) =
        fetch_strings fuel (serve xs) in
      let total' : ℕ = if eqb total 0 then length xs else total in
      ap (λ o. outcome (take_chunk (serve xs o) offset all total next)) bits
      ∙ take_chunk-full items all (length xs) offset total next full
      ∙ ap (λ k. outcome (next (offset + k) (all ++ items) total')) step
      ∙ ap (λ l. outcome (next (offset + chunk_size) l total')) joined
      ∙ too_short fuel (offset + chunk_size) total' (omega arith)

  -- From a worker that serves a list of fewer than 2^31 strings in chunks, the loop reads the whole
  -- list, in order and once, in one call for each full thousand and one more, and in no fewer.
  pub fetch_all_strings-serve :
      (outcome (fetch_all_strings (length xs / chunk_size + 1) (serve xs))
        ≡ some (fetched (slice_of xs)))
      × (outcome (fetch_all_strings (length xs / chunk_size) (serve xs)) ≡ none)
  unfolding fetch_all_strings
  fetch_all_strings-serve = (
    loop (length xs / chunk_size + 1) 0 0 (omega arith) (omega arith),
    too_short (length xs / chunk_size) 0 0 (omega arith),
  )
