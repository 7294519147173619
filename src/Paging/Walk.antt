-- ===== src/Paging/Walk.antt =====
-- Reading a list page by page, as the header of each page tells the client to: the next request asks
-- for the offset behind the page that it got.
use ida_pilot.Common.{
  ap, ◌∙◌, sym, take-min, ℕ, suc, zero, ◌+◌, ◌-◌, ◌<◌, ◌≤◌, ◌≡◌, Bool, List, ◌++◌, ltb,
  if◌then◌else◌, length, drop, take, arith, min, length-take, length-drop, Bool-cases, inl, inr,
  take-append-drop-length, drop-min, drop-drop, take_of_length-le, ltb-false→le, ltb→lt,
}
use ida_pilot.Common.Int.{ℤ, pos, negsuc}
use ida_pilot.Paging.{
  Result, ok, err, clamp_page, effective_limit, clamp_window, max_page_limit, cut, page,
}

-- `formatListHeader` names a next offset when `offset + shown < total`, and only then.
unfoldable pub next_offset : ℕ → ℕ → ℕ → Bool × ℕ
next_offset total offset shown = (ltb (offset + shown) total, offset + shown)

-- What becomes of the client's loop: it has read a list, it was refused a page, or its fuel ran out.
pub data Walked {ℓ} (A : Type ℓ) : Type ℓ where
  read : List A → Walked A
  refused : Walked A
  unfinished : Walked A

unfoldable pub prepend {ℓ} : {A : Type ℓ} → List A → Walked A → Walked A
prepend shown (read rest) = read (shown ++ rest)
prepend shown refused = refused
prepend shown unfinished = unfinished

-- What the client does with one page, `more` being the rest of its loop.
unfoldable pub collect {ℓ} : {A : Type ℓ} → Result (List A × ℕ) → ℕ → (ℕ → Walked A) → Walked A
unfolding prepend next_offset
collect (err e) total more = refused
collect (ok (shown, start)) total more =
    let rest = prepend shown (more (next_offset total start (length shown)).1) in
    if (next_offset total start (length shown)).0 then rest else read shown

-- The client's loop, with fuel: the entries it collects from an offset on.
unfoldable pub walk {ℓ} : {A : Type ℓ} → ℕ → ℤ → ℕ → List A → Walked A
unfolding collect
walk zero limit offset xs = unfinished
walk (suc fuel) limit offset xs =
    collect (page (pos offset) limit xs) (length xs) (λ next. walk fuel limit next xs)

positive : (limit : ℤ) → 0 < effective_limit limit
unfolding effective_limit
positive (pos n) = ground arith
positive (negsuc n) = omega arith

clamped :
    (limit : ℤ) (offset total : ℕ)
    → effective_limit limit ≤ max_page_limit
    → clamp_page (pos offset) limit total
      ≡ ok (min offset total, min (min offset total + effective_limit limit) total)
unfolding clamp_page clamp_window
clamped limit offset total fits = ground arith

module _ {ℓ} {A : Type ℓ} (limit : ℤ) (fits : effective_limit limit ≤ max_page_limit) where
  page_ok :
      (offset : ℕ) (xs : List A)
      → page (pos offset) limit xs
        ≡ ok (
          take (effective_limit limit) (drop (min offset (length xs)) xs),
          min offset (length xs),
        )
  unfolding page
  page_ok offset xs =
      let start : ℕ = min offset (length xs) in
      let n : ℕ = effective_limit limit in
      let width : min (start + n) (length xs) - start ≡ min n (length (drop start xs)) =
        omega (arith, length-drop start xs) in
      ap (λ r. cut r xs) (clamped limit offset (length xs) fits)
      ∙ ap (λ k. ok (take k (drop start xs), start)) width
      ∙ ap (λ l. ok (l, start)) (take-min n (drop start xs))

  -- One request, where the loop behind it reads the rest.
  collect_from :
      (offset : ℕ) (xs : List A) (more : ℕ → Walked A)
      → ((next : ℕ) → offset < next → next < length xs → more next ≡ read (drop next xs))
      → collect (page (pos offset) limit xs) (length xs) more ≡ read (drop offset xs)
  unfolding collect
  collect_from offset xs more ih =
      let start : ℕ = min offset (length xs) in
      let shown : List A = take (effective_limit limit) (drop start xs) in
      let rest : List A = drop start xs in
      let whole : drop offset xs ≡ rest = sym (drop-min offset xs) in
      let size : length shown ≡ min (effective_limit limit) (length xs - start) =
        length-take (effective_limit limit) rest
        ∙ ap (min (effective_limit limit)) (length-drop start xs) in
      let some_left = positive limit in
      rw (page_ok offset xs) (elim (Bool-cases (ltb (start + length shown) (length xs))) [
        | inl left ↦
            let next : ℕ = start + length shown in
            let below = ltb→lt next (length xs) left in
            rw (left, ih next (omega (arith, below, size)) below)
              (ap read (
                ap (◌++◌ shown) (sym (drop-drop (length shown) start xs))
                ∙ take-append-drop-length (effective_limit limit) rest
                ∙ sym whole))
        | inr last ↦
            let all : length rest ≤ effective_limit limit = omega (
              arith,
              ltb-false→le (start + length shown) (length xs) last,
              size,
              length-drop start xs,
            ) in
            rw last (ap read (take_of_length-le (effective_limit limit) rest all ∙ sym whole))
      ])

  -- From any offset on, with a request for each entry that is left and one more, the walk ends and has
  -- read every entry from there on, in order and once.
  pub walk_from :
      (fuel offset : ℕ) (xs : List A)
      → length xs ≤ offset + fuel
      → walk (suc fuel) limit offset xs ≡ read (drop offset xs)
  unfolding walk
  walk_from zero offset xs h =
      collect_from offset xs (λ next. walk zero limit next xs) (λ next a b. absurd (omega arith))
  walk_from (suc fuel) offset xs h =
      collect_from offset xs (λ next. walk (suc fuel) limit next xs)
        (λ next a b. walk_from fuel next xs (omega arith))

  -- So a client that follows the offsets of the headers from 0 on reads the whole list, and stops.
  pub walk_all : (xs : List A) → walk (suc (length xs)) limit 0 xs ≡ read xs
  walk_all xs = walk_from (length xs) 0 xs (omega arith)
