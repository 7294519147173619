-- ===== src/Paging/Window.antt =====
-- The windows of `clampPage`: always inside the list, and where they fail.
use ida_pilot.Common.{
  ◌↔◌, inl, inr, Bool-cases, ltb→lt, sym, take_of_length-le, subst, ap, ◌∙◌, take-min, ℕ, ◌+◌, ◌-◌,
  ◌<◌, ◌≤◌, ◌≡◌, refl, true, false, List, ltb, if◌then◌else◌, slice, length, drop, take, arith, min,
  length-take, length-drop,
}
use ida_pilot.Common.Int.{ℤ, pos, negsuc, is_neg, to_ℕ}
use ida_pilot.Paging.{
  Result, ok, err, PageError, negative_offset, limit_too_large, clamp_page, effective_limit,
  max_page_limit, cut, page, globals_page, panics, shows,
}

-- What `clampPage` returns, on every input: an error for a negative offset, an error for a limit over
-- the maximum, and otherwise the window from min(offset, total) on that holds as many entries as the
-- limit allows and the list has, at most 10000.
abbrev pub Clamped : ℤ → ℤ → ℕ → Result (ℕ × ℕ) → Type 0
Clamped offset limit total (err negative_offset) = is_neg offset ≡ true
Clamped offset limit total (err limit_too_large) =
    (is_neg offset ≡ false) × (max_page_limit < effective_limit limit)
Clamped offset limit total (ok (start, stop)) =
    (is_neg offset ≡ false)
    × (start ≡ min (to_ℕ offset) total)
    × (stop ≡ min (start + effective_limit limit) total)
    × (start ≤ stop)
    × (stop ≤ total)
    × (stop ≤ start + max_page_limit)
    × (0 < effective_limit limit)
    × (effective_limit limit ≤ max_page_limit)

-- On every input, `clampPage` does what `Clamped` says.
pub clamp_page-Clamped :
    (offset limit : ℤ) (total : ℕ) → Clamped offset limit total (clamp_page offset limit total)
unfolding clamp_page effective_limit
clamp_page-Clamped (negsuc n) limit total = refl
clamp_page-Clamped (pos n) (negsuc m) total = ground arith
clamp_page-Clamped (pos n) (pos m) total = ground arith

-- A successful `clampPage`, with its facts in a form that needs no case split.
pub clamp_page_ok :
    (offset limit : ℤ) (total start stop : ℕ)
    → clamp_page offset limit total ≡ ok (start, stop)
    → Clamped offset limit total (ok (start, stop))
clamp_page_ok offset limit total start stop h =
    subst (Clamped offset limit total) h (clamp_page-Clamped offset limit total)

-- The window behind a page.
cut_inv {ℓ} :
    {A : Type ℓ} (r : Result (ℕ × ℕ)) (xs shown : List A) (start : ℕ)
    → cut r xs ≡ ok (shown, start)
    → (stop : ℕ) × (r ≡ ok (start, stop)) × (shown ≡ slice start stop xs)
unfolding cut
cut_inv (err e) xs shown start h = absurd (cc)
cut_inv (ok (a, b)) xs shown start h = (b, ground arith, ground arith)

page_window {ℓ} :
    {A : Type ℓ} (offset limit : ℤ) (xs shown : List A) (start : ℕ)
    → page offset limit xs ≡ ok (shown, start)
    → (stop : ℕ) × (clamp_page offset limit (length xs) ≡ ok (start, stop))
      × (shown ≡ slice start stop xs)
unfolding page
page_window offset limit xs shown start h =
    cut_inv (clamp_page offset limit (length xs)) xs shown start h

-- A page is the stretch of the list from its start on, with as many entries as the limit allows and
-- the list still has.
pub page_lem {ℓ} :
    {A : Type ℓ} (offset limit : ℤ) (xs shown : List A) (start : ℕ)
    → page offset limit xs ≡ ok (shown, start)
    → (start ≡ min (to_ℕ offset) (length xs))
      × (shown ≡ take (effective_limit limit) (drop start xs))
      × (length shown ≡ min (effective_limit limit) (length xs - start))
      × (length shown ≤ max_page_limit)
page_lem offset limit xs shown start h =
    let (stop, w, e) = page_window offset limit xs shown start h in
    let c = clamp_page_ok offset limit (length xs) start stop w in
    let n : ℕ = effective_limit limit in
    let size : length shown ≡ min (stop - start) (length xs - start) =
      ap length e
      ∙ length-take (stop - start) (drop start xs)
      ∙ ap (min (stop - start)) (length-drop start xs) in
    let width : stop - start ≡ min n (length (drop start xs)) =
      omega (arith, c, length-drop start xs) in
    (
      c.1,
      e ∙ ap (λ k. take k (drop start xs)) width ∙ take-min n (drop start xs),
      omega (arith, c, size),
      omega (arith, c, size),
    )

-- `getGlobals` panics on exactly the requests that the other list tools refuse for their negative offset.
pub globals_page-panics_iff {ℓ} :
    {A : Type ℓ} (offset limit : ℤ) (xs : List A)
    → (globals_page offset limit xs ≡ panics) ↔ (page offset limit xs ≡ err negative_offset)
unfolding globals_page page clamp_page cut
globals_page-panics_iff (negsuc n) limit xs = ((λ h. refl), (λ h. refl))
globals_page-panics_iff (pos n) limit xs = ((λ h. absurd (cc)), (λ h. absurd (ground arith)))

take_clamped {ℓ} :
    {A : Type ℓ} (n : ℕ) (xs : List A)
    → take (if ltb (length xs) n then length xs else n) xs ≡ take n xs
take_clamped n xs = elim (Bool-cases (ltb (length xs) n)) [
  | inl e ↦ rw e (
      take_of_length-le (length xs) xs (omega arith)
      ∙ sym (take_of_length-le n xs (omega (arith, ltb→lt (length xs) n e))))
  | inr e ↦ rw e
]

clash {ℓ} : {A : Type ℓ} {a : A} {e : PageError} → Result.err e ≡ ok a → ⊥
clash h = cc

-- On every request that the other list tools accept, `getGlobals` shows the same entries from the same
-- offset.
pub globals_page-page {ℓ} :
    {A : Type ℓ} (offset limit : ℤ) (xs shown : List A) (start : ℕ)
    → page offset limit xs ≡ ok (shown, start)
    → globals_page offset limit xs ≡ shows (shown, start)
unfolding globals_page effective_limit
globals_page-page (negsuc n) limit xs shown start h =
    absurd (clash (sym ((globals_page-panics_iff (negsuc n) limit xs).0 refl) ∙ h))
globals_page-page (pos n) limit xs shown start h =
    let f = page_lem (pos n) limit xs shown start h in
    let from : (if ltb (length xs) n then length xs else n) ≡ start = ground (arith, f.0) in
    rw from
      (ap (λ l. shows (l, start)) (take_clamped (effective_limit limit) (drop start xs) ∙ sym f.1))
