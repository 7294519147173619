-- ===== src/Paging.antt =====
-- internal/server/server.go `normalizePagination` and `clampPage`, and how the list tools of
-- internal/server/read.go use them: the window of a list that one page shows.
-- `getGlobals` of internal/server/types.go cuts its window by hand, without these checks.
pub mod Window
pub mod Walk
mod Tests
use ida_pilot.Common.{ℕ, ◌+◌, ◌-◌, ◌<◌, Bool, List, ltb, if◌then◌else◌, slice, length, drop, take}
use ida_pilot.Common.Int.{ℤ, pos, negsuc, is_neg, is_nonpos, to_ℕ}

abbrev pub default_page_limit : ℕ
default_page_limit = 1000

abbrev pub max_page_limit : ℕ
max_page_limit = 10000

pub data PageError : Type 0 where
  negative_offset : PageError
  limit_too_large : PageError

pub data Result {ℓ} (A : Type ℓ) : Type ℓ where
  ok : A → Result A
  err : PageError → Result A

-- A limit of zero or less means the default.
unfoldable pub effective_limit : ℤ → ℕ
effective_limit limit = if is_nonpos limit then default_page_limit else to_ℕ limit

unfoldable pub normalize_pagination : ℤ → ℤ → Result (ℕ × ℕ)
unfolding effective_limit
normalize_pagination offset limit =
    if is_neg offset
    then err negative_offset
    else if ltb max_page_limit (effective_limit limit)
    then err limit_too_large
    else ok (to_ℕ offset, effective_limit limit)

unfoldable pub clamp_window : ℕ → ℕ × ℕ → ℕ × ℕ
clamp_window total (offset, limit) =
    let start = if ltb total offset then total else offset in
    let stop = if ltb total (start + limit) then total else start + limit in (start, stop)

unfoldable pub clamp_page : ℤ → ℤ → ℕ → Result (ℕ × ℕ)
unfolding normalize_pagination clamp_window
clamp_page offset limit total = elim (normalize_pagination offset limit) [
  | ok w ↦ ok (clamp_window total w)
  | err e ↦ err e
]

-- `xs[offset:end]` with the two indices of `clampPage`, and the offset that the header shows.
unfoldable pub cut {ℓ} : {A : Type ℓ} → Result (ℕ × ℕ) → List A → Result (List A × ℕ)
cut (ok (start, stop)) xs = ok (slice start stop xs, start)
cut (err e) xs = err e

unfoldable pub page {ℓ} : {A : Type ℓ} → ℤ → ℤ → List A → Result (List A × ℕ)
unfolding cut
page offset limit xs = cut (clamp_page offset limit (length xs)) xs

-- A slice expression out of range panics.
pub data Sliced {ℓ} (A : Type ℓ) : Type ℓ where
  panics : Sliced A
  shows : A → Sliced A

-- The window of `getGlobals`: the offset is clamped from above only.
unfoldable pub globals_page {ℓ} : {A : Type ℓ} → ℤ → ℤ → List A → Sliced (List A × ℕ)
globals_page (negsuc n) limit globals = panics
globals_page (pos n) limit globals =
    let total = length globals in
    let offset = if ltb total n then total else n in
    let rest = drop offset globals in
    let wanted = if is_nonpos limit then default_page_limit else to_ℕ limit in
    let shown = if ltb (length rest) wanted then length rest else wanted in
    shows (take shown rest, offset)
