-- ===== src/Paging/Tests.antt =====
-- The theorems of the pages on a list of three names.
use ida_pilot.Common.{◌≡◌, ◌≤◌, refl, String, List, [], ◌∷◌, arith}
use ida_pilot.Common.Int.{pos}
use ida_pilot.Paging.{
  ok, clamp_page, normalize_pagination, effective_limit, clamp_window, cut, page, max_page_limit,
}
use ida_pilot.Paging.Window.{Clamped, clamp_page-Clamped}
use ida_pilot.Paging.Walk.{walk, walk_all, read}

abbrev names : List String
names = "main" ∷ "init" ∷ "fini" ∷ []

clamp_page-Clamped_example : Clamped (pos 2) (pos 5) 3 (clamp_page (pos 2) (pos 5) 3)
clamp_page-Clamped_example = clamp_page-Clamped (pos 2) (pos 5) 3

second_page : page (pos 1) (pos 1) names ≡ ok ("init" ∷ [], 1)
unfolding page cut clamp_page normalize_pagination effective_limit clamp_window
second_page = refl

fits : effective_limit (pos 2) ≤ max_page_limit
unfolding effective_limit
fits = omega arith

-- In pages of two.
walk_all_example : walk 4 (pos 2) 0 names ≡ read names
walk_all_example = walk_all (pos 2) fits names
