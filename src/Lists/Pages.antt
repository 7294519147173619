-- ===== src/Lists/Pages.antt =====
-- Reading a list tool page by page, as the headers of its pages tell the client to.
use mathlib.Core.Path.{fun_ext}
use ida_pilot.Common.{
  ◌≡◌, ◌∙◌, refl, sym, ap, ℕ, zero, suc, ◌≤◌, Bool, List, Option, some, length, keep, if◌then◌else◌,
  Bool-cases, inl, inr,
}
use ida_pilot.Common.Int.{ℤ, pos}
use ida_pilot.Text.{Text, codes}
use ida_pilot.Paging
use ida_pilot.Paging.{page, effective_limit, max_page_limit}
use ida_pilot.Paging.Walk.{
  Walked, read, refused, unfinished, next_offset, prepend, collect, walk, walk_all,
}
use ida_pilot.Cache.{SessionCache, Fetched}
use ida_pilot.Requests.{GetFunctionsRequest}
use ida_pilot.Lists.{
  Library, compile_regex, Listed, load_failed, bad_regex, bad_page, listed, of_page, get_functions,
}
use ida_pilot.Lists.Filters.{page_of, selects_function, Has, asked, get_functions-selects}

module _ {Item State : Type 0} where
  -- What the client does with a page, `more` being the rest of its loop from an offset and a state on.
  unfoldable pub follow : Listed Item → State → (ℕ → State × Walked Item) → State × Walked Item
  unfolding next_offset
  follow (listed shown total start) s more =
      let next = next_offset total start (length shown) in
      let rest = more next.1 in if next.0 then (rest.0, prepend shown rest.1) else (s, read shown)
  follow load_failed s more = (s, refused)
  follow bad_regex s more = (s, refused)
  follow (bad_page e) s more = (s, refused)

  -- The client's loop, with fuel: it calls the tool at an offset.
  unfoldable pub walk_tool : (ℕ → State → State × Listed Item) → ℕ → ℕ → State → State × Walked Item
  unfolding follow
  walk_tool tool zero offset s = (s, unfinished)
  walk_tool tool (suc fuel) offset s =
      let r = tool offset s in follow r.1 r.0 (λ next. walk_tool tool fuel next r.0)

module _ {Item State : Type 0} where
  follow-collect :
      (total : ℕ) (r : Paging.Result (List Item × ℕ)) (s : State) (more : ℕ → Walked Item)
      → follow (of_page total r) s (λ next. (s, more next)) ≡ (s, collect r total more)
  unfolding follow of_page collect
  follow-collect total (Paging.err e) s more = refl
  follow-collect total (Paging.ok (shown, start)) s more =
      elim (Bool-cases (next_offset total start (length shown)).0) [
        | inl e ↦ rw e refl
        | inr e ↦ rw e refl
      ]

  -- Where every call leaves the state and shows a page of one list, the loop is the walk of that list.
  walk_tool-walk :
      (tool : ℕ → State → State × Listed Item) (limit : ℤ) (ys : List Item) (s : State)
      → ((offset : ℕ) → tool offset s ≡ (s, page_of (pos offset) limit ys))
      → (fuel offset : ℕ) → walk_tool tool fuel offset s ≡ (s, walk fuel limit offset ys)
  unfolding walk_tool walk
  walk_tool-walk tool limit ys s same zero offset = refl
  walk_tool-walk tool limit ys s same (suc fuel) offset = rw (same offset) (
      ap (follow (page_of (pos offset) limit ys) s)
        (fun_ext (λ next. walk_tool-walk tool limit ys s same fuel next))
      ∙ follow-collect (length ys) (page (pos offset) limit ys) s (λ next. walk fuel limit next ys))

  -- The first call may load the list.
  walk_tool-first :
      (tool : ℕ → State → State × Listed Item) (s t : State) (fuel : ℕ)
      → tool 0 s ≡ tool 0 t
      → walk_tool tool (suc fuel) 0 s ≡ walk_tool tool (suc fuel) 0 t
  unfolding walk_tool
  walk_tool-first tool s t fuel e =
      ap (λ r. follow r.1 r.0 (λ next. walk_tool tool fuel next r.0)) e

module _ {Item World : Type 0} (lib : Library) (name : Item → Text)
    (loader : World → World × Fetched Item) where
  -- The client that reads all pages of `get_functions` with the other fields of its request unchanged.
  abbrev pub read_functions :
      GetFunctionsRequest
      → ℕ
      → SessionCache Item × World
      → (SessionCache Item × World) × Walked Item
  read_functions q fuel s =
      walk_tool (λ offset. get_functions lib name loader (record q { offset = pos offset })) fuel 0
        s

  -- A client that reads the functions page by page, with an expression that compiles and a limit that
  -- is accepted, gets every function that its request selects, in order and once, and stops within as
  -- many calls as these are, plus one. The worker is asked once, or not at all if the list is cached.
  pub read_functions-selects :
      (q : GetFunctionsRequest) (c : SessionCache Item) (w : World) (xs : List Item)
      (m : Option (Text → Bool))
      → effective_limit q.limit ≤ max_page_limit
      → compile_regex lib (codes q.regex) q.case_sens ≡ some m
      → Has loader c.functions w xs
      → let wanted = keep (selects_function name q m) xs in
        read_functions q (suc (length wanted)) (c, w)
        ≡ ((record c { functions = some xs }, asked loader c.functions w), read wanted)
  read_functions-selects q c w xs m small compiled h =
      let wanted : List Item = keep (selects_function name q m) xs in
      let full : SessionCache Item = record c { functions = some xs } in
      let s : SessionCache Item × World = (full, asked loader c.functions w) in
      let tool : ℕ → SessionCache Item × World → (SessionCache Item × World) × Listed Item =
        λ offset. get_functions lib name loader (record q { offset = pos offset }) in
      let same : (offset : ℕ) → tool offset s ≡ (s, page_of (pos offset) q.limit wanted) = λ offset.
        get_functions-selects lib name loader full (asked loader c.functions w) xs m
          (record q { offset = pos offset }) compiled refl in
      let first : tool 0 (c, w) ≡ (s, page_of (pos 0) q.limit wanted) =
        get_functions-selects lib name loader c w xs m (record q { offset = pos 0 }) compiled h in
      walk_tool-first tool (c, w) s (length wanted) (first ∙ sym (same 0))
      ∙ walk_tool-walk tool q.limit wanted s same (suc (length wanted)) 0
      ∙ ap (λ r. (s, r)) (walk_all q.limit small wanted)
