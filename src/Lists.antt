-- ===== src/Lists.antt =====
-- internal/server/read.go: the tools that list functions, imports, exports and strings, from the cached
-- list through the filters to the page; `compileRegex` and `matchModule` of internal/server/server.go.
-- The session is resolved and the loader is a call of the worker. A page is shown with the total and the
-- offset that its header names; progress notifications and the layout of the text are left out.
pub mod Filters
pub mod Pages
mod Tests
use ida_pilot.Common.{
  string_key, ◌==◌, ℕ, String, Bool, true, false, not, ◌||◌, List, [], ◌∷◌, ◌++◌, Option, none,
  some, length, keep, if◌then◌else◌,
}
use ida_pilot.Common.Int.{ℤ}
use mathlib.Core.Option
use ida_pilot.Text.{Text, codes, has_prefix, contains}
use ida_pilot.Paging
use ida_pilot.Paging.{PageError, page}
use ida_pilot.Cache.{SessionCache, Fetched, Loaded, load_error, loaded, load_cached}
use ida_pilot.Requests.{
  GetFunctionsRequest, GetImportsRequest, GetExportsRequest, GetStringsRequest,
}

-- What the tools use of Go's `regexp` and of its Unicode tables.
pub record Library : Type 0 where
  pub compile : Text → Option (Text → Bool)
  pub to_lower : Text → Text

unfoldable pub is_auto_named : Text → Bool
is_auto_named name =
    has_prefix name (codes "sub_")
    || has_prefix name (codes "nullsub_")
    || has_prefix name (codes "j_")
    || has_prefix name (codes "unknown_libname_")

-- An empty expression gives no pattern, which is `some none`; `none` is an error.
unfoldable pub compile_regex : Library → Text → Bool → Option (Option (Text → Bool))
compile_regex lib [] case_sensitive = some none
compile_regex lib (c ∷ expr) case_sensitive =
    Option.map some (lib.compile (if case_sensitive then c ∷ expr else codes "(?i)" ++ c ∷ expr))

unfoldable pub match_module : Library → Text → Text → Bool → Bool
match_module lib name [] case_sensitive = true
match_module lib name (c ∷ filter) case_sensitive =
    if case_sensitive
    then contains name (c ∷ filter)
    else contains (lib.to_lower name) (lib.to_lower (c ∷ filter))

pub data Listed (Item : Type 0) : Type 0 where
  load_failed : Listed Item
  bad_regex : Listed Item
  bad_page : PageError → Listed Item
  listed : (shown : List Item) → (total offset : ℕ) → Listed Item

module _ {Item : Type 0} where
  -- `range` over a nil slice sees no items.
  unfoldable pub items_of : Option (List Item) → List Item
  items_of none = []
  items_of (some xs) = xs

  unfoldable pub keep_matching : (Item → Text) → Option (Text → Bool) → List Item → List Item
  keep_matching name none xs = xs
  keep_matching name (some matches) xs = keep (λ x. matches (name x)) xs

  -- The filter by an expression, where there is one.
  unfoldable pub filter_regex :
      Library → (Item → Text) → Text → Bool → List Item → Option (List Item)
  unfolding compile_regex keep_matching
  filter_regex lib name expr case_sens xs =
      Option.map (λ m. keep_matching name m xs) (compile_regex lib expr case_sens)

  unfoldable pub filter_module : Library → (Item → Text) → Text → Bool → List Item → List Item
  unfolding match_module
  filter_module lib module_of [] case_sens xs = xs
  filter_module lib module_of (c ∷ filter) case_sens xs =
      keep (λ x. match_module lib (module_of x) (c ∷ filter) case_sens) xs

  unfoldable pub filter_named : (Item → Text) → Bool → List Item → List Item
  unfolding is_auto_named
  filter_named name named_only xs =
      if named_only then keep (λ x. not (is_auto_named (name x))) xs else xs

  unfoldable pub of_page : ℕ → Paging.Result (List Item × ℕ) → Listed Item
  of_page total (Paging.ok (shown, start)) = listed shown total start
  of_page total (Paging.err e) = bad_page e

  unfoldable pub show_page : ℤ → ℤ → Option (List Item) → Listed Item
  unfolding of_page
  show_page offset limit none = bad_regex
  show_page offset limit (some filtered) = of_page (length filtered) (page offset limit filtered)

  -- From the load on: `filter` is what the tool does to the list.
  unfoldable pub answer : (List Item → Option (List Item)) → ℤ → ℤ → Loaded Item → Listed Item
  unfolding show_page items_of
  answer filter offset limit load_error = load_failed
  answer filter offset limit (loaded items hit) = show_page offset limit (filter (items_of items))

module _ {Item World : Type 0} (lib : Library) where
  unfoldable pub get_functions :
      (name : Item → Text)
      → (World → World × Fetched Item)
      → GetFunctionsRequest
      → SessionCache Item × World
      → (SessionCache Item × World) × Listed Item
  unfolding answer filter_named filter_regex
  get_functions name loader q (c, w) =
      let r = load_cached loader c.functions c.functions w in
      (
        (record c { functions = r.0.0 }, r.0.1),
        answer
            (λ xs.
              filter_regex lib name (codes q.regex) q.case_sens (filter_named name q.named_only xs))
            q.offset q.limit r.1,
      )

  unfoldable pub get_imports :
      (name module_of : Item → Text)
      → (World → World × Fetched Item)
      → GetImportsRequest
      → SessionCache Item × World
      → (SessionCache Item × World) × Listed Item
  unfolding answer filter_module filter_regex
  get_imports name module_of loader q (c, w) =
      let r = load_cached loader c.imports c.imports w in
      (
        (record c { imports = r.0.0 }, r.0.1),
        answer
            (λ xs.
              filter_regex lib name (codes q.regex) q.case_sens
                (filter_module lib module_of (codes q.of_module) q.case_sens xs))
            q.offset q.limit r.1,
      )

  unfoldable pub get_exports :
      (name : Item → Text)
      → (World → World × Fetched Item)
      → GetExportsRequest
      → SessionCache Item × World
      → (SessionCache Item × World) × Listed Item
  unfolding answer filter_regex
  get_exports name loader q (c, w) =
      let r = load_cached loader c.exports c.exports w in
      (
        (record c { exports = r.0.0 }, r.0.1),
        answer (filter_regex lib name (codes q.regex) q.case_sens) q.offset q.limit r.1,
      )

  unfoldable pub get_strings :
      (value : Item → Text)
      → (World → World × Fetched Item)
      → GetStringsRequest
      → SessionCache Item × World
      → (SessionCache Item × World) × Listed Item
  unfolding answer filter_regex
  get_strings value loader q (c, w) =
      let r = load_cached loader c.strings c.strings w in
      (
        (record c { strings = r.0.0 }, r.0.1),
        answer (filter_regex lib value (codes q.regex) q.case_sens) q.offset q.limit r.1,
      )
