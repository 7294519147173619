-- ===== src/Lists/Filters.antt =====
-- What the list tools show: the filters, one after the other, are one test of each item.
use ida_pilot.Common.{
  ◌≡◌, ◌∙◌, refl, sym, ap, Bool, true, false, not, ◌&&◌, List, [], ◌∷◌, Option, none, some, length,
  keep, arith, if◌then◌else◌,
}
use ida_pilot.Common.Int.{ℤ}
use ida_pilot.Text.{Text, codes}
use ida_pilot.Paging.{page}
use ida_pilot.Cache.{
  SessionCache, Fetched, fetched, loaded, load_cached, load_locked, store_fetched,
}
use ida_pilot.Requests.{GetFunctionsRequest, GetImportsRequest}
use ida_pilot.Lists.{
  Library, is_auto_named, compile_regex, match_module, Listed, items_of, keep_matching,
  filter_regex, filter_module, filter_named, of_page, show_page, answer, get_functions, get_imports,
}

-- Whether a text matches a pattern, if there is one.
abbrev pub fits : Option (Text → Bool) → Text → Bool
fits none t = true
fits (some matches) t = matches t

module _ {Item : Type 0} where
  keep-keep : (p q : Item → Bool) (xs : List Item) → keep p (keep q xs) ≡ keep (λ x. q x && p x) xs
  keep-keep p q [] = refl
  keep-keep p q (x ∷ xs) = ground (arith, keep-keep p q xs)

  keep_all : (xs : List Item) → keep (λ x. true) xs ≡ xs
  keep_all [] = refl
  keep_all (x ∷ xs) = ap (◌∷◌ x) (keep_all xs)

  keep_matching-keep :
      (name : Item → Text) (m : Option (Text → Bool)) (xs : List Item)
      → keep_matching name m xs ≡ keep (λ x. fits m (name x)) xs
  unfolding keep_matching
  keep_matching-keep name none xs = sym (keep_all xs)
  keep_matching-keep name (some matches) xs = refl

  filter_regex-keep :
      (lib : Library) (name : Item → Text) (expr : Text) (cs : Bool) (m : Option (Text → Bool))
      (xs : List Item)
      → compile_regex lib expr cs ≡ some m
      → filter_regex lib name expr cs xs ≡ some (keep (λ x. fits m (name x)) xs)
  unfolding filter_regex
  filter_regex-keep lib name expr cs m xs compiled =
      rw compiled (ap some (keep_matching-keep name m xs))

  -- The functions that a request asks for.
  abbrev pub selects_function :
      (Item → Text) → GetFunctionsRequest → Option (Text → Bool) → Item → Bool
  selects_function name q m x =
      (if q.named_only then not (is_auto_named (name x)) else true) && fits m (name x)

  -- The imports that a request asks for.
  abbrev pub selects_import :
      Library
      → (name module_of : Item → Text) → GetImportsRequest
      → Option (Text → Bool)
      → Item
      → Bool
  selects_import lib name module_of q m x =
      match_module lib (module_of x) (codes q.of_module) q.case_sens && fits m (name x)

  filter_named-keep :
      (name : Item → Text) (b : Bool) (xs : List Item)
      → filter_named name b xs ≡ keep (λ x. if b then not (is_auto_named (name x)) else true) xs
  unfolding filter_named
  filter_named-keep name true xs = refl
  filter_named-keep name false xs = sym (keep_all xs)

  filter_module-keep :
      (lib : Library) (module_of : Item → Text) (filter : Text) (cs : Bool) (xs : List Item)
      → filter_module lib module_of filter cs xs
        ≡ keep (λ x. match_module lib (module_of x) filter cs) xs
  unfolding filter_module match_module
  filter_module-keep lib module_of [] cs xs = sym (keep_all xs)
  filter_module-keep lib module_of (c ∷ filter) cs xs = refl

  -- The page of a list, as a tool shows it.
  abbrev pub page_of : ℤ → ℤ → List Item → Listed Item
  page_of offset limit ys = of_page (length ys) (page offset limit ys)

  filter_functions :
      (lib : Library) (name : Item → Text) (q : GetFunctionsRequest) (m : Option (Text → Bool))
      (xs : List Item)
      → compile_regex lib (codes q.regex) q.case_sens ≡ some m
      → filter_regex lib name (codes q.regex) q.case_sens (filter_named name q.named_only xs)
        ≡ some (keep (selects_function name q m) xs)
  filter_functions lib name q m xs compiled =
      filter_regex-keep lib name (codes q.regex) q.case_sens m (filter_named name q.named_only xs)
        compiled
      ∙ ap (λ l. some (keep (λ x. fits m (name x)) l)) (filter_named-keep name q.named_only xs)
      ∙ ap some (
          keep-keep (λ x. fits m (name x))
            (λ x. if q.named_only then not (is_auto_named (name x)) else true) xs)

  filter_imports :
      (lib : Library) (name module_of : Item → Text) (q : GetImportsRequest)
      (m : Option (Text → Bool)) (xs : List Item)
      → compile_regex lib (codes q.regex) q.case_sens ≡ some m
      → filter_regex lib name
          (codes q.regex)
          q.case_sens
          (filter_module lib module_of (codes q.of_module) q.case_sens xs)
        ≡ some (keep (selects_import lib name module_of q m) xs)
  filter_imports lib name module_of q m xs compiled =
      filter_regex-keep lib name (codes q.regex) q.case_sens m
        (filter_module lib module_of (codes q.of_module) q.case_sens xs) compiled
      ∙ ap (λ l. some (keep (λ x. fits m (name x)) l))
          (filter_module-keep lib module_of (codes q.of_module) q.case_sens xs)
      ∙ ap some (
          keep-keep (λ x. fits m (name x))
            (λ x. match_module lib (module_of x) (codes q.of_module) q.case_sens) xs)

-- Where the items of a list are: in its slot of the cache, or at the worker, for an empty slot.
abbrev pub Has :
    {Item World : Type 0}
    → (World → World × Fetched Item)
    → Option (List Item)
    → World
    → List Item
    → Type 0
Has loader none w xs = (loader w).1 ≡ fetched (some xs)
Has loader (some ys) w xs = ys ≡ xs

-- The worker is asked for an empty slot only.
abbrev pub asked :
    {Item World : Type 0} → (World → World × Fetched Item) → Option (List Item) → World → World
asked loader none w = (loader w).0
asked loader (some ys) w = w

module _ {Item World : Type 0} where
  loads :
      (loader : World → World × Fetched Item) (slot : Option (List Item)) (w : World)
      (xs : List Item)
      → Has loader slot w xs
      → (hit : Bool) × (load_cached loader slot slot w
          ≡ ((some xs, asked loader slot w), loaded (some xs) hit))
  unfolding load_cached load_locked store_fetched
  loads loader none w xs h = (false, rw h refl)
  loads loader (some ys) w xs h = (true, rw h refl)

module _ {Item World : Type 0} (lib : Library) (name : Item → Text)
    (loader : World → World × Fetched Item) (c : SessionCache Item) (w : World) (xs : List Item)
    (m : Option (Text → Bool)) where
  -- Where the functions are cached, or are not and the worker sends them, `get_functions` shows a page of
  -- those that the request selects, in their order; it keeps the whole list, and asks the worker only
  -- if it is not cached.
  pub get_functions-selects :
      (q : GetFunctionsRequest)
      → compile_regex lib (codes q.regex) q.case_sens ≡ some m
      → Has loader c.functions w xs
      → get_functions lib name loader q (c, w) ≡ (
        (record c { functions = some xs }, asked loader c.functions w),
        page_of q.offset q.limit (keep (selects_function name q m) xs),
      )
  unfolding get_functions answer items_of show_page
  get_functions-selects q compiled h =
      rw ((loads loader c.functions w xs h).1, filter_functions lib name q m xs compiled) refl

  -- The same for `get_imports`, which selects by the module and by the expression.
  pub get_imports-selects :
      (module_of : Item → Text) (q : GetImportsRequest)
      → compile_regex lib (codes q.regex) q.case_sens ≡ some m
      → Has loader c.imports w xs
      → get_imports lib name module_of loader q (c, w) ≡ (
        (record c { imports = some xs }, asked loader c.imports w),
        page_of q.offset q.limit (keep (selects_import lib name module_of q m) xs),
      )
  unfolding get_imports answer items_of show_page
  get_imports-selects module_of q compiled h =
      rw ((loads loader c.imports w xs h).1, filter_imports lib name module_of q m xs compiled) refl
