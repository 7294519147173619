-- ===== src/Cache/Entries.antt =====
-- The pseudocode that a session has cached, through every method: what is found under an address.
use ida_pilot.Common.{
  number_key, string_key, ◌==◌, ℕ, ◌≡◌, refl, sym, ap, ◌∙◌, ◌⊎◌, String, Bool, List, [], ◌∷◌,
  Option, none, some, arith, if◌then◌else◌, Option-cases, Bool-cases, inl, inr,
}
use mathlib.Core.Option
use ida_pilot.Common.Map
use ida_pilot.Common.Map.{Map, IsMap, lookup-delete}
use ida_pilot.Decomp
use ida_pilot.Decomp.{
  DecompCache, DecompEntry, new_decomp_cache, max_decomp_cache_entries, delete_where,
}
use ida_pilot.Decomp.Order.{index, Separate}
use ida_pilot.Decomp.Spec.{drop_last, Recent, spec_get, spec_set, keep_where}
use ida_pilot.Decomp.Invariant.{IsWell, new-IsWell, get-IsWell, set-IsWell, delete-IsWell}
use ida_pilot.Decomp.Purge.{delete_where-Purged}
use ida_pilot.Decomp.Refine.{
  view, items, lookup-items, get_refines, set_refines, delete_refines, has_refines,
  delete_where_refines,
}
use ida_pilot.Cache.{get_from, set_in, delete_from, purge_from, prune_from}

-- What is left of an entry when those whose code satisfies `p` are dropped.
abbrev pub unless : (String → Bool) → Option String → Option String
unless p none = none
unless p (some code) = if p code then none else some code

lookup-keep_where :
    (p : String → Bool) (a : ℕ) (m : Recent)
    → IsMap m
    → Map.lookup a (keep_where p m) ≡ unless p (Map.lookup a m)
unfolding Map.lookup
lookup-keep_where p a [] i = refl
lookup-keep_where p a ((b, code) ∷ m) i = ground (
  arith,
  lookup-keep_where p a m i.1,
  i.0,
  number_key.same_iff b a,
  Option-cases (Map.lookup a m),
)

items-IsMap : (f : ℕ → DecompEntry) (l : List ℕ) → Separate f l → IsMap (items f l)
unfolding index
items-IsMap f [] s = tt
items-IsMap f (r ∷ l) s =
    (lookup-items f (f r).addr l ∙ ap (Option.map (λ r. (f r).code)) s.0, items-IsMap f l s.1)

view-IsMap : (d : DecompCache) → IsWell d → IsMap (view d)
view-IsMap d w = items-IsMap d.value d.order w.separate

lookup-spec_get : (a b : ℕ) (m : Recent) → Map.lookup b (spec_get a m) ≡ Map.lookup b m
unfolding spec_get Map.lookup
lookup-spec_get a b m = elim (Option-cases (Map.lookup a m)) [
  | inl miss ↦ rw (miss, spec_get) refl
  | inr (code, hit) ↦ rw (hit, spec_get) (ground (arith, lookup-delete a b m))
]

-- The text that is cached for an address.
unfoldable pub text_of : Option DecompCache → ℕ → Option String
text_of none addr = none
text_of (some d) addr = Map.lookup addr (view d)

abbrev pub Healthy : Option DecompCache → Type 0
Healthy none = Unit
Healthy (some d) = IsWell d

-- A cached text is found, and looking for it leaves every text where it was.
pub get_from-text_of :
    (o : Option DecompCache) (a b : ℕ)
    → Healthy o
    → ((get_from o a).1 ≡ text_of o a)
      × (text_of (get_from o a).0 b ≡ text_of o b)
      × Healthy (get_from o a).0
unfolding get_from text_of
get_from-text_of none a b w = (refl, refl, tt)
get_from-text_of (some d) a b w =
    let r = get_refines d a w in
    (r.0, ap (Map.lookup b) r.1 ∙ lookup-spec_get a b (view d), get-IsWell d a w)

lookup-spec_set :
    (limit a : ℕ) (code : String) (m : Recent) → Map.lookup a (spec_set limit a code m) ≡ some code
unfolding spec_set Map.lookup
lookup-spec_set limit a code m = elim (Option-cases (Map.lookup a m)) [
  | inl miss ↦ rw (miss, spec_set) (ground (arith, number_key.same_iff a a))
  | inr (old, hit) ↦ rw (hit, spec_set) (ground (arith, number_key.same_iff a a))
]

pub set_in-text_of :
    (o : Option DecompCache) (a : ℕ) (code : String)
    → Healthy o
    → (text_of (set_in o a code) a ≡ some code) × Healthy (set_in o a code)
unfolding set_in text_of
set_in-text_of none a code w =
    let d : DecompCache = new_decomp_cache max_decomp_cache_entries in
    let n = new-IsWell max_decomp_cache_entries in
    (
      ap (Map.lookup a) (set_refines d a code n) ∙ lookup-spec_set d.cap a code (view d),
      set-IsWell d a code n,
    )
set_in-text_of (some d) a code w = (
  ap (Map.lookup a) (set_refines d a code w) ∙ lookup-spec_set d.cap a code (view d),
  set-IsWell d a code w,
)

-- Setting a text leaves no other text than those that were there: one may be evicted.
drop_last-lookup :
    (m : Recent) (b : ℕ) (text : String)
    → IsMap m
    → Map.lookup b (drop_last m) ≡ some text
    → Map.lookup b m ≡ some text
unfolding drop_last Map.lookup
drop_last-lookup [] b text i h = h
drop_last-lookup ((a, code) ∷ []) b text i h = absurd (cc)
drop_last-lookup ((a, code) ∷ (a', code') ∷ m) b text i h =
    ground (arith, drop_last-lookup ((a', code') ∷ m) b text i.1, h)

spec_set-only :
    (limit a b : ℕ) (code text : String) (m : Recent)
    → IsMap m
    → Map.lookup b (spec_set limit a code m) ≡ some text
    → ((a ≡ b) × (code ≡ text)) ⊎ (Map.lookup b m ≡ some text)
unfolding spec_set Map.lookup
spec_set-only limit a b code text m i h = elim (Option-cases (Map.lookup a m)) [
  | inl miss ↦ ground (arith, miss, h, drop_last-lookup m b text i, number_key.same_iff a b)
  | inr (old, hit) ↦ ground (arith, hit, h, lookup-delete a b m, number_key.same_iff a b)
]

pub set_in-only :
    (o : Option DecompCache) (a b : ℕ) (code text : String)
    → Healthy o
    → text_of (set_in o a code) b ≡ some text
    → ((a ≡ b) × (code ≡ text)) ⊎ (text_of o b ≡ some text)
unfolding set_in text_of Map.lookup new_decomp_cache
set_in-only none a b code text w h =
    let d : DecompCache = new_decomp_cache max_decomp_cache_entries in
    let n = new-IsWell max_decomp_cache_entries in
    elim (spec_set-only d.cap a b code text (view d) (view-IsMap d n)
      (ap (Map.lookup b) (sym (set_refines d a code n)) ∙ h)) [ inl e ↦ inl e | inr e ↦ inr e ]
set_in-only (some d) a b code text w h =
    spec_set-only d.cap a b code text (view d) (view-IsMap d w)
      (ap (Map.lookup b) (sym (set_refines d a code w)) ∙ h)

pub delete_from-text_of :
    (o : Option DecompCache) (a b : ℕ)
    → Healthy o
    → (text_of (delete_from o a) b ≡ (if a == b then none else text_of o b))
      × Healthy (delete_from o a)
unfolding delete_from text_of
delete_from-text_of none a b w = (ground arith, tt)
delete_from-text_of (some d) a b w =
    (ap (Map.lookup b) (delete_refines d a w) ∙ lookup-delete a b (view d), delete-IsWell d a w)

pub purge_from-text_of :
    (o : Option DecompCache) (p : String → Bool) (a : ℕ)
    → Healthy o
    → (text_of (purge_from o p).0 a ≡ unless p (text_of o a)) × Healthy (purge_from o p).0
unfolding purge_from text_of
purge_from-text_of none p a w = (refl, tt)
purge_from-text_of (some d) p a w = (
  ap (Map.lookup a) (delete_where_refines d p w).0
      ∙ lookup-keep_where p a (view d) (view-IsMap d w),
  (delete_where-Purged d p w).well,
)

pub prune_from-text_of :
    (o : Option DecompCache) (a b : ℕ)
    → Healthy o
    → (text_of (prune_from o a).0 b ≡ (if a == b then none else text_of o b))
      × Healthy (prune_from o a).0
unfolding prune_from text_of
prune_from-text_of none a b w = (ground arith, tt)
prune_from-text_of (some d) a b w = elim (Bool-cases (Decomp.has d a)) [
  | inl hit ↦
      rw hit
        (ap (Map.lookup b) (delete_refines d a w) ∙ lookup-delete a b (view d), delete-IsWell d a w)
  | inr miss ↦ rw miss (
    ground
        (arith, has_refines d a w, number_key.same_iff a b, Option-cases (Map.lookup a (view d))),
    w,
  )
]
