-- ===== src/Xrefs/Kept.antt =====
-- What `getXRefs` keeps, and what it shows afterwards.
use ida_pilot.Common.{
  number_key, string_key, ◌≡◌, refl, ℕ, Bool, true, false, List, [], ◌∷◌, Option, none, some, arith,
  map, String, ◌==◌, ◌||◌, if◌then◌else◌,
}
use ida_pilot.Common.Map.{lookup-insert_self}
use ida_pilot.Cache.{SessionCache, XrefsEntry, get_xrefs, set_xrefs, find_in, or_empty}
use ida_pilot.Xrefs.{
  Side, to_side, from_side, Shown, failed, one_side, shown, fill, receive, replies, both_sides,
  show_xrefs,
}

-- A later call: what the worker would reply to it, and the direction that it asks for.
pub record Later (Item : Type 0) : Type 0 where
  pub first : Bool
  pub to : Option (List Item)
  pub from : Option (List Item)
  pub direction : String

module _ {Item : Type 0} where
  get_xrefs-set_xrefs :
      (c : SessionCache Item) (addr : ℕ) (e : XrefsEntry Item)
      → get_xrefs (set_xrefs c addr e) addr ≡ some e
  unfolding get_xrefs set_xrefs find_in
  get_xrefs-set_xrefs c addr e = lookup-insert_self addr e (or_empty c.xrefs)

  abbrev entry_of : (to from : List Item) → XrefsEntry Item
  entry_of to from = record { to = to; from = from }

  received :
      (first : Bool) (to from : List Item) (c : SessionCache Item) (addr : ℕ)
      → get_xrefs c addr ≡ none
      → show_xrefs first (some to) (some from) c addr "both"
        ≡ (set_xrefs c addr (entry_of to from), shown to from)
  unfolding show_xrefs both_sides receive replies fill
  received true to from c addr empty = rw empty refl
  received false to from c addr empty = rw empty refl

  unfoldable pub run_later :
      ℕ → List (Later Item) → SessionCache Item → SessionCache Item × List (Shown Item)
  run_later addr [] c = (c, [])
  run_later addr (q ∷ qs) c =
      let r = show_xrefs q.first q.to q.from c addr q.direction in
      let rest = run_later addr qs r.0 in (rest.0, r.1 ∷ rest.1)

  -- What the later calls show: those for both directions the entry, the other ones what the worker replies.
  abbrev pub one_reply : (List Item → Shown Item) → Side → Option (List Item) → Shown Item
  one_reply show side none = failed side
  one_reply show side (some items) = show items

  abbrev pub expected : (to from : List Item) → Later Item → Shown Item
  expected to from q =
      if q.direction == "" || q.direction == "both"
      then shown to from
      else if q.direction == "to"
      then one_reply (λ items. shown items []) to_side q.to
      else one_reply (λ items. shown [] items) from_side q.from

  one_side-to :
      (o : Option (List Item)) → one_side to_side o ≡ one_reply (λ items. shown items []) to_side o
  unfolding one_side
  one_side-to none = refl
  one_side-to (some items) = refl

  one_side-from :
      (o : Option (List Item))
      → one_side from_side o ≡ one_reply (λ items. shown [] items) from_side o
  unfolding one_side
  one_side-from none = refl
  one_side-from (some items) = refl

  show_later :
      (q : Later Item) (c : SessionCache Item) (addr : ℕ) (e : XrefsEntry Item)
      → get_xrefs c addr ≡ some e
      → show_xrefs q.first q.to q.from c addr q.direction ≡ (c, expected e.to e.from q)
  unfolding show_xrefs both_sides
  show_later q c addr e h =
      rw (h, both_sides) (ground (arith, one_side-to q.to, one_side-from q.from))

  run_later_lem :
      (qs : List (Later Item)) (c : SessionCache Item) (addr : ℕ) (e : XrefsEntry Item)
      → get_xrefs c addr ≡ some e
      → run_later addr qs c ≡ (c, map (expected e.to e.from) qs)
  unfolding run_later
  run_later_lem [] c addr e h = refl
  run_later_lem (q ∷ qs) c addr e h = rw (show_later q c addr e h, run_later_lem qs c addr e h) refl

  -- With references that are not cached and both replies, in either order, the answer shows them and they
  -- are kept: whatever calls for that address follow, and whatever the worker would reply to them, the
  -- cache stays as it is, each call for both directions shows the same, and each other one what the
  -- worker then replies.
  pub show_xrefs-kept :
      (first : Bool) (to from : List Item) (later : List (Later Item)) (c : SessionCache Item)
      (addr : ℕ)
      → get_xrefs c addr ≡ none
      → let r = show_xrefs first (some to) (some from) c addr "both" in
        (r.1 ≡ shown to from) × (run_later addr later r.0 ≡ (r.0, map (expected to from) later))
  show_xrefs-kept first to from later c addr empty = rw (received first to from c addr empty) (
    refl,
    run_later_lem later (set_xrefs c addr (entry_of to from)) addr (entry_of to from)
        (get_xrefs-set_xrefs c addr (entry_of to from)),
  )

  -- If one reply failed, in either order, the answer is an error and nothing is kept.
  pub show_xrefs-failed :
      (first : Bool) (o : Option (List Item)) (c : SessionCache Item) (addr : ℕ)
      → get_xrefs c addr ≡ none
      → ((show_xrefs first none o c addr "both").0 ≡ c)
        × ((show_xrefs first o none c addr "both").0 ≡ c)
  unfolding show_xrefs both_sides receive replies
  show_xrefs-failed true none c addr empty = ground (arith, empty)
  show_xrefs-failed false none c addr empty = ground (arith, empty)
  show_xrefs-failed true (some l) c addr empty = ground (arith, empty)
  show_xrefs-failed false (some l) c addr empty = ground (arith, empty)
