-- ===== src/Xrefs.antt =====
-- internal/server/read.go: `getXRefs`, the references to and from an address, which are asked for at the
-- same time and kept in the session's cache.
-- A reply is the entries of one call, or `none` for a call that failed; which of two replies comes first
-- is an argument.
pub mod Kept
mod Tests
use ida_pilot.Common.{
  string_key, ◌==◌, ℕ, String, Bool, true, false, ◌||◌, List, [], ◌∷◌, Option, none, some,
  if◌then◌else◌,
}
use ida_pilot.Cache.{SessionCache, XrefsEntry, get_xrefs, set_xrefs}

pub data Side : Type 0 where
  to_side : Side
  from_side : Side

pub data Shown (Item : Type 0) : Type 0 where
  failed : Side → Shown Item
  shown : (to from : List Item) → Shown Item

module _ {Item : Type 0} where
  -- The entry while the replies come in.
  unfoldable pub fill : XrefsEntry Item → Side → List Item → XrefsEntry Item
  fill e to_side items = record e { to = items }
  fill e from_side items = record e { from = items }

  -- The loop that takes the replies from the channel: the first that failed ends it.
  unfoldable pub receive :
      List (Side × Option (List Item))
      → XrefsEntry Item
      → SessionCache Item
      → ℕ
      → SessionCache Item × Shown Item
  unfolding fill
  receive [] e c addr = (set_xrefs c addr e, shown e.to e.from)
  receive ((side, none) ∷ rest) e c addr = (c, failed side)
  receive ((side, some items) ∷ rest) e c addr = receive rest (fill e side items) c addr

  -- The two replies in the order in which they come.
  unfoldable pub replies : Bool → (to from : Option (List Item)) → List (Side × Option (List Item))
  replies to_first to from =
      if to_first
      then (to_side, to) ∷ (from_side, from) ∷ []
      else (from_side, from) ∷ (to_side, to) ∷ []

  unfoldable pub one_side : Side → Option (List Item) → Shown Item
  one_side side none = failed side
  one_side to_side (some items) = shown items []
  one_side from_side (some items) = shown [] items

  unfoldable pub both_sides :
      Option (XrefsEntry Item)
      → List (Side × Option (List Item))
      → SessionCache Item
      → ℕ
      → SessionCache Item × Shown Item
  unfolding receive
  both_sides (some entry) order c addr = (c, shown entry.to entry.from)
  both_sides none order c addr = receive order (record { to = []; from = [] }) c addr

  unfoldable pub show_xrefs :
      Bool
      → (to from : Option (List Item)) → SessionCache Item
      → (addr : ℕ) → (direction : String) → SessionCache Item × Shown Item
  unfolding both_sides replies one_side
  show_xrefs to_first to from c addr direction =
      if direction == "" || direction == "both"
      then both_sides (get_xrefs c addr) (replies to_first to from) c addr
      else if direction == "to"
      then (c, one_side to_side to)
      else (c, one_side from_side from)
