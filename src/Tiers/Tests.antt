-- ===== src/Tiers/Tests.antt =====
-- The theorems of the tiers on an MCP server that keeps the set of the names it offers.
use ida_pilot.Common.{
  string_key, ◌==◌, ◌≡◌, ◌≤◌, refl, String, Bool, true, false, arith, if◌then◌else◌,
}
use ida_pilot.Tiers.{
  ToolServer, elem, Tiers, tier0_registered, register_tools, promote_to_tier, demote_to_tier0,
}
use ida_pilot.Tiers.Coherent.{
  IsCoherent, register_tools-IsCoherent, promote_to_tier-IsCoherent, demote_to_tier0-IsCoherent,
}

abbrev name_set : ToolServer
name_set = record {
  State = String → Bool;
  offers = λ s n. s n;
  add_tool = λ n s m. if m == n then true else s m;
  remove_tools = λ ns s m. if elem m ns then false else s m;
  offers-add = λ s n m. refl;
  offers-remove = λ s ns m. refl;
}

abbrev started : Tiers name_set
started = record { tier = 0; enable_py_eval = true; tools = λ n. false }

abbrev booted : Tiers name_set
booted = register_tools name_set started

booted-IsCoherent : IsCoherent name_set booted
booted-IsCoherent = register_tools-IsCoherent name_set started refl (λ n. refl)

abbrev promoted_once : Tiers name_set
promoted_once = promote_to_tier name_set 1 booted

promote_to_tier-IsCoherent_example :
    IsCoherent name_set promoted_once
    × (booted.tier ≤ promoted_once.tier)
    × (1 ≤ promoted_once.tier)
promote_to_tier-IsCoherent_example =
    promote_to_tier-IsCoherent name_set booted booted-IsCoherent 1 (omega arith)

promoted-IsCoherent : IsCoherent name_set promoted_once
promoted-IsCoherent =
    (promote_to_tier-IsCoherent name_set booted booted-IsCoherent 1 (omega arith)).0

demote_to_tier0-IsCoherent_example :
    IsCoherent name_set (demote_to_tier0 name_set promoted_once)
    × ((demote_to_tier0 name_set promoted_once).tier ≡ 0)
    × ((n : String)
        → name_set.offers (demote_to_tier0 name_set promoted_once).tools n
          ≡ elem n tier0_registered)
demote_to_tier0-IsCoherent_example =
    demote_to_tier0-IsCoherent name_set promoted_once promoted-IsCoherent
