-- ===== src/Tiers/Coherent.antt =====
-- The tools that the server offers are those of its tier, through every promotion and demotion.
use ida_pilot.Common.{
  string_key, ℕ, ◌≤◌, ◌≡◌, refl, sym, ap, ◌<◌, ◌⊎◌, ◌∙◌, String, Bool, true, false, ◌&&◌, ◌||◌, not,
  List, [], ◌∷◌, arith, leb, ltb, eqb, if◌then◌else◌, Bool-cases, inl, inr,
}
use ida_pilot.Tiers.{
  ToolServer, elem, tier1_tools, tier2_tool_names, tier0_registered, tier1_registered,
  tier2_registered, Tiers, add_all, register_tier0, register_tools, register_tier1, register_tier2,
  promote_to_tier, demote_to_tier0,
}

-- No name stands in both lists.
unfoldable pub apart : List String → List String → Bool
unfolding elem
apart [] ys = true
apart (x ∷ xs) ys = not (elem x ys) && apart xs ys

apart_lem :
    (n : String) (xs ys : List String) → apart xs ys ≡ true → elem n xs ≡ true → elem n ys ≡ false
unfolding apart elem
apart_lem n [] ys a h = absurd (cc)
apart_lem n (x ∷ xs) ys a h = ground (arith, string_key.same_iff n x, apart_lem n xs ys)

-- The three tiers have no name in common.
tiers_apart :
    (py : Bool)
    → (apart (tier1_tools py) tier0_registered ≡ true)
      × (apart tier2_tool_names tier0_registered ≡ true)
      × (apart tier2_tool_names (tier1_tools py) ≡ true)
unfolding apart tier1_tools
tiers_apart true = (refl, refl, refl)
tiers_apart false = (refl, refl, refl)

-- What is registered is what demotion removes.
registered_removed : (py : Bool) → tier1_registered py ≡ tier1_tools py
unfolding tier1_registered tier1_tools
registered_removed true = refl
registered_removed false = refl

-- The tools of a tier.
unfoldable pub belongs : ℕ → Bool → String → Bool
belongs tier py n =
    elem n tier0_registered
    || (leb 1 tier && elem n (tier1_tools py))
    || (leb 2 tier && elem n tier2_tool_names)

boot_tools : (k : ℕ) (py : Bool) (n : String) → k ≡ 0 → belongs k py n ≡ elem n tier0_registered
unfolding belongs
boot_tools k py n zero_tier = ground arith

module _ (t : ToolServer) where
  open t use {State, offers, add_tool, remove_tools, offers-add, offers-remove}

  pub record IsCoherent (s : Tiers t) : Type 0 where
    pub offered : (n : String) → offers s.tools n ≡ belongs s.tier s.enable_py_eval n
    pub in_range : s.tier ≤ 2

  offers-add_all :
      (ns : List String) (s : State) (m : String)
      → offers (add_all t ns s) m ≡ (if elem m ns then true else offers s m)
  unfolding add_all elem
  offers-add_all [] s m = refl
  offers-add_all (n ∷ ns) s m = ground (arith, offers-add_all ns (add_tool n s) m, offers-add s n m)

  offers-tier1 :
      (s : Tiers t) (n : String)
      → offers (register_tier1 t s).tools n
        ≡ (if elem n (tier1_tools s.enable_py_eval) then true else offers s.tools n)
  unfolding register_tier1
  offers-tier1 s n =
      offers-add_all (tier1_registered s.enable_py_eval) s.tools n
      ∙ ap (λ l. if elem n l then true else offers s.tools n) (registered_removed s.enable_py_eval)

  offers-tier2 :
      (s : Tiers t) (n : String)
      → offers (register_tier2 t s).tools n
        ≡ (if elem n tier2_tool_names then true else offers s.tools n)
  unfolding register_tier2
  offers-tier2 s n = offers-add_all tier2_registered s.tools n

  -- What a promotion does, by the old tier and the target.
  promoted :
      (target : ℕ) (s : Tiers t)
      → ((target ≤ s.tier) × (promote_to_tier t target s ≡ s))
        ⊎ ((s.tier < target)
            × ((promote_to_tier t target s).tier ≡ target)
            × ((promote_to_tier t target s).enable_py_eval ≡ s.enable_py_eval)
            × ((n : String)
                → offers (promote_to_tier t target s).tools n ≡ (
                    offers s.tools n
                    || ((leb 1 target && ltb s.tier 1) && elem n (tier1_tools s.enable_py_eval))
                    || ((leb 2 target && ltb s.tier 2) && elem n tier2_tool_names))))
  unfolding promote_to_tier register_tier1 register_tier2
  promoted target s = elim (Bool-cases (leb target s.tier)) [
    | inl low ↦ inl (ground arith, rw low)
    | inr high ↦
        let s1 = if leb 1 target && ltb s.tier 1 then register_tier1 t s else s in
        inr (
          ground arith,
          rw high,
          rw high (ground arith),
          rw high (λ n.
              ground
                (arith, offers-tier1 s n, offers-tier2 s n, offers-tier2 (register_tier1 t s) n)),
        )
  ]

  -- What a demotion does to the offered tools.
  demoted :
      (s : Tiers t) (n : String)
      → ((demote_to_tier0 t s).tier ≡ 0)
        × (offers (demote_to_tier0 t s).tools n ≡ (
            if (leb 1 s.tier && elem n (tier1_tools s.enable_py_eval))
              || (leb 2 s.tier && elem n tier2_tool_names)
            then false
            else offers s.tools n))
  unfolding demote_to_tier0
  demoted s n = elim (Bool-cases (eqb s.tier 0)) [
    | inl low ↦ rw low (ground arith, ground arith)
    | inr high ↦ rw high (
      refl,
      ground (
        arith,
        offers-remove s.tools (tier1_tools s.enable_py_eval) n,
        offers-remove s.tools tier2_tool_names n,
        offers-remove (remove_tools tier2_tool_names s.tools) (tier1_tools s.enable_py_eval) n,
      ),
    )
  ]

  module _ (s : Tiers t) (c : IsCoherent s) where
    -- Promotion to tier 1 or 2 keeps the offered tools those of the tier, and never lowers the tier.
    pub promote_to_tier-IsCoherent :
        (target : ℕ)
        → target ≤ 2
        → IsCoherent (promote_to_tier t target s)
          × (s.tier ≤ (promote_to_tier t target s).tier)
          × (target ≤ (promote_to_tier t target s).tier)
    unfolding belongs
    promote_to_tier-IsCoherent target top = elim (promoted target s) [
      | inl (low, same) ↦ rw same (c, ground arith, low)
      | inr (high, at, py, tools) ↦ (
        record { offered = λ n. ground (arith, tools n, c.offered n); in_range = rw at top },
        ground arith,
        ground arith,
      )
    ]

    demoted_tools : (n : String) → offers (demote_to_tier0 t s).tools n ≡ elem n tier0_registered
    unfolding belongs
    demoted_tools n =
        let (one, two, _) = tiers_apart s.enable_py_eval in
        ground (
          arith,
          demoted s n,
          c.offered n,
          apart_lem n (tier1_tools s.enable_py_eval) tier0_registered one,
          apart_lem n tier2_tool_names tier0_registered two,
        )

    -- Demotion goes to tier 0 and leaves the three boot tools offered, and only those.
    pub demote_to_tier0-IsCoherent :
        IsCoherent (demote_to_tier0 t s)
        × ((demote_to_tier0 t s).tier ≡ 0)
        × ((n : String) → offers (demote_to_tier0 t s).tools n ≡ elem n tier0_registered)
    demote_to_tier0-IsCoherent =
        let (at, _) = demoted s "" in
        (
          record {
            offered = λ n. demoted_tools n ∙ sym (boot_tools _ _ n at);
            in_range = rw at (ground arith);
          },
          at,
          demoted_tools,
        )

  -- A new server that has registered the boot tools, on an MCP server that offered nothing.
  pub register_tools-IsCoherent :
      (s : Tiers t)
      → s.tier ≡ 0
      → ((n : String) → offers s.tools n ≡ false)
      → IsCoherent (register_tools t s)
  unfolding register_tools register_tier0 belongs
  register_tools-IsCoherent s at nothing = record {
    offered = λ n. ground (arith, offers-add_all tier0_registered s.tools n, nothing n);
    in_range = ground arith;
  }
