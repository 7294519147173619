-- ===== src/Lifecycle/Tidy.antt =====
-- Opening keeps the tools in step with the sessions.
use ida_pilot.Common.{
  string_key, ◌==◌, ℕ, zero, suc, ◌≤◌, ◌<◌, ◌≡◌, refl, sym, ◌∙◌, subst, String, Bool, true, false,
  [], ◌∷◌, Option, none, some, arith, length, same_self,
}
use ida_pilot.Common.Map
use ida_pilot.Common.Map.{Map}
use ida_pilot.Registry
use ida_pilot.Registry.{Registry, find_by_binary_path, is_full, list}
use ida_pilot.Tiers.{ToolServer, Tiers, promote_to_tier}
use ida_pilot.Tiers.Coherent.{promote_to_tier-IsCoherent}
use ida_pilot.Tiers.Coherent as Tools
use ida_pilot.Lifecycle.{Outside, Request, Server, Opening, open_binary}
use ida_pilot.Lifecycle.Forget.{IsOrderly, IsTidy, InTier, length-list}
use ida_pilot.Lifecycle.Open.{Undone, Begun, Starts, Creates, Opens, open_binary-Opens}

length-found : (k : String) (p : ℕ) (m : Map String ℕ) → Map.lookup k m ≡ some p → 0 < length m
unfolding Map.lookup
length-found k p [] h = absurd (cc)
length-found k p (e ∷ m) h = omega arith

lookup_first : (e : String × ℕ) (m : Map String ℕ) → Map.lookup e.0 (e ∷ m) ≡ some e.1
unfolding Map.lookup
lookup_first e m = ground (arith, same_self e.0)

lookup_nil : (k : String) → Map.lookup {V = ℕ} k [] ≡ none
unfolding Map.lookup
lookup_nil k = refl

-- Two maps in which every ID finds the same are both empty or both not.
same-InTier :
    (m n : Map String ℕ) (tier : ℕ)
    → ((k : String) → Map.lookup k n ≡ Map.lookup k m)
    → InTier (length m) tier
    → InTier (length n) tier
same-InTier [] [] tier same i = i
same-InTier [] (e ∷ n) tier same i =
    absurd (clash (sym (lookup_first e n) ∙ same e.0 ∙ lookup_nil e.0))
  where
    clash : some e.1 ≡ none → ⊥
    clash h = cc
same-InTier (e ∷ m) [] tier same i =
    absurd (clash (sym (lookup_first e m) ∙ sym (same e.0) ∙ lookup_nil e.0))
  where
    clash : some e.1 ≡ none → ⊥
    clash h = cc
same-InTier (e ∷ m) (f ∷ n) tier same i = i

positive-InTier : (n tier : ℕ) → 0 < n → 1 ≤ tier → InTier n tier
positive-InTier zero tier some_left up = absurd (omega arith)
positive-InTier (suc n) tier some_left up = up

module _ {t : ToolServer} {Item : Type 0} where
  raised :
      (s s' : Server t Item)
      → IsTidy s
      → s'.tiers ≡ promote_to_tier t 1 s.tiers
      → 0 < length (list s'.registry)
      → IsTidy s'
  raised s s' i e some_left =
      let p = promote_to_tier-IsCoherent t s.tiers i.offered 1 (omega arith) in
      record {
        offered = subst (λ x. Tools.IsCoherent t x) (sym e) p.0;
        idle =
            positive-InTier (length (list s'.registry)) s'.tiers.tier some_left
              (subst (λ (x : Tiers t). 1 ≤ x.tier) (sym e) p.2);
      }

  Undone-IsTidy : (q : Request) (s s' : Server t Item) → IsTidy s → Undone q s s' → IsTidy s'
  unfolding Registry.get
  Undone-IsTidy q s s' i u = record {
    offered = subst (λ x. Tools.IsCoherent t x) (sym u.tools) i.offered;
    idle =
        subst (λ n. InTier n s'.tiers.tier) (sym (length-list s'.registry))
          (same-InTier s.registry.sessions s'.registry.sessions s'.tiers.tier u.sessions (
            subst (λ n. InTier n s'.tiers.tier) (length-list s.registry)
              (subst (λ (x : Tiers t). InTier (length (list s.registry)) x.tier) (sym u.tools)
                i.idle)));
  }

  Begun-IsTidy :
      (o : Outside) (q : Request) (s s' : Server t Item) → IsTidy s → Begun o q s s' → IsTidy s'
  unfolding Registry.get
  Begun-IsTidy o q s s' i b = raised s s' i b.tools (
      omega (
        arith,
        length-list s'.registry,
        length-found q.id b.session s'.registry.sessions
            (b.sessions q.id ∙ ground (arith, same_self q.id)),
      ))

  Starts-IsTidy :
      (o : Outside) (q : Request) (s : Server t Item) (launched : Option ℕ) (alive : Bool)
      (r : Server t Item × Opening)
      → IsTidy s
      → Starts o q s launched alive r
      → IsTidy r.0
  Starts-IsTidy o q s none alive r i x = Undone-IsTidy q s r.0 i x.1
  Starts-IsTidy o q s (some pid) false r i x = Undone-IsTidy q s r.0 i x.1
  Starts-IsTidy o q s (some pid) true r i x = Begun-IsTidy o q s r.0 i x.1

  Creates-IsTidy :
      (o : Outside) (q : Request) (s : Server t Item) (full : Bool) (r : Server t Item × Opening)
      → IsTidy s
      → Creates o q s full r
      → IsTidy r.0
  Creates-IsTidy o q s true r i same = subst (λ x. IsTidy x.0) (sym same) i
  Creates-IsTidy o q s false r i x = Starts-IsTidy o q s q.launched q.alive r i x

  Opens-IsTidy :
      (o : Outside) (q : Request) (s : Server t Item) (known : Option ℕ)
      (r : Server t Item × Opening)
      → find_by_binary_path s.registry q.path ≡ known
      → IsOrderly s
      → IsTidy s
      → Opens o q s known r
      → IsTidy r.0
  unfolding find_by_binary_path Registry.get
  Opens-IsTidy o q s none r there w i x = Creates-IsTidy o q s (is_full s.registry) r i x
  Opens-IsTidy o q s (some p) r there w i x =
      subst (λ y. IsTidy y.0) (sym x)
        (raised s (record s { tiers = promote_to_tier t 1 s.tiers }) i refl
          (omega (
            arith,
            length-list s.registry,
            length-found (s.registry.heap p).id p s.registry.sessions
                (w.coherent.live q.path p there),
          )))

  -- Opening a binary on an orderly server keeps the tools in step with the sessions: they are those of the
  -- tier, which is at least 1 as long as there is a session, and 0 otherwise.
  pub open_binary-IsTidy :
      (o : Outside) (q : Request) (s : Server t Item)
      → IsOrderly s
      → IsTidy s
      → (q.id == "") ≡ false
      → Registry.get s.registry q.id ≡ none
      → IsTidy (open_binary o q s).0
  open_binary-IsTidy o q s w i named fresh =
      Opens-IsTidy o q s (find_by_binary_path s.registry q.path) (open_binary o q s) refl w i
        (open_binary-Opens o q s w named fresh)
