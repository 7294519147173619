-- ===== src/Lifecycle/Forget.antt =====
-- Closing a session: what is left of it, and of the others, and of the tools.
use ida_pilot.Common.{
  string_key, ◌==◌, ℕ, zero, suc, map, ◌≤◌, ◌≡◌, refl, sym, ap, subst, String, Bool, true, false,
  ◌&&◌, List, [], ◌∷◌, Option, none, some, arith, length, eqb, if◌then◌else◌, Option-cases,
  Bool-cases, inl, inr,
}
use ida_pilot.Common.Map
use ida_pilot.Common.Map.{Map, lookup-delete, length-delete-le}
use ida_pilot.Cache.{delete_session_cache}
use ida_pilot.Progress.{get_progress, clear_progress}
use ida_pilot.Registry
use ida_pilot.Registry.{Registry, list}
use ida_pilot.Registry.Coherent.{IsCoherent, WithinLimit, delete-Deleted}
use ida_pilot.Tiers.{ToolServer, Tiers}
use ida_pilot.Tiers.Coherent.{demote_to_tier0-IsCoherent}
use ida_pilot.Tiers.Coherent as Tools
use ida_pilot.Workers
use ida_pilot.Workers.{get_client}
use ida_pilot.Lifecycle.{
  Outside, Saved, delete_session_state, Server, drop_session, forget_session, demote_if_empty,
}

-- The record that is saved for a session.
unfoldable pub saved_of : Saved → String → Option Registry.Metadata
saved_of none id = none
saved_of (some files) id = Map.lookup id files

saved_of-delete :
    (o : Outside) (s : Saved) (id k : String)
    → saved_of (delete_session_state o s id) k
      ≡ (if id == k && o.removes then none else saved_of s k)
unfolding delete_session_state saved_of
saved_of-delete o none id k = ground arith
saved_of-delete o (some files) id k = ground (arith, lookup-delete id k files)

get_client-stop :
    (stops : Bool) (w : Workers.Workers) (id k : String)
    → get_client (Workers.stop stops w id) k ≡ (if id == k && stops then none else get_client w k)
unfolding Workers.stop get_client
get_client-stop stops w id k = elim (Option-cases (Map.lookup id w)) [
  | inl miss ↦ rw (miss, Workers.stop) (ground (arith, string_key.same_iff id k, miss))
  | inr (p, hit) ↦ rw (hit, Workers.stop) (ground (arith, lookup-delete id k w))
]

-- The tier of a server with that many sessions.
abbrev pub InTier : ℕ → ℕ → Type 0
InTier zero tier = tier ≡ 0
InTier (suc n) tier = 1 ≤ tier

length-map : {A B : Type 0} (f : A → B) (l : List A) → length (map f l) ≡ length l
length-map f [] = refl
length-map f (x ∷ l) = ap suc (length-map f l)

fewer-InTier : (n m tier : ℕ) → m ≤ n → eqb m 0 ≡ false → InTier n tier → InTier m tier
fewer-InTier n zero tier le more i = absurd (ground arith)
fewer-InTier zero (suc m) tier le more i = absurd (omega arith)
fewer-InTier (suc n) (suc m) tier le more i = i

zero-InTier : (m tier : ℕ) → eqb m 0 ≡ true → tier ≡ 0 → InTier m tier
zero-InTier zero tier empty at = at
zero-InTier (suc m) tier empty at = absurd (ground arith)

pub length-list : (r : Registry) → length (list r) ≡ length r.sessions
unfolding list
length-list r = length-map (λ e. e.1) r.sessions

length-delete-sessions :
    (r : Registry) (id : String) → length (Registry.delete r id).sessions ≤ length r.sessions
unfolding Registry.delete
length-delete-sessions r id = elim (Option-cases (Map.lookup id r.sessions)) [
  | inl miss ↦ rw (miss, Registry.delete) (omega arith)
  | inr (p, hit) ↦ rw (hit, Registry.delete) (length-delete-le id r.sessions)
]

length-list-delete :
    (r : Registry) (id : String) → length (list (Registry.delete r id)) ≤ length (list r)
length-list-delete r id =
    omega (arith, length-list (Registry.delete r id), length-list r, length-delete-sessions r id)

module _ {t : ToolServer} {Item : Type 0} where
  -- A server whose registry is coherent and within its limit.
  pub record IsOrderly (s : Server t Item) : Type 0 where
    pub coherent : IsCoherent s.registry
    pub within : WithinLimit s.registry

  -- What forgetting a session leaves: nothing under its ID, but for a worker that does not stop and a
  -- record that cannot be removed, and everything under every other ID.
  pub record Forgotten (o : Outside) (s : Server t Item) (id : String) (s' : Server t Item)
      : Type 0 where
    pub orderly : IsOrderly s'
    pub sessions :
        (k : String)
        → Registry.get s'.registry k ≡ (if id == k then none else Registry.get s.registry k)
    pub texts :
        (k : String) → Map.lookup k s'.caches ≡ (if id == k then none else Map.lookup k s.caches)
    pub stages :
        (k : String)
        → get_progress s'.progress k ≡ (if id == k then none else get_progress s.progress k)
    pub workers :
        (k : String)
        → get_client s'.workers k ≡ (if id == k && o.stops then none else get_client s.workers k)
    pub records :
        (k : String)
        → saved_of s'.saved k ≡ (if id == k && o.removes then none else saved_of s.saved k)
    pub objects : s'.registry.heap ≡ s.registry.heap

  pub forget_session-Forgotten :
      (o : Outside) (s : Server t Item) (id : String)
      → IsOrderly s
      → (id == "") ≡ false
      → Forgotten o s id (forget_session o s id)
  unfolding forget_session drop_session delete_session_cache clear_progress get_progress
  forget_session-Forgotten o s id i named =
      let d = delete-Deleted s.registry id i.coherent i.within in
      record {
        orderly = record { coherent = d.coherent; within = d.within };
        sessions = d.others;
        texts = λ k. lookup-delete id k s.caches;
        stages = λ k. rw named (lookup-delete id k s.progress);
        workers = get_client-stop o.stops s.workers id;
        records = saved_of-delete o s.saved id;
        objects = d.heap_kept;
      }

  pub tiers-forget :
      (o : Outside) (s : Server t Item) (id : String) → (forget_session o s id).tiers ≡ s.tiers
  unfolding forget_session drop_session
  tiers-forget o s id = refl

  -- The tools are those of the tier, and a server without sessions is in tier 0.
  pub record IsTidy (s : Server t Item) : Type 0 where
    pub offered : Tools.IsCoherent t s.tiers
    pub idle : InTier (length (list s.registry)) s.tiers.tier

  -- Demotion on an empty registry keeps the server tidy, if there were no fewer sessions before.
  pub demote_if_empty-IsTidy :
      (s s' : Server t Item)
      → IsTidy s
      → s'.tiers ≡ s.tiers
      → length (list s'.registry) ≤ length (list s.registry)
      → IsTidy (demote_if_empty s')
  unfolding demote_if_empty
  demote_if_empty-IsTidy s s' i same le =
      let offered : Tools.IsCoherent t s'.tiers =
        subst (λ x. Tools.IsCoherent t x) (sym same) i.offered in
      let idle : InTier (length (list s.registry)) s'.tiers.tier =
        subst (λ (x : Tiers t). InTier (length (list s.registry)) x.tier) (sym same) i.idle in
      let n : ℕ = length (list s'.registry) in
      elim (Bool-cases (eqb n 0)) [
        | inl empty ↦
            let d = demote_to_tier0-IsCoherent t s'.tiers offered in
            rw empty (record { offered = d.0; idle = zero-InTier n _ empty d.1 })
        | inr more ↦ rw more (record {
          offered = offered;
          idle = fewer-InTier (length (list s.registry)) n s'.tiers.tier le more idle;
        })
      ]

  pub fewer :
      (o : Outside) (s : Server t Item) (id : String)
      → length (list (forget_session o s id).registry) ≤ length (list s.registry)
  unfolding forget_session drop_session
  fewer o s id = length-list-delete s.registry id
