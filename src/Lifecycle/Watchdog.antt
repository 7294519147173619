-- ===== src/Lifecycle/Watchdog.antt =====
-- The watchdog: which sessions a tick removes, and what it does to the tools.
use ida_pilot.Common.{
  string_key, ◌==◌, ℕ, suc, ◌≤◌, ◌≡◌, refl, ap, ◌∙◌, String, Bool, true, false, not, ◌&&◌, ◌||◌,
  List, [], ◌∷◌, none, arith, length, if◌then◌else◌, Bool-cases, inl, inr,
}
use ida_pilot.Common.Map
use ida_pilot.Progress.{get_progress}
use ida_pilot.Registry
use ida_pilot.Registry.{Registry, Session, list, is_expired, has_in_flight}
use ida_pilot.Tiers.{ToolServer}
use ida_pilot.Lifecycle.{Outside, Server, forget_session, cleanup_expired_sessions}
use ida_pilot.Lifecycle.Forget.{IsOrderly, Forgotten, forget_session-Forgotten, tiers-forget, fewer}

-- A session that is removed: it is expired, and no worker operation is in flight on it.
abbrev pub idle : ℕ → Session → Bool
idle now x = not (has_in_flight x) && is_expired now x

-- Whether an ID is that of a session in the list that is removed.
unfoldable pub gone : ℕ → (ℕ → Session) → List ℕ → String → Bool
gone now h [] k = false
gone now h (p ∷ rest) k = (idle now (h p) && (h p).id == k) || gone now h rest k

unfoldable pub all_named : (ℕ → Session) → List ℕ → Bool
all_named h [] = true
all_named h (p ∷ rest) = if (h p).id == "" then false else all_named h rest

module _ {t : ToolServer} {Item : Type 0} where
  -- What a clean-up leaves, by the sessions that it was given.
  pub record Cleaned (now : ℕ) (ps : List ℕ) (s s' : Server t Item) : Type 0 where
    pub orderly : IsOrderly s'
    pub sessions :
        (k : String)
        → Registry.get s'.registry k
          ≡ (if gone now s.registry.heap ps k then none else Registry.get s.registry k)
    pub texts :
        (k : String)
        → Map.lookup k s'.caches
          ≡ (if gone now s.registry.heap ps k then none else Map.lookup k s.caches)
    pub stages :
        (k : String)
        → get_progress s'.progress k
          ≡ (if gone now s.registry.heap ps k then none else get_progress s.progress k)
    pub tools : s'.tiers ≡ s.tiers
    pub no_more : length (list s'.registry) ≤ length (list s.registry)

  nothing : (now : ℕ) (s : Server t Item) → IsOrderly s → Cleaned now [] s s
  unfolding gone
  nothing now s i = record {
    orderly = i;
    sessions = λ k. refl;
    texts = λ k. refl;
    stages = λ k. refl;
    tools = refl;
    no_more = omega arith;
  }

  skipped :
      (now p : ℕ) (rest : List ℕ) (s s' : Server t Item)
      → idle now (s.registry.heap p) ≡ false
      → Cleaned now rest s s'
      → Cleaned now (p ∷ rest) s s'
  unfolding gone
  skipped now p rest s s' busy c = record {
    orderly = c.orderly;
    sessions = λ k. rw busy (c.sessions k);
    texts = λ k. rw busy (c.texts k);
    stages = λ k. rw busy (c.stages k);
    tools = c.tools;
    no_more = c.no_more;
  }

  removed :
      (o : Outside) (now p : ℕ) (rest : List ℕ) (s s' : Server t Item)
      → idle now (s.registry.heap p) ≡ true
      → Forgotten o s (s.registry.heap p).id (forget_session o s (s.registry.heap p).id)
      → Cleaned now rest (forget_session o s (s.registry.heap p).id) s'
      → Cleaned now (p ∷ rest) s s'
  unfolding gone
  removed o now p rest s s' dead f c =
      let id : String = (s.registry.heap p).id in
      let same : (k : String)
          → gone now (forget_session o s id).registry.heap rest k
            ≡ gone now s.registry.heap rest k =
        λ k. ap (λ h. gone now h rest k) f.objects in
      record {
        orderly = c.orderly;
        sessions = λ k. rw dead (ground (arith, c.sessions k, f.sessions k, same k));
        texts = λ k. rw dead (ground (arith, c.texts k, f.texts k, same k));
        stages = λ k. rw dead (ground (arith, c.stages k, f.stages k, same k));
        tools = c.tools ∙ tiers-forget o s id;
        no_more = omega (arith, c.no_more, fewer o s id);
      }

  pub cleanup-Cleaned :
      (o : Outside) (now : ℕ) (ps : List ℕ) (s : Server t Item) (cleaned : ℕ)
      → IsOrderly s
      → all_named s.registry.heap ps ≡ true
      → Cleaned now ps s (cleanup_expired_sessions o now ps s cleaned).0
  unfolding cleanup_expired_sessions all_named
  cleanup-Cleaned o now [] s cleaned i named = nothing now s i
  cleanup-Cleaned o now (p ∷ rest) s cleaned i named =
      let x = s.registry.heap p in
      let skip = cleanup_expired_sessions o now rest s cleaned in
      let f = forget_session-Forgotten o s x.id i (ground arith) in
      let next = cleanup_expired_sessions o now rest (forget_session o s x.id) (suc cleaned) in
      let kept = cleanup-Cleaned o now rest s cleaned i (ground arith) in
      let after =
        cleanup-Cleaned o now rest (forget_session o s x.id) (suc cleaned) f.orderly
          (ap (λ h. all_named h rest) f.objects ∙ ground arith) in
      elim (Bool-cases (has_in_flight x)) [
        | inl busy ↦ rw busy (skipped now p rest s skip.0 (ground arith) kept)
        | inr free ↦ elim (Bool-cases (is_expired now x)) [
          | inl old ↦ rw (free, old) (removed o now p rest s next.0 (ground arith) f after)
          | inr young ↦ rw (free, young) (skipped now p rest s skip.0 (ground arith) kept)
        ]
      ]
