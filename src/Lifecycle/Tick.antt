-- ===== src/Lifecycle/Tick.antt =====
-- One tick of the watchdog, by the sessions of the registry.
use ida_pilot.Common.{
  string_key, ◌==◌, ℕ, suc, ◌≤◌, ◌≡◌, refl, sym, ap, ◌∙◌, subst, String, Bool, true, false, ◌&&◌,
  ◌||◌, List, [], ◌∷◌, Option, none, some, arith, length, ltb, eqb, if◌then◌else◌, Bool-cases, inl,
  inr, keep, map, same_self, eq_of_same,
}
use ida_pilot.Common.Map
use ida_pilot.Common.Map.{Map, IsMap}
use ida_pilot.Registry
use ida_pilot.Registry.{Registry, Session, list, expired, is_expired, has_in_flight}
use ida_pilot.Tiers.{ToolServer}
use ida_pilot.Lifecycle.{
  Outside, Server, forget_session, demote_if_empty, cleanup_expired_sessions, watchdog,
}
use ida_pilot.Lifecycle.Forget.{IsOrderly, IsTidy, demote_if_empty-IsTidy}
use ida_pilot.Lifecycle.Watchdog.{idle, gone, all_named, cleanup-Cleaned}

-- Whether what an ID finds is to be removed.
abbrev pub idle_at : ℕ → (ℕ → Session) → Option ℕ → Bool
idle_at now h none = false
idle_at now h (some p) = idle now (h p)

module _ (now : ℕ) (h : ℕ → Session) where
  rest_named :
      (id : String) (q : ℕ) (m : Map String ℕ)
      → IsMap ((id, q) ∷ m)
      → ((k : String) (p : ℕ) → Map.lookup k ((id, q) ∷ m) ≡ some p → (h p).id ≡ k)
      → (k : String) (p : ℕ) → Map.lookup k m ≡ some p
      → (h p).id ≡ k
  unfolding Map.lookup
  rest_named id q m i named k p e = named k p (ground (arith, string_key.same_iff id k, i.0, e))

  gone-cons :
      (q : ℕ) (ps : List ℕ) (k : String)
      → gone now h (q ∷ ps) k ≡ ((idle now (h q) && (h q).id == k) || gone now h ps k)
  unfolding gone
  gone-cons q ps k = refl

  gone-nil : (k : String) → gone now h [] k ≡ false
  unfolding gone
  gone-nil k = refl

  -- The first session of a map, by whether it is expired and whether its ID is the one.
  first :
      (id k : String) (q : ℕ) (ps : List ℕ) (behind : Option ℕ)
      → (h q).id ≡ id
      → gone now h ps k ≡ idle_at now h behind
      → ((id == k) ≡ true → behind ≡ none)
      → gone now h (if is_expired now (h q) then q ∷ ps else ps) k
        ≡ idle_at now h (if id == k then some q else behind)
  first id k q ps behind own ih fresh =
      let same : ((h q).id == k) ≡ (id == k) = ap (λ x. x == k) own in
      elim (Bool-cases (id == k)) [
        | inl here ↦
            let none_behind : gone now h ps k ≡ false = ih ∙ ap (idle_at now h) (fresh here) in
            elim (Bool-cases (is_expired now (h q))) [
              | inl old ↦
                  rw (old, here) (gone-cons q ps k ∙ ground (arith, same, here, none_behind, old))
              | inr young ↦ rw (young, here) (none_behind ∙ ground (arith, young))
            ]
        | inr off ↦ elim (Bool-cases (is_expired now (h q))) [
          | inl old ↦ rw (old, off) (gone-cons q ps k ∙ ground (arith, same, off) ∙ ih)
          | inr young ↦ rw (young, off) ih
        ]
      ]

  gone-lookup :
      (m : Map String ℕ) (k : String)
      → IsMap m
      → ((id : String) (p : ℕ) → Map.lookup id m ≡ some p → (h p).id ≡ id)
      → gone now h (keep (λ p. is_expired now (h p)) (map (λ e. e.1) m)) k
        ≡ idle_at now h (Map.lookup k m)
  unfolding Map.lookup
  gone-lookup [] k i named = gone-nil k
  gone-lookup ((id, q) ∷ m) k i named =
      first id k q (keep (λ p. is_expired now (h p)) (map (λ e. e.1) m)) (Map.lookup k m)
        (named id q (ground (arith, same_self id)))
        (gone-lookup m k i.1 (rest_named id q m i named))
        (λ here. subst (λ x. Map.lookup x m ≡ none) (eq_of_same id k here) i.0)

  all_named-lookup :
      (m : Map String ℕ)
      → IsMap m
      → ((id : String) (p : ℕ) → Map.lookup id m ≡ some p → (h p).id ≡ id)
      → Map.lookup "" m ≡ none
      → all_named h (keep (λ p. is_expired now (h p)) (map (λ e. e.1) m)) ≡ true
  unfolding all_named Map.lookup
  all_named-lookup [] i named e = refl
  all_named-lookup ((id, q) ∷ m) i named e =
      let ih = all_named-lookup m i.1 (rest_named id q m i named) (ground arith) in
      let own : (h q).id ≡ id = named id q (ground (arith, same_self id)) in
      elim (Bool-cases (is_expired now (h q))) [
        | inl old ↦ rw (old, own) (ground (arith, ih, string_key.same_iff id "", e))
        | inr young ↦ rw young ih
      ]

module _ {t : ToolServer} {Item : Type 0} where
  count-cleanup :
      (o : Outside) (now : ℕ) (ps : List ℕ) (s : Server t Item) (cleaned : ℕ)
      → cleaned ≤ (cleanup_expired_sessions o now ps s cleaned).1
  unfolding cleanup_expired_sessions
  count-cleanup o now [] s cleaned = omega arith
  count-cleanup o now (p ∷ rest) s cleaned = ground (
    arith,
    count-cleanup o now rest s cleaned,
    count-cleanup o now rest (forget_session o s (s.registry.heap p).id) (suc cleaned),
  )

  cleanup-none :
      (o : Outside) (now : ℕ) (ps : List ℕ) (s : Server t Item) (cleaned : ℕ)
      → (cleanup_expired_sessions o now ps s cleaned).1 ≡ cleaned
      → (cleanup_expired_sessions o now ps s cleaned).0 ≡ s
  unfolding cleanup_expired_sessions
  cleanup-none o now [] s cleaned e = refl
  cleanup-none o now (p ∷ rest) s cleaned e = ground (
    arith,
    cleanup-none o now rest s cleaned,
    count-cleanup o now rest (forget_session o s (s.registry.heap p).id) (suc cleaned),
  )

  demoted-IsOrderly : (s : Server t Item) → IsOrderly s → IsOrderly (demote_if_empty s)
  unfolding demote_if_empty
  demoted-IsOrderly s i = elim (Bool-cases (eqb (length (list s.registry)) 0)) [
    | inl empty ↦ rw empty (record { coherent = i.coherent; within = i.within })
    | inr more ↦ rw more i
  ]

  registry-demote : (s : Server t Item) → (demote_if_empty s).registry ≡ s.registry
  unfolding demote_if_empty
  registry-demote s = elim (Bool-cases (eqb (length (list s.registry)) 0)) [
    | inl empty ↦ rw empty refl
    | inr more ↦ rw more refl
  ]

  -- A tick of the watchdog removes exactly the sessions that are expired and have no worker operation in
  -- flight, and keeps every other one; the server stays orderly, and its tools are those of its tier,
  -- which falls to 0 if the tick removed the last session.
  pub watchdog-tick :
      (o : Outside) (now : ℕ) (s : Server t Item)
      → IsOrderly s
      → IsTidy s
      → Registry.get s.registry "" ≡ none
      → let s' = watchdog o now s in
        IsOrderly s'
        × IsTidy s'
        × ((k : String)
            → Registry.get s'.registry k ≡ (
                if idle_at now s.registry.heap (Registry.get s.registry k)
                then none
                else Registry.get s.registry k))
  unfolding watchdog expired list Registry.get
  watchdog-tick o now s i tidy named =
      let ps : List ℕ = expired s.registry now in
      let h : ℕ → Session = s.registry.heap in
      let out : Server t Item × ℕ = cleanup_expired_sessions o now ps s 0 in
      let c =
        cleanup-Cleaned o now ps s 0 i
          (all_named-lookup now h s.registry.sessions i.coherent.one_each i.coherent.named named) in
      let left : (k : String)
          → Registry.get out.0.registry k ≡ (
              if idle_at now h (Registry.get s.registry k)
              then none
              else Registry.get s.registry k) =
        λ k.
          c.sessions k
          ∙ ap (λ b. if b then none else Registry.get s.registry k)
              (gone-lookup now h s.registry.sessions k i.coherent.one_each i.coherent.named) in
      elim (Bool-cases (ltb 0 out.1)) [
        | inl some_gone ↦ rw some_gone (
          demoted-IsOrderly out.0 c.orderly,
          demote_if_empty-IsTidy s out.0 tidy c.tools c.no_more,
          λ k. ap (λ r. Registry.get r k) (registry-demote out.0) ∙ left k,
        )
        | inr none_gone ↦
            let same : out.0 ≡ s = cleanup-none o now ps s 0 (ground arith) in
            rw none_gone (c.orderly, subst (λ x. IsTidy x) (sym same) tidy, left)
      ]
