-- ===== src/Lifecycle/Restored.antt =====
-- What `RestoreSessions` leaves of the sessions that there were, and of those that it made.
use ida_pilot.Common.{
  string_key, ◌==◌, ℕ, ◌≡◌, ◌∙◌, ◌⊎◌, inl, inr, sym, ap, String, Bool, true, false, List, [], ◌∷◌,
  none, some, arith, if◌then◌else◌, Bool-cases, eq_of_same, subst,
}
use ida_pilot.Progress.{get_progress, readiness_error, stage_error}
use ida_pilot.Registry
use ida_pilot.Registry.{Registry, Metadata, Result, ok, err, restore, on_session}
use ida_pilot.Tiers.{ToolServer}
use ida_pilot.Workers.{get_client}
use ida_pilot.Lifecycle.{Outside, Server}
use ida_pilot.Lifecycle.Forget.{IsOrderly}
use ida_pilot.Lifecycle.Touches.{Loading, Touches, restore_one-Touches}
use ida_pilot.Lifecycle.Restore.{Restart, restore_one, restore_each, restore_sessions}

abbrev pub all_named : List Restart → Bool
all_named [] = true
all_named (q ∷ qs) = if q.meta.id == "" then false else all_named qs

module _ {t : ToolServer} {Item : Type 0} where
  -- Every session that was there is there, and every other one is loading.
  pub record Restored (s s' : Server t Item) : Type 0 where
    pub orderly : IsOrderly s'
    pub kept :
        (k : String) (p : ℕ)
        → Registry.get s.registry k ≡ some p
        → Registry.get s'.registry k ≡ some p
    pub new :
        (k : String) (p : ℕ)
        → Registry.get s'.registry k ≡ some p
        → (Registry.get s.registry k ≡ some p) ⊎ Loading s' k

  Loading-same :
      (s s' : Server t Item) (k : String)
      → get_client s'.workers k ≡ get_client s.workers k
      → get_progress s'.progress k ≡ get_progress s.progress k
      → Loading s k
      → Loading s' k
  unfolding readiness_error
  Loading-same s s' k c g ((pid, w), gate) = ((pid, c ∙ w), ap stage_error g ∙ gate)

  kept_own :
      (id : String) (s s' : Server t Item) (p : ℕ)
      → Touches id s s'
      → Registry.get s.registry id ≡ some p
      → Registry.get s'.registry id ≡ some p
  kept_own id s s' p x h = elim x.own [
    | inl same ↦ ap (λ r. Registry.get r id) same.0 ∙ h
    | inr other ↦ let e : none ≡ some p = sym other.0 ∙ h in absurd (cc)
  ]

  new_own :
      (id : String) (s0 s s' : Server t Item) (p : ℕ)
      → Restored s0 s
      → Touches id s s'
      → Registry.get s'.registry id ≡ some p
      → (Registry.get s0.registry id ≡ some p) ⊎ Loading s' id
  new_own id s0 s s' p before x h = elim x.own [
    | inl (r, w, g) ↦ elim (before.new id p (ap (λ r. Registry.get r id) (sym r) ∙ h)) [
      | inl old ↦ inl old
      | inr loading ↦ inr (
          Loading-same s s' id (ap (λ m. get_client m id) w) (ap (λ m. get_progress m id) g)
            loading)
    ]
    | inr (fresh, inl gone) ↦ let e : none ≡ some p = sym gone ∙ h in absurd (cc)
    | inr (fresh, inr loading) ↦ inr loading
  ]

  Touches-Restored :
      (id : String) (s0 s s' : Server t Item) → Restored s0 s → Touches id s s' → Restored s0 s'
  Touches-Restored id s0 s s' before x = record {
    orderly = x.orderly;
    kept = λ k p h. elim (Bool-cases (id == k)) [
      | inl e ↦
          subst (λ j. Registry.get s.registry j ≡ some p → Registry.get s'.registry j ≡ some p)
            (eq_of_same id k e) (kept_own id s s' p x) (before.kept k p h)
      | inr n ↦ x.sessions k n ∙ before.kept k p h
    ];
    new = λ k p h. elim (Bool-cases (id == k)) [
      | inl e ↦
          subst
            (λ j.
              Registry.get s'.registry j ≡ some p
              → (Registry.get s0.registry j ≡ some p) ⊎ Loading s' j)
            (eq_of_same id k e) (new_own id s0 s s' p before x) h
      | inr n ↦ elim (before.new k p (sym (x.sessions k n) ∙ h)) [
        | inl old ↦ inl old
        | inr loading ↦ inr (Loading-same s s' k (x.clients k n) (x.stages k n) loading)
      ]
    ];
  }

  restore_each-Restored :
      (o : Outside) (qs : List Restart) (s0 s : Server t Item)
      → all_named qs ≡ true
      → Restored s0 s
      → Restored s0 (restore_each o qs s)
  unfolding restore_each
  restore_each-Restored o [] s0 s named before = before
  restore_each-Restored o (q ∷ qs) s0 s named before =
      let x = restore_one-Touches o q s before.orderly (ground arith) in
      restore_each-Restored o qs s0 (restore_one o q s) (ground arith)
        (Touches-Restored q.meta.id s0 s (restore_one o q s) before x)

  -- Restoring persisted sessions, none of which has an empty ID, on an orderly server: the server stays
  -- orderly, every session that was there is found as before, and every other one that is found has a
  -- worker, and the gate holds the tools back until its database is loaded again. That holds whatever
  -- binary is missing, whichever worker does not start, and if two records have one ID.
  pub restore_sessions-Restored :
      (o : Outside) (qs : List Restart) (s : Server t Item)
      → IsOrderly s
      → all_named qs ≡ true
      → Restored s (restore_sessions o (some qs) s)
  unfolding restore_sessions
  restore_sessions-Restored o qs s i named =
      restore_each-Restored o qs s s named
        (record { orderly = i; kept = λ k p h. h; new = λ k p h. inl h })
