-- ===== src/Lifecycle/Touches.antt =====
-- What restoring one persisted record changes of a server.
use ida_pilot.Common.{
  string_key, ◌==◌, ℕ, ◌≡◌, ◌∙◌, ◌⊎◌, inl, inr, refl, sym, ap, String, Bool, true, false, Option,
  none, some, arith, if◌then◌else◌, Option-cases, Bool-cases, same_self,
}
use ida_pilot.Common.Map
use ida_pilot.Common.Map.{lookup-insert, lookup-insert_self, lookup-delete, lookup-delete_self}
use ida_pilot.Progress.{
  ProgressStore, still, get_progress, record_progress, readiness_error, stage_error, in_progress,
}
use ida_pilot.Registry
use ida_pilot.Registry.{Registry, Metadata, Result, ok, err, restore, on_session}
use ida_pilot.Registry.Coherent.{
  IsCoherent, WithinLimit, Outcome, Added, restore-Outcome, delete-Deleted, on_session-IsCoherent,
}
use ida_pilot.Tiers.{ToolServer}
use ida_pilot.Workers
use ida_pilot.Workers.{get_client}
use ida_pilot.Lifecycle.{Outside, Server, delete_session_state, snapshot}
use ida_pilot.Lifecycle.Forget.{IsOrderly}
use ida_pilot.Lifecycle.Restore.{
  Restart, discard, with_worker, with_client, restart_worker, restore_result, restore_one,
}

started_client :
    (w : Workers.Workers) (id k : String) (pid : ℕ)
    → get_client (Workers.start w id pid) k ≡ (if id == k then some pid else get_client w k)
unfolding get_client Workers.start
started_client w id k pid = lookup-insert id k pid w

stopped_client :
    (stops : Bool) (w : Workers.Workers) (id k : String)
    → id == k ≡ false
    → get_client (Workers.stop stops (Workers.exited w id) id) k ≡ get_client w k
unfolding get_client Workers.stop Workers.exited
stopped_client stops w id k h =
    rw (lookup-delete_self id w, Workers.stop) (lookup-delete id k w ∙ rw h refl)

recorded_stage :
    (store : ProgressStore) (id k : String) (now : ℕ)
    → id == k ≡ false
    → get_progress (record_progress store id (snapshot "opening" 4 now)) k ≡ get_progress store k
unfolding record_progress get_progress
recorded_stage store id k now h = elim (Bool-cases (id == "")) [
  | inl e ↦ rw e refl
  | inr n ↦ rw n (lookup-insert id k (snapshot "opening" 4 now) store ∙ rw h refl)
]

gate_closed :
    (store : ProgressStore) (id : String) (now : ℕ)
    → (id == "") ≡ false
    → readiness_error (record_progress store id (snapshot "opening" 4 now)) id
      ≡ some (still "opening")
unfolding readiness_error record_progress get_progress stage_error in_progress snapshot
gate_closed store id now named =
    rw named (ap stage_error (lookup-insert_self id (snapshot "opening" 4 now) store))

restore_fresh :
    (r : Registry) (meta : Metadata) (r' : Registry) (p : ℕ)
    → restore r meta ≡ ok r' p
    → Registry.get r meta.id ≡ none
unfolding restore Registry.get
restore_fresh r meta r' p h = elim (Option-cases (Map.lookup meta.id r.sessions)) [
  | inl fresh ↦ fresh
  | inr (s, used) ↦ absurd (ground (arith, used))
]

module _ {t : ToolServer} {Item : Type 0} where
  -- A session with a worker, whose database is being loaded.
  abbrev pub Loading : Server t Item → String → Type 0
  Loading s id =
      ((pid : ℕ) × (get_client s.workers id ≡ some pid))
      × (readiness_error s.progress id ≡ some (still "opening"))

  -- What one record changes: nothing for the IDs of others; under its own, a session that is loading
  -- where there was none, or nothing of what was there.
  pub record Touches (id : String) (s s' : Server t Item) : Type 0 where
    pub orderly : IsOrderly s'
    pub sessions :
        (k : String) → id == k ≡ false → Registry.get s'.registry k ≡ Registry.get s.registry k
    pub clients : (k : String) → id == k ≡ false → get_client s'.workers k ≡ get_client s.workers k
    pub stages :
        (k : String) → id == k ≡ false → get_progress s'.progress k ≡ get_progress s.progress k
    pub own :
        (s'.registry ≡ s.registry × (s'.workers ≡ s.workers) × (s'.progress ≡ s.progress))
        ⊎ (Registry.get s.registry id ≡ none)
          × ((Registry.get s'.registry id ≡ none) ⊎ Loading s' id)

  same-Touches : (id : String) (s : Server t Item) → IsOrderly s → Touches id s s
  same-Touches id s i = record {
    orderly = i;
    sessions = λ k h. refl;
    clients = λ k h. refl;
    stages = λ k h. refl;
    own = inl (refl, refl, refl);
  }

  discard-Touches :
      (o : Outside) (id : String) (s s1 : Server t Item)
      → IsOrderly s1
      → Registry.get s.registry id ≡ none
      → ((k : String) → id == k ≡ false → Registry.get s1.registry k ≡ Registry.get s.registry k)
      → ((k : String) → id == k ≡ false → get_client s1.workers k ≡ get_client s.workers k)
      → s1.progress ≡ s.progress
      → Touches id s (discard o s1 id)
  unfolding discard
  discard-Touches o id s s1 i fresh sessions clients progress =
      let d = delete-Deleted s1.registry id i.coherent i.within in
      record {
        orderly = record { coherent = d.coherent; within = d.within };
        sessions = λ k h. ground (arith, d.others k, sessions k h, h);
        clients = clients;
        stages = λ k h. ap (λ m. get_progress m k) progress;
        own = inr (fresh, inl d.gone);
      }

  with_worker-IsOrderly :
      (q : Restart) (s : Server t Item) (r : Registry) (p pid : ℕ)
      → IsCoherent r
      → WithinLimit r
      → IsOrderly (with_worker q (record s { registry = r }) p pid)
  unfolding with_worker on_session
  with_worker-IsOrderly q s r p pid c w = record {
    coherent = on_session-IsCoherent r p (λ x. record x { worker_pid = pid }) c refl refl;
    within = w;
  }

  with_client-Touches :
      (o : Outside) (q : Restart) (s : Server t Item) (r : Registry) (p pid : ℕ) (alive : Bool)
      → (q.meta.id == "") ≡ false
      → Registry.get s.registry q.meta.id ≡ none
      → Added s.registry q.meta.id q.meta.binary_path r p
      → Touches q.meta.id s
          (with_client o q (with_worker q (record s { registry = r }) p pid) alive)
  unfolding with_client with_worker on_session Registry.get
  with_client-Touches o q s r p pid true named fresh a = record {
    orderly = record {
      coherent =
          on_session-IsCoherent r p (λ x. record x { worker_pid = pid }) a.coherent refl refl;
      within = a.within;
    };
    sessions = λ k h. a.by_ids k ∙ rw h refl;
    clients = λ k h. started_client s.workers q.meta.id k pid ∙ rw h refl;
    stages = λ k h. recorded_stage s.progress q.meta.id k q.now h;
    own = inr (
      fresh,
      inr (
        (pid, started_client s.workers q.meta.id q.meta.id pid ∙ rw (same_self q.meta.id) refl),
        gate_closed s.progress q.meta.id q.now named,
      ),
    );
  }
  with_client-Touches o q s r p pid false named fresh a =
      discard-Touches o q.meta.id s
        (record (with_worker q (record s { registry = r }) p pid) {
          workers =
              Workers.stop o.stops
                (Workers.exited (Workers.start s.workers q.meta.id pid) q.meta.id) q.meta.id;
        })
        (record {
          coherent =
              on_session-IsCoherent r p (λ x. record x { worker_pid = pid }) a.coherent refl refl;
          within = a.within;
        })
        fresh (λ k h. a.by_ids k ∙ rw h refl)
        (λ k h.
          stopped_client o.stops (Workers.start s.workers q.meta.id pid) q.meta.id k h
          ∙ started_client s.workers q.meta.id k pid
          ∙ rw h refl)
        refl

  restart_worker-Touches :
      (o : Outside) (q : Restart) (s : Server t Item) (r : Registry) (p : ℕ) (launched : Option ℕ)
      → (q.meta.id == "") ≡ false
      → Registry.get s.registry q.meta.id ≡ none
      → Added s.registry q.meta.id q.meta.binary_path r p
      → Touches q.meta.id s (restart_worker o q (record s { registry = r }) p launched)
  unfolding restart_worker
  restart_worker-Touches o q s r p none named fresh a =
      discard-Touches o q.meta.id s (record s { registry = r })
        (record { coherent = a.coherent; within = a.within }) fresh (λ k h. a.by_ids k ∙ rw h refl)
        (λ k h. refl) refl
  restart_worker-Touches o q s r p (some pid) named fresh a =
      with_client-Touches o q s r p pid q.alive named fresh a

  result-Touches :
      (o : Outside) (q : Restart) (s : Server t Item) (out : Result)
      → out ≡ restore s.registry q.meta
      → IsOrderly s
      → (q.meta.id == "") ≡ false
      → Outcome s.registry q.meta.id q.meta.binary_path out
      → Touches q.meta.id s (restore_result o q s out)
  unfolding restore_result
  result-Touches o q s (err e) made i named a = same-Touches q.meta.id s i
  result-Touches o q s (ok r p) made i named a =
      restart_worker-Touches o q s r p q.launched named
        (restore_fresh s.registry q.meta r p (sym made)) a

  pub restore_one-Touches :
      (o : Outside) (q : Restart) (s : Server t Item)
      → IsOrderly s
      → (q.meta.id == "") ≡ false
      → Touches q.meta.id s (restore_one o q s)
  unfolding restore_one
  restore_one-Touches o q s i named = go q.accessible
    where
      go :
          (b : Bool)
          → Touches q.meta.id s (
              if b
              then restore_result o q s (restore s.registry q.meta)
              else record s { saved = delete_session_state o s.saved q.meta.id })
      go true =
          result-Touches o q s (restore s.registry q.meta) refl i named
            (restore-Outcome s.registry q.meta i.coherent i.within)
      go false = record {
        orderly = record { coherent = i.coherent; within = i.within };
        sessions = λ k h. refl;
        clients = λ k h. refl;
        stages = λ k h. refl;
        own = inl (refl, refl, refl);
      }
