-- ===== src/Lifecycle/Open.antt =====
-- Opening a binary: what each outcome of `openBinary` leaves behind.
use ida_pilot.Common.{
  string_key, ◌==◌, ℕ, ◌≡◌, refl, sym, is_some, ◌&&◌, ap, ◌∙◌, String, Bool, true, false, Option,
  none, some, arith, if◌then◌else◌,
}
use ida_pilot.Common.Map
use ida_pilot.Common.Map.{Map, lookup-insert, lookup-delete, lookup-delete_self, lookup-insert_self}
use ida_pilot.Cache.{delete_session_cache}
use ida_pilot.Progress.{
  ProgressStore, still, get_progress, record_progress, clear_progress, readiness_error, stage_error,
  in_progress,
}
use ida_pilot.Registry
use ida_pilot.Registry.{Registry, create, find_by_binary_path, on_session, is_full, metadata}
use ida_pilot.Registry.Coherent.{
  IsCoherent, WithinLimit, Added, create-Outcome, delete-Deleted, on_session-IsCoherent,
}
use ida_pilot.Tiers.{ToolServer, promote_to_tier}
use ida_pilot.Workers
use ida_pilot.Workers.{get_client}
use ida_pilot.Lifecycle.{
  Outside, Request, Server, Opening, reused, refused, not_started, opening, drop_session, promote,
  running, after_start, start_session, open_created, open_known, open_binary, snapshot,
  persist_session,
}
use ida_pilot.Lifecycle.Forget.{IsOrderly}

-- Writing the process ID into the session object leaves the maps as they are.
running-IsCoherent :
    (r : Registry) (p pid : ℕ)
    → IsCoherent r
    → WithinLimit r
    → let r' = on_session r p (λ x. record x { worker_pid = pid }) in
      IsCoherent r'
      × WithinLimit r'
      × (r'.sessions ≡ r.sessions)
      × (r'.binary_index ≡ r.binary_index)
unfolding on_session
running-IsCoherent r p pid c w =
    (on_session-IsCoherent r p (λ x. record x { worker_pid = pid }) c refl refl, w, refl, refl)

client_started :
    (w : Workers.Workers) (id : String) (pid : ℕ)
    → get_client (Workers.start w id pid) id ≡ some pid
unfolding get_client Workers.start
client_started w id pid = lookup-insert_self id pid w

-- The stage "opening" keeps the tools out.
gate_closed :
    (store : ProgressStore) (id : String) (now : ℕ)
    → (id == "") ≡ false
    → readiness_error (record_progress store id (snapshot "opening" 4 now)) id
      ≡ some (still "opening")
unfolding readiness_error record_progress get_progress stage_error in_progress snapshot
gate_closed store id now named =
    rw named (ap stage_error (lookup-insert_self id (snapshot "opening" 4 now) store))

-- The worker whose process has ended before its client is asked for.
ended_workers :
    (w : Workers.Workers) (stops : Bool) (id k : String) (pid : ℕ)
    → get_client (Workers.stop stops (Workers.exited (Workers.start w id pid) id) id) k
      ≡ (if id == k then none else get_client w k)
unfolding get_client Workers.stop Workers.exited Workers.start
ended_workers w stops id k pid =
    let m = Map.insert id pid w in
    let gone : Map.lookup id (Map.delete id m) ≡ none = lookup-delete_self id m in
    rw (gone, Workers.stop) (lookup-delete id k m ∙ ground (arith, lookup-insert id k pid w))

module _ {t : ToolServer} {Item : Type 0} where
  -- What a failed start leaves: the sessions, records and tools that there were, and nothing under the new
  -- ID, but for a worker that ran under it already.
  pub record Undone (q : Request) (s s' : Server t Item) : Type 0 where
    pub orderly : IsOrderly s'
    pub sessions : (k : String) → Registry.get s'.registry k ≡ Registry.get s.registry k
    pub texts :
        (k : String) → Map.lookup k s'.caches ≡ (if q.id == k then none else Map.lookup k s.caches)
    pub stages :
        (k : String)
        → get_progress s'.progress k ≡ (if q.id == k then none else get_progress s.progress k)
    pub workers :
        (k : String)
        → get_client s'.workers k
          ≡ (if q.id == k && is_some q.launched then none else get_client s.workers k)
    pub records : s'.saved ≡ s.saved
    pub tools : s'.tiers ≡ s.tiers

  -- What a successful start leaves: the session is found by its ID and its path, it has a worker, it is
  -- recorded, and the gate keeps the tools out until it is loaded; other sessions are found as before.
  pub record Begun (o : Outside) (q : Request) (s s' : Server t Item) : Type 0 where
    pub orderly : IsOrderly s'
    pub session : ℕ
    pub by_path : find_by_binary_path s'.registry q.path ≡ some session
    pub sessions :
        (k : String)
        → Registry.get s'.registry k
          ≡ (if q.id == k then some session else Registry.get s.registry k)
    pub worker : get_client s'.workers q.id ≡ q.launched
    pub records : s'.saved ≡ persist_session o s.saved q.id (metadata (s'.registry.heap session))
    pub tools : s'.tiers ≡ promote_to_tier t 1 s.tiers
    pub loading : readiness_error s'.progress q.id ≡ some (still "opening")

  -- By what the launch gave, for a session that was created.
  abbrev pub Starts :
      Outside
      → Request
      → Server t Item
      → (launched : Option ℕ) → (alive : Bool) → Server t Item × Opening
      → Type 0
  Starts o q s none alive r = (r.1 ≡ not_started) × Undone q s r.0
  Starts o q s (some pid) false r = (r.1 ≡ not_started) × Undone q s r.0
  Starts o q s (some pid) true r = (r.1 ≡ opening q.id) × Begun o q s r.0

  -- By whether the registry has room, for a path without a session.
  abbrev pub Creates :
      Outside → Request → Server t Item → (full : Bool) → Server t Item × Opening → Type 0
  Creates o q s true r = r ≡ (s, refused)
  Creates o q s false r = Starts o q s q.launched q.alive r

  -- By the session that the path has.
  abbrev pub Opens :
      Outside → Request → Server t Item → (known : Option ℕ) → Server t Item × Opening → Type 0
  Opens o q s (some p) r =
      r ≡ (record s { tiers = promote_to_tier t 1 s.tiers }, reused (s.registry.heap p).id)
  Opens o q s none r = Creates o q s (is_full s.registry) r

  -- Dropping the session that was just added, whatever else was done to the object.
  dropped :
      (q : Request) (s s1 : Server t Item) (p : ℕ)
      → IsOrderly s1
      → (q.id == "") ≡ false
      → Registry.get s.registry q.id ≡ none
      → ((k : String)
          → Registry.get s1.registry k ≡ (if q.id == k then some p else Registry.get s.registry k))
      → s1.caches ≡ s.caches
      → ((k : String) → q.id == k ≡ false → get_progress s1.progress k ≡ get_progress s.progress k)
      → ((k : String)
          → get_client s1.workers k
            ≡ (if q.id == k && is_some q.launched then none else get_client s.workers k))
      → s1.saved ≡ s.saved
      → s1.tiers ≡ s.tiers
      → Undone q s (drop_session s1 q.id)
  unfolding drop_session delete_session_cache clear_progress get_progress
  dropped q s s1 p i named fresh sessions caches stages workers records tools =
      let d = delete-Deleted s1.registry q.id i.coherent i.within in
      record {
        orderly = record { coherent = d.coherent; within = d.within };
        sessions = λ k. ground (arith, d.others k, sessions k, string_key.same_iff q.id k, fresh);
        texts = λ k.
            lookup-delete q.id k s1.caches
            ∙ ap (λ c. if q.id == k then none else Map.lookup k c) caches;
        stages = λ k. rw named (ground (arith, lookup-delete q.id k s1.progress, stages k));
        workers = workers;
        records = records;
        tools = tools;
      }

  -- The server once the session is created and its first stage recorded.
  created : Request → Server t Item → Registry → Server t Item
  created q s r = record s {
    registry = r;
    progress = record_progress s.progress q.id (snapshot "starting" 0 q.now);
  }

  started_stage :
      (q : Request) (s : Server t Item) (k : String)
      → (q.id == "") ≡ false
      → q.id == k ≡ false
      → get_progress (record_progress s.progress q.id (snapshot "starting" 0 q.now)) k
        ≡ get_progress s.progress k
  unfolding record_progress get_progress
  started_stage q s k named other =
      rw named (lookup-insert q.id k (snapshot "starting" 0 q.now) s.progress ∙ rw other refl)

  after_start-Starts :
      (o : Outside) (q : Request) (s : Server t Item) (r : Registry) (p pid : ℕ) (alive : Bool)
      → some pid ≡ q.launched
      → (q.id == "") ≡ false
      → Registry.get s.registry q.id ≡ none
      → Added s.registry q.id q.path r p
      → Starts o q s (some pid) alive (after_start o q (running q (created q s r) p pid) p alive)
  unfolding after_start running created Registry.get find_by_binary_path promote
  after_start-Starts o q s r p pid true e named fresh a =
      let w = running-IsCoherent r p pid a.coherent a.within in
      (
        refl,
        record {
          orderly = record { coherent = w.0; within = w.1 };
          session = p;
          by_path = ap (Map.lookup q.path) w.3 ∙ a.by_path;
          sessions = λ k. ap (Map.lookup k) w.2 ∙ a.by_ids k;
          worker = client_started s.workers q.id pid ∙ e;
          records = refl;
          tools = refl;
          loading = gate_closed _ q.id q.now named;
        },
      )
  after_start-Starts o q s r p pid false e named fresh a =
      let w = running-IsCoherent r p pid a.coherent a.within in
      let launched : is_some q.launched ≡ true = ap is_some (sym e) in
      (
        refl,
        dropped q s _ p (record { coherent = w.0; within = w.1 }) named fresh
            (λ k. ap (Map.lookup k) w.2 ∙ a.by_ids k) refl
            (λ k other. started_stage q s k named other)
            (λ k. ended_workers s.workers o.stops q.id k pid ∙ ground (arith, launched)) refl refl,
      )

  start_session-Starts :
      (o : Outside) (q : Request) (s : Server t Item) (r : Registry) (p : ℕ) (launched : Option ℕ)
      → launched ≡ q.launched
      → (q.id == "") ≡ false
      → Registry.get s.registry q.id ≡ none
      → Added s.registry q.id q.path r p
      → Starts o q s launched q.alive (start_session o q (created q s r) p launched)
  unfolding start_session created
  start_session-Starts o q s r p none e named fresh a =
      let launched : is_some q.launched ≡ false = ap is_some (sym e) in
      (
        refl,
        dropped q s (created q s r) p (record { coherent = a.coherent; within = a.within }) named
            fresh a.by_ids refl (λ k other. started_stage q s k named other)
            (λ k. ground (arith, launched)) refl refl,
      )
  start_session-Starts o q s r p (some pid) e named fresh a =
      after_start-Starts o q s r p pid q.alive e named fresh a

  open_created-Creates :
      (o : Outside) (q : Request) (s : Server t Item) (full : Bool)
      → is_full s.registry ≡ full
      → IsOrderly s
      → (q.id == "") ≡ false
      → Registry.get s.registry q.id ≡ none
      → Creates o q s full (open_created o q s (create s.registry q.id q.path q.timeout q.now))
  unfolding open_created created create Registry.get
  open_created-Creates o q s true e i named fresh = rw (e, open_created) refl
  open_created-Creates o q s false e i named fresh =
      let a = create-Outcome s.registry q.id q.path q.timeout q.now i.coherent i.within fresh in
      rw (e, open_created) (start_session-Starts o q s _ _ q.launched refl named fresh (rw e at a))

  open_known-Opens :
      (o : Outside) (q : Request) (s : Server t Item) (known : Option ℕ)
      → IsOrderly s
      → (q.id == "") ≡ false
      → Registry.get s.registry q.id ≡ none
      → Opens o q s known (open_known o q s known)
  unfolding open_known promote
  open_known-Opens o q s (some p) i named fresh = refl
  open_known-Opens o q s none i named fresh =
      open_created-Creates o q s (is_full s.registry) refl i named fresh

  pub open_binary-Opens :
      (o : Outside) (q : Request) (s : Server t Item)
      → IsOrderly s
      → (q.id == "") ≡ false
      → Registry.get s.registry q.id ≡ none
      → Opens o q s (find_by_binary_path s.registry q.path) (open_binary o q s)
  unfolding open_binary
  open_binary-Opens o q s i named fresh =
      open_known-Opens o q s (find_by_binary_path s.registry q.path) i named fresh
