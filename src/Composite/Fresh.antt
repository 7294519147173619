-- ===== src/Composite/Fresh.antt =====
-- An analysis shows what the worker replies, whether it is cached or not and in whatever order its tasks
-- end, as long as the cache holds only what the worker replies; and it keeps the cache so.
use ida_pilot.Common.{
  number_key, string_key, ◌≡◌, ◌∙◌, inl, inr, refl, sym, ap, ℕ, String, Bool, true, false, List, [],
  ◌∷◌, none, some, if◌then◌else◌, Option-cases, map,
}
use ida_pilot.Common.Map
use ida_pilot.Common.Map.{Map}
use ida_pilot.Cache.{SessionCache, XrefsEntry, get_decomp, get_xrefs, set_xrefs, mark_visited}
use ida_pilot.Parallel.{
  Takes, here, there, Arrives, all_ended, ends, Returned, value, error, run_labeled, drain,
}
use ida_pilot.Parallel.Labeled.{run_labeled_lem, value_or, error_or}
use ida_pilot.Composite.Faithful.{
  Faithful, get_decomp-Faithful, get_decomp-text_of, set_decomp-Faithful, set_xrefs-Faithful,
}
use ida_pilot.Composite.Shown.{
  lift, both, value_of, error_of, fresh_result, decompiled_entries-code_shown,
  reply_entries-info_shown, xrefs_entries-xrefs_shown, comment_entries-comment_shown,
}
use ida_pilot.Composite.{
  Worker, CacheItem, TaskValue, Task, as_code, as_info, as_xrefs, as_comment, ask_decompiled,
  ask_info, ask_xrefs, ask_comment, key_of, all_tasks, Reference, or_nil, join_errors, ask_both,
  store_entry, store_code, pass_on, run_task, run_tasks,
}
use ida_pilot.Composite.Result.{result_of}
use ida_pilot.Composite.Single.{analyze_single_function}

value_or-value_of : {V E : Type 0} (r : Returned V E) → value_or (some r) none ≡ value_of r
value_or-value_of (value v) = refl
value_or-value_of (error e) = refl

error_or-error_of : {V E : Type 0} (r : Returned V E) → error_or (some r) none ≡ error_of r
error_or-error_of (value v) = refl
error_or-error_of (error e) = refl

Takes-map :
    {A B : Type 0} {x : A} {l rest : List A} (f : A → B)
    → Takes x l rest
    → Takes (f x) (map f l) (map f rest)
Takes-map f here = here
Takes-map f (there t) = there (Takes-map f t)

pub Arrives-map :
    {A B : Type 0} {l order : List A} (f : A → B)
    → Arrives l order
    → Arrives (map f l) (map f order)
Arrives-map f all_ended = all_ended
Arrives-map f (ends t more) = ends (Takes-map f t) (Arrives-map f more)

module _ {Item : Type 0} where
  -- What a task gives that asks the worker.
  abbrev pub fresh : Worker → ℕ → Task → Returned (TaskValue Item) (List String)
  fresh w addr ask_decompiled = pass_on as_code (w.decompiled addr)
  fresh w addr ask_info = pass_on as_info (w.function_info addr)
  fresh w addr ask_xrefs = lift as_xrefs (both (w.xrefs_to addr) (w.xrefs_from addr))
  fresh w addr ask_comment = pass_on as_comment (w.func_comment addr)

  abbrev stored :
      SessionCache (CacheItem Item)
      → ℕ
      → Returned (XrefsEntry (CacheItem Item)) (List String)
      → SessionCache (CacheItem Item) × Returned (TaskValue Item) (List String)
  stored c addr (value entry) = (set_xrefs c addr entry, value (as_xrefs entry))
  stored c addr (error e) = (c, error e)

  store_entry_lem :
      (to_first : Bool) (xs ys : Returned (List Reference) String) (addr : ℕ)
      (c : SessionCache (CacheItem Item))
      → store_entry c addr (
          if to_first
          then run_labeled (("to", xs) ∷ ("from", ys) ∷ [])
          else run_labeled (("from", ys) ∷ ("to", xs) ∷ []))
        ≡ stored c addr (both xs ys)
  unfolding store_entry join_errors or_nil run_labeled drain Map.lookup Map.insert
  store_entry_lem true (value xs) (value ys) addr c = refl
  store_entry_lem true (value xs) (error f) addr c = refl
  store_entry_lem true (error e) (value ys) addr c = refl
  store_entry_lem true (error e) (error f) addr c = refl
  store_entry_lem false (value xs) (value ys) addr c = refl
  store_entry_lem false (value xs) (error f) addr c = refl
  store_entry_lem false (error e) (value ys) addr c = refl
  store_entry_lem false (error e) (error f) addr c = refl

  code_task :
      (w : Worker) (addr : ℕ) (c : SessionCache (CacheItem Item)) (r : Returned String String)
      → Faithful w c
      → w.decompiled addr ≡ r
      → ((store_code c addr r).1 ≡ pass_on {Item = Item} as_code r)
        × Faithful w (store_code c addr r).0
  unfolding store_code pass_on
  code_task w addr c (value code) f e = (refl, set_decomp-Faithful w c addr code f e)
  code_task w addr c (error x) f e = (refl, f)

  xrefs_task :
      (w : Worker) (addr : ℕ) (c : SessionCache (CacheItem Item))
      (r : Returned (XrefsEntry (CacheItem Item)) (List String))
      → Faithful w c
      → both (w.xrefs_to addr) (w.xrefs_from addr) ≡ r
      → ((stored c addr r).1 ≡ lift as_xrefs r) × Faithful w (stored c addr r).0
  xrefs_task w addr c (value entry) f e = (refl, set_xrefs-Faithful w c addr entry f e)
  xrefs_task w addr c (error x) f e = (refl, f)

  run_task-fresh :
      (w : Worker) (to_first : Bool) (addr : ℕ) (c : SessionCache (CacheItem Item)) (t : Task)
      → Faithful w c
      → ((run_task w to_first addr c t).1 ≡ fresh w addr t)
        × Faithful w (run_task w to_first addr c t).0
  unfolding run_task pass_on ask_both
  run_task-fresh w to_first addr c ask_decompiled f = elim (Option-cases (get_decomp c addr).1) [
    | inl miss ↦
        rw (miss, run_task)
          (code_task w addr (get_decomp c addr).0 (w.decompiled addr)
            (get_decomp-Faithful w c addr f) refl)
    | inr (code, hit) ↦
        rw (hit, run_task)
          (
            sym (
                ap (pass_on {Item = Item} as_code)
                  (f.codes addr code (sym (get_decomp-text_of w c addr f) ∙ hit))),
            get_decomp-Faithful w c addr f,
          )
  ]
  run_task-fresh w to_first addr c ask_info f = (refl, f)
  run_task-fresh w to_first addr c ask_xrefs f = elim (Option-cases (get_xrefs c addr)) [
    | inl miss ↦
        rw (miss, run_task, store_entry_lem to_first (w.xrefs_to addr) (w.xrefs_from addr) addr c)
          (xrefs_task w addr c (both (w.xrefs_to addr) (w.xrefs_from addr)) f refl)
    | inr (entry, hit) ↦ rw (hit, run_task, f.references addr entry hit) (refl, f)
  ]
  run_task-fresh w to_first addr c ask_comment f = (refl, f)

  run_tasks-fresh :
      (w : Worker) (to_first : Bool) (addr : ℕ) (ts : List Task) (c : SessionCache (CacheItem Item))
      → Faithful w c
      → ((run_tasks w to_first addr ts c).1 ≡ map (λ t. (key_of t, fresh w addr t)) ts)
        × Faithful w (run_tasks w to_first addr ts c).0
  unfolding run_tasks
  run_tasks-fresh w to_first addr [] c f = (refl, f)
  run_tasks-fresh w to_first addr (t ∷ ts) c f =
      let now = run_task-fresh w to_first addr c t f in
      let later = run_tasks-fresh w to_first addr ts (run_task w to_first addr c t).0 now.1 in
      (
        ap (λ r. (key_of t, r) ∷ (run_tasks w to_first addr ts (run_task w to_first addr c t).0).1)
              now.0
            ∙ ap (◌∷◌ (key_of t, fresh w addr t)) later.0,
        later.1,
      )

  abbrev named : Worker → ℕ → Map String (Returned (TaskValue Item) (List String))
  named w addr = map (λ t. (key_of t, fresh w addr t)) all_tasks

  named-IsMap : (w : Worker) (addr : ℕ) → Map.IsMap (named w addr)
  unfolding Map.lookup key_of
  named-IsMap w addr = (refl, (refl, (refl, (refl, tt))))

  found :
      (w : Worker) (addr : ℕ) (order : Map String (Returned (TaskValue Item) (List String)))
      (t : Task)
      → Arrives (named w addr) order
      → (Map.lookup (key_of t) (run_labeled order).0 ≡ value_of (fresh w addr t))
        × (Map.lookup (key_of t) (run_labeled order).1 ≡ error_of (fresh w addr t))
  unfolding Map.lookup key_of
  found w addr order ask_decompiled a =
      let r = run_labeled_lem (named w addr) order "decompiled" (named-IsMap w addr) a in
      (
        r.0 ∙ value_or-value_of (fresh w addr ask_decompiled),
        r.1 ∙ error_or-error_of (fresh w addr ask_decompiled),
      )
  found w addr order ask_info a =
      let r = run_labeled_lem (named w addr) order "info" (named-IsMap w addr) a in
      (
        r.0 ∙ value_or-value_of (fresh w addr ask_info),
        r.1 ∙ error_or-error_of (fresh w addr ask_info),
      )
  found w addr order ask_xrefs a =
      let r = run_labeled_lem (named w addr) order "xrefs" (named-IsMap w addr) a in
      (
        r.0 ∙ value_or-value_of (fresh w addr ask_xrefs),
        r.1 ∙ error_or-error_of (fresh w addr ask_xrefs),
      )
  found w addr order ask_comment a =
      let r = run_labeled_lem (named w addr) order "comment" (named-IsMap w addr) a in
      (
        r.0 ∙ value_or-value_of (fresh w addr ask_comment),
        r.1 ∙ error_or-error_of (fresh w addr ask_comment),
      )

  result_of-fresh :
      (w : Worker) (addr : ℕ) (order : Map String (Returned (TaskValue Item) (List String)))
      → Arrives (named w addr) order
      → result_of (run_labeled order) ≡ fresh_result w addr
  unfolding result_of key_of
  result_of-fresh w addr order a =
      let code = found w addr order ask_decompiled a in
      let refs = found w addr order ask_xrefs a in
      rw
        (
          code.0,
          code.1,
          refs.0,
          refs.1,
          (found w addr order ask_info a).0,
          (found w addr order ask_comment a).0,
          decompiled_entries-code_shown Item (w.decompiled addr),
          reply_entries-info_shown Item (w.function_info addr),
          xrefs_entries-xrefs_shown Item (w.xrefs_to addr) (w.xrefs_from addr),
          comment_entries-comment_shown Item (w.func_comment addr),
        )
        refl

  -- From a cache that holds only what the worker replies, an analysis shows the worker's replies, in
  -- whatever order its tasks end and the two calls for references do; and the cache stays so.
  pub analyze_single_function-fresh :
      (w : Worker) (order : List Task) (to_first : Bool) (now : ℕ)
      (c : SessionCache (CacheItem Item)) (addr : ℕ)
      → Arrives all_tasks order
      → Faithful w c
      → ((analyze_single_function w order to_first now c addr).1 ≡ fresh_result w addr)
        × Faithful w (analyze_single_function w order to_first now c addr).0
  unfolding analyze_single_function mark_visited get_xrefs
  analyze_single_function-fresh w order to_first now c addr a f =
      let r = run_tasks-fresh w to_first addr order c f in
      (
        ap (λ l. result_of (run_labeled l)) r.0
            ∙ result_of-fresh w addr (map (λ t. (key_of t, fresh w addr t)) order)
                (Arrives-map (λ t. (key_of t, fresh w addr t)) a),
        record { healthy = r.1.healthy; codes = r.1.codes; references = r.1.references },
      )
