-- ===== src/Composite/Edited.antt =====
-- What the composite tools that change the database, or the caches, leave for later analyses.
use ida_pilot.Common.{
  number_key, string_key, ◌==◌, ◌≡◌, ◌∙◌, ◌≤◌, refl, sym, ap, ℕ, String, Bool, true, false, List,
  ◌∷◌, Option, none, some, if◌then◌else◌, length, map,
}
use ida_pilot.Text.{Text}
use ida_pilot.Address.{hex_addr}
use ida_pilot.Cache.{
  SessionCache, invalidate_functions, invalidate_all_decomp, invalidate_all_xrefs, get_visited,
  get_xrefs, find_in, or_empty,
}
use ida_pilot.Cache.Entries.{text_of}
use ida_pilot.Cache.Notes.{noted, prune_noted_functions-Pruned}
use ida_pilot.Outputs.{OutputStore, clear, new_output_store}
use ida_pilot.Parallel.{Arrives, spawn}
use ida_pilot.Composite.{Worker, CacheItem, all_tasks}
use ida_pilot.Composite.Faithful.{Faithful}
use ida_pilot.Composite.Batch.{
  Schedule, max_batch_analyze, analyze_functions, functions, fresh_slot, analyze_functions-fresh,
}
use ida_pilot.Composite.Edits.{
  AnnotateRequest, Batch, Body, call_failed, unreadable, object, Annotated, bad_address, failed,
  parse_failed, annotated, Comments, parsed, refused, py_eval, evaluated, prune_context,
  get_analysis_context, visits,
}

some_unless :
    {V : Type 0} (b : Bool) (o : Option V) (v : V) → (if b then none else o) ≡ some v → o ≡ some v
some_unless true o v h = absurd (let e : none ≡ some v = h in cc)
some_unless false o v h = h

module _ {Item : Type 0} where
  evaluated-Faithful :
      (w : Worker) (c : SessionCache (CacheItem Item)) (body : String)
      → Faithful w (evaluated (some body) false c).0
  unfolding evaluated invalidate_functions invalidate_all_decomp invalidate_all_xrefs text_of
      get_xrefs find_in
  evaluated-Faithful w c body = record {
    healthy = tt;
    codes = λ a code h. absurd (cc);
    references = λ a entry h. absurd (cc);
  }

  -- After Python code that ran and was not declared to be read-only, whatever it changed and whatever was
  -- cached, an analysis of one to ten addresses shows what the worker then replies, in whatever order its
  -- goroutines and their tasks end.
  pub py_eval-fresh :
      (eval : String → Option String) (code body : String) (c : SessionCache (CacheItem Item))
      (w : Worker) (course : ℕ → Schedule) (ended : List (ℕ × Text)) (a : Text) (more : List Text)
      → eval code ≡ some body
      → length (a ∷ more) ≤ max_batch_analyze
      → Arrives (spawn 0 (a ∷ more)) ended
      → ((i : ℕ) → Arrives all_tasks (course i).order)
      → let r = py_eval eval true c code false in
        (r.1 ≡ some body)
        × ((analyze_functions w course ended true r.0 (a ∷ more)).1
            ≡ functions (map (fresh_slot w) (a ∷ more)))
  unfolding py_eval evaluated
  py_eval-fresh eval code body c w course ended a more ran few arrive tasks = rw ran (
    refl,
    (analyze_functions-fresh w course ended (evaluated (some body) false c).0 a more few arrive
        tasks (evaluated-Faithful w c body)).0,
  )

  -- What an annotation of the function at an address leaves once it reached the worker: no pseudocode under
  -- that address, the list of functions if there is no new name, and all else as it was.
  pub record Dropped (addr : ℕ) (name : String) (c c' : SessionCache (CacheItem Item))
      : Type 0 where
    pub texts : (a : ℕ) → text_of c'.decomp a ≡ (if addr == a then none else text_of c.decomp a)
    pub functions : c'.functions ≡ (if name == "" then c.functions else none)
    pub references : c'.xrefs ≡ c.xrefs
    pub notes : c'.visited ≡ c.visited
    pub strings : c'.strings ≡ c.strings
    pub imports : c'.imports ≡ c.imports
    pub exports : c'.exports ≡ c.exports
    pub segments : c'.segments ≡ c.segments

  -- By the request and the worker's reply: a comment at an address that does not parse, and a call that
  -- fails, change nothing.
  abbrev pub ByReply :
      ℕ
      → String
      → Body
      → SessionCache (CacheItem Item)
      → SessionCache (CacheItem Item) × Annotated
      → Type 0
  ByReply addr name call_failed c r = r ≡ (c, failed)
  ByReply addr name unreadable c r = (r.1 ≡ parse_failed) × Dropped addr name c r.0
  ByReply addr name object c r = (r.1 ≡ annotated (hex_addr addr)) × Dropped addr name c r.0

  abbrev pub Annotates :
      (Batch → Body)
      → AnnotateRequest
      → ℕ
      → Comments
      → SessionCache (CacheItem Item)
      → SessionCache (CacheItem Item) × Annotated
      → Type 0
  Annotates reply q addr (refused e) c r = r ≡ (c, bad_address e)
  Annotates reply q addr (parsed cs) c r =
      ByReply addr q.name
        (reply (record {
          address = addr;
          name = q.name;
          comment = q.comment;
          renames = q.renames;
          retypes = q.retypes;
          decompiler_comments = cs;
        }))
        c r

  -- Pruning empties the output store and keeps the notes, so that the context reads as before; the cache
  -- still holds only what the worker replies: every list, and all pseudocode and references but those of the
  -- addresses with a note.
  pub prune_context-keeps :
      (w : Worker) (o : OutputStore) (c : SessionCache (CacheItem Item))
      → Faithful w c
      → let r = (prune_context true o c).0 in
        (r.0 ≡ new_output_store)
        × (get_analysis_context true r.1 ≡ get_analysis_context true c)
        × Faithful w r.1
        × ((a : ℕ)
            → (text_of r.1.decomp a
                ≡ (if noted (or_empty c.visited) a then none else text_of c.decomp a))
              × (get_xrefs r.1 a ≡ (if noted (or_empty c.visited) a then none else get_xrefs c a)))
        × (r.1.visited ≡ c.visited)
        × (r.1.strings ≡ c.strings)
        × (r.1.functions ≡ c.functions)
        × (r.1.imports ≡ c.imports)
        × (r.1.exports ≡ c.exports)
        × (r.1.segments ≡ c.segments)
  unfolding prune_context clear get_analysis_context get_visited
  prune_context-keeps w o c f =
      let p = prune_noted_functions-Pruned c f.healthy in
      (
        refl,
        ap (λ v. some (visits (or_empty v))) p.notes_kept,
        record {
          healthy = p.healthy;
          codes = λ a code h. f.codes a code (
              some_unless (noted (or_empty c.visited) a) (text_of c.decomp a) code
                (sym (p.texts a) ∙ h));
          references = λ a entry h. f.references a entry (
              some_unless (noted (or_empty c.visited) a) (get_xrefs c a) entry
                (sym (p.references a) ∙ h));
        },
        λ a. (p.texts a, p.references a),
        p.notes_kept,
        p.lists_kept.0,
        p.lists_kept.1,
        p.lists_kept.2,
        p.lists_kept.3,
        p.lists_kept.4,
      )
