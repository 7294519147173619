-- ===== src/Composite/Edits.antt =====
-- internal/server/composite.go: `annotateFunction`, the notes of a session, `pruneContext` and `pyEval`,
-- as what each does to the caches and what it answers.
-- The session resolution, the worker's reply and the time are arguments.
use ida_pilot.Common.{
  string_key, ◌==◌, ℕ, String, Bool, true, false, List, [], ◌∷◌, Option, none, some, if◌then◌else◌,
}
use ida_pilot.Common.Map.{Map}
use ida_pilot.Text.{Text}
use ida_pilot.Address.{Parsed, AddrError, ok, err, parse_addr, hex_addr}
use ida_pilot.Cache.{
  SessionCache, AnalysisNote, or_empty, invalidate_functions, invalidate_decomp,
  invalidate_all_decomp, invalidate_all_xrefs, set_note, get_visited, prune_noted_functions,
}
use ida_pilot.Outputs.{OutputStore, clear}

pub record DecompComment : Type 0 where
  pub address : Text
  pub comment : String

-- `AnnotateFunctionRequest`; a pair is a current name with a new one, or with a type.
pub record AnnotateRequest : Type 0 where
  pub address : Text
  pub name : String
  pub comment : String
  pub renames : List (String × String)
  pub retypes : List (String × String)
  pub decomp_comments : List DecompComment

-- The payload of the one call that annotates.
pub record Batch : Type 0 where
  pub address : ℕ
  pub name : String
  pub comment : String
  pub renames : List (String × String)
  pub retypes : List (String × String)
  pub decompiler_comments : List (ℕ × String)

-- The reply: a failure, a body that is no object, or one, which gets the address.
pub data Body : Type 0 where
  call_failed : Body
  unreadable : Body
  object : Body

pub data Annotated : Type 0 where
  unresolved : Annotated
  bad_address : AddrError → Annotated
  failed : Annotated
  parse_failed : Annotated
  annotated : Text → Annotated

-- The comments with their parsed addresses, or the first error.
pub data Comments : Type 0 where
  parsed : List (ℕ × String) → Comments
  refused : AddrError → Comments

unfoldable pub add_comment : Parsed → String → Comments → Comments
add_comment (err e) comment rest = refused e
add_comment (ok addr) comment (refused e) = refused e
add_comment (ok addr) comment (parsed cs) = parsed ((addr, comment) ∷ cs)

unfoldable pub parse_comments : List DecompComment → Comments
unfolding add_comment
parse_comments [] = parsed []
parse_comments (c ∷ cs) = add_comment (parse_addr c.address) c.comment (parse_comments cs)

-- An entry of the answer of `getAnalysisContext`, without a note if it is empty.
pub record Visit : Type 0 where
  pub address : Text
  pub t : ℕ
  pub note : Option String

unfoldable pub visits : Map ℕ AnalysisNote → List Visit
visits [] = []
visits ((addr, n) ∷ rest) =
    record {
      address = hex_addr addr;
      t = n.timestamp;
      note = if n.note == "" then none else some n.note;
    }
    ∷ visits rest

module _ {Item : Type 0} where
  -- What an annotation invalidates.
  unfoldable pub annotated_cache : SessionCache Item → ℕ → (name : String) → SessionCache Item
  annotated_cache c addr name =
      if name == ""
      then invalidate_decomp c addr
      else invalidate_decomp (invalidate_functions c) addr

  unfoldable pub on_body :
      SessionCache Item → AnnotateRequest → ℕ → Body → SessionCache Item × Annotated
  unfolding annotated_cache
  on_body c q addr call_failed = (c, failed)
  on_body c q addr unreadable = (annotated_cache c addr q.name, parse_failed)
  on_body c q addr object = (annotated_cache c addr q.name, annotated (hex_addr addr))

  unfoldable pub annotate_batch :
      (Batch → Body)
      → SessionCache Item
      → AnnotateRequest
      → ℕ
      → Comments
      → SessionCache Item × Annotated
  unfolding on_body
  annotate_batch reply c q addr (refused e) = (c, bad_address e)
  annotate_batch reply c q addr (parsed comments) = on_body c q addr (
      reply (record {
        address = addr;
        name = q.name;
        comment = q.comment;
        renames = q.renames;
        retypes = q.retypes;
        decompiler_comments = comments;
      }))

  unfoldable pub annotate_at :
      (Batch → Body) → SessionCache Item → AnnotateRequest → Parsed → SessionCache Item × Annotated
  unfolding annotate_batch parse_comments
  annotate_at reply c q (err e) = (c, bad_address e)
  annotate_at reply c q (ok addr) = annotate_batch reply c q addr (parse_comments q.decomp_comments)

  unfoldable pub annotate_function :
      (Batch → Body)
      → (resolved : Bool) → SessionCache Item
      → AnnotateRequest
      → SessionCache Item × Annotated
  unfolding annotate_at
  annotate_function reply resolved c q =
      if resolved then annotate_at reply c q (parse_addr q.address) else (c, unresolved)

  unfoldable pub note_at : SessionCache Item → ℕ → String → Parsed → SessionCache Item × Bool
  note_at c now note (err e) = (c, false)
  note_at c now note (ok addr) = (set_note c addr now note, true)

  -- `setAnalysisNote`, and whether it answers ok.
  unfoldable pub set_analysis_note :
      (resolved : Bool)
      → (now : ℕ) → SessionCache Item
      → (address : Text) → (note : String) → SessionCache Item × Bool
  unfolding note_at
  set_analysis_note resolved now c address note =
      if resolved then note_at c now note (parse_addr address) else (c, false)

  unfoldable pub get_analysis_context : (resolved : Bool) → SessionCache Item → Option (List Visit)
  unfolding visits
  get_analysis_context resolved c =
      if resolved then some (visits (or_empty (get_visited c))) else none

  -- `pruneContext`, and how many outputs and cached entries it drops.
  unfoldable pub prune_context :
      (resolved : Bool)
      → OutputStore
      → SessionCache Item
      → (OutputStore × SessionCache Item) × Option (ℕ × ℕ)
  prune_context resolved o c =
      let cleared = clear o in
      let pruned = prune_noted_functions c in
      if resolved then ((cleared.0, pruned.0), some (cleared.1, pruned.1)) else ((o, c), none)

  unfoldable pub evaluated :
      Option String → (read_only : Bool) → SessionCache Item → SessionCache Item × Option String
  evaluated none read_only c = (c, none)
  evaluated (some body) read_only c =
      if read_only
      then (c, some body)
      else (invalidate_all_xrefs (invalidate_all_decomp (invalidate_functions c)), some body)

  unfoldable pub py_eval :
      (String → Option String)
      → (resolved : Bool) → SessionCache Item
      → (code : String) → (read_only : Bool) → SessionCache Item × Option String
  unfolding evaluated
  py_eval eval resolved c code read_only =
      if resolved then evaluated (eval code) read_only c else (c, none)
