-- ===== src/Cache/Notes.antt =====
-- The notes of a session: a visit keeps the note that is there, and pruning drops what is cached for
-- exactly the addresses that have a note.
use ida_pilot.Common.{
  number_key, string_key, ◌==◌, ℕ, ◌+◌, ◌≡◌, refl, sym, ap, ◌∙◌, String, Bool, false, not, ◌&&◌,
  ◌||◌, [], ◌∷◌, Option, none, some, arith, eqb, if◌then◌else◌, Option-cases, Bool-cases, inl, inr,
  eq_of_same,
}
use ida_pilot.Common.Map
use ida_pilot.Common.Map.{Map, lookup-delete, lookup-insert}
use ida_pilot.Cache.{
  SessionCache, AnalysisNote, or_empty, prune_from, prune_decomp, prune_xrefs, prune_loop,
  prune_noted_functions, get_xrefs, mark_visited, get_visited, find_in, drop_from, visit,
}
use ida_pilot.Cache.Entries.{text_of, Healthy, prune_from-text_of}

-- Whether an address has a note that is not empty.
unfoldable pub noted : Map ℕ AnalysisNote → ℕ → Bool
noted [] a = false
noted ((b, n) ∷ rest) a = (eqb b a && not (n.note == "")) || noted rest a

-- The note of an address; no note, and an empty one, are the same.
unfoldable pub note_of : Option AnalysisNote → String
note_of none = ""
note_of (some n) = n.note

drop_from-find_in :
    {V : Type 0} (o : Option (Map ℕ V)) (a b : ℕ)
    → find_in (drop_from o a).0 b ≡ (if a == b then none else find_in o b)
unfolding drop_from find_in
drop_from-find_in none a b = ground arith
drop_from-find_in (some m) a b =
    ground (arith, lookup-delete a b m, number_key.same_iff a b, Option-cases (Map.lookup a m))

visit_lem :
    (o : Option AnalysisNote) (ts : ℕ) (note : String)
    → visit o ts note ≡ record { timestamp = ts; note = if note == "" then note_of o else note }
unfolding visit note_of
visit_lem none ts note = elim (Bool-cases (note == "")) [
  | inl e ↦ ap (λ n. record { timestamp = ts; note = n }) (eq_of_same note "" e ∙ rw e refl)
  | inr e ↦ rw e
]
visit_lem (some n) ts note = elim (Bool-cases (note == "")) [ inl e ↦ rw e | inr e ↦ rw e ]

pub find_in-lookup :
    {V : Type 0} (o : Option (Map ℕ V)) (a : ℕ) → find_in o a ≡ Map.lookup a (or_empty o)
unfolding find_in Map.lookup
find_in-lookup none a = refl
find_in-lookup (some m) a = refl

module _ {Item : Type 0} where
  -- What a pruned cache holds, by the notes that were gone through.
  pub record Pruned (m : Map ℕ AnalysisNote) (c out : SessionCache Item) : Type 0 where
    pub texts : (a : ℕ) → text_of out.decomp a ≡ (if noted m a then none else text_of c.decomp a)
    pub references : (a : ℕ) → get_xrefs out a ≡ (if noted m a then none else get_xrefs c a)
    pub healthy : Healthy out.decomp
    pub notes_kept : out.visited ≡ c.visited
    pub lists_kept :
        (out.strings ≡ c.strings)
        × (out.functions ≡ c.functions)
        × (out.imports ≡ c.imports)
        × (out.exports ≡ c.exports)
        × (out.segments ≡ c.segments)

  prune_loop-Pruned :
      (m : Map ℕ AnalysisNote) (c : SessionCache Item) (count : ℕ)
      → Healthy c.decomp
      → Pruned m c (prune_loop m c count).0
  unfolding prune_loop noted prune_decomp prune_xrefs get_xrefs
  prune_loop-Pruned [] c count w = record {
    texts = λ a. refl;
    references = λ a. refl;
    healthy = w;
    notes_kept = refl;
    lists_kept = (refl, refl, refl, refl, refl);
  }
  prune_loop-Pruned ((b, n) ∷ rest) c count w =
      let d = prune_from c.decomp b in
      let x = drop_from c.xrefs b in
      let q =
        prune_loop-Pruned rest (record c { decomp = d.0; xrefs = x.0 }) (count + d.1 + x.1)
          (prune_from-text_of c.decomp b b w).1 in
      elim (Bool-cases (n.note == "")) [
        | inl plain ↦
            let p = prune_loop-Pruned rest c count w in
            rw plain (record {
              texts = λ a. ground (arith, p.texts a, plain);
              references = λ a. ground (arith, p.references a, plain);
              healthy = p.healthy;
              notes_kept = p.notes_kept;
              lists_kept = p.lists_kept;
            })
        | inr own ↦ rw own (record {
          texts = λ a. ground (
            arith,
            q.texts a,
            (prune_from-text_of c.decomp b a w).0,
            own,
            number_key.same_iff b a,
          );
          references = λ a.
              ground (
                arith,
                q.references a,
                drop_from-find_in c.xrefs b a,
                own,
                number_key.same_iff b a,
              );
          healthy = q.healthy;
          notes_kept = q.notes_kept;
          lists_kept = q.lists_kept;
        })
      ]

  -- Pruning drops the pseudocode and the references that are cached for exactly the addresses that have
  -- a note, in whatever order the notes stand, and keeps the notes and the lists.
  pub prune_noted_functions-Pruned :
      (c : SessionCache Item)
      → Healthy c.decomp
      → Pruned (or_empty c.visited) c (prune_noted_functions c).0
  unfolding prune_noted_functions
  prune_noted_functions-Pruned c w = prune_loop-Pruned (or_empty c.visited) c 0 w

  -- A visit sets the time of its address and leaves every other one; it replaces the note, if it comes
  -- with one, and otherwise keeps the note that is there.
  pub mark_visited_lem :
      (c : SessionCache Item) (addr ts : ℕ) (note : String) (a : ℕ)
      → find_in (get_visited (mark_visited c addr ts note)) a ≡ (
          if addr == a
          then some (record {
            timestamp = ts;
            note = if note == "" then note_of (find_in (get_visited c) addr) else note;
          })
          else find_in (get_visited c) a)
  unfolding mark_visited get_visited find_in
  mark_visited_lem c addr ts note a =
      let m : Map ℕ AnalysisNote = or_empty c.visited in
      lookup-insert addr a (visit (Map.lookup addr m) ts note) m
      ∙ ap (λ n. if addr == a then some n else Map.lookup a m)
          (visit_lem (Map.lookup addr m) ts note
            ∙ ap (λ o. record { timestamp = ts; note = if note == "" then note_of o else note })
                (sym (find_in-lookup c.visited addr)))
      ∙ ap
          (λ o.
            if addr == a
            then some (record {
              timestamp = ts;
              note = if note == "" then note_of (find_in c.visited addr) else note;
            })
            else o)
          (sym (find_in-lookup c.visited a))
