-- ===== src/Parallel/Report.antt =====
-- `inspect` shows what the replies say, in whatever order they come.
use ida_pilot.Common.{
  string_key, ◌≡◌, refl, Bool, true, false, String, List, [], ◌∷◌, ◌++◌, ◌||◌, ap, ◌∙◌, Option,
  none, some, is_some, arith, ℕ, if◌then◌else◌, Bool-cases, inl, inr,
}
use ida_pilot.Common.Map
use ida_pilot.Common.Map.{Map}
use ida_pilot.Text.{Text}
use ida_pilot.Address.{ok, parse_addr}
use ida_pilot.Parallel.{
  Takes, here, there, Arrives, all_ended, ends, Returned, value, error, drain, run_labeled,
}
use ida_pilot.Parallel.Labeled.{value_or, error_or, run_labeled_lem}
use ida_pilot.Parallel.Inspect.{
  Value, text, type_response, function_info, number, TypeResponse, FunctionInfo, address_line,
  bounds_line, or_failed, name_lines, type_lines, comment_lines, details_lines, info_lines,
  insn_lines, Inspected, all_failed, shown, lines, format_inspect, inspect_at, inspect,
}
use ida_pilot.Parallel.Replies.{
  Replies, name_shown, type_shown, comment_shown, details_of, info_shown, insn_shown, answers,
  report, as_value, tasks_of, details-details_of, details_lines-on_one_line, or_false,
}

abbrev empty : {V : Type 0} → Map String V → Bool
empty [] = true
empty (x ∷ m) = false

insert-empty :
    {V : Type 0} (k : String) (v : V) (m : Map String V) → empty (Map.insert k v m) ≡ false
unfolding Map.insert
insert-empty k v [] = refl
insert-empty k v ((i, w) ∷ m) = ground arith

module _ {E : Type 0} where
  -- What the entries of the two maps say, however they come.
  abbrev any_value : List (String × Returned Value E) → Bool
  any_value [] = false
  any_value ((k, value v) ∷ rest) = true
  any_value ((k, error e) ∷ rest) = any_value rest

  abbrev by_tasks : ℕ → List (String × Returned Value E) → Inspected
  by_tasks addr tasks =
      if any_value tasks
      then shown (
          lines addr (λ k. value_or (Map.lookup k tasks) none)
            (λ k. is_some (error_or (Map.lookup k tasks) none)))
      else all_failed

  abbrev is_value : Returned Value E → Bool
  is_value (value v) = true
  is_value (error e) = false

  Takes-any_value :
      {k : String} {v : Returned Value E} {tasks rest : List (String × Returned Value E)}
      → Takes (k, v) tasks rest
      → any_value tasks ≡ (if is_value v then true else any_value rest)
  Takes-any_value {v = value v} here = refl
  Takes-any_value {v = error e} here = refl
  Takes-any_value {v} (there {y = (i, value w)} t) = ground arith
  Takes-any_value {v} (there {y = (i, error w)} t) = Takes-any_value t

  drain-empty :
      {tasks order : List (String × Returned Value E)}
      → Arrives tasks order
      → (results : Map String Value) (errs : Map String E)
      → empty (drain order results errs).0 ≡ (if any_value tasks then false else empty results)
  unfolding drain
  drain-empty all_ended results errs = refl
  drain-empty (ends {x = (i, value v)} t more) results errs = ground (
    arith,
    drain-empty more (Map.insert i v results) errs,
    Takes-any_value t,
    insert-empty i v results,
  )
  drain-empty (ends {x = (i, error e)} t more) results errs =
      ground (arith, drain-empty more results (Map.insert i e errs), Takes-any_value t)

  format_lem :
      (addr : ℕ) (tasks : List (String × Returned Value E)) (results : Map String Value)
      (errs : Map String E)
      → empty results ≡ (if any_value tasks then false else true)
      → ((k : String) → Map.lookup k results ≡ value_or (Map.lookup k tasks) none)
      → ((k : String) → Map.lookup k errs ≡ error_or (Map.lookup k tasks) none)
      → format_inspect addr (results, errs) ≡ by_tasks addr tasks
  unfolding format_inspect
  format_lem addr tasks [] errs e f g = elim (Bool-cases (any_value tasks)) [
    | inl y ↦ let c : true ≡ false = rw y at e in absurd (cc)
    | inr n ↦ rw n refl
  ]
  format_lem addr tasks (r ∷ results) errs e f g = elim (Bool-cases (any_value tasks)) [
    | inl y ↦ rw y (λ i. shown (lines addr (λ k. f k i) (λ k. is_some (g k i))))
    | inr n ↦ let c : false ≡ true = rw n at e in absurd (cc)
  ]

  inspect-by_tasks :
      (address : Text) (addr : ℕ) (tasks : List (String × Returned Value E))
      (order : ℕ → List (String × Returned Value E))
      → parse_addr address ≡ ok addr
      → Map.IsMap tasks
      → Arrives tasks (order addr)
      → inspect true address order ≡ by_tasks addr tasks
  unfolding inspect inspect_at run_labeled
  inspect-by_tasks address addr tasks order parsed h a = rw parsed (
      format_lem addr tasks (drain (order addr) [] []).0 (drain (order addr) [] []).1
        (drain-empty a [] []) (λ k. (run_labeled_lem tasks (order addr) k h a).0)
        (λ k. (run_labeled_lem tasks (order addr) k h a).1))

module _ {E : Type 0} where
  -- A reply as the maps have it.
  abbrev got : Returned Value E → Option Value
  got r = value_or (some r) none

  abbrev fell : Returned Value E → Bool
  fell r = is_some (error_or (some r) none)

  name_lem :
      (r : Returned String E)
      → name_lines (got (as_value text r)) (fell (as_value text r)) ≡ name_shown r
  unfolding name_lines or_failed
  name_lem (value n) = refl
  name_lem (error e) = refl

  type_lem :
      (r : Returned TypeResponse E)
      → type_lines (got (as_value type_response r)) (fell (as_value type_response r)) ≡ type_shown r
  unfolding type_lines or_failed
  type_lem (value n) = refl
  type_lem (error e) = refl

  comment_lem :
      (r : Returned String E)
      → comment_lines (got (as_value text r)) (fell (as_value text r)) ≡ comment_shown r
  unfolding comment_lines or_failed
  comment_lem (value n) = refl
  comment_lem (error e) = refl

  info_lem :
      (r : Returned FunctionInfo E)
      → info_lines (got (as_value function_info r)) (fell (as_value function_info r)) ≡ info_shown r
  unfolding info_lines or_failed
  info_lem (value i) =
      ap (λ l. bounds_line i ∷ l)
        (ap details_lines (details-details_of i) ∙ details_lines-on_one_line (details_of i))
  info_lem (error e) = refl

  insn_lem :
      (r : Returned ℕ E)
      → insn_lines (got (as_value number r)) (fell (as_value number r)) ≡ insn_shown r
  unfolding insn_lines or_failed
  insn_lem (value n) = ground arith
  insn_lem (error e) = refl

  any_lem :
      {V : Type 0} (f : V → Value) (k : String) (r : Returned V E)
      (rest : List (String × Returned Value E))
      → any_value ((k, as_value f r) ∷ rest) ≡ (answers r || any_value rest)
  any_lem f k (value v) rest = refl
  any_lem f k (error e) rest = refl

  tasks_of-IsMap : (r : Replies E) → Map.IsMap (tasks_of r)
  unfolding Map.lookup
  tasks_of-IsMap r = (refl, (refl, (refl, (refl, (refl, tt)))))

  answers_lem :
      (r : Replies E)
      → any_value (tasks_of r) ≡ (
          answers r.name
          || (answers r.type || (answers r.comment || (answers r.func_info || answers r.insn_len))))
  answers_lem r =
      any_lem text "name" r.name _
      ∙ ap (λ b. answers r.name || b)
          (any_lem type_response "type" r.type _
            ∙ ap (λ b. answers r.type || b)
                (any_lem text "comment" r.comment _
                  ∙ ap (λ b. answers r.comment || b)
                      (any_lem function_info "func_info" r.func_info _
                        ∙ ap (λ b. answers r.func_info || b)
                            (any_lem number "insn_len" r.insn_len []
                              ∙ or_false (answers r.insn_len)))))

  by_tasks-report : (addr : ℕ) (r : Replies E) → by_tasks addr (tasks_of r) ≡ report addr r
  unfolding lines Map.lookup
  by_tasks-report addr r =
      rw
        (
          name_lem r.name,
          type_lem r.type,
          comment_lem r.comment,
          info_lem r.func_info,
          insn_lem r.insn_len,
        )
        (ap
          (λ b.
            if b
            then shown (
                address_line addr
                ∷ (name_shown r.name
                    ++ type_shown r.type
                    ++ comment_shown r.comment
                    ++ info_shown r.func_info
                    ++ insn_shown r.insn_len))
            else all_failed)
          (answers_lem r))

  -- For a session that is resolved, an address that parses and the replies to the five questions, `inspect`
  -- fails exactly when each of the questions failed. Otherwise it shows, in the order of the questions,
  -- what each reply says, and names each question that failed. The order in which the replies come does
  -- not matter.
  pub inspect-report :
      (address : Text) (addr : ℕ) (r : Replies E) (order : ℕ → List (String × Returned Value E))
      → parse_addr address ≡ ok addr
      → Arrives (tasks_of r) (order addr)
      → inspect true address order ≡ report addr r
  inspect-report address addr r order parsed a =
      inspect-by_tasks address addr (tasks_of r) order parsed (tasks_of-IsMap r) a
      ∙ by_tasks-report addr r
