-- ===== src/Parallel/Replies.antt =====
-- What `inspect` is to show of the worker's replies to its five questions, written out for each question.
use ida_pilot.Common.{
  string_key, ◌≡◌, refl, Bool, true, false, String, List, [], ◌∷◌, ◌++◌, ◌==◌, ◌||◌, not, ltb,
  arith, ℕ, if◌then◌else◌,
}
use ida_pilot.Common.Map.{Map}
use ida_pilot.Parallel.{Returned, value, error}
use ida_pilot.Parallel.Inspect.{
  Value, text, type_response, function_info, number, TypeResponse, FunctionInfo, Detail, convention,
  ret, args, frame, Line, address_line, name_line, type_line, comment_line, bounds_line,
  details_line, insn_line, lookup_failed, details, details_lines, Inspected, all_failed, shown,
}

-- The worker's replies to the five questions.
pub record Replies (E : Type 0) : Type 0 where
  pub name : Returned String E
  pub type : Returned TypeResponse E
  pub comment : Returned String E
  pub func_info : Returned FunctionInfo E
  pub insn_len : Returned ℕ E

-- What each reply shows: a failed question is named, and a reply that says nothing shows nothing.
abbrev pub name_shown : {E : Type 0} → Returned String E → List Line
name_shown (error e) = lookup_failed "name" ∷ []
name_shown (value n) = if n == "" then [] else name_line n ∷ []

abbrev pub type_shown : {E : Type 0} → Returned TypeResponse E → List Line
type_shown (error e) = lookup_failed "type" ∷ []
type_shown (value r) = if r.has_type then type_line r ∷ [] else []

abbrev pub comment_shown : {E : Type 0} → Returned String E → List Line
comment_shown (error e) = lookup_failed "comment" ∷ []
comment_shown (value c) = if c == "" then [] else comment_line c ∷ []

-- The details that have something to say, with a test for each.
abbrev pub chosen : List (Bool × Detail) → List Detail
chosen [] = []
chosen ((said, d) ∷ ds) = if said then d ∷ chosen ds else chosen ds

abbrev pub details_of : FunctionInfo → List Detail
details_of i = chosen (
    (not (i.calling_convention == ""), convention i.calling_convention)
    ∷ (not (i.return_type == ""), ret i.return_type)
    ∷ (ltb 0 i.num_args, args i.num_args)
    ∷ (ltb 0 i.frame_size, frame i.frame_size)
    ∷ [])

abbrev pub on_one_line : List Detail → List Line
on_one_line [] = []
on_one_line (d ∷ ds) = details_line (d ∷ ds) ∷ []

abbrev pub info_shown : {E : Type 0} → Returned FunctionInfo E → List Line
info_shown (error e) = lookup_failed "func_info" ∷ []
info_shown (value i) = bounds_line i ∷ on_one_line (details_of i)

abbrev pub insn_shown : {E : Type 0} → Returned ℕ E → List Line
insn_shown (error e) = lookup_failed "insn" ∷ []
insn_shown (value n) = if ltb 0 n then insn_line n ∷ [] else []

abbrev pub answers : {V E : Type 0} → Returned V E → Bool
answers (value v) = true
answers (error e) = false

-- The specification: what the replies say, however they come.
abbrev pub report : {E : Type 0} → ℕ → Replies E → Inspected
report addr r =
    if answers r.name
      || (answers r.type || (answers r.comment || (answers r.func_info || answers r.insn_len)))
    then shown (
        address_line addr
        ∷ (name_shown r.name
            ++ type_shown r.type
            ++ comment_shown r.comment
            ++ info_shown r.func_info
            ++ insn_shown r.insn_len))
    else all_failed

abbrev pub as_value : {V E : Type 0} → (V → Value) → Returned V E → Returned Value E
as_value f (value v) = value (f v)
as_value f (error e) = error e

-- The five tasks, each with its reply.
abbrev pub tasks_of : {E : Type 0} → Replies E → Map String (Returned Value E)
tasks_of r =
    ("name", as_value text r.name)
    ∷ ("type", as_value type_response r.type)
    ∷ ("comment", as_value text r.comment)
    ∷ ("func_info", as_value function_info r.func_info)
    ∷ ("insn_len", as_value number r.insn_len)
    ∷ []

pub or_false : (b : Bool) → (b || false) ≡ b
or_false true = refl
or_false false = refl

pub details-details_of : (i : FunctionInfo) → details i ≡ details_of i
unfolding details
details-details_of i = ground arith

pub details_lines-on_one_line : (ds : List Detail) → details_lines ds ≡ on_one_line ds
unfolding details_lines
details_lines-on_one_line [] = refl
details_lines-on_one_line (d ∷ ds) = refl
