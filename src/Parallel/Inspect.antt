-- ===== src/Parallel/Inspect.antt =====
-- internal/server/dispatch.go: `inspect`, five questions about one address that are asked of the worker
-- at the same time by `runLabeled`.
-- The text is a list of lines, each with what it shows; the worker's replies are arguments.
use ida_pilot.Common.{
  string_key, ◌==◌, Bool, String, List, [], ◌∷◌, ◌++◌, Option, some, is_some, ℕ, if◌then◌else◌, eqb,
}
use ida_pilot.Common.Map
use ida_pilot.Common.Map.{Map}
use ida_pilot.Text.{Text}
use ida_pilot.Address.{Parsed, ok, err, parse_addr}
use ida_pilot.Parallel.{Returned, run_labeled}

pub record TypeResponse : Type 0 where
  pub has_type : Bool
  pub type : String
  pub size : ℕ

pub record FunctionInfo : Type 0 where
  pub start : ℕ
  pub end : ℕ
  pub size : ℕ
  pub calling_convention : String
  pub return_type : String
  pub num_args : ℕ
  pub frame_size : ℕ

-- The values of the result map, by their dynamic type.
pub data Value : Type 0 where
  text : String → Value
  type_response : TypeResponse → Value
  function_info : FunctionInfo → Value
  number : ℕ → Value

pub data Detail : Type 0 where
  convention : String → Detail
  ret : String → Detail
  args : ℕ → Detail
  frame : ℕ → Detail

pub data Line : Type 0 where
  address_line : ℕ → Line
  name_line : String → Line
  type_line : TypeResponse → Line
  comment_line : String → Line
  bounds_line : FunctionInfo → Line
  details_line : List Detail → Line
  insn_line : ℕ → Line
  lookup_failed : String → Line

unfoldable pub or_failed : String → Bool → List Line
or_failed key failed = if failed then lookup_failed key ∷ [] else []

unfoldable pub name_lines : Option Value → Bool → List Line
unfolding or_failed
name_lines (some (text n)) failed = if n == "" then or_failed "name" failed else name_line n ∷ []
name_lines o failed = or_failed "name" failed

unfoldable pub type_lines : Option Value → Bool → List Line
unfolding or_failed
type_lines (some (type_response r)) failed =
    if r.has_type then type_line r ∷ [] else or_failed "type" failed
type_lines o failed = or_failed "type" failed

unfoldable pub comment_lines : Option Value → Bool → List Line
unfolding or_failed
comment_lines (some (text c)) failed =
    if c == "" then or_failed "comment" failed else comment_line c ∷ []
comment_lines o failed = or_failed "comment" failed

unfoldable pub details : FunctionInfo → List Detail
details i =
    (if i.calling_convention == "" then [] else convention i.calling_convention ∷ [])
    ++ (if i.return_type == "" then [] else ret i.return_type ∷ [])
    ++ (if eqb i.num_args 0 then [] else args i.num_args ∷ [])
    ++ (if eqb i.frame_size 0 then [] else frame i.frame_size ∷ [])

unfoldable pub details_lines : List Detail → List Line
details_lines [] = []
details_lines (d ∷ ds) = details_line (d ∷ ds) ∷ []

unfoldable pub info_lines : Option Value → Bool → List Line
unfolding or_failed details details_lines
info_lines (some (function_info i)) failed = bounds_line i ∷ details_lines (details i)
info_lines o failed = or_failed "func_info" failed

unfoldable pub insn_lines : Option Value → Bool → List Line
unfolding or_failed
insn_lines (some (number n)) failed = if eqb n 0 then or_failed "insn" failed else insn_line n ∷ []
insn_lines o failed = or_failed "insn" failed

pub data Inspected : Type 0 where
  not_resolved : Inspected
  bad_address : Inspected
  all_failed : Inspected
  shown : List Line → Inspected

-- The text, from what the two maps have under a key.
unfoldable pub lines : ℕ → (String → Option Value) → (String → Bool) → List Line
unfolding name_lines type_lines comment_lines info_lines insn_lines
lines addr found failed =
    address_line addr
    ∷ (name_lines (found "name") (failed "name")
        ++ type_lines (found "type") (failed "type")
        ++ comment_lines (found "comment") (failed "comment")
        ++ info_lines (found "func_info") (failed "func_info")
        ++ insn_lines (found "insn_len") (failed "insn_len"))

module _ {E : Type 0} where
  unfoldable pub format_inspect : ℕ → Map String Value × Map String E → Inspected
  unfolding lines
  format_inspect addr ([], errs) = all_failed
  format_inspect addr (r ∷ results, errs) =
      shown (lines addr (λ k. Map.lookup k (r ∷ results)) (λ k. is_some (Map.lookup k errs)))

  unfoldable pub inspect_at : Parsed → (ℕ → List (String × Returned Value E)) → Inspected
  unfolding format_inspect run_labeled
  inspect_at (err e) order = bad_address
  inspect_at (ok addr) order = format_inspect addr (run_labeled (order addr))

  -- `order` has the replies to the five calls for an address, in the order in which they come.
  unfoldable pub inspect : Bool → Text → (ℕ → List (String × Returned Value E)) → Inspected
  unfolding inspect_at
  inspect resolved address order =
      if resolved then inspect_at (parse_addr address) order else not_resolved
