-- ===== src/Parallel/Tests.antt =====
-- The theorems of the parallel tasks at concrete inputs.
use ida_pilot.Common.{string_key, ◌≡◌, refl, ℕ, String, true, false, List, [], ◌∷◌, ◌*◌, map}
use ida_pilot.Common.Map.{Map}
use ida_pilot.Text
use ida_pilot.Text.{codes}
use ida_pilot.Address.{ok, parse_addr, parse_trimmed, split_base, or_invalid}
use ida_pilot.Parallel.{
  Arrives, ends, all_ended, here, there, Returned, value, error, parallel_map, spawn,
}
use ida_pilot.Parallel.Mapped.{parallel_map-map}
use ida_pilot.Parallel.Inspect.{Value, text, number, type_response, inspect}
use ida_pilot.Parallel.Replies.{Replies, tasks_of, report}
use ida_pilot.Parallel.Report.{inspect-report}

abbrev replies : Replies ℕ
replies = record {
  name = value "main";
  type = value (record { has_type = false; type = ""; size = 0 });
  comment = error 7;
  func_info = error 8;
  insn_len = value 4;
}

abbrev arrivals : Map String (Returned Value ℕ)
arrivals =
    ("comment", error 7)
    ∷ ("insn_len", value (number 4))
    ∷ ("name", value (text "main"))
    ∷ ("func_info", error 8)
    ∷ ("type", value (type_response (record { has_type = false; type = ""; size = 0 })))
    ∷ []

arrive : Arrives (tasks_of replies) arrivals
arrive =
    ends (there (there here))
      (ends (there (there (there here))) (ends here (ends (there here) (ends here all_ended))))

abbrev three : List ℕ
three = 5 ∷ 6 ∷ 7 ∷ []

abbrev from_behind : List (ℕ × ℕ)
from_behind = (2, 7) ∷ (1, 6) ∷ (0, 5) ∷ []

backwards : Arrives (spawn 0 three) from_behind
unfolding spawn
backwards = ends (there (there here)) (ends (there here) (ends here all_ended))

parallel_map-map_example :
    parallel_map 0 (λ (n : ℕ). n * n) three from_behind ≡ map (λ (n : ℕ). n * n) three
parallel_map-map_example = parallel_map-map 0 (λ (n : ℕ). n * n) three from_behind backwards

sixteen : parse_addr (codes "0x10") ≡ ok 16
unfolding parse_addr parse_trimmed Text.trim_space Text.trim_left Text.trim_right Text.keep_or_drop
    Text.is_space split_base or_invalid Text.parse_uint Text.scan_digits Text.push_digit
    Text.digit_value
sixteen = refl

inspect-report_example : inspect true (codes "0x10") (λ addr. arrivals) ≡ report 16 replies
inspect-report_example = inspect-report (codes "0x10") 16 replies (λ addr. arrivals) sixteen arrive
