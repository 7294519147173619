-- ===== src/Text.antt =====
-- What the code uses of Go's `strings`, `strconv` and `fmt`: a text is the list of its code points.
use Prim.Native.Char.{code}
use ida_pilot.Common.{
  ℕ, suc, zero, ◌+◌, ◌-◌, ◌*◌, ◌/◌, ◌%◌, ◌^◌, Bool, true, false, ◌&&◌, ◌||◌, String, List, [], ◌∷◌,
  ◌++◌, Option, none, some, leb, ltb, eqb, if◌then◌else◌,
}

abbrev pub Text : Type 0
Text = List ℕ

abbrev pub codes : String → Text
codes String.[] = []
codes (String.◌∷◌ c s) = code c ∷ codes s

-- `unicode.IsSpace`.
unfoldable pub is_space : ℕ → Bool
is_space c =
    (leb 9 c && leb c 13)
    || eqb c 32
    || eqb c 0x85
    || eqb c 0xa0
    || eqb c 0x1680
    || (leb 0x2000 c && leb c 0x200a)
    || eqb c 0x2028
    || eqb c 0x2029
    || eqb c 0x202f
    || eqb c 0x205f
    || eqb c 0x3000

unfoldable pub trim_left : Text → Text
trim_left [] = []
trim_left (c ∷ s) = if is_space c then trim_left s else c ∷ s

-- A space is dropped if nothing is left behind it.
unfoldable pub keep_or_drop : ℕ → Text → Text
keep_or_drop c [] = if is_space c then [] else c ∷ []
keep_or_drop c (d ∷ s) = c ∷ d ∷ s

unfoldable pub trim_right : Text → Text
unfolding keep_or_drop
trim_right [] = []
trim_right (c ∷ s) = keep_or_drop c (trim_right s)

-- `strings.TrimSpace`.
unfoldable pub trim_space : Text → Text
trim_space s = trim_right (trim_left s)

abbrev pub max_uint64 : ℕ
max_uint64 = 2 ^ 64 - 1

-- The value of a digit, up to 35 for 'z' and 'Z'.
unfoldable pub digit_value : ℕ → Option ℕ
digit_value c =
    if leb 48 c && leb c 57
    then some (c - 48)
    else if leb 97 c && leb c 122
    then some (c - 97 + 10)
    else if leb 65 c && leb c 90
    then some (c - 65 + 10)
    else none

-- One round of `strconv.ParseUint(s, base, 64)`: no digit of the base, or a value over 64 bits, fails.
unfoldable pub push_digit : ℕ → ℕ → ℕ → Option ℕ
unfolding digit_value
push_digit base n c = elim (digit_value c) [
  | none ↦ none
  | some d ↦
      if leb base d
      then none
      else if ltb max_uint64 (n * base + d)
      then none
      else some (n * base + d)
]

unfoldable pub scan_digits : ℕ → Text → ℕ → Option ℕ
scan_digits base [] n = some n
scan_digits base (c ∷ s) n = elim (push_digit base n c) [
  | none ↦ none
  | some m ↦ scan_digits base s m
]

unfoldable pub parse_uint : ℕ → Text → Option ℕ
parse_uint base [] = none
parse_uint base (c ∷ s) = scan_digits base (c ∷ s) 0

unfoldable pub hex_digit : ℕ → ℕ
hex_digit d = if ltb d 10 then 48 + d else 87 + d

-- The digits of `%x`, with fuel: 16 rounds are enough for 64 bits.
unfoldable pub hex_digits : ℕ → ℕ → Text
hex_digits zero n = []
hex_digits (suc fuel) n =
    let more = hex_digits fuel (n / 16) ++ hex_digit (n % 16) ∷ [] in
    if ltb n 16 then hex_digit n ∷ [] else more

unfoldable pub has_prefix : Text → Text → Bool
has_prefix s [] = true
has_prefix [] (d ∷ t) = false
has_prefix (c ∷ s) (d ∷ t) = if eqb c d then has_prefix s t else false

-- `strings.Contains`.
unfoldable pub contains : Text → Text → Bool
unfolding has_prefix
contains [] t = has_prefix [] t
contains (c ∷ s) t = if has_prefix (c ∷ s) t then true else contains s t
