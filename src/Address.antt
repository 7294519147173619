-- ===== src/Address.antt =====
-- internal/server/util.go: `parseAddr`, `parseAddrDefault` and `hexAddr`, the addresses at the border
-- to the client. An address is a number below 2^64.
pub mod RoundTrip
mod Tests
use ida_pilot.Common.{
  ℕ, Bool, true, false, ◌&&◌, ◌||◌, List, [], ◌∷◌, ◌++◌, Option, none, some, eqb, if◌then◌else◌,
}
use ida_pilot.Text.{Text, trim_space, parse_uint, hex_digits}

pub data AddrError : Type 0 where
  required : AddrError
  invalid : AddrError

pub data Parsed : Type 0 where
  ok : ℕ → Parsed
  err : AddrError → Parsed

-- The base, and the digits, of a trimmed text.
unfoldable pub split_base : Text → ℕ × Text
split_base [] = (10, [])
split_base (c ∷ []) = (10, c ∷ [])
split_base (c ∷ x ∷ s) =
    if eqb c b'0' && (eqb x b'x' || eqb x b'X') then (16, s) else (10, c ∷ x ∷ s)

unfoldable pub or_invalid : Option ℕ → Parsed
or_invalid none = err invalid
or_invalid (some v) = ok v

unfoldable pub parse_trimmed : Text → Parsed
unfolding split_base or_invalid
parse_trimmed [] = err required
parse_trimmed (c ∷ s) = or_invalid (parse_uint (split_base (c ∷ s)).0 (split_base (c ∷ s)).1)

unfoldable pub parse_addr : Text → Parsed
unfolding parse_trimmed
parse_addr s = parse_trimmed (trim_space s)

-- An optional field: what is left of the text decides, `def` stands for an empty one.
unfoldable pub or_default : ℕ → Text → Text → Parsed
or_default def s [] = ok def
or_default def s (c ∷ rest) = parse_addr s

unfoldable pub parse_addr_default : Text → ℕ → Parsed
unfolding or_default
parse_addr_default s def = or_default def s (trim_space s)

unfoldable pub hex_addr : ℕ → Text
hex_addr a = b'0' ∷ b'x' ∷ hex_digits 16 a
