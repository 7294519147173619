-- ===== src/Address/Tests.antt =====
-- The theorems of the addresses at concrete inputs.
use ida_pilot.Common.{◌≡◌, refl, arith}
use ida_pilot.Text.{
  codes, trim_space, trim_left, trim_right, keep_or_drop, is_space, parse_uint, scan_digits,
  push_digit, digit_value,
}
use ida_pilot.Address.{ok, parse_addr, hex_addr, parse_trimmed, split_base, or_invalid}
use ida_pilot.Address.RoundTrip.{parse_addr-hex_addr}

parse_addr-hex_addr_example : parse_addr (hex_addr 4198400) ≡ ok 4198400
parse_addr-hex_addr_example = parse_addr-hex_addr 4198400 (omega arith)

-- " 0x10 " is 16.
padded : parse_addr (codes " 0x10 ") ≡ ok 16
unfolding parse_addr parse_trimmed trim_space trim_left trim_right keep_or_drop is_space split_base
    or_invalid parse_uint scan_digits push_digit digit_value
padded = refl
