-- ===== src/Address/RoundTrip.antt =====
-- Printing and parsing addresses.
use native.Mathlib.Nat.{pow-suc}
use ida_pilot.Common.{
  ℕ, suc, zero, ◌+◌, ◌*◌, ◌/◌, ◌%◌, ◌^◌, ◌<◌, ◌≤◌, ◌≡◌, refl, sym, ap, ◌∙◌, ◌≢◌, ◌⊎◌, false, [],
  ◌∷◌, ◌++◌, Option, none, some, ltb, leb, arith, if◌then◌else◌, Option-cases, Bool-cases, inl, inr,
}
use ida_pilot.Text.{
  Text, is_space, trim_left, trim_right, trim_space, digit_value, push_digit, scan_digits,
  parse_uint, hex_digit, hex_digits, max_uint64,
}
use ida_pilot.Address.{
  required, ok, err, split_base, or_invalid, parse_trimmed, parse_addr, parse_addr_default,
  or_default, hex_addr,
}

abbrev pub NoSpace : Text → Type 0
NoSpace [] = Unit {0}
NoSpace (c ∷ s) = (is_space c ≡ false) × NoSpace s

trim_right_lem : (s : Text) → NoSpace s → trim_right s ≡ s
unfolding trim_right
trim_right_lem [] h = refl
trim_right_lem (c ∷ []) h = ground arith
trim_right_lem (c ∷ d ∷ s) h = rw (trim_right_lem (d ∷ s) h.1)

trim_space_lem : (c : ℕ) (s : Text) → NoSpace (c ∷ s) → trim_space (c ∷ s) ≡ c ∷ s
unfolding trim_space trim_left
trim_space_lem c s h = rw (h.0) (trim_right_lem (c ∷ s) h)

hex_digit-NoSpace : (d : ℕ) → d < 16 → is_space (hex_digit d) ≡ false
unfolding is_space hex_digit
hex_digit-NoSpace d h = ground arith

append-NoSpace : (s t : Text) → NoSpace s → NoSpace t → NoSpace (s ++ t)
append-NoSpace [] t h k = k
append-NoSpace (c ∷ s) t h k = (h.0, append-NoSpace s t h.1 k)

hex_digits-NoSpace : (fuel n : ℕ) → NoSpace (hex_digits fuel n)
unfolding hex_digits
hex_digits-NoSpace zero n = tt
hex_digits-NoSpace (suc fuel) n = elim (Bool-cases (ltb n 16)) [
  | inl small ↦ rw small (hex_digit-NoSpace n (ground arith), tt)
  | inr big ↦ rw big (
      append-NoSpace (hex_digits fuel (n / 16)) (hex_digit (n % 16) ∷ [])
        (hex_digits-NoSpace fuel (n / 16)) (hex_digit-NoSpace (n % 16) (omega arith), tt))
]

scan-append :
    (base : ℕ) (s t : Text) (n m : ℕ)
    → scan_digits base s n ≡ some m
    → scan_digits base (s ++ t) n ≡ scan_digits base t m
unfolding scan_digits
scan-append base [] t n m h = ground arith
scan-append base (c ∷ s) t n m h = elim (Option-cases (push_digit base n c)) [
  | inl e ↦ absurd (ground arith)
  | inr (k, e) ↦ rw (e, scan_digits) (scan-append base s t k m (rw (e, scan_digits) at h))
]

digit_value-hex_digit : (d : ℕ) → d < 16 → digit_value (hex_digit d) ≡ some d
unfolding digit_value hex_digit
digit_value-hex_digit d h = ground arith

push_hex_digit :
    (n d : ℕ) → d < 16 → n * 16 + d ≤ max_uint64 → push_digit 16 n (hex_digit d) ≡ some (n * 16 + d)
unfolding push_digit
push_hex_digit n d h fits = rw (digit_value-hex_digit d h, push_digit) (ground arith)

scan_one : (base c n m : ℕ) → push_digit base n c ≡ some m → scan_digits base (c ∷ []) n ≡ some m
unfolding scan_digits
scan_one base c n m h = rw (h, scan_digits)

scan-hex_digits :
    (fuel n : ℕ) → n < 16 ^ fuel → n ≤ max_uint64 → scan_digits 16 (hex_digits fuel n) 0 ≡ some n
unfolding hex_digits scan_digits
scan-hex_digits zero n h fits = ap some (omega arith)
scan-hex_digits (suc fuel) n h fits = elim (Bool-cases (ltb n 16)) [
  | inl small ↦ rw small (
      scan_one 16 (hex_digit n) 0 n
        (push_hex_digit 0 n (ground arith) (omega arith) ∙ ap some (omega arith)))
  | inr big ↦
      let q = scan-hex_digits fuel (n / 16) (omega (arith, pow-suc 16 fuel)) (omega arith) in
      rw big (
        scan-append 16 (hex_digits fuel (n / 16)) (hex_digit (n % 16) ∷ []) 0 (n / 16) q
        ∙ scan_one 16 (hex_digit (n % 16)) (n / 16) n
            (push_hex_digit (n / 16) (n % 16) (omega arith) (omega arith) ∙ ap some (omega arith)))
]

hex_digits-cons : (fuel n : ℕ) → (c : ℕ) × (s : Text) × (hex_digits (suc fuel) n ≡ c ∷ s)
unfolding hex_digits
hex_digits-cons zero n = elim (Bool-cases (ltb n 16)) [
  | inl small ↦ (hex_digit n, [], rw small)
  | inr big ↦ (hex_digit (n % 16), [], rw big)
]
hex_digits-cons (suc fuel) n = elim (Bool-cases (ltb n 16)) [
  | inl small ↦ (hex_digit n, [], rw small)
  | inr big ↦
      let (c, s, e) = hex_digits-cons fuel (n / 16) in
      (c, s ++ hex_digit (n % 16) ∷ [], rw (big, e))
]

-- The address that the server prints is the one that it parses back, for every 64-bit address.
pub parse_addr-hex_addr : (a : ℕ) → a ≤ max_uint64 → parse_addr (hex_addr a) ≡ ok a
unfolding parse_addr hex_addr parse_uint is_space
parse_addr-hex_addr a h =
    let (c, s, e) = hex_digits-cons 15 a in
    let clean = hex_digits-NoSpace 16 a in
    ap parse_trimmed (trim_space_lem b'0' (b'x' ∷ hex_digits 16 a) (space_0, (space_x, clean)))
    ∙ ap or_invalid (
        ap (parse_uint 16) e
        ∙ sym (ap (λ t. scan_digits 16 t 0) e)
        ∙ scan-hex_digits 16 a (omega arith) h)
  where
    space_0 : is_space b'0' ≡ false
    space_0 = refl

    space_x : is_space b'x' ≡ false
    space_x = refl

push_digit-bound : (base n m c : ℕ) → push_digit base n c ≡ some m → m ≤ max_uint64
unfolding push_digit
push_digit-bound base n m c e = elim (Option-cases (digit_value c)) [
  | inl miss ↦ absurd (clash (rw (miss, push_digit) at e))
  | inr (d, hit) ↦ bounded d (rw (hit, push_digit) at e)
]
  where
    clash : none ≡ some m → ⊥
    clash e = cc

    bounded :
        (d : ℕ)
        → (if leb base d
            then none
            else if ltb max_uint64 (n * base + d)
            then none
            else some (n * base + d))
          ≡ some m
        → m ≤ max_uint64
    bounded d e = ground arith

scan_digits-bound :
    (base n v : ℕ) (s : Text) → n ≤ max_uint64 → scan_digits base s n ≡ some v → v ≤ max_uint64
unfolding scan_digits
scan_digits-bound base n v [] h e = ground arith
scan_digits-bound base n v (c ∷ s) h e = elim (Option-cases (push_digit base n c)) [
  | inl none_left ↦ absurd (clash (rw (none_left, scan_digits) at e))
  | inr (m, pushed) ↦
      scan_digits-bound base m v s (push_digit-bound base n m c pushed)
        (rw (pushed, scan_digits) at e)
]
  where
    clash : none ≡ some v → ⊥
    clash e = cc

parse_uint-bound : (base v : ℕ) (s : Text) → parse_uint base s ≡ some v → v ≤ max_uint64
unfolding parse_uint
parse_uint-bound base v [] e = absurd (cc)
parse_uint-bound base v (c ∷ s) e = scan_digits-bound base 0 v (c ∷ s) (omega arith) e

or_invalid-ok : (o : Option ℕ) (v : ℕ) → or_invalid o ≡ ok v → o ≡ some v
unfolding or_invalid
or_invalid-ok none v e = absurd (cc)
or_invalid-ok (some w) v e = ground arith

or_invalid-ne : (o : Option ℕ) → or_invalid o ≢ err required
unfolding or_invalid
or_invalid-ne none h = cc
or_invalid-ne (some v) h = cc

-- Whatever text is accepted, the address has 64 bits.
pub parse_addr-bound : (s : Text) (v : ℕ) → parse_addr s ≡ ok v → v ≤ max_uint64
unfolding parse_addr
parse_addr-bound s v e = go (trim_space s) e
  where
    go : (t : Text) → parse_trimmed t ≡ ok v → v ≤ max_uint64
    go [] e = absurd (cc)
    go (c ∷ t) e =
        parse_uint-bound (split_base (c ∷ t)).0 v (split_base (c ∷ t)).1 (or_invalid-ok _ v e)

-- An empty or blank optional field gives the default, and any other text is parsed as a required one.
pub parse_addr_default_lem :
    (s : Text) (def : ℕ)
    → ((parse_addr s ≡ err required) × (parse_addr_default s def ≡ ok def))
      ⊎ ((parse_addr s ≢ err required) × (parse_addr_default s def ≡ parse_addr s))
unfolding parse_addr parse_addr_default
parse_addr_default_lem s def = go (trim_space s) refl
  where
    go :
        (t : Text)
        → trim_space s ≡ t
        → ((parse_trimmed t ≡ err required) × (or_default def s t ≡ ok def))
          ⊎ ((parse_trimmed t ≢ err required) × (or_default def s t ≡ parse_trimmed (trim_space s)))
    go [] e = inl (refl, refl)
    go (c ∷ t) e = inr (or_invalid-ne _, refl)
