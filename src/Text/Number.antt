-- ===== src/Text/Number.antt =====
-- Numbers in text: strtoll and atoi of the C library, and std::to_string.
pub mod RoundTrip
use binder.Prelude.{
  ℕ, zero, suc, ◌+◌, ◌-◌, ◌*◌, ◌/◌, ◌%◌, ◌^◌, min, Bool, true, false, not, ◌&&◌, ◌||◌, [], ◌∷◌,
  ◌==◌, ltb, leb, if◌then◌else◌, ℤ, pos, negsuc, sub_ℕ, int64_max, int64_min_magnitude,
}
use binder.Text.{Bytes, drop_spaces}

-- What a digit is worth in bases up to 16, and 99 for any other byte.
abbrev pub digit_value : ℕ → ℕ
digit_value c =
    if leb b'0' c && leb c b'9'
    then c - b'0'
    else if leb b'a' c && leb c b'f'
    then c - b'a' + 10
    else if leb b'A' c && leb c b'F'
    then c - b'A' + 10
    else 99

abbrev pub is_digit_of : ℕ → ℕ → Bool
is_digit_of base c = ltb (digit_value c) base

-- The digits in front, read behind the number `n`.
unfoldable pub scan : ℕ → Bytes → ℕ → ℕ
scan base [] n = n
scan base (c ∷ s) n =
    let rest = scan base s (n * base + digit_value c) in if is_digit_of base c then rest else n

-- strtoll's value, and whether it consumed anything (`end != begin`).
pub record Number : Type 0 where
  pub value : ℤ
  pub converted : Bool

-- Out of range it is the nearest bound of int64_t.
abbrev pub saturate : Bool → ℕ → ℤ
saturate negative n =
    if negative then sub_ℕ 0 (min n int64_min_magnitude) else pos (min n int64_max)

-- "0x" is skipped before a hexadecimal digit.
unfoldable pub skip_hex_prefix : ℕ → Bytes → Bytes
skip_hex_prefix base (a ∷ x ∷ d ∷ s) =
    if base == 16 && a == b'0' && (x == b'x' || x == b'X') && is_digit_of 16 d
    then d ∷ s
    else a ∷ x ∷ d ∷ s
skip_hex_prefix base s = s

abbrev pub starts_number : ℕ → Bytes → Bool
starts_number base [] = false
starts_number base (c ∷ s) = is_digit_of base c

unfoldable pub read_digits : ℕ → Bool → Bytes → Number
read_digits base negative s =
    if starts_number base s
    then record {
      value = saturate negative (scan base (skip_hex_prefix base s) 0);
      converted = true;
    }
    else record { value = pos 0; converted = false }

unfoldable pub read_sign : ℕ → Bytes → Number
read_sign base [] = read_digits base false []
read_sign base (c ∷ s) =
    if c == b'-'
    then read_digits base true s
    else if c == b'+'
    then read_digits base false s
    else read_digits base false (c ∷ s)

unfoldable pub strtoll : ℕ → Bytes → Number
strtoll base s = read_sign base (drop_spaces s)

-- atoi keeps the low 32 bits of a long, as an int.
unfoldable pub to_int32 : ℤ → ℤ
to_int32 (pos n) = let low = n % 2 ^ 32 in if ltb low (2 ^ 31) then pos low else sub_ℕ low (2 ^ 32)
to_int32 (negsuc n) =
    let low = 2 ^ 32 - 1 - n % 2 ^ 32 in if ltb low (2 ^ 31) then pos low else sub_ℕ low (2 ^ 32)

unfoldable pub atoi : Bytes → ℤ
atoi s = to_int32 (strtoll 10 s).value

-- The digits of `n` in front of `out`, from the last to the first.
unfoldable pub print_onto : ℕ → ℕ → Bytes → Bytes
print_onto zero n out = out
print_onto (suc fuel) n out =
    let more = print_onto fuel (n / 10) ((b'0' + n % 10) ∷ out) in
    if ltb n 10 then (b'0' + n % 10) ∷ out else more

-- std::to_string of a number that is not negative.
unfoldable pub decimal : ℕ → Bytes
unfolding print_onto
decimal n = print_onto (suc n) n []

unfoldable pub decimal_ℤ : ℤ → Bytes
unfolding decimal
decimal_ℤ (pos n) = decimal n
decimal_ℤ (negsuc n) = b'-' ∷ decimal (suc n)
