-- ===== src/Text/Number/RoundTrip.antt =====
-- What is printed in decimal is read back by strtoll.
use binder.Prelude.{
  ℕ, zero, suc, ◌+◌, ◌/◌, ◌%◌, ◌≤◌, ◌<◌, min, Bool, true, false, ◌&&◌, [], ◌∷◌, ◌++◌, ◌==◌, ltb,
  pos, int64_max, ◌≡◌, refl, arith, all, Bool-cases, inl, inr, ◌∙◌, sym, subst,
}
use binder.Text.{Bytes, drop_end_spaces, is_space, is_digit}
use binder.Text.Trim.{drop_spaces_id}
use binder.Text.Number.{
  scan, strtoll, Number, print_onto, decimal, starts_number, is_digit_of, skip_hex_prefix,
  read_sign, read_digits,
}

scan-print_onto :
    (fuel n : ℕ) (out : Bytes) → n < fuel → scan 10 (print_onto fuel n out) 0 ≡ scan 10 out n
unfolding scan print_onto
scan-print_onto zero n out h = absurd (omega arith)
scan-print_onto (suc fuel) n out h =
    ground (arith, scan-print_onto fuel (n / 10) ((b'0' + n % 10) ∷ out))

print_onto-append :
    (fuel n : ℕ) (out rest : Bytes)
    → print_onto fuel n out ++ rest ≡ print_onto fuel n (out ++ rest)
unfolding print_onto
print_onto-append zero n out rest = refl
print_onto-append (suc fuel) n out rest =
    ground (arith, print_onto-append fuel (n / 10) ((b'0' + n % 10) ∷ out) rest)

-- A text of digits, before some other text.
abbrev pub Digits : Bytes → Type 0
Digits s = (c : ℕ) × (t : Bytes) × (s ≡ c ∷ t) × (all is_digit s ≡ true)

print_onto-Digits :
    (fuel n : ℕ) (out : Bytes) → n < fuel → all is_digit out ≡ true → Digits (print_onto fuel n out)
unfolding print_onto
print_onto-Digits zero n out h k = absurd (omega arith)
print_onto-Digits (suc fuel) n out h k = elim (Bool-cases (ltb n 10)) [
  | inl e ↦ rw e ((b'0' + n % 10), out, refl, ground arith)
  | inr e ↦
      rw e (print_onto-Digits fuel (n / 10) ((b'0' + n % 10) ∷ out) (ground arith) (ground arith))
]

pub decimal-Digits : (n : ℕ) → Digits (decimal n)
unfolding decimal
decimal-Digits n = print_onto-Digits (suc n) n [] (omega arith) refl

-- The text begins with no decimal digit.
abbrev pub IsEnd : Bytes → Type 0
IsEnd s = starts_number 10 s ≡ false

scan_end : (s : Bytes) (n : ℕ) → IsEnd s → scan 10 s n ≡ n
unfolding scan
scan_end [] n h = refl
scan_end (c ∷ s) n h = rw h

scan-decimal : (n : ℕ) (rest : Bytes) → IsEnd rest → scan 10 (decimal n ++ rest) 0 ≡ n
unfolding decimal
scan-decimal n rest h =
    rw (print_onto-append (suc n) n [] rest)
      (scan-print_onto (suc n) n rest (omega arith) ∙ scan_end rest n h)

pub digit-solid : (c : ℕ) → is_digit c ≡ true → is_space c ≡ false
unfolding is_space
digit-solid c h = ground arith

pub drop_end_spaces-digits : (s : Bytes) → all is_digit s ≡ true → drop_end_spaces s ≡ s
unfolding drop_end_spaces
drop_end_spaces-digits [] h = refl
drop_end_spaces-digits (c ∷ s) h = ground (arith, digit-solid c, drop_end_spaces-digits s)

digit-starts : (c : ℕ) → is_digit c ≡ true → is_digit_of 10 c ≡ true
digit-starts c h = ground arith

no_hex_prefix : (s : Bytes) → skip_hex_prefix 10 s ≡ s
unfolding skip_hex_prefix
no_hex_prefix [] = refl
no_hex_prefix (a ∷ []) = refl
no_hex_prefix (a ∷ x ∷ []) = refl
no_hex_prefix (a ∷ x ∷ d ∷ s) = refl

-- A digit is no sign.
read_sign-digit :
    (c : ℕ) (s : Bytes) → is_digit c ≡ true → read_sign 10 (c ∷ s) ≡ read_digits 10 false (c ∷ s)
unfolding read_sign
read_sign-digit c s h = rw (not_minus, not_plus)
  where
    not_minus : (c == b'-') ≡ false
    not_minus = ground arith

    not_plus : (c == b'+') ≡ false
    not_plus = ground arith

read_digits-digit :
    (c : ℕ) (s : Bytes)
    → is_digit c ≡ true
    → read_digits 10 false (c ∷ s)
      ≡ record { value = pos (min (scan 10 (c ∷ s) 0) int64_max); converted = true }
unfolding read_digits
read_digits-digit c s h = rw (digit-starts c h, no_hex_prefix (c ∷ s))

strtoll-digit :
    (c : ℕ) (s : Bytes)
    → is_digit c ≡ true
    → strtoll 10 (c ∷ s)
      ≡ record { value = pos (min (scan 10 (c ∷ s) 0) int64_max); converted = true }
unfolding strtoll
strtoll-digit c s h =
    rw (drop_spaces_id c s (digit-solid c h), read_sign-digit c s h) (read_digits-digit c s h)

pub and_left : (a b : Bool) → (a && b) ≡ true → a ≡ true
and_left a b h = ground arith

saturate_id :
    (m n : ℕ)
    → m ≡ n
    → n ≤ int64_max
    → ◌≡◌ {A = Number}
        (record { value = pos (min m int64_max); converted = true })
        (record { value = pos n; converted = true })
saturate_id m n e h = let fits : min m int64_max ≡ n = omega arith in rw fits

-- A number that int64_t holds is read back from its decimal text, whatever follows that text, as long
-- as it does not begin with a digit.
pub strtoll-decimal :
    (n : ℕ) (rest : Bytes)
    → n ≤ int64_max
    → IsEnd rest
    → strtoll 10 (decimal n ++ rest) ≡ record { value = pos n; converted = true }
strtoll-decimal n rest fits stop =
    let (c, t, e, digits) = decimal-Digits n in
    subst (λ s. strtoll 10 (s ++ rest) ≡ record { value = pos n; converted = true }) (sym e)
      (strtoll-digit c (t ++ rest) (and_left _ _ (subst (λ s. all is_digit s ≡ true) e digits))
        ∙ saturate_id (scan 10 (c ∷ (t ++ rest)) 0) n
            (subst (λ s. scan 10 (s ++ rest) 0 ≡ n) e (scan-decimal n rest stop)) fits)
