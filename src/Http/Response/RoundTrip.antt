-- ===== src/Http/Response/RoundTrip.antt =====
-- What a server writes in a status line or a Content-Range header is what the client reads.
use binder.Prelude.{
  ℕ, suc, ◌≤◌, ◌<◌, ◌^◌, Bool, true, false, ◌&&◌, [], ◌∷◌, ◌++◌, none, some, ◌==◌, ltb, leb,
  if◌then◌else◌, take, drop, ℤ, pos, minus_one, int64_max, ◌≡◌, refl, sym, subst, ◌∙◌, ap, arith,
  all, length, append_assoc, length-append, append-nil, ◌≢◌,
}
use binder.Text.{Bytes, codes, trim, equal, find_if, is_digit, is_space, drop_end_spaces}
use binder.Text.Search.{none_of, find_if-append, none_of-append, drop_front_suc, digits-none_of}
use binder.Text.Trim.{trim_id, drop_end_spaces-append}
use binder.Text.Number.{strtoll, Number, atoi, to_int32, decimal}
use binder.Text.Number.RoundTrip.{
  Digits, decimal-Digits, strtoll-decimal, drop_end_spaces-digits, IsEnd, and_left, digit-solid,
}
use binder.Http.Response.{
  is_blank, parse_status_line, reason_of, content_range, parse_content_range,
}

abbrev is_dash : ℕ → Bool
is_dash c = c == b'-'

abbrev is_slash : ℕ → Bool
is_slash c = c == b'/'

abbrev pub range_text : ℕ → ℕ → Bytes → Bytes
range_text first last total = decimal first ++ (b'-' ∷ (decimal last ++ (b'/' ∷ total)))

decimal-none_of :
    (q : ℕ → Bool) (n : ℕ)
    → ((c : ℕ) → is_digit c ≡ true → q c ≡ false)
    → none_of q (decimal n) ≡ true
decimal-none_of q n h = digits-none_of q (decimal n) h (decimal-Digits n).3

find_dash :
    (first last : ℕ) (total : Bytes)
    → find_if is_dash (range_text first last total) ≡ some (length (decimal first))
find_dash first last total =
    find_if-append is_dash (decimal first) (decimal last ++ (b'/' ∷ total)) b'-'
      (decimal-none_of is_dash first (λ c h. ground arith)) refl

abbrev before_slash : ℕ → ℕ → Bytes
before_slash first last = decimal first ++ (b'-' ∷ decimal last)

range_text-split :
    (first last : ℕ) (total : Bytes)
    → range_text first last total ≡ before_slash first last ++ (b'/' ∷ total)
range_text-split first last total =
    sym (append_assoc (decimal first) (b'-' ∷ decimal last) (b'/' ∷ total))

find_slash :
    (first last : ℕ) (total : Bytes)
    → find_if is_slash (range_text first last total) ≡ some (length (before_slash first last))
find_slash first last total = rw (range_text-split first last total) (
    find_if-append is_slash (before_slash first last) total b'/'
      (none_of-append is_slash (decimal first) (b'-' ∷ decimal last)
        (decimal-none_of is_slash first (λ c h. ground arith))
        (decimal-none_of is_slash last (λ c h. ground arith)))
      refl)

behind_slash :
    (first last : ℕ) (total : Bytes)
    → drop (suc (length (before_slash first last))) (range_text first last total) ≡ total
behind_slash first last total =
    rw (range_text-split first last total) (drop_front_suc (before_slash first last) total b'/')

dash-le-slash :
    (first last : ℕ) → leb (length (decimal first)) (length (before_slash first last)) ≡ true
dash-le-slash first last = ground (arith, length-append (decimal first) (b'-' ∷ decimal last))

abbrev read_total : Bytes → ℤ
read_total total = if equal total (codes "*") then minus_one else (strtoll 10 total).value

content_range-range_text :
    (first last : ℕ) (total : Bytes)
    → first ≤ int64_max
    → content_range (range_text first last total) ≡ some (pos first, read_total total)
unfolding content_range
content_range-range_text first last total fits = rw (
  find_dash first last total,
  find_slash first last total,
  dash-le-slash first last,
  behind_slash first last total,
  strtoll-decimal first (b'-' ∷ (decimal last ++ (b'/' ∷ total))) fits refl,
)

digit-solid_text : (s : Bytes) → Digits s → drop_end_spaces s ≡ s
digit-solid_text s (c, t, e, digits) = drop_end_spaces-digits s digits

Digits-ne-nil : (s : Bytes) → Digits s → s ≢ []
Digits-ne-nil s (c, t, e, digits) h = cc

trim-Digits :
    (s rest : Bytes)
    → Digits s
    → drop_end_spaces (s ++ rest) ≡ s ++ rest
    → trim (s ++ rest) ≡ s ++ rest
trim-Digits s rest (c, t, e, digits) h =
    subst (λ x. trim (x ++ rest) ≡ x ++ rest) (sym e)
      (trim_id c (t ++ rest)
        (digit-solid c (and_left _ _ (subst (λ x. all is_digit x ≡ true) e digits)))
        (subst (λ x. drop_end_spaces (x ++ rest) ≡ x ++ rest) e h))

trim-range_text :
    (first last : ℕ) (total : Bytes)
    → drop_end_spaces (b'/' ∷ total) ≡ b'/' ∷ total
    → trim (range_text first last total) ≡ range_text first last total
trim-range_text first last total ends =
    trim-Digits (decimal first) (b'-' ∷ (decimal last ++ (b'/' ∷ total))) (decimal-Digits first) (
      rw (range_text-split first last total)
        (drop_end_spaces-append (before_slash first last) (b'/' ∷ total) ends (λ e. cc)))

bytes_unit : (s : Bytes) → find_if is_blank (codes "bytes " ++ s) ≡ some 5
unfolding find_if
bytes_unit s = refl

parse_content_range-range_text :
    (first last : ℕ) (total : Bytes)
    → first ≤ int64_max
    → drop_end_spaces (b'/' ∷ total) ≡ b'/' ∷ total
    → parse_content_range (codes "bytes " ++ range_text first last total)
      ≡ some (pos first, read_total total)
unfolding parse_content_range
parse_content_range-range_text first last total fits ends =
    rw (bytes_unit (range_text first last total), trim-range_text first last total ends)
      (content_range-range_text first last total fits)

not_star : (s : Bytes) → Digits s → equal s (codes "*") ≡ false
unfolding equal
not_star s (c, t, e, digits) = ground arith

read_total-decimal : (n : ℕ) → n ≤ int64_max → read_total (decimal n) ≡ pos n
read_total-decimal n fits =
    let whole = append-nil (decimal n) in
    rw (not_star (decimal n) (decimal-Digits n)) (
      ap (λ (m : Number). m.value)
        (subst (λ s. strtoll 10 s ≡ record { value = pos n; converted = true }) whole
          (strtoll-decimal n [] fits refl)))

-- A Content-Range header that names a range and a size is read as that range's first byte and that
-- size, if both fit an int64_t.
pub parse_content_range_sized :
    (first last total : ℕ)
    → first ≤ int64_max
    → total ≤ int64_max
    → parse_content_range (codes "bytes " ++ range_text first last (decimal total))
      ≡ some (pos first, pos total)
parse_content_range_sized first last total fits fits' =
    parse_content_range-range_text first last (decimal total) fits (
      drop_end_spaces-append (b'/' ∷ []) (decimal total)
        (digit-solid_text (decimal total) (decimal-Digits total))
        (Digits-ne-nil (decimal total) (decimal-Digits total)))
    ∙ rw (read_total-decimal total fits')

-- With "*" for the size it is read as unknown.
parse_content_range_unsized :
    (first last : ℕ)
    → first ≤ int64_max
    → parse_content_range (codes "bytes " ++ range_text first last (codes "*"))
      ≡ some (pos first, minus_one)
unfolding equal drop_end_spaces is_space
parse_content_range_unsized first last fits =
    parse_content_range-range_text first last (codes "*") fits refl

-- "HTTP/1.1", a code and a reason.
abbrev pub status_line : ℕ → Bytes → Bytes
status_line code reason = codes "HTTP/1.1 " ++ (decimal code ++ (b' ' ∷ reason))

version :
    (s : Bytes)
    → (find_if is_blank (codes "HTTP/1.1 " ++ s) ≡ some 8)
      × (take 5 (codes "HTTP/1.1 " ++ s) ≡ codes "HTTP/")
unfolding find_if
version s = (refl, refl)

atoi-decimal : (n : ℕ) (rest : Bytes) → n < 2 ^ 31 → IsEnd rest → atoi (decimal n ++ rest) ≡ pos n
unfolding atoi to_int32
atoi-decimal n rest h stop = rw (strtoll-decimal n rest (omega arith) stop) (ground arith)

reason_of-decimal :
    (n : ℕ) (reason : Bytes) → reason_of (decimal n ++ (b' ' ∷ reason)) ≡ trim reason
unfolding reason_of
reason_of-decimal n reason = rw (
  find_if-append is_blank (decimal n) reason b' ' (decimal-none_of is_blank n (λ c h. ground arith))
      refl,
  reason_of,
  drop_front_suc (decimal n) reason b' ',
)

-- A status line is read as its code and its reason, without the blanks around it, exactly if the code
-- is from 100 to 599.
pub parse_status_line-status_line :
    (code : ℕ) (reason : Bytes)
    → code < 2 ^ 31
    → parse_status_line (status_line code reason)
      ≡ (if leb 100 code && ltb code 600 then some (code, trim reason) else none)
unfolding parse_status_line equal
parse_status_line-status_line code reason h =
    rw
      (
        (version (decimal code ++ (b' ' ∷ reason))).0,
        atoi-decimal code (b' ' ∷ reason) h refl,
        reason_of-decimal code reason,
      )
      (ground arith)
