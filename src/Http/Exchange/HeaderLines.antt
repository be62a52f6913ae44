-- ===== src/Http/Exchange/HeaderLines.antt =====
-- The header loop ends, and keeps to its limit.
use binder.Prelude.{
  ℕ, zero, suc, ◌+◌, ◌≤◌, ◌<◌, [], ◌∷◌, length, take, drop, Option, none, some, ◌≡◌, ◌≢◌, refl,
  arith, Bool-cases, inl, inr, length-append, leb, is_empty,
}
use binder.Text.{Bytes, trim, find_if, to_lower}
use binder.Http.Url.{is_colon}
use binder.Http.Reader.{Reader, LineResult, read_line}
use binder.Http.Reader.Lines.{pending}
use binder.Http.Headers.{Headers, add}
use binder.Http.Code.{ok}
use binder.Http.Body.Chunked.{is_ok}
use binder.Http.Body.Chunked.Total.{read_line_shrinks}
use binder.Http.Body.Chunked.Decode.{is_ok-false}
use binder.Http.Exchange.{Head, head_read, head_failed, after_colon, read_headers, max_header_count}

length-add :
    (items : Headers) (name value : Bytes) → length (add items name value) ≡ length items + 1
unfolding add
length-add items name value = length-append items ((to_lower name, value) ∷ [])

-- A result: a failure with a code other than kOk, or headers within the limit.
abbrev pub Bounded : Option Head → Type 0
Bounded none = ⊥
Bounded (some (head_failed code message)) = code ≢ ok
Bounded (some (head_read items r)) = length items ≤ max_header_count

after_colon-Bounded :
    (n : ℕ) (next : Headers → Reader → Option Head) (items : Headers) (read : LineResult)
    (colon : Option ℕ)
    → length items ≤ max_header_count
    → ((items' : Headers) → length items' ≤ max_header_count → Bounded (next items' read.reader))
    → Bounded (after_colon next items read colon)
after_colon-Bounded n next items read none h ih = ih items h
after_colon-Bounded n next items read (some colon) h ih =
    elim (Bool-cases (leb max_header_count (length items))) [
      | inl e ↦ rw e (λ h. cc)
      | inr e ↦ rw e (
          ih _ (
            ground (
              arith,
              length-add items (trim (take colon read.line)) (trim (drop (suc colon) read.line)),
            )))
    ]

read_headers-Bounded :
    (fuel : ℕ) (items : Headers) (r : Reader)
    → length (pending r) < fuel
    → length items ≤ max_header_count
    → Bounded (read_headers fuel items r)
unfolding read_headers
read_headers-Bounded zero items r h k = absurd (omega arith)
read_headers-Bounded (suc fuel) items r h k = elim (Bool-cases (is_ok (read_line r).code)) [
  | inl e ↦ (elim (Bool-cases (is_empty (read_line r).line)) [
    | inl blank ↦ rw (e, blank) k
    | inr full ↦
        rw (e, full)
          (after_colon-Bounded fuel (λ i r'. read_headers fuel i r') items (read_line r)
            (find_if is_colon (read_line r).line) k
            (λ i fits.
              read_headers-Bounded fuel i (read_line r).reader
                (omega (arith, read_line_shrinks r e)) fits))
  ])
  | inr e ↦ rw e (is_ok-false (read_line r).code e)
]

-- Reading the header lines ends on every connection: with at most a hundred headers, or with a code
-- that is not kOk.
pub read_headers_total :
    (r : Reader)
    → (h : Head) × (read_headers (suc (length (pending r))) [] r ≡ some h) × Bounded (some h)
read_headers_total r =
    go (read_headers (suc (length (pending r))) [] r) refl
      (read_headers-Bounded (suc (length (pending r))) [] r (omega arith) (omega arith))
  where
    go :
        (o : Option Head)
        → read_headers (suc (length (pending r))) [] r ≡ o
        → Bounded o
        → (h : Head) × (read_headers (suc (length (pending r))) [] r ≡ some h) × Bounded (some h)
    go none e b = absurd b
    go (some h) e b = (h, e, b)
