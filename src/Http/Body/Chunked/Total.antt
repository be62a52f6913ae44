-- ===== src/Http/Body/Chunked/Total.antt =====
-- The loops of `pumpChunked` end: a round takes a line at least off what is pending.
use binder.Prelude.{
  ℕ, zero, suc, ◌+◌, ◌≤◌, ◌<◌, Bool, true, not, ◌&&◌, ◌∷◌, length, is_empty, pos, Option, none,
  some, ◌≡◌, ◌≢◌, refl, arith, Bool-cases, inl, inr, length-append, ap,
}
use binder.Text.{Bytes}
use binder.Http.Code.{
  Code, ok, error_bad_url, error_connect, error_io, error_http_status, error_canceled, error_write,
  error_too_large,
}
use binder.Http.Reader.{Reader, read_line}
use binder.Http.Reader.Lines.{pending, read_line-Reads}
use binder.Http.Body.{BodyFn, Pump, pump_plain}
use binder.Http.Body.Moves.{Tracks, pump_plain-Moves_any}
use binder.Http.Body.Chunked.{
  is_ok, after_trailer, trailers, chunk_size, chunk_header, finished, after_end, after_chunk,
  after_size, chunks, pump_chunked,
}

pub is_ok-true : (c : Code) → is_ok c ≡ true → c ≡ ok
is_ok-true ok h = refl
is_ok-true error_bad_url h = cc
is_ok-true error_connect h = cc
is_ok-true error_io h = cc
is_ok-true error_http_status h = cc
is_ok-true error_canceled h = cc
is_ok-true error_write h = cc
is_ok-true error_too_large h = cc

-- A line that was read has left less than there was.
pub read_line_shrinks :
    (r : Reader)
    → is_ok (read_line r).code ≡ true
    → length (pending (read_line r).reader) < length (pending r)
read_line_shrinks r h =
    let (raw, splits, stripped, plain, fits) =
      read_line-Reads r (is_ok-true (read_line r).code h) in
    omega (arith, ap length splits, length-append raw (b'\n' ∷ pending (read_line r).reader))

and_both : (a b : Bool) → (a && b) ≡ true → a ≡ true
and_both a b h = ground arith

after_trailer_total :
    (n : ℕ) (next : Reader → Option Reader) (r : Reader)
    → length (pending r) < suc n
    → ((r' : Reader) → length (pending r') < n → next r' ≢ none)
    → after_trailer next (read_line r) ≢ none
after_trailer_total n next r h ih =
    let more : Bool = is_ok (read_line r).code && not (is_empty (read_line r).line) in
    elim (Bool-cases more) [
      | inl e ↦ rw e (
          ih (read_line r).reader
            (omega (arith, read_line_shrinks r (and_both (is_ok (read_line r).code) _ e))))
      | inr e ↦ rw e (λ x. cc)
    ]

trailers_total : (fuel : ℕ) (r : Reader) → length (pending r) < fuel → trailers fuel r ≢ none
unfolding trailers
trailers_total zero r h = absurd (omega arith)
trailers_total (suc fuel) r h =
    after_trailer_total fuel (λ r'. trailers fuel r') r h (λ r' h'. trailers_total fuel r' h')

-- Any sink keeps the relation that always holds.
abbrev Anything {ℓ} : {S : Type ℓ} → Bool → S → Bytes → S → Type 0
Anything b s d t = Unit {0}

anything {ℓ} : {S : Type ℓ} (on_body : BodyFn S) → Tracks on_body (Anything {S = S})
anything on_body = record {
  nothing = λ b s. tt;
  join = λ b s t u x y h k. tt;
  kept = λ b s t c e. tt;
  refusal = λ s t c e. tt;
}

module _ {ℓ} {S : Type ℓ} (on_body : BodyFn S) where
  pump_plain_shrinks :
      (n : ℕ) (sink : S) (r : Reader)
      → length (pending (pump_plain on_body (pos n) sink 0 r).reader) ≤ length (pending r)
  pump_plain_shrinks n sink r =
      let m =
        pump_plain-Moves_any (anything on_body) (pos n) r.idle_timeout r.error sink 0 r.wire
          r.unread (omega arith) in
      omega (arith, ap length m.pending_is, length-append m.moved _)

  finished_total :
      (sink : S) (written : ℕ) (rest : Option Reader)
      → rest ≢ none
      → finished on_body sink written rest ≢ none
  finished_total sink written none h = absurd (h refl)
  finished_total sink written (some r) h = λ x. cc

  after_end_total :
      (n : ℕ) (next : Reader → Option (Pump S)) (sink : S) (written : ℕ) (r : Reader)
      → length (pending r) < suc n
      → ((r' : Reader) → length (pending r') < n → next r' ≢ none)
      → after_end on_body next sink written (read_line r) ≢ none
  after_end_total n next sink written r h ih = elim (Bool-cases (is_ok (read_line r).code)) [
    | inl e ↦ rw e (ih (read_line r).reader (omega (arith, read_line_shrinks r e)))
    | inr e ↦ rw e (λ x. cc)
  ]

  after_chunk_total :
      (n : ℕ) (next : S → ℕ → Reader → Option (Pump S)) (written : ℕ) (body : Pump S)
      → length (pending body.reader) < suc n
      → ((sink' : S) (written' : ℕ) (r' : Reader)
          → length (pending r') < n
          → next sink' written' r' ≢ none)
      → after_chunk on_body next written body ≢ none
  after_chunk_total n next written body h ih = elim (Bool-cases (is_ok body.code)) [
    | inl e ↦ rw e (
        after_end_total n (next body.sink (written + body.written)) body.sink
          (written + body.written) body.reader h (ih body.sink (written + body.written)))
    | inr e ↦ rw e (λ x. cc)
  ]

  after_size_total :
      (n : ℕ) (next : S → ℕ → Reader → Option (Pump S)) (sink : S) (written : ℕ) (header : Bytes)
      (r : Reader) (size : Option ℕ)
      → length (pending r) < suc n
      → ((sink' : S) (written' : ℕ) (r' : Reader)
          → length (pending r') < n
          → next sink' written' r' ≢ none)
      → after_size on_body next sink written header r size ≢ none
  after_size_total n next sink written header r none h ih = λ x. cc
  after_size_total n next sink written header r (some zero) h ih =
      finished_total sink written (trailers (suc (length (pending r))) r)
        (trailers_total (suc (length (pending r))) r (omega arith))
  after_size_total n next sink written header r (some (suc k)) h ih =
      after_chunk_total n next written (pump_plain on_body (pos (suc k)) sink 0 r)
        (omega (arith, pump_plain_shrinks (suc k) sink r)) ih

  chunks_total :
      (fuel : ℕ) (sink : S) (written : ℕ) (r : Reader)
      → length (pending r) < fuel
      → chunks on_body fuel sink written r ≢ none
  unfolding chunks
  chunks_total zero sink written r h = absurd (omega arith)
  chunks_total (suc fuel) sink written r h = elim (Bool-cases (is_ok (read_line r).code)) [
    | inl e ↦ rw e (
        after_size_total fuel (λ s w r'. chunks on_body fuel s w r') sink written
          (chunk_header (read_line r).line) (read_line r).reader
          (chunk_size (chunk_header (read_line r).line)) (omega (arith, read_line_shrinks r e))
          (λ s w r' k. chunks_total fuel s w r' k))
    | inr e ↦ rw e (λ x. cc)
  ]

  -- `pumpChunked` ends on every connection, whatever it brings: its fuel always gives a result.
  pub pump_chunked_total :
      (sink : S) (written : ℕ) (r : Reader) → pump_chunked on_body sink written r ≢ none
  unfolding pump_chunked
  pump_chunked_total sink written r =
      chunks_total (suc (length (pending r))) sink written r (omega arith)
