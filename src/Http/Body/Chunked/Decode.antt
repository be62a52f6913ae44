-- ===== src/Http/Body/Chunked/Decode.antt =====
-- What `pumpChunked` decodes, over any sink: all of the body on success, and a first part of it on
-- failure.
use binder.Prelude.{
  ℕ, zero, suc, ◌+◌, Bool, true, false, [], ◌∷◌, ◌++◌, length, pos, Option, none, some, ◌≡◌, ◌≢◌,
  refl, sym, ap, ◌∙◌, subst, arith, Bool-cases, inl, inr, append-nil, length-append,
}
use binder.Text.{Bytes}
use binder.Text.Search.{none_of}
use binder.Http.Code.{Code, ok, error_io}
use binder.Http.Reader.{Reader, read_line, strip_cr}
use binder.Http.Reader.Lines.{pending, is_line_feed, read_line-Reads}
use binder.Http.Body.{BodyFn, Pump}
use binder.Http.Body.Moves.{Tracks, Moves, pump_plain-Moves_any}
use binder.Http.Body.Plain.{collect, Appended, collect-Tracks}
use binder.Http.Body.Chunked.{
  stopped, malformed, is_ok, trailers, chunk_size, chunk_header, finished, after_end, after_chunk,
  after_size, chunks, pump_chunked,
}
use binder.Http.Body.Chunked.Total.{is_ok-true}
use binder.Http.Body.Chunked.Coding.{
  IsChunked, last, chunk, IsChunkedPart, stop, part, chunk_part, chunked_unique,
}

-- The sink has gone on by some bytes, and they are counted.
abbrev pub Grows {ℓ} :
    {S : Type ℓ} → (Bool → S → Bytes → S → Type 0) → Bool → S → ℕ → S → ℕ → Type 0
Grows R b sink written sink' written' =
    (moved : Bytes) × R b sink moved sink' × (written' ≡ written + length moved)

-- The sink has gone on by a first part of the body that `before` stands for, which is counted; and by
-- all of it on success.
abbrev pub Decodes {ℓ} :
    {S : Type ℓ} → (Bool → S → Bytes → S → Type 0) → S → ℕ → Bytes → Option (Pump S) → Type 0
Decodes R sink written before none = Unit {0}
Decodes R sink written before (some p) =
    (moved : Bytes) × R (is_ok p.code) sink moved p.sink
    × (p.written ≡ written + length moved)
    × IsChunkedPart before moved
    × (p.code ≡ ok → IsChunked before moved)

pub is_ok-false : (c : Code) → is_ok c ≡ false → c ≢ ok
is_ok-false c h e = cc (subst (λ x. is_ok x ≡ false) e h)

not_empty : (k : ℕ) (piece : Bytes) → length piece ≡ suc k → piece ≢ []
not_empty k [] h = absurd (cc)
not_empty k (c ∷ piece) h = λ same. cc

module _ {ℓ} {S : Type ℓ} {on_body : BodyFn S} {R : Bool → S → Bytes → S → Type 0}
    (tracks : Tracks on_body R) where
  weaken :
      (b : Bool) (sink : S) (moved : Bytes) (sink' : S)
      → R true sink moved sink'
      → R b sink moved sink'
  weaken b sink moved sink' h =
      subst (λ (x : Bytes). R b sink x sink') (append-nil moved)
        (tracks.join b sink sink' sink' moved [] h (tracks.nothing b sink'))

  -- A chunk, and then what follows it.
  after_end-Decodes :
      (next : Reader → Option (Pump S)) (sink sink' : S) (written k : ℕ) (line piece before : Bytes)
      (r : Reader)
      → before ≡ line ++ (b'\n' ∷ (piece ++ pending r))
      → none_of is_line_feed line ≡ true
      → chunk_size (chunk_header (strip_cr line)) ≡ some (suc k)
      → length piece ≡ suc k
      → R true sink piece sink'
      → ((r' : Reader) → Decodes R sink' (written + suc k) (pending r') (next r'))
      → Decodes R sink written before (after_end on_body next sink' (written + suc k) (read_line r))
  after_end-Decodes next sink sink' written k line piece before r splits plain size sized kept ih =
      elim (Bool-cases (is_ok (read_line r).code)) [
        | inl e ↦ rw e (
            let (raw, splits', stripped, plain', fits) =
              read_line-Reads r (is_ok-true (read_line r).code e) in
            whole (next (read_line r).reader) raw splits' plain' (ih (read_line r).reader))
        | inr e ↦ rw e (
          piece,
          weaken (is_ok (read_line r).code) sink piece sink' kept,
          omega (arith, sized),
          part line piece (pending r) (suc k) splits plain size (omega (arith, sized)),
          λ good. absurd (is_ok-false (read_line r).code e good),
        )
      ]
    where
      whole :
          (o : Option (Pump S)) (raw : Bytes)
          → pending r ≡ raw ++ (b'\n' ∷ pending (read_line r).reader)
          → none_of is_line_feed raw ≡ true
          → Decodes R sink' (written + suc k) (pending (read_line r).reader) o
          → Decodes R sink written before o
      whole none raw e plain' d = tt
      whole (some p) raw e plain' (more, sunk, counted, partly, wholly) =
          let text = splits ∙ ap (λ (x : Bytes). line ++ (b'\n' ∷ (piece ++ x))) e in
          let size' = size ∙ ap some (sym sized) in
          (
            piece ++ more,
            tracks.join (is_ok p.code) sink sink' p.sink piece more kept sunk,
            omega (arith, counted, sized, length-append piece more),
            chunk_part line piece raw (pending (read_line r).reader) text plain plain' size' partly,
            λ good.
                chunk line piece raw (pending (read_line r).reader) text plain plain'
                  (not_empty k piece sized) size' refl (wholly good),
          )

  after_chunk-Decodes :
      (next : S → ℕ → Reader → Option (Pump S)) (sink : S) (written k : ℕ) (line before : Bytes)
      (r : Reader) (body : Pump S)
      → before ≡ line ++ (b'\n' ∷ pending r)
      → none_of is_line_feed line ≡ true
      → chunk_size (chunk_header (strip_cr line)) ≡ some (suc k)
      → Moves R (pos (suc k)) sink 0 (pending r) body
      → ((sink' : S) (written' : ℕ) (r' : Reader)
          → Decodes R sink' written' (pending r') (next sink' written' r'))
      → Decodes R sink written before (after_chunk on_body next written body)
  after_chunk-Decodes next sink written k line before r body splits plain size m ih =
      let text = splits ∙ ap (λ (x : Bytes). line ++ (b'\n' ∷ x)) m.pending_is in
      elim (Bool-cases (is_ok body.code)) [
        | inl e ↦ rw e (
            let exact = m.exact (suc k) refl (is_ok-true body.code e) in
            subst
              (λ n. Decodes R sink written before (
                after_end on_body (next body.sink (written + n)) body.sink (written + n)
                  (read_line body.reader)))
              (sym exact)
              (after_end-Decodes (next body.sink (written + suc k)) sink body.sink written k line
                m.moved before body.reader text plain size (omega (arith, m.written_is, exact))
                (subst (λ b. R b sink m.moved body.sink) e m.sunk)
                (λ r'. ih body.sink (written + suc k) r')))
        | inr e ↦ rw e (
          m.moved,
          m.sunk,
          omega (arith, m.written_is),
          part line m.moved (pending body.reader) (suc k) text plain size
              (omega (arith, m.written_is, m.fits)),
          λ good. absurd (is_ok-false body.code e good),
        )
      ]

  nothing_Decodes :
      (code : Code) (message : Bytes) (sink : S) (written : ℕ) (before : Bytes) (r : Reader)
      → (code ≡ ok → IsChunked before [])
      → Decodes R sink written before (some (stopped on_body code message sink written r))
  nothing_Decodes code message sink written before r whole =
      ([], tracks.nothing (is_ok code) sink, omega arith, stop, whole)

  after_size-Decodes :
      (next : S → ℕ → Reader → Option (Pump S)) (sink : S) (written : ℕ) (line before : Bytes)
      (r : Reader) (size : Option ℕ)
      → before ≡ line ++ (b'\n' ∷ pending r)
      → none_of is_line_feed line ≡ true
      → chunk_size (chunk_header (strip_cr line)) ≡ size
      → ((sink' : S) (written' : ℕ) (r' : Reader)
          → Decodes R sink' written' (pending r') (next sink' written' r'))
      → Decodes R sink written before
          (after_size on_body next sink written (chunk_header (strip_cr line)) r size)
  after_size-Decodes next sink written line before r none splits plain e ih =
      nothing_Decodes error_io (malformed (chunk_header (strip_cr line))) sink written before r
        (λ good. absurd (cc))
  after_size-Decodes next sink written line before r (some zero) splits plain e ih =
      at_last (trailers (suc (length (pending r))) r)
    where
      at_last :
          (o : Option Reader) → Decodes R sink written before (finished on_body sink written o)
      at_last none = tt
      at_last (some r') =
          nothing_Decodes ok [] sink written before r'
            (λ good. last line (pending r) splits plain e)
  after_size-Decodes next sink written line before r (some (suc k)) splits plain e ih =
      after_chunk-Decodes next sink written k line before r _ splits plain e
        (pump_plain-Moves_any tracks (pos (suc k)) r.idle_timeout r.error sink 0 r.wire r.unread
          (omega arith))
        ih

  chunks-Decodes :
      (fuel : ℕ) (sink : S) (written : ℕ) (r : Reader)
      → Decodes R sink written (pending r) (chunks on_body fuel sink written r)
  unfolding chunks
  chunks-Decodes zero sink written r = tt
  chunks-Decodes (suc fuel) sink written r = elim (Bool-cases (is_ok (read_line r).code)) [
    | inl e ↦ rw e (
        let (raw, splits, stripped, plain, fits) =
          read_line-Reads r (is_ok-true (read_line r).code e) in
        subst
          (λ l. Decodes R sink written (pending r) (
            after_size on_body (λ s w r'. chunks on_body fuel s w r') sink written (chunk_header l)
              (read_line r).reader (chunk_size (chunk_header l))))
          (sym stripped)
          (after_size-Decodes (λ s w r'. chunks on_body fuel s w r') sink written raw (pending r)
            (read_line r).reader (chunk_size (chunk_header (strip_cr raw))) splits plain refl
            (λ s w r'. chunks-Decodes fuel s w r')))
    | inr e ↦ rw e (
        nothing_Decodes (read_line r).code (read_line r).reader.error sink written (pending r)
          (read_line r).reader (λ good. absurd (is_ok-false (read_line r).code e good)))
  ]

  pub pump_chunked-Decodes :
      (sink : S) (written : ℕ) (r : Reader)
      → Decodes R sink written (pending r) (pump_chunked on_body sink written r)
  unfolding pump_chunked
  pump_chunked-Decodes sink written r = chunks-Decodes (suc (length (pending r))) sink written r

-- When `pumpChunked` succeeds, what was pending was in the chunked coding, which stands for one body
-- only, and the sink has got that body, with every byte counted, however the bytes arrived.
pub pump_chunked-IsChunked :
    (policy : Bytes → Bytes → Bool) (sink : Bytes) (written : ℕ) (r : Reader) (p : Pump Bytes)
    → pump_chunked (collect policy) sink written r ≡ some p
    → p.code ≡ ok
    → (body : Bytes) × IsChunked (pending r) body
      × ((other : Bytes) → IsChunked (pending r) other → other ≡ body)
      × (p.sink ≡ sink ++ body)
      × (p.written ≡ written + length body)
pump_chunked-IsChunked policy sink written r p e good =
    let (body, sunk, counted, partly, wholly) =
      subst (Decodes Appended sink written (pending r)) e
        (pump_chunked-Decodes (collect-Tracks policy) sink written r) in
    let coded = wholly good in (body, coded, λ other h. chunked_unique h coded, sunk, counted)
