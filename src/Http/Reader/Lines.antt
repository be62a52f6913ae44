-- ===== src/Http/Reader/Lines.antt =====
-- What `readLine` takes from the connection, however the bytes arrive.
use binder.Prelude.{
  ℕ, ◌+◌, ◌≤◌, Bool, true, false, [], ◌∷◌, ◌++◌, ◌==◌, leb, if◌then◌else◌, length, ◌≡◌, ◌≢◌, refl,
  arith, ap, ◌∙◌, sym, append_assoc, append-nil, length-append, Bool-cases, inl, inr, subst,
}
use binder.Text.{Bytes}
use binder.Text.Search.{none_of, none_of-append}
use binder.Http.Code.{ok, error_canceled}
use binder.Http.Reader.{
  Recv, got, closed, again, broken, Turn, Wire, Reader, Round, take_bytes, ended, stop, wait,
  fill_round, recv_round, Scan, complete, too_long, partial, scan_line, strip_cr, LineResult,
  after_scan, after_round, read_line_wire, read_line_from, read_line, max_line_length,
}

abbrev pub is_line_feed : ℕ → Bool
is_line_feed c = c == b'\n'

-- The bytes that a turn brings: none if its poll says canceled, since nothing is read then.
abbrev pub recv_bytes : Recv → Bytes
recv_bytes (got c s) = c ∷ s
recv_bytes _ = []

abbrev pub received : Turn → Bytes
received t = if t.canceled then [] else recv_bytes t.recv

abbrev pub stream : Wire → Bytes
stream [] = []
stream (t ∷ w) = received t ++ stream w

-- All that is still to be read: the buffer, and what the connection brings.
abbrev pub pending : Reader → Bytes
pending r = r.unread ++ stream r.wire

-- The line so far and some bytes make a whole line, with `rest` behind its line feed.
abbrev Ends : Bytes → Bytes → Bytes → Bytes → Type 0
Ends line s whole rest =
    (raw : Bytes) × (s ≡ raw ++ (b'\n' ∷ rest))
    × (whole ≡ strip_cr (line ++ raw))
    × (none_of is_line_feed raw ≡ true)
    × (length (line ++ raw) ≤ max_line_length)

abbrev Scans : Bytes → Bytes → Scan → Type 0
Scans line s (complete whole rest) = Ends line s whole rest
Scans line s (too_long part rest) = Unit
Scans line s (partial part) =
    (part ≡ line ++ s) × (none_of is_line_feed s ≡ true) × (length part ≤ max_line_length)

Scans-cons :
    (line s : Bytes) (c : ℕ) (x : Scan)
    → (c == b'\n') ≡ false
    → Scans (line ++ (c ∷ [])) s x
    → Scans line (c ∷ s) x
Scans-cons line s c (complete whole rest) e (raw, splits, stripped, lacks, fits) =
    let joined = append_assoc line (c ∷ []) raw in
    (c ∷ raw, ap (◌∷◌ c) splits, stripped ∙ ap strip_cr joined, rw e lacks, rw (← joined) fits)
Scans-cons line s c (too_long part rest) e h = tt
Scans-cons line s c (partial part) e (all_of, lacks, fits) =
    (all_of ∙ append_assoc line (c ∷ []) s, rw e lacks, fits)

scan_line-Scans : (line s : Bytes) → length line ≤ max_line_length → Scans line s (scan_line line s)
unfolding scan_line
scan_line-Scans line [] h = (sym (append-nil line), refl, h)
scan_line-Scans line (c ∷ s) h = elim (Bool-cases (c == b'\n')) [
  | inl e ↦
      rw (e, scan_line)
        (
          [],
          ap (λ (x : ℕ). x ∷ s) (ground arith),
          ap strip_cr (sym (append-nil line)),
          refl,
          rw (append-nil line) h,
        )
  | inr e ↦ (elim (Bool-cases (leb max_line_length (length line))) [
    | inl long ↦ rw (e, long, scan_line) tt
    | inr short ↦
        rw (e, short, scan_line)
          (Scans-cons line s c (scan_line (line ++ (c ∷ [])) s) e
            (scan_line-Scans (line ++ (c ∷ [])) s (ground (arith, length-append line (c ∷ [])))))
  ])
]

-- What a successful `readLine` has taken: the line so far and what was pending make the line, its
-- terminator, and what is pending afterwards.
abbrev pub Reads : Bytes → Bytes → LineResult → Type 0
Reads line before r = r.code ≡ ok → Ends line before r.line (pending r.reader)

Reads-more :
    (line s before : Bytes) (r : LineResult)
    → none_of is_line_feed s ≡ true
    → Reads (line ++ s) before r
    → Reads line (s ++ before) r
Reads-more line s before r lacks h good =
    let (raw, splits, stripped, plain, fits) = h good in
    let joined = append_assoc line s raw in
    (
      s ++ raw,
      ap (◌++◌ s) splits ∙ sym (append_assoc s raw _),
      stripped ∙ ap strip_cr joined,
      none_of-append is_line_feed s raw lacks plain,
      rw (← joined) fits,
    )

-- What a round has taken from its turn.
abbrev pub Rounds : Bytes → Round → Type 0
Rounds brought (take_bytes s) = brought ≡ s
Rounds brought (wait idle) = brought ≡ []
Rounds brought ended = brought ≡ []
Rounds brought (stop code why) = (brought ≡ []) × (code ≢ ok)

pub fill_round-Rounds :
    (timeout : ℕ) (error : Bytes) (idle : ℕ) (t : Turn)
    → Rounds (received t) (fill_round timeout error idle t)
unfolding fill_round
fill_round-Rounds timeout error idle t = go t.canceled t.recv
  where
    of_recv : (r : Recv) → Rounds (recv_bytes r) (recv_round timeout error (idle + t.ms) r)
    of_recv (got c s) = refl
    of_recv closed = refl
    of_recv again = elim (Bool-cases (leb timeout (idle + t.ms))) [
      | inl e ↦ rw e (refl, λ e. cc)
      | inr e ↦ rw e refl
    ]
    of_recv (broken why) = (refl, λ e. cc)

    go :
        (b : Bool) (r : Recv)
        → Rounds
            (if b then [] else recv_bytes r)
            (if b then stop error_canceled error else recv_round timeout error (idle + t.ms) r)
    go true r = (refl, λ e. cc)
    go false r = of_recv r

after_scan-Reads :
    (line s before error : Bytes) (w : Wire) (timeout : ℕ) (more : Bytes → LineResult) (x : Scan)
    → Scans line s x
    → stream w ≡ before
    → ((part : Bytes) → length part ≤ max_line_length → Reads part before (more part))
    → Reads line (s ++ before) (after_scan more w timeout error x)
after_scan-Reads line s before error w timeout more (complete whole rest)
      (raw, splits, stripped, plain, fits) e ih =
    λ good. (
      raw,
      ap (λ (x : Bytes). x ++ before) splits
          ∙ append_assoc raw (b'\n' ∷ rest) before
          ∙ ap (λ (x : Bytes). raw ++ (b'\n' ∷ (rest ++ x))) (sym e),
      stripped,
      plain,
      fits,
    )
after_scan-Reads line s before error w timeout more (too_long part rest) h e ih = λ good. cc
after_scan-Reads line s before error w timeout more (partial part) (all_of, lacks, fits) e ih =
    Reads-more line s before (more part) lacks
      (subst (λ x. Reads x before (more part)) all_of (ih part fits))

after_round-Reads :
    (timeout : ℕ) (error line : Bytes) (t : Turn) (w : Wire) (go_on : ℕ → LineResult)
    (more : Bytes → LineResult) (x : Round)
    → length line ≤ max_line_length
    → Rounds (received t) x
    → ((idle : ℕ) → Reads line (stream w) (go_on idle))
    → ((part : Bytes) → length part ≤ max_line_length → Reads part (stream w) (more part))
    → Reads line (stream (t ∷ w)) (after_round go_on more w timeout error line x)
after_round-Reads timeout error line t w go_on more (take_bytes s) h e ih₁ ih₂ = rw e (
    after_scan-Reads line s (stream w) error w timeout more (scan_line line s)
      (scan_line-Scans line s h) refl ih₂)
after_round-Reads timeout error line t w go_on more ended h e ih₁ ih₂ = λ good. cc
after_round-Reads timeout error line t w go_on more (stop code why) h e ih₁ ih₂ =
    λ good. absurd (e.1 good)
after_round-Reads timeout error line t w go_on more (wait idle) h e ih₁ ih₂ = rw e (ih₁ idle)

read_line_wire-Reads :
    (timeout : ℕ) (error : Bytes) (idle : ℕ) (line : Bytes) (w : Wire)
    → length line ≤ max_line_length
    → Reads line (stream w) (read_line_wire timeout error idle line w)
unfolding read_line_wire
read_line_wire-Reads timeout error idle line [] h = λ good. cc
read_line_wire-Reads timeout error idle line (t ∷ w) h =
    after_round-Reads timeout error line t w (λ idle'. read_line_wire timeout error idle' line w)
      (λ part. read_line_wire timeout error 0 part w) (fill_round timeout error idle t) h
      (fill_round-Rounds timeout error idle t)
      (λ idle'. read_line_wire-Reads timeout error idle' line w h)
      (λ part fits. read_line_wire-Reads timeout error 0 part w fits)

-- However the bytes arrive, a successful `readLine` takes one line off what is pending and drops
-- nothing: what was pending before is some bytes with no line feed, at most 8192 of them, then a line
-- feed, then what is pending after; and the line is those bytes, without a carriage return at their
-- end.
pub read_line-Reads :
    (r : Reader)
    → (read_line r).code ≡ ok
    → (raw : Bytes) × (pending r ≡ raw ++ (b'\n' ∷ pending (read_line r).reader))
      × ((read_line r).line ≡ strip_cr raw)
      × (none_of is_line_feed raw ≡ true)
      × (length raw ≤ max_line_length)
unfolding read_line_from
read_line-Reads r =
    after_scan-Reads [] r.unread (stream r.wire) r.error r.wire r.idle_timeout _
      (scan_line [] r.unread) (scan_line-Scans [] r.unread (omega arith)) refl
      (λ part fits. read_line_wire-Reads r.idle_timeout r.error 0 part r.wire fits)
