-- ===== src/Http/Reader/Waits.antt =====
-- `readLine` is the loop over `fill` that the source writes, and how `fill` waits.
use binder.Prelude.{
  ℕ, ◌+◌, ◌≤◌, ◌<◌, true, false, List, [], ◌∷◌, ◌++◌, leb, ◌≡◌, refl, arith, map, ap, ◌∙◌, sym,
  subst, Bool-cases, inl, inr,
}
use native.Mathlib.Nat.{add_assoc}
use binder.Text.{Bytes, codes}
use binder.Http.Code.{error_io, error_canceled}
use binder.Http.Reader.{
  again, Turn, Wire, Reader, take_bytes, ended, stop, wait, fill_round, Fill, filled, eof, failed,
  fill_wire, fill, complete, too_long, partial, scan_line, Scan, Round, round_fill, after_scan,
  after_round, LineResult, line_failed, closed_mid_header, read_line_wire, read_line_from,
}

-- What `readLine` does with what `fill` returns, on the line read so far.
abbrev pub after_fill : Bytes → ℕ → Bytes → Fill → LineResult
after_fill line timeout error (filled s w) =
    read_line_from line (record { wire = w; unread = s; idle_timeout = timeout; error = error })
after_fill line timeout error (eof w) = line_failed error_io closed_mid_header line w [] timeout
after_fill line timeout error (failed code why w) = line_failed code why line w [] timeout

after_round-fill :
    (timeout : ℕ) (error line : Bytes) (w : Wire) (x : Round)
    → ((idle : ℕ)
        → read_line_wire timeout error idle line w
          ≡ after_fill line timeout error (fill_wire timeout error idle w))
    → after_round
        (λ idle. read_line_wire timeout error idle line w)
        (λ part. read_line_wire timeout error 0 part w)
        w
        timeout
        error
        line
        x
      ≡ after_fill line timeout error (round_fill (λ idle. fill_wire timeout error idle w) w x)
unfolding read_line_from
after_round-fill timeout error line w (take_bytes s) ih = refl
after_round-fill timeout error line w ended ih = refl
after_round-fill timeout error line w (stop code why) ih = refl
after_round-fill timeout error line w (wait idle) ih = ih idle

read_line_wire-fill :
    (timeout : ℕ) (error : Bytes) (idle : ℕ) (line : Bytes) (w : Wire)
    → read_line_wire timeout error idle line w
      ≡ after_fill line timeout error (fill_wire timeout error idle w)
unfolding fill_wire read_line_wire
read_line_wire-fill timeout error idle line [] = refl
read_line_wire-fill timeout error idle line (t ∷ w) =
    after_round-fill timeout error line w (fill_round timeout error idle t)
      (λ idle'. read_line_wire-fill timeout error idle' line w)

-- The recursion of `read_line_from` on the turns is its scan of the buffer and then `fill`, over and
-- over, as in the source; the scan and the rounds are the same in both.
read_line_from_lem :
    (line : Bytes) (r : Reader)
    → read_line_from line r
      ≡ after_scan
          (λ part. after_fill part r.idle_timeout r.error (fill r))
          r.wire
          r.idle_timeout
          r.error
          (scan_line line r.unread)
unfolding read_line_from fill
read_line_from_lem line r = go (scan_line line r.unread)
  where
    go :
        (x : Scan)
        → after_scan
            (λ part. read_line_wire r.idle_timeout r.error 0 part r.wire)
            r.wire
            r.idle_timeout
            r.error
            x
          ≡ after_scan
              (λ part. after_fill part r.idle_timeout r.error (fill r))
              r.wire
              r.idle_timeout
              r.error
              x
    go (complete whole rest) = refl
    go (too_long part rest) = refl
    go (partial part) = read_line_wire-fill r.idle_timeout r.error 0 part r.wire

-- A turn that brings nothing, in some milliseconds.
abbrev pub silent : ℕ → Turn
silent ms = record { canceled = false; recv = again; ms = ms }

abbrev pub sum : List ℕ → ℕ
sum [] = 0
sum (n ∷ ns) = n + sum ns

fill_wire-silent :
    (timeout : ℕ) (error : Bytes) (idle : ℕ) (waits : List ℕ) (w : Wire)
    → idle + sum waits < timeout
    → fill_wire timeout error idle (map silent waits ++ w)
      ≡ fill_wire timeout error (idle + sum waits) w
unfolding fill_wire fill_round
fill_wire-silent timeout error idle [] w h =
    ap (λ (n : ℕ). fill_wire timeout error n w) (omega arith)
fill_wire-silent timeout error idle (n ∷ ns) w h =
    ground (arith, fill_wire-silent timeout error (idle + n) ns w, add_assoc idle n (sum ns))

fill_wire-times_out :
    (timeout : ℕ) (error : Bytes) (idle : ℕ) (waits : List ℕ) (w : Wire)
    → idle < timeout
    → timeout ≤ idle + sum waits
    → (rest : Wire) × (fill_wire timeout error idle (map silent waits ++ w)
        ≡ failed error_io (codes "timed out waiting for data") rest)
unfolding fill_wire fill_round
fill_wire-times_out timeout error idle [] w h k = absurd (omega arith)
fill_wire-times_out timeout error idle (n ∷ ns) w h k = elim (Bool-cases (leb timeout (idle + n))) [
  | inl e ↦ (map silent ns ++ w, ground arith)
  | inr e ↦
      let (rest, found) =
        fill_wire-times_out timeout error (idle + n) ns w (ground arith) (omega arith) in
      (rest, ground (arith))
]

canceled_turn :
    (timeout : ℕ) (error : Bytes) (idle : ℕ) (t : Turn) (w : Wire)
    → t.canceled ≡ true
    → fill_wire timeout error idle (t ∷ w) ≡ failed error_canceled error w
unfolding fill_wire fill_round
canceled_turn timeout error idle t w c = rw c

-- A connection that stays silent is given up: if the turns to come bring nothing for as long as the
-- idle timeout, which is positive, `fill` fails with the timeout message, whatever would follow.
pub fill_times_out :
    (r : Reader) (waits : List ℕ) (w : Wire)
    → r.wire ≡ map silent waits ++ w
    → 0 < r.idle_timeout
    → r.idle_timeout ≤ sum waits
    → (rest : Wire) × (fill r ≡ failed error_io (codes "timed out waiting for data") rest)
unfolding fill
fill_times_out r waits w e h k =
    subst
      (λ v.
        (rest : Wire) × (fill_wire r.idle_timeout r.error 0 v
          ≡ failed error_io (codes "timed out waiting for data") rest))
      (sym e) (fill_wire-times_out r.idle_timeout r.error 0 waits w h (omega arith))

-- A cancel is seen at the next poll: after a silence shorter than the idle timeout, a turn whose
-- poll says canceled ends `fill` with that code, and nothing is read at it.
fill_canceled :
    (r : Reader) (waits : List ℕ) (t : Turn) (w : Wire)
    → r.wire ≡ map silent waits ++ (t ∷ w)
    → sum waits < r.idle_timeout
    → t.canceled ≡ true
    → fill r ≡ failed error_canceled r.error w
unfolding fill
fill_canceled r waits t w e h c =
    subst (λ v. fill_wire r.idle_timeout r.error 0 v ≡ failed error_canceled r.error w) (sym e)
      (fill_wire-silent r.idle_timeout r.error 0 waits (t ∷ w) (omega arith)
        ∙ canceled_turn r.idle_timeout r.error (0 + sum waits) t w c)
