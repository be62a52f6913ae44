-- ===== src/Http/Reader.antt =====
-- Buffered reading: class `Reader` of service/http/HttpClient.cpp over a connection.
--
-- A connection is the list of its turns to come: at each, what the cancel poll before the read says,
-- what recv returns, and the milliseconds that the turn takes. A connection with no turn left has
-- been closed by the peer. The buffer is its unread part, from mOffset to mAvailable.
pub mod Lines
pub mod Waits
use binder.Prelude.{
  ℕ, suc, ◌+◌, Bool, true, false, List, [], ◌∷◌, ◌++◌, ◌==◌, leb, if◌then◌else◌, length,
}
use binder.Text.{Bytes, codes}
use binder.Http.Code.{Code, ok, error_io, error_canceled}

-- recv: some bytes (never none), 0, kAgain or -1 with the connection's error.
pub data Recv : Type 0 where
  got : ℕ → Bytes → Recv
  closed again : Recv
  broken : Bytes → Recv

pub record Turn : Type 0 where
  pub canceled : Bool
  pub recv : Recv
  pub ms : ℕ

abbrev pub Wire : Type 0
Wire = List Turn

pub record Reader : Type 0 where
  pub wire : Wire
  pub unread : Bytes
  pub idle_timeout : ℕ
  pub error : Bytes

abbrev pub max_line_length : ℕ
max_line_length = 8192

-- One round of the loop in `fill`.
pub data Round : Type 0 where
  take_bytes : Bytes → Round
  ended : Round
  stop : Code → Bytes → Round
  wait : ℕ → Round

-- `idle` is the time since `fill` was called; a cancel leaves the reader's error as it is.
abbrev pub recv_round : ℕ → Bytes → ℕ → Recv → Round
recv_round timeout error idle (got c s) = take_bytes (c ∷ s)
recv_round timeout error idle closed = ended
recv_round timeout error idle again =
    if leb timeout idle then stop error_io (codes "timed out waiting for data") else wait idle
recv_round timeout error idle (broken why) = stop error_io why

unfoldable pub fill_round : ℕ → Bytes → ℕ → Turn → Round
fill_round timeout error idle t =
    if t.canceled then stop error_canceled error else recv_round timeout error (idle + t.ms) t.recv

pub data Fill : Type 0 where
  filled : Bytes → Wire → Fill
  eof : Wire → Fill
  failed : Code → Bytes → Wire → Fill

abbrev pub round_fill : (ℕ → Fill) → Wire → Round → Fill
round_fill go_on w (take_bytes s) = filled s w
round_fill go_on w ended = eof w
round_fill go_on w (stop code why) = failed code why w
round_fill go_on w (wait idle) = go_on idle

unfoldable pub fill_wire : ℕ → Bytes → ℕ → Wire → Fill
fill_wire timeout error idle [] = eof []
fill_wire timeout error idle (t ∷ w) =
    round_fill (λ idle'. fill_wire timeout error idle' w) w (fill_round timeout error idle t)

unfoldable pub fill : Reader → Fill
fill r = fill_wire r.idle_timeout r.error 0 r.wire

-- `if (!line->empty() && line->back() == '\r') line->pop_back();`
unfoldable pub strip_cr : Bytes → Bytes
strip_cr [] = []
strip_cr (c ∷ []) = if c == b'\r' then [] else c ∷ []
strip_cr (c ∷ d ∷ s) = c ∷ strip_cr (d ∷ s)

-- The inner loop of `readLine`, over the bytes in the buffer.
pub data Scan : Type 0 where
  complete : Bytes → Bytes → Scan
  too_long : Bytes → Bytes → Scan
  partial : Bytes → Scan

unfoldable pub scan_line : Bytes → Bytes → Scan
scan_line line [] = partial line
scan_line line (c ∷ s) =
    let more = scan_line (line ++ (c ∷ [])) s in
    if c == b'\n'
    then complete (strip_cr line) s
    else if leb max_line_length (length line)
    then too_long line s
    else more

pub record LineResult : Type 0 where
  pub code : Code
  pub line : Bytes
  pub reader : Reader

abbrev pub line_failed : Code → Bytes → Bytes → Wire → Bytes → ℕ → LineResult
line_failed code why line wire unread timeout = record {
  code = code;
  line = line;
  reader = record { wire = wire; unread = unread; idle_timeout = timeout; error = why };
}

abbrev pub line_read : Bytes → Wire → Bytes → ℕ → Bytes → LineResult
line_read line wire unread timeout error = record {
  code = ok;
  line = line;
  reader = record { wire = wire; unread = unread; idle_timeout = timeout; error = error };
}

abbrev pub closed_mid_header : Bytes
closed_mid_header = codes "connection closed mid-header"

abbrev pub line_too_long : Bytes
line_too_long = codes "response line too long"

-- What `readLine` does with the bytes in the buffer, where `more` goes on with the line so far.
abbrev pub after_scan : (Bytes → LineResult) → Wire → ℕ → Bytes → Scan → LineResult
after_scan more w timeout error (complete whole rest) = line_read whole w rest timeout error
after_scan more w timeout error (too_long part rest) =
    line_failed error_io line_too_long part w rest timeout
after_scan more w timeout error (partial part) = more part

-- What `readLine` does after one round of `fill`, where `go_on` goes on waiting.
abbrev pub after_round :
    (ℕ → LineResult) → (Bytes → LineResult) → Wire → ℕ → Bytes → Bytes → Round → LineResult
after_round go_on more w timeout error line (take_bytes s) =
    after_scan more w timeout error (scan_line line s)
after_round go_on more w timeout error line ended =
    line_failed error_io closed_mid_header line w [] timeout
after_round go_on more w timeout error line (stop code why) = line_failed code why line w [] timeout
after_round go_on more w timeout error line (wait idle) = go_on idle

-- The rest of `readLine` once the buffer is used up: a recursion on the turns, with the calls of
-- `fill` spread over them.
unfoldable pub read_line_wire : ℕ → Bytes → ℕ → Bytes → Wire → LineResult
read_line_wire timeout error idle line [] =
    line_failed error_io closed_mid_header line [] [] timeout
read_line_wire timeout error idle line (t ∷ w) =
    after_round (λ idle'. read_line_wire timeout error idle' line w)
      (λ part. read_line_wire timeout error 0 part w) w timeout error line
      (fill_round timeout error idle t)

unfoldable pub read_line_from : Bytes → Reader → LineResult
read_line_from line r =
    after_scan (λ part. read_line_wire r.idle_timeout r.error 0 part r.wire) r.wire r.idle_timeout
      r.error (scan_line line r.unread)

abbrev pub read_line : Reader → LineResult
read_line = read_line_from []
