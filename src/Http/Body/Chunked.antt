-- ===== src/Http/Body/Chunked.antt =====
-- `Transfer-Encoding: chunked`: `pumpChunked` of service/http/HttpClient.cpp.
--
-- Its loops take one line at least off what is pending at each round, so the fuel is one more than the
-- pending bytes.
pub mod Total
pub mod Coding
pub mod Decode
use binder.Prelude.{
  ℕ, zero, suc, ◌+◌, Bool, true, false, not, ◌&&◌, ◌||◌, [], ◌∷◌, ◌++◌, ◌==◌, if◌then◌else◌, length,
  take, is_empty, ℤ, pos, negsuc, Option, none, some, ◌>>=◌, ◌>>◌, guard,
}
use binder.Text.{Bytes, codes, trim, find_if}
use binder.Text.Number.{strtoll, Number}
use binder.Http.Code.{
  Code, ok, error_bad_url, error_connect, error_io, error_http_status, error_canceled, error_write,
  error_too_large,
}
use binder.Http.Reader.{Reader, LineResult, read_line}
use binder.Http.Reader.Lines.{pending}
use binder.Http.Body.{BodyFn, Pump, pump_plain}

abbrev pub is_ok : Code → Bool
is_ok ok = true
is_ok _ = false

-- A chunk header without its extensions.
unfoldable pub chunk_header : Bytes → Bytes
chunk_header line =
    trim (elim (find_if (λ c. c == b';') line) [ none ↦ line | some semi ↦ take semi line ])

-- `end == header.c_str() || size < 0` is malformed.
abbrev pub size_of : Number → Option ℕ
size_of n = elim n.value [ pos size ↦ (if n.converted then some size else none) | negsuc k ↦ none ]

unfoldable pub chunk_size : Bytes → Option ℕ
chunk_size header = size_of (strtoll 16 header)

abbrev pub malformed : Bytes → Bytes
malformed header = codes "malformed chunk size \"" ++ (header ++ codes "\"")

-- The trailers, up to a blank line; they are optional, so a failed read ends the body too.
abbrev pub after_trailer : (Reader → Option Reader) → LineResult → Option Reader
after_trailer next read =
    let rest = next read.reader in
    if is_ok read.code && not (is_empty read.line) then rest else some read.reader

unfoldable pub trailers : ℕ → Reader → Option Reader
trailers zero r = none
trailers (suc fuel) r = after_trailer (λ r'. trailers fuel r') (read_line r)

module _ {ℓ} {S : Type ℓ} (on_body : BodyFn S) where
  abbrev pub stopped : Code → Bytes → S → ℕ → Reader → Pump S
  stopped code message sink written reader = record {
    code = code;
    message = message;
    sink = sink;
    written = written;
    reader = reader;
  }

  -- After the last chunk; the body is complete whatever the trailers are.
  abbrev pub finished : S → ℕ → Option Reader → Option (Pump S)
  finished sink written none = none
  finished sink written (some r) = some (stopped ok [] sink written r)

  -- The line behind a chunk, and the chunks that follow it.
  abbrev pub after_end : (Reader → Option (Pump S)) → S → ℕ → LineResult → Option (Pump S)
  after_end next sink written read =
      let rest = next read.reader in
      if is_ok read.code
      then rest
      else some (stopped read.code read.reader.error sink written read.reader)

  -- A chunk's bytes; `written` counts those of the chunks before it.
  abbrev pub after_chunk : (S → ℕ → Reader → Option (Pump S)) → ℕ → Pump S → Option (Pump S)
  after_chunk next written body =
      if is_ok body.code
      then after_end (next body.sink (written + body.written)) body.sink (written + body.written)
          (read_line body.reader)
      else some (stopped body.code body.message body.sink (written + body.written) body.reader)

  abbrev pub after_size :
      (S → ℕ → Reader → Option (Pump S)) → S → ℕ → Bytes → Reader → Option ℕ → Option (Pump S)
  after_size next sink written header r none =
      some (stopped error_io (malformed header) sink written r)
  after_size next sink written header r (some zero) =
      finished sink written (trailers (suc (length (pending r))) r)
  after_size next sink written header r (some (suc n)) =
      after_chunk next written (pump_plain on_body (pos (suc n)) sink 0 r)

  abbrev pub after_header :
      (S → ℕ → Reader → Option (Pump S)) → S → ℕ → LineResult → Option (Pump S)
  after_header next sink written head =
      if is_ok head.code
      then after_size next sink written (chunk_header head.line) head.reader
          (chunk_size (chunk_header head.line))
      else some (stopped head.code head.reader.error sink written head.reader)

  unfoldable pub chunks : ℕ → S → ℕ → Reader → Option (Pump S)
  chunks zero sink written r = none
  chunks (suc fuel) sink written r =
      after_header (λ sink' written' r'. chunks fuel sink' written' r') sink written (read_line r)

  unfoldable pub pump_chunked : S → ℕ → Reader → Option (Pump S)
  pump_chunked sink written r = chunks (suc (length (pending r))) sink written r
