-- ===== src/Http/Body.antt =====
-- The response body: `pumpPlain` and `pumpChunked` of service/http/HttpClient.cpp, over any sink.
pub mod Moves
pub mod Plain
pub mod Chunked
use binder.Prelude.{
  ℕ, zero, suc, ◌+◌, ◌-◌, min, Bool, true, false, List, [], ◌∷◌, ◌++◌, ◌==◌, leb, ltb,
  if◌then◌else◌, length, take, drop, is_empty, not, ◌||◌, ℤ, pos, negsuc, ltb_ℤ, ◌-ℤ◌, ◌+ℤ◌, Option,
  none, some,
}
use binder.Text.{Bytes, codes, trim, find_if}
use binder.Text.Number.{strtoll, Number, decimal}
use binder.Http.Code.{Code, ok, error_io, error_write}
use binder.Http.Reader.{
  Turn, Wire, Reader, Round, take_bytes, ended, stop, wait, fill_round, LineResult, read_line,
}
use binder.Http.Reader.Lines.{pending}

-- `onBody`: the sink's new state, and whether it accepted the bytes.
abbrev pub BodyFn {ℓ} : Type ℓ → Type ℓ
BodyFn S = S → Bytes → S × Bool

pub record Pump {ℓ} (S : Type ℓ) : Type ℓ where
  pub code : Code
  pub message : Bytes
  pub sink : S
  pub written : ℕ
  pub reader : Reader

-- `!(want < 0 || *written < want)`: a negative `want` means up to the end of the connection.
abbrev pub is_done : ℤ → ℕ → Bool
is_done (pos n) written = leb n written
is_done (negsuc n) written = false

-- The bytes of a buffer that are still wanted.
abbrev pub wanted : ℤ → ℕ → Bytes → Bytes
wanted (pos n) written s = take (n - written) s
wanted (negsuc n) written s = s

-- One round of the loop over a buffer: how it goes on.
pub data Delivery {ℓ} (S : Type ℓ) : Type ℓ where
  refused : S → Delivery S
  done : S → ℕ → Bytes → Delivery S
  more : S → ℕ → Delivery S

abbrev pub expected_message : ℤ → ℕ → Bytes
expected_message (pos n) written =
    codes "connection closed with " ++ (decimal (n - written) ++ codes " bytes still expected")
expected_message (negsuc n) written = []

module _ {ℓ} {S : Type ℓ} (on_body : BodyFn S) where
  abbrev pub accepted : ℤ → ℕ → Bytes → Bytes → S × Bool → Delivery S
  accepted want written s chunk (sink, false) = refused sink
  accepted want written s chunk (sink, true) =
      if is_done want (written + length chunk)
      then done sink (written + length chunk) (drop (length chunk) s)
      else more sink (written + length chunk)

  -- The loop's test, the chunk that is handed over, and the test after it. Where the test then fails,
  -- the whole buffer has been handed over.
  unfoldable pub deliver : ℤ → ℕ → S → Bytes → Delivery S
  deliver want written sink [] =
      if is_done want written then done sink written [] else more sink written
  deliver want written sink (c ∷ s) =
      if is_done want written
      then done sink written (c ∷ s)
      else accepted want written (c ∷ s) (wanted want written (c ∷ s))
          (on_body sink (wanted want written (c ∷ s)))

  abbrev pub pumped : Code → Bytes → S → ℕ → Wire → Bytes → ℕ → Bytes → Pump S
  pumped code message sink written wire unread timeout error = record {
    code = code;
    message = message;
    sink = sink;
    written = written;
    reader = record { wire = wire; unread = unread; idle_timeout = timeout; error = error };
  }

  -- The end of the connection is the framing when no length was given, and a failure otherwise.
  abbrev pub at_end : ℤ → ℕ → S → Wire → ℕ → Bytes → Pump S
  at_end (negsuc n) written sink w timeout error = pumped ok [] sink written w [] timeout error
  at_end (pos n) written sink w timeout error =
      pumped error_io (expected_message (pos n) written) sink written w [] timeout error

  abbrev pub after_delivery : (S → ℕ → Pump S) → Bytes → Wire → ℕ → Bytes → ℕ → Delivery S → Pump S
  after_delivery go_on s w timeout error written (refused sink) =
      pumped error_write (codes "sink rejected the response body") sink written w s timeout error
  after_delivery go_on s w timeout error written (done sink written' rest) =
      pumped ok [] sink written' w rest timeout error
  after_delivery go_on s w timeout error written (more sink written') = go_on sink written'

  abbrev pub pump_round :
      (ℕ → Pump S) → (S → ℕ → Pump S) → ℤ → ℕ → Bytes → S → ℕ → Wire → Round → Pump S
  pump_round go_on next want timeout error sink written w (take_bytes s) =
      after_delivery next s w timeout error written (deliver want written sink s)
  pump_round go_on next want timeout error sink written w ended =
      at_end want written sink w timeout error
  pump_round go_on next want timeout error sink written w (stop code why) =
      pumped code why sink written w [] timeout why
  pump_round go_on next want timeout error sink written w (wait idle) = go_on idle

  -- The loop once the buffer is used up: a recursion on the turns.
  unfoldable pub pump_wire : ℤ → ℕ → Bytes → ℕ → S → ℕ → Wire → Pump S
  pump_wire want timeout error idle sink written [] = at_end want written sink [] timeout error
  pump_wire want timeout error idle sink written (t ∷ w) =
      pump_round (λ idle'. pump_wire want timeout error idle' sink written w)
        (λ sink' written'. pump_wire want timeout error 0 sink' written' w) want timeout error sink
        written w (fill_round timeout error idle t)

  unfoldable pub pump_plain : ℤ → S → ℕ → Reader → Pump S
  pump_plain want sink written r =
      after_delivery
        (λ sink' written'. pump_wire want r.idle_timeout r.error 0 sink' written' r.wire) r.unread
        r.wire r.idle_timeout r.error written (deliver want written sink r.unread)
