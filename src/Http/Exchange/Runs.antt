-- ===== src/Http/Exchange/Runs.antt =====
-- What one exchange does, on every way out of it, over any sink and any relation that the sink keeps.
use binder.Prelude.{
  ℕ, Bool, true, false, List, [], ◌∷◌, length, ℤ, pos, negsuc, Option, none, some, ◌≡◌, ◌≢◌, refl,
  sym, ap, ◌∙◌, subst, arith, Bool-cases, inl, inr, leb, is_empty,
}
use binder.Text.{Bytes, codes}
use binder.Http.Code.{ok}
use binder.Http.Url.{Url, resolve_redirect}
use binder.Http.Reader.{Reader, Wire, read_line}
use binder.Http.Headers.{Headers}
use binder.Http.Headers
use binder.Http.Body.{BodyFn, Pump, pump_plain}
use binder.Http.Body.Moves.{Fits, Tracks, pump_plain-Moves_any}
use binder.Http.Body.Chunked.{is_ok, pump_chunked}
use binder.Http.Body.Chunked.Total.{is_ok-true, pump_chunked_total}
use binder.Http.Body.Chunked.Coding.{stop}
use binder.Http.Body.Chunked.Decode.{is_ok-false, Decodes, pump_chunked-Decodes}
use binder.Http.Response.{parse_status_line}
use binder.Http.Exchange.{
  Request, ResponseInfo, Attempt, Write, Head, head_read, head_failed, Connection, not_connected,
  no_tls, connection, Sent, sent, unsent, send_all, HeadersFn, redirect_attempt, transfer,
  body_attempt, after_headers, with_head, after_status, after_send, converse, perform_once,
  response_info, is_redirect, content_length, request_head, new_reader,
}
use binder.Http.Reader.Lines.{pending}
use binder.Http.Exchange.HeaderLines.{read_headers_total, Bounded}
use binder.Http.Exchange.Served.{is_chunked, Served, Carries, Completes, Ran, Runs}

from_zero : (want : ℤ) → Fits want 0
from_zero (pos n) = omega arith
from_zero (negsuc n) = tt

pub is_empty-ne : (s : Bytes) → is_empty s ≡ false → s ≢ []
is_empty-ne [] h = cc
is_empty-ne (c ∷ s) h = λ e. cc

module _ {ℓ} {S : Type ℓ} (on_headers : HeadersFn S) {on_body : BodyFn S}
    {R : Bool → S → Bytes → S → Type 0} (tracks : Tracks on_body R) (url : Url) (request : Request)
    (sink : S) (connect : Url → Bytes → Connection) where
  -- An attempt that ends before the body.
  stopped :
      (a : Attempt S)
      → a.sink ≡ sink
      → a.result.bytes ≡ 0
      → a.result.error ≢ ok
      → a.redirect_to ≡ []
      → Ran on_headers R connect url request sink a
  stopped a e n h none_given = (λ k. absurd (k none_given), inl (e, n, λ good. absurd (h good)))

  module _ (status : ℕ) (reason : Bytes) (headers : Headers) (reader : Reader)
      (served : Served connect url request status reason headers reader) where
    redirect_attempt-Ran :
        is_redirect status ≡ true
        → Ran on_headers R connect url request sink
            (redirect_attempt on_headers on_body url status reason headers sink)
    unfolding redirect_attempt
    redirect_attempt-Ran redirects =
        let location = Headers.get headers (codes "Location") in
        elim (Bool-cases (is_empty location)) [
          | inl e ↦ rw e (stopped _ refl refl (λ h. cc) refl)
          | inr e ↦ (elim (Bool-cases (is_empty (resolve_redirect url location))) [
            | inl f ↦ rw (e, f) (stopped _ refl refl (λ h. cc) refl)
            | inr f ↦
                rw (e, f)
                  (
                    λ k. (
                      refl,
                      record {
                        status = status;
                        reason = reason;
                        headers = headers;
                        reader = reader;
                        served = served;
                        redirects = redirects;
                        target_is = refl;
                      },
                    ),
                    inl (refl, refl, λ h. is_empty-ne (resolve_redirect url location) f),
                  )
          ])
        ]

    module _ (final : (is_redirect status ≡ false) × (leb 400 status ≡ false)) where
      abbrev info : ResponseInfo
      info = response_info url request status reason headers

      body_attempt-Runs :
          (s : S) (p : Pump S) (moved : Bytes)
          → on_headers sink info ≡ (s, true)
          → R (is_ok p.code) s moved p.sink
          → p.written ≡ length moved
          → Carries headers (pending reader) moved
          → (p.code ≡ ok → Completes headers (pending reader) moved)
          → Runs on_headers R connect url request sink
              (body_attempt on_headers on_body info (some p))
      body_attempt-Runs s p moved e sunk counted carried whole = (
        _,
        refl,
        (
          λ k. absurd (k refl),
          inr (record {
            status = status;
            reason = reason;
            headers = headers;
            reader = reader;
            served = served;
            moved = moved;
            response_is = refl;
            is_final = final;
            sunk = subst (λ (x : S × Bool). R (is_ok p.code) x.0 moved p.sink) (sym e) sunk;
            counted = counted;
            carried = carried;
            success = λ good. (ap (λ (x : S × Bool). x.1) e, whole good);
          }),
        ),
      )

      plain_body :
          (s : S)
          → on_headers sink info ≡ (s, true)
          → is_chunked headers ≡ false
          → Runs on_headers R connect url request sink (
              body_attempt on_headers on_body info
                (some (pump_plain on_body (content_length headers) s 0 reader)))
      plain_body s e plain =
          let m =
            pump_plain-Moves_any tracks (content_length headers) reader.idle_timeout reader.error s
              0 reader.wire reader.unread (from_zero (content_length headers)) in
          body_attempt-Runs s (pump_plain on_body (content_length headers) s 0 reader) m.moved e
            m.sunk (omega (arith, m.written_is)) (λ c. absurd (cc), λ c. (_, m.pending_is))
            (λ good. (
              λ c. absurd (cc),
              λ c n framing.
                  let k = m.exact n framing good in let w = m.written_is in omega (arith, k, w),
            ))

      chunked_body :
          (s : S) (o : Option (Pump S))
          → on_headers sink info ≡ (s, true)
          → is_chunked headers ≡ true
          → o ≢ none
          → Decodes R s 0 (pending reader) o
          → Runs on_headers R connect url request sink (body_attempt on_headers on_body info o)
      chunked_body s none e coded h d = absurd (h refl)
      chunked_body s (some p) e coded h (moved, sunk, counted, partly, wholly) =
          body_attempt-Runs s p moved e sunk (omega (arith, counted))
            (λ c. partly, λ c. absurd (cc)) (λ good. (λ c. wholly good, λ c. absurd (cc)))

      transfer-Runs :
          (answer : S × Bool)
          → on_headers sink info ≡ answer
          → Runs on_headers R connect url request sink
              (transfer on_headers on_body info headers reader answer)
      transfer-Runs (s, false) e = (
        _,
        refl,
        (
          λ k. absurd (k refl),
          inr (record {
            status = status;
            reason = reason;
            headers = headers;
            reader = reader;
            served = served;
            moved = [];
            response_is = refl;
            is_final = final;
            sunk = subst (λ (x : S × Bool). R false x.0 [] s) (sym e) (tracks.nothing false s);
            counted = refl;
            carried = (λ c. stop, λ c. (pending reader, refl));
            success = λ good. cc;
          }),
        ),
      )
      transfer-Runs (s, true) e = elim (Bool-cases (is_chunked headers)) [
        | inl f ↦ rw f (
            chunked_body s (pump_chunked on_body s 0 reader) e f
              (pump_chunked_total on_body s 0 reader) (pump_chunked-Decodes tracks s 0 reader))
        | inr f ↦ rw f (plain_body s e f)
      ]

  after_headers-Runs :
      (status : ℕ) (reason : Bytes) (h : Head)
      → Bounded (some h)
      → ((headers : Headers) (r : Reader)
          → h ≡ head_read headers r
          → Served connect url request status reason headers r)
      → Runs on_headers R connect url request sink
          (after_headers on_headers on_body url request status reason sink h)
  unfolding after_headers
  after_headers-Runs status reason (head_failed code message) failed served =
      (_, refl, stopped _ refl refl failed refl)
  after_headers-Runs status reason (head_read headers r) bounded served =
      let answered = served headers r refl in
      elim (Bool-cases (is_redirect status)) [
        | inl e ↦ rw e (_, refl, redirect_attempt-Ran status reason headers r answered e)
        | inr e ↦ (elim (Bool-cases (leb 400 status)) [
          | inl f ↦ rw (e, f) (_, refl, stopped _ refl refl (λ h. cc) refl)
          | inr f ↦
              rw (e, f)
                (transfer-Runs status reason headers r answered (e, f)
                  (on_headers sink (response_info url request status reason headers)) refl)
        ])
      ]

  module _ (writes : List Write) (wire : Wire)
      (opened : connect url (request_head url request) ≡ connection writes wire)
      (request_sent : send_all writes (length (request_head url request)) ≡ sent)
      (line_read : (read_line (new_reader request wire)).code ≡ ok) where
    after_status-Runs :
        (status : Option (ℕ × Bytes))
        → let read = read_line (new_reader request wire) in
          parse_status_line read.line ≡ status
          → Runs on_headers R connect url request sink
              (after_status on_headers on_body url request sink read.line read.reader status)
    after_status-Runs none e = (_, refl, stopped _ refl refl (λ h. cc) refl)
    after_status-Runs (some (status, reason)) e =
        let (h, f, bounded) = read_headers_total (read_line (new_reader request wire)).reader in
        subst
          (λ o. Runs on_headers R connect url request sink (
            with_head on_headers on_body
              (after_headers on_headers on_body url request status reason sink) o))
          (sym f)
          (after_headers-Runs status reason h bounded (λ headers r same. record {
            writes = writes;
            wire = wire;
            opened = opened;
            request_sent = request_sent;
            line_read = line_read;
            status_is = e;
            headers_are = f ∙ ap some same;
          }))

  after_send-Runs :
      (writes : List Write) (wire : Wire) (s : Sent)
      → connect url (request_head url request) ≡ connection writes wire
      → send_all writes (length (request_head url request)) ≡ s
      → Runs on_headers R connect url request sink
          (after_send on_headers on_body url request sink wire s)
  after_send-Runs writes wire sent opened given =
      let read = read_line (new_reader request wire) in
      elim (Bool-cases (is_ok read.code)) [
        | inl e ↦ rw e (
            after_status-Runs writes wire opened given (is_ok-true read.code e)
              (parse_status_line read.line) refl)
        | inr e ↦ rw e (_, refl, stopped _ refl refl (is_ok-false read.code e) refl)
      ]
  after_send-Runs writes wire (unsent why) opened given =
      (_, refl, stopped _ refl refl (λ h. cc) refl)

  converse-Runs :
      (c : Connection)
      → connect url (request_head url request) ≡ c
      → Runs on_headers R connect url request sink (converse on_headers on_body url request sink c)
  converse-Runs (not_connected message) e = (_, refl, stopped _ refl refl (λ h. cc) refl)
  converse-Runs (no_tls message) e = (_, refl, stopped _ refl refl (λ h. cc) refl)
  converse-Runs (connection writes wire) e =
      after_send-Runs writes wire (send_all writes (length (request_head url request))) e refl

  -- An exchange always ends, whatever the connection does: with the sink untouched and no success but
  -- a redirect to follow, which is the one that the server has sent; or with a response that the
  -- server has sent and the caller has been shown, and a first part of its body moved to the sink and
  -- counted, which on success is all of it where the coding or a Content-Length says where it ends.
  pub perform_once-Runs :
      Runs on_headers R connect url request sink
        (perform_once on_headers on_body connect url request sink)
  unfolding perform_once
  perform_once-Runs = converse-Runs (connect url (request_head url request)) refl
