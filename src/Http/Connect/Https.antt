-- ===== src/Http/Connect/Https.antt =====
-- `performOnce` with the connection that `openConnection` gives.
use binder.Prelude.{ℕ, Bool, true, List, map, Option, none, some, ◌≡◌, refl, ap, ◌∙◌, some_inj}
use binder.Text.{Bytes, equal}
use binder.Http.Code.{ok, error_bad_url}
use binder.Http.Url.{Url, https}
use binder.Http.Reader.{Recv, Turn}
use binder.Http.Body.{BodyFn}
use binder.Http.Exchange.{
  Request, Attempt, Write, Connection, not_connected, no_tls, connection, HeadersFn, converse,
  perform_once,
}
use binder.Http.Conn.{Read, plain_recv, SslRead, tls_recv, SslWrite}
use binder.Http.Conn.Sends.{as_write}
use binder.Http.Connect.{
  Errno, Resolved, Handshake, Opened, plain_conn, tls_conn, not_opened, open_connection,
}
use binder.Http.Connect.Secure.{Connects, Shakes, Secures, open_connection-Secures}

-- A turn of a connection's reads, with what read or SSL_read answers.
pub record ConnTurn (A : Type 0) : Type 0 where
  pub canceled : Bool
  pub answer : A
  pub ms : ℕ

abbrev pub as_turn : {A : Type 0} → (A → Recv) → ConnTurn A → Turn
as_turn recv t = record { canceled = t.canceled; recv = recv t.answer; ms = t.ms }

-- What the calls of either kind of connection answer, if they are made.
pub record Transport : Type 0 where
  pub writes : List Write
  pub reads : List (ConnTurn Read)
  pub ssl_writes : List SslWrite
  pub ssl_reads : List (ConnTurn SslRead)

abbrev pub plain_connection : Transport → Connection
plain_connection t = connection t.writes (map (as_turn plain_recv) t.reads)

abbrev pub tls_connection : Transport → Connection
tls_connection t = connection (map as_write t.ssl_writes) (map (as_turn tls_recv) t.ssl_reads)

-- The connection as an exchange sees it: `PlainConn` over write and read, `TlsConn` over SSL_write and
-- SSL_read, or the failure.
abbrev pub as_connection : Transport → Opened → Connection
as_connection t plain_conn = plain_connection t
as_connection t tls_conn = tls_connection t
as_connection t (not_opened error_bad_url why) = no_tls why
as_connection t (not_opened _ why) = not_connected why

module _ {ℓ} {S : Type ℓ} (on_headers : HeadersFn S) (on_body : BodyFn S) (strerror : Errno → Bytes)
    (timeout : ℕ) (resolved : Resolved) (tls : Option (Option Bytes)) (rounds : List Handshake)
    (transport : Transport) where
  abbrev pub opens : Url → Bytes → Connection
  opens url head =
      as_connection transport (open_connection strerror url timeout resolved tls rounds)

  -- What a success says of the connection.
  abbrev Tls : Url → Request → S → Attempt S → Opened → Type ℓ
  Tls url request sink a o =
      (o ≡ tls_conn)
      × (converse on_headers on_body url request sink (tls_connection transport) ≡ some a)
      × Connects timeout resolved
      × (tls ≡ some none)
      × Shakes timeout rounds

  converse-Tls :
      (url : Url) (request : Request) (sink : S) (a : Attempt S) (o : Opened)
      → Secures strerror url timeout resolved tls rounds o
      → equal url.scheme https ≡ true
      → a.result.error ≡ ok
      → converse on_headers on_body url request sink (as_connection transport o) ≡ some a
      → Tls url request sink a o
  converse-Tls url request sink a plain_conn s e good h = let k = s.0 in absurd (cc)
  converse-Tls url request sink a tls_conn (same, reached, available, complete) e good h =
      (refl, h, reached, available, complete)
  converse-Tls url request sink a (not_opened error_bad_url why) s e good h =
      let k = ap (λ (x : Attempt S). x.result.error) (some_inj h) ∙ good in absurd (cc)
  converse-Tls url request sink a (not_opened code why) s e good h =
      let k = ap (λ (x : Attempt S). x.result.error) (some_inj h) ∙ good in absurd (cc)

  -- An exchange with an https URL that succeeds has gone over TLS: `openConnection` has given a
  -- `TlsConn`, and the exchange is what it is over SSL_write and SSL_read alone, whatever write and
  -- read on the socket would have answered; the socket is connected to one of the addresses that the
  -- name resolves to, TLS can be used, and the handshake has come to its end with every round in time.
  pub https_over_tls :
      (url : Url) (request : Request) (sink : S) (a : Attempt S)
      → equal url.scheme https ≡ true
      → perform_once on_headers on_body opens url request sink ≡ some a
      → a.result.error ≡ ok
      → (open_connection strerror url timeout resolved tls rounds ≡ tls_conn)
        × (perform_once on_headers on_body (λ u head. tls_connection transport) url request sink
            ≡ some a)
        × Connects timeout resolved
        × (tls ≡ some none)
        × Shakes timeout rounds
  unfolding perform_once
  https_over_tls url request sink a e h good =
      converse-Tls url request sink a (open_connection strerror url timeout resolved tls rounds)
        (open_connection-Secures strerror url timeout resolved tls rounds) e good h
