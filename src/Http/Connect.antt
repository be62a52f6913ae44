-- ===== src/Http/Connect.antt =====
-- Connecting: `connectTcp` and `openConnection` of service/http/HttpClient.cpp.
--
-- What the resolver, the sockets and OpenSSL answer is given with each address and each round of the
-- handshake; `strerror` is a parameter.
pub mod Secure
pub mod Https
use binder.Prelude.{ℕ, Bool, not, List, [], ◌∷◌, ◌++◌, ltb, if◌then◌else◌, Option, none, some}
use binder.Text.{Bytes, codes, equal}
use binder.Http.Code.{Code, error_bad_url, error_connect}
use binder.Http.Url.{Url, https}

pub data Errno : Type 0 where
  in_progress timed_out : Errno
  other_error : ℕ → Errno

-- What poll and SO_ERROR say of a connect in progress: nothing within the time that is left, or the
-- socket's error.
pub data Poll : Type 0 where
  poll_nothing poll_connected : Poll
  poll_error : Errno → Poll

pub data Connect : Type 0 where
  connected : Connect
  connecting : Poll → Connect
  refused : Errno → Connect

-- An address of getaddrinfo: whether a socket can be made, what connect says, and the time since the
-- start when it does.
pub record Address : Type 0 where
  pub has_socket : Bool
  pub connect : Connect
  pub elapsed : ℕ

pub data Resolved : Type 0 where
  unresolved : Bytes → Resolved
  addresses : List Address → Resolved

pub data Tcp : Type 0 where
  no_socket : Bytes → Tcp
  socket : Tcp

-- errno where the connect has failed. With no time left poll is not called; where poll finds nothing,
-- errno is still that of the connect, EINPROGRESS.
abbrev pub poll_errno : Poll → Option Errno
poll_errno poll_nothing = some in_progress
poll_errno poll_connected = none
poll_errno (poll_error e) = some e

abbrev pub connect_errno : ℕ → ℕ → Connect → Option Errno
connect_errno timeout elapsed connected = none
connect_errno timeout elapsed (refused e) = some e
connect_errno timeout elapsed (connecting p) =
    if ltb elapsed timeout then poll_errno p else some timed_out

-- A round of SSL_connect: done, to be retried with the time so far, or failed with its text.
pub data Handshake : Type 0 where
  shaken : Handshake
  retry : ℕ → Handshake
  fatal : Bytes → Handshake

pub data Opened : Type 0 where
  plain_conn tls_conn : Opened
  not_opened : Code → Bytes → Opened

module _ (strerror : Errno → Bytes) (url : Url) (timeout : ℕ) where
  abbrev pub connect_failed : Bytes → Bytes
  connect_failed why = codes "connect to " ++ (url.host ++ (codes ":" ++ (url.port ++ why)))

  abbrev pub after_connect : (Bytes → Tcp) → Option Errno → Tcp
  after_connect next none = socket
  after_connect next (some e) = next (connect_failed (codes ": " ++ strerror e))

  -- The addresses in turn; an address without a socket leaves the error as it is.
  unfoldable pub try_addresses : Bytes → List Address → Tcp
  try_addresses error [] = no_socket error
  try_addresses error (a ∷ rest) =
      let skipped = try_addresses error rest in
      let tried =
        after_connect (λ error'. try_addresses error' rest)
          (connect_errno timeout a.elapsed a.connect) in
      if a.has_socket then tried else skipped

  unfoldable pub connect_tcp : Resolved → Tcp
  connect_tcp (unresolved why) =
      no_socket (codes "cannot resolve " ++ (url.host ++ (codes ": " ++ why)))
  connect_tcp (addresses list) = try_addresses (connect_failed (codes " failed")) list

  -- The rounds of the handshake; a list that has ended stands for time running out.
  unfoldable pub handshake : List Handshake → Opened
  handshake [] =
      not_opened error_connect (codes "TLS handshake with " ++ (url.host ++ codes " timed out"))
  handshake (shaken ∷ rounds) = tls_conn
  handshake (retry elapsed ∷ rounds) =
      let rest = handshake rounds in
      if ltb elapsed timeout
      then rest
      else not_opened error_connect
          (codes "TLS handshake with " ++ (url.host ++ codes " timed out"))
  handshake (fatal why ∷ rounds) = not_opened error_connect why

  -- What OpenSSL has to offer: none without it, and the text of what is missing.
  abbrev pub open_tls : Option (Option Bytes) → List Handshake → Opened
  open_tls none rounds =
      not_opened error_bad_url
        (codes "https is not supported by this build (rebuild with OpenSSL available)")
  open_tls (some (some why)) rounds = not_opened error_connect why
  open_tls (some none) rounds = handshake rounds

  abbrev pub after_tcp : Option (Option Bytes) → List Handshake → Tcp → Opened
  after_tcp tls rounds (no_socket why) = not_opened error_connect why
  after_tcp tls rounds socket =
      if not (equal url.scheme https) then plain_conn else open_tls tls rounds

  unfoldable pub open_connection : Resolved → Option (Option Bytes) → List Handshake → Opened
  open_connection resolved tls rounds = after_tcp tls rounds (connect_tcp resolved)
