-- ===== src/Http/Conn.antt =====
-- The connections of service/http/HttpClient.cpp: `PlainConn` and `TlsConn`, over what read, write,
-- SSL_read and SSL_write answer. They give the reader and `sendAll` one view of both.
pub mod Sends
use binder.Prelude.{ℕ, zero, suc, ◌-◌, List, [], ◌∷◌, ◌++◌, Option, none, some}
use binder.Text.{Bytes, codes}
use binder.Http.Reader.{Recv, got, closed, again, broken}
use binder.Http.Exchange.{Write, wrote, interrupted, would_block, write_failed, Sent, sent, unsent}

-- errno after a call that has failed, with its text.
pub data Errno : Type 0 where
  eintr eagain : Errno
  errno_text : Bytes → Errno

-- `describeErrno`.
abbrev pub describe_errno : Bytes → Bytes → Bytes
describe_errno what why = what ++ (codes ": " ++ why)

-- What read answers: some bytes, the end, or a failure.
pub data Read : Type 0 where
  read_bytes : ℕ → Bytes → Read
  read_end : Read
  read_failed : Errno → Read

abbrev pub read_error : Errno → Recv
read_error eintr = again
read_error eagain = again
read_error (errno_text why) = broken (describe_errno (codes "read") why)

-- PlainConn::recv.
unfoldable pub plain_recv : Read → Recv
plain_recv (read_bytes c s) = got c s
plain_recv read_end = closed
plain_recv (read_failed e) = read_error e

-- What SSL_get_error says of a call that has moved no bytes, with errno unless it is 0, and
-- with the text of ERR_get_error if there is any.
pub data SslError : Type 0 where
  zero_return want_read want_write : SslError
  ssl_syscall : Option Errno → Option Bytes → SslError
  ssl_failed : Option Bytes → SslError

-- What SSL_read answers.
pub data SslRead : Type 0 where
  ssl_bytes : ℕ → Bytes → SslRead
  ssl_unread : SslError → SslRead

-- `tlsError`.
abbrev pub tls_error : Bytes → Option Bytes → Bytes
tls_error what none = what
tls_error what (some why) = what ++ (codes ": " ++ why)

-- A connection that is dropped without close_notify counts as closed.
abbrev pub ssl_read_error : SslError → Recv
ssl_read_error zero_return = closed
ssl_read_error want_read = again
ssl_read_error want_write = again
ssl_read_error (ssl_syscall none why) = closed
ssl_read_error (ssl_syscall (some eintr) why) = again
ssl_read_error (ssl_syscall (some eagain) why) = again
ssl_read_error (ssl_syscall (some (errno_text e)) why) =
    broken (describe_errno (codes "tls read") e)
ssl_read_error (ssl_failed why) = broken (tls_error (codes "tls read") why)

-- TlsConn::recv.
unfoldable pub tls_recv : SslRead → Recv
tls_recv (ssl_bytes c s) = got c s
tls_recv (ssl_unread e) = ssl_read_error e

-- What SSL_write answers: one byte more than the number, or none.
pub data SslWrite : Type 0 where
  ssl_wrote : ℕ → SslWrite
  ssl_unwritten : SslError → SslWrite

abbrev pub tls_unsent : Option Bytes → Sent
tls_unsent why = unsent (tls_error (codes "tls write") why)

-- TlsConn::sendAll, on the length that is left. A list that has ended stands for errors, as in
-- `send_all`.
unfoldable pub tls_send_all : List SslWrite → ℕ → Sent
tls_send_all outcomes zero = sent
tls_send_all [] (suc n) = unsent []
tls_send_all (ssl_wrote k ∷ outcomes) (suc n) = tls_send_all outcomes (n - k)
tls_send_all (ssl_unwritten want_read ∷ outcomes) (suc n) = tls_send_all outcomes (suc n)
tls_send_all (ssl_unwritten want_write ∷ outcomes) (suc n) = tls_send_all outcomes (suc n)
tls_send_all (ssl_unwritten (ssl_syscall (some eintr) why) ∷ outcomes) (suc n) =
    tls_send_all outcomes (suc n)
tls_send_all (ssl_unwritten (ssl_syscall (some eagain) why) ∷ outcomes) (suc n) =
    tls_send_all outcomes (suc n)
tls_send_all (ssl_unwritten (ssl_syscall none why) ∷ outcomes) (suc n) = tls_unsent why
tls_send_all (ssl_unwritten (ssl_syscall (some (errno_text e)) why) ∷ outcomes) (suc n) =
    tls_unsent why
tls_send_all (ssl_unwritten zero_return ∷ outcomes) (suc n) = tls_unsent none
tls_send_all (ssl_unwritten (ssl_failed why) ∷ outcomes) (suc n) = tls_unsent why
