-- ===== src/Http/Conn/Sends.antt =====
-- The two ways to send, as one.
use binder.Prelude.{
  ℕ, zero, suc, ◌+◌, ◌-◌, ◌≤◌, List, [], ◌∷◌, map, none, some, ◌≡◌, refl, ◌∙◌, sym, arith,
}
use binder.Text.{codes}
use binder.Http.Exchange.{Write, wrote, interrupted, would_block, write_failed, sent, send_all}
use binder.Http.Conn.{
  eintr, eagain, errno_text, zero_return, want_read, want_write, ssl_syscall, ssl_failed, SslWrite,
  ssl_wrote, ssl_unwritten, tls_error, tls_send_all,
}

-- An outcome of SSL_write as one of write.
abbrev pub as_write : SslWrite → Write
as_write (ssl_wrote k) = wrote (suc k)
as_write (ssl_unwritten want_read) = would_block
as_write (ssl_unwritten want_write) = would_block
as_write (ssl_unwritten (ssl_syscall (some eintr) why)) = interrupted
as_write (ssl_unwritten (ssl_syscall (some eagain) why)) = would_block
as_write (ssl_unwritten (ssl_syscall none why)) = write_failed (tls_error (codes "tls write") why)
as_write (ssl_unwritten (ssl_syscall (some (errno_text e)) why)) =
    write_failed (tls_error (codes "tls write") why)
as_write (ssl_unwritten zero_return) = write_failed (tls_error (codes "tls write") none)
as_write (ssl_unwritten (ssl_failed why)) = write_failed (tls_error (codes "tls write") why)

tls_send_all-as_write :
    (outcomes : List SslWrite) (n : ℕ)
    → tls_send_all outcomes n ≡ send_all (map as_write outcomes) n
unfolding tls_send_all send_all
tls_send_all-as_write outcomes zero = refl
tls_send_all-as_write [] (suc n) = refl
tls_send_all-as_write (ssl_wrote k ∷ outcomes) (suc n) = tls_send_all-as_write outcomes (n - k)
tls_send_all-as_write (ssl_unwritten want_read ∷ outcomes) (suc n) =
    tls_send_all-as_write outcomes (suc n)
tls_send_all-as_write (ssl_unwritten want_write ∷ outcomes) (suc n) =
    tls_send_all-as_write outcomes (suc n)
tls_send_all-as_write (ssl_unwritten (ssl_syscall (some eintr) why) ∷ outcomes) (suc n) =
    tls_send_all-as_write outcomes (suc n)
tls_send_all-as_write (ssl_unwritten (ssl_syscall (some eagain) why) ∷ outcomes) (suc n) =
    tls_send_all-as_write outcomes (suc n)
tls_send_all-as_write (ssl_unwritten (ssl_syscall none why) ∷ outcomes) (suc n) = refl
tls_send_all-as_write (ssl_unwritten (ssl_syscall (some (errno_text e)) why) ∷ outcomes) (suc n) =
    refl
tls_send_all-as_write (ssl_unwritten zero_return ∷ outcomes) (suc n) = refl
tls_send_all-as_write (ssl_unwritten (ssl_failed why) ∷ outcomes) (suc n) = refl

-- The bytes that the outcomes take.
abbrev pub bytes_taken : List Write → ℕ
bytes_taken [] = 0
bytes_taken (wrote k ∷ outcomes) = k + bytes_taken outcomes
bytes_taken (_ ∷ outcomes) = bytes_taken outcomes

send_all-sent :
    (outcomes : List Write) (n : ℕ) → send_all outcomes n ≡ sent → n ≤ bytes_taken outcomes
unfolding send_all
send_all-sent outcomes zero h = omega arith
send_all-sent [] (suc n) h = absurd (cc)
send_all-sent (wrote zero ∷ outcomes) (suc n) h = absurd (cc)
send_all-sent (wrote (suc k) ∷ outcomes) (suc n) h = omega (arith, send_all-sent outcomes (n - k) h)
send_all-sent (interrupted ∷ outcomes) (suc n) h = send_all-sent outcomes (suc n) h
send_all-sent (would_block ∷ outcomes) (suc n) h = send_all-sent outcomes (suc n) h
send_all-sent (write_failed why ∷ outcomes) (suc n) h = absurd (cc)

-- Sending over TLS does what sending over a plain socket does, outcome by outcome, errors included;
-- and over neither has a request been sent before all of its bytes have been taken, however short the
-- writes are.
pub tls_send_all-sends :
    (outcomes : List SslWrite) (plain : List Write) (n : ℕ)
    → (tls_send_all outcomes n ≡ send_all (map as_write outcomes) n)
      × (tls_send_all outcomes n ≡ sent → n ≤ bytes_taken (map as_write outcomes))
      × (send_all plain n ≡ sent → n ≤ bytes_taken plain)
tls_send_all-sends outcomes plain n =
    let same = tls_send_all-as_write outcomes n in
    (
      same,
      λ h. send_all-sent (map as_write outcomes) n (sym same ∙ h),
      λ h. send_all-sent plain n h,
    )
