-- ===== src/Http/Exchange/Served.antt =====
-- The response that a server has sent in an exchange, and what an exchange may have done with it.
use binder.Prelude.{
  ℕ, suc, Bool, true, false, List, [], ◌++◌, length, pos, Option, some, ◌≡◌, ◌≢◌, ◌⊎◌, leb,
}
use binder.Text.{Bytes, codes}
use binder.Http.Code.{ok}
use binder.Http.Url.{Url, resolve_redirect}
use binder.Http.Reader.{Reader, Wire, read_line}
use binder.Http.Headers.{Headers}
use binder.Http.Headers
use binder.Http.Body.Chunked.{is_ok}
use binder.Http.Body.Chunked.Coding.{IsChunked, IsChunkedPart}
use binder.Http.Response.{parse_status_line}
use binder.Http.Exchange.{
  Request, Attempt, Write, head_read, Connection, connection, sent, send_all, HeadersFn,
  response_info, is_redirect, content_length, request_head, new_reader, read_headers,
}
use binder.Http.Reader.Lines.{pending}

abbrev pub is_chunked : Headers → Bool
is_chunked headers = Headers.contains headers (codes "Transfer-Encoding") (codes "chunked")

-- A body is as long as its Content-Length, where that frames it.
abbrev pub Framed : Headers → Bytes → Type 0
Framed headers moved =
    is_chunked headers ≡ false → (n : ℕ) → content_length headers ≡ pos n → length moved ≡ n

-- The server has been sent the request, and has answered with this status line and these headers;
-- behind them the reader stands at the body.
pub record Served (connect : Url → Bytes → Connection) (url : Url) (request : Request) (status : ℕ)
    (reason : Bytes) (headers : Headers) (reader : Reader) : Type 0 where
  pub writes : List Write
  pub wire : Wire
  pub opened : connect url (request_head url request) ≡ connection writes wire
  pub request_sent : send_all writes (length (request_head url request)) ≡ sent
  pub line_read : (read_line (new_reader request wire)).code ≡ ok
  pub status_is :
      parse_status_line (read_line (new_reader request wire)).line ≡ some (status, reason)
  pub headers_are :
      let r = (read_line (new_reader request wire)).reader in
      read_headers (suc (length (pending r))) [] r ≡ some (head_read headers reader)

-- The bytes are a first part of the body behind the headers.
abbrev pub Carries : Headers → Bytes → Bytes → Type 0
Carries headers behind moved =
    (is_chunked headers ≡ true → IsChunkedPart behind moved)
    × (is_chunked headers ≡ false → (rest : Bytes) × (behind ≡ moved ++ rest))

-- They are all of it, where the coding or a Content-Length says where it ends.
abbrev pub Completes : Headers → Bytes → Bytes → Type 0
Completes headers behind moved =
    (is_chunked headers ≡ true → IsChunked behind moved) × Framed headers moved

-- The caller has been shown the response that the server has sent, and bytes of its body have gone
-- to the sink as it was then.
pub record Transferred {ℓ} {S : Type ℓ} (on_headers : HeadersFn S)
    (R : Bool → S → Bytes → S → Type 0) (connect : Url → Bytes → Connection) (url : Url)
    (request : Request) (sink : S) (a : Attempt S) : Type ℓ where
  pub status : ℕ
  pub reason : Bytes
  pub headers : Headers
  pub reader : Reader
  pub served : Served connect url request status reason headers reader
  pub moved : Bytes
  pub response_is : a.result.response ≡ response_info url request status reason headers
  pub is_final : (is_redirect status ≡ false) × (leb 400 status ≡ false)
  pub sunk :
      R
        (is_ok a.result.error)
        (on_headers sink (response_info url request status reason headers)).0
        moved
        a.sink
  pub counted : a.result.bytes ≡ length moved
  pub carried : Carries headers (pending reader) moved
  pub success :
      a.result.error ≡ ok
      → ((on_headers sink (response_info url request status reason headers)).1 ≡ true)
        × Completes headers (pending reader) moved

-- The server has answered with a redirect to this URL.
pub record Redirects (connect : Url → Bytes → Connection) (url : Url) (request : Request)
    (target : Bytes) : Type 0 where
  pub status : ℕ
  pub reason : Bytes
  pub headers : Headers
  pub reader : Reader
  pub served : Served connect url request status reason headers reader
  pub redirects : is_redirect status ≡ true
  pub target_is : target ≡ resolve_redirect url (Headers.get headers (codes "Location"))

-- Nothing has gone to the sink, and there is no success but a redirect to follow.
abbrev pub Untouched {ℓ} : {S : Type ℓ} → S → Attempt S → Type ℓ
Untouched sink a =
    (a.sink ≡ sink) × (a.result.bytes ≡ 0) × (a.result.error ≡ ok → a.redirect_to ≢ [])

-- There is an attempt, and it is one of these.
abbrev pub Ran {ℓ} :
    {S : Type ℓ}
    → HeadersFn S
    → (Bool → S → Bytes → S → Type 0)
    → (Url → Bytes → Connection)
    → Url
    → Request
    → S
    → Attempt S
    → Type ℓ
Ran on_headers R connect url request sink a =
    (a.redirect_to ≢ [] → (a.sink ≡ sink) × Redirects connect url request a.redirect_to)
    × (Untouched sink a ⊎ Transferred on_headers R connect url request sink a)

abbrev pub Runs {ℓ} :
    {S : Type ℓ}
    → HeadersFn S
    → (Bool → S → Bytes → S → Type 0)
    → (Url → Bytes → Connection)
    → Url
    → Request
    → S
    → Option (Attempt S)
    → Type ℓ
Runs {S} on_headers R connect url request sink o =
    (a : Attempt S) × (o ≡ some a) × Ran on_headers R connect url request sink a
