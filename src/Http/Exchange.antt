-- ===== src/Http/Exchange.antt =====
-- One request and its response, `performOnce` of service/http/HttpClient.cpp, over any sink.
--
-- `openConnection` (sockets, OpenSSL) and the server are the parameter `connect`, which gives for a
-- URL and a request a failure, or the outcomes of the writes and the turns of the reads.
pub mod HeaderLines
pub mod Served
pub mod Runs
pub mod Sinks
use binder.Prelude.{
  ℕ, zero, suc, ◌+◌, ◌-◌, min, Bool, true, false, not, ◌&&◌, ◌||◌, List, [], ◌∷◌, ◌++◌, ◌==◌, leb,
  ltb, if◌then◌else◌, length, take, drop, is_empty, ℤ, pos, negsuc, minus_one, ◌+ℤ◌, ltb_ℤ, Option,
  none, some,
}
use binder.Text.{Bytes, codes, trim, find_if}
use binder.Text.Number.{strtoll, Number, decimal, decimal_ℤ}
use binder.Http.Code.{
  Code, ok, error_bad_url, error_connect, error_io, error_http_status, error_write, error_too_large,
}
use binder.Http.Reader.{Wire, Reader, LineResult, read_line}
use binder.Http.Reader.Lines.{pending}
use binder.Http.Body.{BodyFn, Pump, pump_plain}
use binder.Http.Body.Chunked.{is_ok, pump_chunked}
use binder.Http.Url.{Url, host_header, to_string, is_colon, resolve_redirect}
use binder.Http.Headers.{Headers, add}
use binder.Http.Headers
use binder.Http.Response.{parse_status_line, parse_content_range}

-- The outcomes of write: some bytes, EINTR, EAGAIN or EWOULDBLOCK, or an error with its text. A list
-- that has ended stands for errors, and the text of an error that sets none is left empty.
pub data Write : Type 0 where
  wrote : ℕ → Write
  interrupted would_block : Write
  write_failed : Bytes → Write

pub data Sent : Type 0 where
  sent : Sent
  unsent : Bytes → Sent

-- PlainConn::sendAll, on the length that is left.
unfoldable pub send_all : List Write → ℕ → Sent
send_all outcomes zero = sent
send_all [] (suc n) = unsent []
send_all (wrote zero ∷ outcomes) (suc n) = unsent []
send_all (wrote (suc k) ∷ outcomes) (suc n) = send_all outcomes (n - k)
send_all (interrupted ∷ outcomes) (suc n) = send_all outcomes (suc n)
send_all (would_block ∷ outcomes) (suc n) = send_all outcomes (suc n)
send_all (write_failed why ∷ outcomes) (suc n) = unsent why

-- `openConnection`: a failure with its text (a connect or TLS failure is kErrorConnect, a build
-- without TLS is kErrorBadUrl), or a connection.
pub data Connection : Type 0 where
  not_connected no_tls : Bytes → Connection
  connection : List Write → Wire → Connection

pub record Request : Type 0 where
  pub url : Bytes
  pub resume_from : ℕ
  pub max_redirects : ℕ
  pub idle_timeout : ℕ

pub record ResponseInfo : Type 0 where
  pub status_code : ℕ
  pub reason : Bytes
  pub content_type : Bytes
  pub start_offset : ℤ
  pub total_bytes : ℤ
  pub final_url : Bytes

pub record Result : Type 0 where
  pub error : Code
  pub message : Bytes
  pub response : ResponseInfo
  pub bytes : ℕ

pub record Attempt {ℓ} (S : Type ℓ) : Type ℓ where
  pub sink : S
  pub result : Result
  pub redirect_to : Bytes

abbrev crlf : Bytes
crlf = b'\r' ∷ b'\n' ∷ []

abbrev range_header : ℕ → Bytes
range_header zero = []
range_header (suc n) = codes "Range: bytes=" ++ (decimal (suc n) ++ (codes "-" ++ crlf))

unfoldable pub request_head : Url → Request → Bytes
request_head url request =
    codes "GET "
    ++ (url.target
        ++ (codes " HTTP/1.1"
            ++ (crlf
                ++ (codes "Host: "
                    ++ (host_header url
                        ++ (crlf
                            ++ (codes "User-Agent: binder-http-service/1.0"
                                ++ (crlf
                                    ++ (codes "Accept: */*"
                                        ++ (crlf
                                            ++ (codes "Accept-Encoding: identity"
                                                ++ (crlf
                                                    ++ (range_header request.resume_from
                                                        ++ (codes "Connection: close"
                                                            ++ (crlf ++ crlf)))))))))))))))

abbrev pub no_response : ResponseInfo
no_response = record {
  status_code = 0;
  reason = [];
  content_type = [];
  start_offset = pos 0;
  total_bytes = minus_one;
  final_url = [];
}

abbrev pub max_header_count : ℕ
max_header_count = 100

-- The header lines up to the blank one.
pub data Head : Type 0 where
  head_read : Headers → Reader → Head
  head_failed : Code → Bytes → Head

-- One header line: junk with no colon is ignored.
abbrev pub after_colon :
    (Headers → Reader → Option Head) → Headers → LineResult → Option ℕ → Option Head
after_colon next items read none = next items read.reader
after_colon next items read (some colon) =
    let rest =
      next (add items (trim (take colon read.line)) (trim (drop (suc colon) read.line)))
        read.reader in
    if leb max_header_count (length items)
    then some (head_failed error_too_large (codes "too many response headers"))
    else rest

abbrev pub after_line : (Headers → Reader → Option Head) → Headers → LineResult → Option Head
after_line next items read =
    let more = after_colon next items read (find_if is_colon read.line) in
    if is_ok read.code
    then if is_empty read.line then some (head_read items read.reader) else more
    else some (head_failed read.code read.reader.error)

unfoldable pub read_headers : ℕ → Headers → Reader → Option Head
read_headers zero items r = none
read_headers (suc fuel) items r =
    after_line (λ items' r'. read_headers fuel items' r') items (read_line r)

abbrev pub is_redirect : ℕ → Bool
is_redirect code = code == 301 || code == 302 || code == 303 || code == 307 || code == 308

-- Content-Length, -1 when there is none.
unfoldable pub content_length : Headers → ℤ
content_length headers =
    let text = Headers.get headers (codes "Content-Length") in
    if is_empty text then minus_one else (strtoll 10 text).value

-- Where the body starts, and the size of the whole resource.
abbrev pub range_of : Request → ℤ → Option (ℤ × ℤ) → ℤ × ℤ
range_of request length_ (some range) = range
range_of request length_ none = (
  pos request.resume_from,
  (if ltb_ℤ length_ (pos 0) then minus_one else pos request.resume_from +ℤ length_),
)

unfoldable pub body_range : Request → ℕ → Headers → ℤ × ℤ
body_range request status headers =
    if status == 206
    then range_of request (content_length headers)
        (parse_content_range (Headers.get headers (codes "Content-Range")))
    else (pos 0, content_length headers)

unfoldable pub response_info : Url → Request → ℕ → Bytes → Headers → ResponseInfo
response_info url request status reason headers = record {
  status_code = status;
  reason = reason;
  content_type = Headers.get headers (codes "Content-Type");
  start_offset = (body_range request status headers).0;
  total_bytes = (body_range request status headers).1;
  final_url = to_string url;
}

abbrev pub new_reader : Request → Wire → Reader
new_reader request wire = record {
  wire = wire;
  unread = [];
  idle_timeout = request.idle_timeout;
  error = [];
}

abbrev pub HeadersFn {ℓ} : Type ℓ → Type ℓ
HeadersFn S = S → ResponseInfo → S × Bool

abbrev pub status_info : ℕ → Bytes → ResponseInfo
status_info status reason = record no_response { status_code = status; reason = reason }

module _ {ℓ} {S : Type ℓ} (on_headers : HeadersFn S) (on_body : BodyFn S) where
  abbrev pub failed_attempt : S → Code → Bytes → ResponseInfo → Attempt S
  failed_attempt sink code message info = record {
    sink = sink;
    result = record { error = code; message = message; response = info; bytes = 0 };
    redirect_to = [];
  }

  -- 3xx: the target for the caller to follow, with the body left unread.
  unfoldable pub redirect_attempt : Url → ℕ → Bytes → Headers → S → Attempt S
  redirect_attempt url status reason headers sink =
      let location = Headers.get headers (codes "Location") in
      let target = if is_empty location then [] else resolve_redirect url location in
      let message = codes "HTTP " ++ (decimal status ++ codes " without a usable Location") in
      if is_empty target
      then failed_attempt sink error_io message (status_info status reason)
      else record {
        sink = sink;
        result = record {
          error = ok;
          message = [];
          response = status_info status reason;
          bytes = 0;
        };
        redirect_to = target;
      }

  abbrev pub status_message : ℕ → Bytes → Bytes
  status_message status reason =
      codes "HTTP " ++ (decimal status ++ (if is_empty reason then [] else codes " " ++ reason))

  -- The end of the body.
  abbrev pub finished : ResponseInfo → Pump S → Attempt S
  finished info p = record {
    sink = p.sink;
    result = record {
      error = p.code;
      message = if is_ok p.code then [] else p.message;
      response = info;
      bytes = p.written;
    };
    redirect_to = [];
  }

  abbrev pub body_attempt : ResponseInfo → Option (Pump S) → Option (Attempt S)
  body_attempt info none = none
  body_attempt info (some p) = some (finished info p)

  abbrev pub pump_body : Headers → S → Reader → Option (Pump S)
  pump_body headers sink r =
      if Headers.contains headers (codes "Transfer-Encoding") (codes "chunked")
      then pump_chunked on_body sink 0 r
      else some (pump_plain on_body (content_length headers) sink 0 r)

  -- The body, once the caller has accepted the response.
  abbrev pub transfer : ResponseInfo → Headers → Reader → S × Bool → Option (Attempt S)
  transfer info headers r (sink, false) =
      some (failed_attempt sink error_write (codes "caller refused the response") info)
  transfer info headers r (sink, true) = body_attempt info (pump_body headers sink r)

  unfoldable pub after_headers : Url → Request → ℕ → Bytes → S → Head → Option (Attempt S)
  after_headers url request status reason sink (head_failed code message) =
      some (failed_attempt sink code message (status_info status reason))
  after_headers url request status reason sink (head_read headers r) =
      let info = response_info url request status reason headers in
      if is_redirect status
      then some (redirect_attempt url status reason headers sink)
      else if leb 400 status
      then some (
          failed_attempt sink error_http_status (status_message status reason)
            (status_info status reason))
      else transfer info headers r (on_headers sink info)

  abbrev pub with_head : (Head → Option (Attempt S)) → Option Head → Option (Attempt S)
  with_head next none = none
  with_head next (some head) = next head

  abbrev pub not_http : Bytes → Bytes
  not_http line = codes "not an HTTP response: \"" ++ (line ++ codes "\"")

  abbrev pub after_status :
      Url → Request → S → Bytes → Reader → Option (ℕ × Bytes) → Option (Attempt S)
  after_status url request sink line r none =
      some (failed_attempt sink error_io (not_http line) no_response)
  after_status url request sink line r (some (status, reason)) =
      with_head (after_headers url request status reason sink)
        (read_headers (suc (length (pending r))) [] r)

  abbrev pub after_status_line : Url → Request → S → LineResult → Option (Attempt S)
  after_status_line url request sink read =
      if is_ok read.code
      then after_status url request sink read.line read.reader (parse_status_line read.line)
      else some (failed_attempt sink read.code read.reader.error no_response)

  abbrev pub after_send : Url → Request → S → Wire → Sent → Option (Attempt S)
  after_send url request sink wire sent =
      after_status_line url request sink (read_line (new_reader request wire))
  after_send url request sink wire (unsent why) =
      some (failed_attempt sink error_io (codes "sending request failed: " ++ why) no_response)

  abbrev pub converse : Url → Request → S → Connection → Option (Attempt S)
  converse url request sink (not_connected message) =
      some (failed_attempt sink error_connect message no_response)
  converse url request sink (no_tls message) =
      some (failed_attempt sink error_bad_url message no_response)
  converse url request sink (connection writes wire) =
      after_send url request sink wire (send_all writes (length (request_head url request)))

  unfoldable pub perform_once : (Url → Bytes → Connection) → Url → Request → S → Option (Attempt S)
  perform_once connect url request sink =
      converse url request sink (connect url (request_head url request))
