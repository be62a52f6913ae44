-- ===== src/Http/Tests.antt =====
-- Runs of the HTTP client's code at fixed inputs, and the theorems at inputs that meet their
-- hypotheses.
use binder.Prelude.{
  Option, suc, ◌+◌, ◌≤◌, Bool, true, false, [], ◌∷◌, ◌++◌, length, pos, none, some, ◌≡◌, ◌≢◌, refl,
  inl, arith, if◌then◌else◌, leb, ltb, ◌&&◌, map,
}
use binder.Text.{
  Bytes, codes, trim, to_lower, equal, find_if, find_last_if, find_text, starts_with,
  drop_end_spaces, is_space,
}
use binder.Text.Search.{none_of}
use binder.Text.Number.{
  atoi, to_int32, decimal, strtoll, read_sign, read_digits, skip_hex_prefix, scan,
}
use binder.Http.Code.{ok, error_io}
use binder.Http.Url.{
  https, Url, parse_url, split_scheme, parse_rest, split_host, strip_userinfo, split_authority,
  split_literal, split_name, add_slash, cut_fragment, finish_url, resolve_redirect, to_string,
  host_header,
}
use binder.Http.Url.Parsed.{IsParsed, parse_url-IsParsed, is_hash}
use binder.Http.Url.RoundTrip.{IsUrl, parse_url-to_string}
use binder.Http.Url.Redirect.{IsTarget, resolve_redirect_stays}
use binder.Http.Reader.{
  Turn, Recv, got, closed, again, Wire, Reader, read_line, read_line_from, read_line_wire,
  scan_line, strip_cr, fill_round, fill, failed, max_line_length,
}
use binder.Http.Reader.Lines.{pending, is_line_feed, read_line-Reads}
use binder.Http.Reader.Waits.{fill_times_out, silent}
use binder.Http.Headers.{Headers, add, has_key, get-add}
use binder.Http.Headers
use binder.Http.Body.{Pump, pump_plain, pump_wire, deliver}
use binder.Http.Body.Moves.{Moves}
use binder.Http.Body.Plain.{collect, Appended, collect-Tracks, pump_plain-Moves}
use binder.Http.Body.Chunked.{pump_chunked, chunks, trailers, chunk_size, chunk_header}
use binder.Http.Body.Chunked.Total.{pump_chunked_total}
use binder.Http.Body.Chunked.Coding.{IsChunked}
use binder.Http.Body.Chunked.Decode.{pump_chunked-IsChunked}
use binder.Http.Response.{reason_of, parse_status_line, parse_content_range}
use binder.Http.Response.RoundTrip.{
  range_text, status_line, parse_content_range_sized, parse_status_line-status_line,
}
use binder.Http.Exchange.{
  perform_once, Attempt, response_info, request_head, after_headers, content_length, body_range,
  sent, send_all, Connection, connection, wrote, Head, read_headers, ResponseInfo,
}
use binder.Http.Connect.{
  Resolved, handshake, connect_tcp, try_addresses, addresses, refused, other_error, connecting,
  poll_connected, retry, shaken, tls_conn, open_connection,
}
use binder.Http.Connect.Secure.{Connects, Shakes}
use binder.Http.Connect.Https.{Transport, tls_connection, opens, https_over_tls}
use binder.Http.Conn.{
  ssl_wrote, ssl_unwritten, ssl_bytes, ssl_unread, zero_return, want_read, tls_recv, tls_send_all,
}
use binder.Http.Conn.Sends.{as_write, bytes_taken, tls_send_all-sends}
use binder.Http.Exchange.HeaderLines.{Bounded, read_headers_total}
use binder.Http.Exchange.Sinks.{judged}
use binder.Http.Get.{Got, get, get_string, default_request}
use binder.Http.Get.Runs.{get-Gets}
use binder.Http.Get.Runs
use binder.Http.Get.Strings.{get_string_limited}

abbrev sample : Url
sample = record {
  scheme = codes "http";
  host = codes "example.com";
  port = codes "8080";
  target = codes "/a/b?q=1";
}

abbrev sample_text : Bytes
sample_text = codes "  HTTP://user:pw@example.com:8080/a/b?q=1#top "

parse_url-sample : parse_url sample_text ≡ some sample
unfolding parse_url split_scheme parse_rest split_host strip_userinfo split_authority split_literal
    split_name add_slash cut_fragment finish_url trim to_lower equal find_if find_last_if find_text
    starts_with
parse_url-sample = refl

resolve_redirect-relative :
    resolve_redirect sample (codes "c") ≡ codes "http://example.com:8080/a/c"
unfolding resolve_redirect to_string host_header trim to_lower equal find_if find_last_if find_text
    starts_with
resolve_redirect-relative = refl

sample-IsUrl : IsUrl sample
unfolding drop_end_spaces is_space
sample-IsUrl = record {
  scheme_known = inl refl;
  host_ne_nil = λ e. cc;
  host_kind = inl (refl, refl);
  host_ends = refl;
  host_no_user = refl;
  port_ne_nil = λ e. cc;
  port_digits = refl;
  target_slash = (codes "a/b?q=1", refl);
  target_no_fragment = refl;
  target_end = refl;
}

parse_url-to_string_example : parse_url (to_string sample) ≡ some sample
parse_url-to_string_example = parse_url-to_string sample sample-IsUrl

parse_url-IsParsed_example : IsParsed sample
parse_url-IsParsed_example = parse_url-IsParsed sample_text sample parse_url-sample

trim_c : trim (codes "c") ≡ codes "c"
unfolding trim
trim_c = refl

trim_c_ne : trim (codes "c") ≢ []
trim_c_ne = rw trim_c (λ e. cc)

trim_c_hash : none_of is_hash (trim (codes "c")) ≡ true
trim_c_hash = rw trim_c refl

trim_c_scheme : find_text (codes "://") (trim (codes "c")) ≡ none
unfolding trim find_text starts_with
trim_c_scheme = refl

resolve_redirect_stays_example :
    (target : Bytes) × IsTarget sample.target (trim (codes "c")) target
    × (parse_url (resolve_redirect sample (codes "c")) ≡ some (record sample { target = target }))
resolve_redirect_stays_example =
    resolve_redirect_stays sample (codes "c") sample-IsUrl trim_c_ne trim_c_hash trim_c_scheme

-- A connection that brings a text in two pieces.
abbrev turn : Recv → Turn
turn r = record { canceled = false; recv = r; ms = 10 }

abbrev reader_of : Bytes → Bytes → Reader
reader_of first second = record {
  wire = turn (got b'H' first) ∷ turn again ∷ turn (got b' ' second) ∷ turn closed ∷ [];
  unread = [];
  idle_timeout = 30000;
  error = [];
}

abbrev crlf : Bytes
crlf = b'\r' ∷ b'\n' ∷ []

abbrev line_reader : Reader
line_reader = reader_of (codes "TTP/1.1") (codes "200 OK" ++ crlf)

read_line-ok : (read_line line_reader).code ≡ ok
unfolding read_line_from read_line_wire scan_line strip_cr fill_round
read_line-ok = refl

read_line-Reads_example :
    (raw : Bytes) × (pending line_reader ≡ raw ++ (b'\n' ∷ pending (read_line line_reader).reader))
    × ((read_line line_reader).line ≡ strip_cr raw)
    × (none_of is_line_feed raw ≡ true)
    × (length raw ≤ max_line_length)
read_line-Reads_example = read_line-Reads line_reader read_line-ok

abbrev silent_reader : Reader
silent_reader = record {
  wire = map silent (250 ∷ 250 ∷ []) ++ (record { canceled = true; recv = again; ms = 5 } ∷ []);
  unread = [];
  idle_timeout = 400;
  error = [];
}

fill_times_out_example :
    (rest : Wire) × (fill silent_reader ≡ failed error_io (codes "timed out waiting for data") rest)
fill_times_out_example =
    fill_times_out silent_reader (250 ∷ 250 ∷ [])
      (record { canceled = true; recv = again; ms = 5 } ∷ []) refl (omega arith) (omega arith)

abbrev accept_all : Bytes → Bytes → Bool
accept_all kept chunk = true

pump_plain-Moves_example :
    Moves Appended
      (pos 10)
      (codes "kept")
      0
      (pending line_reader)
      (pump_plain (collect accept_all) (pos 10) (codes "kept") 0 line_reader)
pump_plain-Moves_example =
    pump_plain-Moves accept_all (pos 10) (codes "kept") 0 line_reader (omega arith)

abbrev chunked_reader : Reader
chunked_reader = record {
  wire =
      turn (got b'3' (crlf ++ codes "ab"))
      ∷ turn (got b'c' (crlf ++ (codes "0" ++ (crlf ++ crlf))))
      ∷ [];
  unread = [];
  idle_timeout = 30000;
  error = [];
}

abbrev chunked_pump : Pump Bytes
chunked_pump = record {
  code = ok;
  message = [];
  sink = codes "abc";
  written = 3;
  reader = record { wire = []; unread = []; idle_timeout = 30000; error = [] };
}

pump_chunked-abc : pump_chunked (collect accept_all) [] 0 chunked_reader ≡ some chunked_pump
unfolding pump_chunked chunks trailers chunk_size chunk_header strtoll read_sign read_digits
    skip_hex_prefix scan read_line_from read_line_wire scan_line strip_cr fill_round pump_plain
    pump_wire deliver trim find_if
pump_chunked-abc = refl

pump_chunked-IsChunked_example :
    (body : Bytes) × IsChunked (pending chunked_reader) body
    × ((other : Bytes) → IsChunked (pending chunked_reader) other → other ≡ body)
    × (codes "abc" ≡ [] ++ body)
    × (3 ≡ 0 + length body)
pump_chunked-IsChunked_example =
    pump_chunked-IsChunked accept_all [] 0 chunked_reader chunked_pump pump_chunked-abc refl

pump_chunked_total_example : pump_chunked (collect accept_all) [] 0 chunked_reader ≢ none
pump_chunked_total_example = pump_chunked_total (collect accept_all) [] 0 chunked_reader

abbrev header_reader : Reader
header_reader = reader_of (codes "ost:") (codes "a" ++ (crlf ++ crlf))

read_headers_total_example :
    (h : Head) × (read_headers (suc (length (pending header_reader))) [] header_reader ≡ some h)
    × Bounded (some h)
read_headers_total_example = read_headers_total header_reader

abbrev accept_response : ResponseInfo → Bool
accept_response info = true

abbrev answers : Url → Bytes → Connection
answers url head =
    connection (wrote 1000 ∷ [])
      (reader_of (codes "TTP/1.1") (codes "200 OK" ++ (crlf ++ (crlf ++ codes "abc")))).wire

get_string_limited_example :
    (g : Got Bytes) × (get_string (λ hop. answers) sample_text 2 ≡ some g) × (length g.sink ≤ 2)
get_string_limited_example = get_string_limited (λ hop. answers) sample_text 2

parse_content_range_sized_example :
    parse_content_range (codes "bytes " ++ range_text 200 1023 (decimal 1024))
    ≡ some (pos 200, pos 1024)
parse_content_range_sized_example =
    parse_content_range_sized 200 1023 1024 (omega arith) (omega arith)

parse_status_line-status_line_example :
    parse_status_line (status_line 206 (codes "Partial Content"))
    ≡ (if leb 100 206 && ltb 206 600 then some (206, trim (codes "Partial Content")) else none)
parse_status_line-status_line_example =
    parse_status_line-status_line 206 (codes "Partial Content") (omega arith)

get-add_example : Headers.get (add [] (codes "Location") (codes "/b")) (codes "location") ≡ (
    if has_key [] (to_lower (codes "location"))
    then Headers.get [] (codes "location")
    else if equal (to_lower (codes "Location")) (to_lower (codes "location"))
    then codes "/b"
    else [])
get-add_example = get-add [] (codes "Location") (codes "/b") (codes "location")

get-Gets_example :
    Runs.Gets
      (judged accept_response)
      Appended
      (λ hop. answers)
      (default_request sample_text)
      []
      (get
        (judged accept_response)
        (collect accept_all)
        (λ hop. answers)
        (λ hop. false)
        (default_request sample_text)
        [])
get-Gets_example =
    get-Gets (judged accept_response) (collect-Tracks accept_all) (λ hop. answers) (λ hop. false)
      (default_request sample_text) []

-- A request of five bytes in two writes, with a retry between them.
tls_send_all-sends_example :
    let outcomes = ssl_wrote 1 ∷ ssl_unwritten want_read ∷ ssl_wrote 2 ∷ [] in
    (tls_send_all outcomes 5 ≡ send_all (map as_write outcomes) 5)
    × (tls_send_all outcomes 5 ≡ sent → 5 ≤ bytes_taken (map as_write outcomes))
    × (send_all (wrote 2 ∷ wrote 3 ∷ []) 5 ≡ sent → 5 ≤ bytes_taken (wrote 2 ∷ wrote 3 ∷ []))
tls_send_all-sends_example =
    tls_send_all-sends (ssl_wrote 1 ∷ ssl_unwritten want_read ∷ ssl_wrote 2 ∷ [])
      (wrote 2 ∷ wrote 3 ∷ []) 5

abbrev secure_url : Url
secure_url = record sample { scheme = codes "https" }

-- The second address accepts, after a while.
abbrev two_addresses : Resolved
two_addresses = addresses (
    record { has_socket = true; connect = refused (other_error 111); elapsed = 3 }
    ∷ record { has_socket = true; connect = connecting poll_connected; elapsed = 40 }
    ∷ [])

is_https : equal secure_url.scheme https ≡ true
unfolding equal
is_https = refl

-- The socket itself would answer nothing.
abbrev secure_transport : Transport
secure_transport = record {
  writes = [];
  reads = [];
  ssl_writes = ssl_wrote 1000 ∷ [];
  ssl_reads =
      record { canceled = false; answer = ssl_unread want_read; ms = 10 }
      ∷ record {
        canceled = false;
        answer = ssl_bytes b'H' (codes "TTP/1.1 200 OK" ++ (crlf ++ (crlf ++ codes "abc")));
        ms = 10;
      }
      ∷ record { canceled = false; answer = ssl_unread zero_return; ms = 10 }
      ∷ [];
}

abbrev secure_attempt : Attempt Bytes
secure_attempt = record {
  sink = codes "abc";
  result = record {
    error = ok;
    message = [];
    response = response_info secure_url (default_request sample_text) 200 (codes "OK") [];
    bytes = 3;
  };
  redirect_to = [];
}

secure_attempt_lem :
    perform_once
      (judged accept_response)
      (collect accept_all)
      (opens
        (judged accept_response)
        (collect accept_all)
        (λ e. codes "down")
        15000
        two_addresses
        (some none)
        (retry 100 ∷ shaken ∷ [])
        secure_transport)
      secure_url
      (default_request sample_text)
      []
    ≡ some secure_attempt
unfolding perform_once send_all request_head host_header to_string read_line_from read_line_wire
    scan_line strip_cr fill_round parse_status_line read_headers after_headers content_length
    body_range response_info find_if find_text find_last_if equal trim to_lower starts_with
    Headers.get Headers.contains Headers.get_key pump_plain pump_wire deliver strtoll read_sign
    read_digits skip_hex_prefix scan decimal open_connection connect_tcp try_addresses handshake
    atoi to_int32 reason_of tls_recv
secure_attempt_lem = refl

https_over_tls_example :
    (open_connection
        (λ e. codes "down")
        secure_url
        15000
        two_addresses
        (some none)
        (retry 100 ∷ shaken ∷ [])
      ≡ tls_conn)
    × (perform_once
          (judged accept_response)
          (collect accept_all)
          (λ u head. tls_connection secure_transport)
          secure_url
          (default_request sample_text)
          []
        ≡ some secure_attempt)
    × Connects 15000 two_addresses
    × (◌≡◌ {A = Option (Option Bytes)} (some none) (some none))
    × Shakes 15000 (retry 100 ∷ shaken ∷ [])
https_over_tls_example =
    https_over_tls (judged accept_response) (collect accept_all) (λ e. codes "down") 15000
      two_addresses (some none) (retry 100 ∷ shaken ∷ []) secure_transport secure_url
      (default_request sample_text) [] secure_attempt is_https secure_attempt_lem refl
