-- ===== src/Service/Fetch.antt =====
-- `HttpService::fetchToFd` of service/http/HttpService.cpp, with `writeFully`.
--
-- The file behind the descriptor is the parameter `D`, with what lseek, ftruncate and write do to it;
-- the clock is read by the number of the reading, and the calls of other threads on the request table
-- while the transfer runs are the list `others`.
pub mod Writes
pub mod Counts
pub mod File
use binder.Prelude.{
  ℕ, zero, suc, ◌+◌, ◌-◌, ◌%◌, ◌^◌, Bool, true, false, not, ◌&&◌, ◌||◌, List, [], ◌∷◌, ◌++◌, ◌==◌,
  ltb, leb, if◌then◌else◌, length, take, drop, is_empty, ℤ, pos, negsuc, minus_one, Option, none,
  some,
}
use binder.Text.{Bytes, codes}
use binder.Http.Code.{Code, error_write, code_value}
use binder.Http.Body.Chunked.{is_ok}
use binder.Http.Url.{Url}
use binder.Http.Exchange.{
  Write, wrote, interrupted, would_block, write_failed, Request, ResponseInfo, Result, Connection,
}
use binder.Http.Get.{Got, get, get_string}
use binder.Service.Requests.{Table, Event, begin_request, end_request, run}

-- What `writeFully` has done: the outcomes that are left, the bytes that were written, and the error's
-- text where it failed.
pub record Written : Type 0 where
  pub outcomes : List Write
  pub landed : Bytes
  pub failure : Option Bytes

abbrev pub first_landed : Bytes → Written → Written
first_landed first rest = record rest { landed = first ++ rest.landed }

abbrev pub not_written : List Write → Bytes → Written
not_written outcomes why = record { outcomes = outcomes; landed = []; failure = some why }

unfoldable pub write_fully : List Write → Bytes → Written
write_fully outcomes [] = record { outcomes = outcomes; landed = []; failure = none }
write_fully [] (c ∷ s) = not_written [] []
write_fully (wrote zero ∷ outcomes) (c ∷ s) = not_written outcomes []
write_fully (wrote (suc n) ∷ outcomes) (c ∷ s) =
    first_landed (take (suc n) (c ∷ s)) (write_fully outcomes (drop n s))
write_fully (interrupted ∷ outcomes) (c ∷ s) = write_fully outcomes (c ∷ s)
write_fully (would_block ∷ outcomes) (c ∷ s) = not_written outcomes []
write_fully (write_failed why ∷ outcomes) (c ∷ s) = not_written outcomes why

-- The calls of IHttpProgressCallback.
pub data Progress : Type 0 where
  response_start : ℕ → ℤ → ℤ → Bytes → Progress
  bytes_received : ℕ → ℤ → Progress

-- The locals of `fetchToFd`, and the file.
pub record Transfer {ℓ} (D : Type ℓ) : Type ℓ where
  pub file : D
  pub outcomes : List Write
  pub write_error : Bytes
  pub total : ℤ
  pub written : ℕ
  pub reported_at : ℕ
  pub last_report : ℕ
  pub readings : ℕ
  pub calls : List Progress

abbrev pub progress_interval_ms : ℕ
progress_interval_ms = 150

abbrev pub progress_bytes : ℕ
progress_bytes = 262144

-- A reply of the service.
pub data Status : Type 0 where
  done : ℕ → Status
  failure : ℤ → Bytes → Status

abbrev pub is_zero : ℤ → Bool
is_zero (pos zero) = true
is_zero (pos (suc n)) = false
is_zero (negsuc n) = false

module _ {ℓ} {D : Type ℓ} (lseek : D → ℤ → D × Option Bytes) (ftruncate : D → D × Option Bytes)
    (append : D → Bytes → D) (clock : ℕ → ℕ) (has_callback : Bool) where
  abbrev pub started : ResponseInfo → Transfer D → Transfer D × Bool
  started info t = (
    (if has_callback
        then record t {
          calls =
              t.calls
              ++ (response_start info.status_code info.start_offset t.total info.content_type ∷ []);
        }
        else t),
    true,
  )

  abbrev pub after_truncate : ResponseInfo → Transfer D → D × Option Bytes → Transfer D × Bool
  after_truncate info t (file, none) = started info (record t { file = file })
  after_truncate info t (file, some why) =
      (record t { file = file; write_error = codes "ftruncate: " ++ why }, false)

  -- A resume that was refused: what is in the file is stale.
  abbrev pub after_seek : ℕ → ResponseInfo → Transfer D → D × Option Bytes → Transfer D × Bool
  after_seek resume_from info t (file, some why) =
      (record t { file = file; write_error = codes "lseek: " ++ why }, false)
  after_seek resume_from info t (file, none) =
      if is_zero info.start_offset && not (resume_from == 0)
      then after_truncate info (record t { file = file }) (ftruncate file)
      else started info (record t { file = file })

  unfoldable pub on_headers : ℕ → Transfer D → ResponseInfo → Transfer D × Bool
  on_headers resume_from t info =
      after_seek resume_from info (record t { total = info.total_bytes })
        (lseek t.file info.start_offset)

  abbrev pub reported : Transfer D → Transfer D
  reported t =
      if has_callback
        && (leb progress_bytes (t.written - t.reported_at)
            || leb progress_interval_ms (clock t.readings - t.last_report))
      then record t {
        calls = t.calls ++ (bytes_received t.written t.total ∷ []);
        reported_at = t.written;
        last_report = clock (suc t.readings);
        readings = t.readings + 2;
      }
      else record t { readings = t.readings + 2 }

  abbrev pub after_write : Bytes → Transfer D → Written → Transfer D × Bool
  after_write chunk t w = elim w.failure [
    | some why ↦ (
      record t {
        file = append t.file w.landed;
        outcomes = w.outcomes;
        write_error = codes "write: " ++ why;
      },
      false,
    )
    | none ↦ (
      reported (record t {
        file = append t.file w.landed;
        outcomes = w.outcomes;
        written = t.written + length chunk;
      }),
      true,
    )
  ]

  unfoldable pub on_body : Transfer D → Bytes → Transfer D × Bool
  on_body t chunk = after_write chunk t (write_fully t.outcomes chunk)

-- The service: its request table, and `mActiveCount`, a 32-bit word.
pub record Service : Type 0 where
  pub table : Table
  pub active : ℕ

-- What a call of `fetchToFd` leaves.
pub record Outcome {ℓ} (D : Type ℓ) : Type ℓ where
  pub service : Service
  pub transfer : Transfer D
  pub status : Status

abbrev pub plus_one : ℕ → ℕ
plus_one n = (n + 1) % 2 ^ 32

abbrev pub less_one : ℕ → ℕ
less_one n = (n + (2 ^ 32 - 1)) % 2 ^ 32

-- `if (resumeFrom < 0) resumeFrom = 0;`
abbrev pub at_least_zero : ℤ → ℕ
at_least_zero (pos n) = n
at_least_zero (negsuc n) = 0

abbrev pub new_transfer {ℓ} : {D : Type ℓ} → D → List Write → ℕ → Transfer D
new_transfer file outcomes now = record {
  file = file;
  outcomes = outcomes;
  write_error = [];
  total = minus_one;
  written = 0;
  reported_at = 0;
  last_report = now;
  readings = 0;
  calls = [];
}

abbrev pub fetch_request : Bytes → ℕ → Request
fetch_request url resume_from = record {
  url = url;
  resume_from = resume_from;
  max_redirects = 5;
  idle_timeout = 30000;
}

-- A sink failure surfaces with its own text.
abbrev pub fetch_status {ℓ} : {D : Type ℓ} → Result → Transfer D → Status
fetch_status result t =
    if is_ok result.error
    then done t.written
    else if is_empty t.write_error
    then failure (code_value result.error) result.message
    else failure (code_value error_write) t.write_error

-- The last report of a transfer that has succeeded.
abbrev pub last_call {ℓ} : {D : Type ℓ} → Bool → Result → Transfer D → Transfer D
last_call has_callback result t =
    if has_callback && is_ok result.error
    then record t { calls = t.calls ++ (bytes_received t.written t.total ∷ []) }
    else t

module _ {ℓ} {D : Type ℓ} (lseek : D → ℤ → D × Option Bytes) (ftruncate : D → D × Option Bytes)
    (append : D → Bytes → D) (clock : ℕ → ℕ) (has_callback : Bool)
    (connect : ℕ → Url → Bytes → Connection) (canceled : ℕ → Bool) where
  abbrev pub after_transfer : ℕ → Service → Option (Got (Transfer D)) → Option (Outcome D)
  after_transfer id s none = none
  after_transfer id s (some got) = some (record {
    service = record { table = end_request id s.table; active = less_one s.active };
    transfer = last_call has_callback got.result got.sink;
    status = fetch_status got.result got.sink;
  })

  unfoldable pub fetch_to_fd :
      ℕ → ℕ → Bytes → ℤ → D → List Write → List Event → Service → Option (Outcome D)
  fetch_to_fd now id url resume_from file outcomes others s =
      after_transfer id
        (record { table = run others (begin_request now id s.table).1; active = plus_one s.active })
        (get (on_headers lseek ftruncate append clock has_callback (at_least_zero resume_from))
          (on_body lseek ftruncate append clock has_callback) connect canceled
          (fetch_request url (at_least_zero resume_from)) (new_transfer file outcomes now))

  abbrev pub reply_of : Option (Outcome D) → Option (Service × Status)
  reply_of none = none
  reply_of (some o) = some (o.service, o.status)

  -- The whole handler: a descriptor that is not valid is refused before anything is counted.
  unfoldable pub fetch_call :
      ℕ → ℕ → Bytes → ℤ → Option D → List Write → List Event → Service → Option (Service × Status)
  fetch_call now id url resume_from none outcomes others s =
      some (s, failure (code_value error_write) (codes "no file descriptor to write to"))
  fetch_call now id url resume_from (some file) outcomes others s =
      reply_of (fetch_to_fd now id url resume_from file outcomes others s)

abbrev pub max_string_response : ℕ
max_string_response = 1048576

-- A reply with a body, or an error.
pub data StringReply : Type 0 where
  body_reply : Bytes → StringReply
  string_failure : ℤ → Bytes → StringReply

abbrev pub string_reply : Got Bytes → StringReply
string_reply got =
    if is_ok got.result.error
    then body_reply got.sink
    else string_failure (code_value got.result.error) got.result.message

abbrev pub after_string : Service → Option (Got Bytes) → Option (Service × StringReply)
after_string s none = none
after_string s (some got) = some (record s { active = less_one s.active }, string_reply got)

-- The getString handler.
unfoldable pub get_string_call :
    (ℕ → Url → Bytes → Connection) → Bytes → Service → Option (Service × StringReply)
get_string_call connect url s =
    after_string (record s { active = plus_one s.active })
      (get_string connect url max_string_response)
