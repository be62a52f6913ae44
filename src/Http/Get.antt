-- ===== src/Http/Get.antt =====
-- Following redirects: `get` and `getString` of service/http/HttpClient.cpp.
--
-- The exchanges of the hops are numbered, so `connect` and the cancel poll before each may answer
-- differently at each.
pub mod Runs
pub mod Accounts
pub mod Invariant
pub mod Strings
use binder.Prelude.{
  ℕ, zero, suc, ◌+◌, Bool, true, false, [], ◌++◌, ltb, if◌then◌else◌, length, is_empty, Option,
  none, some,
}
use binder.Text.{Bytes, codes}
use binder.Text.Number.{decimal}
use binder.Http.Code.{Code, ok, error_bad_url, error_canceled, error_too_large}
use binder.Http.Body.{BodyFn}
use binder.Http.Url.{Url, parse_url}
use binder.Http.Exchange.{
  Request, ResponseInfo, Result, Attempt, Connection, HeadersFn, no_response, perform_once,
}

-- The sink at the end, and the result.
pub record Got {ℓ} (S : Type ℓ) : Type ℓ where
  pub sink : S
  pub result : Result

abbrev pub failed_result : Code → Bytes → Result
failed_result code message = record {
  error = code;
  message = message;
  response = no_response;
  bytes = 0;
}

abbrev pub unparsable : Bytes → Result
unparsable url = failed_result error_bad_url (codes "cannot parse URL \"" ++ (url ++ codes "\""))

abbrev pub too_many : Request → Result
too_many request =
    failed_result error_too_large
      (codes "more than " ++ (decimal request.max_redirects ++ codes " redirects"))

module _ {ℓ} {S : Type ℓ} (on_headers : HeadersFn S) (on_body : BodyFn S)
    (connect : ℕ → Url → Bytes → Connection) (canceled : ℕ → Bool) where
  -- A redirect is followed; anything else is the result.
  abbrev pub after_attempt : (Bytes → S → Option (Got S)) → Option (Attempt S) → Option (Got S)
  after_attempt next none = none
  after_attempt next (some attempt) =
      let rest = next attempt.redirect_to attempt.sink in
      if is_empty attempt.redirect_to
      then some (record { sink = attempt.sink; result = attempt.result })
      else rest

  abbrev pub with_url :
      (Bytes → S → Option (Got S)) → ℕ → Request → Bytes → S → Option Url → Option (Got S)
  with_url next hop request current sink none =
      some (record { sink = sink; result = unparsable current })
  with_url next hop request current sink (some url) =
      let rest = after_attempt next (
        perform_once on_headers on_body (connect hop) url (record request { url = current })
          sink) in
      if canceled hop
      then some (record { sink = sink; result = failed_result error_canceled (codes "canceled") })
      else rest

  -- `for (int hop = 0; hop <= request.maxRedirects; ++hop)`, on the hops that are left.
  unfoldable pub hops : ℕ → ℕ → Request → Bytes → S → Option (Got S)
  hops zero hop request current sink = some (record { sink = sink; result = too_many request })
  hops (suc left) hop request current sink =
      with_url (λ next sink'. hops left (suc hop) request next sink') hop request current sink
        (parse_url current)

  unfoldable pub get : Request → S → Option (Got S)
  get request sink = hops (suc request.max_redirects) 0 request request.url sink

-- The sink of `getString`: the body so far, and whether it has overflowed.
pub record Limited : Type 0 where
  pub body : Bytes
  pub overflowed : Bool

unfoldable pub append_limited : ℕ → BodyFn Limited
append_limited max_bytes s chunk =
    if ltb max_bytes (length s.body + length chunk)
    then (record { body = s.body; overflowed = true }, false)
    else (record { body = s.body ++ chunk; overflowed = s.overflowed }, true)

-- No `onHeaders` is given.
abbrev pub no_headers_fn : HeadersFn Limited
no_headers_fn s info = (s, true)

abbrev pub empty_body : Limited
empty_body = record { body = []; overflowed = false }

-- The defaults of `struct Request`.
abbrev pub default_request : Bytes → Request
default_request url = record { url = url; resume_from = 0; max_redirects = 5; idle_timeout = 30000 }

abbrev pub too_large_body : ℕ → Result → Result
too_large_body max_bytes r = record r {
  error = error_too_large;
  message = codes "response exceeds " ++ (decimal max_bytes ++ codes " bytes");
}

abbrev pub after_get : ℕ → Option (Got Limited) → Option (Got Bytes)
after_get max_bytes none = none
after_get max_bytes (some got) =
    if got.sink.overflowed
    then some (record { sink = []; result = too_large_body max_bytes got.result })
    else some (record { sink = got.sink.body; result = got.result })

unfoldable pub get_string : (ℕ → Url → Bytes → Connection) → Bytes → ℕ → Option (Got Bytes)
get_string connect url max_bytes = after_get max_bytes (
    get no_headers_fn (append_limited max_bytes) connect (λ hop. false) (default_request url)
      empty_body)
