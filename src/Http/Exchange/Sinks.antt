-- ===== src/Http/Exchange/Sinks.antt =====
-- One exchange with a caller that gathers the body.
use binder.Prelude.{
  [], true, Bool, Option, none, some, ◌≡◌, ◌≢◌, ◌⊎◌, inl, inr, sym, ◌∙◌, append-nil, subst, arith,
}
use binder.Text.{Bytes}
use binder.Http.Url.{Url}
use binder.Http.Body.Plain.{collect, Appended, collect-Tracks}
use binder.Http.Body.Chunked.Decode.{Grows}
use binder.Http.Exchange.{Request, ResponseInfo, Attempt, Connection, HeadersFn, perform_once}
use binder.Http.Exchange.Served.{Transferred, Untouched, Runs}
use binder.Http.Exchange.Runs.{perform_once-Runs}

-- `onHeaders` of a caller that judges the response by its description and leaves the sink alone.
abbrev pub judged : (ResponseInfo → Bool) → HeadersFn Bytes
judged judge sink info = (sink, judge info)

-- The sink has grown by exactly the bytes of the result, and by none where there is a redirect to
-- follow.
abbrev pub Accounts : Bytes → Attempt Bytes → Type 0
Accounts sink a =
    Grows Appended true sink 0 a.sink a.result.bytes × (a.redirect_to ≢ [] → a.sink ≡ sink)

-- There is an attempt, and it accounts for the sink.
abbrev pub Accounted : Bytes → Option (Attempt Bytes) → Type 0
Accounted sink none = ⊥
Accounted sink (some a) = Accounts sink a

module _ (policy : Bytes → Bytes → Bool) (judge : ResponseInfo → Bool)
    (connect : Url → Bytes → Connection) where
  ran-Grows :
      (url : Url) (request : Request) (sink : Bytes) (a : Attempt Bytes)
      → Untouched sink a ⊎ Transferred (judged judge) Appended connect url request sink a
      → Grows Appended true sink 0 a.sink a.result.bytes
  ran-Grows url request sink a (inl (same, zeroed, success)) =
      ([], same ∙ sym (append-nil sink), zeroed)
  ran-Grows url request sink a (inr t) = let n = t.counted in (t.moved, t.sunk, omega (arith, n))

  Runs-Accounted :
      (url : Url) (request : Request) (sink : Bytes) (o : Option (Attempt Bytes))
      → Runs (judged judge) Appended connect url request sink o
      → Accounted sink o
  Runs-Accounted url request sink o (a, e, (kept, ran)) =
      subst (Accounted sink) (sym e) (ran-Grows url request sink a ran, λ k. (kept k).0)

  -- An exchange always ends, whatever the connection does. Where the caller's sink keeps what it
  -- accepts, it has then grown by as many bytes as the result counts, on success and on every failure,
  -- and it has not changed where the response is a redirect to follow.
  perform_once-Accounted :
      (url : Url) (request : Request) (sink : Bytes)
      → Accounted sink (perform_once (judged judge) (collect policy) connect url request sink)
  perform_once-Accounted url request sink =
      Runs-Accounted url request sink _
        (perform_once-Runs (judged judge) (collect-Tracks policy) url request sink connect)
