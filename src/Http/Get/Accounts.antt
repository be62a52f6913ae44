-- ===== src/Http/Get/Accounts.antt =====
-- What `get` leaves in the sink of a caller that gathers the body.
use binder.Prelude.{
  ℕ, [], true, Bool, Option, none, some, ◌⊎◌, inl, inr, sym, ◌∙◌, append-nil, subst, arith,
}
use binder.Text.{Bytes}
use binder.Http.Url.{Url}
use binder.Http.Body.Plain.{collect, Appended, collect-Tracks}
use binder.Http.Body.Chunked.Decode.{Grows}
use binder.Http.Exchange.{Request, ResponseInfo, Connection}
use binder.Http.Exchange.Sinks.{judged}
use binder.Http.Get.{Got, get}
use binder.Http.Get.Runs.{NothingGot, LastHop, Gets, get-Gets}

-- There is a result, and the sink has grown by exactly its bytes.
abbrev pub Counted : Bytes → Option (Got Bytes) → Type 0
Counted sink none = ⊥
Counted sink (some got) = Grows Appended true sink 0 got.sink got.result.bytes

module _ (policy : Bytes → Bytes → Bool) (judge : ResponseInfo → Bool)
    (connect : ℕ → Url → Bytes → Connection) (canceled : ℕ → Bool) where
  got-Counted :
      (request : Request) (sink : Bytes) (got : Got Bytes)
      → NothingGot sink got ⊎ LastHop (judged judge) Appended connect request sink got
      → Counted sink (some got)
  got-Counted request sink got (inl (same, zeroed, failed)) =
      ([], same ∙ sym (append-nil sink), zeroed)
  got-Counted request sink got (inr last) =
      let n = last.transferred.counted in
      (last.transferred.moved, last.transferred.sunk, omega (arith, n))

  Gets-Counted :
      (request : Request) (sink : Bytes) (o : Option (Got Bytes))
      → Gets (judged judge) Appended connect request sink o
      → Counted sink o
  Gets-Counted request sink o (got, e, h) =
      subst (Counted sink) (sym e) (got-Counted request sink got h)

  -- `get` always ends, whatever servers it is sent to and whenever it is canceled, and what it has
  -- added to the caller's sink over all its hops is as many bytes as its result counts.
  get-Counted :
      (request : Request) (sink : Bytes)
      → Counted sink (get (judged judge) (collect policy) connect canceled request sink)
  get-Counted request sink =
      Gets-Counted request sink _
        (get-Gets (judged judge) (collect-Tracks policy) connect canceled request sink)
