-- ===== src/Http/Get/Runs.antt =====
-- What `get` does over all its hops, over any sink and any relation that the sink keeps.
use binder.Prelude.{
  ℕ, zero, suc, Bool, true, [], ◌∷◌, Option, none, some, ◌≡◌, ◌≢◌, ◌⊎◌, refl, sym, subst,
  Bool-cases, inl, inr, is_empty,
}
use binder.Text.{Bytes}
use binder.Http.Code.{ok}
use binder.Http.Url.{Url, parse_url}
use binder.Http.Body.{BodyFn}
use binder.Http.Body.Moves.{Tracks}
use binder.Http.Exchange.{Request, Attempt, Connection, HeadersFn}
use binder.Http.Exchange.Served.{Redirects, Transferred, Ran, Runs}
use binder.Http.Exchange.Runs.{is_empty-ne, perform_once-Runs}
use binder.Http.Get.{Got, after_attempt, with_url, hops, get}

-- Nothing has gone to the sink, and there is no success.
abbrev pub NothingGot {ℓ} : {S : Type ℓ} → S → Got S → Type ℓ
NothingGot sink got = (got.sink ≡ sink) × (got.result.bytes ≡ 0) × (got.result.error ≢ ok)

abbrev pub last_attempt {ℓ} : {S : Type ℓ} → Got S → Attempt S
last_attempt got = record { sink = got.sink; result = got.result; redirect_to = [] }

-- The URL of a hop: the first is the request's, and each that follows is the target of a redirect that
-- the server of the one before has sent.
pub data Follows (connect : ℕ → Url → Bytes → Connection) (request : Request)
    : ℕ → Bytes → Type 0 where
  first : Follows connect request 0 request.url
  redirected :
      {hop : ℕ} {current target : Bytes} (url : Url)
      → Follows connect request hop current
      → parse_url current ≡ some url
      → Redirects (connect hop) url (record request { url = current }) target
      → Follows connect request (suc hop) target

-- The hop that was not redirected has shown the caller its response, and moved bytes to the sink that
-- `get` was given.
pub record LastHop {ℓ} {S : Type ℓ} (on_headers : HeadersFn S) (R : Bool → S → Bytes → S → Type 0)
    (connect : ℕ → Url → Bytes → Connection) (request : Request) (sink : S) (got : Got S)
    : Type ℓ where
  pub hop : ℕ
  pub current : Bytes
  pub url : Url
  pub follows : Follows connect request hop current
  pub parsed : parse_url current ≡ some url
  pub transferred :
      Transferred on_headers R
        (connect hop)
        url
        (record request { url = current })
        sink
        (last_attempt got)

abbrev pub Gets {ℓ} :
    {S : Type ℓ}
    → HeadersFn S
    → (Bool → S → Bytes → S → Type 0)
    → (ℕ → Url → Bytes → Connection)
    → Request
    → S
    → Option (Got S)
    → Type ℓ
Gets {S} on_headers R connect request sink o =
    (got : Got S) × (o ≡ some got)
    × (NothingGot sink got ⊎ LastHop on_headers R connect request sink got)

is_empty-eq : (s : Bytes) → is_empty s ≡ true → s ≡ []
is_empty-eq [] h = refl
is_empty-eq (c ∷ s) h = cc

module _ {ℓ} {S : Type ℓ} (on_headers : HeadersFn S) {on_body : BodyFn S}
    {R : Bool → S → Bytes → S → Type 0} (tracks : Tracks on_body R)
    (connect : ℕ → Url → Bytes → Connection) (canceled : ℕ → Bool) (request : Request) where
  module _ (hop : ℕ) (current : Bytes) (url : Url) (follows : Follows connect request hop current)
      (parsed : parse_url current ≡ some url) (sink : S) where
    kept_attempt :
        (a : Attempt S)
        → a.redirect_to ≡ []
        → Ran on_headers R (connect hop) url (record request { url = current }) sink a
        → Gets on_headers R connect request sink
            (some (record { sink = a.sink; result = a.result }))
    kept_attempt a e (kept, inl (same, zeroed, success)) =
        (_, refl, inl (same, zeroed, λ good. success good e))
    kept_attempt a e (kept, inr t) = (
      _,
      refl,
      inr (record {
        hop = hop;
        current = current;
        url = url;
        follows = follows;
        parsed = parsed;
        transferred = record {
          status = t.status;
          reason = t.reason;
          headers = t.headers;
          reader = t.reader;
          served = t.served;
          moved = t.moved;
          response_is = t.response_is;
          is_final = t.is_final;
          sunk = t.sunk;
          counted = t.counted;
          carried = t.carried;
          success = t.success;
        };
      }),
    )

    after_attempt-Gets :
        (next : Bytes → S → Option (Got S)) (o : Option (Attempt S))
        → Runs on_headers R (connect hop) url (record request { url = current }) sink o
        → ((current' : Bytes)
            → Follows connect request (suc hop) current'
            → Gets on_headers R connect request sink (next current' sink))
        → Gets on_headers R connect request sink
            (after_attempt on_headers on_body connect canceled next o)
    after_attempt-Gets next o (a, e, ran) ih = rw e (elim (Bool-cases (is_empty a.redirect_to)) [
      | inl f ↦ rw f (kept_attempt a (is_empty-eq a.redirect_to f) ran)
      | inr f ↦ rw f (
          let (same, redirects) = ran.0 (is_empty-ne a.redirect_to f) in
          subst (λ s. Gets on_headers R connect request sink (next a.redirect_to s)) (sym same)
            (ih a.redirect_to (redirected url follows parsed redirects)))
    ])

  with_url-Gets :
      (next : Bytes → S → Option (Got S)) (hop : ℕ) (current : Bytes) (sink : S) (o : Option Url)
      → parse_url current ≡ o
      → Follows connect request hop current
      → ((current' : Bytes)
          → Follows connect request (suc hop) current'
          → Gets on_headers R connect request sink (next current' sink))
      → Gets on_headers R connect request sink
          (with_url on_headers on_body connect canceled next hop request current sink o)
  with_url-Gets next hop current sink none parsed follows ih = (_, refl, inl (refl, refl, λ h. cc))
  with_url-Gets next hop current sink (some url) parsed follows ih =
      elim (Bool-cases (canceled hop)) [
        | inl e ↦ rw e (_, refl, inl (refl, refl, λ h. cc))
        | inr e ↦ rw e (
            after_attempt-Gets hop current url follows parsed sink next _
              (perform_once-Runs on_headers tracks url (record request { url = current }) sink
                (connect hop))
              ih)
      ]

  hops-Gets :
      (left hop : ℕ) (current : Bytes) (sink : S)
      → Follows connect request hop current
      → Gets on_headers R connect request sink
          (hops on_headers on_body connect canceled left hop request current sink)
  unfolding hops
  hops-Gets zero hop current sink follows = (_, refl, inl (refl, refl, λ h. cc))
  hops-Gets (suc left) hop current sink follows =
      with_url-Gets
        (λ next sink'. hops on_headers on_body connect canceled left (suc hop) request next sink')
        hop current sink (parse_url current) refl follows
        (λ current' follows'. hops-Gets left (suc hop) current' sink follows')

  -- Over any sink and any relation that its body callback keeps, `get` always ends. It fails with
  -- the sink untouched; or the hop that was not redirected, whose URL is the request's or has been
  -- reached over the redirects that the servers before it have sent, has sent a response, which the
  -- caller has been shown, and a first part of the body behind its headers has been moved to the sink
  -- as the caller has left it then, and counted, with nothing moved by the hops before. A success is
  -- always of the second kind: the caller has accepted the response, it is neither a redirect nor an
  -- error, and where its headers say that the body is chunked or how long it is, all of the body has
  -- been moved, so that such a body that was cut short is never a success.
  pub get-Gets :
      (sink : S)
      → Gets on_headers R connect request sink
          (get on_headers on_body connect canceled request sink)
  unfolding get
  get-Gets sink = hops-Gets (suc request.max_redirects) 0 request.url sink first
