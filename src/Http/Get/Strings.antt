-- ===== src/Http/Get/Strings.antt =====
-- The limit of `getString`.
use binder.Prelude.{
  ℕ, ◌+◌, ◌≤◌, false, length, Option, none, some, ◌≡◌, refl, arith, Bool-cases, inl, inr, ltb,
  length-append,
}
use binder.Text.{Bytes}
use binder.Http.Url.{Url}
use binder.Http.Exchange.{Connection}
use binder.Http.Get.{
  Got, Limited, append_limited, no_headers_fn, empty_body, default_request, after_get, get_string,
}
use binder.Http.Get.Invariant.{Kept, Gets, get_keeps}

append_limited-fits :
    (max_bytes : ℕ) (s : Limited) (chunk : Bytes)
    → length s.body ≤ max_bytes
    → length (append_limited max_bytes s chunk).0.body ≤ max_bytes
unfolding append_limited
append_limited-fits max_bytes s chunk h =
    elim (Bool-cases (ltb max_bytes (length s.body + length chunk))) [
      | inl e ↦ rw e h
      | inr e ↦ rw e (ground (arith, length-append s.body chunk))
    ]

append_limited-Kept :
    (max_bytes : ℕ) → Kept no_headers_fn (append_limited max_bytes) (λ s. length s.body ≤ max_bytes)
append_limited-Kept max_bytes = record {
  headers = λ s info p. p;
  body = λ s chunk p. append_limited-fits max_bytes s chunk p;
}

after_get-limit :
    (max_bytes : ℕ) (o : Option (Got Limited))
    → Gets (append_limited-Kept max_bytes) o
    → (got : Got Bytes) × (after_get max_bytes o ≡ some got) × (length got.sink ≤ max_bytes)
after_get-limit max_bytes none h = absurd h
after_get-limit max_bytes (some got) h = elim (Bool-cases got.sink.overflowed) [
  | inl e ↦ rw e (_, refl, omega arith)
  | inr e ↦ rw e (_, refl, h)
]

-- `getString` always ends, whatever servers answer and however they frame their bodies, and the body
-- that it gives is never longer than the limit.
pub get_string_limited :
    (connect : ℕ → Url → Bytes → Connection) (url : Bytes) (max_bytes : ℕ)
    → (got : Got Bytes) × (get_string connect url max_bytes ≡ some got)
      × (length got.sink ≤ max_bytes)
unfolding get_string
get_string_limited connect url max_bytes = after_get-limit max_bytes _ (
    get_keeps (append_limited-Kept max_bytes) connect (λ hop. false) (default_request url)
      empty_body (omega arith))
