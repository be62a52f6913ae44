-- ===== src/Http/Get/Invariant.antt =====
-- What the caller's callbacks keep, `get` keeps: an invariant of any sink, through the bodies, the
-- exchanges and the hops.
use binder.Prelude.{ℕ, Bool, Option, none, some, ◌⊎◌, inl, inr, sym, subst}
use binder.Text.{Bytes}
use binder.Http.Url.{Url}
use binder.Http.Body.{BodyFn}
use binder.Http.Body.Moves.{Tracks}
use binder.Http.Exchange.{Request, ResponseInfo, Connection, HeadersFn}
use binder.Http.Get.{Got, get}
use binder.Http.Get.Runs.{NothingGot, LastHop, get-Gets}
use binder.Http.Get.Runs

-- The callbacks keep a property of the sink, on acceptance and on refusal.
pub record Kept {ℓ} {S : Type ℓ} (on_headers : HeadersFn S) (on_body : BodyFn S) (P : S → Type 0)
    : Type ℓ where
  pub headers : (s : S) (info : ResponseInfo) → P s → P (on_headers s info).0
  pub body : (s : S) (chunk : Bytes) → P s → P (on_body s chunk).0

module _ {ℓ} {S : Type ℓ} {on_headers : HeadersFn S} {on_body : BodyFn S} {P : S → Type 0}
    (kept : Kept on_headers on_body P) where
  abbrev Still : Bool → S → Bytes → S → Type 0
  Still b s moved t = P s → P t

  Still-Tracks : Tracks on_body Still
  Still-Tracks = record {
    nothing = λ b s p. p;
    join = λ b s t u x y f g p. g (f p);
    kept = λ b s t c e p. subst (λ (x : S × Bool). P x.0) e (kept.body s c p);
    refusal = λ s t c e p. subst (λ (x : S × Bool). P x.0) e (kept.body s c p);
  }

  -- There is a result, and the sink has the property.
  abbrev pub Gets : Option (Got S) → Type 0
  Gets none = ⊥
  Gets (some got) = P got.sink

  got-P :
      (connect : ℕ → Url → Bytes → Connection) (request : Request) (sink : S) (got : Got S)
      → NothingGot sink got ⊎ LastHop on_headers Still connect request sink got
      → P sink
      → P got.sink
  got-P connect request sink got (inl (same, zeroed, failed)) p = subst P (sym same) p
  got-P connect request sink got (inr last) p = last.transferred.sunk (kept.headers sink _ p)

  Gets-P :
      (connect : ℕ → Url → Bytes → Connection) (request : Request) (sink : S) (o : Option (Got S))
      → Runs.Gets on_headers Still connect request sink o
      → P sink
      → Gets o
  Gets-P connect request sink o (got, e, h) p =
      subst Gets (sym e) (got-P connect request sink got h p)

  -- `get` always ends, and what the caller's callbacks keep of the sink holds at the end, through
  -- every redirect and on every failure.
  pub get_keeps :
      (connect : ℕ → Url → Bytes → Connection) (canceled : ℕ → Bool) (request : Request) (sink : S)
      → P sink
      → Gets (get on_headers on_body connect canceled request sink)
  get_keeps connect canceled request sink =
      Gets-P connect request sink _ (get-Gets on_headers Still-Tracks connect canceled request sink)
