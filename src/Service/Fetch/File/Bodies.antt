-- ===== src/Service/Fetch/File/Bodies.antt =====
-- What the answers to the chunks of a body mean for the file.
use binder.Prelude.{
  List, ◌-◌, ◌||◌, leb, ℕ, ◌+◌, Bool, true, false, ◌&&◌, [], ◌++◌, length, ℤ, Option, none, some,
  ◌≡◌, refl, sym, ap, ◌∙◌, subst, arith, append-nil, length-append, Bool-cases, inl, inr,
}
use binder.Text.{Bytes}
use binder.Http.Body.Moves.{Tracks}
use binder.Http.Exchange.{Write}
use binder.Service.Fetch.{
  Transfer, write_fully, reported, after_write, on_body, progress_bytes, progress_interval_ms,
}
use binder.Service.Fetch.Writes.{write_fully-Writes}
use binder.Service.Fetch.File.{overwritten, overwritten_twice, IsFile, Extends}

module _ {ℓ} {D : Type ℓ} {lseek : D → ℤ → D × Option Bytes} {ftruncate : D → D × Option Bytes}
    {append : D → Bytes → D} {content : D → Bytes} {position : D → ℕ}
    (is_file : IsFile lseek ftruncate append content position) (clock : ℕ → ℕ)
    (has_callback : Bool) where
  Extends-none : (b : Bool) (t : Transfer D) → Extends content position b t [] t
  Extends-none b t = record {
    landed = [];
    content_is = refl;
    position_is = omega arith;
    written_is = omega arith;
    exact = λ h. (h, refl);
    no_error = λ h. refl;
  }

  Extends-join :
      (b : Bool) (t u v : Transfer D) (x y : Bytes)
      → Extends content position true t x u
      → Extends content position b u y v
      → Extends content position b t (x ++ y) v
  Extends-join b t u v x y e f = record {
    landed = e.landed ++ f.landed;
    content_is =
        f.content_is
        ∙ ap (overwritten (position u.file) f.landed) e.content_is
        ∙ overwritten_twice (position t.file) (position u.file) e.landed f.landed (content t.file)
            e.position_is;
    position_is =
        let p = e.position_is in
        let q = f.position_is in omega (arith, p, q, length-append e.landed f.landed);
    written_is =
        let p = e.written_is in let q = f.written_is in omega (arith, p, q, length-append x y);
    exact = λ h.
        let (h', same) = f.exact h in
        let (h'', same') = e.exact h' in
        (h'', ap (λ (z : Bytes). z ++ f.landed) same' ∙ ap (λ (z : Bytes). x ++ z) same);
    no_error = λ h. f.no_error h ∙ e.no_error refl;
  }

  reported_same :
      (t : Transfer D)
      → let u = reported lseek ftruncate append clock has_callback t in
        (u.file ≡ t.file) × (u.written ≡ t.written) × (u.write_error ≡ t.write_error)
  reported_same t =
      elim (Bool-cases (
        has_callback
        && (leb progress_bytes (t.written - t.reported_at)
            || leb progress_interval_ms (clock t.readings - t.last_report)))) [
              | inl e ↦ rw e (refl, refl, refl)
              | inr e ↦ rw e (refl, refl, refl)
            ]

  -- What an answer to a chunk means for the transfer.
  abbrev Answers : Transfer D → Bytes → Transfer D × Bool → Type 0
  Answers t chunk (u, true) = (b : Bool) → Extends content position b t chunk u
  Answers t chunk (u, false) = Extends content position false t [] u

  after_write-Answers :
      (t : Transfer D) (chunk landed rest : Bytes) (outcomes : List Write) (e : Option Bytes)
      → chunk ≡ landed ++ rest
      → (e ≡ none → rest ≡ [])
      → Answers t chunk (
          after_write lseek ftruncate append clock has_callback chunk t
            (record { outcomes = outcomes; landed = landed; failure = e }))
  after_write-Answers t chunk landed rest outcomes (some why) splits h =
      let (c, p) = is_file.appends t.file landed in
      record {
        landed = landed;
        content_is = c;
        position_is = p;
        written_is = omega arith;
        exact = λ k. cc;
        no_error = λ k. cc;
      }
  after_write-Answers t chunk landed rest outcomes none splits h =
      let (c, p) = is_file.appends t.file landed in
      let whole = splits ∙ ap (λ (x : Bytes). landed ++ x) (h refl) ∙ append-nil landed in
      let (f, w, x) = reported_same (record t {
        file = append t.file landed;
        outcomes = outcomes;
        written = t.written + length chunk;
      }) in
      λ b. record {
        landed = landed;
        content_is = ap content f ∙ c;
        position_is = ap position f ∙ p;
        written_is = w;
        exact = λ k. (sym x ∙ k, sym whole);
        no_error = λ k. x;
      }

  on_body-Answers :
      (t : Transfer D) (chunk : Bytes)
      → Answers t chunk (on_body lseek ftruncate append clock has_callback t chunk)
  unfolding on_body
  on_body-Answers t chunk =
      let (rest, s, f) = write_fully-Writes t.outcomes chunk in
      let w = write_fully t.outcomes chunk in
      after_write-Answers t chunk w.landed rest w.outcomes w.failure s f

  pub on_body-Tracks :
      Tracks (on_body lseek ftruncate append clock has_callback) (Extends content position)
  on_body-Tracks = record {
    nothing = Extends-none;
    join = Extends-join;
    kept = λ b t u c e. subst (Answers t c) e (on_body-Answers t c) b;
    refusal = λ t u c e. subst (Answers t c) e (on_body-Answers t c);
  }
