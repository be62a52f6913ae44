-- ===== src/Http/Body/Plain.antt =====
-- What `pumpPlain` hands to a sink that keeps what it accepts, however the bytes arrive and whenever
-- the sink refuses.
use binder.Prelude.{
  ℕ, Bool, true, false, ◌++◌, if◌then◌else◌, ℤ, ◌≡◌, refl, sym, ap, ◌∙◌, append_assoc, append-nil,
  subst,
}
use binder.Text.{Bytes}
use binder.Http.Reader.{Reader}
use binder.Http.Reader.Lines.{pending}
use binder.Http.Body.{BodyFn, pump_plain}
use binder.Http.Body.Moves.{Fits, Tracks, Moves, pump_plain-Moves_any}

-- A sink that keeps what it accepts, and accepts what `policy` says.
abbrev pub collect : (Bytes → Bytes → Bool) → BodyFn Bytes
collect policy kept chunk = if policy kept chunk then (kept ++ chunk, true) else (kept, false)

abbrev pub Appended : Bool → Bytes → Bytes → Bytes → Type 0
Appended all_kept before moved after = after ≡ before ++ moved

collect_cases :
    (s t c : Bytes) (b answer : Bool)
    → ◌≡◌ {A = Bytes × Bool} (if b then (s ++ c, true) else (s, false)) (t, answer)
    → (if answer then t ≡ s ++ c else t ≡ s)
collect_cases s t c true answer e = subst (λ p. if p.1 then p.0 ≡ s ++ c else p.0 ≡ s) e refl
collect_cases s t c false answer e = subst (λ p. if p.1 then p.0 ≡ s ++ c else p.0 ≡ s) e refl

pub collect-Tracks : (policy : Bytes → Bytes → Bool) → Tracks (collect policy) Appended
collect-Tracks policy = record {
  nothing = λ b s. sym (append-nil s);
  join = λ b s t u x y e e'. e' ∙ ap (λ (z : Bytes). z ++ y) e ∙ append_assoc s x y;
  kept = λ b s t c e. collect_cases s t c (policy s c) true e;
  refusal = λ s t c e. collect_cases s t c (policy s c) false e ∙ sym (append-nil s);
}

-- `pumpPlain` moves the pending bytes to the sink in order, losing and repeating none, whether it
-- succeeds, times out, is canceled, meets a broken connection or is refused by the sink; it never
-- passes the length that was asked for, and on success it has moved exactly that length.
pub pump_plain-Moves :
    (policy : Bytes → Bytes → Bool) (want : ℤ) (sink : Bytes) (written : ℕ) (r : Reader)
    → Fits want written
    → Moves Appended want sink written (pending r) (pump_plain (collect policy) want sink written r)
pump_plain-Moves policy want sink written r fits =
    pump_plain-Moves_any (collect-Tracks policy) want r.idle_timeout r.error sink written r.wire
      r.unread fits
