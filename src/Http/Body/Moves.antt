-- ===== src/Http/Body/Moves.antt =====
-- What `pumpPlain` hands to a sink, for every relation that the sink keeps.
use binder.Prelude.{
  ℕ, zero, suc, ◌+◌, ◌-◌, ◌≤◌, Bool, true, false, List, [], ◌∷◌, ◌++◌, length, take, drop, ℤ, pos,
  negsuc, ◌≡◌, refl, sym, ap, ◌∙◌, arith, append_assoc, append-nil, length-append, take_all,
  Bool-cases, inl, inr, subst, length-take,
}
use binder.Text.{Bytes}
use binder.Http.Code.{ok}
use binder.Http.Reader.{Turn, Wire, Round, take_bytes, ended, stop, wait, fill_round}
use binder.Http.Reader.Lines.{pending, stream, received, Rounds, fill_round-Rounds}
use binder.Http.Body.Chunked.{is_ok}
use binder.Http.Body.{
  BodyFn, Pump, is_done, wanted, Delivery, refused, done, more, deliver, accepted, at_end,
  after_delivery, pump_round, pump_wire, pump_plain,
}

-- No more than a given length has been handed over.
abbrev pub Fits : ℤ → ℕ → Type 0
Fits (pos n) written = written ≤ n
Fits (negsuc n) written = Unit {0}

take-drop-length {ℓ} :
    {A : Type ℓ} (k : ℕ) (s : List A) → take k s ++ drop (length (take k s)) s ≡ s
take-drop-length zero s = refl
take-drop-length (suc k) [] = refl
take-drop-length (suc k) (c ∷ s) = ap (◌∷◌ c) (take-drop-length k s)

drop_whole {ℓ} : {A : Type ℓ} (s : List A) → drop (length s) s ≡ []
drop_whole [] = refl
drop_whole (c ∷ s) = drop_whole s

wanted_splits :
    (want : ℤ) (written : ℕ) (s : Bytes)
    → s ≡ wanted want written s ++ drop (length (wanted want written s)) s
wanted_splits (pos n) written s = sym (take-drop-length (n - written) s)
wanted_splits (negsuc n) written s = rw (drop_whole s, append-nil s)

wanted-Fits :
    (want : ℤ) (written : ℕ) (s : Bytes)
    → Fits want written
    → Fits want (written + length (wanted want written s))
wanted-Fits (pos n) written s h = omega (arith, length-take (n - written) s)
wanted-Fits (negsuc n) written s h = tt

-- Where something is still wanted afterwards, the whole buffer was.
wanted_all :
    (want : ℤ) (written : ℕ) (s : Bytes)
    → is_done want (written + length (wanted want written s)) ≡ false
    → wanted want written s ≡ s
wanted_all (pos n) written s h =
    take_all (n - written) s (ground (arith, length-take (n - written) s))
wanted_all (negsuc n) written s h = refl

-- A relation that a sink keeps: from state to state over the bytes that it accepts, and over none when
-- it refuses some. It may say more where nothing has been refused, which its first argument tells.
pub record Tracks {ℓ} {S : Type ℓ} (on_body : BodyFn S) (R : Bool → S → Bytes → S → Type 0)
    : Type ℓ where
  pub nothing : (b : Bool) (s : S) → R b s [] s
  pub join : (b : Bool) (s t u : S) (x y : Bytes) → R true s x t → R b t y u → R b s (x ++ y) u
  pub kept : (b : Bool) (s t : S) (c : Bytes) → on_body s c ≡ (t, true) → R b s c t
  pub refusal : (s t : S) (c : Bytes) → on_body s c ≡ (t, false) → R false s [] t

module _ {ℓ} {S : Type ℓ} {on_body : BodyFn S} {R : Bool → S → Bytes → S → Type 0}
    (tracks : Tracks on_body R) where
  abbrev Delivers : ℤ → S → ℕ → Bytes → Delivery S → Type 0
  Delivers want sink written s (refused sink') = R false sink [] sink'
  Delivers want sink written s (done sink' written' rest) =
      (d : Bytes) × (s ≡ d ++ rest)
      × R true sink d sink'
      × (written' ≡ written + length d)
      × (is_done want written' ≡ true)
      × Fits want written'
  Delivers want sink written s (more sink' written') =
      R true sink s sink' × (written' ≡ written + length s) × Fits want written'

  accepted-Delivers :
      (want : ℤ) (sink : S) (written : ℕ) (s chunk : Bytes) (p : S × Bool)
      → on_body sink chunk ≡ p
      → s ≡ chunk ++ drop (length chunk) s
      → Fits want (written + length chunk)
      → (is_done want (written + length chunk) ≡ false → chunk ≡ s)
      → Delivers want sink written s (accepted on_body want written s chunk p)
  accepted-Delivers want sink written s chunk (sink', false) e splits fits whole =
      tracks.refusal sink sink' chunk e
  accepted-Delivers want sink written s chunk (sink', true) e splits fits whole =
      elim (Bool-cases (is_done want (written + length chunk))) [
        | inl finished ↦
            rw finished (chunk, splits, tracks.kept true sink sink' chunk e, refl, finished, fits)
        | inr unfinished ↦ rw unfinished (
          subst (λ x. R true sink x sink') (whole unfinished) (tracks.kept true sink sink' chunk e),
          ap (λ (x : Bytes). written + length x) (whole unfinished),
          fits,
        )
      ]

  deliver-Delivers :
      (want : ℤ) (written : ℕ) (sink : S) (s : Bytes)
      → Fits want written
      → Delivers want sink written s (deliver on_body want written sink s)
  unfolding deliver
  deliver-Delivers want written sink [] fits = elim (Bool-cases (is_done want written)) [
    | inl e ↦ rw e ([], refl, tracks.nothing true sink, omega arith, e, fits)
    | inr e ↦ rw e (tracks.nothing true sink, omega arith, fits)
  ]
  deliver-Delivers want written sink (c ∷ s) fits = elim (Bool-cases (is_done want written)) [
    | inl e ↦ rw e ([], refl, tracks.nothing true sink, omega arith, e, fits)
    | inr e ↦ rw e (
        accepted-Delivers want sink written (c ∷ s) (wanted want written (c ∷ s))
          (on_body sink (wanted want written (c ∷ s))) refl (wanted_splits want written (c ∷ s))
          (wanted-Fits want written (c ∷ s) fits) (wanted_all want written (c ∷ s)))
  ]

-- What a call has done, from a sink, a count and the pending bytes: it has moved some bytes from the
-- front of what was pending to the end of the sink, and counted them; the count never passes the
-- length that was asked for, and is that length on success.
pub record Moves {ℓ} {S : Type ℓ} (R : Bool → S → Bytes → S → Type 0) (want : ℤ) (sink : S)
    (written : ℕ) (before : Bytes) (p : Pump S) : Type ℓ where
  pub moved : Bytes
  pub pending_is : before ≡ moved ++ pending p.reader
  pub sunk : R (is_ok p.code) sink moved p.sink
  pub written_is : p.written ≡ written + length moved
  pub fits : Fits want p.written
  pub exact : (n : ℕ) → want ≡ pos n → p.code ≡ ok → p.written ≡ n

module _ {ℓ} {S : Type ℓ} {on_body : BodyFn S} {R : Bool → S → Bytes → S → Type 0}
    (tracks : Tracks on_body R) where
  -- Some bytes first, and then the rest of the call.
  Moves-more :
      (want : ℤ) (sink sink' : S) (s before : Bytes) (written : ℕ) (p : Pump S)
      → R true sink s sink'
      → Moves R want sink' (written + length s) before p
      → Moves R want sink written (s ++ before) p
  Moves-more want sink sink' s before written p first m = record {
    moved = s ++ m.moved;
    pending_is = ap (◌++◌ s) m.pending_is ∙ sym (append_assoc s m.moved _);
    sunk = tracks.join (is_ok p.code) sink sink' p.sink s m.moved first m.sunk;
    written_is = omega (arith, m.written_is, length-append s m.moved);
    fits = m.fits;
    exact = m.exact;
  }

  -- Nothing moved.
  Moves-none :
      (want : ℤ) (sink : S) (written : ℕ) (p : Pump S)
      → R (is_ok p.code) sink [] p.sink
      → p.written ≡ written
      → Fits want written
      → ((n : ℕ) → want ≡ pos n → p.code ≡ ok → p.written ≡ n)
      → Moves R want sink written (pending p.reader) p
  Moves-none want sink written p e₁ e₂ fits exact = record {
    moved = [];
    pending_is = refl;
    sunk = e₁;
    written_is = omega (arith, e₂);
    fits = subst (Fits want) (sym e₂) fits;
    exact = exact;
  }

done_exact :
    (want : ℤ) (written : ℕ)
    → is_done want written ≡ true
    → Fits want written
    → (n : ℕ) → want ≡ pos n
    → written ≡ n
done_exact (pos m) written e fits n h = ground arith
done_exact (negsuc m) written e fits n h = cc

module _ {ℓ} {S : Type ℓ} {on_body : BodyFn S} {R : Bool → S → Bytes → S → Type 0}
    (tracks : Tracks on_body R) (want : ℤ) (timeout : ℕ) (error : Bytes) where
  after_delivery-Moves :
      (sink : S) (s : Bytes) (written : ℕ) (w : Wire) (go_on : S → ℕ → Pump S) (x : Delivery S)
      → Fits want written
      → Delivers tracks want sink written s x
      → ((sink' : S) (written' : ℕ)
          → Fits want written'
          → Moves R want sink' written' (stream w) (go_on sink' written'))
      → Moves R want sink written
          (s ++ stream w)
          (after_delivery on_body go_on s w timeout error written x)
  after_delivery-Moves sink s written w go_on (refused sink') fits e ih =
      Moves-none tracks want sink written _ e refl fits (λ n h k. cc)
  after_delivery-Moves sink s written w go_on (done sink' written' rest) fits
        (d, splits, kept, counted, finished, fits') ih =
      record {
        moved = d;
        pending_is = ap (λ (x : Bytes). x ++ stream w) splits ∙ append_assoc d rest (stream w);
        sunk = kept;
        written_is = counted;
        fits = fits';
        exact = λ n h k. done_exact want written' finished fits' n h;
      }
  after_delivery-Moves sink s written w go_on (more sink' written') fits (kept, counted, fits') ih =
      Moves-more tracks want sink sink' s (stream w) written (go_on sink' written') kept (
        subst (λ n. Moves R want sink' n (stream w) (go_on sink' written')) counted
          (ih sink' written' fits'))

  at_end-Moves :
      (sink : S) (written : ℕ) (w : Wire)
      → Fits want written
      → Moves R want sink written (stream w) (at_end on_body want written sink w timeout error)
  at_end-Moves sink written w fits = go want fits
    where
      go :
          (z : ℤ)
          → Fits z written
          → Moves R z sink written (stream w) (at_end on_body z written sink w timeout error)
      go (pos n) fits =
          Moves-none tracks (pos n) sink written _ (tracks.nothing _ sink) refl fits (λ m h k. cc)
      go (negsuc n) fits =
          Moves-none tracks (negsuc n) sink written _ (tracks.nothing _ sink) refl fits
            (λ m h k. cc)

  pump_round-Moves :
      (sink : S) (written : ℕ) (t : Turn) (w : Wire) (go_on : ℕ → Pump S) (next : S → ℕ → Pump S)
      (x : Round)
      → Fits want written
      → Rounds (received t) x
      → ((idle : ℕ) → Moves R want sink written (stream w) (go_on idle))
      → ((sink' : S) (written' : ℕ)
          → Fits want written'
          → Moves R want sink' written' (stream w) (next sink' written'))
      → Moves R want sink written
          (stream (t ∷ w))
          (pump_round on_body go_on next want timeout error sink written w x)
  pump_round-Moves sink written t w go_on next (take_bytes s) fits e ih₁ ih₂ = rw e (
      after_delivery-Moves sink s written w next (deliver on_body want written sink s) fits
        (deliver-Delivers tracks want written sink s fits) ih₂)
  pump_round-Moves sink written t w go_on next ended fits e ih₁ ih₂ =
      rw e (at_end-Moves sink written w fits)
  pump_round-Moves sink written t w go_on next (stop code why) fits e ih₁ ih₂ = rw e.0 (
      Moves-none tracks want sink written _ (tracks.nothing _ sink) refl fits
        (λ n h k. absurd (e.1 k)))
  pump_round-Moves sink written t w go_on next (wait idle) fits e ih₁ ih₂ = rw e (ih₁ idle)

  pump_wire-Moves :
      (idle : ℕ) (sink : S) (written : ℕ) (w : Wire)
      → Fits want written
      → Moves R want sink written
          (stream w)
          (pump_wire on_body want timeout error idle sink written w)
  unfolding pump_wire
  pump_wire-Moves idle sink written [] fits = at_end-Moves sink written [] fits
  pump_wire-Moves idle sink written (t ∷ w) fits =
      pump_round-Moves sink written t w
        (λ idle'. pump_wire on_body want timeout error idle' sink written w)
        (λ sink' written'. pump_wire on_body want timeout error 0 sink' written' w)
        (fill_round timeout error idle t) fits (fill_round-Rounds timeout error idle t)
        (λ idle'. pump_wire-Moves idle' sink written w fits)
        (λ sink' written' fits'. pump_wire-Moves 0 sink' written' w fits')

  -- The whole of `pumpPlain`, over any sink.
  pub pump_plain-Moves_any :
      (sink : S) (written : ℕ) (w : Wire) (unread : Bytes)
      → Fits want written
      → Moves R want sink written (unread ++ stream w) (
          pump_plain on_body want sink written
            (record { wire = w; unread = unread; idle_timeout = timeout; error = error }))
  unfolding pump_plain
  pump_plain-Moves_any sink written w unread fits =
      after_delivery-Moves sink unread written w
        (λ sink' written'. pump_wire on_body want timeout error 0 sink' written' w)
        (deliver on_body want written sink unread) fits
        (deliver-Delivers tracks want written sink unread fits)
        (λ sink' written' fits'. pump_wire-Moves 0 sink' written' w fits')
