-- ===== src/Client/Bar.antt =====
-- The progress bar, `Callback::onProgress` of client/download.cpp. `humanBytes` is floating-point
-- formatting, so the amounts beside the bar are left out.
use binder.Prelude.{
  ℕ, zero, suc, ◌-◌, ◌*◌, ◌/◌, ◌^◌, ◌≤◌, ◌<◌, Bool, [], ◌∷◌, ◌++◌, leb, ltb, length, if◌then◌else◌,
  Option, none, some, ◌≡◌, ◌↔◌, refl, ap, ℤ, pos, negsuc, length-append, arith, Bool-cases, inl,
  inr, ltb→lt,
}
use binder.Text.{Bytes}
use binder.Download.Task.{percent_of, as_int32}
use native.Mathlib.Nat.{div-lt_iff_lt-mul}

-- `memset`.
abbrev pub repeat : ℕ → ℕ → Bytes
repeat c zero = []
repeat c (suc n) = c ∷ repeat c n

-- `char bar[41]` after the two calls of memset, without its final zero: none where they would write
-- past it. Where `filled` is over 40, the second one is given a negative length.
unfoldable pub filled_bar : ℕ → Option Bytes
filled_bar filled =
    if leb filled 40 then some (repeat b'=' filled ++ repeat b' ' (40 - filled)) else none

-- The product is taken as it is: in the source it is one of ints, which overflow from 53687092 per
-- cent on, far past the end of the bar.
unfoldable pub bar : ℤ → Option Bytes
bar (pos percent) = filled_bar (percent * 40 / 100)
bar (negsuc n) = filled_bar 0

-- What is painted: nothing, the bar with the percentage, or the bytes so far where the size is not
-- known.
pub data Painting : Type 0 where
  unpainted bytes_so_far overrun : Painting
  bar_of : Bytes → ℕ → Painting

abbrev pub with_bar : ℤ → Option Bytes → Painting
with_bar percent none = overrun
with_bar (pos percent) (some cells) = bar_of cells percent
with_bar (negsuc n) (some cells) = bytes_so_far

unfoldable pub paint : Bool → ℤ → Painting
paint quiet percent = if quiet then unpainted else with_bar percent (bar percent)

length-repeat : (c n : ℕ) → length (repeat c n) ≡ n
length-repeat c zero = refl
length-repeat c (suc n) = ap (λ k. suc k) (length-repeat c n)

as_int32_small : (n : ℕ) → n < 2 ^ 31 → as_int32 n ≡ pos n
as_int32_small n h = ground arith

-- The bar has forty cells where it fits, and there is none where it does not.
filled_bar-fits :
    (filled : ℕ)
    → filled ≤ 40
    → (cells : Bytes) × (filled_bar filled ≡ some cells) × (length cells ≡ 40)
unfolding filled_bar
filled_bar-fits filled h = elim (Bool-cases (leb filled 40)) [
  | inl e ↦ rw e (
    _,
    refl,
    omega (
      arith,
      h,
      length-append (repeat b'=' filled) (repeat b' ' (40 - filled)),
      length-repeat b'=' filled,
      length-repeat b' ' (40 - filled),
    ),
  )
  | inr e ↦ absurd (ground arith)
]

filled_bar-overrun : (filled : ℕ) → 40 < filled → filled_bar filled ≡ none
unfolding filled_bar
filled_bar-overrun filled h = elim (Bool-cases (leb filled 40)) [
  | inl e ↦ absurd (ground arith)
  | inr e ↦ rw e refl
]

-- The bar of forty cells is drawn inside its buffer exactly if the download has less than 103 per cent
-- of the bytes that its total tells, where the percentage fits an int. So no report of at most the
-- total overruns the buffer, and a report of 103 per cent or more does.
pub bar-percent_of :
    (done n : ℕ)
    → done * 100 / suc n < 2 ^ 31
    → ((cells : Bytes) × (bar (percent_of done (pos (suc n))) ≡ some cells) × (length cells ≡ 40))
      ↔ (done * 100 < 103 * suc n)
unfolding bar
bar-percent_of done n h =
    let percent = done * 100 / suc n in
    let small : (percent < 103) ↔ (done * 100 < 103 * suc n) = div-lt_iff_lt-mul (omega arith) in
    rw (as_int32_small percent h) (
      λ (cells, drawn, counted). elim (Bool-cases (ltb percent 103)) [
        | inl e ↦ small.0 (ltb→lt percent 103 e)
        | inr e ↦
            let over : 40 < percent * 40 / 100 = ground arith in
            let none_drawn = filled_bar-overrun (percent * 40 / 100) over in absurd (cc)
      ],
      λ fits. filled_bar-fits (percent * 40 / 100) (omega (arith, small.1 fits)),
    )
