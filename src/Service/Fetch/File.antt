-- ===== src/Service/Fetch/File.antt =====
-- The file behind the descriptor: where a transfer writes, and what the file holds in the end.
--
-- lseek, ftruncate and write are the system's; what the code relies on is `IsFile`, in terms of the
-- contents and the offset of an open file.
pub mod Bodies
pub mod Resume
pub mod Results
pub mod Saved
use binder.Prelude.{
  List, ◌-◌, ◌||◌, leb, ℕ, zero, suc, ◌+◌, Bool, true, false, not, ◌&&◌, [], ◌∷◌, ◌++◌, ◌==◌,
  length, if◌then◌else◌, ℤ, pos, negsuc, Option, none, some, ◌≡◌, ◌≢◌, refl, sym, ap, ◌∙◌, subst,
  arith, append_assoc, append-nil, length-append, Bool-cases, inl, inr,
}
use binder.Text.{Bytes}
use binder.Http.Body.Moves.{Tracks}
use binder.Http.Exchange.{ResponseInfo, Write}
use binder.Service.Fetch.{
  Transfer, Written, write_fully, is_zero, started, after_truncate, after_seek, on_headers,
  reported, after_write, on_body, progress_bytes, progress_interval_ms,
}
use binder.Service.Fetch.Writes.{write_fully-Writes}

-- The contents of a file after a text has been written at an offset: a gap is filled with zeros, and
-- what stands behind the text stays.
abbrev pub overwritten : ℕ → Bytes → Bytes → Bytes
overwritten n [] old = old
overwritten zero (c ∷ s) [] = c ∷ overwritten zero s []
overwritten zero (c ∷ s) (o ∷ old) = c ∷ overwritten zero s old
overwritten (suc n) (c ∷ s) [] = 0 ∷ overwritten n (c ∷ s) []
overwritten (suc n) (c ∷ s) (o ∷ old) = o ∷ overwritten n (c ∷ s) old

pub overwritten_twice :
    (n m : ℕ) (s t old : Bytes)
    → m ≡ n + length s
    → overwritten m t (overwritten n s old) ≡ overwritten n (s ++ t) old
overwritten_twice n m [] t old e = ap (λ k. overwritten k t old) (omega (arith, e))
overwritten_twice n m (c ∷ s) [] old e =
    ap (λ (x : Bytes). overwritten n (c ∷ x) old) (sym (append-nil s))
overwritten_twice n zero (c ∷ s) (d ∷ t) old e = absurd (omega (arith, e))
overwritten_twice zero (suc m) (c ∷ s) (d ∷ t) [] e =
    ap (◌∷◌ c) (overwritten_twice zero m s (d ∷ t) [] (omega (arith, e)))
overwritten_twice zero (suc m) (c ∷ s) (d ∷ t) (o ∷ old) e =
    ap (◌∷◌ c) (overwritten_twice zero m s (d ∷ t) old (omega (arith, e)))
overwritten_twice (suc n) (suc m) (c ∷ s) (d ∷ t) [] e =
    ap (◌∷◌ 0) (overwritten_twice n m (c ∷ s) (d ∷ t) [] (omega (arith, e)))
overwritten_twice (suc n) (suc m) (c ∷ s) (d ∷ t) (o ∷ old) e =
    ap (◌∷◌ o) (overwritten_twice n m (c ∷ s) (d ∷ t) old (omega (arith, e)))

pub overwritten-empty : (s : Bytes) → overwritten 0 s [] ≡ s
overwritten-empty [] = refl
overwritten-empty (c ∷ s) = ap (◌∷◌ c) (overwritten-empty s)

pub overwritten-end : (s old : Bytes) → overwritten (length old) s old ≡ old ++ s
overwritten-end [] old = sym (append-nil old)
overwritten-end (c ∷ s) [] = ap (◌∷◌ c) (overwritten-empty s)
overwritten-end (c ∷ s) (o ∷ old) = ap (◌∷◌ o) (overwritten-end (c ∷ s) old)

-- What lseek from the start, ftruncate to 0 and write do to an open file where they succeed.
pub record IsFile {ℓ} {D : Type ℓ} (lseek : D → ℤ → D × Option Bytes)
    (ftruncate : D → D × Option Bytes) (append : D → Bytes → D) (content : D → Bytes)
    (position : D → ℕ) : Type ℓ where
  pub seeks :
      (d e : D) (n : ℕ) → lseek d (pos n) ≡ (e, none) → (content e ≡ content d) × (position e ≡ n)
  pub seek_before : (d e : D) (n : ℕ) → lseek d (negsuc n) ≢ (e, none)
  pub truncates : (d e : D) → ftruncate d ≡ (e, none) → (content e ≡ []) × (position e ≡ position d)
  pub appends :
      (d : D) (s : Bytes)
      → (content (append d s) ≡ overwritten (position d) s (content d))
        × (position (append d s) ≡ position d + length s)

-- What of the old contents is left when the body starts: nothing where a resume has been refused.
abbrev pub kept_part : ℕ → ℕ → Bytes → Bytes
kept_part start resume_from old = if is_zero (pos start) && not (resume_from == 0) then [] else old

module _ {ℓ} {D : Type ℓ} (content : D → Bytes) (position : D → ℕ) where
  -- From one state of a transfer to another: the bytes that were accepted, and perhaps the first part
  -- of some that a write refused, have been written on from the offset.
  pub record Extends (clean : Bool) (t : Transfer D) (moved : Bytes) (u : Transfer D) : Type 0 where
    pub landed : Bytes
    pub content_is : content u.file ≡ overwritten (position t.file) landed (content t.file)
    pub position_is : position u.file ≡ position t.file + length landed
    pub written_is : u.written ≡ t.written + length moved
    pub exact : u.write_error ≡ [] → (t.write_error ≡ []) × (landed ≡ moved)
    pub no_error : clean ≡ true → u.write_error ≡ t.write_error

  -- The transfer stands at the start of the body.
  pub record Starts (resume_from : ℕ) (info : ResponseInfo) (old : Bytes) (before : ℕ)
      (u : Transfer D) : Type 0 where
    pub start : ℕ
    pub start_is : info.start_offset ≡ pos start
    pub content_is : content u.file ≡ kept_part start resume_from old
    pub position_is : position u.file ≡ start
    pub written_is : u.written ≡ before
