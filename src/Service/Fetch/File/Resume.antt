-- ===== src/Service/Fetch/File/Resume.antt =====
-- The start of a transfer in the file, and what the file holds in the end.
use binder.Prelude.{
  ℕ, zero, suc, Bool, true, false, not, ◌&&◌, [], ◌==◌, if◌then◌else◌, ℤ, pos, negsuc, Option, none,
  some, ◌≡◌, refl, sym, ◌∙◌, subst, Bool-cases, inl, inr,
}
use binder.Text.{Bytes}
use binder.Http.Exchange.{ResponseInfo}
use binder.Service.Fetch.{Transfer, is_zero, started, after_truncate, after_seek, on_headers}
use binder.Service.Fetch.File.{IsFile, Starts}

module _ {ℓ} {D : Type ℓ} {lseek : D → ℤ → D × Option Bytes} {ftruncate : D → D × Option Bytes}
    {append : D → Bytes → D} {content : D → Bytes} {position : D → ℕ}
    (is_file : IsFile lseek ftruncate append content position) (clock : ℕ → ℕ)
    (has_callback : Bool) where
  -- What an answer to the headers means for the transfer.
  abbrev pub Begins : ℕ → ResponseInfo → Transfer D → Transfer D × Bool → Type 0
  Begins resume_from info t (u, answer) =
      (answer ≡ true → u.write_error ≡ t.write_error)
      × (u.write_error ≡ [] → Starts content position resume_from info (content t.file) t.written u)

  started-Begins :
      (resume_from : ℕ) (info : ResponseInfo) (t u : Transfer D)
      → u.write_error ≡ t.write_error
      → Starts content position resume_from info (content t.file) t.written u
      → Begins resume_from info t (started lseek ftruncate append clock has_callback info u)
  started-Begins resume_from info t u e s = elim (Bool-cases has_callback) [
    | inl h ↦ rw h (
      λ k. e,
      λ k. record {
        start = s.start;
        start_is = s.start_is;
        content_is = s.content_is;
        position_is = s.position_is;
        written_is = s.written_is;
      },
    )
    | inr h ↦ rw h (λ k. e, λ k. s)
  ]

  after_truncate-Begins :
      (resume_from : ℕ) (info : ResponseInfo) (t : Transfer D) (sought : D) (p : D × Option Bytes)
      → ftruncate sought ≡ p
      → info.start_offset ≡ pos 0
      → position sought ≡ 0
      → (resume_from == 0) ≡ false
      → Begins resume_from info t (
          after_truncate lseek ftruncate append clock has_callback info
            (record t { file = sought })
            p)
  after_truncate-Begins resume_from info t sought (file, some why) e z p r = (λ k. cc, λ k. cc)
  after_truncate-Begins resume_from info t sought (file, none) e z p r =
      let (c, p') = is_file.truncates sought file e in
      started-Begins resume_from info t (record t { file = file }) refl
        (record {
          start = 0;
          start_is = z;
          content_is = rw r c;
          position_is = p' ∙ p;
          written_is = refl;
        })

  sought-Begins :
      (resume_from : ℕ) (info : ResponseInfo) (t : Transfer D) (start : ℕ) (sought : D)
      → info.start_offset ≡ pos start
      → content sought ≡ content t.file
      → position sought ≡ start
      → Begins resume_from info t (
          if is_zero (pos start) && not (resume_from == 0)
          then after_truncate lseek ftruncate append clock has_callback info
              (record t { file = sought })
              (ftruncate sought)
          else started lseek ftruncate append clock has_callback info (record t { file = sought }))
  sought-Begins resume_from info t zero sought z c p = elim (Bool-cases (resume_from == 0)) [
    | inl r ↦ rw r (
        started-Begins resume_from info t (record t { file = sought }) refl
          (record {
            start = 0;
            start_is = z;
            content_is = rw r c;
            position_is = p;
            written_is = refl;
          }))
    | inr r ↦ rw r (after_truncate-Begins resume_from info t sought (ftruncate sought) refl z p r)
  ]
  sought-Begins resume_from info t (suc n) sought z c p =
      started-Begins resume_from info t (record t { file = sought }) refl
        (record { start = suc n; start_is = z; content_is = c; position_is = p; written_is = refl })

  after_seek-Begins :
      (resume_from : ℕ) (info : ResponseInfo) (t : Transfer D) (z : ℤ) (p : D × Option Bytes)
      → info.start_offset ≡ z
      → lseek t.file z ≡ p
      → Begins resume_from info t
          (after_seek lseek ftruncate append clock has_callback resume_from info t p)
  after_seek-Begins resume_from info t z (file, some why) e h = (λ k. cc, λ k. cc)
  after_seek-Begins resume_from info t (negsuc n) (file, none) e h =
      absurd (is_file.seek_before t.file file n h)
  after_seek-Begins resume_from info t (pos start) (file, none) e h =
      let (c, p) = is_file.seeks t.file file start h in
      subst
        (λ z. Begins resume_from info t (
          if is_zero z && not (resume_from == 0)
          then after_truncate lseek ftruncate append clock has_callback info
              (record t { file = file }) (ftruncate file)
          else started lseek ftruncate append clock has_callback info (record t { file = file })))
        (sym e) (sought-Begins resume_from info t start file e c p)

  pub on_headers-Begins :
      (resume_from : ℕ) (info : ResponseInfo) (t : Transfer D)
      → Begins resume_from info t
          (on_headers lseek ftruncate append clock has_callback resume_from t info)
  unfolding on_headers
  on_headers-Begins resume_from info t =
      after_seek-Begins resume_from info (record t { total = info.total_bytes }) info.start_offset
        (lseek t.file info.start_offset) refl refl
