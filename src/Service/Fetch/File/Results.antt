-- ===== src/Service/Fetch/File/Results.antt =====
-- What a transfer can leave in the file.
use binder.Prelude.{
  ==_iff, ℕ, zero, suc, ◌∷◌, ◌==◌, [], ◌++◌, length, false, leb, some, pos, ◌≡◌, ◌≢◌, ◌⊎◌, ap, ◌∙◌,
  arith, Bool-cases, inl, inr,
}
use binder.Text.{Bytes}
use binder.Http.Headers.{Headers}
use binder.Http.Url.{Url, parse_url}
use binder.Http.Reader.{Reader}
use binder.Http.Reader.Lines.{pending}
use binder.Http.Exchange.{Connection, body_range, is_redirect}
use binder.Http.Exchange.Served.{Served, Carries, Completes}
use binder.Http.Get.Runs.{Follows}
use binder.Service.Fetch.{Transfer, Outcome, done, fetch_request}
use binder.Service.Fetch.File.{overwritten, overwritten-empty, overwritten-end, kept_part}

-- The request has been answered, by the server of the last hop, and the file holds a first part of
-- the body of that response, from where its status and its headers say that the body starts.
pub record Resumed {ℓ} {D : Type ℓ} (content : D → Bytes) (connect : ℕ → Url → Bytes → Connection)
    (url : Bytes) (resume_from : ℕ) (old : Bytes) (t : Transfer D) : Type 0 where
  pub hop : ℕ
  pub current : Bytes
  pub follows : Follows connect (fetch_request url resume_from) hop current
  pub parts : Url
  pub parsed : parse_url current ≡ some parts
  pub status : ℕ
  pub reason : Bytes
  pub headers : Headers
  pub reader : Reader
  pub served :
      Served (connect hop) parts (fetch_request current resume_from) status reason headers reader
  pub is_final : (is_redirect status ≡ false) × (leb 400 status ≡ false)
  pub start : ℕ
  pub start_is : (body_range (fetch_request current resume_from) status headers).0 ≡ pos start
  pub moved : Bytes
  pub carried : Carries headers (pending reader) moved
  pub content_is : content t.file ≡ overwritten start moved (kept_part start resume_from old)
  pub written_is : t.written ≡ length moved
  pub continued : start ≡ length old → content t.file ≡ old ++ moved
  pub restarted : start ≡ 0 → resume_from ≢ 0 → content t.file ≡ moved

pub overwritten-continued :
    (start resume_from : ℕ) (moved old : Bytes)
    → start ≡ length old
    → overwritten start moved (kept_part start resume_from old) ≡ old ++ moved
overwritten-continued zero resume_from moved [] e = elim (Bool-cases (resume_from == 0)) [
  | inl h ↦ rw h (overwritten-empty moved)
  | inr h ↦ rw h (overwritten-empty moved)
]
overwritten-continued zero resume_from moved (c ∷ old) e = absurd (omega (arith, e))
overwritten-continued (suc n) resume_from moved old e =
    ap (λ k. overwritten k moved old) e ∙ overwritten-end moved old

pub overwritten-restarted :
    (start resume_from : ℕ) (moved old : Bytes)
    → start ≡ 0
    → resume_from ≢ 0
    → overwritten start moved (kept_part start resume_from old) ≡ moved
overwritten-restarted zero resume_from moved old e h = elim (Bool-cases (resume_from == 0)) [
  | inl k ↦ absurd (h ((==_iff resume_from 0).0 k))
  | inr k ↦ rw k (overwritten-empty moved)
]
overwritten-restarted (suc n) resume_from moved old e h = absurd (omega (arith, e))

-- On success, all of the body that was counted; otherwise, unless the file itself has failed, nothing
-- or the first part of a body.
pub record Saves {ℓ} {D : Type ℓ} (content : D → Bytes) (connect : ℕ → Url → Bytes → Connection)
    (url : Bytes) (resume_from : ℕ) (old : Bytes) (o : Outcome D) : Type ℓ where
  pub success :
      (n : ℕ)
      → o.status ≡ done n
      → (r : Resumed content connect url resume_from old o.transfer) × (length r.moved ≡ n)
        × Completes r.headers (pending r.reader) r.moved
  pub otherwise :
      o.transfer.write_error ≡ []
      → (content o.transfer.file ≡ old) ⊎ Resumed content connect url resume_from old o.transfer
