-- ===== src/Service/Fetch/File/Saved.antt =====
-- What `fetchToFd` has saved in the file when it ends.
use binder.Prelude.{
  ℕ, Bool, List, [], ◌&&◌, length, ℤ, Option, some, ◌≡◌, ◌⊎◌, refl, sym, ap, ◌∙◌, arith, Bool-cases,
  inl, inr, is_empty,
}
use binder.Text.{Bytes}
use binder.Http.Code.{ok}
use binder.Http.Url.{Url}
use binder.Http.Body.Chunked.{is_ok}
use binder.Http.Body.Chunked.Total.{is_ok-true}
use binder.Http.Exchange.{Write, Result, Connection, HeadersFn, response_info}
use binder.Http.Reader.Lines.{pending}
use binder.Http.Exchange.Served.{Completes}
use binder.Http.Get.{Got}
use binder.Http.Get.Runs.{NothingGot, LastHop, get-Gets}
use binder.Service.Requests.{Event, run, begin_request}
use binder.Service.Fetch.{
  Transfer, Service, Outcome, done, at_least_zero, new_transfer, fetch_request, fetch_status,
  last_call, after_transfer, fetch_to_fd, on_headers, plus_one,
}
use binder.Service.Fetch.File.{overwritten, IsFile, kept_part, Extends}
use binder.Service.Fetch.File.Bodies.{on_body-Tracks}
use binder.Service.Fetch.File.Resume.{on_headers-Begins}
use binder.Service.Fetch.File.Results.{Resumed, Saves, overwritten-continued, overwritten-restarted}

-- A status of success tells the count.
done_inj : (m n : ℕ) → done m ≡ done n → m ≡ n
done_inj m n h = cc

module _ {ℓ} {D : Type ℓ} where
  fetch_status-done :
      (result : Result) (t : Transfer D) (n : ℕ)
      → fetch_status result t ≡ done n
      → (result.error ≡ ok) × (t.written ≡ n)
  fetch_status-done result t n = elim (Bool-cases (is_ok result.error)) [
    | inl e ↦ rw e (λ h. (is_ok-true result.error e, done_inj t.written n h))
    | inr e ↦ (elim (Bool-cases (is_empty t.write_error)) [
      | inl f ↦ rw (e, f) (λ h. cc)
      | inr f ↦ rw (e, f) (λ h. cc)
    ])
  ]

  last_call-same :
      (b : Bool) (result : Result) (t : Transfer D)
      → let u = last_call b result t in
        (u.file ≡ t.file) × (u.written ≡ t.written) × (u.write_error ≡ t.write_error)
  last_call-same b result t = elim (Bool-cases (b && is_ok result.error)) [
    | inl e ↦ rw e (refl, refl, refl)
    | inr e ↦ rw e (refl, refl, refl)
  ]

module _ {ℓ} {D : Type ℓ} {lseek : D → ℤ → D × Option Bytes} {ftruncate : D → D × Option Bytes}
    {append : D → Bytes → D} {content : D → Bytes} {position : D → ℕ}
    (is_file : IsFile lseek ftruncate append content position) (clock : ℕ → ℕ) (has_callback : Bool)
    (connect : ℕ → Url → Bytes → Connection) where
  abbrev heads : ℕ → HeadersFn (Transfer D)
  heads = on_headers lseek ftruncate append clock has_callback

  LastHop-Resumed :
      (resume_from : ℕ) (url : Bytes) (t : Transfer D) (got : Got (Transfer D))
      → t.written ≡ 0
      → (h : LastHop
          (heads resume_from)
          (Extends content position)
          connect
          (fetch_request url resume_from)
          t
          got)
      → got.sink.write_error ≡ []
      → (r : Resumed content connect url resume_from (content t.file) got.sink) × (Completes
            h.transferred.headers
            (pending h.transferred.reader)
            h.transferred.moved
          → Completes r.headers (pending r.reader) r.moved)
  unfolding response_info
  LastHop-Resumed resume_from url t got zeroed h clean =
      let x = h.transferred in
      let info =
        response_info h.url (record (fetch_request url resume_from) { url = h.current }) x.status
          x.reason x.headers in
      let (clean', same) = x.sunk.exact clean in
      let s = (on_headers-Begins is_file clock has_callback resume_from info t).1 clean' in
      let saved =
        x.sunk.content_is
        ∙ ap (λ n. overwritten n x.sunk.landed (content (heads resume_from t info).0.file))
            s.position_is
        ∙ ap (overwritten s.start x.sunk.landed) s.content_is
        ∙ ap (λ (m : Bytes). overwritten s.start m (kept_part s.start resume_from (content t.file)))
            same in
      (
        record {
          hop = h.hop;
          current = h.current;
          follows = h.follows;
          parts = h.url;
          parsed = h.parsed;
          status = x.status;
          reason = x.reason;
          headers = x.headers;
          reader = x.reader;
          served = x.served;
          is_final = x.is_final;
          start = s.start;
          start_is = s.start_is;
          moved = x.moved;
          carried = x.carried;
          content_is = saved;
          written_is =
              let n = x.sunk.written_is in let m = s.written_is in omega (arith, n, m, zeroed);
          continued = λ at_end.
              saved ∙ overwritten-continued s.start resume_from x.moved (content t.file) at_end;
          restarted = λ at_start asked.
              saved
              ∙ overwritten-restarted s.start resume_from x.moved (content t.file) at_start asked;
        },
        λ whole. whole,
      )

  -- What a result means for the file.
  record GotSaved (url : Bytes) (resume_from : ℕ) (old : Bytes) (got : Got (Transfer D))
      : Type ℓ where
    success :
        got.result.error ≡ ok
        → (r : Resumed content connect url resume_from old got.sink) × Completes r.headers
            (pending r.reader)
            r.moved
    otherwise :
        got.sink.write_error ≡ []
        → (content got.sink.file ≡ old) ⊎ Resumed content connect url resume_from old got.sink

  got-GotSaved :
      (resume_from : ℕ) (url : Bytes) (t : Transfer D) (got : Got (Transfer D))
      → t.written ≡ 0
      → t.write_error ≡ []
      → NothingGot t got
        ⊎ LastHop
            (heads resume_from)
            (Extends content position)
            connect
            (fetch_request url resume_from)
            t
            got
      → GotSaved url resume_from (content t.file) got
  got-GotSaved resume_from url t got zeroed fresh (inl (same, none_counted, failed)) = record {
    success = λ good. absurd (failed good);
    otherwise = λ clean. inl (ap (λ (u : Transfer D). content u.file) same);
  }
  got-GotSaved resume_from url t got zeroed fresh (inr h) =
      let x = h.transferred in
      let info =
        response_info h.url (record (fetch_request url resume_from) { url = h.current }) x.status
          x.reason x.headers in
      record {
        success = λ good.
            let (accepted, whole) = x.success good in
            let begun =
              (on_headers-Begins is_file clock has_callback resume_from info t).0 accepted in
            let clean = x.sunk.no_error (ap is_ok good) ∙ begun ∙ fresh in
            let (r, completes) = LastHop-Resumed resume_from url t got zeroed h clean in
            (r, completes whole);
        otherwise = λ clean. inr (LastHop-Resumed resume_from url t got zeroed h clean).0;
      }

  -- The last report does not change the file.
  last_call-Resumed :
      (url : Bytes) (resume_from : ℕ) (old : Bytes) (result : Result) (t : Transfer D)
      (r : Resumed content connect url resume_from old t)
      → (r' : Resumed content connect url resume_from old (last_call has_callback result t))
        × (r'.moved ≡ r.moved)
        × (Completes r.headers (pending r.reader) r.moved
            → Completes r'.headers (pending r'.reader) r'.moved)
  last_call-Resumed url resume_from old result t r =
      let (f, w, e) = last_call-same has_callback result t in
      (
        record {
          hop = r.hop;
          current = r.current;
          follows = r.follows;
          parts = r.parts;
          parsed = r.parsed;
          status = r.status;
          reason = r.reason;
          headers = r.headers;
          reader = r.reader;
          served = r.served;
          is_final = r.is_final;
          start = r.start;
          start_is = r.start_is;
          moved = r.moved;
          carried = r.carried;
          content_is = ap content f ∙ r.content_is;
          written_is = w ∙ r.written_is;
          continued = λ at_end. ap content f ∙ r.continued at_end;
          restarted = λ at_start asked. ap content f ∙ r.restarted at_start asked;
        },
        refl,
        λ whole. whole,
      )

  module _ (canceled : ℕ → Bool) where
    after_transfer-Saves :
        (id : ℕ) (url : Bytes) (resume_from : ℕ) (old : Bytes) (s : Service)
        (got : Got (Transfer D))
        → GotSaved url resume_from old got
        → (outcome : Outcome D) × (after_transfer lseek ftruncate append clock has_callback connect
              canceled id s
              (some got)
            ≡ some outcome)
          × Saves content connect url resume_from old outcome
    after_transfer-Saves id url resume_from old s got g =
        let (f, w, e) = last_call-same has_callback got.result got.sink in
        (
          _,
          refl,
          record {
            success = λ n h.
                let (good, counted) = fetch_status-done got.result got.sink n h in
                let (r, whole) = g.success good in
                let (r', m, completes) =
                  last_call-Resumed url resume_from old got.result got.sink r in
                (r', ap length m ∙ sym r.written_is ∙ counted, completes whole);
            otherwise = λ clean. (elim (g.otherwise (sym e ∙ clean)) [
              | inl same ↦ inl (ap content f ∙ same)
              | inr r ↦ inr (last_call-Resumed url resume_from old got.result got.sink r).0
            ]);
          },
        )

    -- Where lseek, ftruncate and write do what `IsFile` says of them, `fetchToFd` always ends. A
    -- reply of success means that the server of the last hop, which is the request's or has been
    -- reached over the redirects that the servers before it have sent, has sent a response, and that
    -- the file holds its body from where its status and headers say that it starts: over what was
    -- there, or over nothing where a resume has been answered from the start; that the reply counts
    -- the bytes of the body, and that they are all of it where the headers say that the body is
    -- chunked or how long it is. On failure, unless a call on the file failed, the file is unchanged
    -- or holds the counted first part of such a body in that way, so that a later resume can go on
    -- from there.
    pub fetch_to_fd-Saves :
        (now id : ℕ) (url : Bytes) (resume_from : ℤ) (file : D) (outcomes : List Write)
        (others : List Event) (s : Service)
        → (outcome : Outcome D) × (fetch_to_fd lseek ftruncate append clock has_callback connect
              canceled now id url resume_from file outcomes others s
            ≡ some outcome)
          × Saves content connect url (at_least_zero resume_from) (content file) outcome
    unfolding fetch_to_fd
    fetch_to_fd-Saves now id url resume_from file outcomes others s =
        let from = at_least_zero resume_from in
        let t = new_transfer file outcomes now in
        let begun : Service = record {
          table = run others (begin_request now id s.table).1;
          active = plus_one s.active;
        } in
        let (got, e, h) =
          get-Gets (heads from) (on_body-Tracks is_file clock has_callback) connect canceled
            (fetch_request url from) t in
        let (outcome, same, saves) =
          after_transfer-Saves id url from (content file) begun got
            (got-GotSaved from url t got refl refl h) in
        (
          outcome,
          ap (after_transfer lseek ftruncate append clock has_callback connect canceled id begun) e
              ∙ same,
          saves,
        )
