-- ===== src/Service/Files.antt =====
-- A transfer into a file at fixed inputs, with an open file written out.
use binder.Prelude.{
  ℕ, ◌+◌, ◌*◌, true, false, List, [], ◌∷◌, ◌++◌, length, ℤ, pos, negsuc, Option, none, some, ◌≡◌,
  refl, sym, ap,
}
use binder.Text.{Bytes, codes}
use binder.Http.Url.{Url}
use binder.Http.Reader.{Turn, Recv, got, closed}
use binder.Http.Exchange.{Connection, connection, wrote, interrupted}
use binder.Service.Requests.{Event, begin_at, cancel_at, end_of, new_id, empty_table}
use binder.Service.Fetch.{Outcome, fetch_to_fd}
use binder.Service.Fetch.File.{overwritten, IsFile}
use binder.Service.Fetch.File.Results.{Saves}
use binder.Service.Fetch.File.Saved.{fetch_to_fd-Saves}

record OpenFile : Type 0 where
  content : Bytes
  position : ℕ

abbrev seek_start : OpenFile → ℤ → OpenFile × Option Bytes
seek_start file (pos n) = (record file { position = n }, none)
seek_start file (negsuc n) = (file, some (codes "Invalid argument"))

abbrev cut : OpenFile → OpenFile × Option Bytes
cut file = (record file { content = [] }, none)

abbrev write_on : OpenFile → Bytes → OpenFile
write_on file s = record {
  content = overwritten file.position s file.content;
  position = file.position + length s;
}

open_file-IsFile :
    IsFile seek_start cut write_on (λ (f : OpenFile). f.content) (λ (f : OpenFile). f.position)
open_file-IsFile = record {
  seeks = λ d e n h. (
    sym (ap (λ (x : OpenFile × Option Bytes). x.0.content) h),
    sym (ap (λ (x : OpenFile × Option Bytes). x.0.position) h),
  );
  seek_before = λ d e n h. cc (ap (λ (x : OpenFile × Option Bytes). x.1) h);
  truncates = λ d e h. (
    sym (ap (λ (x : OpenFile × Option Bytes). x.0.content) h),
    sym (ap (λ (x : OpenFile × Option Bytes). x.0.position) h),
  );
  appends = λ d s. (refl, refl);
}

abbrev turn : Recv → Turn
turn r = record { canceled = false; recv = r; ms = 10 }

abbrev crlf : Bytes
crlf = b'\r' ∷ b'\n' ∷ []

-- A server that resumes at the third byte, and sends the last two.
abbrev resumes : ℕ → Url → Bytes → Connection
resumes hop url head = connection (wrote 1000 ∷ []) (
    turn (
      got b'H' (
        codes "TTP/1.1 206 Partial Content"
        ++ (crlf
            ++ (codes "Content-Range: bytes 2-3/4"
                ++ (crlf ++ (codes "Content-Length: 2" ++ (crlf ++ (crlf ++ codes "cd"))))))))
    ∷ turn closed
    ∷ [])

abbrev half_file : OpenFile
half_file = record { content = codes "ab"; position = 0 }

fetch_to_fd-Saves_example :
    (outcome : Outcome OpenFile) × (fetch_to_fd seek_start cut write_on
        (λ n. n * 100)
        true
        resumes
        (λ hop. false)
        0
        1
        (codes "http://a/b")
        (pos 2)
        half_file
        (interrupted ∷ wrote 1 ∷ wrote 1 ∷ [])
        []
        (record { table = empty_table; active = 0 })
      ≡ some outcome)
    × Saves (λ (f : OpenFile). f.content) resumes (codes "http://a/b") 2 (codes "ab") outcome
fetch_to_fd-Saves_example =
    fetch_to_fd-Saves open_file-IsFile (λ n. n * 100) true resumes (λ hop. false) 0 1
      (codes "http://a/b") (pos 2) half_file (interrupted ∷ wrote 1 ∷ wrote 1 ∷ []) []
      (record { table = empty_table; active = 0 })

-- Another transfer is canceled and ends meanwhile.
abbrev between : List Event
between = new_id ∷ begin_at 0 3 ∷ cancel_at 400 4 ∷ end_of 3 ∷ []
