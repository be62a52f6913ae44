-- ===== src/Http/Response.antt =====
-- The status line and the Content-Range header, as service/http/HttpClient.cpp reads them.
pub mod RoundTrip
use binder.Prelude.{
  ℕ, suc, ◌+◌, Bool, true, false, ◌&&◌, ◌||◌, [], ◌∷◌, ◌++◌, Option, none, some, ◌==◌, ltb, leb,
  if◌then◌else◌, take, drop, ℤ, pos, minus_one, ltb_ℤ, pos_part, ◌>>=◌, ◌>>◌, guard,
}
use binder.Text.{Bytes, codes, trim, equal, find_if}
use binder.Text.Number.{strtoll, Number, atoi}

abbrev pub is_blank : ℕ → Bool
is_blank c = c == b' '

-- What stands behind the code, on the text that begins with the code.
unfoldable pub reason_of : Bytes → Bytes
reason_of behind = elim (find_if is_blank behind) [
  | none ↦ []
  | some sp2 ↦ trim (drop (suc sp2) behind)
]

-- "HTTP/1.1 200 OK": the code and the reason.
unfoldable pub parse_status_line : Bytes → Option (ℕ × Bytes)
parse_status_line line = do
  guard (equal (take 5 line) (codes "HTTP/"))
  sp ← find_if is_blank line
  let behind = drop (suc sp) line
  let code = atoi behind
  guard (leb 100 (pos_part code) && ltb (pos_part code) 600)
  some (pos_part code, reason_of behind)

-- The first byte of the body, and the size of the whole resource, -1 for "*".
unfoldable pub content_range : Bytes → Option (ℤ × ℤ)
content_range range = do
  dash ← find_if (λ c. c == b'-') range
  slash ← find_if (λ c. c == b'/') range
  guard (leb dash slash)
  let total = drop (suc slash) range
  some (
    (strtoll 10 range).value,
    (if equal total (codes "*") then minus_one else (strtoll 10 total).value),
  )

-- "bytes 200-1023/1024".
unfoldable pub parse_content_range : Bytes → Option (ℤ × ℤ)
parse_content_range value = do
  sp ← find_if is_blank value
  content_range (trim (drop (suc sp) value))
