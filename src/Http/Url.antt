-- ===== src/Http/Url.antt =====
-- URLs of service/http/HttpClient.cpp: `parseUrl`, `resolveRedirect`, and the two printers of `Url`.
pub mod Parsed
pub mod RoundTrip
pub mod Redirect
use binder.Prelude.{
  ℕ, suc, ◌+◌, Bool, true, false, not, ◌&&◌, ◌||◌, List, [], ◌∷◌, ◌++◌, Option, none, some, ◌==◌,
  if◌then◌else◌, take, drop, is_empty, all, ◌>>=◌, ◌>>◌, guard,
}
use binder.Text.{Bytes, codes, trim, to_lower, equal, find_if, find_last_if, find_text, is_digit}

pub record Url : Type 0 where
  pub scheme : Bytes
  pub host : Bytes
  pub port : Bytes
  pub target : Bytes

abbrev pub http : Bytes
http = codes "http"

abbrev pub https : Bytes
https = codes "https"

abbrev pub default_port : Bytes → Bytes
default_port scheme = if equal scheme https then codes "443" else codes "80"

abbrev pub is_colon : ℕ → Bool
is_colon c = c == b':'

abbrev pub contains : (ℕ → Bool) → Bytes → Bool
contains p s = elim (find_if p s) [ none ↦ false | some n ↦ true ]

-- The host as it stands in a URL: a literal IPv6 address in brackets.
abbrev pub bare_host : Bytes → Bytes
bare_host host = if contains is_colon host then b'[' ∷ (host ++ b']' ∷ []) else host

abbrev pub is_default : Url → Bool
is_default u =
    (equal u.scheme http && equal u.port (codes "80"))
    || (equal u.scheme https && equal u.port (codes "443"))

unfoldable pub host_header : Url → Bytes
host_header u = if is_default u then bare_host u.host else bare_host u.host ++ (b':' ∷ u.port)

unfoldable pub to_string : Url → Bytes
to_string u = u.scheme ++ (codes "://" ++ (host_header u ++ u.target))

-- The characters that end the authority: `find_first_of("/?#")`.
abbrev pub is_delimiter : ℕ → Bool
is_delimiter c = c == b'/' || c == b'?' || c == b'#'

-- The scheme, and what stands behind "://".
unfoldable pub split_scheme : Bytes → Option (Bytes × Bytes)
split_scheme input = do
  scheme_end ← find_text (codes "://") input
  let scheme = to_lower (take scheme_end input)
  guard (equal scheme http || equal scheme https)
  some (scheme, drop (scheme_end + 3) input)

-- The authority, and the target behind it; with no delimiter the target is "/".
unfoldable pub split_authority : Bytes → Bytes × Bytes
split_authority rest = elim (find_if is_delimiter rest) [
  | none ↦ (rest, codes "/")
  | some n ↦ (take n rest, drop n rest)
]

-- "user:password@" is dropped.
unfoldable pub strip_userinfo : Bytes → Bytes
strip_userinfo authority = elim (find_last_if (λ c. c == b'@') authority) [
  | none ↦ authority
  | some at ↦ drop (suc at) authority
]

abbrev pub port_behind : Bytes → Bytes
port_behind [] = []
port_behind (c ∷ rest) = if c == b':' then rest else []

-- "[address]:port", on what follows the opening bracket.
unfoldable pub split_literal : Bytes → Option (Bytes × Bytes)
split_literal s = elim (find_if (λ c. c == b']') s) [
  | none ↦ none
  | some close ↦ some (take close s, port_behind (drop (suc close) s))
]

-- "name:port".
unfoldable pub split_name : Bytes → Bytes × Bytes
split_name s = elim (find_last_if is_colon s) [
  | none ↦ (s, [])
  | some colon ↦ (take colon s, drop (suc colon) s)
]

-- The host, and the port as it is written (empty when there is none).
unfoldable pub split_host : Bytes → Option (Bytes × Bytes)
unfolding split_literal split_name
split_host [] = none
split_host (c ∷ s) = if c == b'[' then split_literal s else some (split_name (c ∷ s))

-- A slash in front where there is none, and no fragment.
unfoldable pub add_slash : Bytes → Bytes
add_slash [] = codes "/"
add_slash (c ∷ s) = if c == b'/' then c ∷ s else b'/' ∷ c ∷ s

unfoldable pub cut_fragment : Bytes → Bytes
cut_fragment target = elim (find_if (λ c. c == b'#') target) [
  | none ↦ target
  | some n ↦ take n target
]

-- The tests on host and port, and the fields of the result.
unfoldable pub finish_url : Bytes → Bytes → Bytes × Bytes → Option Url
unfolding add_slash cut_fragment
finish_url scheme target named = do
  guard (not (is_empty named.0))
  let port = if is_empty named.1 then default_port scheme else named.1
  guard (all is_digit port)
  some (record {
    scheme = scheme;
    host = named.0;
    port = port;
    target = cut_fragment (add_slash target);
  })

-- What stands behind "://".
unfoldable pub parse_rest : Bytes → Bytes → Option Url
parse_rest scheme rest = do
  let split = split_authority rest
  named ← split_host (strip_userinfo split.0)
  finish_url scheme split.1 named

unfoldable pub parse_url : Bytes → Option Url
parse_url text = do parts ← split_scheme (trim text); parse_rest parts.0 parts.1

-- The directory of a target: up to its last slash.
abbrev pub directory : Bytes → Bytes
directory target = elim (find_last_if (λ c. c == b'/') target) [
  | none ↦ codes "/"
  | some last ↦ take (suc last) target
]

abbrev pub redirect_target : Bytes → Bytes → Bytes
redirect_target base [] = []
redirect_target base (c ∷ target) = if c == b'/' then c ∷ target else directory base ++ (c ∷ target)

-- An empty result is a failure.
unfoldable pub resolve_redirect : Url → Bytes → Bytes
resolve_redirect base location =
    let target = trim location in
    if is_empty target
    then []
    else if (elim (find_text (codes "://") target) [ none ↦ false | some n ↦ true ])
    then target
    else to_string (record base { target = redirect_target base.target target })
