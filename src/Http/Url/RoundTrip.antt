-- ===== src/Http/Url/RoundTrip.antt =====
-- `parseUrl` reads back what `Url::toString` prints.
use binder.Prelude.{
  ℕ, Bool, true, false, [], ◌∷◌, ◌++◌, some, ◌≡◌, ◌≢◌, ◌⊎◌, inl, inr, refl, sym, arith, ◌==◌,
  if◌then◌else◌, is_empty, all, Bool-cases, append_assoc, append-nil, subst,
}
use binder.Text.{
  Bytes, codes, trim, to_lower, equal, find_text, is_digit, drop_end_spaces, is_space,
}
use binder.Text.Search.{
  none_of, equal_iff, none_of-append, find_if-append, find_if-none, find_last_if-none,
  find_last_if-append, take_front, drop_front, drop_front_suc, digits-none_of,
}
use binder.Text.Trim.{drop_end_spaces-append, trim_id}
use binder.Http.Url.{
  Url, http, https, default_port, is_colon, is_delimiter, is_default, contains, bare_host,
  host_header, to_string, split_scheme, split_authority, strip_userinfo, split_literal, split_name,
  split_host, add_slash, cut_fragment, finish_url, parse_rest, parse_url,
}
use binder.Http.Url.Parsed.{is_at, is_hash}

abbrev pub is_open : ℕ → Bool
is_open c = c == b'['

abbrev pub is_close : ℕ → Bool
is_close c = c == b']'

-- A host name, or an address that is written in brackets.
abbrev pub IsHost : Bytes → Type 0
IsHost host =
    ((none_of is_colon host ≡ true) × (none_of is_open host ≡ true))
    ⊎ ((contains is_colon host ≡ true) × (none_of is_close host ≡ true))

-- A URL whose text means what its fields say.
pub record IsUrl (u : Url) : Type 0 where
  pub scheme_known : (u.scheme ≡ http) ⊎ (u.scheme ≡ https)
  pub host_ne_nil : u.host ≢ []
  pub host_kind : IsHost u.host
  pub host_ends : none_of is_delimiter u.host ≡ true
  pub host_no_user : none_of is_at u.host ≡ true
  pub port_ne_nil : u.port ≢ []
  pub port_digits : all is_digit u.port ≡ true
  pub target_slash : (rest : Bytes) × (u.target ≡ b'/' ∷ rest)
  pub target_no_fragment : none_of is_hash u.target ≡ true
  pub target_end : drop_end_spaces u.target ≡ u.target

host_header-none_of :
    (q : ℕ → Bool) (u : Url)
    → none_of q u.host ≡ true
    → ((c : ℕ) → is_digit c ≡ true → q c ≡ false)
    → all is_digit u.port ≡ true
    → (q b'[' ≡ false) × (q b']' ≡ false) × (q b':' ≡ false)
    → none_of q (host_header u) ≡ true
unfolding host_header
host_header-none_of q u host digits port (m₁, m₂, m₃) = ground (
  arith,
  none_of-append q u.host (b']' ∷ []) host,
  none_of-append q u.host (b':' ∷ u.port) host,
  none_of-append q (u.host ++ (b']' ∷ [])) (b':' ∷ u.port),
  digits-none_of q u.port digits port,
)

split_name-host : (host : Bytes) → none_of is_colon host ≡ true → split_name host ≡ (host, [])
unfolding split_name
split_name-host host h = rw (find_last_if-none is_colon host h, split_name)

split_name-port :
    (host port : Bytes)
    → none_of is_colon port ≡ true
    → split_name (host ++ (b':' ∷ port)) ≡ (host, port)
unfolding split_name
split_name-port host port h = rw (
  find_last_if-append is_colon host port b':' h refl,
  take_front host (b':' ∷ port),
  drop_front_suc host port b':',
  split_name,
)

split_host-name :
    (host rest : Bytes)
    → host ≢ []
    → none_of is_open host ≡ true
    → split_host (host ++ rest) ≡ some (split_name (host ++ rest))
unfolding split_host
split_host-name [] rest ne h = absurd (ne refl)
split_host-name (c ∷ host) rest ne h = ground arith

split_host-literal :
    (host rest : Bytes)
    → none_of is_close host ≡ true
    → split_host (b'[' ∷ ((host ++ (b']' ∷ [])) ++ rest)) ≡ split_literal (host ++ (b']' ∷ rest))
unfolding split_host
split_host-literal host rest h = rw append_assoc

split_literal-port :
    (host rest : Bytes)
    → none_of is_close host ≡ true
    → split_literal (host ++ (b']' ∷ rest)) ≡ some (host, binder.Http.Url.port_behind rest)
unfolding split_literal
split_literal-port host rest h = rw (
  find_if-append is_close host rest b']' h refl,
  take_front host (b']' ∷ rest),
  drop_front_suc host rest b']',
  split_literal,
)

split_host-bare :
    (host : Bytes) → host ≢ [] → IsHost host → split_host (bare_host host) ≡ some (host, [])
split_host-bare host ne (inl (name, opens)) =
    let whole = split_host-name host [] ne opens in
    ground
      (arith, find_if-none is_colon host name, append-nil host, whole, split_name-host host name)
split_host-bare host ne (inr (colon, closes)) = ground (
  arith,
  split_host-literal host [] closes,
  split_literal-port host [] closes,
  append-nil (host ++ (b']' ∷ [])),
)

split_host-port :
    (host port : Bytes)
    → host ≢ []
    → none_of is_colon port ≡ true
    → IsHost host
    → split_host (bare_host host ++ (b':' ∷ port)) ≡ some (host, port)
split_host-port host port ne digits (inl (name, opens)) = ground (
  arith,
  find_if-none is_colon host name,
  split_host-name host (b':' ∷ port) ne opens,
  split_name-port host port digits,
)
split_host-port host port ne digits (inr (colon, closes)) = ground (
  arith,
  split_host-literal host (b':' ∷ port) closes,
  split_literal-port host (b':' ∷ port) closes,
)

split_host-host_header :
    (u : Url)
    → IsUrl u
    → split_host (host_header u) ≡ some (u.host, if is_default u then [] else u.port)
unfolding host_header
split_host-host_header u v =
    let no_colon = digits-none_of is_colon u.port (λ c h. ground arith) v.port_digits in
    elim (Bool-cases (is_default u)) [
      | inl e ↦ rw (e, host_header) (split_host-bare u.host v.host_ne_nil v.host_kind)
      | inr e ↦
          rw (e, host_header) (split_host-port u.host u.port v.host_ne_nil no_colon v.host_kind)
    ]

split_authority-slash :
    (h rest : Bytes)
    → none_of is_delimiter h ≡ true
    → split_authority (h ++ (b'/' ∷ rest)) ≡ (h, b'/' ∷ rest)
unfolding split_authority
split_authority-slash h rest e = rw (
  find_if-append is_delimiter h rest b'/' e refl,
  split_authority,
  take_front h (b'/' ∷ rest),
  drop_front h (b'/' ∷ rest),
)

split_authority-target :
    (h target rest : Bytes)
    → none_of is_delimiter h ≡ true
    → target ≡ b'/' ∷ rest
    → split_authority (h ++ target) ≡ (h, target)
split_authority-target h target rest e slash =
    subst (λ t. split_authority (h ++ t) ≡ (h, t)) (sym slash) (split_authority-slash h rest e)

split_scheme-to_string :
    (u : Url)
    → (u.scheme ≡ http) ⊎ (u.scheme ≡ https)
    → split_scheme (to_string u) ≡ some (u.scheme, host_header u ++ u.target)
unfolding split_scheme to_string find_text to_lower equal
split_scheme-to_string u (inl e) = rw e
split_scheme-to_string u (inr e) = rw e

trim_scheme :
    (scheme rest target : Bytes)
    → (scheme ≡ http) ⊎ (scheme ≡ https)
    → drop_end_spaces target ≡ target
    → target ≢ []
    → trim (scheme ++ (rest ++ target)) ≡ scheme ++ (rest ++ target)
unfolding is_space
trim_scheme scheme rest target (inl e) ends ne = rw e (
    trim_id b'h' _ refl (rw append_assoc at (drop_end_spaces-append (http ++ rest) target ends ne)))
trim_scheme scheme rest target (inr e) ends ne = rw e (
    trim_id b'h' _ refl
      (rw append_assoc at (drop_end_spaces-append (https ++ rest) target ends ne)))

trim-to_string : (u : Url) → IsUrl u → trim (to_string u) ≡ to_string u
unfolding to_string
trim-to_string u v = rw (← append_assoc (codes "://") (host_header u) u.target) (
    trim_scheme u.scheme (codes "://" ++ host_header u) u.target v.scheme_known v.target_end
      (λ e. cc (v.target_slash.1)))

add_slash_id : (t rest : Bytes) → t ≡ b'/' ∷ rest → add_slash t ≡ t
unfolding add_slash
add_slash_id t rest e = rw e

cut_fragment_id : (t : Bytes) → none_of is_hash t ≡ true → cut_fragment t ≡ t
unfolding cut_fragment
cut_fragment_id t h = rw (find_if-none is_hash t h, cut_fragment)

strip_userinfo_id : (a : Bytes) → none_of is_at a ≡ true → strip_userinfo a ≡ a
unfolding strip_userinfo
strip_userinfo_id a h = rw (find_last_if-none is_at a h, strip_userinfo)

-- A port that is left out is the default one.
default_port_back :
    (u : Url)
    → IsUrl u
    → (let written = if is_default u then [] else u.port in
        (if is_empty written then default_port u.scheme else written) ≡ u.port)
default_port_back u v = ground (
  arith,
  equal_iff u.scheme http,
  equal_iff u.scheme https,
  equal_iff u.port (codes "80"),
  equal_iff u.port (codes "443"),
  v.port_ne_nil,
)

finish_url_back :
    (scheme host port written target : Bytes)
    → host ≢ []
    → (if is_empty written then default_port scheme else written) ≡ port
    → all is_digit port ≡ true
    → cut_fragment (add_slash target) ≡ target
    → finish_url scheme target (host, written)
      ≡ some (record { scheme = scheme; host = host; port = port; target = target })
unfolding finish_url
finish_url_back scheme [] port written target ne p digits t = absurd (ne refl)
finish_url_back scheme (c ∷ host) port written target ne p digits t = rw (p, digits, t)

parse_rest_back : (u : Url) → IsUrl u → parse_rest u.scheme (host_header u ++ u.target) ≡ some u
unfolding parse_rest
parse_rest_back u v =
    let plain =
      λ (q : ℕ → Bool) (h : none_of q u.host ≡ true)
          (d : (c : ℕ) → is_digit c ≡ true → q c ≡ false).
        host_header-none_of q u h d v.port_digits in
    let ends = plain is_delimiter v.host_ends (λ c h. ground arith) (refl, refl, refl) in
    let user = plain is_at v.host_no_user (λ c h. ground arith) (refl, refl, refl) in
    let (rest, slash) = v.target_slash in
    rw
      (
        split_authority-target (host_header u) u.target rest ends slash,
        strip_userinfo_id (host_header u) user,
        split_host-host_header u v,
      )
      (finish_url_back u.scheme u.host u.port (if is_default u then [] else u.port) u.target
        v.host_ne_nil (default_port_back u v) v.port_digits
        (rw (add_slash_id u.target rest slash) (cut_fragment_id u.target v.target_no_fragment)))

-- A URL that is well formed is read back from its text, field by field.
pub parse_url-to_string : (u : Url) → IsUrl u → parse_url (to_string u) ≡ some u
unfolding parse_url
parse_url-to_string u v =
    rw (trim-to_string u v, split_scheme-to_string u v.scheme_known) (parse_rest_back u v)
