-- ===== src/Http/Url/Parsed.antt =====
-- What every URL that `parseUrl` returns looks like.
use binder.Prelude.{
  ℕ, suc, Bool, true, not, ◌||◌, [], ◌∷◌, some, ◌≡◌, ◌≢◌, ◌⊎◌, inl, inr, refl, arith, ◌==◌,
  if◌then◌else◌, take, is_empty, all, Option-cases, Bool-cases, >>=-eq-some, guard-eq-some, subst,
  some_inj,
}
use binder.Text.{Bytes, codes, trim, to_lower, equal, find_if, find_last_if, find_text, is_digit}
use binder.Text.Search.{
  none_of, equal_iff, find_if_before, find_if_missing, find_last_if_after, find_last_if_missing,
  none_of-take, none_of-drop,
}
use binder.Http.Url.{
  Url, http, https, default_port, is_colon, is_delimiter, split_scheme, split_authority,
  strip_userinfo, split_literal, split_name, split_host, add_slash, cut_fragment, finish_url,
  parse_rest, parse_url,
}

abbrev pub is_at : ℕ → Bool
is_at c = c == b'@'

abbrev pub is_hash : ℕ → Bool
is_hash c = c == b'#'

pub record IsParsed (u : Url) : Type 0 where
  pub scheme_known : (u.scheme ≡ http) ⊎ (u.scheme ≡ https)
  pub host_ne_nil : u.host ≢ []
  pub host_ends : none_of is_delimiter u.host ≡ true
  pub host_no_user : none_of is_at u.host ≡ true
  pub port_ne_nil : u.port ≢ []
  pub port_digits : all is_digit u.port ≡ true
  pub target_slash : (rest : Bytes) × (u.target ≡ b'/' ∷ rest)
  pub target_no_fragment : none_of is_hash u.target ≡ true

split_scheme-known :
    (s : Bytes) (p : Bytes × Bytes) → split_scheme s ≡ some p → (p.0 ≡ http) ⊎ (p.0 ≡ https)
unfolding split_scheme
split_scheme-known s p h =
    let (n, _, kept) = >>=-eq-some (find_text (codes "://") s) _ h in
    let scheme = to_lower (take n s) in
    let (known, e) = guard-eq-some (equal scheme http || equal scheme https) _ kept in
    ground (arith, equal_iff scheme http, equal_iff scheme https)

split_authority-ends : (s : Bytes) → none_of is_delimiter (split_authority s).0 ≡ true
unfolding split_authority
split_authority-ends s = elim (Option-cases (find_if is_delimiter s)) [
  | inl e ↦ rw (e, split_authority) (find_if_missing is_delimiter s e)
  | inr (n, e) ↦ rw (e, split_authority) (find_if_before is_delimiter s n e).0
]

strip_userinfo-keeps :
    (q : ℕ → Bool) (s : Bytes) → none_of q s ≡ true → none_of q (strip_userinfo s) ≡ true
unfolding strip_userinfo
strip_userinfo-keeps q s h = elim (Option-cases (find_last_if is_at s)) [
  | inl e ↦ rw (e, strip_userinfo) h
  | inr (n, e) ↦ rw (e, strip_userinfo) (none_of-drop q (suc n) s h)
]

strip_userinfo-no_user : (s : Bytes) → none_of is_at (strip_userinfo s) ≡ true
unfolding strip_userinfo
strip_userinfo-no_user s = elim (Option-cases (find_last_if is_at s)) [
  | inl e ↦ rw (e, strip_userinfo) (find_last_if_missing is_at s e)
  | inr (n, e) ↦ rw (e, strip_userinfo) (find_last_if_after is_at s n e).0
]

split_name-keeps :
    (q : ℕ → Bool) (s : Bytes) → none_of q s ≡ true → none_of q (split_name s).0 ≡ true
unfolding split_name
split_name-keeps q s h = elim (Option-cases (find_last_if is_colon s)) [
  | inl e ↦ rw (e, split_name) h
  | inr (n, e) ↦ rw (e, split_name) (none_of-take q n s h)
]

split_literal-keeps :
    (q : ℕ → Bool) (s : Bytes) (p : Bytes × Bytes)
    → none_of q s ≡ true
    → split_literal s ≡ some p
    → none_of q p.0 ≡ true
unfolding split_literal
split_literal-keeps q s p h e = elim (Option-cases (find_if (λ c. c == b']') s)) [
  | inl no_bracket ↦ cc (rw (no_bracket, split_literal) at e)
  | inr (n, found) ↦ ground (arith, rw (found, split_literal) at e, none_of-take q n s h)
]

split_host-keeps :
    (q : ℕ → Bool) (s : Bytes) (p : Bytes × Bytes)
    → none_of q s ≡ true
    → split_host s ≡ some p
    → none_of q p.0 ≡ true
unfolding split_host
split_host-keeps q [] p h e = cc
split_host-keeps q (c ∷ s) p h e =
    ground (arith, split_literal-keeps q s p, split_name-keeps q (c ∷ s) h)

add_slash-slash : (s : Bytes) → (rest : Bytes) × (add_slash s ≡ b'/' ∷ rest)
unfolding add_slash
add_slash-slash [] = ([], refl)
add_slash-slash (c ∷ s) = elim (Bool-cases (c == b'/')) [
  | inl e ↦ (s, ground arith)
  | inr e ↦ (c ∷ s, ground arith)
]

cut_fragment-no_fragment : (s : Bytes) → none_of is_hash (cut_fragment s) ≡ true
unfolding cut_fragment
cut_fragment-no_fragment s = elim (Option-cases (find_if is_hash s)) [
  | inl e ↦ rw (e, cut_fragment) (find_if_missing is_hash s e)
  | inr (n, e) ↦ rw (e, cut_fragment) (find_if_before is_hash s n e).0
]

cut_fragment-slash :
    (s rest : Bytes) → s ≡ b'/' ∷ rest → (rest' : Bytes) × (cut_fragment s ≡ b'/' ∷ rest')
unfolding cut_fragment find_if
cut_fragment-slash s rest e = elim (Option-cases (find_if is_hash rest)) [
  | inl missing ↦ (rest, rw (e, missing) refl)
  | inr (n, found) ↦ (take n rest, rw (e, found) refl)
]

default_port-digits : (s : Bytes) → (all is_digit (default_port s) ≡ true) × (default_port s ≢ [])
default_port-digits s = ground arith

abbrev chosen_port : Bytes → Bytes → Bytes
chosen_port scheme written = if is_empty written then default_port scheme else written

chosen_port-ne-nil : (scheme written : Bytes) → chosen_port scheme written ≢ []
chosen_port-ne-nil scheme [] = (default_port-digits scheme).1
chosen_port-ne-nil scheme (c ∷ s) = λ e. cc

finish_url-IsParsed :
    (scheme target : Bytes) (named : Bytes × Bytes) (u : Url)
    → (scheme ≡ http) ⊎ (scheme ≡ https)
    → none_of is_delimiter named.0 ≡ true
    → none_of is_at named.0 ≡ true
    → finish_url scheme target named ≡ some u
    → IsParsed u
unfolding finish_url
finish_url-IsParsed scheme target named u known ends user h =
    let (a, x) = guard-eq-some (not (is_empty named.0)) _ h in
    let (digits, y) = guard-eq-some (all is_digit (chosen_port scheme named.1)) _ x in
    subst IsParsed (some_inj y) (record {
      scheme_known = known;
      host_ne_nil = λ e. ground arith;
      host_ends = ends;
      host_no_user = user;
      port_ne_nil = chosen_port-ne-nil scheme named.1;
      port_digits = digits;
      target_slash = cut_fragment-slash (add_slash target) _ (add_slash-slash target).1;
      target_no_fragment = cut_fragment-no_fragment (add_slash target);
    })

parse_rest-IsParsed :
    (scheme rest : Bytes) (u : Url)
    → (scheme ≡ http) ⊎ (scheme ≡ https)
    → parse_rest scheme rest ≡ some u
    → IsParsed u
unfolding parse_rest
parse_rest-IsParsed scheme rest u known h =
    let authority : Bytes = strip_userinfo (split_authority rest).0 in
    let (named, e, kept) = >>=-eq-some (split_host authority) _ h in
    finish_url-IsParsed scheme (split_authority rest).1 named u known
      (split_host-keeps is_delimiter authority named
        (strip_userinfo-keeps is_delimiter (split_authority rest).0 (split_authority-ends rest)) e)
      (split_host-keeps is_at authority named (strip_userinfo-no_user (split_authority rest).0) e)
      kept

-- Every URL that `parseUrl` accepts has the scheme http or https; a host that is not empty and
-- holds none of '/', '?', '#' and '@'; a port that is one or more decimal digits; and a target that
-- begins with '/' and holds no '#'.
pub parse_url-IsParsed : (text : Bytes) (u : Url) → parse_url text ≡ some u → IsParsed u
unfolding parse_url
parse_url-IsParsed text u h =
    let (parts, e, kept) = >>=-eq-some (split_scheme (trim text)) _ h in
    parse_rest-IsParsed parts.0 parts.1 u (split_scheme-known (trim text) parts e) kept
