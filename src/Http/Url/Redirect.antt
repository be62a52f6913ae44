-- ===== src/Http/Url/Redirect.antt =====
-- Where a redirect leads.
use binder.Prelude.{
  ==_iff, ℕ, suc, Bool, true, false, [], ◌∷◌, ◌++◌, length, none, some, ◌≡◌, ◌≢◌, ◌⊎◌, refl, sym,
  ap, ◌∙◌, subst, arith, append_assoc, ◌==◌, take, Option-cases, Bool-cases, inl, inr,
}
use binder.Text.{Bytes, codes, trim, find_text, find_last_if, drop_end_spaces}
use binder.Text.Search.{none_of, none_of-append, none_of-take, find_last_if-append}
use binder.Text.Trim.{drop_end_spaces-append, drop_end_spaces-trim}
use binder.Http.Url.{Url, directory, redirect_target, resolve_redirect, to_string, parse_url}
use binder.Http.Url.Parsed.{is_hash}
use binder.Http.Url.RoundTrip.{IsUrl, parse_url-to_string}

abbrev is_slash : ℕ → Bool
is_slash c = c == b'/'

directory-slash : (t : Bytes) → (rest : Bytes) × (directory (b'/' ∷ t) ≡ b'/' ∷ rest)
unfolding find_last_if
directory-slash t = elim (Option-cases (find_last_if is_slash t)) [
  | inl e ↦ ([], ground arith)
  | inr (n, e) ↦ (take (suc n) t, ground arith)
]

redirect_target-slash :
    (base location rest : Bytes)
    → base ≡ b'/' ∷ rest
    → location ≢ []
    → (rest' : Bytes) × (redirect_target base location ≡ b'/' ∷ rest')
redirect_target-slash base [] rest e ne = absurd (ne refl)
redirect_target-slash base (c ∷ location) rest e ne =
    let (dir, d) = directory-slash rest in
    elim (Bool-cases (c == b'/')) [
      | inl slash ↦ (location, ground arith)
      | inr other ↦
          (dir ++ (c ∷ location), rw (other, e) (ap (λ (x : Bytes). x ++ (c ∷ location)) d))
    ]

directory-none_of :
    (q : ℕ → Bool) (t : Bytes)
    → none_of q t ≡ true
    → q b'/' ≡ false
    → none_of q (directory t) ≡ true
directory-none_of q t h slash = elim (Option-cases (find_last_if is_slash t)) [
  | inl e ↦ rw (e, directory, slash)
  | inr (n, e) ↦ rw (e, directory) (none_of-take q (suc n) t h)
]

redirect_target-none_of :
    (q : ℕ → Bool) (base location : Bytes)
    → none_of q base ≡ true
    → none_of q location ≡ true
    → q b'/' ≡ false
    → none_of q (redirect_target base location) ≡ true
redirect_target-none_of q base [] h k slash = refl
redirect_target-none_of q base (c ∷ location) h k slash =
    let joined =
      none_of-append q (directory base) (c ∷ location) (directory-none_of q base h slash) k in
    ground (arith, joined)

redirect_target_end :
    (base location : Bytes)
    → drop_end_spaces location ≡ location
    → location ≢ []
    → drop_end_spaces (redirect_target base location) ≡ redirect_target base location
redirect_target_end base [] h ne = absurd (ne refl)
redirect_target_end base (c ∷ location) h ne =
    ground (arith, drop_end_spaces-append (directory base) (c ∷ location) h ne)

-- What a location with no scheme names on a base: itself where it starts with a slash, and otherwise
-- the location in place of what stands behind the last slash of the base.
pub data IsTarget (base location : Bytes) : Bytes → Type 0 where
  absolute : (rest : Bytes) → location ≡ b'/' ∷ rest → IsTarget base location location
  relative :
      (c : ℕ) (rest dir name : Bytes)
      → location ≡ c ∷ rest
      → (c == b'/') ≡ false
      → base ≡ dir ++ (b'/' ∷ name)
      → none_of is_slash name ≡ true
      → IsTarget base location (dir ++ (b'/' ∷ location))

-- A text has no slash, or a last one.
last_slash :
    (s : Bytes)
    → (none_of is_slash s ≡ true)
      ⊎ ((dir name : Bytes) × (s ≡ dir ++ (b'/' ∷ name)) × (none_of is_slash name ≡ true))
last_slash [] = inl refl
last_slash (c ∷ s) = elim (last_slash s) [
  | inr (dir, name, e, plain) ↦ inr (c ∷ dir, name, ap (◌∷◌ c) e, plain)
  | inl plain ↦ (elim (Bool-cases (c == b'/')) [
    | inl slash ↦ inr ([], s, ap (λ (x : ℕ). x ∷ s) ((==_iff c b'/').0 slash), plain)
    | inr other ↦ inl (ground (arith, plain))
  ])
]

take_through :
    (dir name : Bytes) (c : ℕ) → take (suc (length dir)) (dir ++ (c ∷ name)) ≡ dir ++ (c ∷ [])
take_through [] name c = refl
take_through (d ∷ dir) name c = ap (◌∷◌ d) (take_through dir name c)

directory_lem :
    (dir name : Bytes)
    → none_of is_slash name ≡ true
    → directory (dir ++ (b'/' ∷ name)) ≡ dir ++ (b'/' ∷ [])
directory_lem dir name plain =
    rw (directory, find_last_if-append is_slash dir name b'/' plain refl)
      (take_through dir name b'/')

redirect_target-IsTarget :
    (base location rest : Bytes)
    → base ≡ b'/' ∷ rest
    → location ≢ []
    → IsTarget base location (redirect_target base location)
redirect_target-IsTarget base [] rest e ne = absurd (ne refl)
redirect_target-IsTarget base (c ∷ location) rest e ne = elim (Bool-cases (c == b'/')) [
  | inl slash ↦
      rw slash (absolute location (ap (λ (x : ℕ). x ∷ location) ((==_iff c b'/').0 slash)))
  | inr other ↦ rw other (elim (last_slash base) [
    | inl plain ↦ absurd (ground (arith, subst (λ b. none_of is_slash b ≡ true) e plain))
    | inr (dir, name, splits, plain) ↦
        subst (IsTarget base (c ∷ location))
          (sym (
            ap (λ b. directory b ++ (c ∷ location)) splits
            ∙ ap (λ (d : Bytes). d ++ (c ∷ location)) (directory_lem dir name plain)
            ∙ append_assoc dir (b'/' ∷ []) (c ∷ location)))
          (relative c location dir name refl other splits plain)
  ])
]

-- The URL that a redirect with no scheme of its own leads to.
abbrev redirected : Url → Bytes → Url
redirected base location = record base { target = redirect_target base.target (trim location) }

redirected-IsUrl :
    (base : Url) (location : Bytes)
    → IsUrl base
    → trim location ≢ []
    → none_of is_hash (trim location) ≡ true
    → IsUrl (redirected base location)
redirected-IsUrl base location v ne hash = record {
  scheme_known = v.scheme_known;
  host_ne_nil = v.host_ne_nil;
  host_kind = v.host_kind;
  host_ends = v.host_ends;
  host_no_user = v.host_no_user;
  port_ne_nil = v.port_ne_nil;
  port_digits = v.port_digits;
  target_slash =
      redirect_target-slash base.target (trim location) v.target_slash.0 v.target_slash.1 ne;
  target_no_fragment =
      redirect_target-none_of is_hash base.target (trim location) v.target_no_fragment hash refl;
  target_end = redirect_target_end base.target (trim location) (drop_end_spaces-trim location) ne;
}

resolve_redirect-redirected :
    (base : Url) (location : Bytes)
    → trim location ≢ []
    → find_text (codes "://") (trim location) ≡ none
    → resolve_redirect base location ≡ to_string (redirected base location)
unfolding resolve_redirect
resolve_redirect-redirected base location ne scheme = ground arith

-- A redirect whose location holds no "://" stays with the server that sent it: from a well-formed
-- base, and a location that is not blank and has no fragment, the next hop parses to the base's
-- scheme, host and port. Its target is the trimmed location where that starts with a slash; otherwise
-- it is the base's target with the trimmed location in place of what stands behind its last slash,
-- even where that slash stands in a query.
pub resolve_redirect_stays :
    (base : Url) (location : Bytes)
    → IsUrl base
    → trim location ≢ []
    → none_of is_hash (trim location) ≡ true
    → find_text (codes "://") (trim location) ≡ none
    → (target : Bytes) × IsTarget base.target (trim location) target
      × (parse_url (resolve_redirect base location) ≡ some (record base { target = target }))
resolve_redirect_stays base location v ne hash scheme = (
  redirect_target base.target (trim location),
  redirect_target-IsTarget base.target (trim location) v.target_slash.0 v.target_slash.1 ne,
  rw (resolve_redirect-redirected base location ne scheme)
      (parse_url-to_string (redirected base location) (redirected-IsUrl base location v ne hash)),
)
