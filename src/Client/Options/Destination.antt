-- ===== src/Client/Options/Destination.antt =====
-- Where the client puts a download.
use binder.Prelude.{
  ℕ, true, false, List, [], ◌∷◌, Option, none, some, ◌≡◌, ◌≢◌, refl, subst, arith, Bool-cases, inl,
  inr, is_empty, some_inj,
}
use binder.Text.{Bytes, find_last_if}
use binder.Text.Search.{none_of, find_last_if_after}
use binder.Client.Options.{
  Options, is_slash, after_scheme, before_query, last_part, or_default, file_name_from_url,
  absolute_path, with_defaults, default_dest, finish_options, default_url, parse_args,
  parse_arg_list, new_options,
}

or_default-IsName :
    (name : Bytes)
    → none_of is_slash name ≡ true
    → (or_default name ≢ []) × (none_of is_slash (or_default name) ≡ true)
or_default-IsName [] h = (λ e. cc, refl)
or_default-IsName (c ∷ name) h = (λ e. cc, h)

last_part_lem :
    (path : Bytes) (o : Option ℕ)
    → find_last_if is_slash path ≡ o
    → none_of is_slash (last_part path o) ≡ true
last_part_lem path none e = refl
last_part_lem path (some n) e = (find_last_if_after is_slash path n e).0

-- The name that the client makes from any URL is not empty and has no slash in it; it may be "." or
-- "..", where the last part of the URL is.
pub file_name_from_url-IsName :
    (url : Bytes)
    → (file_name_from_url url ≢ []) × (none_of is_slash (file_name_from_url url) ≡ true)
unfolding file_name_from_url
file_name_from_url-IsName url =
    let path = before_query (after_scheme url) in
    or_default-IsName (last_part path (find_last_if is_slash path))
      (last_part_lem path (find_last_if is_slash path) refl)

abbrev pub IsAbsolute : Bytes → Type 0
IsAbsolute [] = ⊥
IsAbsolute (c ∷ path) = c ≡ b'/'

absolute_path-IsAbsolute :
    (cwd path : Bytes) → IsAbsolute cwd → IsAbsolute (absolute_path (some cwd) path)
unfolding absolute_path
absolute_path-IsAbsolute [] path h = absurd h
absolute_path-IsAbsolute (d ∷ cwd) [] h = h
absolute_path-IsAbsolute (d ∷ cwd) (c ∷ path) h = elim (Bool-cases (is_slash c)) [
  | inl e ↦ rw e (ground arith)
  | inr e ↦ rw e h
]

default_dest-url : (o : Options) → (default_dest o).url ≡ o.url
default_dest-url o = elim (Bool-cases (is_empty o.dest_path)) [
  | inl e ↦ rw e refl
  | inr e ↦ rw e refl
]

is_empty_lem : (s : Bytes) → is_empty s ≡ false → s ≢ []
is_empty_lem [] h = cc
is_empty_lem (c ∷ s) h = λ e. cc

with_defaults-url : (o : Options) → (with_defaults o).url ≢ []
with_defaults-url o = elim (Bool-cases (is_empty o.url)) [
  | inl e ↦ rw (e, default_dest-url (record o { url = default_url })) (λ h. cc)
  | inr e ↦ rw (e, default_dest-url o) (is_empty_lem o.url e)
]

finish_options_lem :
    (cwd : Bytes) (o : Option Options) (options : Options)
    → IsAbsolute cwd
    → finish_options (some cwd) o ≡ some options
    → IsAbsolute options.dest_path × (options.url ≢ [])
finish_options_lem cwd none options h e = cc
finish_options_lem cwd (some o) options h e =
    subst (λ (x : Options). IsAbsolute x.dest_path × (x.url ≢ [])) (some_inj e)
      (absolute_path-IsAbsolute cwd (with_defaults o).dest_path h, with_defaults-url o)

-- Whatever the arguments are, where `parseArgs` accepts them there is a URL, and the destination that
-- is sent to the service is an absolute path, when the working directory is known and absolute.
pub parse_args-IsAbsolute :
    (cwd : Bytes) (args : List Bytes) (options : Options)
    → IsAbsolute cwd
    → parse_args (some cwd) args ≡ some options
    → IsAbsolute options.dest_path × (options.url ≢ [])
unfolding parse_args
parse_args-IsAbsolute cwd args options h e =
    finish_options_lem cwd (parse_arg_list args new_options) options h e
