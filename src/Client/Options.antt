-- ===== src/Client/Options.antt =====
-- The options of the client: `parseArgs`, `fileNameFromUrl` and `absolutePath` of client/download.cpp.
--
-- The working directory is a parameter: none where getcwd fails.
pub mod Destination
use binder.Prelude.{
  ℕ, zero, suc, ◌+◌, ◌-◌, Bool, true, false, ◌||◌, List, [], ◌∷◌, ◌++◌, ◌==◌, if◌then◌else◌, Option,
  none, some, take, drop, length, is_empty, ℤ, pos,
}
use binder.Text.{Bytes, codes, equal, find_if, find_last_if, starts_with, find_text}
use binder.Text.Number.{atoi}

pub record Options : Type 0 where
  pub url : Bytes
  pub dest_path : Bytes
  pub cancel_after_ms : ℤ
  pub quiet : Bool

abbrev pub is_slash : ℕ → Bool
is_slash c = c == b'/'

abbrev pub is_query : ℕ → Bool
is_query c = c == b'?' || c == b'#'

-- `start = url.find("://")`, past it, and 0 without one.
abbrev pub after_scheme : Bytes → Bytes
after_scheme url = elim (find_text (codes "://") url) [ none ↦ url | some n ↦ drop (n + 3) url ]

abbrev pub before_query : Bytes → Bytes
before_query s = elim (find_if is_query s) [ none ↦ s | some n ↦ take n s ]

abbrev pub last_part : Bytes → Option ℕ → Bytes
last_part path none = []
last_part path (some slash) = drop (suc slash) path

abbrev pub or_default : Bytes → Bytes
or_default name = if is_empty name then codes "download.bin" else name

unfoldable pub file_name_from_url : Bytes → Bytes
file_name_from_url url =
    let path = before_query (after_scheme url) in
    or_default (last_part path (find_last_if is_slash path))

unfoldable pub absolute_path : Option Bytes → Bytes → Bytes
absolute_path none path = path
absolute_path (some cwd) [] = cwd ++ codes "/"
absolute_path (some cwd) (c ∷ path) =
    if is_slash c then c ∷ path else cwd ++ (codes "/" ++ (c ∷ path))

abbrev pub default_url : Bytes
default_url = codes "https://proof.ovh.net/files/10Mb.dat"

abbrev pub new_options : Options
new_options = record { url = []; dest_path = []; cancel_after_ms = pos 0; quiet = false }

-- One argument; none for an option or an argument that is not expected.
unfoldable pub parse_arg : Bytes → Options → Option Options
parse_arg arg options =
    if equal arg (codes "--quiet")
    then some (record options { quiet = true })
    else if starts_with (codes "--cancel-after=") arg
    then some (record options { cancel_after_ms = atoi (drop 15 arg) })
    else if starts_with (codes "--") arg
    then none
    else if is_empty options.url
    then some (record options { url = arg })
    else if is_empty options.dest_path
    then some (record options { dest_path = arg })
    else none

abbrev pub then_args : (Options → Option Options) → Option Options → Option Options
then_args next none = none
then_args next (some options) = next options

unfoldable pub parse_arg_list : List Bytes → Options → Option Options
parse_arg_list [] options = some options
parse_arg_list (arg ∷ args) options =
    then_args (λ options'. parse_arg_list args options') (parse_arg arg options)

abbrev pub default_dest : Options → Options
default_dest options =
    if is_empty options.dest_path
    then record options { dest_path = codes "downloads/" ++ file_name_from_url options.url }
    else options

abbrev pub with_defaults : Options → Options
with_defaults options =
    default_dest (if is_empty options.url then record options { url = default_url } else options)

abbrev pub finish_options : Option Bytes → Option Options → Option Options
finish_options cwd none = none
finish_options cwd (some options) =
    let complete = with_defaults options in
    some (record complete { dest_path = absolute_path cwd complete.dest_path })

-- `argv[1]` and so on.
unfoldable pub parse_args : Option Bytes → List Bytes → Option Options
parse_args cwd args = finish_options cwd (parse_arg_list args new_options)
