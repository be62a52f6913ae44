-- ===== src/Vintf.antt =====
-- The stand-in for libvintf that servicemanager is built with: compat/vintf_stub.cpp and
-- compat/include/vintf/VintfObject.h. A file is its text, and none where it cannot be opened; the
-- manifests are read once by the program, which the functions here do not count.
pub mod Lines
pub mod Loads
pub mod Queries
mod Tests
use binder.Prelude.{
  ℕ, zero, suc, ◌+◌, ◌-◌, Bool, true, false, not, ◌&&◌, ◌||◌, List, [], ◌∷◌, ◌++◌, ◌==◌, take, drop,
  is_empty, if◌then◌else◌, Option, none, some,
}
use binder.Text.{Bytes, codes, equal, find_if, find_last_if}

pub record ManifestInstance : Type 0 where
  pub package_name : Bytes
  pub interface : Bytes
  pub instance_name : Bytes
  pub updatable_via_apex : Option Bytes

abbrev pub is_blank : ℕ → Bool
is_blank c = c == b' ' || c == b'\t' || c == b'\r' || c == b'\n'

abbrev pub is_solid : ℕ → Bool
is_solid c = not (is_blank c)

-- From the first character that is no blank to the last.
abbrev pub between : Bytes → Option ℕ → Option ℕ → Bytes
between s none last = []
between s (some first) none = []
between s (some first) (some last) = take (last - first + 1) (drop first s)

unfoldable pub trim_blanks : Bytes → Bytes
trim_blanks s = between s (find_if is_solid s) (find_last_if is_solid s)

abbrev pub is_slash : ℕ → Bool
is_slash c = c == b'/'

abbrev pub is_at : ℕ → Bool
is_at c = c == b'@'

abbrev pub is_dot : ℕ → Bool
is_dot c = c == b'.'

-- The instance's name, and the APEX behind the '@'.
abbrev pub split_apex : Bytes → Option ℕ → Bytes × Option Bytes
split_apex rest none = (rest, none)
split_apex rest (some at) = (take at rest, some (drop (suc at) rest))

abbrev pub split_name : Bytes → Bytes × Option Bytes → Option ℕ → Option ManifestInstance
split_name fq_name (name, apex) none = none
split_name fq_name (name, apex) (some last_dot) = some (record {
  package_name = take last_dot fq_name;
  interface = drop (suc last_dot) fq_name;
  instance_name = name;
  updatable_via_apex = apex;
})

abbrev pub split_line : Bytes → Option ℕ → Option ManifestInstance
split_line line none = none
split_line line (some slash) =
    let fq_name = take slash line in
    let rest = drop (suc slash) line in
    split_name fq_name (split_apex rest (find_if is_at rest)) (find_last_if is_dot fq_name)

unfoldable pub parse_line : Bytes → Option ManifestInstance
parse_line line = split_line line (find_if is_slash line)

-- std::getline: the lines in front of the line feeds, and what stands behind the last if anything.
unfoldable pub get_lines : Bytes → Bytes → List Bytes
get_lines part [] = if is_empty part then [] else part ∷ []
get_lines part (c ∷ s) =
    let next = get_lines [] s in
    let more = get_lines (part ++ (c ∷ [])) s in if c == b'\n' then part ∷ next else more

abbrev pub is_comment : Bytes → Bool
is_comment [] = true
is_comment (c ∷ s) = c == b'#'

abbrev pub add_parsed : Option ManifestInstance → List ManifestInstance → List ManifestInstance
add_parsed none rest = rest
add_parsed (some mi) rest = mi ∷ rest

-- The instances of the lines, in their order.
unfoldable pub load_lines : List Bytes → List ManifestInstance
load_lines [] = []
load_lines (raw ∷ lines) =
    let line = trim_blanks raw in
    let rest = load_lines lines in
    if is_comment line then rest else add_parsed (parse_line line) rest

unfoldable pub load_from : Option Bytes → List ManifestInstance
load_from none = []
load_from (some text) = load_lines (get_lines [] text)

abbrev pub is_of : Bytes → Bytes → ManifestInstance → Bool
is_of package_name interface mi = equal mi.package_name package_name && equal mi.interface interface

unfoldable pub has_aidl_instance : List ManifestInstance → Bytes → Bytes → Bytes → Bool
has_aidl_instance [] package_name interface name = false
has_aidl_instance (mi ∷ manifest) package_name interface name =
    let rest = has_aidl_instance manifest package_name interface name in
    if is_of package_name interface mi && equal mi.instance_name name then true else rest

unfoldable pub get_aidl_instances : List ManifestInstance → Bytes → Bytes → List Bytes
get_aidl_instances [] package_name interface = []
get_aidl_instances (mi ∷ manifest) package_name interface =
    let rest = get_aidl_instances manifest package_name interface in
    if is_of package_name interface mi then mi.instance_name ∷ rest else rest

-- `func` works on the caller's state, and true stops it.
unfoldable pub for_each_instance {ℓ} :
    {S : Type ℓ} → (S → ManifestInstance → S × Bool) → List ManifestInstance → S → S
for_each_instance func [] s = s
for_each_instance func (mi ∷ manifest) s =
    let (s', stops) = func s mi in
    let rest = for_each_instance func manifest s' in if stops then s' else rest

abbrev pub device_manifest_path : Bytes
device_manifest_path = codes "/etc/binder/vintf_manifest.txt"

abbrev pub framework_manifest_path : Bytes
framework_manifest_path = codes "/etc/binder/vintf_manifest_fwk.txt"

-- By the value of kVintfManifestPathEnv.
unfoldable pub get_device_hal_manifest :
    Option Bytes → (Bytes → Option Bytes) → List ManifestInstance
get_device_hal_manifest none files = load_from (files device_manifest_path)
get_device_hal_manifest (some path) files = load_from (files path)

unfoldable pub get_framework_hal_manifest : (Bytes → Option Bytes) → List ManifestInstance
get_framework_hal_manifest files = load_from (files framework_manifest_path)
