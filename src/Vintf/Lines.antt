-- ===== src/Vintf/Lines.antt =====
-- One line of a manifest, written and read.
use binder.Prelude.{true, [], ◌∷◌, ◌++◌, Option, none, some, ◌≡◌, refl, append-nil}
use binder.Text.{Bytes, find_if, find_last_if}
use binder.Text.Search.{
  none_of, none_of-append, find_if-append, find_if-none, find_last_if-append, take_front,
  drop_front_suc,
}
use binder.Vintf.{ManifestInstance, is_slash, is_at, is_dot, split_apex, split_name, parse_line}

abbrev pub apex_text : Option Bytes → Bytes
apex_text none = []
apex_text (some apex) = b'@' ∷ apex

abbrev pub fq_text : ManifestInstance → Bytes
fq_text mi = mi.package_name ++ (b'.' ∷ mi.interface)

abbrev pub rest_text : ManifestInstance → Bytes
rest_text mi = mi.instance_name ++ apex_text mi.updatable_via_apex

-- "some.package.IFoo/default@apex".
abbrev pub line_text : ManifestInstance → Bytes
line_text mi = fq_text mi ++ (b'/' ∷ rest_text mi)

pub record WellNamed (mi : ManifestInstance) : Type 0 where
  pub package_no_slash : none_of is_slash mi.package_name ≡ true
  pub interface_no_slash : none_of is_slash mi.interface ≡ true
  pub interface_no_dot : none_of is_dot mi.interface ≡ true
  pub name_no_at : none_of is_at mi.instance_name ≡ true

split_apex-rest :
    (name : Bytes) (apex : Option Bytes)
    → none_of is_at name ≡ true
    → split_apex (name ++ apex_text apex) (find_if is_at (name ++ apex_text apex)) ≡ (name, apex)
split_apex-rest name none h = rw (append-nil name, find_if-none is_at name h)
split_apex-rest name (some apex) h =
    rw
      (
        find_if-append is_at name apex b'@' h refl,
        take_front name (b'@' ∷ apex),
        drop_front_suc name apex b'@',
      )
      refl

split_name-fq :
    (package_name interface name : Bytes) (apex : Option Bytes)
    → none_of is_dot interface ≡ true
    → let fq_name = package_name ++ (b'.' ∷ interface) in
      split_name fq_name (name, apex) (find_last_if is_dot fq_name)
      ≡ some (record {
        package_name = package_name;
        interface = interface;
        instance_name = name;
        updatable_via_apex = apex;
      })
split_name-fq package_name interface name apex h =
    rw
      (
        find_last_if-append is_dot package_name interface b'.' h refl,
        take_front package_name (b'.' ∷ interface),
        drop_front_suc package_name interface b'.',
      )
      refl

-- A well-named instance is read back from its line, field by field.
pub parse_line-line_text :
    (mi : ManifestInstance) → WellNamed mi → parse_line (line_text mi) ≡ some mi
unfolding parse_line
parse_line-line_text mi h =
    let no_slash =
      none_of-append is_slash mi.package_name (b'.' ∷ mi.interface) h.package_no_slash
        h.interface_no_slash in
    rw
      (
        find_if-append is_slash (fq_text mi) (rest_text mi) b'/' no_slash refl,
        take_front (fq_text mi) (b'/' ∷ rest_text mi),
        drop_front_suc (fq_text mi) (rest_text mi) b'/',
        split_apex-rest mi.instance_name mi.updatable_via_apex h.name_no_at,
      )
      (split_name-fq mi.package_name mi.interface mi.instance_name mi.updatable_via_apex
        h.interface_no_dot)
