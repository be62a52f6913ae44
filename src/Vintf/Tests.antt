-- ===== src/Vintf/Tests.antt =====
-- The theorems on manifests at a fixed file.
use binder.Prelude.{true, [], ◌∷◌, List, some, ◌≡◌, ◌↔◌, refl}
use binder.Text.{codes}
use binder.Vintf.{ManifestInstance, parse_line, load_from, has_aidl_instance, get_aidl_instances}
use binder.Vintf.Lines.{line_text, WellNamed, parse_line-line_text}
use binder.Vintf.Loads.{
  Entry, blank_line, comment_line, instance_line, AllEntries, file_text, load_from-file_text,
}
use binder.Vintf.Queries.{
  Declares, has_name, has_aidl_instance-file_text, get_aidl_instances-has_name,
}

abbrev foo : ManifestInstance
foo = record {
  package_name = codes "some.package";
  interface = codes "IFoo";
  instance_name = codes "default";
  updatable_via_apex = some (codes "com.some.apex");
}

foo-WellNamed : WellNamed foo
foo-WellNamed = record {
  package_no_slash = refl;
  interface_no_slash = refl;
  interface_no_dot = refl;
  name_no_at = refl;
}

abbrev sample_file : List Entry
sample_file =
    comment_line (codes " ") (codes " instances")
    ∷ blank_line []
    ∷ instance_line (codes "  ") foo (codes " ")
    ∷ []

sample_file-AllEntries : AllEntries sample_file
sample_file-AllEntries = (
  (refl, refl, refl),
  ((refl, refl), (((refl, refl), (refl, refl), (foo-WellNamed, refl, refl)), tt)),
)

parse_line-line_text_example : parse_line (line_text foo) ≡ some foo
parse_line-line_text_example = parse_line-line_text foo foo-WellNamed

load_from-file_text_example : load_from (some (file_text sample_file)) ≡ foo ∷ []
load_from-file_text_example = load_from-file_text sample_file sample_file-AllEntries

has_aidl_instance-file_text_example :
    (has_aidl_instance
        (load_from (some (file_text sample_file)))
        (codes "some.package")
        (codes "IFoo")
        (codes "default")
      ≡ true)
    ↔ Declares (foo ∷ []) (codes "some.package") (codes "IFoo") (codes "default")
has_aidl_instance-file_text_example =
    has_aidl_instance-file_text sample_file (codes "some.package") (codes "IFoo") (codes "default")
      sample_file-AllEntries

get_aidl_instances-has_name_example :
    has_name (codes "default") (get_aidl_instances (foo ∷ []) (codes "some.package") (codes "IFoo"))
    ≡ has_aidl_instance (foo ∷ []) (codes "some.package") (codes "IFoo") (codes "default")
get_aidl_instances-has_name_example =
    get_aidl_instances-has_name (foo ∷ []) (codes "some.package") (codes "IFoo") (codes "default")
