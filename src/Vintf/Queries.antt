-- ===== src/Vintf/Queries.antt =====
-- The questions that servicemanager puts to a manifest.
use binder.Prelude.{
  Bool, true, false, ◌&&◌, List, [], ◌∷◌, ◌++◌, Option, some, ◌≡◌, ◌↔◌, refl, sym, ap, ◌∙◌, arith,
  Bool-cases, append-nil, append_assoc, inl, inr, if◌then◌else◌,
}
use binder.Text.{Bytes, equal}
use binder.Text.Search.{equal_iff}
use binder.Vintf.{
  ManifestInstance, is_of, has_aidl_instance, get_aidl_instances, for_each_instance, load_from,
}
use binder.Vintf.Loads.{Entry, AllEntries, file_text, declared, load_from-file_text}

abbrev named : Bytes → Bytes → Bytes → Option Bytes → ManifestInstance
named package_name interface name apex = record {
  package_name = package_name;
  interface = interface;
  instance_name = name;
  updatable_via_apex = apex;
}

-- An instance of these names stands in the manifest.
abbrev pub Declares : List ManifestInstance → Bytes → Bytes → Bytes → Type 0
Declares manifest package_name interface name =
    (apex : Option Bytes) × (front back : List ManifestInstance) × (manifest
      ≡ front ++ (named package_name interface name apex ∷ back))

equal_refl : (s : Bytes) → equal s s ≡ true
equal_refl s = (equal_iff s s).1 refl

Declares-cons :
    (mi : ManifestInstance) (manifest : List ManifestInstance) (p i n : Bytes)
    → Declares manifest p i n
    → Declares (mi ∷ manifest) p i n
Declares-cons mi manifest p i n (apex, front, back, e) = (apex, mi ∷ front, back, ap (◌∷◌ mi) e)

abbrev is_named : Bytes → Bytes → Bytes → ManifestInstance → Bool
is_named p i n mi = is_of p i mi && equal mi.instance_name n

is_named-eq :
    (p i n : Bytes) (mi : ManifestInstance)
    → is_named p i n mi ≡ true
    → mi ≡ named p i n mi.updatable_via_apex
is_named-eq p i n mi h =
    let e : equal mi.package_name p ≡ true = ground arith in
    let f : equal mi.interface i ≡ true = ground arith in
    let g : equal mi.instance_name n ≡ true = ground arith in
    ap (λ x. named x mi.interface mi.instance_name mi.updatable_via_apex)
      ((equal_iff mi.package_name p).0 e)
    ∙ ap (λ x. named p x mi.instance_name mi.updatable_via_apex) ((equal_iff mi.interface i).0 f)
    ∙ ap (λ x. named p i x mi.updatable_via_apex) ((equal_iff mi.instance_name n).0 g)

has_aidl_instance-cons :
    (mi : ManifestInstance) (manifest : List ManifestInstance) (p i n : Bytes) (b : Bool)
    → is_named p i n mi ≡ b
    → has_aidl_instance (mi ∷ manifest) p i n
      ≡ (if b then true else has_aidl_instance manifest p i n)
unfolding has_aidl_instance
has_aidl_instance-cons mi manifest p i n b h =
    ap (λ x. if x then true else has_aidl_instance manifest p i n) h

has_aidl_instance-Declares :
    (manifest : List ManifestInstance) (p i n : Bytes)
    → has_aidl_instance manifest p i n ≡ true
    → Declares manifest p i n
unfolding has_aidl_instance
has_aidl_instance-Declares [] p i n h = absurd (cc)
has_aidl_instance-Declares (mi ∷ manifest) p i n h = elim (Bool-cases (is_named p i n mi)) [
  | inl e ↦ (
    mi.updatable_via_apex,
    [],
    manifest,
    ap (λ (x : ManifestInstance). x ∷ manifest) (is_named-eq p i n mi e),
  )
  | inr e ↦ Declares-cons mi manifest p i n (
      has_aidl_instance-Declares manifest p i n
        (sym (has_aidl_instance-cons mi manifest p i n false e) ∙ h))
]

Declares-has_aidl_instance :
    (front back : List ManifestInstance) (p i n : Bytes) (apex : Option Bytes)
    → has_aidl_instance (front ++ (named p i n apex ∷ back)) p i n ≡ true
Declares-has_aidl_instance [] back p i n apex =
    let same : is_named p i n (named p i n apex) ≡ true =
      rw (equal_refl p, equal_refl i, equal_refl n) refl in
    has_aidl_instance-cons (named p i n apex) back p i n true same
Declares-has_aidl_instance (mi ∷ front) back p i n apex = elim (Bool-cases (is_named p i n mi)) [
  | inl e ↦ has_aidl_instance-cons mi (front ++ (named p i n apex ∷ back)) p i n true e
  | inr e ↦
      has_aidl_instance-cons mi (front ++ (named p i n apex ∷ back)) p i n false e
      ∙ Declares-has_aidl_instance front back p i n apex
]

-- An instance is declared exactly if the manifest file has a line for it, wherever that line stands
-- and whatever APEX it names.
pub has_aidl_instance-file_text :
    (entries : List Entry) (p i n : Bytes)
    → AllEntries entries
    → (has_aidl_instance (load_from (some (file_text entries))) p i n ≡ true)
      ↔ Declares (declared entries) p i n
has_aidl_instance-file_text entries p i n h = rw (load_from-file_text entries h) (
  has_aidl_instance-Declares (declared entries) p i n,
  λ (apex, front, back, e).
      ap (λ m. has_aidl_instance m p i n) e ∙ Declares-has_aidl_instance front back p i n apex,
)

abbrev pub has_name : Bytes → List Bytes → Bool
has_name n [] = false
has_name n (x ∷ names) = let rest = has_name n names in if equal x n then true else rest

-- `hasAidlInstance` and `getAidlInstances` agree: an instance is there exactly if its name is among
-- the names of its interface.
pub get_aidl_instances-has_name :
    (manifest : List ManifestInstance) (p i n : Bytes)
    → has_name n (get_aidl_instances manifest p i) ≡ has_aidl_instance manifest p i n
unfolding get_aidl_instances has_aidl_instance
get_aidl_instances-has_name [] p i n = refl
get_aidl_instances-has_name (mi ∷ manifest) p i n = elim (Bool-cases (is_of p i mi)) [
  | inl e ↦ (elim (Bool-cases (equal mi.instance_name n)) [
    | inl f ↦ rw (e, f) refl
    | inr f ↦ rw (e, f) (get_aidl_instances-has_name manifest p i n)
  ])
  | inr e ↦ rw e (get_aidl_instances-has_name manifest p i n)
]

-- A caller of `forEachInstance` that gathers the names of an interface and never stops.
abbrev gather : Bytes → Bytes → List Bytes → ManifestInstance → List Bytes × Bool
gather p i names mi = (if is_of p i mi then names ++ (mi.instance_name ∷ []) else names, false)

-- `forEachInstance` visits every instance in its order where it is not stopped: what such a caller
-- gathers is what `getAidlInstances` gives.
for_each_instance-gather :
    (manifest : List ManifestInstance) (p i : Bytes) (names : List Bytes)
    → for_each_instance (gather p i) manifest names ≡ names ++ get_aidl_instances manifest p i
unfolding for_each_instance get_aidl_instances
for_each_instance-gather [] p i names = sym (append-nil names)
for_each_instance-gather (mi ∷ manifest) p i names = elim (Bool-cases (is_of p i mi)) [
  | inl e ↦ rw e (
      for_each_instance-gather manifest p i (names ++ (mi.instance_name ∷ []))
      ∙ append_assoc names (mi.instance_name ∷ []) (get_aidl_instances manifest p i))
  | inr e ↦ rw e (for_each_instance-gather manifest p i names)
]
