-- ===== src/Binderfs/Tests.antt =====
-- The theorem on the tool at a kernel that keeps a list of devices.
use binder.Prelude.{
  Bool, true, false, ◌||◌, List, [], ◌∷◌, if◌then◌else◌, ◌≡◌, refl, arith, Bool-cases, inl, inr,
}
use binder.Text.{Bytes, codes, equal}
use binder.Text.Search.{equal_iff}
use binder.Binderfs.{Added, created, existing, binderfs_main, add_device, add_devices}
use binder.Binderfs.Devices.{IsBinderfs, AllThere, binderfs_main-AllThere}

abbrev has_device : List Bytes → Bytes → Bool
has_device [] name = false
has_device (x ∷ devices) name = equal x name || has_device devices name

abbrev add_new : List Bytes → Bytes → List Bytes × Added
add_new devices name =
    if has_device devices name then (devices, existing) else (name ∷ devices, created 1 2)

add_new-IsBinderfs : IsBinderfs add_new has_device
add_new-IsBinderfs = record {
  stays = λ k name other h. elim (Bool-cases (has_device k name)) [
    | inl e ↦ rw e h
    | inr e ↦ rw (e, h) (or_true (equal name other))
  ];
  creates = λ k name major minor. elim (Bool-cases (has_device k name)) [
    | inl e ↦ rw e (λ h. cc)
    | inr e ↦ rw (e, (equal_iff name name).1 refl) (λ h. refl)
  ];
  exists = λ k name. elim (Bool-cases (has_device k name)) [
    | inl e ↦ rw e (λ h. e)
    | inr e ↦ rw e (λ h. cc)
  ];
}
  where
    or_true : (b : Bool) → (b || true) ≡ true
    or_true b = ground arith

-- The first device is there already, and the second one is made.
binderfs_main-run :
    (binderfs_main add_new
      (λ path. true)
      (codes "/dev/binderfs" ∷ codes "binder" ∷ codes "hwbinder" ∷ [])
      (codes "binder" ∷ [])).code
    ≡ 0
unfolding binderfs_main add_devices add_device equal
binderfs_main-run = refl

binderfs_main-AllThere_example :
    let done =
      binderfs_main add_new
        (λ path. true)
        (codes "/dev/binderfs" ∷ codes "binder" ∷ codes "hwbinder" ∷ [])
        (codes "binder" ∷ []) in
    ((other : Bytes)
      → has_device (codes "binder" ∷ []) other ≡ true
      → has_device done.kernel other ≡ true)
    × (done.code ≡ 0 → AllThere has_device done.kernel (codes "binder" ∷ codes "hwbinder" ∷ []))
binderfs_main-AllThere_example =
    binderfs_main-AllThere add_new-IsBinderfs (λ path. true) (codes "/dev/binderfs")
      (codes "binder" ∷ codes "hwbinder" ∷ []) (codes "binder" ∷ [])
