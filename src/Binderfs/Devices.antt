-- ===== src/Binderfs/Devices.antt =====
-- Which devices there are when the tool has run.
use binder.Prelude.{
  ℕ, ◌≤◌, Bool, true, false, List, [], ◌∷◌, ◌==◌, ltb, length, ◌≡◌, refl, ap, subst, arith,
  Bool-cases, inl, inr,
}
use binder.Text.{Bytes}
use binder.Binderfs.{
  max_name, Added, created, existing, refused, Run, control_path, after_add, add_device,
  add_devices, with_control, binderfs_main,
}

-- What the code relies on of BINDER_CTL_ADD: the device is there when it has been created and when it
-- is said to exist, and no device goes.
pub record IsBinderfs {ℓ} {K : Type ℓ} (add : K → Bytes → K × Added) (has : K → Bytes → Bool)
    : Type ℓ where
  pub stays : (k : K) (name other : Bytes) → has k other ≡ true → has (add k name).0 other ≡ true
  pub creates :
      (k : K) (name : Bytes) (major minor : ℕ)
      → (add k name).1 ≡ created major minor
      → has (add k name).0 name ≡ true
  pub exists : (k : K) (name : Bytes) → (add k name).1 ≡ existing → has (add k name).0 name ≡ true

abbrev pub AllThere {ℓ} : {K : Type ℓ} → (K → Bytes → Bool) → K → List Bytes → Type 0
AllThere has k [] = Unit {0}
AllThere has k (name ∷ names) =
    ((has k name ≡ true) × (length name ≤ max_name)) × AllThere has k names

module _ {ℓ} {K : Type ℓ} {add : K → Bytes → K × Added} {has : K → Bytes → Bool}
    (fs : IsBinderfs add has) where
  -- One name has been handled: nothing has gone, and the device is there unless a failure has been
  -- counted.
  record Handles (name : Bytes) (before after : Run K) : Type ℓ where
    keeps : (other : Bytes) → has before.kernel other ≡ true → has after.kernel other ≡ true
    grows : before.failures ≤ after.failures
    there :
        after.failures ≤ before.failures → (has after.kernel name ≡ true) × (length name ≤ max_name)

  add-keeps :
      (name : Bytes) (run : Run K) (p : K × Added)
      → add run.kernel name ≡ p
      → (other : Bytes) → has run.kernel other ≡ true
      → has p.0 other ≡ true
  add-keeps name run p e other h =
      subst (λ (x : K × Added). has x.0 other ≡ true) e (fs.stays run.kernel name other h)

  after_add-Handles :
      (name : Bytes) (run : Run K) (p : K × Added)
      → length name ≤ max_name
      → add run.kernel name ≡ p
      → Handles name run (after_add add name run p)
  after_add-Handles name run (kernel, created major minor) short e = record {
    keeps = add-keeps name run _ e;
    grows = omega arith;
    there = λ h. (
      subst (λ (x : K × Added). has x.0 name ≡ true) e
          (fs.creates run.kernel name major minor (ap (λ (x : K × Added). x.1) e)),
      short,
    );
  }
  after_add-Handles name run (kernel, existing) short e = record {
    keeps = add-keeps name run _ e;
    grows = omega arith;
    there = λ h. (
      subst (λ (x : K × Added). has x.0 name ≡ true) e
          (fs.exists run.kernel name (ap (λ (x : K × Added). x.1) e)),
      short,
    );
  }
  after_add-Handles name run (kernel, refused why) short e = record {
    keeps = add-keeps name run _ e;
    grows = omega arith;
    there = λ h. absurd (omega (arith, h));
  }

  add_device-Handles : (name : Bytes) (run : Run K) → Handles name run (add_device add name run)
  unfolding add_device
  add_device-Handles name run = elim (Bool-cases (ltb max_name (length name))) [
    | inl e ↦ rw e (record {
      keeps = λ other h. h;
      grows = omega arith;
      there = λ h. absurd (omega (arith, h));
    })
    | inr e ↦ rw e (after_add-Handles name run (add run.kernel name) (ground arith) refl)
  ]

  -- All names have been handled.
  record HandlesAll (names : List Bytes) (before after : Run K) : Type ℓ where
    keeps : (other : Bytes) → has before.kernel other ≡ true → has after.kernel other ≡ true
    grows : before.failures ≤ after.failures
    there : after.failures ≤ before.failures → AllThere has after.kernel names

  add_devices-HandlesAll :
      (names : List Bytes) (run : Run K) → HandlesAll names run (add_devices add names run)
  unfolding add_devices
  add_devices-HandlesAll [] run = record {
    keeps = λ other h. h;
    grows = omega arith;
    there = λ h. tt;
  }
  add_devices-HandlesAll (name ∷ names) run =
      let first = add_device-Handles name run in
      let rest = add_devices-HandlesAll names (add_device add name run) in
      let g = first.grows in
      let g' = rest.grows in
      record {
        keeps = λ other h. rest.keeps other (first.keeps other h);
        grows = omega (arith, g, g');
        there = λ h.
            let (has_it, short) = first.there (omega (arith, h, g')) in
            ((rest.keeps name has_it, short), rest.there (omega (arith, h, g)));
      }

  -- Where BINDER_CTL_ADD does what `IsBinderfs` says of it, the tool never takes a device away;
  -- and when it exits with 0, every device that was named is there, with a name that fits, whether
  -- it has been created or was there before.
  pub binderfs_main-AllThere :
      (opens : Bytes → Bool) (mount_point : Bytes) (names : List Bytes) (kernel : K)
      → let done = binderfs_main add opens (mount_point ∷ names) kernel in
        ((other : Bytes) → has kernel other ≡ true → has done.kernel other ≡ true)
        × (done.code ≡ 0 → AllThere has done.kernel names)
  unfolding binderfs_main
  binderfs_main-AllThere opens mount_point [] kernel = (λ other h. h, λ h. tt)
  binderfs_main-AllThere opens mount_point (name ∷ names) kernel =
      go (opens (control_path mount_point))
    where
      go :
          (b : Bool)
          → let done = with_control add (name ∷ names) kernel b in
            ((other : Bytes) → has kernel other ≡ true → has done.kernel other ≡ true)
            × (done.code ≡ 0 → AllThere has done.kernel (name ∷ names))
      go false = (λ other h. h, λ h. absurd (omega (arith, h)))
      go true =
          let start : Run K = record { kernel = kernel; failures = 0; report = [] } in
          let all = add_devices-HandlesAll (name ∷ names) start in
          let run = add_devices add (name ∷ names) start in
          (
            all.keeps,
            λ h. (elim (Bool-cases (run.failures == 0)) [
              | inl e ↦ all.there (ground arith)
              | inr e ↦ absurd (ground arith)
            ]),
          )
