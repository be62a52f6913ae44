-- ===== src/Binderfs.antt =====
-- The tool that creates binder devices, tools/binderfs_ctl.cpp.
--
-- The kernel is the parameter `K` with what BINDER_CTL_ADD does to it; names are the arguments' bytes.
pub mod Devices
mod Tests
use binder.Prelude.{
  ℕ, suc, Bool, true, false, List, [], ◌∷◌, ◌++◌, ◌==◌, ltb, length, if◌then◌else◌,
}
use binder.Text.{Bytes, codes}

-- BINDERFS_MAX_NAME of the kernel's header.
abbrev pub max_name : ℕ
max_name = 255

-- What BINDER_CTL_ADD answers: the device's numbers, EEXIST, or another error.
pub data Added : Type 0 where
  created : ℕ → ℕ → Added
  existing : Added
  refused : Bytes → Added

-- The lines of the program's report.
pub data Line : Type 0 where
  too_long add_failed created_device existing_device : Bytes → Line

pub record Run {ℓ} (K : Type ℓ) : Type ℓ where
  pub kernel : K
  pub failures : ℕ
  pub report : List Line

pub record Finished {ℓ} (K : Type ℓ) : Type ℓ where
  pub kernel : K
  pub code : ℕ
  pub report : List Line

abbrev pub control_path : Bytes → Bytes
control_path mount_point = mount_point ++ codes "/binder-control"

module _ {ℓ} {K : Type ℓ} (add : K → Bytes → K × Added) where
  abbrev pub note : Line → Run K → Run K
  note line run = record run { report = run.report ++ (line ∷ []) }

  abbrev pub fail : Line → Run K → Run K
  fail line run = record run { failures = suc run.failures; report = run.report ++ (line ∷ []) }

  abbrev pub after_add : Bytes → Run K → K × Added → Run K
  after_add name run (kernel, created major minor) =
      note (created_device name) (record run { kernel = kernel })
  after_add name run (kernel, existing) =
      note (existing_device name) (record run { kernel = kernel })
  after_add name run (kernel, refused why) = fail (add_failed name) (record run { kernel = kernel })

  -- One name: `strncpy` keeps all of it, since it fits.
  unfoldable pub add_device : Bytes → Run K → Run K
  add_device name run =
      let added = after_add name run (add run.kernel name) in
      if ltb max_name (length name) then fail (too_long name) run else added

  unfoldable pub add_devices : List Bytes → Run K → Run K
  add_devices [] run = run
  add_devices (name ∷ names) run = add_devices names (add_device name run)

  -- After the control node has been opened, or has not.
  abbrev pub with_control : List Bytes → K → Bool → Finished K
  with_control names kernel false = record { kernel = kernel; code = 1; report = [] }
  with_control names kernel true =
      let run = add_devices names (record { kernel = kernel; failures = 0; report = [] }) in
      record { kernel = run.kernel; code = if run.failures == 0 then 0 else 1; report = run.report }

  -- `argv[1]` and so on; `opens` says which files can be opened.
  unfoldable pub binderfs_main : (Bytes → Bool) → List Bytes → K → Finished K
  binderfs_main opens [] kernel = record { kernel = kernel; code = 2; report = [] }
  binderfs_main opens (mount_point ∷ []) kernel = record { kernel = kernel; code = 2; report = [] }
  binderfs_main opens (mount_point ∷ name ∷ names) kernel =
      with_control (name ∷ names) kernel (opens (control_path mount_point))
