-- ===== src/Launcher/Tests.antt =====
-- The theorem on the launcher at a run with all three children.
use binder.Prelude.{true, false, [], ◌∷◌, some}
use binder.Launcher.{
  Start, exited, registered, waiting, child_exited, wait_interrupted, run_manager,
}
use binder.Launcher.Orphans.{AllReaped, run_manager-AllReaped}

abbrev manager_start : Start
manager_start = record { found = true; pid = some 10; rounds = waiting ∷ registered ∷ [] }

abbrev http_start : Start
http_start = record { found = true; pid = some 11; rounds = registered ∷ [] }

abbrev download_start : Start
download_start = record { found = true; pid = some 12; rounds = waiting ∷ exited ∷ [] }

run_manager-AllReaped_example :
    AllReaped
      (run_manager true false manager_start http_start download_start
        (wait_interrupted ∷ child_exited 11 ∷ [])).0
run_manager-AllReaped_example =
    run_manager-AllReaped true false manager_start http_start download_start
      (wait_interrupted ∷ child_exited 11 ∷ [])
