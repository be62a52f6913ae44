-- ===== src/Launcher.antt =====
-- The launcher, service/main.cpp: it starts the service manager and the two services, and takes all of
-- them down when one exits.
--
-- A child is the pid that its record holds, none where that is not positive. What fork, waitpid and
-- the registry answer is given as lists of outcomes, one for each round of a loop.
pub mod Orphans
mod Tests
use binder.Prelude.{
  ℕ, zero, suc, ◌+◌, Bool, true, false, not, ◌||◌, List, [], ◌∷◌, ◌++◌, ◌==◌, if◌then◌else◌, Option,
  none, some,
}
use binder.Text.{Bytes, codes, equal, find_last_if}

-- The three `Child` records, `gOwnServiceManager`, the pids that were spawned, and those that have
-- been waited for.
pub record Tree : Type 0 where
  pub manager : Option ℕ
  pub http : Option ℕ
  pub download : Option ℕ
  pub own_manager : Bool
  pub spawned : List ℕ
  pub reaped : List ℕ

-- A child after `terminate`, and the pids reaped.
abbrev pub terminated : Option ℕ → List ℕ
terminated none = []
terminated (some pid) = pid ∷ []

unfoldable pub cleanup : Tree → Tree
cleanup t =
    let t' = record t {
      download = none;
      http = none;
      reaped = t.reaped ++ (terminated t.download ++ terminated t.http);
    } in
    if t.own_manager
    then record t' { manager = none; reaped = t'.reaped ++ terminated t.manager }
    else t'

-- One round of a wait for a child to come up: it has exited, it is registered, or neither.
pub data Round : Type 0 where
  exited registered waiting : Round

pub data Watch : Type 0 where
  came_up died too_late : Watch

abbrev pub watch_round : Watch → Round → Watch
watch_round rest exited = died
watch_round rest registered = came_up
watch_round rest waiting = rest

-- At most so many rounds; a list that has ended stands for rounds with no change.
unfoldable pub watch : ℕ → List Round → Watch
watch zero rounds = too_late
watch (suc n) [] = too_late
watch (suc n) (r ∷ rounds) = watch_round (watch n rounds) r

-- What a start meets: whether the binary was found, the pid that fork gave, and the rounds.
pub record Start : Type 0 where
  pub found : Bool
  pub pid : Option ℕ
  pub rounds : List Round

abbrev pub watched_manager : ℕ → Tree → Watch → Tree × Bool
watched_manager pid t came_up = (t, true)
watched_manager pid t died = (record t { manager = none; reaped = t.reaped ++ (pid ∷ []) }, false)
watched_manager pid t too_late = (t, false)

abbrev pub spawned_manager : List Round → Tree → Option ℕ → Tree × Bool
spawned_manager rounds t none = (record t { manager = none }, false)
spawned_manager rounds t (some pid) =
    watched_manager pid
      (record t { manager = some pid; own_manager = true; spawned = t.spawned ++ (pid ∷ []) })
      (watch 20 rounds)

unfoldable pub ensure_service_manager : Bool → Start → Tree → Tree × Bool
ensure_service_manager is_up s t =
    if is_up then (t, true) else if s.found then spawned_manager s.rounds t s.pid else (t, false)

pub data Role : Type 0 where
  http_role download_role : Role

abbrev pub set_child : Role → Option ℕ → Tree → Tree
set_child http_role child t = record t { http = child }
set_child download_role child t = record t { download = child }

abbrev pub watched_service : Role → ℕ → Tree → Watch → Tree × Bool
watched_service role pid t came_up = (t, true)
watched_service role pid t died =
    (set_child role none (record t { reaped = t.reaped ++ (pid ∷ []) }), false)
watched_service role pid t too_late = (t, false)

abbrev pub spawned_service : Role → List Round → Tree → Option ℕ → Tree × Bool
spawned_service role rounds t none = (set_child role none t, false)
spawned_service role rounds t (some pid) =
    watched_service role pid
      (set_child role (some pid) (record t { spawned = t.spawned ++ (pid ∷ []) })) (watch 40 rounds)

unfoldable pub start_service : Role → Start → Tree → Tree × Bool
start_service role s t = if s.found then spawned_service role s.rounds t s.pid else (t, false)

-- What `wait` returns: a pid, EINTR, or another error.
pub data Waited : Type 0 where
  child_exited : ℕ → Waited
  wait_interrupted wait_failed : Waited

abbrev pub without : ℕ → Option ℕ → Option ℕ
without pid none = none
without pid (some child) = if pid == child then none else some child

abbrev pub forget : ℕ → Tree → Tree
forget pid t = record t {
  manager = without pid t.manager;
  http = without pid t.http;
  download = without pid t.download;
  reaped = t.reaped ++ (pid ∷ []);
}

-- A list that has ended stands for an error.
unfoldable pub supervise : List Waited → Tree → Tree × ℕ
supervise [] t = (cleanup t, 0)
supervise (child_exited pid ∷ waits) t = (cleanup (forget pid t), 1)
supervise (wait_interrupted ∷ waits) t = supervise waits t
supervise (wait_failed ∷ waits) t = (cleanup t, 0)

abbrev pub new_tree : Tree
new_tree = record {
  manager = none;
  http = none;
  download = none;
  own_manager = false;
  spawned = [];
  reaped = [];
}

abbrev pub then_start : (Tree → Tree × ℕ) → Tree × Bool → Tree × ℕ
then_start next (t, true) = next t
then_start next (t, false) = (cleanup t, 1)

unfoldable pub run_manager : Bool → Bool → Start → Start → Start → List Waited → Tree × ℕ
run_manager binder_is_ready manager_is_up manager http download waits =
    let all =
      then_start
        (λ t.
          then_start (λ t'. then_start (supervise waits) (start_service download_role download t'))
            (start_service http_role http t))
        (ensure_service_manager manager_is_up manager new_tree) in
    if binder_is_ready then all else (new_tree, 1)

-- What `main` runs for its first argument; none is a usage error.
pub data Mode : Type 0 where
  all_mode http_mode download_mode manager_mode : Mode

unfoldable pub mode_of : List Bytes → Option Mode
mode_of [] = some all_mode
mode_of (arg ∷ args) =
    if equal arg (codes "all")
    then some all_mode
    else if equal arg (codes "http")
    then some http_mode
    else if equal arg (codes "download")
    then some download_mode
    else if equal arg (codes "servicemanager")
    then some manager_mode
    else none
