-- ===== src/Download/Table.antt =====
-- The task table of service/download/DownloadService.cpp, and the calls that read it; the search for
-- the http service; and the making of directories.
pub mod Calls
use binder.Prelude.{
  ℕ, zero, suc, ◌+◌, Bool, true, false, List, [], ◌∷◌, ◌++◌, ◌==◌, if◌then◌else◌, Option, none,
  some, ℤ, pos, negsuc, minus_one, is_empty, ◌≡◌, refl, ap, take,
}
use binder.Prelude.Maps.{Map, lookup, emplace, lookup-emplace_same}
use binder.Text.{Bytes, codes, find_last_if}
use binder.Text.Number.{decimal}
use binder.Download.Task.{
  TaskState, pending, running, completed, failed, canceled, Task, Error, error_bad_destination,
  error_http,
}

-- A task with what `enqueue` was given.
pub record Download : Type 0 where
  pub url : Bytes
  pub dest_path : Bytes
  pub part_path : Bytes
  pub task : Task

-- The tasks, and for which of them a worker thread has been started.
pub record Table : Type 0 where
  pub tasks : Map Download
  pub order : List ℕ
  pub next_id : ℕ
  pub workers : List ℕ

unfoldable pub find_task : ℕ → Table → Option Download
find_task id t = lookup id t.tasks

pub data Enqueued : Type 0 where
  enqueued : ℕ → Enqueued
  refused : Error → Bytes → Enqueued

-- `destPath.empty() || destPath.back() == '/'`.
unfoldable pub names_no_file : Bytes → Bool
names_no_file [] = true
names_no_file (c ∷ []) = c == b'/'
names_no_file (c ∷ d ∷ path) = names_no_file (d ∷ path)

abbrev pub new_task : Task
new_task = record {
  state = pending;
  downloaded = 0;
  total = minus_one;
  resumed_from = 0;
  request_id = none;
  cancel_flag = false;
  message = [];
}

abbrev pub new_download : Bytes → Bytes → Download
new_download url dest = record {
  url = url;
  dest_path = dest;
  part_path = dest ++ codes ".part";
  task = new_task;
}

-- An id is new as long as fewer than 2 ^ 31 tasks have been enqueued. The worker is detached before the
-- reply.
unfoldable pub enqueue : Bytes → Bytes → Table → Enqueued × Table
enqueue url dest t =
    if is_empty url
    then (refused error_http (codes "empty url"), t)
    else if names_no_file dest
    then (
      refused error_bad_destination (codes "destPath must name a file: \"" ++ (dest ++ codes "\"")),
      t,
    )
    else (
      enqueued t.next_id,
      record {
        tasks = emplace t.next_id (new_download url dest) t.tasks;
        order = t.order ++ (t.next_id ∷ []);
        next_id = t.next_id + 1;
        workers = t.workers ++ (t.next_id ∷ []);
      },
    )

-- None for STATE_UNKNOWN.
abbrev pub state_of : Option Download → Option TaskState
state_of none = none
state_of (some d) = some d.task.state

unfoldable pub get_state : ℕ → Table → Option TaskState
get_state id t = state_of (find_task id t)

abbrev pub bytes_of : Option Download → ℤ
bytes_of none = minus_one
bytes_of (some d) = pos d.task.downloaded

unfoldable pub get_downloaded_bytes : ℕ → Table → ℤ
get_downloaded_bytes id t = bytes_of (find_task id t)

unfoldable pub get_download_ids : Table → List ℕ
get_download_ids t = t.order

abbrev pub state_name : TaskState → Bytes
state_name pending = codes "pending"
state_name running = codes "running"
state_name completed = codes "completed"
state_name failed = codes "failed"
state_name canceled = codes "canceled"

abbrev pub total_text : ℤ → Bytes
total_text (pos n) = decimal n
total_text (negsuc n) = codes "?"

abbrev pub description : ℕ → Option Download → Bytes
description id none = codes "#" ++ (decimal id ++ codes " unknown")
description id (some d) =
    codes "#"
    ++ (decimal id
        ++ (codes " "
            ++ (state_name d.task.state
                ++ (codes " "
                    ++ (decimal d.task.downloaded
                        ++ (codes "/"
                            ++ (total_text d.task.total
                                ++ (codes " bytes "
                                    ++ (d.url
                                        ++ (codes " -> "
                                            ++ (d.dest_path
                                                ++ (if is_empty d.task.message
                                                    then []
                                                    else codes " ("
                                                      ++ (d.task.message ++ codes ")")))))))))))))

unfoldable pub describe : ℕ → Table → Bytes
describe id t = description id (find_task id t)

-- The rounds of `httpService`: whether checkService finds it, 40 times at most.
unfoldable pub find_service : ℕ → List Bool → Bool
find_service zero rounds = false
find_service (suc n) [] = false
find_service (suc n) (found ∷ rounds) = if found then true else find_service n rounds

-- The cached proxy (none, or whether it is alive), and what the cache then holds.
abbrev pub http_service : Option Bool → List Bool → Bool
http_service none rounds = find_service 40 rounds
http_service (some alive) rounds = if alive then true else find_service 40 rounds

abbrev pub empty_table : Table
empty_table = record { tasks = []; order = []; next_id = 1; workers = [] }

-- `ensureParentDir`, mkdir -p: `mkdir` gives an error's text, and none where the directory is there.
abbrev pub make_dir : (Bytes → Option Bytes) → Bytes → Option Bytes
make_dir mkdir [] = none
make_dir mkdir (c ∷ path) = mkdir (c ∷ path)

abbrev pub or_next : Bytes → Option Bytes → Option Bytes → Option Bytes
or_next built none next = next
or_next built (some why) next =
    some (codes "cannot create directory " ++ (built ++ (codes ": " ++ why)))

-- The directories of a path from its front, where `built` has been passed.
unfoldable pub make_dirs : (Bytes → Option Bytes) → Bytes → Bytes → Option Bytes
make_dirs mkdir built [] = or_next built (make_dir mkdir built) none
make_dirs mkdir built (c ∷ path) =
    let rest = make_dirs mkdir (built ++ (c ∷ [])) path in
    if c == b'/' then or_next built (make_dir mkdir built) rest else rest

abbrev pub ensure_dir : (Bytes → Option Bytes) → Bytes → Option ℕ → Option Bytes
ensure_dir mkdir path none = none
ensure_dir mkdir path (some zero) = none
ensure_dir mkdir path (some (suc slash)) = make_dirs mkdir [] (take (suc slash) path)

unfoldable pub ensure_parent_dir : (Bytes → Option Bytes) → Bytes → Option Bytes
ensure_parent_dir mkdir path = ensure_dir mkdir path (find_last_if (λ c. c == b'/') path)
