-- ===== src/Download/Task.antt =====
-- One download of service/download/DownloadService.cpp and the threads that share its task: the worker
-- (`runTask`, `finish`), a client's `cancel`, and the `ProgressRelay` that the http service calls.
--
-- Each step of a thread is one access to the shared task, or one call out of the process; a schedule
-- is the list of the threads that step. What the file system, the http service and the registry answer
-- is the parameter `Env`. Offsets are not negative: the http service reports one only once it has
-- seeked to it.
pub mod Races
pub mod Endings
pub mod Sends
use binder.Prelude.{
  ℕ, zero, suc, ◌+◌, ◌-◌, ◌*◌, ◌/◌, ◌%◌, ◌^◌, Bool, true, false, not, ◌&&◌, ◌||◌, List, [], ◌∷◌,
  ◌++◌, ◌==◌, ltb, leb, if◌then◌else◌, Option, none, some, ℤ, pos, negsuc, minus_one, ◌-ℤ◌, ltb_ℤ,
}
use binder.Text.{Bytes, codes}

-- STATE_PENDING and so on of IDownloadService.
pub data TaskState : Type 0 where
  pending running completed failed canceled : TaskState

unfoldable pub is_terminal : TaskState → Bool
is_terminal pending = false
is_terminal running = false
is_terminal completed = true
is_terminal failed = true
is_terminal canceled = true

-- The error codes of IDownloadService that `runTask` reports.
pub data Error : Type 0 where
  error_bad_destination error_io error_http_service error_http : Error

-- What `fetchToFd` returns: the bytes written, a service-specific error (is it ERROR_CANCELED, and its
-- message), or a failed transaction.
pub data Fetched : Type 0 where
  fetched : ℕ → Fetched
  service_error : Bool → Bytes → Fetched
  transaction_error : Bytes → Fetched

-- What the calls out of the worker answer: none for success, or the error's text.
pub record Env : Type 0 where
  pub parent_dir : Option Bytes
  pub part_size : ℕ
  pub open_part : Option Bytes
  pub http_service : Option Bytes
  pub new_request_id : Option ℕ
  pub id_error : Bytes
  pub dup_part : Option Bytes
  pub fetch : Fetched
  pub rename_part : Option Bytes
  pub final_size : ℕ
  pub elapsed : ℕ
  pub left_over : ℕ
  pub cancel_proxy : Bool

-- The atomics of `Task`, and its message.
pub record Task : Type 0 where
  pub state : TaskState
  pub downloaded : ℕ
  pub total : ℤ
  pub resumed_from : ℕ
  pub request_id : Option ℕ
  pub cancel_flag : Bool
  pub message : Bytes

-- How the worker ends, with what the client's callback is told.
pub data Ending : Type 0 where
  failing : Error → Bytes → Ending
  canceling : ℕ → Ending
  completing : ℕ → ℕ → Ending

-- Where the worker is.
pub data Worker : Type 0 where
  w_start w_dir w_size w_open w_proxy w_new_id w_rename w_sized w_cancel_done w_ended : Worker
  w_publish w_check w_dup w_fetch w_written : ℕ → Worker
  w_refused : Bool → Bytes → Worker
  w_lost : Bytes → Worker
  w_fail : Error → Bytes → Worker
  w_message w_state w_callback : Ending → Worker

-- Where the `cancel` call is.
pub data Caller : Type 0 where
  c_look c_flag c_read c_ignored c_unread : Caller
  c_send c_sent : ℕ → Caller

pub data FileOp : Type 0 where
  opened synced renamed unlinked : FileOp

-- The calls of the client's IDownloadCallback.
pub data Call : Type 0 where
  on_started : ℤ → ℕ → Call
  on_progress : ℕ → ℤ → ℤ → ℤ → Call
  on_ending : Ending → Call

pub record World : Type 0 where
  pub task : Task
  pub worker : Worker
  pub caller : Caller
  pub canceled_ids : List ℕ
  pub files : List FileOp
  pub calls : List Call
  pub last_bytes : ℕ
  pub last_report : ℕ

abbrev pub ending_state : Ending → TaskState
ending_state (failing e why) = failed
ending_state (canceling n) = canceled
ending_state (completing n ms) = completed

abbrev pub ending_message : Ending → Bytes
ending_message (failing e why) = why
ending_message (canceling n) = codes "canceled"
ending_message (completing n ms) = codes "completed"

abbrev pub go : Worker → World → World
go pc w = record w { worker = pc }

abbrev pub or_fail : Option Bytes → Error → Worker → Worker
or_fail none e next = next
or_fail (some why) e next = w_fail e why

abbrev pub with_id : Env → Option ℕ → Worker
with_id env none = w_fail error_http_service env.id_error
with_id env (some id) = w_publish id

abbrev pub after_fetch : Fetched → Worker
after_fetch (fetched n) = w_written n
after_fetch (service_error is_canceled why) = w_refused is_canceled why
after_fetch (transaction_error why) = w_lost why

unfoldable pub relay_start : ℕ → ℤ → ℕ → World → World
relay_start offset total now w = record w {
  task = record w.task { resumed_from = offset; total = total; downloaded = offset };
  last_bytes = offset;
  last_report = now;
  calls = w.calls ++ (on_started total offset ∷ []);
}

abbrev pub client_interval_ms : ℕ
client_interval_ms = 200

-- `static_cast<int32_t>`.
abbrev pub as_int32 : ℕ → ℤ
as_int32 n = let low = n % 2 ^ 32 in if ltb low (2 ^ 31) then pos low else pos low -ℤ pos (2 ^ 32)

abbrev pub percent_of : ℕ → ℤ → ℤ
percent_of done (pos zero) = minus_one
percent_of done (pos (suc n)) = as_int32 (done * 100 / suc n)
percent_of done (negsuc n) = minus_one

abbrev pub bytes_per_second : ℕ → ℕ → ℕ → ℤ
bytes_per_second done last ms =
    if leb last done
    then pos ((done - last) * 1000 / ms)
    else pos 0 -ℤ pos ((last - done) * 1000 / ms)

abbrev pub report : ℕ → ℕ → World → World
report done now w = record w {
  calls =
      w.calls
      ++ (on_progress done w.task.total (percent_of done w.task.total)
            (bytes_per_second done w.last_bytes (now - w.last_report))
          ∷ []);
  last_bytes = done;
  last_report = now;
}

unfoldable pub relay_bytes : ℕ → ℤ → ℕ → World → World
relay_bytes received total now w =
    let done = w.task.resumed_from + received in
    let w' = record w {
      task = record w.task {
        downloaded = done;
        total = if ltb_ℤ total (pos 0) then w.task.total else total;
      };
    } in
    if ltb (now - w.last_report) client_interval_ms then w' else report done now w'

-- Who steps next.
pub data Thread : Type 0 where
  worker_steps caller_steps : Thread
  response_starts bytes_arrive : ℕ → ℤ → ℕ → Thread

module _ (env : Env) where
  -- The next step of `runTask`, with `fail`, `cancelDone` and `finish`.
  unfoldable pub worker_step : Worker → World → World
  worker_step w_start w = go w_dir (record w { task = record w.task { state = running } })
  worker_step w_dir w = go (or_fail env.parent_dir error_bad_destination w_size) w
  worker_step w_size w = go w_open (record w {
    task = record w.task { downloaded = env.part_size; resumed_from = env.part_size };
  })
  worker_step w_open w =
      go (or_fail env.open_part error_io w_proxy) (record w { files = w.files ++ (opened ∷ []) })
  worker_step w_proxy w = go (or_fail env.http_service error_http_service w_new_id) w
  worker_step w_new_id w = go (with_id env env.new_request_id) w
  worker_step (w_publish id) w =
      go (w_check id) (record w { task = record w.task { request_id = some id } })
  worker_step (w_check id) w = go (if w.task.cancel_flag then w_cancel_done else w_dup id) w
  worker_step (w_dup id) w = go (or_fail env.dup_part error_io (w_fetch id)) w
  worker_step (w_fetch id) w = go (after_fetch env.fetch) w
  worker_step (w_refused is_canceled why) w =
      go (if w.task.cancel_flag || is_canceled then w_cancel_done else w_fail error_http why) w
  worker_step (w_lost why) w =
      go (if w.task.cancel_flag then w_cancel_done else w_fail error_http_service why) w
  worker_step (w_written n) w = go w_rename (record w {
    task = record w.task { downloaded = w.task.resumed_from + n };
    files = w.files ++ (synced ∷ []);
  })
  worker_step w_rename w = go (or_fail env.rename_part error_io w_sized) (record w {
    files = (elim env.rename_part [ none ↦ w.files ++ (renamed ∷ []) | some e ↦ w.files ]);
  })
  worker_step w_sized w =
      go (w_message (completing env.final_size env.elapsed))
        (record w { task = record w.task { total = pos env.final_size } })
  worker_step w_cancel_done w = go (w_message (canceling w.task.downloaded)) w
  worker_step (w_fail e why) w =
      go (w_message (failing e why))
        (record w { files = if env.left_over == 0 then w.files ++ (unlinked ∷ []) else w.files })
  worker_step (w_message end) w =
      go (w_state end) (record w { task = record w.task { message = ending_message end } })
  worker_step (w_state end) w =
      go (w_callback end) (record w { task = record w.task { state = ending_state end } })
  worker_step (w_callback end) w = go w_ended (record w { calls = w.calls ++ (on_ending end ∷ []) })
  worker_step w_ended w = go w_ended w

  -- The next step of `cancel` on a task that was found. The ids are those of the first 2 ^ 31
  -- requests: after these they would be negative, and `requestId >= 0` would take them for none.
  unfoldable pub caller_step : Caller → World → World
  caller_step c_look w = record w {
    caller = if is_terminal w.task.state then c_ignored else c_flag;
  }
  caller_step c_flag w = record w { caller = c_read; task = record w.task { cancel_flag = true } }
  caller_step c_read w = record w {
    caller = (elim w.task.request_id [ none ↦ c_unread | some id ↦ c_send id ]);
  }
  caller_step (c_send id) w = record w {
    caller = c_sent id;
    canceled_ids = if env.cancel_proxy then w.canceled_ids ++ (id ∷ []) else w.canceled_ids;
  }
  caller_step c_ignored w = record w { caller = c_ignored }
  caller_step c_unread w = record w { caller = c_unread }
  caller_step (c_sent id) w = record w { caller = c_sent id }

  unfoldable pub step : Thread → World → World
  step worker_steps w = worker_step w.worker w
  step caller_steps w = caller_step w.caller w
  step (response_starts offset total now) w = relay_start offset total now w
  step (bytes_arrive received total now) w = relay_bytes received total now w

  unfoldable pub run : List Thread → World → World
  run [] w = w
  run (t ∷ schedule) w = run schedule (step t w)

-- `enqueue` has made the task; the relay's clock starts when the relay is made.
abbrev pub new_world : World
new_world = record {
  task = record {
    state = pending;
    downloaded = 0;
    total = minus_one;
    resumed_from = 0;
    request_id = none;
    cancel_flag = false;
    message = [];
  };
  worker = w_start;
  caller = c_look;
  canceled_ids = [];
  files = [];
  calls = [];
  last_bytes = 0;
  last_report = 0;
}
