-- ===== src/Download/Tests.antt =====
-- The theorems on downloads at schedules that meet their hypotheses.
use binder.Prelude.{
  ◌⊎◌, true, false, List, [], ◌∷◌, ◌++◌, length, pos, none, some, ◌≡◌, ◌≢◌, refl, arith,
}
use binder.Text.{codes}
use binder.Prelude.Maps.{lookup}
use binder.Service.Requests.{begin_request, begin_at, end_of, cancel_at}
use binder.Service.Requests
use binder.Download.Cancels.{sent_cancels, cancel_goes_through, cancel_goes_ahead}
use binder.Download.Await.{
  Meeting, new_meeting, meet, happen, waiter_step, finisher_step, waiter_moves, finisher_moves,
  wakes_up, time_ends, a_waiting, a_returned, f_store,
}
use binder.Download.Await.Wakes.{into_the_gap, await_loses}
use binder.Download.Await.Safe.{await_safe}
use binder.Download.Await.Returns.{await_returns}
use binder.Download.Table.{empty_table, get_download_ids}
use binder.Download.Table.Calls.{Action, enqueues, stores, accepted, up_from, Found, run_numbers}
use binder.Download.Table.Calls
use binder.Download.Task.{
  c_sent, TaskState, running, completing, canceling, pending, Env, fetched, Ending, Thread,
  worker_steps, caller_steps, response_starts, bytes_arrive, worker_step, caller_step, step, run,
  is_terminal, completed, ending_state, ending_message, c_unread, new_world,
}
use binder.Download.Task.Races.{is_let_through, cancel_not_missed}
use binder.Download.Task.Endings.{endings, download_ends}

abbrev all_well : Env
all_well = record {
  parent_dir = none;
  part_size = 100;
  open_part = none;
  http_service = none;
  new_request_id = some 7;
  id_error = [];
  dup_part = none;
  fetch = fetched 900;
  rename_part = none;
  final_size = 1000;
  elapsed = 20;
  left_over = 0;
  cancel_proxy = true;
}

abbrev two : List Thread
two = worker_steps ∷ worker_steps ∷ []

abbrev four : List Thread
four = two ++ two

-- The cancel reads the id before the worker publishes it, and the worker goes on.
abbrev early_cancel : List Thread
early_cancel = four ++ (caller_steps ∷ caller_steps ∷ caller_steps ∷ (four ++ four))

early_cancel-unread : (run all_well early_cancel new_world).caller ≡ c_unread
unfolding run step worker_step caller_step is_terminal
early_cancel-unread = refl

cancel_not_missed_example :
    let w = run all_well early_cancel new_world in
    (w.task.cancel_flag ≡ true) × (is_let_through w.worker ≡ false) × (w.task.state ≢ completed)
cancel_not_missed_example = cancel_not_missed all_well early_cancel early_cancel-unread

-- A transfer with reports.
abbrev whole_download : List Thread
whole_download =
    four
    ++ (four
        ++ (response_starts 100 (pos 1000) 5 ∷ bytes_arrive 900 (pos 1000) 300 ∷ (four ++ four)))

download_ends_example :
    let w = run all_well whole_download new_world in
    (end : Ending) × (w.task.state ≡ ending_state end)
    × (w.task.message ≡ ending_message end)
    × (endings w.calls ≡ end ∷ [])
download_ends_example = download_ends all_well whole_download (omega arith)

abbrev calls : List Action
calls =
    enqueues (codes "http://a/b") (codes "/tmp/b")
    ∷ stores 1 (λ task. record task { state = running })
    ∷ enqueues (codes "http://a/c") (codes "/tmp/")
    ∷ enqueues (codes "http://a/c") (codes "/tmp/c")
    ∷ []

run_numbers_example :
    let t = Calls.run calls empty_table in
    (get_download_ids t ≡ up_from 1 (length (accepted calls)))
    × (t.workers ≡ get_download_ids t)
    × Found (accepted calls) t
run_numbers_example = run_numbers calls

running_lem : is_terminal running ≡ false
unfolding is_terminal
running_lem = refl

pending_lem : is_terminal pending ≡ false
unfolding is_terminal
pending_lem = refl

await_lem :
    (meet false
      (completing 1000 20)
      (finisher_moves ∷ finisher_moves ∷ waiter_moves ∷ waiter_moves ∷ [])
      (new_meeting running)).waiter
    ≡ a_returned completed
unfolding meet happen waiter_step finisher_step is_terminal
await_lem = refl

await_safe_example :
    let m =
      meet false
        (completing 1000 20)
        (finisher_moves ∷ finisher_moves ∷ waiter_moves ∷ waiter_moves ∷ [])
        (new_meeting running) in
    ((completed ≡ ending_state (completing 1000 20))
      × (m.message ≡ ending_message (completing 1000 20)))
    ⊎ (false ≡ true)
await_safe_example =
    await_safe false (completing 1000 20) running running_lem
      (finisher_moves ∷ finisher_moves ∷ waiter_moves ∷ waiter_moves ∷ []) completed await_lem

await_loses_example :
    (meet false
      (canceling 10)
      (into_the_gap ++ (waiter_moves ∷ time_ends ∷ waiter_moves ∷ []))
      (new_meeting pending)).waiter
    ≡ a_waiting
await_loses_example =
    await_loses (canceling 10) pending (waiter_moves ∷ time_ends ∷ waiter_moves ∷ []) pending_lem
      refl

-- The waiting thread waits already when the worker is about to store the state.
abbrev late_meeting : Meeting
late_meeting = record (new_meeting running) {
  waiter = a_waiting;
  finisher = f_store;
  message = codes "canceled";
}

await_returns_example :
    (s : TaskState) × ((meet false
        (canceling 10)
        (finisher_moves
          ∷ ((wakes_up ∷ []) ++ (finisher_moves ∷ waiter_moves ∷ waiter_moves ∷ waiter_moves ∷ [])))
        late_meeting).waiter
      ≡ a_returned s)
await_returns_example =
    await_returns false (canceling 10) (wakes_up ∷ [])
      (waiter_moves ∷ waiter_moves ∷ waiter_moves ∷ []) late_meeting refl (λ h. cc) (omega arith)

-- The worker has published its id when the cancel reads it.
abbrev late_cancel : List Thread
late_cancel =
    four
    ++ (four ++ (caller_steps ∷ caller_steps ∷ worker_steps ∷ caller_steps ∷ caller_steps ∷ []))

late_cancel-sent : (run all_well late_cancel new_world).caller ≡ c_sent 7
unfolding run step worker_step caller_step is_terminal
late_cancel-sent = refl

cancel_goes_through_example :
    let w = run all_well late_cancel new_world in
    let begun = begin_request 1000 7 (Requests.run (begin_at 0 3 ∷ []) Requests.empty_table) in
    (w.task.cancel_flag ≡ true)
    × (all_well.new_request_id ≡ some 7)
    × (((Requests.run
            (sent_cancels 2000 w.canceled_ids ++ (end_of 7 ∷ []))
            (Requests.run (end_of 3 ∷ []) begun.1)).objects
          begun.0).canceled
        ≡ true)
cancel_goes_through_example =
    cancel_goes_through all_well late_cancel 7 (begin_at 0 3 ∷ []) (end_of 3 ∷ []) (end_of 7 ∷ [])
      1000 2000 refl late_cancel-sent ((λ e. omega arith), tt)

unknown_id : lookup 7 (Requests.run (begin_at 0 3 ∷ []) Requests.empty_table).requests ≡ none
unfolding Requests.run Requests.step begin_request lookup
unknown_id = refl

cancel_goes_ahead_example :
    let w = run all_well late_cancel new_world in
    let begun = begin_request 60000 7 (
      Requests.run
        (sent_cancels 2000 w.canceled_ids ++ (end_of 3 ∷ cancel_at 40000 4 ∷ []))
        (Requests.run (begin_at 0 3 ∷ []) Requests.empty_table)) in
    (w.task.cancel_flag ≡ true)
    × (all_well.new_request_id ≡ some 7)
    × ((begun.1.objects begun.0).canceled ≡ true)
cancel_goes_ahead_example =
    cancel_goes_ahead all_well late_cancel 7 (begin_at 0 3 ∷ []) (end_of 3 ∷ cancel_at 40000 4 ∷ [])
      2000 60000 refl late_cancel-sent unknown_id ((λ e. omega arith), tt) (omega arith, tt)
