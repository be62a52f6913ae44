-- ===== src/Download/Await.antt =====
-- `awaitCompletion` of service/download/DownloadService.cpp against `finish`, for a task that was
-- found: the waiting thread, the worker that finishes, the lock and the condition variable.
--
-- A schedule is the list of what happens next: a step of a thread, a wake-up that nobody asked for,
-- or the end of the time where the wait is timed. A thread that cannot step, since the other one
-- holds the lock or since it waits, stays where it is. The condition variable is shared by all tasks,
-- so a wake-up that this `finish` does not ask for may be another task's notification.
pub mod Wakes
pub mod Safe
pub mod Returns
use binder.Prelude.{Bool, true, false, List, [], ◌∷◌, if◌then◌else◌}
use binder.Text.{Bytes}
use binder.Download.Task.{TaskState, is_terminal, Ending, ending_state, ending_message}

-- Where the waiting thread is: before the lock, at the predicate, between the predicate and the wait,
-- in the wait, woken, out of time, or back with a state. It holds the lock at the predicate and behind
-- it.
pub data Waiter : Type 0 where
  a_enter a_test a_going a_waiting a_woken a_late : Waiter
  a_returned : TaskState → Waiter

-- Where `finish` is.
pub data Finisher : Type 0 where
  f_message f_store f_notify f_done : Finisher

pub record Meeting : Type 0 where
  pub state : TaskState
  pub message : Bytes
  pub waiter : Waiter
  pub finisher : Finisher

abbrev pub holds_lock : Waiter → Bool
holds_lock a_test = true
holds_lock a_going = true
holds_lock _ = false

unfoldable pub waiter_step : Waiter → Meeting → Meeting
waiter_step a_enter m = record m { waiter = a_test }
waiter_step a_test m = record m {
  waiter = if is_terminal m.state then a_returned m.state else a_going;
}
waiter_step a_going m = record m { waiter = a_waiting }
waiter_step a_waiting m = record m { waiter = a_waiting }
waiter_step a_woken m = record m { waiter = a_test }
waiter_step a_late m = record m { waiter = a_returned m.state }
waiter_step (a_returned s) m = record m { waiter = a_returned s }

abbrev pub woken : Waiter → Waiter
woken a_waiting = a_woken
woken pc = pc

abbrev pub out_of_time : Waiter → Waiter
out_of_time a_waiting = a_late
out_of_time pc = pc

unfoldable pub finisher_step : Ending → Finisher → Meeting → Meeting
finisher_step end f_message m =
    if holds_lock m.waiter then m else record m { message = ending_message end; finisher = f_store }
finisher_step end f_store m = record m { state = ending_state end; finisher = f_notify }
finisher_step end f_notify m = record m { waiter = woken m.waiter; finisher = f_done }
finisher_step end f_done m = record m { finisher = f_done }

pub data Happening : Type 0 where
  waiter_moves finisher_moves wakes_up time_ends : Happening

module _ (timed : Bool) (end : Ending) where
  unfoldable pub happen : Happening → Meeting → Meeting
  happen waiter_moves m = waiter_step m.waiter m
  happen finisher_moves m = finisher_step end m.finisher m
  happen wakes_up m = record m { waiter = woken m.waiter }
  happen time_ends m = record m { waiter = if timed then out_of_time m.waiter else m.waiter }

  unfoldable pub meet : List Happening → Meeting → Meeting
  meet [] m = m
  meet (h ∷ schedule) m = meet schedule (happen h m)

-- The call comes while the task is not in a terminal state.
abbrev pub new_meeting : TaskState → Meeting
new_meeting state = record { state = state; message = []; waiter = a_enter; finisher = f_message }
