-- ===== src/Client/Waiting.antt =====
-- Waiting for a download: `Callback` (onCompleted, onFailed, onCanceled, settle, await),
-- `DeathRecipient` and `main` of client/download.cpp.
--
-- What comes to the process is a list of events: a call of the callback, the death of the service, and
-- the moments at which `main` holds the lock in `await` and looks at the state, once on entry and then
-- at each wake-up. A list that has ended while `main` waits stands for waiting on.
pub mod Told
pub mod Exits
use binder.Prelude.{
  ℕ, Bool, true, false, List, [], ◌∷◌, ◌++◌, if◌then◌else◌, Option, none, some, ℤ, pos, ltb_ℤ,
}
use binder.Text.{Bytes}
use binder.Download.Task.{
  TaskState, completed, failed, canceled, Call, on_started, on_progress, on_ending, Ending, failing,
  canceling, completing,
}
use binder.Client.Options.{Options, parse_args}

pub data Event : Type 0 where
  called : Call → Event
  died looks : Event

-- The state that a terminal callback settles on.
abbrev pub settled : Ending → TaskState
settled (failing e why) = failed
settled (canceling n) = canceled
settled (completing n ms) = completed

-- `mState` after a call, none for STATE_UNKNOWN.
abbrev pub after_call : Call → Option TaskState → Option TaskState
after_call (on_started total offset) state = state
after_call (on_progress done total percent rate) state = state
after_call (on_ending end) state = some (settled end)

-- The state at which `await` returns.
unfoldable pub await : List Event → Option TaskState → Option TaskState
await [] state = none
await (called c ∷ events) state = await events (after_call c state)
await (died ∷ events) state = await events (some failed)
await (looks ∷ events) none = await events none
await (looks ∷ events) (some state) = some state

-- The calls that `main` makes of the service.
pub data Action : Type 0 where
  links_to_death : Action
  enqueues : Bytes → Bytes → Action
  cancels_after : ℤ → ℕ → Action
  describes : ℕ → Action

pub record Exit : Type 0 where
  pub code : ℕ
  pub actions : List Action

abbrev pub exit_code : TaskState → ℕ
exit_code completed = 0
exit_code _ = 1

abbrev pub canceller : Options → ℕ → List Action
canceller options id =
    if ltb_ℤ (pos 0) options.cancel_after_ms
    then cancels_after options.cancel_after_ms id ∷ []
    else []

abbrev pub after_await : Options → ℕ → Option TaskState → Option Exit
after_await options id none = none
after_await options id (some state) = some (record {
  code = exit_code state;
  actions =
      links_to_death
      ∷ enqueues options.url options.dest_path
      ∷ (canceller options id ++ (describes id ∷ []));
})

-- `enqueue` answers with an id, or none for an error.
abbrev pub after_enqueue : List Event → Options → Option ℕ → Option Exit
after_enqueue events options none =
    some
      (record { code = 1; actions = links_to_death ∷ enqueues options.url options.dest_path ∷ [] })
after_enqueue events options (some id) = after_await options id (await events none)

abbrev pub with_options : Bool → Option ℕ → List Event → Option Options → Option Exit
with_options registered answer events none = some (record { code = 2; actions = [] })
with_options registered answer events (some options) =
    let rest = after_enqueue events options answer in
    if registered then rest else some (record { code = 1; actions = [] })

-- `main`: none while it waits.
unfoldable pub client_main : Option Bytes → List Bytes → Bool → Option ℕ → List Event → Option Exit
client_main cwd args registered answer events =
    with_options registered answer events (parse_args cwd args)
