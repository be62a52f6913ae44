-- ===== src/Client/Waiting/Told.antt =====
-- What `await` returns, by what the callbacks have told it.
use binder.Prelude.{
  Bool, true, false, List, [], ◌∷◌, ◌++◌, Option, none, some, ◌≡◌, ◌≢◌, refl, ap, ◌∙◌,
}
use binder.Download.Task.{TaskState, failed, Call, on_started, on_progress, on_ending, Ending}
use binder.Download.Task.Endings.{endings}
use binder.Client.Waiting.{Event, called, died, looks, settled, after_call, await}

-- The callbacks among the events, in their order.
abbrev pub delivered : List Event → List Call
delivered [] = []
delivered (called c ∷ events) = c ∷ delivered events
delivered (died ∷ events) = delivered events
delivered (looks ∷ events) = delivered events

-- The service stays alive.
abbrev pub lives : List Event → Bool
lives [] = true
lives (called c ∷ events) = lives events
lives (died ∷ events) = false
lives (looks ∷ events) = lives events

-- Once settled, `await` returns when `main` looks.
await_returns :
    (before later : List Event) (state : TaskState)
    → await (before ++ (looks ∷ later)) (some state) ≢ none
unfolding await
await_returns [] later state = λ h. cc
await_returns (called (on_started total offset) ∷ before) later state =
    await_returns before later state
await_returns (called (on_progress done total percent rate) ∷ before) later state =
    await_returns before later state
await_returns (called (on_ending end) ∷ before) later state =
    await_returns before later (settled end)
await_returns (died ∷ before) later state = await_returns before later failed
await_returns (looks ∷ before) later state = λ h. cc

-- A death ends the wait, whatever has come before it.
pub await-died :
    (before middle later : List Event) (state : Option TaskState)
    → await (before ++ (died ∷ (middle ++ (looks ∷ later)))) state ≢ none
unfolding await
await-died [] middle later state = await_returns middle later failed
await-died (called c ∷ before) middle later state =
    await-died before middle later (after_call c state)
await-died (died ∷ before) middle later state = await-died before middle later (some failed)
await-died (looks ∷ before) middle later none = await-died before middle later none
await-died (looks ∷ before) middle later (some state) = λ h. cc

-- With no terminal callback left, a service that lives leaves the settled state as it is.
await_settled :
    (before later : List Event) (state : TaskState)
    → endings (delivered before) ≡ []
    → lives before ≡ true
    → await (before ++ (looks ∷ later)) (some state) ≡ some state
unfolding await endings
await_settled [] later state h k = refl
await_settled (called (on_started total offset) ∷ before) later state h k =
    await_settled before later state h k
await_settled (called (on_progress done total percent rate) ∷ before) later state h k =
    await_settled before later state h k
await_settled (called (on_ending end) ∷ before) later state h k = absurd (cc)
await_settled (died ∷ before) later state h k = absurd (cc)
await_settled (looks ∷ before) later state h k = refl

-- With one, `await` returns its state.
pub await_told :
    (before later : List Event) (end : Ending)
    → endings (delivered before) ≡ end ∷ []
    → lives before ≡ true
    → await (before ++ (looks ∷ later)) none ≡ some (settled end)
unfolding await endings
await_told [] later end h k = absurd (cc)
await_told (called (on_started total offset) ∷ before) later end h k =
    await_told before later end h k
await_told (called (on_progress done total percent rate) ∷ before) later end h k =
    await_told before later end h k
await_told (called (on_ending other) ∷ before) later end h k =
    let rest : endings (delivered before) ≡ [] = cc in
    let same : other ≡ end = cc in
    await_settled before later (settled other) rest k ∙ ap (λ (x : Ending). some (settled x)) same
await_told (died ∷ before) later end h k = absurd (cc)
await_told (looks ∷ before) later end h k = await_told before later end h k
