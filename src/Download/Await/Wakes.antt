-- ===== src/Download/Await/Wakes.antt =====
-- The wake-up of `awaitCompletion` that can be lost.
use binder.Prelude.{Bool, true, false, List, [], ◌∷◌, ◌++◌, ◌≡◌, refl, sym, subst}
use binder.Download.Task.{TaskState, is_terminal, Ending}
use binder.Download.Await.{
  a_waiting, f_done, Meeting, waiter_step, finisher_step, Happening, waiter_moves, finisher_moves,
  wakes_up, time_ends, happen, meet, new_meeting,
}

-- Nobody wakes the waiting thread without being asked.
abbrev pub unprompted : List Happening → Bool
unprompted [] = true
unprompted (waiter_moves ∷ schedule) = unprompted schedule
unprompted (finisher_moves ∷ schedule) = unprompted schedule
unprompted (wakes_up ∷ schedule) = false
unprompted (time_ends ∷ schedule) = unprompted schedule

stays_waiting :
    (end : Ending) (schedule : List Happening) (m : Meeting)
    → unprompted schedule ≡ true
    → m.waiter ≡ a_waiting
    → m.finisher ≡ f_done
    → (meet false end schedule m).waiter ≡ a_waiting
unfolding meet happen waiter_step finisher_step
stays_waiting end [] m h w f = w
stays_waiting end (waiter_moves ∷ schedule) m h w f =
    subst (λ pc. (meet false end schedule (waiter_step pc m)).waiter ≡ a_waiting) (sym w)
      (stays_waiting end schedule _ h refl f)
stays_waiting end (finisher_moves ∷ schedule) m h w f =
    subst (λ pc. (meet false end schedule (finisher_step end pc m)).waiter ≡ a_waiting) (sym f)
      (stays_waiting end schedule _ h w refl)
stays_waiting end (wakes_up ∷ schedule) m h w f = absurd (cc)
stays_waiting end (time_ends ∷ schedule) m h w f = stays_waiting end schedule m h w f

-- The worker stores the state and notifies between the predicate and the wait.
abbrev pub into_the_gap : List Happening
into_the_gap =
    finisher_moves ∷ waiter_moves ∷ waiter_moves ∷ finisher_moves ∷ finisher_moves ∷ waiter_moves
    ∷ []

-- The wake-up can be lost: `finish` does not hold the lock when it stores the state and notifies, so
-- it can do both after the predicate has been seen to be false and before the wait. A call with no
-- timeout then waits for ever on a task that has ended, unless it is woken for no reason.
pub await_loses :
    (end : Ending) (state : TaskState) (later : List Happening)
    → is_terminal state ≡ false
    → unprompted later ≡ true
    → (meet false end (into_the_gap ++ later) (new_meeting state)).waiter ≡ a_waiting
unfolding meet happen waiter_step finisher_step
await_loses end state later running quiet = rw running (stays_waiting end later _ quiet refl refl)
