-- ===== src/Download/Await/Safe.antt =====
-- What `awaitCompletion` returns.
use binder.Prelude.{
  Bool, true, false, List, [], ◌∷◌, if◌then◌else◌, ◌≡◌, ◌⊎◌, refl, sym, subst, inl, inr, Bool-cases,
}
use binder.Text.{Bytes}
use binder.Download.Task.{TaskState, is_terminal, Ending, ending_state, ending_message}
use binder.Download.Await.{
  Waiter, a_enter, a_test, a_going, a_waiting, a_woken, a_late, a_returned, Finisher, f_message,
  f_store, f_notify, f_done, Meeting, holds_lock, waiter_step, woken, out_of_time, finisher_step,
  Happening, waiter_moves, finisher_moves, wakes_up, time_ends, happen, meet, new_meeting,
}

module _ (timed : Bool) (end : Ending) (start : TaskState)
    (running : is_terminal start ≡ false) where
  -- What is true of the task by where `finish` is.
  abbrev Phase : Finisher → TaskState → Bytes → Type 0
  Phase f_message s message = s ≡ start
  Phase f_store s message = (s ≡ start) × (message ≡ ending_message end)
  Phase _ s message = (s ≡ ending_state end) × (message ≡ ending_message end)

  -- What the waiting thread may have returned.
  abbrev Returned : Waiter → Bytes → Type 0
  Returned (a_returned s) message =
      ((s ≡ ending_state end) × (message ≡ ending_message end)) ⊎ (timed ≡ true)
  Returned a_late message = timed ≡ true
  Returned _ message = Unit {0}

  abbrev Safe : Meeting → Type 0
  Safe m = Phase m.finisher m.state m.message × Returned m.waiter m.message

  terminal-Phase :
      (f : Finisher) (s : TaskState) (message : Bytes)
      → Phase f s message
      → is_terminal s ≡ true
      → (s ≡ ending_state end) × (message ≡ ending_message end)
  terminal-Phase f_message s message p h =
      let k = subst (λ x. is_terminal x ≡ true) p h in absurd (cc)
  terminal-Phase f_store s message (p, q) h =
      let k = subst (λ x. is_terminal x ≡ true) p h in absurd (cc)
  terminal-Phase f_notify s message p h = p
  terminal-Phase f_done s message p h = p

  waiter_step-Safe : (pc : Waiter) (m : Meeting) → pc ≡ m.waiter → Safe m → Safe (waiter_step pc m)
  unfolding waiter_step
  waiter_step-Safe a_enter m e (p, r) = (p, tt)
  waiter_step-Safe a_test m e (p, r) = elim (Bool-cases (is_terminal m.state)) [
    | inl h ↦ rw h (p, inl (terminal-Phase m.finisher m.state m.message p h))
    | inr h ↦ rw h (p, tt)
  ]
  waiter_step-Safe a_going m e (p, r) = (p, tt)
  waiter_step-Safe a_waiting m e (p, r) = (p, tt)
  waiter_step-Safe a_woken m e (p, r) = (p, tt)
  waiter_step-Safe a_late m e (p, r) = (p, inr (subst (λ pc. Returned pc m.message) (sym e) r))
  waiter_step-Safe (a_returned s) m e (p, r) = (p, subst (λ pc. Returned pc m.message) (sym e) r)

  woken-Returned :
      (pc : Waiter) (message : Bytes) → Returned pc message → Returned (woken pc) message
  woken-Returned a_waiting message r = tt
  woken-Returned pc message r = r

  said-Returned :
      (pc : Waiter) (message : Bytes) → Returned pc message → Returned pc (ending_message end)
  said-Returned (a_returned s) message (inl (e, k)) = inl (e, refl)
  said-Returned (a_returned s) message (inr k) = inr k
  said-Returned pc message r = r

  finisher_step-Safe :
      (f : Finisher) (m : Meeting) → f ≡ m.finisher → Safe m → Safe (finisher_step end f m)
  unfolding finisher_step
  finisher_step-Safe f_message m e (p, r) = elim (Bool-cases (holds_lock m.waiter)) [
    | inl h ↦ rw h (p, r)
    | inr h ↦ rw h (
      (subst (λ f. Phase f m.state m.message) (sym e) p, refl),
      said-Returned m.waiter m.message r,
    )
  ]
  finisher_step-Safe f_store m e (p, r) =
      ((refl, (subst (λ f. Phase f m.state m.message) (sym e) p).1), r)
  finisher_step-Safe f_notify m e (p, r) =
      (subst (λ f. Phase f m.state m.message) (sym e) p, woken-Returned m.waiter m.message r)
  finisher_step-Safe f_done m e (p, r) = (subst (λ f. Phase f m.state m.message) (sym e) p, r)

  out_of_time-Returned :
      (pc : Waiter) (message : Bytes)
      → timed ≡ true
      → Returned pc message
      → Returned (out_of_time pc) message
  out_of_time-Returned a_waiting message h r = h
  out_of_time-Returned pc message h r = r

  happen-Safe : (h : Happening) (m : Meeting) → Safe m → Safe (happen timed end h m)
  unfolding happen
  happen-Safe waiter_moves m i = waiter_step-Safe m.waiter m refl i
  happen-Safe finisher_moves m i = finisher_step-Safe m.finisher m refl i
  happen-Safe wakes_up m (p, r) = (p, woken-Returned m.waiter m.message r)
  happen-Safe time_ends m (p, r) = elim (Bool-cases timed) [
    | inl e ↦ (
      p,
      subst (λ b. Returned (if b then out_of_time m.waiter else m.waiter) m.message) (sym e)
          (out_of_time-Returned m.waiter m.message e r),
    )
    | inr e ↦ (
      p,
      subst (λ b. Returned (if b then out_of_time m.waiter else m.waiter) m.message) (sym e) r,
    )
  ]

  meet-Safe : (schedule : List Happening) (m : Meeting) → Safe m → Safe (meet timed end schedule m)
  unfolding meet
  meet-Safe [] m i = i
  meet-Safe (h ∷ schedule) m i = meet-Safe schedule (happen timed end h m) (happen-Safe h m i)

  -- A call that has returned has given the state of the ending, with the message in place, unless it
  -- was given a timeout.
  pub await_safe :
      (schedule : List Happening) (s : TaskState)
      → let m = meet timed end schedule (new_meeting start) in
        m.waiter ≡ a_returned s
        → ((s ≡ ending_state end) × (m.message ≡ ending_message end)) ⊎ (timed ≡ true)
  await_safe schedule s e =
      let m = meet timed end schedule (new_meeting start) in
      subst (λ pc. Returned pc m.message) e (meet-Safe schedule (new_meeting start) (refl, tt)).1
