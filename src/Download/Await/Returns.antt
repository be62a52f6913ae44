-- ===== src/Download/Await/Returns.antt =====
-- That `awaitCompletion` returns where the state is not stored into the gap before the wait.
use binder.Prelude.{
  ℕ, suc, ◌+◌, ◌-◌, ◌≤◌, Bool, true, List, [], ◌∷◌, ◌++◌, if◌then◌else◌, ◌≡◌, ◌≢◌, refl, sym, ap,
  ◌∙◌, subst, arith, inl, inr, Bool-cases,
}
use binder.Download.Task.{
  TaskState, is_terminal, Ending, failing, canceling, completing, ending_state,
}
use binder.Download.Await.{
  Waiter, a_enter, a_test, a_going, a_waiting, a_woken, a_late, a_returned, Finisher, f_message,
  f_store, f_notify, f_done, Meeting, waiter_step, woken, out_of_time, finisher_step, Happening,
  waiter_moves, finisher_moves, wakes_up, time_ends, happen, meet,
}

meet-append :
    (timed : Bool) (end : Ending) (a b : List Happening) (m : Meeting)
    → meet timed end (a ++ b) m ≡ meet timed end b (meet timed end a m)
unfolding meet
meet-append timed end [] b m = refl
meet-append timed end (h ∷ a) b m = meet-append timed end a b (happen timed end h m)

ending-terminal : (end : Ending) → is_terminal (ending_state end) ≡ true
unfolding is_terminal
ending-terminal (failing e why) = refl
ending-terminal (canceling n) = refl
ending-terminal (completing n ms) = refl

-- After the store: the waiting thread is not on its way into the wait, and not in it once it has been
-- notified.
abbrev Clear : Finisher → Waiter → Type 0
Clear f_notify a_going = ⊥
Clear f_notify _ = Unit {0}
Clear f_done a_going = ⊥
Clear f_done a_waiting = ⊥
Clear f_done _ = Unit {0}
Clear _ _ = ⊥

abbrev Past : Meeting → Type 0
Past m = (is_terminal m.state ≡ true) × Clear m.finisher m.waiter

-- The steps that the waiting thread still needs.
abbrev rank : Waiter → ℕ
rank a_enter = 2
rank a_woken = 2
rank a_test = 1
rank a_late = 1
rank (a_returned s) = 0
rank _ = 3

abbrev pub waiter_count : List Happening → ℕ
waiter_count [] = 0
waiter_count (waiter_moves ∷ schedule) = suc (waiter_count schedule)
waiter_count (_ ∷ schedule) = waiter_count schedule

-- What a step of the waiting thread does behind the store.
waiter_step-Clear :
    (f : Finisher) (m : Meeting)
    → is_terminal m.state ≡ true
    → (pc : Waiter) → Clear f pc
    → (Clear f (waiter_step pc m).waiter)
      × (f ≡ f_done → rank (waiter_step pc m).waiter ≤ rank pc - 1)
unfolding waiter_step
waiter_step-Clear f_message m t pc c = absurd c
waiter_step-Clear f_store m t pc c = absurd c
waiter_step-Clear f_notify m t a_test c = rw t (tt, λ h. cc)
waiter_step-Clear f_notify m t a_going c = absurd c
waiter_step-Clear f_notify m t pc c = (tt, λ h. cc)
waiter_step-Clear f_done m t a_test c = rw t (tt, λ h. omega arith)
waiter_step-Clear f_done m t a_going c = absurd c
waiter_step-Clear f_done m t a_waiting c = absurd c
waiter_step-Clear f_done m t pc c = (tt, λ h. omega arith)

waiter_step-rest :
    (pc : Waiter) (m : Meeting)
    → ((waiter_step pc m).state ≡ m.state) × ((waiter_step pc m).finisher ≡ m.finisher)
unfolding waiter_step
waiter_step-rest a_test m = (refl, refl)
waiter_step-rest pc m = (refl, refl)

-- What a wake-up or the end of the time does to it: nothing where it has been notified.
abbrev Calm : (Waiter → Waiter) → Type 0
Calm g =
    (f : Finisher) (pc : Waiter)
    → Clear f pc
    → Clear f (g pc) × (f ≡ f_done → rank (g pc) ≤ rank pc)

woken-Calm : Calm woken
woken-Calm f_message pc c = absurd c
woken-Calm f_store pc c = absurd c
woken-Calm f_notify a_waiting c = (tt, λ h. cc)
woken-Calm f_notify a_going c = absurd c
woken-Calm f_notify pc c = (tt, λ h. cc)
woken-Calm f_done a_waiting c = absurd c
woken-Calm f_done a_going c = absurd c
woken-Calm f_done pc c = (tt, λ h. omega arith)

out_of_time-Calm : Calm out_of_time
out_of_time-Calm f_message pc c = absurd c
out_of_time-Calm f_store pc c = absurd c
out_of_time-Calm f_notify a_going c = absurd c
out_of_time-Calm f_notify pc c = (tt, λ h. cc)
out_of_time-Calm f_done a_waiting c = absurd c
out_of_time-Calm f_done a_going c = absurd c
out_of_time-Calm f_done pc c = (tt, λ h. omega arith)

module _ (timed : Bool) (end : Ending) where
  -- From one meeting to another, behind the store.
  record Goes (n : ℕ) (m m' : Meeting) : Type 0 where
    past : Past m'
    stays_done : m.finisher ≡ f_done → m'.finisher ≡ f_done
    nearer : m.finisher ≡ f_done → rank m'.waiter ≤ rank m.waiter - n

  Calm-Goes :
      (g : Waiter → Waiter) (m : Meeting)
      → Calm g
      → Past m
      → Goes 0 m (record m { waiter = g m.waiter })
  Calm-Goes g m calm (t, c) =
      let (c', r) = calm m.finisher m.waiter c in
      record { past = (t, c'); stays_done = λ h. h; nearer = λ h. omega (arith, r h) }

  waiter_step-Goes : (m : Meeting) → Past m → Goes 1 m (waiter_step m.waiter m)
  waiter_step-Goes m (t, c) =
      let (c', r) = waiter_step-Clear m.finisher m t m.waiter c in
      let (s, f) = waiter_step-rest m.waiter m in
      record {
        past = (
          subst (λ x. is_terminal x ≡ true) (sym s) t,
          subst (λ x. Clear x (waiter_step m.waiter m).waiter) (sym f) c',
        );
        stays_done = λ h. f ∙ h;
        nearer = r;
      }

  finisher_step-Past :
      (f : Finisher) (m : Meeting)
      → is_terminal m.state ≡ true
      → Clear f m.waiter
      → Past (finisher_step end f m)
        × ((finisher_step end f m).finisher ≡ f_done)
        × (f ≡ f_done → rank (finisher_step end f m).waiter ≤ rank m.waiter)
  unfolding finisher_step
  finisher_step-Past f_message m t c = absurd c
  finisher_step-Past f_store m t c = absurd c
  finisher_step-Past f_notify m t c = ((t, notified m.waiter c), refl, λ h. cc)
    where
      notified : (pc : Waiter) → Clear f_notify pc → Clear f_done (woken pc)
      notified a_going c = absurd c
      notified pc c = tt
  finisher_step-Past f_done m t c = ((t, c), refl, λ h. omega arith)

  abbrev moves_of : Happening → ℕ
  moves_of waiter_moves = 1
  moves_of _ = 0

  happen-Goes : (h : Happening) (m : Meeting) → Past m → Goes (moves_of h) m (happen timed end h m)
  unfolding happen
  happen-Goes waiter_moves m p = waiter_step-Goes m p
  happen-Goes finisher_moves m (t, c) =
      let (p, f, r) = finisher_step-Past m.finisher m t c in
      record { past = p; stays_done = λ h. f; nearer = λ h. omega (arith, r h) }
  happen-Goes wakes_up m p = Calm-Goes woken m woken-Calm p
  happen-Goes time_ends m p = elim (Bool-cases timed) [
    | inl e ↦
        subst (λ b. Goes 0 m (record m { waiter = if b then out_of_time m.waiter else m.waiter }))
          (sym e) (Calm-Goes out_of_time m out_of_time-Calm p)
    | inr e ↦
        subst (λ b. Goes 0 m (record m { waiter = if b then out_of_time m.waiter else m.waiter }))
          (sym e) (Calm-Goes (λ pc. pc) m (λ f pc c. (c, λ h. omega arith)) p)
  ]

  meet-Goes :
      (schedule : List Happening) (m : Meeting)
      → Past m
      → Goes (waiter_count schedule) m (meet timed end schedule m)
  unfolding meet
  meet-Goes [] m p = record { past = p; stays_done = λ h. h; nearer = λ h. omega arith }
  meet-Goes (h ∷ schedule) m p =
      let first = happen-Goes h m p in
      let rest = meet-Goes schedule (happen timed end h m) first.past in
      record {
        past = rest.past;
        stays_done = λ k. rest.stays_done (first.stays_done k);
        nearer =
            λ k. omega (arith, first.nearer k, rest.nearer (first.stays_done k), count h schedule);
      }
    where
      count :
          (h : Happening) (schedule : List Happening)
          → waiter_count (h ∷ schedule) ≡ moves_of h + waiter_count schedule
      count waiter_moves schedule = omega arith
      count _ schedule = omega arith

  rank_zero : (pc : Waiter) → rank pc ≤ 0 → (s : TaskState) × (pc ≡ a_returned s)
  rank_zero (a_returned s) h = (s, refl)
  rank_zero pc h = absurd (omega arith)

  stored-Clear : (pc : Waiter) → pc ≢ a_going → Clear f_notify pc
  stored-Clear a_going h = absurd (h refl)
  stored-Clear pc h = tt

  -- Where `finish` is about to store the state and the waiting thread is not between the predicate and
  -- the wait, `awaitCompletion` returns: once `finish` has made its last two steps and the waiting
  -- thread three more, whatever happens in between.
  pub await_returns :
      (middle later : List Happening) (m : Meeting)
      → m.finisher ≡ f_store
      → m.waiter ≢ a_going
      → 3 ≤ waiter_count later
      → (s : TaskState) × ((meet timed end
            (finisher_moves ∷ (middle ++ (finisher_moves ∷ later)))
            m).waiter
          ≡ a_returned s)
  unfolding meet happen finisher_step
  await_returns middle later m storing outside enough =
      let stored : Meeting = record m { state = ending_state end; finisher = f_notify } in
      let between = meet-Goes middle stored (ending-terminal end, stored-Clear m.waiter outside) in
      let x = meet timed end middle stored in
      let (t, c) = between.past in
      let (p, done, r) = finisher_step-Past x.finisher x t c in
      let rest = meet-Goes later (finisher_step end x.finisher x) p in
      let (s, e) =
        rank_zero (meet timed end later (finisher_step end x.finisher x)).waiter
          (omega (arith, rest.nearer done, rank_bound (finisher_step end x.finisher x).waiter)) in
      (
        s,
        ap
              (λ f.
                (meet timed end (middle ++ (finisher_moves ∷ later))
                  (finisher_step end f m)).waiter)
              storing
            ∙ ap (λ (y : Meeting). y.waiter)
                (meet-append timed end middle (finisher_moves ∷ later) stored)
            ∙ e,
      )
    where
      rank_bound : (pc : Waiter) → rank pc ≤ 3
      rank_bound a_test = omega arith
      rank_bound pc = omega arith
