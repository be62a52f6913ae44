-- ===== src/Client/Waiting/Exits.antt =====
-- What `main` of the client returns.
use binder.Prelude.{
  ℕ, Bool, true, false, List, [], ◌∷◌, ◌++◌, ◌≤◌, Option, none, some, ◌≡◌, ◌≢◌, ◌⊎◌, ◌↔◌, refl, sym,
  ap, ◌∙◌, subst, inl, inr, some_inj, suc, arith,
}
use binder.Text.{Bytes}
use binder.Download.Task.{
  TaskState, completed, failed, canceled, Call, on_started, on_progress, on_ending, Ending, failing,
  canceling, completing, ending_state, Env, Thread, run, new_world,
}
use binder.Download.Task.Endings.{endings, worker_count, download_ends}
use binder.Client.Options.{Options, parse_args}
use binder.Client.Waiting.{
  Event, called, died, looks, settled, await, Exit, exit_code, after_await, with_options,
  client_main,
}
use binder.Client.Waiting.Told.{delivered, lives, await-died, await_told}

-- A completion has been delivered.
abbrev Completes : List Event → Type 0
Completes events =
    (n ms : ℕ) × (front back : List Call) × (delivered events
      ≡ front ++ (on_ending (completing n ms) ∷ back))

then_Completes : (c : Call) (events : List Event) → Completes events → Completes (called c ∷ events)
then_Completes c events (n, ms, front, back, e) = (n, ms, c ∷ front, back, ap (◌∷◌ c) e)

await-completed :
    (events : List Event) (state : Option TaskState)
    → await events state ≡ some completed
    → (state ≡ some completed) ⊎ Completes events
unfolding await
await-completed [] state h = absurd (cc)
await-completed (called (on_started total offset) ∷ events) state h =
    elim (await-completed events state h) [
      | inl e ↦ inl e
      | inr c ↦ inr (then_Completes _ events c)
    ]
await-completed (called (on_progress done total percent rate) ∷ events) state h =
    elim (await-completed events state h) [
      | inl e ↦ inl e
      | inr c ↦ inr (then_Completes _ events c)
    ]
await-completed (called (on_ending (failing code why)) ∷ events) state h =
    elim (await-completed events (some failed) h) [
      | inl e ↦ absurd (cc)
      | inr c ↦ inr (then_Completes _ events c)
    ]
await-completed (called (on_ending (canceling n)) ∷ events) state h =
    elim (await-completed events (some canceled) h) [
      | inl e ↦ absurd (cc)
      | inr c ↦ inr (then_Completes _ events c)
    ]
await-completed (called (on_ending (completing n ms)) ∷ events) state h =
    inr (n, ms, [], delivered events, refl)
await-completed (died ∷ events) state h = elim (await-completed events (some failed) h) [
  | inl e ↦ absurd (cc)
  | inr c ↦ inr c
]
await-completed (looks ∷ events) none h = await-completed events none h
await-completed (looks ∷ events) (some state) h = inl h

exit_code_iff : (state : TaskState) → (exit_code state ≡ 0) ↔ (state ≡ completed)
exit_code_iff completed = (λ h. refl, λ h. refl)
exit_code_iff _ = (λ h. cc, λ h. cc)

settled-ending_state : (end : Ending) → settled end ≡ ending_state end
settled-ending_state (failing e why) = refl
settled-ending_state (canceling n) = refl
settled-ending_state (completing n ms) = refl

-- The client and the service tell the same story: with good arguments and an accepted download that
-- has run to its end under any interleaving, once the service's calls have been delivered in their
-- order and `main` has looked, it exits, and with 0 exactly if the download is completed.
pub client_main-run :
    (env : Env) (schedule : List Thread) (cwd : Option Bytes) (args : List Bytes)
    (options : Options) (id : ℕ) (before later : List Event)
    → 16 ≤ worker_count schedule
    → parse_args cwd args ≡ some options
    → let w = run env schedule new_world in
      delivered before ≡ w.calls
      → lives before ≡ true
      → (e : Exit) × (client_main cwd args true (some id) (before ++ (looks ∷ later)) ≡ some e)
        × ((e.code ≡ 0) ↔ (w.task.state ≡ completed))
unfolding client_main
client_main-run env schedule cwd args options id before later enough parsed told alive =
    let (end, state, message, once) = download_ends env schedule enough in
    let ends = await_told before later end (ap endings told ∙ once) alive in
    let same = settled-ending_state end ∙ sym state in
    rw (parsed, ends)
      (
        _,
        refl,
        subst (λ s. (exit_code (settled end) ≡ 0) ↔ (s ≡ completed)) same
            (exit_code_iff (settled end)),
      )

after_await-some :
    (options : Options) (id : ℕ) (o : Option TaskState) → o ≢ none → after_await options id o ≢ none
after_await-some options id none h = λ e. h refl
after_await-some options id (some state) h = λ e. cc

-- The client is never stranded: whatever has come before it, a death of the service ends the wait
-- when `main` next looks.
pub client_main-died :
    (cwd : Option Bytes) (args : List Bytes) (registered : Bool) (answer : Option ℕ)
    (before middle later : List Event)
    → client_main cwd args registered answer (before ++ (died ∷ (middle ++ (looks ∷ later)))) ≢ none
unfolding client_main
client_main-died cwd args registered answer before middle later =
    go (parse_args cwd args) registered answer
  where
    go :
        (o : Option Options) (registered : Bool) (answer : Option ℕ)
        → with_options registered answer (before ++ (died ∷ (middle ++ (looks ∷ later)))) o ≢ none
    go none registered answer = λ e. cc
    go (some options) false answer = λ e. cc
    go (some options) true none = λ e. cc
    go (some options) true (some id) =
        after_await-some options id _ (await-died before middle later none)

after_await-zero :
    (options : Options) (id : ℕ) (o : Option TaskState) (e : Exit)
    → after_await options id o ≡ some e
    → e.code ≡ 0
    → o ≡ some completed
after_await-zero options id none e h zeroed = absurd (cc)
after_await-zero options id (some state) e h zeroed =
    ap some ((exit_code_iff state).0 (ap (λ (x : Exit). x.code) (some_inj h) ∙ zeroed))

-- The client exits with 0 only if the service has told it that the download is complete.
pub client_main-completed :
    (cwd : Option Bytes) (args : List Bytes) (registered : Bool) (answer : Option ℕ)
    (events : List Event) (e : Exit)
    → client_main cwd args registered answer events ≡ some e
    → e.code ≡ 0
    → (n ms : ℕ) × (front back : List Call) × (delivered events
        ≡ front ++ (on_ending (completing n ms) ∷ back))
unfolding client_main
client_main-completed cwd args registered answer events e h zeroed =
    go (parse_args cwd args) registered answer h
  where
    code_of : (k : ℕ) (x : Exit) → some x ≡ some e → x.code ≡ suc k → Completes events
    code_of k x h c = absurd (omega (arith, ap (λ (y : Exit). y.code) (some_inj h), zeroed, c))

    go :
        (o : Option Options) (registered : Bool) (answer : Option ℕ)
        → with_options registered answer events o ≡ some e
        → Completes events
    go none registered answer h = code_of 1 _ h refl
    go (some options) false answer h = code_of 0 _ h refl
    go (some options) true none h = code_of 0 _ h refl
    go (some options) true (some id) h =
        elim (await-completed events none (after_await-zero options id _ e h zeroed)) [
          | inl k ↦ absurd (cc)
          | inr c ↦ c
        ]
