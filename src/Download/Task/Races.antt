-- ===== src/Download/Task/Races.antt =====
-- The race of the worker and a cancel.
use binder.Prelude.{
  ℕ, ℤ, Bool, true, false, ◌||◌, List, [], ◌∷◌, ltb, ◌-◌, if◌then◌else◌, Option, none, some, ◌≡◌,
  ◌≢◌, refl, ap, Bool-cases, inl, inr,
}
use binder.Text.{Bytes}
use binder.Download.Task.{
  TaskState, pending, running, completed, failed, canceled, is_terminal, Error,
  error_bad_destination, error_io, error_http_service, error_http, Fetched, fetched, service_error,
  transaction_error, Env, failing, canceling, completing, Worker, w_start, w_dir, w_size, w_open,
  w_proxy, w_new_id, w_rename, w_sized, w_cancel_done, w_ended, w_publish, w_check, w_dup, w_fetch,
  w_written, w_refused, w_lost, w_fail, w_message, w_state, w_callback, Caller, c_look, c_flag,
  c_read, c_ignored, c_unread, c_send, c_sent, World, or_fail, with_id, after_fetch, worker_step,
  caller_step, relay_start, relay_bytes, client_interval_ms, Thread, worker_steps, caller_steps,
  response_starts, bytes_arrive, step, run, new_world,
}

-- The worker is past the publication of its request's id, on the way to completing.
abbrev is_published : Worker → Bool
is_published (w_check id) = true
is_published (w_dup id) = true
is_published (w_fetch id) = true
is_published (w_refused is_canceled why) = true
is_published (w_lost why) = true
is_published (w_written n) = true
is_published w_rename = true
is_published w_sized = true
is_published (w_message (completing n ms)) = true
is_published (w_state (completing n ms)) = true
is_published (w_callback (completing n ms)) = true
is_published _ = false

-- The worker has gone on to the transfer, or is about to complete.
abbrev pub is_let_through : Worker → Bool
is_let_through (w_dup id) = true
is_let_through (w_fetch id) = true
is_let_through (w_refused is_canceled why) = true
is_let_through (w_lost why) = true
is_let_through (w_written n) = true
is_let_through w_rename = true
is_let_through w_sized = true
is_let_through (w_message (completing n ms)) = true
is_let_through (w_state (completing n ms)) = true
is_let_through (w_callback (completing n ms)) = true
is_let_through _ = false

abbrev has_flagged : Caller → Bool
has_flagged c_look = false
has_flagged c_flag = false
has_flagged c_ignored = false
has_flagged _ = true

abbrev is_unread : Caller → Bool
is_unread c_unread = true
is_unread _ = false

abbrev is_some : Option ℕ → Bool
is_some none = false
is_some (some n) = true

abbrev is_completed : TaskState → Bool
is_completed completed = true
is_completed _ = false

record Inv (pc : Worker) (c : Caller) (flag : Bool) (id : Option ℕ) (s : TaskState) : Type 0 where
  flagged : has_flagged c ≡ true → flag ≡ true
  published : is_published pc ≡ true → is_some id ≡ true
  unread : is_unread c ≡ true → is_let_through pc ≡ false
  unfinished : is_unread c ≡ true → is_completed s ≡ false
  named : is_completed s ≡ true → is_some id ≡ true

abbrev Holds : World → Type 0
Holds w = Inv w.worker w.caller w.task.cancel_flag w.task.request_id w.task.state

-- A step to a place that is no further on.
moved :
    (pc pc' : Worker) (c : Caller) (flag : Bool) (id : Option ℕ) (s : TaskState)
    → Inv pc c flag id s
    → (is_published pc' ≡ true → is_published pc ≡ true)
    → (is_let_through pc ≡ false → is_let_through pc' ≡ false)
    → Inv pc' c flag id s
moved pc pc' c flag id s i p l = record {
  flagged = i.flagged;
  published = λ h. i.published (p h);
  unread = λ h. l (i.unread h);
  unfinished = i.unfinished;
  named = i.named;
}

moved_or_fail :
    (pc next : Worker) (o : Option Bytes) (e : Error) (c : Caller) (flag : Bool) (id : Option ℕ)
    (s : TaskState)
    → Inv pc c flag id s
    → (is_published next ≡ true → is_published pc ≡ true)
    → (is_let_through pc ≡ false → is_let_through next ≡ false)
    → Inv (or_fail o e next) c flag id s
moved_or_fail pc next none e c flag id s i p l = moved pc next c flag id s i p l
moved_or_fail pc next (some why) e c flag id s i p l =
    moved pc (w_fail e why) c flag id s i (λ h. cc) (λ h. refl)

moved_with_id :
    (env : Env) (o : Option ℕ) (c : Caller) (flag : Bool) (id : Option ℕ) (s : TaskState)
    → Inv w_new_id c flag id s
    → Inv (with_id env o) c flag id s
moved_with_id env none c flag id s i = moved w_new_id _ c flag id s i (λ h. cc) (λ h. refl)
moved_with_id env (some n) c flag id s i = moved w_new_id _ c flag id s i (λ h. cc) (λ h. refl)

moved_fetch :
    (n : ℕ) (f : Fetched) (c : Caller) (flag : Bool) (id : Option ℕ) (s : TaskState)
    → Inv (w_fetch n) c flag id s
    → Inv (after_fetch f) c flag id s
moved_fetch n (fetched k) c flag id s i = moved (w_fetch n) _ c flag id s i (λ h. refl) (λ h. cc)
moved_fetch n (service_error b why) c flag id s i =
    moved (w_fetch n) _ c flag id s i (λ h. refl) (λ h. cc)
moved_fetch n (transaction_error why) c flag id s i =
    moved (w_fetch n) _ c flag id s i (λ h. refl) (λ h. cc)

-- The flag decides.
moved_check :
    (n : ℕ) (c : Caller) (flag : Bool) (id : Option ℕ) (s : TaskState)
    → Inv (w_check n) c flag id s
    → Inv (if flag then w_cancel_done else w_dup n) c flag id s
moved_check n c true id s i = moved (w_check n) w_cancel_done c true id s i (λ h. cc) (λ h. refl)
moved_check n c false id s i = record {
  flagged = i.flagged;
  published = λ h. i.published refl;
  unread = unread c i.flagged;
  unfinished = i.unfinished;
  named = i.named;
}
  where
    unread :
        (d : Caller)
        → (has_flagged d ≡ true → false ≡ true)
        → is_unread d ≡ true
        → is_let_through (w_dup n) ≡ false
    unread c_look f h = cc
    unread c_flag f h = cc
    unread c_read f h = cc
    unread c_ignored f h = cc
    unread c_unread f h = absurd (let e = f refl in cc)
    unread (c_send id) f h = cc
    unread (c_sent id) f h = cc

moved_if :
    (pc a b : Worker) (t : Bool) (c : Caller) (flag : Bool) (id : Option ℕ) (s : TaskState)
    → Inv pc c flag id s
    → is_published a ≡ false
    → is_published b ≡ false
    → is_let_through a ≡ false
    → is_let_through b ≡ false
    → Inv (if t then a else b) c flag id s
moved_if pc a b true c flag id s i p q l m = moved pc a c flag id s i (λ h. cc) (λ h. l)
moved_if pc a b false c flag id s i p q l m = moved pc b c flag id s i (λ h. cc) (λ h. m)

-- A new state.
moved_state :
    (pc pc' : Worker) (c : Caller) (flag : Bool) (id : Option ℕ) (s s' : TaskState)
    → Inv pc c flag id s
    → (is_published pc' ≡ true → is_published pc ≡ true)
    → (is_let_through pc ≡ false → (is_let_through pc' ≡ false) × (is_completed s' ≡ false))
    → (is_completed s' ≡ true → is_published pc ≡ true)
    → Inv pc' c flag id s'
moved_state pc pc' c flag id s s' i p l q = record {
  flagged = i.flagged;
  published = λ h. i.published (p h);
  unread = λ h. (l (i.unread h)).0;
  unfinished = λ h. (l (i.unread h)).1;
  named = λ h. i.published (q h);
}

module _ (env : Env) where
  worker_step-Holds :
      (pc : Worker) (w : World)
      → Inv pc w.caller w.task.cancel_flag w.task.request_id w.task.state
      → Holds (worker_step env pc w)
  unfolding worker_step
  worker_step-Holds w_start w i =
      moved_state w_start w_dir _ _ _ _ running i (λ h. h) (λ h. (refl, refl)) (λ h. cc)
  worker_step-Holds w_dir w i =
      moved_or_fail w_dir w_size env.parent_dir error_bad_destination _ _ _ _ i (λ h. h) (λ h. h)
  worker_step-Holds w_size w i = moved w_size w_open _ _ _ _ i (λ h. h) (λ h. h)
  worker_step-Holds w_open w i =
      moved_or_fail w_open w_proxy env.open_part error_io _ _ _ _ i (λ h. h) (λ h. h)
  worker_step-Holds w_proxy w i =
      moved_or_fail w_proxy w_new_id env.http_service error_http_service _ _ _ _ i (λ h. h) (λ h. h)
  worker_step-Holds w_new_id w i = moved_with_id env env.new_request_id _ _ _ _ i
  worker_step-Holds (w_publish id) w i = record {
    flagged = i.flagged;
    published = λ h. refl;
    unread = λ h. refl;
    unfinished = i.unfinished;
    named = λ h. refl;
  }
  worker_step-Holds (w_check id) w i =
      moved_check id w.caller w.task.cancel_flag w.task.request_id w.task.state i
  worker_step-Holds (w_dup id) w i =
      moved_or_fail (w_dup id) (w_fetch id) env.dup_part error_io _ _ _ _ i (λ h. h) (λ h. h)
  worker_step-Holds (w_fetch id) w i = moved_fetch id env.fetch _ _ _ _ i
  worker_step-Holds (w_refused is_canceled why) w i =
      moved_if (w_refused is_canceled why) w_cancel_done (w_fail error_http why)
        (w.task.cancel_flag || is_canceled) _ _ _ _ i refl refl refl refl
  worker_step-Holds (w_lost why) w i =
      moved_if (w_lost why) w_cancel_done (w_fail error_http_service why) w.task.cancel_flag _ _ _ _
        i refl refl refl refl
  worker_step-Holds (w_written n) w i = moved (w_written n) w_rename _ _ _ _ i (λ h. h) (λ h. h)
  worker_step-Holds w_rename w i =
      moved_or_fail w_rename w_sized env.rename_part error_io _ _ _ _ i (λ h. h) (λ h. h)
  worker_step-Holds w_sized w i = moved w_sized _ _ _ _ _ i (λ h. h) (λ h. h)
  worker_step-Holds w_cancel_done w i = moved w_cancel_done _ _ _ _ _ i (λ h. cc) (λ h. h)
  worker_step-Holds (w_fail e why) w i = moved (w_fail e why) _ _ _ _ _ i (λ h. cc) (λ h. h)
  worker_step-Holds (w_message (failing e why)) w i = moved _ _ _ _ _ _ i (λ h. cc) (λ h. h)
  worker_step-Holds (w_message (canceling n)) w i = moved _ _ _ _ _ _ i (λ h. cc) (λ h. h)
  worker_step-Holds (w_message (completing n ms)) w i = moved _ _ _ _ _ _ i (λ h. h) (λ h. h)
  worker_step-Holds (w_state (failing e why)) w i =
      moved_state _ _ _ _ _ _ failed i (λ h. h) (λ h. (refl, refl)) (λ h. cc)
  worker_step-Holds (w_state (canceling n)) w i =
      moved_state _ _ _ _ _ _ canceled i (λ h. h) (λ h. (refl, refl)) (λ h. cc)
  worker_step-Holds (w_state (completing n ms)) w i =
      moved_state _ _ _ _ _ _ completed i (λ h. h) (λ h. cc) (λ h. refl)
  worker_step-Holds (w_callback end) w i =
      moved (w_callback end) w_ended _ _ _ _ i (λ h. cc) (λ h. refl)
  worker_step-Holds w_ended w i = i

published_first : (pc : Worker) → is_published pc ≡ false → is_let_through pc ≡ false
published_first (w_check id) h = refl
published_first (w_dup id) h = h
published_first (w_fetch id) h = h
published_first (w_refused b why) h = h
published_first (w_lost why) h = h
published_first (w_written n) h = h
published_first w_rename h = h
published_first w_sized h = h
published_first (w_message (completing n ms)) h = h
published_first (w_state (completing n ms)) h = h
published_first (w_callback (completing n ms)) h = h
published_first pc h = refl

not_true : (a b : Bool) → (a ≡ true → b ≡ true) → b ≡ false → a ≡ false
not_true true b f e = absurd (let g = f refl in cc)
not_true false b f e = refl

-- The read of the id: where there is none, the worker has not got past the check of the flag.
read-Holds :
    (w : World) (id : Option ℕ)
    → Inv w.worker c_read w.task.cancel_flag id w.task.state
    → Inv w.worker
        (elim id [ none ↦ c_unread | some n ↦ c_send n ])
        w.task.cancel_flag
        id
        w.task.state
read-Holds w none i = record {
  flagged = λ h. i.flagged refl;
  published = i.published;
  unread = λ h.
      published_first w.worker (not_true (is_published w.worker) (is_some none) i.published refl);
  unfinished = λ h. not_true (is_completed w.task.state) (is_some none) i.named refl;
  named = i.named;
}
read-Holds w (some n) i = record {
  flagged = λ h. i.flagged refl;
  published = i.published;
  unread = λ h. cc;
  unfinished = λ h. cc;
  named = i.named;
}

-- A step of the caller to a place where it has read, or has the flag set where it says so.
called :
    (pc : Worker) (c c' : Caller) (flag flag' : Bool) (id : Option ℕ) (s : TaskState)
    → Inv pc c flag id s
    → (has_flagged c' ≡ true → flag' ≡ true)
    → is_unread c' ≡ false
    → Inv pc c' flag' id s
called pc c c' flag flag' id s i f u = record {
  flagged = f;
  published = i.published;
  unread = λ h. cc;
  unfinished = λ h. cc;
  named = i.named;
}

module _ (env : Env) where
  caller_step-Holds :
      (c : Caller) (w : World)
      → Inv w.worker c w.task.cancel_flag w.task.request_id w.task.state
      → Holds (caller_step env c w)
  unfolding caller_step
  caller_step-Holds c_look w i = elim (Bool-cases (is_terminal w.task.state)) [
    | inl e ↦ rw e (called w.worker c_look c_ignored _ _ _ _ i (λ h. cc) refl)
    | inr e ↦ rw e (called w.worker c_look c_flag _ _ _ _ i (λ h. cc) refl)
  ]
  caller_step-Holds c_flag w i = called w.worker c_flag c_read _ true _ _ i (λ h. refl) refl
  caller_step-Holds c_read w i = read-Holds w w.task.request_id i
  caller_step-Holds (c_send id) w i =
      called w.worker (c_send id) (c_sent id) _ _ _ _ i i.flagged refl
  caller_step-Holds c_ignored w i = i
  caller_step-Holds c_unread w i = i
  caller_step-Holds (c_sent id) w i = i

  relay_bytes-Holds :
      (received : ℕ) (total : ℤ) (now : ℕ) (w : World)
      → Holds w
      → Holds (relay_bytes received total now w)
  unfolding relay_bytes
  relay_bytes-Holds received total now w i =
      elim (Bool-cases (ltb (now - w.last_report) client_interval_ms)) [
        | inl e ↦ rw e i
        | inr e ↦ rw e i
      ]

  step-Holds : (t : Thread) (w : World) → Holds w → Holds (step env t w)
  unfolding step relay_start
  step-Holds worker_steps w i = worker_step-Holds env w.worker w i
  step-Holds caller_steps w i = caller_step-Holds w.caller w i
  step-Holds (response_starts offset total now) w i = i
  step-Holds (bytes_arrive received total now) w i = relay_bytes-Holds received total now w i

  run-Holds : (schedule : List Thread) (w : World) → Holds w → Holds (run env schedule w)
  unfolding run
  run-Holds [] w i = i
  run-Holds (t ∷ schedule) w i = run-Holds schedule (step env t w) (step-Holds t w i)

  new_world-Holds : Holds new_world
  new_world-Holds = record {
    flagged = λ h. cc;
    published = λ h. cc;
    unread = λ h. cc;
    unfinished = λ h. cc;
    named = λ h. cc;
  }

  completed_lem : (s : TaskState) → is_completed s ≡ false → s ≢ completed
  completed_lem pending h = λ e. cc
  completed_lem running h = λ e. cc
  completed_lem completed h = cc
  completed_lem failed h = λ e. cc
  completed_lem canceled h = λ e. cc

  -- A transfer cannot sneak past a cancel: however the worker, the cancel and the progress reports
  -- interleave, when `cancel` has set the flag and found no request id to pass on, the worker has not
  -- gone on to the transfer and never completes; the flag is set, so the worker's check will see it.
  pub cancel_not_missed :
      (schedule : List Thread)
      → let w = run env schedule new_world in
        w.caller ≡ c_unread
        → (w.task.cancel_flag ≡ true)
          × (is_let_through w.worker ≡ false)
          × (w.task.state ≢ completed)
  cancel_not_missed schedule e =
      let w = run env schedule new_world in
      let i = run-Holds schedule new_world new_world-Holds in
      (
        i.flagged (ap has_flagged e),
        i.unread (ap is_unread e),
        completed_lem w.task.state (i.unfinished (ap is_unread e)),
      )
