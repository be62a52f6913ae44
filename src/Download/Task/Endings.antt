-- ===== src/Download/Task/Endings.antt =====
-- How a download ends.
use binder.Prelude.{
  ℕ, suc, ℤ, Bool, true, false, ◌||◌, List, [], ◌∷◌, ◌++◌, ltb, ◌-◌, ◌≤◌, if◌then◌else◌, Option,
  none, some, ◌≡◌, refl, sym, ◌∙◌, ap, subst, append-nil, Bool-cases, inl, inr, arith,
}
use binder.Text.{Bytes}
use binder.Download.Task.{
  TaskState, is_terminal, Error, Fetched, fetched, service_error, transaction_error, Env, Ending,
  Worker, w_start, w_dir, w_size, w_open, w_proxy, w_new_id, w_rename, w_sized, w_cancel_done,
  w_ended, w_publish, w_check, w_dup, w_fetch, w_written, w_refused, w_lost, w_fail, w_message,
  w_state, w_callback, Caller, c_look, c_flag, c_read, c_ignored, c_unread, c_send, c_sent, Call,
  on_started, on_progress, on_ending, World, ending_state, ending_message, or_fail, with_id,
  after_fetch, worker_step, caller_step, relay_start, relay_bytes, client_interval_ms, Thread,
  worker_steps, caller_steps, response_starts, bytes_arrive, step, run, new_world,
}

-- The terminal calls among the calls of the client's callback.
unfoldable pub endings : List Call → List Ending
endings [] = []
endings (on_started total offset ∷ calls) = endings calls
endings (on_progress done total percent rate ∷ calls) = endings calls
endings (on_ending end ∷ calls) = end ∷ endings calls

endings-append : (a b : List Call) → endings (a ++ b) ≡ endings a ++ endings b
unfolding endings
endings-append [] b = refl
endings-append (on_started total offset ∷ a) b = endings-append a b
endings-append (on_progress done total percent rate ∷ a) b = endings-append a b
endings-append (on_ending end ∷ a) b = ap (◌∷◌ end) (endings-append a b)

-- What is true of the task and of the terminal calls so far, by where the worker is.
abbrev pub Told : Worker → TaskState → Bytes → List Ending → Type 0
Told (w_state end) s message told =
    (is_terminal s ≡ false) × (message ≡ ending_message end) × (told ≡ [])
Told (w_callback end) s message told =
    (s ≡ ending_state end) × (message ≡ ending_message end) × (told ≡ [])
Told w_ended s message told =
    (end : Ending) × (s ≡ ending_state end) × (message ≡ ending_message end) × (told ≡ end ∷ [])
Told _ s message told = (is_terminal s ≡ false) × (told ≡ [])

abbrev Holds : World → Type 0
Holds w = Told w.worker w.task.state w.task.message (endings w.calls)

abbrev Early : TaskState → List Ending → Type 0
Early s told = (is_terminal s ≡ false) × (told ≡ [])

or_fail-Told :
    (o : Option Bytes) (e : Error) (s : TaskState) (message : Bytes) (told : List Ending)
    (next : Worker)
    → Early s told
    → Told next s message told
    → Told (or_fail o e next) s message told
or_fail-Told none e s message told next i h = h
or_fail-Told (some why) e s message told next i h = i

with_id-Told :
    (env : Env) (o : Option ℕ) (s : TaskState) (message : Bytes) (told : List Ending)
    → Early s told
    → Told (with_id env o) s message told
with_id-Told env none s message told i = i
with_id-Told env (some id) s message told i = i

after_fetch-Told :
    (f : Fetched) (s : TaskState) (message : Bytes) (told : List Ending)
    → Early s told
    → Told (after_fetch f) s message told
after_fetch-Told (fetched n) s message told i = i
after_fetch-Told (service_error b why) s message told i = i
after_fetch-Told (transaction_error why) s message told i = i

if-Told :
    (t : Bool) (a b : Worker) (s : TaskState) (message : Bytes) (told : List Ending)
    → Told a s message told
    → Told b s message told
    → Told (if t then a else b) s message told
if-Told true a b s message told i j = i
if-Told false a b s message told i j = j

module _ (env : Env) where
  worker_step-Holds :
      (pc : Worker) (w : World)
      → Told pc w.task.state w.task.message (endings w.calls)
      → Holds (worker_step env pc w)
  unfolding worker_step is_terminal endings
  worker_step-Holds w_start w i = (refl, i.1)
  worker_step-Holds w_dir w i = or_fail-Told env.parent_dir _ _ _ _ w_size i i
  worker_step-Holds w_size w i = i
  worker_step-Holds w_open w i = or_fail-Told env.open_part _ _ _ _ w_proxy i i
  worker_step-Holds w_proxy w i = or_fail-Told env.http_service _ _ _ _ w_new_id i i
  worker_step-Holds w_new_id w i = with_id-Told env env.new_request_id _ _ _ i
  worker_step-Holds (w_publish id) w i = i
  worker_step-Holds (w_check id) w i = if-Told w.task.cancel_flag w_cancel_done (w_dup id) _ _ _ i i
  worker_step-Holds (w_dup id) w i = or_fail-Told env.dup_part _ _ _ _ (w_fetch id) i i
  worker_step-Holds (w_fetch id) w i = after_fetch-Told env.fetch _ _ _ i
  worker_step-Holds (w_refused is_canceled why) w i =
      if-Told (w.task.cancel_flag || is_canceled) w_cancel_done _ _ _ _ i i
  worker_step-Holds (w_lost why) w i = if-Told w.task.cancel_flag w_cancel_done _ _ _ _ i i
  worker_step-Holds (w_written n) w i = i
  worker_step-Holds w_rename w i = or_fail-Told env.rename_part _ _ _ _ w_sized i i
  worker_step-Holds w_sized w i = i
  worker_step-Holds w_cancel_done w i = i
  worker_step-Holds (w_fail e why) w i = i
  worker_step-Holds (w_message end) w i = (i.0, refl, i.1)
  worker_step-Holds (w_state end) w (s, m, t) = (refl, m, t)
  worker_step-Holds (w_callback end) w (s, m, t) = (
    end,
    s,
    m,
    endings-append w.calls (on_ending end ∷ []) ∙ ap (λ l. l ++ endings (on_ending end ∷ [])) t,
  )
  worker_step-Holds w_ended w i = i

  caller_step-Told :
      (pc : Worker) (c : Caller) (w : World)
      → Told pc w.task.state w.task.message (endings w.calls)
      → let w' = caller_step env c w in Told pc w'.task.state w'.task.message (endings w'.calls)
  unfolding caller_step
  caller_step-Told pc c_look w i = i
  caller_step-Told pc c_flag w i = i
  caller_step-Told pc c_read w i = i
  caller_step-Told pc (c_send id) w i = i
  caller_step-Told pc c_ignored w i = i
  caller_step-Told pc c_unread w i = i
  caller_step-Told pc (c_sent id) w i = i

  caller_step-worker : (c : Caller) (w : World) → (caller_step env c w).worker ≡ w.worker
  unfolding caller_step
  caller_step-worker c_look w = refl
  caller_step-worker c_flag w = refl
  caller_step-worker c_read w = refl
  caller_step-worker (c_send id) w = refl
  caller_step-worker c_ignored w = refl
  caller_step-worker c_unread w = refl
  caller_step-worker (c_sent id) w = refl

-- One more call that is not a terminal one.
one_more :
    (pc : Worker) (s : TaskState) (message : Bytes) (calls : List Call) (call : Call)
    → endings (call ∷ []) ≡ []
    → Told pc s message (endings calls)
    → Told pc s message (endings (calls ++ (call ∷ [])))
one_more pc s message calls call e i =
    subst (Told pc s message)
      (sym (
        endings-append calls (call ∷ [])
        ∙ ap (λ (l : List Ending). endings calls ++ l) e
        ∙ append-nil (endings calls)))
      i

relay_start-Holds :
    (offset : ℕ) (total : ℤ) (now : ℕ) (w : World)
    → Holds w
    → Holds (relay_start offset total now w)
unfolding relay_start endings
relay_start-Holds offset total now w i =
    one_more w.worker w.task.state w.task.message w.calls (on_started total offset) refl i

relay_bytes-Holds :
    (received : ℕ) (total : ℤ) (now : ℕ) (w : World)
    → Holds w
    → Holds (relay_bytes received total now w)
unfolding relay_bytes endings
relay_bytes-Holds received total now w i =
    elim (Bool-cases (ltb (now - w.last_report) client_interval_ms)) [
      | inl e ↦ rw e i
      | inr e ↦ rw e (one_more w.worker w.task.state w.task.message w.calls _ refl i)
    ]

relay_bytes-worker :
    (received : ℕ) (total : ℤ) (now : ℕ) (w : World)
    → (relay_bytes received total now w).worker ≡ w.worker
unfolding relay_bytes
relay_bytes-worker received total now w =
    elim (Bool-cases (ltb (now - w.last_report) client_interval_ms)) [
      | inl e ↦ rw e refl
      | inr e ↦ rw e refl
    ]

-- How many steps the worker is from its end at most.
abbrev rank : Worker → ℕ
rank w_ended = 0
rank (w_callback end) = 1
rank (w_state end) = 2
rank (w_message end) = 3
rank (w_fail e why) = 4
rank w_cancel_done = 4
rank w_sized = 4
rank w_rename = 5
rank (w_refused b why) = 5
rank (w_lost why) = 5
rank (w_written n) = 6
rank (w_fetch id) = 7
rank (w_dup id) = 8
rank (w_check id) = 9
rank (w_publish id) = 10
rank w_new_id = 11
rank w_proxy = 12
rank w_open = 13
rank w_size = 14
rank w_dir = 15
rank w_start = 16

rank-or_fail :
    (o : Option Bytes) (e : Error) (next : Worker) (n : ℕ)
    → rank next ≤ n
    → 4 ≤ n
    → rank (or_fail o e next) ≤ n
rank-or_fail none e next n h k = h
rank-or_fail (some why) e next n h k = k

rank-with_id : (env : Env) (o : Option ℕ) → rank (with_id env o) ≤ 10
rank-with_id env none = omega arith
rank-with_id env (some id) = omega arith

rank-after_fetch : (f : Fetched) → rank (after_fetch f) ≤ 6
rank-after_fetch (fetched n) = omega arith
rank-after_fetch (service_error b why) = omega arith
rank-after_fetch (transaction_error why) = omega arith

rank-if :
    (t : Bool) (a b : Worker) (n : ℕ) → rank a ≤ n → rank b ≤ n → rank (if t then a else b) ≤ n
rank-if true a b n h k = h
rank-if false a b n h k = k

-- The worker's steps in a schedule.
abbrev pub worker_count : List Thread → ℕ
worker_count [] = 0
worker_count (worker_steps ∷ schedule) = suc (worker_count schedule)
worker_count (caller_steps ∷ schedule) = worker_count schedule
worker_count (response_starts offset total now ∷ schedule) = worker_count schedule
worker_count (bytes_arrive received total now ∷ schedule) = worker_count schedule

module _ (env : Env) where
  rank-worker_step : (pc : Worker) (w : World) → rank (worker_step env pc w).worker ≤ rank pc - 1
  unfolding worker_step
  rank-worker_step w_start w = omega arith
  rank-worker_step w_dir w = rank-or_fail env.parent_dir _ _ 14 (omega arith) (omega arith)
  rank-worker_step w_size w = omega arith
  rank-worker_step w_open w = rank-or_fail env.open_part _ _ 12 (omega arith) (omega arith)
  rank-worker_step w_proxy w = rank-or_fail env.http_service _ _ 11 (omega arith) (omega arith)
  rank-worker_step w_new_id w = rank-with_id env env.new_request_id
  rank-worker_step (w_publish id) w = omega arith
  rank-worker_step (w_check id) w = rank-if w.task.cancel_flag _ _ 8 (omega arith) (omega arith)
  rank-worker_step (w_dup id) w = rank-or_fail env.dup_part _ _ 7 (omega arith) (omega arith)
  rank-worker_step (w_fetch id) w = rank-after_fetch env.fetch
  rank-worker_step (w_refused is_canceled why) w =
      rank-if (w.task.cancel_flag || is_canceled) _ _ 4 (omega arith) (omega arith)
  rank-worker_step (w_lost why) w = rank-if w.task.cancel_flag _ _ 4 (omega arith) (omega arith)
  rank-worker_step (w_written n) w = omega arith
  rank-worker_step w_rename w = rank-or_fail env.rename_part _ _ 4 (omega arith) (omega arith)
  rank-worker_step w_sized w = omega arith
  rank-worker_step w_cancel_done w = omega arith
  rank-worker_step (w_fail e why) w = omega arith
  rank-worker_step (w_message end) w = omega arith
  rank-worker_step (w_state end) w = omega arith
  rank-worker_step (w_callback end) w = omega arith
  rank-worker_step w_ended w = omega arith

  step-Holds : (t : Thread) (w : World) → Holds w → Holds (step env t w)
  unfolding step
  step-Holds worker_steps w i = worker_step-Holds env w.worker w i
  step-Holds caller_steps w i =
      subst
        (λ pc.
          Told pc (caller_step env w.caller w).task.state (caller_step env w.caller w).task.message
            (endings (caller_step env w.caller w).calls))
        (sym (caller_step-worker env w.caller w)) (caller_step-Told env w.worker w.caller w i)
  step-Holds (response_starts offset total now) w i = relay_start-Holds offset total now w i
  step-Holds (bytes_arrive received total now) w i = relay_bytes-Holds received total now w i

  rank-run :
      (schedule : List Thread) (w : World)
      → rank (run env schedule w).worker ≤ rank w.worker - worker_count schedule
  unfolding run step relay_start
  rank-run [] w = omega arith
  rank-run (worker_steps ∷ schedule) w =
      omega (arith, rank-run schedule (worker_step env w.worker w), rank-worker_step w.worker w)
  rank-run (caller_steps ∷ schedule) w = omega (
    arith,
    rank-run schedule (caller_step env w.caller w),
    ap rank (caller_step-worker env w.caller w),
  )
  rank-run (response_starts offset total now ∷ schedule) w =
      rank-run schedule (relay_start offset total now w)
  rank-run (bytes_arrive received total now ∷ schedule) w = omega (
    arith,
    rank-run schedule (relay_bytes received total now w),
    ap rank (relay_bytes-worker received total now w),
  )

  run-Holds : (schedule : List Thread) (w : World) → Holds w → Holds (run env schedule w)
  unfolding run
  run-Holds [] w i = i
  run-Holds (t ∷ schedule) w i = run-Holds schedule (step env t w) (step-Holds t w i)

  new_world-Holds : Holds new_world
  unfolding is_terminal endings
  new_world-Holds = (refl, refl)

  rank_zero : (pc : Worker) → rank pc ≤ 0 → pc ≡ w_ended
  rank_zero w_ended h = refl
  rank_zero pc h = absurd (omega arith)

  -- A download ends, and says so once: however the worker, a cancel and the progress reports
  -- interleave, when the worker has made sixteen steps it is at its end, the task's state is a
  -- terminal one with the message that goes with it, and the client's callback has got exactly one
  -- terminal call, the one for that state.
  pub download_ends :
      (schedule : List Thread)
      → 16 ≤ worker_count schedule
      → let w = run env schedule new_world in
        (end : Ending) × (w.task.state ≡ ending_state end)
        × (w.task.message ≡ ending_message end)
        × (endings w.calls ≡ end ∷ [])
  download_ends schedule h =
      let w = run env schedule new_world in
      let at_end = rank_zero w.worker (omega (arith, rank-run schedule new_world)) in
      subst (λ pc. Told pc w.task.state w.task.message (endings w.calls)) at_end
        (run-Holds schedule new_world new_world-Holds)
