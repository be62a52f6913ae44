-- ===== src/Download/Task/Sends.antt =====
-- What a cancel of a download passes on to the http service.
use binder.Prelude.{
  ℕ, ℤ, Bool, true, false, ◌||◌, List, [], ◌∷◌, ◌++◌, ltb, ◌-◌, if◌then◌else◌, Option, none, some,
  ◌≡◌, refl, subst, Bool-cases, inl, inr, ap,
}
use binder.Text.{Bytes}
use binder.Download.Task.{
  is_terminal, Error, Fetched, fetched, service_error, transaction_error, Env, Worker, w_start,
  w_dir, w_open, w_proxy, w_new_id, w_rename, w_publish, w_check, w_dup, w_fetch, w_refused, w_lost,
  Caller, c_look, c_flag, c_read, c_ignored, c_unread, c_send, c_sent, World, or_fail, with_id,
  after_fetch, worker_step, caller_step, relay_start, relay_bytes, client_interval_ms, Thread,
  worker_steps, caller_steps, response_starts, bytes_arrive, step, run, new_world,
}

module _ (env : Env) where
  abbrev PublishAt : Worker → Type 0
  PublishAt (w_publish id) = env.new_request_id ≡ some id
  PublishAt _ = Unit {0}

  abbrev Known : Option ℕ → Type 0
  Known none = Unit {0}
  Known (some id) = env.new_request_id ≡ some id

  -- What has been passed on, by where the cancel is.
  abbrev pub CallerAt : Caller → Bool → List ℕ → Type 0
  CallerAt c_read flag ids = (flag ≡ true) × (ids ≡ [])
  CallerAt c_unread flag ids = (flag ≡ true) × (ids ≡ [])
  CallerAt (c_send id) flag ids = (flag ≡ true) × (ids ≡ []) × (env.new_request_id ≡ some id)
  CallerAt (c_sent id) flag ids =
      (flag ≡ true)
      × (ids ≡ (if env.cancel_proxy then id ∷ [] else []))
      × (env.new_request_id ≡ some id)
  CallerAt _ flag ids = ids ≡ []

  abbrev Holds : World → Type 0
  Holds w =
      PublishAt w.worker
      × Known w.task.request_id
      × CallerAt w.caller w.task.cancel_flag w.canceled_ids

  or_fail-PublishAt :
      (o : Option Bytes) (e : Error) (next : Worker) → PublishAt next → PublishAt (or_fail o e next)
  or_fail-PublishAt none e next h = h
  or_fail-PublishAt (some why) e next h = tt

  with_id-PublishAt : (o : Option ℕ) → env.new_request_id ≡ o → PublishAt (with_id env o)
  with_id-PublishAt none h = tt
  with_id-PublishAt (some id) h = h

  after_fetch-PublishAt : (f : Fetched) → PublishAt (after_fetch f)
  after_fetch-PublishAt (fetched n) = tt
  after_fetch-PublishAt (service_error is_canceled why) = tt
  after_fetch-PublishAt (transaction_error why) = tt

  either-PublishAt :
      (b : Bool) (one other : Worker)
      → PublishAt one
      → PublishAt other
      → PublishAt (if b then one else other)
  either-PublishAt true one other h k = h
  either-PublishAt false one other h k = k

  worker_step-PublishAt : (pc : Worker) (w : World) → PublishAt (worker_step env pc w).worker
  unfolding worker_step
  worker_step-PublishAt w_dir w = or_fail-PublishAt env.parent_dir _ _ tt
  worker_step-PublishAt w_open w = or_fail-PublishAt env.open_part _ _ tt
  worker_step-PublishAt w_proxy w = or_fail-PublishAt env.http_service _ _ tt
  worker_step-PublishAt w_new_id w = with_id-PublishAt env.new_request_id refl
  worker_step-PublishAt (w_check id) w = either-PublishAt w.task.cancel_flag _ _ tt tt
  worker_step-PublishAt (w_dup id) w = or_fail-PublishAt env.dup_part _ _ tt
  worker_step-PublishAt (w_fetch id) w = after_fetch-PublishAt env.fetch
  worker_step-PublishAt (w_refused is_canceled why) w =
      either-PublishAt (w.task.cancel_flag || is_canceled) _ _ tt tt
  worker_step-PublishAt (w_lost why) w = either-PublishAt w.task.cancel_flag _ _ tt tt
  worker_step-PublishAt w_rename w = or_fail-PublishAt env.rename_part _ _ tt
  worker_step-PublishAt pc w = tt

  worker_step-Known :
      (pc : Worker) (w : World)
      → PublishAt pc
      → Known w.task.request_id
      → Known (worker_step env pc w).task.request_id
  unfolding worker_step
  worker_step-Known (w_publish id) w h k = h
  worker_step-Known pc w h k = k

  worker_step-CallerAt :
      (pc : Worker) (w : World)
      → CallerAt w.caller w.task.cancel_flag w.canceled_ids
      → let w' = worker_step env pc w in CallerAt w'.caller w'.task.cancel_flag w'.canceled_ids
  unfolding worker_step
  worker_step-CallerAt w_start w h = h
  worker_step-CallerAt pc w h = h

  read-CallerAt :
      (id : Option ℕ) (flag : Bool) (ids : List ℕ)
      → Known id
      → CallerAt c_read flag ids
      → CallerAt (elim id [ none ↦ c_unread | some n ↦ c_send n ]) flag ids
  read-CallerAt none flag ids k h = h
  read-CallerAt (some n) flag ids k (f, e) = (f, e, k)

  caller_step-Holds :
      (c : Caller) (w : World)
      → PublishAt w.worker
      → Known w.task.request_id
      → CallerAt c w.task.cancel_flag w.canceled_ids
      → Holds (caller_step env c w)
  unfolding caller_step
  caller_step-Holds c_look w p k h = elim (Bool-cases (is_terminal w.task.state)) [
    | inl e ↦ rw e (p, k, h)
    | inr e ↦ rw e (p, k, h)
  ]
  caller_step-Holds c_flag w p k h = (p, k, (refl, h))
  caller_step-Holds c_read w p k h =
      (p, k, read-CallerAt w.task.request_id w.task.cancel_flag w.canceled_ids k h)
  caller_step-Holds (c_send id) w p k (f, e, n) = elim (Bool-cases env.cancel_proxy) [
    | inl b ↦ rw b (p, k, (f, ap (λ (x : List ℕ). x ++ (id ∷ [])) e, n))
    | inr b ↦ rw b (p, k, (f, e, n))
  ]
  caller_step-Holds c_ignored w p k h = (p, k, h)
  caller_step-Holds c_unread w p k h = (p, k, h)
  caller_step-Holds (c_sent id) w p k h = (p, k, h)

  relay_bytes-Holds :
      (received : ℕ) (total : ℤ) (now : ℕ) (w : World)
      → Holds w
      → Holds (relay_bytes received total now w)
  unfolding relay_bytes
  relay_bytes-Holds received total now w i =
      elim (Bool-cases (ltb (now - w.last_report) client_interval_ms)) [
        | inl e ↦ rw e i
        | inr e ↦ rw e i
      ]

  step-Holds : (t : Thread) (w : World) → Holds w → Holds (step env t w)
  unfolding step relay_start
  step-Holds worker_steps w (p, k, h) = (
    worker_step-PublishAt w.worker w,
    worker_step-Known w.worker w p k,
    worker_step-CallerAt w.worker w h,
  )
  step-Holds caller_steps w (p, k, h) = caller_step-Holds w.caller w p k h
  step-Holds (response_starts offset total now) w i = i
  step-Holds (bytes_arrive received total now) w i = relay_bytes-Holds received total now w i

  run-Holds : (schedule : List Thread) (w : World) → Holds w → Holds (run env schedule w)
  unfolding run
  run-Holds [] w i = i
  run-Holds (t ∷ schedule) w i = run-Holds schedule (step env t w) (step-Holds t w i)

  -- A cancel that has been sent has set the flag, and has passed on the id that the worker's request
  -- has got, once.
  pub cancel_sent :
      (schedule : List Thread) (id : ℕ)
      → let w = run env schedule new_world in
        w.caller ≡ c_sent id → CallerAt (c_sent id) w.task.cancel_flag w.canceled_ids
  cancel_sent schedule id e =
      let w = run env schedule new_world in
      subst (λ c. CallerAt c w.task.cancel_flag w.canceled_ids) e
        (run-Holds schedule new_world (tt, tt, refl)).2
