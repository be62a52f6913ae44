-- ===== src/Download/Cancels.antt =====
-- A cancel on its whole way: `cancel` of service/download/DownloadService.cpp, whose call of the http
-- service arrives in `cancel` of service/http/HttpService.cpp, before or after the transfer begins.
use binder.Prelude.{
  ℕ, true, List, [], ◌∷◌, ◌++◌, ◌+◌, map, if◌then◌else◌, none, some, ◌≡◌, sym, ◌∙◌, ap, subst,
}
use binder.Prelude.Maps.{lookup}
use binder.Service.Requests.{
  Table, Event, cancel_at, begin_request, cancel, stale_request_ms, empty_table,
}
use binder.Service.Requests
use binder.Service.Requests.Promises.{Unended, Within, cancel_reaches, cancel_waits}
use binder.Download.Task.{Env, World, c_sent, Thread, new_world}
use binder.Download.Task
use binder.Download.Task.Sends.{cancel_sent}

-- The calls of the http service that a cancel makes.
abbrev pub sent_cancels : ℕ → List ℕ → List Event
sent_cancels now ids = map (cancel_at now) ids

ids_sent :
    (env : Env) (schedule : List Thread) (id : ℕ)
    → env.cancel_proxy ≡ true
    → (Task.run env schedule new_world).caller ≡ c_sent id
    → (Task.run env schedule new_world).canceled_ids ≡ id ∷ []
ids_sent env schedule id proxy e =
    let (f, ids, n) = cancel_sent env schedule id e in
    ids ∙ ap (λ b. if b then id ∷ [] else []) proxy

-- A cancel of a running download reaches its transfer through both services, where the http
-- service can be called: however the worker, the cancel and the progress reports interleave, when
-- `cancel` has made its call of the http service, the task's flag is set, the id passed on is the
-- one that the worker's request has got, and the flag that a transfer polls that has begun under
-- that id is set, whatever other calls the http service gets that do not end a transfer of this id
-- before.
pub cancel_goes_through :
    (env : Env) (schedule : List Thread) (id : ℕ) (before between later : List Event) (now now' : ℕ)
    → env.cancel_proxy ≡ true
    → (Task.run env schedule new_world).caller ≡ c_sent id
    → Unended id between
    → let w = Task.run env schedule new_world in
      let begun = begin_request now id (Requests.run before empty_table) in
      (w.task.cancel_flag ≡ true)
      × (env.new_request_id ≡ some id)
      × (((Requests.run
              (sent_cancels now' w.canceled_ids ++ later)
              (Requests.run between begun.1)).objects
            begun.0).canceled
          ≡ true)
unfolding Requests.run Requests.step
cancel_goes_through env schedule id before between later now now' proxy e unended =
    let w = Task.run env schedule new_world in
    let begun = begin_request now id (Requests.run before empty_table) in
    let (f, ids, n) = cancel_sent env schedule id e in
    (
      f,
      n,
      subst
          (λ (x : List ℕ).
            ((Requests.run (sent_cancels now' x ++ later) (Requests.run between begun.1)).objects
              begun.0).canceled
            ≡ true)
          (sym (ids_sent env schedule id proxy e))
          (cancel_reaches before between later now now' id unended),
    )

-- A cancel of a download that arrives at the http service before the transfer begins is not lost,
-- where the http service can be called: when `cancel` has made its call, the task's flag is set and
-- the id passed on is the one that the worker's request has got; and where the http service did not
-- know that id, a transfer that then begins under it sees its flag set from the start, if until then
-- the calls that it gets end no transfer of this id, and bring no other cancel more than
-- kStaleRequestMs after this one.
pub cancel_goes_ahead :
    (env : Env) (schedule : List Thread) (id : ℕ) (before between : List Event) (now now' : ℕ)
    → env.cancel_proxy ≡ true
    → (Task.run env schedule new_world).caller ≡ c_sent id
    → lookup id (Requests.run before empty_table).requests ≡ none
    → Unended id between
    → Within (now + stale_request_ms) between
    → let w = Task.run env schedule new_world in
      let begun = begin_request now' id (
        Requests.run
          (sent_cancels now w.canceled_ids ++ between)
          (Requests.run before empty_table)) in
      (w.task.cancel_flag ≡ true)
      × (env.new_request_id ≡ some id)
      × ((begun.1.objects begun.0).canceled ≡ true)
unfolding Requests.run Requests.step
cancel_goes_ahead env schedule id before between now now' proxy e unknown unended young =
    let (f, ids, n) = cancel_sent env schedule id e in
    (
      f,
      n,
      subst
          (λ (x : List ℕ).
            let begun =
              begin_request now' id
                (Requests.run (sent_cancels now x ++ between) (Requests.run before empty_table)) in
            (begun.1.objects begun.0).canceled ≡ true)
          (sym (ids_sent env schedule id proxy e))
          (cancel_waits before between now id now' unknown unended young),
    )
