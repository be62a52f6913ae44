-- ===== src/Service/Requests.antt =====
-- The request table of service/http/HttpService.cpp: `beginRequest`, `endRequest`, `newRequestId`
-- and `cancel`.
--
-- The table and the transfers share the `Request` objects, so the objects stand in a store, and the
-- table maps an id to an object's handle. Ids are 32-bit words, and times are in milliseconds of the
-- steady clock.
pub mod Cancel
pub mod Promises
use binder.Prelude.{
  ℕ, zero, suc, ◌+◌, ◌-◌, ◌%◌, ◌^◌, Bool, true, false, not, ◌&&◌, ◌||◌, List, [], ◌∷◌, ◌==◌, ltb,
  if◌then◌else◌, Option, none, some,
}
use binder.Prelude.Maps.{Map, lookup, emplace, retain, erase}

pub record Request : Type 0 where
  pub canceled : Bool
  pub running : Bool
  pub created : ℕ

-- `mRequests` and `mNextId`, with the store of the objects.
pub record Table : Type 0 where
  pub objects : ℕ → Request
  pub allocated : ℕ
  pub requests : Map ℕ
  pub next_id : ℕ

abbrev pub put : ℕ → Request → (ℕ → Request) → ℕ → Request
put h r objects i = if i == h then r else objects i

abbrev pub new_request : ℕ → Request
new_request now = record { canceled = false; running = false; created = now }

-- `std::make_shared<Request>()`, under an id that is not in the table.
abbrev pub emplace_new : ℕ → ℕ → Table → Table
emplace_new now id t = record t {
  objects = put t.allocated (new_request now) t.objects;
  allocated = suc t.allocated;
  requests = emplace id t.allocated t.requests;
}

abbrev pub set_running : ℕ → Table → Table
set_running h t = record t { objects = put h (record (t.objects h) { running = true }) t.objects }

abbrev pub set_canceled : ℕ → Table → Table
set_canceled h t = record t { objects = put h (record (t.objects h) { canceled = true }) t.objects }

abbrev pub begin_found : ℕ → ℕ → Table → Option ℕ → ℕ × Table
begin_found now id t none = (t.allocated, set_running t.allocated (emplace_new now id t))
begin_found now id t (some h) = (h, set_running h t)

unfoldable pub begin_request : ℕ → ℕ → Table → ℕ × Table
begin_request now id t = begin_found now id t (lookup id t.requests)

unfoldable pub end_request : ℕ → Table → Table
end_request id t = record t { requests = erase id t.requests }

-- `mNextId.fetch_add(1)`, which wraps.
unfoldable pub new_request_id : Table → ℕ × Table
new_request_id t = (t.next_id, record t { next_id = (t.next_id + 1) % 2 ^ 32 })

abbrev pub stale_request_ms : ℕ
stale_request_ms = 60000

abbrev pub is_expired : ℕ → Request → Bool
is_expired now r = not r.running && ltb stale_request_ms (now - r.created)

abbrev pub drop_stale : ℕ → Table → Table
drop_stale now t = record t {
  requests = retain (λ i h. not (is_expired now (t.objects h))) t.requests;
}

abbrev pub cancel_found : ℕ → ℕ → Table → Option ℕ → Table
cancel_found now id t none = set_canceled t.allocated (emplace_new now id (drop_stale now t))
cancel_found now id t (some h) = set_canceled h t

unfoldable pub cancel : ℕ → ℕ → Table → Table
cancel now id t = cancel_found now id t (lookup id t.requests)

-- What threads do to the table, one at a time under mLock, each at a time.
pub data Event : Type 0 where
  begin_at cancel_at : ℕ → ℕ → Event
  end_of : ℕ → Event
  new_id : Event

unfoldable pub step : Event → Table → Table
step (begin_at now id) t = (begin_request now id t).1
step (cancel_at now id) t = cancel now id t
step (end_of id) t = end_request id t
step new_id t = (new_request_id t).1

unfoldable pub run : List Event → Table → Table
run [] t = t
run (e ∷ events) t = run events (step e t)

abbrev pub empty_table : Table
empty_table = record { objects = λ h. new_request 0; allocated = 0; requests = []; next_id = 1 }
