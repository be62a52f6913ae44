-- ===== src/Service/Fetch/Counts.antt =====
-- What a call of `fetchToFd` leaves behind in the service, on every way out of it.
use binder.Prelude.{ℕ, false, ◌==◌, none, ◌≡◌}
use binder.Prelude.Maps.{lookup}
use binder.Http.Url.{Url}
use binder.Service.Requests.{Table}
use binder.Service.Fetch.{Service, Outcome, Status, done, failure}

-- A reply of success gives the count.
abbrev pub Replies : ℕ → Status → Type 0
Replies written (done n) = n ≡ written
Replies written (failure code message) = Unit {0}

-- What is left of the service, where `before` is the table as the other threads left it.
pub record Settled {ℓ} {D : Type ℓ} (active id : ℕ) (before : Table) (o : Outcome D) : Type 0 where
  pub replies : Replies o.transfer.written o.status
  pub active_is : o.service.active ≡ active
  pub released : lookup id o.service.table.requests ≡ none
  pub others_kept :
      (other : ℕ)
      → (id == other) ≡ false
      → lookup other o.service.table.requests ≡ lookup other before.requests
  pub next_is : o.service.table.next_id ≡ before.next_id
