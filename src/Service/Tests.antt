-- ===== src/Service/Tests.antt =====
-- The theorems on the http service at calls that meet their hypotheses.
use binder.Prelude.{true, List, [], ◌∷◌, ◌++◌, none, ◌≡◌, refl, arith}
use binder.Prelude.Maps.{lookup}
use binder.Text.{Bytes, codes}
use binder.Http.Exchange.{wrote, interrupted}
use binder.Service.Requests.{
  Event, begin_at, cancel_at, end_of, new_id, begin_request, cancel, step, run, empty_table,
}
use binder.Service.Requests.Promises.{cancel_reaches, cancel_waits}
use binder.Service.Fetch.{write_fully}
use binder.Service.Fetch.Writes.{write_fully-Writes}

-- Request 7 begins while another transfer ends and an unused id is canceled.
abbrev between : List Event
between = new_id ∷ end_of 3 ∷ cancel_at 40000 4 ∷ []

cancel_reaches_example :
    let begun = begin_request 1000 7 (run (begin_at 0 3 ∷ []) empty_table) in
    ((run (end_of 7 ∷ []) (cancel 95000 7 (run between begun.1))).objects begun.0).canceled ≡ true
cancel_reaches_example =
    cancel_reaches (begin_at 0 3 ∷ []) between (end_of 7 ∷ []) 1000 95000 7 (λ e. omega arith, tt)

unused : lookup 7 (run (begin_at 0 3 ∷ []) empty_table).requests ≡ none
unfolding run step begin_request lookup
unused = refl

cancel_waits_example :
    let begun =
      begin_request 90000 7 (run between (cancel 1000 7 (run (begin_at 0 3 ∷ []) empty_table))) in
    (begun.1.objects begun.0).canceled ≡ true
cancel_waits_example =
    cancel_waits (begin_at 0 3 ∷ []) between 1000 7 90000 unused (λ e. omega arith, tt)
      (omega arith, tt)

write_fully-Writes_example :
    let w = write_fully (wrote 2 ∷ interrupted ∷ wrote 1 ∷ []) (codes "abc") in
    (rest : Bytes) × (codes "abc" ≡ w.landed ++ rest) × (w.failure ≡ none → rest ≡ [])
write_fully-Writes_example = write_fully-Writes (wrote 2 ∷ interrupted ∷ wrote 1 ∷ []) (codes "abc")
