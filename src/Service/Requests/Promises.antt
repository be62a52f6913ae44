-- ===== src/Service/Requests/Promises.antt =====
-- What `cancel` promises, over every sequence of calls.
use binder.Prelude.{
  ℕ, suc, ◌+◌, ◌≤◌, ◌<◌, true, false, not, List, [], ◌∷◌, ◌==◌, if◌then◌else◌, Option, none, some,
  some_inj, ◌≡◌, ◌≢◌, refl, sym, ◌∙◌, ap, subst, arith, Bool-cases, inl, inr,
}
use binder.Prelude.Maps.{
  lookup, emplace-AllValues, retain-AllValues, lookup-emplace_same, lookup-retain-none,
}
use binder.Service.Requests.{
  Request, Table, new_request, emplace_new, set_canceled, begin_found, begin_request, end_request,
  new_request_id, stale_request_ms, is_expired, drop_stale, cancel_found, cancel, Event, begin_at,
  cancel_at, end_of, new_id, step, run, empty_table,
}
use binder.Service.Requests.Cancel.{
  WellFormed, Grown, Grown-refl, Grown-trans, Bound, Bound-lt, step-Later, put_same,
  set_running-Grown, set_canceled-Grown, emplace_new-Grown,
}

emplace-WellFormed : (now i : ℕ) (t : Table) → WellFormed t → WellFormed (emplace_new now i t)
emplace-WellFormed now i t w =
    emplace-AllValues (λ j. j < t.allocated) (λ j. j < suc t.allocated) i t.allocated t.requests
      (λ j k. omega arith) w (omega arith)

begin_found-WellFormed :
    (now i : ℕ) (t : Table) (o : Option ℕ) → WellFormed t → WellFormed (begin_found now i t o).1
begin_found-WellFormed now i t none w = emplace-WellFormed now i t w
begin_found-WellFormed now i t (some h) w = w

cancel_found-WellFormed :
    (now i : ℕ) (t : Table) (o : Option ℕ) → WellFormed t → WellFormed (cancel_found now i t o)
cancel_found-WellFormed now i t none w = emplace-WellFormed now i (drop_stale now t) (
    retain-AllValues (λ j. j < t.allocated) (λ i j. not (is_expired now (t.objects j))) t.requests
      w)
cancel_found-WellFormed now i t (some h) w = w

step-WellFormed : (e : Event) (t : Table) → WellFormed t → WellFormed (step e t)
unfolding step begin_request cancel end_request new_request_id
step-WellFormed (begin_at now i) t w = begin_found-WellFormed now i t (lookup i t.requests) w
step-WellFormed (cancel_at now i) t w = cancel_found-WellFormed now i t (lookup i t.requests) w
step-WellFormed (end_of i) t w =
    retain-AllValues (λ j. j < t.allocated) (λ k j. if k == i then false else true) t.requests w
step-WellFormed new_id t w = w

run-WellFormed : (events : List Event) (t : Table) → WellFormed t → WellFormed (run events t)
unfolding run
run-WellFormed [] t w = w
run-WellFormed (e ∷ events) t w = run-WellFormed events (step e t) (step-WellFormed e t w)

-- An allocated object keeps its flags, whether it is still in the table or not.
abbrev Lasting : ℕ → Table → Table → Type 0
Lasting h t t' = (h < t'.allocated) × Grown (t.objects h) (t'.objects h)

begin_found-Lasting :
    (now i h : ℕ) (t : Table) (o : Option ℕ)
    → h < t.allocated
    → Lasting h t (begin_found now i t o).1
begin_found-Lasting now i h t none k = (
  omega arith,
  Grown-trans _ _ _ (emplace_new-Grown now i h t k)
      (set_running-Grown t.allocated h (emplace_new now i t)),
)
begin_found-Lasting now i h t (some j) k = (k, set_running-Grown j h t)

cancel_found-Lasting :
    (now i h : ℕ) (t : Table) (o : Option ℕ)
    → h < t.allocated
    → Lasting h t (cancel_found now i t o)
cancel_found-Lasting now i h t none k = (
  omega arith,
  Grown-trans _ _ _ (emplace_new-Grown now i h (drop_stale now t) k)
      (set_canceled-Grown t.allocated h (emplace_new now i (drop_stale now t))),
)
cancel_found-Lasting now i h t (some j) k = (k, set_canceled-Grown j h t)

step-Lasting : (e : Event) (h : ℕ) (t : Table) → h < t.allocated → Lasting h t (step e t)
unfolding step begin_request cancel end_request new_request_id
step-Lasting (begin_at now i) h t k = begin_found-Lasting now i h t (lookup i t.requests) k
step-Lasting (cancel_at now i) h t k = cancel_found-Lasting now i h t (lookup i t.requests) k
step-Lasting (end_of i) h t k = (k, Grown-refl (t.objects h))
step-Lasting new_id h t k = (k, Grown-refl (t.objects h))

run-Lasting :
    (events : List Event) (h : ℕ) (t : Table) → h < t.allocated → Lasting h t (run events t)
unfolding run
run-Lasting [] h t k = (k, Grown-refl (t.objects h))
run-Lasting (e ∷ events) h t k =
    let (k', g) = step-Lasting e h t k in
    let (k'', g') = run-Lasting events h (step e t) k' in (k'', Grown-trans _ _ _ g g')

-- No event ends the request.
abbrev pub Unended : ℕ → List Event → Type 0
Unended id [] = Unit {0}
Unended id (end_of i ∷ events) = (i ≢ id) × Unended id events
Unended id (begin_at now i ∷ events) = Unended id events
Unended id (cancel_at now i ∷ events) = Unended id events
Unended id (new_id ∷ events) = Unended id events

-- No cancel comes later than a time.
abbrev pub Within : ℕ → List Event → Type 0
Within limit [] = Unit {0}
Within limit (cancel_at now i ∷ events) = (now ≤ limit) × Within limit events
Within limit (begin_at now i ∷ events) = Within limit events
Within limit (end_of i ∷ events) = Within limit events
Within limit (new_id ∷ events) = Within limit events

running_fresh : (now : ℕ) (r : Request) → r.running ≡ true → is_expired now r ≡ false
running_fresh now r e = rw e refl

young_fresh :
    (now limit : ℕ) (r : Request)
    → now ≤ limit
    → limit ≤ r.created + stale_request_ms
    → is_expired now r ≡ false
young_fresh now limit r a b = elim (Bool-cases r.running) [
  | inl e ↦ rw e refl
  | inr e ↦ rw e (ground arith)
]

-- Bound and running, or bound and canceled while young, over events that do not end the request.
run_running :
    (events : List Event) (id h : ℕ) (t : Table)
    → Unended id events
    → Bound id h t
    → (t.objects h).running ≡ true
    → Bound id h (run events t)
unfolding run
run_running [] id h t u b r = b
run_running (begin_at now i ∷ events) id h t u b r =
    let (b', g) = step-Later (begin_at now i) id h t b tt in
    run_running events id h (step (begin_at now i) t) u b' (g.running r)
run_running (cancel_at now i ∷ events) id h t u b r =
    let (b', g) = step-Later (cancel_at now i) id h t b (running_fresh now (t.objects h) r) in
    run_running events id h (step (cancel_at now i) t) u b' (g.running r)
run_running (end_of i ∷ events) id h t (d, u) b r =
    let (b', g) = step-Later (end_of i) id h t b d in
    run_running events id h (step (end_of i) t) u b' (g.running r)
run_running (new_id ∷ events) id h t u b r =
    let (b', g) = step-Later new_id id h t b tt in
    run_running events id h (step new_id t) u b' (g.running r)

run_young :
    (events : List Event) (id h limit : ℕ) (t : Table)
    → Unended id events
    → Within limit events
    → Bound id h t
    → limit ≤ (t.objects h).created + stale_request_ms
    → Bound id h (run events t)
unfolding run
run_young [] id h limit t u v b r = b
run_young (begin_at now i ∷ events) id h limit t u v b r =
    let (b', g) = step-Later (begin_at now i) id h t b tt in
    run_young events id h limit (step (begin_at now i) t) u v b' (omega (arith, g.created))
run_young (cancel_at now i ∷ events) id h limit t u (v, vs) b r =
    let (b', g) = step-Later (cancel_at now i) id h t b (young_fresh now limit (t.objects h) v r) in
    run_young events id h limit (step (cancel_at now i) t) u vs b' (omega (arith, g.created))
run_young (end_of i ∷ events) id h limit t (d, u) v b r =
    let (b', g) = step-Later (end_of i) id h t b d in
    run_young events id h limit (step (end_of i) t) u v b' (omega (arith, g.created))
run_young (new_id ∷ events) id h limit t u v b r =
    let (b', g) = step-Later new_id id h t b tt in
    run_young events id h limit (step new_id t) u v b' (omega (arith, g.created))

-- The state after `beginRequest`: its object is bound, allocated and running.
begin_found-Bound :
    (now id : ℕ) (t : Table) (o : Option ℕ)
    → lookup id t.requests ≡ o
    → WellFormed t
    → let b = begin_found now id t o in Bound id b.0 b.1 × ((b.1.objects b.0).running ≡ true)
begin_found-Bound now id t none e w = (
  record {
    well_formed = emplace-WellFormed now id t w;
    found = lookup-emplace_same id t.allocated t.requests e;
  },
  ap (λ (r : Request). r.running) (put_same t.allocated _ (emplace_new now id t).objects),
)
begin_found-Bound now id t (some h) e w = (
  record { well_formed = w; found = e },
  ap (λ (r : Request). r.running) (put_same h _ t.objects),
)

cancel_found-canceled :
    (now id h : ℕ) (t : Table) (o : Option ℕ)
    → lookup id t.requests ≡ o
    → o ≡ some h
    → ((cancel_found now id t o).objects h).canceled ≡ true
cancel_found-canceled now id h t none e f = cc
cancel_found-canceled now id h t (some j) e f =
    subst (λ k. ((set_canceled j t).objects k).canceled ≡ true) (some_inj f)
      (ap (λ (r : Request). r.canceled) (put_same j _ t.objects))

begun_canceled :
    (now' id h : ℕ) (t : Table) (events later : List Event)
    → Unended id events
    → Bound id h t × ((t.objects h).running ≡ true)
    → ((run later (cancel now' id (run events t))).objects h).canceled ≡ true
unfolding cancel
begun_canceled now' id h t events later u (b, r) =
    let t' = run events t in
    let b' = run_running events id h t u b r in
    let here = cancel_found-canceled now' id h t' (lookup id t'.requests) refl b'.found in
    let inside =
      (cancel_found-Lasting now' id h t' (lookup id t'.requests) (Bound-lt id h t' b')).0 in
    (run-Lasting later h (cancel_found now' id t' (lookup id t'.requests)) inside).1.canceled here

-- A cancel reaches a running transfer: after any calls, a transfer begins under an id; any other
-- calls follow that do not end a transfer of this id, with cancels and purges of other ids among
-- them; then a cancel of the id sets the flag that the transfer polls, and no later call resets it.
pub cancel_reaches :
    (before events later : List Event) (now now' id : ℕ)
    → Unended id events
    → let begun = begin_request now id (run before empty_table) in
      ((run later (cancel now' id (run events begun.1))).objects begun.0).canceled ≡ true
unfolding begin_request
cancel_reaches before events later now now' id u =
    let t = run before empty_table in
    begun_canceled now' id _ _ events later u (
      begin_found-Bound now id t (lookup id t.requests) refl (run-WellFormed before empty_table tt))

cancel_found-Waiting :
    (now id : ℕ) (t : Table)
    → lookup id (drop_stale now t).requests ≡ none
    → WellFormed t
    → let t' = cancel_found now id t none in
      Bound id t.allocated t'
      × ((t'.objects t.allocated).canceled ≡ true)
      × ((t'.objects t.allocated).created ≡ now)
cancel_found-Waiting now id t e w =
    let same = put_same t.allocated _ (emplace_new now id (drop_stale now t)).objects in
    let fresh = put_same t.allocated (new_request now) t.objects in
    (
      record {
        well_formed = cancel_found-WellFormed now id t none w;
        found = lookup-emplace_same id t.allocated (drop_stale now t).requests e;
      },
      ap (λ (r : Request). r.canceled) same,
      ap (λ (r : Request). r.created) same ∙ ap (λ (r : Request). r.created) fresh,
    )

begin_found-kept :
    (now id h : ℕ) (t : Table) (o : Option ℕ)
    → o ≡ some h
    → (t.objects h).canceled ≡ true
    → let b = begin_found now id t o in (b.1.objects b.0).canceled ≡ true
begin_found-kept now id h t none e c = cc
begin_found-kept now id h t (some j) e c =
    (set_running-Grown j j t).canceled
      (subst (λ k. (t.objects k).canceled ≡ true) (sym (some_inj e)) c)

waiting_canceled :
    (now id : ℕ) (t : Table) (o : Option ℕ) (events : List Event) (now' : ℕ)
    → lookup id t.requests ≡ o
    → o ≡ none
    → WellFormed t
    → Unended id events
    → Within (now + stale_request_ms) events
    → let begun = begin_request now' id (run events (cancel_found now id t o)) in
      (begun.1.objects begun.0).canceled ≡ true
unfolding begin_request
waiting_canceled now id t none events now' e f w u v =
    let (b, c, at) =
      cancel_found-Waiting now id t
        (lookup-retain-none (λ i h. not (is_expired now (t.objects h))) id t.requests e) w in
    let t' = cancel_found now id t none in
    let b' =
      run_young events id t.allocated (now + stale_request_ms) t' u v b (omega (arith, at)) in
    begin_found-kept now' id t.allocated (run events t') (lookup id (run events t').requests)
      b'.found ((run-Lasting events t.allocated t' (omega arith)).1.canceled c)
waiting_canceled now id t (some h) events now' e f w u v = cc

-- A cancel that comes first is remembered: after any calls, an id that is not in the table is
-- canceled; any other calls follow that do not end a transfer of this id, with no cancel more than
-- kStaleRequestMs later; then a transfer that begins under the id sees its flag set from the start.
pub cancel_waits :
    (before events : List Event) (now id now' : ℕ)
    → lookup id (run before empty_table).requests ≡ none
    → Unended id events
    → Within (now + stale_request_ms) events
    → let begun = begin_request now' id (run events (cancel now id (run before empty_table))) in
      (begun.1.objects begun.0).canceled ≡ true
unfolding cancel
cancel_waits before events now id now' e u v =
    let t = run before empty_table in
    waiting_canceled now id t (lookup id t.requests) events now' refl e
      (run-WellFormed before empty_table tt) u v
