-- ===== src/Service/Requests/Cancel.antt =====
-- What the events of the request table leave alone: objects that are still bound, and flags.
use binder.Prelude.{
  ℕ, suc, ◌<◌, true, false, not, ◌==◌, if◌then◌else◌, Option, none, some, ◌≡◌, ◌≢◌, refl, sym, ◌∙◌,
  ap, subst, arith, Bool-cases, inl, inr,
}
use binder.Prelude.Maps.{
  lookup, AllValues, lookup-AllValues, emplace-AllValues, retain-AllValues, lookup-emplace_kept,
  lookup-retain,
}
use binder.Service.Requests.{
  Request, Table, put, new_request, emplace_new, set_running, set_canceled, begin_found,
  begin_request, end_request, new_request_id, is_expired, drop_stale, cancel_found, cancel, Event,
  begin_at, cancel_at, end_of, new_id, step,
}

-- The table's handles are allocated.
abbrev pub WellFormed : Table → Type 0
WellFormed t = AllValues (λ h. h < t.allocated) t.requests

same_key : (h : ℕ) → (h == h) ≡ true
same_key h = ground arith

other_key : (i h : ℕ) → i ≢ h → (i == h) ≡ false
other_key i h d = ground arith

key_eq : (i h : ℕ) → (i == h) ≡ true → i ≡ h
key_eq i h e = ground arith

pub put_same : (h : ℕ) (r : Request) (o : ℕ → Request) → put h r o h ≡ r
put_same h r o = rw (same_key h) refl

put_other : (h i : ℕ) (r : Request) (o : ℕ → Request) → i ≢ h → put h r o i ≡ o i
put_other h i r o d = rw (other_key i h d) refl

-- An object's flags are never reset.
pub record Grown (r r' : Request) : Type 0 where
  pub canceled : r.canceled ≡ true → r'.canceled ≡ true
  pub running : r.running ≡ true → r'.running ≡ true
  pub created : r'.created ≡ r.created

pub Grown-refl : (r : Request) → Grown r r
Grown-refl r = record { canceled = λ x. x; running = λ x. x; created = refl }

pub Grown-trans : (r s t : Request) → Grown r s → Grown s t → Grown r t
Grown-trans r s t a b = record {
  canceled = λ x. b.canceled (a.canceled x);
  running = λ x. b.running (a.running x);
  created = b.created ∙ a.created;
}

put-Grown : (h i : ℕ) (r : Request) (o : ℕ → Request) → Grown (o h) r → Grown (o i) (put h r o i)
put-Grown h i r o g = elim (Bool-cases (i == h)) [
  | inl e ↦ rw e (subst (λ k. Grown (o k) r) (sym (key_eq i h e)) g)
  | inr e ↦ rw e (Grown-refl (o i))
]

pub set_running-Grown : (h i : ℕ) (t : Table) → Grown (t.objects i) ((set_running h t).objects i)
set_running-Grown h i t =
    put-Grown h i (record (t.objects h) { running = true }) t.objects
      (record { canceled = λ x. x; running = λ x. refl; created = refl })

pub set_canceled-Grown : (h i : ℕ) (t : Table) → Grown (t.objects i) ((set_canceled h t).objects i)
set_canceled-Grown h i t =
    put-Grown h i (record (t.objects h) { canceled = true }) t.objects
      (record { canceled = λ x. refl; running = λ x. x; created = refl })

pub emplace_new-Grown :
    (now id i : ℕ) (t : Table)
    → i < t.allocated
    → Grown (t.objects i) ((emplace_new now id t).objects i)
emplace_new-Grown now id i t h =
    subst (Grown (t.objects i))
      (sym (put_other t.allocated i (new_request now) t.objects (λ e. omega arith)))
      (Grown-refl (t.objects i))

-- The id is bound to the object, in a well-formed table.
pub record Bound (id h : ℕ) (t : Table) : Type 0 where
  pub well_formed : WellFormed t
  pub found : lookup id t.requests ≡ some h

pub Bound-lt : (id h : ℕ) (t : Table) → Bound id h t → h < t.allocated
Bound-lt id h t b = lookup-AllValues (λ i. i < t.allocated) id h t.requests b.well_formed b.found

-- An event after which the object is still bound: it is not the end of its request, and it purges
-- the object only if its request is running or young.
abbrev pub Spares : ℕ → Request → Event → Type 0
Spares id r (begin_at now i) = Unit {0}
Spares id r (cancel_at now i) = is_expired now r ≡ false
Spares id r (end_of i) = i ≢ id
Spares id r new_id = Unit {0}

-- The object is still bound, and its flags have not been reset.
abbrev pub Later : ℕ → ℕ → Table → Table → Type 0
Later id h t t' = Bound id h t' × Grown (t.objects h) (t'.objects h)

Bound-emplace : (now id i h : ℕ) (t : Table) → Bound id h t → Later id h t (emplace_new now i t)
Bound-emplace now id i h t b = (
  record {
    well_formed =
        emplace-AllValues (λ j. j < t.allocated) (λ j. j < suc t.allocated) i t.allocated t.requests
          (λ j k. omega arith) b.well_formed (omega arith);
    found = lookup-emplace_kept id i t.allocated h t.requests b.found;
  },
  emplace_new-Grown now i h t (Bound-lt id h t b),
)

Bound-drop_stale :
    (now id h : ℕ) (t : Table)
    → Bound id h t
    → is_expired now (t.objects h) ≡ false
    → Bound id h (drop_stale now t)
Bound-drop_stale now id h t b young = record {
  well_formed =
      retain-AllValues (λ j. j < t.allocated) (λ i j. not (is_expired now (t.objects j))) t.requests
        b.well_formed;
  found =
      lookup-retain (λ i j. not (is_expired now (t.objects j))) id h t.requests b.found
        (ap not young);
}

begin_found-Later :
    (now id i h : ℕ) (t : Table) (o : Option ℕ)
    → Bound id h t
    → Later id h t (begin_found now i t o).1
begin_found-Later now id i h t none b =
    let (b', g) = Bound-emplace now id i h t b in
    (
      record { well_formed = b'.well_formed; found = b'.found },
      Grown-trans _ _ _ g (set_running-Grown t.allocated h (emplace_new now i t)),
    )
begin_found-Later now id i h t (some j) b =
    (record { well_formed = b.well_formed; found = b.found }, set_running-Grown j h t)

cancel_found-Later :
    (now id i h : ℕ) (t : Table) (o : Option ℕ)
    → Bound id h t
    → is_expired now (t.objects h) ≡ false
    → Later id h t (cancel_found now i t o)
cancel_found-Later now id i h t none b young =
    let (b', g) =
      Bound-emplace now id i h (drop_stale now t) (Bound-drop_stale now id h t b young) in
    (
      record { well_formed = b'.well_formed; found = b'.found },
      Grown-trans _ _ _ g (set_canceled-Grown t.allocated h (emplace_new now i (drop_stale now t))),
    )
cancel_found-Later now id i h t (some j) b young =
    (record { well_formed = b.well_formed; found = b.found }, set_canceled-Grown j h t)

pub step-Later :
    (e : Event) (id h : ℕ) (t : Table)
    → Bound id h t
    → Spares id (t.objects h) e
    → Later id h t (step e t)
unfolding step begin_request cancel end_request new_request_id
step-Later (begin_at now i) id h t b s = begin_found-Later now id i h t (lookup i t.requests) b
step-Later (cancel_at now i) id h t b s = cancel_found-Later now id i h t (lookup i t.requests) b s
step-Later (end_of i) id h t b s = (
  record {
    well_formed =
        retain-AllValues (λ j. j < t.allocated) (λ k j. if k == i then false else true) t.requests
          b.well_formed;
    found =
        lookup-retain (λ k j. if k == i then false else true) id h t.requests b.found
          (ground arith);
  },
  Grown-refl (t.objects h),
)
step-Later new_id id h t b s =
    (record { well_formed = b.well_formed; found = b.found }, Grown-refl (t.objects h))
