-- ===== src/Download/Table/Calls.antt =====
-- The task table after any calls of `enqueue`, and any changes that other threads make to the tasks.
use binder.Prelude.{
  ℕ, zero, suc, ◌+◌, true, false, List, [], ◌∷◌, ◌++◌, ◌==◌, if◌then◌else◌, length, some, is_empty,
  ◌≡◌, refl, sym, ap, ◌∙◌, subst, arith, Bool-cases, inl, inr, append_assoc, append-nil,
  length-append,
}
use binder.Prelude.Maps.{Map, lookup}
use binder.Text.{Bytes}
use binder.Download.Task.{Task}
use binder.Download.Table.{
  Download, Table, find_task, names_no_file, new_download, enqueue, get_download_ids, empty_table,
}

-- A call of `enqueue`, or what another thread stores in the task of an id.
pub data Action : Type 0 where
  enqueues : Bytes → Bytes → Action
  stores : ℕ → (Task → Task) → Action

abbrev change_task : ℕ → (Task → Task) → Map Download → Map Download
change_task id f [] = []
change_task id f ((i, d) ∷ m) =
    (i, (if i == id then record d { task = f d.task } else d)) ∷ change_task id f m

abbrev act : Action → Table → Table
act (enqueues url dest) t = (enqueue url dest t).1
act (stores id f) t = record t { tasks = change_task id f t.tasks }

abbrev pub run : List Action → Table → Table
run [] t = t
run (a ∷ actions) t = run actions (act a t)

-- The calls with a URL, and with a destination that names a file.
abbrev taken : Action → List (Bytes × Bytes)
taken (enqueues url dest) =
    if is_empty url then [] else if names_no_file dest then [] else (url, dest) ∷ []
taken (stores id f) = []

abbrev pub accepted : List Action → List (Bytes × Bytes)
accepted [] = []
accepted (a ∷ actions) = taken a ++ accepted actions

-- The numbers from one on.
abbrev pub up_from : ℕ → ℕ → List ℕ
up_from first zero = []
up_from first (suc n) = first ∷ up_from (suc first) n

abbrev numbered : ℕ → List (Bytes × Bytes) → List (ℕ × (Bytes × Bytes))
numbered n [] = []
numbered n (c ∷ calls) = (n, c) ∷ numbered (suc n) calls

abbrev requests : Map Download → List (ℕ × (Bytes × Bytes))
requests [] = []
requests ((i, d) ∷ m) = (i, (d.url, d.dest_path)) ∷ requests m

up_from-end : (first n : ℕ) → up_from first (suc n) ≡ up_from first n ++ ((first + n) ∷ [])
up_from-end first zero = ap (λ (k : ℕ). k ∷ []) (omega arith)
up_from-end first (suc n) =
    ap (◌∷◌ first)
      (up_from-end (suc first) n ∙ ap (λ (k : ℕ). up_from (suc first) n ++ (k ∷ [])) (omega arith))

numbered-end :
    (n : ℕ) (calls : List (Bytes × Bytes)) (c : Bytes × Bytes)
    → numbered n (calls ++ (c ∷ [])) ≡ numbered n calls ++ ((n + length calls, c) ∷ [])
numbered-end n [] c = ap (λ (k : ℕ). (k, c) ∷ []) (omega arith)
numbered-end n (d ∷ calls) c = ap (◌∷◌ (n, d)) (
    numbered-end (suc n) calls c
    ∙ ap (λ (k : ℕ). numbered (suc n) calls ++ ((k, c) ∷ [])) (omega arith))

requests-append : (m k : Map Download) → requests (m ++ k) ≡ requests m ++ requests k
requests-append [] k = refl
requests-append ((i, d) ∷ m) k = ap (◌∷◌ (i, (d.url, d.dest_path))) (requests-append m k)

requests-change_task :
    (id : ℕ) (f : Task → Task) (m : Map Download) → requests (change_task id f m) ≡ requests m
requests-change_task id f [] = refl
requests-change_task id f ((i, d) ∷ m) = elim (Bool-cases (i == id)) [
  | inl e ↦ rw e (ap (◌∷◌ (i, (d.url, d.dest_path))) (requests-change_task id f m))
  | inr e ↦ rw e (ap (◌∷◌ (i, (d.url, d.dest_path))) (requests-change_task id f m))
]

-- The table is that of these calls.
record Keeps (calls : List (Bytes × Bytes)) (t : Table) : Type 0 where
  requests_are : requests t.tasks ≡ numbered 1 calls
  order_is : t.order ≡ up_from 1 (length calls)
  workers_are : t.workers ≡ up_from 1 (length calls)
  next_is : t.next_id ≡ 1 + length calls

numbered_ids :
    (ids : List ℕ) (calls : List (Bytes × Bytes)) (c : Bytes × Bytes) (id : ℕ)
    → ids ≡ up_from 1 (length calls)
    → id ≡ 1 + length calls
    → ids ++ (id ∷ []) ≡ up_from 1 (length (calls ++ (c ∷ [])))
numbered_ids ids calls c id e n =
    ap (λ (x : List ℕ). x ++ (id ∷ [])) e
    ∙ ap (λ (k : ℕ). up_from 1 (length calls) ++ (k ∷ [])) n
    ∙ sym (up_from-end 1 (length calls))
    ∙ ap (up_from 1) longer
  where
    longer : suc (length calls) ≡ length (calls ++ (c ∷ []))
    longer = omega (arith, length-append calls (c ∷ []))

added-Keeps :
    (url dest : Bytes) (calls : List (Bytes × Bytes)) (t : Table)
    → Keeps calls t
    → Keeps (calls ++ ((url, dest) ∷ [])) (record {
      tasks = t.tasks ++ ((t.next_id, new_download url dest) ∷ []);
      order = t.order ++ (t.next_id ∷ []);
      next_id = t.next_id + 1;
      workers = t.workers ++ (t.next_id ∷ []);
    })
added-Keeps url dest calls t k = record {
  requests_are =
      requests-append t.tasks ((t.next_id, new_download url dest) ∷ [])
      ∙ ap (λ (x : List (ℕ × (Bytes × Bytes))). x ++ ((t.next_id, (url, dest)) ∷ [])) k.requests_are
      ∙ ap (λ (n : ℕ). numbered 1 calls ++ ((n, (url, dest)) ∷ [])) k.next_is
      ∙ sym (numbered-end 1 calls (url, dest));
  order_is = numbered_ids t.order calls (url, dest) t.next_id k.order_is k.next_is;
  workers_are = numbered_ids t.workers calls (url, dest) t.next_id k.workers_are k.next_is;
  next_is =
      let n = k.next_is in let m = length-append calls ((url, dest) ∷ []) in omega (arith, n, m);
}

same_Keeps : (calls : List (Bytes × Bytes)) (t : Table) → Keeps calls t → Keeps (calls ++ []) t
same_Keeps calls t k = subst (λ c. Keeps c t) (sym (append-nil calls)) k

enqueue-Keeps :
    (url dest : Bytes) (calls : List (Bytes × Bytes)) (t : Table)
    → Keeps calls t
    → Keeps
        (calls
          ++ (if is_empty url then [] else if names_no_file dest then [] else (url, dest) ∷ []))
        (enqueue url dest t).1
unfolding enqueue
enqueue-Keeps url dest calls t k = elim (Bool-cases (is_empty url)) [
  | inl e ↦ rw e (same_Keeps calls t k)
  | inr e ↦ (elim (Bool-cases (names_no_file dest)) [
    | inl f ↦ rw (e, f) (same_Keeps calls t k)
    | inr f ↦ rw (e, f) (added-Keeps url dest calls t k)
  ])
]

act-Keeps :
    (a : Action) (calls : List (Bytes × Bytes)) (t : Table)
    → Keeps calls t
    → Keeps (calls ++ taken a) (act a t)
act-Keeps (enqueues url dest) calls t k = enqueue-Keeps url dest calls t k
act-Keeps (stores id f) calls t k = same_Keeps calls _ (record {
  requests_are = requests-change_task id f t.tasks ∙ k.requests_are;
  order_is = k.order_is;
  workers_are = k.workers_are;
  next_is = k.next_is;
})

run-Keeps :
    (actions : List Action) (calls : List (Bytes × Bytes)) (t : Table)
    → Keeps calls t
    → Keeps (calls ++ accepted actions) (run actions t)
run-Keeps [] calls t k = same_Keeps calls t k
run-Keeps (a ∷ actions) calls t k =
    subst (λ c. Keeps c (run actions (act a t))) (append_assoc calls (taken a) (accepted actions))
      (run-Keeps actions (calls ++ taken a) (act a t) (act-Keeps a calls t k))

-- A task is found under the number of its call.
numbered-lookup :
    (n : ℕ) (m : Map Download) (front back : List (Bytes × Bytes)) (url dest : Bytes)
    → requests m ≡ numbered n (front ++ ((url, dest) ∷ back))
    → (d : Download) × (lookup (n + length front) m ≡ some d) × (d.url ≡ url) × (d.dest_path ≡ dest)
unfolding lookup
numbered-lookup n [] [] back url dest e = absurd (cc)
numbered-lookup n [] (c ∷ front) back url dest e = absurd (cc)
numbered-lookup n ((i, d) ∷ m) [] back url dest e =
    let same : i ≡ n = cc in
    let hit : (i == (n + 0)) ≡ true = ground (arith, same) in
    let u : d.url ≡ url = cc in let p : d.dest_path ≡ dest = cc in (d, rw hit refl, u, p)
numbered-lookup n ((i, d) ∷ m) (c ∷ front) back url dest e =
    let same : i ≡ n = cc in
    let miss : (i == (n + length (c ∷ front))) ≡ false = ground (arith, same) in
    let tails : requests m ≡ numbered (suc n) (front ++ ((url, dest) ∷ back)) = cc in
    let (d', found, u, p) = numbered-lookup (suc n) m front back url dest tails in
    (d', rw miss (ap (λ (k : ℕ). lookup k m) (omega arith) ∙ found), u, p)

-- What is known of every accepted call.
abbrev pub Found : List (Bytes × Bytes) → Table → Type 0
Found calls t =
    (front back : List (Bytes × Bytes)) (url dest : Bytes)
    → calls ≡ front ++ ((url, dest) ∷ back)
    → (d : Download) × (find_task (1 + length front) t ≡ some d)
      × (d.url ≡ url)
      × (d.dest_path ≡ dest)

-- After any calls of `enqueue`, and whatever other threads store in the tasks in between, the ids are
-- the numbers from one on, one for each call with a URL and a destination that names a file, and the
-- list of ids has them in the order of these calls; each is found under its id with the URL and the
-- destination of its call; and exactly one worker has been started for each.
pub run_numbers :
    (actions : List Action)
    → let t = run actions empty_table in
      (get_download_ids t ≡ up_from 1 (length (accepted actions)))
      × (t.workers ≡ get_download_ids t)
      × Found (accepted actions) t
unfolding get_download_ids find_task
run_numbers actions =
    let t = run actions empty_table in
    let k =
      run-Keeps actions [] empty_table
        (record { requests_are = refl; order_is = refl; workers_are = refl; next_is = refl }) in
    (
      k.order_is,
      k.workers_are ∙ sym k.order_is,
      λ front back url dest e.
          numbered-lookup 1 t.tasks front back url dest (k.requests_are ∙ ap (numbered 1) e),
    )
