-- ===== src/Launcher/Orphans.antt =====
-- The launcher leaves no process behind.
use binder.Prelude.{
  ℕ, Bool, true, false, ◌||◌, List, [], ◌∷◌, ◌++◌, ◌==◌, Option, none, some, ◌≡◌, refl, ◌∙◌, ap,
  arith, Bool-cases, inl, inr,
}
use binder.Launcher.{
  Tree, terminated, cleanup, Round, Watch, came_up, died, too_late, watch, Start, watched_manager,
  spawned_manager, ensure_service_manager, Role, http_role, download_role, set_child,
  watched_service, spawned_service, start_service, Waited, child_exited, wait_interrupted,
  wait_failed, without, forget, supervise, new_tree, then_start, run_manager,
}

unfoldable pub has : ℕ → List ℕ → Bool
has p [] = false
has p (q ∷ l) = p == q || has p l

abbrev is : ℕ → Option ℕ → Bool
is p none = false
is p (some q) = p == q

has-append : (p : ℕ) (a b : List ℕ) → has p (a ++ b) ≡ (has p a || has p b)
unfolding has
has-append p [] b = refl
has-append p (q ∷ a) b = ground (arith, has-append p a b)

has-terminated : (p : ℕ) (c : Option ℕ) → has p (terminated c) ≡ is p c
unfolding has
has-terminated p none = refl
has-terminated p (some q) = ground arith

has-one : (p q : ℕ) → has p (q ∷ []) ≡ (p == q)
unfolding has
has-one p q = ground arith

-- Every pid that was spawned has been reaped, or is a child still; and a manager that is held is our
-- own.
record Inv (t : Tree) : Type 0 where
  held :
      (p : ℕ)
      → has p t.spawned ≡ true
      → (has p t.reaped || (is p t.manager || (is p t.http || is p t.download))) ≡ true
  own : t.own_manager ≡ false → t.manager ≡ none

-- Every pid that was spawned has been reaped.
abbrev pub AllReaped : Tree → Type 0
AllReaped t = (p : ℕ) → has p t.spawned ≡ true → has p t.reaped ≡ true

cleanup-AllReaped : (t : Tree) → Inv t → AllReaped (cleanup t)
unfolding cleanup
cleanup-AllReaped t i p = elim (Bool-cases t.own_manager) [
  | inl e ↦ rw e (λ h. own (i.held p h))
  | inr e ↦ rw e (λ h. foreign (i.own e) (i.held p h))
]
  where
    services :
        has p (t.reaped ++ (terminated t.download ++ terminated t.http))
        ≡ (has p t.reaped || (is p t.download || is p t.http))
    services =
        has-append p t.reaped (terminated t.download ++ terminated t.http)
        ∙ ap (λ (b : Bool). has p t.reaped || b)
            (has-append p (terminated t.download) (terminated t.http)
              ∙ ap (λ (b : Bool). b || has p (terminated t.http)) (has-terminated p t.download)
              ∙ ap (λ (b : Bool). is p t.download || b) (has-terminated p t.http))

    own :
        (has p t.reaped || (is p t.manager || (is p t.http || is p t.download))) ≡ true
        → has p ((t.reaped ++ (terminated t.download ++ terminated t.http)) ++ terminated t.manager)
          ≡ true
    own h = ground (
      arith,
      services,
      has-append p (t.reaped ++ (terminated t.download ++ terminated t.http))
          (terminated t.manager),
      has-terminated p t.manager,
    )

    foreign :
        t.manager ≡ none
        → (has p t.reaped || (is p t.manager || (is p t.http || is p t.download))) ≡ true
        → has p (t.reaped ++ (terminated t.download ++ terminated t.http)) ≡ true
    foreign e h = let f = ap (is p) e in ground (arith, services)

is-without : (p pid : ℕ) (c : Option ℕ) → is p c ≡ true → (is p (without pid c) || p == pid) ≡ true
is-without p pid none h = cc
is-without p pid (some q) h = ground arith

forget-Inv : (pid : ℕ) (t : Tree) → Inv t → Inv (forget pid t)
forget-Inv pid t i = record {
  held = λ p h. ground (
    arith,
    i.held p h,
    has-append p t.reaped (pid ∷ []),
    has-one p pid,
    is-without p pid t.manager,
    is-without p pid t.http,
    is-without p pid t.download,
  );
  own = λ e. ap (without pid) (i.own e);
}

supervise-AllReaped : (waits : List Waited) (t : Tree) → Inv t → AllReaped (supervise waits t).0
unfolding supervise
supervise-AllReaped [] t i = cleanup-AllReaped t i
supervise-AllReaped (child_exited pid ∷ waits) t i =
    cleanup-AllReaped (forget pid t) (forget-Inv pid t i)
supervise-AllReaped (wait_interrupted ∷ waits) t i = supervise-AllReaped waits t i
supervise-AllReaped (wait_failed ∷ waits) t i = cleanup-AllReaped t i

abbrev child : Role → Tree → Option ℕ
child http_role t = t.http
child download_role t = t.download

spawn-Inv :
    (role : Role) (pid : ℕ) (t : Tree)
    → child role t ≡ none
    → Inv t
    → Inv (set_child role (some pid) (record t { spawned = t.spawned ++ (pid ∷ []) }))
spawn-Inv http_role pid t e i = record {
  held = λ p h.
      let f = ap (is p) e in
      ground (arith, i.held p, has-append p t.spawned (pid ∷ []), has-one p pid);
  own = i.own;
}
spawn-Inv download_role pid t e i = record {
  held = λ p h.
      let f = ap (is p) e in
      ground (arith, i.held p, has-append p t.spawned (pid ∷ []), has-one p pid);
  own = i.own;
}

died-Inv :
    (role : Role) (pid : ℕ) (t : Tree)
    → child role t ≡ some pid
    → Inv t
    → Inv (set_child role none (record t { reaped = t.reaped ++ (pid ∷ []) }))
died-Inv http_role pid t e i = record {
  held = λ p h.
      let f = ap (is p) e in
      ground (arith, i.held p h, has-append p t.reaped (pid ∷ []), has-one p pid);
  own = i.own;
}
died-Inv download_role pid t e i = record {
  held = λ p h.
      let f = ap (is p) e in
      ground (arith, i.held p h, has-append p t.reaped (pid ∷ []), has-one p pid);
  own = i.own;
}

absent-Inv : (role : Role) (t : Tree) → child role t ≡ none → Inv t → Inv (set_child role none t)
absent-Inv http_role t e i = record {
  held = λ p h. let f = ap (is p) e in ground (arith, i.held p h);
  own = i.own;
}
absent-Inv download_role t e i = record {
  held = λ p h. let f = ap (is p) e in ground (arith, i.held p h);
  own = i.own;
}

child-set : (role : Role) (c : Option ℕ) (t : Tree) → child role (set_child role c t) ≡ c
child-set http_role c t = refl
child-set download_role c t = refl

watched_service-Inv :
    (role : Role) (pid : ℕ) (t : Tree) (w : Watch)
    → child role t ≡ some pid
    → Inv t
    → Inv (watched_service role pid t w).0
watched_service-Inv role pid t came_up e i = i
watched_service-Inv role pid t died e i = died-Inv role pid t e i
watched_service-Inv role pid t too_late e i = i

spawned_service-Inv :
    (role : Role) (rounds : List Round) (t : Tree) (o : Option ℕ)
    → child role t ≡ none
    → Inv t
    → Inv (spawned_service role rounds t o).0
spawned_service-Inv role rounds t none e i = absent-Inv role t e i
spawned_service-Inv role rounds t (some pid) e i =
    watched_service-Inv role pid _ (watch 40 rounds)
      (child-set role (some pid) (record t { spawned = t.spawned ++ (pid ∷ []) }))
      (spawn-Inv role pid t e i)

start_service-Inv :
    (role : Role) (s : Start) (t : Tree)
    → child role t ≡ none
    → Inv t
    → Inv (start_service role s t).0
unfolding start_service
start_service-Inv role s t e i = elim (Bool-cases s.found) [
  | inl f ↦ rw f (spawned_service-Inv role s.rounds t s.pid e i)
  | inr f ↦ rw f i
]

watched_service-download :
    (pid : ℕ) (t : Tree) (w : Watch) → (watched_service http_role pid t w).0.download ≡ t.download
watched_service-download pid t came_up = refl
watched_service-download pid t died = refl
watched_service-download pid t too_late = refl

spawned_service-download :
    (rounds : List Round) (t : Tree) (o : Option ℕ)
    → (spawned_service http_role rounds t o).0.download ≡ t.download
spawned_service-download rounds t none = refl
spawned_service-download rounds t (some pid) = watched_service-download pid _ (watch 40 rounds)

start_service-download :
    (s : Start) (t : Tree) → (start_service http_role s t).0.download ≡ t.download
unfolding start_service
start_service-download s t = elim (Bool-cases s.found) [
  | inl f ↦ rw f (spawned_service-download s.rounds t s.pid)
  | inr f ↦ rw f refl
]

-- A tree with no services yet.
record Fresh (t : Tree) : Type 0 where
  inv : Inv t
  no_http : t.http ≡ none
  no_download : t.download ≡ none

new_tree-Fresh : Fresh new_tree
unfolding has
new_tree-Fresh = record {
  inv = record { held = λ p h. cc; own = λ e. refl };
  no_http = refl;
  no_download = refl;
}

watched_manager-Fresh :
    (pid : ℕ) (w : Watch)
    → Fresh
        (watched_manager pid
          (record new_tree { manager = some pid; own_manager = true; spawned = pid ∷ [] })
          w).0
unfolding has
watched_manager-Fresh pid came_up = record {
  inv = record { held = λ p h. ground arith; own = λ e. cc };
  no_http = refl;
  no_download = refl;
}
watched_manager-Fresh pid died = record {
  inv = record { held = λ p h. ground arith; own = λ e. refl };
  no_http = refl;
  no_download = refl;
}
watched_manager-Fresh pid too_late = record {
  inv = record { held = λ p h. ground arith; own = λ e. cc };
  no_http = refl;
  no_download = refl;
}

spawned_manager-Fresh :
    (rounds : List Round) (o : Option ℕ) → Fresh (spawned_manager rounds new_tree o).0
spawned_manager-Fresh rounds none = new_tree-Fresh
spawned_manager-Fresh rounds (some pid) = watched_manager-Fresh pid (watch 20 rounds)

ensure-Fresh : (is_up : Bool) (s : Start) → Fresh (ensure_service_manager is_up s new_tree).0
unfolding ensure_service_manager
ensure-Fresh true s = new_tree-Fresh
ensure-Fresh false s = elim (Bool-cases s.found) [
  | inl f ↦ rw f (spawned_manager-Fresh s.rounds s.pid)
  | inr f ↦ rw f new_tree-Fresh
]

then_start-AllReaped :
    (next : Tree → Tree × ℕ) (t : Tree) (good : Bool)
    → Inv t
    → AllReaped (next t).0
    → AllReaped (then_start next (t, good)).0
then_start-AllReaped next t true i h = h
then_start-AllReaped next t false i h = cleanup-AllReaped t i

-- The launcher leaves no orphan: whatever starts, fails to start or exits, when `runManager` returns
-- every process that it has spawned has been terminated and waited for, or has exited and been waited
-- for.
pub run_manager-AllReaped :
    (binder_is_ready manager_is_up : Bool) (manager http download : Start) (waits : List Waited)
    → AllReaped (run_manager binder_is_ready manager_is_up manager http download waits).0
unfolding run_manager
run_manager-AllReaped false manager_is_up manager http download waits = λ p h. new_tree_lem p h
  where
    new_tree_lem : AllReaped new_tree
    new_tree_lem p h = h
run_manager-AllReaped true manager_is_up manager http download waits =
    let first = ensure_service_manager manager_is_up manager new_tree in
    let f = ensure-Fresh manager_is_up manager in
    let second = start_service http_role http first.0 in
    let i = start_service-Inv http_role http first.0 f.no_http f.inv in
    let third = start_service download_role download second.0 in
    let j =
      start_service-Inv download_role download second.0
        (start_service-download http first.0 ∙ f.no_download) i in
    then_start-AllReaped
      (λ t.
        then_start (λ t'. then_start (supervise waits) (start_service download_role download t'))
          (start_service http_role http t))
      first.0 first.1 f.inv
      (then_start-AllReaped
        (λ t'. then_start (supervise waits) (start_service download_role download t')) second.0
        second.1 i
        (then_start-AllReaped (supervise waits) third.0 third.1 j
          (supervise-AllReaped waits third.0 j)))
