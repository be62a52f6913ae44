-- ===== src/Prelude/Maps.antt =====
-- Maps by association lists on numbers: std::map with find, emplace on a missing key, and erase.
use Prim.Native.Nat.{ℕ}
use mathlib.Core.Path.{◌≡◌, refl, sym, ◌∙◌, subst}
use mathlib.Core.Logic.{inl, inr}
use mathlib.Core.Bool.{Bool, true, false}
use mathlib.Core.Option.{Option, none, some}
use mathlib.Core.List.{List, [], ◌∷◌, ◌++◌}
use native.Mathlib.Omega.{arith}
use binder.Prelude.Tests.{◌==◌, if◌then◌else◌, Bool-cases, some_inj}

abbrev pub Map {ℓ} : Type ℓ → Type ℓ
Map A = List (ℕ × A)

unfoldable pub lookup {ℓ} : {A : Type ℓ} → ℕ → Map A → Option A
lookup k [] = none
lookup k ((i, a) ∷ m) = let rest = lookup k m in if i == k then some a else rest

-- Of a key that is not there yet.
abbrev pub emplace {ℓ} : {A : Type ℓ} → ℕ → A → Map A → Map A
emplace k a m = m ++ ((k, a) ∷ [])

-- The entries that pass a test.
unfoldable pub retain {ℓ} : {A : Type ℓ} → (ℕ → A → Bool) → Map A → Map A
retain keep [] = []
retain keep ((i, a) ∷ m) = let rest = retain keep m in if keep i a then (i, a) ∷ rest else rest

abbrev pub erase {ℓ} : {A : Type ℓ} → ℕ → Map A → Map A
erase k m = retain (λ i a. if i == k then false else true) m

lookup_head {ℓ} :
    {A : Type ℓ} (i k : ℕ) (a : A) (m : Map A) → (i == k) ≡ true → lookup k ((i, a) ∷ m) ≡ some a
unfolding lookup
lookup_head i k a m e = rw e refl

lookup_tail {ℓ} :
    {A : Type ℓ} (i k : ℕ) (a : A) (m : Map A)
    → (i == k) ≡ false
    → lookup k ((i, a) ∷ m) ≡ lookup k m
unfolding lookup
lookup_tail i k a m e = rw e refl

pub lookup-emplace_same {ℓ} :
    {A : Type ℓ} (k : ℕ) (a : A) (m : Map A) → lookup k m ≡ none → lookup k (emplace k a m) ≡ some a
lookup-emplace_same k a [] h = lookup_head k k a [] (ground arith)
lookup-emplace_same k a ((i, b) ∷ m) h = elim (Bool-cases (i == k)) [
  | inl e ↦ absurd (grind (arith, lookup_head i k b m e))
  | inr e ↦
      lookup_tail i k b (emplace k a m) e
      ∙ lookup-emplace_same k a m (sym (lookup_tail i k b m e) ∙ h)
]

-- A binding survives any other key's emplacement.
pub lookup-emplace_kept {ℓ} :
    {A : Type ℓ} (k j : ℕ) (a b : A) (m : Map A)
    → lookup k m ≡ some b
    → lookup k (emplace j a m) ≡ some b
unfolding lookup
lookup-emplace_kept k j a b [] h = cc
lookup-emplace_kept k j a b ((i, c) ∷ m) h = elim (Bool-cases (i == k)) [
  | inl e ↦ lookup_head i k c (emplace j a m) e ∙ sym (lookup_head i k c m e) ∙ h
  | inr e ↦
      lookup_tail i k c (emplace j a m) e
      ∙ lookup-emplace_kept k j a b m (sym (lookup_tail i k c m e) ∙ h)
]

-- All values are in a range.
abbrev pub AllValues {ℓ} : {A : Type ℓ} → (A → Type 0) → Map A → Type 0
AllValues P [] = Unit {0}
AllValues P ((i, a) ∷ m) = P a × AllValues P m

pub lookup-AllValues {ℓ} :
    {A : Type ℓ} (P : A → Type 0) (k : ℕ) (a : A) (m : Map A)
    → AllValues P m
    → lookup k m ≡ some a
    → P a
unfolding lookup
lookup-AllValues P k a [] all h = cc
lookup-AllValues P k a ((i, c) ∷ m) (p, ps) h = elim (Bool-cases (i == k)) [
  | inl e ↦ subst P (some_inj (sym (lookup_head i k c m e) ∙ h)) p
  | inr e ↦ lookup-AllValues P k a m ps (sym (lookup_tail i k c m e) ∙ h)
]

pub emplace-AllValues {ℓ} :
    {A : Type ℓ} (P Q : A → Type 0) (k : ℕ) (a : A) (m : Map A)
    → ((b : A) → P b → Q b)
    → AllValues P m
    → Q a
    → AllValues Q (emplace k a m)
emplace-AllValues P Q k a [] imp all q = (q, tt)
emplace-AllValues P Q k a ((i, c) ∷ m) imp (p, ps) q =
    (imp c p, emplace-AllValues P Q k a m imp ps q)

pub retain-AllValues {ℓ} :
    {A : Type ℓ} (P : A → Type 0) (keep : ℕ → A → Bool) (m : Map A)
    → AllValues P m
    → AllValues P (retain keep m)
unfolding retain
retain-AllValues P keep [] all = tt
retain-AllValues P keep ((i, c) ∷ m) (p, ps) = elim (Bool-cases (keep i c)) [
  | inl e ↦ rw e (p, retain-AllValues P keep m ps)
  | inr e ↦ rw e (retain-AllValues P keep m ps)
]

kept_head {ℓ} :
    {A : Type ℓ} (keep : ℕ → A → Bool) (i k : ℕ) (c b : A) (m : Map A)
    → (i == k) ≡ true
    → lookup k ((i, c) ∷ m) ≡ some b
    → keep k b ≡ true
    → keep i c ≡ true
kept_head keep i k c b m e h good =
    let same : c ≡ b = some_inj (sym (lookup_head i k c m e) ∙ h) in
    let key : i ≡ k = ground arith in cc

-- A binding that passes the test survives, when it is the first of its key.
pub lookup-retain {ℓ} :
    {A : Type ℓ} (keep : ℕ → A → Bool) (k : ℕ) (b : A) (m : Map A)
    → lookup k m ≡ some b
    → keep k b ≡ true
    → lookup k (retain keep m) ≡ some b
unfolding lookup retain
lookup-retain keep k b [] h good = cc
lookup-retain keep k b ((i, c) ∷ m) h good = elim (Bool-cases (i == k)) [
  | inl e ↦
      rw (kept_head keep i k c b m e h good)
        (lookup_head i k c (retain keep m) e ∙ sym (lookup_head i k c m e) ∙ h)
  | inr e ↦ (elim (Bool-cases (keep i c)) [
    | inl f ↦ rw f (
        lookup_tail i k c (retain keep m) e
        ∙ lookup-retain keep k b m (sym (lookup_tail i k c m e) ∙ h) good)
    | inr f ↦ rw f (lookup-retain keep k b m (sym (lookup_tail i k c m e) ∙ h) good)
  ])
]

lookup_tail_none {ℓ} :
    {A : Type ℓ} (i k : ℕ) (c : A) (m : Map A)
    → lookup k ((i, c) ∷ m) ≡ none
    → ((i == k) ≡ false) × (lookup k m ≡ none)
lookup_tail_none i k c m h = elim (Bool-cases (i == k)) [
  | inl e ↦ absurd (grind (arith, lookup_head i k c m e))
  | inr e ↦ (e, sym (lookup_tail i k c m e) ∙ h)
]

pub lookup-retain-none {ℓ} :
    {A : Type ℓ} (keep : ℕ → A → Bool) (k : ℕ) (m : Map A)
    → lookup k m ≡ none
    → lookup k (retain keep m) ≡ none
unfolding retain
lookup-retain-none keep k [] h = h
lookup-retain-none keep k ((i, c) ∷ m) h =
    let (e, g) = lookup_tail_none i k c m h in
    elim (Bool-cases (keep i c)) [
      | inl f ↦ rw f (lookup_tail i k c (retain keep m) e ∙ lookup-retain-none keep k m g)
      | inr f ↦ rw f (lookup-retain-none keep k m g)
    ]

pub lookup-erase {ℓ} : {A : Type ℓ} (k : ℕ) (m : Map A) → lookup k (erase k m) ≡ none
unfolding lookup retain
lookup-erase k [] = refl
lookup-erase k ((i, a) ∷ m) = elim (Bool-cases (i == k)) [
  | inl e ↦ rw e (lookup-erase k m)
  | inr e ↦ rw e (lookup_tail i k a (erase k m) e ∙ lookup-erase k m)
]

pub lookup-erase_other {ℓ} :
    {A : Type ℓ} (k j : ℕ) (m : Map A) → (k == j) ≡ false → lookup j (erase k m) ≡ lookup j m
unfolding lookup retain
lookup-erase_other k j [] h = refl
lookup-erase_other k j ((i, a) ∷ m) h = elim (Bool-cases (i == k)) [
  | inl e ↦ let miss : (i == j) ≡ false = ground arith in rw (e, miss) (lookup-erase_other k j m h)
  | inr e ↦ (elim (Bool-cases (i == j)) [
    | inl f ↦ rw (e, f) refl
    | inr f ↦ rw (e, f) (lookup-erase_other k j m h)
  ])
]
