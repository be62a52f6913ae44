-- ===== src/Text/Search.antt =====
-- The laws of the searches: where they stop, and what stands before that place.
use binder.Prelude.{
  ℕ, zero, suc, ◌<◌, Bool, true, false, not, List, [], ◌∷◌, ◌++◌, none, some, ◌≡◌, refl, ap, arith,
  take, drop, length, all, ◌↔◌,
}
use binder.Text.{is_digit, Bytes, find_if, find_last_if, equal}

-- No byte of the text satisfies the test.
abbrev pub none_of : (ℕ → Bool) → Bytes → Bool
none_of p = all (λ c. not (p c))

pub equal_iff : (text other : Bytes) → (equal text other ≡ true) ↔ (text ≡ other)
unfolding equal
equal_iff [] [] = ground arith
equal_iff [] (d ∷ other) = ground arith
equal_iff (c ∷ text) [] = ground arith
equal_iff (c ∷ text) (d ∷ other) = ground (arith, equal_iff text other)

pub none_of-append :
    (p : ℕ → Bool) (a b : Bytes)
    → none_of p a ≡ true
    → none_of p b ≡ true
    → none_of p (a ++ b) ≡ true
none_of-append p [] b ha hb = hb
none_of-append p (x ∷ a) b ha hb = ground (arith, none_of-append p a b)

-- One test is weaker than another.
pub none_of_mono :
    (p q : ℕ → Bool) (s : Bytes)
    → ((c : ℕ) → q c ≡ true → p c ≡ true)
    → none_of p s ≡ true
    → none_of q s ≡ true
none_of_mono p q [] h k = refl
none_of_mono p q (c ∷ s) h k = ground (arith, h c, none_of_mono p q s h)

pub find_if-append :
    (p : ℕ → Bool) (a b : Bytes) (x : ℕ)
    → none_of p a ≡ true
    → p x ≡ true
    → find_if p (a ++ (x ∷ b)) ≡ some (length a)
unfolding find_if
find_if-append p [] b x h k = rw k
find_if-append p (y ∷ a) b x h k = ground (arith, find_if-append p a b x)

pub find_if-none : (p : ℕ → Bool) (s : Bytes) → none_of p s ≡ true → find_if p s ≡ none
unfolding find_if
find_if-none p [] h = refl
find_if-none p (c ∷ s) h = ground (arith, find_if-none p s)

pub find_if_missing : (p : ℕ → Bool) (s : Bytes) → find_if p s ≡ none → none_of p s ≡ true
unfolding find_if
find_if_missing p [] h = refl
find_if_missing p (c ∷ s) h = ground (arith, find_if_missing p s)

-- What stands before the place that was found lacks the byte.
pub find_if_before :
    (p : ℕ → Bool) (s : Bytes) (n : ℕ)
    → find_if p s ≡ some n
    → (none_of p (take n s) ≡ true) × (n < length s)
unfolding find_if
find_if_before p [] n h = ground arith
find_if_before p (c ∷ s) zero h = (refl, omega arith)
find_if_before p (c ∷ s) (suc n) h = ground (arith, find_if_before p s n)

pub find_last_if-none : (p : ℕ → Bool) (s : Bytes) → none_of p s ≡ true → find_last_if p s ≡ none
unfolding find_last_if
find_last_if-none p [] h = refl
find_last_if-none p (c ∷ s) h = ground (arith, find_last_if-none p s)

pub find_last_if_missing : (p : ℕ → Bool) (s : Bytes) → find_last_if p s ≡ none → none_of p s ≡ true
unfolding find_last_if
find_last_if_missing p [] h = refl
find_last_if_missing p (c ∷ s) h = ground (arith, find_last_if_missing p s)

pub find_last_if-append :
    (p : ℕ → Bool) (a b : Bytes) (x : ℕ)
    → none_of p b ≡ true
    → p x ≡ true
    → find_last_if p (a ++ (x ∷ b)) ≡ some (length a)
unfolding find_last_if
find_last_if-append p [] b x h k = rw (find_last_if-none p b h, k)
find_last_if-append p (y ∷ a) b x h k = rw (find_last_if-append p a b x h k)

-- What stands behind the last place lacks the byte.
pub find_last_if_after :
    (p : ℕ → Bool) (s : Bytes) (n : ℕ)
    → find_last_if p s ≡ some n
    → (none_of p (drop (suc n) s) ≡ true) × (n < length s)
unfolding find_last_if
find_last_if_after p [] n h = ground arith
find_last_if_after p (c ∷ s) zero h = ground (arith, find_last_if_missing p s)
find_last_if_after p (c ∷ s) (suc n) h = ground (arith, find_last_if_after p s n)

pub none_of-take :
    (p : ℕ → Bool) (n : ℕ) (s : Bytes) → none_of p s ≡ true → none_of p (take n s) ≡ true
none_of-take p zero s h = refl
none_of-take p (suc n) [] h = refl
none_of-take p (suc n) (c ∷ s) h = ground (arith, none_of-take p n s)

pub none_of-drop :
    (p : ℕ → Bool) (n : ℕ) (s : Bytes) → none_of p s ≡ true → none_of p (drop n s) ≡ true
none_of-drop p zero s h = h
none_of-drop p (suc n) [] h = refl
none_of-drop p (suc n) (c ∷ s) h = ground (arith, none_of-drop p n s)

pub take_front {ℓ} : {A : Type ℓ} (a b : List A) → take (length a) (a ++ b) ≡ a
take_front [] b = refl
take_front (x ∷ a) b = ap (◌∷◌ x) (take_front a b)

pub drop_front {ℓ} : {A : Type ℓ} (a b : List A) → drop (length a) (a ++ b) ≡ b
drop_front [] b = refl
drop_front (x ∷ a) b = drop_front a b

pub drop_front_suc {ℓ} :
    {A : Type ℓ} (a b : List A) (x : A) → drop (suc (length a)) (a ++ (x ∷ b)) ≡ b
drop_front_suc [] b x = refl
drop_front_suc (y ∷ a) b x = drop_front_suc a b x

-- Digits satisfy no test that every digit fails.
pub digits-none_of :
    (q : ℕ → Bool) (s : Bytes)
    → ((c : ℕ) → is_digit c ≡ true → q c ≡ false)
    → all is_digit s ≡ true
    → none_of q s ≡ true
digits-none_of q [] h k = refl
digits-none_of q (c ∷ s) h k = ground (arith, h c, digits-none_of q s h)
