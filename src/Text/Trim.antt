-- ===== src/Text/Trim.antt =====
-- What `trim` takes away, and what it leaves.
use binder.Prelude.{
  ℕ, true, false, ◌&&◌, [], ◌∷◌, ◌++◌, ◌≡◌, ◌≢◌, refl, arith, is_empty, ◌∙◌, all, ap, Bool-cases,
  inl, inr,
}
use binder.Text.{Bytes, is_space, drop_spaces, drop_end_spaces, trim}

-- A text that ends in something that stays keeps what stands before it.
pub drop_end_spaces-append :
    (a t : Bytes) → drop_end_spaces t ≡ t → t ≢ [] → drop_end_spaces (a ++ t) ≡ a ++ t
unfolding drop_end_spaces
drop_end_spaces-append [] t h ne = h
drop_end_spaces-append (c ∷ a) [] h ne = absurd (ne refl)
drop_end_spaces-append (c ∷ []) (d ∷ t) h ne = rw h
drop_end_spaces-append (c ∷ e ∷ a) (d ∷ t) h ne = rw (drop_end_spaces-append (e ∷ a) (d ∷ t) h ne)

pub drop_spaces_id : (c : ℕ) (s : Bytes) → is_space c ≡ false → drop_spaces (c ∷ s) ≡ c ∷ s
unfolding drop_spaces
drop_spaces_id c s h = rw h

pub trim_id :
    (c : ℕ) (s : Bytes)
    → is_space c ≡ false
    → drop_end_spaces (c ∷ s) ≡ c ∷ s
    → trim (c ∷ s) ≡ c ∷ s
unfolding trim
trim_id c s solid h = rw (drop_spaces, solid) h

-- The parts of a text that `trim` takes away: blanks in front, and blanks behind.
pub record Trims (s : Bytes) : Type 0 where
  pub front : Bytes
  pub back : Bytes
  pub splits : s ≡ front ++ (trim s ++ back)
  pub front_blank : all is_space front ≡ true
  pub back_blank : all is_space back ≡ true

drop_spaces-splits :
    (s : Bytes) → (front : Bytes) × (s ≡ front ++ drop_spaces s) × (all is_space front ≡ true)
unfolding drop_spaces
drop_spaces-splits [] = ([], refl, refl)
drop_spaces-splits (c ∷ s) = elim (Bool-cases (is_space c)) [
  | inl blank ↦
      let (front, e, h) = drop_spaces-splits s in (c ∷ front, rw (blank) (ap (◌∷◌ c) e), rw blank h)
  | inr solid ↦ ([], rw solid, refl)
]

blank_behind :
    (a b s : Bytes) → s ≡ a ++ b → is_empty a ≡ true → all is_space b ≡ true → all is_space s ≡ true
blank_behind [] b s e h k = rw e k
blank_behind (c ∷ a) b s e h k = cc

drop_end_spaces-splits :
    (s : Bytes) → (back : Bytes) × (s ≡ drop_end_spaces s ++ back) × (all is_space back ≡ true)
unfolding drop_end_spaces
drop_end_spaces-splits [] = ([], refl, refl)
drop_end_spaces-splits (c ∷ s) =
    let (back, e, h) = drop_end_spaces-splits s in
    elim (Bool-cases (is_empty (drop_end_spaces s) && is_space c)) [
      | inl gone ↦ (c ∷ s, rw gone, ground (arith, blank_behind (drop_end_spaces s) back s e))
      | inr kept ↦ (back, rw kept (ap (◌∷◌ c) e), h)
    ]

-- `trim` takes blanks from the two ends, and nothing else: the text is some blanks, the result, and
-- some blanks.
trim-Trims : (s : Bytes) → Trims s
unfolding trim
trim-Trims s =
    let (front, e, h) = drop_spaces-splits s in
    let (back, e', h') = drop_end_spaces-splits (drop_spaces s) in
    record {
      front = front;
      back = back;
      splits = e ∙ ap (◌++◌ front) e';
      front_blank = h;
      back_blank = h';
    }

drop_spaces-solid : (s rest : Bytes) (c : ℕ) → drop_spaces s ≡ c ∷ rest → is_space c ≡ false
unfolding drop_spaces
drop_spaces-solid [] rest c h = cc
drop_spaces-solid (d ∷ s) rest c h = ground (arith, drop_spaces-solid s rest c)

drop_end_spaces_idem : (s : Bytes) → drop_end_spaces (drop_end_spaces s) ≡ drop_end_spaces s
unfolding drop_end_spaces
drop_end_spaces_idem [] = refl
drop_end_spaces_idem (c ∷ s) = ground (arith, drop_end_spaces_idem s)

-- A trimmed text begins with no blank and ends in none: trimming it again changes nothing.
trim_idem : (s : Bytes) → trim (trim s) ≡ trim s
unfolding trim drop_spaces drop_end_spaces
trim_idem s = go (drop_spaces s) refl
  where
    go :
        (t : Bytes)
        → drop_spaces s ≡ t
        → drop_end_spaces (drop_spaces (drop_end_spaces t)) ≡ drop_end_spaces t
    go [] e = refl
    go (c ∷ t) e = ground (arith, drop_spaces-solid s t c e, drop_end_spaces_idem t)

pub drop_end_spaces-trim : (s : Bytes) → drop_end_spaces (trim s) ≡ trim s
unfolding trim
drop_end_spaces-trim s = drop_end_spaces_idem (drop_spaces s)
