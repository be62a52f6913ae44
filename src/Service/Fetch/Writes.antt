-- ===== src/Service/Fetch/Writes.antt =====
-- The writes of a transfer.
use binder.Prelude.{
  ℕ, zero, suc, List, [], ◌∷◌, ◌++◌, take, drop, none, ◌≡◌, refl, sym, ◌∙◌, ap, append_assoc,
}
use binder.Text.{Bytes}
use binder.Http.Exchange.{Write, wrote, interrupted, would_block, write_failed}
use binder.Service.Fetch.{write_fully}

take-drop_append : (n : ℕ) (s : Bytes) → s ≡ take n s ++ drop n s
take-drop_append zero s = refl
take-drop_append (suc n) [] = refl
take-drop_append (suc n) (c ∷ s) = ap (◌∷◌ c) (take-drop_append n s)

-- `writeFully` writes the text in order, however short and interrupted the writes are: all of it
-- when it succeeds, and a first part of it when it fails.
pub write_fully-Writes :
    (outcomes : List Write) (s : Bytes)
    → let w = write_fully outcomes s in
      (rest : Bytes) × (s ≡ w.landed ++ rest) × (w.failure ≡ none → rest ≡ [])
unfolding write_fully
write_fully-Writes outcomes [] = ([], refl, λ h. refl)
write_fully-Writes [] (c ∷ s) = (c ∷ s, refl, λ h. cc)
write_fully-Writes (wrote zero ∷ outcomes) (c ∷ s) = (c ∷ s, refl, λ h. cc)
write_fully-Writes (wrote (suc n) ∷ outcomes) (c ∷ s) =
    let (rest, e, f) = write_fully-Writes outcomes (drop n s) in
    (
      rest,
      ap (◌∷◌ c) (
          take-drop_append n s
          ∙ ap (λ (x : Bytes). take n s ++ x) e
          ∙ sym (append_assoc (take n s) (write_fully outcomes (drop n s)).landed rest)),
      f,
    )
write_fully-Writes (interrupted ∷ outcomes) (c ∷ s) = write_fully-Writes outcomes (c ∷ s)
write_fully-Writes (would_block ∷ outcomes) (c ∷ s) = (c ∷ s, refl, λ h. cc)
write_fully-Writes (write_failed why ∷ outcomes) (c ∷ s) = (c ∷ s, refl, λ h. cc)
