-- ===== src/Text/Tests.antt =====
-- The theorems on texts at fixed inputs.
use binder.Prelude.{true, pos, ◌++◌, ◌≡◌, refl, arith}
use binder.Text.{codes}
use binder.Text.Number.{strtoll, decimal}
use binder.Text.Number.RoundTrip.{strtoll-decimal}

strtoll-decimal_example :
    strtoll 10 (decimal 1024 ++ codes " bytes") ≡ record { value = pos 1024; converted = true }
strtoll-decimal_example = strtoll-decimal 1024 (codes " bytes") (omega arith) refl
