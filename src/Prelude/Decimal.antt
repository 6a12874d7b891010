-- ===== src/Prelude/Decimal.antt =====
-- `str(n)` of an integer that is not negative, and of the number before one.
use Prim.Native.Nat.{ℕ, zero, suc, ◌+◌, ◌/◌, ◌%◌}
use mathlib.Core.Bool.{true, false}
use mathlib.Core.List.{[], ◌∷◌}
use rustlette.Prelude.Tests.{◌==◌}
use rustlette.Prelude.Strings.{Text, codes}

-- The digits of `n` before `out`; a round drops the last digit, so the fuel `n + 1` is enough.
unfoldable pub digits : ℕ → ℕ → Text → Text
digits zero n out = out
digits (suc fuel) n out = elim (n / 10 == 0) [
  | true ↦ (b'0' + n % 10) ∷ out
  | false ↦ digits fuel (n / 10) ((b'0' + n % 10) ∷ out)
]

unfoldable pub str : ℕ → Text
unfolding digits
str n = digits (n + 1) n []

-- `str(n - 1)`
unfoldable pub str_pred : ℕ → Text
unfolding str
str_pred zero = codes "-1"
str_pred (suc n) = str n
