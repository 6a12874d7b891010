-- ===== src/Prelude/Int.antt =====
-- Python's `int` as a sign and a native number: what the parsing of ranges needs of it.
use Prim.Native.Nat.{ℕ, suc, ◌+◌, ◌-◌}
use mathlib.Core.Bool.{Bool, true, false}
use rustlette.Prelude.Tests.{ltb, leb, if◌then◌else◌}

-- `negsuc n` is -(n + 1).
pub data ℤ : Type 0 where
  pos : ℕ → ℤ
  negsuc : ℕ → ℤ

-- a - b, as an integer
abbrev pub sub_ℕ : ℕ → ℕ → ℤ
sub_ℕ a b = if leb b a then pos (a - b) else negsuc (b - a - 1)

-- -n
abbrev pub neg : ℕ → ℤ
neg n = sub_ℕ 0 n

-- n - z
abbrev pub minus : ℕ → ℤ → ℤ
minus n (pos m) = sub_ℕ n m
minus n (negsuc m) = pos (n + suc m)

-- z + 1
abbrev pub incr : ℤ → ℤ
incr (pos n) = pos (suc n)
incr (negsuc n) = neg n

-- z < n
abbrev pub ltb_ℕ : ℤ → ℕ → Bool
ltb_ℕ (pos m) n = ltb m n
ltb_ℕ (negsuc m) n = true

-- a < b
abbrev pub ltb_ℤ : ℤ → ℤ → Bool
ltb_ℤ (pos a) (pos b) = ltb a b
ltb_ℤ (pos a) (negsuc b) = false
ltb_ℤ (negsuc a) (pos b) = true
ltb_ℤ (negsuc a) (negsuc b) = ltb b a

-- the number itself, and 0 for a negative one
abbrev pub to_ℕ : ℤ → ℕ
to_ℕ (pos n) = n
to_ℕ (negsuc n) = 0
