-- ===== src/Prelude/Words.antt =====
-- 64-bit arithmetic: `+` and `*` on u64 as the release build computes them, modulo 2^64.
use Prim.Native.Nat.{ℕ, ◌+◌, ◌-◌, ◌*◌, ◌%◌, ◌^◌, ◌<◌}
use mathlib.Core.Path.{◌≡◌, refl}
use mathlib.Core.List.{List, [], ◌∷◌}
use native.Mathlib.Omega.{arith}
use delegation_strategy.Prelude.Lists.{sum}
use delegation_strategy.Prelude.Tests.{ltb, if◌then◌else◌}

abbrev pub u64_mod : ℕ
u64_mod = 2 ^ 64

abbrev pub add_u64 : ℕ → ℕ → ℕ
add_u64 a b = (a + b) % u64_mod

abbrev pub sub_u64 : ℕ → ℕ → ℕ
sub_u64 a b = (a + (u64_mod - b)) % u64_mod

-- Signed numbers; `negsuc n` is -(n + 1).
pub data ℤ : Type 0 where
  pos : ℕ → ℤ
  negsuc : ℕ → ℤ

-- `as i32` on a u64 keeps the low 32 bits, as two's complement.
unfoldable pub to_i32 : ℕ → ℤ
to_i32 n = let low = n % 2 ^ 32 in if ltb low (2 ^ 31) then pos low else negsuc (2 ^ 32 - 1 - low)

-- A number below 2^31 is kept.
pub to_i32-eq-pos : (n : ℕ) → n < 2 ^ 31 → to_i32 n ≡ pos n
unfolding to_i32
to_i32-eq-pos n h = ground arith

abbrev pub mul_u64 : ℕ → ℕ → ℕ
mul_u64 a b = (a * b) % u64_mod

unfoldable pub sum_u64 : List ℕ → ℕ
sum_u64 [] = 0
sum_u64 (x ∷ xs) = add_u64 x (sum_u64 xs)

pub sum_u64-eq-sum : (xs : List ℕ) → sum xs < u64_mod → sum_u64 xs ≡ sum xs
unfolding sum_u64
sum_u64-eq-sum [] h = refl
sum_u64-eq-sum (x ∷ xs) h = omega (arith, sum_u64-eq-sum xs (omega arith))
