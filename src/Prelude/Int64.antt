-- ===== src/Prelude/Int64.antt =====
-- Go's int64 as its bit pattern, a number below 2 ^ 64; addition and subtraction wrap round, and
-- the order is that of the signed values.
use Prim.Native.Nat.{ℕ, ◌+◌, ◌-◌, ◌%◌, ◌≤◌, ◌<◌}
use mathlib.Core.Path.{◌≡◌}
use mathlib.Core.Bool.{Bool, false}
use native.Mathlib.Omega.{arith}
use open_rgs_go.Prelude.Tests.{ltb, leb}

abbrev pub two63 : ℕ
two63 = 9223372036854775808

abbrev pub two64 : ℕ
two64 = 18446744073709551616

infixl 65 ◌+64◌ ◌-64◌
unfoldable pub ◌+64◌ : ℕ → ℕ → ℕ
a +64 b = (a + b) % two64

unfoldable pub ◌-64◌ : ℕ → ℕ → ℕ
a -64 b = (a + (two64 - b % two64)) % two64

-- The signed value, moved up by 2 ^ 63.
abbrev pub biased : ℕ → ℕ
biased a = (a + two63) % two64

abbrev pub lt64 : ℕ → ℕ → Bool
lt64 a b = ltb (biased a) (biased b)

abbrev pub le64 : ℕ → ℕ → Bool
le64 a b = leb (biased a) (biased b)

-- A positive int64.
pub record IsPositive (a : ℕ) : Type 0 where
  pub above : 0 < a
  pub below : a < two63

pub le64_zero : (a : ℕ) → a < two64 → le64 a 0 ≡ false → IsPositive a
le64_zero a r h = ground arith

pub sub64-add64 : (a b : ℕ) → a < two64 → (a +64 b) -64 b ≡ a
unfolding ◌+64◌ ◌-64◌
sub64-add64 a b h = omega arith

pub add64-sub64 : (a b : ℕ) → a < two64 → (a -64 b) +64 b ≡ a
unfolding ◌+64◌ ◌-64◌
add64-sub64 a b h = omega arith

pub add64-lt : (a b : ℕ) → a +64 b < two64
unfolding ◌+64◌
add64-lt a b = omega arith

pub sub64-lt : (a b : ℕ) → a -64 b < two64
unfolding ◌-64◌
sub64-lt a b = omega arith

pub add64_assoc : (a b c : ℕ) → a +64 b +64 c ≡ a +64 (b +64 c)
unfolding ◌+64◌
add64_assoc a b c = omega arith

pub add64_comm : (a b : ℕ) → a +64 b ≡ b +64 a
unfolding ◌+64◌
add64_comm a b = omega arith

-- No wrap-round where the true sum or difference is a non-negative int64.
pub add64_exact : (a b : ℕ) → a + b < two63 → a +64 b ≡ a + b
unfolding ◌+64◌
add64_exact a b h = omega arith

pub sub64_exact : (a b : ℕ) → a < two63 → b ≤ a → a -64 b ≡ a - b
unfolding ◌-64◌
sub64_exact a b h k = omega arith
