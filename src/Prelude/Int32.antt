-- ===== src/Prelude/Int32.antt =====
-- Go's int32 as its bit pattern, a number below 2 ^ 32.
use Prim.Native.Nat.{ℕ}
use mathlib.Core.Bool.{Bool, ◌&&◌}
use open_rgs_go.Prelude.Tests.{ltb}

abbrev pub two31 : ℕ
two31 = 2147483648

-- 0 < n
abbrev pub positive32 : ℕ → Bool
positive32 n = ltb 0 n && ltb n two31
