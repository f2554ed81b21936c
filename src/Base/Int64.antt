-- ===== src/Base/Int64.antt =====
-- Go's int64 and int (64 bits on the platforms the program is built for) as bit patterns below
-- 2 ^ 64: arithmetic wraps, and an order compares the patterns with the sign bit flipped.
use Prim.Native.Nat.{ℕ, ◌+◌, ◌-◌, ◌%◌, ◌^◌, ◌<◌}
use mathlib.Core.Path.{◌≡◌}
use mathlib.Core.Bool.{Bool}
use native.Mathlib.Omega.{arith}
use distributed_job_processo.Base.Tests.{ltb}

abbrev pub wrap : ℕ → ℕ
wrap n = n % 2 ^ 64

-- -1
abbrev pub minus_one : ℕ
minus_one = 2 ^ 64 - 1

-- a < b
abbrev pub slt : ℕ → ℕ → Bool
slt a b = ltb ((a + 2 ^ 63) % 2 ^ 64) ((b + 2 ^ 63) % 2 ^ 64)

-- x++
abbrev pub inc : ℕ → ℕ
inc n = wrap (n + 1)

-- -x
abbrev pub negate : ℕ → ℕ
negate n = wrap (2 ^ 64 - n)

-- Among values that are not negative the signed order is the order of ℕ.
pub slt-eq-ltb : (a b : ℕ) → a < 2 ^ 63 → b < 2 ^ 63 → slt a b ≡ ltb a b
slt-eq-ltb a b p q = ground arith
