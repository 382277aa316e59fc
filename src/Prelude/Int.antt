-- ===== src/Prelude/Int.antt =====
-- Signed differences of instants, as `int(a.Sub(b).Seconds())` computes them.
use Prim.Native.Nat.{ℕ, zero, suc, ◌-◌, ◌/◌}
use release_engine.Prelude.Tests.{leb, if◌then◌else◌}

-- `negsuc n` is -(n + 1).
pub data ℤ : Type 0 where
  pos : ℕ → ℤ
  negsuc : ℕ → ℤ

abbrev pub negate : ℕ → ℤ
negate zero = pos 0
negate (suc m) = negsuc m

-- `/` rounds towards zero.
unfoldable pub seconds_between : ℕ → ℕ → ℤ
seconds_between a b =
    if leb b a then pos ((a - b) / 1_000_000_000) else negate ((b - a) / 1_000_000_000)

-- `a.Sub(b)`, in nanoseconds.
unfoldable pub duration_between : ℕ → ℕ → ℤ
duration_between a b = if leb b a then pos (a - b) else negate (b - a)
