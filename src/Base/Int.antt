-- ===== src/Base/Int.antt =====
-- Go ints that may be negative: `negsuc n` is -(n + 1).
use Prim.Native.Nat.{ℕ, suc, ◌-◌}
use Prim.Native.String.{String, ◌++◌}
use kluster_capacity.Base.Tests.{leb, if◌then◌else◌}
use kluster_capacity.Base.Text.{show_nat}

pub data ℤ : Type 0 where
  pos : ℕ → ℤ
  negsuc : ℕ → ℤ

-- a - b, as an integer.
abbrev pub sub_ℕ : ℕ → ℕ → ℤ
sub_ℕ a b = if leb b a then pos (a - b) else negsuc (b - a - 1)

unfoldable pub show_int : ℤ → String
show_int (pos n) = show_nat n
show_int (negsuc n) = "-" ++ show_nat (suc n)
