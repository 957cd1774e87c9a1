-- ===== src/Prelude/Int.antt =====
-- Go's `int` where it can be negative.
use Prim.Native.Nat.{ℕ, ◌-◌, ◌≤◌}
use mathlib.Core.Bool.{Bool, false}
use mathlib.Core.Path.{◌≡◌}
use native.Mathlib.Omega.{arith}
use rdp_warp_portal.Prelude.Tests.{leb, if◌then◌else◌, nat_beq}

-- `negsuc n` is -(n + 1).
pub data ℤ : Type 0 where
  pos : ℕ → ℤ
  negsuc : ℕ → ℤ

-- a - b, as an integer.
abbrev pub sub_ℕ : ℕ → ℕ → ℤ
sub_ℕ a b = if leb b a then pos (a - b) else negsuc (b - a - 1)

pub sub_ℕ-of_le : (a b : ℕ) → b ≤ a → sub_ℕ a b ≡ pos (a - b)
sub_ℕ-of_le a b h = ground arith

-- Whether an integer is the natural number `n`.
abbrev pub int_is : ℤ → ℕ → Bool
int_is (pos m) n = nat_beq m n
int_is (negsuc m) n = false
