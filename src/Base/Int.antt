-- ===== src/Base/Int.antt =====
-- Signed integers over the native numbers, under the library's names (its ℤ stands on the unary ℕ).
use Prim.Native.Nat.{ℕ, zero, suc, ◌+◌, ◌-◌, ◌%◌, ◌^◌}
use mathlib.Core.Bool.{Bool, true, false}
use night_os.Base.Tests.{ltb, ◌==◌}

-- `negsuc n` is -(n + 1).
pub data ℤ : Type 0 where
  pos : ℕ → ℤ
  negsuc : ℕ → ℤ

-- equality and order, as the code tests them
abbrev pub eq_ℤ : ℤ → ℤ → Bool
eq_ℤ (pos a) (pos b) = a == b
eq_ℤ (pos a) (negsuc b) = false
eq_ℤ (negsuc a) (pos b) = false
eq_ℤ (negsuc a) (negsuc b) = a == b

abbrev pub ltb_ℤ : ℤ → ℤ → Bool
ltb_ℤ (pos a) (pos b) = ltb a b
ltb_ℤ (pos a) (negsuc b) = false
ltb_ℤ (negsuc a) (pos b) = true
ltb_ℤ (negsuc a) (negsuc b) = ltb b a

abbrev pub suc_ℤ : ℤ → ℤ
suc_ℤ (pos a) = pos (a + 1)
suc_ℤ (negsuc zero) = pos 0
suc_ℤ (negsuc (suc a)) = negsuc a

abbrev pub pred_ℤ : ℤ → ℤ
pred_ℤ (pos zero) = negsuc 0
pred_ℤ (pos (suc a)) = pos a
pred_ℤ (negsuc a) = negsuc (suc a)

-- the bit pattern of an `int`, and the `int` of a bit pattern
abbrev pub int_bits : ℤ → ℕ
int_bits (pos a) = a % 2 ^ 32
int_bits (negsuc a) = 2 ^ 32 - 1 - a % 2 ^ 32

abbrev pub of_int_bits : ℕ → ℤ
of_int_bits a = elim (ltb a (2 ^ 31)) [ true ↦ pos a | false ↦ negsuc (2 ^ 32 - 1 - a) ]
