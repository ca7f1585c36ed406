-- ===== src/Base/Words.antt =====
-- C integers as numbers. An `int` is its bit pattern, a number below `2 ^ 32`.
use Prim.Native.Nat.{ℕ, ◌+◌, ◌-◌, ◌%◌, ◌^◌, ◌<◌, ◌≤◌}
use mathlib.Core.Bool.{Bool}
use mathlib.Core.Path.{◌≡◌, ◌∙◌}
use mathlib.Core.Logic.{◌⊎◌, inl, inr}
use native.Mathlib.Nat.{mod-eq_of_lt, mod-eq-sub-mod}
use native.Mathlib.Decide.{dec_lt}
use native.Mathlib.Omega.{arith}
use night_os.Base.Tests.{ltb, if◌then◌else◌}

-- `uint64_t` sum and difference
abbrev pub add64 : ℕ → ℕ → ℕ
add64 a b = (a + b) % 2 ^ 64

abbrev pub sub64 : ℕ → ℕ → ℕ
sub64 a b = (a + 2 ^ 64 - b) % 2 ^ 64

-- the conversion of a wider integer to `int`
abbrev pub to_int : ℕ → ℕ
to_int a = a % 2 ^ 32

-- the conversion of an `int` to `uint64_t`, by sign extension
abbrev pub of_int : ℕ → ℕ
of_int a = if ltb a (2 ^ 31) then a else a + (2 ^ 64 - 2 ^ 32)

-- `a < b` between two `int`s
abbrev pub lt_int : ℕ → ℕ → Bool
lt_int a b = ltb ((a + 2 ^ 31) % 2 ^ 32) ((b + 2 ^ 31) % 2 ^ 32)

-- One turn round a modulus.
pub mod_once : (a m : ℕ) → a < m + m → ((a < m) × (a % m ≡ a)) ⊎ ((m ≤ a) × (a % m ≡ a - m))
mod_once a m h = elim (dec_lt a m) [
  | yes p ↦ inl (p, mod-eq_of_lt p)
  | no p ↦ inr (
    omega arith,
    mod-eq-sub-mod {n = a} {m = m} (omega arith) ∙ mod-eq_of_lt {n = a - m} {m = m} (omega arith),
  )
]
