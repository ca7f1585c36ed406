-- ===== src/Base/Masks.antt =====
-- Or and and on words whose low and high digits are written apart.
use Prim.Native.Nat.{
  ℕ, zero, suc, ◌+◌, ◌-◌, ◌*◌, ◌/◌, ◌^◌, ◌≤◌, ◌<◌, bit_and, bit_or, bit_or-bitwise,
}
use mathlib.Core.Path.{◌≡◌, ap, ap₂, ◌∙◌}
use native.Mathlib.Nat.{pow-suc}
use native.Mathlib.Omega.{arith}
use night_os.Base.Bits.{bit_or-Halves, bit_and-Halves, bit_and-zero}

-- a power of two, and a multiple of it, as twice the ones below
double : (k c : ℕ) → (2 ^ suc k ≡ 2 * 2 ^ k) × (c * 2 ^ suc k ≡ 2 * (c * 2 ^ k))
double k c =
    let twice : 2 ^ suc k ≡ 2 * 2 ^ k = simp pow-suc (omega arith) in
    (twice, ap (λ t. c * t) twice ∙ omega arith)

bit_or_fuel : (fuel a : ℕ) → a ≤ fuel → bit_or a 0 ≡ a
bit_or_fuel fuel zero h = bit_or-bitwise 0 0
bit_or_fuel zero (suc a) h = absurd (omega arith)
bit_or_fuel (suc fuel) (suc a) h =
    omega (arith, bit_or-Halves (suc a) 0, bit_or_fuel fuel (suc a / 2) (omega arith))

pub bit_or_zero : (a : ℕ) → bit_or a 0 ≡ a
bit_or_zero a = bit_or_fuel a a (omega arith)

-- Or with a small word leaves the high digits.
pub bit_or-low :
    (k c p q : ℕ) → p < 2 ^ k → q < 2 ^ k → bit_or (c * 2 ^ k + p) q ≡ c * 2 ^ k + bit_or p q
bit_or-low zero c zero zero h g = bit_or_zero (c * 1 + 0) ∙ omega (arith, bit_or_zero 0)
bit_or-low zero c zero (suc q) h g = absurd (omega arith)
bit_or-low zero c (suc p) q h g = absurd (omega arith)
bit_or-low (suc k) c p q h g =
    let (pow, high) = double k c in
    let half : (c * 2 ^ suc k + p) / 2 ≡ c * 2 ^ k + p / 2 = omega (arith, high) in
    let ih =
      ap (λ t. bit_or t (q / 2)) half
      ∙ bit_or-low k c (p / 2) (q / 2) (omega (arith, pow)) (omega (arith, pow)) in
    omega (arith, bit_or-Halves (c * 2 ^ suc k + p) q, bit_or-Halves p q, ih, high)

pub bit_or-lt : (k p q : ℕ) → p < 2 ^ k → q < 2 ^ k → bit_or p q < 2 ^ k
bit_or-lt zero zero zero h g = omega (arith, bit_or_zero 0)
bit_or-lt zero zero (suc q) h g = absurd (omega arith)
bit_or-lt zero (suc p) q h g = absurd (omega arith)
bit_or-lt (suc k) p q h g =
    let (pow, high) = double k 1 in
    let ih = bit_or-lt k (p / 2) (q / 2) (omega (arith, pow)) (omega (arith, pow)) in
    omega (arith, bit_or-Halves p q, ih, pow)

-- Or with a multiple of a power of two adds it to a smaller word.
pub bit_or-add : (k c p : ℕ) → p < 2 ^ k → bit_or p (c * 2 ^ k) ≡ c * 2 ^ k + p
bit_or-add zero c zero h = bit_or-bitwise 0 (c * 1) ∙ omega arith
bit_or-add zero c (suc p) h = absurd (omega arith)
bit_or-add (suc k) c p h =
    let (pow, high) = double k c in
    let half : (c * 2 ^ suc k) / 2 ≡ c * 2 ^ k = omega (arith, high) in
    let ih = ap (bit_or (p / 2)) half ∙ bit_or-add k c (p / 2) (omega (arith, pow)) in
    omega (arith, bit_or-Halves p (c * 2 ^ suc k), ih, high)

-- And with a mask of low digits leaves those.
pub bit_and-low : (k c p : ℕ) → p < 2 ^ k → bit_and (c * 2 ^ k + p) (2 ^ k - 1) ≡ p
bit_and-low zero c zero h = bit_and-zero (c * 1 + 0) (c * 1 + 0) (omega arith)
bit_and-low zero c (suc p) h = absurd (omega arith)
bit_and-low (suc k) c p h =
    let (pow, high) = double k c in
    let half : (c * 2 ^ suc k + p) / 2 ≡ c * 2 ^ k + p / 2 = omega (arith, high) in
    let mask : (2 ^ suc k - 1) / 2 ≡ 2 ^ k - 1 = omega (arith, pow) in
    let ih = ap₂ bit_and half mask ∙ bit_and-low k c (p / 2) (omega (arith, pow)) in
    omega (arith, bit_and-Halves (c * 2 ^ suc k + p) (2 ^ suc k - 1), ih, high, pow)

-- And with a mask of high digits leaves those.
pub bit_and-high :
    (k c p m : ℕ) → p < 2 ^ k → bit_and (c * 2 ^ k + p) (m * 2 ^ k) ≡ bit_and c m * 2 ^ k
bit_and-high zero c zero m h =
    let left : c * 1 + 0 ≡ c = omega arith in
    let right : m * 1 ≡ m = omega arith in ap₂ bit_and left right ∙ omega arith
bit_and-high zero c (suc p) m h = absurd (omega arith)
bit_and-high (suc k) c p m h =
    let (pow, high) = double k c in
    let (_, mask) = double k m in
    let (_, out) = double k (bit_and c m) in
    let half : (c * 2 ^ suc k + p) / 2 ≡ c * 2 ^ k + p / 2 = omega (arith, high) in
    let half_mask : (m * 2 ^ suc k) / 2 ≡ m * 2 ^ k = omega (arith, mask) in
    let ih = ap₂ bit_and half half_mask ∙ bit_and-high k c (p / 2) m (omega (arith, pow)) in
    omega (arith, bit_and-Halves (c * 2 ^ suc k + p) (m * 2 ^ suc k), ih, mask, out)
