-- ===== src/Base/Bits.antt =====
-- The binary digits of a word, and what the bitwise operations do to each of them.
use Prim.Native.Nat.{
  ℕ, zero, suc, ◌+◌, ◌-◌, ◌*◌, ◌/◌, ◌%◌, ◌^◌, ◌≤◌, ◌<◌, min, max, bit_and, bit_or, digits, bitwise,
  bit_and-bitwise, bit_or-bitwise,
}
use mathlib.Core.Path.{◌≡◌, refl, ap, ◌∙◌}
use native.Mathlib.Nat.{pow-suc}
use native.Mathlib.Omega.{arith}
use night_os.Base.Tests.{◌==◌, if◌then◌else◌}

-- digit `k` of `w`, the lowest one first
unfoldable pub digit : ℕ → ℕ → ℕ
digit w zero = w % 2
digit w (suc k) = digit (w / 2) k

pub digit-le : (w k : ℕ) → digit w k ≤ 1
unfolding digit
digit-le w zero = omega arith
digit-le w (suc k) = digit-le (w / 2) k

module _ (rest : ℕ → ℕ) (op : ℕ → ℕ → ℕ) where
  -- Both counts reach the last digit of `v`, so that they give the same number.
  same_count : {v : ℕ} (k l w : ℕ) → v ≤ k → v ≤ l → digits rest op l v w ≡ digits rest op k v w
  same_count {v = zero} zero zero w _ _ = refl
  same_count {v = zero} zero (suc l) w _ _ = refl
  same_count {v = zero} (suc k) zero w _ _ = refl
  same_count {v = zero} (suc k) (suc l) w _ _ = refl
  same_count {v = suc v} zero l w h _ = absurd (omega arith)
  same_count {v = suc v} (suc k) zero w _ h = absurd (omega arith)
  same_count {v = suc v} (suc k) (suc l) w g h =
      ap (λ high. high * 2 + op (suc v % 2) (w % 2))
        (same_count {v = suc v / 2} k l (w / 2) (omega arith) (omega arith))

  -- The last digit is split off a number that is not 0.
  split_last :
      (v w : ℕ)
      → bitwise rest op (suc v) w ≡ bitwise rest op (suc v / 2) (w / 2) * 2 + op (suc v % 2) (w % 2)
  split_last v w =
      ap (λ high. high * 2 + op (suc v % 2) (w % 2))
        (same_count {v = suc v / 2} (suc v / 2) v (w / 2) (omega arith) (omega arith))

-- what an operation on two words does to the last digit and to the others
abbrev pub Halves : (ℕ → ℕ → ℕ) → (ℕ → ℕ → ℕ) → ℕ → ℕ → Type 0
Halves word_op digit_op v w =
    (word_op v w / 2 ≡ word_op (v / 2) (w / 2)) × (word_op v w % 2 ≡ digit_op (v % 2) (w % 2))

pub bit_or-Halves : (v w : ℕ) → Halves bit_or max v w
bit_or-Halves zero w = omega (arith, bit_or-bitwise 0 w, bit_or-bitwise 0 (w / 2))
bit_or-Halves (suc v) w = omega (
  arith,
  split_last (λ d. d) max v w,
  bit_or-bitwise (suc v / 2) (w / 2),
  bit_or-bitwise (suc v) w,
)

pub bit_and-Halves : (v w : ℕ) → Halves bit_and min v w
bit_and-Halves zero w = omega (arith, bit_and-bitwise 0 w, bit_and-bitwise 0 (w / 2))
bit_and-Halves (suc v) w = omega (
  arith,
  split_last (λ _. 0) min v w,
  bit_and-bitwise (suc v / 2) (w / 2),
  bit_and-bitwise (suc v) w,
)

pub digit-bit_or : (k a b : ℕ) → digit (bit_or a b) k ≡ max (digit a k) (digit b k)
unfolding digit
digit-bit_or zero a b = (bit_or-Halves a b).1
digit-bit_or (suc k) a b =
    ap (λ w. digit w k) (bit_or-Halves a b).0 ∙ digit-bit_or k (a / 2) (b / 2)

pub digit-bit_and : (k a b : ℕ) → digit (bit_and a b) k ≡ min (digit a k) (digit b k)
unfolding digit
digit-bit_and zero a b = (bit_and-Halves a b).1
digit-bit_and (suc k) a b =
    ap (λ w. digit w k) (bit_and-Halves a b).0 ∙ digit-bit_and k (a / 2) (b / 2)

digit-zero : (k : ℕ) → digit 0 k ≡ 0
unfolding digit
digit-zero zero = refl
digit-zero (suc k) = digit-zero k

pub digit-pow : (j k : ℕ) → digit (2 ^ j) k ≡ (if k == j then 1 else 0)
unfolding digit
digit-pow zero zero = refl
digit-pow zero (suc k) = digit-zero k ∙ ground arith
digit-pow (suc j) zero =
    let double : 2 ^ suc j ≡ 2 * 2 ^ j = simp pow-suc (omega arith) in ground (arith, double)
digit-pow (suc j) (suc k) =
    let half : 2 ^ suc j / 2 ≡ 2 ^ j = simp pow-suc (omega arith) in
    ap (λ w. digit w k) half ∙ digit-pow j k ∙ ground arith

-- the complement of a word of `n` digits
abbrev pub complement : ℕ → ℕ → ℕ
complement n w = 2 ^ n - 1 - w

pub digit-complement : (n k w : ℕ) → w < 2 ^ n → k < n → digit (complement n w) k + digit w k ≡ 1
unfolding digit
digit-complement zero k w h lt = absurd (omega arith)
digit-complement (suc n) zero w h lt =
    let double : 2 ^ suc n ≡ 2 * 2 ^ n = simp pow-suc (omega arith) in omega (arith, double)
digit-complement (suc n) (suc k) w h lt =
    let double : 2 ^ suc n ≡ 2 * 2 ^ n = simp pow-suc (omega arith) in
    let half : complement (suc n) w / 2 ≡ complement n (w / 2) = omega (arith, double) in
    ap (λ c. digit c k + digit (w / 2) k) half
    ∙ digit-complement n k (w / 2) (omega (arith, double)) (omega arith)

pub bit_and-zero : (fuel a : ℕ) → a ≤ fuel → bit_and a 0 ≡ 0
bit_and-zero fuel zero h = bit_and-bitwise 0 0
bit_and-zero zero (suc a) h = absurd (omega arith)
bit_and-zero (suc fuel) (suc a) h =
    omega (arith, bit_and-Halves (suc a) 0, bit_and-zero fuel (suc a / 2) (omega arith))

-- A mask of one digit leaves that digit.
pub bit_and-pow : (k a : ℕ) → bit_and a (2 ^ k) ≡ digit a k * 2 ^ k
unfolding digit
bit_and-pow zero a = omega (arith, bit_and-Halves a 1, bit_and-zero (a / 2) (a / 2) (omega arith))
bit_and-pow (suc k) a =
    let double : 2 ^ suc k ≡ 2 * 2 ^ k = simp pow-suc (omega arith) in
    let half : 2 ^ suc k / 2 ≡ 2 ^ k = omega (arith, double) in
    omega (
      arith,
      bit_and-Halves a (2 ^ suc k),
      double,
      ap (bit_and (a / 2)) half,
      bit_and-pow k (a / 2),
      ap (λ (t : ℕ). digit (a / 2) k * t) double,
    )

pub pow-pos : (k : ℕ) → 0 < 2 ^ k
pow-pos zero = omega arith
pow-pos (suc k) =
    let double : 2 ^ suc k ≡ 2 * 2 ^ k = simp pow-suc (omega arith) in
    omega (arith, double, pow-pos k)

pub pow-lt : (k n : ℕ) → k < n → 2 ^ k < 2 ^ n
pow-lt k zero h = absurd (omega arith)
pow-lt zero (suc n) h =
    let double : 2 ^ suc n ≡ 2 * 2 ^ n = simp pow-suc (omega arith) in
    omega (arith, double, pow-pos n)
pow-lt (suc k) (suc n) h =
    let double_k : 2 ^ suc k ≡ 2 * 2 ^ k = simp pow-suc (omega arith) in
    let double_n : 2 ^ suc n ≡ 2 * 2 ^ n = simp pow-suc (omega arith) in
    omega (arith, double_k, double_n, pow-lt k n (omega arith))
