-- ===== src/Decimal/Digits.antt =====
-- The two loops of `long_to_str`: which number the digits stand for, in either order.
use night_os.Base.{
  ℕ, zero, suc, ◌+◌, ◌-◌, ◌*◌, ◌/◌, ◌%◌, ◌^◌, ◌≡◌, ◌≤◌, ◌<◌, ◌⊎◌, refl, ap, ap₂, ◌∙◌, sym, ◌&&◌,
  ltb, leb, if◌then◌else◌, arith, inl, inr, Returns,
}
use native.Mathlib.Nat.{pow-suc, pow-zero}
use mathlib.Core.Path.{subst}
use native.Mathlib.Decide.{ℕ_discrete, dec_lt}
use night_os.Mem.{Memory, poke}
use night_os.Decimal.{to_char, put_digits, swap_ends}

-- the value of a digit
unfoldable pub value_of : ℕ → ℕ
value_of c = if ltb c b'a' then c - b'0' else c + 10 - b'a'

value_of-to_char : (r : ℕ) → r < 16 → value_of (to_char r) ≡ r
unfolding value_of to_char
value_of-to_char r h = ground arith

-- the number that `n` digits at `p` stand for, with the lowest digit first
abbrev pub lowest_first : ℕ → Memory → ℕ → ℕ → ℕ
lowest_first divisor m p zero = 0
lowest_first divisor m p (suc n) = value_of (m p) + divisor * lowest_first divisor m (p + 1) n

-- and with the highest digit first, as it is read
abbrev pub highest_first : ℕ → Memory → ℕ → ℕ → ℕ
highest_first divisor m p zero = 0
highest_first divisor m p (suc n) = highest_first divisor m p n * divisor + value_of (m (p + n))

abbrev pub IsDivisor : ℕ → Type 0
IsDivisor divisor = (divisor ≡ 10) ⊎ (divisor ≡ 16)

-- What `put_digits` returns: `n` digits at `p` that stand for `ud`, and all below `p` as it was.
pub record Digits (divisor ud p : ℕ) (m : Memory) (r : ℕ × Memory) : Type 0 where
  pub n : ℕ
  pub end : r.0 ≡ p + n
  pub some_digit : 0 < n
  pub value : lowest_first divisor r.1 p n ≡ ud
  pub chars : (k : ℕ) → k < n → to_char (value_of (r.1 (p + k))) ≡ r.1 (p + k)
  pub small : (k : ℕ) → k < n → value_of (r.1 (p + k)) < divisor
  pub below : (x : ℕ) → x < p → r.1 x ≡ m x

char_at :
    (m : Memory) (x y : ℕ) → x ≡ y → to_char (value_of (m x)) ≡ m x → to_char (value_of (m y)) ≡ m y
char_at m x y e h = subst (λ z. to_char (value_of (m z)) ≡ m z) e h

split_digit :
    (divisor ud : ℕ)
    → IsDivisor divisor
    → (ud % divisor < 16)
      × (ud % divisor + divisor * (ud / divisor) ≡ ud)
      × (ud % divisor < divisor)
split_digit divisor ud (inl e) = rw e (omega arith, omega arith, omega arith)
split_digit divisor ud (inr e) = rw e (omega arith, omega arith, omega arith)

value_at :
    (m : Memory) (divisor x y : ℕ) → x ≡ y → value_of (m x) < divisor → value_of (m y) < divisor
value_at m divisor x y e h = subst (λ z. value_of (m z) < divisor) e h

quotient-lt :
    (divisor ud fuel : ℕ)
    → IsDivisor divisor
    → ud < divisor ^ suc fuel
    → ud / divisor < divisor ^ fuel
quotient-lt divisor ud fuel (inl e) h =
    subst (λ b. ud < b ^ suc fuel → ud / b < b ^ fuel) (sym e)
      (λ g.
        let double : 10 ^ suc fuel ≡ 10 * 10 ^ fuel = simp pow-suc (omega arith) in
        omega (arith, double))
      h
quotient-lt divisor ud fuel (inr e) h =
    subst (λ b. ud < b ^ suc fuel → ud / b < b ^ fuel) (sym e)
      (λ g.
        let double : 16 ^ suc fuel ≡ 16 * 16 ^ fuel = simp pow-suc (omega arith) in
        omega (arith, double))
      h

one-Digits :
    (divisor ud p : ℕ) (m : Memory)
    → IsDivisor divisor
    → ud / divisor ≡ 0
    → Digits divisor ud p m (p + 1, poke m p (to_char (ud % divisor)))
one-Digits divisor ud p m dv e =
    let (small, split, fits) = split_digit divisor ud dv in
    let digit = value_of-to_char (ud % divisor) small in
    let whole : ud % divisor ≡ ud = sym (rw e (omega arith)) ∙ split in
    record {
      n = 1;
      end = refl;
      some_digit = omega arith;
      value = ground (arith, digit, whole);
      chars = λ k lt. ground (arith, ap to_char digit);
      small = λ k lt. ground (arith, digit, fits);
      below = λ x lt. ground arith;
    }

more-Digits :
    (divisor ud p : ℕ) (m : Memory) (r : ℕ × Memory)
    → IsDivisor divisor
    → Digits divisor (ud / divisor) (p + 1) (poke m p (to_char (ud % divisor))) r
    → Digits divisor ud p m r
more-Digits divisor ud p m r dv t =
    let (small, split, fits) = split_digit divisor ud dv in
    let digit = value_of-to_char (ud % divisor) small in
    let here : r.1 p ≡ to_char (ud % divisor) = t.below p (omega arith) ∙ ground arith in
    record {
      n = suc t.n;
      end = t.end ∙ omega arith;
      some_digit = omega arith;
      value =
          ap₂ (λ c b. value_of c + divisor * b) here t.value
          ∙ ap (λ c. c + divisor * (ud / divisor)) digit
          ∙ split;
      chars = λ k lt. elim (ℕ_discrete k 0) [
        | yes e ↦
            char_at r.1 p (p + k) (omega arith) (ap to_char (ap value_of here ∙ digit) ∙ sym here)
        | no ne ↦
            char_at r.1 (p + 1 + (k - 1)) (p + k) (omega arith) (t.chars (k - 1) (omega arith))
      ];
      small = λ k lt. elim (ℕ_discrete k 0) [
        | yes e ↦
            value_at r.1 divisor p (p + k) (omega arith)
              (omega (arith, ap value_of here ∙ digit, fits))
        | no ne ↦
            value_at r.1 divisor (p + 1 + (k - 1)) (p + k) (omega arith)
              (t.small (k - 1) (omega arith))
      ];
      below = λ x lt. t.below x (omega arith) ∙ ground arith;
    }

pub put_digits-Digits :
    (fuel divisor ud p : ℕ) (m : Memory)
    → IsDivisor divisor
    → ud < divisor ^ suc fuel
    → Returns (put_digits (suc fuel) divisor ud p m) (Digits divisor ud p m)
unfolding put_digits
put_digits-Digits zero divisor ud p m dv h =
    let e : ud / divisor ≡ 0 = omega (arith, quotient-lt divisor ud 0 dv h, pow-zero divisor) in
    ((p + 1, poke m p (to_char (ud % divisor))), ground (arith, e), one-Digits divisor ud p m dv e)
put_digits-Digits (suc fuel) divisor ud p m dv h = elim (ℕ_discrete (ud / divisor) 0) [
  | yes e ↦ (
    (p + 1, poke m p (to_char (ud % divisor))),
    ground (arith, e),
    one-Digits divisor ud p m dv e,
  )
  | no ne ↦
      let (r, run, t) =
        put_digits-Digits fuel divisor (ud / divisor) (p + 1) (poke m p (to_char (ud % divisor))) dv
          (quotient-lt divisor ud (suc fuel) dv h) in
      (r, ground (arith, ne, run), more-Digits divisor ud p m r dv t)
]

pub swap_ends_lem :
    (rounds p1 p2 : ℕ) (m : Memory) (x : ℕ)
    → p2 ≤ p1 + rounds
    → swap_ends rounds p1 p2 m x ≡ (if leb p1 x && leb x p2 then m (p1 + p2 - x) else m x)
unfolding swap_ends
swap_ends_lem zero p1 p2 m x h = ground (arith, λ (e : x ≡ p1 + p2 - x). ap m e)
swap_ends_lem (suc rounds) p1 p2 m x h = elim (dec_lt p1 p2) [
  | yes lt ↦
      let swapped = poke (poke m p1 (m p2)) p2 (m p1) in
      let mirror : p1 + 1 + (p2 - 1) - x ≡ p1 + p2 - x = omega arith in
      let inner = swap_ends_lem rounds (p1 + 1) (p2 - 1) swapped x (omega arith) in
      ground (arith, inner, ap swapped mirror, left lt, right lt)
  | no ge ↦ ground (arith, λ (e : x ≡ p1 + p2 - x). ap m e)
]
  where
    left : p1 < p2 → x ≡ p1 → m p2 ≡ m (p1 + p2 - x)
    left lt e = ap m (omega arith)

    right : p1 < p2 → x ≡ p2 → m p1 ≡ m (p1 + p2 - x)
    right lt e = ap m (omega arith)

-- Digits in one order stand for the same number as their mirror image in the other.
pub highest_first-mirror :
    (divisor : ℕ) (m m' : Memory) (p len n : ℕ)
    → n ≤ len
    → ((k : ℕ) → k < len → m' (p + k) ≡ m (p + (len - 1 - k)))
    → highest_first divisor m' p n ≡ lowest_first divisor m (p + (len - n)) n
highest_first-mirror divisor m m' p len zero h mirror = refl
highest_first-mirror divisor m m' p len (suc n) h mirror =
    let higher = highest_first-mirror divisor m m' p len n (omega arith) mirror in
    let next : p + (len - suc n) + 1 ≡ p + (len - n) = omega arith in
    let here : m' (p + n) ≡ m (p + (len - suc n)) = mirror n (omega arith) ∙ ap m (omega arith) in
    ap₂ (λ a c. a * divisor + value_of c) (higher ∙ ap (λ q. lowest_first divisor m q n) (sym next))
      here
    ∙ omega arith
