-- ===== src/Decimal/Print.antt =====
-- What `long_to_str` leaves in the memory.
use night_os.Base.{
  ℕ, zero, suc, ◌+◌, ◌-◌, ◌^◌, ◌≡◌, ◌<◌, ◌≤◌, refl, ap, ◌∙◌, sym, Bool, true, false, ◌&&◌, ◌||◌,
  ltb, leb, ◌==◌, if◌then◌else◌, arith, Returns, inl, inr, Bool-cases, ==_iff,
}
use night_os.Base.Int.{ℤ, pos, negsuc}
use mathlib.Core.Path.{subst}
use night_os.Mem.{Memory, poke}
use night_os.Decimal.{divisor_of, to_char, swap_ends, minus, digits_at, magnitude, long_to_str}
use night_os.Decimal.Digits.{
  value_of, lowest_first, highest_first, IsDivisor, put_digits-Digits, swap_ends_lem,
  highest_first-mirror,
}

-- The digits of `d`, in the terms of the code.
record Written (d buf base : ℕ) (m : Memory) : Type 0 where
  n : ℕ
  some_digit : 0 < n
  sign : minus d base ≡ true → m buf ≡ b'-'
  digits : highest_first (divisor_of base) m (digits_at d buf base) n ≡ magnitude d base
  chars :
      (k : ℕ)
      → k < n
      → to_char (value_of (m (digits_at d buf base + k))) ≡ m (digits_at d buf base + k)
  small : (k : ℕ) → k < n → value_of (m (digits_at d buf base + k)) < divisor_of base
  terminated : m (digits_at d buf base + n) ≡ 0

divisor_of-IsDivisor : (base : ℕ) → IsDivisor (divisor_of base)
unfolding divisor_of
divisor_of-IsDivisor base = ground arith

magnitude-lt : (d base : ℕ) → d < 2 ^ 64 → magnitude d base < 10 ^ 64
unfolding magnitude
magnitude-lt d base h = ground arith

fits : (d base : ℕ) → d < 2 ^ 64 → magnitude d base < divisor_of base ^ 64
unfolding divisor_of
fits d base h = let lt = magnitude-lt d base h in ground (arith, lt)

mirror_char :
    (m : Memory) (x c : ℕ) → m x ≡ c → to_char (value_of (m x)) ≡ m x → to_char (value_of c) ≡ c
mirror_char m x c e h = subst (λ b. to_char (value_of b) ≡ b) e h

digits_at_signed : (d buf base : ℕ) → minus d base ≡ true → digits_at d buf base ≡ buf + 1
unfolding digits_at
digits_at_signed d buf base e = ground (arith, e)

long_to_str-Written :
    (d buf base : ℕ) (m : Memory)
    → d < 2 ^ 64
    → Returns (long_to_str d buf base m) (Written d buf base)
unfolding long_to_str
long_to_str-Written d buf base m h =
    let start = digits_at d buf base in
    let signed = if minus d base then poke m buf b'-' else m in
    let (r, run, t) =
      put_digits-Digits 63 (divisor_of base) (magnitude d base) start signed
        (divisor_of-IsDivisor base) (fits d base h) in
    let ended = poke r.1 r.0 0 in
    let final = swap_ends (r.0 - start) start (r.0 - 1) ended in
    let swapped =
      λ (x : ℕ). swap_ends_lem (r.0 - start) start (r.0 - 1) ended x (omega (arith, t.end)) in
    let mirror : (k : ℕ) → k < t.n → final (start + k) ≡ r.1 (start + (t.n - 1 - k)) =
      λ k lt. swapped (start + k) ∙ ground (arith, t.end, ap r.1) in
    (
      final,
      ground (arith, run),
      record {
        n = t.n;
        some_digit = t.some_digit;
        sign = λ e.
            swapped buf
            ∙ ground (arith, t.end, t.some_digit, t.below buf, digits_at_signed d buf base);
        digits =
            highest_first-mirror (divisor_of base) r.1 final start t.n t.n (omega arith) mirror
            ∙ ap (λ p. lowest_first (divisor_of base) r.1 p t.n) (omega arith)
            ∙ t.value;
        chars = λ k lt.
            mirror_char r.1 (start + (t.n - 1 - k)) (final (start + k)) (sym (mirror k lt))
              (t.chars (t.n - 1 - k) (omega arith));
        small = λ k lt.
            subst (λ c. value_of c < divisor_of base) (sym (mirror k lt))
              (t.small (t.n - 1 - k) (omega arith));
        terminated = swapped (start + t.n) ∙ ground (arith, t.end);
      },
    )

-- The number that a `long` is, and the one that is to be printed: with the base 'd' the signed one, and
-- else the unsigned one, in hexadecimal with the base 'x' and else in decimal.
abbrev pub signed_value : ℕ → ℤ
signed_value d = if ltb d (2 ^ 63) then pos d else negsuc (2 ^ 64 - 1 - d)

abbrev pub meant : ℕ → ℕ → ℤ
meant d base = if base == b'd' then signed_value d else pos d

abbrev pub radix : ℕ → ℕ
radix base = if base == b'x' then 16 else 10

abbrev pub is_digit : ℕ → ℕ → Bool
is_digit r c = (leb b'0' c && leb c b'9') || (leb b'a' c && ltb c (b'a' + r - 10))

abbrev pub minus_of : ℕ → ℤ
minus_of zero = pos 0
minus_of (suc n) = negsuc n

-- the number that `n` bytes at `p` read as: a minus and digits, or digits
abbrev pub reads : ℕ → Memory → ℕ → ℕ → ℤ
reads r m p n =
    if m p == b'-'
    then minus_of (highest_first r m (p + 1) (n - 1))
    else pos (highest_first r m p n)

-- where the digits begin that are read
abbrev pub digits_from : Memory → ℕ → ℕ
digits_from m p = if m p == b'-' then p + 1 else p

-- The string at `buf` reads as the number: its digits are those of the radix, one at least, and a 0
-- follows.
pub record Printed (d buf base : ℕ) (m : Memory) : Type 0 where
  pub len : ℕ
  pub some_digit : digits_from m buf < buf + len
  pub value : reads (radix base) m buf len ≡ meant d base
  pub digits : (x : ℕ) → digits_from m buf ≤ x → x < buf + len → is_digit (radix base) (m x) ≡ true
  pub terminated : m (buf + len) ≡ 0

radix-divisor : (base : ℕ) → divisor_of base ≡ radix base
unfolding divisor_of
radix-divisor base = refl

char-is_digit : (r c : ℕ) → to_char (value_of c) ≡ c → value_of c < r → is_digit r c ≡ true
unfolding to_char value_of
char-is_digit r c e lt = ground (arith, e, lt)

digit-ne-minus : (c : ℕ) → to_char (value_of c) ≡ c → (c == b'-') ≡ false
unfolding to_char
digit-ne-minus c e = ground (arith, e)

-- the two cases of the code
start_signed :
    (d buf base : ℕ)
    → minus d base ≡ true
    → (digits_at d buf base ≡ buf + 1) × (magnitude d base ≡ 2 ^ 64 - d)
unfolding digits_at magnitude
start_signed d buf base e = rw (e) (refl, refl)

start_unsigned :
    (d buf base : ℕ) → minus d base ≡ false → (digits_at d buf base ≡ buf) × (magnitude d base ≡ d)
unfolding digits_at magnitude
start_unsigned d buf base e = rw (e) (refl, refl)

meant-signed : (d base : ℕ) → minus d base ≡ true → meant d base ≡ negsuc (2 ^ 64 - 1 - d)
unfolding minus
meant-signed d base e = ground (arith, e)

meant-unsigned : (d base : ℕ) → minus d base ≡ false → meant d base ≡ pos d
unfolding minus
meant-unsigned d base e = ground (arith, e)

-- the digit at a place that is counted from the start
digit_at :
    {d buf base : ℕ} {m : Memory} (w : Written d buf base m) (start x : ℕ)
    → digits_at d buf base ≡ start
    → start ≤ x
    → x < start + w.n
    → (to_char (value_of (m x)) ≡ m x) × (value_of (m x) < radix base)
digit_at {d} {buf} {base} {m} w start x e le lt =
    let at : digits_at d buf base + (x - start) ≡ x = omega (arith, e, le) in
    let inside : x - start < w.n = omega (arith, le, lt) in
    subst (λ x. (to_char (value_of (m x)) ≡ m x) × (value_of (m x) < radix base)) at
      (
        w.chars (x - start) inside,
        subst (λ r. value_of (m (digits_at d buf base + (x - start))) < r) (radix-divisor base)
            (w.small (x - start) inside),
      )

number_at :
    {d buf base : ℕ} {m : Memory} (w : Written d buf base m) (start : ℕ)
    → digits_at d buf base ≡ start
    → highest_first (radix base) m start w.n ≡ magnitude d base
number_at {d} {buf} {base} {m} w start e =
    ap (λ s. highest_first (radix base) m s w.n) (sym e)
    ∙ ap (λ r. highest_first r m (digits_at d buf base) w.n) (sym (radix-divisor base))
    ∙ w.digits

Printed-signed :
    {d buf base : ℕ} {m : Memory} (w : Written d buf base m)
    → d < 2 ^ 64
    → minus d base ≡ true
    → Printed d buf base m
Printed-signed {d} {buf} {base} {m} w h e =
    let (start, size) = start_signed d buf base e in
    let mark : (m buf == b'-') ≡ true = (==_iff (m buf) b'-').1 (w.sign e) in
    let count : w.n + 1 - 1 ≡ w.n = omega arith in
    let magnitude' : 2 ^ 64 - d ≡ suc (2 ^ 64 - 1 - d) = omega (arith, h) in
    record {
      len = w.n + 1;
      some_digit = rw (mark) (omega (arith, w.some_digit));
      value = rw (mark) (
          ap (λ n. minus_of (highest_first (radix base) m (buf + 1) n)) count
          ∙ ap minus_of (number_at w (buf + 1) start ∙ size ∙ magnitude')
          ∙ sym (meant-signed d base e));
      digits = λ x le lt.
          let from : buf + 1 ≤ x = subst (λ b. (if b then buf + 1 else buf) ≤ x) mark le in
          let (c, s) = digit_at w (buf + 1) x start from (omega (arith, lt)) in
          char-is_digit (radix base) (m x) c s;
      terminated = ap m (omega (arith, start)) ∙ w.terminated;
    }

Printed-unsigned :
    {d buf base : ℕ} {m : Memory} (w : Written d buf base m)
    → minus d base ≡ false
    → Printed d buf base m
Printed-unsigned {d} {buf} {base} {m} w e =
    let (start, size) = start_unsigned d buf base e in
    let (c, s) = digit_at w buf buf start (omega arith) (omega (arith, w.some_digit)) in
    let mark = digit-ne-minus (m buf) c in
    record {
      len = w.n;
      some_digit = rw (mark) (omega (arith, w.some_digit));
      value = rw (mark) (ap pos (number_at w buf start ∙ size) ∙ sym (meant-unsigned d base e));
      digits = λ x le lt.
          let from : buf ≤ x = subst (λ b. (if b then buf + 1 else buf) ≤ x) mark le in
          let (c, s) = digit_at w buf x start from lt in char-is_digit (radix base) (m x) c s;
      terminated = ap m (omega (arith, start)) ∙ w.terminated;
    }

-- long_to_str of any `long` returns and leaves a string in the buffer that reads, with a minus or
-- without, as the number: as the signed one in decimal with the base 'd', as the unsigned one in
-- hexadecimal with the base 'x', and as the unsigned one in decimal with any other.
pub long_to_str-Printed :
    (d buf base : ℕ) (m : Memory)
    → d < 2 ^ 64
    → Returns (long_to_str d buf base m) (Printed d buf base)
long_to_str-Printed d buf base m h =
    let (m', run, w) = long_to_str-Written d buf base m h in
    (
      m',
      run,
      elim (Bool-cases (minus d base)) [
        | inl e ↦ Printed-signed w h e
        | inr e ↦ Printed-unsigned w e
      ],
    )
