-- ===== src/Decimal.antt =====
-- libc/string/string.c: `long_to_str`, which writes the digits of a number into the memory. A
-- `long` is its residue modulo 2 ^ 64.
pub mod Digits
pub mod Print
mod Tests
use night_os.Base.{
  ℕ, zero, suc, ◌+◌, ◌-◌, ◌*◌, ◌/◌, ◌%◌, ◌^◌, Bool, true, false, ◌&&◌, ltb, leb, ◌==◌,
  if◌then◌else◌, Run, ok, out_of_fuel, ◌>>=◌,
}
use night_os.Mem.{Memory, poke}

pub divisor_of : ℕ → ℕ
divisor_of base = if base == b'x' then 16 else 10

pub to_char : ℕ → ℕ
to_char r = if ltb r 10 then r + b'0' else r + b'a' - 10

-- The loop that writes the digits, the last one first: the pointer behind them.
pub put_digits : ℕ → ℕ → ℕ → ℕ → Memory → Run (ℕ × Memory)
put_digits zero divisor ud p m = out_of_fuel
put_digits (suc fuel) divisor ud p m =
    let m' = poke m p (to_char (ud % divisor)) in
    elim (ud / divisor == 0) [
      | true ↦ ok (p + 1, m')
      | false ↦ put_digits fuel divisor (ud / divisor) (p + 1) m'
    ]

-- the loop that reverses them, for as many rounds as there are bytes
pub swap_ends : ℕ → ℕ → ℕ → Memory → Memory
swap_ends zero p1 p2 m = m
swap_ends (suc rounds) p1 p2 m =
    let further = swap_ends rounds (p1 + 1) (p2 - 1) (poke (poke m p1 (m p2)) p2 (m p1)) in
    if ltb p1 p2 then further else m

-- whether a sign is written
pub minus : ℕ → ℕ → Bool
minus d base = base == b'd' && leb (2 ^ 63) d

-- `buf` and `ud` behind the test for the sign
pub digits_at : ℕ → ℕ → ℕ → ℕ
digits_at d buf base = if minus d base then buf + 1 else buf

pub magnitude : ℕ → ℕ → ℕ
magnitude d base = if minus d base then 2 ^ 64 - d else d

-- `long_to_str`
pub long_to_str : ℕ → ℕ → ℕ → Memory → Run Memory
long_to_str d buf base m = do
  let start = digits_at d buf base
  let signed = if minus d base then poke m buf b'-' else m
  (p, m) ← put_digits 64 (divisor_of base) (magnitude d base) start signed
  ok (swap_ends (p - start) start (p - 1) (poke m p 0))
