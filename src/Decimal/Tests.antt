-- ===== src/Decimal/Tests.antt =====
-- `long_to_str` at concrete numbers.
use night_os.Base.{ℕ, ◌-◌, ◌^◌, ◌≡◌, refl, arith, Returns, Run, ok, ◌>>=◌, List, [], ◌∷◌}
use night_os.Mem.{Memory}
use night_os.Decimal.{long_to_str}
use night_os.Decimal.Print.{Printed, long_to_str-Printed}

abbrev blank : Memory
blank _ = 1

-- the three bytes at 100
abbrev bytes_of : Run Memory → Run (List ℕ)
bytes_of call = do m ← call; ok (m 100 ∷ m 101 ∷ m 102 ∷ [])

minus_seven : bytes_of (long_to_str (2 ^ 64 - 7) 100 b'd' blank) ≡ ok (b'-' ∷ b'7' ∷ 0 ∷ [])
unfolding long_to_str night_os.Decimal.put_digits night_os.Decimal.swap_ends night_os.Decimal.minus
    night_os.Decimal.digits_at night_os.Decimal.magnitude night_os.Decimal.divisor_of
    night_os.Decimal.to_char
minus_seven = refl

hexadecimal : bytes_of (long_to_str 31 100 b'x' blank) ≡ ok (b'1' ∷ b'f' ∷ 0 ∷ [])
unfolding long_to_str night_os.Decimal.put_digits night_os.Decimal.swap_ends night_os.Decimal.minus
    night_os.Decimal.digits_at night_os.Decimal.magnitude night_os.Decimal.divisor_of
    night_os.Decimal.to_char
hexadecimal = refl

long_to_str-Printed_example :
    Returns (long_to_str (2 ^ 64 - 42) 100 b'd' blank) (Printed (2 ^ 64 - 42) 100 b'd')
long_to_str-Printed_example = long_to_str-Printed (2 ^ 64 - 42) 100 b'd' blank (omega arith)
