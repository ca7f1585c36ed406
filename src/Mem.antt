-- ===== src/Mem.antt =====
-- libc/string: memcpy, memmove, memset, memcmp and memchr on a memory of bytes. The objects that the
-- calls are about end before the last address, so that no address wraps.
pub mod Copy
pub mod Compare
mod Tests
use night_os.Base.{
  ℕ, zero, suc, ◌+◌, ◌-◌, ◌%◌, ◌^◌, Bool, true, false, Option, none, some, ltb, ◌==◌, if◌then◌else◌,
}

abbrev pub Memory : Type 0
Memory = ℕ → ℕ

abbrev pub poke : Memory → ℕ → ℕ → Memory
poke m a b x = if x == a then b else m x

-- the loops over growing indices, of `memcpy` and `memmove`, for the rounds that are left
pub copy_up : ℕ → ℕ → ℕ → ℕ → Memory → Memory
copy_up dst src zero i m = m
copy_up dst src (suc rounds) i m = copy_up dst src rounds (i + 1) (poke m (dst + i) (m (src + i)))

-- the loop over falling indices of `memmove`: `suc i` is its variable
pub copy_down : ℕ → ℕ → ℕ → Memory → Memory
copy_down dst src zero m = m
copy_down dst src (suc i) m = copy_down dst src i (poke m (dst + i) (m (src + i)))

-- `memcpy`
pub memcpy : ℕ → ℕ → ℕ → Memory → Memory
memcpy dst src size m = copy_up dst src size 0 m

-- `memmove`
pub memmove : ℕ → ℕ → ℕ → Memory → Memory
memmove dst src size m = if ltb dst src then copy_up dst src size 0 m else copy_down dst src size m

-- the loop of `memset`
pub fill : ℕ → ℕ → ℕ → ℕ → Memory → Memory
fill buf value zero i m = m
fill buf value (suc rounds) i m = fill buf value rounds (i + 1) (poke m (buf + i) (value % 256))

-- `memset`
pub memset : ℕ → ℕ → ℕ → Memory → Memory
memset buf value size m = fill buf value size 0 m

-- The loop of `memcmp`. An `int` is its residue modulo 2 ^ 32.
pub compare_from : ℕ → ℕ → ℕ → ℕ → Memory → ℕ
compare_from a b zero i m = 0
compare_from a b (suc rounds) i m =
    let further = compare_from a b rounds (i + 1) m in
    if ltb (m (a + i)) (m (b + i))
    then 2 ^ 32 - 1
    else if ltb (m (b + i)) (m (a + i))
    then 1
    else further

-- `memcmp`
pub memcmp : ℕ → ℕ → ℕ → Memory → ℕ
memcmp a b size m = compare_from a b size 0 m

-- the loop of `memchr`: the index of the byte
pub find_byte : ℕ → ℕ → ℕ → ℕ → Memory → Option ℕ
find_byte s byte zero i m = none
find_byte s byte (suc rounds) i m =
    let further = find_byte s byte rounds (i + 1) m in if m (s + i) == byte then some i else further

-- `memchr`
pub memchr : ℕ → ℕ → ℕ → Memory → Option ℕ
memchr s c n m = find_byte s (c % 256) n 0 m
