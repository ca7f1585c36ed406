-- ===== src/Mem/Copy.antt =====
-- What the functions that write leave in the memory.
use night_os.Base.{
  ℕ, zero, suc, ◌+◌, ◌-◌, ◌%◌, ◌≡◌, ◌≤◌, ◌⊎◌, ap, ◌∙◌, sym, ◌&&◌, ltb, leb, if◌then◌else◌, arith,
  inl, inr, Bool-cases,
}
use night_os.Mem.{Memory, poke, copy_up, copy_down, fill, memcpy, memmove, memset}

-- the bytes from `start` to `stop` lie behind one another in `dst` and in `src`
abbrev pub copied : ℕ → ℕ → ℕ → ℕ → Memory → ℕ → ℕ
copied dst src start stop m x =
    if leb (dst + start) x && ltb x (dst + stop) then m (src + (x - dst)) else m x

at_offset : (dst src i : ℕ) (m : Memory) (x : ℕ) → x ≡ dst + i → m (src + (x - dst)) ≡ m (src + i)
at_offset dst src i m x e = ap m (omega arith)

copy_up-copied :
    (dst src rounds i : ℕ) (m : Memory) (x : ℕ)
    → (dst ≤ src) ⊎ (src + i + rounds ≤ dst + i)
    → copy_up dst src rounds i m x ≡ copied dst src i (i + rounds) m x
unfolding copy_up
copy_up-copied dst src zero i m x h = ground arith
copy_up-copied dst src (suc rounds) i m x h =
    copy_up-copied dst src rounds (i + 1) (poke m (dst + i) (m (src + i))) x (ground arith)
    ∙ ground (arith, at_offset dst src i m x)

copy_down-copied :
    (dst src size : ℕ) (m : Memory) (x : ℕ)
    → src ≤ dst
    → copy_down dst src size m x ≡ copied dst src 0 size m x
unfolding copy_down
copy_down-copied dst src zero m x h = ground arith
copy_down-copied dst src (suc i) m x h =
    copy_down-copied dst src i (poke m (dst + i) (m (src + i))) x h
    ∙ ground (arith, at_offset dst src i m x)

-- `memmove` leaves in `dst` what was in `src`, and nothing else changes, however the two overlap.
pub memmove-copied :
    (dst src size : ℕ) (m : Memory) (x : ℕ) → memmove dst src size m x ≡ copied dst src 0 size m x
unfolding memmove
memmove-copied dst src size m x = elim (Bool-cases (ltb dst src)) [
  | inl below ↦ rw below (copy_up-copied dst src size 0 m x (inl (ground arith)) ∙ ground arith)
  | inr above ↦ rw above (copy_down-copied dst src size m x (ground arith))
]

-- `memcpy` does the same, if its target lies at or below its source or the two do not overlap.
pub memcpy-memmove :
    (dst src size : ℕ) (m : Memory) (x : ℕ)
    → (dst ≤ src) ⊎ (src + size ≤ dst)
    → memcpy dst src size m x ≡ memmove dst src size m x
unfolding memcpy
memcpy-memmove dst src size m x h =
    copy_up-copied dst src size 0 m x (ground arith)
    ∙ ground arith
    ∙ sym (memmove-copied dst src size m x)

fill_lem :
    (buf value rounds i : ℕ) (m : Memory) (x : ℕ)
    → fill buf value rounds i m x
      ≡ (if leb (buf + i) x && ltb x (buf + (i + rounds)) then value % 256 else m x)
unfolding fill
fill_lem buf value zero i m x = ground arith
fill_lem buf value (suc rounds) i m x =
    fill_lem buf value rounds (i + 1) (poke m (buf + i) (value % 256)) x ∙ ground arith

-- `memset` sets the bytes of the buffer to the low byte of the value, and no other.
pub memset_lem :
    (buf value size : ℕ) (m : Memory) (x : ℕ)
    → memset buf value size m x ≡ (if leb buf x && ltb x (buf + size) then value % 256 else m x)
unfolding memset
memset_lem buf value size m x = fill_lem buf value size 0 m x ∙ ground arith
