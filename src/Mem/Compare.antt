-- ===== src/Mem/Compare.antt =====
-- What the functions that read return.
use night_os.Base.{
  ℕ, zero, suc, ◌+◌, ◌%◌, ◌≡◌, ◌≢◌, ◌≤◌, ◌<◌, ◌⊎◌, ◌↔◌, refl, ap, ◌∙◌, sym, Option, none, some,
  ◌==◌, arith, inl, inr, Bool-cases,
}
use mathlib.Core.Path.{subst}
use native.Mathlib.Decide.{ℕ_discrete}
use night_os.Mem.{Memory, compare_from, find_byte, memcpy, memcmp, memchr}
use night_os.Mem.Copy.{memcpy-memmove, memmove-copied}

-- the bytes from `start` to `stop` of two buffers are the same
abbrev pub AreSame : ℕ → ℕ → ℕ → ℕ → Memory → Type 0
AreSame a b start stop m = (k : ℕ) → start ≤ k → k < stop → m (a + k) ≡ m (b + k)

same_of_compare :
    (a b rounds i : ℕ) (m : Memory) → compare_from a b rounds i m ≡ 0 → AreSame a b i (i + rounds) m
unfolding compare_from
same_of_compare a b zero i m h k le lt = absurd (omega arith)
same_of_compare a b (suc rounds) i m h k le lt = elim (ℕ_discrete k i) [
  | yes e ↦ ap (λ j. m (a + j)) e ∙ ground arith ∙ ap (λ j. m (b + j)) (sym e)
  | no ne ↦ same_of_compare a b rounds (i + 1) m (ground arith) k (omega arith) (omega arith)
]

compare_of_same :
    (a b rounds i : ℕ) (m : Memory) → AreSame a b i (i + rounds) m → compare_from a b rounds i m ≡ 0
unfolding compare_from
compare_of_same a b zero i m h = refl
compare_of_same a b (suc rounds) i m h =
    let here = h i (omega arith) (omega arith) in
    let later = compare_of_same a b rounds (i + 1) m λ k le lt. h k (omega arith) (omega arith) in
    ground (arith, here, later)

-- `memcmp` returns 0 exactly for buffers with the same bytes.
pub memcmp-zero_iff : (a b size : ℕ) (m : Memory) → (memcmp a b size m ≡ 0) ↔ AreSame a b 0 size m
unfolding memcmp
memcmp-zero_iff a b size m = (
  λ e k le lt. same_of_compare a b size 0 m e k le (omega arith),
  λ h. compare_of_same a b size 0 m λ k le lt. h k le (omega arith),
)

-- After a copy between buffers that do not overlap, `memcmp` finds them the same.
pub memcmp-memcpy :
    (dst src size : ℕ) (m : Memory)
    → (dst + size ≤ src) ⊎ (src + size ≤ dst)
    → memcmp dst src size (memcpy dst src size m) ≡ 0
memcmp-memcpy dst src size m h = (memcmp-zero_iff dst src size (memcpy dst src size m)).1 λ k le lt.
    let there =
      memcpy-memmove dst src size m (dst + k) (ground arith)
      ∙ memmove-copied dst src size m (dst + k) in
    let back =
      memcpy-memmove dst src size m (src + k) (ground arith)
      ∙ memmove-copied dst src size m (src + k) in
    ground (arith, there, back, ap m)

-- the first index from `start` to `stop` at which the byte stands, or `none` if there is none
abbrev pub FirstAt : ℕ → ℕ → ℕ → ℕ → Memory → Option ℕ → Type 0
FirstAt s byte start stop m none = (k : ℕ) → start ≤ k → k < stop → m (s + k) ≢ byte
FirstAt s byte start stop m (some i) =
    (start ≤ i) × (i < stop) × (m (s + i) ≡ byte) × ((k : ℕ) → start ≤ k → k < i → m (s + k) ≢ byte)

FirstAt-later :
    (s byte rounds i : ℕ) (m : Memory) (o : Option ℕ)
    → m (s + i) ≢ byte
    → FirstAt s byte (i + 1) (i + 1 + rounds) m o
    → FirstAt s byte i (i + suc rounds) m o
FirstAt-later s byte rounds i m none other f = λ k le lt. elim (ℕ_discrete k i) [
  | yes e ↦ λ h. other (ap (λ j. m (s + j)) (sym e) ∙ h)
  | no ne ↦ f k (omega arith) (omega arith)
]
FirstAt-later s byte rounds i m (some j) other (le, lt, here, first) = (
  omega arith,
  omega arith,
  here,
  λ k above below. elim (ℕ_discrete k i) [
    | yes e ↦ λ h. other (ap (λ l. m (s + l)) (sym e) ∙ h)
    | no ne ↦ first k (omega arith) below
  ],
)

find_byte-FirstAt :
    (s byte rounds i : ℕ) (m : Memory)
    → FirstAt s byte i (i + rounds) m (find_byte s byte rounds i m)
unfolding find_byte
find_byte-FirstAt s byte zero i m = λ k le lt. absurd (omega arith)
find_byte-FirstAt s byte (suc rounds) i m = elim (Bool-cases (m (s + i) == byte)) [
  | inl here ↦ rw here (omega arith, omega arith, ground arith, λ k le lt. absurd (omega arith))
  | inr other ↦ rw other (
      FirstAt-later s byte rounds i m (find_byte s byte rounds (i + 1) m) (ground arith)
        (find_byte-FirstAt s byte rounds (i + 1) m))
]

-- `memchr` returns the first place of the byte that its argument is cut down to, or `NULL` if the
-- byte stands nowhere in the buffer.
pub memchr-FirstAt : (s c n : ℕ) (m : Memory) → FirstAt s (c % 256) 0 n m (memchr s c n m)
unfolding memchr
memchr-FirstAt s c n m =
    subst (λ stop. FirstAt s (c % 256) 0 stop m (find_byte s (c % 256) n 0 m)) (omega arith)
      (find_byte-FirstAt s (c % 256) n 0 m)
