-- ===== src/Paging/Words.antt =====
-- The words of page tables: which frame an entry that the kernel writes leads to.
use Prim.Native.Nat.{bit_and, bit_or}
use night_os.Base.{ℕ, ◌+◌, ◌-◌, ◌*◌, ◌^◌, ◌<◌, ◌≡◌, ◌≢◌, refl, ap, ◌∙◌, sym, false, ◌==◌, arith}
use native.Mathlib.Decide.{ℕ_discrete}
use night_os.Base.Bits.{digit, digit-bit_or, bit_and-pow}
use night_os.Base.Masks.{bit_or-low, bit_or-lt, bit_or-add, bit_and-low, bit_and-high}
use night_os.Paging.{
  kernel_memory, low_memory, page_mask, get_from_virtual, get_from_physical, frame_at, table_at,
  is_large,
}

-- An entry with low bits `p` for frame `f` is masked to the address of the frame.
pub masked : (f p : ℕ) → f < 2 ^ 40 → p < 2 ^ 12 → bit_and (f * 2 ^ 12 + p) page_mask ≡ f * 2 ^ 12
masked f p h k =
    bit_and-high 12 f p (2 ^ 52 - 1) k
    ∙ ap (λ t. t * 2 ^ 12)
        (ap (λ t. bit_and t (2 ^ 52 - 1)) {x = f} {y = 0 * 2 ^ 52 + f} (omega arith)
          ∙ bit_and-low 52 0 f (omega arith))

pub frame_at-kernel : (f : ℕ) → f < 2 ^ 27 → frame_at (bit_or (f * 2 ^ 12) kernel_memory) ≡ f
unfolding frame_at get_from_virtual
frame_at-kernel f h = omega (
  arith,
  ap (λ t. bit_and t low_memory) (bit_or-add 39 33554429 (f * 2 ^ 12) (omega arith)),
  bit_and-low 39 33554429 (f * 2 ^ 12) (omega arith),
)

-- an entry that the kernel writes for a frame: present, writable, and with other flags
abbrev pub entry_for : ℕ → ℕ → ℕ
entry_for f flags = bit_or (bit_or (bit_or (f * 2 ^ 12) 1) 2) flags

pub entry_for-sum :
    (f flags : ℕ)
    → flags < 2 ^ 12
    → entry_for f flags ≡ f * 2 ^ 12 + bit_or (bit_or (bit_or 0 1) 2) flags
entry_for-sum f flags h =
    let pow : 0 < 2 ^ 12 = omega arith in
    let one = bit_or-low 12 f 0 1 (omega arith) (omega arith) in
    let low = bit_or-lt 12 0 1 (omega arith) (omega arith) in
    let two = bit_or-low 12 f (bit_or 0 1) 2 low (omega arith) in
    let low' = bit_or-lt 12 (bit_or 0 1) 2 low (omega arith) in
    ap (λ t. bit_or (bit_or (bit_or t 1) 2) flags) {y = f * 2 ^ 12 + 0} (omega arith)
    ∙ ap (λ t. bit_or (bit_or t 2) flags) one
    ∙ ap (λ t. bit_or t flags) two
    ∙ bit_or-low 12 f (bit_or (bit_or 0 1) 2) flags low' h

low_bits-lt : (flags : ℕ) → flags < 2 ^ 12 → bit_or (bit_or (bit_or 0 1) 2) flags < 2 ^ 12
low_bits-lt flags h =
    bit_or-lt 12 (bit_or (bit_or 0 1) 2) flags
      (bit_or-lt 12 (bit_or 0 1) 2 (bit_or-lt 12 0 1 (omega arith) (omega arith)) (omega arith)) h

-- Such an entry is masked to the address of its frame, and leads to the frame.
pub masked-entry_for :
    (f flags : ℕ) → f < 2 ^ 40 → flags < 2 ^ 12 → bit_and (entry_for f flags) page_mask ≡ f * 2 ^ 12
masked-entry_for f flags h k =
    ap (λ t. bit_and t page_mask) (entry_for-sum f flags k)
    ∙ masked f (bit_or (bit_or (bit_or 0 1) 2) flags) h (low_bits-lt flags k)

low_page : frame_at (get_from_physical (2 ^ 12)) ≡ 1
unfolding get_from_physical frame_at get_from_virtual
low_page = refl

frame_at-physical : (f : ℕ) → f < 2 ^ 27 → frame_at (get_from_physical (f * 2 ^ 12)) ≡ f
unfolding get_from_physical
frame_at-physical f h = elim (ℕ_discrete f 1) [
  | yes e ↦ ap (λ t. frame_at (get_from_physical (t * 2 ^ 12))) e ∙ low_page ∙ sym e
  | no ne ↦
      let other : (f * 2 ^ 12 == 2 ^ 12) ≡ false = ground arith in rw other (frame_at-kernel f h)
]

pub table_at-entry_for :
    (f flags : ℕ) → f < 2 ^ 27 → flags < 2 ^ 12 → table_at (entry_for f flags) ≡ f
unfolding table_at
table_at-entry_for f flags h k =
    ap (λ t. frame_at (get_from_physical t)) (masked-entry_for f flags (omega arith) k)
    ∙ frame_at-physical f h

-- It is not 0, and does not map a large page unless its flags say so.
pub entry_for-ne_zero : (f flags : ℕ) → entry_for f flags ≢ 0
unfolding digit
entry_for-ne_zero f flags e =
    let last = ap (λ w. digit w 0) e in
    absurd (
      omega (
        arith,
        last,
        digit-bit_or 0 (bit_or (bit_or (f * 2 ^ 12) 1) 2) flags,
        digit-bit_or 0 (bit_or (f * 2 ^ 12) 1) 2,
        digit-bit_or 0 (f * 2 ^ 12) 1,
      ))

digit_seven : (f flags : ℕ) → flags < 2 ^ 7 → digit (entry_for f flags) 7 ≡ 0
unfolding digit
digit_seven f flags h =
    let high : digit (f * 2 ^ 12) 7 ≡ 0 = omega arith in
    let low : digit flags 7 ≡ 0 = omega arith in
    omega (
      arith,
      high,
      low,
      digit-bit_or 7 (bit_or (bit_or (f * 2 ^ 12) 1) 2) flags,
      digit-bit_or 7 (bit_or (f * 2 ^ 12) 1) 2,
      digit-bit_or 7 (f * 2 ^ 12) 1,
    )

pub is_large-entry_for : (f flags : ℕ) → flags < 2 ^ 7 → is_large (entry_for f flags) ≡ false
is_large-entry_for f flags h =
    ground (arith, bit_and-pow 7 (entry_for f flags), digit_seven f flags h)
