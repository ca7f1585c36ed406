-- ===== src/Frames/Tests.antt =====
-- The theorems about the frames at a concrete map.
use night_os.Base.{◌≡◌, ◌<◌, ◌*◌, ◌^◌, ◌/◌, refl, false, [], arith, ok, if◌then◌else◌}
use night_os.Base.Int.{pos, eq_ℤ}
use night_os.Frames.{Frames, bitmap_size, kalloc_frame}
use night_os.Frames.Alloc.{IsValid, allocated}
use night_os.Frames.Holders.{Inv, start, has, alloc_exclusive}

-- Frames 5 and 6 are unused, the cursor stands at 3.
abbrev two_free : Frames
two_free = record {
  memory_map = λ i. if eq_ℤ i (pos 5) then 0 else if eq_ℤ i (pos 6) then 0 else 1;
  idx = pos 3;
}

two_free-IsValid : IsValid two_free
two_free-IsValid = record {
  cursor = 3;
  at_cursor = refl;
  cursor_le = omega arith;
  fence = ground arith;
}

two_free-Inv : Inv two_free []
two_free-Inv = record { valid = two_free-IsValid; reserved = ground arith; marked = tt }

finds_five : kalloc_frame two_free ≡ ok (5 * 2 ^ 12, allocated two_free 5)
unfolding kalloc_frame
finds_five = refl

alloc_exclusive_example :
    (has (5 * 2 ^ 12 / 2 ^ 12) [] ≡ false)
    × (0 < 5 * 2 ^ 12 / 2 ^ 12)
    × (5 * 2 ^ 12 / 2 ^ 12 < bitmap_size)
alloc_exclusive_example = alloc_exclusive two_free-Inv start finds_five (omega arith)
