-- ===== src/Mem/Tests.antt =====
-- The theorems about the memory functions at concrete buffers.
use night_os.Base.{◌+◌, ◌≡◌, refl}
use night_os.Mem.{Memory, memcpy, memmove, memset, memcmp, memchr}
use night_os.Mem.Copy.{copied, memmove-copied}

-- the address plus 1 at each address
abbrev ramp : Memory
ramp x = x + 1

overlapping : memmove 12 10 4 ramp 15 ≡ 14
unfolding memmove night_os.Mem.copy_down
overlapping = refl

memmove-copied_example : memmove 12 10 4 ramp 15 ≡ copied 12 10 0 4 ramp 15
memmove-copied_example = memmove-copied 12 10 4 ramp 15
