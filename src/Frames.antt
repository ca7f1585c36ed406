-- ===== src/Frames.antt =====
-- kernel/arch/amd64/memmgr.c: the physical frames. Both functions hold `PHYS_MEM_LOCK`, so that each
-- call is one step and the lock is left out.
pub mod Alloc
pub mod Free
pub mod Holders
mod Tests
use night_os.Base.{
  ℕ, zero, suc, ◌+◌, ◌*◌, ◌/◌, ◌%◌, ◌^◌, Bool, true, false, ◌==◌, if◌then◌else◌, to_int, of_int,
  Run, ok, out_of_fuel,
}
use night_os.Base.Int.{ℤ, pos, negsuc, eq_ℤ, ltb_ℤ, suc_ℤ, pred_ℤ, int_bits, of_int_bits}

-- `BITMAP_SIZE`
abbrev pub bitmap_size : ℕ
bitmap_size = 524288

-- `memory_map` and `idx`. An index outside the array reads and writes the memory that lies there.
pub record Frames : Type 0 where
  pub memory_map : ℤ → ℕ
  pub idx : ℤ

-- `memory_map[i] = w`
abbrev pub write : (ℤ → ℕ) → ℤ → ℕ → ℤ → ℕ
write m i w j = if eq_ℤ j i then w else m j

-- `memmgr_phys_mark_page`
unfoldable pub mark_page : ℤ → Frames → Frames
mark_page i s =
    if ltb_ℤ i (pos bitmap_size) then record s { memory_map = write s.memory_map i 1 } else s

-- `memmgr_phys_free_page`
unfoldable pub free_page : ℤ → Frames → Frames
free_page i s =
    if ltb_ℤ i (pos bitmap_size) then record s { memory_map = write s.memory_map i 0 } else s

-- `PAGE_TO_ADDRESS` of an `int`, as a `uintptr_t`
unfoldable pub page_to_address : ℤ → ℕ
page_to_address i = of_int (int_bits i * 2 ^ 12 % 2 ^ 32)

-- The loop of `kalloc_frame`. Where it starts again, `idx = 0` meets `idx++`.
pub scan : ℕ → Bool → Frames → Run (ℕ × Frames)
scan zero restart s = out_of_fuel
scan (suc fuel) restart s = elim (s.memory_map s.idx == 0) [
  | true ↦ ok (page_to_address s.idx, mark_page s.idx s)
  | false ↦ elim (ltb_ℤ s.idx (pos bitmap_size)) [
    | true ↦ scan fuel restart (record s { idx = suc_ℤ s.idx })
    | false ↦ elim restart [
      | true ↦ scan fuel false (record s { idx = suc_ℤ (pos 0) })
      | false ↦ ok (0, s)
    ]
  ]
]

-- rounds enough for two passes over the array
abbrev pub rounds : ℕ
rounds = 2 * bitmap_size + 2

-- `kalloc_frame`
unfoldable pub kalloc_frame : Frames → Run (ℕ × Frames)
unfolding scan mark_page page_to_address
kalloc_frame s = scan rounds (ltb_ℤ (pos 0) s.idx) s

-- `kfree_frame`
pub kfree_frame : ℕ → Frames → Frames
kfree_frame addr s =
    let frame_idx = of_int_bits (to_int (addr / 2 ^ 12)) in
    let s' = free_page frame_idx s in
    if eq_ℤ s'.idx frame_idx
    then record s' { idx = pred_ℤ s'.idx }
    else if ltb_ℤ frame_idx s'.idx
    then record s' { idx = frame_idx }
    else s'
