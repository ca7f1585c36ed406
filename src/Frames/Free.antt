-- ===== src/Frames/Free.antt =====
-- What `kfree_frame` does, and that both functions keep the invariant.
use night_os.Base.{
  ℕ, zero, suc, ◌-◌, ◌*◌, ◌^◌, ◌≡◌, ◌<◌, refl, sym, arith, ◌==◌, ltb, if◌then◌else◌, ok,
}
use mathlib.Core.Path.{subst}
use night_os.Base.Int.{pos}
use night_os.Frames.{Frames, bitmap_size, write, free_page, kalloc_frame, kfree_frame}
use night_os.Frames.Alloc.{IsValid, allocated, Outcome, found, full, kalloc_frame-Outcome}

-- where the cursor goes when frame `n` is given back
abbrev pub cursor_after : ℕ → ℕ → ℕ
cursor_after n cursor = if cursor == n then n - 1 else if ltb n cursor then n else cursor

pub kfree_frame_lem :
    (n : ℕ) {s : Frames} (v : IsValid s)
    → 0 < n
    → n < bitmap_size
    → kfree_frame (n * 2 ^ 12) s
      ≡ record { memory_map = write s.memory_map (pos n) 0; idx = pos (cursor_after n v.cursor) }
unfolding kfree_frame free_page
kfree_frame_lem zero v h k = elim h [ ]
kfree_frame_lem (suc n) {s} v h k = ground (arith, v.at_cursor)

pub kfree_frame-IsValid :
    (n : ℕ) {s : Frames}
    → IsValid s
    → 0 < n
    → n < bitmap_size
    → IsValid (kfree_frame (n * 2 ^ 12) s)
kfree_frame-IsValid n {s} v h k = subst IsValid (sym (kfree_frame_lem n v h k)) (record {
  cursor = cursor_after n v.cursor;
  at_cursor = refl;
  cursor_le = ground (arith, v.cursor_le);
  fence = ground (arith, v.fence);
})

pub allocated-IsValid : (n : ℕ) {s : Frames} → IsValid s → n < bitmap_size → IsValid (allocated s n)
allocated-IsValid n v h = record {
  cursor = n;
  at_cursor = refl;
  cursor_le = omega arith;
  fence = ground (arith, v.fence);
}

pub exhausted-IsValid : {s : Frames} → IsValid s → IsValid (record s { idx = pos bitmap_size })
exhausted-IsValid v = record {
  cursor = bitmap_size;
  at_cursor = refl;
  cursor_le = omega arith;
  fence = v.fence;
}

-- After a frame other than frame 0 is given back, `kalloc_frame` finds a frame: there is no leak.
pub kalloc-kfree :
    (n : ℕ) {s : Frames}
    → IsValid s
    → 0 < n
    → n < bitmap_size
    → let s' = kfree_frame (n * 2 ^ 12) s in
      (m : ℕ) × (m < bitmap_size)
      × (s'.memory_map (pos m) ≡ 0)
      × (kalloc_frame s' ≡ ok (m * 2 ^ 12, allocated s' m))
kalloc-kfree n {s} v h k = pick (kalloc_frame-Outcome (kfree_frame-IsValid n v h k))
  where
    freed : (kfree_frame (n * 2 ^ 12) s).memory_map (pos n) ≡ 0
    freed = rw (kfree_frame_lem n v h k) (ground arith)

    pick :
        Outcome (kfree_frame (n * 2 ^ 12) s) 1 (kalloc_frame (kfree_frame (n * 2 ^ 12) s))
        → let s' = kfree_frame (n * 2 ^ 12) s in
          (m : ℕ) × (m < bitmap_size)
          × (s'.memory_map (pos m) ≡ 0)
          × (kalloc_frame s' ≡ ok (m * 2 ^ 12, allocated s' m))
    pick (found m lt z e) = (m, lt, z, e)
    pick (full all e) = absurd (all n h k freed)
