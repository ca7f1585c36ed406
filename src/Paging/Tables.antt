-- ===== src/Paging/Tables.antt =====
-- Page tables as a tree: which frame is the table of which indices, and what a table translates.
use Prim.Native.Nat.{bit_and}
use night_os.Base.{
  ℕ, zero, suc, ◌*◌, ◌^◌, ◌<◌, ◌≡◌, ◌≢◌, Bool, true, false, Option, some, List, [], ◌∷◌, length,
  ◌==◌, if◌then◌else◌, arith, ok,
}
use mathlib.Core.Path.{subst}
use night_os.Base.Int.{pos}
use night_os.Frames.{Frames, bitmap_size, kalloc_frame}
use night_os.Frames.Alloc.{Used, allocated, Outcome, found, full, kalloc_frame-Outcome}
use night_os.Frames.Alloc
use night_os.Paging.{
  Machine, root, table_at, page_mask, is_large, pml4_index, pdp_index, pd_index, pt_index,
}

-- For each frame that is a table the indices that lead to it, the last one first.
abbrev pub Label : Type 0
Label = ℕ → Option (List ℕ)

-- The slots of the top table that are looked at are those of `small`, which lead to no large page.
abbrev pub Slot : (ℕ → Bool) → List ℕ → ℕ → Type 0
Slot small [] i = small i ≡ true
Slot small (_ ∷ _) i = Unit {0}

-- The labelled frames are a tree of tables under the root, marked as used.
pub record Inv (small : ℕ → Bool) (m : Machine) (label : Label) : Type 0 where
  pub frames : Alloc.IsValid m.frames
  pub top : label (root m) ≡ some []
  pub taken : (f : ℕ) (q : List ℕ) → label f ≡ some q → Used m.frames f
  pub child :
      (f : ℕ) (q : List ℕ) (i : ℕ)
      → label f ≡ some q
      → length q < 3
      → Slot small q i
      → m.memory f i ≢ 0
      → (is_large (m.memory f i) ≡ false) × (label (table_at (m.memory f i)) ≡ some (i ∷ q))

-- the address of the page that the indices lead to below the table `f`, or 0
unfoldable pub walk : Machine → ℕ → List ℕ → ℕ
walk m f [] = 0
walk m f (i ∷ []) = bit_and (m.memory f i) page_mask
walk m f (i ∷ j ∷ is) =
    let further = walk m (table_at (m.memory f i)) (j ∷ is) in
    if m.memory f i == 0 then 0 else further

pub walk_empty :
    (m : Machine) (f i j : ℕ) (is : List ℕ) → m.memory f i ≡ 0 → walk m f (i ∷ j ∷ is) ≡ 0
unfolding walk
walk_empty m f i j is e = ground (arith, e)

pub walk_next :
    (m : Machine) (f i j : ℕ) (is : List ℕ)
    → m.memory f i ≢ 0
    → walk m f (i ∷ j ∷ is) ≡ walk m (table_at (m.memory f i)) (j ∷ is)
unfolding walk
walk_next m f i j is ne = ground (arith, ne)

-- the four indices of an address
abbrev pub indices : ℕ → List ℕ
indices addr = pml4_index addr ∷ pdp_index addr ∷ pd_index addr ∷ pt_index addr ∷ []

-- The next `n` calls of `kalloc_frame` find a frame.
abbrev pub Grants : ℕ → Frames → Type 0
Grants zero s = Unit {0}
Grants (suc n) s = (a : ℕ) × (s' : Frames) × (kalloc_frame s ≡ ok (a, s')) × (a ≢ 0) × Grants n s'

pub Grants-less : (n : ℕ) (s : Frames) → Grants (suc n) s → Grants n s
Grants-less zero s g = tt
Grants-less (suc n) s (a, s', e, ne, g) = (a, s', e, ne, Grants-less n s' g)

-- the frame that the next call hands out
pub record Fresh (n : ℕ) (s : Frames) : Type 0 where
  pub frame : ℕ
  pub bound : frame < bitmap_size
  pub unused : s.memory_map (pos frame) ≡ 0
  pub run : kalloc_frame s ≡ ok (frame * 2 ^ 12, allocated s frame)
  pub more : Grants n (allocated s frame)

pub Fresh-of : (n : ℕ) {s : Frames} → Alloc.IsValid s → Grants (suc n) s → Fresh n s
Fresh-of n {s} v (a, s', e, ne, g) = pick (kalloc_frame-Outcome v)
  where
    pick : Outcome s 1 (kalloc_frame s) → Fresh n s
    pick (found k lt z f) =
        let same : s' ≡ allocated s k = cc (e, f) in
        record { frame = k; bound = lt; unused = z; run = f; more = subst (Grants n) same g }
    pick (full all f) = absurd (ne (cc (e, f)))
