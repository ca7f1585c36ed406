-- ===== src/Paging/Tests.antt =====
-- The theorems about page tables at a machine with an empty top table, frame 16.
use night_os.Base.{
  ℕ, ◌+◌, ◌∙◌, ◌*◌, ◌^◌, ◌<◌, ◌≡◌, ◌≢◌, refl, ap, Bool, true, false, none, some, List, [], ◌∷◌,
  length, ◌&&◌, ◌==◌, if◌then◌else◌, arith, ok, Returns, get_or,
}
use mathlib.Core.Path.{subst}
use native.Mathlib.Decide.{ℕ_discrete}
use night_os.Base.Int.{pos, eq_ℤ}
use night_os.Frames.{Frames, kalloc_frame}
use night_os.Frames.Alloc
use night_os.Frames.Alloc.{Used, allocated}
use night_os.Paging.{
  Machine, root, table_at, is_large, frame_at, get_from_virtual, get_from_physical, set_entry,
  map_frame_to_virtual, map_table, next_table, alloc, create_or_get_page, check_user, delete_page,
  munmap, pml4_index, pdp_index, pd_index, pt_index,
}
use night_os.Paging.Tables.{Label, Inv, walk, indices, Grants, Grants-less}
use night_os.Paging.Map.{ap_page, map_frame_to_virtual-lookup}
use night_os.Paging.Create.{Gets, create_or_get_page-Gets}
use night_os.Paging.Unmap.{delete_page-walks, munmap-keeps_first}

-- frames 5 to 8 are unused
abbrev free_frames : Frames
free_frames = record {
  memory_map = λ i.
      if eq_ℤ i (pos 5)
      then 0
      else if eq_ℤ i (pos 6)
      then 0
      else if eq_ℤ i (pos 7)
      then 0
      else if eq_ℤ i (pos 8)
      then 0
      else 1;
  idx = pos 3;
}

abbrev machine : Machine
machine = record { frames = free_frames; memory = λ f i. 0; pml = 16 * 2 ^ 12 }

abbrev label : Label
label f = if f == 16 then some [] else none

abbrev every : ℕ → Bool
every i = true

free_frames-IsValid : Alloc.IsValid free_frames
free_frames-IsValid = record {
  cursor = 3;
  at_cursor = refl;
  cursor_le = omega arith;
  fence = ground arith;
}

machine-taken : (f : ℕ) (q : List ℕ) → label f ≡ some q → Used free_frames f
machine-taken f q e = ground (arith, e)

machine-Inv : Inv every machine label
unfolding root frame_at get_from_virtual get_from_physical
machine-Inv = record {
  frames = free_frames-IsValid;
  top = refl;
  taken = machine-taken;
  child = λ f q i e d s ne. absurd (ne refl);
}

machine-Grants : Grants 4 free_frames
unfolding kalloc_frame
machine-Grants = (
  5 * 2 ^ 12,
  allocated free_frames 5,
  refl,
  omega arith,
  (
    6 * 2 ^ 12,
    allocated (allocated free_frames 5) 6,
    refl,
    omega arith,
    (
      7 * 2 ^ 12,
      allocated (allocated (allocated free_frames 5) 6) 7,
      refl,
      omega arith,
      (
        8 * 2 ^ 12,
        allocated (allocated (allocated (allocated free_frames 5) 6) 7) 8,
        refl,
        omega arith,
        tt,
      ),
    ),
  ),
)

map_frame_to_virtual-lookup_example :
    Returns (map_frame_to_virtual (40 * 2 ^ 12) 4096 4 machine) λ m'.
      (create_or_get_page 4096 0 false m' ≡ ok (40 * 2 ^ 12, m'))
      × (ap_page m' (create_or_get_page 8192 0 false machine) ≡ create_or_get_page 8192 0 false m')
map_frame_to_virtual-lookup_example =
    map_frame_to_virtual-lookup every label machine 40 4096 4 8192 machine-Inv refl refl
      (λ eq. let same = ap (λ l. get_or l 3 0) eq in absurd (omega (arith, same)))
      (Grants-less 3 free_frames machine-Grants) (omega arith) (omega arith)

create_or_get_page-Gets_example :
    Returns (create_or_get_page 4096 4 true machine) (Gets every machine 4096)
create_or_get_page-Gets_example =
    create_or_get_page-Gets every label machine 4096 4 machine-Inv refl machine-Grants (omega arith)

-- the first two pages of user memory are mapped to the frames 20 and 21
abbrev mapped : Machine
mapped = record machine {
  memory = λ f i.
      if (i == 0) && (f == 16)
      then 17 * 2 ^ 12 + 7
      else if (i == 0) && (f == 17)
      then 18 * 2 ^ 12 + 7
      else if (i == 0) && (f == 18)
      then 19 * 2 ^ 12 + 7
      else if (i == 0) && (f == 19)
      then 20 * 2 ^ 12 + 7
      else if (i == 1) && (f == 19)
      then 21 * 2 ^ 12 + 7
      else 0;
}

abbrev mapped_label : Label
mapped_label f =
    if f == 16
    then some []
    else if f == 17
    then some (0 ∷ [])
    else if f == 18
    then some (0 ∷ 0 ∷ [])
    else if f == 19
    then some (0 ∷ 0 ∷ 0 ∷ [])
    else none

mapped-taken : (f : ℕ) (q : List ℕ) → mapped_label f ≡ some q → Used free_frames f
mapped-taken f q e = ground (arith, e)

leads_17 : table_at (17 * 2 ^ 12 + 7) ≡ 17
unfolding table_at frame_at get_from_virtual get_from_physical
leads_17 = refl

leads_18 : table_at (18 * 2 ^ 12 + 7) ≡ 18
unfolding table_at frame_at get_from_virtual get_from_physical
leads_18 = refl

leads_19 : table_at (19 * 2 ^ 12 + 7) ≡ 19
unfolding table_at frame_at get_from_virtual get_from_physical
leads_19 = refl

abbrev Child : ℕ → ℕ → List ℕ → Type 0
Child w i q = (is_large w ≡ false) × (mapped_label (table_at w) ≡ some (i ∷ q))

mapped-Child :
    (f : ℕ) (q : List ℕ) (i : ℕ)
    → mapped_label f ≡ some q
    → length q < 3
    → mapped.memory f i ≢ 0
    → Child (mapped.memory f i) i q
mapped-Child f q i e d ne = elim (ℕ_discrete i 0) [
  | yes z ↦ elim (ℕ_discrete f 16) [
    | yes a ↦
        subst (λ w. Child w i q) {x = 17 * 2 ^ 12 + 7} (ground (arith, a, z))
          (refl, ap mapped_label leads_17 ∙ ground (arith, a, z, e))
    | no na ↦ elim (ℕ_discrete f 17) [
      | yes a ↦
          subst (λ w. Child w i q) {x = 18 * 2 ^ 12 + 7} (ground (arith, a, z))
            (refl, ap mapped_label leads_18 ∙ ground (arith, a, z, e))
      | no nb ↦ elim (ℕ_discrete f 18) [
        | yes a ↦
            subst (λ w. Child w i q) {x = 19 * 2 ^ 12 + 7} (ground (arith, a, z))
              (refl, ap mapped_label leads_19 ∙ ground (arith, a, z, e))
        | no nc ↦ absurd (deep e d na nb nc)
      ]
    ]
  ]
  | no nz ↦ absurd (shallow e d ne nz)
]
  where
    deep : mapped_label f ≡ some q → length q < 3 → f ≢ 16 → f ≢ 17 → f ≢ 18 → ⊥
    deep e d na nb nc = ground (arith, e, d, na, nb, nc)

    shallow : mapped_label f ≡ some q → length q < 3 → mapped.memory f i ≢ 0 → i ≢ 0 → ⊥
    shallow e d ne nz = ground (arith, e, d, ne, nz)

mapped-Inv : Inv every mapped mapped_label
unfolding root frame_at get_from_virtual get_from_physical
mapped-Inv = record {
  frames = free_frames-IsValid;
  top = refl;
  taken = mapped-taken;
  child = λ f q i e d s ne. mapped-Child f q i e d ne;
}

accepts : check_user 4096 mapped ≡ true
unfolding check_user root table_at frame_at get_from_virtual get_from_physical
    night_os.Paging.is_null
accepts = refl

delete_page-walks_example :
    (walk (delete_page 4096 mapped) (root (delete_page 4096 mapped)) (indices 4096) ≡ 0)
    × ((other : ℕ)
        → every (pml4_index other) ≡ true
        → indices other ≢ indices 4096
        → walk (delete_page 4096 mapped) (root (delete_page 4096 mapped)) (indices other)
          ≡ walk mapped (root mapped) (indices other))
delete_page-walks_example = delete_page-walks every mapped mapped_label mapped-Inv 4096 refl accepts

munmap-keeps_first_example :
    walk (munmap 0 4096 mapped) (root (munmap 0 4096 mapped)) (indices 0)
    ≡ walk mapped (root mapped) (indices 0)
munmap-keeps_first_example =
    munmap-keeps_first every mapped mapped_label 0 4096 mapped-Inv refl refl refl (omega arith)
      (omega arith) (omega arith)
