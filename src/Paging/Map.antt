-- ===== src/Paging/Map.antt =====
-- What `memmgr_map_frame_to_virtual` does to the translation of every address.
use Prim.Native.Nat.{bit_and}
use night_os.Base.{
  ℕ, ◌+◌, ◌-◌, ◌*◌, ◌/◌, ◌%◌, ◌^◌, ◌<◌, ◌≡◌, ◌≢◌, ap, ◌∙◌, sym, Bool, true, false, [], ◌∷◌, arith,
  ok, Run, ◌>>=◌, Returns,
}
use mathlib.Core.Path.{subst}
use night_os.Base.{to_int, of_int}
use night_os.Base.Masks.{bit_and-low}
use night_os.Paging.{
  Machine, root, set_entry, map_frame_to_virtual, create_or_get_page, pml4_index, pdp_index,
  pd_index, pt_index,
}
use night_os.Paging.Words.{entry_for, masked-entry_for}
use night_os.Paging.Tables.{Label, Inv, indices, Grants}
use night_os.Paging.Descend.{map_table-Stepped}
use night_os.Paging.Lookup.{create_or_get_page-walk}
use night_os.Paging.Leaf.{Maps, set-Maps}

table_flags-lt : (flags : ℕ) → bit_and flags (2 ^ 6 - 1) < 2 ^ 7
table_flags-lt flags =
    let split : flags ≡ flags / 64 * 2 ^ 6 + flags % 64 = omega arith in
    let low =
      ap (λ t. bit_and t (2 ^ 6 - 1)) split
      ∙ bit_and-low 6 (flags / 64) (flags % 64) (omega arith) in
    omega (arith, low)

-- `memmgr_map_frame_to_virtual` on a user address maps it to the frame, and leaves the translation
-- of every other user page as it was, whatever tables it has to create on the way.
pub map_frame_to_virtual-Maps :
    (small : ℕ → Bool) (label : Label) (m : Machine) (frame addr flags : ℕ)
    → Inv small m label
    → small (pml4_index addr) ≡ true
    → Grants 3 m.frames
    → frame < 2 ^ 40
    → flags < 2 ^ 12
    → Returns
        (map_frame_to_virtual (frame * 2 ^ 12) addr flags m)
        (Maps small m addr (frame * 2 ^ 12))
unfolding map_frame_to_virtual root
map_frame_to_virtual-Maps small label m frame addr flags v user grants bound small_flags =
    let tf = table_flags-lt flags in
    let flags' = bit_and flags (2 ^ 6 - 1) in
    let (r₁, run₁, s₁) =
      map_table-Stepped small m label v (root m) [] (pml4_index addr) flags' 2 v.top (omega arith)
        user tf grants in
    let (r₂, run₂, s₂) =
      map_table-Stepped small r₁.1 s₁.label_after s₁.grown.inv r₁.0 (pml4_index addr ∷ [])
        (pdp_index addr) flags' 1 s₁.labelled (omega arith) tt tf s₁.grants in
    let (r₃, run₃, s₃) =
      map_table-Stepped small r₂.1 s₂.label_after s₂.grown.inv r₂.0
        (pdp_index addr ∷ pml4_index addr ∷ []) (pd_index addr) flags' 0 s₂.labelled (omega arith)
        tt tf s₂.grants in
    let w = entry_for frame flags in
    let cast : of_int (to_int flags) ≡ flags = ground arith in
    (
      set_entry r₃.0 (pt_index addr) w r₃.1,
      ground (arith, run₁, run₂, run₃, cast),
      subst (λ page. Maps small m addr page (set_entry r₃.0 (pt_index addr) w r₃.1))
          (masked-entry_for frame flags bound small_flags)
          (set-Maps small m label v addr 2 1 0 r₁ r₂ r₃ user s₁ s₂ s₃ r₃.1.frames w s₃.grown.inv),
    )

-- the same page, in another machine
abbrev pub ap_page : Machine → Run (ℕ × Machine) → Run (ℕ × Machine)
ap_page m' run = do (page, _) ← run; ok (page, m')

-- After `memmgr_map_frame_to_virtual` of a user address, `memmgr_create_or_get_page` finds the frame
-- there, and behind every other user address the page that it found before.
pub map_frame_to_virtual-lookup :
    (small : ℕ → Bool) (label : Label) (m : Machine) (frame addr flags other : ℕ)
    → Inv small m label
    → small (pml4_index addr) ≡ true
    → small (pml4_index other) ≡ true
    → indices other ≢ indices addr
    → Grants 3 m.frames
    → frame < 2 ^ 40
    → flags < 2 ^ 12
    → Returns (map_frame_to_virtual (frame * 2 ^ 12) addr flags m) λ m'.
      (create_or_get_page addr 0 false m' ≡ ok (frame * 2 ^ 12, m'))
      × (ap_page m' (create_or_get_page other 0 false m) ≡ create_or_get_page other 0 false m')
map_frame_to_virtual-lookup small label m frame addr flags other v user user' apart grants bound
      small_flags =
    let (m', run, maps) =
      map_frame_to_virtual-Maps small label m frame addr flags v user grants bound small_flags in
    (
      m',
      run,
      (
        create_or_get_page-walk small maps.label m' addr 0 maps.inv user
            ∙ ap (λ p. ok (p, m')) maps.here,
        ap (ap_page m') (create_or_get_page-walk small label m other 0 v user')
            ∙ ap (λ p. ok (p, m')) (sym (maps.others other user' apart))
            ∙ sym (create_or_get_page-walk small maps.label m' other 0 maps.inv user'),
      ),
    )
