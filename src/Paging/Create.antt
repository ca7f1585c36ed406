-- ===== src/Paging/Create.antt =====
-- What `memmgr_create_or_get_page` does where it is to create what is missing.
use Prim.Native.Nat.{bit_and}
use night_os.Base.{ℕ, ◌*◌, ◌^◌, ◌<◌, ◌≡◌, ◌≢◌, Bool, true, [], ◌∷◌, arith, Returns}
use mathlib.Core.Path.{subst}
use native.Mathlib.Decide.{ℕ_discrete}
use night_os.Frames.Alloc.{allocated}
use night_os.Paging.{
  Machine, root, page_mask, set_entry, create_or_get_page, leaf, alloc, pml4_index, pdp_index,
  pd_index, pt_index,
}
use night_os.Paging.Words.{entry_for, masked-entry_for}
use night_os.Paging.Tables.{Label, Inv, Grants, Fresh, Fresh-of}
use night_os.Paging.Descend.{Stepped, next_table-Stepped}
use night_os.Paging.Leaf.{Maps, set-Maps, found-Maps, allocated-Inv}

-- what became of the page: it was there, or it is a frame that nothing used
pub data Got (m : Machine) (flags f i : ℕ) : ℕ × Machine → Type 0 where
  there : m.memory f i ≢ 0 → Got m flags f i (bit_and (m.memory f i) page_mask, m)
  created :
      (fresh : Fresh 0 m.frames)
      → m.memory f i ≡ 0
      → Got m flags f i (
        fresh.frame * 2 ^ 12,
        set_entry f i
            (entry_for fresh.frame flags)
            (record m { frames = allocated m.frames fresh.frame }),
      )

leaf-Got :
    (small : ℕ → Bool) (label : Label) (m : Machine) (flags f i : ℕ)
    → Inv small m label
    → flags < 2 ^ 7
    → Grants 1 m.frames
    → Returns (leaf true flags f i m) (Got m flags f i)
unfolding leaf alloc
leaf-Got small label m flags f i v small_flags g = elim (ℕ_discrete (m.memory f i) 0) [
  | yes e ↦
      let fresh = Fresh-of 0 v.frames g in
      let n = fresh.frame in
      let w = masked-entry_for n flags (omega (arith, fresh.bound)) (omega arith) in
      (
        (
          n * 2 ^ 12,
          set_entry f i (entry_for n flags) (record m { frames = allocated m.frames n }),
        ),
        ground (arith, e, fresh.run, w),
        created fresh e,
      )
  | no ne ↦ ((bit_and (m.memory f i) page_mask, m), ground (arith, ne), there ne)
]

-- The returned page is behind the address, and all other pages are where they were.
abbrev pub Gets : (ℕ → Bool) → Machine → ℕ → ℕ × Machine → Type 0
Gets small m addr (page, m') = Maps small m addr page m'

Gets-of :
    (small : ℕ → Bool) (m : Machine) (label : Label) (v : Inv small m label)
    (addr flags n₁ n₂ n₃ : ℕ) (r₁ r₂ r₃ : ℕ × Machine) (user : small (pml4_index addr) ≡ true)
    (s₁ : Stepped small m label (root m) [] (pml4_index addr) n₁ r₁)
    (s₂ : Stepped small r₁.1 s₁.label_after r₁.0 (pml4_index addr ∷ []) (pdp_index addr) n₂ r₂)
    (s₃ : Stepped small r₂.1 s₂.label_after r₂.0
      (pdp_index addr ∷ pml4_index addr ∷ [])
      (pd_index addr)
      n₃
      r₃)
    → flags < 2 ^ 7
    → (r : ℕ × Machine) → Got r₃.1 flags r₃.0 (pt_index addr) r
    → Gets small m addr r
Gets-of small m label v addr flags n₁ n₂ n₃ r₁ r₂ r₃ user s₁ s₂ s₃ small_flags r (there ne) =
    found-Maps small m label v addr n₁ n₂ n₃ r₁ r₂ r₃ user s₁ s₂ s₃
Gets-of small m label v addr flags n₁ n₂ n₃ r₁ r₂ r₃ user s₁ s₂ s₃ small_flags r (created fresh e) =
    let n = fresh.frame in
    let w = entry_for n flags in
    let fs = allocated r₃.1.frames n in
    subst
      (λ page.
        Maps small m addr page (set_entry r₃.0 (pt_index addr) w (record r₃.1 { frames = fs })))
      (masked-entry_for n flags (omega (arith, fresh.bound)) (omega arith))
      (set-Maps small m label v addr n₁ n₂ n₃ r₁ r₂ r₃ user s₁ s₂ s₃ fs w
        (allocated-Inv n s₃.grown.inv fresh.bound))

-- Where it is to create what is missing, with flags below PAGE_LARGE, in a valid tree of page tables
-- whose next four allocations find a frame, `memmgr_create_or_get_page` of a user address returns the
-- page that is from then on behind it, keeps the tables a valid tree, and leaves every other user page
-- as it was.
pub create_or_get_page-Gets :
    (small : ℕ → Bool) (label : Label) (m : Machine) (addr flags : ℕ)
    → Inv small m label
    → small (pml4_index addr) ≡ true
    → Grants 4 m.frames
    → flags < 2 ^ 7
    → Returns (create_or_get_page addr flags true m) (Gets small m addr)
unfolding create_or_get_page root
create_or_get_page-Gets small label m addr flags v user grants small_flags =
    let a = pml4_index addr in
    let b = pdp_index addr in
    let c = pd_index addr in
    let d = pt_index addr in
    let (r₁, run₁, s₁) =
      next_table-Stepped small m label v (root m) [] a flags 3 v.top (omega arith) user small_flags
        grants in
    let (r₂, run₂, s₂) =
      next_table-Stepped small r₁.1 s₁.label_after s₁.grown.inv r₁.0 (a ∷ []) b flags 2 s₁.labelled
        (omega arith) tt small_flags s₁.grants in
    let (large₂, _) =
      s₂.grown.inv.child r₁.0 (a ∷ []) b (s₂.grown.keeps r₁.0 (a ∷ []) s₁.labelled) (omega arith) tt
        s₂.entry in
    let (r₃, run₃, s₃) =
      next_table-Stepped small r₂.1 s₂.label_after s₂.grown.inv r₂.0 (b ∷ a ∷ []) c flags 1
        s₂.labelled (omega arith) tt small_flags s₂.grants in
    let (large₃, _) =
      s₃.grown.inv.child r₂.0 (b ∷ a ∷ []) c (s₃.grown.keeps r₂.0 (b ∷ a ∷ []) s₂.labelled)
        (omega arith) tt s₃.entry in
    let (r, run, got) =
      leaf-Got small s₃.label_after r₃.1 flags r₃.0 d s₃.grown.inv small_flags s₃.grants in
    (
      r,
      ground (arith, run₁, run₂, run₃, run, large₂, large₃),
      Gets-of small m label v addr flags 3 2 1 r₁ r₂ r₃ user s₁ s₂ s₃ small_flags r got,
    )
