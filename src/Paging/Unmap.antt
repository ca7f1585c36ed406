-- ===== src/Paging/Unmap.antt =====
-- What `memmgr_delete_page` and `munmap` take out of the translation.
use Prim.Native.Nat.{bit_and, bit_or}
use night_os.Base.{
  ℕ, ◌+◌, ◌*◌, ◌/◌, ◌%◌, ◌^◌, ◌≤◌, ◌<◌, ◌≡◌, ◌≢◌, refl, ap, ap₂, ◌∙◌, sym, Bool, true, false, some,
  List, [], ◌∷◌, length, if◌then◌else◌, arith, inl, inr, Bool-cases, get_or,
}
use native.Mathlib.Nat.{mod-eq_of_lt}
use night_os.Base.Bits.{digit, digit-bit_or}
use night_os.Frames.{Frames, kfree_frame}
use night_os.Paging.{
  Machine, kernel_memory, page_mask, get_from_physical, root, table_at, is_user, is_large, is_null,
  is_present, release_page, set_entry, check_user, delete_page, munmap_loop, munmap, page_count,
  pml4_index, pdp_index, pd_index, pt_index,
}
use night_os.Paging.Tables.{Label, Inv, walk, indices}
use night_os.Paging.Leaf.{trail, untouched, other_walks, walk_lead, walk_frames, reversed}

kernel-ne_zero : (addr : ℕ) → bit_or addr kernel_memory ≢ 0
unfolding digit
kernel-ne_zero addr e =
    absurd (omega (arith, ap (λ w. digit w 39) e, digit-bit_or 39 addr kernel_memory))

physical-ne_zero : (addr : ℕ) → get_from_physical addr ≢ 0
unfolding get_from_physical
physical-ne_zero addr e = let ne = kernel-ne_zero addr in absurd (ground (arith, e, ne))

-- The pointers to tables are never null: the code compares them with 0 after it has added the base.
pub is_null-false : (entry : ℕ) → is_null entry ≡ false
unfolding is_null
is_null-false entry = let ne = physical-ne_zero (bit_and entry page_mask) in ground (arith, ne)

release_page-frames :
    (entry : ℕ) (m : Machine) → (fs : Frames) × (release_page entry m ≡ record m { frames = fs })
unfolding release_page
release_page-frames entry m = elim (Bool-cases (is_present entry)) [
  | inl set ↦ (kfree_frame (bit_and entry page_mask) m.frames, ground (arith, set))
  | inr unset ↦ (m.frames, ground (arith, unset))
]

user-ne_zero : (w : ℕ) → is_user w ≡ true → w ≢ 0
user-ne_zero w h z = absurd (ground (arith, h, ap is_user z))

module _ (small : ℕ → Bool) (m : Machine) (label : Label) (v : Inv small m label) (addr : ℕ)
    (user : small (pml4_index addr) ≡ true) (h : check_user addr m ≡ true) where
  abbrev e4 : ℕ
  e4 = m.memory (root m) (pml4_index addr)

  abbrev e3 : ℕ
  e3 = m.memory (table_at e4) (pdp_index addr)

  abbrev e2 : ℕ
  e2 = m.memory (table_at e3) (pd_index addr)

  first : (e4 ≢ 0) × (is_large e4 ≡ false) × (label (table_at e4) ≡ some (pml4_index addr ∷ []))
  unfolding check_user
  first =
      let set : is_user e4 ≡ true = ground (arith, h) in
      let ne = user-ne_zero e4 set in
      let (large, there) = v.child (root m) [] (pml4_index addr) v.top (omega arith) user ne in
      (ne, large, there)

  second :
      (e3 ≢ 0)
      × (is_large e3 ≡ false)
      × (label (table_at e3) ≡ some (pdp_index addr ∷ pml4_index addr ∷ []))
  unfolding check_user
  second =
      let set : is_user e3 ≡ true = ground (arith, h, first.1) in
      let ne = user-ne_zero e3 set in
      let (large, there) =
        v.child (table_at e4) (pml4_index addr ∷ []) (pdp_index addr) first.2 (omega arith) tt ne in
      (ne, large, there)

  third :
      (e2 ≢ 0)
      × (is_large e2 ≡ false)
      × (label (table_at e2) ≡ some (pd_index addr ∷ pdp_index addr ∷ pml4_index addr ∷ []))
  unfolding check_user
  third =
      let set : is_user e2 ≡ true = ground (arith, h, first.1, second.1) in
      let ne = user-ne_zero e2 set in
      let (large, there) =
        v.child (table_at e3) (pdp_index addr ∷ pml4_index addr ∷ []) (pd_index addr) second.2
          (omega arith) tt ne in
      (ne, large, there)

  deleted :
      (fs : Frames) × (delete_page addr m
        ≡ set_entry (table_at e2) (pt_index addr) 0 (record m { frames = fs }))
  unfolding delete_page
  deleted =
      let e1 = m.memory (table_at e2) (pt_index addr) in
      let (fs, freed) = release_page-frames e1 m in
      (
        fs,
        ground (
          arith,
          is_null-false e4,
          is_null-false e3,
          is_null-false e2,
          first.1,
          second.1,
          third.1,
        )
            ∙ ap (set_entry (table_at e2) (pt_index addr) 0) freed,
      )

  kept :
      (g : ℕ) (p : List ℕ) (j : ℕ)
      → label g ≡ some p
      → length p < 3
      → (set_entry (table_at e2) (pt_index addr) 0 m).memory g j ≡ m.memory g j
  kept g p j e lt =
      untouched small m label v (table_at e2)
        (pd_index addr ∷ pdp_index addr ∷ pml4_index addr ∷ []) (pt_index addr) 0 third.2 refl g p j
        e (inl λ eq. absurd (omega (arith, ap length eq)))

  gone : walk (set_entry (table_at e2) (pt_index addr) 0 m) (root m) (indices addr) ≡ 0
  unfolding walk
  gone =
      let m' = set_entry (table_at e2) (pt_index addr) 0 m in
      let a = pml4_index addr in
      let b = pdp_index addr in
      let c = pd_index addr in
      let d = pt_index addr in
      let e₁ = kept (root m) [] a v.top (omega arith) in
      let e₂ = kept (table_at e4) (a ∷ []) b first.2 (omega arith) in
      let e₃ = kept (table_at e3) (b ∷ a ∷ []) c second.2 (omega arith) in
      let last : m'.memory (table_at e2) d ≡ 0 = ground arith in
      walk_lead m' (root m) (table_at e4) a b (c ∷ d ∷ []) (λ z. first.0 (sym e₁ ∙ z))
        (ap table_at e₁)
      ∙ walk_lead m' (table_at e4) (table_at e3) b c (d ∷ []) (λ z. second.0 (sym e₂ ∙ z))
          (ap table_at e₂)
      ∙ walk_lead m' (table_at e3) (table_at e2) c d [] (λ z. third.0 (sym e₃ ∙ z)) (ap table_at e₃)
      ∙ ap (λ x. bit_and x page_mask) last

  others :
      (other : ℕ)
      → small (pml4_index other) ≡ true
      → indices other ≢ indices addr
      → walk (set_entry (table_at e2) (pt_index addr) 0 m) (root m) (indices other)
        ≡ walk m (root m) (indices other)
  unfolding trail
  others other user' apart =
      other_walks small m label v (table_at e2)
        (pd_index addr ∷ pdp_index addr ∷ pml4_index addr ∷ []) (pt_index addr) 0 third.2 refl
        (root m) [] (pml4_index other) (pdp_index other ∷ pd_index other ∷ pt_index other ∷ [])
        v.top refl user'
        (λ eq. apart (
          reversed (pml4_index addr) (pdp_index addr) (pd_index addr) (pt_index addr)
            (pml4_index other) (pdp_index other) (pd_index other) (pt_index other) eq))

  same_root :
      (fs : Frames)
      → root (set_entry (table_at e2) (pt_index addr) 0 (record m { frames = fs })) ≡ root m
  unfolding root
  same_root fs = refl

  -- In a valid tree of page tables in which no user address leads to a large page,
  -- `memmgr_delete_page` of a user page that `memmgr_check_user` accepts takes exactly that page out
  -- of the translation of the user addresses.
  pub delete_page-walks :
      (walk (delete_page addr m) (root (delete_page addr m)) (indices addr) ≡ 0)
      × ((other : ℕ)
          → small (pml4_index other) ≡ true
          → indices other ≢ indices addr
          → walk (delete_page addr m) (root (delete_page addr m)) (indices other)
            ≡ walk m (root m) (indices other))
  delete_page-walks =
      let (fs, run) = deleted in
      let m' = set_entry (table_at e2) (pt_index addr) 0 m in
      let there : (is : List ℕ)
          → walk (delete_page addr m) (root (delete_page addr m)) is ≡ walk m' (root m) is =
        λ is.
          ap (λ x. walk x (root x) is) run
          ∙ ap (λ x. walk (record m' { frames = fs }) x is) (same_root fs)
          ∙ walk_frames m' fs (root m) is in
      (
        there (indices addr) ∙ gone,
        λ other user' apart. there (indices other) ∙ others other user' apart,
      )

-- In a valid tree of page tables in which no user address leads to a large page, `munmap` of one page,
-- or a part of it, where that page and the next are user pages below 2^47, leaves what is mapped at
-- that page as it was: its loop starts one page behind.
pub munmap-keeps_first :
    (small : ℕ → Bool) (m : Machine) (label : Label) (addr len : ℕ)
    → Inv small m label
    → small (pml4_index addr) ≡ true
    → small (pml4_index (addr + 4096)) ≡ true
    → addr % 4096 ≡ 0
    → addr + 4096 < 2 ^ 47
    → 0 < len
    → len ≤ 4096
    → walk (munmap addr len m) (root (munmap addr len m)) (indices addr)
      ≡ walk m (root m) (indices addr)
unfolding munmap munmap_loop
munmap-keeps_first small m label addr len v user user' aligned low pos_len short =
    elim (Bool-cases (check_user (addr + 4096) m)) [
      | inl mapped ↦
          ap (λ x. walk x (root x) (indices addr)) (run ∙ ground (arith, mapped))
          ∙ (delete_page-walks small m label v (addr + 4096) user' mapped).1 addr user
              (λ eq. let same = ap (λ l. get_or l 3 0) eq in absurd (omega (arith, same)))
      | inr unmapped ↦ ap (λ x. walk x (root x) (indices addr)) (run ∙ ground (arith, unmapped))
    ]
  where
    run :
        munmap addr len m ≡ (if check_user (addr + 4096) m then delete_page (addr + 4096) m else m)
    run =
        let whole : addr / 4096 * 4096 ≡ addr = omega arith in
        let one : page_count len ≡ 1 = ground arith in
        let page : (addr + 4096 * 1) % 2 ^ 64 ≡ addr + 4096 =
          mod-eq_of_lt (omega arith) ∙ omega arith in
        ap₂ (λ a n. munmap_loop a n 1 m) whole one
        ∙ ap (λ p. if check_user p m then delete_page p m else m) page
