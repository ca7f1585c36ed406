-- ===== src/Paging/Grow.antt =====
-- What a new table changes: no translation.
use Prim.Native.Nat.{bit_and}
use night_os.Base.{
  ℕ, suc, ◌+◌, ◌^◌, ◌<◌, ◌≡◌, ◌≢◌, ◌⊎◌, refl, ap, ap₂, ◌∙◌, sym, Bool, false, some, List, [], ◌∷◌,
  length, ◌==◌, if◌then◌else◌, arith, inl, inr,
}
use mathlib.Core.Path.{subst}
use native.Mathlib.Decide.{ℕ_discrete}
use night_os.Base.Int.{pos}
use night_os.Frames.Alloc.{Used, allocated}
use night_os.Frames.Free.{allocated-IsValid}
use night_os.Paging.{Machine, root, table_at, page_mask, is_large, set_entry, clear_frame}
use night_os.Paging.Words.{entry_for, table_at-entry_for, entry_for-ne_zero, is_large-entry_for}
use night_os.Paging.Tables.{Label, Slot, Inv, walk, walk_empty, walk_next, Fresh}

-- What a later machine keeps of an earlier one: its tables, the entries that were set, and every
-- translation.
pub record Grown (small : ℕ → Bool) (m : Machine) (label : Label) (m' : Machine) (label' : Label)
    : Type 0 where
  pub inv : Inv small m' label'
  pub pml : m'.pml ≡ m.pml
  pub keeps : (f : ℕ) (q : List ℕ) → label f ≡ some q → label' f ≡ some q
  pub same :
      (f : ℕ) (q : List ℕ) (i : ℕ)
      → label f ≡ some q
      → m.memory f i ≢ 0
      → m'.memory f i ≡ m.memory f i
  pub walks :
      (f : ℕ) (q : List ℕ) (i : ℕ) (is : List ℕ)
      → label f ≡ some q
      → length q + suc (length is) ≡ 4
      → Slot small q i
      → walk m' f (i ∷ is) ≡ walk m f (i ∷ is)

pub Grown-refl :
    {small : ℕ → Bool} {m : Machine} {label : Label}
    → Inv small m label
    → Grown small m label m label
Grown-refl v = record {
  inv = v;
  pml = refl;
  keeps = λ f q e. e;
  same = λ f q i e ne. refl;
  walks = λ f q i is e l s. refl;
}

pub Grown-trans :
    {small : ℕ → Bool} {m₁ m₂ m₃ : Machine} {label₁ label₂ label₃ : Label}
    → Grown small m₁ label₁ m₂ label₂
    → Grown small m₂ label₂ m₃ label₃
    → Grown small m₁ label₁ m₃ label₃
Grown-trans g h = record {
  inv = h.inv;
  pml = h.pml ∙ g.pml;
  keeps = λ f q e. h.keeps f q (g.keeps f q e);
  same = λ f q i e ne.
      h.same f q i (g.keeps f q e) (λ z. ne (sym (g.same f q i e ne) ∙ z)) ∙ g.same f q i e ne;
  walks = λ f q i is e l s. h.walks f q i is (g.keeps f q e) l s ∙ g.walks f q i is e l s;
}

walk_cleared : (m : Machine) (f : ℕ) (is : List ℕ) → ((i : ℕ) → m.memory f i ≡ 0) → walk m f is ≡ 0
unfolding walk
walk_cleared m f [] h = refl
walk_cleared m f (i ∷ []) h = ap (λ w. bit_and w page_mask) (h i)
walk_cleared m f (i ∷ j ∷ is) h = ground (arith, h i)

module _ (small : ℕ → Bool) (m : Machine) (label : Label) (v : Inv small m label) (f : ℕ)
    (q : List ℕ) (i flags n : ℕ) (at_f : label f ≡ some q) (deep : length q < 3)
    (slot : Slot small q i) (empty : m.memory f i ≡ 0) (small_flags : flags < 2 ^ 7)
    (fresh : Fresh n m.frames) where
  abbrev pub after : Machine
  after = clear_frame fresh.frame (
      set_entry f i (entry_for fresh.frame flags)
        (record m { frames = allocated m.frames fresh.frame }))

  abbrev pub label' : Label
  label' g = if g == fresh.frame then some (i ∷ q) else label g

  pub unlabelled : (g : ℕ) (p : List ℕ) → label g ≡ some p → g ≢ fresh.frame
  unlabelled g p e same = v.taken g p e (ap (λ k. m.frames.memory_map (pos k)) same ∙ fresh.unused)

  label-keeps : (g : ℕ) (p : List ℕ) → label g ≡ some p → label' g ≡ some p
  label-keeps g p e = let ne = unlabelled g p e in ground (arith, ne, e)

  -- The only entry of an old table that is new.
  entries :
      (g : ℕ) (p : List ℕ) (j : ℕ)
      → label g ≡ some p
      → ((g ≡ f) × (j ≡ i) × (p ≡ q) × (after.memory g j ≡ entry_for fresh.frame flags))
        ⊎ (after.memory g j ≡ m.memory g j)
  entries g p j e =
      let ne = unlabelled g p e in
      elim (ℕ_discrete g f) [
        | no apart ↦ inr (ground (arith, ne, apart))
        | yes same ↦ elim (ℕ_discrete j i) [
          | no apart ↦ inr (ground (arith, ne, apart))
          | yes here ↦
              let at_g : label g ≡ some q = ap label same ∙ at_f in
              inl (same, here, cc (e, at_g), ground (arith, ne, same, here))
        ]
      ]

  bound : fresh.frame < 2 ^ 27
  bound = omega (arith, fresh.bound)

  pub new_label : label' fresh.frame ≡ some (i ∷ q)
  new_label = ground arith

  after-child :
      (g : ℕ) (p : List ℕ) (j : ℕ)
      → label' g ≡ some p
      → length p < 3
      → Slot small p j
      → after.memory g j ≢ 0
      → (is_large (after.memory g j) ≡ false)
        × (label' (table_at (after.memory g j)) ≡ some (j ∷ p))
  after-child g p j e d s ne = elim (ℕ_discrete g fresh.frame) [
    | yes same ↦ absurd (ne (ground (arith, same)))
    | no apart ↦
        let old : label g ≡ some p = ground (arith, apart, e) in
        elim (entries g p j old) [
          | inl (gf, ji, pq, w) ↦
              subst (λ x. (is_large x ≡ false) × (label' (table_at x) ≡ some (j ∷ p))) (sym w)
                (
                  is_large-entry_for fresh.frame flags small_flags,
                  ap label' (table_at-entry_for fresh.frame flags bound (omega arith))
                      ∙ new_label
                      ∙ ap₂ (λ x y. some (x ∷ y)) (sym ji) (sym pq),
                )
          | inr w ↦
              let (large, there) = v.child g p j old d s (λ z. ne (w ∙ z)) in
              subst (λ x. (is_large x ≡ false) × (label' (table_at x) ≡ some (j ∷ p))) (sym w)
                (large, label-keeps (table_at (m.memory g j)) (j ∷ p) there)
        ]
  ]

  after-taken :
      (g : ℕ) (p : List ℕ) → label' g ≡ some p → Dec (g ≡ fresh.frame) → Used after.frames g
  after-taken g p e (yes same) = ground (arith, same)
  after-taken g p e (no apart) =
      let old : label g ≡ some p = ground (arith, apart, e) in
      let taken = v.taken g p old in ground (arith, apart, taken)

  after-Inv : Inv small after label'
  unfolding root
  after-Inv = record {
    frames = allocated-IsValid fresh.frame v.frames fresh.bound;
    top = label-keeps (root m) [] v.top;
    taken = λ g p e. after-taken g p e (ℕ_discrete g fresh.frame);
    child = after-child;
  }

  after-walks :
      (g : ℕ) (p : List ℕ) (j : ℕ) (is : List ℕ)
      → label g ≡ some p
      → length p + suc (length is) ≡ 4
      → Slot small p j
      → walk after g (j ∷ is) ≡ walk m g (j ∷ is)
  unfolding walk
  after-walks g p j [] e l s = elim (entries g p j e) [
    | inl (gf, ji, pq, w) ↦ absurd (omega (arith, ap length pq))
    | inr w ↦ ap (λ x. bit_and x page_mask) w
  ]
  after-walks g p j (k ∷ is) e l s = elim (entries g p j e) [
    | inl (gf, ji, pq, w) ↦
        let set : after.memory g j ≢ 0 = λ z. entry_for-ne_zero fresh.frame flags (sym w ∙ z) in
        let there : table_at (after.memory g j) ≡ fresh.frame =
          ap table_at w ∙ table_at-entry_for fresh.frame flags bound (omega arith) in
        let unset : m.memory g j ≡ 0 = ap₂ m.memory gf ji ∙ empty in
        walk_next after g j k is set
        ∙ ap (λ t. walk after t (k ∷ is)) there
        ∙ walk_cleared after fresh.frame (k ∷ is) (λ x. ground arith)
        ∙ sym (walk_empty m g j k is unset)
    | inr w ↦ elim (ℕ_discrete (m.memory g j) 0) [
      | yes z ↦ walk_empty after g j k is (w ∙ z) ∙ sym (walk_empty m g j k is z)
      | no ne ↦
          let (_, there) = v.child g p j e (omega (arith, l)) s ne in
          walk_next after g j k is (λ z. ne (sym w ∙ z))
          ∙ ap (λ x. walk after (table_at x) (k ∷ is)) w
          ∙ after-walks (table_at (m.memory g j)) (j ∷ p) k is there (omega (arith, l)) tt
          ∙ sym (walk_next m g j k is ne)
    ]
  ]

  after-same :
      (g : ℕ) (p : List ℕ) (j : ℕ)
      → label g ≡ some p
      → m.memory g j ≢ 0
      → after.memory g j ≡ m.memory g j
  after-same g p j e ne = elim (entries g p j e) [
    | inl (gf, ji, pq, w) ↦ absurd (ne (ap₂ m.memory gf ji ∙ empty))
    | inr w ↦ w
  ]

  pub after-Grown : Grown small m label after label'
  after-Grown = record {
    inv = after-Inv;
    pml = refl;
    keeps = label-keeps;
    same = after-same;
    walks = after-walks;
  }
