-- ===== src/Paging/Leaf.antt =====
-- What an entry of a last-level table changes: the translation of one page.
use Prim.Native.Nat.{bit_and}
use night_os.Base.{
  ℕ, suc, ◌+◌, ◌<◌, ◌≡◌, ◌≢◌, ◌⊎◌, refl, ap, ap₂, ◌∙◌, sym, Bool, true, false, some, List, [], ◌∷◌,
  length, arith, inl, inr,
}
use mathlib.Core.Path.{subst}
use native.Mathlib.Decide.{ℕ_discrete}
use night_os.Paging.{
  frame_at, get_from_physical, Machine, root, table_at, page_mask, is_large, set_entry, pml4_index,
  pdp_index, pd_index, pt_index,
}
use night_os.Frames.{Frames, bitmap_size}
use night_os.Frames.Alloc.{allocated}
use night_os.Frames.Free.{allocated-IsValid}
use night_os.Paging.Tables.{Label, Slot, Inv, walk, walk_empty, walk_next, indices}
use night_os.Paging.Grow.{Grown, Grown-trans}
use night_os.Paging.Descend.{Stepped}

-- The indices of a walk, put before those that led to its table, the last one first.
unfoldable pub trail : List ℕ → List ℕ → List ℕ
trail [] q = q
trail (i ∷ is) q = trail is (i ∷ q)

-- An entry of a last-level table changes no walk but those that end in it.
module _ (small : ℕ → Bool) (m : Machine) (label : Label) (v : Inv small m label) (f : ℕ)
    (q : List ℕ) (i w : ℕ) (at_f : label f ≡ some q) (last : length q ≡ 3) where
  pub untouched :
      (g : ℕ) (p : List ℕ) (j : ℕ)
      → label g ≡ some p
      → (p ≢ q) ⊎ (j ≢ i)
      → (set_entry f i w m).memory g j ≡ m.memory g j
  untouched g p j e (inl apart) = elim (ℕ_discrete g f) [
    | yes same ↦
        let at_g : label g ≡ some q = ap label same ∙ at_f in
        let eq : p ≡ q = cc (e, at_g) in absurd (apart eq)
    | no ne ↦ ground (arith, ne)
  ]
  untouched g p j e (inr apart) = ground (arith, apart)

  pub set_entry-Inv : Inv small (set_entry f i w m) label
  unfolding root
  set_entry-Inv = record {
    frames = v.frames;
    top = v.top;
    taken = v.taken;
    child = λ g p j e d s ne.
        let old = untouched g p j e (inl λ eq. absurd (omega (arith, ap length eq))) in
        subst (λ x. (is_large x ≡ false) × (label (table_at x) ≡ some (j ∷ p))) (sym old)
          (v.child g p j e d s (λ z. ne (old ∙ z)));
  }

  pub other_walks :
      (g : ℕ) (p : List ℕ) (j : ℕ) (is : List ℕ)
      → label g ≡ some p
      → length p + suc (length is) ≡ 4
      → Slot small p j
      → trail (j ∷ is) p ≢ i ∷ q
      → walk (set_entry f i w m) g (j ∷ is) ≡ walk m g (j ∷ is)
  unfolding trail walk
  other_walks g p j [] e l s apart =
      let differs : (p ≢ q) ⊎ (j ≢ i) = elim (ℕ_discrete j i) [
        | yes ji ↦ inl λ pq. apart (ap₂ (λ x y. x ∷ y) ji pq)
        | no ne ↦ inr ne
      ] in
      ap (λ x. bit_and x page_mask) (untouched g p j e differs)
  other_walks g p j (k ∷ is) e l s apart =
      let here = untouched g p j e (inl λ eq. absurd (omega (arith, l, ap length eq))) in
      elim (ℕ_discrete (m.memory g j) 0) [
        | yes z ↦ walk_empty (set_entry f i w m) g j k is (here ∙ z) ∙ sym (walk_empty m g j k is z)
        | no ne ↦
            let (_, there) = v.child g p j e (omega (arith, l)) s ne in
            walk_next (set_entry f i w m) g j k is (λ z. ne (sym here ∙ z))
            ∙ ap (λ x. walk (set_entry f i w m) (table_at x) (k ∷ is)) here
            ∙ other_walks (table_at (m.memory g j)) (j ∷ p) k is there (omega (arith, l)) tt apart
            ∙ sym (walk_next m g j k is ne)
      ]

-- The page behind an address is `page`, and every other page is where it was.
pub record Maps (small : ℕ → Bool) (m : Machine) (addr page : ℕ) (m' : Machine) : Type 0 where
  pub label : Label
  pub inv : Inv small m' label
  pub here : walk m' (root m') (indices addr) ≡ page
  pub others :
      (other : ℕ)
      → small (pml4_index other) ≡ true
      → indices other ≢ indices addr
      → walk m' (root m') (indices other) ≡ walk m (root m) (indices other)

pub walk_lead :
    (m : Machine) (f t i j : ℕ) (is : List ℕ)
    → m.memory f i ≢ 0
    → table_at (m.memory f i) ≡ t
    → walk m f (i ∷ j ∷ is) ≡ walk m t (j ∷ is)
walk_lead m f t i j is ne there = walk_next m f i j is ne ∙ ap (λ x. walk m x (j ∷ is)) there

pub walk_frames :
    (m : Machine) (fs : Frames) (f : ℕ) (is : List ℕ)
    → walk (record m { frames = fs }) f is ≡ walk m f is
unfolding walk
walk_frames m fs f [] = refl
walk_frames m fs f (i ∷ []) = refl
walk_frames m fs f (i ∷ j ∷ is) =
    ground (arith, walk_frames m fs (table_at (m.memory f i)) (j ∷ is))

pub allocated-Inv :
    {small : ℕ → Bool} {m : Machine} {label : Label} (n : ℕ)
    → Inv small m label
    → n < bitmap_size
    → Inv small (record m { frames = allocated m.frames n }) label
unfolding root
allocated-Inv {m} n v lt = record {
  frames = allocated-IsValid n v.frames lt;
  top = v.top;
  taken = λ g p e. let taken = v.taken g p e in ground (arith, taken);
  child = v.child;
}

pub reversed :
    (a b c d a' b' c' d' : ℕ)
    → d' ∷ c' ∷ b' ∷ a' ∷ [] ≡ d ∷ c ∷ b ∷ a ∷ []
    → a' ∷ b' ∷ c' ∷ d' ∷ [] ≡ a ∷ b ∷ c ∷ d ∷ []
reversed a b c d a' b' c' d' eq = cc

-- The three tables that were created or found on the way to the last level.
module _ (small : ℕ → Bool) (m : Machine) (label : Label) (v : Inv small m label)
    (addr n₁ n₂ n₃ : ℕ) (r₁ r₂ r₃ : ℕ × Machine) (user : small (pml4_index addr) ≡ true)
    (s₁ : Stepped small m label (root m) [] (pml4_index addr) n₁ r₁)
    (s₂ : Stepped small r₁.1 s₁.label_after r₁.0 (pml4_index addr ∷ []) (pdp_index addr) n₂ r₂)
    (s₃ : Stepped small r₂.1 s₂.label_after r₂.0
      (pdp_index addr ∷ pml4_index addr ∷ [])
      (pd_index addr)
      n₃
      r₃) where
  all-Grown : Grown small m label r₃.1 s₃.label_after
  all-Grown = Grown-trans s₁.grown (Grown-trans s₂.grown s₃.grown)

  top_kept : s₃.label_after (root m) ≡ some []
  top_kept = all-Grown.keeps (root m) [] v.top

  -- a later machine in which the entries on the way are the same, and the last one is `w`
  walk_here :
      (m' : Machine) (w : ℕ)
      → ((g : ℕ) (p : List ℕ) (j : ℕ)
          → s₃.label_after g ≡ some p
          → length p < 3
          → m'.memory g j ≡ r₃.1.memory g j)
      → m'.memory r₃.0 (pt_index addr) ≡ w
      → walk m' (root m) (indices addr) ≡ bit_and w page_mask
  unfolding walk
  walk_here m' w kept last =
      let a = pml4_index addr in
      let b = pdp_index addr in
      let c = pd_index addr in
      let d = pt_index addr in
      let first_kept = s₂.grown.keeps r₁.0 (a ∷ []) s₁.labelled in
      let e₁ =
        kept (root m) [] a top_kept (omega arith)
        ∙ (Grown-trans s₂.grown s₃.grown).same (root m) [] a (s₁.grown.keeps (root m) [] v.top)
            s₁.entry in
      let e₂ =
        kept r₁.0 (a ∷ []) b (s₃.grown.keeps r₁.0 (a ∷ []) first_kept) (omega arith)
        ∙ s₃.grown.same r₁.0 (a ∷ []) b first_kept s₂.entry in
      let e₃ =
        kept r₂.0 (b ∷ a ∷ []) c (s₃.grown.keeps r₂.0 (b ∷ a ∷ []) s₂.labelled) (omega arith) in
      walk_lead m' (root m) r₁.0 a b (c ∷ d ∷ []) (λ z. s₁.entry (sym e₁ ∙ z))
        (ap table_at e₁ ∙ s₁.leads)
      ∙ walk_lead m' r₁.0 r₂.0 b c (d ∷ []) (λ z. s₂.entry (sym e₂ ∙ z)) (ap table_at e₂ ∙ s₂.leads)
      ∙ walk_lead m' r₂.0 r₃.0 c d [] (λ z. s₃.entry (sym e₃ ∙ z)) (ap table_at e₃ ∙ s₃.leads)
      ∙ ap (λ x. bit_and x page_mask) last

  same_root : root r₃.1 ≡ root m
  unfolding root
  same_root = ap (λ x. frame_at (get_from_physical x)) all-Grown.pml

  pub found-Maps : Maps small m addr (bit_and (r₃.1.memory r₃.0 (pt_index addr)) page_mask) r₃.1
  found-Maps = record {
    label = s₃.label_after;
    inv = s₃.grown.inv;
    here =
        ap (λ x. walk r₃.1 x (indices addr)) same_root
        ∙ walk_here r₃.1 (r₃.1.memory r₃.0 (pt_index addr)) (λ g p j e lt. refl) refl;
    others = λ other user' apart.
        ap (λ x. walk r₃.1 x (indices other)) same_root
        ∙ all-Grown.walks (root m) [] (pml4_index other)
            (pdp_index other ∷ pd_index other ∷ pt_index other ∷ []) v.top refl user';
  }

  root_kept :
      (fs : Frames) (w : ℕ)
      → root (set_entry r₃.0 (pt_index addr) w (record r₃.1 { frames = fs })) ≡ root m
  unfolding root
  root_kept fs w = ap (λ x. frame_at (get_from_physical x)) all-Grown.pml

  -- The entry of the page is set, in a machine that has allocated no more than a frame.
  pub set-Maps :
      (fs : Frames) (w : ℕ)
      → Inv small (record r₃.1 { frames = fs }) s₃.label_after
      → Maps small m addr
          (bit_and w page_mask)
          (set_entry r₃.0 (pt_index addr) w (record r₃.1 { frames = fs }))
  unfolding trail
  set-Maps fs w v₄ =
      let last : length (pd_index addr ∷ pdp_index addr ∷ pml4_index addr ∷ []) ≡ 3 = refl in
      let m₄ = record r₃.1 { frames = fs } in
      let m' = set_entry r₃.0 (pt_index addr) w m₄ in
      record {
        label = s₃.label_after;
        inv =
            set_entry-Inv small m₄ s₃.label_after v₄ r₃.0
              (pd_index addr ∷ pdp_index addr ∷ pml4_index addr ∷ []) (pt_index addr) w s₃.labelled
              last;
        here =
            ap (λ x. walk m' x (indices addr)) (root_kept fs w)
            ∙ walk_here m' w
                (λ g p j e lt.
                  untouched small m₄ s₃.label_after v₄ r₃.0
                    (pd_index addr ∷ pdp_index addr ∷ pml4_index addr ∷ []) (pt_index addr) w
                    s₃.labelled last g p j e (inl λ eq. absurd (omega (arith, ap length eq))))
                (ground arith);
        others = λ other user' apart.
            ap (λ x. walk m' x (indices other)) (root_kept fs w)
            ∙ other_walks small m₄ s₃.label_after v₄ r₃.0
                (pd_index addr ∷ pdp_index addr ∷ pml4_index addr ∷ []) (pt_index addr) w
                s₃.labelled last (root m) [] (pml4_index other)
                (pdp_index other ∷ pd_index other ∷ pt_index other ∷ []) top_kept refl user'
                (λ eq. apart (
                  reversed (pml4_index addr) (pdp_index addr) (pd_index addr) (pt_index addr)
                    (pml4_index other) (pdp_index other) (pd_index other) (pt_index other) eq))
            ∙ walk_frames r₃.1 fs (root m) (indices other)
            ∙ all-Grown.walks (root m) [] (pml4_index other)
                (pdp_index other ∷ pd_index other ∷ pt_index other ∷ []) v.top refl user';
      }
