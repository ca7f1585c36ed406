-- ===== src/Paging/Lookup.antt =====
-- The walks that the functions make without creating tables, against the reference.
use Prim.Native.Nat.{bit_or}
use night_os.Base.{
  ℕ, ◌≡◌, ◌≢◌, refl, ap, ◌∙◌, sym, Bool, true, false, none, some, [], ◌∷◌, leb, if◌then◌else◌,
  arith, ok, ◌>>=◌, Run,
}
use native.Mathlib.Decide.{ℕ_discrete}
use night_os.Paging.{
  Machine, root, table_at, is_large, create_or_get_page, next_table, leaf, raw_table, raw_leaf,
  with_raw, with_table, create_or_get_raw, pml4_index, pdp_index, pd_index, pt_index,
}
use night_os.Paging.Tables.{Label, Inv, walk, walk_empty, walk_next, indices}

next_table_empty :
    (m : Machine) (f i flags : ℕ) → m.memory f i ≡ 0 → next_table false flags f i m ≡ ok (none, m)
unfolding next_table
next_table_empty m f i flags e = ground (arith, e)

next_table_found :
    (m : Machine) (f i flags : ℕ)
    → m.memory f i ≢ 0
    → next_table false flags f i m ≡ ok (some (table_at (m.memory f i)), m)
unfolding next_table
next_table_found m f i flags ne = ground (arith, ne)

leaf_read : (m : Machine) (f i flags : ℕ) → leaf false flags f i m ≡ ok (walk m f (i ∷ []), m)
unfolding leaf walk
leaf_read m f i flags = elim (ℕ_discrete (m.memory f i) 0) [
  | yes e ↦ ground (arith, e)
  | no ne ↦ ground (arith, ne)
]

-- Without leave to create, `memmgr_create_or_get_page` changes nothing and returns the page that the
-- tables lead to, or 0.
pub create_or_get_page-walk :
    (small : ℕ → Bool) (label : Label) (m : Machine) (addr flags : ℕ)
    → Inv small m label
    → small (pml4_index addr) ≡ true
    → create_or_get_page addr flags false m ≡ ok (walk m (root m) (indices addr), m)
unfolding create_or_get_page
create_or_get_page-walk small label m addr flags v user =
    let a = pml4_index addr in
    let b = pdp_index addr in
    let c = pd_index addr in
    let d = pt_index addr in
    elim (ℕ_discrete (m.memory (root m) a) 0) [
      | yes e ↦
          rw (next_table_empty m (root m) a flags e, ◌>>=◌)
            (ap (λ x. ok (x, m)) (sym (walk_empty m (root m) a b (c ∷ d ∷ []) e)))
      | no ne ↦
          let (_, at_1) = v.child (root m) [] a v.top (omega arith) user ne in
          let t₁ = table_at (m.memory (root m) a) in
          rw
            (
              next_table_found m (root m) a flags ne,
              ◌>>=◌,
              walk_next m (root m) a b (c ∷ d ∷ []) ne,
            )
            (elim (ℕ_discrete (m.memory t₁ b) 0) [
              | yes e ↦
                  rw (next_table_empty m t₁ b flags e, ◌>>=◌)
                    (ap (λ x. ok (x, m)) (sym (walk_empty m t₁ b c (d ∷ []) e)))
              | no ne₁ ↦
                  let (large, at_2) = v.child t₁ (a ∷ []) b at_1 (omega arith) tt ne₁ in
                  let t₂ = table_at (m.memory t₁ b) in
                  rw
                    (
                      next_table_found m t₁ b flags ne₁,
                      ◌>>=◌,
                      walk_next m t₁ b c (d ∷ []) ne₁,
                      large,
                    )
                    (elim (ℕ_discrete (m.memory t₂ c) 0) [
                      | yes e ↦
                          rw (next_table_empty m t₂ c flags e, ◌>>=◌)
                            (ap (λ x. ok (x, m)) (sym (walk_empty m t₂ c d [] e)))
                      | no ne₂ ↦
                          let (large₂, at_3) =
                            v.child t₂ (b ∷ a ∷ []) c at_2 (omega arith) tt ne₂ in
                          rw
                            (
                              next_table_found m t₂ c flags ne₂,
                              ◌>>=◌,
                              walk_next m t₂ c d [] ne₂,
                              large₂,
                            )
                            (leaf_read m (table_at (m.memory t₂ c)) d flags)
                    ])
            ])
    ]

raw_table_same :
    (m : Machine) (deeper : Bool) (word : ℕ → ℕ) (flags flags' frame f i : ℕ)
    → (raw_next page_next : ℕ → Machine → Run (ℕ × Machine))
    → ((t : ℕ) → raw_next t m ≡ page_next t m)
    → (do r ← raw_table false deeper word flags frame f i m; with_raw r raw_next)
      ≡ (do r ← next_table false flags' f i m; with_table r page_next)
unfolding raw_table next_table
raw_table_same m deeper word flags flags' frame f i raw_next page_next same =
    let next = same (table_at (m.memory f i)) in
    elim (ℕ_discrete (m.memory f i) 0) [
      | yes e ↦ ground (arith, e)
      | no ne ↦ ground (arith, ne, next)
    ]

raw_leaf_same :
    (m : Machine) (flags flags' frame f i : ℕ)
    → raw_leaf false flags frame f i m ≡ leaf false flags' f i m
unfolding raw_leaf leaf
raw_leaf_same m flags flags' frame f i = refl

-- Without leave to create, `memmgr_create_or_get_raw` finds the page that `memmgr_create_or_get_page`
-- finds.
pub create_or_get_raw-walk :
    (small : ℕ → Bool) (label : Label) (m : Machine) (addr frame flags level : ℕ)
    → Inv small m label
    → small (pml4_index addr) ≡ true
    → create_or_get_raw addr frame flags false level m ≡ ok (walk m (root m) (indices addr), m)
unfolding create_or_get_raw create_or_get_page
create_or_get_raw-walk small label m addr frame flags level v user =
    same ∙ create_or_get_page-walk small label m addr flags v user
  where
    same : create_or_get_raw addr frame flags false level m ≡ create_or_get_page addr flags false m
    same =
        let word = λ (a : ℕ). bit_or (bit_or (bit_or a 1) 2) flags in
        raw_table_same m (leb level 3) (λ a. bit_or a flags) flags flags frame (root m)
          (pml4_index addr) _ _
          λ pdp.
            raw_table_same m (leb level 2) word flags flags frame pdp (pdp_index addr) _ _ λ pd.
              ap
                (λ (run : Run (ℕ × Machine)).
                  if is_large (m.memory pdp (pdp_index addr)) then ok (0, m) else run)
                (raw_table_same m (leb level 1) word flags flags frame pd (pd_index addr) _ _ λ pt.
                  ap
                    (λ (run : Run (ℕ × Machine)).
                      if is_large (m.memory pd (pd_index addr)) then ok (0, m) else run)
                    (raw_leaf_same m flags flags frame pt (pt_index addr)))
