-- ===== src/Paging/Descend.antt =====
-- What `next_table` does: it creates a table, finds one, or reports that there is none.
use Prim.Native.Nat.{bit_or}
use night_os.Base.{
  ℕ, suc, ◌*◌, ◌^◌, ◌<◌, ◌≡◌, ◌≢◌, refl, ap, ◌∙◌, sym, Bool, true, some, List, ◌∷◌, length, arith,
  ok, Returns,
}
use native.Mathlib.Decide.{ℕ_discrete}
use night_os.Paging.{Machine, table_at, frame_at, kernel_memory, alloc, next_table, map_table}
use night_os.Paging.Words.{entry_for, frame_at-kernel, table_at-entry_for, entry_for-ne_zero}
use night_os.Paging.Tables.{Label, Slot, Inv, Grants, Grants-less, Fresh-of}
use night_os.Paging.Grow.{Grown, Grown-refl, after, after-Grown, label', new_label, unlabelled}

-- The table below slot `i` of the table `f`, after it was created or found.
pub record Stepped (small : ℕ → Bool) (m : Machine) (label : Label) (f : ℕ) (q : List ℕ) (i n : ℕ)
    (r : ℕ × Machine) : Type 0 where
  pub label_after : Label
  pub grown : Grown small m label r.1 label_after
  pub labelled : label_after r.0 ≡ some (i ∷ q)
  pub entry : r.1.memory f i ≢ 0
  pub leads : table_at (r.1.memory f i) ≡ r.0
  pub grants : Grants n r.1.frames

module _ (small : ℕ → Bool) (m : Machine) (label : Label) (v : Inv small m label) (f : ℕ)
    (q : List ℕ) (i flags n : ℕ) (at_f : label f ≡ some q) (deep : length q < 3)
    (slot : Slot small q i) (small_flags : flags < 2 ^ 7) (g : Grants (suc n) m.frames) where
  -- The call returns a table.
  abbrev NextTable : Type 0
  NextTable =
      (r : ℕ × Machine) × (next_table true flags f i m ≡ ok (some r.0, r.1))
      × Stepped small m label f q i n r

  found_table : m.memory f i ≢ 0 → NextTable
  unfolding next_table
  found_table ne = (
    (table_at (m.memory f i), m),
    ground (arith, ne),
    record {
      label_after = label;
      grown = Grown-refl v;
      labelled = (v.child f q i at_f deep slot ne).1;
      entry = ne;
      leads = refl;
      grants = Grants-less n m.frames g;
    },
  )

  new_table : m.memory f i ≡ 0 → NextTable
  unfolding next_table alloc
  new_table empty =
      let fresh = Fresh-of n v.frames g in
      let t = fresh.frame in
      let there : frame_at (bit_or (t * 2 ^ 12) kernel_memory) ≡ t =
        frame_at-kernel t (omega (arith, fresh.bound)) in
      let m' = after small m label v f q i flags n at_f deep slot empty small_flags fresh in
      let grown =
        after-Grown small m label v f q i flags n at_f deep slot empty small_flags fresh in
      let ne : f ≢ t =
        unlabelled small m label v f q i flags n at_f deep slot empty small_flags fresh f q at_f in
      let w : m'.memory f i ≡ entry_for t flags = ground (arith, ne) in
      (
        (t, m'),
        ground (arith, empty, fresh.run, there),
        record {
          label_after = label' small m label v f q i flags n at_f deep slot empty small_flags fresh;
          grown = grown;
          labelled = new_label small m label v f q i flags n at_f deep slot empty small_flags fresh;
          entry = λ z. entry_for-ne_zero t flags (sym w ∙ z);
          leads =
              ap table_at w ∙ table_at-entry_for t flags (omega (arith, fresh.bound)) (omega arith);
          grants = fresh.more;
        },
      )

  pub next_table-Stepped : NextTable
  next_table-Stepped = elim (ℕ_discrete (m.memory f i) 0) [
    | yes empty ↦ new_table empty
    | no ne ↦ found_table ne
  ]

  pub map_table-Stepped : Returns (map_table flags f i m) (Stepped small m label f q i n)
  unfolding map_table
  map_table-Stepped = let (r, run, s) = next_table-Stepped in (r, ground (arith, run), s)
