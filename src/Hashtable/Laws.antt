-- ===== src/Hashtable/Laws.antt =====
-- The table as a partial map from keys to values: each operation.
use night_os.Base.{
  ℕ, ◌≡◌, ◌≢◌, refl, true, false, [], ◌∷◌, arith, if◌then◌else◌, Option, none, some, Option-cases,
  inl, inr, ok, ◌>>=◌, Returns,
}
use night_os.Str.{CString, IsString}
use night_os.Hashtable.{
  Table, Chain, insert, insert_chain, lookup, delete, delete_chain, remove_by_key_and_value,
  get_all_values,
}
use night_os.Hashtable.Chains.{
  find, IsChain, same, lookup_chain-find, find-insert_chain, insert_chain-IsChain,
  find-delete_chain, delete_chain-IsChain, remove_chain-delete_chain, remove_chain_other,
  matches-find, matches_absent,
}
use night_os.Hashtable.Slots.{
  IsValid, chain_of, view, chain_of-IsChain, locate-slot, replaced, replaced-IsValid, view-replaced,
}

-- `t'` is valid, and as a map it is `t` with `r` at `k`.
abbrev pub Updates : Table → CString → Option ℕ → Table → Type 0
Updates t k r t' =
    IsValid t' × ((j : CString) → IsString j → view t' j ≡ (if same k j then r else view t j))

module _ {t : Table} (v : IsValid t) (k : CString) (kstr : IsString k) where
  replaced-Updates :
      (c' : Chain) (r : Option ℕ)
      → IsChain c'
      → ((j : CString) → IsString j → find j c' ≡ (if same k j then r else find j (chain_of t k)))
      → Updates t k r (replaced v k c')
  replaced-Updates c' r p h = (replaced-IsValid v k c' p, view-replaced v k c' r kstr h)

  -- `ht_insert` maps the key to the value, and leaves every other key.
  pub insert-Updates : (value : ℕ) → Returns (insert t k value) (Updates t k (some value))
  unfolding insert
  insert-Updates value =
      let c = chain_of t k in
      let p = chain_of-IsChain v k in
      (
        replaced v k (insert_chain k value c),
        rw (locate-slot v k),
        replaced-Updates (insert_chain k value c) (some value)
            (insert_chain-IsChain k kstr value c p) (λ j q. find-insert_chain k kstr value j c q p),
      )

  -- `ht_delete` takes the key out, and leaves every other key.
  pub delete-Updates : Returns (delete t k) (Updates t k none)
  unfolding delete
  delete-Updates =
      let c = chain_of t k in
      let p = chain_of-IsChain v k in
      (
        replaced v k (delete_chain k c),
        rw (locate-slot v k),
        replaced-Updates (delete_chain k c) none (delete_chain-IsChain k kstr c p)
            (λ j q. find-delete_chain k kstr j c q p),
      )

  -- `ht_lookup` returns the value of the key, `NULL` where there is none, and changes nothing.
  pub lookup-view : lookup t k ≡ ok (elim (view t k) [ none ↦ 0 | some x ↦ x ])
  unfolding lookup view
  lookup-view = rw (locate-slot v k, lookup_chain-find)

  -- `ht_remove_by_key_and_value` acts as `ht_delete` where the key has that value …
  pub remove_present :
      (value : ℕ)
      → view t k ≡ some value
      → Returns (remove_by_key_and_value t k value) λ r. (r.0 ≡ true) × Updates t k none r.1
  unfolding remove_by_key_and_value view
  remove_present value h =
      let c = chain_of t k in
      let p = chain_of-IsChain v k in
      (
        (true, replaced v k (delete_chain k c)),
        rw (locate-slot v k, ◌>>=◌, remove_chain-delete_chain k kstr value c p h),
        (
          refl,
          replaced-Updates (delete_chain k c) none (delete_chain-IsChain k kstr c p)
              (λ j q. find-delete_chain k kstr j c q p),
        ),
      )

  -- … and changes nothing where it has not.
  pub remove_absent :
      (value : ℕ) → view t k ≢ some value → remove_by_key_and_value t k value ≡ ok (false, t)
  unfolding remove_by_key_and_value view
  remove_absent value h = rw (
    locate-slot v k,
    ◌>>=◌,
    remove_chain_other k kstr value (chain_of t k) (chain_of-IsChain v k) h,
  )

  -- `ht_get_all_values` finds the one value that the key has.
  pub get_all_values-view :
      get_all_values true true t k ≡ ok (elim (view t k) [ none ↦ none | some x ↦ some (x ∷ []) ])
  unfolding get_all_values view
  get_all_values-view = elim (Option-cases (find k (chain_of t k))) [
    | inl e ↦ ground (arith, locate-slot v k, matches_absent k kstr (chain_of t k) e)
    | inr (x, e) ↦
        ground
          (arith, locate-slot v k, matches-find k kstr (chain_of t k) (chain_of-IsChain v k) x e)
  ]

-- The new table at any key, for the two operations that write.
module _ {t : Table} (v : IsValid t) (k j : CString) (kstr : IsString k) (jstr : IsString j) where
  -- `ht_insert` returns a valid table, in which the key has the value and every other key has what
  -- it had.
  pub view-insert :
      (value : ℕ)
      → Returns
          (insert t k value)
          λ t'. IsValid t' × (view t' j ≡ (if same k j then some value else view t j))
  view-insert value =
      let (t', run, (w, u)) = insert-Updates v k kstr value in (t', run, (w, u j jstr))

  -- `ht_delete` returns a valid table, in which the key has no value and every other key has what it
  -- had.
  pub view-delete :
      Returns (delete t k) λ t'. IsValid t' × (view t' j ≡ (if same k j then none else view t j))
  view-delete = let (t', run, (w, u)) = delete-Updates v k kstr in (t', run, (w, u j jstr))
