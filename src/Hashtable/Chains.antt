-- ===== src/Hashtable/Chains.antt =====
-- One chain of the table as a partial map.
use night_os.Base.{
  ℕ, ◌≡◌, ◌≢◌, refl, ap, ◌∙◌, sym, Bool, true, [], ◌∷◌, ◌==◌, arith, if◌then◌else◌, Option, none,
  some,
}
use night_os.Str.{CString, IsString, strcmp}
use night_os.Str.Compare.{strcmp-zero_iff}
use night_os.Hashtable.{
  Chain, same_key, insert_chain, lookup_chain, delete_chain, remove_chain, count_matches, matches,
}

-- the value at a key
unfoldable pub find : CString → Chain → Option ℕ
find key [] = none
find key (e ∷ c) = if same_key e key then some e.value else find key c

-- The keys are strings, and no key comes twice.
abbrev pub IsChain : Chain → Type 0
IsChain [] = Unit {0}
IsChain (e ∷ c) = IsString e.key × (find e.key c ≡ none) × IsChain c

-- equality of two keys, as the code tests it
abbrev pub same : CString → CString → Bool
same k j = strcmp k j == 0

pub same_trans :
    (a b c : CString) → IsString a → IsString b → IsString c → same a b ≡ true → same a c ≡ same b c
same_trans a b c p q r h = ap (λ s. same s c) ((strcmp-zero_iff a b p q).0 h)

pub same_symm : (a b : CString) → IsString a → IsString b → same a b ≡ true → same b a ≡ true
same_symm a b p q h = (strcmp-zero_iff b a q p).1 (sym ((strcmp-zero_iff a b p q).0 h))

pub same_join :
    (a b c : CString)
    → IsString a
    → IsString b
    → IsString c
    → same a c ≡ true
    → same b c ≡ true
    → same a b ≡ true
same_join a b c p q r h g =
    (strcmp-zero_iff a b p q).1
      ((strcmp-zero_iff a c p r).0 h ∙ sym ((strcmp-zero_iff b c q r).0 g))

pub lookup_chain-find :
    (k : CString) (c : Chain) → lookup_chain k c ≡ (elim (find k c) [ none ↦ 0 | some v ↦ v ])
unfolding lookup_chain find
lookup_chain-find k [] = refl
lookup_chain-find k (e ∷ c) = ground (arith, lookup_chain-find k c)

module _ (k : CString) (kstr : IsString k) where
  find_congr : (j : CString) (c : Chain) → IsString j → same k j ≡ true → find k c ≡ find j c
  find_congr j c q h = ap (λ s. find s c) ((strcmp-zero_iff k j kstr q).0 h)

  pub find-insert_chain :
      (v : ℕ) (j : CString) (c : Chain)
      → IsString j
      → IsChain c
      → find j (insert_chain k v c) ≡ (if same k j then some v else find j c)
  unfolding insert_chain find same_key
  find-insert_chain v j [] q p = ground arith
  find-insert_chain v j (e ∷ c) q p = ground (
    arith,
    find-insert_chain v j c q p.2,
    same_trans e.key k j p.0 kstr q,
    same_join e.key k j p.0 kstr q,
  )

  pub insert_chain-IsChain : (v : ℕ) (c : Chain) → IsChain c → IsChain (insert_chain k v c)
  unfolding insert_chain find same_key
  insert_chain-IsChain v [] p = (kstr, refl, tt)
  insert_chain-IsChain v (e ∷ c) p = ground (
    arith,
    insert_chain-IsChain v c p.2,
    find-insert_chain v e.key c p.0 p.2,
    same_symm k e.key kstr p.0,
  )

  pub find-delete_chain :
      (j : CString) (c : Chain)
      → IsString j
      → IsChain c
      → find j (delete_chain k c) ≡ (if same k j then none else find j c)
  unfolding delete_chain find same_key
  find-delete_chain j [] q p = ground arith
  find-delete_chain j (e ∷ c) q p = ground (
    arith,
    find-delete_chain j c q p.2,
    same_trans e.key k j p.0 kstr q,
    same_join e.key k j p.0 kstr q,
    find_congr j c q,
    find_congr e.key c p.0,
    same_symm e.key k p.0 kstr,
  )

  pub delete_chain-IsChain : (c : Chain) → IsChain c → IsChain (delete_chain k c)
  unfolding delete_chain find same_key
  delete_chain-IsChain [] p = tt
  delete_chain-IsChain (e ∷ c) p = ground (
    arith,
    delete_chain-IsChain c p.2,
    find-delete_chain e.key c p.0 p.2,
    same_symm k e.key kstr p.0,
  )

  remove_chain_absent : (v : ℕ) (c : Chain) → find k c ≡ none → remove_chain k v c ≡ none
  unfolding remove_chain find same_key
  remove_chain_absent v [] h = refl
  remove_chain_absent v (e ∷ c) h = ground (arith, remove_chain_absent v c)

  pub remove_chain-delete_chain :
      (v : ℕ) (c : Chain)
      → IsChain c
      → find k c ≡ some v
      → remove_chain k v c ≡ some (delete_chain k c)
  unfolding remove_chain delete_chain find same_key
  remove_chain-delete_chain v [] p h = cc
  remove_chain-delete_chain v (e ∷ c) p h = ground (arith, remove_chain-delete_chain v c p.2)

  pub remove_chain_other :
      (v : ℕ) (c : Chain) → IsChain c → find k c ≢ some v → remove_chain k v c ≡ none
  unfolding remove_chain find same_key
  remove_chain_other v [] p h = refl
  remove_chain_other v (e ∷ c) p h = ground (
    arith,
    remove_chain_other v c p.2,
    remove_chain_absent v c,
    find_congr e.key c p.0,
    same_symm e.key k p.0 kstr,
  )

  pub matches_absent : (c : Chain) → find k c ≡ none → (matches k c ≡ []) × (count_matches k c ≡ 0)
  unfolding matches count_matches find same_key
  matches_absent [] h = (refl, refl)
  matches_absent (e ∷ c) h = ground (arith, matches_absent c)

  pub matches-find :
      (c : Chain)
      → IsChain c
      → (v : ℕ) → find k c ≡ some v
      → (matches k c ≡ v ∷ []) × (count_matches k c ≡ 1)
  unfolding matches count_matches find same_key
  matches-find [] p v h = cc
  matches-find (e ∷ c) p v h = ground (
    arith,
    matches-find c p.2 v,
    matches_absent c,
    find_congr e.key c p.0,
    same_symm e.key k p.0 kstr,
  )
