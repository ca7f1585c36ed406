-- ===== src/Hashtable/Slots.antt =====
-- The slot of a key, and a table with one chain replaced.
use night_os.Base.{
  ℕ, zero, suc, ◌%◌, ◌^◌, ◌≡◌, ◌<◌, refl, ap, ◌∙◌, sym, List, [], ◌∷◌, arith, if◌then◌else◌, Option,
  none, length, get_or, set, length-set, get_or-set_self, get_or-set_ne, get_elem?-eq-get_or,
  replicate, length-replicate, ok, of_int,
}
use native.Mathlib.Decide.{ℕ_discrete}
use night_os.Str.{CString, IsString}
use night_os.Str.Compare.{strcmp-zero_iff}
use night_os.Hashtable.{Table, Chain, key_hash, hash, create, locate}
use night_os.Hashtable.Chains.{find, IsChain, same}

abbrev pub AllChains : List Chain → Type 0
AllChains [] = Unit {0}
AllChains (c ∷ cs) = IsChain c × AllChains cs

pub record IsValid (t : Table) : Type 0 where
  pub positive : 0 < t.size
  pub small : t.size < 2 ^ 31
  pub counted : length t.entries ≡ t.size
  pub chains : AllChains t.entries

-- where a key belongs
abbrev pub slot : Table → CString → ℕ
slot t k = key_hash k % t.size

abbrev pub chain_of : Table → CString → Chain
chain_of t k = get_or t.entries (slot t k) []

-- the table as a map
unfoldable pub view : Table → CString → Option ℕ
view t k = find k (chain_of t k)

AllChains-get_or : (cs : List Chain) (i : ℕ) → AllChains cs → IsChain (get_or cs i [])
AllChains-get_or [] i h = tt
AllChains-get_or (c ∷ cs) zero h = h.0
AllChains-get_or (c ∷ cs) (suc i) h = AllChains-get_or cs i h.1

AllChains-set :
    (cs : List Chain) (i : ℕ) (c : Chain) → AllChains cs → IsChain c → AllChains (set cs i c)
AllChains-set [] i c h p = tt
AllChains-set (d ∷ cs) zero c h p = (p, h.1)
AllChains-set (d ∷ cs) (suc i) c h p = (h.0, AllChains-set cs i c h.1 p)

AllChains-replicate : (n : ℕ) → AllChains (replicate n [])
AllChains-replicate zero = tt
AllChains-replicate (suc n) = (tt, AllChains-replicate n)

get_or-replicate : (n i : ℕ) → get_or {A = Chain} (replicate n []) i [] ≡ []
get_or-replicate zero i = refl
get_or-replicate (suc n) zero = refl
get_or-replicate (suc n) (suc i) = get_or-replicate n i

module _ {t : Table} (v : IsValid t) (k : CString) where
  pub slot-lt : slot t k < length t.entries
  slot-lt = omega arith

  pub chain_of-IsChain : IsChain (chain_of t k)
  chain_of-IsChain = AllChains-get_or t.entries (slot t k) v.chains

  pub locate-slot : locate t k ≡ ok (slot t k, chain_of t k)
  unfolding locate hash
  locate-slot = ground (arith, get_elem?-eq-get_or t.entries (slot t k) [] slot-lt)

  -- `c'` put in the place of the chain of `k`
  abbrev pub replaced : Chain → Table
  replaced c' = record t { entries = set t.entries (slot t k) c' }

  pub replaced-IsValid : (c' : Chain) → IsChain c' → IsValid (replaced c')
  replaced-IsValid c' p = record {
    positive = v.positive;
    small = v.small;
    counted = length-set t.entries (slot t k) c' ∙ v.counted;
    chains = AllChains-set t.entries (slot t k) c' v.chains p;
  }

  pub view-replaced :
      (c' : Chain) (r : Option ℕ)
      → IsString k
      → ((j : CString) → IsString j → find j c' ≡ (if same k j then r else find j (chain_of t k)))
      → (j : CString) → IsString j
      → view (replaced c') j ≡ (if same k j then r else view t j)
  unfolding view
  view-replaced c' r kstr h j jstr = elim (ℕ_discrete (slot t k) (slot t j)) [
    | yes e ↦
        ap (find j) (
          ap (λ i. get_or (set t.entries (slot t k) c') i []) (sym e)
          ∙ get_or-set_self t.entries (slot t k) c' [] slot-lt)
        ∙ h j jstr
        ∙ ap (λ i. if same k j then r else find j (get_or t.entries i [])) e
    | no ne ↦
        ap (find j) (get_or-set_ne t.entries (slot t k) (slot t j) c' [] ne)
        ∙ ground (arith, (strcmp-zero_iff k j kstr jstr).0)
  ]

pub create-IsValid : (size : ℕ) → 0 < size → size < 2 ^ 31 → IsValid (create size)
unfolding create
create-IsValid size h k = record {
  positive = h;
  small = k;
  counted = ground (arith, length-replicate {A = Chain} size []);
  chains = AllChains-replicate (of_int size);
}

-- A new table holds nothing.
pub view-create : (size : ℕ) (k : CString) → view (create size) k ≡ none
unfolding view create find
view-create size k = rw (get_or-replicate (of_int size) (key_hash k % size))
