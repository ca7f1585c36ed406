-- ===== src/Hashtable.antt =====
-- libc/kernel/hashtable.c. A chain is the list of its entries, which only the table owns. A key is
-- a string, a value a pointer (`0` for `NULL`). Memory is given whenever it is asked for, but in
-- `ht_get_all_values`, which tests for it.
pub mod Chains
pub mod Slots
pub mod Laws
pub mod Refine
mod Tests
use night_os.Base.{
  ℕ, zero, suc, ◌+◌, ◌*◌, ◌%◌, ◌^◌, ◌<◌, ◌-◌, Bool, true, false, ◌&&◌, Option, none, some, List, [],
  ◌∷◌, length, get_elem?, set, take, replicate, ltb, ◌==◌, if◌then◌else◌, of_int, Run, ok, fault,
  ◌>>=◌,
}
use night_os.Str.{CString, strcmp, strlen}

-- a `char`, which is signed, as an `unsigned long`
abbrev pub of_char : ℕ → ℕ
of_char c = if ltb c 128 then c else c + (2 ^ 64 - 256)

-- the loop of `hash`
pub hash_loop : ℕ → CString → ℕ
hash_loop value [] = value
hash_loop value (c ∷ key) = hash_loop ((value * 37 + of_char c) % 2 ^ 64) key

-- the loop over the whole key, whose length `key_len` is an `unsigned int`
abbrev pub key_hash : CString → ℕ
key_hash key = hash_loop 0 (take (strlen key % 2 ^ 32) key)

-- `hash`
pub hash : CString → ℕ → Run ℕ
hash key table_size =
    if of_int table_size == 0 then fault else ok (key_hash key % of_int table_size % 2 ^ 32)

-- `struct ht_entry`
pub record Entry : Type 0 where
  pub key : CString
  pub value : ℕ

abbrev pub Chain : Type 0
Chain = List Entry

-- `struct hashtable`
pub record Table : Type 0 where
  pub size : ℕ
  pub entries : List Chain

-- `ht_create`
pub create : ℕ → Table
create size = record { size = size; entries = replicate (of_int size) [] }

-- `slot = hash(key, table->size)` with `table->entries[slot]`
pub locate : Table → CString → Run (ℕ × Chain)
locate t key = do
  slot ← hash key t.size
  elim (get_elem? t.entries slot) [ none ↦ fault | some c ↦ ok (slot, c) ]

pub same_key : Entry → CString → Bool
same_key e key = strcmp e.key key == 0

-- the walk of `ht_insert` to the key or to the end of the chain
pub insert_chain : CString → ℕ → Chain → Chain
insert_chain key value [] = record { key = key; value = value } ∷ []
insert_chain key value (e ∷ c) =
    if same_key e key then record e { value = value } ∷ c else e ∷ insert_chain key value c

-- `ht_insert`
pub insert : Table → CString → ℕ → Run Table
insert t key value = do
  (slot, c) ← locate t key
  ok (record t { entries = set t.entries slot (insert_chain key value c) })

pub lookup_chain : CString → Chain → ℕ
lookup_chain key [] = 0
lookup_chain key (e ∷ c) = if same_key e key then e.value else lookup_chain key c

-- `ht_lookup`
pub lookup : Table → CString → Run ℕ
lookup t key = do (slot, c) ← locate t key; ok (lookup_chain key c)

pub delete_chain : CString → Chain → Chain
delete_chain key [] = []
delete_chain key (e ∷ c) = if same_key e key then c else e ∷ delete_chain key c

-- `ht_delete`
pub delete : Table → CString → Run Table
delete t key = do
  (slot, c) ← locate t key
  ok (record t { entries = set t.entries slot (delete_chain key c) })

-- the walk of `ht_remove_by_key_and_value`: `none` where it finds no such entry
pub remove_chain : CString → ℕ → Chain → Option Chain
remove_chain key value [] = none
remove_chain key value (e ∷ c) =
    let later = remove_chain key value c in
    if same_key e key && (e.value == value)
    then some c
    else elim later [ none ↦ none | some c' ↦ some (e ∷ c') ]

-- `ht_remove_by_key_and_value`
pub remove_by_key_and_value : Table → CString → ℕ → Run (Bool × Table)
remove_by_key_and_value t key value = do
  (slot, c) ← locate t key
  elim (remove_chain key value c) [
    | none ↦ ok (false, t)
    | some c' ↦ ok (true, record t { entries = set t.entries slot c' })
  ]

-- the two walks of `ht_get_all_values`
pub count_matches : CString → Chain → ℕ
count_matches key [] = 0
count_matches key (e ∷ c) = (if same_key e key then 1 else 0) + count_matches key c

pub matches : CString → Chain → List ℕ
matches key [] = []
matches key (e ∷ c) = if same_key e key then e.value ∷ matches key c else matches key c

-- `ht_get_all_values`, told whether its two allocations succeed
pub get_all_values : Bool → Bool → Table → CString → Run (Option (List ℕ))
get_all_values given_list given_values t key = do
  (slot, c) ← locate t key
  if count_matches key c == 0
      then ok none
      else if given_list && given_values
      then ok (some (matches key c))
      else ok none
