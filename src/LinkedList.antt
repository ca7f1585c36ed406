-- ===== src/LinkedList.antt =====
-- libc/kernel/list.c: the doubly linked list. An entry is known by its address; a cell is none where
-- there is no entry, or where it was freed, and an access to it is a fault. A value is a number.
pub mod Chain
pub mod Delete
pub mod Insert
pub mod Remove
pub mod Find
pub mod Refine
mod Tests
use night_os.Base.{
  ℕ, zero, suc, ◌+◌, ◌-◌, ◌%◌, ◌^◌, Bool, true, false, Option, none, some, List, [], ◌∷◌, ltb, ◌==◌,
  if◌then◌else◌, Run, ok, fault, out_of_fuel, ◌>>=◌, ◌>>◌,
}

-- `list_entry_t`
pub record Entry : Type 0 where
  pub prev : Option ℕ
  pub next : Option ℕ
  pub value : ℕ

abbrev pub Cells : Type 0
Cells = ℕ → Option Entry

-- `list_t`, with the memory of its entries
pub record LinkedList : Type 0 where
  pub head : Option ℕ
  pub tail : Option ℕ
  pub length : ℕ
  pub cells : Cells

abbrev pub write : Cells → ℕ → Option Entry → Cells
write c a e b = if b == a then e else c b

-- `list_create`
abbrev pub create : Cells → LinkedList
create c = record { head = none; tail = none; length = 0; cells = c }

-- the entry at an address
unfoldable pub load : ℕ → LinkedList → Run Entry
load a l = elim (l.cells a) [ none ↦ fault | some e ↦ ok e ]

-- `a->prev = p` and `a->next = p`
unfoldable pub store_prev : ℕ → Option ℕ → LinkedList → Run LinkedList
unfolding load
store_prev a p l = do
  e ← load a l
  ok (record l { cells = write l.cells a (some (record e { prev = p })) })

unfoldable pub store_next : ℕ → Option ℕ → LinkedList → Run LinkedList
unfolding load
store_next a p l = do
  e ← load a l
  ok (record l { cells = write l.cells a (some (record e { next = p })) })

-- the part of `list_append` for a list that is not empty
unfoldable pub append_behind : Option ℕ → ℕ → LinkedList → Run LinkedList
append_behind none a l = fault
append_behind (some t) a l = do
  l ← store_next t (some a) l
  l ← store_prev a (some t) l
  ok (record l { tail = some a; length = (l.length + 1) % 2 ^ 64 })

-- `list_append`
unfoldable pub append : ℕ → LinkedList → Run LinkedList
append a l =
    if l.length == 0
    then ok (record l { head = some a; tail = some a; length = 1 })
    else append_behind l.tail a l

-- `kcalloc` of an entry at the address `a`, and the value written to it
abbrev pub new_entry : ℕ → ℕ → LinkedList → LinkedList
new_entry a item l = record l {
  cells = write l.cells a (some (record { prev = none; next = none; value = item }));
}

-- `list_insert`, where the new entry is at `a`
unfoldable pub insert : ℕ → ℕ → LinkedList → Run LinkedList
insert a item l = append a (new_entry a item l)

-- the loop of `list_find`
unfoldable pub find_loop : ℕ → ℕ → Option ℕ → LinkedList → Run (Option ℕ)
unfolding load
find_loop zero item p l = out_of_fuel
find_loop (suc fuel) item none l = ok none
find_loop (suc fuel) item (some a) l = do
  e ← load a l
  elim (e.value == item) [ true ↦ ok (some a) | false ↦ find_loop fuel item e.next l ]

-- `list_find`
unfoldable pub find : ℕ → LinkedList → Run (Option ℕ)
find item l = if l.length == 0 then ok none else find_loop (suc l.length) item l.head l

-- the part of `list_delete` for the neighbours
unfoldable pub relink : Option ℕ → Option ℕ → LinkedList → Run LinkedList
relink (some p) (some n) l = do l ← store_prev n (some p) l; store_next p (some n) l
relink none (some n) l = store_prev n none l
relink (some p) none l = store_next p none l
relink none none l = ok l

abbrev pub is_at : Option ℕ → ℕ → Bool
is_at none a = false
is_at (some b) a = b == a

-- `list_delete`, where the memory that was freed is gone
unfoldable pub delete : ℕ → LinkedList → Run LinkedList
delete a l = do
  e ← load a l
  let l = record l { head = if is_at l.head a then e.next else l.head }
  let l = record l { tail = if is_at l.tail a then e.prev else l.tail }
  l ← relink e.prev e.next l
  ok (record l { cells = write l.cells a none; length = (l.length + 2 ^ 64 - 1) % 2 ^ 64 })

abbrev pub delete_at : Option ℕ → LinkedList → Run LinkedList
delete_at none l = fault
delete_at (some a) l = delete a l

-- the loop of `list_remove_by_index`, and the deletion behind it; the rounds are `index - i`
unfoldable pub remove_from : ℕ → Option ℕ → LinkedList → Run LinkedList
unfolding load
remove_from zero p l = delete_at p l
remove_from (suc rounds) none l = fault
remove_from (suc rounds) (some a) l = do
  e ← load a l
  elim e.next [ none ↦ ok l | some b ↦ remove_from rounds (some b) l ]

-- `list_remove_by_index`
unfoldable pub remove_by_index : ℕ → LinkedList → Run LinkedList
remove_by_index index l = if l.length == 0 then ok l else (do
  l ← if index == l.length then delete_at l.tail l else ok l
  if index == 0 then delete_at l.head l else remove_from (index - 1) l.head l)

-- `list_append_after`
unfoldable pub append_after : ℕ → ℕ → LinkedList → Run LinkedList
append_after before after l = do
  e ← load before l
  elim e.next [
    | none ↦ append after l
    | some n ↦ do
      l ← store_next after (some n) l
      l ← store_next before (some after) l
      l ← store_prev after (some before) l
      l ← store_prev n (some after) l
      ok (record l { length = (l.length + 1) % 2 ^ 64 })
  ]

-- `list_append_before`
unfoldable pub append_before : ℕ → ℕ → LinkedList → Run LinkedList
append_before after before l = do
  e ← load after l
  elim e.prev [
    | none ↦ do
      l ← store_prev after (some before) (record l { head = some before })
      l ← store_next before (some after) l
      ok (record l { length = (l.length + 1) % 2 ^ 64 })
    | some p ↦ do
      l ← store_prev before (some p) l
      l ← store_next before (some after) l
      l ← store_prev after (some before) l
      l ← store_next p (some before) l
      ok (record l { length = (l.length + 1) % 2 ^ 64 })
  ]

-- `list_insert_after` and `list_insert_before`, where the new entry is at `a`
unfoldable pub insert_after : ℕ → ℕ → ℕ → LinkedList → Run LinkedList
insert_after before a item l = append_after before a (new_entry a item l)

unfoldable pub insert_before : ℕ → ℕ → ℕ → LinkedList → Run LinkedList
insert_before after a item l = append_before after a (new_entry a item l)
