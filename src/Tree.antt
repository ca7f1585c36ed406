-- ===== src/Tree.antt =====
-- libc/kernel/tree.c: the tree that the file system and the processes are kept in. A node is known by
-- its position, the numbers of the children on the way from the root; a value is a number.
pub mod Find
pub mod Siblings
pub mod Insert
pub mod Height
mod Tests
use night_os.Base.{
  ℕ, zero, suc, ◌+◌, Bool, true, false, Option, none, some, List, [], ◌∷◌, ◌++◌, length, ltb, ◌==◌,
  if◌then◌else◌,
}

-- `tree_node_t` with its children, which are a list of `list.c`
mutual
  pub data Node : Type 0 where
    node : ℕ → Children → Node

  pub data Children : Type 0 where
    leaf : Children
    child : Node → Children → Children

abbrev pub Position : Type 0
Position = List ℕ

abbrev pub value_of : Node → ℕ
value_of (node v cs) = v

abbrev pub children_of : Node → Children
children_of (node v cs) = cs

abbrev pub count : Children → ℕ
count leaf = 0
count (child n cs) = suc (count cs)

abbrev pub nth : ℕ → Children → Option Node
nth i leaf = none
nth zero (child n cs) = some n
nth (suc i) (child n cs) = nth i cs

-- the node at a position
unfoldable pub node_at : Position → Node → Option Node
node_at [] n = some n
node_at (i ∷ p) n = elim (nth i (children_of n)) [ none ↦ none | some c ↦ node_at p c ]

-- `tree_find_child`, from the node on
unfoldable mutual
  pub find_child : ℕ → Node → Option Position
  find_child value (node v cs) =
      let below = find_among value 0 cs in if v == value then some [] else below

  pub find_among : ℕ → ℕ → Children → Option Position
  find_among value i leaf = none
  find_among value i (child n cs) =
      let below = find_child value n in
      let later = find_among value (suc i) cs in
      if value_of n == value
      then some (i ∷ [])
      else (elim below [ some p ↦ some (i ∷ p) | none ↦ later ])

-- the value of the node at a position
unfoldable pub value_at : Position → Node → Option ℕ
value_at [] n = some (value_of n)
value_at (i ∷ p) n = elim (nth i (children_of n)) [ none ↦ none | some c ↦ value_at p c ]

-- `list_insert` on a list of children
abbrev pub append : Children → Node → Children
append leaf n = child n leaf
append (child m cs) n = child m (append cs n)

-- one child changed
abbrev pub update : ℕ → (Node → Node) → Children → Children
update i f leaf = leaf
update zero f (child n cs) = child (f n) cs
update (suc i) f (child n cs) = child n (update i f cs)

-- `list_delete` of one child
abbrev pub delete : ℕ → Children → Children
delete i leaf = leaf
delete zero (child n cs) = cs
delete (suc i) (child n cs) = child n (delete i cs)

-- a new node with the value, behind the children of the node at the position
unfoldable pub insert_at : Position → ℕ → Node → Node
insert_at [] value n = node (value_of n) (append (children_of n) (node value leaf))
insert_at (i ∷ p) value n = node (value_of n) (update i (insert_at p value) (children_of n))

-- child `i` of the node at the position taken away
unfoldable pub remove_at : Position → ℕ → Node → Node
remove_at [] i n = node (value_of n) (delete i (children_of n))
remove_at (j ∷ p) i n = node (value_of n) (update j (remove_at p i) (children_of n))

-- `tree_calculate_height`, with the height of the tree before and after
unfoldable mutual
  pub calculate_height : Node → ℕ → ℕ → ℕ
  calculate_height (node v cs) height tree =
      let tree = calculate_heights cs (height + 1) tree in if ltb tree height then height else tree

  pub calculate_heights : Children → ℕ → ℕ → ℕ
  calculate_heights leaf height tree = tree
  calculate_heights (child n cs) height tree =
      calculate_heights cs height (calculate_height n height tree)

-- `tree_t`
pub record Tree : Type 0 where
  pub head : Option Node
  pub height : ℕ

-- `tree_create`
abbrev pub create : Tree
create = record { head = none; height = 0 }

-- `tree_set_root_node`
abbrev pub set_root_node : Node → Tree → Tree
set_root_node n t = record { head = some n; height = calculate_height n 1 t.height }

-- how many children the node at a position has
abbrev pub siblings : Position → Node → ℕ
siblings p n = elim (node_at p n) [ none ↦ 0 | some m ↦ count (children_of m) ]

-- `tree_insert_child`, with the position of the new node; the node is none for NULL, and in the tree
unfoldable pub insert_child : Option Position → ℕ → Tree → Position × Tree
insert_child none value t = ([], set_root_node (node value leaf) t)
insert_child (some p) value t = elim t.head [
  | none ↦ ([], set_root_node (node value leaf) t)
  | some root ↦ (
    p ++ siblings p root ∷ [],
    record {
      head = some (insert_at p value root);
      height = if ltb t.height (length p) then length p else t.height;
    },
  )
]

-- the position of the parent, and the number of the child there
abbrev pub parent : ℕ → Position → Position
parent i [] = []
parent i (j ∷ p) = i ∷ parent j p

abbrev pub last_of : ℕ → Position → ℕ
last_of i [] = i
last_of i (j ∷ p) = last_of j p

-- the tree with another root, whose heights count from 0
abbrev pub remeasure : Node → Tree → Tree
remeasure root t = record { head = some root; height = calculate_height root 0 t.height }

-- `tree_remove` of the node at the position
unfoldable pub remove : Position → Tree → Tree
remove [] t = record { head = none; height = 0 }
remove (i ∷ p) t = elim t.head [
  | none ↦ t
  | some root ↦ remeasure (remove_at (parent i p) (last_of i p) root) t
]
