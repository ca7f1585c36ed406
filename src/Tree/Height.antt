-- ===== src/Tree/Height.antt =====
-- The height that the tree keeps, against the depth of its nodes.
use night_os.Base.{
  ℕ, zero, suc, ◌+◌, ◌≡◌, ◌≢◌, ◌≤◌, refl, sym, ap, ◌∙◌, Option, none, some, [], ◌∷◌, ◌++◌, length,
  ◌⊎◌, inl, inr, arith, ltb, if◌then◌else◌,
}
use night_os.Tree.{
  Node, node, Children, leaf, child, Position, children_of, count, nth, node_at, value_at,
  insert_at, Tree, create, set_root_node, insert_child, remove, remeasure, remove_at, parent,
  last_of, calculate_height, calculate_heights,
}
use night_os.Tree.Insert.{below, Added, insert_at-Added}

-- every node is at most so many edges below the root
abbrev pub DepthWithin : ℕ → Node → Type 0
DepthWithin h n = (p : Position) → (v : ℕ) → value_at p n ≡ some v → length p ≤ h

-- the height after `tree_calculate_height` is no less than it was, and than that of any node
abbrev Covers : Node → ℕ → ℕ → ℕ → Type 0
Covers n h t r = (t ≤ r) × ((p : Position) → (v : ℕ) → value_at p n ≡ some v → h + length p ≤ r)

abbrev CoversAll : Children → ℕ → ℕ → ℕ → Type 0
CoversAll cs h t r =
    (t ≤ r) × ((k : ℕ) → (p : Position) → (v : ℕ) → below (nth k cs) p ≡ some v → h + length p ≤ r)

raise : (h r : ℕ) → (r ≤ (if ltb r h then h else r)) × (h ≤ (if ltb r h then h else r))
raise h r = ground arith

from_children :
    (v : ℕ)
    → (cs : Children) → (h t r : ℕ) → CoversAll cs (h + 1) t r
    → (p : Position) → (w : ℕ) → value_at p (node v cs) ≡ some w
    → h + length p ≤ (if ltb r h then h else r)
unfolding value_at
from_children v cs h t r (a, f) [] w e = omega (arith, raise h r)
from_children v cs h t r (a, f) (k ∷ p) w e = omega (arith, raise h r, f k p w e)

at_child :
    (n : Node)
    → (cs : Children) → (h t r : ℕ) → (s : ℕ) → Covers n h t s
    → CoversAll cs h s r
    → CoversAll (child n cs) h t r
at_child n cs h t r s (a, f) (b, g) = (omega arith, go)
  where
    go :
        (k : ℕ)
        → (p : Position) → (v : ℕ) → below (nth k (child n cs)) p ≡ some v
        → h + length p ≤ r
    go zero p v e = omega (arith, f p v e)
    go (suc k) p v e = g k p v e

mutual
  unfolding calculate_height

  calculate_height-Covers' : (n : Node) → (h t : ℕ) → Covers n h t (calculate_height n h t)
  calculate_height-Covers' (node v cs) h t =
      let all = calculate_heights-CoversAll cs (h + 1) t in
      (
        omega (arith, raise h (calculate_heights cs (h + 1) t), all.0),
        from_children v cs h t (calculate_heights cs (h + 1) t) all,
      )

  calculate_heights-CoversAll :
      (cs : Children) → (h t : ℕ) → CoversAll cs h t (calculate_heights cs h t)
  calculate_heights-CoversAll leaf h t = (omega arith, λ k p v e. grind arith)
  calculate_heights-CoversAll (child n cs) h t =
      at_child n cs h t (calculate_heights cs h (calculate_height n h t)) (calculate_height n h t)
        (calculate_height-Covers' n h t) (calculate_heights-CoversAll cs h (calculate_height n h t))

-- the height is 0 without a root, and else at most one short of the depth of the deepest node
unfoldable pub IsBounded : Tree → Type 0
IsBounded t = elim t.head [ none ↦ t.height ≡ 0 | some n ↦ DepthWithin (t.height + 1) n ]

-- one call: of `tree_insert_child` with NULL, on a tree without a root, or with a node of the tree,
-- or of `tree_remove`
pub data Step : Tree → Tree → Type 0 where
  replaced : (v : ℕ) → (t : Tree) → Step t (insert_child none v t).1
  first :
      (p : Position) → (v : ℕ) → (t : Tree) → t.head ≡ none → Step t (insert_child (some p) v t).1
  inserted :
      (p : Position)
      → (v : ℕ) → (t : Tree) → (n m : Node) → t.head ≡ some n
      → node_at p n ≡ some m
      → Step t (insert_child (some p) v t).1
  removed : (p : Position) → (t : Tree) → Step t (remove p t)

pub data Reach : Tree → Type 0 where
  created : Reach create
  next : (t u : Tree) → Reach t → Step t u → Reach u

set_root_node-IsBounded : (n : Node) → (t : Tree) → IsBounded (set_root_node n t)
unfolding IsBounded
set_root_node-IsBounded n t =
    λ p v e. omega (arith, (calculate_height-Covers' n 1 t.height).1 p v e)

remeasure-IsBounded : (n : Node) → (t : Tree) → IsBounded (remeasure n t)
unfolding IsBounded
remeasure-IsBounded n t = λ p v e. omega (arith, (calculate_height-Covers' n 0 t.height).1 p v e)

length-snoc : (p : Position) → (i : ℕ) → length (p ++ i ∷ []) ≡ length p + 1
length-snoc [] i = refl
length-snoc (j ∷ p) i = omega (arith, length-snoc p i)

le_or_lt : (a b : ℕ) → (a ≤ b) ⊎ (b + 1 ≤ a)
le_or_lt a b = ground arith

old_value :
    (p : Position)
    → (v : ℕ) → (n m k : Node) → Added (p ++ count (children_of m) ∷ []) v n k
    → (q : Position) → q ≢ p ++ count (children_of m) ∷ []
    → value_at q k ≡ value_at q n
unfolding Added
old_value p v n m k (a, b, c) q ne = c q ne

insert_at-DepthWithin :
    (p : Position)
    → (v h : ℕ) → (n m : Node) → node_at p n ≡ some m
    → DepthWithin (h + 1) n
    → DepthWithin ((if ltb h (length p) then length p else h) + 1) (insert_at p v n)
insert_at-DepthWithin p v h n m e d q w f =
    let added = insert_at-Added p v n m e in
    elim (le_or_lt (length q) (length p + 1)) [
      | inl l ↦ omega (arith, raise (length p) h, l)
      | inr g ↦ omega (
        arith,
        raise (length p) h,
        d q w (
            sym (
              old_value p v n m (insert_at p v n) added q
                (λ r. omega (arith, g, ap length r, length-snoc p (count (children_of m)))))
            ∙ f),
      )
    ]

insert_child-IsBounded :
    (o : Option Node)
    → (h : ℕ) → (p : Position) → (v : ℕ)
    → ((n : Node) → o ≡ some n → (m : Node) × (node_at p n ≡ some m))
    → IsBounded (record { head = o; height = h })
    → IsBounded (insert_child (some p) v (record { head = o; height = h })).1
unfolding insert_child IsBounded
insert_child-IsBounded none h p v known b =
    set_root_node-IsBounded (node v leaf) (record { head = none; height = h })
insert_child-IsBounded (some n) h p v known b =
    insert_at-DepthWithin p v h n (known n refl).0 (known n refl).1 b

remove-IsBounded :
    (o : Option Node)
    → (h i : ℕ) → (p : Position) → IsBounded (record { head = o; height = h })
    → IsBounded (remove (i ∷ p) (record { head = o; height = h }))
unfolding remove
remove-IsBounded none h i p b = b
remove-IsBounded (some n) h i p b =
    remeasure-IsBounded (remove_at (parent i p) (last_of i p) n)
      (record { head = some n; height = h })

Step-IsBounded : (t u : Tree) → Step t u → IsBounded t → IsBounded u
unfolding insert_child remove IsBounded
Step-IsBounded _ _ (replaced v t) b = set_root_node-IsBounded (node v leaf) t
Step-IsBounded _ _ (first p v t e) b =
    insert_child-IsBounded t.head t.height p v (λ n q. grind arith) b
Step-IsBounded _ _ (inserted p v t n m e f) b =
    insert_child-IsBounded t.head t.height p v (λ k q. (m, cc (e, f, q))) b
Step-IsBounded _ _ (removed [] t) b = refl
Step-IsBounded _ _ (removed (i ∷ p) t) b = remove-IsBounded t.head t.height i p b

-- In every tree that calls of `tree_insert_child` and `tree_remove` make of an empty one, the
-- height is at least the depth of the deepest node less 1, and 0 where there is no root.
pub Reach-IsBounded : (t : Tree) → Reach t → IsBounded t
unfolding IsBounded
Reach-IsBounded _ created = refl
Reach-IsBounded _ (next t u r s) = Step-IsBounded t u s (Reach-IsBounded t r)
