-- ===== src/Tree/Tests.antt =====
-- The theorems about trees at a concrete tree.
use night_os.Base.{◌≡◌, refl, none, some, [], ◌∷◌}
use night_os.Tree.{
  Node, node, leaf, child, node_at, find_child, insert_child, Tree, create, set_root_node, remove,
  calculate_height,
}
use night_os.Tree.Height.{
  IsBounded, Reach, created, next, replaced, inserted, removed, Reach-IsBounded,
}

-- 1 with the children 2 and 3, and 4 below 3
abbrev root : Node
root = node 1 (child (node 2 leaf) (child (node 3 (child (node 4 leaf) leaf)) leaf))

abbrev tree : Tree
tree = record { head = some root; height = 1 }

finds_four : find_child 4 root ≡ some (1 ∷ 0 ∷ [])
unfolding find_child
finds_four = refl

adds_under_three : (insert_child (some (1 ∷ [])) 5 tree).0 ≡ 1 ∷ 1 ∷ []
unfolding insert_child node_at
adds_under_three = refl

-- `tree_set_root_node` finds 3 where the calls of `tree_insert_child` left 1.
measures_three : (set_root_node root create).height ≡ 3
unfolding calculate_height
measures_three = refl

-- a root, a child, and the child removed
abbrev grown : Tree
grown = (insert_child (some []) 2 (insert_child none 1 create).1).1

grown-Reach : Reach (remove (0 ∷ []) grown)
unfolding insert_child node_at
grown-Reach =
    next grown (remove (0 ∷ []) grown)
      (next (insert_child none 1 create).1 grown
        (next create (insert_child none 1 create).1 created (replaced 1 create))
        (inserted [] 2 (insert_child none 1 create).1 (node 1 leaf) (node 1 leaf) refl refl))
      (removed (0 ∷ []) grown)

Reach-IsBounded_example : IsBounded (remove (0 ∷ []) grown)
Reach-IsBounded_example = Reach-IsBounded (remove (0 ∷ []) grown) grown-Reach
