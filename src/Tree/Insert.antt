-- ===== src/Tree/Insert.antt =====
-- What `tree_insert_child` does to the values in the tree.
use night_os.Base.{
  ℕ, ◌≡◌, ◌≢◌, refl, sym, ap, ap₂, ◌∙◌, Option, none, some, [], ◌∷◌, ◌++◌, arith, ◌⊎◌, inl, inr,
  Option-cases, Bool-cases, ==_iff, ◌==◌,
}
use mathlib.Core.Path.{subst}
use night_os.Tree.{
  Node, node, Children, leaf, Position, value_of, children_of, nth, node_at, value_at, count,
  append, update, insert_at, insert_child, siblings, Tree,
}
use night_os.Tree.Siblings.{
  nth-count, nth-append_new, nth-append_old, nth-update_same, nth-update_other,
}

-- the value at a position below a node, if there is one
abbrev pub below : Option Node → Position → Option ℕ
below o p = elim o [ none ↦ none | some n ↦ value_at p n ]

pub value_at-below :
    (j : ℕ) → (p : Position) → (n : Node) → value_at (j ∷ p) n ≡ below (nth j (children_of n)) p
unfolding value_at node_at
value_at-below j p n = refl

-- the values are those of before, and one more at a position that had none
unfoldable pub Added : Position → ℕ → Node → Node → Type 0
Added new value n m =
    (value_at new n ≡ none)
    × (value_at new m ≡ some value)
    × ((p : Position) → p ≢ new → value_at p m ≡ value_at p n)

-- the values below a node, where its children changed from one list to the other
below_children :
    (j : ℕ)
    → (p : Position) → (n : Node) → (cs : Children) → nth j cs ≡ nth j (children_of n)
    → value_at (j ∷ p) (node (value_of n) cs) ≡ value_at (j ∷ p) n
below_children j p n cs e =
    value_at-below j p (node (value_of n) cs) ∙ ap (λ o. below o p) e ∙ sym (value_at-below j p n)

equal_or_not : (a b : ℕ) → (a ≡ b) ⊎ (a ≢ b)
equal_or_not a b = elim (Bool-cases (a == b)) [
  | inl e ↦ inl ((==_iff a b).0 e)
  | inr e ↦ inr (λ q. cc ((==_iff a b).1 q, e))
]

-- there is nothing below the new child, and there was nothing at its place
add_here-below :
    (value : ℕ)
    → (n : Node) → (j : ℕ) → (p : Position) → j ≡ count (children_of n)
    → p ≢ []
    → value_at (j ∷ p) (node (value_of n) (append (children_of n) (node value leaf)))
      ≡ value_at (j ∷ p) n
add_here-below value n j [] e ne = elim (ne refl) [ ]
add_here-below value n j (k ∷ p) e ne =
    value_at-below j (k ∷ p) (node (value_of n) (append (children_of n) (node value leaf)))
    ∙ ap (λ i. below (nth i (append (children_of n) (node value leaf))) (k ∷ p)) e
    ∙ ap (λ o. below o (k ∷ p)) (nth-append_new (children_of n) (node value leaf))
    ∙ value_at-below k p (node value leaf)
    ∙ sym (ap (λ o. below o (k ∷ p)) (nth-count (children_of n)))
    ∙ sym (ap (λ i. below (nth i (children_of n)) (k ∷ p)) e)
    ∙ sym (value_at-below j (k ∷ p) n)

add_here-old :
    (value : ℕ)
    → (n : Node) → (p : Position) → p ≢ count (children_of n) ∷ []
    → value_at p (node (value_of n) (append (children_of n) (node value leaf))) ≡ value_at p n
unfolding value_at node_at
add_here-old value n [] ne = refl
add_here-old value n (j ∷ p) ne = elim (equal_or_not j (count (children_of n))) [
  | inl e ↦ add_here-below value n j p e (λ q. ne (ap₂ (λ a r. a ∷ r) e q))
  | inr d ↦
      below_children j p n (append (children_of n) (node value leaf))
        (nth-append_old j (children_of n) (node value leaf) d)
]

add_here :
    (value : ℕ) → (n : Node) → Added (count (children_of n) ∷ []) value n (insert_at [] value n)
unfolding Added insert_at value_at node_at
add_here value n = (
  value_at-below (count (children_of n)) [] n ∙ ap (λ o. below o []) (nth-count (children_of n)),
  value_at-below (count (children_of n)) []
        (node (value_of n) (append (children_of n) (node value leaf)))
      ∙ ap (λ o. below o []) (nth-append_new (children_of n) (node value leaf))
      ∙ refl,
  add_here-old value n,
)

add_there-old :
    (i : ℕ)
    → (new : Position) → (value : ℕ) → (n c : Node) → (f : Node → Node)
    → nth i (children_of n) ≡ some c
    → ((p : Position) → p ≢ new → value_at p (f c) ≡ value_at p c)
    → (p : Position) → p ≢ i ∷ new
    → value_at p (node (value_of n) (update i f (children_of n))) ≡ value_at p n
unfolding value_at node_at
add_there-old i new value n c f e old [] ne = refl
add_there-old i new value n c f e old (j ∷ p) ne = elim (equal_or_not j i) [
  | inl q ↦
      value_at-below j p (node (value_of n) (update i f (children_of n)))
      ∙ ap (λ k. below (nth k (update i f (children_of n))) p) q
      ∙ ap (λ o. below o p) (nth-update_same i f (children_of n) c e)
      ∙ old p (λ r. ne (ap₂ (λ a t. a ∷ t) q r))
      ∙ sym (ap (λ o. below o p) e)
      ∙ sym (ap (λ k. below (nth k (children_of n)) p) q)
      ∙ sym (value_at-below j p n)
  | inr d ↦
      below_children j p n (update i f (children_of n)) (nth-update_other j i f (children_of n) d)
]

add_there :
    (i : ℕ)
    → (new p : Position) → (value : ℕ) → (n c : Node) → nth i (children_of n) ≡ some c
    → Added new value c (insert_at p value c)
    → Added (i ∷ new) value n (insert_at (i ∷ p) value n)
unfolding Added insert_at
add_there i new p value n c e (fresh, now, old) = (
  value_at-below i new n ∙ ap (λ o. below o new) e ∙ fresh,
  value_at-below i new (node (value_of n) (update i (insert_at p value) (children_of n)))
      ∙ ap (λ o. below o new) (nth-update_same i (insert_at p value) (children_of n) c e)
      ∙ now,
  add_there-old i new value n c (insert_at p value) e old,
)

abbrev from_child : Option Node → Position → Option Node
from_child o p = elim o [ none ↦ none | some c ↦ node_at p c ]

node_at-child :
    (i : ℕ) → (p : Position) → (n : Node) → node_at (i ∷ p) n ≡ from_child (nth i (children_of n)) p
unfolding node_at
node_at-child i p n = refl

-- the new node of `insert_at`
pub insert_at-Added :
    (p : Position)
    → (value : ℕ) → (n m : Node) → node_at p n ≡ some m
    → Added (p ++ count (children_of m) ∷ []) value n (insert_at p value n)
unfolding node_at
insert_at-Added [] value n m e =
    subst (λ k. Added (count (children_of k) ∷ []) value n (insert_at [] value n)) {x = n} {y = m}
      (cc e) (add_here value n)
insert_at-Added (i ∷ p) value n m e = elim (Option-cases (nth i (children_of n))) [
  | inl q ↦ grind (arith, e, node_at-child i p n ∙ ap (λ o. from_child o p) q)
  | inr (c, q) ↦
      add_there i (p ++ count (children_of m) ∷ []) p value n c q
        (insert_at-Added p value c m (sym (node_at-child i p n ∙ ap (λ o. from_child o p) q) ∙ e))
]

-- a call that gives the position and the tree has added the value to the tree of before
unfoldable pub AddedTo : Node → ℕ → Position × Tree → Type 0
AddedTo n value (new, t) = (root : Node) × (t.head ≡ some root) × Added new value n root

pub siblings-count :
    (p : Position) → (n m : Node) → node_at p n ≡ some m → siblings p n ≡ count (children_of m)
siblings-count p n m e = ap (λ o. elim o [ none ↦ 0 | some k ↦ count (children_of k) ]) e

added_at :
    (o : Option Node)
    → (h : ℕ) → (p : Position) → (value : ℕ) → (n m : Node) → o ≡ some n
    → node_at p n ≡ some m
    → AddedTo n value (insert_child (some p) value (record { head = o; height = h }))
unfolding AddedTo insert_child
added_at none h p value n m q e = grind (arith, q)
added_at (some k) h p value n m q e = (
  insert_at p value k,
  refl,
  subst (λ i. Added (p ++ siblings p k ∷ []) value i (insert_at p value k)) {x = k} {y = n} (cc q)
      (subst (λ i. Added (p ++ i ∷ []) value k (insert_at p value k))
        (sym (siblings-count p k m (cc (q, e)))) (insert_at-Added p value k m (cc (q, e)))),
)

-- `tree_insert_child` under a node of the tree returns a position where nothing was, puts the value
-- there, and leaves the value at every other position.
pub insert_child-AddedTo :
    (p : Position)
    → (value : ℕ) → (t : Tree) → (n m : Node) → t.head ≡ some n
    → node_at p n ≡ some m
    → AddedTo n value (insert_child (some p) value t)
insert_child-AddedTo p value t n m = added_at t.head t.height p value n m
