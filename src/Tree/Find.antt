-- ===== src/Tree/Find.antt =====
-- What `tree_find_child` finds.
use night_os.Base.{
  ℕ, zero, suc, ◌+◌, ◌≡◌, ◌≢◌, refl, Bool, true, false, Option, none, some, [], ◌∷◌, ◌==◌,
  if◌then◌else◌, arith, ==_iff,
}
use mathlib.Core.Path.{subst}
use night_os.Tree.{
  Node, node, Children, leaf, child, Position, value_of, node_at, find_child, find_among,
}

-- there is a node, and it holds the value
unfoldable pub Carries : ℕ → Option Node → Type 0
Carries value none = ⊥
Carries value (some n) = value_of n ≡ value

-- the position of a node that holds the value, or none where no node below holds it
unfoldable pub Finds : ℕ → Node → Option Position → Type 0
Finds value n (some p) = Carries value (node_at p n)
Finds value n none = (p : Position) → Carries value (node_at p n) → ⊥

-- the same for the nodes below some children that are counted from `i` on
unfoldable FindsAmong : ℕ → ℕ → Children → Option Position → Type 0
FindsAmong value i cs (some []) = ⊥
FindsAmong value i cs (some (j ∷ p)) =
    (k : ℕ) × (j ≡ i + k) × Carries value (node_at (k ∷ p) (node 0 cs))
FindsAmong value i cs none =
    (k : ℕ) → (p : Position) → Carries value (node_at (k ∷ p) (node 0 cs)) → ⊥

by_test :
    (P : Option Position → Type 0)
    → (b : Bool) → {x y : Option Position} → (b ≡ true → P x)
    → (b ≡ false → P y)
    → P (if b then x else y)
by_test P true f g = f refl
by_test P false f g = g refl

root_or_below :
    (value v : ℕ)
    → (cs : Children) → v ≢ value
    → ((k : ℕ) → (p : Position) → Carries value (node_at (k ∷ p) (node 0 cs)) → ⊥)
    → (p : Position) → Carries value (node_at p (node v cs))
    → ⊥
unfolding Carries node_at
root_or_below value v cs n f [] h = n h
root_or_below value v cs n f (k ∷ p) h = f k p h

-- below a node that does not hold the value
below_root :
    (value v : ℕ)
    → (cs : Children) → (r : Option Position) → v ≢ value
    → FindsAmong value 0 cs r
    → Finds value (node v cs) r
unfolding Finds FindsAmong Carries node_at
below_root value v cs (some []) n f = elim f [ ]
below_root value v cs (some (j ∷ p)) n (k, e, h) =
    subst (λ i. Carries value (node_at (i ∷ p) (node 0 cs))) (omega arith) h
below_root value v cs none n f = λ q. root_or_below value v cs n f q

first_or_later :
    (value : ℕ)
    → (n : Node) → (cs : Children) → ((p : Position) → Carries value (node_at p n) → ⊥)
    → ((k : ℕ) → (p : Position) → Carries value (node_at (k ∷ p) (node 0 cs)) → ⊥)
    → (k : ℕ) → (p : Position) → Carries value (node_at (k ∷ p) (node 0 (child n cs)))
    → ⊥
unfolding Carries node_at
first_or_later value n cs f g zero p h = f p h
first_or_later value n cs f g (suc k) p h = g k p h

-- below a child that does not hold the value, and behind it
below_child :
    (value i : ℕ)
    → (n : Node) → (cs : Children) → (below later : Option Position) → value_of n ≢ value
    → Finds value n below
    → FindsAmong value (suc i) cs later
    → FindsAmong value i (child n cs) (elim below [ some p ↦ some (i ∷ p) | none ↦ later ])
unfolding Finds FindsAmong Carries node_at
below_child value i n cs (some p) later m f g = (0, omega arith, f)
below_child value i n cs none none m f g = λ k p h. first_or_later value n cs f g k p h
below_child value i n cs none (some []) m f g = elim g [ ]
below_child value i n cs none (some (j ∷ p)) m f (k, e, h) = (suc k, omega arith, h)

mutual
  unfolding find_child Finds FindsAmong Carries node_at

  find_loop-Finds : (value : ℕ) → (n : Node) → Finds value n (find_child value n)
  find_loop-Finds value (node v cs) =
      by_test (Finds value (node v cs)) (v == value) (λ e. (==_iff v value).0 e)
        (λ e.
          below_root value v cs (find_among value 0 cs) (λ q. cc ((==_iff v value).1 q, e))
            (find_among-FindsAmong value 0 cs))

  find_among-FindsAmong :
      (value i : ℕ) → (cs : Children) → FindsAmong value i cs (find_among value i cs)
  find_among-FindsAmong value i leaf = λ k p h. h
  find_among-FindsAmong value i (child n cs) =
      by_test (FindsAmong value i (child n cs)) (value_of n == value)
        (λ e. (0, omega arith, (==_iff (value_of n) value).0 e))
        (λ e.
          below_child value i n cs (find_child value n) (find_among value (suc i) cs)
            (λ q. cc ((==_iff (value_of n) value).1 q, e)) (find_loop-Finds value n)
            (find_among-FindsAmong value (suc i) cs))

-- `tree_find_child` returns the position of a node that holds the value, and NULL only if neither
-- the node nor any below it does.
pub find_child-Finds : (value : ℕ) → (n : Node) → Finds value n (find_child value n)
find_child-Finds value n = find_loop-Finds value n
