-- ===== src/Vfs/Grow.antt =====
-- A path in the tree after an insertion.
use night_os.Base.{ℕ, ◌≡◌, ◌≢◌, refl, sym, ◌∙◌, some, List, [], ◌∷◌, ◌++◌, arith}
use mathlib.Core.Path.{subst}
use night_os.Str.{CString, IsString}
use night_os.Tree.{
  Node, node, leaf, Position, value_of, children_of, node_at, count, append, update, insert_at,
}
use night_os.Tree.Siblings.{nth-append_new, nth-append_old, nth-update_same, nth-update_other}
use night_os.Vfs.{Files}
use night_os.Vfs.Lookup.{IsFileName, Leads, here, below, FirstNamed}
use night_os.Vfs.Missing.{Lacks}

pub Leads-node_at :
    (files : Files)
    → (root n : Node) → (p : Position) → (names : List CString) → Leads files root p names n
    → node_at p root ≡ some n
unfolding node_at
Leads-node_at files root _ _ _ (here _) = refl
Leads-node_at files root n _ _ (below _ i c q ws _ f path) =
    rw (f.0, node_at) (Leads-node_at files c n q ws path)

value_of-insert_at : (p : Position) → (v : ℕ) → (n : Node) → value_of (insert_at p v n) ≡ value_of n
unfolding insert_at
value_of-insert_at [] v n = refl
value_of-insert_at (i ∷ p) v n = refl

FirstNamed-new :
    (files : Files)
    → (v : ℕ) → (n : Node) → IsFileName (files.name_of v)
    → Lacks files (files.name_of v) (children_of n)
    → FirstNamed files
        (node (value_of n) (append (children_of n) (node v leaf)))
        (count (children_of n))
        (node v leaf)
FirstNamed-new files v n g f = (
  nth-append_new (children_of n) (node v leaf),
  g,
  λ j d l e.
      let (a, b) =
        f j d (sym (nth-append_old j (children_of n) (node v leaf) (omega (arith, l))) ∙ e) in
      (a, λ q. b (sym q)),
)

FirstNamed-update :
    (files : Files)
    → (n : Node) → (i : ℕ) → (c : Node) → (h : Node → Node) → value_of (h c) ≡ value_of c
    → FirstNamed files n i c
    → FirstNamed files (node (value_of n) (update i h (children_of n))) i (h c)
FirstNamed-update files n i c h e (f, g, earlier) = (
  nth-update_same i h (children_of n) c f,
  subst (λ v. IsFileName (files.name_of v)) (sym e) g,
  λ j d l q.
      subst
        (λ v.
          IsString (files.name_of (value_of d)) × (files.name_of (value_of d) ≢ files.name_of v))
        (sym e)
        (earlier j d l (sym (nth-update_other j i h (children_of n) (omega (arith, l))) ∙ q)),
)

-- The new node is behind the path to the old one and its own name.
pub Leads-insert_at :
    (files : Files)
    → (v : ℕ) → (root n : Node) → (p : Position) → (names : List CString)
    → Leads files root p names n
    → IsFileName (files.name_of v)
    → Lacks files (files.name_of v) (children_of n)
    → Leads files
        (insert_at p v root)
        (p ++ count (children_of n) ∷ [])
        (names ++ files.name_of v ∷ [])
        (node v leaf)
unfolding insert_at
Leads-insert_at files v root _ _ _ (here _) g f =
    below (insert_at [] v root) (count (children_of root)) (node v leaf) [] [] (node v leaf)
      (FirstNamed-new files v root g f) (here (node v leaf))
Leads-insert_at files v root n _ _ (below _ i c q ws _ first path) g f =
    subst
      (λ w.
        Leads files (insert_at (i ∷ q) v root) (i ∷ (q ++ count (children_of n) ∷ []))
          (files.name_of w ∷ (ws ++ files.name_of v ∷ [])) (node v leaf))
      (value_of-insert_at q v c)
      (below (insert_at (i ∷ q) v root) i (insert_at q v c) (q ++ count (children_of n) ∷ [])
        (ws ++ files.name_of v ∷ []) (node v leaf)
        (FirstNamed-update files root i c (insert_at q v) (value_of-insert_at q v c) first)
        (Leads-insert_at files v c n q ws path g f))
