-- ===== src/Vfs/Cwd.antt =====
-- What the loop over the working directory comes to.
use night_os.Base.{
  ℕ, zero, suc, ◌+◌, ◌≡◌, ◌≢◌, ◌≤◌, ◌<◌, refl, ap, ◌∙◌, Bool, true, false, Option, none, some, List,
  [], ◌∷◌, ◌++◌, arith, ◌==◌, if◌then◌else◌, Run, ok,
}
use mathlib.Core.Option.{some-injective}
use night_os.Str.{CString, IsString, strcmp, first}
use night_os.Tree.{Node, node, Children, leaf, child, Position, value_of, children_of, nth, node_at}
use night_os.Vfs.{
  Files, Vfs, Start, from, slash, dot, dot_dot, get_child, CwdFurther, cwd_not_cached, cwd_enter,
  cwd_down, cwd_walk, start_from, walk_from, resolve_path,
}
use night_os.Vfs.Names.{join, saved, strtok_r-join}
use night_os.Vfs.Lookup.{IsFileName, differs, node_at-snoc, node_of-head}

-- how many nodes there are
unfoldable mutual
  pub size : Node → ℕ
  size (node v cs) = suc (sizes cs)

  pub sizes : Children → ℕ
  sizes leaf = 0
  sizes (child n cs) = size n + sizes cs

size-children : (n : Node) → sizes (children_of n) < size n
unfolding size
size-children (node v cs) = omega arith

nth-size : (j : ℕ) → (cs : Children) → (c : Node) → nth j cs ≡ some c → size c ≤ sizes cs
unfolding size
nth-size j leaf c e = grind (arith, e)
nth-size zero (child n cs) c e = omega (arith, ap size (some-injective n c e))
nth-size (suc j) (child n cs) c e = omega (arith, nth-size j cs c e)

at_child :
    (files : Files)
    → (w : CString) → (k i : ℕ) → (n : Node) → (cs : Children) → (b : Bool)
    → (get_child files w (suc k) cs ≡ some i
        → (j : ℕ) × (c : Node) × (i ≡ suc k + j) × (nth j cs ≡ some c))
    → (if b then some k else get_child files w (suc k) cs) ≡ some i
    → (j : ℕ) × (c : Node) × (i ≡ k + j) × (nth j (child n cs) ≡ some c)
at_child files w k i n cs true later e = (0, n, omega (arith, some-injective k i e), refl)
at_child files w k i n cs false later e =
    let (j, c, q, r) = later e in (suc j, c, omega (arith, q), r)

-- a child with the name
get_child-nth :
    (files : Files)
    → (w : CString) → (k i : ℕ) → (cs : Children) → get_child files w k cs ≡ some i
    → (j : ℕ) × (c : Node) × (i ≡ k + j) × (nth j cs ≡ some c)
unfolding get_child
get_child-nth files w k i leaf e = grind (arith, e)
get_child-nth files w k i (child n cs) e =
    at_child files w k i n cs (strcmp w (files.name_of (value_of n)) == 0)
      (get_child-nth files w (suc k) i cs) e

-- one part of the loop, where the driver has no `find_dir` and the loop goes well below
cwd_down-head :
    (files : Files)
    → ((f : ℕ) → files.find_dir f ≡ none)
    → (n : Node) → (w : CString) → (p : Position) → (again : CwdFurther) → (s : Vfs)
    → ((j : ℕ)
        → (c : Node) → nth j (children_of n) ≡ some c
        → again (p ++ j ∷ []) s ≡ ok (from [], s))
    → cwd_down files (some n) w p again s ≡ ok (from [], s)
unfolding cwd_down cwd_enter cwd_not_cached
cwd_down-head files empty n w p again s f = go (get_child files w 0 (children_of n)) refl
  where
    go :
        (o : Option ℕ)
        → get_child files w 0 (children_of n) ≡ o
        → cwd_enter files o (value_of n) w p again s ≡ ok (from [], s)
    go none e = rw (empty (value_of n)) refl
    go (some i) e =
        let (j, c, q, r) = get_child-nth files w 0 i (children_of n) e in
        f i c (ap (λ k. nth k (children_of n)) (omega (arith, q)) ∙ r)

-- the loop stays at the name, goes down as long as there are children of the name, and gives up
cwd_walk-head :
    (files : Files)
    → ((f : ℕ) → files.find_dir f ≡ none)
    → (w : CString) → (strcmp w dot_dot == 0) ≡ false
    → (strcmp w dot == 0) ≡ false
    → (save : Option CString) → (s : Vfs) → (root : Node) → s.file_tree.head ≡ some root
    → (fuel : ℕ) → (p : Position) → (n : Node) → node_at p root ≡ some n
    → size n ≤ fuel
    → cwd_walk files fuel w save p s ≡ ok (from [], s)
unfolding cwd_walk
cwd_walk-head files empty w up here save s root h zero p n e l = grind (arith, size-children n, l)
cwd_walk-head files empty w up here save s root h (suc fuel) p n e l =
    rw (up, here, node_of-head root n s p h e)
      (cwd_down-head files empty n w p (λ c t. cwd_walk files fuel w save c t) s
        (λ j c q.
          cwd_walk-head files empty w up here save s root h fuel (p ++ j ∷ []) c
            (node_at-snoc p j root n c e q)
            (omega (arith, size-children n, nth-size j (children_of n) c q, l))))

not_slash : (file : CString) → IsString file → first file ≢ 47 → (strcmp file slash == 0) ≡ false
unfolding strcmp
not_slash [] p n = ground arith
not_slash (c ∷ file) (a, b, p) n = ground arith

not_absolute : (file : CString) → first file ≢ 47 → (first file == 47) ≡ false
not_absolute file n = ground arith

start_from-head :
    (files : Files)
    → ((f : ℕ) → files.find_dir f ≡ none)
    → (w : CString) → (ws : List CString) → IsFileName w
    → (s : Vfs) → (root : Node) → s.file_tree.head ≡ some root
    → (rounds : ℕ) → size root ≤ rounds
    → start_from files rounds (join (w ∷ ws)) s ≡ ok (from [], s)
unfolding start_from node_at
start_from-head files empty w ws f s root h rounds l =
    ap
      (λ t. elim t.0 as (λ x. Run (Start × Vfs)) [
        | none ↦ ok (from [], s)
        | some pch ↦ cwd_walk files rounds pch t.1 [] s
      ])
      (strtok_r-join w ws f.2 f.1)
    ∙ cwd_walk-head files empty w
        (differs w dot_dot f.0 (omega arith, omega arith, (omega arith, omega arith, tt)) f.4)
        (differs w dot f.0 (omega arith, omega arith, tt) f.3) (saved ws) s root h rounds [] root
        refl l

-- Where no driver has `find_dir` and the working directory starts with the name of a file,
-- `resolve_path` resolves a relative path from the head of the tree, whatever the working directory
-- is, and its loop over the working directory takes no more rounds than there are nodes.
pub resolve_path-cwd :
    (files : Files)
    → ((f : ℕ) → files.find_dir f ≡ none)
    → (w : CString) → (ws : List CString) → IsFileName w
    → (s : Vfs) → (root : Node) → s.file_tree.head ≡ some root
    → (rounds : ℕ) → size root ≤ rounds
    → (file : CString) → IsString file
    → first file ≢ 47
    → resolve_path files rounds (join (w ∷ ws)) file s ≡ walk_from files file [] s
unfolding resolve_path
resolve_path-cwd files empty w ws f s root h rounds l file p n =
    rw
      (
        not_slash file p n,
        not_absolute file n,
        start_from-head files empty w ws f s root h rounds l,
      )
      refl
