-- ===== src/Vfs/Tests.antt =====
-- The theorems about paths at a concrete tree of files.
use night_os.Base.{
  ℕ, zero, suc, ◌≡◌, ◌≢◌, ap, refl, Returns, none, some, List, [], ◌∷◌, arith, ok, fault,
}
use mathlib.Core.Path.{subst}
use mathlib.Core.Option.{some-injective}
use night_os.Str.{IsString, CString, first, strtok_r, token, strspn, strcspn, among, strcmp}
use night_os.Tree.{Node, node, leaf, child, value_of, children_of, node_at}
use night_os.Vfs.{
  Files, Vfs, answer, only_parent, resolve_path, walk_from, walk, get_child, go_down, enter_at,
  enter, not_cached, finish,
}
use night_os.Vfs.Names.{IsName, join}
use night_os.Vfs.Ends.{Ends, resolve_path-Ends}
use night_os.Vfs.Lookup.{Leads, here, below, resolve_path-join, IsFileName}
use night_os.Vfs.Missing.{Lacks, resolve_path-missing}
use night_os.Tree.Find.{Carries}
use night_os.Vfs.Mount.{mount_directly}
use night_os.Vfs.Mounted.{Only, Mounted, mount_directly-Mounted}
use night_os.Vfs.Cwd.{size, resolve_path-cwd}

-- 0 is the root, 1 is "a", and every other file "b"
abbrev name_of : ℕ → CString
name_of zero = 47 ∷ []
name_of (suc zero) = 97 ∷ []
name_of (suc (suc f)) = 98 ∷ []

abbrev files : Files
files = record { name_of = name_of; find_dir = λ f. none }

-- "/a/b"
abbrev root : Node
root = node 0 (child (node 1 (child (node 2 leaf) leaf)) leaf)

abbrev vfs : Vfs
vfs = record { root_node = some 0; file_tree = record { head = some root; height = 1 } }

abbrev a_b : List CString
a_b = (97 ∷ []) ∷ (98 ∷ []) ∷ []

-- "/a/./b"
finds_b : resolve_path files 0 [] (47 ∷ 97 ∷ 47 ∷ 46 ∷ 47 ∷ 98 ∷ []) vfs ≡ ok (answer (some 2), vfs)
unfolding resolve_path walk_from walk strtok_r token strspn strcspn among strcmp get_child go_down
    enter_at enter node_at finish
finds_b = refl

-- "/b/a" lacks its first name, and no driver looks for it.
missing_inner_name : resolve_path files 0 [] (47 ∷ 98 ∷ 47 ∷ 97 ∷ []) vfs ≡ fault
unfolding resolve_path walk_from walk strtok_r token strspn strcspn among strcmp get_child go_down
    enter_at enter not_cached node_at finish
missing_inner_name = refl

resolve_path-Ends_example : Ends (resolve_path files 0 [] (join a_b) vfs)
resolve_path-Ends_example = resolve_path-Ends files 0 [] (join a_b) vfs refl

a_IsFileName : IsFileName (97 ∷ [])
unfolding IsName
a_IsFileName = (
  (omega arith, omega arith, tt),
  (omega arith, omega arith, tt),
  (λ e. cc e),
  (λ e. cc e),
  (λ e. cc e),
)

b_IsFileName : IsFileName (98 ∷ [])
unfolding IsName
b_IsFileName = (
  (omega arith, omega arith, tt),
  (omega arith, omega arith, tt),
  (λ e. cc e),
  (λ e. cc e),
  (λ e. cc e),
)

a_b-Leads : Leads files root (0 ∷ 0 ∷ []) a_b (node 2 leaf)
a_b-Leads =
    below root 0 (node 1 (child (node 2 leaf) leaf)) (0 ∷ []) ((98 ∷ []) ∷ []) (node 2 leaf)
      (refl, a_IsFileName, λ j d l e. grind (arith, l))
      (below (node 1 (child (node 2 leaf) leaf)) 0 (node 2 leaf) [] [] (node 2 leaf)
        (refl, b_IsFileName, λ j d l e. grind (arith, l)) (here (node 2 leaf)))

resolve_path-join_example : resolve_path files 0 [] (join a_b) vfs ≡ ok (answer (some 2), vfs)
resolve_path-join_example =
    resolve_path-join files 0 [] vfs root (node 2 leaf) (0 ∷ 0 ∷ []) (97 ∷ []) ((98 ∷ []) ∷ []) refl
      a_b-Leads

resolve_path-cwd_example :
    resolve_path files 3 (join a_b) (98 ∷ []) vfs ≡ walk_from files (98 ∷ []) [] vfs
unfolding size
resolve_path-cwd_example =
    resolve_path-cwd files (λ f. refl) (97 ∷ []) ((98 ∷ []) ∷ []) a_IsFileName vfs root refl 3
      (omega arith) (98 ∷ []) (omega arith, omega arith, tt) (λ e. cc e)

c_IsFileName : IsFileName (99 ∷ [])
unfolding IsName
c_IsFileName = (
  (omega arith, omega arith, tt),
  (omega arith, omega arith, tt),
  (λ e. cc e),
  (λ e. cc e),
  (λ e. cc e),
)

a-Leads : Leads files root (0 ∷ []) ((97 ∷ []) ∷ []) (node 1 (child (node 2 leaf) leaf))
a-Leads =
    below root 0 (node 1 (child (node 2 leaf) leaf)) [] [] (node 1 (child (node 2 leaf) leaf))
      (refl, a_IsFileName, λ j d l e. grind (arith, l)) (here (node 1 (child (node 2 leaf) leaf)))

abbrev b_name : CString
b_name = 98 ∷ []

abbrev c_name : CString
c_name = 99 ∷ []

differ : c_name ≢ b_name
differ q = omega (arith, ap first q)

only_b : Lacks files (99 ∷ []) (child (node 2 leaf) leaf)
only_b zero d e =
    subst (λ k. IsString (name_of (value_of k)) × (99 ∷ [] ≢ name_of (value_of k)))
      (some-injective (node 2 leaf) d e) ((omega arith, omega arith, tt), λ q. differ q)
only_b (suc j) d e = grind (arith, e)

resolve_path-missing_example :
    resolve_path files 0 [] (join ((97 ∷ []) ∷ (99 ∷ []) ∷ [])) vfs
    ≡ ok (only_parent 1 (99 ∷ []), vfs)
resolve_path-missing_example =
    resolve_path-missing files 0 [] vfs root (node 1 (child (node 2 leaf) leaf)) (0 ∷ [])
      ((97 ∷ []) ∷ []) (99 ∷ []) refl a-Leads c_IsFileName only_b tt

-- 3 is "b" as well; it is mounted at "/b"
root-Only : Only root [] root
unfolding Carries node_at
root-Only [] e = refl
root-Only (zero ∷ []) e = grind (arith, e)
root-Only (zero ∷ zero ∷ []) e = grind (arith, e)
root-Only (zero ∷ zero ∷ j ∷ p) e = elim e [ ]
root-Only (zero ∷ suc i ∷ p) e = elim e [ ]
root-Only (suc i ∷ p) e = elim e [ ]

abbrev a_name : CString
a_name = 97 ∷ []

differ_b : b_name ≢ a_name
differ_b q = omega (arith, ap first q)

no_b : Lacks files b_name (children_of root)
no_b zero d e =
    subst (λ k. IsString (name_of (value_of k)) × (b_name ≢ name_of (value_of k)))
      (some-injective (node 1 (child (node 2 leaf) leaf)) d e)
      ((omega arith, omega arith, tt), λ q. differ_b q)
no_b (suc j) d e = grind (arith, e)

mount_directly-Mounted_example :
    Returns
      (mount_directly files 0 (join (b_name ∷ [])) 3 (vfs, λ f. 0))
      (Mounted files (join (b_name ∷ [])) 3)
mount_directly-Mounted_example =
    mount_directly-Mounted files 0 vfs (λ f. 0) root root [] [] 3 refl (here root) root-Only
      b_IsFileName no_b tt
