-- ===== src/Vfs/Mounted.antt =====
-- A file that is mounted is found.
use night_os.Base.{
  ℕ, ◌≡◌, ◌≢◌, refl, ap, ◌∙◌, false, Option, none, some, List, [], ◌∷◌, ◌++◌, ok, Returns, arith,
  ◌==◌,
}
use mathlib.Core.Option.{some-injective}
use night_os.Str.{CString, IsString, strlen}
use night_os.Tree.{
  Node, node, leaf, Position, value_of, children_of, node_at, count, insert_at, insert_child,
  find_child, Tree,
}
use night_os.Tree.Find.{Carries, Finds, find_child-Finds}
use night_os.Vfs.{Files, Vfs, answer, only_parent, slash, resolve_path}
use night_os.Vfs.Names.{join}
use night_os.Vfs.Lookup.{IsFileName, Leads, here, below, resolve_path-join}
use night_os.Vfs.Missing.{Lacks, NotFound, resolve_path-missing}
use night_os.Vfs.Grow.{Leads-node_at, Leads-insert_at}
use night_os.Vfs.Mount.{Sized, add_size, mount_under, mount_in, mount_parent, mount_directly}

-- the node at the position is the only one with its value
abbrev pub Only : Node → Position → Node → Type 0
Only root p n = (q : Position) → Carries (value_of n) (node_at q root) → q ≡ p

carried : (n : Node) → (o : Option Node) → o ≡ some n → Carries (value_of n) o
unfolding Carries
carried n none e = grind (arith, e)
carried n (some m) e = ap value_of (some-injective m n e)

none_left :
    (root n : Node)
    → (p : Position) → Finds (value_of n) root none
    → Carries (value_of n) (node_at p root)
    → ⊥
unfolding Finds
none_left root n p f c = f p c

found :
    (root n : Node)
    → (q : Position) → Finds (value_of n) root (some q)
    → Carries (value_of n) (node_at q root)
unfolding Finds
found root n q f = f

find_child-Only :
    (root n : Node)
    → (p : Position) → node_at p root ≡ some n
    → Only root p n
    → find_child (value_of n) root ≡ some p
find_child-Only root n p e only =
    go (find_child (value_of n) root) (find_child-Finds (value_of n) root)
  where
    go : (o : Option Position) → Finds (value_of n) root o → o ≡ some p
    go none f = elim (none_left root n p f (carried n (node_at p root) e)) [ ]
    go (some q) f = ap (λ r. some r) (only q (found root n q f))

long_path :
    (w : CString)
    → (ws : List CString) → w ≢ []
    → IsString w
    → (strlen (join (w ∷ ws)) == 1) ≡ false
unfolding strlen
long_path [] ws n p = elim (n refl) [ ]
long_path (c ∷ w) ws n (a, b, p) = ground arith

insert_child-head :
    (t : Tree)
    → (p : Position) → (v : ℕ) → (root : Node) → t.head ≡ some root
    → (insert_child (some p) v t).1.head ≡ some (insert_at p v root)
unfolding insert_child
insert_child-head t p v root h = rw (h) refl

-- the path of some names, where there is one
resolve_path-Leads :
    (files : Files)
    → (rounds : ℕ) → (cwd : CString) → (s : Vfs) → (root m : Node) → (p : Position)
    → (names : List CString) → s.file_tree.head ≡ some root
    → Leads files root p names m
    → names ≢ []
    → resolve_path files rounds cwd (join names) s ≡ ok (answer (some (value_of m)), s)
resolve_path-Leads files rounds cwd s root _ _ _ h (here _) n = elim (n refl) [ ]
resolve_path-Leads files rounds cwd s root m _ _ h (below _ i c q ws _ f path) n =
    resolve_path-join files rounds cwd s root m (i ∷ q) (files.name_of (value_of c)) ws h
      (below root i c q ws m f path)

snoc-nonempty : (names : List CString) → (x : CString) → names ++ x ∷ [] ≢ []
snoc-nonempty [] x e = cc e
snoc-nonempty (w ∷ ws) x e = cc e

mount_parent-Only :
    (s : Vfs)
    → (sizes : ℕ → ℕ) → (root n : Node) → (p : Position) → (v : ℕ) → s.file_tree.head ≡ some root
    → node_at p root ≡ some n
    → Only root p n
    → mount_parent (some (value_of n)) v (s, sizes)
      ≡ ok (
        0,
        (
          record s { file_tree = (insert_child (some p) v s.file_tree).1 },
          add_size (value_of n) 1 sizes,
        ),
      )
unfolding mount_parent mount_in mount_under
mount_parent-Only s sizes root n p v h e only =
    ap (λ o. mount_in o (value_of n) v (s, sizes)) h
    ∙ ap (λ o. mount_under o (value_of n) v (s, sizes)) (find_child-Only root n p e only)

mount_directly-at :
    (files : Files)
    → (rounds : ℕ) → (s : Vfs) → (sizes : ℕ → ℕ) → (path : CString) → (dir v : ℕ) → (x : CString)
    → ((strlen path == 1) ≡ false)
    → resolve_path files rounds slash path s ≡ ok (only_parent dir x, s)
    → mount_directly files rounds path v (s, sizes) ≡ mount_parent (some dir) v (s, sizes)
unfolding mount_directly
mount_directly-at files rounds s sizes path dir v x l e = rw (l, e) refl

long_names :
    (files : Files)
    → (root n : Node) → (p : Position) → (names : List CString) → (x : CString)
    → Leads files root p names n
    → IsFileName x
    → (strlen (join (names ++ x ∷ [])) == 1) ≡ false
long_names files root n _ _ x (here _) g = long_path x [] g.2 g.0
long_names files root n _ _ x (below _ i c q ws _ f path) g =
    long_path (files.name_of (value_of c)) (ws ++ x ∷ []) f.1.2 f.1.0

-- mount_directly returned 0, and every call of resolve_path for the path returns the file
unfoldable pub Mounted : Files → CString → ℕ → ℕ × Sized → Type 0
Mounted files path file (r, (s, sizes)) =
    (r ≡ 0)
    × ((rounds : ℕ)
        → (cwd : CString) → resolve_path files rounds cwd path s ≡ ok (answer (some file), s))

-- Where the names before the last one lead to a node that is the only one with its file, none of
-- its children has the name of the file to mount, and its driver has no `find_dir` or does not find
-- that name, `mount_directly` returns 0, and `resolve_path` on the same absolute path then returns
-- the file.
pub mount_directly-Mounted :
    (files : Files)
    → (rounds : ℕ) → (s : Vfs) → (sizes : ℕ → ℕ) → (root n : Node) → (p : Position)
    → (names : List CString) → (file : ℕ) → s.file_tree.head ≡ some root
    → Leads files root p names n
    → Only root p n
    → IsFileName (files.name_of file)
    → Lacks files (files.name_of file) (children_of n)
    → NotFound (files.find_dir (value_of n)) (files.name_of file)
    → Returns
        (mount_directly files rounds (join (names ++ files.name_of file ∷ [])) file (s, sizes))
        (Mounted files (join (names ++ files.name_of file ∷ [])) file)
unfolding Mounted
mount_directly-Mounted files rounds s sizes root n p names file h path only g f o =
    let x = files.name_of file in
    let at = Leads-node_at files root n p names path in
    (
      (
        0,
        (
          record s { file_tree = (insert_child (some p) file s.file_tree).1 },
          add_size (value_of n) 1 sizes,
        ),
      ),
      mount_directly-at files rounds s sizes (join (names ++ x ∷ [])) (value_of n) file x
            (long_names files root n p names x path g)
            (resolve_path-missing files rounds slash s root n p names x h path g f o)
          ∙ mount_parent-Only s sizes root n p file h at only,
      (
        refl,
        λ again cwd.
            resolve_path-Leads files again cwd
              (record s { file_tree = (insert_child (some p) file s.file_tree).1 })
              (insert_at p file root) (node file leaf) (p ++ count (children_of n) ∷ [])
              (names ++ x ∷ []) (insert_child-head s.file_tree p file root h)
              (Leads-insert_at files file root n p names path g f) (snoc-nonempty names x),
      ),
    )
