-- ===== src/Vfs/Missing.antt =====
-- What a path comes to whose last name is missing.
use night_os.Base.{
  ℕ, zero, suc, ◌+◌, ◌-◌, ◌≡◌, ◌≢◌, ◌≤◌, refl, ap, ◌∙◌, false, Option, none, some, List, [], ◌∷◌,
  ◌++◌, length, arith, ◌==◌, Run, ok, length-append,
}
use night_os.Str.{CString, IsString, strtok_r, strcmp}
use night_os.Tree.{Node, Children, leaf, child, Position, value_of, children_of, nth, node_at}
use night_os.Vfs.{
  Files, Vfs, Answer, answer, only_parent, slash, dot, dot_dot, node_of, get_child, Further, finish,
  not_cached, ask_driver, enter, enter_at, go_down, walk, walk_from, resolve_path,
}
use night_os.Vfs.Names.{join, saved, strtok_r-join, strtok_r-saved}
use night_os.Vfs.Lookup.{
  IsFileName, FirstNamed, Leads, here, below, differs, node_at-snoc, node_of-head, walk_child,
  with_token, length-join, join-slash,
}

-- no child has the name
abbrev pub Lacks : Files → CString → Children → Type 0
Lacks files w cs =
    (j : ℕ)
    → (d : Node) → nth j cs ≡ some d
    → IsString (files.name_of (value_of d)) × (w ≢ files.name_of (value_of d))

-- the driver has no `find_dir`, or one that does not find the name
abbrev pub NotFound : Option (CString → Option ℕ) → CString → Type 0
NotFound none w = Unit
NotFound (some find) w = find w ≡ none

get_child-none :
    (files : Files)
    → (w : CString) → IsString w
    → (k : ℕ) → (cs : Children) → Lacks files w cs
    → get_child files w k cs ≡ none
unfolding get_child
get_child-none files w p k leaf f = refl
get_child-none files w p k (child n cs) f =
    rw (differs w (files.name_of (value_of n)) p (f 0 n refl).0 (f 0 n refl).1)
      (get_child-none files w p (suc k) cs (λ j d e. f (suc j) d e))

not_cached-none :
    (o : Option (CString → Option ℕ))
    → (dir : ℕ) → (w : CString) → (p : Position) → (further : Further) → (s : Vfs) → NotFound o w
    → not_cached o none dir w p further s ≡ ok (only_parent dir w, s)
unfolding not_cached ask_driver
not_cached-none none dir w p further s f = refl
not_cached-none (some find) dir w p further s f = rw (f) refl

go_down-missing :
    (files : Files)
    → (p : Position) → (n : Node) → (w : CString) → (further : Further) → (s : Vfs)
    → node_of p s ≡ some n
    → IsString w
    → Lacks files w (children_of n)
    → NotFound (files.find_dir (value_of n)) w
    → go_down files (some p) none w further s ≡ ok (only_parent (value_of n) w, s)
unfolding go_down enter_at enter
go_down-missing files p n w further s e i f g =
    rw (e, get_child-none files w i 0 (children_of n) f)
      (not_cached-none (files.find_dir (value_of n)) (value_of n) w p further s g)

walk-missing :
    (files : Files)
    → (fuel : ℕ) → (p : Position) → (n : Node) → (w : CString) → (s : Vfs) → node_of p s ≡ some n
    → IsFileName w
    → Lacks files w (children_of n)
    → NotFound (files.find_dir (value_of n)) w
    → walk files (suc fuel) w none (some p) s ≡ ok (only_parent (value_of n) w, s)
unfolding walk strtok_r
walk-missing files fuel p n w s e i f g =
    rw
      (
        differs w dot_dot i.0 (omega arith, omega arith, (omega arith, omega arith, tt)) i.4,
        differs w dot i.0 (omega arith, omega arith, tt) i.3,
      )
      (go_down-missing files p n w _ s e i.0 f g)

-- the loop comes to the last name, at the node `m`
abbrev Comes : Files → Node → Vfs → CString → ℕ → Node → Run (Answer × Vfs) → Type 0
Comes files root s x k m run =
    (r : Position) × (node_at r root ≡ some m) × (run ≡ walk files k x none (some r) s)

-- what the rounds from the child `c` on come to, if there is a round left
abbrev Again :
    Files → Node → Vfs → CString → ℕ → Position → Position → Node → Node → List CString → ℕ → Type 0
Again files root s x k p q c m ws zero = Unit
Again files root s x k p q c m ws (suc fuel) =
    (v : CString)
    → (vs : List CString) → ws ≡ v ∷ vs
    → Leads files c q (v ∷ vs) m
    → Comes files root s x k m (walk files (suc fuel) v (saved (vs ++ x ∷ [])) (some p) s)

-- the rounds behind a child, where the rounds from it on go well
behind_child :
    (files : Files)
    → (root : Node) → (s : Vfs) → (x : CString) → IsFileName x
    → (fuel k : ℕ) → (p q : Position) → (c m : Node) → (ws : List CString) → fuel ≡ length ws + k
    → node_at p root ≡ some c
    → Leads files c q ws m
    → Again files root s x k p q c m ws fuel
    → Comes files root s x k m
        (with_token files fuel p s (finish (some p) s) (strtok_r none slash (saved (ws ++ x ∷ []))))
behind_child files root s x a fuel k p _ _ m _ l e (here _) again = (
  p,
  e,
  ap (with_token files fuel p s (finish (some p) s)) (strtok_r-saved x [] a.2 a.1)
      ∙ ap (λ g. walk files g x none (some p) s) {x = fuel} {y = k} (omega (arith, l)),
)
behind_child files root s x a zero k p _ c m _ l e (below _ i d q vs _ f path) again =
    grind (arith, l)
behind_child files root s x a (suc fuel) k p _ c m _ l e (below _ i d q vs _ f path) again =
    let (r, at, run) = again (files.name_of (value_of d)) vs refl (below c i d q vs m f path) in
    (
      r,
      at,
      ap (with_token files (suc fuel) p s (finish (some p) s))
            (strtok_r-saved (files.name_of (value_of d)) (vs ++ x ∷ []) f.1.2 f.1.1)
          ∙ run,
    )

child_first :
    (files : Files)
    → (root : Node) → (s : Vfs) → s.file_tree.head ≡ some root
    → (x : CString) → (fuel k : ℕ) → (p : Position) → (i : ℕ) → (n c m : Node) → (ws : List CString)
    → node_at p root ≡ some n
    → FirstNamed files n i c
    → Comes files root s x k m (
        with_token files fuel
          (p ++ i ∷ [])
          s
          (finish (some (p ++ i ∷ [])) s)
          (strtok_r none slash (saved (ws ++ x ∷ []))))
    → Comes files root s x k m
        (walk files (suc fuel) (files.name_of (value_of c)) (saved (ws ++ x ∷ [])) (some p) s)
child_first files root s h x fuel k p i n c m ws e f (r, found, run) = (
  r,
  found,
  walk_child files fuel p i n c (saved (ws ++ x ∷ [])) s (node_of-head root n s p h e) f ∙ run,
)

-- the rounds for the names before the last one
walk-Comes :
    (files : Files)
    → (root : Node) → (s : Vfs) → s.file_tree.head ≡ some root
    → (x : CString) → IsFileName x
    → (fuel k : ℕ) → (p q : Position) → (n m : Node) → (w : CString) → (ws : List CString)
    → fuel ≡ length ws + k
    → node_at p root ≡ some n
    → Leads files n q (w ∷ ws) m
    → Comes files root s x k m (walk files (suc fuel) w (saved (ws ++ x ∷ [])) (some p) s)
walk-Comes files root s h x g zero k p _ n m _ _ l e (below _ i c q ws _ f path) =
    child_first files root s h x zero k p i n c m ws e f (
      behind_child files root s x g zero k (p ++ i ∷ []) q c m ws l
        (node_at-snoc p i root n c e f.0) path tt)
walk-Comes files root s h x g (suc fuel) k p _ n m _ _ l e (below _ i c q ws _ f path) =
    let at = node_at-snoc p i root n c e f.0 in
    child_first files root s h x (suc fuel) k p i n c m ws e f (
      behind_child files root s x g (suc fuel) k (p ++ i ∷ []) q c m ws l at path
        (λ v vs same further.
          walk-Comes files root s h x g fuel k (p ++ i ∷ []) q c m v vs
            (omega (arith, l, ap length same)) at further))

length-path :
    (w x : CString) → (ws : List CString) → length ws + 2 ≤ length (join (w ∷ ws ++ x ∷ []))
length-path w x ws = omega (arith, length-join (w ∷ ws ++ x ∷ []), length-append ws (x ∷ []))

walk_from-missing :
    (files : Files)
    → (s : Vfs) → (root n : Node) → (p : Position) → (names : List CString) → (x : CString)
    → s.file_tree.head ≡ some root
    → Leads files root p names n
    → IsFileName x
    → Lacks files x (children_of n)
    → NotFound (files.find_dir (value_of n)) x
    → walk_from files (join (names ++ x ∷ [])) [] s ≡ ok (only_parent (value_of n) x, s)
unfolding walk_from node_at
walk_from-missing files s root n _ _ x h (here _) g f o =
    ap (with_token files (suc (length (join (x ∷ [])))) [] s (ok (answer none, s)))
      (strtok_r-join x [] g.2 g.1)
    ∙ walk-missing files (length (join (x ∷ []))) [] n x s (node_of-head root n s [] h refl) g f o
walk_from-missing files s root n _ _ x h (below _ i c q ws _ first path) g f o =
    let w = files.name_of (value_of c) in
    let path_length = length (join (w ∷ ws ++ x ∷ [])) in
    let k = path_length - length ws - 1 in
    let (r, found, run) =
      walk-Comes files root s h x g path_length (suc k) [] (i ∷ q) root n w ws
        (omega (arith, length-path w x ws)) refl (below root i c q ws n first path) in
    ap (with_token files (suc path_length) [] s (ok (answer none, s)))
      (strtok_r-join w (ws ++ x ∷ []) first.1.2 first.1.1)
    ∙ run
    ∙ walk-missing files k r n x s (node_of-head root n s r h found) g f o

pub join-append-slash :
    (files : Files)
    → (root n : Node) → (p : Position) → (names : List CString) → (x : CString)
    → Leads files root p names n
    → IsFileName x
    → (strcmp (join (names ++ x ∷ [])) slash == 0) ≡ false
join-append-slash files root n _ _ x (here _) g = join-slash x [] g.2 g.0
join-append-slash files root n _ _ x (below _ i c q ws _ f path) g =
    join-slash (files.name_of (value_of c)) (ws ++ x ∷ []) f.1.2 f.1.0

-- Where the names before the last one lead to a node, none of its children has the last name, and
-- its driver has no `find_dir` or does not find the name, `resolve_path` on the absolute path returns
-- NULL, writes the node's file and the last name to its results, and leaves the tree as it is.
pub resolve_path-missing :
    (files : Files)
    → (rounds : ℕ) → (cwd : CString) → (s : Vfs) → (root n : Node) → (p : Position)
    → (names : List CString) → (x : CString) → s.file_tree.head ≡ some root
    → Leads files root p names n
    → IsFileName x
    → Lacks files x (children_of n)
    → NotFound (files.find_dir (value_of n)) x
    → resolve_path files rounds cwd (join (names ++ x ∷ [])) s ≡ ok (only_parent (value_of n) x, s)
unfolding resolve_path
resolve_path-missing files rounds cwd s root n _ _ x h (here _) g f o =
    rw (join-append-slash files root n [] [] x (here n) g)
      (walk_from-missing files s root n [] [] x h (here n) g f o)
resolve_path-missing files rounds cwd s root n _ _ x h (below _ i c q ws _ first path) g f o =
    let names = files.name_of (value_of c) ∷ ws in
    let leads = below root i c q ws n first path in
    rw (join-append-slash files root n (i ∷ q) names x leads g)
      (walk_from-missing files s root n (i ∷ q) names x h leads g f o)
