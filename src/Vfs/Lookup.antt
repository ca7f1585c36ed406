-- ===== src/Vfs/Lookup.antt =====
-- Which node a path leads to.
use night_os.Base.{
  ℕ, zero, suc, length-append, ◌+◌, ◌≡◌, ◌≢◌, ◌≤◌, ◌<◌, refl, sym, ap, ◌∙◌, true, false, Option,
  none, some, List, [], ◌∷◌, ◌++◌, length, arith, ◌==◌, Run, ok, inl, inr, Bool-cases,
}
use mathlib.Core.Option.{some-injective}
use night_os.Str.{CString, IsString, strtok_r, strcmp}
use night_os.Str.Compare.{strcmp-zero_iff}
use night_os.Tree.{Node, Children, leaf, child, Position, value_of, children_of, nth, node_at}
use night_os.Vfs.{
  Files, Vfs, Answer, slash, dot, dot_dot, answer, node_of, get_child, Further, finish, enter,
  enter_at, go_down, walk, walk_from, resolve_path,
}
use night_os.Vfs.Names.{IsName, join, saved, strtok_r-join, strtok_r-saved, strtok_r-none}

-- a name that a path can hold, which is not "." or ".."
abbrev pub IsFileName : CString → Type 0
IsFileName w = IsString w × IsName w × (w ≢ []) × (w ≢ dot) × (w ≢ dot_dot)

-- the children before a child `c` have other names
abbrev Earlier : Files → Children → ℕ → Node → Type 0
Earlier files cs i c =
    (j : ℕ)
    → (d : Node) → j < i
    → nth j cs ≡ some d
    → IsString (files.name_of (value_of d))
      × (files.name_of (value_of d) ≢ files.name_of (value_of c))

-- the node `c` is the first child of `n` with its name
abbrev pub FirstNamed : Files → Node → ℕ → Node → Type 0
FirstNamed files n i c =
    (nth i (children_of n) ≡ some c)
    × IsFileName (files.name_of (value_of c))
    × Earlier files (children_of n) i c

-- the nodes with these names, each below the one before, lead from a node to another one
pub data Leads (files : Files) : Node → Position → List CString → Node → Type 0 where
  here : (n : Node) → Leads files n [] [] n
  below :
      (n : Node)
      → (i : ℕ) → (c : Node) → (p : Position) → (names : List CString) → (m : Node)
      → FirstNamed files n i c
      → Leads files c p names m
      → Leads files n (i ∷ p) (files.name_of (value_of c) ∷ names) m

pub differs : (v w : CString) → IsString v → IsString w → v ≢ w → (strcmp v w == 0) ≡ false
differs v w p q n = elim (Bool-cases (strcmp v w == 0)) [
  | inl e ↦ elim (n ((strcmp-zero_iff v w p q).0 e)) [ ]
  | inr e ↦ e
]

same_name : (w : CString) → IsString w → (strcmp w w == 0) ≡ true
same_name w p = (strcmp-zero_iff w w p p).1 refl

get_child-first :
    (files : Files)
    → (cs : Children) → (k i : ℕ) → (c : Node) → IsString (files.name_of (value_of c))
    → nth i cs ≡ some c
    → Earlier files cs i c
    → get_child files (files.name_of (value_of c)) k cs ≡ some (k + i)
unfolding get_child
get_child-first files leaf k i c p e f = grind (arith, e)
get_child-first files (child n cs) k zero c p e f =
    rw (some-injective n c e, same_name (files.name_of (value_of c)) p)
      (ap (λ x. some x) (omega arith))
get_child-first files (child n cs) k (suc i) c p e f =
    rw
      (differs (files.name_of (value_of c)) (files.name_of (value_of n)) p
        (f 0 n (omega arith) refl).0 (λ q. (f 0 n (omega arith) refl).1 (sym q)))
      (get_child-first files cs (suc k) i c p e (λ j d l q. f (suc j) d (omega (arith, l)) q)
        ∙ ap (λ x. some x) (omega arith))

abbrev from_child : Option Node → Position → Option Node
from_child o p = elim o [ none ↦ none | some c ↦ node_at p c ]

pub node_at-snoc :
    (p : Position)
    → (i : ℕ) → (n m c : Node) → node_at p n ≡ some m
    → nth i (children_of m) ≡ some c
    → node_at (p ++ i ∷ []) n ≡ some c
unfolding node_at
node_at-snoc [] i n m c e f = step (nth i (children_of n)) (cc (some-injective n m e, f))
  where
    step : (o : Option Node) → o ≡ some c → from_child o [] ≡ some c
    step o q = rw (q) refl
node_at-snoc (j ∷ p) i n m c e f =
    step (nth j (children_of n)) (λ d q. node_at-snoc p i d m c q f) e
  where
    step :
        (o : Option Node)
        → ((d : Node) → node_at p d ≡ some m → node_at (p ++ i ∷ []) d ≡ some c)
        → from_child o p ≡ some m
        → from_child o (p ++ i ∷ []) ≡ some c
    step none again q = grind (arith, q)
    step (some d) again q = again d q

-- the loop goes on at the child that has the name
go_down-child :
    (files : Files)
    → (p : Position) → (i : ℕ) → (n c : Node) → (pch : Option CString) → (further : Further)
    → (s : Vfs) → node_of p s ≡ some n
    → FirstNamed files n i c
    → go_down files (some p) pch (files.name_of (value_of c)) further s
      ≡ further (some (p ++ i ∷ [])) s
unfolding go_down enter_at enter
go_down-child files p i n c pch further s e (f, g, h) =
    rw
      (
        e,
        get_child-first files (children_of n) 0 i c g.0 f h
            ∙ ap (λ x. some x) {x = 0 + i} {y = i} (omega arith),
      )
      refl

pub walk_child :
    (files : Files)
    → (fuel : ℕ) → (p : Position) → (i : ℕ) → (n c : Node) → (save : Option CString) → (s : Vfs)
    → node_of p s ≡ some n
    → FirstNamed files n i c
    → walk files (suc fuel) (files.name_of (value_of c)) save (some p) s
      ≡ (elim (strtok_r none slash save).0 as (λ x. Run (Answer × Vfs)) [
        | none ↦ finish (some (p ++ i ∷ [])) s
        | some pch ↦ walk files fuel pch (strtok_r none slash save).1 (some (p ++ i ∷ [])) s
      ])
unfolding walk
walk_child files fuel p i n c save s e f =
    rw
      (
        differs (files.name_of (value_of c)) dot_dot f.1.0
            (omega arith, omega arith, (omega arith, omega arith, tt)) f.1.4,
        differs (files.name_of (value_of c)) dot f.1.0 (omega arith, omega arith, tt) f.1.3,
      )
      (go_down-child files p i n c (strtok_r none slash save).0 _ s e f)

pub node_of-head :
    (root n : Node)
    → (s : Vfs) → (p : Position) → s.file_tree.head ≡ some root
    → node_at p root ≡ some n
    → node_of p s ≡ some n
node_of-head root n s p h e = rw (h) e

pub finish_at :
    (p : Position)
    → (n : Node) → (s : Vfs) → node_of p s ≡ some n
    → finish (some p) s ≡ ok (answer (some (value_of n)), s)
unfolding finish
finish_at p n s e = rw (e, finish) refl

-- the loop on what `strtok_r` returns
abbrev pub with_token :
    Files
    → ℕ
    → Position
    → Vfs
    → Run (Answer × Vfs)
    → Option CString × Option CString
    → Run (Answer × Vfs)
with_token files fuel p s last t = elim t.0 as (λ x. Run (Answer × Vfs)) [
  | none ↦ last
  | some pch ↦ walk files fuel pch t.1 (some p) s
]

-- the rounds behind the first, where the rounds from a child on go well
behind_child :
    (files : Files)
    → (s : Vfs) → (fuel : ℕ) → (p q : Position) → (c m : Node) → (ws : List CString)
    → node_of p s ≡ some c
    → Leads files c q ws m
    → ((v : CString)
        → (vs : List CString) → ws ≡ v ∷ vs
        → Leads files c q (v ∷ vs) m
        → walk files fuel v (saved vs) (some p) s ≡ ok (answer (some (value_of m)), s))
    → with_token files fuel p s (finish (some p) s) (strtok_r none slash (saved ws))
      ≡ ok (answer (some (value_of m)), s)
behind_child files s fuel p _ _ m _ e (here _) again =
    ap (with_token files fuel p s (finish (some p) s)) (strtok_r-none slash) ∙ finish_at p m s e
behind_child files s fuel p _ c m _ e (below _ i d q vs _ f path) again =
    ap (with_token files fuel p s (finish (some p) s))
      (strtok_r-saved (files.name_of (value_of d)) vs f.1.2 f.1.1)
    ∙ again (files.name_of (value_of d)) vs refl (below c i d q vs m f path)

walk-Leads :
    (files : Files)
    → (root : Node) → (s : Vfs) → s.file_tree.head ≡ some root
    → (fuel : ℕ) → (p q : Position) → (n m : Node) → (w : CString) → (ws : List CString)
    → length ws < fuel
    → node_at p root ≡ some n
    → Leads files n q (w ∷ ws) m
    → walk files fuel w (saved ws) (some p) s ≡ ok (answer (some (value_of m)), s)
walk-Leads files root s h zero p q n m w ws l e path = grind (arith, l)
walk-Leads files root s h (suc fuel) p _ n m _ _ l e (below _ i c q ws _ f path) =
    let at = node_at-snoc p i root n c e f.0 in
    walk_child files fuel p i n c (saved ws) s (node_of-head root n s p h e) f
    ∙ behind_child files s fuel (p ++ i ∷ []) q c m ws (node_of-head root c s (p ++ i ∷ []) h at)
        path
        (λ v vs same further.
          walk-Leads files root s h fuel (p ++ i ∷ []) q c m v vs (omega (arith, l, ap length same))
            at further)

-- the path is not only a slash
pub join-slash :
    (w : CString)
    → (ws : List CString) → w ≢ []
    → IsString w
    → (strcmp (join (w ∷ ws)) slash == 0) ≡ false
unfolding strcmp
join-slash [] ws n p = elim (n refl) [ ]
join-slash (c ∷ w) ws n (a, b, p) = ground arith

pub length-join : (names : List CString) → length names ≤ length (join names)
length-join [] = omega arith
length-join (w ∷ ws) = omega (arith, length-append w (join ws), length-join ws)

walk_from-join :
    (files : Files)
    → (s : Vfs) → (root m : Node) → (q : Position) → (w : CString) → (ws : List CString)
    → s.file_tree.head ≡ some root
    → w ≢ []
    → IsName w
    → Leads files root q (w ∷ ws) m
    → walk_from files (join (w ∷ ws)) [] s ≡ ok (answer (some (value_of m)), s)
unfolding walk_from node_at
walk_from-join files s root m q w ws h n p path =
    ap (with_token files (suc (length (join (w ∷ ws)))) [] s (ok (answer none, s)))
      (strtok_r-join w ws n p)
    ∙ walk-Leads files root s h (suc (length (join (w ∷ ws)))) [] q root m w ws
        (omega (arith, length-join (w ∷ ws))) refl path

-- An absolute path through names of files leads `resolve_path` to the node below the head that these
-- names lead to, and the tree stays as it is.
pub resolve_path-join :
    (files : Files)
    → (rounds : ℕ) → (cwd : CString) → (s : Vfs) → (root m : Node) → (p : Position) → (w : CString)
    → (ws : List CString) → s.file_tree.head ≡ some root
    → Leads files root p (w ∷ ws) m
    → resolve_path files rounds cwd (join (w ∷ ws)) s ≡ ok (answer (some (value_of m)), s)
unfolding resolve_path
resolve_path-join files rounds cwd s root m _ _ _ h (below _ i c q ws _ f path) =
    rw (join-slash (files.name_of (value_of c)) ws f.1.2 f.1.0) (
      walk_from-join files s root m (i ∷ q) (files.name_of (value_of c)) ws h f.1.2 f.1.1
        (below root i c q ws m f path))
