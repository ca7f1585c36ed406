-- ===== src/Vfs.antt =====
-- kernel/fs/vfs.c: the lookup of a path in the tree of files. A file is a number, the value of its
-- node in `file_tree`; the head of the tree is at the empty position.
pub mod Ends
pub mod Names
pub mod Lookup
pub mod Cwd
pub mod Missing
pub mod Grow
pub mod Mount
pub mod Mounted
mod Tests
use night_os.Base.{
  ℕ, zero, suc, ◌+◌, Bool, true, false, Option, none, some, List, [], ◌∷◌, ◌++◌, length, ◌==◌,
  if◌then◌else◌, Run, ok, fault, out_of_fuel, ◌>>=◌, ◌>>◌,
}
use night_os.Str.{CString, strcmp, strtok_r, first}
use night_os.Tree.{
  Node, node, Children, leaf, child, Position, value_of, children_of, node_at, parent, insert_child,
  Tree,
}

-- the fields of the file nodes: the name, and the function of the driver, which returns the file
-- that it finds in a directory by name, or none for NULL. It is a function that always returns and
-- has no effect: drivers that keep state, sleep or fault are left out.
pub record Files : Type 0 where
  pub name_of : ℕ → CString
  pub find_dir : ℕ → Option (CString → Option ℕ)

-- `root_node`, none for NULL, and `file_tree`
pub record Vfs : Type 0 where
  pub root_node : Option ℕ
  pub file_tree : Tree

-- the node that `resolve_path` returns, and what it writes to `outParent` and `outFileName`
pub record Answer : Type 0 where
  pub result : Option ℕ
  pub out_parent : Option ℕ
  pub out_file_name : Option CString

abbrev pub slash : CString
slash = 47 ∷ []

abbrev pub dot : CString
dot = 46 ∷ []

abbrev pub dot_dot : CString
dot_dot = 46 ∷ 46 ∷ []

abbrev pub answer : Option ℕ → Answer
answer o = record { result = o; out_parent = none; out_file_name = none }

-- the answer for a path whose last name is missing in a directory
abbrev pub only_parent : ℕ → CString → Answer
only_parent file name = record { result = none; out_parent = some file; out_file_name = some name }

-- the node that a pointer into the tree points to
abbrev pub node_of : Position → Vfs → Option Node
node_of p s = elim s.file_tree.head [ none ↦ none | some n ↦ node_at p n ]

-- the loop of `get_child`: the number of the first child with the name
unfoldable pub get_child : Files → CString → ℕ → Children → Option ℕ
get_child files name i leaf = none
get_child files name i (child n cs) =
    let later = get_child files name (suc i) cs in
    if strcmp name (files.name_of (value_of n)) == 0 then some i else later

-- `cache_node`; the mark `cached`, which only drivers read, is left out
abbrev pub cache_node : Position → ℕ → Vfs → Position × Vfs
cache_node p file s =
    let r = insert_child (some p) file s.file_tree in (r.0, record s { file_tree = r.1 })

-- the end of `resolve_path`, behind the loop over the path
unfoldable pub finish : Option Position → Vfs → Run (Answer × Vfs)
finish none s = ok (answer none, s)
finish (some p) s = elim (node_of p s) [
  | none ↦ fault
  | some n ↦ ok (answer (some (value_of n)), s)
]

-- how the loop goes on with `current`, and with the tree
abbrev pub Further : Type 0
Further = Option Position → Vfs → Run (Answer × Vfs)

-- the part of the loop over the path for ".."
unfoldable pub go_up : Option Position → Further → Vfs → Run (Answer × Vfs)
go_up none further s = fault
go_up (some []) further s = ok (answer s.root_node, s)
go_up (some (i ∷ p)) further s = further (some (parent i p)) s

-- the part for what the driver of the directory `dir` finds
unfoldable pub ask_driver :
    Option ℕ → Option CString → ℕ → CString → Position → Further → Vfs → Run (Answer × Vfs)
ask_driver (some file) none dir name p further s = ok (answer (some file), (cache_node p file s).1)
ask_driver (some file) (some pch) dir name p further s =
    let cached = cache_node p file s in further (some cached.0) cached.1
ask_driver none none dir name p further s = ok (only_parent dir name, s)
ask_driver none (some pch) dir name p further s = ok (answer none, s)

-- the part for a name that no child has
unfoldable pub not_cached :
    Option (CString → Option ℕ)
    → Option CString
    → ℕ
    → CString
    → Position
    → Further
    → Vfs
    → Run (Answer × Vfs)
not_cached (some find) pch dir name p further s = ask_driver (find name) pch dir name p further s
not_cached none none dir name p further s = ok (only_parent dir name, s)
not_cached none (some pch) dir name p further s = further none s

-- the part for a name, with the child that has it
unfoldable pub enter :
    Files → Option ℕ → Option CString → ℕ → CString → Position → Further → Vfs → Run (Answer × Vfs)
enter files (some i) pch dir name p further s = further (some (p ++ i ∷ [])) s
enter files none pch dir name p further s = not_cached (files.find_dir dir) pch dir name p further s

-- the part for a name, with `current` and its node
unfoldable pub enter_at :
    Files → Option Node → Option CString → CString → Position → Further → Vfs → Run (Answer × Vfs)
enter_at files none pch name p further s = fault
enter_at files (some n) pch name p further s =
    enter files (get_child files name 0 (children_of n)) pch (value_of n) name p further s

unfoldable pub go_down :
    Files → Option Position → Option CString → CString → Further → Vfs → Run (Answer × Vfs)
go_down files none pch name further s = fault
go_down files (some p) pch name further s = enter_at files (node_of p s) pch name p further s

-- the loop over the path: the token, `save`, and `current`, which may be NULL
unfoldable pub walk :
    Files → ℕ → CString → Option CString → Option Position → Vfs → Run (Answer × Vfs)
walk files zero name save current s = out_of_fuel
walk files (suc fuel) name save current s =
    let next = strtok_r none slash save in
    let further : Further =
      λ c t. elim next.0 [ none ↦ finish c t | some pch ↦ walk files fuel pch next.1 c t ] in
    if strcmp name dot_dot == 0
    then go_up current further s
    else if strcmp name dot == 0
    then further current s
    else go_down files current next.0 name further s

-- where the loop over the working directory ends: with `return root_node`, or with `fCwd`
pub data Start : Type 0 where
  at_root : Start
  from : Position → Start

-- how that loop goes on with `current`, and with the tree
abbrev pub CwdFurther : Type 0
CwdFurther = Position → Vfs → Run (Start × Vfs)

-- the part of the loop for ".."
unfoldable pub cwd_up : Position → CwdFurther → Vfs → Run (Start × Vfs)
cwd_up [] further s = ok (at_root, s)
cwd_up (i ∷ p) further s = further (parent i p) s

-- the part for what the driver finds
unfoldable pub cwd_ask : Option ℕ → Position → CwdFurther → Vfs → Run (Start × Vfs)
cwd_ask (some file) p again s = let cached = cache_node p file s in again cached.0 cached.1
cwd_ask none p again s = ok (from [], s)

-- the part for a name that no child has
unfoldable pub cwd_not_cached :
    Option (CString → Option ℕ) → CString → Position → CwdFurther → Vfs → Run (Start × Vfs)
cwd_not_cached (some find) name p again s = cwd_ask (find name) p again s
cwd_not_cached none name p again s = ok (from [], s)

-- the part for a name, with the child that has it
unfoldable pub cwd_enter :
    Files → Option ℕ → ℕ → CString → Position → CwdFurther → Vfs → Run (Start × Vfs)
cwd_enter files (some i) dir name p again s = again (p ++ i ∷ []) s
cwd_enter files none dir name p again s = cwd_not_cached (files.find_dir dir) name p again s

-- the part for a name, with the node of `current`
unfoldable pub cwd_down :
    Files → Option Node → CString → Position → CwdFurther → Vfs → Run (Start × Vfs)
cwd_down files none name p again s = fault
cwd_down files (some n) name p again s =
    cwd_enter files (get_child files name 0 (children_of n)) (value_of n) name p again s

-- the loop over the working directory; behind a name it goes on with the same token
unfoldable pub cwd_walk : Files → ℕ → CString → Option CString → Position → Vfs → Run (Start × Vfs)
cwd_walk files zero name save current s = out_of_fuel
cwd_walk files (suc fuel) name save current s =
    let next = strtok_r none slash save in
    let further : CwdFurther = λ c t. elim next.0 [
      | none ↦ ok (from c, t)
      | some pch ↦ cwd_walk files fuel pch next.1 c t
    ] in
    let again : CwdFurther = λ c t. cwd_walk files fuel name save c t in
    if strcmp name dot_dot == 0
    then cwd_up current further s
    else if strcmp name dot == 0
    then further current s
    else cwd_down files (node_of current s) name current again s

-- the part of `resolve_path` for the working directory; without a token, `fCwd` is the head
unfoldable pub start_from : Files → ℕ → CString → Vfs → Run (Start × Vfs)
start_from files rounds cwd s =
    let t = strtok_r (some cwd) slash none in
    elim t.0 [ none ↦ ok (from [], s) | some pch ↦ cwd_walk files rounds pch t.1 [] s ]

-- the part of `resolve_path` for the path; without a token, no child has the name NULL
unfoldable pub walk_from : Files → CString → Position → Vfs → Run (Answer × Vfs)
walk_from files file p s =
    let t = strtok_r (some file) slash none in
    elim t.0 [
      | none ↦ ok (answer none, s)
      | some pch ↦ walk files (suc (length file)) pch t.1 (some p) s
    ]

abbrev pub walk_after : Files → CString → Start × Vfs → Run (Answer × Vfs)
walk_after files file (at_root, s) = ok (answer s.root_node, s)
walk_after files file (from p, s) = walk_from files file p s

-- `resolve_path`, with the rounds that the loop over the working directory is given
unfoldable pub resolve_path : Files → ℕ → CString → CString → Vfs → Run (Answer × Vfs)
resolve_path files rounds cwd file s =
    if strcmp file slash == 0
    then ok (answer s.root_node, s)
    else if first file == 47
    then walk_from files file [] s
    else (start_from files rounds cwd s >>= walk_after files file)
