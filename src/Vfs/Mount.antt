-- ===== src/Vfs/Mount.antt =====
-- kernel/fs/vfs.c: mount_directly, with the sizes of the files, which only it changes here.
use night_os.Base.{
  ℕ, ◌+◌, ◌%◌, ◌^◌, ◌&&◌, Option, none, some, ◌==◌, if◌then◌else◌, Run, ok, fault, ◌>>=◌,
}
use night_os.Str.{CString, strlen, first}
use night_os.Tree.{Node, node, Position, children_of, insert_child, find_child}
use night_os.Vfs.{Files, Vfs, Answer, slash, resolve_path}

-- `file_tree`, `root_node` and the sizes of the files
abbrev pub Sized : Type 0
Sized = Vfs × (ℕ → ℕ)

-- `size` of a file, a `uint64_t`, with some more
abbrev pub add_size : ℕ → ℕ → (ℕ → ℕ) → ℕ → ℕ
add_size file more sizes f = if f == file then (sizes f + more) % 2 ^ 64 else sizes f

-- the size that the file gets from the root that it replaces
abbrev pub add_root : Option ℕ → ℕ → (ℕ → ℕ) → ℕ → ℕ
add_root none file sizes = sizes
add_root (some old) file sizes = add_size file (sizes old) sizes

-- the part of `mount_directly` for the root
unfoldable pub mount_root : Option Node → ℕ → Sized → Run (ℕ × Sized)
mount_root none file (s, sizes) = fault
mount_root (some head) file (s, sizes) = ok (
  0,
  (
    record s {
      root_node = some file;
      file_tree = record s.file_tree { head = some (node file (children_of head)) };
    },
    add_root s.root_node file sizes,
  ),
)

-- the part for the node of the parent, which `tree_find_child_root` finds
unfoldable pub mount_under : Option Position → ℕ → ℕ → Sized → Run (ℕ × Sized)
mount_under none dir file (s, sizes) = ok (2, (s, sizes))
mount_under (some p) dir file (s, sizes) =
    ok (
      0,
      (record s { file_tree = (insert_child (some p) file s.file_tree).1 }, add_size dir 1 sizes),
    )

-- the part for the search from the head
unfoldable pub mount_in : Option Node → ℕ → ℕ → Sized → Run (ℕ × Sized)
mount_in none dir file state = fault
mount_in (some root) dir file state = mount_under (find_child dir root) dir file state

-- the part for what `resolve_path` writes to `parent`
unfoldable pub mount_parent : Option ℕ → ℕ → Sized → Run (ℕ × Sized)
mount_parent none file (s, sizes) = ok (1, (s, sizes))
mount_parent (some dir) file (s, sizes) = mount_in s.file_tree.head dir file (s, sizes)

abbrev pub mount_after : ℕ → (ℕ → ℕ) → Answer × Vfs → Run (ℕ × Sized)
mount_after file sizes (a, s) = mount_parent a.out_parent file (s, sizes)

-- `mount_directly`, with the rounds for `resolve_path`
unfoldable pub mount_directly : Files → ℕ → CString → ℕ → Sized → Run (ℕ × Sized)
mount_directly files rounds name file (s, sizes) =
    if (strlen name == 1) && (first name == 47)
    then mount_root s.file_tree.head file (s, sizes)
    else (resolve_path files rounds slash name s >>= mount_after file sizes)
