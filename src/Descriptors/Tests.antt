-- ===== src/Descriptors/Tests.antt =====
-- The theorems about the table of open files at concrete tables.
use night_os.Base.{
  ℕ, ◌+◌, ◌≡◌, ◌≢◌, refl, none, some, [], ◌∷◌, replicate, arith, ok, Returns, if◌then◌else◌, ◌==◌,
}
use night_os.Base.Int.{pos}
use night_os.Descriptors.{
  first_free, load, store, close_node, FdTable, new_table, opened, open_fd, Drivers, sys_close,
  close_files, release,
}
use night_os.Descriptors.Slots.{count, held}
use night_os.Descriptors.Inv.{IsValid, Opened, open_fd-Opened, with_handle}
use night_os.Descriptors.Close.{sys_close-open_fd}
use night_os.Descriptors.Reach.{created, opening, Reach-IsValid}
use night_os.Descriptors.Release.{release-held, close_files-free}

-- Reading and writing take three bytes; the state counts the calls for closing file 7.
abbrev drivers : Drivers ℕ
drivers = record {
  read_op = λ node buffer offset length w. ok (pos 3, w);
  write_op = λ node buffer offset length w. ok (pos 3, w);
  close_op = λ node. if node == 7 then some (λ w. ok (w + 1)) else none;
  ioctl_op = λ node. none;
  file_type = λ node. 0;
  size = λ node w. 100;
  page_tables = λ w. record {
    frames = record { memory_map = λ i. 1; idx = pos 3 };
    memory = λ f i. 4096 + 135;
    pml = 65536;
  };
}

-- slots 0 and 2 are in use, slot 1 is free
abbrev table : FdTable
table = record {
  capacity = 3;
  length = pos 2;
  handles = some (opened 7 0) ∷ none ∷ some (opened 8 1) ∷ [];
}

table-IsValid : IsValid table
unfolding count
table-IsValid = record { sized = refl; counted = refl }

open_fd-Opened_example : Returns (open_fd 9 0 table) (Opened 9 0 table)
open_fd-Opened_example = open_fd-Opened table-IsValid 9 0

opens_second : open_fd 9 0 table ≡ ok (pos 1, with_handle 1 (opened 9 0) table)
unfolding open_fd first_free load store
opens_second = refl

sys_close-open_fd_example :
    sys_close drivers (pos 1) (with_handle 1 (opened 7 0) table) 5 ≡ ok (pos 0, table, 6)
unfolding open_fd first_free load store close_node
sys_close-open_fd_example =
    sys_close-open_fd drivers table-IsValid 7 0 1 (with_handle 1 (opened 7 0) table) 5 6
      (omega arith) refl refl

Reach-IsValid_example :
    IsValid (with_handle 0 (opened 7 0) (new_table 2)) × ((new_table 2).capacity ≡ 2)
unfolding open_fd first_free load store
Reach-IsValid_example =
    Reach-IsValid drivers 2 (with_handle 0 (opened 7 0) (new_table 2))
      (opening (new_table 2) (with_handle 0 (opened 7 0) (new_table 2)) 7 0 (pos 0) created refl)

release-held_example : release table ≡ ok (held table.handles, replicate 3 none)
release-held_example = release-held table-IsValid

close_files-free_example : close_files drivers table 0 ≢ ok (new_table 3, 1)
unfolding count
close_files-free_example =
    close_files-free drivers table-IsValid 0 (new_table 3) 1 (omega arith) (omega arith)
