-- ===== src/Syscalls/Tests.antt =====
-- The theorems about the calls on an open file at a concrete table and drivers.
use night_os.Base.{
  ℕ, ◌+◌, ◌-◌, ◌≡◌, refl, true, none, some, [], ◌∷◌, List, sub64, arith, ok, fault, ◌>>=◌,
  if◌then◌else◌, leb,
}
use night_os.Base.Int.{pos}
use night_os.Descriptors.{FileHandle, FdTable, opened, Drivers}
use night_os.Descriptors.Slots.{count}
use night_os.Descriptors.Inv.{IsValid}
use night_os.Paging.{check_user, is_null, get_from_physical}
use night_os.Syscalls.{
  advance, check_ptr, failed, sys_read, sys_write, sys_pread64, sys_lseek, seek_set, sys_readv,
  sys_dup,
}
use night_os.Syscalls.Found.{moved}
use night_os.Syscalls.Reading.{lseek-read, sys_read-write_only}
use night_os.Syscalls.Vectors.{read_each, AreUser, sys_readv-read_each}
use night_os.Syscalls.Dup.{Duplicated, sys_dup-Duplicated}
use night_os.Syscalls.Outside.{Refused, beyond-Refused}

-- A read takes what is asked for, up to the size 100 of every file; all memory is mapped to user
-- pages.
abbrev drivers : Drivers ℕ
drivers = record {
  read_op = λ node buffer offset length w.
      ok (pos (if leb (offset + length) 100 then length else 100 - offset), w + 1);
  write_op = λ node buffer offset length w. ok (pos length, w + 1);
  close_op = λ node. none;
  ioctl_op = λ node. none;
  file_type = λ node. 0;
  size = λ node w. 100;
  page_tables = λ w. record {
    frames = record { memory_map = λ i. 1; idx = pos 3 };
    memory = λ f i. 4096 + 135;
    pml = 65536;
  };
}

abbrev readable : FileHandle
readable = opened 7 0

abbrev write_only : FileHandle
write_only = opened 8 1

abbrev table : FdTable
table = record {
  capacity = 3;
  length = pos 2;
  handles = some readable ∷ none ∷ some write_only ∷ [];
}

table-IsValid : IsValid table
unfolding count
table-IsValid = record { sized = refl; counted = refl }

accepted : (w : ℕ) → check_ptr drivers 4096 w ≡ true
unfolding check_user is_null get_from_physical
accepted w = refl

lseek-read_example :
    (sys_lseek drivers (pos 0) 90 seek_set table 0 >>= λ (_, t).
    sys_read drivers (pos 0) 4096 20 t 0)
    ≡ (sys_pread64 drivers (pos 0) 4096 20 90 table 0 >>= λ (n, w).
        ok (n, moved 0 (advance n (record readable { offset = 90 })) table, w))
lseek-read_example = lseek-read drivers table-IsValid 0 readable 4096 20 90 0 refl refl (accepted 0)

sys_read-write_only_example :
    sys_read drivers (pos 2) 4096 20 table 0
    ≡ ok (failed, moved 2 (record write_only { offset = sub64 0 1 }) table, 0)
sys_read-write_only_example =
    sys_read-write_only drivers table-IsValid 2 write_only 4096 20 0 refl refl (accepted 0)

abbrev vector : List (ℕ × ℕ)
vector = (4096, 60) ∷ (4096, 60) ∷ []

sys_readv-read_each_example :
    sys_readv drivers (pos 0) 4096 vector table 0 ≡ read_each drivers vector (pos 0) (pos 0) table 0
unfolding AreUser
sys_readv-read_each_example =
    sys_readv-read_each drivers table-IsValid 0 readable 4096 vector 0 refl (accepted 0)
      (accepted, (accepted, tt))

sys_dup-Duplicated_example : Duplicated write_only table (sys_dup (pos 2) table)
sys_dup-Duplicated_example = sys_dup-Duplicated table-IsValid 2 write_only refl

beyond-Refused_example :
    (sys_read drivers (pos 3) 4096 20 table 0 ≡ fault)
    × Refused drivers 3 table 0 (sys_write drivers (pos 3) 4096 20 table 0)
beyond-Refused_example = beyond-Refused drivers table-IsValid 3 4096 20 0 (omega arith)
