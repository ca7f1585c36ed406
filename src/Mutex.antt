-- ===== src/Mutex.antt =====
-- kernel/sys/mutex.c: the operations that the ring buffer uses as a wait queue.
pub mod Protocol
pub mod Exclusion
pub mod LostWakeup
mod Tests
use night_os.Base.{ℕ, Bool, true, false, Option, none, some, List, [], ◌∷◌, ◌++◌}

abbrev pub Pid : Type 0
Pid = ℕ

-- `mutex_t`. Each operation runs with `lock` held, so that it is one step and `lock` is left out.
pub record Mutex : Type 0 where
  pub owner : Option Pid
  pub waiting : List Pid

abbrev pub init : Mutex
init = record { owner = none; waiting = [] }

-- `mutex_acquire_if_free`, called by `current`
unfoldable pub acquire_if_free : Pid → Mutex → Bool × Mutex
acquire_if_free current m = elim m.owner [
  | some p ↦ (false, m)
  | none ↦ (true, record m { owner = some current })
]

-- `mutex_release`, with the processes that it puts on the thread queue
unfoldable pub release : Mutex → Mutex × List Pid
release m = (record m { owner = none; waiting = [] }, m.waiting)

-- the test and the write of `mutex_acquire` under the lock: whether the loop ends
unfoldable pub acquire_round : Pid → Mutex → Bool × Mutex
acquire_round current m = elim m.owner [
  | some p ↦ (false, m)
  | none ↦ (true, record m { owner = some current })
]

-- the test of `mutex_wait` under the lock: whether the loop ends
unfoldable pub wait_round : Mutex → Bool
wait_round m = elim m.owner [ some p ↦ false | none ↦ true ]

-- the section of `wait_for_object` under the lock, before `schedule(true)`
unfoldable pub wait_for_object : Pid → Mutex → Mutex
wait_for_object current m = record m { waiting = m.waiting ++ current ∷ [] }
