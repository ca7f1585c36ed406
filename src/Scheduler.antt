-- ===== src/Scheduler.antt =====
-- kernel/proc/process.c: the run queue, the sleeping queue, and the process that has the processor.
-- A process is a number. The two queues are the sequences that the lists stand for. An entry that
-- was freed keeps what was in it, as get_next_process and wakeup_sleeping rely on. The switch of
-- stacks and page tables that ends schedule is its new `current_process`.

pub mod Rotate
pub mod Accounts
pub mod Calls
pub mod Waking
mod Tests
use night_os.Base.{
  ℕ, zero, suc, ◌+◌, ◌-◌, ◌/◌, Bool, true, false, not, ◌&&◌, ◌||◌, Option, none, some, List, [],
  ◌∷◌, ◌++◌, ltb, leb, ◌==◌, if◌then◌else◌, add64, Run, ok, fault, blocked, ◌>>=◌,
}
use night_os.Base.Int.{ℤ, pos, negsuc, eq_ℤ}

-- the fields of `pcb` and the queues with their lock; of the processes, the two flags, `sleepTick`
-- and `cpu`
pub record Scheduler : Type 0 where
  pub current_process : Option ℕ
  pub previous_process : Option ℕ
  pub kernel_idle_process : ℕ
  pub core : ℤ
  pub thread_queue : List ℕ
  pub sleeping_queue : List ℕ
  pub sleep_lock : Bool
  pub on_cpu : ℕ → Bool
  pub sleep_interruptible : ℕ → Bool
  pub sleep_tick : ℕ → ℕ
  pub cpu : ℕ → ℤ

-- a field of one process written
abbrev pub update {ℓ} : {A : Type ℓ} → ℕ → A → (ℕ → A) → ℕ → A
update p a f q = if q == p then a else f q

-- `spin_lock` and `spin_unlock` of `sleep_lock`
unfoldable pub spin_lock : Scheduler → Run Scheduler
spin_lock s = if s.sleep_lock then blocked else ok (record s { sleep_lock = true })

abbrev pub spin_unlock : Scheduler → Scheduler
spin_unlock s = record s { sleep_lock = false }

-- `schedule_process`
abbrev pub schedule_process : ℕ → Scheduler → Scheduler
schedule_process p s = record s {
  sleep_interruptible = update p false s.sleep_interruptible;
  thread_queue = s.thread_queue ++ p ∷ [];
}

-- `get_next_process`
unfoldable pub first_of : List ℕ → Option ℕ × List ℕ
first_of [] = (none, [])
first_of (p ∷ q) = (some p, q)

unfoldable pub get_next_process : Scheduler → Option ℕ × Scheduler
get_next_process s =
    ((first_of s.thread_queue).0, record s { thread_queue = (first_of s.thread_queue).1 })

-- the part of `schedule` before the next process is taken
unfoldable pub leave : Bool → ℕ → Scheduler → Scheduler
leave sleep p s =
    let s' = record s { on_cpu = update p false s.on_cpu; previous_process = some p } in
    if (p == s.kernel_idle_process) || sleep then s' else schedule_process p s'

-- the part behind it
unfoldable pub run_next : Option ℕ × Scheduler → Scheduler
run_next (none, s) = record s { current_process = some s.kernel_idle_process }
run_next (some p, s) = record s { current_process = some p; on_cpu = update p true s.on_cpu }

-- `schedule`
unfoldable pub schedule : Bool → Scheduler → Scheduler
schedule sleep s = elim s.current_process [
  | none ↦ s
  | some p ↦ run_next (get_next_process (leave sleep p s))
]

-- the part of `sleep` that marks the process
abbrev pub mark_asleep : ℕ → ℕ → Scheduler → Scheduler
mark_asleep p until s = record s {
  sleep_tick = update p until s.sleep_tick;
  sleep_interruptible = update p true s.sleep_interruptible;
  on_cpu = update p false s.on_cpu;
}

-- `sleep` of the process that runs, for a time that is not negative; `counter` is what get_counter
-- returns
unfoldable pub sleep_as : ℕ → ℕ → ℕ → Scheduler → Run Scheduler
sleep_as counter milliseconds p s =
    spin_lock (mark_asleep p (add64 counter (milliseconds / 10 + 1)) s) >>= λ s.
    ok (schedule true (spin_unlock (record s { sleeping_queue = s.sleeping_queue ++ p ∷ [] })))

unfoldable pub sleep : ℕ → ℕ → Scheduler → Run Scheduler
sleep counter milliseconds s = elim s.current_process [
  | none ↦ fault
  | some p ↦ sleep_as counter milliseconds p s
]

-- the loop of `wakeup_sleeping`: the process that it wakes, and the queue that it leaves. list_delete
-- clears the `next` of the entry, so that the loop ends behind it.
unfoldable pub wake_loop : (ℕ → ℕ) → ℕ → List ℕ → Option ℕ × List ℕ
wake_loop tick counter [] = (none, [])
wake_loop tick counter (p ∷ q) =
    let (o, rest) = wake_loop tick counter q in
    if leb (tick p) counter then (some p, q) else (o, p ∷ rest)

-- what becomes of the process that it took out
unfoldable pub woken : Option ℕ → Scheduler → Scheduler
woken none s = s
woken (some p) s = schedule_process p s

-- `wakeup_sleeping`
unfoldable pub wakeup_sleeping : ℕ → Scheduler → Run Scheduler
wakeup_sleeping counter s = spin_lock s >>= λ s. ok (
    spin_unlock (
      woken (wake_loop s.sleep_tick counter s.sleeping_queue).0
        (record s { sleeping_queue = (wake_loop s.sleep_tick counter s.sleeping_queue).1 })))

-- list_find and list_delete of a process in the sleeping queue
unfoldable pub without : ℕ → List ℕ → List ℕ
without p [] = []
without p (q ∷ qs) = let rest = without p qs in if q == p then qs else q ∷ rest

unfoldable pub is_in : ℕ → List ℕ → Bool
is_in p [] = false
is_in p (q ∷ qs) = (q == p) || is_in p qs

-- `wakeup_now`
unfoldable pub wakeup_now : ℕ → Scheduler → Run (Bool × Scheduler)
wakeup_now p s = spin_lock s >>= λ s.
    if not (eq_ℤ (s.cpu p) s.core) || not (eq_ℤ (s.cpu p) (negsuc 0))
    then ok (false, s)
    else if is_in p s.sleeping_queue
    then ok (
      true,
      spin_unlock (
          schedule_process p (record s {
            sleep_tick = update p 0 s.sleep_tick;
            sleeping_queue = without p s.sleeping_queue;
          })),
    )
    else ok (true, spin_unlock s)
