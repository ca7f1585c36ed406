-- ===== src/Scheduler/Tests.antt =====
-- The theorems about the scheduler at a concrete state.
use night_os.Base.{
  ◌≡◌, ◌==◌, if◌then◌else◌, refl, false, none, some, [], ◌∷◌, List, arith, ok, blocked, Returns,
}
use night_os.Base.Int.{pos}
use night_os.Scheduler.{Scheduler, schedule_process, wakeup_sleeping, wakeup_now, sleep}
use night_os.Scheduler.Rotate.{schedule_times, schedule_times-reaches}
use night_os.Scheduler.Calls.{
  Call, switch, going_asleep, tick, perform_all, Keeps, perform_all-Keeps,
}
use night_os.Scheduler.Waking.{AreEarly, wakeup_sleeping-first, locked, wakeup_now-deadlock}

-- Process 1 runs, 2 and 3 wait for the processor, 4 sleeps until tick 50, and 5 and 6 until tick 10.
abbrev busy : Scheduler
busy = record {
  current_process = some 1;
  previous_process = none;
  kernel_idle_process = 0;
  core = pos 0;
  thread_queue = 2 ∷ 3 ∷ [];
  sleeping_queue = 4 ∷ 5 ∷ 6 ∷ [];
  sleep_lock = false;
  on_cpu = λ p. false;
  sleep_interruptible = λ p. false;
  sleep_tick = λ p. if p == 4 then 50 else 10;
  cpu = λ p. pos 0;
}

schedule_times-reaches_example : (schedule_times 2 busy).current_process ≡ some 3
schedule_times-reaches_example = schedule_times-reaches 1 busy 1 3 refl refl

abbrev calls : List Call
calls = tick 20 ∷ going_asleep 20 100 ∷ switch ∷ tick 21 ∷ []

perform_all-Keeps_example : Returns (perform_all calls busy) (Keeps 5 busy)
perform_all-Keeps_example =
    perform_all-Keeps calls 5 busy (refl, (1, refl)) (λ e. absurd (omega (arith, e)))

wakeup_sleeping-first_example :
    wakeup_sleeping 20 busy
    ≡ ok (schedule_process 5 (record busy { sleeping_queue = 4 ∷ 6 ∷ []; sleep_lock = false }))
unfolding AreEarly
wakeup_sleeping-first_example =
    wakeup_sleeping-first busy 20 (4 ∷ []) 5 (6 ∷ []) refl refl (refl, tt) refl

wakeup_now-deadlock_example :
    (wakeup_now 5 busy ≡ ok (false, locked busy))
    × (wakeup_sleeping 20 (locked busy) ≡ blocked)
    × (sleep 20 100 (locked busy) ≡ blocked)
wakeup_now-deadlock_example = wakeup_now-deadlock busy 5 1 20 100 refl refl refl
