-- ===== src/Scheduler/Calls.antt =====
-- kernel/proc/process.c: any sequence of timer ticks, sleeps and switches.
use night_os.Base.{
  ℕ, ◌+◌, ◌/◌, ◌≡◌, ◌≢◌, refl, ap, ◌∙◌, true, false, Option, none, some, List, [], ◌∷◌, ◌++◌, arith,
  add64, Run, ok, fault, Returns, ◌>>=◌,
}
use night_os.Scheduler.{
  Scheduler, schedule, spin_lock, spin_unlock, mark_asleep, sleep, sleep_as, wake_loop, woken,
  wakeup_sleeping,
}
use night_os.Scheduler.Accounts.{
  holds, count_of, count_of-snoc, occurrences, schedule-Follows, schedule-count, leave-asleep,
  occurrences-schedule, wake_loop-count,
}

-- a switch that puts the running process back, its sleep, with what get_counter returns and the
-- time, and a tick of the timer
pub data Call : Type 0 where
  switch : Call
  going_asleep : ℕ → ℕ → Call
  tick : ℕ → Call

unfoldable pub perform : Call → Scheduler → Run Scheduler
perform switch s = ok (schedule false s)
perform (going_asleep counter milliseconds) s = sleep counter milliseconds s
perform (tick counter) s = wakeup_sleeping counter s

unfoldable pub perform_all : List Call → Scheduler → Run Scheduler
perform_all [] s = ok s
perform_all (call ∷ calls) s = perform call s >>= λ s. perform_all calls s

-- sleep_lock is free and a process runs
abbrev pub IsReady : Scheduler → Type 0
IsReady s = (s.sleep_lock ≡ false) × ((c : ℕ) × (s.current_process ≡ some c))

-- the state behind a call, with the process `p` as often in it as before
abbrev pub Keeps : ℕ → Scheduler → Scheduler → Type 0
Keeps p s s' =
    IsReady s'
    × (s'.kernel_idle_process ≡ s.kernel_idle_process)
    × (occurrences p s' ≡ occurrences p s)

switch-Keeps :
    (p : ℕ) (s : Scheduler)
    → IsReady s
    → p ≢ s.kernel_idle_process
    → Returns (perform switch s) (Keeps p s)
unfolding perform
switch-Keeps p s (free, (c, e)) n =
    let ((l, i, q), r) = schedule-Follows false s c e in
    (schedule false s, refl, ((l ∙ free, r), i, occurrences-schedule p c s e n))

-- the state behind the wake-up of a process, if there is one
after : Scheduler → Option ℕ × List ℕ → Scheduler
after s (o, q) = spin_unlock (woken o (record s { sleeping_queue = q; sleep_lock = true }))

after-Keeps :
    (p : ℕ) (s : Scheduler) (r : Option ℕ × List ℕ)
    → IsReady s
    → holds p r.0 + count_of p r.1 ≡ count_of p s.sleeping_queue
    → Keeps p s (after s r)
unfolding after woken occurrences holds
after-Keeps p s (none, q) (free, (c, e)) h = ((refl, (c, e)), refl, omega (arith, h))
after-Keeps p s (some x, q) (free, (c, e)) h =
    ((refl, (c, e)), refl, omega (arith, h, count_of-snoc p x s.thread_queue))

tick-Keeps :
    (counter p : ℕ) (s : Scheduler) → IsReady s → Returns (perform (tick counter) s) (Keeps p s)
unfolding perform wakeup_sleeping spin_lock after
tick-Keeps counter p s r =
    let found = wake_loop s.sleep_tick counter s.sleeping_queue in
    (
      after s found,
      rw (r.0) refl,
      after-Keeps p s found r (wake_loop-count p s.sleep_tick counter s.sleeping_queue),
    )

sleep-some :
    (counter milliseconds c : ℕ) (s : Scheduler)
    → s.current_process ≡ some c
    → sleep counter milliseconds s ≡ sleep_as counter milliseconds c s
unfolding sleep
sleep-some counter milliseconds c s e =
    ap (λ o. elim o [ none ↦ fault | some p ↦ sleep_as counter milliseconds p s ]) e

asleep-Keeps :
    (counter milliseconds p : ℕ) (s : Scheduler)
    → IsReady s
    → p ≢ s.kernel_idle_process
    → Returns (perform (going_asleep counter milliseconds) s) (Keeps p s)
unfolding perform sleep_as spin_lock occurrences
asleep-Keeps counter milliseconds p s (free, (c, e)) n =
    let until = add64 counter (milliseconds / 10 + 1) in
    let u = record (mark_asleep c until s) {
      sleeping_queue = s.sleeping_queue ++ c ∷ [];
      sleep_lock = false;
    } in
    let ((l, i, q), r) = schedule-Follows true u c e in
    (
      schedule true u,
      sleep-some counter milliseconds c s e ∙ rw (free) refl,
      (
        (l, r),
        i,
        omega (
          arith,
          schedule-count true p c u e n,
          ap (count_of p) (leave-asleep c u),
          count_of-snoc p c s.sleeping_queue,
          ap (holds p) e,
        ),
      ),
    )

call-Keeps :
    (call : Call) (p : ℕ) (s : Scheduler)
    → IsReady s
    → p ≢ s.kernel_idle_process
    → Returns (perform call s) (Keeps p s)
call-Keeps switch p s r n = switch-Keeps p s r n
call-Keeps (going_asleep counter milliseconds) p s r n = asleep-Keeps counter milliseconds p s r n
call-Keeps (tick counter) p s r n = tick-Keeps counter p s r

-- While sleep_lock is free and a process runs, any sequence of switches, sleeps of the running
-- process and timer ticks returns, leaves sleep_lock free and a process running, and leaves every
-- process but the idle one as often in all, running, in the run queue and in the sleeping queue, as
-- it was before.
pub perform_all-Keeps :
    (calls : List Call) (p : ℕ) (s : Scheduler)
    → IsReady s
    → p ≢ s.kernel_idle_process
    → Returns (perform_all calls s) (Keeps p s)
unfolding perform_all
perform_all-Keeps [] p s r n = (s, refl, (r, refl, refl))
perform_all-Keeps (call ∷ calls) p s r n =
    let (t, run, (r', i, same)) = call-Keeps call p s r n in
    let (u, run', (r'', i', same')) = perform_all-Keeps calls p t r' (λ q. n (q ∙ i)) in
    (u, rw (run) run', (r'', i' ∙ i, same' ∙ same))
