-- ===== src/Scheduler/Waking.antt =====
-- kernel/proc/process.c: wakeup_sleeping and wakeup_now.
use night_os.Base.{
  ℕ, ◌≡◌, refl, true, false, not, ◌||◌, some, List, [], ◌∷◌, ◌++◌, arith, leb, ok, blocked,
}
use night_os.Base.Int.{ℤ, pos, negsuc, eq_ℤ}
use night_os.Scheduler.{
  Scheduler, spin_lock, schedule_process, wake_loop, woken, wakeup_sleeping, wakeup_now, sleep,
  sleep_as,
}

-- none of the processes is due
unfoldable pub AreEarly : (ℕ → ℕ) → ℕ → List ℕ → Type 0
AreEarly tick counter [] = Unit
AreEarly tick counter (p ∷ q) = (leb (tick p) counter ≡ false) × AreEarly tick counter q

wake_loop-first :
    (tick : ℕ → ℕ) (counter : ℕ) (before : List ℕ) (p : ℕ) (behind : List ℕ)
    → AreEarly tick counter before
    → leb (tick p) counter ≡ true
    → wake_loop tick counter (before ++ p ∷ behind) ≡ (some p, before ++ behind)
unfolding AreEarly wake_loop
wake_loop-first tick counter [] p behind early due = rw (due) refl
wake_loop-first tick counter (q ∷ before) p behind (here, early) due =
    rw (here) (rw (wake_loop-first tick counter before p behind early due) refl)

-- While sleep_lock is free, wakeup_sleeping moves the first process of the sleeping queue that is
-- due to the end of the run queue, and leaves all others where they are, those behind it that are
-- due as well.
pub wakeup_sleeping-first :
    (s : Scheduler) (counter : ℕ) (before : List ℕ) (p : ℕ) (behind : List ℕ)
    → s.sleep_lock ≡ false
    → s.sleeping_queue ≡ before ++ p ∷ behind
    → AreEarly s.sleep_tick counter before
    → leb (s.sleep_tick p) counter ≡ true
    → wakeup_sleeping counter s
      ≡ ok (schedule_process p (record s { sleeping_queue = before ++ behind; sleep_lock = false }))
unfolding wakeup_sleeping spin_lock woken
wakeup_sleeping-first s counter before p behind free e early due =
    rw (free) (rw (e) (rw (wake_loop-first s.sleep_tick counter before p behind early due) refl))

-- the two tests of `wakeup_now`
one_differs :
    (a b : ℤ) → eq_ℤ b (negsuc 0) ≡ false → (not (eq_ℤ a b) || not (eq_ℤ a (negsuc 0))) ≡ true
one_differs (pos a) (pos b) e = ground arith
one_differs (pos a) (negsuc b) e = refl
one_differs (negsuc a) (pos b) e = refl
one_differs (negsuc a) (negsuc b) e = ground (arith, e)

-- the scheduler with sleep_lock held
abbrev pub locked : Scheduler → Scheduler
locked s = record s { sleep_lock = true }

-- On a processor whose number is not -1, while sleep_lock is free, wakeup_now of any process
-- returns false, wakes nobody and leaves sleep_lock held; wakeup_sleeping, and sleep of the running
-- process, then wait for the lock without end.
pub wakeup_now-deadlock :
    (s : Scheduler) (p c counter milliseconds : ℕ)
    → s.sleep_lock ≡ false
    → s.current_process ≡ some c
    → eq_ℤ s.core (negsuc 0) ≡ false
    → (wakeup_now p s ≡ ok (false, locked s))
      × (wakeup_sleeping counter (locked s) ≡ blocked)
      × (sleep counter milliseconds (locked s) ≡ blocked)
unfolding wakeup_now wakeup_sleeping spin_lock sleep sleep_as
wakeup_now-deadlock s p c counter milliseconds free e core =
    (rw (free) (rw (one_differs (s.cpu p) s.core core) refl), refl, rw (e) refl)
