-- ===== src/Mutex/Tests.antt =====
-- The theorems about the mutex at concrete processes.
use night_os.Base.{ℕ, ◌≡◌, ◌≢◌, refl, arith, if◌then◌else◌, ◌==◌}
use night_os.Mutex.Protocol.{
  World, to_own, outside, locking, call, round, attempt, Reach, start, next, initial, after_round,
  after_try,
}
use night_os.Mutex.LostWakeup.{Stranded, lost_wakeup}

-- process 7 with the mutex, and process 8 whose mutex_acquire has found it taken
abbrev taken : World
taken = after_try 7 initial

abbrev late : World
late =
    after_round to_own 8
      (record taken { place = λ q. if q == 8 then locking to_own else taken.place q })

abbrev Reach-taken : Reach initial taken
Reach-taken = next start (attempt 7 refl)

Reach-late : Reach initial late
unfolding after_try after_round
Reach-late = next (next Reach-taken (call to_own 8 refl)) (round to_own 8 refl)

others : (r : ℕ) → r ≢ 8 → r ≢ 7 → late.place r ≡ outside
unfolding after_round after_try
others r n m = ground (arith, n, m)

lost_wakeup_example : (w : World) × Reach initial w × Stranded to_own 8 w
unfolding after_round after_try
lost_wakeup_example = lost_wakeup to_own 8 7 late Reach-late refl refl others
