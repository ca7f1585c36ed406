-- ===== src/Mutex/Protocol.antt =====
-- kernel/sys/mutex.c between any number of processes: mutex_acquire, mutex_wait, mutex_acquire_if_free
-- and mutex_release, which any process may call, as it has no test for the owner. Each section that
-- holds `mutex->lock` is one step; between two sections of a call, other processes may take any number
-- of steps. The timeout of mutex_acquire_timeout is left out.
use night_os.Base.{◌≡◌, Bool, false, ◌||◌, List, [], ◌∷◌, ◌==◌, if◌then◌else◌}
use night_os.Mutex
use night_os.Mutex.{
  Pid, Mutex, acquire_round, wait_round, acquire_if_free, release, wait_for_object,
}

-- the call that a process is in: `mutex_acquire` or `mutex_wait`
pub data Goal : Type 0 where
  to_own to_wait : Goal

-- Where a process stands: outside, about to lock in its call, between its unlock and
-- `wait_for_object`, asleep in `schedule(true)`, or back from `mutex_acquire` or, with true, from
-- `mutex_acquire_if_free`, and owner.
pub data Place : Type 0 where
  outside owning : Place
  locking leaving sleeping : Goal → Place

pub record World : Type 0 where
  pub mutex : Mutex
  pub place : Pid → Place

abbrev pub move : (Pid → Place) → Pid → Place → Pid → Place
move f p x q = if q == p then x else f q

abbrev pub has : Pid → List Pid → Bool
has p [] = false
has p (q ∷ qs) = p == q || has p qs

-- `wakeup_waiting`: the processes of the queue go back to the lock of their call.
abbrev pub wake : Place → Place
wake (sleeping g) = locking g
wake outside = outside
wake owning = owning
wake (locking g) = locking g
wake (leaving g) = leaving g

abbrev pub woken : List Pid → (Pid → Place) → Pid → Place
woken qs f q = if has q qs then wake (f q) else f q

-- the round of `mutex_acquire` or of `mutex_wait` by `p`
unfoldable pub after_round : Goal → Pid → World → World
unfolding acquire_round wait_round
after_round to_own p w =
    let (done, m) = acquire_round p w.mutex in
    record { mutex = m; place = move w.place p (if done then owning else leaving to_own) }
after_round to_wait p w = record w {
  place = move w.place p (if wait_round w.mutex then outside else leaving to_wait);
}

unfoldable pub after_wait : Goal → Pid → World → World
unfolding wait_for_object
after_wait g p w = record { mutex = wait_for_object p w.mutex; place = move w.place p (sleeping g) }

-- `mutex_acquire_if_free` by `p`
unfoldable pub after_try : Pid → World → World
unfolding acquire_if_free
after_try p w =
    let (done, m) = acquire_if_free p w.mutex in
    record { mutex = m; place = move w.place p (if done then owning else outside) }

-- `mutex_release` by `p`
unfoldable pub after_release : Pid → World → World
unfolding release
after_release p w =
    let (m, queue) = release w.mutex in
    record { mutex = m; place = woken queue (move w.place p outside) }

pub data Step (w : World) : World → Type 0 where
  call :
      (g : Goal) (p : Pid)
      → w.place p ≡ outside
      → Step w (record w { place = move w.place p (locking g) })
  round : (g : Goal) (p : Pid) → w.place p ≡ locking g → Step w (after_round g p w)
  queue : (g : Goal) (p : Pid) → w.place p ≡ leaving g → Step w (after_wait g p w)
  attempt : (p : Pid) → w.place p ≡ outside → Step w (after_try p w)
  done : (p : Pid) → w.place p ≡ owning → Step w (after_release p w)
  intrude : (p : Pid) → w.place p ≡ outside → Step w (after_release p w)

-- the process that takes the step
unfoldable pub actor : {w v : World} → Step w v → Pid
actor (call g p e) = p
actor (round g p e) = p
actor (queue g p e) = p
actor (attempt p e) = p
actor (done p e) = p
actor (intrude p e) = p

pub data Reach (w : World) : World → Type 0 where
  start : Reach w w
  next : {u v : World} → Reach w u → Step u v → Reach w v

-- the step is not a release by a process that does not own the mutex
unfoldable pub IsOwners : {w v : World} → Step w v → Type 0
IsOwners (intrude p e) = ⊥
IsOwners (call g p e) = Unit
IsOwners (round g p e) = Unit
IsOwners (queue g p e) = Unit
IsOwners (attempt p e) = Unit
IsOwners (done p e) = Unit

-- nor is any step of the run
unfoldable pub AreOwners : {w v : World} → Reach w v → Type 0
AreOwners start = Unit
AreOwners (next r s) = AreOwners r × IsOwners s

-- all processes outside a free mutex
abbrev pub initial : World
initial = record { mutex = Mutex.init; place = λ _. outside }
