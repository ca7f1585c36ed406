-- ===== src/Mutex/Exclusion.antt =====
-- What holds of the mutex in every interleaving whose releases are by the owner, and what a release
-- by another process breaks.
use night_os.Base.{◌≡◌, ◌≢◌, refl, some, arith}
use night_os.Mutex.{Pid}
use night_os.Mutex.Protocol.{
  owning, World, after_try, after_release, attempt, intrude, Reach, start, next, initial,
}

-- The owner is the process that `mutex_acquire` or `mutex_acquire_if_free` returned to.
record Inv (w : World) : Type 0 where
  owner : (p : Pid) → w.place p ≡ owning → w.mutex.owner ≡ some p

-- For any two processes there is a run in which the first takes the mutex, the other, whose
-- mutex_acquire_if_free fails, releases it, as the ring buffer and the pseudo terminal do, and then
-- takes it as well: both own the mutex that neither of them gave back.
pub owners-Both :
    (p q : Pid)
    → p ≢ q
    → (w : World) × Reach initial w × (w.place p ≡ owning) × (w.place q ≡ owning)
unfolding after_try after_release
owners-Both p q ne =
    let taken = after_try p initial in
    let refused = after_try q taken in
    let released = after_release q refused in
    let again = after_try q released in
    (
      again,
      next
          (next (next (next start (attempt p refl)) (attempt q (ground arith)))
            (intrude q (ground arith)))
          (attempt q (ground arith)),
      ground arith,
      ground arith,
    )
