-- ===== src/Mutex/LostWakeup.antt =====
-- A wake-up that is lost: between the unlock of `mutex_acquire`, or `mutex_wait`, and the lock of
-- `wait_for_object` the owner releases the mutex, and the process queues itself for a release that is
-- over.
use night_os.Base.{◌≡◌, ◌≢◌, refl, ap, ◌∙◌, true, none, arith}
use native.Mathlib.Decide.{ℕ_discrete}
use night_os.Mutex.{Pid}
use night_os.Mutex.Protocol.{
  Goal, outside, owning, leaving, sleeping, wake, World, has, after_wait, after_release, Step, call,
  round, queue, attempt, done, intrude, actor, Reach, next, initial,
}

-- `p` sleeps in the queue of a free mutex, every other process stands outside, and every step that
-- can follow is one by which a process other than `p` begins a call: none that is in a call is left
-- to wake it.
pub record Stranded (g : Goal) (p : Pid) (w : World) : Type 0 where
  pub free : w.mutex.owner ≡ none
  pub sleeps : w.place p ≡ sleeping g
  pub queued : has p w.mutex.waiting ≡ true
  pub others : (q : Pid) → q ≢ p → w.place q ≡ outside
  pub stuck : {v : World} (s : Step w v) → (actor s ≢ p) × (w.place (actor s) ≡ outside)

module _ (g : Goal) (p : Pid) (w : World) (sleeps : w.place p ≡ sleeping g)
    (others : (q : Pid) → q ≢ p → w.place q ≡ outside) where
  -- a process that takes a step stands outside
  takes_step : (q : Pid) → w.place q ≢ sleeping g → (q ≢ p) × (w.place q ≡ outside)
  takes_step q n = ((λ e. n (ap w.place e ∙ sleeps)), others q (λ e. n (ap w.place e ∙ sleeps)))

  begins : {v : World} (s : Step w v) → (actor s ≢ p) × (w.place (actor s) ≡ outside)
  unfolding actor
  begins (call h q e) = takes_step q (λ z. cc (e, z))
  begins (round h q e) = takes_step q (λ z. cc (e, z))
  begins (queue h q e) = takes_step q (λ z. cc (e, z))
  begins (attempt q e) = takes_step q (λ z. cc (e, z))
  begins (done q e) = takes_step q (λ z. cc (e, z))
  begins (intrude q e) = takes_step q (λ z. cc (e, z))

-- the release by `q`, and then the queueing of `p`
late : Goal → Pid → Pid → World → World
late g p q w = after_wait g p (after_release q w)

-- Wherever a run has led to, if one process is between the unlock of its call and wait_for_object,
-- another owns the mutex and all others are outside, then the run can go on so that the first sleeps
-- in the queue of a free mutex with all others outside, and every step that can follow begins a call
-- of another process.
pub lost_wakeup :
    (g : Goal) (p q : Pid) (w : World)
    → Reach initial w
    → w.place p ≡ leaving g
    → w.place q ≡ owning
    → ((r : Pid) → r ≢ p → r ≢ q → w.place r ≡ outside)
    → (v : World) × Reach initial v × Stranded g p v
unfolding late after_wait after_release
lost_wakeup g p q w r at owns idle =
    let v = late g p q w in
    let apart : p ≢ q = λ e. cc (ap w.place e, at, owns) in
    let still : (after_release q w).place p ≡ leaving g = ground (arith, at, ap wake at, apart) in
    let sleeps : v.place p ≡ sleeping g = ground arith in
    let others : (x : Pid) → x ≢ p → v.place x ≡ outside = λ x ne. elim (ℕ_discrete x q) [
      | yes e ↦ ground (arith, ne, e)
      | no n ↦ let out = idle x ne n in ground (arith, ne, n, out, ap wake out)
    ] in
    (
      v,
      next (next r (done q owns)) (queue g p still),
      record {
        free = refl;
        sleeps = sleeps;
        queued = ground arith;
        others = others;
        stuck = λ s. begins g p v sleeps others s;
      },
    )
