-- ===== src/Scheduler/Accounts.antt =====
-- kernel/proc/process.c: no process is lost or queued twice by schedule, sleep and wakeup_sleeping.
use night_os.Base.{
  ℕ, ◌+◌, ◌≡◌, ◌≢◌, refl, ap, ◌∙◌, Bool, true, false, ◌||◌, Option, none, some, List, [], ◌∷◌, ◌++◌,
  arith, leb, ◌==◌, if◌then◌else◌, Bool-cases, ==_iff, inl, inr,
}
use night_os.Scheduler.{Scheduler, first_of, get_next_process, leave, run_next, schedule, wake_loop}
use night_os.Scheduler.Rotate.{schedule-some}

-- how often a process is the running one, and how often it is in a queue
unfoldable pub holds : ℕ → Option ℕ → ℕ
holds p none = 0
holds p (some q) = if q == p then 1 else 0

unfoldable pub count_of : ℕ → List ℕ → ℕ
unfolding holds
count_of p [] = 0
count_of p (q ∷ qs) = holds p (some q) + count_of p qs

unfoldable pub occurrences : ℕ → Scheduler → ℕ
occurrences p s =
    holds p s.current_process + count_of p s.thread_queue + count_of p s.sleeping_queue

holds-other : (p q : ℕ) → p ≢ q → holds p (some q) ≡ 0
unfolding holds
holds-other p q n = ground (arith, n)

count_of-append : (p : ℕ) (xs ys : List ℕ) → count_of p (xs ++ ys) ≡ count_of p xs + count_of p ys
unfolding count_of
count_of-append p [] ys = omega arith
count_of-append p (x ∷ xs) ys = omega (arith, count_of-append p xs ys)

pub count_of-snoc :
    (p q : ℕ) (xs : List ℕ) → count_of p (xs ++ q ∷ []) ≡ count_of p xs + holds p (some q)
unfolding count_of
count_of-snoc p q xs = omega (arith, count_of-append p xs (q ∷ []))

-- another process runs next, taken off the run queue
run_next-count :
    (p : ℕ) (s : Scheduler)
    → p ≢ s.kernel_idle_process
    → occurrences p (run_next (get_next_process s))
      ≡ count_of p s.thread_queue + count_of p s.sleeping_queue
unfolding occurrences run_next get_next_process first_of count_of
run_next-count p s n = go s.thread_queue refl
  where
    go :
        (q : List ℕ)
        → s.thread_queue ≡ q
        → occurrences p (run_next (get_next_process s))
          ≡ count_of p s.thread_queue + count_of p s.sleeping_queue
    go [] e = rw (e) (omega (arith, holds-other p s.kernel_idle_process n))
    go (x ∷ q) e = rw (e) (omega arith)

-- what stays as it is
abbrev pub Follows : Scheduler → Scheduler → Type 0
Follows s s' =
    (s'.sleep_lock ≡ s.sleep_lock)
    × (s'.kernel_idle_process ≡ s.kernel_idle_process)
    × (s'.sleeping_queue ≡ s.sleeping_queue)

leave-Follows : (b : Bool) (c : ℕ) (s : Scheduler) → Follows s (leave b c s)
unfolding leave
leave-Follows b c s = elim (Bool-cases ((c == s.kernel_idle_process) || b)) [
  | inl e ↦ rw (e) (refl, refl, refl)
  | inr e ↦ rw (e) (refl, refl, refl)
]

run_next-Follows :
    (r : Option ℕ × Scheduler)
    → Follows r.1 (run_next r) × ((c : ℕ) × ((run_next r).current_process ≡ some c))
unfolding run_next
run_next-Follows (none, s) = ((refl, refl, refl), (s.kernel_idle_process, refl))
run_next-Follows (some p, s) = ((refl, refl, refl), (p, refl))

pub schedule-Follows :
    (b : Bool) (s : Scheduler) (c : ℕ)
    → s.current_process ≡ some c
    → Follows s (schedule b s) × ((c : ℕ) × ((schedule b s).current_process ≡ some c))
unfolding get_next_process
schedule-Follows b s c e =
    let run = schedule-some b s c e in
    let (l, i, q) = leave-Follows b c s in
    let ((l', i', q'), (d, r)) = run_next-Follows (get_next_process (leave b c s)) in
    (
      (
        ap (λ u. u.sleep_lock) run ∙ l' ∙ l,
        ap (λ u. u.kernel_idle_process) run ∙ i' ∙ i,
        ap (λ u. u.sleeping_queue) run ∙ q' ∙ q,
      ),
      (d, ap (λ u. u.current_process) run ∙ r),
    )

leave-back :
    (p c : ℕ) (s : Scheduler)
    → p ≢ s.kernel_idle_process
    → count_of p ((leave false c s).thread_queue) ≡ count_of p s.thread_queue + holds p (some c)
unfolding leave
leave-back p c s n = elim (Bool-cases (c == s.kernel_idle_process)) [
  | inl e ↦
      let other : p ≢ c = λ q. n (q ∙ (==_iff c s.kernel_idle_process).0 e) in
      rw (e) (omega (arith, holds-other p c other))
  | inr e ↦ rw (e) (count_of-snoc p c s.thread_queue)
]

pub leave-asleep : (c : ℕ) (s : Scheduler) → (leave true c s).thread_queue ≡ s.thread_queue
unfolding leave
leave-asleep c s = elim (Bool-cases (c == s.kernel_idle_process)) [
  | inl e ↦ rw (e) refl
  | inr e ↦ rw (e) refl
]

-- the process that runs, with what `schedule` does to the queues
pub schedule-count :
    (b : Bool) (p c : ℕ) (s : Scheduler)
    → s.current_process ≡ some c
    → p ≢ s.kernel_idle_process
    → occurrences p (schedule b s)
      ≡ count_of p ((leave b c s).thread_queue) + count_of p s.sleeping_queue
schedule-count b p c s e n =
    let (l, i, q) = leave-Follows b c s in
    ap (occurrences p) (schedule-some b s c e)
    ∙ run_next-count p (leave b c s) (λ z. n (z ∙ i))
    ∙ ap (λ r. count_of p ((leave b c s).thread_queue) + count_of p r) q

pub occurrences-schedule :
    (p c : ℕ) (s : Scheduler)
    → s.current_process ≡ some c
    → p ≢ s.kernel_idle_process
    → occurrences p (schedule false s) ≡ occurrences p s
unfolding occurrences
occurrences-schedule p c s e n =
    omega (arith, schedule-count false p c s e n, leave-back p c s n, ap (holds p) e)

pub wake_loop-count :
    (p : ℕ) (tick : ℕ → ℕ) (counter : ℕ) (q : List ℕ)
    → holds p ((wake_loop tick counter q).0) + count_of p ((wake_loop tick counter q).1)
      ≡ count_of p q
unfolding wake_loop count_of holds
wake_loop-count p tick counter [] = refl
wake_loop-count p tick counter (x ∷ q) = elim (Bool-cases (leb (tick x) counter)) [
  | inl e ↦ rw (e) refl
  | inr e ↦ rw (e) (omega (arith, wake_loop-count p tick counter q))
]
