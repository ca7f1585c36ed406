-- ===== src/Scheduler/Rotate.antt =====
-- kernel/proc/process.c: schedule as the turn of the run queue.
use night_os.Base.{
  ℕ, zero, suc, ◌≡◌, refl, sym, ap, ◌∙◌, Bool, true, false, ◌||◌, none, some, List, [], ◌∷◌, ◌++◌,
  append-nil, get_elem?, ◌==◌, if◌then◌else◌,
}
use night_os.Scheduler.{
  Scheduler, schedule_process, first_of, get_next_process, leave, run_next, schedule,
}

-- `schedule(false)` a number of times
unfoldable pub schedule_times : ℕ → Scheduler → Scheduler
schedule_times zero s = s
schedule_times (suc n) s = schedule_times n (schedule false s)

get_elem?-append_some :
    (q x : List ℕ) (k p : ℕ) → get_elem? q k ≡ some p → get_elem? (q ++ x) k ≡ some p
get_elem?-append_some [] x k p e = cc e
get_elem?-append_some (r ∷ q) x zero p e = e
get_elem?-append_some (r ∷ q) x (suc k) p e = get_elem?-append_some q x k p e

-- what `leave` puts behind the queue
left_behind :
    (c : ℕ) (s : Scheduler) → (x : List ℕ) × ((leave false c s).thread_queue ≡ s.thread_queue ++ x)
unfolding leave
left_behind c s = go ((c == s.kernel_idle_process) || false)
  where
    go :
        (b : Bool)
        → (x : List ℕ) × ((if b
              then record s {
                on_cpu = λ q. if q == c then false else s.on_cpu q;
                previous_process = some c;
              }
              else schedule_process c (record s {
                on_cpu = λ q. if q == c then false else s.on_cpu q;
                previous_process = some c;
              })).thread_queue
            ≡ s.thread_queue ++ x)
    go true = ([], sym (append-nil s.thread_queue))
    go false = (c ∷ [], refl)

-- the process at the front is the next one
took :
    (s : Scheduler) (p : ℕ) (q : List ℕ)
    → s.thread_queue ≡ p ∷ q
    → ((run_next (get_next_process s)).current_process ≡ some p)
      × ((run_next (get_next_process s)).thread_queue ≡ q)
unfolding get_next_process first_of run_next
took s p q e = rw (e) (refl, refl)

pub schedule-some :
    (b : Bool) (s : Scheduler) (c : ℕ)
    → s.current_process ≡ some c
    → schedule b s ≡ run_next (get_next_process (leave b c s))
unfolding schedule
schedule-some b s c e =
    ap (λ o. elim o [ none ↦ s | some p ↦ run_next (get_next_process (leave b p s)) ]) e

pub schedule-front :
    (s : Scheduler) (c p : ℕ) (q : List ℕ)
    → s.current_process ≡ some c
    → s.thread_queue ≡ p ∷ q
    → ((schedule false s).current_process ≡ some p)
      × ((x : List ℕ) × ((schedule false s).thread_queue ≡ q ++ x))
schedule-front s c p q e f =
    let (x, g) = left_behind c s in
    let (a, b) = took (leave false c s) p (q ++ x) (g ∙ ap (λ r. r ++ x) f) in
    let run = schedule-some false s c e in
    (ap (λ u. u.current_process) run ∙ a, (x, ap (λ u. u.thread_queue) run ∙ b))

-- the queue of a process at its front, or behind another one
at_front : (q : List ℕ) (p : ℕ) → get_elem? q 0 ≡ some p → (r : List ℕ) × (q ≡ p ∷ r)
at_front [] p e = cc e
at_front (x ∷ q) p e = (q, ap (λ y. y ∷ q) (cc e))

further_back :
    (q : List ℕ) (k p : ℕ)
    → get_elem? q (suc k) ≡ some p
    → (x : ℕ) × (r : List ℕ) × (q ≡ x ∷ r) × (get_elem? r k ≡ some p)
further_back [] k p e = cc e
further_back (x ∷ q) k p e = (x, q, refl, e)

-- While a process runs, the process at place k of the run queue, counted from 0, runs after k + 1
-- calls of schedule that put the running process back.
pub schedule_times-reaches :
    (k : ℕ) (s : Scheduler) (c p : ℕ)
    → s.current_process ≡ some c
    → get_elem? s.thread_queue k ≡ some p
    → (schedule_times (suc k) s).current_process ≡ some p
unfolding schedule_times
schedule_times-reaches zero s c p e g =
    let (r, f) = at_front s.thread_queue p g in (schedule-front s c p r e f).0
schedule_times-reaches (suc k) s c p e g =
    let (y, r, f, h) = further_back s.thread_queue k p g in
    let (a, (x, b)) = schedule-front s c y r e f in
    schedule_times-reaches k (schedule false s) y p a
      (ap (λ q. get_elem? q k) b ∙ get_elem?-append_some r x k p h)
