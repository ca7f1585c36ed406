-- ===== src/Descriptors/Release.antt =====
-- kernel/proc/process.c: what becomes of the open files of a process at its end, and at
-- process_execve.
use night_os.Base.{
  ℕ, zero, suc, ◌+◌, ◌<◌, ◌≤◌, ◌≡◌, ◌≢◌, refl, ap, ◌∙◌, true, Option, none, some, [], ◌∷◌, ◌++◌,
  arith, length, get_elem?, set, replicate, le→ltb, lt→ltb, Run, ok, fault, blocked, out_of_fuel,
  ◌>>=◌,
}
use night_os.Base.Int.{pos, ltb_ℤ}
use night_os.Descriptors.{
  FileHandle, Slots, FdTable, Drivers, close_fd, close_all, close_files, release_loop, release,
}
use night_os.Descriptors.Slots.{
  count, held, load-some, store-some, get_elem?-lt, first_free-IsFirstFree,
}
use night_os.Descriptors.Inv.{IsValid}
use night_os.Descriptors.Close.{close_fd-Closed}

-- an array without handles
held-zero : (hs : Slots) → count hs ≡ 0 → (held hs ≡ []) × (hs ≡ replicate (length hs) none)
unfolding count held
held-zero [] e = (refl, refl)
held-zero (none ∷ hs) e = let (a, b) = held-zero hs e in (a, ap (λ r. none ∷ r) b)
held-zero (some h ∷ hs) e = absurd (omega (arith, e))

-- one more free slot at the front
one_more : (k : ℕ) (hs : Slots) → replicate (suc k) none ++ hs ≡ replicate (k + 1) none ++ hs
one_more k hs = let next : suc k ≡ k + 1 = omega arith in ap (λ n. replicate n none ++ hs) next

replicate-snoc : (k : ℕ) (hs : Slots) → replicate k none ++ none ∷ hs ≡ replicate (suc k) none ++ hs
replicate-snoc zero hs = refl
replicate-snoc (suc k) hs = ap (λ r. none ∷ r) (replicate-snoc k hs)

replicate-add :
    (k n : ℕ)
    → replicate k none ++ replicate n none ≡ replicate {A = Option FileHandle} (k + n) none
replicate-add zero n = let same : n ≡ 0 + n = omega arith in ap (λ m. replicate m none) same
replicate-add (suc k) n =
    let next : suc (k + n) ≡ suc k + n = omega arith in
    ap (λ r. none ∷ r) (replicate-add k n) ∙ ap (λ m. replicate m none) next

replicate-append :
    (k : ℕ) (hs : Slots)
    → hs ≡ replicate (length hs) none
    → replicate k none ++ hs ≡ replicate (k + length hs) none
replicate-append k hs e = ap (λ r. replicate k none ++ r) e ∙ replicate-add k (length hs)

-- the slot behind `k` free ones, read and emptied
slot_at :
    (k : ℕ) (h : Option FileHandle) (hs : Slots) → get_elem? (replicate k none ++ h ∷ hs) k ≡ some h
slot_at zero h hs = refl
slot_at (suc k) h hs = slot_at k h hs

emptied_at :
    (k : ℕ) (h : Option FileHandle) (hs : Slots)
    → set (replicate k none ++ h ∷ hs) k none ≡ replicate (suc k) none ++ hs
emptied_at zero h hs = refl
emptied_at (suc k) h hs = ap (λ r. none ∷ r) (emptied_at k h hs)

-- one round of the loop
release_done :
    (fuel k capacity : ℕ) (hs : Slots) → release_loop (suc fuel) k (pos 0) capacity hs ≡ ok ([], hs)
unfolding release_loop
release_done fuel k capacity hs = refl

release_free :
    (fuel k n capacity : ℕ) (hs : Slots)
    → release_loop (suc fuel) k (pos (suc n)) capacity (replicate k none ++ none ∷ hs)
      ≡ release_loop fuel (k + 1) (pos (suc n)) capacity (replicate (k + 1) none ++ hs)
unfolding release_loop
release_free fuel k n capacity hs = rw (lt→ltb 0 (suc n) (omega arith)) (
    rw (load-some k (replicate k none ++ none ∷ hs) none (slot_at k none hs))
      (ap (release_loop fuel (k + 1) (pos (suc n)) capacity) (replicate-snoc k hs ∙ one_more k hs)))

release_used :
    (fuel k n capacity : ℕ) (h : FileHandle) (hs : Slots)
    → k < capacity
    → release_loop (suc fuel) k (pos (suc n)) capacity (replicate k none ++ some h ∷ hs) ≡ (
        release_loop fuel (k + 1) (pos n) capacity (replicate (k + 1) none ++ hs) >>= λ (freed, hs).
        ok (h ∷ freed, hs))
unfolding release_loop
release_used fuel k n capacity h hs lt = rw (lt→ltb 0 (suc n) (omega arith)) (
    rw (load-some k (replicate k none ++ some h ∷ hs) (some h) (slot_at k (some h) hs)) (
      rw (store-some k (replicate k none ++ some h ∷ hs) (some h) none (slot_at k (some h) hs)) (
        rw (le→ltb capacity (k + 1) (omega (arith, lt)))
          (rw (emptied_at k (some h) hs ∙ one_more k hs) refl))))

-- the loop, where `k` slots are free already and the others are still to come
release_from :
    (hs : Slots) (n fuel k capacity : ℕ)
    → count hs ≡ n
    → k + length hs ≡ capacity
    → length hs < fuel
    → release_loop fuel k (pos n) capacity (replicate k none ++ hs)
      ≡ ok (held hs, replicate capacity none)
unfolding count held
release_from hs n zero k capacity c e lt = absurd (omega (arith, lt))
release_from hs zero (suc fuel) k capacity c e lt =
    let (empty, free) = held-zero hs c in
    release_done fuel k capacity (replicate k none ++ hs)
    ∙ (rw (empty)
        (ap (λ r. ok ([], r)) (replicate-append k hs free ∙ ap (λ m. replicate m none) e)))
release_from [] (suc n) (suc fuel) k capacity c e lt = absurd (omega (arith, c))
release_from (none ∷ hs) (suc n) (suc fuel) k capacity c e lt =
    release_free fuel k n capacity hs
    ∙ release_from hs (suc n) fuel (k + 1) capacity c (omega (arith, e)) (omega (arith, lt))
release_from (some h ∷ hs) (suc n) (suc fuel) k capacity c e lt =
    let ih =
      release_from hs n fuel (k + 1) capacity (omega (arith, c)) (omega (arith, e))
        (omega (arith, lt)) in
    release_used fuel k n capacity h hs (omega (arith, e)) ∙ rw (ih) refl

-- On a valid table process_exit and process_terminate free every handle once, in the order of the
-- slots, and end with all slots empty, without an access outside the array.
pub release-held :
    {t : FdTable} (v : IsValid t) → release t ≡ ok (held t.handles, replicate t.capacity none)
unfolding release
release-held {t} v = rw (v.counted) (
    release_from t.handles (count t.handles) (t.capacity + 1) 0 t.capacity refl
      (omega (arith, v.sized)) (omega (arith, v.sized)))

get_elem?-set_other :
    (hs : Slots) (i j : ℕ) (h new : Option FileHandle)
    → i ≢ j
    → get_elem? hs j ≡ some h
    → get_elem? (set hs i new) j ≡ some h
get_elem?-set_other [] i j h new n e = e
get_elem?-set_other (x ∷ hs) zero zero h new n e = absurd (n refl)
get_elem?-set_other (x ∷ hs) zero (suc j) h new n e = e
get_elem?-set_other (x ∷ hs) (suc i) zero h new n e = e
get_elem?-set_other (x ∷ hs) (suc i) (suc j) h new n e =
    get_elem?-set_other hs i j h new (λ q. n (ap suc q)) e

module _ {World : Type 0} (d : Drivers World) where
  -- the loop of `process_execve` does not get past a free slot
  close_all-free :
      (rounds i j : ℕ) (t t' : FdTable) (w w' : World)
      → get_elem? t.handles j ≡ some none
      → i ≤ j
      → j < i + rounds
      → close_all d rounds i t w ≢ ok (t', w')
  unfolding close_all
  close_all-free zero i j t t' w w' free le lt e = absurd (omega (arith, le, lt))
  close_all-free (suc rounds) i j t t' w w' free le lt e =
      go (close_fd d (pos i) t w) refl
        (λ u x still other.
          close_all-free rounds (i + 1) j u t' x w' still (omega (arith, le, other))
            (omega (arith, lt)))
        e
    where
      go :
          (r : Run (FdTable × World))
          → close_fd d (pos i) t w ≡ r
          → ((u : FdTable) (x : World)
              → get_elem? u.handles j ≡ some none
              → i ≢ j
              → close_all d rounds (i + 1) u x ≢ ok (t', w'))
          → (r >>= λ (t, w). close_all d rounds (i + 1) t w) ≢ ok (t', w')
      go (ok (u, x)) q further e =
          let k = close_fd-Closed d (pos i) t w u x q in
          let here : k.slot ≡ i = cc k.is_slot in
          let other : i ≢ j = λ same. cc (k.in_use, here, same, free) in
          let still : get_elem? u.handles j ≡ some none =
            rw (k.emptied) (rw (here) (get_elem?-set_other t.handles i j none none other free)) in
          further u x still other e
      go fault q further e = cc e
      go blocked q further e = cc e
      go out_of_fuel q further e = cc e

  -- While a valid table holds a file and has a free slot, the part of process_execve that closes
  -- the files does not return.
  pub close_files-free :
      {t : FdTable} (v : IsValid t) (w : World) (t' : FdTable) (w' : World)
      → 0 < count t.handles
      → count t.handles < t.capacity
      → close_files d t w ≢ ok (t', w')
  unfolding close_files
  close_files-free {t} v w t' w' some_held some_free =
      let (j, run, first) = first_free-IsFirstFree t.handles (omega (arith, some_free, v.sized)) in
      let below = get_elem?-lt t.handles j none first.0 in
      let test : ltb_ℤ (pos 0) t.length ≡ true =
        rw (v.counted) (lt→ltb 0 (count t.handles) some_held) in
      rw (test) (
        close_all-free t.capacity 0 j t t' w w' first.0 (omega arith)
          (omega (arith, below, v.sized)))
