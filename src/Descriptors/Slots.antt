-- ===== src/Descriptors/Slots.antt =====
-- kernel/proc/process.c: the array of handles, its accesses within bounds, and the lowest free slot.
use night_os.Base.{
  ℕ, zero, suc, ◌+◌, ◌<◌, ◌≤◌, ◌≡◌, refl, ap, Option, none, some, List, [], ◌∷◌, ◌++◌, arith,
  length, get_elem?, set, length-append, append_assoc, Run, ok, fault,
}
use mathlib.Core.Path.{subst}
use night_os.Descriptors.{FileHandle, Slots, load, store, first_free}

-- how many slots hold a handle, and which handles
unfoldable pub count : Slots → ℕ
count [] = 0
count (none ∷ hs) = count hs
count (some h ∷ hs) = suc (count hs)

unfoldable pub held : Slots → List FileHandle
held [] = []
held (none ∷ hs) = held hs
held (some h ∷ hs) = h ∷ held hs

pub count-le : (hs : Slots) → count hs ≤ length hs
unfolding count
count-le [] = omega arith
count-le (none ∷ hs) = omega (arith, count-le hs)
count-le (some h ∷ hs) = omega (arith, count-le hs)

-- the accesses that succeed
pub load-some :
    (i : ℕ) (hs : Slots) (h : Option FileHandle) → get_elem? hs i ≡ some h → load i hs ≡ ok h
unfolding load
load-some i hs h e = rw (e, load) refl

pub store-some :
    (i : ℕ) (hs : Slots) (h new : Option FileHandle)
    → get_elem? hs i ≡ some h
    → store i new hs ≡ ok (set hs i new)
unfolding store
store-some i hs h new e = rw (e, store) refl

pub load-none : (i : ℕ) (hs : Slots) → get_elem? hs i ≡ none → load i hs ≡ fault
unfolding load
load-none i hs e = rw (e, load) refl

-- an access that succeeded
pub loaded :
    (i : ℕ) (hs : Slots) (h : Option FileHandle) → load i hs ≡ ok h → get_elem? hs i ≡ some h
unfolding load
loaded i hs h e = go (get_elem? hs i) e
  where
    go :
        (o : Option (Option FileHandle))
        → ◌≡◌ {A = Run (Option FileHandle)} (elim o [ none ↦ fault | some x ↦ ok x ]) (ok h)
        → o ≡ some h
    go none e = cc e
    go (some x) e = cc e

pub get_elem?-set_self :
    (hs : Slots) (i : ℕ) (h new : Option FileHandle)
    → get_elem? hs i ≡ some h
    → get_elem? (set hs i new) i ≡ some new
get_elem?-set_self [] i h new e = cc e
get_elem?-set_self (x ∷ hs) zero h new e = refl
get_elem?-set_self (x ∷ hs) (suc i) h new e = get_elem?-set_self hs i h new e

pub set-set_back :
    (hs : Slots) (i : ℕ) (h new : Option FileHandle)
    → get_elem? hs i ≡ some h
    → set (set hs i new) i h ≡ hs
set-set_back [] i h new e = refl
set-set_back (x ∷ hs) zero h new e = ap (λ y. y ∷ hs) (cc e)
set-set_back (x ∷ hs) (suc i) h new e = ap (λ r. x ∷ r) (set-set_back hs i h new e)

pub get_elem?-lt :
    (hs : Slots) (i : ℕ) (h : Option FileHandle) → get_elem? hs i ≡ some h → i < length hs
get_elem?-lt [] i h e = cc e
get_elem?-lt (x ∷ hs) zero h e = omega arith
get_elem?-lt (x ∷ hs) (suc i) h e = omega (arith, get_elem?-lt hs i h e)

pub set-same :
    (hs : Slots) (i : ℕ) (h : Option FileHandle) → get_elem? hs i ≡ some h → set hs i h ≡ hs
set-same [] i h e = refl
set-same (x ∷ hs) zero h e = ap (λ y. y ∷ hs) (cc e)
set-same (x ∷ hs) (suc i) h e = ap (λ r. x ∷ r) (set-same hs i h e)

pub set-set : (hs : Slots) (i : ℕ) (a b : Option FileHandle) → set (set hs i a) i b ≡ set hs i b
set-set [] i a b = refl
set-set (x ∷ hs) zero a b = refl
set-set (x ∷ hs) (suc i) a b = ap (λ r. x ∷ r) (set-set hs i a b)

-- how a write changes the number of handles
pub count-set_used :
    (hs : Slots) (i : ℕ) (h : FileHandle)
    → get_elem? hs i ≡ some none
    → count (set hs i (some h)) ≡ suc (count hs)
unfolding count
count-set_used [] i h e = cc e
count-set_used (none ∷ hs) zero h e = refl
count-set_used (some x ∷ hs) zero h e = cc e
count-set_used (none ∷ hs) (suc i) h e = count-set_used hs i h e
count-set_used (some x ∷ hs) (suc i) h e = ap suc (count-set_used hs i h e)

pub count-set_free :
    (hs : Slots) (i : ℕ) (h : FileHandle)
    → get_elem? hs i ≡ some (some h)
    → suc (count (set hs i none)) ≡ count hs
unfolding count
count-set_free [] i h e = cc e
count-set_free (none ∷ hs) zero h e = cc e
count-set_free (some x ∷ hs) zero h e = refl
count-set_free (none ∷ hs) (suc i) h e = count-set_free hs i h e
count-set_free (some x ∷ hs) (suc i) h e = ap suc (count-set_free hs i h e)

pub count-set_over :
    (hs : Slots) (i : ℕ) (h new : FileHandle)
    → get_elem? hs i ≡ some (some h)
    → count (set hs i (some new)) ≡ count hs
unfolding count
count-set_over [] i h new e = refl
count-set_over (none ∷ hs) zero h new e = cc e
count-set_over (some x ∷ hs) zero h new e = refl
count-set_over (none ∷ hs) (suc i) h new e = count-set_over hs i h new e
count-set_over (some x ∷ hs) (suc i) h new e = ap suc (count-set_over hs i h new e)

-- the slot is free, and every slot before it is in use
abbrev pub IsFirstFree : ℕ → Slots → Type 0
IsFirstFree i hs =
    (get_elem? hs i ≡ some none)
    × ((j : ℕ) → j < i → (h : FileHandle) × (get_elem? hs j ≡ some (some h)))

-- the slot behind a part of the array
pub get_elem?-append :
    (before behind : Slots) (h : Option FileHandle)
    → get_elem? (before ++ h ∷ behind) (length before) ≡ some h
get_elem?-append [] behind h = refl
get_elem?-append (x ∷ before) behind h = get_elem?-append before behind h

pub length-snoc :
    (before : Slots) (h : Option FileHandle) → length (before ++ h ∷ []) ≡ length before + 1
length-snoc before h = length-append before (h ∷ [])

-- The loop finds the lowest free slot, if there is one.
AllHeld : Slots → Type 0
AllHeld hs = (j : ℕ) → j < length hs → (h : FileHandle) × (get_elem? hs j ≡ some (some h))

held_below : (before : Slots) (h : FileHandle) → AllHeld before → AllHeld (before ++ some h ∷ [])
unfolding AllHeld
held_below [] h all zero lt = (h, refl)
held_below [] h all (suc j) lt = absurd (omega arith)
held_below (x ∷ before) h all zero lt = all zero (omega arith)
held_below (x ∷ before) h all (suc j) lt =
    held_below before h (λ k g. all (suc k) (omega (arith, g))) j (omega (arith, lt))

held_before :
    (before behind : Slots)
    → AllHeld before
    → (j : ℕ) → j < length before
    → (h : FileHandle) × (get_elem? (before ++ behind) j ≡ some (some h))
unfolding AllHeld
held_before [] behind all j lt = absurd (omega (arith, lt))
held_before (x ∷ before) behind all zero lt = all zero (omega arith)
held_before (x ∷ before) behind all (suc j) lt =
    held_before before behind (λ k g. all (suc k) (omega (arith, g))) j (omega (arith, lt))

first_free_from :
    (before behind : Slots)
    → AllHeld before
    → count behind < length behind
    → (i : ℕ) × (first_free (length behind) (length before) (before ++ behind) ≡ ok i)
      × IsFirstFree i (before ++ behind)
unfolding count first_free
first_free_from before [] all lt = absurd (omega (arith, lt))
first_free_from before (none ∷ behind) all lt = (
  length before,
  rw
      (load-some (length before) (before ++ none ∷ behind) none
        (get_elem?-append before behind none))
      refl,
  (get_elem?-append before behind none, held_before before (none ∷ behind) all),
)
first_free_from before (some h ∷ behind) all lt =
    let step = append_assoc before (some h ∷ []) behind in
    let (i, run, first) =
      first_free_from (before ++ some h ∷ []) behind (held_below before h all)
        (omega (arith, lt)) in
    (
      i,
      rw
          (load-some (length before) (before ++ some h ∷ behind) (some h)
            (get_elem?-append before behind (some h)))
          (subst (λ hs. first_free (length behind) (length before + 1) hs ≡ ok i) step
            (subst (λ k. first_free (length behind) k ((before ++ some h ∷ []) ++ behind) ≡ ok i)
              (length-snoc before (some h)) run)),
      subst (IsFirstFree i) step first,
    )

pub first_free-IsFirstFree :
    (hs : Slots)
    → count hs < length hs
    → (i : ℕ) × (first_free (length hs) 0 hs ≡ ok i) × IsFirstFree i hs
unfolding AllHeld
first_free-IsFirstFree hs lt = first_free_from [] hs (λ j g. absurd (omega (arith, g))) lt
