-- ===== src/Signals/Mask.antt =====
-- What `process_set_signal_mask` does to the blocked set.
use Prim.Native.Nat.{bit_or, max}
use night_os.Base.{
  ℕ, zero, suc, ◌+◌, ◌≡◌, ◌≤◌, refl, ap, ◌∙◌, sym, Bool, ◌&&◌, Option, none, some, [], ◌∷◌, length,
  get_or, ltb, leb, ◌==◌, if◌then◌else◌, ok, arith, Returns,
}
use night_os.Base.Bits.{digit, digit-bit_or}
use night_os.Signals.{
  Sigset, index_of, place_of, sigdelset, sigismember, set_signal_mask, block, unblock, union,
  unblock_loop, drop_signal,
}
use night_os.Signals.Sets.{member, IsSized, HasRoom, Changes, sigdelset-Changes, sigismember-member}

get_or-union :
    (new old : Sigset) (i : ℕ)
    → length new ≡ length old
    → get_or (union new old) i 0 ≡ bit_or (get_or new i 0) (get_or old i 0)
unfolding union
get_or-union [] [] i h = refl
get_or-union [] (b ∷ old) i h = absurd (omega arith)
get_or-union (a ∷ new) [] i h = absurd (omega arith)
get_or-union (a ∷ new) (b ∷ old) zero h = refl
get_or-union (a ∷ new) (b ∷ old) (suc i) h = get_or-union new old i (omega arith)

-- `SIG_BLOCK` blocks the signals of either set.
pub member-block :
    (new old : Sigset) (n : ℕ)
    → IsSized new
    → IsSized old
    → Returns (set_signal_mask block new old) λ r. member r n ≡ max (member new n) (member old n)
unfolding set_signal_mask
member-block new old n v w = (
  union new old,
  refl,
  ap (λ x. digit x (place_of n)) (get_or-union new old (index_of n) (v ∙ sym w))
      ∙ digit-bit_or (place_of n) (get_or new (index_of n) 0) (get_or old (index_of n) 0),
)

-- whether the loop from `i` on for some rounds meets signal `n` in the set
abbrev pub met : ℕ → ℕ → Sigset → ℕ → Bool
met rounds i new n = (leb i n && ltb n (i + rounds)) && (member new n == 1)

abbrev pub Unblocked : ℕ → ℕ → Sigset → Sigset → ℕ → Sigset → Type 0
Unblocked rounds i new old n r =
    IsSized r × (member r n ≡ (if met rounds i new n then 0 else member old n))

-- one round of the loop
abbrev pub Round : ℕ → Sigset → Sigset → ℕ → Type 0
Round i new old n =
    (t : Sigset) × ((rounds : ℕ)
      → unblock_loop (suc rounds) i new old ≡ unblock_loop rounds (i + 1) new t)
    × Unblocked 1 i new old n t

Round-of :
    (i : ℕ) (new old : Sigset) (n : ℕ) (r : Option Sigset)
    → IsSized new
    → IsSized old
    → HasRoom (suc i)
    → sigdelset old (suc i) ≡ ok r
    → Changes old (suc i) 0 n r
    → Round (suc i) new old n
unfolding unblock_loop drop_signal
Round-of i new old n none v w hi e c = elim c [ ]
Round-of i new old n (some t) v w hi e c = (
  if member new (suc i) == 1 then t else old,
  λ rounds. ground (arith, sigismember-member new (suc i) v hi, e),
  (ground (arith, c.0), ground (arith, c.1, ap (λ k. member new k == 1))),
)

round :
    (i : ℕ) (new old : Sigset) (n : ℕ)
    → IsSized new
    → IsSized old
    → HasRoom n
    → i ≤ 512
    → Round i new old n
unfolding unblock_loop sigismember sigdelset drop_signal
round zero new old n v w hn le = (old, λ rounds. refl, (w, ground arith))
round (suc i) new old n v w hn le =
    let hi : HasRoom (suc i) = omega arith in
    let (r, e, c) = sigdelset-Changes old (suc i) n w hi hn in Round-of i new old n r v w hi e c

unblock_loop-Unblocked :
    (rounds i : ℕ) (new old : Sigset) (n : ℕ)
    → IsSized new
    → IsSized old
    → HasRoom n
    → i + rounds ≤ 512
    → Returns (unblock_loop rounds i new old) (Unblocked rounds i new old n)
unblock_loop-Unblocked zero i new old n v w hn le =
    (old, unfold unblock_loop in refl, (w, ground arith))
unblock_loop-Unblocked (suc rounds) i new old n v w hn le =
    let (t, e, (sized, first)) = round i new old n v w hn (omega arith) in
    let (r, run, (sized', later)) =
      unblock_loop-Unblocked rounds (i + 1) new t n v sized hn (omega arith) in
    (r, e rounds ∙ run, (sized', ground (arith, first, later)))

-- `SIG_UNBLOCK` takes signals 1 to 15 of the given set out of the mask. Any other signal, which the
-- array has room for, stays as it is: the loop runs over as many signals as the set has words.
pub member-unblock :
    (new old : Sigset) (n : ℕ)
    → IsSized new
    → IsSized old
    → HasRoom n
    → Returns
        (set_signal_mask unblock new old)
        λ r. member r n ≡ (if ltb n 16 && (member new n == 1) then 0 else member old n)
unfolding set_signal_mask
member-unblock new old n v w hn =
    let (r, run, (sized, e)) = unblock_loop-Unblocked 16 0 new old n v w hn (omega arith) in
    (r, run, e ∙ ground arith)
