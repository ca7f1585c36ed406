-- ===== src/Signals/Sets.antt =====
-- The set of signals that an array of words stands for.
use Prim.Native.Nat.{bit_and, bit_or}
use night_os.Base.{
  ℕ, ◌^◌, ◌≡◌, ◌<◌, ◌≤◌, ap, ◌∙◌, Option, none, some, length, get_or, set, ◌==◌, if◌then◌else◌, ok,
  fault, arith, Returns, length-set, get_or-set_self, get_or-set_ne, get_elem?-eq-get_or,
  get_elem?-ge,
}
use native.Mathlib.Decide.{ℕ_discrete}
use night_os.Base.Bits.{
  digit, digit-le, digit-bit_or, digit-bit_and, digit-pow, complement, digit-complement,
  bit_and-pow, pow-pos, pow-lt,
}
use night_os.Signals.{
  Sigset, sigset_nwords, word, index_of, place_of, sigaddset, sigdelset, sigismember,
}

-- signal `n` is in the set
abbrev pub member : Sigset → ℕ → ℕ
member s n = digit (get_or s (index_of n) 0) (place_of n)

-- as many words as the type has
abbrev pub IsSized : Sigset → Type 0
IsSized s = length s ≡ sigset_nwords

word-get_or : (s : Sigset) (i : ℕ) → i < length s → word s i ≡ ok (get_or s i 0)
unfolding word
word-get_or s i h = ground (arith, get_elem?-eq-get_or s i 0)

member-set :
    (s : Sigset) (n m w : ℕ)
    → index_of n < length s
    → member (set s (index_of n) w) m
      ≡ (if index_of m == index_of n then digit w (place_of m) else member s m)
member-set s n m w h = elim (ℕ_discrete (index_of n) (index_of m)) [
  | yes e ↦
      rw (← e)
        (ap (λ x. digit x (place_of m)) (get_or-set_self s (index_of n) w 0 h) ∙ ground arith)
  | no ne ↦
      ap (λ x. digit x (place_of m)) (get_or-set_ne s (index_of n) (index_of m) w 0 ne)
      ∙ ground arith
]

-- the signals that the array has room for
abbrev pub HasRoom : ℕ → Type 0
HasRoom n = (0 < n) × (n ≤ 512)

member-bit_or :
    (s : Sigset) (n m : ℕ)
    → IsSized s
    → HasRoom n
    → HasRoom m
    → member (set s (index_of n) (bit_or (get_or s (index_of n) 0) (2 ^ place_of n))) m
      ≡ (if m == n then 1 else member s m)
member-bit_or s n m v hn hm =
    let w = get_or s (index_of n) 0 in
    ground (
      arith,
      member-set s n m (bit_or w (2 ^ place_of n)),
      digit-bit_or (place_of m) w (2 ^ place_of n),
      digit-pow (place_of n) (place_of m),
      digit-le w (place_of m),
    )

member-bit_and :
    (s : Sigset) (n m : ℕ)
    → IsSized s
    → HasRoom n
    → HasRoom m
    → member
        (set s (index_of n) (bit_and (get_or s (index_of n) 0) (complement 64 (2 ^ place_of n))))
        m
      ≡ (if m == n then 0 else member s m)
member-bit_and s n m v hn hm =
    let w = get_or s (index_of n) 0 in
    ground (
      arith,
      member-set s n m (bit_and w (complement 64 (2 ^ place_of n))),
      digit-bit_and (place_of m) w (complement 64 (2 ^ place_of n)),
      digit-complement 64 (place_of m) (2 ^ place_of n) (pow-lt (place_of n) 64 (omega arith)),
      digit-pow (place_of n) (place_of m),
      digit-le w (place_of m),
    )

-- `t` is what `sigaddset` or `sigdelset` made of `s`: at signal `n` it is `bit`, and at any other
-- signal `m` what `s` is.
abbrev pub Changes : Sigset → ℕ → ℕ → ℕ → Option Sigset → Type 0
Changes s n bit m none = ⊥
Changes s n bit m (some t) = IsSized t × (member t m ≡ (if m == n then bit else member s m))

module _ (s : Sigset) (n m : ℕ) (v : IsSized s) (hn : HasRoom n) (hm : HasRoom m) where
  -- `sigaddset` puts exactly that signal in, if the set has room for it.
  pub sigaddset-Changes : Returns (sigaddset s n) (Changes s n 1 m)
  unfolding sigaddset
  sigaddset-Changes =
      let w = get_or s (index_of n) 0 in
      let t = set s (index_of n) (bit_or w (2 ^ place_of n)) in
      (
        some t,
        ground (arith, word-get_or s (index_of n)),
        (length-set s (index_of n) (bit_or w (2 ^ place_of n)) ∙ v, member-bit_or s n m v hn hm),
      )

  -- `sigdelset` takes exactly that signal out, if the set has room for it.
  pub sigdelset-Changes : Returns (sigdelset s n) (Changes s n 0 m)
  unfolding sigdelset
  sigdelset-Changes =
      let w = get_or s (index_of n) 0 in
      let t = set s (index_of n) (bit_and w (complement 64 (2 ^ place_of n))) in
      (
        some t,
        ground (arith, word-get_or s (index_of n)),
        (
          length-set s (index_of n) (bit_and w (complement 64 (2 ^ place_of n))) ∙ v,
          member-bit_and s n m v hn hm,
        ),
      )

-- `sigismember` reads the set.
pub sigismember-member :
    (s : Sigset) (n : ℕ) → IsSized s → HasRoom n → sigismember s n ≡ ok (some (member s n == 1))
unfolding sigismember
sigismember-member s n v hn =
    let w = get_or s (index_of n) 0 in
    ground (
      arith,
      word-get_or s (index_of n),
      bit_and-pow (place_of n) w,
      digit-le w (place_of n),
      pow-pos (place_of n),
    )

-- The range check of the three functions admits signals for which the array has no word.
pub sigset_overrun :
    (s : Sigset) (n : ℕ)
    → IsSized s
    → 512 < n
    → n ≤ 1024
    → (sigaddset s n ≡ fault) × (sigdelset s n ≡ fault) × (sigismember s n ≡ fault)
unfolding sigaddset sigdelset sigismember word
sigset_overrun s n v h k = ground (arith, get_elem?-ge s (index_of n))
