-- ===== src/Fat/Reading.antt =====
-- kernel/fs/fat.c: fat_read of a file, against the chain of its clusters.
use night_os.Base.{
  ℕ, zero, suc, ◌+◌, ◌-◌, ◌*◌, ◌%◌, ◌^◌, ◌<◌, ◌≤◌, ◌≡◌, refl, sym, ap, ◌∙◌, Bool, true, false, ◌&&◌,
  Option, none, some, List, [], ◌∷◌, arith, ltb, leb, ◌==◌, min, if◌then◌else◌, lt→ltb, le→ltb, ok,
  ◌>>=◌,
}
use night_os.Base.Int.{ℤ, negsuc, of_int_bits}
use mathlib.Core.Path.{subst}
use native.Mathlib.Nat.{suc-mul}
use native.Mathlib.Decide.{dec_lt}
use night_os.Fat.{
  FatFs, Disk, fat_get_next_cluster, cluster_bytes, cluster_start, end_of_chain, chunk_size,
  and_read, read_loop, fat_read_file_data, skip_loop, fat_read,
}

le→leb : (a b : ℕ) → a ≤ b → leb a b ≡ true
le→leb a b le = ground (arith, le)

lt→leb : (a b : ℕ) → b < a → leb a b ≡ false
lt→leb a b lt = ground (arith, lt)

suc-not-zero : (n : ℕ) → (suc n == 0) ≡ false
suc-not-zero n = ground arith

add_zero : (n : ℕ) → n ≡ n + 0
add_zero n = omega arith

and-false : (a b : Bool) → b ≡ false → (a && b) ≡ false
and-false a b e = ground (arith, e)

-- The clusters of a file, from one on: each entry of the table leads to the next cluster, and that of
-- the last one is a mark of the end.
unfoldable pub IsChain : FatFs → Disk → ℕ → List ℕ → Type 0
IsChain fs d c [] = end_of_chain ≤ fat_get_next_cluster fs c d
IsChain fs d c (e ∷ cs) = (fat_get_next_cluster fs c d ≡ e) × (e < end_of_chain) × IsChain fs d e cs

-- the reads of whole clusters, up to a number of bytes, and how many bytes that is
unfoldable pub pieces : FatFs → ℕ → ℕ → List ℕ → ℕ × List (ℕ × ℕ)
pieces fs size c [] =
    if size == 0
    then (0, [])
    else (min size (cluster_bytes fs), (cluster_start fs c, min size (cluster_bytes fs)) ∷ [])
pieces fs size c (e ∷ cs) =
    let rest = pieces fs (size - cluster_bytes fs) e cs in
    if size == 0 then (0, []) else and_read (cluster_start fs c, min size (cluster_bytes fs)) rest

chunk_size-min : (fs : FatFs) (size : ℕ) → chunk_size fs size ≡ min size (cluster_bytes fs)
unfolding chunk_size
chunk_size-min fs size = ground arith

left_over : (fs : FatFs) (size : ℕ) → size - chunk_size fs size ≡ size - cluster_bytes fs
unfolding chunk_size
left_over fs size = ground arith

-- a round of the loop with bytes to read: the last cluster of the chain, and one before it
abbrev piece : FatFs → ℕ → ℕ → ℕ × ℕ
piece fs c size = (cluster_start fs c, min size (cluster_bytes fs))

round_last :
    (fuel : ℕ) (fs : FatFs) (d : Disk) (c n : ℕ)
    → (ltb 0 (suc n - cluster_bytes fs) && ltb (fat_get_next_cluster fs c d) end_of_chain) ≡ false
    → read_loop (suc fuel) fs c (suc n) d
      ≡ ok (min (suc n) (cluster_bytes fs), piece fs c (suc n) ∷ [])
unfolding read_loop
round_last fuel fs d c n e =
    rw (lt→ltb 0 (suc n) (omega arith))
      (rw (left_over fs (suc n)) (rw (e) (rw (chunk_size-min fs (suc n)) refl)))

round_inner :
    (fuel : ℕ) (fs : FatFs) (d : Disk) (c n : ℕ)
    → 0 < suc n - cluster_bytes fs
    → fat_get_next_cluster fs c d < end_of_chain
    → read_loop (suc fuel) fs c (suc n) d ≡ (
        read_loop fuel fs (fat_get_next_cluster fs c d) (suc n - cluster_bytes fs) d >>= λ r.
        ok (and_read (piece fs c (suc n)) r))
unfolding read_loop
round_inner fuel fs d c n more inner = rw (lt→ltb 0 (suc n) (omega arith)) (
    rw (left_over fs (suc n)) (
      rw (lt→ltb 0 (suc n - cluster_bytes fs) more) (
        rw (lt→ltb (fat_get_next_cluster fs c d) end_of_chain inner)
          (rw (chunk_size-min fs (suc n)) refl))))

pieces-zero : (fs : FatFs) (c : ℕ) (cs : List ℕ) → pieces fs 0 c cs ≡ (0, [])
unfolding pieces
pieces-zero fs c [] = refl
pieces-zero fs c (e ∷ cs) = refl

pieces-last :
    (fs : FatFs) (c n : ℕ)
    → pieces fs (suc n) c [] ≡ (min (suc n) (cluster_bytes fs), piece fs c (suc n) ∷ [])
unfolding pieces
pieces-last fs c n = rw (suc-not-zero n) refl

pieces-inner :
    (fs : FatFs) (c n e : ℕ) (cs : List ℕ)
    → pieces fs (suc n) c (e ∷ cs)
      ≡ and_read (piece fs c (suc n)) (pieces fs (suc n - cluster_bytes fs) e cs)
unfolding pieces
pieces-inner fs c n e cs = rw (suc-not-zero n) refl

read_loop-zero :
    (fuel : ℕ) (fs : FatFs) (d : Disk) (c : ℕ) → read_loop (suc fuel) fs c 0 d ≡ ok (0, [])
unfolding read_loop
read_loop-zero fuel fs d c = refl

read_loop-pieces :
    (fuel : ℕ) (fs : FatFs) (d : Disk) (c size : ℕ) (cs : List ℕ)
    → 0 < cluster_bytes fs
    → IsChain fs d c cs
    → size < fuel
    → read_loop fuel fs c size d ≡ ok (pieces fs size c cs)
unfolding IsChain
read_loop-pieces zero fs d c size cs wide chain lt = absurd (omega (arith, lt))
read_loop-pieces (suc fuel) fs d c zero cs wide chain lt =
    read_loop-zero fuel fs d c ∙ ap ok (sym (pieces-zero fs c cs))
read_loop-pieces (suc fuel) fs d c (suc n) [] wide chain lt =
    let stop : (ltb 0 (suc n - cluster_bytes fs) && ltb (fat_get_next_cluster fs c d) end_of_chain)
        ≡ false =
      and-false (ltb 0 (suc n - cluster_bytes fs)) _
        (le→ltb (fat_get_next_cluster fs c d) end_of_chain chain) in
    round_last fuel fs d c n stop ∙ ap ok (sym (pieces-last fs c n))
read_loop-pieces (suc fuel) fs d c (suc n) (e ∷ cs) wide (next, inner, chain) lt =
    elim (dec_lt 0 (suc n - cluster_bytes fs)) [
      | yes more ↦
          let ih =
            read_loop-pieces fuel fs d e (suc n - cluster_bytes fs) cs wide chain
              (omega (arith, lt, wide)) in
          round_inner fuel fs d c n more (omega (arith, next, inner))
          ∙ ap
              (λ k. read_loop fuel fs k (suc n - cluster_bytes fs) d >>= λ r.
                ok (and_read (piece fs c (suc n)) r))
              next
          ∙ ap (λ r. r >>= λ r. ok (and_read (piece fs c (suc n)) r)) ih
          ∙ ap ok (sym (pieces-inner fs c n e cs))
      | no none_left ↦
          let empty : suc n - cluster_bytes fs ≡ 0 = omega (arith, none_left) in
          let stop : (ltb 0 (suc n - cluster_bytes fs)
                && ltb (fat_get_next_cluster fs c d) end_of_chain)
              ≡ false =
            rw (empty) refl in
          round_last fuel fs d c n stop
          ∙ ap (λ m. ok (m, piece fs c (suc n) ∷ [])) (add_zero (min (suc n) (cluster_bytes fs)))
          ∙ ap (λ r. ok (and_read (piece fs c (suc n)) r))
              (sym (ap (λ m. pieces fs m e cs) empty ∙ pieces-zero fs e cs))
          ∙ ap ok (sym (pieces-inner fs c n e cs))
    ]

-- the cluster behind a number of others, and those behind it
unfoldable pub after : ℕ → ℕ → List ℕ → Option (ℕ × List ℕ)
after zero c cs = some (c, cs)
after (suc k) c [] = none
after (suc k) c (e ∷ cs) = after k e cs

abbrev pub cluster_of : Option (ℕ × List ℕ) → Option ℕ
cluster_of none = none
cluster_of (some (c, cs)) = some c

skip_loop-after :
    (k fuel : ℕ) (fs : FatFs) (d : Disk) (c offset : ℕ) (cs : List ℕ)
    → IsChain fs d c cs
    → k * cluster_bytes fs ≤ offset
    → offset < k * cluster_bytes fs + cluster_bytes fs
    → offset < fuel
    → skip_loop fuel fs c offset d ≡ ok (cluster_of (after k c cs))
unfolding skip_loop after IsChain
skip_loop-after k zero fs d c offset cs chain ge lt enough = absurd (omega (arith, enough))
skip_loop-after zero (suc fuel) fs d c offset cs chain ge lt enough =
    rw (lt→ltb offset (cluster_bytes fs) (omega (arith, lt))) refl
skip_loop-after (suc k) (suc fuel) fs d c offset [] chain ge lt enough =
    let past : cluster_bytes fs ≤ offset = omega (arith, ge, suc-mul k (cluster_bytes fs)) in
    rw (le→ltb offset (cluster_bytes fs) past)
      (rw (le→leb end_of_chain (fat_get_next_cluster fs c d) chain) refl)
skip_loop-after (suc k) (suc fuel) fs d c offset (e ∷ cs) (next, inner, chain) ge lt enough =
    let step = suc-mul k (cluster_bytes fs) in
    let past : cluster_bytes fs ≤ offset = omega (arith, ge, step) in
    let ih =
      skip_loop-after k fuel fs d e (offset - cluster_bytes fs) cs chain (omega (arith, ge, step))
        (omega (arith, lt, step, past)) (omega (arith, enough, lt, ge)) in
    rw (le→ltb offset (cluster_bytes fs) past) (rw (next) (rw (lt→leb end_of_chain e inner) ih))

after-IsChain :
    (k : ℕ) (fs : FatFs) (d : Disk) (c e : ℕ) (cs es : List ℕ)
    → IsChain fs d c cs
    → after k c cs ≡ some (e, es)
    → IsChain fs d e es
unfolding after IsChain
after-IsChain zero fs d c e cs es chain q =
    let here : ◌≡◌ {A = ℕ × List ℕ} (c, cs) (e, es) = cc q in
    subst (λ r. IsChain fs d r.0 r.1) here chain
after-IsChain (suc k) fs d c e [] es chain q = cc q
after-IsChain (suc k) fs d c e (f ∷ cs) es (next, inner, chain) q =
    after-IsChain k fs d f e cs es chain q

-- the result of `fat_read`, for the clusters from the one on in which it starts
abbrev pub result_of : FatFs → ℕ → Option (ℕ × List ℕ) → ℤ × List (ℕ × ℕ)
result_of fs size none = (negsuc 0, [])
result_of fs size (some (c, cs)) =
    (of_int_bits ((pieces fs size c cs).0 % 2 ^ 32), (pieces fs size c cs).1)

fat_read-result_of :
    (fs : FatFs) (d : Disk) (c size offset : ℕ) (o : Option (ℕ × List ℕ))
    → 0 < cluster_bytes fs
    → skip_loop (offset + 1) fs c offset d ≡ ok (cluster_of o)
    → ((e : ℕ) (es : List ℕ) → o ≡ some (e, es) → IsChain fs d e es)
    → fat_read fs c size offset d ≡ ok (result_of fs size o)
unfolding fat_read fat_read_file_data
fat_read-result_of fs d c size offset none wide skip chain = rw (skip) refl
fat_read-result_of fs d c size offset (some (e, es)) wide skip chain =
    rw (skip)
      (rw (read_loop-pieces (size + 1) fs d e size es wide (chain e es refl) (omega arith)) refl)

-- For a file whose clusters are a chain, and an offset in the cluster number k, counted from 0,
-- fat_read returns: -1 if the chain has no such cluster, and otherwise it reads whole clusters from
-- the start of that cluster on, wherever in it the offset is, up to the size and the end of the
-- chain, and returns how many bytes that is.
pub fat_read-pieces :
    (fs : FatFs) (d : Disk) (c size offset k : ℕ) (cs : List ℕ)
    → 0 < cluster_bytes fs
    → IsChain fs d c cs
    → k * cluster_bytes fs ≤ offset
    → offset < k * cluster_bytes fs + cluster_bytes fs
    → fat_read fs c size offset d ≡ ok (result_of fs size (after k c cs))
fat_read-pieces fs d c size offset k cs wide chain ge lt =
    fat_read-result_of fs d c size offset (after k c cs) wide
      (skip_loop-after k (offset + 1) fs d c offset cs chain ge lt (omega arith))
      (λ e es q. after-IsChain k fs d c e cs es chain q)
