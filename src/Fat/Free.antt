-- ===== src/Fat/Free.antt =====
-- kernel/fs/fat.c: fat_find_free_cluster.
use night_os.Base.{
  ℕ, zero, suc, ◌+◌, ◌-◌, ◌*◌, ◌/◌, ◌%◌, ◌^◌, ◌<◌, ◌≤◌, ◌≡◌, ◌≢◌, refl, sym, ap, ap₂, ◌∙◌, ◌⊎◌, inl,
  inr, arith, ◌==◌, ltb, lt→ltb, le→ltb, if◌then◌else◌, Bool-cases, ==_iff,
}
use native.Mathlib.Nat.{mod-eq_of_lt, div-eq_of_lt, mul-add-div, div-add-mod, mod-lt, mod_self}
use mathlib.Core.Path.{subst}
use native.Mathlib.Decide.{dec_lt}
use night_os.Fat.{
  FatFs, Disk, read_sector, sector_start, entry_index, next_buffer, find_free_loop,
  fat_find_free_cluster,
}
use night_os.Fat.Entries.{Reaches, sector_start-lem, entry_index-lem, table_address}

-- the buffer once cluster `i` was looked at: the memory that malloc returned, up to the end of the
-- first sector, and then the sector of the cluster
record IsBuffer {fs : FatFs} {count : ℕ} (r : Reaches fs count) (junk : ℕ → ℕ) (d : Disk) (i : ℕ)
    (fat : ℕ → ℕ) : Type 0 where
  unread : i < r.words → fat ≡ junk
  sector : r.words ≤ i → fat ≡ read_sector ((fs.fat_pointer + i / r.words) * fs.sector_size) d

same_quotient : (t i : ℕ) → 0 < t → (i + 1) % t ≢ 0 → (i + 1) / t ≡ i / t
same_quotient t i some n =
    let q = (i + 1) / t in
    let k = (i + 1) % t in
    let parts = div-add-mod (i + 1) t in
    let here : i ≡ t * q + (k - 1) = omega (arith, parts, n) in
    let small : (k - 1) / t ≡ 0 = div-eq_of_lt (omega (arith, mod-lt (i + 1) some, n)) in
    sym (ap (λ m. m / t) here ∙ mul-add-div some q (k - 1) ∙ ap (λ m. q + m) small ∙ omega arith)

no_rounds : (fs : FatFs) (i : ℕ) (fat : ℕ → ℕ) (d : Disk) → find_free_loop 0 fs i fat d ≡ 0
unfolding find_free_loop
no_rounds fs i fat d = refl

before_end : (t i : ℕ) → t ≤ i + 1 → (i + 1) % t ≢ 0 → t ≤ i
before_end t i le n = elim (dec_lt i t) [
  | yes lt ↦
      let same : t ≡ i + 1 = omega (arith, le, lt) in
      absurd (n (ap (λ m. (i + 1) % m) same ∙ mod_self (i + 1)))
  | no ge ↦ omega (arith, ge)
]

-- What the search sees of a cluster: the memory that malloc returned, for those of the first sector,
-- and the entry on the disk for the others.
abbrev pub seen : {fs : FatFs} {count : ℕ} → Reaches fs count → (ℕ → ℕ) → Disk → ℕ → ℕ
seen {fs} r junk d c =
    if ltb c r.words then junk c else d (sector_start fs c + 4 * entry_index fs c)

-- no cluster from one to another where `f` is 0
abbrev pub NoneFree : ℕ → ℕ → (ℕ → ℕ) → Type 0
NoneFree low high f = (c : ℕ) → low ≤ c → c < high → f c ≢ 0

-- the first cluster from one to another where `f` is 0, or 0 if there is none
abbrev pub IsFirstFree : ℕ → ℕ → (ℕ → ℕ) → ℕ → Type 0
IsFirstFree low high f c =
    ((c ≡ 0) × NoneFree low high f) ⊎ ((low ≤ c) × (c < high) × (f c ≡ 0) × NoneFree low c f)

NoneFree-suc :
    (low high : ℕ) (f : ℕ → ℕ) → f low ≢ 0 → NoneFree (low + 1) high f → NoneFree low high f
NoneFree-suc low high f n rest = λ c ge lt. elim (dec_lt low c) [
  | yes l ↦ rest c (omega (arith, l)) lt
  | no g ↦ let same : low ≡ c = omega (arith, ge, g) in subst (λ c. f c ≢ 0) same n
]

next_buffer-IsBuffer :
    {fs : FatFs} {count : ℕ} (r : Reaches fs count) (junk : ℕ → ℕ) (d : Disk) (i : ℕ) (fat : ℕ → ℕ)
    → i + 1 < count
    → IsBuffer r junk d i fat
    → IsBuffer r junk d (i + 1) (next_buffer fs (i + 1) fat d)
unfolding next_buffer
next_buffer-IsBuffer {fs} {count} r junk d i fat lt b =
    let entries : fs.sector_size / 4 ≡ r.words = omega (arith, r.sized) in
    rw (entries) (elim (Bool-cases ((i + 1) % r.words == 0)) [
      | inl e ↦
          let divides : (i + 1) % r.words ≡ 0 = (==_iff ((i + 1) % r.words) 0).0 e in
          let address = table_address r (i + 1) lt in
          let fresh : IsBuffer r junk d (i + 1) (
              read_sector
                ((fs.fat_pointer % 2 ^ 32 + (i + 1) / r.words) % 2 ^ 32 * fs.sector_size % 2 ^ 32)
                d) =
            record {
              unread = λ l. absurd (omega (arith, divides, mod-eq_of_lt l));
              sector = λ l. ap (λ s. read_sector s d) address;
            } in
          rw (e) fresh
      | inr e ↦
          let apart : (i + 1) % r.words ≢ 0 = λ z. cc ((==_iff ((i + 1) % r.words) 0).1 z, e) in
          let kept : IsBuffer r junk d (i + 1) fat = record {
            unread = λ l. b.unread (omega (arith, l));
            sector = λ l.
                let inside : r.words ≤ i = before_end r.words i l apart in
                b.sector inside
                ∙ ap (λ q. read_sector ((fs.fat_pointer + q) * fs.sector_size) d)
                    (sym (same_quotient r.words i r.some_word apart));
          } in
          rw (e) kept
    ])

-- what the buffer holds of a cluster
buffer-seen :
    {fs : FatFs} {count : ℕ} (r : Reaches fs count) (junk : ℕ → ℕ) (d : Disk) (c : ℕ) (fat : ℕ → ℕ)
    → c < count
    → IsBuffer r junk d c fat
    → fat (c % r.words) ≡ seen r junk d c
buffer-seen {fs} r junk d c fat lt b = elim (dec_lt c r.words) [
  | yes l ↦ rw (lt→ltb c r.words l) (ap₂ (λ f k. f k) (b.unread l) (mod-eq_of_lt l))
  | no ge ↦
      let behind : r.words ≤ c = omega (arith, ge) in
      rw (le→ltb c r.words behind) (
        ap (λ f. f (c % r.words)) (b.sector behind)
        ∙ sym (ap₂ (λ s k. d (s + 4 * k)) (sector_start-lem r c lt) (entry_index-lem r c lt)))
]

find_free_loop-IsFirstFree :
    {fs : FatFs} {count : ℕ} (r : Reaches fs count) (junk : ℕ → ℕ) (d : Disk) (limit left i : ℕ)
    (fat : ℕ → ℕ)
    → i + left + 1 ≡ limit
    → limit ≤ count
    → IsBuffer r junk d i fat
    → IsFirstFree (i + 1) limit (seen r junk d) (find_free_loop left fs (i + 1) fat d)
unfolding find_free_loop
find_free_loop-IsFirstFree r junk d limit zero i fat ends le b =
    inl (refl, λ c ge lt. absurd (omega (arith, ge, lt, ends)))
find_free_loop-IsFirstFree {fs} r junk d limit (suc left) i fat ends le b =
    let next = next_buffer fs (i + 1) fat d in
    let b' = next_buffer-IsBuffer r junk d i fat (omega (arith, ends, le)) b in
    let ih =
      find_free_loop-IsFirstFree r junk d limit left (i + 1) next (omega (arith, ends)) le b' in
    let entries : fs.sector_size / 4 ≡ r.words = omega (arith, r.sized) in
    let here : next ((i + 1) % (fs.sector_size / 4)) ≡ seen r junk d (i + 1) =
      ap (λ t. next ((i + 1) % t)) entries
      ∙ buffer-seen r junk d (i + 1) next (omega (arith, ends, le)) b' in
    elim (Bool-cases (next ((i + 1) % (fs.sector_size / 4)) == 0)) [
      | inl e ↦
          let zeroed : seen r junk d (i + 1) ≡ 0 =
            sym here ∙ (==_iff (next ((i + 1) % (fs.sector_size / 4))) 0).0 e in
          rw (e) (
            inr
              (omega arith, omega (arith, ends), zeroed, λ c ge lt. absurd (omega (arith, ge, lt))))
      | inr e ↦
          let used : seen r junk d (i + 1) ≢ 0 =
            λ z. cc ((==_iff (next ((i + 1) % (fs.sector_size / 4))) 0).1 (here ∙ z), e) in
          rw (e) (elim ih [
            | inl (q, all) ↦ inl (q, NoneFree-suc (i + 1) limit (seen r junk d) used all)
            | inr (ge, lt, z, all) ↦ inr (
              omega (arith, ge),
              lt,
              z,
              NoneFree-suc (i + 1) (find_free_loop left fs (i + 1 + 1) next d) (seen r junk d) used
                  all,
            )
          ])
    ]

-- Where the table reaches all clusters and has more than two entries in a sector,
-- fat_find_free_cluster returns the first cluster from 2 on, below capacity / clusterSize, for which it
-- sees 0, and 0 if there is none. For the clusters of the first sector of the table it sees what was in
-- the memory that malloc returned, whatever the table says, and for the others their entries.
pub find_free_cluster-IsFirstFree :
    {fs : FatFs} {count : ℕ} (r : Reaches fs count) (junk : ℕ → ℕ) (d : Disk)
    → 2 < r.words
    → fs.capacity / fs.cluster_size ≤ count
    → IsFirstFree 2
        (fs.capacity / fs.cluster_size)
        (seen r junk d)
        (fat_find_free_cluster fs junk d)
unfolding fat_find_free_cluster
find_free_cluster-IsFirstFree {fs} {count} r junk d wide le = go (fs.capacity / fs.cluster_size) le
  where
    go :
        (limit : ℕ)
        → limit ≤ count
        → IsFirstFree 2 limit (seen r junk d) (find_free_loop (limit - 2) fs 2 junk d)
    go limit le = elim (dec_lt 1 limit) [
      | yes more ↦
          find_free_loop-IsFirstFree r junk d limit (limit - 2) 1 junk (omega (arith, more)) le
            record { unread = λ l. refl; sector = λ l. absurd (omega (arith, l, wide)) }
      | no few ↦
          let none_left : limit - 2 ≡ 0 = omega (arith, few) in
          inl (
            ap (λ n. find_free_loop n fs 2 junk d) none_left ∙ no_rounds fs 2 junk d,
            λ c ge lt. absurd (omega (arith, ge, lt, few)),
          )
    ]
