-- ===== src/Fat/Entries.antt =====
-- kernel/fs/fat.c: fat_get_next_cluster after fat_update_fat.
use night_os.Base.{
  ℕ, ◌+◌, ◌-◌, ◌*◌, ◌/◌, ◌%◌, ◌^◌, ◌<◌, ◌≤◌, ◌≡◌, ◌≢◌, refl, sym, ap, ap₂, ◌∙◌, ◌⊎◌, inl, inr, true,
  false, arith, leb, ◌==◌, if◌then◌else◌, ==_iff, lt→ltb,
}
use Prim.Native.Nat.{bit_and}
use native.Mathlib.Nat.{
  mod-eq_of_lt, mul-le-mul_right, mul-div-mul_left, mul-add-mod_self_left, div-add-mod, mod-lt,
  le-div_iff_mul-le, div-mul-le_self, mul_assoc, mul-add, add-mul, le-mul_of_pos_right,
}
use native.Mathlib.Decide.{dec_lt, ℕ_discrete}
use night_os.Fat.{
  FatFs, Disk, write_sector, with_entry, fat_offset, sector_start, entry_index,
  fat_get_next_cluster, fat_update_fat,
}

-- The table has `count` entries, which a 32-bit byte address reaches, in sectors of whole words.
pub record Reaches (fs : FatFs) (count : ℕ) : Type 0 where
  pub words : ℕ
  pub sized : fs.sector_size ≡ 4 * words
  pub some_word : 0 < words
  pub few : count ≤ 2 ^ 30
  pub below : (fs.fat_pointer + count / words + 1) * fs.sector_size ≤ 2 ^ 32

-- the sector of an entry has an address of 32 bits
in_table :
    {fs : FatFs} {count : ℕ} (r : Reaches fs count) (c : ℕ)
    → c < count
    → (fs.fat_pointer + c / r.words + 1 ≤ 2 ^ 32)
      × ((fs.fat_pointer + c / r.words) * fs.sector_size < 2 ^ 32)
in_table {fs} {count} r c lt =
    let q = c / r.words in
    let below : q ≤ count / r.words =
      (le-div_iff_mul-le r.some_word).1 (omega (arith, div-mul-le_self c r.words, lt)) in
    let more : fs.fat_pointer + q + 1 ≤ fs.fat_pointer + count / r.words + 1 =
      omega (arith, below) in
    let top : (fs.fat_pointer + q + 1) * fs.sector_size ≤ 2 ^ 32 =
      omega (arith, mul-le-mul_right fs.sector_size more, r.below) in
    let wide : 1 ≤ fs.sector_size = omega (arith, r.sized, r.some_word) in
    (
      omega (arith, le-mul_of_pos_right (fs.fat_pointer + q + 1) wide, top),
      omega (arith, top, add-mul (fs.fat_pointer + q) 1 fs.sector_size, wide),
    )

pub table_address :
    {fs : FatFs} {count : ℕ} (r : Reaches fs count) (c : ℕ)
    → c < count
    → (fs.fat_pointer % 2 ^ 32 + c / r.words) % 2 ^ 32 * fs.sector_size % 2 ^ 32
      ≡ (fs.fat_pointer + c / r.words) * fs.sector_size
table_address {fs} {count} r c lt =
    let (number, sum) = in_table r c lt in
    ap (λ n. (n + c / r.words) % 2 ^ 32 * fs.sector_size % 2 ^ 32)
      (mod-eq_of_lt {n = fs.fat_pointer} (omega (arith, number)))
    ∙ ap (λ n. n * fs.sector_size % 2 ^ 32) (mod-eq_of_lt (omega (arith, number)))
    ∙ mod-eq_of_lt sum

-- where the entry of a cluster is
pub sector_start-lem :
    {fs : FatFs} {count : ℕ} (r : Reaches fs count) (c : ℕ)
    → c < count
    → sector_start fs c ≡ (fs.fat_pointer + c / r.words) * fs.sector_size
unfolding sector_start fat_offset
sector_start-lem {fs} {count} r c lt =
    let (number, sum) = in_table r c lt in
    let small : c * 4 % 2 ^ 32 ≡ 4 * c = omega (arith, lt, r.few) in
    let quotient : c * 4 % 2 ^ 32 / fs.sector_size ≡ c / r.words =
      ap₂ (λ a b. a / b) small r.sized ∙ mul-div-mul_left c r.words (omega arith) in
    ap (λ n. (fs.fat_pointer + n) % 2 ^ 32 * fs.sector_size % 2 ^ 32) quotient
    ∙ ap (λ n. n * fs.sector_size % 2 ^ 32) (mod-eq_of_lt (omega (arith, number)))
    ∙ mod-eq_of_lt sum

pub entry_index-lem :
    {fs : FatFs} {count : ℕ} (r : Reaches fs count) (c : ℕ)
    → c < count
    → entry_index fs c ≡ c % r.words
unfolding entry_index fat_offset
entry_index-lem {fs} {count} r c lt =
    let small : c * 4 % 2 ^ 32 ≡ 4 * c = omega (arith, lt, r.few) in
    let parts = div-add-mod c r.words in
    let rest : 4 * c ≡ 4 * r.words * (c / r.words) + 4 * (c % r.words) =
      ap (λ n. 4 * n) (sym parts)
      ∙ mul-add 4 (r.words * (c / r.words)) (c % r.words)
      ∙ ap (λ n. n + 4 * (c % r.words)) (sym (mul_assoc 4 r.words (c / r.words))) in
    let low : 4 * (c % r.words) < 4 * r.words = omega (arith, mod-lt c r.some_word) in
    let cut : (4 * c) % (4 * r.words) ≡ 4 * (c % r.words) =
      ap (λ n. n % (4 * r.words)) rest
      ∙ mul-add-mod_self_left (4 * r.words) (c / r.words) (4 * (c % r.words))
      ∙ mod-eq_of_lt low in
    rw (small) (rw (r.sized) (rw (cut) (omega arith)))

-- the sectors of two entries follow each other as their numbers do
sectors_apart :
    {fs : FatFs} {count : ℕ} (r : Reaches fs count) (c e : ℕ)
    → c < count
    → e < count
    → c / r.words < e / r.words
    → sector_start fs c + fs.sector_size ≤ sector_start fs e
sectors_apart {fs} {count} r c e lt lt' l =
    let q = c / r.words in
    let next : fs.fat_pointer + q + 1 ≤ fs.fat_pointer + e / r.words = omega (arith, l) in
    omega (
      arith,
      sector_start-lem r c lt,
      sector_start-lem r e lt',
      add-mul (fs.fat_pointer + q) 1 fs.sector_size,
      mul-le-mul_right fs.sector_size next,
    )

-- two entries: the same word of the same sector, another word of it, or another sector
index-lt :
    {fs : FatFs} {count : ℕ} (r : Reaches fs count) (c : ℕ)
    → c < count
    → 4 * entry_index fs c < fs.sector_size
index-lt {fs} {count} r c lt = omega (arith, entry_index-lem r c lt, mod-lt c r.some_word, r.sized)

same_entry :
    {fs : FatFs} {count : ℕ} (r : Reaches fs count) (c e : ℕ)
    → c < count
    → e < count
    → sector_start fs c ≡ sector_start fs e
    → entry_index fs c ≡ entry_index fs e
    → c ≡ e
same_entry {fs} {count} r c e lt lt' s i = elim (dec_lt (c / r.words) (e / r.words)) [
  | yes l ↦ absurd (omega (arith, s, sectors_apart r c e lt lt' l, r.sized, r.some_word))
  | no g ↦ elim (dec_lt (e / r.words) (c / r.words)) [
    | yes l ↦ absurd (omega (arith, s, sectors_apart r e c lt' lt l, r.sized, r.some_word))
    | no h ↦
        let same : c / r.words ≡ e / r.words = omega (arith, g, h) in
        let low : c % r.words ≡ e % r.words =
          sym (entry_index-lem r c lt) ∙ i ∙ entry_index-lem r e lt' in
        sym (div-add-mod c r.words) ∙ ap₂ (λ a b. r.words * a + b) same low ∙ div-add-mod e r.words
  ]
]

-- the sectors of two entries do not overlap
apart :
    {fs : FatFs} {count : ℕ} (r : Reaches fs count) (c e : ℕ)
    → c < count
    → e < count
    → sector_start fs c ≢ sector_start fs e
    → (sector_start fs c + fs.sector_size ≤ sector_start fs e)
      ⊎ (sector_start fs e + fs.sector_size ≤ sector_start fs c)
apart {fs} {count} r c e lt lt' n = elim (dec_lt (c / r.words) (e / r.words)) [
  | yes l ↦ inl (sectors_apart r c e lt lt' l)
  | no g ↦ elim (dec_lt (e / r.words) (c / r.words)) [
    | yes l ↦ inr (sectors_apart r e c lt' lt l)
    | no h ↦
        let same : c / r.words ≡ e / r.words = omega (arith, g, h) in
        absurd (
          n (
            sector_start-lem r c lt
            ∙ ap (λ q. (fs.fat_pointer + q) * fs.sector_size) same
            ∙ sym (sector_start-lem r e lt')))
  ]
]

ne→== : (a b : ℕ) → a ≢ b → (a == b) ≡ false
ne→== a b n = ground (arith, n)

leb-true : (a b : ℕ) → a ≤ b → leb a b ≡ true
leb-true a b le = ground (arith, le)

-- a sector that was written, read again, and the rest of the disk
write_sector-inside :
    (start size k : ℕ) (words : ℕ → ℕ) (d : Disk)
    → 4 * k < size
    → write_sector start size words d (start + 4 * k) ≡ words k
write_sector-inside start size k words d lt =
    let at : (start + 4 * k - start) / 4 ≡ k = omega arith in
    rw (leb-true start (start + 4 * k) (omega arith))
      (rw (lt→ltb (start + 4 * k) (start + size) (omega (arith, lt))) (ap words at))

write_sector-outside :
    (start size a : ℕ) (words : ℕ → ℕ) (d : Disk)
    → (a < start) ⊎ (start + size ≤ a)
    → write_sector start size words d a ≡ d a
write_sector-outside start size a words d (inl lt) = ground (arith, lt)
write_sector-outside start size a words d (inr le) = ground (arith, le)

-- the word of an entry after an update
word-update :
    {fs : FatFs} {count : ℕ} (r : Reaches fs count) (c e value : ℕ) (d : Disk)
    → c < count
    → e < count
    → c ≢ e
    → fat_update_fat fs c value d (sector_start fs e + 4 * entry_index fs e)
      ≡ d (sector_start fs e + 4 * entry_index fs e)
unfolding fat_update_fat
word-update {fs} {count} r c e value d lt lt' n =
    elim (ℕ_discrete (sector_start fs c) (sector_start fs e)) [
      | yes s ↦
          let other : (entry_index fs e == entry_index fs c) ≡ false =
            ne→== (entry_index fs e) (entry_index fs c)
              (λ i. n (same_entry r c e lt lt' s (sym i))) in
          ap (λ a. fat_update_fat fs c value d (a + 4 * entry_index fs e)) (sym s)
          ∙ write_sector-inside (sector_start fs c) fs.sector_size (entry_index fs e)
              (with_entry fs c value d) d (index-lt r e lt')
          ∙ rw (other) (ap (λ a. d (a + 4 * entry_index fs e)) s)
      | no s ↦
          let below = index-lt r e lt' in
          write_sector-outside (sector_start fs c) fs.sector_size
            (sector_start fs e + 4 * entry_index fs e) (with_entry fs c value d) d
            (elim (apart r c e lt lt' s) [
              | inl h ↦ inr (omega (arith, h))
              | inr h ↦ inl (omega (arith, h, below))
            ])
    ]

-- For clusters that the table reaches, fat_get_next_cluster after fat_update_fat returns, for the
-- cluster that was updated, the low 28 bits of the value, and for every other cluster what it
-- returned before.
pub get_next-update :
    {fs : FatFs} {count : ℕ} (r : Reaches fs count) (c e value : ℕ) (d : Disk)
    → c < count
    → e < count
    → fat_get_next_cluster fs e (fat_update_fat fs c value d)
      ≡ (if c == e then bit_and value (2 ^ 28 - 1) else fat_get_next_cluster fs e d)
unfolding fat_get_next_cluster fat_update_fat
get_next-update {fs} {count} r c e value d lt lt' = elim (ℕ_discrete c e) [
  | yes same ↦
      let written : fat_update_fat fs c value d (sector_start fs c + 4 * entry_index fs c) ≡ value =
        write_sector-inside (sector_start fs c) fs.sector_size (entry_index fs c)
          (with_entry fs c value d) d (index-lt r c lt)
        ∙ rw ((==_iff (entry_index fs c) (entry_index fs c)).1 refl) refl in
      rw ((==_iff c e).1 same) (
        ap
          (λ k.
            bit_and (fat_update_fat fs c value d (sector_start fs k + 4 * entry_index fs k))
              (2 ^ 28 - 1))
          (sym same)
        ∙ ap (λ x. bit_and x (2 ^ 28 - 1)) written)
  | no other ↦
      rw (ne→== c e other)
        (ap (λ x. bit_and x (2 ^ 28 - 1)) (word-update r c e value d lt lt' other))
]
