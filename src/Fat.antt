-- ===== src/Fat.antt =====
-- kernel/fs/fat.c: the entries of the file allocation table. A disk gives the 32-bit word at each
-- byte address; the device reads and writes whole sectors, of whole words.
pub mod Entries
pub mod Reading
pub mod Free
mod Tests
use night_os.Base.{
  ℕ, zero, suc, ◌+◌, ◌-◌, ◌*◌, ◌/◌, ◌%◌, ◌^◌, ◌&&◌, ltb, leb, ◌==◌, if◌then◌else◌, Option, none,
  some, List, [], ◌∷◌, min, not, Run, ok, out_of_fuel, ◌>>=◌,
}
use night_os.Base.Int.{ℤ, negsuc, of_int_bits}
use Prim.Native.Nat.{bit_and}

-- `fat_fs_t`
pub record FatFs : Type 0 where
  pub sector_size : ℕ
  pub cluster_size : ℕ
  pub capacity : ℕ
  pub fat_pointer : ℕ
  pub data_pointer : ℕ

abbrev pub Disk : Type 0
Disk = ℕ → ℕ

-- the `read` and `write` of the device: a buffer gives the word at each index
abbrev pub read_sector : ℕ → Disk → ℕ → ℕ
read_sector start d k = d (start + 4 * k)

abbrev pub write_sector : ℕ → ℕ → (ℕ → ℕ) → Disk → Disk
write_sector start size words d a =
    if leb start a && ltb a (start + size) then words ((a - start) / 4) else d a

-- `fat_offset`, `fat_sector * fs->sectorSize` and `entry_offset / 4`
unfoldable pub fat_offset : ℕ → ℕ
fat_offset cluster = cluster * 4 % 2 ^ 32

unfoldable pub sector_start : FatFs → ℕ → ℕ
unfolding fat_offset
sector_start fs cluster =
    (fs.fat_pointer + fat_offset cluster / fs.sector_size) % 2 ^ 32 * fs.sector_size % 2 ^ 32

unfoldable pub entry_index : FatFs → ℕ → ℕ
unfolding fat_offset
entry_index fs cluster = fat_offset cluster % fs.sector_size / 4

-- `fat_get_next_cluster`
unfoldable pub fat_get_next_cluster : FatFs → ℕ → Disk → ℕ
fat_get_next_cluster fs cluster d =
    bit_and (read_sector (sector_start fs cluster) d (entry_index fs cluster)) (2 ^ 28 - 1)

-- the sector with the entry of a cluster changed
abbrev pub with_entry : FatFs → ℕ → ℕ → Disk → ℕ → ℕ
with_entry fs cluster value d k =
    if k == entry_index fs cluster then value else read_sector (sector_start fs cluster) d k

-- `fat_update_fat`
unfoldable pub fat_update_fat : FatFs → ℕ → ℕ → Disk → Disk
fat_update_fat fs cluster value d =
    write_sector (sector_start fs cluster) fs.sector_size (with_entry fs cluster value d) d

-- the bytes of a cluster, and where a cluster is on the disk
abbrev pub cluster_bytes : FatFs → ℕ
cluster_bytes fs = fs.cluster_size * fs.sector_size % 2 ^ 32

unfoldable pub cluster_start : FatFs → ℕ → ℕ
cluster_start fs cluster =
    (fs.data_pointer * fs.sector_size + (cluster + 2 ^ 32 - 2) % 2 ^ 32 * cluster_bytes fs % 2 ^ 32)
    % 2 ^ 64

-- the mark of the end of a chain
abbrev pub end_of_chain : ℕ
end_of_chain = 2 ^ 28 - 8

-- `chunk_size`, for the bytes that are still to be read
unfoldable pub chunk_size : FatFs → ℕ → ℕ
chunk_size fs size = if ltb size (cluster_bytes fs) then size else cluster_bytes fs

-- The loop of `fat_read_file_data`, with the bytes that are still to be read: the bytes that it
-- reads, and its reads from the device, each the byte address and the length.
abbrev pub and_read : ℕ × ℕ → ℕ × List (ℕ × ℕ) → ℕ × List (ℕ × ℕ)
and_read (start, chunk) (n, reads) = (chunk + n, (start, chunk) ∷ reads)

unfoldable pub read_loop : ℕ → FatFs → ℕ → ℕ → Disk → Run (ℕ × List (ℕ × ℕ))
read_loop zero fs cluster size d = out_of_fuel
read_loop (suc fuel) fs cluster size d =
    let chunk = chunk_size fs size in
    let next = fat_get_next_cluster fs cluster d in
    let rest = read_loop fuel fs next (size - chunk) d in
    if not (ltb 0 size)
    then ok (0, [])
    else if ltb 0 (size - chunk) && ltb next end_of_chain
    then (rest >>= λ r. ok (and_read (cluster_start fs cluster, chunk) r))
    else ok (chunk, (cluster_start fs cluster, chunk) ∷ [])

-- `fat_read_file_data`
unfoldable pub fat_read_file_data : FatFs → ℕ → ℕ → Disk → Run (ℕ × List (ℕ × ℕ))
fat_read_file_data fs cluster size d = read_loop (size + 1) fs cluster size d

-- the loop of `fat_read`: the cluster that it stops at, or none at the end of the chain
unfoldable pub skip_loop : ℕ → FatFs → ℕ → ℕ → Disk → Run (Option ℕ)
skip_loop zero fs cluster offset d = out_of_fuel
skip_loop (suc fuel) fs cluster offset d =
    let next = fat_get_next_cluster fs cluster d in
    let rest = skip_loop fuel fs next (offset - cluster_bytes fs) d in
    if ltb offset (cluster_bytes fs)
    then ok (some cluster)
    else if leb end_of_chain next
    then ok none
    else rest

-- `fat_read` of the file that starts at a cluster
unfoldable pub fat_read : FatFs → ℕ → ℕ → ℕ → Disk → Run (ℤ × List (ℕ × ℕ))
fat_read fs cluster size offset d = skip_loop (offset + 1) fs cluster offset d >>= λ o. elim o [
  | none ↦ ok (negsuc 0, [])
  | some c ↦ fat_read_file_data fs c size d >>= λ (n, reads). ok (of_int_bits (n % 2 ^ 32), reads)
]

-- The loop of `fat_find_free_cluster`, with the clusters that are left, and the buffer, which holds
-- what was in its memory until a sector is read into it.
unfoldable pub next_buffer : FatFs → ℕ → (ℕ → ℕ) → Disk → ℕ → ℕ
next_buffer fs i fat d =
    let entries_per_sector = fs.sector_size / 4 in
    if i % entries_per_sector == 0
    then read_sector
        ((fs.fat_pointer % 2 ^ 32 + i / entries_per_sector) % 2 ^ 32 * fs.sector_size % 2 ^ 32) d
    else fat

unfoldable pub find_free_loop : ℕ → FatFs → ℕ → (ℕ → ℕ) → Disk → ℕ
find_free_loop zero fs i fat d = 0
find_free_loop (suc left) fs i fat d =
    let fat' = next_buffer fs i fat d in
    let rest = find_free_loop left fs (i + 1) fat' d in
    if fat' (i % (fs.sector_size / 4)) == 0 then i else rest

-- `fat_find_free_cluster`, with the memory that malloc returns
unfoldable pub fat_find_free_cluster : FatFs → (ℕ → ℕ) → Disk → ℕ
fat_find_free_cluster fs fat d = find_free_loop (fs.capacity / fs.cluster_size - 2) fs 2 fat d
