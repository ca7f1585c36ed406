-- ===== src/Fat/Tests.antt =====
-- The theorems about the file allocation table at a disk with a file of the clusters 3, 5 and 4.
use night_os.Base.{◌+◌, ◌-◌, ◌*◌, ◌^◌, ◌≡◌, refl, [], ◌∷◌, arith, ◌==◌, if◌then◌else◌, ok}
use Prim.Native.Nat.{bit_and}
use night_os.Fat.{
  FatFs, Disk, fat_offset, sector_start, entry_index, fat_get_next_cluster, fat_update_fat,
  fat_read,
}
use night_os.Fat.Entries.{Reaches, get_next-update}
use night_os.Fat.{fat_find_free_cluster}
use night_os.Fat.Free.{seen, IsFirstFree, find_free_cluster-IsFirstFree}
use night_os.Fat.Reading.{IsChain, after, result_of, fat_read-pieces}

abbrev geometry : FatFs
geometry = record {
  sector_size = 512;
  cluster_size = 2;
  capacity = 4096;
  fat_pointer = 32;
  data_pointer = 64;
}

-- the table starts at byte 32 * 512
abbrev disk : Disk
disk a =
    if a == 16384 + 4 * 3
    then 5
    else if a == 16384 + 4 * 5
    then 4
    else if a == 16384 + 4 * 4
    then 2 ^ 28 - 1
    else 0

abbrev reached : Reaches geometry 2048
reached = record {
  words = 128;
  sized = refl;
  some_word = omega arith;
  few = omega arith;
  below = omega arith;
}

get_next-update_example :
    fat_get_next_cluster geometry 5 (fat_update_fat geometry 4 9 disk)
    ≡ (if 4 == 5 then bit_and 9 (2 ^ 28 - 1) else fat_get_next_cluster geometry 5 disk)
get_next-update_example = get_next-update reached 4 5 9 disk (omega arith) (omega arith)

file-IsChain : IsChain geometry disk 3 (5 ∷ 4 ∷ [])
unfolding IsChain fat_get_next_cluster sector_start entry_index fat_offset
file-IsChain = (refl, omega arith, (refl, omega arith, omega arith))

fat_read-pieces_example :
    fat_read geometry 3 2000 1500 disk ≡ ok (result_of geometry 2000 (after 1 3 (5 ∷ 4 ∷ [])))
fat_read-pieces_example =
    fat_read-pieces geometry disk 3 2000 1500 1 (5 ∷ 4 ∷ []) (omega arith) file-IsChain
      (omega arith) (omega arith)

find_free_cluster-IsFirstFree_example :
    IsFirstFree 2 2048
      (seen reached (λ k. k - 6) disk)
      (fat_find_free_cluster geometry (λ k. k - 6) disk)
find_free_cluster-IsFirstFree_example =
    find_free_cluster-IsFirstFree reached (λ k. k - 6) disk (omega arith) (omega arith)
