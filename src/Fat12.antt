-- ===== src/Fat12.antt =====
-- The FAT12 table in memory: src/drivers/fat12.c. Entries of 12 bits, two in three bytes.
pub mod Table
pub mod Chains
pub mod Store
pub mod Search
pub mod Files
pub mod Paths
pub mod Listing
pub mod Sectors
pub mod Written
pub mod Chained
pub mod ReadBack
pub mod Slots
pub mod Entries
pub mod Composed
pub mod Sound
pub mod Entered
pub mod RoundTrip
pub mod UpDown
pub mod Visible
pub mod Mount
pub mod Freed
pub mod MakeDir
pub mod EnterDir
mod Tests
mod FileTests
use iron_kernel.Prelude.{
  ℕ, zero, suc, ◌+◌, ◌-◌, ◌*◌, ◌/◌, ◌%◌, Bool, true, false, ◌&&◌, ltb, leb, ◌==◌, if◌then◌else◌,
  update, u16, min,
}

-- `FAT_BUF_SECTORS * 512`
abbrev pub fat_buf_size : ℕ
fat_buf_size = 64 * 512

-- `FAT12_EOC`
abbrev pub fat12_eoc : ℕ
fat12_eoc = 0xFF8

-- where the entry of a cluster starts
abbrev pub offset_of : ℕ → ℕ
offset_of cluster = cluster + cluster / 2

-- the 16-bit word at an offset
abbrev pub word : (ℕ → ℕ) → ℕ → ℕ
word fat offset = fat offset + fat (offset + 1) * 256

unfoldable pub fat12_next_cluster : (fat : ℕ → ℕ) → (cluster : ℕ) → ℕ
fat12_next_cluster fat cluster =
    let val = word fat (offset_of cluster) in
    if leb fat_buf_size (offset_of cluster + 1)
    then 0xFFF
    else if cluster % 2 == 1
    then val / 16
    else val % 4096

-- The word that holds the new entry: the 4 bits of the neighbour stay.
abbrev pub packed : (cur cluster val : ℕ) → ℕ
packed cur cluster val =
    if cluster % 2 == 1 then cur % 16 + val % 4096 * 16 else cur / 4096 * 4096 + val % 4096

unfoldable pub fat12_set_cluster : (cluster val : ℕ) → (fat : ℕ → ℕ) → ℕ → ℕ
fat12_set_cluster cluster val fat =
    let offset = offset_of cluster in
    let cur = packed (word fat offset) cluster val in
    update (update fat offset (cur % 256)) (offset + 1) (cur / 256)

-- The search loop of `fat12_alloc_cluster`, `n` clusters from `c` on.
unfoldable pub free_from : (fat : ℕ → ℕ) → (n c : ℕ) → ℕ
free_from fat zero c = 0
free_from fat (suc n) c =
    let rest = free_from fat n (c + 1) in if fat12_next_cluster fat c == 0 then c else rest

-- `sectors_per_cluster` is not 0 on a mounted volume.
unfoldable pub fat12_alloc_cluster :
    (total_sectors first_data_sector sectors_per_cluster : ℕ) → (fat : ℕ → ℕ) → ℕ
fat12_alloc_cluster total_sectors first_data_sector sectors_per_cluster fat =
    let max_cluster = (total_sectors - first_data_sector) / sectors_per_cluster + 2 in
    if leb total_sectors first_data_sector then 0 else free_from fat (min max_cluster 4096 - 2) 2

-- `limit` turns of the loop of `fat12_free_chain`
unfoldable pub free_chain : (limit cluster : ℕ) → (fat : ℕ → ℕ) → ℕ → ℕ
free_chain zero cluster fat = fat
free_chain (suc limit) cluster fat =
    let rest =
      free_chain limit (fat12_next_cluster fat cluster) (fat12_set_cluster cluster 0 fat) in
    if leb 2 cluster && ltb cluster fat12_eoc then rest else fat

unfoldable pub fat12_free_chain : (cluster : ℕ) → (fat : ℕ → ℕ) → ℕ → ℕ
fat12_free_chain cluster fat = free_chain 4096 cluster fat
