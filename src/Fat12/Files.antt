-- ===== src/Fat12/Files.antt =====
-- Files and directories of src/drivers/fat12.c: reading, writing, deleting, renaming and mkdir. What
-- the caller passes as `buf` and `len` is a list of bytes. `cwd_cluster` is the directory's cluster.
use iron_kernel.Prelude.{
  ℕ, zero, suc, ◌+◌, ◌-◌, ◌*◌, ◌/◌, ◌%◌, Bool, ◌&&◌, ◌||◌, not, Option, none, some, List, [], ◌∷◌,
  ◌++◌, ltb, leb, ◌==◌, if◌then◌else◌, update, u32, min, length, drop,
}
use iron_kernel.Fat12.{fat12_next_cluster, fat12_set_cluster, fat12_alloc_cluster, fat12_free_chain}
use iron_kernel.Fat12.Store.{
  Volume, Status, success, failure, ata_write_sector, lba_of, sector_of, fat12_flush_fat, le16,
  le32,
}
use iron_kernel.Fat12.Search.{free_slot, named, to_upper, fat12_find_dir_entry, is_data_cluster}

-- The first `n` bytes of a sector.
unfoldable pub bytes_from : (n b : ℕ) → (ℕ → ℕ) → List ℕ
bytes_from zero b sector = []
bytes_from (suc n) b sector = sector b ∷ bytes_from n (b + 1) sector

-- What a read has done: the bytes in `buf`, and the bytes of the file that are left.
pub record Reading : Type 0 where
  pub taken : List ℕ
  pub remaining : ℕ

abbrev pub to_copy : (buf_size : ℕ) → Reading → ℕ
to_copy buf_size r =
    let n = min 512 r.remaining in
    if ltb buf_size (u32 (length r.taken + n)) then buf_size - length r.taken else n

-- The loop over the sectors of a cluster, `n` of them from `lba` on.
unfoldable pub read_sectors : (n lba buf_size : ℕ) → Volume → Reading → Status × Reading
unfolding bytes_from
read_sectors zero lba buf_size v r = (success, r)
read_sectors (suc n) lba buf_size v r =
    let k = to_copy buf_size r in
    let rest =
      read_sectors n (lba + 1) buf_size v
        (record { taken = r.taken ++ bytes_from k 0 (v.disk lba); remaining = r.remaining - k }) in
    if not (v.readable lba) then (failure, r) else if k == 0 then (success, r) else rest

-- The loop over the clusters of a file, `chain_limit` at most.
unfoldable pub read_chain : (chain_limit cluster buf_size : ℕ) → Volume → Reading → Status × Reading
read_chain zero cluster buf_size v r = (success, r)
read_chain (suc limit) cluster buf_size v r =
    let (st, r1) = read_sectors v.fs.sectors_per_cluster (lba_of v.fs cluster) buf_size v r in
    let rest = read_chain limit (fat12_next_cluster v.fat_buf cluster) buf_size v r1 in
    if is_data_cluster cluster && ltb 0 r.remaining
    then elim st [ failure ↦ (failure, r1) | success ↦ rest ]
    else (success, r)

abbrev pub entry_attr : (ℕ → ℕ) → ℕ → ℕ
entry_attr b i = b (i * 32 + 11)

abbrev pub entry_cluster : (ℕ → ℕ) → ℕ → ℕ
entry_cluster b i = le16 b (i * 32 + 26)

abbrev pub entry_size : (ℕ → ℕ) → ℕ → ℕ
entry_size b i = le32 b (i * 32 + 28)

-- The file of the `i`th entry of a sector.
abbrev pub read_entry : (buf_size sector i : ℕ) → Volume → Status × List ℕ
read_entry buf_size sector i v =
    let b = v.disk sector in
    let (st, r) =
      read_chain 4096 (entry_cluster b i) buf_size v
        (record { taken = []; remaining = entry_size b i }) in
    if v.readable sector then (st, r.taken) else (failure, [])

-- The bytes in `buf` are those of which `bytes_read` counts the number.
unfoldable pub fat12_read_file :
    (cwd_cluster : ℕ) → (name ext : ℕ → ℕ) → (buf_size : ℕ) → Volume → Status × List ℕ
fat12_read_file cwd_cluster name ext buf_size v =
    if not v.fs.mounted
    then (failure, [])
    else elim (fat12_find_dir_entry cwd_cluster (named name ext) v) [
      | none ↦ (failure, [])
      | some (sector, i) ↦ read_entry buf_size sector i v
    ]

-- The loop over the sectors of a cluster: what is left of the bytes.
unfoldable pub write_sectors : (n lba : ℕ) → List ℕ → Volume → Status × (List ℕ × Volume)
unfolding ata_write_sector
write_sectors zero lba src v = (success, (src, v))
write_sectors (suc n) lba src v =
    let (st, v1) = ata_write_sector lba (sector_of src) v in
    let rest = write_sectors n (lba + 1) (drop 512 src) v1 in
    elim st [ failure ↦ (failure, (src, v1)) | success ↦ rest ]

abbrev pub alloc : Volume → ℕ
alloc v =
    fat12_alloc_cluster v.fs.total_sectors v.fs.first_data_sector v.fs.sectors_per_cluster v.fat_buf

abbrev pub set_cluster : (cluster val : ℕ) → Volume → Volume
set_cluster cluster val v = record v { fat_buf = fat12_set_cluster cluster val v.fat_buf }

-- A new cluster ends its chain, and the one before it leads to it.
unfoldable pub link_cluster : (prev c : ℕ) → Volume → Volume
link_cluster prev c v =
    let ended = set_cluster c 0xFFF v in if prev == 0 then ended else set_cluster prev c ended

-- The loop over the clusters that are needed, `n` of them: the first cluster of the file.
unfoldable pub write_clusters : (n first prev : ℕ) → List ℕ → Volume → Status × (ℕ × Volume)
write_clusters zero first prev src v = (success, (first, v))
write_clusters (suc n) first prev src v =
    let c = alloc v in
    let (st, left) =
      write_sectors v.fs.sectors_per_cluster (lba_of v.fs c) src (link_cluster prev c v) in
    let rest = write_clusters n (if first == 0 then c else first) c left.0 left.1 in
    if c == 0
    then (failure, (first, v))
    else elim st [ failure ↦ (failure, (first, left.1)) | success ↦ rest ]

-- `uint32_t`: a file stays far below its wrap.
unfoldable pub clusters_needed : (per_cluster len : ℕ) → ℕ
clusters_needed per_cluster len =
    let n = (len + per_cluster - 1) / per_cluster in if n == 0 then 1 else n

-- The fields of an entry. Each changes its own bytes of the sector alone.
abbrev pub put16 : (i val : ℕ) → (ℕ → ℕ) → ℕ → ℕ
put16 i val b = update (update b i (val % 256)) (i + 1) (val / 256 % 256)

abbrev pub put32 : (i val : ℕ) → (ℕ → ℕ) → ℕ → ℕ
put32 i val b = put16 (i + 2) (val / 65536) (put16 i val b)

unfoldable pub set_contents : (i first_cluster len : ℕ) → (ℕ → ℕ) → ℕ → ℕ
set_contents i first_cluster len b = put32 (i * 32 + 28) len (put16 (i * 32 + 26) first_cluster b)

-- `name[i] && name[i] != ' ' ? name[i] : ' '`, in capitals
unfoldable pub padded : ℕ → ℕ
unfolding to_upper
padded c = to_upper (if c == 0 || c == b' ' then b' ' else c)

-- The 11 bytes of name and extension of the `i`th entry.
unfoldable pub set_name : (i : ℕ) → (name ext : ℕ → ℕ) → (ℕ → ℕ) → ℕ → ℕ
unfolding padded
set_name i name ext b j =
    let k = j - i * 32 in
    if not (leb (i * 32) j)
    then b j
    else if ltb k 8
    then padded (name k)
    else if ltb k 11
    then padded (ext (k - 8))
    else b j

-- The attributes, and the bytes `reserved`, `time` and `date`, which are cleared.
unfoldable pub set_attr : (i attr : ℕ) → (ℕ → ℕ) → ℕ → ℕ
set_attr i attr b j =
    if j == i * 32 + 11 then attr else if leb (i * 32 + 12) j && ltb j (i * 32 + 26) then 0 else b j

abbrev pub attr_directory : ℕ
attr_directory = 0x10

abbrev pub attr_archive : ℕ
attr_archive = 0x20

-- `attr & FAT12_ATTR_DIRECTORY`
abbrev pub is_directory : (ℕ → ℕ) → ℕ → Bool
is_directory b i = entry_attr b i / 16 % 2 == 1

abbrev pub free_chain_of : ℕ → Volume → Volume
free_chain_of cluster v =
    if leb 2 cluster then record v { fat_buf = fat12_free_chain cluster v.fat_buf } else v

-- Step 1 of `fat12_write_file`: the old clusters are freed. `none` is its return with -1.
unfoldable pub release_old : Option (ℕ × ℕ) → Volume → Option Volume
release_old none v = some v
release_old (some (sector, i)) v =
    let b = v.disk sector in
    if not (v.readable sector)
    then none
    else if is_directory b i
    then none
    else some (free_chain_of (entry_cluster b i) v)

-- Step 4: the entry of the file.
unfoldable pub write_entry :
    (cwd_cluster : ℕ)
    → Option (ℕ × ℕ)
    → (name ext : ℕ → ℕ) → (first len : ℕ) → Volume
    → Status × Volume
write_entry cwd (some (sector, i)) name ext first len v =
    if not (v.readable sector)
    then (failure, v)
    else ata_write_sector sector (set_contents i first len (v.disk sector)) v
write_entry cwd none name ext first len v = elim (fat12_find_dir_entry cwd free_slot v) [
  | none ↦ (failure, v)
  | some (sector, i) ↦
      if not (v.readable sector)
      then (failure, v)
      else ata_write_sector sector
          (set_contents i first len (set_attr i attr_archive (set_name i name ext (v.disk sector))))
          v
]

-- `if (… != 0) return -1;`
abbrev pub if_ok : Status → Volume → Status × Volume → Status × Volume
if_ok failure v next = (failure, v)
if_ok success v next = next

unfoldable pub fat12_write_file :
    (cwd_cluster : ℕ) → (name ext : ℕ → ℕ) → (buf : List ℕ) → Volume → Status × Volume
fat12_write_file cwd name ext buf v =
    if not v.fs.mounted
    then (failure, v)
    else let old = fat12_find_dir_entry cwd (named name ext) v in
      elim (release_old old v) [
        | none ↦ (failure, v)
        | some v1 ↦
            let n = clusters_needed (v.fs.sectors_per_cluster * 512) (length buf) in
            let (wrote, made) = write_clusters n 0 0 buf v1 in
            let (flushed, v3) = fat12_flush_fat made.1 in
            let entered = write_entry cwd old name ext made.0 (length buf) v3 in
            if_ok wrote made.1 (if_ok flushed v3 entered)
      ]

unfoldable pub fat12_delete : (cwd_cluster : ℕ) → (name ext : ℕ → ℕ) → Volume → Status × Volume
fat12_delete cwd name ext v = elim (fat12_find_dir_entry cwd (named name ext) v) [
  | none ↦ (failure, v)
  | some (sector, i) ↦
      let b = v.disk sector in
      let (_, flushed) = fat12_flush_fat (free_chain_of (entry_cluster b i) v) in
      if not v.fs.mounted || not (v.readable sector)
      then (failure, v)
      else ata_write_sector sector (update b (i * 32) 0xE5) flushed
]

unfoldable pub fat12_rename :
    (cwd_cluster : ℕ) → (old_name old_ext new_name new_ext : ℕ → ℕ) → Volume → Status × Volume
fat12_rename cwd old_name old_ext new_name new_ext v =
    elim (fat12_find_dir_entry cwd (named old_name old_ext) v) [
      | none ↦ (failure, v)
      | some (sector, i) ↦
          if not v.fs.mounted || not (v.readable sector)
          then (failure, v)
          else ata_write_sector sector (set_name i new_name new_ext (v.disk sector)) v
    ]

-- The loop that clears a new directory: what the writes answer is not looked at.
unfoldable pub clear_sectors : (n lba : ℕ) → Volume → Volume
clear_sectors zero lba v = v
clear_sectors (suc n) lba v = clear_sectors n (lba + 1) (ata_write_sector lba (λ b. 0) v).1

abbrev pub blank_ext : ℕ → ℕ
blank_ext c = b' '

unfoldable pub new_directory : (cluster i : ℕ) → (n8 : ℕ → ℕ) → (ℕ → ℕ) → ℕ → ℕ
new_directory cluster i n8 b =
    set_contents i cluster 0 (set_attr i attr_directory (set_name i n8 blank_ext b))

-- `n8` is the name in capitals, filled up with spaces.
unfoldable pub mkdir_as : (cwd_cluster : ℕ) → (n8 : ℕ → ℕ) → Volume → Status × Volume
mkdir_as cwd n8 v =
    let c = alloc v in
    let (_, v1) = fat12_flush_fat (set_cluster c 0xFFF v) in
    let v2 = clear_sectors v.fs.sectors_per_cluster (lba_of v.fs c) v1 in
    elim (fat12_find_dir_entry cwd (named n8 blank_ext) v) [
      | some old ↦ (failure, v)
      | none ↦ elim (fat12_find_dir_entry cwd free_slot v) [
        | none ↦ (failure, v)
        | some (sector, i) ↦
            if not (v.readable sector)
            then (failure, v)
            else if c == 0
            then (failure, v)
            else ata_write_sector sector (new_directory c i n8 (v.disk sector)) v2
      ]
    ]
