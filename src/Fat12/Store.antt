-- ===== src/Fat12/Store.antt =====
-- The volume of src/drivers/fat12.c: its geometry, the table in memory and the drive, and `fat12_init`.
-- The drive (src/drivers/ata.c) is its sectors and two flags for each: whether a command that reads it
-- succeeds, and one that writes it.
use iron_kernel.Prelude.{
  ℕ, zero, suc, ◌+◌, ◌-◌, ◌*◌, ◌/◌, Bool, true, false, ◌&&◌, not, List, ltb, leb, ◌==◌,
  if◌then◌else◌, update, u32, min, get_or, take,
}

pub record Geometry : Type 0 where
  pub mounted : Bool
  pub first_fat_sector : ℕ
  pub first_root_sector : ℕ
  pub root_dir_sectors : ℕ
  pub first_data_sector : ℕ
  pub bytes_per_sector : ℕ
  pub sectors_per_cluster : ℕ
  pub root_entry_count : ℕ
  pub total_sectors : ℕ
  pub sectors_per_fat : ℕ

pub record Volume : Type 0 where
  pub fs : Geometry
  pub fat_buf : ℕ → ℕ
  pub disk : ℕ → ℕ → ℕ
  pub present : Bool
  pub readable : ℕ → Bool
  pub writable : ℕ → Bool

-- 0 and -1
pub data Status : Type 0 where
  success : Status
  failure : Status

unfoldable pub ata_write_sector : (lba : ℕ) → (buf : ℕ → ℕ) → Volume → Status × Volume
ata_write_sector lba buf v =
    if v.writable lba then (success, record v { disk = update v.disk lba buf }) else (failure, v)

-- Little-endian fields of a sector.
abbrev pub le16 : (ℕ → ℕ) → ℕ → ℕ
le16 b i = b i + b (i + 1) * 256

abbrev pub le32 : (ℕ → ℕ) → ℕ → ℕ
le32 b i = le16 b i + le16 b (i + 2) * 65536

-- `FAT_BUF_SECTORS`
abbrev pub fat_buf_sectors : ℕ
fat_buf_sectors = 64

-- The loop that loads the table, `n` sectors from the `i`th on.
unfoldable pub load_fat : (n i : ℕ) → Volume → Status × Volume
load_fat zero i v = (success, v)
load_fat (suc n) i v =
    let lba = v.fs.first_fat_sector + i in
    let read = λ (j : ℕ).
      if leb (i * 512) j && ltb j (i * 512 + 512) then v.disk lba (j - i * 512) else v.fat_buf j in
    let rest = load_fat n (i + 1) (record v { fat_buf = read }) in
    if v.readable lba then rest else (failure, v)

-- The geometry from the boot sector, whose parameter block starts at byte 11.
unfoldable pub geometry : (boot : ℕ → ℕ) → Geometry
geometry boot =
    let reserved = le16 boot 14 in
    let per_fat = le16 boot 22 in
    let entries = le16 boot 17 in
    let root = reserved + boot 16 * per_fat in
    let root_sectors = (entries * 32 + 511) / 512 in
    record {
      mounted = false;
      first_fat_sector = reserved;
      first_root_sector = root;
      root_dir_sectors = root_sectors;
      first_data_sector = root + root_sectors;
      bytes_per_sector = le16 boot 11;
      sectors_per_cluster = boot 13;
      root_entry_count = entries;
      total_sectors = if le16 boot 19 == 0 then le32 boot 32 else le16 boot 19;
      sectors_per_fat = per_fat;
    }

abbrev pub with_mounted : Bool → Volume → Volume
with_mounted b v = record v { fs = record v.fs { mounted = b } }

unfoldable pub fat12_init : Volume → Status × Volume
fat12_init v0 =
    let v = with_mounted false v0 in
    let g = geometry (v.disk 0) in
    let (st, w) = load_fat (min g.sectors_per_fat fat_buf_sectors) 0 (record v { fs = g }) in
    if not v.present
    then (failure, v)
    else if not (v.readable 0)
    then (failure, v)
    else elim st [ failure ↦ (failure, w) | success ↦ (success, with_mounted true w) ]

-- The first sector of a cluster: `uint32_t` arithmetic.
unfoldable pub lba_of : Geometry → (cluster : ℕ) → ℕ
lba_of g cluster = u32 (g.first_data_sector + (cluster - 2) * g.sectors_per_cluster)

-- A sector with the first 512 of some bytes, filled up with zeroes.
abbrev pub sector_of : List ℕ → ℕ → ℕ
sector_of bytes b = get_or (take 512 bytes) b 0

-- The loop that writes the table to both of its copies, `n` sectors from the `i`th on.
unfoldable pub flush_from : (n i : ℕ) → Volume → Status × Volume
flush_from zero i v = (success, v)
flush_from (suc n) i v =
    let sector = λ (b : ℕ). v.fat_buf (i * 512 + b) in
    let (a, v1) = ata_write_sector (v.fs.first_fat_sector + i) sector v in
    let (b, v2) = ata_write_sector (v.fs.first_fat_sector + v.fs.sectors_per_fat + i) sector v1 in
    let rest = flush_from n (i + 1) v2 in
    elim a [
      | failure ↦ (failure, v1)
      | success ↦ elim b [ failure ↦ (failure, v2) | success ↦ rest ]
    ]

unfoldable pub fat12_flush_fat : Volume → Status × Volume
fat12_flush_fat v = flush_from v.fs.sectors_per_fat 0 v
