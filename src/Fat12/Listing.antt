-- ===== src/Fat12/Listing.antt =====
-- `fat12_readdir` of src/drivers/fat12.c: the entries of a directory that a user sees.
use iron_kernel.Prelude.{
  ℕ, zero, suc, ◌+◌, ◌-◌, ◌/◌, ◌%◌, Bool, true, false, ◌||◌, not, List, [], ◌∷◌, ◌++◌, length, ◌==◌,
  if◌then◌else◌,
}
use iron_kernel.Fat12.{fat12_next_cluster}
use iron_kernel.Fat12.Store.{Volume, lba_of}
use iron_kernel.Fat12.Search.{entry_name, entry_ext, is_data_cluster}
use iron_kernel.Fat12.Files.{entry_attr, is_directory, entry_size}

-- `fat12_dentry_t`
pub record Dentry : Type 0 where
  pub name : List ℕ
  pub ext : List ℕ
  pub is_dir : Bool
  pub size : ℕ

-- The characters of a field before its first space, `n` of them from the `c`th on.
unfoldable pub unpadded : (n c : ℕ) → (ℕ → ℕ) → List ℕ
unpadded zero c field = []
unpadded (suc n) c field =
    let rest = unpadded n (c + 1) field in if field c == b' ' then [] else field c ∷ rest

-- `FILL_DENTRY`
unfoldable pub fill_dentry : (b : ℕ → ℕ) → (i : ℕ) → Dentry
fill_dentry b i = record {
  name = unpadded 8 0 (entry_name b i);
  ext = unpadded 3 0 (entry_ext b i);
  is_dir = is_directory b i;
  size = entry_size b i;
}

-- Deleted entries, `.` and `..`, volume labels, hidden and system files are passed over.
unfoldable pub is_hidden : (b : ℕ → ℕ) → (i : ℕ) → Bool
is_hidden b i =
    entry_name b i 0 == 0xE5
    || (entry_name b i 0 == b'.'
        || (entry_attr b i / 8 % 2 == 1
            || (entry_attr b i / 2 % 2 == 1 || entry_attr b i / 4 % 2 == 1)))

-- What a loop has stored, and whether the listing has ended.
pub record Listed : Type 0 where
  pub entries : List Dentry
  pub done : Bool

abbrev nothing : Bool → Listed
nothing done = record { entries = []; done = done }

abbrev before : Dentry → Listed → Listed
before d l = record l { entries = d ∷ l.entries }

-- The loop over the entries of a sector, `n` from the `i`th on, with `room` places left in `buf`.
unfoldable pub list_entries : (n i room : ℕ) → (ℕ → ℕ) → Listed
list_entries zero i room b = nothing false
list_entries (suc n) i room b =
    let rest = list_entries n (i + 1) room b in
    let shorter = list_entries n (i + 1) (room - 1) b in
    if room == 0
    then nothing false
    else if entry_name b i 0 == 0
    then nothing true
    else if is_hidden b i
    then rest
    else before (fill_dentry b i) shorter

-- The loop over the sectors, `n` from `lba` on. A read that fails ends the listing.
unfoldable pub list_sectors : (n lba room : ℕ) → Volume → Listed
list_sectors zero lba room v = nothing false
list_sectors (suc n) lba room v =
    let l = list_entries 16 0 room (v.disk lba) in
    let rest = list_sectors n (lba + 1) (room - length l.entries) v in
    if room == 0
    then nothing false
    else if not (v.readable lba)
    then nothing true
    else if l.done
    then l
    else record rest { entries = l.entries ++ rest.entries }

-- The loop over the clusters of a subdirectory.
unfoldable pub list_chain : (limit cluster room : ℕ) → Volume → Listed
list_chain zero cluster room v = nothing true
list_chain (suc limit) cluster room v =
    let l = list_sectors v.fs.sectors_per_cluster (lba_of v.fs cluster) room v in
    let rest =
      list_chain limit (fat12_next_cluster v.fat_buf cluster) (room - length l.entries) v in
    if not (is_data_cluster cluster)
    then nothing true
    else if room == 0
    then nothing true
    else if l.done
    then l
    else record rest { entries = l.entries ++ rest.entries }

unfoldable pub fat12_readdir : (cluster max_entries : ℕ) → Volume → List Dentry
fat12_readdir cluster max_entries v =
    if not v.fs.mounted || max_entries == 0
    then []
    else if cluster == 0
    then (list_sectors v.fs.root_dir_sectors v.fs.first_root_sector max_entries v).entries
    else (list_chain 4096 cluster max_entries v).entries
