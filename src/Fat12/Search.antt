-- ===== src/Fat12/Search.antt =====
-- The search of a directory in src/drivers/fat12.c. An entry takes 32 bytes of its sector: the name at
-- 0, the extension at 8, the attributes at 11, the first cluster at 26 and the size at 28.
use iron_kernel.Prelude.{
  ℕ, zero, suc, ◌+◌, ◌-◌, ◌*◌, Bool, true, false, ◌&&◌, ◌||◌, Option, none, some, ltb, leb, ◌==◌,
  if◌then◌else◌,
}
use iron_kernel.Fat12.{fat12_eoc, fat12_next_cluster}
use iron_kernel.Fat12.Store.{Volume, lba_of}

unfoldable pub to_upper : ℕ → ℕ
to_upper c = if leb b'a' c && leb c b'z' then c - 32 else c

-- What a search is for: a slot that is free, or the entry of a name and an extension.
pub data Wanted : Type 0 where
  free_slot : Wanted
  named : (name ext : ℕ → ℕ) → Wanted

-- The loop over the characters of one field, `n` of them from `c` on.
unfoldable pub same_field : (n c : ℕ) → (field name : ℕ → ℕ) → Bool
unfolding to_upper
same_field zero c field name = true
same_field (suc n) c field name =
    let rest = same_field n (c + 1) field name in
    if field c == to_upper (name c) then rest else false

abbrev pub entry_name : (ℕ → ℕ) → ℕ → ℕ → ℕ
entry_name b i c = b (i * 32 + c)

abbrev pub entry_ext : (ℕ → ℕ) → ℕ → ℕ → ℕ
entry_ext b i c = b (i * 32 + 8 + c)

unfoldable pub same_entry : (b : ℕ → ℕ) → (i : ℕ) → (name ext : ℕ → ℕ) → Bool
unfolding same_field
same_entry b i name ext = same_field 8 0 (entry_name b i) name && same_field 3 0 (entry_ext b i) ext

-- What an entry says to a search: it is the one, the search ends without one, or it goes on.
pub data Verdict : Type 0 where
  hit : Verdict
  stop : Verdict
  pass : Verdict

unfoldable pub judge : Wanted → (b : ℕ → ℕ) → (i : ℕ) → Verdict
judge free_slot b i = if entry_name b i 0 == 0 || entry_name b i 0 == 0xE5 then hit else pass
judge (named name ext) b i =
    if entry_name b i 0 == 0
    then stop
    else if entry_name b i 0 == 0xE5
    then pass
    else if same_entry b i name ext
    then hit
    else pass

pub data Scan : Type 0 where
  found : ℕ → Scan
  ended : Scan
  more : Scan

-- The loop over the entries of a sector, `n` of them from the `i`th on.
unfoldable pub scan : (n i : ℕ) → Wanted → (ℕ → ℕ) → Scan
scan zero i w b = more
scan (suc n) i w b =
    let rest = scan n (i + 1) w b in
    elim (judge w b i) [ hit ↦ found i | stop ↦ ended | pass ↦ rest ]

pub data Place : Type 0 where
  at : (sector idx : ℕ) → Place
  nowhere : Place
  not_yet : Place

-- The loop over `n` sectors from `lba` on.
unfoldable pub search_sectors : (n lba : ℕ) → Wanted → Volume → Place
search_sectors zero lba w v = not_yet
search_sectors (suc n) lba w v =
    let rest = search_sectors n (lba + 1) w v in
    if v.readable lba
    then elim (scan 16 0 w (v.disk lba)) [ found i ↦ at lba i | ended ↦ nowhere | more ↦ rest ]
    else nowhere

abbrev pub is_data_cluster : ℕ → Bool
is_data_cluster cluster = leb 2 cluster && ltb cluster fat12_eoc

-- The loop over the clusters of a subdirectory, `limit` at most.
unfoldable pub search_chain : (limit cluster : ℕ) → Wanted → Volume → Place
search_chain zero cluster w v = nowhere
search_chain (suc limit) cluster w v =
    let rest = search_chain limit (fat12_next_cluster v.fat_buf cluster) w v in
    if is_data_cluster cluster
    then elim (search_sectors v.fs.sectors_per_cluster (lba_of v.fs cluster) w v) [
      | at sector idx ↦ at sector idx
      | nowhere ↦ nowhere
      | not_yet ↦ rest
    ]
    else nowhere

abbrev pub slot : Place → Option (ℕ × ℕ)
slot (at sector idx) = some (sector, idx)
slot nowhere = none
slot not_yet = none

unfoldable pub fat12_find_dir_entry : (cluster : ℕ) → Wanted → Volume → Option (ℕ × ℕ)
fat12_find_dir_entry cluster w v =
    if cluster == 0
    then slot (search_sectors v.fs.root_dir_sectors v.fs.first_root_sector w v)
    else slot (search_chain 4096 cluster w v)
