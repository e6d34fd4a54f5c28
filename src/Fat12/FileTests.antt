-- ===== src/Fat12/FileTests.antt =====
-- The theorems on the files and directories of src/drivers/fat12.c, on a small volume.
use iron_kernel.Prelude.{
  ℕ, ◌+◌, ◌*◌, ◌<◌, ◌≡◌, refl, arith, true, false, ◌&&◌, ◌%◌, List, [], ◌∷◌, ◌==◌, if◌then◌else◌,
  ltb, get_or, take, ap, ◌/◌, ◌-◌, ◌≤◌,
}
use iron_kernel.Fat12.{
  fat12_next_cluster, fat12_set_cluster, fat12_free_chain, fat12_alloc_cluster, free_from,
}
use iron_kernel.Fat12.Table.{AreBytes}
use iron_kernel.Fat12.Store.{
  Volume, Status, success, geometry, fat12_init, fat_buf_sectors, load_fat, ata_write_sector,
  fat12_flush_fat, flush_from, lba_of,
}
use iron_kernel.Fat12.Search.{
  fat12_find_dir_entry, search_sectors, scan, judge, same_entry, same_field,
}
use iron_kernel.Fat12.Files.{
  fat12_read_file, fat12_write_file, release_old, clusters_needed, write_clusters, write_sectors,
  link_cluster, write_entry, alloc, mkdir_as, clear_sectors,
}
use iron_kernel.Fat12.Paths.{Cwd, Dirs, go_up, go_down, cwd_stack_depth, fat12_mkdir, fat12_chdir}
use iron_kernel.Fat12.Listing.{
  fat12_readdir, list_sectors, list_entries, is_hidden, fill_dentry, unpadded,
}
use iron_kernel.Fat12.Sound.{IsSound}
use iron_kernel.Fat12.Entries.{IsName}
use iron_kernel.Fat12.RoundTrip.{fat12_read_file-fat12_write_file}
use iron_kernel.Fat12.UpDown.{root, go_up-go_down}
use iron_kernel.Fat12.Visible.{shown, directory, fat12_readdir-shown}
use iron_kernel.Fat12.Mount.{fat12_init-IsSound}
use iron_kernel.Fat12.MakeDir.{IsDirName}
use iron_kernel.Fat12.EnterDir.{fat12_chdir-fat12_mkdir}
use iron_kernel.Fat12.Written.{IsCluster, next}
use iron_kernel.Fat12.Freed.{mem, fat12_free_chain-Links}

-- 20 sectors: one reserved, two tables of one sector, a root directory of one, one sector a cluster
abbrev boot : ℕ → ℕ
boot i =
    if i == 13
    then 1
    else if i == 14
    then 1
    else if i == 16
    then 2
    else if i == 17
    then 16
    else if i == 19
    then 20
    else if i == 22
    then 1
    else 0

abbrev empty_volume : Volume
empty_volume = record {
  fs = record {
    mounted = true;
    first_fat_sector = 1;
    first_root_sector = 3;
    root_dir_sectors = 1;
    first_data_sector = 4;
    bytes_per_sector = 512;
    sectors_per_cluster = 1;
    root_entry_count = 16;
    total_sectors = 20;
    sectors_per_fat = 1;
  };
  fat_buf = λ i. 0;
  disk = λ lba i. if lba == 0 then boot i else 0;
  present = true;
  readable = λ lba. true;
  writable = λ lba. true;
}

empty_volume-IsSound : IsSound empty_volume
empty_volume-IsSound = record {
  is_mounted = refl;
  fits = record {
    some_sectors = omega arith;
    byte_sectors = omega arith;
    first_below = omega arith;
    few_clusters = omega arith;
  };
  bytes = λ i. omega arith;
  fats_below = omega arith;
  root_below = omega arith;
  reads = λ m. refl;
}

-- "NOTE    " and "TXT"
abbrev note : ℕ → ℕ
note i = get_or (b'N' ∷ b'O' ∷ b'T' ∷ b'E' ∷ []) i b' '

abbrev txt : ℕ → ℕ
txt i = get_or (b'T' ∷ b'X' ∷ []) i b'T'

note-IsName : IsName note txt
note-IsName = record {
  name_filled = λ c h. ground arith;
  ext_filled = λ c h. ground arith;
  not_deleted = omega arith;
}

abbrev text : List ℕ
text = b'h' ∷ b'e' ∷ b'l' ∷ b'l' ∷ b'o' ∷ []

abbrev note_volume : Volume
note_volume = (fat12_write_file 0 note txt text empty_volume).1

note_status : (fat12_write_file 0 note txt text empty_volume).0 ≡ success
unfolding fat12_write_file fat12_find_dir_entry search_sectors scan judge same_entry same_field
    release_old clusters_needed write_clusters write_sectors ata_write_sector fat12_alloc_cluster
    free_from fat12_next_cluster fat12_set_cluster link_cluster fat12_flush_fat flush_from
    write_entry lba_of
note_status = refl

note_written : fat12_write_file 0 note txt text empty_volume ≡ (success, note_volume)
note_written = ap (λ (s : Status). (s, note_volume)) note_status

fat12_read_file-fat12_write_file_example :
    fat12_read_file 0 note txt 4096 note_volume ≡ (success, text)
fat12_read_file-fat12_write_file_example =
    fat12_read_file-fat12_write_file note txt text 4096 empty_volume note_volume
      empty_volume-IsSound note-IsName (omega arith) (omega arith) (omega arith) note_written

-- "DOCS", below the root
abbrev docs : ℕ → ℕ
docs i = get_or (b'D' ∷ b'O' ∷ b'C' ∷ b'S' ∷ []) i b' '

abbrev top : Cwd
top = record { cwd = b'/' ∷ []; cluster = 0; parent_stack = λ i. 0; depth = 0 }

go_up-go_down_example :
    ((go_up (go_down docs 5 top)).cwd ≡ top.cwd)
    × ((go_up (go_down docs 5 top)).cluster
        ≡ (if ltb top.depth cwd_stack_depth then top.cluster else top.parent_stack 7))
    × ((go_up (go_down docs 5 top)).depth
        ≡ (if ltb top.depth cwd_stack_depth then top.depth else 7))
    × ((i : ℕ) → i < top.depth → (go_up (go_down docs 5 top)).parent_stack i ≡ top.parent_stack i)
go_up-go_down_example =
    go_up-go_down docs 5 top root (omega arith) (λ i h. ground arith) (omega arith)

-- Five entries that are passed over and a file AB.C of 259 bytes: a volume label, a hidden entry, a system
-- entry, a deleted one and `.`.
abbrev listed_sector : ℕ → ℕ
listed_sector i =
    get_or (b'V' ∷ b'H' ∷ b'S' ∷ 0xE5 ∷ b'.' ∷ b'A' ∷ []) (i / 32) 0
      * (if i % 32 == 0 then 1 else 0)
    + get_or (8 ∷ 2 ∷ 4 ∷ 0 ∷ 16 ∷ 33 ∷ []) (i / 32) 0 * (if i % 32 == 11 then 1 else 0)
    + (if i == 161
        then b'B'
        else if ltb 161 i && ltb i 171
        then (if i == 168 then b'C' else b' ')
        else if i == 188
        then 3
        else if i == 189
        then 1
        else 0)

abbrev listed_volume : Volume
listed_volume = record empty_volume { disk = λ lba. listed_sector }

listed :
    fat12_readdir 0 5 listed_volume
    ≡ record { name = b'A' ∷ b'B' ∷ []; ext = b'C' ∷ []; is_dir = false; size = 259 } ∷ []
unfolding fat12_readdir list_sectors list_entries is_hidden fill_dentry unpadded
listed = refl

fat12_readdir-shown_example :
    fat12_readdir 0 5 listed_volume ≡ take 5 (shown (directory 1 3 listed_volume))
fat12_readdir-shown_example = fat12_readdir-shown 5 listed_volume refl

abbrev mounted_volume : Volume
mounted_volume = (fat12_init empty_volume).1

init_status : (fat12_init empty_volume).0 ≡ success
unfolding fat12_init load_fat geometry
init_status = refl

init_done : fat12_init empty_volume ≡ (success, mounted_volume)
init_done = ap (λ (s : Status). (s, mounted_volume)) init_status

boot-lt : (m i : ℕ) → empty_volume.disk m i < 256
boot-lt m i = ground arith

few_clusters :
    ((geometry (empty_volume.disk 0)).total_sectors
          - (geometry (empty_volume.disk 0)).first_data_sector)
        / empty_volume.disk 0 13
      + 2
    ≤ 4088
unfolding geometry
few_clusters = omega arith

fat12_init-IsSound_example :
    IsSound mounted_volume
    × ((k o : ℕ)
        → k < mounted_volume.fs.sectors_per_fat
        → k < fat_buf_sectors
        → o < 512
        → mounted_volume.fat_buf (k * 512 + o)
          ≡ mounted_volume.disk (mounted_volume.fs.first_fat_sector + k) o)
fat12_init-IsSound_example =
    fat12_init-IsSound empty_volume mounted_volume (λ i. omega arith) boot-lt (λ m. refl) refl
      (omega arith) few_clusters init_done

-- cluster 2 leads to 3, and 3 ends its chain
abbrev two_clusters : ℕ → ℕ
two_clusters i = if i == 3 then 3 else if i == 4 then 0xF0 else if i == 5 then 0xFF else 0

two_clusters-AreBytes : AreBytes two_clusters
two_clusters-AreBytes i = ground arith

fat12_free_chain-Links_example :
    fat12_next_cluster (fat12_free_chain 2 two_clusters) 3
    ≡ (if mem 3 (2 ∷ 3 ∷ []) then 0 else fat12_next_cluster two_clusters 3)
unfolding fat12_next_cluster
fat12_free_chain-Links_example =
    fat12_free_chain-Links 2 (2 ∷ 3 ∷ []) two_clusters two_clusters-AreBytes (omega arith)
      ((omega arith, tt), (tt, tt))
      (refl, (omega arith, omega arith), (refl, (omega arith, omega arith), refl)) 3
      (omega arith, omega arith)

abbrev dirs : Dirs
dirs = record { here = top; prev = top }

abbrev docs_name : List ℕ
docs_name = b'd' ∷ b'o' ∷ b'c' ∷ b's' ∷ []

docs_name-IsDirName : IsDirName docs_name
docs_name-IsDirName = record {
  characters = omega arith;
  short = omega arith;
  filled = refl;
  no_dash = refl;
  no_dot = omega arith;
  no_deleted = omega arith;
}

abbrev docs_volume : Volume
docs_volume = (fat12_mkdir 0 docs_name empty_volume).1

docs_status : (fat12_mkdir 0 docs_name empty_volume).0 ≡ success
unfolding fat12_mkdir mkdir_as fat12_find_dir_entry search_sectors scan judge ata_write_sector
    fat12_alloc_cluster free_from fat12_next_cluster fat12_flush_fat flush_from clear_sectors lba_of
docs_status = refl

fat12_chdir-fat12_mkdir_example :
    ((fat12_chdir docs_name docs_volume dirs).0 ≡ success)
    × ((fat12_chdir docs_name docs_volume dirs).1.here.cluster ≡ alloc empty_volume)
    × IsCluster (alloc empty_volume)
    × (next empty_volume (alloc empty_volume) ≡ 0)
fat12_chdir-fat12_mkdir_example =
    fat12_chdir-fat12_mkdir docs_name empty_volume docs_volume dirs empty_volume-IsSound
      docs_name-IsDirName refl (ap (λ (s : Status). (s, docs_volume)) docs_status)
