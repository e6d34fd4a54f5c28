-- ===== src/Fat12/MakeDir.antt =====
-- Making a directory and going there: `fat12_mkdir` and `fat12_chdir` of src/drivers/fat12.c.
use iron_kernel.Prelude.{
  ℕ, zero, suc, ◌+◌, ◌*◌, ◌/◌, ◌%◌, ◌≤◌, ◌<◌, ◌≡◌, refl, sym, ap, ap₂, ◌∙◌, ◌≢◌, inl, inr, arith,
  true, false, not, ◌&&◌, ◌||◌, Option, none, some, List, [], ◌∷◌, ◌==◌, ==_iff, ==_ne, if_true,
  if_false, if◌then◌else◌, Bool-cases, get_or, length, subst, fun_ext, All, update_same,
}
use iron_kernel.Fat12.Table.{AreBytes}
use iron_kernel.Fat12.Store.{
  Volume, Status, success, failure, fat12_flush_fat, ata_write_sector, lba_of,
}
use iron_kernel.Fat12.Search.{Wanted, free_slot, named, fat12_find_dir_entry, entry_name, to_upper}
use iron_kernel.Fat12.Files.{
  alloc, set_cluster, clear_sectors, new_directory, set_attr, set_name, blank_ext, attr_directory,
  mkdir_as, is_directory, entry_cluster,
}
use iron_kernel.Fat12.Paths.{Cwd, pad8, ends_dir, ends_component, ends_at, go_down, fat12_chdir_one}
use iron_kernel.Fat12.Sectors.{
  OnlyDisk, OnlyDisk-trans, ata_write_sector-OnlyDisk, ata_write_sector-others,
  ata_write_sector-disk,
}
use iron_kernel.Fat12.Written.{IsCluster, next, alloc-free, fat12_set_cluster-AreBytes, lba_of-eq}
use iron_kernel.Fat12.Entries.{IsName, set_contents-others}
use iron_kernel.Fat12.Composed.{fat12_flush_fat-Flushed}
use iron_kernel.Fat12.Sound.{IsSound, IsSound-kept, Entered}
use iron_kernel.Fat12.Entered.{enter_at, find-same, found_in_root}

-- Clearing the sectors of the new directory touches nothing below them.
record Cleared (lba : ℕ) (v w : Volume) : Type 0 where
  only : OnlyDisk v w
  below : (m : ℕ) → m < lba → w.disk m ≡ v.disk m

clear_sectors-Cleared : (n lba : ℕ) (v : Volume) → Cleared lba v (clear_sectors n lba v)
unfolding clear_sectors
clear_sectors-Cleared zero lba v = record {
  only = record { same_fs = refl; same_fat = refl; same_readable = refl };
  below = λ m h. refl;
}
clear_sectors-Cleared (suc n) lba v =
    let u = (ata_write_sector lba (λ b. 0) v).1 in
    let ih = clear_sectors-Cleared n (lba + 1) u in
    record {
      only = OnlyDisk-trans (ata_write_sector-OnlyDisk lba (λ b. 0) v) ih.only;
      below =
          λ m h. ih.below m (omega arith) ∙ ata_write_sector-others lba (λ b. 0) v m (omega arith);
    }

-- A name that mkdir can give and cd can follow as one component: at most 8 characters but no `/`, no space
-- and no `.` in front, and not the name `-`.
pub record IsDirName (name : List ℕ) : Type 0 where
  pub characters : All (λ c. (c ≢ 0) × (c ≢ b'/')) name
  pub short : length name ≤ 8
  pub filled : ends_at name 0 ≡ false
  pub no_dash : (get_or name 0 0 == b'-' && ends_at name 1) ≡ false
  pub no_dot : get_or name 0 0 ≢ b'.'
  pub no_deleted : get_or name 0 0 ≢ 0xE5

pad8-ends :
    (name : List ℕ) (i : ℕ)
    → All (λ c. (c ≢ 0) × (c ≢ b'/')) name
    → pad8 ends_component name i ≡ pad8 ends_dir name i
unfolding pad8
pad8-ends [] i h = refl
pad8-ends (c ∷ name) zero h =
    ap (λ t. if c == b' ' || t then b' ' else to_upper c) (==_ne c b'/' h.0.1) ∙ ground arith
pad8-ends (c ∷ name) (suc i) h =
    ap₂ (λ t r. if c == b' ' || t then b' ' else r) (==_ne c b'/' h.0.1) (pad8-ends name i h.1)
    ∙ ground arith

to_upper_nonzero : (c : ℕ) → c ≢ 0 → to_upper c ≢ 0
unfolding to_upper
to_upper_nonzero c h e = ground arith

to_upper_deleted : (c : ℕ) → c ≢ 0xE5 → to_upper c ≢ 0xE5
unfolding to_upper
to_upper_deleted c h e = ground arith

pad8_nonzero :
    (name : List ℕ) (i : ℕ) → All (λ c. (c ≢ 0) × (c ≢ b'/')) name → pad8 ends_dir name i ≢ 0
unfolding pad8
pad8_nonzero [] i h e = absurd (omega arith)
pad8_nonzero (c ∷ name) zero h e = ground (arith, to_upper_nonzero c h.0.0)
pad8_nonzero (c ∷ name) (suc i) h e = ground (arith, pad8_nonzero name i h.1)

pad8_first : (name : List ℕ) → get_or name 0 0 ≢ 0xE5 → pad8 ends_dir name 0 ≢ 0xE5
unfolding pad8
pad8_first [] h e = absurd (omega arith)
pad8_first (c ∷ name) h e = ground (arith, to_upper_deleted c h)

IsDirName-IsName : (name : List ℕ) → IsDirName name → IsName (pad8 ends_dir name) blank_ext
IsDirName-IsName name d = record {
  name_filled = λ c h. pad8_nonzero name c d.characters;
  ext_filled = λ c h e. absurd (omega arith);
  not_deleted = pad8_first name d.no_deleted;
}

abbrev pub prepared : Volume → Volume
prepared v =
    clear_sectors v.fs.sectors_per_cluster (lba_of v.fs (alloc v))
      (fat12_flush_fat (set_cluster (alloc v) 0xFFF v)).1

-- What is done before the entry is written leaves the root directory as it was.
pub record Prepared (v w : Volume) : Type 0 where
  pub same_fs : w.fs ≡ v.fs
  pub same_readable : w.readable ≡ v.readable
  pub bytes : AreBytes w.fat_buf
  pub root : (m : ℕ) → v.fs.first_root_sector ≤ m → m < v.fs.first_data_sector → w.disk m ≡ v.disk m

pub prepared-Prepared : (v : Volume) → IsSound v → IsCluster (alloc v) → Prepared v (prepared v)
prepared-Prepared v sound i =
    let c = alloc v in
    let f = fat12_flush_fat-Flushed (set_cluster c 0xFFF v) in
    let v1 = (fat12_flush_fat (set_cluster c 0xFFF v)).1 in
    let k = clear_sectors-Cleared v.fs.sectors_per_cluster (lba_of v.fs c) v1 in
    let low = sound.fats_below in
    let at = lba_of-eq v.fs c sound.fits i in
    record {
      same_fs = k.only.same_fs ∙ f.only.same_fs;
      same_readable = k.only.same_readable ∙ f.only.same_readable;
      bytes =
          subst AreBytes (sym (k.only.same_fat ∙ f.only.same_fat))
            (fat12_set_cluster-AreBytes c 0xFFF v.fat_buf sound.bytes);
      root = λ m from to. k.below m (omega arith) ∙ f.above m (omega arith);
    }

both_searches :
    (a b : Option (ℕ × ℕ)) (x w : Volume) (next : ℕ → ℕ → Status × Volume)
    → elim a as (λ _. Status × Volume) [
      | some old ↦ (failure, x)
      | none ↦ elim b as (λ _. Status × Volume) [ none ↦ (failure, x) | some (s, i) ↦ next s i ]
    ]
      ≡ (success, w)
    → (a ≡ none) × (s : ℕ) × (i : ℕ) × (b ≡ some (s, i)) × (next s i ≡ (success, w))
both_searches (some old) b x w next h = cc h
both_searches none none x w next h = cc h
both_searches none (some (s, i)) x w next h = (refl, s, i, refl, h)

-- What a mkdir in the root directory that succeeds has done.
pub record MadeDir (n8 : ℕ → ℕ) (v w : Volume) : Type 0 where
  pub missing : fat12_find_dir_entry 0 (named n8 blank_ext) v ≡ none
  pub sector : ℕ
  pub idx : ℕ
  pub free : fat12_find_dir_entry 0 free_slot v ≡ some (sector, idx)
  pub some_left : alloc v ≢ 0
  pub wrote :
      ata_write_sector sector (new_directory (alloc v) idx n8 (v.disk sector)) (prepared v)
      ≡ (success, w)

pub mkdir_as-MadeDir :
    (n8 : ℕ → ℕ) (v w : Volume) → IsSound v → mkdir_as 0 n8 v ≡ (success, w) → MadeDir n8 v w
unfolding mkdir_as
mkdir_as-MadeDir n8 v w sound h =
    let step = λ (s i : ℕ).
      if not (v.readable s)
      then (failure, v)
      else if alloc v == 0
      then (failure, v)
      else ata_write_sector s (new_directory (alloc v) i n8 (v.disk s)) (prepared v) in
    let (missing, s, i, free, on) =
      both_searches (fat12_find_dir_entry 0 (named n8 blank_ext) v)
        (fat12_find_dir_entry 0 free_slot v) v w step h in
    let past = sym (if_false (not (v.readable s)) _ _ (ap not (sound.reads s))) ∙ on in
    elim (Bool-cases (alloc v == 0)) [
      | inl e ↦ cc (sym (if_true (alloc v == 0) (failure, v) _ e) ∙ past)
      | inr e ↦ record {
        missing = missing;
        sector = s;
        idx = i;
        free = free;
        some_left = λ z. cc (e, (==_iff (alloc v) 0).1 z);
        wrote = sym (if_false (alloc v == 0) _ _ e) ∙ past;
      }
    ]

directory_bit : (c i : ℕ) (n8 b : ℕ → ℕ) → is_directory (new_directory c i n8 b) i ≡ true
unfolding new_directory set_attr
directory_bit c i n8 b =
    let inner = set_attr i attr_directory (set_name i n8 blank_ext b) in
    let e : inner (i * 32 + 11) ≡ attr_directory =
      if_true _ _ _ ((==_iff (i * 32 + 11) _).1 refl) in
    ap (λ x. x / 16 % 2 == 1)
      (set_contents-others i c 0 inner (i * 32 + 11) (inl (omega arith)) ∙ e)

-- The entry of the new directory in the root directory.
made-Entered :
    (n8 : ℕ → ℕ) (v w : Volume)
    → IsSound v
    → IsName n8 blank_ext
    → (m : MadeDir n8 v w) → Entered n8 blank_ext (alloc v) 0 m.sector m.idx (prepared v) w
unfolding new_directory
made-Entered n8 v w sound good m =
    let (i, _) = alloc-free v sound.fits m.some_left in
    let p = prepared-Prepared v sound i in
    let v2 = prepared v in
    let low = sound.root_below in
    let (from, to) = found_in_root free_slot v sound m.sector m.idx m.free in
    let sound2 = IsSound-kept v v2 p.same_fs p.same_readable p.bytes sound in
    let same = λ (want : Wanted).
      find-same want v2 v p.same_fs (λ m below above. p.root m above (omega arith))
        p.same_readable in
    enter_at n8 blank_ext v2 w sound2 good (alloc v) 0 (omega arith, omega arith) attr_directory
      m.sector m.idx (same (named n8 blank_ext) ∙ m.missing) (same free_slot ∙ m.free)
      (ap (λ b. ata_write_sector m.sector (new_directory (alloc v) m.idx n8 b) v2)
          (p.root m.sector from (omega arith))
        ∙ m.wrote)

module _ (name : List ℕ) (v w : Volume) (d : Cwd) (sound : IsSound v) (good : IsDirName name)
    (at_top : d.cluster ≡ 0) (m : MadeDir (pad8 ends_dir name) v w) where
  pub entry : Entered (pad8 ends_dir name) blank_ext (alloc v) 0 m.sector m.idx (prepared v) w
  entry = made-Entered (pad8 ends_dir name) v w sound (IsDirName-IsName name good) m

  found_named :
      fat12_find_dir_entry d.cluster (named (pad8 ends_component name) blank_ext) w
      ≡ some (m.sector, m.idx)
  found_named =
      ap₂ (λ c n. fat12_find_dir_entry c (named n blank_ext) w) at_top
        (fun_ext λ i. pad8-ends name i good.characters)
      ∙ entry.found_at

  is_made_directory : is_directory (w.disk m.sector) m.idx ≡ true
  is_made_directory =
      let content = new_directory (alloc v) m.idx (pad8 ends_dir name) (v.disk m.sector) in
      let put = ap (λ (r : Status × Volume). r.0) m.wrote in
      let result = ap (λ (r : Status × Volume). r.1.disk m.sector) m.wrote in
      let there : w.disk m.sector ≡ content =
        sym result
        ∙ (ap (λ (t : ℕ → ℕ → ℕ). t m.sector)
              (ata_write_sector-disk m.sector content (prepared v) put)
            ∙ update_same (prepared v).disk m.sector content) in
      ap (λ b. is_directory b m.idx) there
      ∙ directory_bit (alloc v) m.idx (pad8 ends_dir name) (v.disk m.sector)

  pub goes_down :
      (w.readable m.sector ≡ true)
      → fat12_chdir_one name w d ≡ (
        success,
        go_down (entry_name (w.disk m.sector) m.idx) (entry_cluster (w.disk m.sector) m.idx) d,
      )
  unfolding fat12_chdir_one
  goes_down readable =
      let dot = ==_ne (get_or name 0 0) b'.' good.no_dot in
      let rest = λ (o : Option (ℕ × ℕ)).
        let r : Status × Cwd = elim o [
          | none ↦ (failure, d)
          | some (sector, i) ↦
              let b = w.disk sector in
              if not (w.readable sector)
              then (failure, d)
              else if not (is_directory b i)
              then (failure, d)
              else (success, go_down (entry_name b i) (entry_cluster b i) d)
        ] in
        r in
      if_false (get_or name 0 0 == b'.' && ends_at name 1) _ _ (ap (λ t. t && ends_at name 1) dot)
      ∙ (if_false (get_or name 0 0 == b'.' && (get_or name 1 0 == b'.' && ends_at name 2)) _ _
            (ap (λ t. t && (get_or name 1 0 == b'.' && ends_at name 2)) dot)
          ∙ (ap rest found_named
              ∙ (if_false (not (w.readable m.sector)) _ _ (ap not readable)
                  ∙ if_false (not (is_directory (w.disk m.sector) m.idx)) _ _
                      (ap not is_made_directory))))
