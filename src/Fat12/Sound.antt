-- ===== src/Fat12/Sound.antt =====
-- A sound volume of src/drivers/fat12.c, and an entry that is written into its root directory.
use iron_kernel.Prelude.{
  subst, sym, ℕ, ◌+◌, ◌-◌, ◌*◌, ◌/◌, ◌^◌, ◌≤◌, ◌<◌, ◌≡◌, ap, ◌∙◌, ◌≢◌, inl, inr, arith, Bool, true,
  some, ◌==◌, ==_iff, if_true, if_false, leb, leb→le, Bool-cases, update, update_same, update_ne,
}
use native.Mathlib.Nat.{lt-div-mul-add, div-mul-le_self}
use iron_kernel.Fat12.Table.{AreBytes}
use iron_kernel.Fat12.Store.{Geometry, Volume, success, ata_write_sector}
use iron_kernel.Fat12.Search.{
  named, judge, hit, found, scan, slot, search_sectors, fat12_find_dir_entry,
}
use iron_kernel.Fat12.Files.{clusters_needed, set_contents, entry_cluster, entry_size}
use iron_kernel.Fat12.Sectors.{OnlyDisk, ata_write_sector-OnlyDisk, ata_write_sector-disk}
use iron_kernel.Fat12.Written.{Fits}
use iron_kernel.Fat12.Slots.{PassUpTo, MoreUpTo, found-scan, at-search}
use iron_kernel.Fat12.Entries.{judge-ext, set_contents-others, set_contents-reads}

-- A mounted volume whose areas follow one another, on a drive that reads.
pub record IsSound (v : Volume) : Type 0 where
  pub is_mounted : v.fs.mounted ≡ true
  pub fits : Fits v.fs
  pub bytes : AreBytes v.fat_buf
  pub fats_below : v.fs.first_fat_sector + 2 * v.fs.sectors_per_fat ≤ v.fs.first_root_sector
  pub root_below : v.fs.first_root_sector + v.fs.root_dir_sectors ≤ v.fs.first_data_sector
  pub reads : (m : ℕ) → v.readable m ≡ true

-- A volume with the same geometry on the same drive is sound too.
pub IsSound-kept :
    (v w : Volume)
    → w.fs ≡ v.fs
    → w.readable ≡ v.readable
    → AreBytes w.fat_buf
    → IsSound v
    → IsSound w
IsSound-kept v w fs readable bytes sound = record {
  is_mounted = ap (λ (g : Geometry). g.mounted) fs ∙ sound.is_mounted;
  fits = subst Fits (sym fs) sound.fits;
  bytes = bytes;
  fats_below =
      subst (λ (g : Geometry). g.first_fat_sector + 2 * g.sectors_per_fat ≤ g.first_root_sector)
        (sym fs) sound.fats_below;
  root_below =
      subst (λ (g : Geometry). g.first_root_sector + g.root_dir_sectors ≤ g.first_data_sector)
        (sym fs) sound.root_below;
  reads = λ m. ap (λ (t : ℕ → Bool). t m) readable ∙ sound.reads m;
}

-- As many clusters as the bytes take: at least one, and at most 4096 for 2 MB.
pub needed_lem :
    (per len : ℕ)
    → 512 ≤ per
    → len ≤ 2 ^ 21
    → (clusters_needed per len ≢ 0)
      × (len ≤ clusters_needed per len * per)
      × (clusters_needed per len ≤ 4096)
unfolding clusters_needed
needed_lem per len h l =
    let n = (len + per - 1) / per in
    let above : len + per - 1 < n * per + per = lt-div-mul-add {a = len + per - 1} (omega arith) in
    let below = div-mul-le_self (len + per - 1) per in
    elim (Bool-cases (n == 0)) [
      | inl z ↦
          let zero' : n ≡ 0 = (==_iff n 0).0 z in
          let none_taken : n * per ≡ 0 * per = ap (λ t. t * per) zero' in
          rw (if_true (n == 0) 1 n z) (omega arith)
      | inr z ↦
          rw (if_false (n == 0) 1 n z)
            (λ e. cc (z, (==_iff n 0).1 e), omega arith, few n per len below h l)
    ]
  where
    mul_mono : (a b p : ℕ) → a ≤ b → a * p ≤ b * p
    mul_mono a b p h = grind arith

    too_many : (n per len : ℕ) → 4097 ≤ n → n * per ≤ len + per - 1 → 512 ≤ per → len ≤ 2 ^ 21 → ⊥
    too_many n per len g b h l = let k : 4097 * per ≤ n * per = mul_mono 4097 n per g in omega arith

    few : (n per len : ℕ) → n * per ≤ len + per - 1 → 512 ≤ per → len ≤ 2 ^ 21 → n ≤ 4096
    few n per len b h l = elim (Bool-cases (leb n 4096)) [
      | inl e ↦ leb→le n 4096 e
      | inr e ↦ let more' : 4097 ≤ n = ground arith in absurd (too_many n per len more' b h l)
    ]

-- What the last step leaves: an entry that the search finds, with the first cluster and the size.
pub record Entered (name ext : ℕ → ℕ) (first len sector idx : ℕ) (v w : Volume) : Type 0 where
  pub only : OnlyDisk v w
  pub low : sector < v.fs.first_data_sector
  pub others : (m : ℕ) → m ≢ sector → w.disk m ≡ v.disk m
  pub found_at : fat12_find_dir_entry 0 (named name ext) w ≡ some (sector, idx)
  pub cluster : entry_cluster (w.disk sector) idx ≡ first
  pub size : entry_size (w.disk sector) idx ≡ len

module _ (name ext : ℕ → ℕ) (v : Volume) (sound : IsSound v) (s j first len : ℕ) (b : ℕ → ℕ)
    (put : (ata_write_sector s (set_contents j first len b) v).0 ≡ success)
    (from : v.fs.first_root_sector ≤ s) (to : s < v.fs.first_root_sector + v.fs.root_dir_sectors)
    (before : MoreUpTo (named name ext) v sound.reads v.fs.first_root_sector s) (slot_in : j < 16)
    (passed : PassUpTo (named name ext) b 0 j)
    (taken : judge (named name ext) (set_contents j first len b) j ≡ hit)
    (small : (first < 2 ^ 16) × (len < 2 ^ 32)) where
  abbrev put_volume : Volume
  put_volume = (ata_write_sector s (set_contents j first len b) v).1

  put_disk : (m : ℕ) → put_volume.disk m ≡ update v.disk s (set_contents j first len b) m
  put_disk m =
      ap (λ (d : ℕ → ℕ → ℕ). d m) (ata_write_sector-disk s (set_contents j first len b) v put)

  put_there : put_volume.disk s ≡ set_contents j first len b
  put_there = put_disk s ∙ update_same v.disk s (set_contents j first len b)

  put_elsewhere : (m : ℕ) → m ≢ s → put_volume.disk m ≡ v.disk m
  put_elsewhere m ne = put_disk m ∙ update_ne v.disk s m (set_contents j first len b) ne

  put_only : OnlyDisk v put_volume
  put_only = ata_write_sector-OnlyDisk s (set_contents j first len b) v

  put_found : scan 16 0 (named name ext) (set_contents j first len b) ≡ found j
  put_found =
      found-scan (named name ext) (set_contents j first len b) 16 0 j (omega arith) (omega arith)
        taken
        (λ k l m.
          judge-ext (named name ext) b (set_contents j first len b) k
            (λ c h. set_contents-others j first len b (k * 32 + c) (inl (omega arith)))
          ∙ passed k l m)

  put_search : fat12_find_dir_entry 0 (named name ext) put_volume ≡ some (s, j)
  unfolding fat12_find_dir_entry
  put_search =
      let good : (m : ℕ) → put_volume.readable m ≡ true =
        λ m. ap (λ (r : ℕ → Bool). r m) put_only.same_readable ∙ sound.reads m in
      ap
        (λ (g : Geometry).
          slot (search_sectors g.root_dir_sectors g.first_root_sector (named name ext) put_volume))
        put_only.same_fs
      ∙ ap slot (
          at-search (named name ext) put_volume good v.fs.root_dir_sectors v.fs.first_root_sector s
            j from to (ap (scan 16 0 (named name ext)) put_there ∙ put_found)
            (λ t l m.
              let ne : t ≢ s = omega arith in
              ap (scan 16 0 (named name ext)) (put_elsewhere t ne) ∙ before t l m))

  pub put-Entered : Entered name ext first len s j v put_volume
  put-Entered =
      let r = set_contents-reads j first len b small.0 small.1 in
      let below = sound.root_below in
      record {
        only = put_only;
        low = omega arith;
        others = put_elsewhere;
        found_at = put_search;
        cluster = ap (λ c. entry_cluster c j) put_there ∙ r.0;
        size = ap (λ c. entry_size c j) put_there ∙ r.1;
      }
