-- ===== src/Fat12/Composed.antt =====
-- What the steps of `fat12_write_file` in src/drivers/fat12.c leave as it was.
use iron_kernel.Prelude.{
  ℕ, zero, suc, ◌+◌, ◌*◌, ◌≤◌, ◌<◌, ◌≡◌, refl, sym, ap, ◌∙◌, inl, inr, arith, true, false, not,
  Option, none, some, List, ◌&&◌, ltb, leb, if_split, if◌then◌else◌, Bool-cases, drop, subst,
}
use iron_kernel.Fat12.{
  fat12_next_cluster, fat12_set_cluster, free_chain, fat12_free_chain, fat12_eoc,
}
use iron_kernel.Fat12.Table.{AreBytes}
use iron_kernel.Fat12.Store.{
  Geometry, Volume, Status, success, failure, lba_of, flush_from, fat12_flush_fat, ata_write_sector,
}
use iron_kernel.Fat12.Files.{release_old, free_chain_of, entry_cluster, is_directory}
use iron_kernel.Fat12.Sectors.{
  HoldsAt, HoldsAt-same, OnlyDisk, OnlyDisk-trans, ata_write_sector-OnlyDisk,
  ata_write_sector-others,
}
use iron_kernel.Fat12.Written.{Fits, next, fat12_set_cluster-AreBytes, lba_of-eq}
use iron_kernel.Fat12.Chained.{Run}

free_chain-AreBytes : (limit c : ℕ) (fat : ℕ → ℕ) → AreBytes fat → AreBytes (free_chain limit c fat)
unfolding free_chain
free_chain-AreBytes zero c fat b = b
free_chain-AreBytes (suc limit) c fat b =
    if_split AreBytes (leb 2 c && ltb c fat12_eoc) _ fat
      (λ _.
        free_chain-AreBytes limit (fat12_next_cluster fat c) (fat12_set_cluster c 0 fat)
          (fat12_set_cluster-AreBytes c 0 fat b))
      (λ _. b)

-- Freeing the old clusters changes the table in memory alone.
pub record Released (v w : Volume) : Type 0 where
  pub bytes : AreBytes w.fat_buf
  pub same_fs : w.fs ≡ v.fs
  pub same_disk : w.disk ≡ v.disk
  pub same_readable : w.readable ≡ v.readable

free_chain_of-Released : (c : ℕ) (v : Volume) → AreBytes v.fat_buf → Released v (free_chain_of c v)
free_chain_of-Released c v b =
    if_split (Released v) (leb 2 c) (record v { fat_buf = fat12_free_chain c v.fat_buf }) v
      (λ _. record {
        bytes = unfold fat12_free_chain in free_chain-AreBytes 4096 c v.fat_buf b;
        same_fs = refl;
        same_disk = refl;
        same_readable = refl;
      })
      (λ _. record { bytes = b; same_fs = refl; same_disk = refl; same_readable = refl })

pub release_old-Released :
    (old : Option (ℕ × ℕ)) (v w : Volume)
    → AreBytes v.fat_buf
    → release_old old v ≡ some w
    → Released v w
unfolding release_old
release_old-Released none v w b h =
    let e : v ≡ w = cc h in
    subst (Released v) e
      (record { bytes = b; same_fs = refl; same_disk = refl; same_readable = refl })
release_old-Released (some (s, i)) v w b h = elim (Bool-cases (v.readable s)) [
  | inr e ↦ absurd (stays (v.disk s) e h)
  | inl e ↦ elim (Bool-cases (is_directory (v.disk s) i)) [
    | inl d ↦ absurd (refused (v.disk s) e d h)
    | inr d ↦
        subst (Released v) (freed (v.disk s) e d h)
          (free_chain_of-Released (entry_cluster (v.disk s) i) v b)
  ]
]
  where
    res : (ℕ → ℕ) → Option Volume
    res k =
        if not (v.readable s)
        then none
        else if is_directory k i
        then none
        else some (free_chain_of (entry_cluster k i) v)

    stays : (k : ℕ → ℕ) → v.readable s ≡ false → res k ≡ some w → ⊥
    stays k e h = cc (rw e at h)

    refused : (k : ℕ → ℕ) → v.readable s ≡ true → is_directory k i ≡ true → res k ≡ some w → ⊥
    refused k e d h = cc (rw d at (rw e at h))

    freed :
        (k : ℕ → ℕ)
        → v.readable s ≡ true
        → is_directory k i ≡ false
        → res k ≡ some w
        → free_chain_of (entry_cluster k i) v ≡ w
    freed k e d h = cc (rw d at (rw e at h))

-- The table is written below the root directory.
pub record Flushed (v w : Volume) : Type 0 where
  pub only : OnlyDisk v w
  pub above : (m : ℕ) → v.fs.first_fat_sector + 2 * v.fs.sectors_per_fat ≤ m → w.disk m ≡ v.disk m

Flushed-refl : (v : Volume) → Flushed v v
Flushed-refl v = record {
  only = record { same_fs = refl; same_fat = refl; same_readable = refl };
  above = λ m h. refl;
}

flush_write :
    (lba : ℕ) (buf : ℕ → ℕ) (v : Volume)
    → lba < v.fs.first_fat_sector + 2 * v.fs.sectors_per_fat
    → Flushed v (ata_write_sector lba buf v).1
flush_write lba buf v h = record {
  only = ata_write_sector-OnlyDisk lba buf v;
  above = λ m k. ata_write_sector-others lba buf v m (omega arith);
}

Flushed-trans : (u v w : Volume) → Flushed u v → Flushed v w → Flushed u w
Flushed-trans u v w a b = record {
  only = OnlyDisk-trans a.only b.only;
  above = λ m h.
      let same = ap (λ (g : Geometry). g.first_fat_sector + 2 * g.sectors_per_fat) a.only.same_fs in
      b.above m (omega arith) ∙ a.above m h;
}

flush_from-Flushed :
    (n i : ℕ) (v : Volume) → i + n ≤ v.fs.sectors_per_fat → Flushed v (flush_from n i v).1
unfolding flush_from
flush_from-Flushed zero i v h = Flushed-refl v
flush_from-Flushed (suc n) i v h =
    let sector = λ (b : ℕ). v.fat_buf (i * 512 + b) in
    let a = ata_write_sector (v.fs.first_fat_sector + i) sector v in
    let b = ata_write_sector (v.fs.first_fat_sector + v.fs.sectors_per_fat + i) sector a.1 in
    let one = flush_write (v.fs.first_fat_sector + i) sector v (omega arith) in
    let fat = ap (λ (g : Geometry). g.first_fat_sector) one.only.same_fs in
    let per = ap (λ (g : Geometry). g.sectors_per_fat) one.only.same_fs in
    let both =
      Flushed-trans v a.1 b.1 one
        (flush_write (v.fs.first_fat_sector + v.fs.sectors_per_fat + i) sector a.1 (omega arith)) in
    let per2 = ap (λ (g : Geometry). g.sectors_per_fat) both.only.same_fs in
    let rest = flush_from-Flushed n (i + 1) b.1 (omega arith) in
    elim a.0
      as (λ s.
        Flushed v
          (elim s as (λ _. Status × Volume) [
            | failure ↦ (failure, a.1)
            | success ↦ elim b.0 [ failure ↦ (failure, b.1) | success ↦ flush_from n (i + 1) b.1 ]
          ]).1) [
            | failure ↦ one
            | success ↦
                elim b.0
                  as (λ s.
                    Flushed v
                      (elim s as (λ _. Status × Volume) [
                        | failure ↦ (failure, b.1)
                        | success ↦ flush_from n (i + 1) b.1
                      ]).1) [ failure ↦ both | success ↦ Flushed-trans v b.1 _ both rest ]
          ]

pub fat12_flush_fat-Flushed : (v : Volume) → Flushed v (fat12_flush_fat v).1
unfolding fat12_flush_fat
fat12_flush_fat-Flushed v = flush_from-Flushed v.fs.sectors_per_fat 0 v (omega arith)

-- A chain is kept where the table and the data sectors are.
pub Run-kept :
    (v w : Volume)
    → Fits v.fs
    → OnlyDisk v w
    → ((m : ℕ) → v.fs.first_data_sector ≤ m → w.disk m ≡ v.disk m)
    → (n c : ℕ) (src : List ℕ) → Run v n c src
    → Run w n c src
Run-kept v w f o same zero c src r = tt
Run-kept v w f o same (suc n) c src r =
    let at = lba_of-eq v.fs c f r.0 in
    let held =
      HoldsAt-same v w v.fs.sectors_per_cluster (lba_of v.fs c) src
        (λ s l. same (lba_of v.fs c + s) (omega arith)) r.1 in
    (
      r.0,
      subst (λ (g : Geometry). HoldsAt w g.sectors_per_cluster (lba_of g c) src) (sym o.same_fs)
          held,
      subst (λ (g : Geometry). Run w n (next w c) (drop (g.sectors_per_cluster * 512) src))
          (sym o.same_fs)
          (subst (λ k. Run w n k (drop (v.fs.sectors_per_cluster * 512) src))
            (ap (λ t. fat12_next_cluster t c) (sym o.same_fat))
            (Run-kept v w f o same n (next v c) (drop (v.fs.sectors_per_cluster * 512) src) r.2)),
    )
