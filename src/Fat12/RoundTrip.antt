-- ===== src/Fat12/RoundTrip.antt =====
-- A file that is written in the root directory reads back: src/drivers/fat12.c.
use iron_kernel.Prelude.{
  ℕ, zero, suc, ◌+◌, ◌*◌, ◌^◌, ◌≤◌, ◌<◌, ◌≡◌, refl, sym, ap, ap₂, ◌∙◌, ◌≢◌, arith, Bool, true, not,
  Option, none, some, List, [], if_true, if_false, length, subst,
}
use iron_kernel.Fat12.Table.{AreBytes}
use iron_kernel.Fat12.Store.{Geometry, Volume, Status, success, failure, fat12_flush_fat}
use iron_kernel.Fat12.Search.{named, fat12_find_dir_entry}
use iron_kernel.Fat12.Files.{
  Reading, read_chain, fat12_read_file, write_clusters, clusters_needed, release_old, write_entry,
  fat12_write_file, if_ok, read_entry, entry_cluster, entry_size,
}
use iron_kernel.Fat12.Written.{Fits, first_cluster}
use iron_kernel.Fat12.Chained.{Run, write_clusters-Chain}
use iron_kernel.Fat12.ReadBack.{read_chain-Run}
use iron_kernel.Fat12.Entries.{IsName}
use iron_kernel.Fat12.Composed.{Released, release_old-Released, fat12_flush_fat-Flushed, Run-kept}
use iron_kernel.Fat12.Sound.{IsSound, IsSound-kept, needed_lem}
use iron_kernel.Fat12.Entered.{enter, find-same}

abbrev needed : Volume → List ℕ → ℕ
needed v buf = clusters_needed (v.fs.sectors_per_cluster * 512) (length buf)

abbrev chained : Volume → List ℕ → Volume → Status × (ℕ × Volume)
chained v buf v1 = write_clusters (needed v buf) 0 0 buf v1

-- The steps of a write that succeeds.
record Steps (name ext : ℕ → ℕ) (buf : List ℕ) (v w : Volume) : Type 0 where
  v1 : Volume
  old_freed : release_old (fat12_find_dir_entry 0 (named name ext) v) v ≡ some v1
  wrote : (chained v buf v1).0 ≡ success
  entered :
      write_entry 0
        (fat12_find_dir_entry 0 (named name ext) v)
        name
        ext
        (chained v buf v1).1.0
        (length buf)
        (fat12_flush_fat (chained v buf v1).1.1).1
      ≡ (success, w)

if_ok-success :
    (s : Status) (u w : Volume) (next : Status × Volume)
    → if_ok s u next ≡ (success, w)
    → (s ≡ success) × (next ≡ (success, w))
if_ok-success failure u w next h = cc h
if_ok-success success u w next h = (refl, h)

some_of :
    (o : Option Volume) (v w : Volume) (next : Volume → Status × Volume)
    → elim o as (λ _. Status × Volume) [ none ↦ (failure, v) | some v1 ↦ next v1 ] ≡ (success, w)
    → (v1 : Volume) × (o ≡ some v1) × (next v1 ≡ (success, w))
some_of none v w next h = cc h
some_of (some v1) v w next h = (v1, refl, h)

module _ (name ext : ℕ → ℕ) (buf : List ℕ) (v w : Volume) (up : v.fs.mounted ≡ true)
    (h : fat12_write_file 0 name ext buf v ≡ (success, w)) where
  -- What follows on the release of the old clusters.
  abbrev onward : Volume → Status × Volume
  onward v1 =
      let made = chained v buf v1 in
      let (flushed, v3) = fat12_flush_fat made.1.1 in
      if_ok made.0 made.1.1 (
        if_ok flushed v3 (
          write_entry 0 (fat12_find_dir_entry 0 (named name ext) v) name ext made.1.0 (length buf)
            v3))

  steps_of : Steps name ext buf v w
  unfolding fat12_write_file
  steps_of =
      let (v1, old_freed, on) =
        some_of (release_old (fat12_find_dir_entry 0 (named name ext) v) v) v w onward
          (sym (if_false (not v.fs.mounted) _ _ (ap not up)) ∙ h) in
      let (wrote, on2) = if_ok-success _ _ _ _ on in
      record {
        v1 = v1;
        old_freed = old_freed;
        wrote = wrote;
        entered = (if_ok-success _ _ _ _ on2).1;
      }

Run-start : (v : Volume) (n c : ℕ) (src : List ℕ) → n ≢ 0 → Run v n c src → c < 4088
Run-start v zero c src ne r = absurd (ne refl)
Run-start v (suc n) c src ne r = r.0.1

-- The volume before the last step.
record BeforeEntry (name ext : ℕ → ℕ) (buf : List ℕ) (v v3 : Volume) (first : ℕ) : Type 0 where
  sound3 : IsSound v3
  same_fs : v3.fs ≡ v.fs
  run : Run v3 (needed v buf) first buf
  small : first < 4088
  same_find : fat12_find_dir_entry 0 (named name ext) v3 ≡ fat12_find_dir_entry 0 (named name ext) v

steps-BeforeEntry :
    (name ext : ℕ → ℕ) (buf : List ℕ) (v v1 : Volume)
    → IsSound v
    → needed v buf ≢ 0
    → Released v v1
    → (chained v buf v1).0 ≡ success
    → BeforeEntry name ext buf v (fat12_flush_fat (chained v buf v1).1.1).1 (chained v buf v1).1.0
steps-BeforeEntry name ext buf v v1 sound some_needed r wrote =
    let v2 = (chained v buf v1).1.1 in
    let v3 = (fat12_flush_fat v2).1 in
    let n = needed v buf in
    let c =
      write_clusters-Chain n 0 0 buf v1 (subst Fits (sym r.same_fs) sound.fits) r.bytes
        first_cluster wrote in
    let f = fat12_flush_fat-Flushed v2 in
    let fs2 : v2.fs ≡ v.fs = c.frame.fs_kept ∙ r.same_fs in
    let fs3 : v3.fs ≡ v.fs = f.only.same_fs ∙ fs2 in
    let readable3 = f.only.same_readable ∙ (c.frame.readable_kept ∙ r.same_readable) in
    let fat2 = ap (λ (g : Geometry). g.first_fat_sector + 2 * g.sectors_per_fat) fs2 in
    let data1 = ap (λ (g : Geometry). g.first_data_sector) r.same_fs in
    let data2 = ap (λ (g : Geometry). g.first_data_sector) fs2 in
    let fits2 = subst Fits (sym fs2) sound.fits in
    let fats_low = sound.fats_below in
    let root_low = sound.root_below in
    let start : (chained v buf v1).1.0 ≡ c.start = c.first_is some_needed in
    record {
      sound3 =
          IsSound-kept v v3 fs3 readable3 (subst AreBytes (sym f.only.same_fat) c.frame.bytes)
            sound;
      same_fs = fs3;
      run =
          Run-kept v2 v3 fits2 f.only (λ m h. f.above m (omega arith)) n _ buf
            (subst (λ k. Run v2 n k buf) (sym start) c.run);
      small = let k = Run-start v2 n c.start buf some_needed c.run in omega arith;
      same_find =
          find-same (named name ext) v3 v fs3
            (λ m below above.
              f.above m (omega arith)
              ∙ (c.frame.low_kept m (omega arith) ∙ ap (λ (d : ℕ → ℕ → ℕ). d m) r.same_disk))
            readable3;
    }

read_found :
    (name ext : ℕ → ℕ) (buf_size : ℕ) (w : Volume) (s i : ℕ) (taken : List ℕ)
    → w.fs.mounted ≡ true
    → w.readable s ≡ true
    → fat12_find_dir_entry 0 (named name ext) w ≡ some (s, i)
    → read_chain 4096
        (entry_cluster (w.disk s) i)
        buf_size
        w
        (record { taken = []; remaining = entry_size (w.disk s) i })
      ≡ (success, record { taken = taken; remaining = 0 })
    → fat12_read_file 0 name ext buf_size w ≡ (success, taken)
unfolding fat12_read_file
read_found name ext buf_size w s i taken up good e read =
    if_false _ _ _ (ap not up)
    ∙ (ap
          (λ o. elim o as (λ _. Status × List ℕ) [
            | none ↦ (failure, [])
            | some (s, i) ↦ read_entry buf_size s i w
          ])
          e
        ∙ (if_true _ _ _ good ∙ ap (λ (r : Status × Reading). (r.0, r.1.taken)) read))

-- On a sound volume, a file of at most 2 MB that `fat12_write_file` stores in the root directory,
-- new or over an old one, is read back whole by `fat12_read_file` into a buffer that holds it.
pub fat12_read_file-fat12_write_file :
    (name ext : ℕ → ℕ) (buf : List ℕ) (buf_size : ℕ) (v w : Volume)
    → IsSound v
    → IsName name ext
    → length buf ≤ 2 ^ 21
    → length buf ≤ buf_size
    → buf_size + 512 < 2 ^ 32
    → fat12_write_file 0 name ext buf v ≡ (success, w)
    → fat12_read_file 0 name ext buf_size w ≡ (success, buf)
fat12_read_file-fat12_write_file name ext buf buf_size v w sound good_name short fits_in room h =
    let steps = steps_of name ext buf v w sound.is_mounted h in
    let some_sectors = sound.fits.some_sectors in
    let (ne, enough, few) =
      needed_lem (v.fs.sectors_per_cluster * 512) (length buf) (omega arith) short in
    let r = release_old-Released _ v steps.v1 sound.bytes steps.old_freed in
    let b = steps-BeforeEntry name ext buf v steps.v1 sound ne r steps.wrote in
    let small = b.small in
    let (sector, idx, e) =
      enter name ext _ w b.sound3 good_name _ (length buf) (omega arith, omega arith) _ b.same_find
        steps.entered in
    let low = e.low in
    let per = ap (λ (g : Geometry). g.sectors_per_cluster * 512) (e.only.same_fs ∙ b.same_fs) in
    let run =
      Run-kept _ w b.sound3.fits e.only (λ m k. e.others m (omega arith)) (needed v buf) _ buf
        b.run in
    let good : (m : ℕ) → w.readable m ≡ true =
      λ m. ap (λ (t : ℕ → Bool). t m) e.only.same_readable ∙ b.sound3.reads m in
    read_found name ext buf_size w sector idx buf
      (ap (λ (g : Geometry). g.mounted) e.only.same_fs ∙ b.sound3.is_mounted) (good sector)
      e.found_at
      (ap₂ (λ c n. read_chain 4096 c buf_size w (record { taken = []; remaining = n })) e.cluster
          e.size
        ∙ read_chain-Run buf_size w good 4096 (needed v buf) _ [] buf (omega arith, room) few
            (subst (λ p. length buf ≤ needed v buf * p) (sym per) enough) run)
