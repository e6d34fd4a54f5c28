-- ===== src/Fat12/Mount.antt =====
-- Mounting: `fat12_init` of src/drivers/fat12.c.
use iron_kernel.Prelude.{
  ℕ, zero, suc, ◌+◌, ◌-◌, ◌*◌, ◌/◌, ◌≤◌, ◌<◌, min, ◌≡◌, refl, sym, ap, ap₂, ◌∙◌, ◌≢◌, inl, inr,
  arith, Bool, true, false, not, ◌&&◌, leb, ltb, ◌==◌, if_split, if_true, if_false, if◌then◌else◌,
  Bool-cases, subst,
}
use iron_kernel.Fat12.Table.{AreBytes}
use iron_kernel.Fat12.Store.{
  Geometry, Volume, Status, success, failure, le16, load_fat, geometry, fat12_init, with_mounted,
  fat_buf_sectors,
}
use iron_kernel.Fat12.Written.{Fits}
use iron_kernel.Fat12.Sound.{IsSound}

-- What loading `n` sectors of the table from the `i`th on has done.
record Loaded (n i : ℕ) (v w : Volume) : Type 0 where
  bytes : AreBytes w.fat_buf
  same_fs : w.fs ≡ v.fs
  same_disk : w.disk ≡ v.disk
  same_readable : w.readable ≡ v.readable
  earlier : (j : ℕ) → j < i * 512 → w.fat_buf j ≡ v.fat_buf j
  table :
      (k o : ℕ)
      → i ≤ k
      → k < i + n
      → o < 512
      → w.fat_buf (k * 512 + o) ≡ v.disk (v.fs.first_fat_sector + k) o

abbrev one_read : ℕ → Volume → ℕ → ℕ
one_read i v j =
    if leb (i * 512) j && ltb j (i * 512 + 512)
    then v.disk (v.fs.first_fat_sector + i) (j - i * 512)
    else v.fat_buf j

one_read-here :
    (i : ℕ) (v : Volume) (o : ℕ)
    → o < 512
    → one_read i v (i * 512 + o) ≡ v.disk (v.fs.first_fat_sector + i) o
one_read-here i v o h =
    let j = i * 512 + o in
    let e : j - i * 512 ≡ o = omega arith in
    if_true (leb (i * 512) j && ltb j (i * 512 + 512)) _ _ (ground arith)
    ∙ ap (v.disk (v.fs.first_fat_sector + i)) e

one_read-before : (i : ℕ) (v : Volume) (j : ℕ) → j < i * 512 → one_read i v j ≡ v.fat_buf j
one_read-before i v j h = if_false (leb (i * 512) j && ltb j (i * 512 + 512)) _ _ (ground arith)

load_fat-Loaded :
    (n i : ℕ) (v : Volume)
    → AreBytes v.fat_buf
    → ((m : ℕ) → AreBytes (v.disk m))
    → (load_fat n i v).0 ≡ success
    → Loaded n i v (load_fat n i v).1
unfolding load_fat
load_fat-Loaded zero i v b d h = record {
  bytes = b;
  same_fs = refl;
  same_disk = refl;
  same_readable = refl;
  earlier = λ j l. refl;
  table = λ k o l m. absurd (omega arith);
}
load_fat-Loaded (suc n) i v b d h = elim (Bool-cases (v.readable (v.fs.first_fat_sector + i))) [
  | inr e ↦ cc (
      sym (
        ap (λ (r : Status × Volume). r.0) (if_false (v.readable (v.fs.first_fat_sector + i)) _ _ e))
      ∙ h)
  | inl e ↦
      let u = record v { fat_buf = one_read i v } in
      let same =
        if_true (v.readable (v.fs.first_fat_sector + i)) (load_fat n (i + 1) u) (failure, v) e in
      let bytes_u : AreBytes u.fat_buf = λ j.
        if_split (λ (x : ℕ). x < 256) (leb (i * 512) j && ltb j (i * 512 + 512)) _ _
          (λ _. d (v.fs.first_fat_sector + i) (j - i * 512)) (λ _. b j) in
      let ih =
        load_fat-Loaded n (i + 1) u bytes_u d (sym (ap (λ (r : Status × Volume). r.0) same) ∙ h) in
      subst (λ (r : Status × Volume). Loaded (suc n) i v r.1) (sym same)
        (record {
          bytes = ih.bytes;
          same_fs = ih.same_fs;
          same_disk = ih.same_disk;
          same_readable = ih.same_readable;
          earlier = λ j l. ih.earlier j (omega arith) ∙ one_read-before i v j l;
          table = λ k o l m q. elim (Bool-cases (i == k)) [
            | inl z ↦
                let at : i ≡ k = ground arith in
                subst
                  (λ k.
                    (load_fat n (i + 1) u).1.fat_buf (k * 512 + o)
                    ≡ v.disk (v.fs.first_fat_sector + k) o)
                  at (ih.earlier (i * 512 + o) (omega arith) ∙ one_read-here i v o q)
            | inr z ↦
                let ne : i ≢ k = λ p. ground arith in ih.table k o (omega arith) (omega arith) q
          ];
        })
]

le16-lt : (b : ℕ → ℕ) (i : ℕ) → AreBytes b → le16 b i < 65536
le16-lt b i h = let x = h i in let y = h (i + 1) in omega arith

-- The areas that the boot sector names follow one another.
record Areas (g : Geometry) : Type 0 where
  fits : Fits g
  fats_below : g.first_fat_sector + 2 * g.sectors_per_fat ≤ g.first_root_sector
  root_below : g.first_root_sector + g.root_dir_sectors ≤ g.first_data_sector

geometry-Areas :
    (boot : ℕ → ℕ)
    → AreBytes boot
    → boot 16 ≡ 2
    → 0 < boot 13
    → ((geometry boot).total_sectors - (geometry boot).first_data_sector) / boot 13 + 2 ≤ 4088
    → Areas (geometry boot)
unfolding geometry
geometry-Areas boot b two some few =
    let per_fat = le16 boot 22 in
    let tables : boot 16 * per_fat ≡ 2 * per_fat = ap (λ t. t * per_fat) two in
    let r = le16-lt boot 14 b in
    let p = le16-lt boot 22 b in
    let e = le16-lt boot 17 b in
    record {
      fits = record {
        some_sectors = some;
        byte_sectors = b 13;
        first_below = omega arith;
        few_clusters = few;
      };
      fats_below = omega arith;
      root_below = omega arith;
    }

abbrev named_volume : Volume → Volume
named_volume v = record v { fs = geometry (v.disk 0) }

abbrev loaded : Volume → Status × Volume
loaded v = load_fat (min (geometry (v.disk 0)).sectors_per_fat fat_buf_sectors) 0 (named_volume v)

status_ok :
    (s : Status) (x y w : Volume)
    → elim s as (λ _. Status × Volume) [ failure ↦ (failure, x) | success ↦ (success, y) ]
      ≡ (success, w)
    → (s ≡ success) × (y ≡ w)
status_ok failure x y w h = cc h
status_ok success x y w h = (refl, ap (λ (r : Status × Volume). r.1) h)

init_ok :
    (v w : Volume)
    → ((m : ℕ) → v.readable m ≡ true)
    → fat12_init v ≡ (success, w)
    → ((loaded v).0 ≡ success) × (with_mounted true (loaded v).1 ≡ w)
unfolding fat12_init
init_ok v w good h = elim (Bool-cases v.present) [
  | inr e ↦ cc (sym (if_true (not v.present) (failure, with_mounted false v) _ (ap not e)) ∙ h)
  | inl e ↦ status_ok (loaded v).0 (loaded v).1 (with_mounted true (loaded v).1) w (
      sym (
        if_false (not v.present) _ _ (ap not e)
        ∙ if_false (not (v.readable 0)) _ _ (ap not (good 0)))
      ∙ h)
]

-- When `fat12_init` succeeds on a drive that reads, the volume is sound and the table in memory is the
-- one of the drive, if the boot sector names two tables, some sectors for a cluster, and no more
-- clusters than FAT12 has.
pub fat12_init-IsSound :
    (v w : Volume)
    → AreBytes v.fat_buf
    → ((m : ℕ) → AreBytes (v.disk m))
    → ((m : ℕ) → v.readable m ≡ true)
    → v.disk 0 16 ≡ 2
    → 0 < v.disk 0 13
    → ((geometry (v.disk 0)).total_sectors - (geometry (v.disk 0)).first_data_sector) / v.disk 0 13
        + 2
      ≤ 4088
    → fat12_init v ≡ (success, w)
    → IsSound w
      × ((k o : ℕ)
          → k < w.fs.sectors_per_fat
          → k < fat_buf_sectors
          → o < 512
          → w.fat_buf (k * 512 + o) ≡ w.disk (w.fs.first_fat_sector + k) o)
fat12_init-IsSound v w b d good two some few h =
    let (ok, made) = init_ok v w good h in
    let g = geometry (v.disk 0) in
    let a = geometry-Areas (v.disk 0) (d 0) two some few in
    let n = min g.sectors_per_fat fat_buf_sectors in
    let l = load_fat-Loaded n 0 (named_volume v) b d ok in
    let to = sym l.same_fs in
    let per : (loaded v).1.fs.sectors_per_fat ≡ g.sectors_per_fat =
      ap (λ (x : Geometry). x.sectors_per_fat) l.same_fs in
    subst
      (λ w.
        IsSound w
        × ((k o : ℕ)
            → k < w.fs.sectors_per_fat
            → k < fat_buf_sectors
            → o < 512
            → w.fat_buf (k * 512 + o) ≡ w.disk (w.fs.first_fat_sector + k) o))
      made
      (
        record {
          is_mounted = refl;
          fits =
              subst (λ (x : Geometry). Fits (record x { mounted = true })) to
                (mounted_fits g a.fits);
          bytes = l.bytes;
          fats_below =
              subst
                (λ (x : Geometry). x.first_fat_sector + 2 * x.sectors_per_fat ≤ x.first_root_sector)
                to a.fats_below;
          root_below =
              subst
                (λ (x : Geometry). x.first_root_sector + x.root_dir_sectors ≤ x.first_data_sector)
                to a.root_below;
          reads = λ m. ap (λ (t : ℕ → Bool). t m) l.same_readable ∙ good m;
        },
        λ k o lt small q.
            l.table k o (omega arith) (omega arith) q
            ∙ ap₂ (λ (t : ℕ → ℕ → ℕ) (x : Geometry). t (x.first_fat_sector + k) o) (sym l.same_disk)
                to,
      )
  where
    mounted_fits : (g : Geometry) → Fits g → Fits (record g { mounted = true })
    mounted_fits g f = record {
      some_sectors = f.some_sectors;
      byte_sectors = f.byte_sectors;
      first_below = f.first_below;
      few_clusters = f.few_clusters;
    }
