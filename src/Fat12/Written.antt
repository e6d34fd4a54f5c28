-- ===== src/Fat12/Written.antt =====
-- The chain of clusters that `fat12_write_file` of src/drivers/fat12.c builds.
use iron_kernel.Prelude.{
  ℕ, ◌+◌, ◌-◌, ◌*◌, ◌/◌, ◌%◌, ◌^◌, ◌≤◌, ◌<◌, min, ◌≡◌, refl, sym, ap, ◌∙◌, ◌≢◌, inl, inr, arith,
  true, false, ◌⊎◌, ◌==◌, ==_iff, ==_ne, leb, leb→le, if_true, if_false, Bool-cases, subst,
}
use iron_kernel.Fat12.{
  fat12_next_cluster, fat12_set_cluster, fat12_alloc_cluster, offset_of, word, packed,
}
use iron_kernel.Fat12.Table.{AreBytes, fat12_next_cluster-fat12_set_cluster}
use iron_kernel.Fat12.Chains.{Search, none_free, first_free, fat12_alloc_cluster-Search}
use iron_kernel.Fat12.Store.{Geometry, Volume, lba_of}
use iron_kernel.Fat12.Files.{link_cluster, alloc, set_cluster}

-- A volume that fits FAT12: the data clusters are numbered below 4088, and `uint32_t` counts the
-- sectors.
pub record Fits (g : Geometry) : Type 0 where
  pub some_sectors : 0 < g.sectors_per_cluster
  pub byte_sectors : g.sectors_per_cluster < 256
  pub first_below : g.first_data_sector < 2 ^ 31
  pub few_clusters : (g.total_sectors - g.first_data_sector) / g.sectors_per_cluster + 2 ≤ 4088

abbrev pub IsCluster : ℕ → Type 0
IsCluster c = (2 ≤ c) × (c < 4088)

abbrev pub next : Volume → ℕ → ℕ
next v c = fat12_next_cluster v.fat_buf c

pub packed-lt : (cur c val : ℕ) → cur < 65536 → packed cur c val < 65536
packed-lt cur c val h = elim (Bool-cases (c % 2 == 1)) [
  | inl e ↦ rw e (omega arith)
  | inr e ↦ rw e (omega arith)
]

pub fat12_set_cluster-AreBytes :
    (c val : ℕ) (fat : ℕ → ℕ) → AreBytes fat → AreBytes (fat12_set_cluster c val fat)
unfolding fat12_set_cluster
fat12_set_cluster-AreBytes c val fat b i =
    let x = b (offset_of c) in
    let y = b (offset_of c + 1) in
    let cur = packed (word fat (offset_of c)) c val in
    let small = packed-lt (word fat (offset_of c)) c val (omega arith) in
    elim (Bool-cases (i == offset_of c + 1)) [
      | inl e ↦ rw (if_true (i == offset_of c + 1) (cur / 256) _ e) (omega arith)
      | inr e ↦
          rw (if_false (i == offset_of c + 1) (cur / 256) _ e)
            (elim (Bool-cases (i == offset_of c)) [
              | inl f ↦ rw (if_true (i == offset_of c) (cur % 256) _ f) (omega arith)
              | inr f ↦ rw (if_false (i == offset_of c) (cur % 256) _ f) (b i)
            ])
    ]

-- The sectors of two clusters are apart, and behind those of the root directory.
pub lba_of-eq :
    (g : Geometry) (c : ℕ)
    → Fits g
    → IsCluster c
    → lba_of g c ≡ g.first_data_sector + (c - 2) * g.sectors_per_cluster
unfolding lba_of
lba_of-eq g c f i =
    let top : (c - 2) * g.sectors_per_cluster ≤ 4088 * 256 =
      bound c g.sectors_per_cluster i f.byte_sectors in
    let low = f.first_below in omega arith
  where
    bound : (c p : ℕ) → IsCluster c → p < 256 → (c - 2) * p ≤ 4088 * 256
    bound c p i l = grind arith

times_lt : (c d p : ℕ) → 2 ≤ c → c < d → (c - 2) * p + p ≤ (d - 2) * p
times_lt c d p h l = grind arith

pub lba_apart :
    (g : Geometry) (c d s : ℕ)
    → Fits g
    → IsCluster c
    → IsCluster d
    → d ≢ c
    → s < g.sectors_per_cluster
    → (lba_of g d + s < lba_of g c) ⊎ (lba_of g c + g.sectors_per_cluster ≤ lba_of g d + s)
lba_apart g c d s f i j ne hs =
    let p = g.sectors_per_cluster in
    let x = lba_of-eq g c f i in
    let y = lba_of-eq g d f j in
    elim (Bool-cases (leb c d)) [
      | inl a ↦
          let le = leb→le c d a in
          let lt : c < d = omega (arith, ne) in let k = times_lt c d p i.0 lt in inr (omega arith)
      | inr a ↦ let lt : d < c = ground arith in let k = times_lt d c p j.0 lt in inl (omega arith)
    ]

-- What a successful search for a free cluster gives.
pub alloc-free :
    (v : Volume) → Fits v.fs → alloc v ≢ 0 → IsCluster (alloc v) × (next v (alloc v) ≡ 0)
alloc-free v f ne = elim (Bool-cases (leb v.fs.total_sectors v.fs.first_data_sector)) [
  | inl full ↦ absurd (ne (none_left full))
  | inr room ↦ answer (alloc v) ne (
      fat12_alloc_cluster-Search v.fat_buf v.fs.total_sectors v.fs.first_data_sector
        v.fs.sectors_per_cluster (ground arith))
]
  where
    none_left : leb v.fs.total_sectors v.fs.first_data_sector ≡ true → alloc v ≡ 0
    none_left full = unfold fat12_alloc_cluster in if_true _ _ _ full

    answer :
        (c : ℕ)
        → c ≢ 0
        → Search v.fat_buf 2
            (min
              ((v.fs.total_sectors - v.fs.first_data_sector) / v.fs.sectors_per_cluster + 2)
              4096)
            c
        → IsCluster c × (next v c ≡ 0)
    answer _ ne (none_free all) = absurd (ne refl)
    answer _ ne (first_free c a b e before) = let k = f.few_clusters in ((a, omega arith), e)

set_self :
    (v : Volume) (c val : ℕ)
    → AreBytes v.fat_buf
    → IsCluster c
    → next (set_cluster c val v) c ≡ val % 4096
set_self v c val b i =
    (fat12_next_cluster-fat12_set_cluster v.fat_buf c (c + 1) val b (omega arith) (omega arith)
      (omega arith)).0

set_other :
    (v : Volume) (c d val : ℕ)
    → AreBytes v.fat_buf
    → IsCluster c
    → IsCluster d
    → d ≢ c
    → next (set_cluster c val v) d ≡ next v d
set_other v c d val b i j ne =
    (fat12_next_cluster-fat12_set_cluster v.fat_buf c d val b (omega arith) (omega arith) ne).1

-- The cluster before the new one, if there is one.
pub data Before (v : Volume) : ℕ → Type 0 where
  first_cluster : Before v 0
  after : {p : ℕ} → IsCluster p → next v p ≢ 0 → Before v p

-- What `link_cluster` has done.
pub record Linked (p c : ℕ) (v w : Volume) : Type 0 where
  pub bytes : AreBytes w.fat_buf
  pub ends : next w c ≡ 0xFFF
  pub leads : p ≢ 0 → next w p ≡ c
  pub others : (d : ℕ) → IsCluster d → d ≢ p → d ≢ c → next w d ≡ next v d
  pub same_disk : w.disk ≡ v.disk
  pub same_fs : w.fs ≡ v.fs
  pub same_readable : w.readable ≡ v.readable

pub link-Linked :
    (v : Volume) (c p : ℕ)
    → AreBytes v.fat_buf
    → IsCluster c
    → next v c ≡ 0
    → Before v p
    → Linked p c v (link_cluster p c v)
unfolding link_cluster
link-Linked v c _ b i free first_cluster = record {
  bytes = fat12_set_cluster-AreBytes c 0xFFF v.fat_buf b;
  ends = set_self v c 0xFFF b i;
  leads = λ ne. absurd (ne refl);
  others = λ d j _ ne. set_other v c d 0xFFF b i j ne;
  same_disk = refl;
  same_fs = refl;
  same_readable = refl;
}
link-Linked v c p b i free (after k used) =
    let v1 = set_cluster c 0xFFF v in
    let b1 = fat12_set_cluster-AreBytes c 0xFFF v.fat_buf b in
    let ne : p ≢ c = λ e. used (ap (next v) e ∙ free) in
    let some : (p == 0) ≡ false = ==_ne p 0 (omega arith) in
    rw some (record {
      bytes = fat12_set_cluster-AreBytes p c v1.fat_buf b1;
      ends = set_other v1 p c c b1 k i (λ e. ne (sym e)) ∙ set_self v c 0xFFF b i;
      leads = λ _. set_self v1 p c b1 k ∙ (omega arith);
      others = λ d j np nc. set_other v1 p d c b1 k j np ∙ set_other v c d 0xFFF b i j nc;
      same_disk = refl;
      same_fs = refl;
      same_readable = refl;
    })

-- What a part of the loop leaves as it was: the entries of the clusters in use but for `p`, and the
-- sectors of the clusters in use and those before the first data sector.
pub record Frame (p : ℕ) (v w : Volume) : Type 0 where
  pub bytes : AreBytes w.fat_buf
  pub fs_kept : w.fs ≡ v.fs
  pub readable_kept : w.readable ≡ v.readable
  pub entries_kept : (d : ℕ) → IsCluster d → d ≢ p → next v d ≢ 0 → next w d ≡ next v d
  pub data_kept :
      (d s : ℕ)
      → IsCluster d
      → next v d ≢ 0
      → s < v.fs.sectors_per_cluster
      → w.disk (lba_of v.fs d + s) ≡ v.disk (lba_of v.fs d + s)
  pub low_kept : (m : ℕ) → m < v.fs.first_data_sector → w.disk m ≡ v.disk m

pub Frame-trans :
    {p c : ℕ} (u v w : Volume)
    → next u c ≡ 0
    → (next v p ≢ 0) ⊎ (p ≡ 0)
    → Frame p u v
    → Frame c v w
    → Frame p u w
Frame-trans {p} {c} u v w free kept a b =
    let apart : (d : ℕ) → next u d ≢ 0 → d ≢ c = λ d used e. used (ap (next u) e ∙ free) in
    let still : (d : ℕ) → IsCluster d → next u d ≢ 0 → next v d ≢ 0 = λ d i used e.
      elim (Bool-cases (d == p)) [
        | inl q ↦
            let at : d ≡ p = (==_iff d p).0 q in
            elim kept [
              | inl ne ↦ ne (ap (next v) (sym at) ∙ e)
              | inr z ↦ let j = i.0 in absurd (omega arith)
            ]
        | inr q ↦ used (sym (a.entries_kept d i (λ r. cc (q, (==_iff d p).1 r)) used) ∙ e)
      ] in
    record {
      bytes = b.bytes;
      fs_kept = b.fs_kept ∙ a.fs_kept;
      readable_kept = b.readable_kept ∙ a.readable_kept;
      entries_kept = λ d i ne used.
          b.entries_kept d i (apart d used) (still d i used) ∙ a.entries_kept d i ne used;
      data_kept = λ d s i used l.
          let per : v.fs.sectors_per_cluster ≡ u.fs.sectors_per_cluster =
            ap (λ (g : Geometry). g.sectors_per_cluster) a.fs_kept in
          subst (λ g. w.disk (lba_of g d + s) ≡ v.disk (lba_of g d + s)) a.fs_kept
            (b.data_kept d s i (still d i used) (omega arith))
          ∙ a.data_kept d s i used l;
      low_kept = λ m l.
          let low : v.fs.first_data_sector ≡ u.fs.first_data_sector =
            ap (λ (g : Geometry). g.first_data_sector) a.fs_kept in
          b.low_kept m (omega arith) ∙ a.low_kept m l;
    }
