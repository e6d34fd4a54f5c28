-- ===== src/Fat12/Chained.antt =====
-- The loop over the clusters in `fat12_write_file` of src/drivers/fat12.c.
use iron_kernel.Prelude.{
  ℕ, zero, suc, ◌+◌, ◌*◌, ◌<◌, ◌≡◌, refl, sym, ap, ◌∙◌, ◌≢◌, inl, inr, arith, true, false, List,
  ◌⊎◌, ◌==◌, ==_iff, if◌then◌else◌, Bool-cases, drop, subst,
}
use iron_kernel.Fat12.{fat12_next_cluster}
use iron_kernel.Fat12.Table.{AreBytes}
use iron_kernel.Fat12.Store.{Geometry, Volume, Status, success, failure, lba_of}
use iron_kernel.Fat12.Files.{write_sectors, write_clusters, link_cluster, alloc}
use iron_kernel.Fat12.Sectors.{HoldsAt, HoldsAt-same, Status-cases, Wrote, write_sectors-Wrote}
use iron_kernel.Fat12.Written.{
  Fits, IsCluster, next, alloc-free, Before, first_cluster, after, Linked, link-Linked, Frame,
  Frame-trans, lba_of-eq, lba_apart,
}

module _ (v : Volume) (p : ℕ) (src : List ℕ) where
  abbrev pub after_one : Status × (List ℕ × Volume)
  after_one =
      write_sectors v.fs.sectors_per_cluster (lba_of v.fs (alloc v)) src
        (link_cluster p (alloc v) v)

-- What one round has done.
record Added (p c : ℕ) (src left : List ℕ) (v w : Volume) : Type 0 where
  frame : Frame p v w
  ends : next w c ≡ 0xFFF
  leads : p ≢ 0 → next w p ≡ c
  holds : HoldsAt w v.fs.sectors_per_cluster (lba_of v.fs c) src
  rest : left ≡ drop (v.fs.sectors_per_cluster * 512) src

link-Added :
    (v u w : Volume) (c p : ℕ) (src left : List ℕ)
    → Fits v.fs
    → IsCluster c
    → next v c ≡ 0
    → Linked p c v u
    → Wrote v.fs.sectors_per_cluster (lba_of v.fs c) src left u w
    → Added p c src left v w
link-Added v u w c p src left f i free l r =
    let entry : (d : ℕ) → next w d ≡ next u d =
      λ d. ap (λ t. fat12_next_cluster t d) r.only.same_fat in
    let disk : (m : ℕ) → u.disk m ≡ v.disk m = λ m. ap (λ (t : ℕ → ℕ → ℕ). t m) l.same_disk in
    let apart : (d : ℕ) → next v d ≢ 0 → d ≢ c = λ d used e. used (ap (next v) e ∙ free) in
    record {
      frame = record {
        bytes = subst AreBytes (sym r.only.same_fat) l.bytes;
        fs_kept = r.only.same_fs ∙ l.same_fs;
        readable_kept = r.only.same_readable ∙ l.same_readable;
        entries_kept = λ d j ne used. entry d ∙ l.others d j ne (apart d used);
        data_kept = λ d s j used h.
            r.apart (lba_of v.fs d + s) (lba_apart v.fs c d s f i j (apart d used) h)
            ∙ disk (lba_of v.fs d + s);
        low_kept = λ m h. let k = lba_of-eq v.fs c f i in r.apart m (inl (omega arith)) ∙ disk m;
      };
      ends = entry c ∙ l.ends;
      leads = λ ne. entry p ∙ l.leads ne;
      holds = r.holds;
      rest = r.rest;
    }

-- The chain of `n` clusters from `c` on holds some bytes.
abbrev pub Run : Volume → (n c : ℕ) → List ℕ → Type 0
Run v zero c src = Unit
Run v (suc n) c src =
    IsCluster c
    × HoldsAt v v.fs.sectors_per_cluster (lba_of v.fs c) src
    × Run v n (next v c) (drop (v.fs.sectors_per_cluster * 512) src)

clusters_step :
    (n first p : ℕ) (src : List ℕ) (v : Volume)
    → (write_clusters (suc n) first p src v).0 ≡ success
    → (alloc v ≢ 0)
      × ((after_one v p src).0 ≡ success)
      × (write_clusters (suc n) first p src v
          ≡ write_clusters n
              (if first == 0 then alloc v else first)
              (alloc v)
              (after_one v p src).1.0
              (after_one v p src).1.1)
unfolding write_clusters
clusters_step n first p src v h = elim (Bool-cases (alloc v == 0)) [
  | inl e ↦ absurd (full e)
  | inr e ↦ elim (Status-cases (after_one v p src).0) [
    | inl o ↦
        (λ z. cc (e, (==_iff (alloc v) 0).1 z), o, rw (e, write_clusters) (rw (o, write_clusters)))
    | inr o ↦ absurd (fails e o)
  ]
]
  where
    full : (alloc v == 0) ≡ true → ⊥
    full e = cc (rw (e, write_clusters) at h)

    fails : (alloc v == 0) ≡ false → (after_one v p src).0 ≡ failure → ⊥
    fails e o = ground arith

-- What the loop has done: the chain of its clusters, the cluster before led to it, and the first
-- cluster of the file.
pub record Chain (n first p : ℕ) (src : List ℕ) (v w : Volume) (result : ℕ) : Type 0 where
  pub frame : Frame p v w
  pub start : ℕ
  pub run : Run w n start src
  pub leads : p ≢ 0 → n ≢ 0 → next w p ≡ start
  pub first_is : n ≢ 0 → result ≡ (if first == 0 then start else first)

Frame-refl : (p : ℕ) (v : Volume) → AreBytes v.fat_buf → Frame p v v
Frame-refl p v b = record {
  bytes = b;
  fs_kept = refl;
  readable_kept = refl;
  entries_kept = λ d i ne used. refl;
  data_kept = λ d s i used l. refl;
  low_kept = λ m l. refl;
}

Run-at : (v : Volume) (n c d : ℕ) (src : List ℕ) → (n ≢ 0 → c ≡ d) → Run v n d src → Run v n c src
Run-at v zero c d src e r = tt
Run-at v (suc n) c d src e r = subst (λ k. Run v (suc n) k src) (sym (e (omega arith))) r

kept_of :
    {v : Volume} {p : ℕ} (w : Volume) (c : ℕ)
    → Before v p
    → (p ≢ 0 → next w p ≡ c)
    → c ≢ 0
    → (next w p ≢ 0) ⊎ (p ≡ 0)
kept_of w c first_cluster l ne = inr refl
kept_of w c (after i used) l ne = let k = i.0 in inl λ z. ne (sym (l (omega arith)) ∙ z)

leads_kept :
    {v : Volume} {p : ℕ} (u w : Volume) (c : ℕ)
    → Before v p
    → next v c ≡ 0
    → c ≢ 0
    → Frame c u w
    → (p ≢ 0 → next u p ≡ c)
    → p ≢ 0
    → next w p ≡ c
leads_kept u w c first_cluster free some f l ne = absurd (ne refl)
leads_kept {v} {p} u w c (after k e) free some f l ne =
    f.entries_kept p k (λ z. e (ap (next v) z ∙ free)) (λ z. some (sym (l ne) ∙ z)) ∙ l ne

join :
    (n first p c : ℕ) (src left : List ℕ) (v u w : Volume) (result : ℕ)
    → IsCluster c
    → next v c ≡ 0
    → Before v p
    → Added p c src left v u
    → Chain n (if first == 0 then c else first) c left u w result
    → (n ≡ 0 → result ≡ (if first == 0 then c else first))
    → Chain (suc n) first p src v w result
join n first p c src left v u w result i free b a r last =
    let used : next u c ≢ 0 = λ z. absurd (omega (arith, a.ends, z)) in
    let some : c ≢ 0 = let k = i.0 in omega arith in
    let frame = Frame-trans v u w free (kept_of u c b a.leads some) a.frame r.frame in
    let to_v : v.fs ≡ w.fs = sym frame.fs_kept in
    let to_u : v.fs ≡ u.fs = sym a.frame.fs_kept in
    let kept : (s : ℕ)
        → s < v.fs.sectors_per_cluster
        → w.disk (lba_of v.fs c + s) ≡ u.disk (lba_of v.fs c + s) =
      subst
        (λ g.
          (s : ℕ) → s < g.sectors_per_cluster → w.disk (lba_of g c + s) ≡ u.disk (lba_of g c + s))
        (sym to_u) (λ s h. r.frame.data_kept c s i used h) in
    let holds = HoldsAt-same u w v.fs.sectors_per_cluster (lba_of v.fs c) src kept a.holds in
    let rest : Run w n (next w c) left =
      Run-at w n (next w c) r.start left (λ ne. r.leads some ne) r.run in
    record {
      frame = frame;
      start = c;
      run = (
        i,
        subst (λ (g : Geometry). HoldsAt w g.sectors_per_cluster (lba_of g c) src) to_v holds,
        subst (λ (g : Geometry). Run w n (next w c) (drop (g.sectors_per_cluster * 512) src)) to_v
            (subst (λ l. Run w n (next w c) l) a.rest rest),
      );
      leads = λ ne _. leads_kept u w c b free some r.frame a.leads ne;
      first_is = λ _. elim (Bool-cases (n == 0)) [
        | inl z ↦ last ((==_iff n 0).0 z)
        | inr z ↦ r.first_is (nonempty z) ∙ nonzero first c some r.start
      ];
    }
  where
    nonempty : (n == 0) ≡ false → n ≢ 0
    nonempty z k = cc (z, (==_iff n 0).1 k)

    nonzero :
        (first c : ℕ)
        → c ≢ 0
        → (start : ℕ)
        → (if (if first == 0 then c else first) == 0
            then start
            else if first == 0
            then c
            else first)
          ≡ (if first == 0 then c else first)
    nonzero first c ne start = ground arith

pub write_clusters-Chain :
    (n first p : ℕ) (src : List ℕ) (v : Volume)
    → Fits v.fs
    → AreBytes v.fat_buf
    → Before v p
    → (write_clusters n first p src v).0 ≡ success
    → Chain n first p src v
        (write_clusters n first p src v).1.1
        (write_clusters n first p src v).1.0
unfolding write_clusters
write_clusters-Chain zero first p src v f b q h = record {
  frame = Frame-refl p v b;
  start = 0;
  run = tt;
  leads = λ _ ne. absurd (ne refl);
  first_is = λ ne. absurd (ne refl);
}
write_clusters-Chain (suc n) first p src v f b q h =
    let (ne, o, e) = clusters_step n first p src v h in
    let c = alloc v in
    let (i, free) = alloc-free v f ne in
    let one = after_one v p src in
    let u = one.1.1 in
    let l = link-Linked v c p b i free q in
    let wrote =
      write_sectors-Wrote v.fs.sectors_per_cluster (lba_of v.fs c) src (link_cluster p c v) o in
    let a = link-Added v (link_cluster p c v) u c p src one.1.0 f i free l wrote in
    let used : next u c ≢ 0 = λ z. absurd (omega (arith, a.ends, z)) in
    let first' = if first == 0 then c else first in
    let ih =
      write_clusters-Chain n first' c one.1.0 u (subst Fits (sym a.frame.fs_kept) f) a.frame.bytes
        (after i used) (sym (ap (λ (r : Status × (ℕ × Volume)). r.0) e) ∙ h) in
    subst (λ (r : Status × (ℕ × Volume)). Chain (suc n) first p src v r.1.1 r.1.0) (sym e)
      (join n first p c src one.1.0 v u (write_clusters n first' c one.1.0 u).1.1
        (write_clusters n first' c one.1.0 u).1.0 i free q a ih (none_more n first' c one.1.0 u))
  where
    none_more :
        (n first c : ℕ) (src : List ℕ) (u : Volume)
        → n ≡ 0
        → (write_clusters n first c src u).1.0 ≡ first
    none_more zero first c src u z = refl
    none_more (suc n) first c src u z = absurd (omega arith)
