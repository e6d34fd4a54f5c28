-- ===== src/Fat12/Sectors.antt =====
-- What the sector loop of `fat12_write_file` in src/drivers/fat12.c leaves on the drive.
use iron_kernel.Prelude.{
  ℕ, zero, suc, ◌+◌, ◌*◌, ◌≤◌, ◌<◌, ◌≡◌, refl, sym, ap, ◌∙◌, ◌≢◌, inl, inr, arith, List, ◌⊎◌,
  update, update_same, update_ne, Bool-cases, drop, drop-drop, subst,
}
use iron_kernel.Fat12.Store.{Volume, Status, success, failure, sector_of, ata_write_sector}
use iron_kernel.Fat12.Files.{write_sectors}

-- `n` sectors from `lba` on hold some bytes, filled up with zeroes.
abbrev pub HoldsAt : Volume → (n lba : ℕ) → List ℕ → Type 0
HoldsAt v zero lba src = Unit
HoldsAt v (suc n) lba src = (v.disk lba ≡ sector_of src) × HoldsAt v n (lba + 1) (drop 512 src)

pub HoldsAt-same :
    (v w : Volume) (n lba : ℕ) (src : List ℕ)
    → ((s : ℕ) → s < n → w.disk (lba + s) ≡ v.disk (lba + s))
    → HoldsAt v n lba src
    → HoldsAt w n lba src
HoldsAt-same v w zero lba src e h = tt
HoldsAt-same v w (suc n) lba src e h = (
  ap w.disk (omega arith) ∙ (e 0 (omega arith) ∙ (ap v.disk (omega arith) ∙ h.0)),
  HoldsAt-same v w n (lba + 1) (drop 512 src)
      (λ s l. ap w.disk (omega arith) ∙ (e (suc s) (omega arith) ∙ ap v.disk (omega arith))) h.1,
)

pub Status-cases : (s : Status) → (s ≡ success) ⊎ (s ≡ failure)
Status-cases success = inl refl
Status-cases failure = inr refl

-- The volume `w` is `v` but for the contents of some sectors.
pub record OnlyDisk (v w : Volume) : Type 0 where
  pub same_fs : w.fs ≡ v.fs
  pub same_fat : w.fat_buf ≡ v.fat_buf
  pub same_readable : w.readable ≡ v.readable

pub OnlyDisk-trans : {u v w : Volume} → OnlyDisk u v → OnlyDisk v w → OnlyDisk u w
OnlyDisk-trans a b = record {
  same_fs = b.same_fs ∙ a.same_fs;
  same_fat = b.same_fat ∙ a.same_fat;
  same_readable = b.same_readable ∙ a.same_readable;
}

pub ata_write_sector-OnlyDisk :
    (lba : ℕ) (buf : ℕ → ℕ) (v : Volume) → OnlyDisk v (ata_write_sector lba buf v).1
unfolding ata_write_sector
ata_write_sector-OnlyDisk lba buf v = elim (Bool-cases (v.writable lba)) [
  | inl e ↦ rw e (record { same_fs = refl; same_fat = refl; same_readable = refl })
  | inr e ↦ rw e (record { same_fs = refl; same_fat = refl; same_readable = refl })
]

pub ata_write_sector-disk :
    (lba : ℕ) (buf : ℕ → ℕ) (v : Volume)
    → (ata_write_sector lba buf v).0 ≡ success
    → (ata_write_sector lba buf v).1.disk ≡ update v.disk lba buf
unfolding ata_write_sector
ata_write_sector-disk lba buf v h = elim (Bool-cases (v.writable lba)) [
  | inl e ↦ rw e
  | inr e ↦ cc (rw e at h)
]

pub ata_write_sector-others :
    (lba : ℕ) (buf : ℕ → ℕ) (v : Volume) (m : ℕ)
    → m ≢ lba
    → (ata_write_sector lba buf v).1.disk m ≡ v.disk m
unfolding ata_write_sector
ata_write_sector-others lba buf v m ne = elim (Bool-cases (v.writable lba)) [
  | inl e ↦ rw e (update_ne v.disk lba m buf ne)
  | inr e ↦ rw e
]

-- What `write_sectors` has done when it succeeds.
pub record Wrote (n lba : ℕ) (src left : List ℕ) (v w : Volume) : Type 0 where
  pub holds : HoldsAt w n lba src
  pub rest : left ≡ drop (n * 512) src
  pub only : OnlyDisk v w
  pub apart : (m : ℕ) → (m < lba) ⊎ (lba + n ≤ m) → w.disk m ≡ v.disk m

write_step :
    (n lba : ℕ) (src : List ℕ) (v : Volume)
    → (write_sectors (suc n) lba src v).0 ≡ success
    → ((ata_write_sector lba (sector_of src) v).0 ≡ success)
      × (write_sectors (suc n) lba src v
          ≡ write_sectors n (lba + 1) (drop 512 src) (ata_write_sector lba (sector_of src) v).1)
unfolding write_sectors
write_step n lba src v h = elim (Status-cases (ata_write_sector lba (sector_of src) v).0) [
  | inl e ↦ (e, rw (e, write_sectors))
  | inr e ↦ absurd (fails e)
]
  where
    fails : (ata_write_sector lba (sector_of src) v).0 ≡ failure → ⊥
    fails e = ground arith

pub write_sectors-Wrote :
    (n lba : ℕ) (src : List ℕ) (v : Volume)
    → (write_sectors n lba src v).0 ≡ success
    → Wrote n lba src (write_sectors n lba src v).1.0 v (write_sectors n lba src v).1.1
unfolding write_sectors
write_sectors-Wrote zero lba src v h = record {
  holds = tt;
  rest = refl;
  only = record { same_fs = refl; same_fat = refl; same_readable = refl };
  apart = λ m k. refl;
}
write_sectors-Wrote (suc n) lba src v h =
    let (put, e) = write_step n lba src v h in
    let v1 = (ata_write_sector lba (sector_of src) v).1 in
    let ih = write_sectors-Wrote n (lba + 1) (drop 512 src) v1 (sym (ap (λ r. r.0) e) ∙ h) in
    subst (λ r. Wrote (suc n) lba src r.1.0 v r.1.1) (sym e)
      (record {
        holds = (
          ih.apart lba (inl (omega arith))
              ∙ (ap (λ (d : ℕ → ℕ → ℕ). d lba) (ata_write_sector-disk lba (sector_of src) v put)
                  ∙ update_same v.disk lba (sector_of src)),
          ih.holds,
        );
        rest = ih.rest ∙ (drop-drop (n * 512) 512 src ∙ ap (λ k. drop k src) (omega arith));
        only = OnlyDisk-trans (ata_write_sector-OnlyDisk lba (sector_of src) v) ih.only;
        apart = λ m k. elim k [
          | inl l ↦
              ih.apart m (inl (omega arith))
              ∙ ata_write_sector-others lba (sector_of src) v m (omega arith)
          | inr g ↦
              ih.apart m (inr (omega arith))
              ∙ ata_write_sector-others lba (sector_of src) v m (omega arith)
        ];
      })
