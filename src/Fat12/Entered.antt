-- ===== src/Fat12/Entered.antt =====
-- The last step of `fat12_write_file` in src/drivers/fat12.c, in the root directory.
use iron_kernel.Prelude.{
  ℕ, zero, suc, ◌+◌, ◌*◌, ◌^◌, ◌≤◌, ◌<◌, ◌≡◌, refl, sym, ap, ap₂, ◌∙◌, ◌≢◌, inl, inr, arith, Bool,
  not, Option, none, some, Option-cases, if_false, if◌then◌else◌, subst,
}
use iron_kernel.Fat12.Store.{Geometry, Volume, Status, success, ata_write_sector}
use iron_kernel.Fat12.Search.{
  Wanted, free_slot, named, judge, hit, found, ended, more, scan, Place, at, nowhere, not_yet, slot,
  search_sectors, fat12_find_dir_entry,
}
use iron_kernel.Fat12.Files.{write_entry, set_contents, set_attr, set_name, attr_archive}
use iron_kernel.Fat12.Slots.{scan-found, search-at, free_slot-named}
use iron_kernel.Fat12.Entries.{
  IsName, judge-ext, judge-named, set_name-name, set_name-ext, set_contents-others, set_name-others,
  set_attr-others,
}
use iron_kernel.Fat12.Sound.{IsSound, Entered, put-Entered}

-- A search reads the sectors of the directory alone.
search-same :
    (w : Wanted) (u v : Volume) (n lba : ℕ)
    → ((m : ℕ) → lba ≤ m → m < lba + n → u.disk m ≡ v.disk m)
    → u.readable ≡ v.readable
    → search_sectors n lba w u ≡ search_sectors n lba w v
unfolding search_sectors
search-same w u v zero lba d r = refl
search-same w u v (suc n) lba d r =
    let go = λ (ok : Bool) (b : ℕ → ℕ) (rest : Place).
      if ok
      then elim (scan 16 0 w b) as (λ _. Place) [
        | found k ↦ at lba k
        | ended ↦ nowhere
        | more ↦ rest
      ]
      else nowhere in
    ap (λ (t : ℕ → Bool). go (t lba) (u.disk lba) (search_sectors n (lba + 1) w u)) r
    ∙ ap₂ (go (v.readable lba)) (d lba (omega arith) (omega arith))
        (search-same w u v n (lba + 1) (λ m l h. d m (omega arith) (omega arith)) r)

pub find-same :
    (w : Wanted) (u v : Volume)
    → u.fs ≡ v.fs
    → ((m : ℕ)
        → m < v.fs.first_root_sector + v.fs.root_dir_sectors
        → v.fs.first_root_sector ≤ m
        → u.disk m ≡ v.disk m)
    → u.readable ≡ v.readable
    → fat12_find_dir_entry 0 w u ≡ fat12_find_dir_entry 0 w v
unfolding fat12_find_dir_entry
find-same w u v f d r =
    ap (λ (g : Geometry). slot (search_sectors g.root_dir_sectors g.first_root_sector w u)) f
    ∙ ap slot (search-same w u v v.fs.root_dir_sectors v.fs.first_root_sector (λ m l h. d m h l) r)

slot-some : (p : Place) (s i : ℕ) → slot p ≡ some (s, i) → p ≡ at s i
slot-some (at t k) s i h = cc h
slot-some nowhere s i h = cc h
slot-some not_yet s i h = cc h

slot-none : (p : Place) (s i : ℕ) → slot p ≡ none → p ≢ at s i
slot-none (at t k) s i h e = cc h
slot-none nowhere s i h e = cc e
slot-none not_yet s i h e = cc e

pub found_in_root :
    (w : Wanted) (v : Volume)
    → IsSound v
    → (s i : ℕ) → fat12_find_dir_entry 0 w v ≡ some (s, i)
    → (v.fs.first_root_sector ≤ s) × (s < v.fs.first_root_sector + v.fs.root_dir_sectors)
unfolding fat12_find_dir_entry
found_in_root w v sound s i e =
    let (from, to, _, _) =
      search-at w v sound.reads v.fs.root_dir_sectors v.fs.first_root_sector s i
        (slot-some _ s i e) in
    (from, to)

module _ (name ext : ℕ → ℕ) (v w : Volume) (sound : IsSound v) (good_name : IsName name ext)
    (first len : ℕ) (small : (first < 2 ^ 16) × (len < 2 ^ 32)) where
  -- The entry of an existing file gets the new cluster and size.
  enter_old :
      (s i : ℕ)
      → fat12_find_dir_entry 0 (named name ext) v ≡ some (s, i)
      → write_entry 0 (some (s, i)) name ext first len v ≡ (success, w)
      → Entered name ext first len s i v w
  unfolding fat12_find_dir_entry write_entry
  enter_old s i found_at h =
      let (from, to, scanned, before) =
        search-at (named name ext) v sound.reads v.fs.root_dir_sectors v.fs.first_root_sector s i
          (slot-some _ s i found_at) in
      let (_, slot_in, taken, passed) = scan-found (named name ext) (v.disk s) 16 0 i scanned in
      let wrote : ata_write_sector s (set_contents i first len (v.disk s)) v ≡ (success, w) =
        sym (if_false _ _ _ (ap not (sound.reads s))) ∙ h in
      subst (Entered name ext first len s i v) (ap (λ (r : Status × Volume). r.1) wrote) (
        put-Entered name ext v sound s i first len (v.disk s)
          (ap (λ (r : Status × Volume). r.0) wrote) from to before (omega arith) passed
          (judge-ext (named name ext) (v.disk s) (set_contents i first len (v.disk s)) i
              (λ c l. set_contents-others i first len (v.disk s) (i * 32 + c) (inl (omega arith)))
            ∙ taken)
          small)

  -- The bytes of a new entry.
  abbrev pub fresh : (attr i : ℕ) → (ℕ → ℕ) → ℕ → ℕ
  fresh attr i b = set_attr i attr (set_name i name ext b)

  fresh-others : (attr i : ℕ) (b : ℕ → ℕ) (j : ℕ) → j < i * 32 → fresh attr i b j ≡ b j
  fresh-others attr i b j h =
      set_attr-others i attr (set_name i name ext b) j (inl (omega arith))
      ∙ set_name-others i name ext b j (inl h)

  fresh-hit :
      (attr i : ℕ) (b : ℕ → ℕ)
      → judge (named name ext) (set_contents i first len (fresh attr i b)) i ≡ hit
  fresh-hit attr i b =
      judge-named name ext (set_contents i first len (fresh attr i b)) i good_name
        (λ c h.
          set_contents-others i first len (fresh attr i b) (i * 32 + c) (inl (omega arith))
          ∙ (set_attr-others i attr (set_name i name ext b) (i * 32 + c) (inl (omega arith))
              ∙ set_name-name i c name ext b h))
        (λ c h.
          set_contents-others i first len (fresh attr i b) (i * 32 + 8 + c) (inl (omega arith))
          ∙ (set_attr-others i attr (set_name i name ext b) (i * 32 + 8 + c) (inl (omega arith))
              ∙ set_name-ext i c name ext b h))

  pub enter_at :
      (attr s i : ℕ)
      → fat12_find_dir_entry 0 (named name ext) v ≡ none
      → fat12_find_dir_entry 0 free_slot v ≡ some (s, i)
      → ata_write_sector s (set_contents i first len (fresh attr i (v.disk s))) v ≡ (success, w)
      → Entered name ext first len s i v w
  unfolding fat12_find_dir_entry
  enter_at attr s i missing free wrote =
      let at_slot = slot-some _ s i free in
      let (from, to, scanned, _) =
        search-at free_slot v sound.reads v.fs.root_dir_sectors v.fs.first_root_sector s i
          at_slot in
      let (_, slot_in, _, _) = scan-found free_slot (v.disk s) 16 0 i scanned in
      let (before, passed) =
        free_slot-named name ext v sound.reads v.fs.root_dir_sectors v.fs.first_root_sector s i
          at_slot (λ t k. slot-none _ t k missing) in
      subst (Entered name ext first len s i v) (ap (λ (r : Status × Volume). r.1) wrote) (
        put-Entered name ext v sound s i first len (fresh attr i (v.disk s))
          (ap (λ (r : Status × Volume). r.0) wrote) from to before (omega arith)
          (λ k l m.
            judge-ext (named name ext) (v.disk s) (fresh attr i (v.disk s)) k
              (λ c h. fresh-others attr i (v.disk s) (k * 32 + c) (omega arith))
            ∙ passed k l m)
          (fresh-hit attr i (v.disk s)) small)

  -- A new file gets the first free slot.
  enter_new :
      fat12_find_dir_entry 0 (named name ext) v ≡ none
      → write_entry 0 none name ext first len v ≡ (success, w)
      → (s : ℕ) × (i : ℕ) × Entered name ext first len s i v w
  unfolding write_entry
  enter_new missing h = elim (Option-cases (fat12_find_dir_entry 0 free_slot v)) [
    | inl e ↦ absurd (no_slot e)
    | inr ((s, i), e) ↦ (s, i, enter_at attr_archive s i missing e (written s i e))
  ]
    where
      no_slot : fat12_find_dir_entry 0 free_slot v ≡ none → ⊥
      no_slot e = cc (rw (e, write_entry) at h)

      written :
          (s i : ℕ)
          → fat12_find_dir_entry 0 free_slot v ≡ some (s, i)
          → ata_write_sector s (set_contents i first len (fresh attr_archive i (v.disk s))) v
            ≡ (success, w)
      written s i e = sym (if_false _ _ _ (ap not (sound.reads s))) ∙ (rw (e, write_entry) at h)

  pub enter :
      (old : Option (ℕ × ℕ))
      → fat12_find_dir_entry 0 (named name ext) v ≡ old
      → write_entry 0 old name ext first len v ≡ (success, w)
      → (s : ℕ) × (i : ℕ) × Entered name ext first len s i v w
  enter none e h = enter_new e h
  enter (some (s, i)) e h = (s, i, enter_old s i e h)
