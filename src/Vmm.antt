-- ===== src/Vmm.antt =====
-- The page tables: src/kernel/vmm.c and vmm.h. Memory is a row of frames of 512 words each, named by
-- their addresses; every access of vmm.c is to a word of a frame. The flush of the TLB is not modelled.
pub mod Walk
pub mod Mapped
pub mod Clone
pub mod Create
pub mod MapPage
pub mod HeapInit
mod Tests
use iron_kernel.Prelude.{
  ℕ, zero, suc, ◌+◌, ◌-◌, ◌*◌, ◌/◌, ◌%◌, ◌^◌, Bool, true, false, ◌&&◌, not, ◌==◌, if◌then◌else◌,
  update,
}
use iron_kernel.Pmm.{Pmm, pmm_alloc_frame, pmm_free_frame}

abbrev pub page_size : ℕ
page_size = 4096

-- The frames of the memory, and the frame allocator.
pub record Vmm : Type 0 where
  pub frames : ℕ → ℕ → ℕ
  pub pmm : Pmm

abbrev pub pml4_idx : ℕ → ℕ
pml4_idx v = v / 2 ^ 39 % 512

abbrev pub pdpt_idx : ℕ → ℕ
pdpt_idx v = v / 2 ^ 30 % 512

abbrev pub pd_idx : ℕ → ℕ
pd_idx v = v / 2 ^ 21 % 512

abbrev pub pt_idx : ℕ → ℕ
pt_idx v = v / 2 ^ 12 % 512

-- `e & PHYS_MASK`
abbrev pub phys_mask : ℕ → ℕ
phys_mask e = e / 4096 * 4096

abbrev pub is_present : ℕ → Bool
is_present e = e % 2 == 1

abbrev pub is_user : ℕ → Bool
is_user e = e / 4 % 2 == 1

abbrev pub is_huge : ℕ → Bool
is_huge e = e / 128 % 2 == 1

-- `e & ~PAGE_USER`
abbrev pub no_user : ℕ → ℕ
no_user e = e - e / 4 % 2 * 4

-- `p | PAGE_PRESENT | PAGE_RW | PAGE_USER`
abbrev pub link : ℕ → ℕ
link p = p / 8 * 8 + 7

-- `(phys & PHYS_MASK) | (flags & 0xFFF) | PAGE_PRESENT`
abbrev pub leaf : (phys flags : ℕ) → ℕ
leaf phys flags = phys_mask phys + (flags % 4096 / 2 * 2 + 1)

-- `t[i] = e;`
unfoldable pub set_entry : (t i e : ℕ) → Vmm → Vmm
set_entry t i e s = record s { frames = update s.frames t (update (s.frames t) i e) }

-- `for (int i = 0; i < 512; i++) t[i] = content[i];`
unfoldable pub fill : (t : ℕ) → (content : ℕ → ℕ) → Vmm → Vmm
fill t content s = record s { frames = update s.frames t content }

abbrev pub blank : ℕ → ℕ
blank i = 0

-- The frame `p` with a content, linked at entry `i` of the table `t`.
unfoldable pub place : (p : ℕ) → (pmm : Pmm) → (t i : ℕ) → (content : ℕ → ℕ) → Vmm → Vmm
place p pmm t i content s = set_entry t i (link p) (fill p content (record s { pmm = pmm }))

-- A new frame at that entry; false when no frame is left.
unfoldable pub attach : (t i : ℕ) → (content : ℕ → ℕ) → Vmm → Bool × Vmm
attach t i content s =
    let (p, pmm) = pmm_alloc_frame s.pmm in
    if p == 0 then (false, record s { pmm = pmm }) else (true, place p pmm t i content s)

-- The table below entry `i` of the table `t` exists afterwards.
unfoldable pub ensure : (t i : ℕ) → Vmm → Bool × Vmm
ensure t i s =
    let made = attach t i blank s in if is_present (s.frames t i) then (true, s) else made

-- The 4 KB entries that cover what a huge entry covers.
abbrev pub split : (huge_entry : ℕ) → ℕ → ℕ
split huge_entry i =
    huge_entry / 2 ^ 21 * 2 ^ 21 + i * page_size + (huge_entry % 4096 - huge_entry / 128 % 2 * 128)

-- The page table below entry `i` of the page directory, in place of a huge page if there is one.
unfoldable pub ensure_pt : (pd i : ℕ) → Vmm → Bool × Vmm
ensure_pt pd i s =
    let parted = attach pd i (split (s.frames pd i)) s in
    let made = ensure pd i s in if is_huge (s.frames pd i) then parted else made

-- The last part of `vmm_map_page_in`, in the page directory `pd`.
unfoldable pub map_in_pd : (pd virt phys flags : ℕ) → Vmm → Bool × Vmm
map_in_pd pd virt phys flags s =
    let (ok, s1) = ensure_pt pd (pd_idx virt) s in
    let pt = phys_mask (s1.frames pd (pd_idx virt)) in
    if ok then (true, set_entry pt (pt_idx virt) (leaf phys flags) s1) else (false, s1)

unfoldable pub map_in_pdpt : (pdpt virt phys flags : ℕ) → Vmm → Bool × Vmm
map_in_pdpt pdpt virt phys flags s =
    let (ok, s1) = ensure pdpt (pdpt_idx virt) s in
    let e = s1.frames pdpt (pdpt_idx virt) in
    let below = map_in_pd (phys_mask e) virt phys flags s1 in
    if not ok then (false, s1) else if is_huge e then (true, s1) else below

unfoldable pub vmm_map_page_in : (cr3 virt phys flags : ℕ) → Vmm → Bool × Vmm
vmm_map_page_in cr3 virt phys flags s =
    let pml4 = phys_mask cr3 in
    let (ok, s1) = ensure pml4 (pml4_idx virt) s in
    let below = map_in_pdpt (phys_mask (s1.frames pml4 (pml4_idx virt))) virt phys flags s1 in
    if ok then below else (false, s1)

-- The walk on the table that CR3 names; 0 where nothing is mapped.
unfoldable pub vmm_get_physical : (cr3 virt : ℕ) → Vmm → ℕ
vmm_get_physical cr3 virt s =
    let e4 = s.frames (phys_mask cr3) (pml4_idx virt) in
    let e3 = s.frames (phys_mask e4) (pdpt_idx virt) in
    let e2 = s.frames (phys_mask e3) (pd_idx virt) in
    let e1 = s.frames (phys_mask e2) (pt_idx virt) in
    if not (is_present e4)
    then 0
    else if not (is_present e3)
    then 0
    else if is_huge e3
    then e3 / 2 ^ 30 * 2 ^ 30 + virt % 2 ^ 30
    else if not (is_present e2)
    then 0
    else if is_huge e2
    then e2 / 2 ^ 21 * 2 ^ 21 + virt % 2 ^ 21
    else if not (is_present e1)
    then 0
    else phys_mask e1 + virt % 4096

-- The tables of a new process, with the kernel's `pd_table` and `pdpt_table`; 0 without a frame.
unfoldable pub vmm_create_user_pt : (pd_table pdpt_table : ℕ → ℕ) → Vmm → ℕ × Vmm
vmm_create_user_pt pd_table pdpt_table s =
    let (pml4, pmm1) = pmm_alloc_frame s.pmm in
    let s1 = fill pml4 blank (record s { pmm = pmm1 }) in
    let (pdpt, pmm2) = pmm_alloc_frame pmm1 in
    let s2 = fill pdpt blank (record s1 { pmm = pmm2 }) in
    let (pd, pmm3) = pmm_alloc_frame pmm2 in
    let s3 = fill pd (λ i. no_user (pd_table i)) (record s2 { pmm = pmm3 }) in
    let s4 =
      set_entry pdpt 3 (no_user (pdpt_table 3))
        (set_entry pdpt 0 (link pd) (set_entry pml4 0 (link pdpt) s3)) in
    if pml4 == 0
    then (0, record s { pmm = pmm1 })
    else if pdpt == 0
    then (0, record s1 { pmm = pmm_free_frame pml4 pmm2 })
    else if pd == 0
    then (0, record s2 { pmm = pmm_free_frame pml4 (pmm_free_frame pdpt pmm3) })
    else (pml4, s4)

abbrev pub release : ℕ → Vmm → Vmm
release addr s = record s { pmm = pmm_free_frame addr s.pmm }

-- The `n` entries of a page table from `j` on.
unfoldable pub free_pt : (pt n j : ℕ) → Vmm → Vmm
free_pt pt zero j s = s
free_pt pt (suc n) j s =
    let e = s.frames pt j in
    free_pt pt n (j + 1) (if is_present e && is_user e then release (phys_mask e) s else s)

-- The `n` entries of a page directory from `i` on.
unfoldable pub free_pd : (pd n i : ℕ) → Vmm → Vmm
free_pd pd zero i s = s
free_pd pd (suc n) i s =
    let e = s.frames pd i in
    let freed = release (phys_mask e) (free_pt (phys_mask e) 512 0 s) in
    free_pd pd n (i + 1) (
      if not (is_present e)
      then s
      else if is_huge e
      then s
      else if not (is_user e)
      then s
      else freed)

unfoldable pub vmm_free_user_pt : (cr3 : ℕ) → Vmm → Vmm
vmm_free_user_pt cr3 s =
    let e4 = s.frames (phys_mask cr3) 0 in
    let e3 = s.frames (phys_mask e4) 0 in
    let tables = release (phys_mask e3) (free_pd (phys_mask e3) 512 0 s) in
    let s1 = if is_present e3 then tables else s in
    let s2 = if is_present e4 then release (phys_mask e4) s1 else s in release (phys_mask cr3) s2
