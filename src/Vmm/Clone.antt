-- ===== src/Vmm/Clone.antt =====
-- `vmm_map_page` and `vmm_clone_user_pt` of src/kernel/vmm.c.
use iron_kernel.Prelude.{
  ℕ, zero, suc, ◌+◌, ◌*◌, ◌%◌, ◌^◌, Bool, true, false, ◌&&◌, not, ◌==◌, if◌then◌else◌,
}
use iron_kernel.Pmm.{pmm_alloc_frame}
use iron_kernel.Vmm.{
  Vmm, pml4_idx, pdpt_idx, pd_idx, pt_idx, phys_mask, is_present, is_user, is_huge, leaf, set_entry,
  fill, attach, ensure, split, vmm_map_page_in, vmm_create_user_pt, vmm_free_user_pt, release,
}

-- In `vmm_map_page` a page directory without a table gets one before the test for a huge page.
unfoldable pub ensure_split : (pd i : ℕ) → Vmm → Bool × Vmm
ensure_split pd i s =
    let (ok, s1) = ensure pd i s in
    let parted = attach pd i (split (s1.frames pd i)) s1 in
    if not ok then (false, s1) else if is_huge (s1.frames pd i) then parted else (true, s1)

unfoldable pub map_pd : (pd virt phys flags : ℕ) → Vmm → Bool × Vmm
map_pd pd virt phys flags s =
    let (ok, s1) = ensure_split pd (pd_idx virt) s in
    let pt = phys_mask (s1.frames pd (pd_idx virt)) in
    if ok then (true, set_entry pt (pt_idx virt) (leaf phys flags) s1) else (false, s1)

unfoldable pub map_pdpt : (pdpt virt phys flags : ℕ) → Vmm → Bool × Vmm
map_pdpt pdpt virt phys flags s =
    let (ok, s1) = ensure pdpt (pdpt_idx virt) s in
    let e = s1.frames pdpt (pdpt_idx virt) in
    let below = map_pd (phys_mask e) virt phys flags s1 in
    if not ok then (false, s1) else if is_huge e then (true, s1) else below

-- `cr3` is what CR3 holds.
unfoldable pub vmm_map_page : (cr3 virt phys flags : ℕ) → Vmm → Bool × Vmm
vmm_map_page cr3 virt phys flags s =
    let pml4 = phys_mask cr3 in
    let (ok, s1) = ensure pml4 (pml4_idx virt) s in
    let below = map_pdpt (phys_mask (s1.frames pml4 (pml4_idx virt))) virt phys flags s1 in
    if ok then below else (false, s1)

-- A page of the parent, at entry `j` of the page table at entry `i`: a new frame with its content,
-- mapped for the child; when a frame is missing the child's tables are released.
unfoldable pub clone_page : (child i j e : ℕ) → Vmm → Bool × Vmm
clone_page child i j e s =
    let (dst, pmm) = pmm_alloc_frame s.pmm in
    let s1 = record s { pmm = pmm } in
    let copied = fill dst (s.frames (phys_mask e)) s1 in
    let (ok, s2) = vmm_map_page_in child (i * 2 ^ 21 + j * 2 ^ 12) dst (e % 4096) copied in
    if dst == 0
    then (false, vmm_free_user_pt child s1)
    else if ok
    then (true, s2)
    else (false, vmm_free_user_pt child (release dst s2))

-- The `n` entries of a page table from `j` on.
unfoldable pub clone_pt : (child i pt n j : ℕ) → Vmm → Bool × Vmm
clone_pt child i pt zero j s = (true, s)
clone_pt child i pt (suc n) j s =
    let e = s.frames pt j in
    let page = clone_page child i j e s in
    let (ok, s1) = if is_present e && is_user e then page else (true, s) in
    let rest = clone_pt child i pt n (j + 1) s1 in if ok then rest else (false, s1)

-- The `n` entries of the parent's page directory from `i` on.
unfoldable pub clone_pd : (child pd n i : ℕ) → Vmm → Bool × Vmm
clone_pd child pd zero i s = (true, s)
clone_pd child pd (suc n) i s =
    let e = s.frames pd i in
    let pages = clone_pt child i (phys_mask e) 512 0 s in
    let (ok, s1) =
      if not (is_present e) then (true, s) else if is_huge e then (true, s) else pages in
    let rest = clone_pd child pd n (i + 1) s1 in if ok then rest else (false, s1)

-- The tables of the child, or 0.
unfoldable pub vmm_clone_user_pt : (pd_table pdpt_table : ℕ → ℕ) → (parent_cr3 : ℕ) → Vmm → ℕ × Vmm
vmm_clone_user_pt pd_table pdpt_table parent_cr3 s =
    let (child, s1) = vmm_create_user_pt pd_table pdpt_table s in
    let e4 = s1.frames (phys_mask parent_cr3) 0 in
    let e3 = s1.frames (phys_mask e4) 0 in
    let (ok, s2) = clone_pd child (phys_mask e3) 512 0 s1 in
    if child == 0
    then (0, s1)
    else if not (is_present e4)
    then (child, s1)
    else if not (is_present e3)
    then (child, s1)
    else if ok
    then (child, s2)
    else (0, s2)
