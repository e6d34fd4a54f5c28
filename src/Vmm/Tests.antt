-- ===== src/Vmm/Tests.antt =====
-- Runs of the page tables, and the theorem at a PML4 without entries.
use iron_kernel.Prelude.{ℕ, ◌+◌, ◌*◌, ◌%◌, ◌≡◌, refl, true, arith, ◌==◌, if◌then◌else◌}
use iron_kernel.Pmm.{Pmm, pmm_set_frame, find_bit, find_frame, grant, pmm_alloc_frame}
use iron_kernel.Pmm.Alloc.{IsPmm}
use iron_kernel.Vmm.{
  Vmm, phys_mask, set_entry, fill, place, attach, ensure, ensure_pt, map_in_pd, map_in_pdpt,
  vmm_map_page_in, vmm_get_physical, vmm_create_user_pt,
}
use iron_kernel.Vmm.Mapped.{vmm_get_physical-vmm_map_page_in}
use iron_kernel.Vmm.Create.{mapped_for_process}
use iron_kernel.Vmm.Clone.{vmm_map_page, map_pdpt, map_pd, ensure_split}
use iron_kernel.Vmm.MapPage.{vmm_map_page-vmm_map_page_in}

-- The frames 0 and 1 are in use, and frame 1 is a PML4 without entries.
abbrev pmm : Pmm
pmm = record { bitmap = λ i. if i == 0 then 3 else 0; total_frames = 1000; free_frame_count = 998 }

abbrev empty : Vmm
empty = record { frames = λ x i. 0; pmm = pmm }

pmm-IsPmm : IsPmm pmm
pmm-IsPmm i = ground arith

mapped : (vmm_map_page_in 4096 0x40001234 0x9000 6 empty).0 ≡ true
unfolding vmm_map_page_in map_in_pdpt map_in_pd ensure ensure_pt attach place set_entry fill
    pmm_alloc_frame find_frame find_bit grant pmm_set_frame
mapped = refl

vmm_get_physical-vmm_map_page_in_example :
    vmm_get_physical 4096 0x40001234 (vmm_map_page_in 4096 0x40001234 0x9000 6 empty).1
    ≡ phys_mask 0x9000 + 0x40001234 % 4096
vmm_get_physical-vmm_map_page_in_example =
    vmm_get_physical-vmm_map_page_in 4096 0x40001234 0x9000 6 empty pmm-IsPmm (omega arith, refl)
      (λ p. absurd (cc p)) mapped

-- The kernel's page directory has huge pages only.
abbrev pd_table : ℕ → ℕ
pd_table i = i * 0x200000 + 0x83

abbrev process : ℕ × Vmm
process = vmm_create_user_pt pd_table (λ i. 0) empty

process_made : process.0 ≡ 0x2000
unfolding vmm_create_user_pt pmm_alloc_frame find_frame find_bit grant pmm_set_frame set_entry fill
process_made = refl

process_mapped : (vmm_map_page_in process.0 0x400123 0x9000 6 process.1).0 ≡ true
unfolding vmm_create_user_pt vmm_map_page_in map_in_pdpt map_in_pd ensure ensure_pt attach place
    set_entry fill pmm_alloc_frame find_frame find_bit grant pmm_set_frame
process_mapped = refl

mapped_for_process_example :
    vmm_get_physical process.0 0x400123 (vmm_map_page_in process.0 0x400123 0x9000 6 process.1).1
    ≡ phys_mask 0x9000 + 0x400123 % 4096
mapped_for_process_example =
    mapped_for_process pd_table (λ i. 0) empty process 0x400123 0x9000 6 pmm-IsPmm (omega arith)
      (λ h. absurd (cc h)) refl (λ z. let e = process_made in omega arith) process_mapped

vmm_map_page-vmm_map_page_in_example :
    vmm_map_page 4096 0x40001234 0x9000 6 empty ≡ vmm_map_page_in 4096 0x40001234 0x9000 6 empty
vmm_map_page-vmm_map_page_in_example =
    vmm_map_page-vmm_map_page_in 4096 0x40001234 0x9000 6 empty pmm-IsPmm (omega arith, refl)
      (λ p. absurd (cc p))

-- The mapping of the guard page below the heap succeeds, though its flags are 0.
guard_made : (vmm_map_page 4096 0xFFF008 0 0 empty).0 ≡ true
unfolding vmm_map_page map_pdpt map_pd ensure_split ensure attach place set_entry fill
    pmm_alloc_frame find_frame find_bit grant pmm_set_frame
guard_made = refl
