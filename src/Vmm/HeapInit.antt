-- ===== src/Vmm/HeapInit.antt =====
-- `heap_init` of src/kernel/heap.c, over the frame allocator and the page tables.
use iron_kernel.Prelude.{
  ℕ, zero, suc, ◌+◌, ◌-◌, Bool, true, false, Option, none, some, ◌==◌, if◌then◌else◌, u32,
}
use iron_kernel.Pmm.{pmm_alloc_frame}
use iron_kernel.Heap.{Block, Heap, heap_start, heap_initial_size, heap_init_block}
use iron_kernel.Vmm.{Vmm, page_size}
use iron_kernel.Vmm.Clone.{vmm_map_page}

-- The loop that maps a new frame for each of `n` pages from `virt` on; false is the panic. The frame
-- is kept in a `uint32_t`.
unfoldable pub map_heap : (cr3 n virt : ℕ) → Vmm → Bool × Vmm
map_heap cr3 zero virt s = (true, s)
map_heap cr3 (suc n) virt s =
    let (phys, pmm) = pmm_alloc_frame s.pmm in
    let s1 = record s { pmm = pmm } in
    let (ok, s2) = vmm_map_page cr3 virt (u32 phys) 3 s1 in
    let rest = map_heap cr3 n (virt + page_size) s2 in
    if u32 phys == 0 then (false, s1) else if ok then rest else (false, s2)

-- `cr3` is what CR3 holds, and `mem` the memory in which the first header is written; `none` is the
-- panic. The outcome of mapping the guard pages is not looked at.
unfoldable pub heap_init : (cr3 : ℕ) → (mem : ℕ → Block) → Vmm → Option (Heap × Vmm)
heap_init cr3 mem s =
    let (ok, s1) = map_heap cr3 256 heap_start s in
    let below = (vmm_map_page cr3 (heap_start - page_size) 0 0 s1).1 in
    let above = (vmm_map_page cr3 (heap_start + heap_initial_size) 0 0 below).1 in
    if ok then some (heap_init_block mem, above) else none
