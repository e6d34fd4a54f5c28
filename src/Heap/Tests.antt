-- ===== src/Heap/Tests.antt =====
-- Runs of the heap model, and the theorems at a heap of 1 MB.
use iron_kernel.Prelude.{ℕ, ◌+◌, ◌≡◌, refl, ◌⊎◌, false, [], ◌∷◌, List, arith, All}
use iron_kernel.Heap.{
  Block, Heap, ok, heap_start, heap_init_block, leak_add, carve, give, kmalloc, kmalloc_loop, kfree,
  heap_free_bytes, free_bytes_loop,
}
use iron_kernel.Heap.Layout.{Cell, used, vacant, merge_cells, IsHeap}
use iron_kernel.Heap.FirstFit.{fits, Allocated, kmalloc_lem, heap_init_block-IsHeap}
use iron_kernel.Heap.Free.{pointer, kfree_lem}

abbrev blank : ℕ → Block
blank a = record { magic = 0; size = 0; is_free = false }

abbrev fresh : Heap
fresh = heap_init_block blank

abbrev whole : List Cell
whole = vacant 0xffff4 ∷ []

fresh-IsHeap : IsHeap fresh whole
fresh-IsHeap = heap_init_block-IsHeap blank

-- the heap after a request of 10 bytes, which are rounded up to 12
abbrev taken : Heap
taken = (give heap_start 12 7 fresh).1

took : kmalloc 10 7 fresh ≡ ok (heap_start + 12, taken)
unfolding kmalloc kmalloc_loop heap_init_block give
took = refl

-- The allocation and its release, and the free bytes between them.
free_between : heap_free_bytes taken ≡ ok 0xfffdc
unfolding heap_free_bytes free_bytes_loop heap_init_block give carve leak_add
free_between = refl

kmalloc_lem_example :
    (r : ℕ × Heap) × (kmalloc 10 7 fresh ≡ ok r)
    × ((All (λ c. fits 12 c ≡ false) whole × (r ≡ (0, fresh))) ⊎ Allocated 12 7 whole fresh r)
kmalloc_lem_example = kmalloc_lem 10 7 fresh whole fresh-IsHeap (omega arith)

taken-IsHeap : IsHeap taken (used 12 ∷ vacant 0xfffdc ∷ [])
unfolding heap_init_block give carve leak_add
taken-IsHeap = record { layout = (refl, (refl, refl)); small = omega arith }

kfree_lem_example :
    (h' : Heap) × (kfree (pointer []) taken ≡ ok h')
    × IsHeap h' (merge_cells 12 (vacant 0xfffdc ∷ []))
kfree_lem_example = kfree_lem taken [] 12 (vacant 0xfffdc ∷ []) taken-IsHeap
