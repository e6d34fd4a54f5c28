-- ===== src/Sched/Kernel.antt =====
-- The scheduler of src/kernel/sched.c over the heap of src/kernel/heap.c and the page tables of
-- src/kernel/vmm.c: what the record of memory calls is in the kernel.
use iron_kernel.Prelude.{ℕ, ◌≡◌, List, [], ◌∷◌, ◌++◌}
use iron_kernel.Heap
use iron_kernel.Heap.{Heap, Result, ok, panic, out_of_fuel}
use iron_kernel.Heap.Layout.{Cell, used, IsHeap}
use iron_kernel.Heap.Free.{pointer}
use iron_kernel.Vmm.{Vmm, vmm_free_user_pt}
use iron_kernel.Vmm.Clone.{vmm_clone_user_pt}
use iron_kernel.Sched.{Memory, Sched, Entries, InterruptFrame}
use iron_kernel.Sched.Create.{task_spawn, sched_fork}

-- The heap and the page tables, or the halt of the kernel.
abbrev pub KernelMemory : Type 0
KernelMemory = Result (Heap × Vmm)

unfoldable pub heap_kmalloc : (caller size : ℕ) → KernelMemory → ℕ × KernelMemory
heap_kmalloc caller size (ok (h, v)) = elim (Heap.kmalloc size caller h) [
  | ok (p, h') ↦ (p, ok (h', v))
  | panic ↦ (0, panic)
  | out_of_fuel ↦ (0, out_of_fuel)
]
heap_kmalloc caller size panic = (0, panic)
heap_kmalloc caller size out_of_fuel = (0, out_of_fuel)

unfoldable pub heap_kfree : (ptr : ℕ) → KernelMemory → KernelMemory
heap_kfree ptr (ok (h, v)) = elim (Heap.kfree ptr h) [
  | ok h' ↦ ok (h', v)
  | panic ↦ panic
  | out_of_fuel ↦ out_of_fuel
]
heap_kfree ptr panic = panic
heap_kfree ptr out_of_fuel = out_of_fuel

unfoldable pub tables_clone :
    (pd_table pdpt_table : ℕ → ℕ) → (cr3 : ℕ) → KernelMemory → ℕ × KernelMemory
tables_clone pd_table pdpt_table cr3 (ok (h, v)) =
    let (child, v') = vmm_clone_user_pt pd_table pdpt_table cr3 v in (child, ok (h, v'))
tables_clone pd_table pdpt_table cr3 panic = (0, panic)
tables_clone pd_table pdpt_table cr3 out_of_fuel = (0, out_of_fuel)

unfoldable pub tables_free : (cr3 : ℕ) → KernelMemory → KernelMemory
tables_free cr3 (ok (h, v)) = ok (h, vmm_free_user_pt cr3 v)
tables_free cr3 panic = panic
tables_free cr3 out_of_fuel = out_of_fuel

-- The memory calls of the scheduler in the kernel. `caller` is the address that the leak table keeps.
abbrev pub kernel_memory :
    (caller kernel_cr3 : ℕ) → (pd_table pdpt_table : ℕ → ℕ) → Memory KernelMemory
kernel_memory caller kernel_cr3 pd_table pdpt_table = record {
  kmalloc = heap_kmalloc caller;
  kfree = heap_kfree;
  clone_user_pt = tables_clone pd_table pdpt_table;
  free_user_pt = tables_free;
  kernel_cr3 = kernel_cr3;
}

-- The kernel has not halted, and its heap is a row of cells.
pub record IsAlive (m : KernelMemory) : Type 0 where
  pub heap : Heap
  pub tables : Vmm
  pub row : List Cell
  pub running : m ≡ ok (heap, tables)
  pub valid : IsHeap heap row

-- What a request for memory gives: null and nothing changed, or the pointer of a cell in use.
data Answer (m : KernelMemory) : ℕ × KernelMemory → Type 0 where
  refused : Answer m (0, m)
  granted :
      (h : Heap) (v : Vmm) (xs : List Cell) (k : ℕ) (ys : List Cell)
      → IsHeap h (xs ++ (used k ∷ ys))
      → Answer m (pointer xs, ok (h, v))

module _ (caller kernel_cr3 : ℕ) (pd pdpt : ℕ → ℕ) (e : Entries) where
  abbrev calls : Memory KernelMemory
  calls = kernel_memory caller kernel_cr3 pd pdpt

-- The requests of the scheduler, in any order.
pub data Request : Type 0 where
  spawn : (name : List ℕ) → (func : ℕ) → Request
  fork : InterruptFrame → Request

module _ (caller kernel_cr3 : ℕ) (pd pdpt : ℕ → ℕ) (e : Entries) where
  pub serve : Request → Sched KernelMemory → Sched KernelMemory
  serve (spawn name func) s = (task_spawn (kernel_memory caller kernel_cr3 pd pdpt) e name func s).1
  serve (fork frame) s = (sched_fork (kernel_memory caller kernel_cr3 pd pdpt) e frame s).1

  pub serve_all : List Request → Sched KernelMemory → Sched KernelMemory
  serve_all [] s = s
  serve_all (r ∷ rs) s = serve_all rs (serve r s)
