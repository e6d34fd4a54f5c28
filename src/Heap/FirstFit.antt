-- ===== src/Heap/FirstFit.antt =====
-- What `kmalloc` of src/kernel/heap.c promises: first fit, on the row of cells that the heap is.
use iron_kernel.Prelude.{
  ℕ, suc, ◌+◌, ◌-◌, ◌≡◌, refl, ◌∙◌, ap, ◌⊎◌, ◌≢◌, Bool, true, false, ◌&&◌, inl, inr, Option, none,
  some, List, [], ◌∷◌, ◌++◌, arith, leb, Bool-cases, ==_ne, All,
}
use mathlib.Core.Option
use iron_kernel.Heap.{
  Block, heap_init_block, heap_initial_size, Heap, ok, heap_start, header_size, align, leak_add,
  kmalloc,
}
use iron_kernel.Heap.Layout.{Cell, vacant, extent, carve_cell, alloc_cells, IsHeap}
use iron_kernel.Heap.Alloc.{Served, kmalloc_loop-Served}

abbrev pub fits : ℕ → Cell → Bool
fits n c = c.free && leb n c.size

abbrev Picks : (n addr : ℕ) → List Cell → Option (ℕ × List Cell) → Type 0
Picks n addr cs none = All (λ c. fits n c ≡ false) cs
Picks n addr cs (some (p, ds)) =
    (xs : List Cell) × (c : Cell) × (ys : List Cell) × (cs ≡ xs ++ (c ∷ ys))
    × All (λ d. fits n d ≡ false) xs
    × (fits n c ≡ true)
    × (p ≡ addr + extent xs + header_size)
    × (ds ≡ xs ++ (carve_cell n c ++ ys))

Picks-cons :
    (n addr : ℕ) (c : Cell) (cs : List Cell) (o : Option (ℕ × List Cell))
    → fits n c ≡ false
    → Picks n (addr + header_size + c.size) cs o
    → Picks n addr (c ∷ cs) (Option.map (λ (p, ds). (p, c ∷ ds)) o)
Picks-cons n addr c cs none miss k = (miss, k)
Picks-cons n addr c cs (some (p, ds)) miss k = (
  c ∷ k.0,
  k.1,
  k.2,
  ap (λ l. c ∷ l) k.3,
  (miss, k.4),
  k.5,
  omega (arith, k.6),
  ap (λ l. c ∷ l) k.7,
)

alloc_cells-Picks : (n addr : ℕ) (cs : List Cell) → Picks n addr cs (alloc_cells n addr cs)
unfolding alloc_cells
alloc_cells-Picks n addr [] = tt
alloc_cells-Picks n addr (c ∷ cs) = elim (Bool-cases (fits n c)) [
  | inl hit ↦ rw hit ([], c, cs, refl, tt, hit, omega arith, refl)
  | inr miss ↦
      rw miss (Picks-cons n addr c cs _ miss (alloc_cells-Picks n (addr + header_size + c.size) cs))
]

-- What `kmalloc` of `n` bytes did to a heap: it found the first cell that is free and large enough.
pub record Allocated (n caller : ℕ) (cs : List Cell) (h : Heap) (r : ℕ × Heap) : Type 0 where
  pub before : List Cell
  pub cell : Cell
  pub after : List Cell
  pub row : cs ≡ before ++ (cell ∷ after)
  pub misses : All (λ d. fits n d ≡ false) before
  pub hit : fits n cell ≡ true
  pub pointer : r.0 ≡ heap_start + extent before + header_size
  pub new_row : IsHeap r.1 (before ++ (carve_cell n cell ++ after))
  pub bytes : ℕ
  pub tracked : r.1 ≡ record (leak_add r.0 bytes caller h) { mem = r.1.mem }

pub leak_end : (p s caller : ℕ) (h : Heap) → (leak_add p s caller h).heap_end ≡ h.heap_end
unfolding leak_add
leak_end p s caller h = ground arith

-- On a heap that is a row of cells, `kmalloc` of a size other than 0 ends. Either no cell is free
-- and as large as the size rounded up to four, and it returns null with the heap unchanged; or it
-- takes the first such cell: the pointer is the one behind its header, the heap is the row with
-- this cell split or used up whole and every other cell in its place, and beside the memory
-- only the table of live allocations has changed, by an entry for the pointer.
pub kmalloc_lem :
    (n caller : ℕ) (h : Heap) (cs : List Cell)
    → IsHeap h cs
    → n ≢ 0
    → (r : ℕ × Heap) × (kmalloc n caller h ≡ ok r)
      × ((All (λ c. fits (align n) c ≡ false) cs × (r ≡ (0, h)))
          ⊎ Allocated (align n) caller cs h r)
unfolding kmalloc
kmalloc_lem n caller h cs v ne =
    let (r, e, s) =
      kmalloc_loop-Served (suc h.heap_end) heap_start (align n) caller h cs v.layout v.small
        (omega arith) in
    (
      r,
      rw (==_ne n 0 ne) e,
      answer (alloc_cells (align n) heap_start cs) r (alloc_cells-Picks (align n) heap_start cs) s,
    )
  where
    answer :
        (o : Option (ℕ × List Cell)) (r : ℕ × Heap)
        → Picks (align n) heap_start cs o
        → Served h heap_start caller o r
        → (All (λ c. fits (align n) c ≡ false) cs × (r ≡ (0, h)))
          ⊎ Allocated (align n) caller cs h r
    answer none (p, h') k s = inl (k, λ i. (s.0 i, s.1 i))
    answer (some (q, ds)) (p, h') k s =
        let same : h'.heap_end ≡ h.heap_end =
          ap (λ (g : Heap). g.heap_end) s.4 ∙ leak_end p s.3 caller h in
        inr (record {
          before = k.0;
          cell = k.1;
          after = k.2;
          row = k.3;
          misses = k.4;
          hit = k.5;
          pointer = s.0 ∙ k.6;
          new_row = record { layout = rw (same, ← k.7) s.1; small = rw same v.small };
          bytes = s.3;
          tracked = s.4;
        })

-- The state that `heap_init` leaves is a heap of one free cell, 1 MB less its header.
pub heap_init_block-IsHeap :
    (mem : ℕ → Block) → IsHeap (heap_init_block mem) (vacant (heap_initial_size - header_size) ∷ [])
unfolding heap_init_block
heap_init_block-IsHeap mem = record { layout = (refl, refl); small = omega arith }
