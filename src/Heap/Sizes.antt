-- ===== src/Heap/Sizes.antt =====
-- How many bytes `kmalloc` of src/kernel/heap.c hands out, their alignment, and what comes back when
-- they are released.
use iron_kernel.Prelude.{
  ℕ, ◌+◌, ◌-◌, ◌%◌, ◌≤◌, ◌<◌, ◌^◌, ◌≡◌, refl, sym, subst, ◌∙◌, ap, ◌≢◌, true, some, suc, ==_ne, inl,
  inr, List, [], ◌∷◌, ◌++◌, arith, leb, leb→le, Bool-cases, All,
}
use iron_kernel.Heap.{
  Heap, ok, heap_start, header_size, heap_min_split, align, kmalloc, kfree, heap_free_bytes,
}
use iron_kernel.Heap.Layout.{
  Cell, used, vacant, extent, free_total, free_total-append, carve_cell, alloc_cells, merge_cells,
  IsHeap,
}
use iron_kernel.Heap.FirstFit.{fits, Allocated, kmalloc_lem, leak_end}
use iron_kernel.Heap.Alloc.{Served, kmalloc_loop-Served}
use iron_kernel.Heap.Free.{pointer, kfree_lem}
use iron_kernel.Heap.Stats.{heap_free_bytes_lem}

abbrev pub IsAligned : Cell → Type 0
IsAligned c = c.size % 4 ≡ 0

-- A row is aligned when its two parts are.
module _ (ys : List Cell) where
  All-join : (xs : List Cell) → All IsAligned xs × All IsAligned ys → All IsAligned (xs ++ ys)
  All-join [] h = h.1
  All-join (c ∷ xs) h = (h.0.0, All-join xs (h.0.1, h.1))

  All-split : (xs : List Cell) → All IsAligned (xs ++ ys) → All IsAligned xs × All IsAligned ys
  All-split [] h = (tt, h)
  All-split (c ∷ xs) h = let (k, l) = All-split xs h.1 in ((h.0, k), l)

-- The first cell of a carved one is in use, with at least the bytes asked for, and what follows it.
record Carved (n : ℕ) (c : Cell) : Type 0 where
  bytes : ℕ
  rest : List Cell
  cells : carve_cell n c ≡ used bytes ∷ rest
  enough : n ≤ bytes
  aligned : n % 4 ≡ 0 → IsAligned c → (bytes % 4 ≡ 0) × All IsAligned rest
  back : (ys : List Cell) → c.size + free_total ys ≤ free_total (merge_cells bytes (rest ++ ys))

merge_total : (n : ℕ) (ys : List Cell) → n + free_total ys ≤ free_total (merge_cells n ys)
unfolding merge_cells
merge_total n [] = omega arith
merge_total n (c ∷ cs) = ground arith

carve_cell-Carved : (n : ℕ) (c : Cell) → n ≤ c.size → Carved n c
unfolding carve_cell
carve_cell-Carved n c h = elim (Bool-cases (leb (header_size + heap_min_split) (c.size - n))) [
  | inl big ↦
      let b = leb→le _ _ big in
      record {
        bytes = n;
        rest = vacant (c.size - n - header_size) ∷ [];
        cells = rw big;
        enough = omega arith;
        aligned = λ p q. (p, (omega arith, tt));
        back = λ ys. unfold merge_cells in omega arith;
      }
  | inr tight ↦ record {
    bytes = c.size;
    rest = [];
    cells = rw tight;
    enough = h;
    aligned = λ p q. (q, tt);
    back = merge_total c.size;
  }
]

fits-le : (n : ℕ) (c : Cell) → fits n c ≡ true → (n ≤ c.size) × (c.free ≡ true)
fits-le n c h = ground arith

-- The cell that a successful `kmalloc` hands out stands behind `before` and begins `rest`.
record Handed (n : ℕ) (cs : List Cell) (p : ℕ) (h' : Heap) : Type 0 where
  before : List Cell
  bytes : ℕ
  after : List Cell
  at : p ≡ pointer before
  row : IsHeap h' (before ++ (used bytes ∷ after))
  enough : align n ≤ bytes
  aligned : All IsAligned cs → All IsAligned (before ++ (used bytes ∷ after))
  back : free_total cs ≤ free_total (before ++ merge_cells bytes after)

Allocated-Handed :
    (n caller : ℕ) (cs : List Cell) (h : Heap) (p : ℕ) (h' : Heap)
    → Allocated (align n) caller cs h (p, h')
    → Handed n cs p h'
Allocated-Handed n caller cs h p h' a =
    let (large, free) = fits-le (align n) a.cell a.hit in
    let k = carve_cell-Carved (align n) a.cell large in
    let new_cells : a.before ++ (carve_cell (align n) a.cell ++ a.after)
        ≡ a.before ++ (used k.bytes ∷ (k.rest ++ a.after)) =
      ap (λ l. a.before ++ (l ++ a.after)) k.cells in
    record {
      before = a.before;
      bytes = k.bytes;
      after = k.rest ++ a.after;
      at = a.pointer;
      row = subst (λ l. IsHeap h' l) new_cells a.new_row;
      enough = k.enough;
      aligned = λ al.
          let (b, m) = All-split (a.cell ∷ a.after) a.before (rw a.row at al) in
          let (x, y) = k.aligned (omega arith) m.0 in
          All-join (used k.bytes ∷ (k.rest ++ a.after)) a.before
            (b, (x, All-join a.after k.rest (y, m.1)));
      back = ground (
        arith,
        free,
        ap free_total a.row,
        free_total-append a.before (a.cell ∷ a.after),
        free_total-append a.before (merge_cells k.bytes (k.rest ++ a.after)),
        k.back a.after,
      );
    }

-- Every block of an aligned row starts at a multiple of four.
extent-IsAligned : (cs : List Cell) → All IsAligned cs → extent cs % 4 ≡ 0
extent-IsAligned [] h = refl
extent-IsAligned (c ∷ cs) h = omega (arith, h.0, extent-IsAligned cs h.1)

ok-injective {ℓ} : {A : Type ℓ} (a b : A) → ok a ≡ ok b → a ≡ b
ok-injective a b e = cc

handed :
    (n caller : ℕ) (h : Heap) (cs : List Cell) (p : ℕ) (h' : Heap)
    → IsHeap h cs
    → n ≢ 0
    → kmalloc n caller h ≡ ok (p, h')
    → p ≢ 0
    → Handed n cs p h'
handed n caller h cs p h' v ne e ptr =
    let (r, f, out) = kmalloc_lem n caller h cs v ne in
    let same : r ≡ (p, h') = ok-injective r (p, h') (sym f ∙ e) in
    elim out [
      | inl (_, null) ↦ absurd (ptr (ap (λ (s : ℕ × Heap). s.0) (sym same ∙ null)))
      | inr a ↦ Allocated-Handed n caller cs h p h' (rw same at a)
    ]

-- A pointer from `kmalloc` is a multiple of four, and its block has at least the bytes asked for,
-- if all block sizes of the heap are multiples of four and the size is at most 2 ^ 64 - 4; the
-- heap afterwards is again such a row of cells, with that block in use behind some others.
pub kmalloc-IsAligned :
    (n caller : ℕ) (h : Heap) (cs : List Cell) (p : ℕ) (h' : Heap)
    → IsHeap h cs
    → All IsAligned cs
    → n ≢ 0
    → n + 3 < 2 ^ 64
    → kmalloc n caller h ≡ ok (p, h')
    → p ≢ 0
    → (p % 4 ≡ 0)
      × (before : List Cell) × (bytes : ℕ) × (after : List Cell) × (p ≡ pointer before)
      × (n ≤ bytes)
      × IsHeap h' (before ++ (used bytes ∷ after))
      × All IsAligned (before ++ (used bytes ∷ after))
kmalloc-IsAligned n caller h cs p h' v al ne fit e ptr =
    let k = handed n caller h cs p h' v ne e ptr in
    let row = k.aligned al in
    let (b, m) = All-split (used k.bytes ∷ k.after) k.before row in
    let enough = k.enough in
    (
      omega (arith, k.at, extent-IsAligned k.before b),
      k.before,
      k.bytes,
      k.after,
      k.at,
      omega arith,
      k.row,
      row,
    )

-- Releasing what `kmalloc` has just handed out ends without a panic, on a heap that is again a row
-- of cells, and `heap_free_bytes` reports at least as many free bytes as before the allocation.
pub kfree-kmalloc :
    (n caller : ℕ) (h : Heap) (cs : List Cell) (p : ℕ) (h' : Heap)
    → IsHeap h cs
    → n ≢ 0
    → kmalloc n caller h ≡ ok (p, h')
    → p ≢ 0
    → (g : Heap) × (kfree p h' ≡ ok g)
      × (ds : List Cell) × IsHeap g ds
      × (b : ℕ) × (c : ℕ) × (heap_free_bytes h ≡ ok b)
      × (heap_free_bytes g ≡ ok c)
      × (b ≤ c)
kfree-kmalloc n caller h cs p h' v ne e ptr =
    let k = handed n caller h cs p h' v ne e ptr in
    let (g, f, w) = kfree_lem h' k.before k.bytes k.after k.row in
    let ds = k.before ++ merge_cells k.bytes k.after in
    (
      g,
      rw k.at f,
      ds,
      w,
      free_total cs,
      free_total ds,
      heap_free_bytes_lem h cs v,
      heap_free_bytes_lem g ds w,
      k.back,
    )

-- Sizes from 2 ^ 64 - 3 on wrap to 0 when they are rounded up: `kmalloc` then takes the first free
-- block for a request of no bytes, here one at the start of the heap, and returns a pointer to it.
pub kmalloc_wraps :
    (n caller m : ℕ) (h : Heap) (cs : List Cell)
    → 2 ^ 64 ≤ n + 3
    → n < 2 ^ 64
    → IsHeap h (vacant m ∷ cs)
    → (h' : Heap) × (kmalloc n caller h ≡ ok (heap_start + header_size, h'))
      × IsHeap h' (carve_cell 0 (vacant m) ++ cs)
unfolding kmalloc
kmalloc_wraps n caller m h cs lo hi v =
    let ne : n ≢ 0 = omega arith in
    let none_asked : align n ≡ 0 = omega arith in
    let (r, e, s) =
      kmalloc_loop-Served (suc h.heap_end) heap_start 0 caller h (vacant m ∷ cs) v.layout v.small
        (omega arith) in
    let hit : leb 0 m ≡ true = ground arith in
    let found : alloc_cells 0 heap_start (vacant m ∷ cs)
        ≡ some (heap_start + header_size, carve_cell 0 (vacant m) ++ cs) =
      unfold alloc_cells in rw hit in
    let t : Served h heap_start caller
        (some (heap_start + header_size, carve_cell 0 (vacant m) ++ cs)) r =
      rw found at s in
    let same : r.1.heap_end ≡ h.heap_end =
      ap (λ (g : Heap). g.heap_end) t.4 ∙ leak_end r.0 t.3 caller h in
    (
      r.1,
      rw (==_ne n 0 ne, none_asked, ← t.0) e,
      record { layout = rw same t.1; small = rw same v.small },
    )
