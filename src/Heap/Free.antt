-- ===== src/Heap/Free.antt =====
-- `kfree` of src/kernel/heap.c on a heap that is a row of cells.
use iron_kernel.Prelude.{
  ℕ, zero, suc, ◌+◌, ◌<◌, ◌^◌, ◌≡◌, refl, ◌≢◌, true, inl, inr, sym, subst, List, [], ◌∷◌, ◌++◌,
  arith, ltb, lt→ltb, le→ltb, ==_ne, ◌==◌, Bool-cases, update, update_same, update_ne,
}
use iron_kernel.Heap.{
  Block, Heap, ok, panic, heap_start, header_size, header_of, leak_del, leak_del_loop, coalesce,
  kfree,
}
use iron_kernel.Heap.Layout.{
  Cell, used, vacant, header, Layout, Layout-extent, Layout-frame, Layout-frame_above,
  Layout-append, Layout-split, extent, merge_cells, IsHeap, extent-append,
}

-- The pointer to the data of a cell that stands behind `xs`.
abbrev pub pointer : List Cell → ℕ
pointer xs = heap_start + extent xs + header_size

-- `coalesce` at the head of a row whose first cell has just been freed.
coalesce-Layout :
    (addr n : ℕ) (ys : List Cell) (h : Heap)
    → Layout h.mem addr (vacant n ∷ ys) h.heap_end
    → h.heap_end < 2 ^ 32
    → Layout (coalesce addr h).mem addr (merge_cells n ys) h.heap_end
unfolding coalesce merge_cells
coalesce-Layout addr n [] h l small =
    let e : h.heap_end ≡ addr + header_size + n = sym l.1 in
    rw (l.0, le→ltb (addr + header_size + n) h.heap_end (omega arith)) l
coalesce-Layout addr n (c ∷ ys) h l small =
    let next = addr + header_size + n in
    let e = Layout-extent h.mem (next + header_size + c.size) ys h.heap_end l.1.1 in
    let below : ltb next h.heap_end ≡ true = lt→ltb _ _ (omega arith) in
    elim (Bool-cases c.free) [
      | inl free ↦
          rw (l.0, below, l.1.0, free)
            (
              ground (arith, l.0),
              let there : addr + header_size + (n + (header_size + c.size))
                      ≡ next + header_size + c.size =
                    omega arith in
                  rw there (
                    Layout-frame h.mem _ (next + header_size + c.size) ys h.heap_end
                      (λ x k. update_ne h.mem addr x _ λ q. absurd (omega (arith, q))) l.1.1),
            )
      | inr busy ↦ rw (l.0, below, l.1.0, busy) (rw busy at l)
    ]

leak_del_loop_mem :
    (n i ptr : ℕ) (h : Heap)
    → ((leak_del_loop n i ptr h).mem ≡ h.mem) × ((leak_del_loop n i ptr h).heap_end ≡ h.heap_end)
unfolding leak_del_loop
leak_del_loop_mem zero i ptr h = (refl, refl)
leak_del_loop_mem (suc n) i ptr h = elim (Bool-cases ((h.leaks i).ptr == ptr)) [
  | inl hit ↦ rw hit (refl, refl)
  | inr miss ↦ rw miss (leak_del_loop_mem n (i + 1) ptr h)
]

-- Writing the header of one cell of a row.
set_header :
    (mem : ℕ → Block) (addr : ℕ) (xs : List Cell) (c d : Cell) (ys : List Cell) (stop : ℕ)
    → Layout mem addr (xs ++ (c ∷ ys)) stop
    → d.size ≡ c.size
    → (mem (addr + extent xs) ≡ header c)
      × Layout (update mem (addr + extent xs) (header d)) addr xs (addr + extent xs)
      × Layout (update mem (addr + extent xs) (header d)) (addr + extent xs) (d ∷ ys) stop
set_header mem addr xs c d ys stop l same =
    let mid = addr + extent xs in
    let (k, m) = Layout-split mem addr xs (c ∷ ys) stop l in
    (
      m.0,
      Layout-frame_above mem _ addr xs mid
          (λ x q. update_ne mem mid x (header d) λ w. absurd (omega (arith, w))) k,
      (
        update_same mem mid (header d),
        rw same (
            Layout-frame mem _ (mid + header_size + c.size) ys stop
              (λ x q. update_ne mem mid x (header d) λ w. absurd (omega (arith, w))) m.1),
      ),
    )

-- `coalesce` writes only the header at its own address.
coalesce_outside : (addr : ℕ) (h : Heap) (x : ℕ) → x ≢ addr → (coalesce addr h).mem x ≡ h.mem x
unfolding coalesce
coalesce_outside addr h x ne = ground arith

coalesce_end : (addr : ℕ) (h : Heap) → (coalesce addr h).heap_end ≡ h.heap_end
unfolding coalesce
coalesce_end addr h = ground arith

-- The steps of `kfree` after its checks, at the cell behind `xs`.
module _ (h : Heap) (xs : List Cell) (n : ℕ) (ys : List Cell)
    (v : IsHeap h (xs ++ (used n ∷ ys))) where
  abbrev cell_addr : ℕ
  cell_addr = heap_start + extent xs

  -- the heap once the block is marked free, and its entry is gone from the table
  released : Heap
  released = leak_del (pointer xs) (record h { mem = update h.mem cell_addr (header (vacant n)) })

  released-Layout :
      Layout released.mem heap_start xs cell_addr
      × Layout released.mem cell_addr (vacant n ∷ ys) released.heap_end
      × (released.heap_end ≡ h.heap_end)
  unfolding released leak_del
  released-Layout =
      let s = set_header h.mem heap_start xs (used n) (vacant n) ys h.heap_end v.layout refl in
      let g : Heap = record h { mem = update h.mem cell_addr (header (vacant n)) } in
      let (m, e) = leak_del_loop_mem h.leak_count 0 (pointer xs) g in
      rw e (
        subst (λ (mem : ℕ → Block). Layout mem heap_start xs cell_addr) (sym m) s.1,
        subst (λ (mem : ℕ → Block). Layout mem cell_addr (vacant n ∷ ys) h.heap_end) (sym m) s.2,
        refl,
      )

  coalesced-IsHeap : IsHeap (coalesce cell_addr released) (xs ++ merge_cells n ys)
  coalesced-IsHeap =
      let (k, m, e) = released-Layout in
      let small = v.small in
      record {
        layout = rw (coalesce_end cell_addr released) (
            Layout-append _ heap_start xs (merge_cells n ys) cell_addr released.heap_end
              (Layout-frame_above released.mem _ heap_start xs cell_addr
                (λ x q. coalesce_outside cell_addr released x λ w. absurd (omega (arith, w))) k)
              (coalesce-Layout cell_addr n ys released m (rw e small)));
        small = rw (coalesce_end cell_addr released, e) small;
      }

  -- Releasing the pointer of a cell that is in use ends without a panic. The heap is then the row
  -- in which this cell is free, joined with the cell behind it if that is free, and every other
  -- cell stands as it was.
  pub kfree_lem : (h' : Heap) × (kfree (pointer xs) h ≡ ok h') × IsHeap h' (xs ++ merge_cells n ys)
  unfolding kfree released
  kfree_lem =
      let s = set_header h.mem heap_start xs (used n) (vacant n) ys h.heap_end v.layout refl in
      let small = v.small in
      let at_header : header_of (pointer xs) ≡ cell_addr = omega (
        arith,
        Layout-extent h.mem heap_start (xs ++ (used n ∷ ys)) h.heap_end v.layout,
        extent-append xs (used n ∷ ys),
      ) in
      let ne : pointer xs ≢ 0 = omega arith in
      (coalesce cell_addr released, rw (at_header, ==_ne (pointer xs) 0 ne, s.0), coalesced-IsHeap)

-- Releasing the pointer of a free cell, a double free, is a panic.
pub kfree_double :
    (h : Heap) (xs : List Cell) (n : ℕ) (ys : List Cell)
    → IsHeap h (xs ++ (vacant n ∷ ys))
    → kfree (pointer xs) h ≡ panic
unfolding kfree
kfree_double h xs n ys v =
    let small = v.small in
    let l = (Layout-split h.mem heap_start xs (vacant n ∷ ys) h.heap_end v.layout).1 in
    let at_header : header_of (pointer xs) ≡ heap_start + extent xs = omega (
      arith,
      Layout-extent h.mem heap_start (xs ++ (vacant n ∷ ys)) h.heap_end v.layout,
      extent-append xs (vacant n ∷ ys),
    ) in
    let ne : pointer xs ≢ 0 = omega arith in rw (at_header, ==_ne (pointer xs) 0 ne, l.0)
