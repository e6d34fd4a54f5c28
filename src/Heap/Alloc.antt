-- ===== src/Heap/Alloc.antt =====
-- `kmalloc` of src/kernel/heap.c on a heap whose memory is laid out as a row of cells.
use iron_kernel.Prelude.{
  ℕ, zero, suc, ◌+◌, ◌-◌, ◌≤◌, ◌<◌, ◌^◌, ◌≡◌, refl, ◌∙◌, ap, ◌⊎◌, true, ◌&&◌, inl, inr, Option,
  none, some, List, [], ◌∷◌, ◌++◌, arith, leb, leb→le, ltb, lt→ltb, le→ltb, Bool-cases,
}
use mathlib.Core.Option
use iron_kernel.Heap.{
  Block, Heap, ok, heap_leak_cap, heap_min_split, header_size, leak_add, carve, give, kmalloc_loop,
}
use iron_kernel.Heap.Layout.{
  Cell, header, Layout, Layout-extent, Layout-frame, carve_cell, alloc_cells,
}

-- `carve` writes only the two headers of the block that it splits.
carve_outside :
    (mem : ℕ → Block) (addr n x : ℕ)
    → n ≤ (mem addr).size
    → (x < addr) ⊎ (addr + header_size + (mem addr).size ≤ x)
    → carve addr n mem x ≡ mem x
unfolding carve
carve_outside mem addr n x fits away = ground arith

-- The header at the start of a row, split or not.
carve-Layout :
    (mem : ℕ → Block) (addr n : ℕ) (c : Cell) (cs : List Cell) (stop : ℕ)
    → Layout mem addr (c ∷ cs) stop
    → stop < 2 ^ 32
    → n ≤ c.size
    → Layout (carve addr n mem) addr (carve_cell n c ++ cs) stop
unfolding carve_cell
carve-Layout mem addr n c cs stop l small fits =
    let e = Layout-extent mem (addr + header_size + c.size) cs stop l.1 in
    let size_eq : (mem addr).size ≡ c.size = ap (λ (b : Block). b.size) l.0 in
    let rest : Layout (carve addr n mem) (addr + header_size + c.size) cs stop =
      Layout-frame mem (carve addr n mem) (addr + header_size + c.size) cs stop
        (λ x h. carve_outside mem addr n x (omega arith) (inr (omega arith))) l.1 in
    elim (Bool-cases (leb (header_size + heap_min_split) (c.size - n))) [
      | inl big ↦ rw big (
        unfold carve in ground (arith, l.0),
        (
          unfold carve in ground (arith, l.0),
          let there : addr + header_size + n + header_size + (c.size - n - header_size)
                  ≡ addr + header_size + c.size =
                let f = leb→le _ _ big in omega arith in
              rw there rest,
        ),
      )
      | inr tight ↦ rw tight (unfold carve in ground (arith, l.0), rest)
    ]

-- What an answer `o` of the first-fit search over the row from `addr` on means for the heap: its
-- pointer is returned, the memory is laid out as the new row, nothing below the row has changed,
-- and beside the memory only the table of live allocations has, by the entry for the pointer.
abbrev pub Served : Heap → (addr caller : ℕ) → Option (ℕ × List Cell) → ℕ × Heap → Type 0
Served h addr caller none (p, h') = (p ≡ 0) × (h' ≡ h)
Served h addr caller (some (q, ds)) (p, h') =
    (p ≡ q)
    × Layout h'.mem addr ds h.heap_end
    × ((x : ℕ) → x < addr → h'.mem x ≡ h.mem x)
    × (s : ℕ) × (h' ≡ record (leak_add p s caller h) { mem = h'.mem })

-- The leak table does not depend on the memory, and keeps it.
leak_add_mem :
    (p s caller : ℕ) (h : Heap) (mem : ℕ → Block)
    → leak_add p s caller (record h { mem = mem }) ≡ record (leak_add p s caller h) { mem = mem }
unfolding leak_add
leak_add_mem p s caller h mem = elim (Bool-cases (leb heap_leak_cap h.leak_count)) [
  | inl full ↦ rw full
  | inr space ↦ rw space
]

give-Served :
    (h : Heap) (addr n caller : ℕ) (c : Cell) (cs : List Cell)
    → Layout h.mem addr (c ∷ cs) h.heap_end
    → h.heap_end < 2 ^ 32
    → n ≤ c.size
    → Served h addr caller (some (addr + header_size, carve_cell n c ++ cs)) (give addr n caller h)
unfolding give
give-Served h addr n caller c cs l small fits =
    let mem = carve addr n h.mem in
    let size_eq : (h.mem addr).size ≡ c.size = ap (λ (b : Block). b.size) l.0 in
    rw (leak_add_mem (addr + header_size) (mem addr).size caller h mem) (
      refl,
      carve-Layout h.mem addr n c cs h.heap_end l small fits,
      (λ x k. carve_outside h.mem addr n x (omega arith) (inl k)),
      (mem addr).size,
      refl,
    )

Served-cons :
    (h : Heap) (addr caller : ℕ) (c : Cell) (o : Option (ℕ × List Cell)) (r : ℕ × Heap)
    → h.mem addr ≡ header c
    → Served h (addr + header_size + c.size) caller o r
    → Served h addr caller (Option.map (λ (p, ds). (p, c ∷ ds)) o) r
Served-cons h addr caller c none (p, h') k s = s
Served-cons h addr caller c (some (q, ds)) (p, h') k s =
    (s.0, (s.2 addr (omega arith) ∙ k, s.1), (λ x l. s.2 x (omega arith)), s.3, s.4)

pub kmalloc_loop-Served :
    (fuel addr n caller : ℕ) (h : Heap) (cs : List Cell)
    → Layout h.mem addr cs h.heap_end
    → h.heap_end < 2 ^ 32
    → h.heap_end < addr + fuel
    → (r : ℕ × Heap) × (kmalloc_loop fuel addr n caller h ≡ ok r)
      × Served h addr caller (alloc_cells n addr cs) r
unfolding kmalloc_loop alloc_cells
kmalloc_loop-Served zero addr n caller h cs l small f =
    absurd (omega (arith, Layout-extent h.mem addr cs h.heap_end l))
kmalloc_loop-Served (suc fuel) addr n caller h [] l small f =
    ((0, h), rw (le→ltb addr h.heap_end (omega arith)), (refl, refl))
kmalloc_loop-Served (suc fuel) addr n caller h (c ∷ cs) l small f =
    let next = addr + header_size + c.size in
    let below : ltb addr h.heap_end ≡ true =
      lt→ltb _ _ (omega (arith, Layout-extent h.mem next cs h.heap_end l.1)) in
    elim (Bool-cases (c.free && leb n c.size)) [
      | inl fit ↦ (
        give addr n caller h,
        rw (below, l.0, fit),
        rw fit (give-Served h addr n caller c cs l small (ground arith)),
      )
      | inr misfit ↦
          let (r, e, s) = kmalloc_loop-Served fuel next n caller h cs l.1 small (omega arith) in
          (r, rw (below, l.0, misfit) e, rw misfit (Served-cons h addr caller c _ r l.0 s))
    ]
