-- ===== src/Heap/Stats.antt =====
-- The walk of `heap_free_bytes` in src/kernel/heap.c.
use iron_kernel.Prelude.{
  ℕ, zero, suc, ◌+◌, ◌≤◌, ◌<◌, ◌^◌, ◌≡◌, ◌∙◌, ap, List, [], ◌∷◌, arith, lt→ltb, le→ltb, u32,
  if◌then◌else◌,
}
use iron_kernel.Heap.{Heap, ok, heap_start, header_size, free_bytes_loop, heap_free_bytes}
use iron_kernel.Heap.Layout.{Cell, Layout, Layout-extent, extent, free_total, IsHeap}

free_total-le-extent : (cs : List Cell) → free_total cs ≤ extent cs
free_total-le-extent [] = omega arith
free_total-le-extent (c ∷ cs) = ground (arith, free_total-le-extent cs)

free_bytes_loop_lem :
    (fuel addr total : ℕ) (h : Heap) (cs : List Cell)
    → Layout h.mem addr cs h.heap_end
    → total + extent cs < 2 ^ 32
    → h.heap_end < addr + fuel
    → free_bytes_loop fuel addr total h ≡ ok (total + free_total cs)
unfolding free_bytes_loop
free_bytes_loop_lem zero addr total h cs l small f =
    absurd (omega (arith, Layout-extent h.mem addr cs h.heap_end l))
free_bytes_loop_lem (suc fuel) addr total h [] l small f =
    rw (le→ltb addr h.heap_end (omega arith)) (ap ok (omega arith))
free_bytes_loop_lem (suc fuel) addr total h (c ∷ cs) l small f =
    let next = addr + header_size + c.size in
    let sum : ℕ = if c.free then u32 (total + c.size) else total in
    let sum_eq : sum ≡ total + (if c.free then c.size else 0) = ground arith in
    let ih = free_bytes_loop_lem fuel next sum h cs l.1 (ground arith) (omega arith) in
    rw (lt→ltb addr h.heap_end (omega (arith, Layout-extent h.mem next cs h.heap_end l.1)), l.0)
      (ih ∙ ap ok (omega (arith, sum_eq)))

-- On a heap that is a row of cells, `heap_free_bytes` ends and returns the number of data bytes in
-- the free cells, headers not counted.
pub heap_free_bytes_lem :
    (h : Heap) (cs : List Cell) → IsHeap h cs → heap_free_bytes h ≡ ok (free_total cs)
unfolding heap_free_bytes
heap_free_bytes_lem h cs v =
    free_bytes_loop_lem (suc h.heap_end) heap_start 0 h cs v.layout
      (let s = v.small in omega (arith, Layout-extent h.mem heap_start cs h.heap_end v.layout))
      (omega arith)
    ∙ ap ok (omega arith)
