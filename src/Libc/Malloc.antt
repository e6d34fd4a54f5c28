-- ===== src/Libc/Malloc.antt =====
-- The bump allocator of iklibc/src/stdlib.c. Pointers are offsets into `_heap`, and a null pointer is
-- `none`.
use iron_kernel.Prelude.{
  ℕ, ◌+◌, ◌-◌, ◌*◌, ◌/◌, ◌%◌, ◌^◌, ◌≤◌, ◌<◌, ◌≡◌, ◌∙◌, refl, inl, inr, Option, none, false, some,
  List, [], ◌∷◌, arith, ltb, Bool-cases, if_false, if◌then◌else◌, All, u64, u32,
}

-- `sizeof(_heap)`
abbrev pub heap_size : ℕ
heap_size = 65536

-- `(size + 7u) & ~7u`: the constant `~7u` has 32 bits, so the upper half of the size is masked off.
abbrev pub align8 : ℕ → ℕ
align8 size = u32 (u64 (size + 7)) / 8 * 8

-- The pointer, and `_heap_pos` afterwards. The sum cannot wrap, since both terms are small.
pub malloc : (size heap_pos : ℕ) → Option ℕ × ℕ
malloc size heap_pos =
    let rounded = align8 size in
    if ltb heap_size (heap_pos + rounded)
    then (none, heap_pos)
    else (some heap_pos, heap_pos + rounded)

-- `free` does nothing.
pub free : (ptr heap_pos : ℕ) → ℕ
free ptr heap_pos = heap_pos

-- A block that was handed out, by its start and the size that was asked for.
abbrev pub Block : Type 0
Block = ℕ × ℕ

-- Requests in a row, and the blocks they give.
abbrev pub or_block : Option ℕ → (size : ℕ) → List Block → List Block
or_block none size blocks = blocks
or_block (some p) size blocks = (p, size) ∷ blocks

pub malloc_all : (sizes : List ℕ) → (heap_pos : ℕ) → List Block
malloc_all [] heap_pos = []
malloc_all (size ∷ sizes) heap_pos =
    let (p, pos) = malloc size heap_pos in or_block p size (malloc_all sizes pos)

-- A block lies in the heap from `pos` on, and starts at a multiple of 8.
abbrev pub IsPlaced : ℕ → Block → Type 0
IsPlaced pos (p, size) = (pos ≤ p) × (p % 8 ≡ 0) × (p + size ≤ heap_size)

-- Blocks that do not meet: each ends before those behind it begin.
abbrev pub AreApart : List Block → Type 0
AreApart [] = Unit
AreApart ((p, size) ∷ blocks) = All (λ b. p + size ≤ b.0) blocks × AreApart blocks

weaken :
    (pos pos' : ℕ) (blocks : List Block)
    → pos ≤ pos'
    → All (IsPlaced pos') blocks
    → All (IsPlaced pos) blocks
weaken pos pos' [] l h = h
weaken pos pos' (b ∷ blocks) l h =
    ((omega (arith, h.0), h.0.1, h.0.2), weaken pos pos' blocks l h.1)

behind :
    (pos q : ℕ) (blocks : List Block)
    → q ≤ pos
    → All (IsPlaced pos) blocks
    → All (λ b. q ≤ b.0) blocks
behind pos q [] l h = h
behind pos q (b ∷ blocks) l h = (omega (arith, h.0), behind pos q blocks l h.1)

malloc_all_from :
    (sizes : List ℕ) (pos : ℕ)
    → pos % 8 ≡ 0
    → All (λ size. size < 2 ^ 32 - 7) sizes
    → All (IsPlaced pos) (malloc_all sizes pos) × AreApart (malloc_all sizes pos)
unfolding malloc_all malloc
malloc_all_from [] pos m h = (tt, tt)
malloc_all_from (size ∷ sizes) pos m h = elim (Bool-cases (ltb heap_size (pos + align8 size))) [
  | inl over ↦ rw over (malloc_all_from sizes pos m h.1)
  | inr fits ↦
      let next = pos + align8 size in
      let (placed, apart) = malloc_all_from sizes next (omega arith) h.1 in
      rw fits (
        ((omega arith, m, fits_in fits h.0), weaken pos next _ (omega arith) placed),
        (behind next (pos + size) _ (omega (arith, h.0)) placed, apart),
      )
]
  where
    fits_in : ltb heap_size (pos + align8 size) ≡ false → size < 2 ^ 32 - 7 → pos + size ≤ heap_size
    fits_in e l = ground arith

-- The blocks that any row of requests below 4 GB less 7 bytes gets out of an empty heap start at
-- multiples of 8, lie in the heap of 64 KB with the size that was asked for, and do not meet.
pub malloc_all_lem :
    (sizes : List ℕ)
    → All (λ size. size < 2 ^ 32 - 7) sizes
    → All (IsPlaced 0) (malloc_all sizes 0) × AreApart (malloc_all sizes 0)
malloc_all_lem sizes h = malloc_all_from sizes 0 refl h

-- A request for 4 GB, or for a multiple of that, is answered with a pointer, and takes no byte of
-- the heap.
pub malloc_truncates :
    (k pos : ℕ) → k < 2 ^ 31 → pos ≤ heap_size → malloc (k * 2 ^ 32) pos ≡ (some pos, pos)
unfolding malloc
malloc_truncates k pos l h =
    let none_left : align8 (k * 2 ^ 32) ≡ 0 = omega arith in
    let fits : ltb heap_size (pos + align8 (k * 2 ^ 32)) ≡ false = ground arith in
    if_false _ _ _ fits ∙ λ i. (some pos, same none_left i)
  where
    same : align8 (k * 2 ^ 32) ≡ 0 → pos + align8 (k * 2 ^ 32) ≡ pos
    same e = omega arith
