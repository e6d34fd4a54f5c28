-- ===== src/Heap/Layout.antt =====
-- The heap of src/kernel/heap.c as a row of cells that fill it, and what an allocation and a
-- release do to that row.
use iron_kernel.Prelude.{
  ℕ, ◌+◌, ◌-◌, ◌≤◌, ◌<◌, ◌^◌, ◌≡◌, sym, ◌∙◌, Bool, true, false, ◌&&◌, Option, none, some, List, [],
  ◌∷◌, ◌++◌, arith, leb, if◌then◌else◌,
}
use mathlib.Core.Option
use iron_kernel.Heap.{Block, Heap, heap_start, heap_magic, heap_min_split, header_size}

-- the data bytes of a block, and whether it is free
pub record Cell : Type 0 where
  pub size : ℕ
  pub free : Bool

abbrev pub used : ℕ → Cell
used n = record { size = n; free = false }

abbrev pub vacant : ℕ → Cell
vacant n = record { size = n; free = true }

abbrev pub header : Cell → Block
header c = record { magic = heap_magic; size = c.size; is_free = c.free }

-- From `addr` to `stop` the memory holds the headers of exactly these cells, one after the other.
abbrev pub Layout : (ℕ → Block) → ℕ → List Cell → ℕ → Type 0
Layout mem addr [] stop = addr ≡ stop
Layout mem addr (c ∷ cs) stop =
    (mem addr ≡ header c) × Layout mem (addr + header_size + c.size) cs stop

-- the bytes that a row of cells takes, headers included
abbrev pub extent : List Cell → ℕ
extent [] = 0
extent (c ∷ cs) = header_size + c.size + extent cs

abbrev pub free_total : List Cell → ℕ
free_total [] = 0
free_total (c ∷ cs) = (if c.free then c.size else 0) + free_total cs

pub Layout-extent :
    (mem : ℕ → Block) (addr : ℕ) (cs : List Cell) (stop : ℕ)
    → Layout mem addr cs stop
    → addr + extent cs ≡ stop
Layout-extent mem addr [] stop l = omega arith
Layout-extent mem addr (c ∷ cs) stop l =
    omega (arith, Layout-extent mem (addr + header_size + c.size) cs stop l.1)

-- Writes below a row leave it as it is.
pub Layout-frame :
    (mem mem' : ℕ → Block) (addr : ℕ) (cs : List Cell) (stop : ℕ)
    → ((x : ℕ) → addr ≤ x → mem' x ≡ mem x)
    → Layout mem addr cs stop
    → Layout mem' addr cs stop
Layout-frame mem mem' addr [] stop same l = l
Layout-frame mem mem' addr (c ∷ cs) stop same l = (
  same addr (omega arith) ∙ l.0,
  Layout-frame mem mem' (addr + header_size + c.size) cs stop (λ x h. same x (omega arith)) l.1,
)

-- So do writes above it.
pub Layout-frame_above :
    (mem mem' : ℕ → Block) (addr : ℕ) (cs : List Cell) (stop : ℕ)
    → ((x : ℕ) → x < stop → mem' x ≡ mem x)
    → Layout mem addr cs stop
    → Layout mem' addr cs stop
Layout-frame_above mem mem' addr [] stop same l = l
Layout-frame_above mem mem' addr (c ∷ cs) stop same l =
    let next = addr + header_size + c.size in
    (
      same addr (omega (arith, Layout-extent mem next cs stop l.1)) ∙ l.0,
      Layout-frame_above mem mem' next cs stop same l.1,
    )

pub Layout-append :
    (mem : ℕ → Block) (addr : ℕ) (xs ys : List Cell) (mid stop : ℕ)
    → Layout mem addr xs mid
    → Layout mem mid ys stop
    → Layout mem addr (xs ++ ys) stop
Layout-append mem addr [] ys mid stop e l = rw e l
Layout-append mem addr (x ∷ xs) ys mid stop k l =
    (k.0, Layout-append mem (addr + header_size + x.size) xs ys mid stop k.1 l)

pub Layout-split :
    (mem : ℕ → Block) (addr : ℕ) (xs ys : List Cell) (stop : ℕ)
    → Layout mem addr (xs ++ ys) stop
    → Layout mem addr xs (addr + extent xs) × Layout mem (addr + extent xs) ys stop
Layout-split mem addr [] ys stop l = let e : addr + 0 ≡ addr = omega arith in (sym e, rw e l)
Layout-split mem addr (x ∷ xs) ys stop l =
    let next = addr + header_size + x.size in
    let (k, m) = Layout-split mem next xs ys stop l.1 in
    let e : addr + (header_size + x.size + extent xs) ≡ next + extent xs = omega arith in
    ((l.0, rw e k), rw e m)

-- Taking `n` bytes of a free cell `c`: the rest becomes a cell if it is worth a header.
unfoldable pub carve_cell : ℕ → Cell → List Cell
carve_cell n c =
    if leb (header_size + heap_min_split) (c.size - n)
    then used n ∷ vacant (c.size - n - header_size) ∷ []
    else used c.size ∷ []

-- First fit, with the pointer to the data. `none` when no free cell is large enough.
unfoldable pub alloc_cells : (n addr : ℕ) → List Cell → Option (ℕ × List Cell)
alloc_cells n addr [] = none
alloc_cells n addr (c ∷ cs) =
    let rest =
      Option.map (λ (p, ds). (p, c ∷ ds)) (alloc_cells n (addr + header_size + c.size) cs) in
    if c.free && leb n c.size then some (addr + header_size, carve_cell n c ++ cs) else rest

-- A released cell of `n` bytes, joined with the cell behind it if that is free.
unfoldable pub merge_cells : ℕ → List Cell → List Cell
merge_cells n [] = vacant n ∷ []
merge_cells n (c ∷ cs) =
    if c.free then vacant (n + (header_size + c.size)) ∷ cs else vacant n ∷ c ∷ cs

-- A heap whose memory, from `HEAP_START` to its end, is a row of cells.
pub record IsHeap (h : Heap) (cs : List Cell) : Type 0 where
  pub layout : Layout h.mem heap_start cs h.heap_end
  pub small : h.heap_end < 2 ^ 32

pub extent-append : (xs ys : List Cell) → extent (xs ++ ys) ≡ extent xs + extent ys
extent-append [] ys = omega arith
extent-append (x ∷ xs) ys = omega (arith, extent-append xs ys)

pub free_total-append : (xs ys : List Cell) → free_total (xs ++ ys) ≡ free_total xs + free_total ys
free_total-append [] ys = omega arith
free_total-append (x ∷ xs) ys = omega (arith, free_total-append xs ys)
