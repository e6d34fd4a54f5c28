-- ===== src/Heap.antt =====
-- The kernel heap: src/kernel/heap.c and heap.h. Block headers at addresses, walked from
-- `HEAP_START` on, and the table of live allocations.
pub mod Layout
pub mod Alloc
pub mod FirstFit
pub mod Free
pub mod Stats
pub mod Sizes
pub mod Leaks
mod Tests
use iron_kernel.Prelude.{
  ℕ, zero, suc, ◌+◌, ◌-◌, ◌*◌, ◌/◌, ◌%◌, ◌^◌, Bool, true, false, ◌&&◌, ltb, leb, ◌==◌,
  if◌then◌else◌, update, u32, u64,
}

abbrev pub heap_start : ℕ
heap_start = 0x01000000

abbrev pub heap_initial_size : ℕ
heap_initial_size = 0x100000

abbrev pub heap_min_split : ℕ
heap_min_split = 16

abbrev pub heap_magic : ℕ
heap_magic = 0xC0FFEE42

-- `sizeof(heap_block_t)`: two words, a flag and three bytes of padding
abbrev pub header_size : ℕ
header_size = 12

abbrev pub heap_leak_cap : ℕ
heap_leak_cap = 256

-- `heap_block_t`, its padding left out
pub record Block : Type 0 where
  pub magic : ℕ
  pub size : ℕ
  pub is_free : Bool

-- `heap_leak_t`
pub record Leak : Type 0 where
  pub ptr : ℕ
  pub size : ℕ
  pub caller : ℕ

-- `mem` is the memory read as headers, `leaks` and `leak_count` are `g_leaks` and `g_leak_count`.
-- What callers write into their own data is not part of the state.
pub record Heap : Type 0 where
  pub mem : ℕ → Block
  pub heap_end : ℕ
  pub leaks : ℕ → Leak
  pub leak_count : ℕ

-- `panic` is the halt of `heap_panic`; `out_of_fuel` stands for a walk that is cut off.
pub data Result {ℓ} (A : Type ℓ) : Type ℓ where
  ok : A → Result A
  panic : Result A
  out_of_fuel : Result A

pub leak_add : (ptr size caller : ℕ) → Heap → Heap
leak_add ptr size caller h = if leb heap_leak_cap h.leak_count then h else record h {
  leaks = update h.leaks h.leak_count (record { ptr = ptr; size = size; caller = caller });
  leak_count = h.leak_count + 1;
}

-- `n` rounds of the search of `leak_del` from index `i` on
pub leak_del_loop : ℕ → ℕ → ℕ → Heap → Heap
leak_del_loop zero i ptr h = h
leak_del_loop (suc n) i ptr h =
    let rest = leak_del_loop n (i + 1) ptr h in
    if (h.leaks i).ptr == ptr
    then record h {
      leaks = update h.leaks i (h.leaks (h.leak_count - 1));
      leak_count = h.leak_count - 1;
    }
    else rest

pub leak_del : ℕ → Heap → Heap
leak_del ptr h = leak_del_loop h.leak_count 0 ptr h

-- The state that `heap_init` leaves once its pages are mapped: one free block over all of them.
pub heap_init_block : (ℕ → Block) → Heap
heap_init_block mem = record {
  mem =
      update mem heap_start
        (record { magic = heap_magic; size = heap_initial_size - header_size; is_free = true });
  heap_end = heap_start + heap_initial_size;
  leaks = λ i. record { ptr = 0; size = 0; caller = 0 };
  leak_count = 0;
}

-- `(size + 3) & ~3` on a 64-bit `size_t`
abbrev pub align : ℕ → ℕ
align size = u64 (size + 3) / 4 * 4

-- the header that follows the block at `addr`
abbrev pub next_block : (ℕ → Block) → ℕ → ℕ
next_block mem addr = addr + header_size + (mem addr).size

-- The block at `addr`, free and with at least `size` bytes, is split if the rest is worth a header,
-- and marked as used.
pub carve : ℕ → ℕ → (ℕ → Block) → ℕ → Block
carve addr size mem =
    let block = mem addr in
    if leb (header_size + heap_min_split) (block.size - size)
    then update
        (update mem (addr + header_size + size) (record {
          magic = heap_magic;
          size = u32 (block.size - size - header_size);
          is_free = true;
        }))
        addr (record block { size = u32 size; is_free = false })
    else update mem addr (record block { is_free = false })

-- Taking the block at `addr`: the pointer behind its header, recorded with the bytes it has.
pub give : (addr size caller : ℕ) → Heap → ℕ × Heap
give addr size caller h =
    let mem = carve addr size h.mem in
    let ptr = addr + header_size in
    (ptr, leak_add ptr (mem addr).size caller (record h { mem = mem }))

-- The walk of `kmalloc` from the header at `addr` on. Headers lie below `heap_end` and sizes are
-- 32-bit, so the address cannot wrap.
pub kmalloc_loop : ℕ → (addr size caller : ℕ) → Heap → Result (ℕ × Heap)
kmalloc_loop zero addr size caller h = out_of_fuel
kmalloc_loop (suc fuel) addr size caller h =
    let rest = kmalloc_loop fuel (next_block h.mem addr) size caller h in
    let block = h.mem addr in
    if ltb addr h.heap_end
    then (if block.magic == heap_magic
        then (if block.is_free && leb size block.size then ok (give addr size caller h) else rest)
        else panic)
    else ok (0, h)

-- `caller` is the return address that the leak table keeps. A null pointer is 0.
pub kmalloc : (size caller : ℕ) → Heap → Result (ℕ × Heap)
kmalloc size caller h =
    if size == 0 then ok (0, h) else kmalloc_loop (suc h.heap_end) heap_start (align size) caller h

-- The block at `addr` absorbs the next one, if that is a free block below the end of the heap.
pub coalesce : ℕ → Heap → Heap
coalesce addr h =
    let next = next_block h.mem addr in
    if ltb next h.heap_end && ((h.mem next).magic == heap_magic) && (h.mem next).is_free
    then record h {
      mem = update h.mem addr (record (h.mem addr) {
        size = u32 ((h.mem addr).size + (header_size + (h.mem next).size));
      });
    }
    else h

-- `ptr - sizeof(heap_block_t)` on a 64-bit `uintptr_t`
abbrev pub header_of : ℕ → ℕ
header_of ptr = u64 (ptr + 2 ^ 64 - header_size)

pub kfree : ℕ → Heap → Result Heap
kfree ptr h =
    let addr = header_of ptr in
    let block = h.mem addr in
    if ptr == 0
    then ok h
    else if block.magic == heap_magic
    then (if block.is_free
        then panic
        else ok (
            coalesce addr (
              leak_del ptr
                (record h { mem = update h.mem addr (record block { is_free = true }) }))))
    else panic

-- The walk of `heap_free_bytes`: a header with a wrong magic number ends it.
pub free_bytes_loop : ℕ → (addr total : ℕ) → Heap → Result ℕ
free_bytes_loop zero addr total h = out_of_fuel
free_bytes_loop (suc fuel) addr total h =
    let block = h.mem addr in
    let rest =
      free_bytes_loop fuel (next_block h.mem addr)
        (if block.is_free then u32 (total + block.size) else total) h in
    if ltb addr h.heap_end then (if block.magic == heap_magic then rest else ok total) else ok total

pub heap_free_bytes : Heap → Result ℕ
heap_free_bytes h = free_bytes_loop (suc h.heap_end) heap_start 0 h
