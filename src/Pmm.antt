-- ===== src/Pmm.antt =====
-- The physical frame allocator: src/kernel/pmm.c and pmm.h. One bit for each frame of 4096 bytes,
-- and a running count of the free ones.
pub mod Frames
pub mod Alloc
pub mod Reserved
mod Tests
use iron_kernel.Prelude.{
  ℕ, zero, suc, min, List, [], ◌∷◌, ◌+◌, ◌-◌, ◌*◌, ◌/◌, ◌%◌, ◌^◌, Bool, ◌&&◌, Option, none, some,
  ltb, ◌==◌, if◌then◌else◌, update, u32, u64,
}
use iron_kernel.Prelude.Bits.{bit, set_bit, clear_bit}

abbrev pub pmm_frame_size : ℕ
pmm_frame_size = 4096

abbrev pub pmm_frames_per_byte : ℕ
pmm_frames_per_byte = 8

abbrev pub pmm_max_frames : ℕ
pmm_max_frames = 262144

abbrev pub pmm_bitmap_size : ℕ
pmm_bitmap_size = 32768

-- `pmm_bitmap`, `pmm_total_frames` and `pmm_free_frame_count`
pub record Pmm : Type 0 where
  pub bitmap : ℕ → ℕ
  pub total_frames : ℕ
  pub free_frame_count : ℕ

-- The byte and the bit of the frame that an address lies in. The parameter of the three bitmap
-- operations is a `uint32_t`, so a longer address is cut to 32 bits.
abbrev pub byte_of : ℕ → ℕ
byte_of addr = u32 addr / pmm_frame_size / pmm_frames_per_byte

abbrev pub bit_of : ℕ → ℕ
bit_of addr = (u32 addr / pmm_frame_size) % pmm_frames_per_byte

unfoldable pub pmm_set_frame : ℕ → (ℕ → ℕ) → ℕ → ℕ
pmm_set_frame addr bm = update bm (byte_of addr) (set_bit (bm (byte_of addr)) (bit_of addr))

pub pmm_clear_frame : ℕ → (ℕ → ℕ) → ℕ → ℕ
pmm_clear_frame addr bm = update bm (byte_of addr) (clear_bit (bm (byte_of addr)) (bit_of addr))

pub pmm_test_frame : ℕ → (ℕ → ℕ) → Bool
pmm_test_frame addr bm = bit (bm (byte_of addr)) (bit_of addr)

-- The inner loop of `pmm_alloc_frame`: the first of the `n` bits of `x` from `b` on that is clear.
unfoldable pub find_bit : ℕ → ℕ → ℕ → Option ℕ
find_bit zero b x = none
find_bit (suc n) b x = let rest = find_bit n (b + 1) x in if bit x b then rest else some b

-- The outer loop over the `n` bytes from index `i` on, with the number of the frame found.
unfoldable pub find_frame : ℕ → ℕ → (ℕ → ℕ) → Option ℕ
find_frame zero i bm = none
find_frame (suc n) i bm =
    let rest = find_frame n (i + 1) bm in
    if bm i == 0xFF
    then rest
    else elim (find_bit 8 0 (bm i)) [ none ↦ rest | some b ↦ some (i * pmm_frames_per_byte + b) ]

-- What `pmm_alloc_frame` does with the frame that its loops find: mark it, count, return its address.
unfoldable pub grant : Option ℕ → Pmm → ℕ × Pmm
grant none s = (0, s)
grant (some f) s = (
  f * pmm_frame_size,
  record s {
    bitmap = pmm_set_frame (f * pmm_frame_size) s.bitmap;
    free_frame_count = s.free_frame_count - 1;
  },
)

-- The address of the frame, or 0.
unfoldable pub pmm_alloc_frame : Pmm → ℕ × Pmm
pmm_alloc_frame s =
    if s.free_frame_count == 0 then (0, s) else grant (find_frame pmm_bitmap_size 0 s.bitmap) s

pub pmm_free_frame : ℕ → Pmm → Pmm
pmm_free_frame addr s = record s {
  bitmap = pmm_clear_frame addr s.bitmap;
  free_frame_count = u64 (s.free_frame_count + 1);
}

-- `if (!pmm_test_frame(addr)) { ... }`: the frame at `addr` is marked as used, and counted as such.
reserve_one : ℕ → Pmm → Pmm
reserve_one addr s = if pmm_test_frame addr s.bitmap then s else record s {
  bitmap = pmm_set_frame addr s.bitmap;
  free_frame_count = s.free_frame_count - 1;
}

-- The loop by which `pmm_init` reserves low memory and the kernel, frame by frame from `addr` on,
-- with `n` rounds left.
reserve_loop : ℕ → (addr to : ℕ) → Pmm → Pmm
reserve_loop zero addr to s = s
reserve_loop (suc n) addr to s =
    let rest = reserve_loop n (addr + pmm_frame_size) to (reserve_one addr s) in
    if ltb addr to then rest else s

-- `while (frame < end && frame < PMM_MAX_FRAMES * PMM_FRAME_SIZE)`, which marks the frames of one
-- region as free. `frame` is a `uint32_t`.
release_loop : ℕ → (frame end : ℕ) → Pmm → Pmm
release_loop zero frame end s = s
release_loop (suc n) frame end s =
    let rest = release_loop n (u32 (frame + pmm_frame_size)) end (pmm_free_frame frame s) in
    if ltb frame end && ltb frame (pmm_max_frames * pmm_frame_size) then rest else s

-- `mb2_mmap_entry_t`, as the boot loader wrote it
pub record Region : Type 0 where
  pub base_addr : ℕ
  pub length : ℕ
  pub available : Bool

-- One entry of the memory map: its frames become free, and the highest address is kept.
add_region : Region → ℕ × Pmm → ℕ × Pmm
add_region r (highest, s) =
    let end = u64 (r.base_addr + r.length) in
    let freed = release_loop (suc pmm_max_frames) (u32 r.base_addr) end s in
    if r.available then (if ltb highest end then end else highest, freed) else (highest, s)

add_regions : List Region → ℕ × Pmm → ℕ × Pmm
add_regions [] s = s
add_regions (r ∷ rs) s = add_regions rs (add_region r s)

-- the bitmap with every frame marked as used
all_used : (ℕ → ℕ) → ℕ → ℕ
all_used bm i = if ltb i pmm_bitmap_size then 0xFF else bm i

-- `pmm_init` once the memory map is found, with the linker's addresses of the kernel. Its two loops
-- over reserved memory are given a round for each of their frames.
pub pmm_init : List Region → (kernel_start kernel_end : ℕ) → Pmm → Pmm
pmm_init regions kernel_start kernel_end s =
    let mapped = add_regions regions (0, record s { bitmap = all_used s.bitmap }) in
    let total = u32 (mapped.0 / pmm_frame_size) in
    let low =
      reserve_loop 256 0 0x100000 (record mapped.1 { total_frames = min total pmm_max_frames }) in
    let k_start = kernel_start / pmm_frame_size * pmm_frame_size in
    let k_end = u64 (kernel_end + pmm_frame_size - 1) / pmm_frame_size * pmm_frame_size in
    reserve_loop (k_end / pmm_frame_size) k_start k_end low
