-- ===== src/Pmm/Tests.antt =====
-- Runs of the frame allocator, and the theorems at a concrete bitmap.
use iron_kernel.Prelude.{
  ℕ, ◌*◌, ◌/◌, ◌≤◌, ◌<◌, ◌≡◌, ◌⊎◌, refl, true, [], ◌∷◌, arith, ◌==◌, if◌then◌else◌,
}
use iron_kernel.Pmm.{
  Pmm, Region, pmm_frame_size, pmm_max_frames, pmm_alloc_frame, pmm_init, find_frame, find_bit,
  grant,
}
use iron_kernel.Pmm.Frames.{is_used}
use iron_kernel.Pmm.Alloc.{IsPmm, Took, pmm_alloc_frame_lem}
use iron_kernel.Pmm.Reserved.{pmm_init-reserved}

-- The first two bytes are full, and one bit of the third.
abbrev partly : Pmm
partly = record {
  bitmap = λ i. if i == 0 then 0xFF else if i == 1 then 0xFF else if i == 2 then 0x01 else 0;
  total_frames = 1000;
  free_frame_count = 5;
}

partly-IsPmm : IsPmm partly
partly-IsPmm i = ground arith

seventeenth : (pmm_alloc_frame partly).0 ≡ 17 * 4096
unfolding pmm_alloc_frame find_frame find_bit grant
seventeenth = refl

pmm_alloc_frame_lem_example :
    (((partly.free_frame_count ≡ 0)
        ⊎ ((g : ℕ) → g < pmm_max_frames → is_used partly.bitmap g ≡ true))
      × (pmm_alloc_frame partly ≡ (0, partly)))
    ⊎ ((f : ℕ) × Took partly f (pmm_alloc_frame partly))
pmm_alloc_frame_lem_example = pmm_alloc_frame_lem partly partly-IsPmm

abbrev ram : Region
ram = record { base_addr = 0x100000; length = 0x1000000; available = true }

pmm_init-reserved_example :
    ((g : ℕ) → g < 256 → is_used (pmm_init (ram ∷ []) 0x100000 0x180000 partly).bitmap g ≡ true)
    × ((x : ℕ)
        → 0x100000 ≤ x
        → x < 0x180000
        → is_used (pmm_init (ram ∷ []) 0x100000 0x180000 partly).bitmap (x / pmm_frame_size) ≡ true)
pmm_init-reserved_example =
    pmm_init-reserved (ram ∷ []) 0x100000 0x180000 partly partly-IsPmm (omega arith)
