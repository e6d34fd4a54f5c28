-- ===== src/Pmm/Reserved.antt =====
-- What `pmm_init` of src/kernel/pmm.c keeps out of the allocator's hands.
use iron_kernel.Prelude.{
  ℕ, zero, suc, ◌+◌, ◌-◌, ◌*◌, ◌/◌, ◌^◌, ◌≤◌, ◌<◌, ◌≡◌, ◌∙◌, refl, sym, Bool, true, false, ◌&&◌,
  inl, inr, List, [], ◌∷◌, arith, ltb, leb, ltb→lt, if◌then◌else◌, Bool-cases, u32, u64, min, ◌==◌,
  ==_iff,
}
use iron_kernel.Pmm.{
  Pmm, Region, pmm_frame_size, pmm_max_frames, pmm_test_frame, pmm_free_frame, reserve_one,
  reserve_loop, release_loop, add_region, add_regions, all_used, pmm_init,
}
use iron_kernel.Pmm.Frames.{
  is_used, IsAddr, is_used-set, test_frame_lem, pmm_set_frame-AreBytes, pmm_clear_frame-AreBytes,
}
use iron_kernel.Pmm.Alloc.{IsPmm}

-- the frames from number `a` on that begin below `to`
abbrev covers : (a to g : ℕ) → Bool
covers a to g = leb a g && ltb (g * pmm_frame_size) to

module _ (s : Pmm) (v : IsPmm s) (f addr : ℕ) (a : IsAddr f addr) where
  reserve_one-IsPmm : IsPmm (reserve_one addr s)
  unfolding reserve_one
  reserve_one-IsPmm = elim (Bool-cases (pmm_test_frame addr s.bitmap)) [
    | inl on ↦ rw on v
    | inr off ↦ rw off (pmm_set_frame-AreBytes s.bitmap v f addr a)
  ]

  reserve_one-used :
      (g : ℕ)
      → is_used (reserve_one addr s).bitmap g ≡ (if f == g then true else is_used s.bitmap g)
  unfolding reserve_one
  reserve_one-used g = elim (Bool-cases (pmm_test_frame addr s.bitmap)) [
    | inl on ↦
        let used : is_used s.bitmap f ≡ true = sym (test_frame_lem s.bitmap v f addr a) ∙ on in
        rw on (already (f == g) refl used)
    | inr off ↦ rw off (is_used-set s.bitmap v f addr a g)
  ]
    where
      already :
          (b : Bool)
          → (f == g) ≡ b
          → is_used s.bitmap f ≡ true
          → is_used s.bitmap g ≡ (if f == g then true else is_used s.bitmap g)
      already true e u = rw (e, ← (==_iff f g).0 e) u
      already false e u = rw e

-- With a round for every frame the loop marks exactly the frames that it covers.
reserve_loop_lem :
    (n a to : ℕ) (s : Pmm)
    → IsPmm s
    → to ≤ 2 ^ 32
    → to ≤ (a + n) * pmm_frame_size
    → IsPmm (reserve_loop n (a * pmm_frame_size) to s)
      × ((g : ℕ)
          → is_used (reserve_loop n (a * pmm_frame_size) to s).bitmap g
            ≡ (if covers a to g then true else is_used s.bitmap g))
unfolding reserve_loop
reserve_loop_lem zero a to s v small enough = (v, λ g. ground arith)
reserve_loop_lem (suc n) a to s v small enough = elim (Bool-cases (ltb (a * pmm_frame_size) to)) [
  | inl more ↦
      let lt = ltb→lt _ _ more in
      let addr : IsAddr a (a * pmm_frame_size) = (omega arith, omega arith) in
      let t = reserve_one (a * pmm_frame_size) s in
      let ih =
        reserve_loop_lem n (a + 1) to t (reserve_one-IsPmm s v a _ addr) small (omega arith) in
      let next : a * pmm_frame_size + pmm_frame_size ≡ (a + 1) * pmm_frame_size = omega arith in
      rw (more, next)
        (ih.0, λ g. ih.1 g ∙ ground (arith, reserve_one-used s v a (a * pmm_frame_size) addr g))
  | inr done ↦ rw done (v, λ g. ground (arith, done))
]

release_loop-IsPmm :
    (n frame end : ℕ) (s : Pmm) → IsPmm s → frame < 2 ^ 32 → IsPmm (release_loop n frame end s)
unfolding release_loop
release_loop-IsPmm zero frame end s v small = v
release_loop-IsPmm (suc n) frame end s v small =
    elim (Bool-cases (ltb frame end && ltb frame (pmm_max_frames * pmm_frame_size))) [
      | inl more ↦ rw more (
          release_loop-IsPmm n (u32 (frame + pmm_frame_size)) end (pmm_free_frame frame s)
            (unfold pmm_free_frame in
              pmm_clear_frame-AreBytes s.bitmap v (frame / 4096) frame (omega arith, refl))
            (omega arith))
      | inr done ↦ rw done v
    ]

add_regions-IsPmm : (rs : List Region) (s : ℕ × Pmm) → IsPmm s.1 → IsPmm (add_regions rs s).1
unfolding add_regions add_region
add_regions-IsPmm [] s v = v
add_regions-IsPmm (r ∷ rs) (highest, s) v =
    add_regions-IsPmm rs (add_region r (highest, s)) (elim (Bool-cases r.available) [
      | inl usable ↦ rw usable (
          release_loop-IsPmm (suc pmm_max_frames) (u32 r.base_addr) (u64 (r.base_addr + r.length)) s
            v (omega arith))
      | inr other ↦ rw other v
    ])

-- Whatever the memory map says, after `pmm_init` every frame of the first megabyte is in use, and
-- so is every frame that the kernel's image touches, for an image that ends below 4 GB less a frame.
pub pmm_init-reserved :
    (regions : List Region) (kernel_start kernel_end : ℕ) (s : Pmm)
    → IsPmm s
    → kernel_end + pmm_frame_size ≤ 2 ^ 32
    → ((g : ℕ) → g < 256 → is_used (pmm_init regions kernel_start kernel_end s).bitmap g ≡ true)
      × ((x : ℕ)
          → kernel_start ≤ x
          → x < kernel_end
          → is_used (pmm_init regions kernel_start kernel_end s).bitmap (x / pmm_frame_size) ≡ true)
unfolding pmm_init
pmm_init-reserved regions kernel_start kernel_end s v small =
    let mapped = add_regions regions (0, record s { bitmap = all_used s.bitmap }) in
    let start : IsPmm (record s { bitmap = all_used s.bitmap }) =
      λ i. unfold all_used in ground (arith, v i) in
    let after : Pmm = record mapped.1 {
      total_frames = min (u32 (mapped.0 / pmm_frame_size)) pmm_max_frames;
    } in
    let low =
      reserve_loop_lem 256 0 0x100000 after (add_regions-IsPmm regions _ start) (omega arith)
        (omega arith) in
    let k_end = u64 (kernel_end + pmm_frame_size - 1) / pmm_frame_size * pmm_frame_size in
    let kern =
      reserve_loop_lem (k_end / pmm_frame_size) (kernel_start / pmm_frame_size) k_end
        (reserve_loop 256 0 0x100000 after) low.0 (omega arith) (omega arith) in
    (
      (λ g h. kern.1 g ∙ ground (arith, low.1 g)),
      λ x h k. kern.1 (x / pmm_frame_size) ∙ ground (arith),
    )
