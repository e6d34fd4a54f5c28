-- ===== src/Pmm/Frames.antt =====
-- The bitmap of src/kernel/pmm.c as the set of the frames in use.
use iron_kernel.Prelude.{
  ℕ, ◌/◌, ◌%◌, ◌<◌, ◌≡◌, ap, ap₂, ==_ne, ◌≢◌, Bool, true, false, arith, ◌==◌, ==_iff, if◌then◌else◌,
  update_same, update_ne,
}
use native.Mathlib.Decide.{ℕ_discrete}
use iron_kernel.Prelude.Bits.{bit, bit-set_bit, bit-clear_bit, set_bit-lt, clear_bit-lt}
use iron_kernel.Pmm.{byte_of, bit_of, pmm_set_frame, pmm_clear_frame, pmm_test_frame}

-- Frame number `f` is in use.
abbrev pub is_used : (ℕ → ℕ) → ℕ → Bool
is_used bm f = bit (bm (f / 8)) (f % 8)

-- The entries of the bitmap are bytes.
abbrev pub AreBytes : (ℕ → ℕ) → Type 0
AreBytes bm = (i : ℕ) → bm i < 256

-- A 32-bit address of frame `f`.
abbrev pub IsAddr : ℕ → ℕ → Type 0
IsAddr f addr = (addr < 4294967296) × (addr / 4096 ≡ f)

module _ (bm : ℕ → ℕ) (v : AreBytes bm) (f addr : ℕ) (a : IsAddr f addr) where
  pub pmm_set_frame-AreBytes : AreBytes (pmm_set_frame addr bm)
  unfolding pmm_set_frame
  pmm_set_frame-AreBytes i =
      ground
        (arith, v i, set_bit-lt (bm (byte_of addr)) (bit_of addr) (v (byte_of addr)) (omega arith))

  pub pmm_clear_frame-AreBytes : AreBytes (pmm_clear_frame addr bm)
  unfolding pmm_clear_frame
  pmm_clear_frame-AreBytes i =
      ground (
        arith,
        v i,
        clear_bit-lt (bm (byte_of addr)) (bit_of addr) (v (byte_of addr)) (omega arith),
      )

  same_bit : (g : ℕ) → f / 8 ≡ g / 8 → (bit_of addr == g % 8) ≡ (f == g)
  same_bit g e = elim (ℕ_discrete f g) [
    | yes p ↦
        let b : bit_of addr ≡ g % 8 = omega (arith, p) in rw ((==_iff _ _).1 b, (==_iff _ _).1 p)
    | no np ↦ let b : bit_of addr ≢ g % 8 = omega (arith, np) in rw (==_ne _ _ b, ==_ne _ _ np)
  ]

  -- After `pmm_set_frame` its frame is in use, and every other frame as before.
  pub is_used-set :
      (g : ℕ) → is_used (pmm_set_frame addr bm) g ≡ (if f == g then true else is_used bm g)
  unfolding pmm_set_frame
  is_used-set g = elim (ℕ_discrete (f / 8) (g / 8)) [
    | yes e ↦
        let k : g / 8 ≡ byte_of addr = omega (arith, e) in
        rw (k, update_same bm (byte_of addr) _, ← same_bit g e)
          (bit-set_bit (bm (byte_of addr)) (bit_of addr) (v (byte_of addr)) (omega arith) (g % 8)
            (omega arith))
    | no ne ↦
        let k : g / 8 ≢ byte_of addr = omega (arith, ne) in
        let d : f ≢ g = λ e. ne (ap (λ x. x / 8) e) in
        rw (update_ne bm (byte_of addr) (g / 8) _ k, ==_ne f g d)
  ]

  -- After `pmm_clear_frame` its frame is free, and every other frame as before.
  pub is_used-clear :
      (g : ℕ) → is_used (pmm_clear_frame addr bm) g ≡ (if f == g then false else is_used bm g)
  unfolding pmm_clear_frame
  is_used-clear g = elim (ℕ_discrete (f / 8) (g / 8)) [
    | yes e ↦
        let k : g / 8 ≡ byte_of addr = omega (arith, e) in
        rw (k, update_same bm (byte_of addr) _, ← same_bit g e)
          (bit-clear_bit (bm (byte_of addr)) (bit_of addr) (v (byte_of addr)) (omega arith) (g % 8)
            (omega arith))
    | no ne ↦
        let k : g / 8 ≢ byte_of addr = omega (arith, ne) in
        let d : f ≢ g = λ e. ne (ap (λ x. x / 8) e) in
        rw (update_ne bm (byte_of addr) (g / 8) _ k, ==_ne f g d)
  ]

  pub test_frame_lem : pmm_test_frame addr bm ≡ is_used bm f
  unfolding pmm_test_frame
  test_frame_lem =
      let k : byte_of addr ≡ f / 8 = omega arith in
      let b : bit_of addr ≡ f % 8 = omega arith in ap₂ (λ i j. bit (bm i) j) k b
