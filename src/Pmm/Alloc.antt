-- ===== src/Pmm/Alloc.antt =====
-- `pmm_alloc_frame` and `pmm_free_frame` of src/kernel/pmm.c on the set of frames in use.
use iron_kernel.Prelude.{
  ℕ, zero, suc, ◌+◌, ◌*◌, ◌/◌, ◌%◌, ◌^◌, ◌≤◌, ◌<◌, ◌≡◌, ◌∙◌, refl, sym, ap, ◌≢◌, ◌⊎◌, true, false,
  inl, inr, Option, none, some, arith, ◌==◌, ==_iff, ==_ne, ==_refl, if◌then◌else◌, Bool-cases,
}
use native.Mathlib.Decide.{ℕ_discrete, dec_lt}
use iron_kernel.Prelude.Bits.{bit, sweep, sweep_lem}
use iron_kernel.Pmm.{
  Pmm, pmm_frame_size, pmm_bitmap_size, pmm_max_frames, find_bit, find_frame, grant,
  pmm_alloc_frame, pmm_free_frame,
}
use iron_kernel.Pmm.Frames.{
  is_used, AreBytes, IsAddr, is_used-set, is_used-clear, pmm_set_frame-AreBytes,
  pmm_clear_frame-AreBytes,
}

FirstBit : (n b x : ℕ) → Option ℕ → Type 0
FirstBit n b x none = (c : ℕ) → b ≤ c → c < b + n → bit x c ≡ true
FirstBit n b x (some d) =
    (b ≤ d) × (d < b + n) × (bit x d ≡ false) × ((c : ℕ) → b ≤ c → c < d → bit x c ≡ true)

find_bit_lem : (n b x : ℕ) → FirstBit n b x (find_bit n b x)
unfolding FirstBit find_bit
find_bit_lem zero b x = λ c h k. absurd (omega arith)
find_bit_lem (suc n) b x = elim (Bool-cases (bit x b)) [
  | inl on ↦ rw on (later (find_bit n (b + 1) x) on (find_bit_lem n (b + 1) x))
  | inr off ↦ rw off (omega arith, omega arith, off, λ c h k. absurd (omega arith))
]
  where
    at_first : (c : ℕ) → bit x b ≡ true → (b + 1 ≤ c → bit x c ≡ true) → b ≤ c → bit x c ≡ true
    at_first c on rest h = elim (ℕ_discrete b c) [
      | yes e ↦ rw (← e) on
      | no ne ↦ rest (omega (arith, ne))
    ]

    later : (o : Option ℕ) → bit x b ≡ true → FirstBit n (b + 1) x o → FirstBit (suc n) b x o
    later none on f = λ c h k. at_first c on (λ l. f c l (omega arith)) h
    later (some d) on f =
        (omega (arith, f.0), omega (arith, f.1), f.2, λ c h k. at_first c on (λ l. f.3 c l k) h)

all_ones : sweep 8 0 (bit 0xFF) ≡ true
unfolding sweep
all_ones = refl

-- The first frame that is not in use, among those of the `n` bytes from index `i` on.
abbrev FirstFrame : (n i : ℕ) → (ℕ → ℕ) → Option ℕ → Type 0
FirstFrame n i bm none = (g : ℕ) → i * 8 ≤ g → g < (i + n) * 8 → is_used bm g ≡ true
FirstFrame n i bm (some f) =
    (i * 8 ≤ f)
    × (f < (i + n) * 8)
    × (is_used bm f ≡ false)
    × ((g : ℕ) → i * 8 ≤ g → g < f → is_used bm g ≡ true)

-- A byte with no clear bit, and the bytes after it.
skip_byte :
    (n i : ℕ) (bm : ℕ → ℕ) (o : Option ℕ)
    → ((c : ℕ) → c < 8 → bit (bm i) c ≡ true)
    → FirstFrame n (i + 1) bm o
    → FirstFrame (suc n) i bm o
skip_byte n i bm o full f = go o f
  where
    here : (g : ℕ) → g / 8 ≡ i → is_used bm g ≡ true
    here g e = rw e (full (g % 8) (omega arith))

    at_first : (g : ℕ) → i * 8 ≤ g → ((i + 1) * 8 ≤ g → is_used bm g ≡ true) → is_used bm g ≡ true
    at_first g h rest = elim (dec_lt g ((i + 1) * 8)) [
      | yes p ↦ here g (omega arith)
      | no np ↦ rest (omega (arith, np))
    ]

    go : (o : Option ℕ) → FirstFrame n (i + 1) bm o → FirstFrame (suc n) i bm o
    go none f = λ g h k. at_first g h λ l. f g l (omega arith)
    go (some d) f =
        (omega (arith, f.0), omega (arith, f.1), f.2, λ g h k. at_first g h λ l. f.3 g l k)

-- A byte other than 0xFF: the inner loop answers, or the bytes after it do.
try_byte :
    (n i : ℕ) (bm : ℕ → ℕ) (o rest : Option ℕ)
    → FirstFrame n (i + 1) bm rest
    → FirstBit 8 0 (bm i) o
    → FirstFrame (suc n) i bm (elim o [ none ↦ rest | some b ↦ some (i * 8 + b) ])
unfolding FirstBit
try_byte n i bm none rest r f = skip_byte n i bm rest (λ c h. f c (omega arith) h) r
try_byte n i bm (some b) rest r f =
    let d : (i * 8 + b) / 8 ≡ i = omega (arith, f.1) in
    let m : (i * 8 + b) % 8 ≡ b = omega (arith, f.1) in
    (
      omega arith,
      omega (arith, f.1),
      rw (d, m) f.2,
      λ g h k.
          let e : g / 8 ≡ i = omega (arith, f.1) in
          rw e (f.3 (g % 8) (omega arith) (omega (arith, f.1))),
    )

find_frame_lem : (n i : ℕ) (bm : ℕ → ℕ) → FirstFrame n i bm (find_frame n i bm)
unfolding find_frame
find_frame_lem zero i bm = λ g h k. absurd (omega arith)
find_frame_lem (suc n) i bm = elim (Bool-cases (bm i == 0xFF)) [
  | inl ones ↦ rw ones (
      skip_byte n i bm (find_frame n (i + 1) bm)
        (λ c h.
          rw ((==_iff _ _).0 ones)
            (sweep_lem (bit 0xFF) 8 0 c all_ones (omega arith) (omega arith)))
        (find_frame_lem n (i + 1) bm))
  | inr some_clear ↦ rw some_clear (
      try_byte n i bm (find_bit 8 0 (bm i)) (find_frame n (i + 1) bm) (find_frame_lem n (i + 1) bm)
        (find_bit_lem 8 0 (bm i)))
]

-- The state of the allocator: a bitmap of bytes.
abbrev pub IsPmm : Pmm → Type 0
IsPmm s = AreBytes s.bitmap

-- Frame `f` was the lowest free one, and `r` is the state in which it alone has been taken.
pub record Took (s : Pmm) (f : ℕ) (r : ℕ × Pmm) : Type 0 where
  pub in_range : f < pmm_max_frames
  pub address : r.0 ≡ f * pmm_frame_size
  pub was_free : is_used s.bitmap f ≡ false
  pub lowest : (g : ℕ) → g < f → is_used s.bitmap g ≡ true
  pub marked : (g : ℕ) → is_used r.1.bitmap g ≡ (if f == g then true else is_used s.bitmap g)
  pub counted : r.1.free_frame_count + 1 ≡ s.free_frame_count
  pub valid : IsPmm r.1

grant-Took :
    (s : Pmm) (o : Option ℕ)
    → IsPmm s
    → s.free_frame_count ≢ 0
    → FirstFrame pmm_bitmap_size 0 s.bitmap o
    → (((g : ℕ) → g < pmm_max_frames → is_used s.bitmap g ≡ true) × (grant o s ≡ (0, s)))
      ⊎ ((f : ℕ) × Took s f (grant o s))
unfolding grant
grant-Took s none v ne f = inl ((λ g h. f g (omega arith) (omega arith)), refl)
grant-Took s (some f) v ne k =
    let a : IsAddr f (f * pmm_frame_size) = (omega (arith, k.1), omega arith) in
    inr (
      f,
      record {
        in_range = omega (arith, k.1);
        address = refl;
        was_free = k.2;
        lowest = λ g h. k.3 g (omega arith) h;
        marked = is_used-set s.bitmap v f (f * pmm_frame_size) a;
        counted = omega (arith, ne);
        valid = pmm_set_frame-AreBytes s.bitmap v f (f * pmm_frame_size) a;
      },
    )

-- `pmm_alloc_frame` returns 0 and changes nothing when the count of free frames is 0 or no frame
-- of the bitmap is free. Otherwise it returns the address of the lowest free frame, marks exactly
-- that frame as used, and takes one off the count.
pub pmm_alloc_frame_lem :
    (s : Pmm)
    → IsPmm s
    → (((s.free_frame_count ≡ 0) ⊎ ((g : ℕ) → g < pmm_max_frames → is_used s.bitmap g ≡ true))
        × (pmm_alloc_frame s ≡ (0, s)))
      ⊎ ((f : ℕ) × Took s f (pmm_alloc_frame s))
unfolding pmm_alloc_frame
pmm_alloc_frame_lem s v = elim (Bool-cases (s.free_frame_count == 0)) [
  | inl empty ↦ rw empty (inl (inl ((==_iff _ _).0 empty), refl))
  | inr more ↦
      let ne : s.free_frame_count ≢ 0 = λ e. cc (more, (==_iff s.free_frame_count 0).1 e) in
      rw more
        (elim (grant-Took s (find_frame pmm_bitmap_size 0 s.bitmap) v ne
          (find_frame_lem pmm_bitmap_size 0 s.bitmap)) [
            | inl (full, e) ↦ inl (inr full, e)
            | inr t ↦ inr t
          ])
]

-- `pmm_free_frame` of a 32-bit address marks exactly the frame that it lies in as free, and adds
-- one to the count, whether or not the frame was in use.
pub pmm_free_frame_lem :
    (s : Pmm) (f addr : ℕ)
    → IsPmm s
    → IsAddr f addr
    → s.free_frame_count + 1 < 2 ^ 64
    → ((g : ℕ)
        → is_used (pmm_free_frame addr s).bitmap g ≡ (if f == g then false else is_used s.bitmap g))
      × ((pmm_free_frame addr s).free_frame_count ≡ s.free_frame_count + 1)
      × IsPmm (pmm_free_frame addr s)
unfolding pmm_free_frame
pmm_free_frame_lem s f addr v a small =
    (is_used-clear s.bitmap v f addr a, omega arith, pmm_clear_frame-AreBytes s.bitmap v f addr a)

-- A frame that has just been allocated and is freed again leaves the allocator with the same
-- frames in use and the same count.
pub pmm_free_frame-pmm_alloc_frame :
    (s : Pmm)
    → IsPmm s
    → s.free_frame_count < 2 ^ 64
    → (pmm_alloc_frame s).0 ≢ 0
    → let (addr, t) = pmm_alloc_frame s in
      ((g : ℕ) → is_used (pmm_free_frame addr t).bitmap g ≡ is_used s.bitmap g)
      × ((pmm_free_frame addr t).free_frame_count ≡ s.free_frame_count)
pmm_free_frame-pmm_alloc_frame s v small ne = elim (pmm_alloc_frame_lem s v) [
  | inl (_, e) ↦ absurd (ne (ap (λ (r : ℕ × Pmm). r.0) e))
  | inr (f, t) ↦
      let addr = f * pmm_frame_size in
      let back =
        pmm_free_frame_lem (pmm_alloc_frame s).1 f addr t.valid (let i = t.in_range in omega arith)
          (let c = t.counted in omega arith) in
      rw t.address ((λ g. back.0 g ∙ again f g t), (back.1 ∙ t.counted))
]
  where
    again :
        (f g : ℕ)
        → Took s f (pmm_alloc_frame s)
        → (if f == g then false else is_used (pmm_alloc_frame s).1.bitmap g) ≡ is_used s.bitmap g
    again f g t = elim (ℕ_discrete f g) [
      | yes e ↦ rw (← e, ==_refl f) (sym t.was_free)
      | no n ↦ rw (==_ne f g n) (t.marked g ∙ (rw (==_ne f g n)))
    ]
