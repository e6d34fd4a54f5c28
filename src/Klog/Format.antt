-- ===== src/Klog/Format.antt =====
-- The texts that src/kernel/klog.c writes: numbers, times and messages.
use iron_kernel.Prelude.{
  ℕ, zero, suc, ◌+◌, ◌-◌, ◌*◌, ◌/◌, ◌%◌, ◌≡◌, ◌∙◌, refl, ap, ◌≢◌, inl, inr, List, [], ◌∷◌, ◌++◌,
  arith, ◌==◌, ==_iff, Bool-cases, if_true, if_false, length, length-append, length-replicate,
  replicate, All, take, min, length-take, ==_ne,
}
use iron_kernel.Klog.{k_strcpy, fmt_uint_w, fmt_uint_z, timestamp}

-- A decimal text read from the left, `n` so far; anything below the digits counts for nothing.
abbrev pub decimal : (n : ℕ) → List ℕ → ℕ
decimal n [] = n
decimal n (c ∷ cs) = decimal (n * 10 + (c - b'0')) cs

decimal-append :
    (n : ℕ) (xs : List ℕ) (c : ℕ) → decimal n (xs ++ (c ∷ [])) ≡ decimal n xs * 10 + (c - b'0')
decimal-append n [] c = refl
decimal-append n (x ∷ xs) c = decimal-append (n * 10 + (x - b'0')) xs c

decimal_blank : (k : ℕ) → decimal 0 (replicate k b' ') ≡ 0
decimal_blank zero = refl
decimal_blank (suc k) = decimal_blank k

length-fmt_uint_z : (v i : ℕ) → length (fmt_uint_z v i) ≡ i
unfolding fmt_uint_z
length-fmt_uint_z v zero = refl
length-fmt_uint_z v (suc i) =
    length-append (fmt_uint_z (v / 10) i) ((b'0' + v % 10) ∷ [])
    ∙ (let h = length-fmt_uint_z (v / 10) i in omega arith)

length-fmt_uint_w : (v i : ℕ) → length (fmt_uint_w v i) ≡ i
unfolding fmt_uint_w
length-fmt_uint_w v zero = refl
length-fmt_uint_w v (suc i) = elim (Bool-cases (v / 10 == 0)) [
  | inl e ↦
      ap length (if_true _ _ _ e)
      ∙ (let h = length-append (replicate i b' ') ((b'0' + v % 10) ∷ []) in
          let k : length (replicate {A = ℕ} i b' ') ≡ i = length-replicate {A = ℕ} i b' ' in
          omega arith)
  | inr e ↦
      ap length (if_false _ _ _ e)
      ∙ (let h = length-append (fmt_uint_w (v / 10) i) ((b'0' + v % 10) ∷ []) in
          let k = length-fmt_uint_w (v / 10) i in omega arith)
]

-- The remainder by a power of ten, a digit at a time.
abbrev low_digits : ℕ → ℕ → ℕ
low_digits v zero = 0
low_digits v (suc i) = low_digits (v / 10) i * 10 + v % 10

low_digits_zero : (i : ℕ) → low_digits 0 i ≡ 0
low_digits_zero zero = refl
low_digits_zero (suc i) = let h = low_digits_zero i in omega arith

decimal-fmt_uint_z : (v i : ℕ) → decimal 0 (fmt_uint_z v i) ≡ low_digits v i
unfolding fmt_uint_z
decimal-fmt_uint_z v zero = refl
decimal-fmt_uint_z v (suc i) =
    decimal-append 0 (fmt_uint_z (v / 10) i) (b'0' + v % 10)
    ∙ (let h = decimal-fmt_uint_z (v / 10) i in omega arith)

decimal-fmt_uint_w : (v i : ℕ) → decimal 0 (fmt_uint_w v i) ≡ low_digits v i
unfolding fmt_uint_w
decimal-fmt_uint_w v zero = refl
decimal-fmt_uint_w v (suc i) = elim (Bool-cases (v / 10 == 0)) [
  | inl e ↦
      let q : v / 10 ≡ 0 = (==_iff (v / 10) 0).0 e in
      let low : low_digits (v / 10) i ≡ 0 = ap (λ k. low_digits k i) q ∙ low_digits_zero i in
      let blank : decimal 0 (replicate i b' ') ≡ 0 = decimal_blank i in
      ap (decimal 0) (if_true _ _ _ e)
      ∙ (decimal-append 0 (replicate i b' ') (b'0' + v % 10) ∙ omega arith)
  | inr e ↦
      let rest : decimal 0 (fmt_uint_w (v / 10) i) ≡ low_digits (v / 10) i =
        decimal-fmt_uint_w (v / 10) i in
      ap (decimal 0) (if_false _ _ _ e)
      ∙ (decimal-append 0 (fmt_uint_w (v / 10) i) (b'0' + v % 10) ∙ omega arith)
]

-- A time stamp has 10 characters, whatever the time, so it fits its buffer of 12; its two numbers
-- read back as the seconds up to 9999, and the hundredths.
pub timestamp_lem :
    (ticks : ℕ)
    → (length (timestamp ticks) ≡ 10)
      × (decimal 0 (fmt_uint_w (ticks / 100) 4) ≡ ticks / 100 % 10000)
      × (decimal 0 (fmt_uint_z (ticks % 100) 2) ≡ ticks % 100)
unfolding timestamp
timestamp_lem ticks = (
  size,
  decimal-fmt_uint_w (ticks / 100) 4 ∙ omega arith,
  decimal-fmt_uint_z (ticks % 100) 2 ∙ omega arith,
)
  where
    size : length (timestamp ticks) ≡ 10
    size =
        let w = fmt_uint_w (ticks / 100) 4 in
        let z = fmt_uint_z (ticks % 100) 2 in
        let close : List ℕ = b']' ∷ b' ' ∷ [] in
        let a = length-append w (b'.' ∷ (z ++ close)) in
        let b = length-append z close in
        let c = length-fmt_uint_w (ticks / 100) 4 in
        let d = length-fmt_uint_z (ticks % 100) 2 in omega arith

copied :
    (src rest : List ℕ) (left : ℕ)
    → All (λ c. c ≢ 0) src
    → k_strcpy (src ++ (0 ∷ rest)) left ≡ take left src
unfolding k_strcpy
copied [] rest zero h = refl
copied (c ∷ src) rest zero h = refl
copied [] rest (suc left) h = refl
copied (c ∷ src) rest (suc left) h =
    if_false _ _ _ (==_ne c 0 h.0) ∙ ap (λ (l : List ℕ). c ∷ l) (copied src rest left h.1)

-- With room for `left` characters, `k_strcpy` copies the text at `src` up to its 0, cut off at
-- `left` if it is longer, whatever bytes follow the 0.
pub k_strcpy_lem :
    (src rest : List ℕ) (left : ℕ)
    → All (λ c. c ≢ 0) src
    → (length (k_strcpy (src ++ (0 ∷ rest)) left) ≡ min left (length src))
      × (k_strcpy (src ++ (0 ∷ rest)) left ≡ take left src)
k_strcpy_lem src rest left h =
    (ap length (copied src rest left h) ∙ length-take left src, copied src rest left h)
