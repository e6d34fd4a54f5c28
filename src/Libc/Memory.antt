-- ===== src/Libc/Memory.antt =====
-- `memset`, `memcpy`, `memmove` and `memcmp` of iklibc/src/string.c, against the copy of a block at
-- once.
use iron_kernel.Prelude.{
  ℕ, zero, suc, ◌+◌, ◌-◌, ◌≤◌, ◌<◌, ◌≡◌, ◌∙◌, sym, ap, ◌⊎◌, inl, inr, ◌&&◌, arith, ltb, leb, ◌==◌,
  ==_iff, Bool-cases, if_true, if_false, if◌then◌else◌, update, u8,
}
use iron_kernel.Prelude.Int.{ℤ, pos, negsuc}

abbrev pub Mem : Type 0
Mem = ℕ → ℕ

unfoldable pub memset : (s c n : ℕ) → Mem → Mem
memset s c zero mem = mem
memset s c (suc n) mem = memset (s + 1) c n (update mem s (u8 c))

-- `while (n--) *d++ = *s++;`
unfoldable pub memcpy : (dst src n : ℕ) → Mem → Mem
memcpy dst src zero mem = mem
memcpy dst src (suc n) mem = memcpy (dst + 1) (src + 1) n (update mem dst (mem src))

-- `while (n--) *--d = *--s;`, where `d` and `s` start `n` bytes behind `dst` and `src`
unfoldable pub move_down : (dst src n : ℕ) → Mem → Mem
move_down dst src zero mem = mem
move_down dst src (suc n) mem = move_down dst src n (update mem (dst + n) (mem (src + n)))

unfoldable pub memmove : (dst src n : ℕ) → Mem → Mem
memmove dst src n mem =
    if ltb dst src
    then memcpy dst src n mem
    else if ltb src dst
    then move_down dst src n mem
    else mem

-- `(int)a - (int)b` of two bytes
abbrev pub byte_diff : ℕ → ℕ → ℤ
byte_diff a b = if leb b a then pos (a - b) else negsuc (b - a - 1)

unfoldable pub memcmp : (a b n : ℕ) → Mem → ℤ
memcmp a b zero mem = pos 0
memcmp a b (suc n) mem =
    let rest = memcmp (a + 1) (b + 1) n mem in
    if mem a == mem b then rest else byte_diff (mem a) (mem b)

-- The block of `n` bytes at `src`, put at `dst` at once.
abbrev pub block_copy : (dst src n : ℕ) → Mem → Mem
block_copy dst src n mem i = if leb dst i && ltb i (dst + n) then mem (src + (i - dst)) else mem i

abbrev pub block_fill : (s c n : ℕ) → Mem → Mem
block_fill s c n mem i = if leb s i && ltb i (s + n) then u8 c else mem i

-- Going up is right where no byte is overwritten before it is read.
pub memcpy_up :
    (dst src n : ℕ) (mem : Mem) (i : ℕ)
    → (dst ≤ src) ⊎ (src + n ≤ dst)
    → memcpy dst src n mem i ≡ block_copy dst src n mem i
unfolding memcpy
memcpy_up dst src zero mem i h = ground arith
memcpy_up dst src (suc n) mem i h =
    memcpy_up (dst + 1) (src + 1) n (update mem dst (mem src)) i (ground arith) ∙ ground arith

move_down_lem :
    (dst src n : ℕ) (mem : Mem) (i : ℕ)
    → src ≤ dst
    → move_down dst src n mem i ≡ block_copy dst src n mem i
unfolding move_down
move_down_lem dst src zero mem i h = ground arith
move_down_lem dst src (suc n) mem i h =
    move_down_lem dst src n (update mem (dst + n) (mem (src + n))) i h ∙ ground arith

-- `memmove` is the copy of a block at once, whatever way the two blocks overlap.
pub memmove_lem :
    (dst src n : ℕ) (mem : Mem) (i : ℕ) → memmove dst src n mem i ≡ block_copy dst src n mem i
unfolding memmove
memmove_lem dst src n mem i = elim (Bool-cases (ltb dst src)) [
  | inl up ↦ ap (λ (m : Mem). m i) (if_true _ _ _ up) ∙ memcpy_up dst src n mem i (ground arith)
  | inr not_up ↦ ap (λ (m : Mem). m i) (if_false _ _ _ not_up) ∙ elim (Bool-cases (ltb src dst)) [
    | inl down ↦
        ap (λ (m : Mem). m i) (if_true _ _ _ down) ∙ move_down_lem dst src n mem i (ground arith)
    | inr same ↦ ap (λ (m : Mem). m i) (if_false _ _ _ same) ∙ stays (ground arith)
  ]
]
  where
    stays : dst ≡ src → mem i ≡ block_copy dst src n mem i
    stays e = ground arith

-- `memset` writes its byte to the block and nothing else.
pub memset_lem : (s c n : ℕ) (mem : Mem) (i : ℕ) → memset s c n mem i ≡ block_fill s c n mem i
unfolding memset
memset_lem s c zero mem i = ground arith
memset_lem s c (suc n) mem i = memset_lem (s + 1) c n (update mem s (u8 c)) i ∙ ground arith

pub byte_diff_zero : (a b : ℕ) → byte_diff a b ≡ pos 0 → a ≡ b
byte_diff_zero a b h = ground arith

first_or :
    (P : ℕ → Type 0) (n : ℕ) → P 0 → ((i : ℕ) → i < n → P (suc i)) → (i : ℕ) → i < suc n → P i
first_or P n here later zero h = here
first_or P n here later (suc i) h = later i (omega arith)

-- Where `memcmp` answers 0 the blocks are equal.
pub memcmp_zero :
    (a b n : ℕ) (mem : Mem) → memcmp a b n mem ≡ pos 0 → (i : ℕ) → i < n → mem (a + i) ≡ mem (b + i)
unfolding memcmp
memcmp_zero a b zero mem h i l = absurd (omega arith)
memcmp_zero a b (suc n) mem h i l = elim (Bool-cases (mem a == mem b)) [
  | inr differ ↦ cc (differ, (==_iff _ _).1 (byte_diff_zero _ _ (sym (if_false _ _ _ differ) ∙ h)))
  | inl same ↦
      first_or (λ i. mem (a + i) ≡ mem (b + i)) n (ground arith)
        (λ i l.
          let e : a + suc i ≡ a + 1 + i = omega arith in
          let f : b + suc i ≡ b + 1 + i = omega arith in
          ap mem e
          ∙ (memcmp_zero (a + 1) (b + 1) n mem (sym (if_true _ _ _ same) ∙ h) i l ∙ sym (ap mem f)))
        i l
]
