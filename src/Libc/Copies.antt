-- ===== src/Libc/Copies.antt =====
-- `strcpy`, `strncpy`, `strcat` and `strncat` of iklibc/src/string.c.
use iron_kernel.Prelude.{
  ℕ, zero, suc, ◌+◌, ◌-◌, ◌<◌, ◌≡◌, ◌∙◌, sym, ap, ◌⊎◌, Option, none, some, List, [], ◌∷◌, arith,
  ◌==◌, ==_iff, ==_ne, if_true, if_false, if◌then◌else◌, length, update, update_same, update_ne,
}
use iron_kernel.Libc.Memory.{Mem, memset, memset_lem}
use iron_kernel.Libc.Text.{IsText}

-- `while ((*d++ = *src++));`
unfoldable pub strcpy : (fuel dst src : ℕ) → Mem → Option Mem
strcpy zero dst src mem = none
strcpy (suc fuel) dst src mem =
    let written = update mem dst (mem src) in
    let rest = strcpy fuel (dst + 1) (src + 1) written in
    if mem src == 0 then some written else rest

-- `while (n && (*d++ = *src++)) n--;`: the count that is left, where `d` stands, and the memory.
-- When the 0 is copied, `d` moves on and the count does not go down.
unfoldable pub strncpy_loop : (dst src n : ℕ) → Mem → ℕ × ℕ × Mem
strncpy_loop dst src zero mem = (0, dst, mem)
strncpy_loop dst src (suc n) mem =
    let written = update mem dst (mem src) in
    let rest = strncpy_loop (dst + 1) (src + 1) n written in
    if mem src == 0 then (suc n, dst + 1, written) else rest

-- then `while (n--) *d++ = 0;`
unfoldable pub strncpy : (dst src n : ℕ) → Mem → Mem
strncpy dst src n mem =
    let (left, d, written) = strncpy_loop dst src n mem in memset d 0 left written

-- `while (*d) d++;`
unfoldable pub end_of : (fuel d : ℕ) → Mem → Option ℕ
end_of zero d mem = none
end_of (suc fuel) d mem = let rest = end_of fuel (d + 1) mem in if mem d == 0 then some d else rest

unfoldable pub strcat : (fuel dst src : ℕ) → Mem → Option Mem
strcat fuel dst src mem = elim (end_of fuel dst mem) [
  | none ↦ none
  | some d ↦ strcpy fuel d src mem
]

-- `while (n-- && (*d++ = *src++)); *d = 0;`
unfoldable pub strncat_loop : (d src n : ℕ) → Mem → Mem
strncat_loop d src zero mem = update mem d 0
strncat_loop d src (suc n) mem =
    let written = update mem d (mem src) in
    let rest = strncat_loop (d + 1) (src + 1) n written in
    if mem src == 0 then update written (d + 1) 0 else rest

pub strncat : (fuel dst src n : ℕ) → Mem → Option Mem
strncat fuel dst src n mem = elim (end_of fuel dst mem) [
  | none ↦ none
  | some d ↦ some (strncat_loop d src n mem)
]

-- A write outside a text leaves it.
IsText-update :
    (mem : Mem) (p a v : ℕ) (cs : List ℕ)
    → IsText mem p cs
    → (a < p) ⊎ (p + length cs < a)
    → IsText (update mem a v) p cs
IsText-update mem p a v [] t h = update_ne mem a p v (ground arith) ∙ t
IsText-update mem p a v (c ∷ cs) t h = (
  update_ne mem a p v (ground arith) ∙ t.0,
  t.1,
  IsText-update mem (p + 1) a v cs t.2 (ground arith),
)

-- The two blocks of a copy with the 0 behind it do not meet.
abbrev pub Apart : (dst src : ℕ) → List ℕ → Type 0
Apart dst src cs = (dst + length cs < src) ⊎ (src + length cs < dst)

-- What a copy of `cs` to `dst` leaves: the text there, and every other byte as it was.
abbrev pub CopyOf : (dst : ℕ) → List ℕ → Mem → Mem → Type 0
CopyOf dst cs mem mem' =
    IsText mem' dst cs × ((i : ℕ) → (i < dst) ⊎ (dst + length cs < i) → mem' i ≡ mem i)

-- `strcpy` of a text to a block that does not meet it ends, with the text there and every other
-- byte as it was.
pub strcpy_lem :
    (fuel dst src : ℕ) (mem : Mem) (cs : List ℕ)
    → IsText mem src cs
    → Apart dst src cs
    → length cs < fuel
    → (mem' : Mem) × (strcpy fuel dst src mem ≡ some mem') × CopyOf dst cs mem mem'
unfolding strcpy
strcpy_lem zero dst src mem cs t ap h = absurd (omega arith)
strcpy_lem (suc fuel) dst src mem [] t apart h = (
  update mem dst (mem src),
  if_true _ _ _ ((==_iff _ _).1 t),
  (update_same mem dst (mem src) ∙ t, λ i o. update_ne mem dst i (mem src) (ground arith)),
)
strcpy_lem (suc fuel) dst src mem (c ∷ cs) t apart h =
    let written = update mem dst (mem src) in
    let (mem', e, (text, others)) =
      strcpy_lem fuel (dst + 1) (src + 1) written cs
        (IsText-update mem (src + 1) dst (mem src) cs t.2 (ground arith)) (ground arith)
        (omega arith) in
    (
      mem',
      if_false _ _ _ (==_ne (mem src) 0 λ z. t.1 (sym t.0 ∙ z)) ∙ e,
      (
        (others dst (omega arith) ∙ (update_same mem dst (mem src) ∙ t.0), t.1, text),
        λ i o. others i (ground arith) ∙ update_ne mem dst i (mem src) (ground arith),
      ),
    )

strncpy_loop_short :
    (dst src n : ℕ) (mem : Mem) (cs : List ℕ)
    → IsText mem src cs
    → (dst + n < src) ⊎ (src + length cs < dst)
    → length cs < n
    → (w : Mem) × (strncpy_loop dst src n mem ≡ (n - length cs, dst + length cs + 1, w))
unfolding strncpy_loop
strncpy_loop_short dst src zero mem cs t apart h = absurd (omega arith)
strncpy_loop_short dst src (suc n) mem [] t apart h =
    let l : suc n ≡ suc n - 0 = omega arith in
    let d : dst + 1 ≡ dst + 0 + 1 = omega arith in
    (
      update mem dst (mem src),
      if_true _ _ _ ((==_iff _ _).1 t) ∙ λ i. (l i, d i, update mem dst (mem src)),
    )
strncpy_loop_short dst src (suc n) mem (c ∷ cs) t apart h =
    let written = update mem dst (mem src) in
    let (w, e) =
      strncpy_loop_short (dst + 1) (src + 1) n written cs
        (IsText-update mem (src + 1) dst (mem src) cs t.2 (ground arith)) (ground arith)
        (omega arith) in
    let l : n - length cs ≡ suc n - suc (length cs) = omega arith in
    let d : dst + 1 + length cs + 1 ≡ dst + suc (length cs) + 1 = omega arith in
    (w, if_false _ _ _ (==_ne (mem src) 0 λ z. t.1 (sym t.0 ∙ z)) ∙ (e ∙ λ i. (l i, d i, w)))

-- With a source shorter than `n` characters, `strncpy` writes a 0 behind the `n` bytes of its
-- destination, whatever stood there.
pub strncpy_overruns :
    (dst src n : ℕ) (mem : Mem) (cs : List ℕ)
    → IsText mem src cs
    → (dst + n < src) ⊎ (src + length cs < dst)
    → length cs < n
    → strncpy dst src n mem (dst + n) ≡ 0
unfolding strncpy
strncpy_overruns dst src n mem cs t apart h =
    let (w, e) = strncpy_loop_short dst src n mem cs t apart h in
    ap (λ (r : ℕ × ℕ × Mem). memset r.1 0 r.0 r.2 (dst + n)) e
    ∙ (memset_lem (dst + length cs + 1) 0 (n - length cs) w (dst + n) ∙ ground arith)
