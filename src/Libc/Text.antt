-- ===== src/Libc/Text.antt =====
-- `strlen`, `strcmp`, `strncmp`, `strchr` and `strrchr` of iklibc/src/string.c. A loop that looks for
-- a 0 takes fuel; `none` is the loop that runs out of it.
use iron_kernel.Prelude.{
  ℕ, zero, suc, ◌+◌, ◌<◌, ◌≡◌, ◌∙◌, refl, sym, ap, subst, ◌≢◌, ◌↔◌, ◌⊎◌, inl, inr, true, false,
  ◌&&◌, not, Option, none, some, List, [], ◌∷◌, arith, ◌==◌, ==_iff, ==_ne, Bool-cases, if_true,
  if_false, if◌then◌else◌, length, u8,
}
use iron_kernel.Prelude.Int.{ℤ, pos}
use iron_kernel.Libc.Memory.{Mem, byte_diff, byte_diff_zero}

-- The text at an address: its characters, and a 0 behind them.
abbrev pub IsText : Mem → ℕ → List ℕ → Type 0
IsText mem p [] = mem p ≡ 0
IsText mem p (c ∷ cs) = (mem p ≡ c) × (c ≢ 0) × IsText mem (p + 1) cs

unfoldable pub strlen_loop : (fuel s n : ℕ) → Mem → Option ℕ
strlen_loop zero s n mem = none
strlen_loop (suc fuel) s n mem =
    let rest = strlen_loop fuel s (n + 1) mem in if mem (s + n) == 0 then some n else rest

unfoldable pub strlen : (fuel s : ℕ) → Mem → Option ℕ
strlen fuel s mem = strlen_loop fuel s 0 mem

unfoldable pub strcmp : (fuel a b : ℕ) → Mem → Option ℤ
strcmp zero a b mem = none
strcmp (suc fuel) a b mem =
    let rest = strcmp fuel (a + 1) (b + 1) mem in
    if not (mem a == 0) && (mem a == mem b) then rest else some (byte_diff (mem a) (mem b))

-- `n--` wraps to the largest `size_t` when the count is used up, and then the answer is 0.
unfoldable pub strncmp : (a b n : ℕ) → Mem → ℤ
strncmp a b zero mem = pos 0
strncmp a b (suc n) mem =
    let rest = strncmp (a + 1) (b + 1) n mem in
    if not (mem a == 0) && (mem a == mem b) then rest else byte_diff (mem a) (mem b)

-- The null pointer is 0.
unfoldable pub strchr : (fuel s c : ℕ) → Mem → Option ℕ
strchr zero s c mem = none
strchr (suc fuel) s c mem =
    let rest = strchr fuel (s + 1) c mem in
    if mem s == 0 then some (if c == 0 then s else 0) else if mem s == u8 c then some s else rest

strrchr_loop : (fuel s c last : ℕ) → Mem → Option ℕ
strrchr_loop zero s c last mem = none
strrchr_loop (suc fuel) s c last mem =
    let rest = strrchr_loop fuel (s + 1) c (if mem s == u8 c then s else last) mem in
    if mem s == 0 then some (if c == 0 then s else last) else rest

pub strrchr : (fuel s c : ℕ) → Mem → Option ℕ
strrchr fuel s c mem = strrchr_loop fuel s c 0 mem

strlen_from :
    (fuel s n : ℕ) (mem : Mem) (cs : List ℕ)
    → IsText mem (s + n) cs
    → length cs < fuel
    → strlen_loop fuel s n mem ≡ some (n + length cs)
unfolding strlen_loop
strlen_from zero s n mem cs t h = absurd (omega arith)
strlen_from (suc fuel) s n mem [] t h = rw t (ap some (omega arith))
strlen_from (suc fuel) s n mem (c ∷ cs) t h =
    if_false _ _ _ (==_ne (mem (s + n)) 0 λ e. t.1 (sym t.0 ∙ e))
    ∙ (strlen_from fuel s (n + 1) mem cs (subst (λ k. IsText mem k cs) (omega arith) t.2)
          (omega arith)
        ∙ ap some (omega arith))

-- On a text `strlen` ends, with the number of characters before the 0.
pub strlen_lem :
    (fuel s : ℕ) (mem : Mem) (cs : List ℕ)
    → IsText mem s cs
    → length cs < fuel
    → strlen fuel s mem ≡ some (length cs)
unfolding strlen
strlen_lem fuel s mem cs t h =
    strlen_from fuel s 0 mem cs (subst (λ k. IsText mem k cs) (omega arith) t) h
    ∙ ap some (omega arith)

goes_on : (x y : ℕ) → x ≢ 0 → x ≡ y → (not (x == 0) && (x == y)) ≡ true
goes_on x y h e = ground arith

stops : (x y : ℕ) → (x ≡ 0) ⊎ (x ≢ y) → (not (x == 0) && (x == y)) ≡ false
stops x y h = ground arith

-- What `strcmp` answers for two texts.
abbrev Verdict : List ℕ → List ℕ → Option ℤ → Type 0
Verdict cs ds r = (d : ℤ) × (r ≡ some d) × ((d ≡ pos 0) ↔ (cs ≡ ds))

differ :
    (x y : ℕ) (cs ds : List ℕ) (r : Option ℤ)
    → r ≡ some (byte_diff x y)
    → x ≢ y
    → cs ≢ ds
    → Verdict cs ds r
differ x y cs ds r e ne nf =
    (byte_diff x y, e, ((λ z. absurd (ne (byte_diff_zero x y z))), λ p. absurd (nf p)))

-- On two texts `strcmp` ends, and the answer is 0 exactly when the texts are equal.
pub strcmp_lem :
    (fuel a b : ℕ) (mem : Mem) (cs ds : List ℕ)
    → IsText mem a cs
    → IsText mem b ds
    → length cs < fuel
    → (d : ℤ) × (strcmp fuel a b mem ≡ some d) × ((d ≡ pos 0) ↔ (cs ≡ ds))
unfolding strcmp
strcmp_lem zero a b mem cs ds t u h = absurd (omega arith)
strcmp_lem (suc fuel) a b mem [] [] t u h =
    (pos 0, if_false _ _ _ (stops _ _ (inl t)) ∙ rw (t, u) refl, ((λ e. refl), λ e. refl))
strcmp_lem (suc fuel) a b mem [] (d ∷ ds) t u h =
    differ (mem a) (mem b) [] (d ∷ ds) _ (if_false _ _ _ (stops _ _ (inl t)))
      (λ e. u.1 (sym u.0 ∙ (sym e ∙ t))) λ e. cc e
strcmp_lem (suc fuel) a b mem (c ∷ cs) [] t u h =
    let ne : mem a ≢ mem b = λ e. t.1 (sym t.0 ∙ (e ∙ u)) in
    differ (mem a) (mem b) (c ∷ cs) [] _ (if_false _ _ _ (stops _ _ (inr ne))) ne λ e. cc e
strcmp_lem (suc fuel) a b mem (c ∷ cs) (d ∷ ds) t u h = elim (Bool-cases (c == d)) [
  | inl e ↦
      let same : c ≡ d = (==_iff c d).0 e in
      let (r, p, q) = strcmp_lem fuel (a + 1) (b + 1) mem cs ds t.2 u.2 (omega arith) in
      (
        r,
        if_true _ _ _ (goes_on _ _ (λ z. t.1 (sym t.0 ∙ z)) (t.0 ∙ (same ∙ sym u.0))) ∙ p,
        ((λ z. let tails = q.0 z in cc (same, tails)), λ z. q.1 (cc z)),
      )
  | inr e ↦
      let other : c ≢ d = λ z. cc (e, (==_iff c d).1 z) in
      let ne : mem a ≢ mem b = λ z. other (sym t.0 ∙ (z ∙ u.0)) in
      differ (mem a) (mem b) (c ∷ cs) (d ∷ ds) _ (if_false _ _ _ (stops _ _ (inr ne))) ne
        λ z. other (cc z)
]
