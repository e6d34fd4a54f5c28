-- ===== src/Internet/Checksum.antt =====
-- `net_checksum` of src/drivers/net.h: what its loop leaves of a sum, and that a block into which its
-- checksum was written checks.
use iron_kernel.Prelude.{
  ℕ, zero, suc, ◌+◌, ◌-◌, ◌*◌, ◌/◌, ◌%◌, ◌^◌, ◌≤◌, ◌<◌, ◌≡◌, ◌≢◌, ◌↔◌, ◌∙◌, refl, sym, ap, subst,
  false, inl, inr, List, [], ◌∷◌, ◌++◌, arith, ==_iff, ==_ne, ◌==◌, Bool-cases, if_true, if_false,
  length, All,
}
use iron_kernel.Internet.{sum_words, fold_carries, net_checksum, be16}

-- One round of the loop.
fold_step :
    (fuel s : ℕ) → 65536 ≤ s → fold_carries (suc fuel) s ≡ fold_carries fuel (s % 65536 + s / 65536)
unfolding fold_carries
fold_step fuel s h = if_false _ _ _ (==_ne (s / 65536) 0 (omega arith))

fold_done : (fuel s : ℕ) → s < 65536 → fold_carries fuel s ≡ s
unfolding fold_carries
fold_done zero s h = refl
fold_done (suc fuel) s h = if_true _ _ _ ((==_iff (s / 65536) 0).1 (omega arith))

-- What is left of a sum: a word that is equal to it modulo 65535, and 0 exactly for 0.
abbrev pub Folded : (s r : ℕ) → Type 0
Folded s r = (r < 65536) × (r % 65535 ≡ s % 65535) × ((r ≡ 0) ↔ (s ≡ 0))

Folded-step : (s r : ℕ) → 65536 ≤ s → Folded (s % 65536 + s / 65536) r → Folded s r
Folded-step s r h (a, b, c) =
    (a, omega arith, ((λ z. absurd (let e = c.0 z in omega arith)), λ z. absurd (omega arith)))

Folded-done : (fuel s : ℕ) → s < 65536 → Folded s (fold_carries fuel s)
Folded-done fuel s h = rw (fold_done fuel s h) (h, refl, ((λ z. z), λ z. z))

-- It is enough that the rest of the loop folds what one round leaves, when there is a carry.
Folded-next :
    (fuel s : ℕ)
    → (65536 ≤ s → Folded (s % 65536 + s / 65536) (fold_carries fuel (s % 65536 + s / 65536)))
    → Folded s (fold_carries (suc fuel) s)
Folded-next fuel s rest = elim (Bool-cases (s / 65536 == 0)) [
  | inl e ↦
      let small : s / 65536 ≡ 0 = (==_iff (s / 65536) 0).0 e in
      Folded-done (suc fuel) s (omega arith)
  | inr e ↦
      let large : 65536 ≤ s = carry e in
      subst (Folded s) (sym (fold_step fuel s large)) (Folded-step s _ large (rest large))
]
  where
    carry : (s / 65536 == 0) ≡ false → 65536 ≤ s
    carry e = ground arith

-- The loop of the checksum ends within its rounds for every sum of 32 bits, with a word that is equal
-- to the sum modulo 65535, and 0 exactly for the sum 0.
pub fold_carries_lem :
    (s : ℕ)
    → s < 2 ^ 32
    → (fold_carries 4 s < 65536)
      × (fold_carries 4 s % 65535 ≡ s % 65535)
      × ((fold_carries 4 s ≡ 0) ↔ (s ≡ 0))
fold_carries_lem s h =
    Folded-next 3 s λ a. Folded-next 2 _ λ b. Folded-next 1 _ λ c. Folded-done 1 _ (omega arith)

-- A sum of words with the complement of its fold folds to 65535.
pub fold_carries_full :
    (s : ℕ) → s + 65535 < 2 ^ 32 → fold_carries 4 (s + (65535 - fold_carries 4 s)) ≡ 65535
fold_carries_full s h =
    let (a, b, c) = fold_carries_lem s (omega arith) in
    let (d, e, f) = fold_carries_lem (s + (65535 - fold_carries 4 s)) (omega arith) in
    full (fold_carries 4 s) (fold_carries 4 (s + (65535 - fold_carries 4 s))) a b c.1 d e f.0
  where
    full :
        (r t : ℕ)
        → r < 65536
        → r % 65535 ≡ s % 65535
        → (s ≡ 0 → r ≡ 0)
        → t < 65536
        → t % 65535 ≡ (s + (65535 - r)) % 65535
        → (t ≡ 0 → s + (65535 - r) ≡ 0)
        → t ≡ 65535
    full r t a b c d e f =
        let divides : (s + (65535 - r)) % 65535 ≡ 0 = omega arith in
        let some : s + (65535 - r) ≢ 0 =
          λ z. let y : s ≡ 0 = omega arith in let x : r ≡ 0 = c y in omega arith in
        let positive : t ≢ 0 = λ z. some (f z) in omega arith

sum_words-append :
    (n : ℕ) (xs ys : List ℕ)
    → length xs ≡ 2 * n
    → sum_words (xs ++ ys) ≡ sum_words xs + sum_words ys
unfolding sum_words
sum_words-append n [] ys e = omega arith
sum_words-append n (x ∷ []) ys e = absurd (omega arith)
sum_words-append n (x ∷ y ∷ xs) ys e = omega (arith, sum_words-append (n - 1) xs ys (omega arith))

pub sum_bound :
    (n : ℕ) (xs : List ℕ) → All (λ x. x < 256) xs → length xs ≤ 2 * n → sum_words xs ≤ 65535 * n
unfolding sum_words
sum_bound n [] b h = omega arith
sum_bound n (x ∷ []) b h = omega arith
sum_bound n (x ∷ y ∷ xs) b h = omega (arith, sum_bound (n - 1) xs b.1.1 (omega arith))

-- A block of at most 65536 bytes into which the checksum of the block with a 0 in its place was
-- written, at an even distance from its start, has the checksum 0: it checks.
pub net_checksum_checks :
    (n m : ℕ) (front back : List ℕ)
    → length front ≡ 2 * n
    → length back ≤ 2 * m
    → n + m < 32768
    → All (λ x. x < 256) front
    → All (λ x. x < 256) back
    → net_checksum (front ++ be16 (net_checksum (front ++ be16 0 back)) back) ≡ 0
unfolding net_checksum
net_checksum_checks n m front back e h size bf bb =
    let s = sum_words front + sum_words back in
    let r = fold_carries 4 s in
    let low : s + 65535 < 2 ^ 32 =
      omega (arith, sum_bound n front bf (omega arith), sum_bound m back bb h) in
    let without : sum_words (front ++ be16 0 back) ≡ s = with_word 0 (omega arith) ∙ omega arith in
    let whole : sum_words (front ++ be16 (65535 - r) back) ≡ s + (65535 - r) =
      with_word (65535 - r) (omega arith) in
    ap
      (λ (x : ℕ).
        65535 - fold_carries 4 (sum_words (front ++ be16 (65535 - fold_carries 4 x) back)))
      without
    ∙ (ap (λ (x : ℕ). 65535 - fold_carries 4 x) whole
        ∙ (let y = fold_carries_full s low in omega arith))
  where
    with_word :
        (w : ℕ)
        → w < 65536
        → sum_words (front ++ be16 w back) ≡ sum_words front + sum_words back + w
    with_word w b = sum_words-append n front (be16 w back) e ∙ unfold sum_words in omega arith
