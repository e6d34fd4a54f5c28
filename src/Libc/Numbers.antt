-- ===== src/Libc/Numbers.antt =====
-- `atoll` and `utoa` of iklibc/src/stdlib.c, on texts as lists of characters. `long long` does not
-- overflow on what the theorem reads.
use iron_kernel.Prelude.{
  ℕ, zero, suc, ◌+◌, ◌-◌, ◌*◌, ◌/◌, ◌%◌, ◌^◌, ◌≤◌, ◌<◌, ◌≡◌, ◌∙◌, refl, sym, ap, ◌≢◌, inl, inr,
  Bool, true, ◌&&◌, ◌||◌, List, [], ◌∷◌, arith, ltb, leb, ◌==◌, ==_iff, ==_ne, Bool-cases, if_true,
  if_false, if◌then◌else◌,
}
use iron_kernel.Prelude.Int.{ℤ, pos, negsuc}

abbrev is_digit : ℕ → Bool
is_digit c = leb b'0' c && leb c b'9'

-- `while (*s >= '0' && *s <= '9') n = n * 10 + (*s++ - '0');`
unfoldable pub digits_loop : (s : List ℕ) → (n : ℕ) → ℕ
digits_loop [] n = n
digits_loop (c ∷ s) n =
    let rest = digits_loop s (n * 10 + (c - b'0')) in if is_digit c then rest else n

abbrev pub is_blank : ℕ → Bool
is_blank c = c == b' ' || c == 9 || c == 10

unfoldable pub skip_blanks : List ℕ → List ℕ
skip_blanks [] = []
skip_blanks (c ∷ s) = let rest = skip_blanks s in if is_blank c then rest else c ∷ s

abbrev pub negate : ℕ → ℤ
negate zero = pos 0
negate (suc n) = negsuc n

unfoldable pub signed : List ℕ → ℤ
signed [] = pos 0
signed (c ∷ s) =
    if c == b'-'
    then negate (digits_loop s 0)
    else if c == b'+'
    then pos (digits_loop s 0)
    else pos (digits_loop (c ∷ s) 0)

unfoldable pub atoll : List ℕ → ℤ
atoll s = signed (skip_blanks s)

-- `digits[d]`
abbrev pub digit : ℕ → ℕ
digit d = if ltb d 10 then b'0' + d else b'a' + (d - 10)

-- `while (n > 0) { tmp[--i] = digits[n % base]; n /= base; }`, `room` places before `acc`; the 65
-- places of `tmp` hold the 64 digits of any number in any base.
unfoldable pub utoa_loop : (base room n : ℕ) → (acc : List ℕ) → List ℕ
utoa_loop base zero n acc = acc
utoa_loop base (suc room) n acc =
    let rest = utoa_loop base room (n / base) (digit (n % base) ∷ acc) in
    if n == 0 then acc else rest

unfoldable pub utoa : (n base : ℕ) → List ℕ
utoa n base =
    if ltb base 2 || ltb 36 base
    then b'0' ∷ []
    else if n == 0
    then b'0' ∷ []
    else utoa_loop base 65 n []

-- how far a number is from 0
abbrev pub magnitude : ℤ → ℕ
magnitude (pos n) = n
magnitude (negsuc n) = suc n

-- `itoa` for base 10
unfoldable pub itoa10 : ℤ → List ℕ
itoa10 (pos n) = utoa n 10
itoa10 (negsuc n) = b'-' ∷ utoa (suc n) 10

-- Numbers with at most this many binary digits.
abbrev bound : ℕ → ℕ
bound zero = 1
bound (suc room) = 2 * bound room

digit_read : (d : ℕ) → d < 10 → (is_digit (digit d) ≡ true) × (digit d - b'0' ≡ d)
digit_read d h = ground arith

-- Reading the digits that the loop writes goes on behind them from the number it was given.
digits_loop-utoa_loop :
    (room n : ℕ) (acc : List ℕ)
    → n < bound room
    → digits_loop (utoa_loop 10 room n acc) 0 ≡ digits_loop acc n
unfolding digits_loop utoa_loop
digits_loop-utoa_loop zero n acc h = ap (digits_loop acc) (omega arith)
digits_loop-utoa_loop (suc room) n acc h = elim (Bool-cases (n == 0)) [
  | inl e ↦
      ap (λ (l : List ℕ). digits_loop l 0) (if_true _ _ _ e)
      ∙ ap (digits_loop acc) (sym ((==_iff n 0).0 e))
  | inr e ↦
      let (is, back) = digit_read (n % 10) (omega arith) in
      let whole : n / 10 * 10 + (digit (n % 10) - b'0') ≡ n = omega arith in
      ap (λ (l : List ℕ). digits_loop l 0) (if_false _ _ _ e)
      ∙ (digits_loop-utoa_loop room (n / 10) (digit (n % 10) ∷ acc) (omega arith)
          ∙ (if_true _ _ _ is ∙ ap (digits_loop acc) whole))
]

-- the first character of what the loop writes
starts :
    (room n : ℕ) (acc : List ℕ)
    → 0 < n
    → n < bound room
    → (d : ℕ) × (s : List ℕ) × (d < 10) × (utoa_loop 10 room n acc ≡ digit d ∷ s)
unfolding utoa_loop
starts zero n acc p h = absurd (omega arith)
starts (suc room) n acc p h = elim (Bool-cases (n / 10 == 0)) [
  | inl e ↦ (n % 10, acc, omega arith, if_false _ _ _ (==_ne n 0 (omega arith)) ∙ last room e)
  | inr e ↦
      let more : n / 10 ≢ 0 = λ z. cc (e, (==_iff (n / 10) 0).1 z) in
      let (d, s, l, q) = starts room (n / 10) (digit (n % 10) ∷ acc) (omega arith) (omega arith) in
      (d, s, l, if_false _ _ _ (==_ne n 0 (omega arith)) ∙ q)
]
  where
    last :
        (room : ℕ)
        → (n / 10 == 0) ≡ true
        → utoa_loop 10 room (n / 10) (digit (n % 10) ∷ acc) ≡ digit (n % 10) ∷ acc
    last zero e = refl
    last (suc room) e = if_true _ _ _ e

-- What is no sign and no blank is read as a number.
plain_number :
    (d : ℕ) (s : List ℕ) → d < 10 → atoll (digit d ∷ s) ≡ pos (digits_loop (digit d ∷ s) 0)
unfolding atoll skip_blanks signed
plain_number d s h = ground arith

utoa_positive : (n : ℕ) → 0 < n → n < 2 ^ 64 → utoa n 10 ≡ utoa_loop 10 65 n []
unfolding utoa
utoa_positive n p h = if_false _ _ _ (==_ne n 0 (omega arith))

atoll-utoa : (n : ℕ) → n < 2 ^ 64 → atoll (utoa n 10) ≡ pos n
atoll-utoa zero h = unfold atoll utoa skip_blanks signed digits_loop in refl
atoll-utoa (suc n) h =
    let (d, s, l, e) = starts 65 (suc n) [] (omega arith) (omega arith) in
    ap atoll (utoa_positive (suc n) (omega arith) h ∙ e)
    ∙ (plain_number d s l
        ∙ ap pos (
            ap (λ (t : List ℕ). digits_loop t 0) (sym e)
            ∙ (digits_loop-utoa_loop 65 (suc n) [] (omega arith) ∙ empty (suc n))))
  where
    empty : (k : ℕ) → digits_loop [] k ≡ k
    empty k = unfold digits_loop in refl

-- Reading a number that `itoa` has written in base 10 gives it back, whatever its sign.
pub atoll-itoa10 : (z : ℤ) → magnitude z ≤ 2 ^ 31 → atoll (itoa10 z) ≡ z
unfolding itoa10
atoll-itoa10 (pos n) h = atoll-utoa n (omega arith)
atoll-itoa10 (negsuc n) h =
    minus (utoa (suc n) 10)
    ∙ ap negate (
        ap (λ (t : List ℕ). digits_loop t 0) (utoa_positive (suc n) (omega arith) (omega arith))
        ∙ (digits_loop-utoa_loop 65 (suc n) [] (omega arith) ∙ empty (suc n)))
  where
    minus : (s : List ℕ) → atoll (b'-' ∷ s) ≡ negate (digits_loop s 0)
    minus s = unfold atoll skip_blanks signed in refl

    empty : (k : ℕ) → digits_loop [] k ≡ k
    empty k = unfold digits_loop in refl
