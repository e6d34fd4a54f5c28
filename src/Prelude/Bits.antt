-- ===== src/Prelude/Bits.antt =====
-- Single bits of a byte, by a table over all bytes.
use Prim.Native.Nat.{ℕ, zero, suc, ◌+◌, ◌-◌, ◌^◌, ◌≤◌, ◌<◌, bit_and, bit_or}
use mathlib.Core.Path.{◌≡◌, refl, subst}
use mathlib.Core.Bool.{Bool, true, false, ◌&&◌, not}
use native.Mathlib.Omega.{arith}
use native.Mathlib.Decide.{ℕ_discrete}
use iron_kernel.Prelude.Tests.{◌==◌, ltb, ltb→lt, if◌then◌else◌}

-- `test` holds at each of the `n` numbers from `i` on.
unfoldable pub sweep : ℕ → ℕ → (ℕ → Bool) → Bool
sweep zero i test = true
sweep (suc n) i test = test i && sweep n (i + 1) test

both : (a b : Bool) → (a && b) ≡ true → (a ≡ true) × (b ≡ true)
both true b e = (refl, e)
both false b e = cc

pub sweep_lem :
    (test : ℕ → Bool) (n i x : ℕ) → sweep n i test ≡ true → i ≤ x → x < i + n → test x ≡ true
unfolding sweep
sweep_lem test zero i x h lo hi = absurd (omega arith)
sweep_lem test (suc n) i x h lo hi = elim (ℕ_discrete i x) [
  | yes e ↦ subst (λ k. test k ≡ true) e (both (test i) _ h).0
  | no ne ↦ sweep_lem test n (i + 1) x (both (test i) _ h).1 (omega (arith, ne)) (omega arith)
]

-- `x & (1 << b)` as a truth value
abbrev pub bit : ℕ → ℕ → Bool
bit x b = not (bit_and x (2 ^ b) == 0)

-- `x | (1 << b)` and `x & ~(1 << b)` on a byte
abbrev pub set_bit : ℕ → ℕ → ℕ
set_bit x b = bit_or x (2 ^ b)

abbrev pub clear_bit : ℕ → ℕ → ℕ
clear_bit x b = bit_and x (255 - 2 ^ b)

same : Bool → Bool → Bool
same true b = b
same false b = not b

same_lem : (a b : Bool) → same a b ≡ true → a ≡ b
unfolding same
same_lem true true h = refl
same_lem true false h = cc
same_lem false true h = cc
same_lem false false h = refl

-- What is checked of a byte at the bits `b` and `c`.
abbrev set_ok : ℕ → ℕ → ℕ → Bool
set_ok b c x = same (bit (set_bit x b) c) (if b == c then true else bit x c)

abbrev clear_ok : ℕ → ℕ → ℕ → Bool
clear_ok b c x = same (bit (clear_bit x b) c) (if b == c then false else bit x c)

row : ℕ → ℕ → ℕ → Bool
row b c x = (set_ok b c x && clear_ok b c x) && (ltb (set_bit x b) 256 && ltb (clear_bit x b) 256)

table : sweep 8 0 (λ b. sweep 8 0 (λ c. sweep 256 0 (row b c))) ≡ true
unfolding sweep row same
table = refl

at_row : (x b c : ℕ) → x < 256 → b < 8 → c < 8 → row b c x ≡ true
at_row x b c hx hb hc =
    sweep_lem (row b c) 256 0 x
      (sweep_lem (λ c. sweep 256 0 (row b c)) 8 0 c
        (sweep_lem (λ b. sweep 8 0 (λ c. sweep 256 0 (row b c))) 8 0 b table (omega arith)
          (omega arith))
        (omega arith) (omega arith))
      (omega arith) (omega arith)

module _ (x b : ℕ) (hx : x < 256) (hb : b < 8) where
  tests : (c : ℕ) → c < 8 → (set_ok b c x ≡ true) × (clear_ok b c x ≡ true)
  unfolding row
  tests c hc =
      both (set_ok b c x) (clear_ok b c x)
        (both (set_ok b c x && clear_ok b c x) (ltb (set_bit x b) 256 && ltb (clear_bit x b) 256)
          (at_row x b c hx hb hc)).0

  bounds : (ltb (set_bit x b) 256 ≡ true) × (ltb (clear_bit x b) 256 ≡ true)
  unfolding row
  bounds =
      both (ltb (set_bit x b) 256) (ltb (clear_bit x b) 256)
        (both (set_ok b b x && clear_ok b b x) (ltb (set_bit x b) 256 && ltb (clear_bit x b) 256)
          (at_row x b b hx hb hb)).1

  pub bit-set_bit : (c : ℕ) → c < 8 → bit (set_bit x b) c ≡ (if b == c then true else bit x c)
  bit-set_bit c hc = same_lem _ _ (tests c hc).0

  pub bit-clear_bit : (c : ℕ) → c < 8 → bit (clear_bit x b) c ≡ (if b == c then false else bit x c)
  bit-clear_bit c hc = same_lem _ _ (tests c hc).1

  pub set_bit-lt : set_bit x b < 256
  set_bit-lt = ltb→lt _ _ bounds.0

  pub clear_bit-lt : clear_bit x b < 256
  clear_bit-lt = ltb→lt _ _ bounds.1
