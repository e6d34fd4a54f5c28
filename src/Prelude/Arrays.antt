-- ===== src/Prelude/Arrays.antt =====
-- A C array as a function from indices. That an index is in range is a theorem of its user.
use Prim.Native.Nat.{ℕ}
use mathlib.Core.Path.{◌≡◌, fun_ext}
use mathlib.Core.Logic.{◌≢◌}
use native.Mathlib.Omega.{arith}
use iron_kernel.Prelude.Tests.{◌==◌, if◌then◌else◌}

module _ {ℓ} {A : Type ℓ} where
  -- `a[i] = v`
  abbrev pub update : (ℕ → A) → ℕ → A → ℕ → A
  update a i v j = if j == i then v else a j

  pub update_same : (a : ℕ → A) (i : ℕ) (v : A) → update a i v i ≡ v
  update_same a i v = ground arith

  pub update_ne : (a : ℕ → A) (i j : ℕ) (v : A) → j ≢ i → update a i v j ≡ a j
  update_ne a i j v h = ground arith

  pub update-update : (a : ℕ → A) (i : ℕ) (v w : A) → update (update a i v) i w ≡ update a i w
  update-update a i v w = fun_ext λ j. ground arith

  pub update_self : (a : ℕ → A) (i : ℕ) → update a i (a i) ≡ a
  update_self a i = fun_ext λ j. ground arith
