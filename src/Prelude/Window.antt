-- ===== src/Prelude/Window.antt =====
-- What a ring of `cap` slots holds: the `n` values at positions `h`, `h + 1`, ..., each taken
-- modulo `cap`.
use Prim.Native.Nat.{ℕ, zero, suc, ◌+◌, ◌%◌, ◌<◌}
use mathlib.Core.Path.{◌≡◌, refl, sym, ◌∙◌, ap}
use mathlib.Core.Logic.{◌≢◌}
use mathlib.Core.List.{List, [], ◌∷◌, ◌++◌}
use native.Mathlib.Nat.{mod-add-mod}
use native.Mathlib.Omega.{arith}
use iron_kernel.Prelude.Lists.{length}
use iron_kernel.Prelude.Arrays.{update, update_ne}

module _ {ℓ} {A : Type ℓ} (cap : ℕ) where
  abbrev pub window : (ℕ → A) → ℕ → ℕ → List A
  window buf h zero = []
  window buf h (suc n) = buf (h % cap) ∷ window buf (suc h) n

  pub length-window : (buf : ℕ → A) (h n : ℕ) → length (window buf h n) ≡ n
  length-window buf h zero = refl
  length-window buf h (suc n) = ap suc (length-window buf (suc h) n)

  -- Equal positions modulo `cap` see the same values.
  pub window-mod : (buf : ℕ → A) (g h n : ℕ) → g % cap ≡ h % cap → window buf g n ≡ window buf h n
  window-mod buf g h zero e = refl
  window-mod buf g h (suc n) e =
      ap (λ k. buf k ∷ window buf (suc g) n) e
      ∙ ap (λ l. buf (h % cap) ∷ l) (window-mod buf (suc g) (suc h) n step)
    where
      one_more : (k : ℕ) → suc k % cap ≡ (k % cap + 1) % cap
      one_more k = ap (λ j. j % cap) (omega arith) ∙ sym (mod-add-mod k cap 1)

      step : suc g % cap ≡ suc h % cap
      step = one_more g ∙ ap (λ j. (j + 1) % cap) e ∙ sym (one_more h)

  -- The last value stands `n` positions on.
  pub window-snoc :
      (buf : ℕ → A) (h n : ℕ) → window buf h (suc n) ≡ window buf h n ++ (buf ((h + n) % cap) ∷ [])
  window-snoc buf h zero = ap (λ k. buf (k % cap) ∷ []) (omega arith)
  window-snoc buf h (suc n) =
      let e : suc h + n ≡ h + suc n = omega arith in
      ap (λ l. buf (h % cap) ∷ l) (window-snoc buf (suc h) n)
      ∙ ap (λ k. buf (h % cap) ∷ (window buf (suc h) n ++ (buf (k % cap) ∷ []))) e

  -- A write to a slot that the window does not reach is not seen.
  pub window-update_ne :
      (buf : ℕ → A) (h n i : ℕ) (x : A)
      → ((j : ℕ) → j < n → (h + j) % cap ≢ i)
      → window (update buf i x) h n ≡ window buf h n
  window-update_ne buf h zero i x away = refl
  window-update_ne buf h (suc n) i x away =
      let first : h % cap ≢ i = λ e. away 0 (omega arith) (ap (λ k. k % cap) (omega arith) ∙ e) in
      ap (λ b. b ∷ window (update buf i x) (suc h) n) (update_ne buf i (h % cap) x first)
      ∙ ap (λ l. buf (h % cap) ∷ l)
          (window-update_ne buf (suc h) n i x
            λ j k e. away (suc j) (omega arith) (ap (λ k. k % cap) (omega arith) ∙ e))
