-- ===== src/Keyboard/Modifiers.antt =====
-- Keys and modifiers in src/drivers/keyboard.c: what a key press adds to the queue.
use iron_kernel.Prelude.{
  ℕ, ◌-◌, ◌≤◌, ◌<◌, ◌≡◌, refl, ◌≢◌, Bool, true, false, [], ◌∷◌, ◌++◌, arith, ◌==◌, ==_iff, ==_ne,
  lt→leb_not, ◌⊎◌, inl, inr, if◌then◌else◌, get_or,
}
use iron_kernel.Prelude.Bits.{sweep, sweep_lem}
use iron_kernel.Keyboard.{
  Keyboard, scancode_table, scancode_table_shift, scancode_table_size, kb_buffer_size, kb_lshift,
  kb_rshift, kb_caps, next_tail, extended, pressed, character, translate, is_between,
  keyboard_callback,
}
use iron_kernel.Keyboard.Queue.{IsValid, count, contents, put-contents}

-- The make codes that only change the state of the driver.
abbrev pub IsModifier : ℕ → Type 0
IsModifier sc = (sc ≡ 0x1D) ⊎ (sc ≡ kb_lshift) ⊎ (sc ≡ kb_rshift) ⊎ (sc ≡ 0x38) ⊎ (sc ≡ kb_caps)

-- Outside a prefix, the press of a key that is no modifier and has a character under the modifiers
-- held puts that character behind the waiting ones, if fewer than 255 wait.
pub keyboard_callback_key :
    (sc : ℕ) (k : Keyboard)
    → IsValid k
    → k.ext_mode ≡ false
    → sc < scancode_table_size
    → ¬ IsModifier sc
    → translate sc k ≢ 0
    → count k < kb_buffer_size - 1
    → contents (keyboard_callback sc k) ≡ contents k ++ (translate sc k ∷ [])
unfolding keyboard_callback pressed
keyboard_callback_key sc k v plain small other some_char room =
    let h = v.head_in in
    let t = v.tail_in in
    let free : next_tail k ≢ k.head = λ e. absurd (omega (arith, e)) in
    let n1 : sc ≢ 0x1D = λ e. other (inl e) in
    let n2 : sc ≢ kb_lshift = λ e. other (inr (inl e)) in
    let n3 : sc ≢ kb_rshift = λ e. other (inr (inr (inl e))) in
    let n4 : sc ≢ 0x38 = λ e. other (inr (inr (inr (inl e)))) in
    let n5 : sc ≢ kb_caps = λ e. other (inr (inr (inr (inr e)))) in
    rw
      (
        ==_ne sc 0xE0 (omega arith),
        ==_ne sc 0x1D n1,
        ==_ne sc 0x9D (omega arith),
        plain,
        lt→leb_not 0x80 sc (omega arith),
        ==_ne sc kb_lshift n2,
        ==_ne sc kb_rshift n3,
        ==_ne sc 0x38 n4,
        ==_ne sc kb_caps n5,
        lt→leb_not scancode_table_size sc small,
        ==_ne (translate sc k) 0 some_char,
        ==_ne (next_tail k) k.head free,
      )
      (put-contents (translate sc k) (record k { ext_mode = false })
        (record { head_in = h; tail_in = t }) free)

-- The right Ctrl key sends 0xE0 0x1D. Its handling leaves the prefix pending, so the next key
-- pressed, unless it is an arrow or a Ctrl, is taken for an extended one and its character is lost.
pub right_ctrl_loses_key :
    (sc : ℕ) (k : Keyboard)
    → sc < 0x80
    → sc ≢ 0x1D
    → sc ≢ 0x48
    → sc ≢ 0x50
    → sc ≢ 0x4B
    → sc ≢ 0x4D
    → contents (keyboard_callback sc (keyboard_callback 0x1D (keyboard_callback 0xE0 k)))
      ≡ contents k
unfolding keyboard_callback extended
right_ctrl_loses_key sc k small n1 n2 n3 n4 n5 =
    rw
      (
        ==_ne sc 0xE0 (omega arith),
        ==_ne sc 0x1D n1,
        ==_ne sc 0x9D (omega arith),
        lt→leb_not 0x80 sc small,
        ==_ne sc 0x48 n2,
        ==_ne sc 0x50 n3,
        ==_ne sc 0x4B n4,
        ==_ne sc 0x4D n5,
      )
      (either (next_tail k == k.head))
  where
    either :
        (b : Bool)
        → contents (
            if b
            then record k { ext_mode = false; ctrl_pressed = true }
            else record k { ext_mode = false; ctrl_pressed = true })
          ≡ contents k
    either true = refl
    either false = refl

-- What is checked of a make code under Ctrl.
ctrl_row : Bool → Bool → ℕ → Bool
ctrl_row shift caps sc =
    let plain = get_or scancode_table sc 0 in
    if is_between b'a' b'z' plain then character shift caps true sc == plain - 96 else true

ctrl_table : (shift caps : Bool) → sweep 89 0 (ctrl_row shift caps) ≡ true
unfolding sweep ctrl_row character scancode_table scancode_table_shift
ctrl_table true true = refl
ctrl_table true false = refl
ctrl_table false true = refl
ctrl_table false false = refl

-- With Ctrl held, the key of a letter gives the letter's number in the alphabet, from 1 to 26,
-- whether or not Shift or CapsLock is on.
pub character_ctrl :
    (shift caps : Bool) (sc : ℕ)
    → b'a' ≤ get_or scancode_table sc 0
    → get_or scancode_table sc 0 ≤ b'z'
    → sc < scancode_table_size
    → character shift caps true sc ≡ get_or scancode_table sc 0 - 96
unfolding ctrl_row
character_ctrl shift caps sc lo hi small =
    let letter : is_between b'a' b'z' (get_or scancode_table sc 0) ≡ true =
      unfold is_between in ground arith in
    let checked : ctrl_row shift caps sc ≡ true =
      sweep_lem (ctrl_row shift caps) 89 0 sc (ctrl_table shift caps) (omega arith) (omega arith) in
    (==_iff (character shift caps true sc) (get_or scancode_table sc 0 - 96)).0
      (rw letter at checked)
