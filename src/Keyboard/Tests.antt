-- ===== src/Keyboard/Tests.antt =====
-- Runs of the keyboard driver, and the theorems at concrete states.
use iron_kernel.Prelude.{◌≡◌, refl, false, [], ◌∷◌, arith}
use iron_kernel.Keyboard.{
  Keyboard, scancode_table, scancode_table_shift, put, extended, released, pressed, character,
  keyboard_callback,
}
use iron_kernel.Keyboard.Queue.{IsValid, Effect, contents, keyboard_callback-Effect}
use iron_kernel.Keyboard.Modifiers.{right_ctrl_loses_key}

abbrev idle : Keyboard
idle = record {
  buffer = λ i. 0;
  head = 255;
  tail = 255;
  shift_held = false;
  caps_lock = false;
  ext_mode = false;
  ctrl_pressed = false;
  alt_held = false;
  scroll_up = false;
  scroll_dn = false;
}

idle-IsValid : IsValid idle
idle-IsValid = omega arith

-- Shift, `a`, Shift released, `a`, arrow up
typed :
    contents (
      keyboard_callback 0x48 (
        keyboard_callback 0xE0 (
          keyboard_callback 0x1E
            (keyboard_callback 0xAA (keyboard_callback 0x1E (keyboard_callback 0x2A idle))))))
    ≡ b'A' ∷ b'a' ∷ 1 ∷ []
unfolding keyboard_callback extended released pressed character scancode_table scancode_table_shift
    put
typed = refl

keyboard_callback-Effect_example : Effect idle (keyboard_callback 0x1E idle)
keyboard_callback-Effect_example = keyboard_callback-Effect 0x1E idle idle-IsValid

right_ctrl_loses_key_example :
    contents (keyboard_callback 0x2E (keyboard_callback 0x1D (keyboard_callback 0xE0 idle))) ≡ []
right_ctrl_loses_key_example =
    right_ctrl_loses_key 0x2E idle (omega arith) (omega arith) (omega arith) (omega arith)
      (omega arith) (omega arith)
