-- ===== src/Keyboard.antt =====
-- The keyboard driver: src/drivers/keyboard.c and keyboard.h. Scancodes of the interrupt handler
-- become characters in a ring of 256 bytes.
pub mod Queue
pub mod Modifiers
mod Tests
use iron_kernel.Prelude.{
  ℕ, ◌+◌, ◌-◌, ◌%◌, Bool, true, false, ◌&&◌, ◌||◌, not, List, [], ◌∷◌, ◌++◌, ltb, leb, ◌==◌,
  if◌then◌else◌, update, u8, get_or, replicate,
}

-- `scancode_table`, by make codes from 0 on. A 0 stands for a key with no character.
unfoldable pub scancode_table : List ℕ
scancode_table =
    0
    ∷ 0
    ∷ b'1'
    ∷ b'2'
    ∷ b'3'
    ∷ b'4'
    ∷ b'5'
    ∷ b'6'
    ∷ b'7'
    ∷ b'8'
    ∷ b'9'
    ∷ b'0'
    ∷ b'-'
    ∷ b'='
    ∷ 8
    ∷ 9
    ∷ b'q'
    ∷ b'w'
    ∷ b'e'
    ∷ b'r'
    ∷ b't'
    ∷ b'y'
    ∷ b'u'
    ∷ b'i'
    ∷ b'o'
    ∷ b'p'
    ∷ b'['
    ∷ b']'
    ∷ 10
    ∷ 0
    ∷ b'a'
    ∷ b's'
    ∷ b'd'
    ∷ b'f'
    ∷ b'g'
    ∷ b'h'
    ∷ b'j'
    ∷ b'k'
    ∷ b'l'
    ∷ b';'
    ∷ 39
    ∷ 96
    ∷ 0
    ∷ 92
    ∷ b'z'
    ∷ b'x'
    ∷ b'c'
    ∷ b'v'
    ∷ b'b'
    ∷ b'n'
    ∷ b'm'
    ∷ b','
    ∷ b'.'
    ∷ b'/'
    ∷ 0
    ∷ b'*'
    ∷ 0
    ∷ 32
    ∷ 0
    ∷ (replicate 10 0 ++ (0 ∷ 0 ∷ 0 ∷ 0 ∷ 0 ∷ b'-' ∷ 0 ∷ 0 ∷ 0 ∷ b'+' ∷ replicate 10 0))

-- `scancode_table_shift`
unfoldable pub scancode_table_shift : List ℕ
scancode_table_shift =
    0
    ∷ 0
    ∷ b'!'
    ∷ b'@'
    ∷ b'#'
    ∷ b'$'
    ∷ b'%'
    ∷ b'^'
    ∷ b'&'
    ∷ b'*'
    ∷ b'('
    ∷ b')'
    ∷ b'_'
    ∷ b'+'
    ∷ 8
    ∷ 9
    ∷ b'Q'
    ∷ b'W'
    ∷ b'E'
    ∷ b'R'
    ∷ b'T'
    ∷ b'Y'
    ∷ b'U'
    ∷ b'I'
    ∷ b'O'
    ∷ b'P'
    ∷ b'{'
    ∷ b'}'
    ∷ 10
    ∷ 0
    ∷ b'A'
    ∷ b'S'
    ∷ b'D'
    ∷ b'F'
    ∷ b'G'
    ∷ b'H'
    ∷ b'J'
    ∷ b'K'
    ∷ b'L'
    ∷ b':'
    ∷ 34
    ∷ b'~'
    ∷ 0
    ∷ b'|'
    ∷ b'Z'
    ∷ b'X'
    ∷ b'C'
    ∷ b'V'
    ∷ b'B'
    ∷ b'N'
    ∷ b'M'
    ∷ b'<'
    ∷ b'>'
    ∷ b'?'
    ∷ 0
    ∷ b'*'
    ∷ 0
    ∷ 32
    ∷ 0
    ∷ (replicate 10 0 ++ (0 ∷ 0 ∷ 0 ∷ 0 ∷ 0 ∷ b'-' ∷ 0 ∷ 0 ∷ 0 ∷ b'+' ∷ replicate 10 0))

-- `SCANCODE_TABLE_SIZE`
abbrev pub scancode_table_size : ℕ
scancode_table_size = 89

abbrev pub kb_buffer_size : ℕ
kb_buffer_size = 256

abbrev pub kb_lshift : ℕ
kb_lshift = 0x2A

abbrev pub kb_rshift : ℕ
kb_rshift = 0x36

abbrev pub kb_caps : ℕ
kb_caps = 0x3A

abbrev pub key_up : ℕ
key_up = 0x01

abbrev pub key_down : ℕ
key_down = 0x02

abbrev pub key_left : ℕ
key_left = 0x80

abbrev pub key_right : ℕ
key_right = 0x81

-- The static variables of the driver.
pub record Keyboard : Type 0 where
  pub buffer : ℕ → ℕ
  pub head : ℕ
  pub tail : ℕ
  pub shift_held : Bool
  pub caps_lock : Bool
  pub ext_mode : Bool
  pub ctrl_pressed : Bool
  pub alt_held : Bool
  pub scroll_up : Bool
  pub scroll_dn : Bool

abbrev pub next_tail : Keyboard → ℕ
next_tail k = (k.tail + 1) % kb_buffer_size

-- `kb_buffer[kb_tail] = c; kb_tail = next_tail;`
pub put : ℕ → Keyboard → Keyboard
put c k = record k { buffer = update k.buffer k.tail c; tail = next_tail k }

-- A make code behind the prefix 0xE0. The prefix is over; the four arrows are stored.
extended : ℕ → Keyboard → Keyboard
extended scancode k =
    if next_tail k == k.head
    then k
    else if scancode == 0x48
    then record (put key_up k) { scroll_up = true }
    else if scancode == 0x50
    then record (put key_down k) { scroll_dn = true }
    else if scancode == 0x4B
    then put key_left k
    else if scancode == 0x4D
    then put key_right k
    else k

-- A break code; `scancode & ~KB_RELEASE_BIT` takes 128 off it.
released : ℕ → Keyboard → Keyboard
released scancode k =
    let key = scancode - 0x80 in
    record k {
      shift_held = if key == kb_lshift || key == kb_rshift then false else k.shift_held;
      alt_held = if key == 0x38 then false else k.alt_held;
    }

unfoldable pub is_between : (lo hi c : ℕ) → Bool
is_between lo hi c = leb lo c && leb c hi

-- The character of a make code below the table's size, 0 if it has none, by the state of the Shift
-- keys, CapsLock and Ctrl.
unfoldable pub character : (shift caps ctrl : Bool) → ℕ → ℕ
unfolding is_between
character shift caps ctrl scancode =
    let plain = get_or scancode_table scancode 0 in
    let c =
      if shift
      then get_or scancode_table_shift scancode 0
      else if caps && is_between b'a' b'z' plain
      then plain - 32
      else plain in
    if ctrl && is_between b'a' b'z' c
    then c - b'a' + 1
    else if ctrl && is_between b'A' b'Z' c
    then c - b'A' + 1
    else c

abbrev pub translate : ℕ → Keyboard → ℕ
translate scancode k = character k.shift_held k.caps_lock k.ctrl_pressed scancode

-- The character is stored unless it is 0 or the ring is full.
pressed : ℕ → Keyboard → Keyboard
pressed scancode k =
    if scancode == kb_lshift || scancode == kb_rshift
    then record k { shift_held = true }
    else if scancode == 0x38
    then record k { alt_held = true }
    else if scancode == kb_caps
    then record k { caps_lock = not k.caps_lock }
    else if leb scancode_table_size scancode
    then k
    else if translate scancode k == 0
    then k
    else if next_tail k == k.head
    then k
    else put (translate scancode k) k

-- The handler of IRQ 1, with the byte that it reads from the controller.
pub keyboard_callback : ℕ → Keyboard → Keyboard
keyboard_callback scancode k =
    if scancode == 0xE0
    then record k { ext_mode = true }
    else if scancode == 0x1D
    then record k { ctrl_pressed = true }
    else if scancode == 0x9D
    then record k { ctrl_pressed = false }
    else if k.ext_mode
    then (if leb 0x80 scancode
        then record k { ext_mode = false }
        else extended scancode (record k { ext_mode = false }))
    else if leb 0x80 scancode
    then released scancode k
    else pressed scancode k

-- `keyboard_init` on the driver's variables; the controller's ports are not modelled.
pub keyboard_init : Keyboard → Keyboard
keyboard_init k = record k { shift_held = false; caps_lock = false; head = 0; tail = 0 }

-- The oldest character, or 0.
pub keyboard_getchar : Keyboard → ℕ × Keyboard
keyboard_getchar k =
    if k.head == k.tail
    then (0, k)
    else (k.buffer k.head, record k { head = (k.head + 1) % kb_buffer_size })

pub keyboard_haschar : Keyboard → Bool
keyboard_haschar k = not (k.head == k.tail)

pub keyboard_ctrl : Keyboard → Bool
keyboard_ctrl k = k.ctrl_pressed

pub keyboard_alt : Keyboard → Bool
keyboard_alt k = k.alt_held
