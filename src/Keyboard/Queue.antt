-- ===== src/Keyboard/Queue.antt =====
-- The ring of src/drivers/keyboard.c as a queue of characters.
use iron_kernel.Prelude.{
  ℕ, suc, ◌+◌, ◌-◌, ◌%◌, ◌<◌, ◌≡◌, ◌∙◌, refl, sym, ap, ◌≢◌, ◌⊎◌, Bool, true, false, inl, inr, List,
  [], ◌∷◌, ◌++◌, arith, ◌==◌, ==_iff, Bool-cases, update_same, leb, ◌||◌, if◌then◌else◌,
}
use iron_kernel.Prelude.Window.{window, window-snoc, window-update_ne, window-mod}
use iron_kernel.Keyboard.{
  Keyboard, kb_buffer_size, kb_lshift, kb_rshift, kb_caps, key_up, key_down, key_left, key_right,
  scancode_table_size, next_tail, put, extended, released, pressed, translate, keyboard_callback,
  keyboard_getchar,
}

pub record IsValid (k : Keyboard) : Type 0 where
  pub head_in : k.head < kb_buffer_size
  pub tail_in : k.tail < kb_buffer_size

abbrev pub count : Keyboard → ℕ
count k = (k.tail + kb_buffer_size - k.head) % kb_buffer_size

-- the characters that wait, oldest first
abbrev pub contents : Keyboard → List ℕ
contents k = window kb_buffer_size k.buffer k.head (count k)

-- What one interrupt may do to the queue: nothing, or one character more at its end.
pub data Effect (k k' : Keyboard) : Type 0 where
  kept : contents k' ≡ contents k → IsValid k' → Effect k k'
  stored :
      (c : ℕ)
      → count k < kb_buffer_size - 1
      → contents k' ≡ contents k ++ (c ∷ [])
      → IsValid k'
      → Effect k k'

pub put-contents :
    (c : ℕ) (k : Keyboard)
    → IsValid k
    → next_tail k ≢ k.head
    → contents (put c k) ≡ contents k ++ (c ∷ [])
unfolding put
put-contents c k v free =
    let h = v.head_in in
    let t = v.tail_in in
    let more : (next_tail k + kb_buffer_size - k.head) % kb_buffer_size ≡ suc (count k) =
      omega arith in
    let here : (k.head + count k) % kb_buffer_size ≡ k.tail = omega arith in
    rw (
      more,
      window-snoc,
      here,
      update_same k.buffer k.tail c,
      window-update_ne kb_buffer_size k.buffer k.head (count k) k.tail c λ j l. omega arith,
    )

pub put-Effect :
    (c : ℕ) (k : Keyboard) → IsValid k → (next_tail k == k.head) ≡ false → Effect k (put c k)
put-Effect c k v free =
    let ne : next_tail k ≢ k.head = λ e. cc (free, (==_iff _ _).1 e) in
    let h = v.head_in in
    let t = v.tail_in in
    stored c (omega arith) (put-contents c k v ne)
      (unfold put in record { head_in = h; tail_in = omega arith })

module _ {k : Keyboard} where
  if_Effect :
      (b : Bool) {x y : Keyboard}
      → (b ≡ true → Effect k x)
      → (b ≡ false → Effect k y)
      → Effect k (if b then x else y)
  if_Effect true hit miss = hit refl
  if_Effect false hit miss = miss refl

  -- The ring is what counts: the other variables of the driver may change.
  with_ring :
      {k' : Keyboard} (k'' : Keyboard)
      → (k''.buffer ≡ k'.buffer) × (k''.head ≡ k'.head) × (k''.tail ≡ k'.tail)
      → Effect k k'
      → Effect k k''
  with_ring k'' e (kept c v) =
      kept (rw (e.0, e.1, e.2) c)
        (record { head_in = rw e.1 v.head_in; tail_in = rw e.2 v.tail_in })
  with_ring k'' e (stored a l c v) =
      stored a l (rw (e.0, e.1, e.2) c)
        (record { head_in = rw e.1 v.head_in; tail_in = rw e.2 v.tail_in })

extended-Effect : (sc : ℕ) (k : Keyboard) → IsValid k → Effect k (extended sc k)
unfolding extended
extended-Effect sc k v =
    if_Effect (next_tail k == k.head) (λ full. kept refl v)
      λ free.
        if_Effect (sc == 0x48) (λ e. with_ring _ (refl, refl, refl) (put-Effect key_up k v free))
          λ e.
            if_Effect (sc == 0x50)
              (λ e. with_ring _ (refl, refl, refl) (put-Effect key_down k v free))
              λ e.
                if_Effect (sc == 0x4B) (λ e. put-Effect key_left k v free)
                  λ e. if_Effect (sc == 0x4D) (λ e. put-Effect key_right k v free) λ e. kept refl v

pressed-Effect : (sc : ℕ) (k : Keyboard) → IsValid k → Effect k (pressed sc k)
unfolding pressed
pressed-Effect sc k v =
    let quiet : Effect k k = kept refl v in
    if_Effect (sc == kb_lshift || sc == kb_rshift) (λ e. with_ring _ (refl, refl, refl) quiet)
      λ e.
        if_Effect (sc == 0x38) (λ e. with_ring _ (refl, refl, refl) quiet)
          λ e.
            if_Effect (sc == kb_caps) (λ e. with_ring _ (refl, refl, refl) quiet)
              λ e.
                if_Effect (leb scancode_table_size sc) (λ e. quiet)
                  λ e.
                    if_Effect (translate sc k == 0) (λ e. quiet)
                      λ e.
                        if_Effect (next_tail k == k.head) (λ full. quiet)
                          λ free. put-Effect (translate sc k) k v free

-- Whatever byte the controller sends in whatever state of the modifiers, the handler either leaves
-- the waiting characters alone, or puts one character behind them, and then there was room for
-- it; the indices stay inside the buffer.
pub keyboard_callback-Effect :
    (sc : ℕ) (k : Keyboard) → IsValid k → Effect k (keyboard_callback sc k)
unfolding keyboard_callback released
keyboard_callback-Effect sc k v =
    let quiet : Effect k k = kept refl v in
    let plain = record k { ext_mode = false } in
    let w : IsValid plain = record { head_in = v.head_in; tail_in = v.tail_in } in
    if_Effect (sc == 0xE0) (λ e. with_ring _ (refl, refl, refl) quiet)
      λ e.
        if_Effect (sc == 0x1D) (λ e. with_ring _ (refl, refl, refl) quiet)
          λ e.
            if_Effect (sc == 0x9D) (λ e. with_ring _ (refl, refl, refl) quiet)
              λ e.
                if_Effect k.ext_mode
                  (λ e.
                    if_Effect (leb 0x80 sc) (λ e. with_ring _ (refl, refl, refl) quiet)
                      λ e. relabel (extended-Effect sc plain w))
                  λ e.
                    if_Effect (leb 0x80 sc) (λ e. with_ring _ (refl, refl, refl) quiet)
                      λ e. pressed-Effect sc k v
  where
    relabel : {k' : Keyboard} → Effect (record k { ext_mode = false }) k' → Effect k k'
    relabel (kept c w) = kept c w
    relabel (stored a l c w) = stored a l c w

-- `keyboard_getchar` returns the oldest waiting character and takes it out of the queue, and 0
-- with nothing changed when none waits.
pub keyboard_getchar_lem :
    (k : Keyboard)
    → IsValid k
    → let (c, k') = keyboard_getchar k in
      IsValid k' × (((contents k ≡ []) × (c ≡ 0) × (k' ≡ k)) ⊎ (contents k ≡ c ∷ contents k'))
unfolding keyboard_getchar
keyboard_getchar_lem k v = elim (Bool-cases (k.head == k.tail)) [
  | inl empty ↦
      let e = (==_iff _ _).0 empty in
      let none_left : count k ≡ 0 = let h = v.head_in in let t = v.tail_in in omega arith in
      rw empty (v, inl (rw none_left, refl, refl))
  | inr more ↦
      let h = v.head_in in
      let t = v.tail_in in
      let ne : k.head ≢ k.tail = λ e. cc (more, (==_iff _ _).1 e) in
      let q : Keyboard = record k { head = (k.head + 1) % kb_buffer_size } in
      let less : count k ≡ suc (count q) = omega arith in
      let start : k.head % kb_buffer_size ≡ k.head = omega arith in
      let same : contents q ≡ window kb_buffer_size k.buffer (suc k.head) (count q) =
        window-mod kb_buffer_size k.buffer ((k.head + 1) % kb_buffer_size) (suc k.head) (count q)
          (omega arith) in
      rw more (
        record { head_in = omega arith; tail_in = t },
        inr (
            ap (λ n. window kb_buffer_size k.buffer k.head n) less
            ∙ rw start (ap (λ l. k.buffer k.head ∷ l) (sym same))),
      )
]
