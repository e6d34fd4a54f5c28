-- ===== src/Pipe/Contents.antt =====
-- `pipe_write` and `pipe_read` of src/kernel/pipe.c as operations on the bytes that a pipe holds.
use iron_kernel.Prelude.{
  ℕ, zero, suc, ◌+◌, ◌-◌, ◌%◌, ◌<◌, min, ◌≡◌, refl, ◌≢◌, ◌∙◌, inl, inr, List, [], ◌∷◌, ◌++◌,
  append-nil, append_assoc, arith, ◌==◌, Bool-cases, ==_iff, length, take, drop, take-nil, take_pos,
  update, update_same, update_ne, ap,
}
use iron_kernel.Prelude.Window.{window, length-window, window-snoc, window-update_ne, window-mod}
use iron_kernel.Pipe.{
  pipe_buf, Pipe, Pipes, next_index, write_loop, write_bytes, read_loop, pipe_write, pipe_read,
  pipe_write, pipe_read,
}

pub record IsValid (p : Pipe) : Type 0 where
  pub head_in : p.head < pipe_buf
  pub tail_in : p.tail < pipe_buf

-- the number of bytes that wait to be read
abbrev pub count : Pipe → ℕ
count p = (p.tail + pipe_buf - p.head) % pipe_buf

-- the bytes that wait, oldest first
abbrev pub contents : Pipe → List ℕ
contents p = window pipe_buf p.buf p.head (count p)

-- One slot of the ring stays empty.
abbrev pub room : Pipe → ℕ
room p = pipe_buf - 1 - count p

pub length-contents : (p : Pipe) → length (contents p) ≡ count p
length-contents p = length-window pipe_buf p.buf p.head (count p)

-- what the loop of `pipe_write` has done when it stops, started with `n` bytes written
record Wrote (p : Pipe) (xs : List ℕ) (n : ℕ) (out : Pipe × ℕ) : Type 0 where
  valid : IsValid out.0
  bytes : contents out.0 ≡ contents p ++ take (room p) xs
  count : out.1 ≡ n + min (length xs) (room p)

-- One round of `pipe_write` on a pipe with room.
module _ {p : Pipe} (x : ℕ) (v : IsValid p) (free : next_index p.tail ≢ p.head) where
  abbrev stored : Pipe
  stored = record p { buf = update p.buf p.tail x; tail = next_index p.tail }

  stored-IsValid : IsValid stored
  stored-IsValid = record { head_in = v.head_in; tail_in = omega arith }

  count-stored : count stored ≡ suc (count p)
  count-stored = let h = v.head_in in let t = v.tail_in in omega arith

  contents-stored : contents stored ≡ contents p ++ (x ∷ [])
  contents-stored =
      let h = v.head_in in
      let t = v.tail_in in
      let here : (p.head + count p) % pipe_buf ≡ p.tail = omega arith in
      rw (
        count-stored,
        window-snoc,
        here,
        update_same p.buf p.tail x,
        window-update_ne pipe_buf p.buf p.head (count p) p.tail x λ j k. omega arith,
      )

  -- What a later round appends follows the byte of this one.
  rest_bytes :
      (xs : List ℕ)
      → contents stored ++ take (room stored) xs ≡ contents p ++ take (room p) (x ∷ xs)
  rest_bytes xs =
      let few : count p < pipe_buf - 1 = let h = v.head_in in let t = v.tail_in in omega arith in
      let less : room stored ≡ room p - 1 = omega (arith, count-stored) in
      rw (contents-stored, less, take_pos (room p) x xs (omega arith))
        (append_assoc (contents p) (x ∷ []) (take (room p - 1) xs))

-- A pipe is full when the next tail would meet the head.
room_zero : {p : Pipe} → IsValid p → next_index p.tail ≡ p.head → room p ≡ 0
room_zero v e = let h = v.head_in in let t = v.tail_in in omega arith

write_loop-Wrote : (p : Pipe) (xs : List ℕ) (n : ℕ) → IsValid p → Wrote p xs n (write_loop p xs n)
unfolding write_loop
write_loop-Wrote p [] n v = record {
  valid = v;
  bytes = rw (take-nil, append-nil);
  count = omega arith;
}
write_loop-Wrote p (x ∷ xs) n v = elim (Bool-cases (next_index p.tail == p.head)) [
  | inl full ↦
      let none_left = room_zero v ((==_iff _ _).0 full) in
      rw full (record {
        valid = v;
        bytes = rw (none_left, append-nil);
        count = rw none_left (omega arith);
      })
  | inr more ↦
      let free : next_index p.tail ≢ p.head = λ e. cc (more, (==_iff _ _).1 e) in
      let ih = write_loop-Wrote (stored x v free) xs (n + 1) (stored-IsValid x v free) in
      rw more (record {
        valid = ih.valid;
        bytes = ih.bytes ∙ rest_bytes x v free xs;
        count = omega (arith, ih.count, count-stored x v free);
      })
]

-- the loop of `pipe_read`
read_loop_lem :
    (k : ℕ) (p : Pipe)
    → IsValid p
    → IsValid (read_loop k p).0
      × ((read_loop k p).1 ≡ take k (contents p))
      × (contents (read_loop k p).0 ≡ drop k (contents p))
unfolding read_loop
read_loop_lem zero p v = (v, refl, refl)
read_loop_lem (suc k) p v = elim (Bool-cases (p.head == p.tail)) [
  | inl empty ↦
      let e = (==_iff _ _).0 empty in
      let none_left : count p ≡ 0 = let h = v.head_in in let t = v.tail_in in omega arith in
      rw (empty, none_left) (v, refl, refl)
  | inr more ↦
      let h = v.head_in in
      let t = v.tail_in in
      let ne : p.head ≢ p.tail = λ e. cc (more, (==_iff _ _).1 e) in
      let q : Pipe = record p { head = next_index p.head } in
      let less : suc (count q) ≡ count p = omega arith in
      let ih = read_loop_lem k q (record { head_in = omega arith; tail_in = t }) in
      let start : p.head % pipe_buf ≡ p.head = omega arith in
      let same : contents q ≡ window pipe_buf p.buf (suc p.head) (count q) =
        window-mod pipe_buf p.buf (next_index p.head) (suc p.head) (count q) (omega arith) in
      rw (more, ← less)
        (
          ih.0,
          rw start (ap (λ l. p.buf p.head ∷ l) (ih.1 ∙ ap (take k) same)),
          ih.2 ∙ ap (drop k) same,
        )
]

-- A write to a valid pipe takes as many of the given bytes as there is room for (4095 less the
-- bytes that wait), returns their number, appends exactly those bytes in order to what waits,
-- keeps both indices inside the buffer, and leaves every other slot of the table alone.
pub pipe_write_lem :
    (id : ℕ) (xs : List ℕ) (g : Pipes)
    → IsValid (g id)
    → let (g', n) = pipe_write id xs g in
      IsValid (g' id)
      × (contents (g' id) ≡ contents (g id) ++ take (room (g id)) xs)
      × (n ≡ min (length xs) (room (g id)))
      × ((j : ℕ) → j ≢ id → g' j ≡ g j)
unfolding pipe_write write_bytes
pipe_write_lem id xs g v =
    let w = write_loop-Wrote (g id) xs 0 v in
    let p = write_loop (g id) xs 0 in
    rw (update_same g id p.0)
      (w.valid, w.bytes, omega (arith, w.count), λ j ne. update_ne g id j p.0 ne)

-- A read of at most `k` bytes from a valid pipe delivers the oldest bytes that wait, in order, as
-- many as there are up to `k`, leaves the others waiting, keeps both indices inside the buffer,
-- and leaves every other slot of the table alone.
pub pipe_read_lem :
    (id k : ℕ) (g : Pipes)
    → IsValid (g id)
    → let (g', out) = pipe_read id k g in
      IsValid (g' id)
      × (out ≡ take k (contents (g id)))
      × (contents (g' id) ≡ drop k (contents (g id)))
      × ((j : ℕ) → j ≢ id → g' j ≡ g j)
unfolding pipe_read
pipe_read_lem id k g v =
    let r = read_loop_lem k (g id) v in
    let p = read_loop k (g id) in
    rw (update_same g id p.0) (r.0, r.1, r.2, λ j ne. update_ne g id j p.0 ne)
