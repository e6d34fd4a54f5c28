-- ===== src/Pipe.antt =====
-- Kernel pipes: src/kernel/pipe.c and pipe.h. A table of ring buffers of 4096 bytes, each with
-- counted read and write ends.
use iron_kernel.Prelude.{
  ℕ, zero, suc, ◌+◌, ◌%◌, Bool, true, false, ◌&&◌, Option, none, some, List, [], ◌∷◌, ◌==◌,
  if◌then◌else◌, update,
}
pub mod Contents
pub mod Ends
pub mod Stream
mod Tests
use iron_kernel.Prelude.Int.{ℤ, pos, inc, dec, le_zero}

-- `PIPE_BUF`
abbrev pub pipe_buf : ℕ
pipe_buf = 4096

abbrev pub max_pipes : ℕ
max_pipes = 32

-- `pipe_t`
pub record Pipe : Type 0 where
  pub buf : ℕ → ℕ
  pub head : ℕ
  pub tail : ℕ
  pub read_open : ℤ
  pub write_open : ℤ
  pub used : Bool

-- `g_pipes`
abbrev pub Pipes : Type 0
Pipes = ℕ → Pipe

-- `for (i = 0; i < MAX_PIPES; i++) g_pipes[i].used = 0`, `n` rounds from index `i` on
init_loop : ℕ → ℕ → Pipes → Pipes
init_loop zero i g = g
init_loop (suc n) i g = init_loop n (i + 1) (update g i (record (g i) { used = false }))

pub pipe_init : Pipes → Pipes
pipe_init g = init_loop max_pipes 0 g

-- The state that `pipe_alloc` gives a slot; the bytes of the buffer stay.
abbrev pub opened : Pipe → Pipe
opened p = record p { head = 0; tail = 0; read_open = pos 1; write_open = pos 1; used = true }

alloc_loop : ℕ → ℕ → Pipes → Option (ℕ × Pipes)
alloc_loop zero i g = none
alloc_loop (suc n) i g =
    let rest = alloc_loop n (i + 1) g in
    if (g i).used then rest else some (i, update g i (opened (g i)))

-- `none` is the return value -1.
pub pipe_alloc : Pipes → Option (ℕ × Pipes)
pipe_alloc g = alloc_loop max_pipes 0 g

unfoldable pub pipe_ref_read : ℕ → Pipes → Pipes
pipe_ref_read id g = update g id (record (g id) { read_open = inc (g id).read_open })

unfoldable pub pipe_ref_write : ℕ → Pipes → Pipes
pipe_ref_write id g = update g id (record (g id) { write_open = inc (g id).write_open })

-- One end is closed; the slot is given back when neither end is open any more.
shut_read : Pipe → Pipe
shut_read p =
    let left = dec p.read_open in
    record p {
      read_open = left;
      used = if le_zero left && le_zero p.write_open then false else p.used;
    }

shut_write : Pipe → Pipe
shut_write p =
    let left = dec p.write_open in
    record p {
      write_open = left;
      used = if le_zero left && le_zero p.read_open then false else p.used;
    }

pub pipe_close_read : ℕ → Pipes → Pipes
pipe_close_read id g = update g id (shut_read (g id))

pub pipe_close_write : ℕ → Pipes → Pipes
pipe_close_write id g = update g id (shut_write (g id))

-- `x & (PIPE_BUF - 1)` is the remainder, since `PIPE_BUF` is a power of two.
abbrev pub next_index : ℕ → ℕ
next_index i = (i + 1) % pipe_buf

-- The list is what is left of `buf[0..len)`, and `n` the bytes taken so far.
write_loop : Pipe → List ℕ → ℕ → Pipe × ℕ
write_loop p [] n = (p, n)
write_loop p (x ∷ xs) n =
    let rest =
      write_loop (record p { buf = update p.buf p.tail x; tail = next_index p.tail }) xs (n + 1) in
    if next_index p.tail == p.head then (p, n) else rest

write_bytes : Pipe → List ℕ → Pipe × ℕ
write_bytes p xs = write_loop p xs 0

-- `pipe_write(id, buf, len)`: the table afterwards, and the return value
pub pipe_write : ℕ → List ℕ → Pipes → Pipes × ℕ
pipe_write id xs g = let (p, n) = write_bytes (g id) xs in (update g id p, n)

-- `k` rounds of the loop of `pipe_read`: the pipe afterwards, and the bytes stored through `buf`
read_loop : ℕ → Pipe → Pipe × List ℕ
read_loop zero p = (p, [])
read_loop (suc k) p =
    let rest = read_loop k (record p { head = next_index p.head }) in
    if p.head == p.tail then (p, []) else (rest.0, p.buf p.head ∷ rest.1)

-- `pipe_read(id, buf, len)`: the return value is the length of the list.
pub pipe_read : ℕ → ℕ → Pipes → Pipes × List ℕ
pipe_read id len g = let (p, out) = read_loop len (g id) in (update g id p, out)

pub pipe_is_empty : ℕ → Pipes → Bool
pipe_is_empty id g = (g id).head == (g id).tail

-- `pipe_write_open` and `pipe_read_open` are the fields themselves.
pub pipe_write_open : ℕ → Pipes → ℤ
pipe_write_open id g = (g id).write_open

pub pipe_read_open : ℕ → Pipes → ℤ
pipe_read_open id g = (g id).read_open
