-- ===== src/Pipe/Tests.antt =====
-- Runs of the pipe model, and the theorems at concrete tables.
use iron_kernel.Prelude.{◌≡◌, refl, false, some, update, [], ◌∷◌, ◌++◌, arith}
use iron_kernel.Prelude.Int.{pos}
use iron_kernel.Pipe.{
  Pipe, Pipes, opened, alloc_loop, pipe_alloc, pipe_write, pipe_read, write_bytes, write_loop,
  read_loop, pipe_close_read,
}
use iron_kernel.Pipe.Contents.{IsValid, contents}
use iron_kernel.Pipe.Ends.{IsCounted, here, next, close_read, pipe_alloc-IsCounted}
use iron_kernel.Pipe.Stream.{run, run_fifo, write, read}

abbrev closed : Pipe
closed = record {
  buf = λ i. 0;
  head = 0;
  tail = 0;
  read_open = pos 0;
  write_open = pos 0;
  used = false;
}

-- a pipe whose indices are about to go round
abbrev late : Pipe
late = record (opened closed) { head = 4094; tail = 4095; buf = λ i. 7 }

abbrev table : Pipes
table i = late

late-IsValid : IsValid late
late-IsValid = omega arith

wraps : (pipe_read 3 9 (pipe_write 3 (1 ∷ 2 ∷ []) table).0).1 ≡ 7 ∷ 1 ∷ 2 ∷ []
unfolding pipe_read pipe_write write_bytes write_loop read_loop
wraps = refl

run_fifo_example :
    let (g', t) = run 3 table (write (1 ∷ []) ∷ read 1 ∷ []) in
    IsValid (g' 3) × (t.delivered ++ contents (g' 3) ≡ contents late ++ t.accepted)
run_fifo_example = run_fifo 3 (write (1 ∷ []) ∷ read 1 ∷ []) table late-IsValid

abbrev fresh : Pipes
fresh i = closed

abbrev given : Pipes
given = update fresh 0 (opened closed)

first_slot : pipe_alloc fresh ≡ some (0, given)
unfolding pipe_alloc alloc_loop
first_slot = refl

-- The reader closes its end, and the slot stays in use for the writer.
pipe_alloc-IsCounted_example : IsCounted (pipe_close_read 0 given 0)
pipe_alloc-IsCounted_example =
    pipe_alloc-IsCounted 0 fresh given first_slot (next here (close_read refl))
