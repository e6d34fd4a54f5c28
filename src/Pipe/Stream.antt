-- ===== src/Pipe/Stream.antt =====
-- A pipe of src/kernel/pipe.c over any sequence of writes and reads: one stream of bytes.
use iron_kernel.Prelude.{
  ℕ, ◌≡◌, ◌∙◌, List, [], ◌∷◌, ◌++◌, append-nil, append_assoc, take, take-append-drop, take-min,
}
use iron_kernel.Pipe.{Pipes, pipe_write, pipe_read}
use iron_kernel.Pipe.Contents.{IsValid, contents, pipe_write_lem, pipe_read_lem}

-- What the holders of the two ends call.
pub data Op : Type 0 where
  write : List ℕ → Op
  read : ℕ → Op

pub record Trace : Type 0 where
  -- the bytes that the writes report as taken, and those that the reads deliver
  pub accepted : List ℕ
  pub delivered : List ℕ

-- The calls in order. A write of `xs` that returns `n` has taken the first `n` of them.
unfoldable pub run : ℕ → Pipes → List Op → Pipes × Trace
run id g [] = (g, record { accepted = []; delivered = [] })
run id g (write xs ∷ ops) =
    let w = pipe_write id xs g in
    let r = run id w.0 ops in
    (r.0, record { accepted = take w.1 xs ++ r.1.accepted; delivered = r.1.delivered })
run id g (read k ∷ ops) =
    let o = pipe_read id k g in
    let r = run id o.0 ops in
    (r.0, record { accepted = r.1.accepted; delivered = o.1 ++ r.1.delivered })

-- Over any sequence of writes and reads on a valid pipe, the bytes delivered, followed by those
-- that still wait, are the bytes that waited at the start, followed by all that the writes
-- accepted: none is lost, repeated or moved, and the indices stay inside the buffer.
pub run_fifo :
    (id : ℕ) (ops : List Op) (g : Pipes)
    → IsValid (g id)
    → let (g', t) = run id g ops in
      IsValid (g' id) × (t.delivered ++ contents (g' id) ≡ contents (g id) ++ t.accepted)
unfolding run
run_fifo id [] g v = (v, rw append-nil)
run_fifo id (write xs ∷ ops) g v =
    let w = pipe_write_lem id xs g v in
    let ih = run_fifo id ops (pipe_write id xs g).0 w.0 in
    (ih.0, ih.1 ∙ rw (w.1, w.2, append_assoc, take-min))
run_fifo id (read k ∷ ops) g v =
    let o = pipe_read_lem id k g v in
    let ih = run_fifo id ops (pipe_read id k g).0 o.0 in
    (ih.0, rw (append_assoc, ih.1, o.1, o.2, ← append_assoc, take-append-drop))
