-- ===== src/Pipe/Ends.antt =====
-- Allocation and reference counts of src/kernel/pipe.c: which slot `pipe_alloc` gives out, and when
-- the closing calls give it back.
use iron_kernel.Prelude.{
  ℕ, zero, suc, ◌+◌, ◌≤◌, ◌<◌, ◌≡◌, refl, ◌≢◌, true, false, inl, inr, Option, none, some, [], ◌&&◌,
  not, arith, Bool-cases, update, update_same, update_ne,
}
use iron_kernel.Prelude.Int.{ℤ, pos, negsuc, inc, le_zero}
use iron_kernel.Pipe.{
  max_pipes, Pipe, Pipes, opened, alloc_loop, pipe_alloc, pipe_ref_read, pipe_ref_write, shut_read,
  shut_write, pipe_close_read, pipe_close_write,
}
use iron_kernel.Pipe.Contents.{IsValid, contents}

-- What a search of the `n` slots from `i` on may answer.
abbrev Found : Pipes → ℕ → ℕ → Option (ℕ × Pipes) → Type 0
Found g n i none = (j : ℕ) → i ≤ j → j < i + n → (g j).used ≡ true
Found g n i (some (j, g')) =
    (i ≤ j)
    × (j < i + n)
    × ((g j).used ≡ false)
    × ((k : ℕ) → i ≤ k → k < j → (g k).used ≡ true)
    × (g' ≡ update g j (opened (g j)))

alloc_loop-Found : (n i : ℕ) (g : Pipes) → Found g n i (alloc_loop n i g)
unfolding alloc_loop
alloc_loop-Found zero i g = λ j h k. absurd (omega arith)
alloc_loop-Found (suc n) i g = elim (Bool-cases (g i).used) [
  | inl busy ↦ rw busy (widen (alloc_loop n (i + 1) g) busy (alloc_loop-Found n (i + 1) g))
  | inr free ↦ rw free (omega arith, omega arith, free, (λ k h l. absurd (omega arith)), refl)
]
  where
    at_first :
        (k : ℕ) → (g i).used ≡ true → ((i + 1 ≤ k) → (g k).used ≡ true) → i ≤ k → (g k).used ≡ true
    at_first k busy later h = ground (arith)

    widen : (r : Option (ℕ × Pipes)) → (g i).used ≡ true → Found g n (i + 1) r → Found g (suc n) i r
    widen none busy f = λ j h k. at_first j busy (λ l. f j l (omega arith)) h
    widen (some (j, g')) busy f = (
      omega (arith, f.0),
      omega (arith, f.1),
      f.2,
      (λ k h l. at_first k busy (λ m. f.3 k m l) h),
      f.4,
    )

-- `pipe_alloc` fails only when all 32 slots are in use. Otherwise it gives out the first slot that
-- is not, with both ends open once and no byte waiting, and leaves every other slot alone.
pub pipe_alloc_lem :
    (g : Pipes)
    → ((pipe_alloc g ≡ none) → (j : ℕ) → j < max_pipes → (g j).used ≡ true)
      × ((id : ℕ) (g' : Pipes)
          → pipe_alloc g ≡ some (id, g')
          → (id < max_pipes)
            × ((g id).used ≡ false)
            × ((k : ℕ) → k < id → (g k).used ≡ true)
            × ((g' id).used ≡ true)
            × ((g' id).read_open ≡ pos 1)
            × ((g' id).write_open ≡ pos 1)
            × IsValid (g' id)
            × (contents (g' id) ≡ [])
            × ((j : ℕ) → j ≢ id → g' j ≡ g j))
unfolding pipe_alloc
pipe_alloc_lem g = (
  (λ e j h. (rw e at (alloc_loop-Found max_pipes 0 g)) j (omega arith) h),
  λ id g' e.
      let f : Found g max_pipes 0 (some (id, g')) = rw e at (alloc_loop-Found max_pipes 0 g) in
      rw (f.4, update_same g id (opened (g id)))
        (
          f.1,
          f.2,
          (λ k h. f.3 k (omega arith) h),
          refl,
          refl,
          refl,
          record { head_in = omega arith; tail_in = omega arith },
          refl,
          λ j ne. update_ne g id j (opened (g id)) ne,
        ),
)

-- A slot is in use exactly while one of its ends is open.
abbrev pub IsCounted : Pipe → Type 0
IsCounted p = p.used ≡ not (le_zero p.read_open && le_zero p.write_open)

-- The calls that the kernel makes on one slot: `fork` counts a further holder of an end that is
-- open, and `close` gives up an end that is open.
pub data Step (id : ℕ) (g : Pipes) : Pipes → Type 0 where
  ref_read : le_zero (g id).read_open ≡ false → Step id g (pipe_ref_read id g)
  ref_write : le_zero (g id).write_open ≡ false → Step id g (pipe_ref_write id g)
  close_read : le_zero (g id).read_open ≡ false → Step id g (pipe_close_read id g)
  close_write : le_zero (g id).write_open ≡ false → Step id g (pipe_close_write id g)

pub data Steps (id : ℕ) (g : Pipes) : Pipes → Type 0 where
  here : Steps id g g
  next : {g' g'' : Pipes} → Steps id g g' → Step id g' g'' → Steps id g g''

inc-pos : (i : ℤ) → le_zero i ≡ false → le_zero (inc i) ≡ false
inc-pos (pos zero) h = refl
inc-pos (pos (suc n)) h = refl
inc-pos (negsuc n) h = cc

Step-IsCounted : {id : ℕ} {g g' : Pipes} → Step id g g' → IsCounted (g id) → IsCounted (g' id)
unfolding pipe_ref_read pipe_ref_write pipe_close_read pipe_close_write shut_read shut_write
Step-IsCounted {id} {g} (ref_read h) c =
    rw (update_same g id _) (ground (arith, inc-pos (g id).read_open))
Step-IsCounted {id} {g} (ref_write h) c =
    rw (update_same g id _) (ground (arith, inc-pos (g id).write_open))
Step-IsCounted {id} {g} (close_read h) c = rw (update_same g id _) (ground arith)
Step-IsCounted {id} {g} (close_write h) c = rw (update_same g id _) (ground arith)

-- From `pipe_alloc` on, whatever `fork` and `close` do with the slot's ends, it stays in use as
-- long as a read end or a write end is open, and is given back when both have been closed.
pub pipe_alloc-IsCounted :
    (id : ℕ) (g g' : Pipes) {g'' : Pipes}
    → pipe_alloc g ≡ some (id, g')
    → Steps id g' g''
    → IsCounted (g'' id)
pipe_alloc-IsCounted id g g' e here =
    let a = (pipe_alloc_lem g).1 id g' e in ground (arith, a.3, a.4, a.5)
pipe_alloc-IsCounted id g g' e (next r st) = Step-IsCounted st (pipe_alloc-IsCounted id g g' e r)
