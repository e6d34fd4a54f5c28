-- ===== src/Sched/Inherit.antt =====
-- The loop of `sched_fork` in src/kernel/sched.c that hands the descriptors on and counts the new ends
-- of each pipe.
use iron_kernel.Prelude.{
  ℕ, zero, suc, ◌+◌, ◌≤◌, ◌<◌, ◌≡◌, ◌∙◌, refl, sym, ap, subst, ◌≢◌, inl, inr, Bool, true, false,
  ◌&&◌, arith, ◌==◌, ==_iff, Bool-cases, update, update_same, update_ne,
}
use iron_kernel.Prelude.Int.{ℤ, inc}
use iron_kernel.Pipe.{Pipes, pipe_ref_read, pipe_ref_write}
use iron_kernel.Sched.{FdType, fd_none, fd_stdin, fd_stdout, fd_pipe_read, fd_pipe_write, Fd, Sched}
use iron_kernel.Sched.Create.{ref_fd, inherit_one, inherit}

abbrev pub inc_by : ℕ → ℤ → ℤ
inc_by zero z = z
inc_by (suc k) z = inc_by k (inc z)

abbrev is_read : FdType → Bool
is_read fd_pipe_read = true
is_read _ = false

abbrev is_write : FdType → Bool
is_write fd_pipe_write = true
is_write _ = false

abbrev one_if : Bool → ℕ
one_if true = 1
one_if false = 0

-- How many of the `n` descriptors from `i` on are the read end, or the write end, of the pipe `p`.
abbrev pub reads : (ℕ → Fd) → (p n i : ℕ) → ℕ
reads fds p zero i = 0
reads fds p (suc n) i =
    one_if (is_read (fds i).type && (p == (fds i).pipe_id)) + reads fds p n (i + 1)

abbrev pub writes : (ℕ → Fd) → (p n i : ℕ) → ℕ
writes fds p zero i = 0
writes fds p (suc n) i =
    one_if (is_write (fds i).type && (p == (fds i).pipe_id)) + writes fds p n (i + 1)

inc_by-add : (a b : ℕ) (z : ℤ) → inc_by (a + b) z ≡ inc_by b (inc_by a z)
inc_by-add zero b z = let e : zero + b ≡ b = omega arith in ap (λ k. inc_by k z) e
inc_by-add (suc a) b z =
    let e : suc a + b ≡ suc (a + b) = omega arith in ap (λ k. inc_by k z) e ∙ inc_by-add a b (inc z)

ref_fd-reads :
    (t : FdType) (q p : ℕ) (g : Pipes)
    → (ref_fd t q g p).read_open ≡ inc_by (one_if (is_read t && (p == q))) (g p).read_open
unfolding ref_fd pipe_ref_read pipe_ref_write
ref_fd-reads fd_none q p g = refl
ref_fd-reads fd_stdin q p g = refl
ref_fd-reads fd_stdout q p g = refl
ref_fd-reads fd_pipe_read q p g = elim (Bool-cases (p == q)) [
  | inl e ↦ rw e (ap (λ k. inc (g k).read_open) (sym ((==_iff p q).0 e)))
  | inr e ↦ rw e refl
]
ref_fd-reads fd_pipe_write q p g = elim (Bool-cases (p == q)) [
  | inl e ↦ rw e (ap (λ k. (g k).read_open) (sym ((==_iff p q).0 e)))
  | inr e ↦ rw e refl
]

ref_fd-writes :
    (t : FdType) (q p : ℕ) (g : Pipes)
    → (ref_fd t q g p).write_open ≡ inc_by (one_if (is_write t && (p == q))) (g p).write_open
unfolding ref_fd pipe_ref_read pipe_ref_write
ref_fd-writes fd_none q p g = refl
ref_fd-writes fd_stdin q p g = refl
ref_fd-writes fd_stdout q p g = refl
ref_fd-writes fd_pipe_write q p g = elim (Bool-cases (p == q)) [
  | inl e ↦ rw e (ap (λ k. inc (g k).write_open) (sym ((==_iff p q).0 e)))
  | inr e ↦ rw e refl
]
ref_fd-writes fd_pipe_read q p g = elim (Bool-cases (p == q)) [
  | inl e ↦ rw e (ap (λ k. (g k).write_open) (sym ((==_iff p q).0 e)))
  | inr e ↦ rw e refl
]

module _ {M : Type 0} where
  -- What the loop over the descriptors from `i` on does, for a child other than the parent.
  pub record Inherited (parent child n i : ℕ) (s s' : Sched M) : Type 0 where
    pub others : (j : ℕ) → j ≢ child → s'.tasks j ≡ s.tasks j
    pub current : s'.current_task ≡ s.current_task
    pub copied : (j : ℕ) → i ≤ j → j < i + n → (s'.tasks child).fds j ≡ (s.tasks parent).fds j
    pub kept : (j : ℕ) → j < i → (s'.tasks child).fds j ≡ (s.tasks child).fds j
    pub state : (s'.tasks child).state ≡ (s.tasks child).state
    pub readers :
        (p : ℕ)
        → (s'.pipes p).read_open ≡ inc_by (reads (s.tasks parent).fds p n i) (s.pipes p).read_open
    pub writers :
        (p : ℕ)
        → (s'.pipes p).write_open
          ≡ inc_by (writes (s.tasks parent).fds p n i) (s.pipes p).write_open

  one_child :
      (parent child i : ℕ) (s : Sched M)
      → (inherit_one parent child i s).tasks child
        ≡ record (s.tasks child) { fds = update (s.tasks child).fds i ((s.tasks parent).fds i) }
  unfolding inherit_one
  one_child parent child i s = update_same s.tasks child _

  one_current :
      (parent child i : ℕ) (s : Sched M)
      → (inherit_one parent child i s).current_task ≡ s.current_task
  unfolding inherit_one
  one_current parent child i s = refl

  one_other :
      (parent child i j : ℕ) (s : Sched M)
      → j ≢ child
      → (inherit_one parent child i s).tasks j ≡ s.tasks j
  unfolding inherit_one
  one_other parent child i j s h = update_ne s.tasks child j _ h

  one_reads :
      (parent child i p : ℕ) (s : Sched M)
      → ((inherit_one parent child i s).pipes p).read_open
        ≡ inc_by
            (one_if
              (is_read ((s.tasks parent).fds i).type && (p == ((s.tasks parent).fds i).pipe_id)))
            (s.pipes p).read_open
  unfolding inherit_one
  one_reads parent child i p s =
      ref_fd-reads ((s.tasks parent).fds i).type ((s.tasks parent).fds i).pipe_id p s.pipes

  one_writes :
      (parent child i p : ℕ) (s : Sched M)
      → ((inherit_one parent child i s).pipes p).write_open
        ≡ inc_by
            (one_if
              (is_write ((s.tasks parent).fds i).type && (p == ((s.tasks parent).fds i).pipe_id)))
            (s.pipes p).write_open
  unfolding inherit_one
  one_writes parent child i p s =
      ref_fd-writes ((s.tasks parent).fds i).type ((s.tasks parent).fds i).pipe_id p s.pipes

  pub inherit-Inherited :
      (parent child n i : ℕ) (s : Sched M)
      → parent ≢ child
      → Inherited parent child n i s (inherit parent child n i s)
  unfolding inherit
  inherit-Inherited parent child zero i s ne = record {
    others = λ j h. refl;
    current = refl;
    copied = λ j l h. absurd (omega arith);
    kept = λ j h. refl;
    state = refl;
    readers = λ p. refl;
    writers = λ p. refl;
  }
  inherit-Inherited parent child (suc n) i s ne =
      let s1 = inherit_one parent child i s in
      let r = inherit-Inherited parent child n (i + 1) s1 ne in
      let same : s1.tasks parent ≡ s.tasks parent = one_other parent child i parent s ne in
      record {
        others = λ j h. r.others j h ∙ one_other parent child i j s h;
        current = r.current ∙ one_current parent child i s;
        copied = λ j l h. elim (Bool-cases (i == j)) [
          | inl e ↦
              let q = (==_iff i j).0 e in
              r.kept j (omega arith)
              ∙ (ap (λ t. t.fds j) (one_child parent child i s)
                  ∙ subst
                      (λ k.
                        update (s.tasks child).fds i ((s.tasks parent).fds i) k
                        ≡ (s.tasks parent).fds k)
                      q (update_same (s.tasks child).fds i _))
          | inr e ↦
              let x : i ≢ j = λ q. cc (e, (==_iff i j).1 q) in
              r.copied j (omega arith) (omega arith) ∙ ap (λ t. t.fds j) same
        ];
        kept = λ j h.
            r.kept j (omega arith)
            ∙ (ap (λ t. t.fds j) (one_child parent child i s)
                ∙ update_ne (s.tasks child).fds i j _ (omega arith));
        state = r.state ∙ ap (λ t. t.state) (one_child parent child i s);
        readers = λ p.
            r.readers p
            ∙ (ap (λ t. inc_by (reads t.fds p n (i + 1)) (s1.pipes p).read_open) same
                ∙ (ap (λ z. inc_by (reads (s.tasks parent).fds p n (i + 1)) z)
                      (one_reads parent child i p s)
                    ∙ sym (
                        inc_by-add _ (reads (s.tasks parent).fds p n (i + 1))
                          (s.pipes p).read_open)));
        writers = λ p.
            r.writers p
            ∙ (ap (λ t. inc_by (writes t.fds p n (i + 1)) (s1.pipes p).write_open) same
                ∙ (ap (λ z. inc_by (writes (s.tasks parent).fds p n (i + 1)) z)
                      (one_writes parent child i p s)
                    ∙ sym (
                        inc_by-add _ (writes (s.tasks parent).fds p n (i + 1))
                          (s.pipes p).write_open)));
      }
