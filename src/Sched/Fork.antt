-- ===== src/Sched/Fork.antt =====
-- What `sched_fork` of src/kernel/sched.c hands to the child, and what a failure leaves behind.
use iron_kernel.Prelude.{
  ℕ, zero, suc, ◌+◌, ◌-◌, ◌<◌, ◌≡◌, ◌∙◌, refl, sym, ap, ap₂, subst, ◌≢◌, inl, inr, true, false, not,
  ◌&&◌, Option, none, some, arith, ◌==◌, ==_iff, ==_refl, ==_ne, Bool-cases, Option-cases, and_true,
  if_true, if_false, update_same, update_ne, leb,
}
use iron_kernel.Pipe.{Pipes}
use iron_kernel.Sched.{
  max_tasks, task_stack_size, task_irq_stack_size, task_max_fds, TaskState, task_ready, task_dead,
  task_running, task_zombie, InterruptFrame, Task, Memory, Entries, Sched, is_dead, is_running,
  set_task,
}
use iron_kernel.Sched.Create.{
  dead_slot, inherit, fork_slot, or_new, fork_start, forked, fork_into, sched_fork,
}
use iron_kernel.Sched.Rounds.{IsValid}
use iron_kernel.Sched.Inherit.{inc_by, reads, writes, inherit-Inherited}

not_both : (t : TaskState) → is_running t ≡ true → ¬ (is_dead t ≡ true)
not_both task_ready r d = cc r
not_both task_running r d = cc d
not_both task_dead r d = cc r
not_both task_zombie r d = cc r

module _ {M : Type 0} where
  dead-ne :
      (s : Sched M) (n i j : ℕ)
      → is_running (s.tasks s.current_task).state ≡ true
      → dead_slot s.tasks n i ≡ some j
      → s.current_task ≢ j
  unfolding dead_slot
  dead-ne s zero i j run h = cc h
  dead-ne s (suc n) i j run h =
      elim (Bool-cases (is_dead (s.tasks i).state && not (s.tasks i).is_forked)) [
        | inl e ↦
            let i_is_j : i ≡ j = let q : some i ≡ some j = sym (if_true _ _ _ e) ∙ h in cc q in
            λ p.
              not_both (s.tasks i).state
                (subst (λ k. is_running (s.tasks k).state ≡ true) (p ∙ sym i_is_j) run)
                (and_true _ _ e).0
        | inr e ↦ dead-ne s n (i + 1) j run (sym (if_false _ _ _ e) ∙ h)
      ]

  -- The slot of the child is not the one of the task that forks.
  fork_slot-ne :
      (s : Sched M)
      → IsValid s
      → is_running (s.tasks s.current_task).state ≡ true
      → s.current_task ≢ fork_slot s
  fork_slot-ne s v run e = elim (Option-cases (dead_slot s.tasks (s.task_count - 1) 1)) [
    | inl o ↦
        let h = v.current_in in
        absurd (let q = e ∙ ap (λ x. or_new x s.task_count) o in omega arith)
    | inr (j, o) ↦ dead-ne s (s.task_count - 1) 1 j run o (e ∙ ap (λ x. or_new x s.task_count) o)
  ]

  -- What a fork that succeeds makes of the state `s`: the child in the slot `id`.
  pub record Child (frame : InterruptFrame) (id : ℕ) (s s' : Sched M) : Type 0 where
    pub ready : (s'.tasks id).state ≡ task_ready
    pub returns_zero : (s'.tasks id).fork_frame ≡ record frame { rax = 0 }
    pub fds : (i : ℕ) → i < task_max_fds → (s'.tasks id).fds i ≡ (s.tasks s.current_task).fds i
    pub readers :
        (p : ℕ)
        → (s'.pipes p).read_open
          ≡ inc_by (reads (s.tasks s.current_task).fds p task_max_fds 0) (s.pipes p).read_open
    pub writers :
        (p : ℕ)
        → (s'.pipes p).write_open
          ≡ inc_by (writes (s.tasks s.current_task).fds p task_max_fds 0) (s.pipes p).write_open
    pub others : (j : ℕ) → j ≢ id → s'.tasks j ≡ s.tasks j
    pub current : s'.current_task ≡ s.current_task

  forked-Child :
      (e : Entries) (frame : InterruptFrame) (id stack irq : ℕ) (s s3 : Sched M)
      → s.current_task ≢ id
      → ((j : ℕ) → j ≢ id → s3.tasks j ≡ s.tasks j)
      → (s3.tasks id).state ≡ task_ready
      → s3.pipes ≡ s.pipes
      → s3.current_task ≡ s.current_task
      → Child frame id s (forked e frame id stack irq s3)
  unfolding forked
  forked-Child e frame id stack irq s s3 ne keep ready pipes same =
      let s1 =
        set_task id
          (record (s3.tasks id) { irq_stack = irq; irq_stack_top = irq + task_irq_stack_size })
          s3 in
      let ne3 : s3.current_task ≢ id = λ p. ne (sym same ∙ p) in
      let r = inherit-Inherited s3.current_task id task_max_fds 0 s1 ne3 in
      let parent : s1.tasks s3.current_task ≡ s.tasks s.current_task =
        update_ne s3.tasks id s3.current_task _ ne3
        ∙ (keep s3.current_task ne3 ∙ ap (λ k. s.tasks k) same) in
      let s2 = inherit s3.current_task id task_max_fds 0 s1 in
      let own : s1.tasks id
          ≡ record (s3.tasks id) { irq_stack = irq; irq_stack_top = irq + task_irq_stack_size } =
        update_same s3.tasks id _ in
      record {
        ready =
            ap (λ (t : Task). t.state) (update_same s2.tasks id _)
            ∙ (r.state ∙ (ap (λ (t : Task). t.state) own ∙ ready));
        returns_zero = ap (λ (t : Task). t.fork_frame) (update_same s2.tasks id _);
        fds = λ i h.
            ap (λ (t : Task). t.fds i) (update_same s2.tasks id _)
            ∙ (r.copied i (omega arith) (omega arith) ∙ ap (λ (t : Task). t.fds i) parent);
        readers = λ p.
            r.readers p
            ∙ ap₂ (λ (t : Task) (g : Pipes). inc_by (reads t.fds p task_max_fds 0) (g p).read_open)
                parent pipes;
        writers = λ p.
            r.writers p
            ∙ ap₂
                (λ (t : Task) (g : Pipes). inc_by (writes t.fds p task_max_fds 0) (g p).write_open)
                parent pipes;
        others = λ j h.
            update_ne s2.tasks id j _ h ∙ (r.others j h ∙ (update_ne s3.tasks id j _ h ∙ keep j h));
        current = r.current ∙ same;
      }

  pub not_none :
      {o : Option ℕ × Sched M} (id : ℕ) (s s' : Sched M) → o ≡ (none, s) → ¬ (o ≡ (some id, s'))
  not_none id s s' a b = cc (ap (λ r. r.0) a, ap (λ r. r.0) b)

  fork_into-some :
      (mem : Memory M) (e : Entries) (frame : InterruptFrame) (slot cr3 id : ℕ) (s0 s s' : Sched M)
      → s.current_task ≢ slot
      → s0.tasks ≡ s.tasks
      → s0.pipes ≡ s.pipes
      → s0.current_task ≡ s.current_task
      → fork_into mem e frame slot cr3 s0 ≡ (some id, s')
      → (id ≡ slot) × Child frame id s s'
  unfolding fork_into fork_start
  fork_into-some mem e frame slot cr3 id s0 s s' ne tasks pipes current h =
      let (stack, m1) = mem.kmalloc task_stack_size s0.memory in
      let (irq, m2) = mem.kmalloc task_irq_stack_size m1 in
      elim (Bool-cases (stack == 0)) [
        | inl a ↦ absurd (not_none id _ s' (if_true _ _ _ a) h)
        | inr a ↦ elim (Bool-cases (irq == 0)) [
          | inl b ↦ absurd (not_none id _ s' (if_false _ _ _ a ∙ if_true _ _ _ b) h)
          | inr b ↦
              let r = sym h ∙ (if_false _ _ _ a ∙ if_false _ _ _ b) in
              let same_id : id ≡ slot =
                let q : some id ≡ some slot = ap (λ (x : Option ℕ × Sched M). x.0) r in cc q in
              (
                same_id,
                subst (λ j. Child frame j s s') (sym same_id)
                    (subst (λ x. Child frame slot s x)
                      (sym (ap (λ (x : Option ℕ × Sched M). x.1) r))
                      (forked-Child e frame slot stack irq s _ ne
                        (λ j k. rw (==_ne j slot k) (ap (λ f. f j) tasks)) (rw (==_refl slot) refl)
                        pipes current)),
              )
        ]
      ]

  -- When `sched_fork` succeeds, the new task sits in the dead slot that the search finds or at the
  -- end of the array, is ready to run and will see 0 as the result of the call; its 16
  -- descriptors are those of the task that forked; each pipe has as many more readers and writers
  -- as descriptors were copied that read from it and write to it; and no other task is changed.
  pub sched_fork_lem :
      (mem : Memory M) (e : Entries) (frame : InterruptFrame) (id : ℕ) (s s' : Sched M)
      → IsValid s
      → is_running (s.tasks s.current_task).state ≡ true
      → sched_fork mem e frame s ≡ (some id, s')
      → (id ≡ fork_slot s) × Child frame id s s'
  unfolding sched_fork
  sched_fork_lem mem e frame id s s' v run h =
      let ne = fork_slot-ne s v run in
      elim (Bool-cases (fork_slot s == s.task_count && leb max_tasks s.task_count)) [
        | inl a ↦ absurd (not_none id _ s' (if_true _ _ _ a) h)
        | inr a ↦
            elim (Bool-cases ((mem.clone_user_pt (s.tasks s.current_task).cr3 s.memory).0 == 0)) [
              | inl b ↦ absurd (not_none id _ s' (if_false _ _ _ a ∙ if_true _ _ _ b) h)
              | inr b ↦
                  fork_into-some mem e frame (fork_slot s) _ id _ s s' ne refl refl refl
                    (sym (if_false _ _ _ a ∙ if_false _ _ _ b) ∙ h)
            ]
      ]

  -- A call that failed, and a slot that is ready with no stack and the page table `cr3`, where `m` is the
  -- memory before that table was freed.
  abbrev pub HalfDone : Memory M → (slot cr3 task_count : ℕ) → (m : M) → Option ℕ × Sched M → Type 0
  HalfDone mem slot cr3 task_count m r =
      (r.0 ≡ none)
      × (r.1.memory ≡ mem.free_user_pt cr3 m)
      × ((r.1.tasks slot).state ≡ task_ready)
      × ((r.1.tasks slot).cr3 ≡ cr3)
      × ((r.1.tasks slot).stack ≡ 0)
      × (r.1.task_count ≡ task_count)

  fork_into-HalfDone :
      (mem : Memory M) (e : Entries) (frame : InterruptFrame) (slot cr3 : ℕ) (s0 : Sched M)
      → (mem.kmalloc task_stack_size s0.memory).0 ≡ 0
      → HalfDone mem slot cr3 s0.task_count
          (mem.kmalloc task_stack_size s0.memory).1
          (fork_into mem e frame slot cr3 s0)
  unfolding fork_into fork_start
  fork_into-HalfDone mem e frame slot cr3 s0 h =
      subst (HalfDone mem slot cr3 s0.task_count (mem.kmalloc task_stack_size s0.memory).1)
        (sym (if_true _ _ _ ((==_iff _ _).1 h)))
        (refl, refl, rw (==_refl slot) refl, rw (==_refl slot) refl, rw (==_refl slot) h, refl)

  -- When a dead slot is found, the page table is copied and the allocation of the first stack fails, `sched_fork` returns -1
  -- and the number of tasks stays; the copy of the page table is freed as the last change of the memory,
  -- but the slot is ready, with a null stack, and its cr3 is that table.
  pub sched_fork-HalfDone :
      (mem : Memory M) (e : Entries) (frame : InterruptFrame) (slot : ℕ) (s : Sched M)
      → dead_slot s.tasks (s.task_count - 1) 1 ≡ some slot
      → slot ≢ s.task_count
      → (mem.clone_user_pt (s.tasks s.current_task).cr3 s.memory).0 ≢ 0
      → (mem.kmalloc task_stack_size (mem.clone_user_pt (s.tasks s.current_task).cr3 s.memory).1).0
        ≡ 0
      → HalfDone mem slot
          (mem.clone_user_pt (s.tasks s.current_task).cr3 s.memory).0
          s.task_count
          (mem.kmalloc task_stack_size
            (mem.clone_user_pt (s.tasks s.current_task).cr3 s.memory).1).1
          (sched_fork mem e frame s)
  unfolding sched_fork
  sched_fork-HalfDone mem e frame slot s o ne some_cr3 no_stack =
      let (cr3, m) = mem.clone_user_pt (s.tasks s.current_task).cr3 s.memory in
      let found : fork_slot s ≡ slot = ap (λ x. or_new x s.task_count) o in
      let old : (fork_slot s == s.task_count && leb max_tasks s.task_count) ≡ false =
        ap (λ b. b && leb max_tasks s.task_count)
          (==_ne (fork_slot s) s.task_count λ q. ne (sym found ∙ q)) in
      let m1 = (mem.kmalloc task_stack_size m).1 in
      subst (HalfDone mem slot cr3 s.task_count m1)
        (sym (if_false _ _ _ old ∙ if_false _ _ _ (==_ne cr3 0 some_cr3)))
        (subst
          (λ k. HalfDone mem k cr3 s.task_count m1 (
            fork_into mem e frame (fork_slot s) cr3
              (record s { memory = m; loaded_cr3 = (s.tasks s.current_task).cr3 })))
          found (fork_into-HalfDone mem e frame (fork_slot s) cr3 _ no_stack))
