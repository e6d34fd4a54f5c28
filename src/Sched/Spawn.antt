-- ===== src/Sched/Spawn.antt =====
-- What `task_spawn` of src/kernel/sched.c prepares for the first `task_switch` to a task, as
-- src/boot/switch.asm takes it off the stack.
use iron_kernel.Prelude.{
  ℕ, zero, suc, ◌+◌, ◌-◌, ◌*◌, ◌≤◌, ◌<◌, ◌≡◌, ◌∙◌, refl, sym, ap, subst, ◌≢◌, inl, inr, Option,
  some, List, [], ◌∷◌, arith, ◌==◌, ==_refl, ==_ne, Bool-cases, if_true, if_false, update,
  update_same, update_ne, leb, length, get_or,
}
use iron_kernel.Sched.{
  max_tasks, task_stack_size, task_irq_stack_size, task_ready, Memory, Entries, Sched, push_all,
}
use iron_kernel.Sched.Fork.{not_none}
use iron_kernel.Sched.Create.{spawn_frame, spawn_start, spawned, task_spawn}

-- The stack pointer after a list of words has been pushed.
push_all_sp : (vs : List ℕ) (sp : ℕ) (w : ℕ → ℕ) → (push_all vs sp w).0 ≡ sp - 8 * length vs
unfolding push_all
push_all_sp [] sp w = omega arith
push_all_sp (v ∷ vs) sp w = omega (arith, push_all_sp vs (sp - 8) (update w (sp - 8) v))

-- Pushes do not touch what is above the stack.
push_all_above :
    (vs : List ℕ) (sp : ℕ) (w : ℕ → ℕ) (a : ℕ)
    → 8 * length vs ≤ sp
    → sp ≤ a
    → (push_all vs sp w).1 a ≡ w a
unfolding push_all
push_all_above [] sp w a l h = refl
push_all_above (v ∷ vs) sp w a l h =
    push_all_above vs (sp - 8) (update w (sp - 8) v) a (omega arith) (omega arith)
    ∙ update_ne w (sp - 8) a v (omega arith)

-- The word pushed as number `k` stands `8 * (k + 1)` bytes below the old top.
push_all_at :
    (vs : List ℕ) (sp : ℕ) (w : ℕ → ℕ) (k : ℕ)
    → 8 * length vs ≤ sp
    → k < length vs
    → (push_all vs sp w).1 (sp - 8 * suc k) ≡ get_or vs k 0
unfolding push_all
push_all_at [] sp w k l h = absurd (omega arith)
push_all_at (v ∷ vs) sp w zero l h =
    push_all_above vs (sp - 8) (update w (sp - 8) v) (sp - 8 * 1) (omega arith) (omega arith)
    ∙ (let e : sp - 8 * 1 ≡ sp - 8 = omega arith in
        ap (λ a. update w (sp - 8) v a) e ∙ update_same w (sp - 8) v)
push_all_at (v ∷ vs) sp w (suc k) l h =
    let e : sp - 8 * suc (suc k) ≡ sp - 8 - 8 * suc k = omega arith in
    ap (λ a. (push_all (v ∷ vs) sp w).1 a) e
    ∙ push_all_at vs (sp - 8) (update w (sp - 8) v) k (omega arith) (omega arith)

-- The registers that `task_switch` pops, and where its `ret` goes.
pub record Restored : Type 0 where
  pub r15 : ℕ
  pub r14 : ℕ
  pub r13 : ℕ
  pub r12 : ℕ
  pub rbx : ℕ
  pub rbp : ℕ
  pub ret : ℕ

abbrev pub restore : (words : ℕ → ℕ) → (rsp : ℕ) → Restored
restore words rsp = record {
  r15 = words rsp;
  r14 = words (rsp + 8);
  r13 = words (rsp + 16);
  r12 = words (rsp + 24);
  rbx = words (rsp + 32);
  rbp = words (rsp + 40);
  ret = words (rsp + 48);
}

-- what a task starts with whose stack was made by `task_spawn`
abbrev pub fresh : Entries → (func : ℕ) → Restored
fresh e func = record {
  r15 = 0;
  r14 = 0;
  r13 = 0;
  r12 = 0;
  rbx = func;
  rbp = 0;
  ret = e.task_entry_sti_at;
}

spawn_frame-restore :
    (e : Entries) (func stack : ℕ) (w : ℕ → ℕ)
    → let (sp, words) = push_all (spawn_frame e func) (stack + task_stack_size) w in
      restore words sp ≡ fresh e func
spawn_frame-restore e func stack w =
    let top = stack + task_stack_size in
    let f = spawn_frame e func in
    let r = push_all f top w in
    let at : (k : ℕ) (a : ℕ) → a ≡ top - 8 * suc k → k < 8 → r.1 a ≡ get_or f k 0 =
      λ k a h l. ap r.1 h ∙ push_all_at f top w k (omega arith) (omega arith) in
    let sp = push_all_sp f top w in
    λ i. record {
      r15 = at 7 r.0 (omega arith) (omega arith) i;
      r14 = at 6 (r.0 + 8) (omega arith) (omega arith) i;
      r13 = at 5 (r.0 + 16) (omega arith) (omega arith) i;
      r12 = at 4 (r.0 + 24) (omega arith) (omega arith) i;
      rbx = at 3 (r.0 + 32) (omega arith) (omega arith) i;
      rbp = at 2 (r.0 + 40) (omega arith) (omega arith) i;
      ret = at 1 (r.0 + 48) (omega arith) (omega arith) i;
    }

module _ {M : Type 0} where
  -- A new task at the end of the array, ready to be switched to.
  pub record Spawned (e : Entries) (func id : ℕ) (s s' : Sched M) : Type 0 where
    pub ready : (s'.tasks id).state ≡ task_ready
    pub starts : restore s'.words (s'.tasks id).rsp ≡ fresh e func
    pub others : (j : ℕ) → j ≢ id → s'.tasks j ≡ s.tasks j
    pub counted : s'.task_count ≡ suc s.task_count
    pub current : s'.current_task ≡ s.current_task

  spawned-Spawned :
      (e : Entries) (name : List ℕ) (func stack irq : ℕ) (s s3 : Sched M)
      → ((j : ℕ) → j ≢ s.task_count → s3.tasks j ≡ s.tasks j)
      → (s3.tasks s.task_count).state ≡ task_ready
      → s3.task_count ≡ s.task_count
      → s3.current_task ≡ s.current_task
      → Spawned e func s.task_count s (spawned e name func stack irq s3)
  unfolding spawned
  spawned-Spawned e name func stack irq s s3 keep ready count current = record {
    ready = rw count (rw (==_refl s.task_count) ready);
    starts = rw count (rw (==_refl s.task_count) (spawn_frame-restore e func stack s3.words));
    others = λ j k. rw count (rw (==_ne j s.task_count k) (keep j k));
    counted = omega arith;
    current = current;
  }

  -- When `task_spawn` succeeds, the task is the last one of the array and ready, the first switch
  -- to it pops the function into `rbx` and returns to `task_entry_sti`, and no other task is
  -- changed. The call fails when the array has its 32 tasks.
  pub task_spawn_lem :
      (mem : Memory M) (e : Entries) (name : List ℕ) (func id : ℕ) (s s' : Sched M)
      → task_spawn mem e name func s ≡ (some id, s')
      → (id ≡ s.task_count) × (s.task_count < max_tasks) × Spawned e func id s s'
  unfolding task_spawn spawn_start
  task_spawn_lem mem e name func id s s' h =
      let (stack, m1) = mem.kmalloc task_stack_size s.memory in
      let (irq, m2) = mem.kmalloc task_irq_stack_size m1 in
      elim (Bool-cases (leb max_tasks s.task_count)) [
        | inl a ↦ absurd (not_none id _ s' (if_true _ _ _ a) h)
        | inr a ↦ elim (Bool-cases (stack == 0)) [
          | inl b ↦ absurd (not_none id _ s' (if_false _ _ _ a ∙ if_true _ _ _ b) h)
          | inr b ↦ elim (Bool-cases (irq == 0)) [
            | inl c ↦
                absurd
                  (not_none id _ s' (if_false _ _ _ a ∙ (if_false _ _ _ b ∙ if_true _ _ _ c)) h)
            | inr c ↦
                let r = sym h ∙ (if_false _ _ _ a ∙ (if_false _ _ _ b ∙ if_false _ _ _ c)) in
                let last : id ≡ s.task_count =
                  let q : some id ≡ some s.task_count = ap (λ (x : Option ℕ × Sched M). x.0) r in
                  cc q in
                (
                  last,
                  ground arith,
                  subst (λ j. Spawned e func j s s') (sym last)
                      (subst (λ x. Spawned e func s.task_count s x)
                        (sym (ap (λ (x : Option ℕ × Sched M). x.1) r))
                        (spawned-Spawned e name func stack irq s _
                          (λ j k. rw (==_ne j s.task_count k) refl) (rw (==_refl s.task_count) refl)
                          refl refl)),
                )
          ]
        ]
      ]
