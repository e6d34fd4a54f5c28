-- ===== src/Sched/Create.antt =====
-- The making of tasks: `sched_init`, `task_spawn` and `sched_fork` of src/kernel/sched.c.
use iron_kernel.Prelude.{
  ℕ, zero, suc, ◌+◌, ◌-◌, true, ◌&&◌, not, Option, none, some, List, [], ◌∷◌, ◌==◌, if◌then◌else◌,
  update, take, leb,
}
use iron_kernel.Prelude.Int.{pos, negsuc}
use iron_kernel.Pipe.{Pipes, pipe_ref_read, pipe_ref_write}
use iron_kernel.Sched.{
  max_tasks, task_stack_size, task_irq_stack_size, task_max_fds, task_ready, task_running, FdType,
  fd_none, fd_stdin, fd_stdout, fd_pipe_read, fd_pipe_write, Fd, InterruptFrame, Task, Memory,
  Entries, Sched, is_dead, set_task, push_all,
}

-- The table that the shell starts with.
unfoldable pub shell_fds : (ℕ → Fd) → ℕ → Fd
shell_fds fds i =
    if i == 0
    then record (fds i) { type = fd_stdin }
    else if leb i 2
    then record (fds i) { type = fd_stdout }
    else if leb task_max_fds i
    then fds i
    else record (fds i) { type = fd_none }

-- The stack of a spawned task, from the highest address down.
abbrev pub spawn_frame : Entries → (func : ℕ) → List ℕ
spawn_frame e func = e.task_exit_at ∷ e.task_entry_sti_at ∷ 0 ∷ func ∷ 0 ∷ 0 ∷ 0 ∷ 0 ∷ []

abbrev pub fork_frame_words : Entries → List ℕ
fork_frame_words e = e.trampoline_at ∷ 0 ∷ 0 ∷ 0 ∷ 0 ∷ 0 ∷ 0 ∷ []

abbrev pub shell : List ℕ
shell = b's' ∷ b'h' ∷ b'e' ∷ b'l' ∷ b'l' ∷ []

abbrev pub child_name : List ℕ
child_name = b'c' ∷ b'h' ∷ b'i' ∷ b'l' ∷ b'd' ∷ []

-- The first dead task that no fork has made, among the `n` ones from `i` on.
unfoldable pub dead_slot : (tasks : ℕ → Task) → (n i : ℕ) → Option ℕ
dead_slot tasks zero i = none
dead_slot tasks (suc n) i =
    let rest = dead_slot tasks n (i + 1) in
    if is_dead (tasks i).state && not (tasks i).is_forked then some i else rest

-- `pipe_ref_read` or `pipe_ref_write` for an end of a pipe
unfoldable pub ref_fd : FdType → (pipe_id : ℕ) → Pipes → Pipes
ref_fd fd_pipe_read p pipes = pipe_ref_read p pipes
ref_fd fd_pipe_write p pipes = pipe_ref_write p pipes
ref_fd fd_none p pipes = pipes
ref_fd fd_stdin p pipes = pipes
ref_fd fd_stdout p pipes = pipes

abbrev pub or_new : Option ℕ → ℕ → ℕ
or_new none task_count = task_count
or_new (some i) task_count = i

module _ {M : Type 0} where
  -- What `task_spawn` fills in once it has both stacks.
  unfoldable pub spawned :
      Entries → (name : List ℕ) → (func stack irq_stack : ℕ) → Sched M → Sched M
  spawned e name func stack irq_stack s =
      let id = s.task_count in
      let (sp, words) = push_all (spawn_frame e func) (stack + task_stack_size) s.words in
      record (set_task id
        (record (s.tasks id) {
          stack = stack;
          kstack_top = stack + task_stack_size;
          irq_stack = irq_stack;
          irq_stack_top = irq_stack + task_irq_stack_size;
          name = take 15 name;
          win_id = negsuc 0;
          elf_name = [];
          elf_ext = [];
          rsp = sp;
        })
        s) { words = words; task_count = s.task_count + 1 }

  -- One turn of the loop over the file descriptors.
  unfoldable pub inherit_one : (parent child i : ℕ) → Sched M → Sched M
  inherit_one parent child i s =
      let fd = (s.tasks parent).fds i in
      let c = s.tasks child in
      record (set_task child (record c { fds = update c.fds i fd }) s) {
        pipes = ref_fd fd.type fd.pipe_id s.pipes;
      }

  unfoldable pub inherit : (parent child n i : ℕ) → Sched M → Sched M
  inherit parent child zero i s = s
  inherit parent child (suc n) i s = inherit parent child n (i + 1) (inherit_one parent child i s)

  -- the slot, `task_count` for a new one
  abbrev pub fork_slot : Sched M → ℕ
  fork_slot s = or_new (dead_slot s.tasks (s.task_count - 1) 1) s.task_count

  -- the fields written before the stacks are asked for
  unfoldable pub fork_start : (id child_cr3 : ℕ) → Sched M → Sched M
  fork_start id child_cr3 s =
      set_task id
        (record (s.tasks id) {
          id = id;
          state = task_ready;
          ticks = 0;
          cr3 = child_cr3;
          parent_id = s.current_task;
          is_forked = true;
          exit_code = pos 0;
          name = child_name;
        })
        s

  -- what is filled in once both stacks are there
  unfoldable pub forked : Entries → InterruptFrame → (id stack irq_stack : ℕ) → Sched M → Sched M
  forked e frame id stack irq_stack s =
      let s1 =
        set_task id
          (record (s.tasks id) {
            irq_stack = irq_stack;
            irq_stack_top = irq_stack + task_irq_stack_size;
          })
          s in
      let s2 = inherit s.current_task id task_max_fds 0 s1 in
      let (sp, words) = push_all (fork_frame_words e) (s2.tasks id).kstack_top s2.words in
      record (set_task id (record (s2.tasks id) { fork_frame = record frame { rax = 0 }; rsp = sp })
        s2) {
          words = words;
          task_count = if id == s.task_count then s.task_count + 1 else s.task_count;
        }

module _ {M : Type 0} (mem : Memory M) where
  -- `boot_rsp0` is what the TSS has at the start.
  unfoldable pub sched_init : (boot_rsp0 : ℕ) → Sched M → Sched M
  sched_init boot_rsp0 s =
      record (set_task 0
        (record (s.tasks 0) {
          id = 0;
          state = task_running;
          stack = 0;
          ticks = 0;
          rsp = 0;
          cr3 = mem.kernel_cr3;
          kstack_top = boot_rsp0;
          irq_stack = 0;
          irq_stack_top = boot_rsp0;
          name = shell;
          fds = shell_fds (s.tasks 0).fds;
          win_id = negsuc 0;
          elf_name = [];
          elf_ext = [];
        })
        s) { task_count = 1; sched_ready = true }

  -- the fields written before the stacks are asked for
  unfoldable pub spawn_start : Sched M → Sched M
  spawn_start s =
      let id = s.task_count in
      set_task id
        (record (s.tasks id) { id = id; state = task_ready; ticks = 0; cr3 = mem.kernel_cr3 }) s

  -- `none` is the return value -1. A name is the characters before its 0.
  unfoldable pub task_spawn : Entries → (name : List ℕ) → (func : ℕ) → Sched M → Option ℕ × Sched M
  task_spawn e name func s =
      let s1 = spawn_start s in
      let id = s.task_count in
      let (stack, m1) = mem.kmalloc task_stack_size s1.memory in
      let s2 = record (set_task id (record (s1.tasks id) { stack = stack }) s1) { memory = m1 } in
      let (irq_stack, m2) = mem.kmalloc task_irq_stack_size m1 in
      let s3 =
        record (set_task id
          (record (s2.tasks id) { kstack_top = stack + task_stack_size; irq_stack = irq_stack })
          s2) { memory = m2 } in
      if leb max_tasks s.task_count
      then (none, s)
      else if stack == 0
      then (none, s2)
      else if irq_stack == 0
      then (none, record s3 { memory = mem.kfree stack m2 })
      else (some id, spawned e name func stack irq_stack s3)

  -- the stacks of the child in the slot `id`, whose page table is `child_cr3`
  unfoldable pub fork_into :
      Entries → InterruptFrame → (id child_cr3 : ℕ) → Sched M → Option ℕ × Sched M
  fork_into e frame id child_cr3 s =
      let s1 = fork_start id child_cr3 s in
      let (stack, m1) = mem.kmalloc task_stack_size s1.memory in
      let s2 = record (set_task id (record (s1.tasks id) { stack = stack }) s1) { memory = m1 } in
      let (irq_stack, m2) = mem.kmalloc task_irq_stack_size m1 in
      let s3 =
        record (set_task id
          (record (s2.tasks id) { kstack_top = stack + task_stack_size; irq_stack = irq_stack })
          s2) { memory = m2 } in
      if stack == 0
      then (none, record s2 { memory = mem.free_user_pt child_cr3 m1 })
      else if irq_stack == 0
      then (none, record s3 { memory = mem.free_user_pt child_cr3 (mem.kfree stack m2) })
      else (some id, forked e frame id stack irq_stack s3)

  -- `none` is the return value -1. The page table is copied under the kernel's CR3.
  unfoldable pub sched_fork : Entries → InterruptFrame → Sched M → Option ℕ × Sched M
  sched_fork e frame s =
      let parent_cr3 = (s.tasks s.current_task).cr3 in
      let (child_cr3, m) = mem.clone_user_pt parent_cr3 s.memory in
      let s1 = record s { memory = m; loaded_cr3 = parent_cr3 } in
      if fork_slot s == s.task_count && leb max_tasks s.task_count
      then (none, s)
      else if child_cr3 == 0
      then (none, s1)
      else fork_into e frame (fork_slot s) child_cr3 s1
