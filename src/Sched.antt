-- ===== src/Sched.antt =====
-- The scheduler: src/kernel/sched.c and sched.h, with the layout that src/boot/switch.asm pops.
pub mod Create
pub mod Rounds
pub mod Fair
pub mod Spawn
pub mod Inherit
pub mod Fork
pub mod Kernel
mod Tests
use iron_kernel.Prelude.{
  ℕ, zero, suc, ◌+◌, ◌-◌, ◌%◌, Bool, true, false, ◌&&◌, not, Option, none, some, List, [], ◌∷◌,
  ◌==◌, if◌then◌else◌, update, take, u32, ltb, leb,
}
use iron_kernel.Prelude.Int.{ℤ, pos, negsuc}
use iron_kernel.Pipe.{Pipes, pipe_ref_read, pipe_ref_write}

abbrev pub max_tasks : ℕ
max_tasks = 32

abbrev pub task_stack_size : ℕ
task_stack_size = 65536

abbrev pub task_irq_stack_size : ℕ
task_irq_stack_size = 4096

abbrev pub task_max_fds : ℕ
task_max_fds = 16

-- `task_state_t`
pub data TaskState : Type 0 where
  task_ready : TaskState
  task_running : TaskState
  task_dead : TaskState
  task_zombie : TaskState

-- `fd_type_t`
pub data FdType : Type 0 where
  fd_none : FdType
  fd_stdin : FdType
  fd_stdout : FdType
  fd_pipe_read : FdType
  fd_pipe_write : FdType

-- `fd_entry_t`
pub record Fd : Type 0 where
  pub type : FdType
  pub pipe_id : ℕ

-- `InterruptFrame` of src/kernel/idt.h: `rax`, and the other registers by their place in it.
pub record InterruptFrame : Type 0 where
  pub rax : ℕ
  pub others : ℕ → ℕ

-- `task_t`; the names of an ELF file are strings that a task starts without.
pub record Task : Type 0 where
  pub rsp : ℕ
  pub stack : ℕ
  pub state : TaskState
  pub id : ℕ
  pub name : List ℕ
  pub ticks : ℕ
  pub cr3 : ℕ
  pub kstack_top : ℕ
  pub irq_stack : ℕ
  pub irq_stack_top : ℕ
  pub exit_code : ℤ
  pub parent_id : ℕ
  pub is_forked : Bool
  pub fork_frame : InterruptFrame
  pub fds : ℕ → Fd
  pub win_id : ℤ
  pub elf_name : List ℕ
  pub elf_ext : List ℕ

-- What the scheduler calls of the heap and of the page tables, on a state of theirs. The null
-- pointer and the missing page table are 0.
pub record Memory (M : Type 0) : Type 0 where
  pub kmalloc : ℕ → M → ℕ × M
  pub kfree : ℕ → M → M
  pub clone_user_pt : ℕ → M → ℕ × M
  pub free_user_pt : ℕ → M → M
  pub kernel_cr3 : ℕ

-- The addresses of the code that a fresh stack names.
pub record Entries : Type 0 where
  pub task_exit_at : ℕ
  pub task_entry_sti_at : ℕ
  pub trampoline_at : ℕ

-- The variables of sched.c, the processor's CR3 and stack pointer, `rsp0` of the TSS, the words
-- of kernel memory by address, the pipes, and the state of the memory calls.
pub record Sched (M : Type 0) : Type 0 where
  pub tasks : ℕ → Task
  pub task_count : ℕ
  pub current_task : ℕ
  pub sched_ready : Bool
  pub loaded_cr3 : ℕ
  pub cpu_rsp : ℕ
  pub rsp0 : ℕ
  pub words : ℕ → ℕ
  pub pipes : Pipes
  pub memory : M

unfoldable pub is_runnable : TaskState → Bool
is_runnable task_ready = true
is_runnable task_running = true
is_runnable task_dead = false
is_runnable task_zombie = false

abbrev pub is_running : TaskState → Bool
is_running task_running = true
is_running _ = false

abbrev pub is_dead : TaskState → Bool
is_dead task_dead = true
is_dead _ = false

-- `n` turns of the search loop of `sched_tick` from `i` on, `current_task` if none is runnable
unfoldable pub search : (tasks : ℕ → Task) → (task_count current n i : ℕ) → ℕ
search tasks task_count current zero i = current
search tasks task_count current (suc n) i =
    let c = (current + i) % task_count in
    let rest = search tasks task_count current n (i + 1) in
    if is_runnable (tasks c).state then c else rest

-- `*(--sp) = v` for each word of the list, the first one at the highest address
unfoldable pub push_all : List ℕ → (sp : ℕ) → (ℕ → ℕ) → ℕ × (ℕ → ℕ)
push_all [] sp words = (sp, words)
push_all (v ∷ vs) sp words = push_all vs (sp - 8) (update words (sp - 8) v)

module _ {M : Type 0} where
  abbrev pub set_task : ℕ → Task → Sched M → Sched M
  set_task i t s = record s { tasks = update s.tasks i t }

  unfoldable pub next_task : Sched M → ℕ
  next_task s = search s.tasks s.task_count s.current_task s.task_count 1

  -- `tasks[current_task].ticks++`
  unfoldable pub count_tick : Sched M → Sched M
  count_tick s =
      let t = s.tasks s.current_task in
      set_task s.current_task (record t { ticks = u32 (t.ticks + 1) }) s

  -- the states of the two tasks of a switch
  unfoldable pub hand_over : ℕ → Sched M → Sched M
  hand_over next s =
      let t = s.tasks s.current_task in
      let tasks =
        if is_running t.state
        then update s.tasks s.current_task (record t { state = task_ready })
        else s.tasks in
      record s { tasks = update tasks next (record (tasks next) { state = task_running }) }

  -- CR3, the TSS and `task_switch`, which stores the stack pointer of the task that stops:
  -- `saved` after it has pushed its registers.
  unfoldable pub switch : (kernel_cr3 saved next : ℕ) → Sched M → Sched M
  switch kernel_cr3 saved next s =
      let n = s.tasks next in
      let prev = s.current_task in
      record s {
        loaded_cr3 = if n.cr3 == 0 then kernel_cr3 else n.cr3;
        rsp0 = n.irq_stack_top;
        current_task = next;
        tasks = update s.tasks prev (record (s.tasks prev) { rsp = saved });
        cpu_rsp = n.rsp;
      }

  unfoldable pub sched_tick : (kernel_cr3 saved : ℕ) → Sched M → Sched M
  sched_tick kernel_cr3 saved s =
      if not s.sched_ready
      then s
      else if next_task (count_tick s) == s.current_task
      then count_tick s
      else switch kernel_cr3 saved (next_task (count_tick s))
          (hand_over (next_task (count_tick s)) (count_tick s))

  -- `task_exit` up to the point from which it does not return
  unfoldable pub task_exit : (kernel_cr3 saved : ℕ) → Sched M → Sched M
  task_exit kernel_cr3 saved s =
      sched_tick kernel_cr3 saved
        (set_task s.current_task (record (s.tasks s.current_task) { state = task_dead }) s)

  pub sched_lock : Sched M → Sched M
  sched_lock s = record s { sched_ready = false }

  pub sched_unlock : Sched M → Sched M
  sched_unlock s = record s { sched_ready = true }
