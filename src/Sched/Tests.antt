-- ===== src/Sched/Tests.antt =====
-- The theorems on the scheduler at concrete tasks.
use iron_kernel.Prelude.{
  ℕ, ◌+◌, ◌-◌, ◌≤◌, ◌≡◌, refl, true, false, some, List, [], ◌∷◌, arith, ◌==◌, if◌then◌else◌,
}
use iron_kernel.Prelude.Int.{pos, negsuc}
use iron_kernel.Pipe.{Pipe}
use iron_kernel.Sched.{
  TaskState, task_ready, task_running, task_dead, fd_none, fd_pipe_read, InterruptFrame, Task,
  Memory, Entries, Sched, search, next_task, count_tick, hand_over, switch, sched_tick, is_runnable,
  is_running, task_exit,
}
use iron_kernel.Sched.Create.{dead_slot, fork_slot, fork_start, fork_into, sched_fork, child_name}
use iron_kernel.Sched.Rounds.{IsValid, Turn, sched_tick-Turn}
use iron_kernel.Sched.Fair.{rounds, sched_tick_fair}
use iron_kernel.Heap.{ok, heap_init_block}
use iron_kernel.Sched.Kernel.{KernelMemory, Request, spawn, fork}
use iron_kernel.Sched.Fork.{Child, HalfDone, sched_fork_lem, sched_fork-HalfDone}

abbrev task : TaskState → Task
task state = record {
  rsp = 0;
  stack = 4096;
  state = state;
  id = 0;
  name = child_name;
  ticks = 0;
  cr3 = 0;
  kstack_top = 0;
  irq_stack = 0;
  irq_stack_top = 0;
  exit_code = pos 0;
  parent_id = 0;
  is_forked = false;
  fork_frame = record { rax = 7; others = λ i. 0 };
  fds = λ i. record { type = if i == 3 then fd_pipe_read else fd_none; pipe_id = 5 };
  win_id = negsuc 0;
  elf_name = [];
  elf_ext = [];
}

-- task 0 runs, task 1 is dead, task 2 waits
abbrev three : ℕ → Task
three i = task (if i == 0 then task_running else if i == 2 then task_ready else task_dead)

abbrev pipe : Pipe
pipe = record {
  buf = λ i. 0;
  head = 0;
  tail = 0;
  read_open = pos 1;
  write_open = pos 1;
  used = true;
}

abbrev start : Sched ℕ
start = record {
  tasks = three;
  task_count = 3;
  current_task = 0;
  sched_ready = true;
  loaded_cr3 = 0;
  cpu_rsp = 0;
  rsp0 = 0;
  words = λ a. 0;
  pipes = λ i. pipe;
  memory = 65536;
}

-- Memory is handed out from an address up, and never comes back.
abbrev bump : Memory ℕ
bump = record {
  kmalloc = λ n m. (m, m + n);
  kfree = λ p m. m;
  clone_user_pt = λ c m. (m, m + 4096);
  free_user_pt = λ c m. m;
  kernel_cr3 = 4096;
}

abbrev full : Memory ℕ
full = record bump { kmalloc = λ n m. (0, m); free_user_pt = λ c m. m - 4096 }

abbrev entries : Entries
entries = record { task_exit_at = 1; task_entry_sti_at = 2; trampoline_at = 3 }

abbrev frame : InterruptFrame
frame = record { rax = 57; others = λ i. i }

start-IsValid : IsValid start
start-IsValid = record { current_in = omega arith; alone = only }
  where
    only : (i : ℕ) → is_running (three i).state ≡ true → i ≡ 0
    only i h = ground arith

second_turn : (sched_tick 4096 9 start).current_task ≡ 2
unfolding sched_tick next_task search count_tick hand_over switch is_runnable
second_turn = refl

-- Task 2 exits, and task 0 is the only one left.
last_turn : (task_exit 4096 9 (sched_tick 4096 9 start)).current_task ≡ 0
unfolding sched_tick next_task search count_tick hand_over switch is_runnable task_exit
last_turn = refl

sched_tick-Turn_example : Turn start (sched_tick 4096 9 start)
sched_tick-Turn_example = sched_tick-Turn 4096 9 start start-IsValid refl

sched_tick_fair_example : (k : ℕ) × (k ≤ 3) × ((rounds 4096 (λ i. i) k start).current_task ≡ 2)
sched_tick_fair_example =
    sched_tick_fair 4096 2 (λ i. i) start start-IsValid refl (omega arith)
      (unfold is_runnable in refl)

sched_fork_lem_example :
    (1 ≡ fork_slot start) × Child frame 1 start (sched_fork bump entries frame start).1
sched_fork_lem_example =
    sched_fork_lem bump entries frame 1 start (sched_fork bump entries frame start).1 start-IsValid
      refl succeeds
  where
    succeeds :
        sched_fork bump entries frame start ≡ (some 1, (sched_fork bump entries frame start).1)
    succeeds = unfold sched_fork dead_slot fork_into fork_start in refl

sched_fork-HalfDone_example : HalfDone full 1 65536 3 69632 (sched_fork full entries frame start)
sched_fork-HalfDone_example =
    sched_fork-HalfDone full entries frame 1 start (unfold dead_slot in refl) (omega arith)
      (omega arith) refl

-- The heap after `heap_init`, and tables of one free frame.
abbrev kernel_start : Sched KernelMemory
kernel_start = record {
  tasks = three;
  task_count = 3;
  current_task = 0;
  sched_ready = true;
  loaded_cr3 = 0;
  cpu_rsp = 0;
  rsp0 = 0;
  words = λ a. 0;
  pipes = λ i. pipe;
  memory = ok (
    heap_init_block (λ a. record { magic = 0; size = 0; is_free = false }),
    record {
      frames = λ x i. 0;
      pmm = record { bitmap = λ i. 0; total_frames = 8; free_frame_count = 8 };
    },
  );
}

abbrev requests : List Request
requests = spawn child_name 77 ∷ fork frame ∷ []

abbrev no_table : ℕ → ℕ
no_table i = 0
