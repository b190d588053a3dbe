-- ===== src/Sched.antt =====
-- kern/sched/astral_sched.c: the list of tasks and the round-robin switch between them. Task control
-- blocks are cells of a store, by address. An exit says how control leaves a function. The lock is
-- taken and released in each call, on one core: taking it while it is held never ends.
pub mod Valid
pub mod Rounds
pub mod Create
pub mod Leaks
mod Tests
use astral_os.Common.{
  ℕ, suc, ◌+◌, ◌%◌, Option, none, some, List, if◌then◌else◌, ltb, leb, ◌==◌, set, get_or, replicate,
}

-- `cpu_context_t`: the words that this file reads and writes.
pub record CpuContext : Type 0 where
  pub sp : ℕ
  pub lr : ℕ
  pub fp : ℕ

pub record Tcb : Type 0 where
  pub id : ℕ
  pub context : CpuContext
  pub stack_base : ℕ
  pub stack_size : ℕ
  pub ttbr0_el1 : ℕ

abbrev pub max_tasks : ℕ
max_tasks = 8

-- The offset of `context` in `tcb_t`: `id` takes 4 bytes, and `context` wants a multiple of 8.
abbrev pub context_offset : ℕ
context_offset = 8

-- The static variables of the file (an index of -1 is `none`, the null task is 0), the control
-- blocks in memory, and the register of the page table in use.
pub record Sched : Type 0 where
  pub current_task : ℕ
  pub task_list : List ℕ
  pub num_tasks : ℕ
  pub current_task_index : Option ℕ
  pub sched_lock : ℕ
  pub tcbs : ℕ → Tcb
  pub ttbr0_el1 : ℕ

pub data Exit : Type 0 where
  -- The function returns.
  returns : Sched → Exit
  -- It calls `cpu_set_state(CPU_STATE_HALTED)`, and returns if that does.
  halts : Sched → Exit
  -- It loads the stack pointer and branches.
  jumps : (sp lr : ℕ) → Sched → Exit
  -- It calls `context_switch` with the addresses of two contexts.
  switches : (old_context new_context : ℕ) → Sched → Exit
  -- It waits for a lock that is never released.
  spins : Exit

abbrev pub spinlock_release : Sched → Sched
spinlock_release s = record s { sched_lock = 0 }

-- `spinlock_acquire`, and what follows it.
abbrev pub with_lock : Sched → (Sched → Exit) → Exit
with_lock s body = if s.sched_lock == 0 then body (record s { sched_lock = 1 }) else spins

pub sched_init : Sched → Sched
sched_init s = record s {
  task_list = replicate max_tasks 0;
  num_tasks = 0;
  current_task_index = none;
  sched_lock = 0;
}

unfoldable pub sched_add_task : Sched → ℕ → Exit
sched_add_task s task = with_lock s λ s.
    if leb max_tasks s.num_tasks
    then returns (spinlock_release s)
    else returns (
        spinlock_release
          (record s { task_list = set s.task_list s.num_tasks task; num_tasks = s.num_tasks + 1 }))

-- `(current_task_index + 1) % num_tasks`
abbrev pub next_index : Sched → ℕ
next_index s = elim s.current_task_index [ none ↦ 0 % s.num_tasks | some i ↦ (i + 1) % s.num_tasks ]

-- `current_task_index = i; current_task = task_list[i]`, and the load of the page table register.
abbrev pub make_current : Sched → ℕ → Sched
make_current s i =
    let task = get_or s.task_list i 0 in
    record s {
      current_task_index = some i;
      current_task = task;
      ttbr0_el1 = (s.tcbs task).ttbr0_el1;
    }

pub sched_yield : Sched → Exit
sched_yield s = with_lock s λ s.
    let s' = make_current s (next_index s) in
    if leb s.num_tasks 1
    then returns (spinlock_release s)
    else switches (s.current_task + context_offset) (s'.current_task + context_offset)
        (spinlock_release s')

pub sched_schedule : Sched → Exit
unfolding sched_yield
sched_schedule s = with_lock s λ s.
    let s' = make_current s 0 in
    let context = (s'.tcbs s'.current_task).context in
    if s.num_tasks == 0
    then halts (spinlock_release s)
    else if s.current_task == 0
    then jumps context.sp context.lr (spinlock_release s')
    else sched_yield (spinlock_release s)
