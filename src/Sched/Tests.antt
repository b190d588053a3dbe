-- ===== src/Sched/Tests.antt =====
-- Runs of kern/sched/astral_sched.c, and its theorems at three tasks.
use astral_os.Common.{ℕ, suc, ◌+◌, ◌<◌, ◌≡◌, ◌≢◌, refl, false, none, some, [], ◌∷◌, arith, get_or}
use astral_os.Sched.{Sched, jumps, spins, sched_init, sched_add_task, sched_schedule, sched_yield}
use astral_os.Memory.Kmalloc.{BlockHeader, kmalloc_init}
use astral_os.Memory.Kmalloc.Grants.{boot}
use astral_os.Memory.PageTables.{Layout, Machine}
use astral_os.Sched.Create.{sched_create_task}
use astral_os.Sched.Leaks.{Created, sched_create_task-Created}
use astral_os.Sched.Valid.{IsValid, adds, yields, schedules, run, call, run-sched_init-IsValid}
use astral_os.Sched.Rounds.{switched, yield_times, every_task_runs}

-- The control block at the address 100 t has stack 10 t, code t and page table 1000 t.
abbrev three : Sched
three = record {
  current_task = 0;
  task_list = 100 ∷ 200 ∷ 300 ∷ 0 ∷ 0 ∷ 0 ∷ 0 ∷ 0 ∷ [];
  num_tasks = 3;
  current_task_index = none;
  sched_lock = 0;
  tcbs = λ p. record {
    id = p;
    context = record { sp = p + 1; lr = p + 2; fp = p + 1 };
    stack_base = p;
    stack_size = 1;
    ttbr0_el1 = p + 3;
  };
  ttbr0_el1 = 7;
}

-- The third task runs.
abbrev last : Sched
last = switched three 2

real : (i : ℕ) → i < 3 → get_or three.task_list i 0 ≢ 0
real i lt = ground arith

three-IsValid : IsValid three
three-IsValid = record {
  unlocked = refl;
  room = refl;
  few = omega arith;
  tasks = real;
  current = refl;
}

last-IsValid : IsValid last
last-IsValid = record {
  unlocked = refl;
  room = refl;
  few = omega arith;
  tasks = real;
  current = (omega arith, refl);
}

three_added :
    run (sched_init three) (adds 100 ∷ adds 200 ∷ adds 300 ∷ schedules ∷ yields ∷ [])
    ≡ some (switched three 1)
unfolding run call sched_init sched_add_task sched_schedule sched_yield
three_added = refl

first_schedule : sched_schedule three ≡ jumps 101 102 (switched three 0)
unfolding sched_schedule
first_schedule = refl

-- An interrupt inside a call on the same core finds the lock taken.
reentered : sched_yield (record last { sched_lock = 1 }) ≡ spins
unfolding sched_yield
reentered = refl

run-sched_init-IsValid_example :
    (s : Sched) × (run (sched_init three) (adds 100 ∷ yields ∷ schedules ∷ []) ≡ some s) × IsValid s
run-sched_init-IsValid_example = run-sched_init-IsValid three _ refl (omega arith)

every_task_runs_example : (k : ℕ) × (k < 3) × (yield_times (suc k) last ≡ some (switched last 1))
every_task_runs_example = every_task_runs last 2 1 last-IsValid (omega arith) refl (omega arith)

-- A machine with a heap of 64 KB at 2^31.
abbrev blocks : ℕ → BlockHeader
blocks a = record { size = 0; next = 0; free = false }

abbrev machine : Machine
machine = record {
  words = λ a. a;
  heap = kmalloc_init blocks 0x80000000 0x10000;
  mair_el1 = 0;
  tcr_el1 = 0;
  ttbr0_el1 = 0;
  sctlr_el1 = 0;
}

abbrev layout : Layout
layout = record { kernel_l1_page_table = 0x40000; kernel_l2_page_table = 0x41000 }

sched_create_task-Created_example :
    Created 0x80000000 0x10000 [] three.task_list 3 4096
      (sched_create_task layout machine three 77 4096)
sched_create_task-Created_example =
    sched_create_task-Created 0x80000000 0x10000 (omega arith) refl (omega arith) (omega arith)
      layout [] 4096 three machine 77 refl (omega arith) (boot blocks)
