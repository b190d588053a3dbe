-- ===== src/Sched/Create.antt =====
-- kern/sched/astral_sched.c, `sched_create_task`: a control block, a stack and a page table from the heap.
-- A result of `none` stands for a loop of the heap that is not done when its fuel is.
use astral_os.Common.{ℕ, Option, none, some, if◌then◌else◌, ◌==◌, add64, sub64}
use astral_os.Memory.Kmalloc.{Heap, kmalloc, kfree}
use astral_os.Memory.PageTables.{Layout, Machine, vm_create_task_pagetable}
use astral_os.Sched.{Sched, Tcb, Exit, returns, sched_add_task}

-- `sizeof(tcb_t)`
abbrev pub tcb_size : ℕ
tcb_size = 144

abbrev pub set_tcb : Sched → (task : ℕ) → Tcb → Sched
set_tcb s task t = record s { tcbs = λ p. if p == task then t else s.tcbs p }

-- The calls of the heap, on the machine that has it.
abbrev pub with_heap : Machine → Option (ℕ × Heap) → Option (ℕ × Machine)
with_heap m none = none
with_heap m (some (p, h)) = some (p, record m { heap = h })

abbrev pub kmalloc_on : Machine → (size : ℕ) → Option (ℕ × Machine)
kmalloc_on m size = with_heap m (kmalloc m.heap size)

abbrev pub freed_on : Machine → Option Heap → Option Machine
freed_on m none = none
freed_on m (some h) = some (record m { heap = h })

abbrev pub kfree_on : Machine → (ptr : ℕ) → Option Machine
kfree_on m ptr = freed_on m (kfree m.heap ptr)

-- `kfree(ptr); return`
abbrev pub returning : Sched → Option Machine → Option (Machine × Exit)
returning s none = none
returning s (some m) = some (m, returns s)

-- `kfree(ptr)`, and what follows.
abbrev pub after_free :
    Option Machine → (Machine → Option (Machine × Exit)) → Option (Machine × Exit)
after_free none rest = none
after_free (some m) rest = rest m

-- The end of the function, with the page table.
abbrev pub with_table :
    (s : Sched) → (new_task stack_base : ℕ) → Option (ℕ × Machine) → Option (Machine × Exit)
with_table s new_task stack_base none = none
with_table s new_task stack_base (some (table, m)) =
    let s' = set_tcb s new_task (record (s.tcbs new_task) { ttbr0_el1 = table }) in
    if table == 0
    then after_free (kfree_on m stack_base) (λ m'. returning s' (kfree_on m' new_task))
    else some (m, sched_add_task s' new_task)

-- The control block once it has a stack.
abbrev pub started_tcb : Tcb → (func stack_base stack_size : ℕ) → Tcb
started_tcb t func stack_base stack_size =
    let top = sub64 (add64 stack_base stack_size) 16 in
    record t {
      stack_base = stack_base;
      stack_size = stack_size;
      context = record t.context { sp = top; lr = func; fp = top };
    }

abbrev pub with_stack :
    Layout
    → (s : Sched) → (new_task func stack_size : ℕ) → Option (ℕ × Machine)
    → Option (Machine × Exit)
with_stack layout s new_task func stack_size none = none
with_stack layout s new_task func stack_size (some (stack_base, m)) =
    let t = s.tcbs new_task in
    let s0 = set_tcb s new_task (record t { stack_base = 0 }) in
    let s1 = set_tcb s new_task (started_tcb t func stack_base stack_size) in
    if stack_base == 0
    then returning s0 (kfree_on m new_task)
    else with_table s1 new_task stack_base (vm_create_task_pagetable layout m)

abbrev pub with_tcb :
    Layout → (s : Sched) → (func stack_size : ℕ) → Option (ℕ × Machine) → Option (Machine × Exit)
with_tcb layout s func stack_size none = none
with_tcb layout s func stack_size (some (new_task, m)) =
    let s' = set_tcb s new_task (record (s.tcbs new_task) { id = s.num_tasks }) in
    if new_task == 0
    then some (m, returns s)
    else with_stack layout s' new_task func stack_size (kmalloc_on m stack_size)

unfoldable pub sched_create_task :
    Layout → Machine → Sched → (func stack_size : ℕ) → Option (Machine × Exit)
sched_create_task layout m s func stack_size =
    with_tcb layout s func stack_size (kmalloc_on m tcb_size)
