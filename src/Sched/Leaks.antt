-- ===== src/Sched/Leaks.antt =====
-- What `sched_create_task` of kern/sched/astral_sched.c keeps of the memory that it takes.
use astral_os.Common.{
  ℕ, leb, set, ◌+◌, ◌%◌, ◌^◌, ◌≤◌, ◌<◌, ◌≡◌, ◌⊎◌, inl, inr, refl, sym, subst, arith, false,
  Bool-cases, Option, some, List, ◌∷◌, ◌==◌, ==_refl, ==_iff,
}
use astral_os.Memory.Kmalloc.{Heap, header_size, kmalloc, kfree}
use astral_os.Memory.Kmalloc.Grants.{Grant, grant, ungrant, Reach, served, refused, freed}
use astral_os.Memory.Kmalloc.Client.{Reach-returns, Reach-kmalloc}
use astral_os.Memory.PageTables.{Layout, Machine, page_size, then_fill, vm_create_task_pagetable}
use astral_os.Sched.{Sched, Exit, max_tasks, returns, spinlock_release, sched_add_task}
use astral_os.Sched.Create.{
  tcb_size, set_tcb, with_heap, kmalloc_on, freed_on, kfree_on, returning, after_free, with_table,
  started_tcb, with_stack, with_tcb, sched_create_task,
}

-- How the function returns: either with what was held before, and the scheduler as it was but for
-- control blocks; or with three payloads more, the control block, its stack and its page table, in the
-- state that `sched_add_task` of the control block returns.
pub data Created (start len : ℕ) (live : List Grant) (tasks : List ℕ) (count stack_size : ℕ)
    : Option (Machine × Exit) → Type 0 where
  given_up :
      {m : Machine} (s' : Sched)
      → Reach start len m.heap live
      → s'.task_list ≡ tasks
      → s'.num_tasks ≡ count
      → Created start len live tasks count stack_size (some (m, returns s'))
  started :
      {m : Machine} (s' s'' : Sched) (task stack table : ℕ)
      → Reach start len m.heap
          (grant table page_size ∷ grant stack stack_size ∷ grant task tcb_size ∷ live)
      → s'.task_list ≡ tasks
      → s'.num_tasks ≡ count
      → sched_add_task s' task ≡ returns s''
      → Created start len live tasks count stack_size (some (m, returns s''))

-- With the lock free, adding a task returns.
sched_add_task-returns :
    (s : Sched) (task : ℕ)
    → s.sched_lock ≡ 0
    → (s'' : Sched) × (sched_add_task s task ≡ returns s'')
unfolding sched_add_task
sched_add_task-returns s task unlocked = elim (Bool-cases (leb max_tasks s.num_tasks)) [
  | inl full ↦ (spinlock_release (record s { sched_lock = 1 }), rw (unlocked, full) refl)
  | inr some_left ↦ (
    record s {
      task_list = set s.task_list s.num_tasks task;
      num_tasks = s.num_tasks + 1;
      sched_lock = 0;
    },
    rw (unlocked, some_left) refl,
  )
]

started-added :
    (start len : ℕ) (live : List Grant) (tasks : List ℕ) (count stack_size : ℕ) {m : Machine}
    (s' : Sched) (task stack table : ℕ)
    → s'.sched_lock ≡ 0
    → Reach start len m.heap
        (grant table page_size ∷ grant stack stack_size ∷ grant task tcb_size ∷ live)
    → s'.task_list ≡ tasks
    → s'.num_tasks ≡ count
    → Created start len live tasks count stack_size (some (m, sched_add_task s' task))
started-added start len live tasks count stack_size {m} s' task stack table unlocked r same few =
    let (s'', back) = sched_add_task-returns s' task unlocked in
    subst (λ x. Created start len live tasks count stack_size (some (m, x))) (sym back)
      (started s' s'' task stack table r same few back)

module _ (start len : ℕ) (pos : 0 < start) (mult : start % 8 ≡ 0) (room : header_size ≤ len)
    (top : start + len < 2 ^ 64) where
  ungrant-first : (p n : ℕ) (live : List Grant) → ungrant p (grant p n ∷ live) ≡ live
  unfolding ungrant
  ungrant-first p n live = rw (==_refl p)

  -- Freeing the payload that was taken last gives back what was held before it.
  give_back :
      {h : Heap} {live : List Grant} (p n : ℕ)
      → Reach start len h (grant p n ∷ live)
      → (h' : Heap) × (kfree h p ≡ some h') × Reach start len h' live
  give_back {h} {live} p n r =
      let (h', e) = (Reach-returns start len pos mult room top r).1 p (inl refl) in
      (h', e, subst (Reach start len h') (ungrant-first p n live) (freed p r (inl refl) e))

  -- `kmalloc` returns, with the null pointer or a payload.
  take_more :
      {h : Heap} {live : List Grant} (size : ℕ)
      → Reach start len h live
      → size + 7 < 2 ^ 64
      → (q : ℕ) × (h' : Heap) × (kmalloc h size ≡ some (q, h'))
        × (((q ≡ 0) × Reach start len h' live)
            ⊎ ((q == 0) ≡ false) × Reach start len h' (grant q size ∷ live))
  take_more {h} size r small =
      let (q, h', e) = Reach-kmalloc start len pos mult room top r size in
      (
        q,
        h',
        e,
        elim (Bool-cases (q == 0)) [
          | inl null ↦
              let zero = (==_iff q 0).0 null in
              inl (zero, refused size r (subst (λ x. kmalloc h size ≡ some (x, h')) zero e))
          | inr real ↦ inr (real, served size q r small e (λ z. absurd (ground arith)))
        ],
      )

  module _ (layout : Layout) (live : List Grant) (stack_size : ℕ) where
    abbrev Ends : Sched → Option (Machine × Exit) → Type 0
    Ends s r = Created start len live s.task_list s.num_tasks stack_size r

    give_up_task :
        (s s' : Sched) (m : Machine) (task : ℕ)
        → s'.task_list ≡ s.task_list
        → s'.num_tasks ≡ s.num_tasks
        → Reach start len m.heap (grant task tcb_size ∷ live)
        → Ends s (returning s' (kfree_on m task))
    give_up_task s s' m task tasks count r =
        let (h, e, r') = give_back task tcb_size r in
        subst (λ x. Ends s (returning s' (freed_on m x))) (sym e) (given_up s' r' tasks count)

    with_table-Created :
        (s : Sched) (m : Machine) (task stack : ℕ)
        → s.sched_lock ≡ 0
        → Reach start len m.heap (grant stack stack_size ∷ grant task tcb_size ∷ live)
        → Ends s (with_table s task stack (vm_create_task_pagetable layout m))
    unfolding vm_create_task_pagetable
    with_table-Created s m task stack unlocked r =
        let (q, h, e, taken) = take_more page_size r (omega arith) in
        subst (λ x. Ends s (with_table s task stack (then_fill layout m x))) (sym e)
          (elim taken [
            | inl (zero, r') ↦
                let m' = record m { heap = h } in
                let s' = set_tcb s task (record (s.tcbs task) { ttbr0_el1 = 0 }) in
                let (h', e', r'') = give_back stack stack_size r' in
                rw zero (
                  subst
                    (λ x. Ends s (after_free (freed_on m' x) (λ n. returning s' (kfree_on n task))))
                    (sym e') (give_up_task s s' (record m' { heap = h' }) task refl refl r''))
            | inr (real, r') ↦
                let done =
                  started-added start len live s.task_list s.num_tasks stack_size
                    (set_tcb s task (record (s.tcbs task) { ttbr0_el1 = q })) task stack q
                    unlocked in
                rw (real, real) (done r' refl refl)
          ])

    with_stack-Created :
        (s : Sched) (m : Machine) (task func : ℕ)
        → s.sched_lock ≡ 0
        → stack_size + 7 < 2 ^ 64
        → Reach start len m.heap (grant task tcb_size ∷ live)
        → Ends s (with_stack layout s task func stack_size (kmalloc_on m stack_size))
    with_stack-Created s m task func unlocked small r =
        let (q, h, e, taken) = take_more stack_size r small in
        subst (λ x. Ends s (with_stack layout s task func stack_size (with_heap m x))) (sym e)
          (elim taken [
            | inl (zero, r') ↦ rw zero (
                give_up_task s (set_tcb s task (record (s.tcbs task) { stack_base = 0 }))
                  (record m { heap = h }) task refl refl r')
            | inr (real, r') ↦ rw real (
                with_table-Created (set_tcb s task (started_tcb (s.tcbs task) func q stack_size))
                  (record m { heap = h }) task q unlocked r')
          ])

    -- A task is created or given up, where the lock is free, the stack size is not within 7 of 2^64, and the heap,
    -- whose start is a multiple of 8 other than 0, which has 24 bytes or more and ends below 2^64, is in
    -- a state that calls lead to which free only what is held and are served no size within 7 of 2^64: the function
    -- returns; either the memory held is as before and no task was added, or the control block, the stack and the page
    -- table are held besides, and the state is the one that `sched_add_task` of the control block returns.
    pub sched_create_task-Created :
        (s : Sched) (m : Machine) (func : ℕ)
        → s.sched_lock ≡ 0
        → stack_size + 7 < 2 ^ 64
        → Reach start len m.heap live
        → Created start len live s.task_list s.num_tasks stack_size
            (sched_create_task layout m s func stack_size)
    unfolding sched_create_task
    sched_create_task-Created s m func unlocked small r =
        let (q, h, e, taken) = take_more tcb_size r (omega arith) in
        subst (λ x. Ends s (with_tcb layout s func stack_size (with_heap m x))) (sym e)
          (elim taken [
            | inl (zero, r') ↦ rw zero (given_up s r' refl refl)
            | inr (real, r') ↦ rw real (
                with_stack-Created (set_tcb s q (record (s.tcbs q) { id = s.num_tasks }))
                  (record m { heap = h }) q func unlocked small r')
          ])
