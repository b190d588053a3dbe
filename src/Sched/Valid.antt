-- ===== src/Sched/Valid.antt =====
-- What every call of kern/sched/astral_sched.c keeps, and that no call waits for the lock for ever.
use astral_os.Common.{
  ℕ, ◌+◌, ◌≤◌, ◌<◌, ◌≡◌, ◌≢◌, inl, inr, refl, ◌∙◌, dec_lt, Option, none, some, List, [], ◌∷◌, arith,
  leb, ◌==◌, set, get_or, length, length-set, Bool-cases, get_or-set_self, get_or-set_ne,
}
use astral_os.Sched.{
  Sched, Exit, returns, halts, jumps, switches, spins, max_tasks, make_current, next_index,
  sched_init, sched_add_task, sched_yield, sched_schedule,
}

-- Either no task has run yet, or the current task is the one that the index names.
abbrev pub IsCurrent : List ℕ → ℕ → (task : ℕ) → Option ℕ → Type 0
IsCurrent tasks n task none = task ≡ 0
IsCurrent tasks n task (some i) = (i < n) × (task ≡ get_or tasks i 0)

-- The lock is free, at most 8 tasks are in the list, none of them null, and the index is in range.
pub record IsValid (s : Sched) : Type 0 where
  pub unlocked : s.sched_lock ≡ 0
  pub room : length s.task_list ≡ max_tasks
  pub few : s.num_tasks ≤ max_tasks
  pub tasks : (i : ℕ) → i < s.num_tasks → get_or s.task_list i 0 ≢ 0
  pub current : IsCurrent s.task_list s.num_tasks s.current_task s.current_task_index

-- The call ends, and the state that it leaves is valid.
abbrev pub Ends : Exit → Type 0
Ends (returns s) = IsValid s
Ends (halts s) = IsValid s
Ends (jumps sp lr s) = IsValid s
Ends (switches old new s) = IsValid s
Ends spins = ⊥

make_current-IsValid :
    (s : Sched) (i : ℕ) → i < s.num_tasks → IsValid s → IsValid (make_current s i)
make_current-IsValid s i lt v = record {
  unlocked = v.unlocked;
  room = v.room;
  few = v.few;
  tasks = v.tasks;
  current = (lt, refl);
}

next_index-lt : (s : Sched) → 0 < s.num_tasks → next_index s < s.num_tasks
next_index-lt s pos = ground arith

locked_and_released : (s : Sched) → IsValid s → IsValid (record s { sched_lock = 0 })
locked_and_released s v = record {
  unlocked = refl;
  room = v.room;
  few = v.few;
  tasks = v.tasks;
  current = v.current;
}

IsCurrent-set :
    (tasks : List ℕ) (n task new : ℕ) (index : Option ℕ)
    → IsCurrent tasks n task index
    → IsCurrent (set tasks n new) (n + 1) task index
IsCurrent-set tasks n task new none c = c
IsCurrent-set tasks n task new (some i) (lt, at) =
    (omega arith, rw (get_or-set_ne tasks n i new 0 (omega arith)) at)

added :
    (s : Sched) (task : ℕ)
    → task ≢ 0
    → s.num_tasks < max_tasks
    → IsValid s
    → IsValid (record s {
      task_list = set s.task_list s.num_tasks task;
      num_tasks = s.num_tasks + 1;
      sched_lock = 0;
    })
added s task real below v = record {
  unlocked = refl;
  room = length-set s.task_list s.num_tasks task ∙ v.room;
  few = omega arith;
  tasks = λ i lt. elim (dec_lt i s.num_tasks) [
    | yes old ↦ rw (get_or-set_ne s.task_list s.num_tasks i task 0 (omega arith)) (v.tasks i old)
    | no new ↦
        let last : i ≡ s.num_tasks = omega arith in
        rw (last, get_or-set_self s.task_list s.num_tasks task 0 (omega (arith, v.room))) real
  ];
  current =
      IsCurrent-set s.task_list s.num_tasks s.current_task task s.current_task_index v.current;
}

sched_add_task-IsValid :
    (s : Sched) (task : ℕ) → task ≢ 0 → IsValid s → Ends (sched_add_task s task)
unfolding sched_add_task
sched_add_task-IsValid s task real v = elim (Bool-cases (leb max_tasks s.num_tasks)) [
  | inl full ↦ rw (v.unlocked, full) (locked_and_released s v)
  | inr below ↦ rw (v.unlocked, below) (added s task real (ground arith) v)
]

sched_yield-IsValid : (s : Sched) → IsValid s → Ends (sched_yield s)
unfolding sched_yield
sched_yield-IsValid s v = elim (Bool-cases (leb s.num_tasks 1)) [
  | inl few ↦ rw (v.unlocked, few) (locked_and_released s v)
  | inr many ↦
      rw (v.unlocked, many)
        (locked_and_released _
          (make_current-IsValid s (next_index s) (next_index-lt s (ground arith)) v))
]

sched_schedule-IsValid : (s : Sched) → IsValid s → Ends (sched_schedule s)
unfolding sched_schedule
sched_schedule-IsValid s v = elim (Bool-cases (s.num_tasks == 0)) [
  | inl empty ↦ rw (v.unlocked, empty) (locked_and_released s v)
  | inr some_task ↦ elim (Bool-cases (s.current_task == 0)) [
    | inl first ↦
        rw (v.unlocked, some_task, first)
          (locked_and_released _ (make_current-IsValid s 0 (ground arith) v))
    | inr later ↦
        rw (v.unlocked, some_task, later)
          (sched_yield-IsValid (record s { sched_lock = 0 }) (locked_and_released s v))
  ]
]

-- The calls that tasks, the timer and `kernel_main` make.
pub data Call : Type 0 where
  adds : (task : ℕ) → Call
  yields schedules : Call

unfoldable pub call : Sched → Call → Exit
call s (adds task) = sched_add_task s task
call s yields = sched_yield s
call s schedules = sched_schedule s

-- The state that a call leaves, if it ends.
abbrev pub after : Exit → Option Sched
after (returns s) = some s
after (halts s) = some s
after (jumps sp lr s) = some s
after (switches old new s) = some s
after spins = none

unfoldable pub run : Sched → List Call → Option Sched
run s [] = some s
run s (c ∷ cs) = elim (after (call s c)) [ none ↦ none | some s' ↦ run s' cs ]

abbrev pub AllReal : List Call → Type 0
AllReal [] = Unit
AllReal (adds task ∷ cs) = (task ≢ 0) × AllReal cs
AllReal (c ∷ cs) = AllReal cs

call-Ends : (s : Sched) (c : Call) (cs : List Call) → AllReal (c ∷ cs) → IsValid s → Ends (call s c)
unfolding call
call-Ends s (adds task) cs real v = sched_add_task-IsValid s task real.0 v
call-Ends s yields cs real v = sched_yield-IsValid s v
call-Ends s schedules cs real v = sched_schedule-IsValid s v

AllReal-tail : (c : Call) (cs : List Call) → AllReal (c ∷ cs) → AllReal cs
AllReal-tail (adds task) cs real = real.1
AllReal-tail yields cs real = real
AllReal-tail schedules cs real = real

Ends-after : (x : Exit) → Ends x → (s : Sched) × (after x ≡ some s) × IsValid s
Ends-after (returns s) v = (s, refl, v)
Ends-after (halts s) v = (s, refl, v)
Ends-after (jumps sp lr s) v = (s, refl, v)
Ends-after (switches old new s) v = (s, refl, v)
Ends-after spins v = absurd v

run-IsValid :
    (s : Sched) (cs : List Call)
    → AllReal cs
    → IsValid s
    → (s' : Sched) × (run s cs ≡ some s') × IsValid s'
unfolding run
run-IsValid s [] real v = (s, refl, v)
run-IsValid s (c ∷ cs) real v =
    let (s1, done, v1) = Ends-after (call s c) (call-Ends s c cs real v) in
    let (s2, rest, v2) = run-IsValid s1 cs (AllReal-tail c cs real) v1 in
    (s2, rw (done, run) rest, v2)

-- From `sched_init`, called while no task has run, any sequence of calls that adds no null task runs
-- to its end: no call waits for the lock for ever. It leaves the lock free, at most 8 tasks, none of
-- them null, and as current task none or the one that the index names.
pub run-sched_init-IsValid :
    (s : Sched) (cs : List Call)
    → s.current_task ≡ 0
    → AllReal cs
    → (s' : Sched) × (run (sched_init s) cs ≡ some s') × IsValid s'
unfolding sched_init
run-sched_init-IsValid s cs idle real = run-IsValid _ cs real (record {
  unlocked = refl;
  room = refl;
  few = omega arith;
  tasks = λ i lt. absurd (omega arith);
  current = idle;
})
