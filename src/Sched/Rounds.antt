-- ===== src/Sched/Rounds.antt =====
-- Round robin in kern/sched/astral_sched.c: whom a yield switches to, and how soon each task runs.
use native.Mathlib.Nat.{mod-add-mod, mod-eq_of_lt}
use astral_os.Common.{
  ℕ, zero, suc, ◌+◌, ◌-◌, ◌%◌, ◌≤◌, ◌<◌, ◌≡◌, inl, inr, refl, ap, ◌∙◌, Option, some, arith,
  if◌then◌else◌, ltb, leb, get_or, replicate, Bool-cases, false, subst,
}
use astral_os.Sched.{Sched, switches, context_offset, sched_yield}
use astral_os.Sched.Valid.{IsValid, IsCurrent, yields, call, after, run}

-- The state after a yield that switches to the task at index `i`.
abbrev pub switched : Sched → ℕ → Sched
switched s i = record {
  current_task = get_or s.task_list i 0;
  task_list = s.task_list;
  num_tasks = s.num_tasks;
  current_task_index = some i;
  sched_lock = 0;
  tcbs = s.tcbs;
  ttbr0_el1 = (s.tcbs (get_or s.task_list i 0)).ttbr0_el1;
}

module _ (s : Sched) (v : IsValid s) (many : 2 ≤ s.num_tasks) where
  some_tasks : leb s.num_tasks 1 ≡ false
  some_tasks = ground arith

  module _ (i : ℕ) (running : s.current_task_index ≡ some i) where
    here : (i < s.num_tasks) × (s.current_task ≡ get_or s.task_list i 0)
    here = subst (IsCurrent s.task_list s.num_tasks s.current_task) running v.current

    -- A yield of the task at index `i`, with at least two tasks, saves the registers in its context,
    -- loads those of the next task in the list, or of the first after the last, and switches
    -- to that task's page table.
    pub sched_yield_lem :
        sched_yield s
        ≡ switches
            (get_or s.task_list i 0 + context_offset)
            (get_or s.task_list ((i + 1) % s.num_tasks) 0 + context_offset)
            (switched s ((i + 1) % s.num_tasks))
    unfolding sched_yield
    sched_yield_lem = rw (v.unlocked, some_tasks, running, here.1) refl

switched-IsValid : (s : Sched) (i : ℕ) → i < s.num_tasks → IsValid s → IsValid (switched s i)
switched-IsValid s i lt v = record {
  unlocked = refl;
  room = v.room;
  few = v.few;
  tasks = v.tasks;
  current = (lt, refl);
}

-- `k` yields in a row.
abbrev pub yield_times : ℕ → Sched → Option Sched
yield_times k s = run s (replicate k yields)

yield_times-suc :
    (k : ℕ) (s : Sched) (i : ℕ)
    → IsValid s
    → 2 ≤ s.num_tasks
    → s.current_task_index ≡ some i
    → yield_times (suc k) s ≡ yield_times k (switched s ((i + 1) % s.num_tasks))
unfolding run call
yield_times-suc k s i v many running =
    let done : after (call s yields) ≡ some (switched s ((i + 1) % s.num_tasks)) =
      rw (sched_yield_lem s v many i running) refl in
    rw (done, run) refl

run-nil : (s : Sched) → yield_times 0 s ≡ some s
unfolding run
run-nil s = refl

index-suc : (i k n : ℕ) → ((i + 1) % n + k) % n ≡ (i + suc k) % n
index-suc i k n = rw mod-add-mod (ap (λ m. m % n) (omega arith))

-- From the task at index `i` of at least two, one or more yields lead to the task as many places
-- further, round the list, with its page table in use. The list of tasks stays as it is.
pub yield_times_lem :
    (k : ℕ) (s : Sched) (i : ℕ)
    → IsValid s
    → 2 ≤ s.num_tasks
    → s.current_task_index ≡ some i
    → yield_times (suc k) s ≡ some (switched s ((i + suc k) % s.num_tasks))
yield_times_lem zero s i v many running = yield_times-suc 0 s i v many running ∙ run-nil _
yield_times_lem (suc k) s i v many running =
    let next : ℕ = (i + 1) % s.num_tasks in
    let further =
      yield_times_lem k (switched s next) next (switched-IsValid s next (omega arith) v) many
        refl in
    yield_times-suc (suc k) s i v many running
    ∙ further
    ∙ ap (λ m. some (switched s m)) (index-suc i (suc k) s.num_tasks)

-- The number of yields, less one, from index `i` to index `j` of `n`.
abbrev pub gap : (i j n : ℕ) → ℕ
gap i j n = if ltb i j then j - i - 1 else j + n - i - 1

gap-index : (i j n : ℕ) → i < n → j < n → (i + suc (gap i j n)) % n ≡ j
gap-index i j n li lj = elim (Bool-cases (ltb i j)) [
  | inl below ↦
      let same : i + suc (j - i - 1) ≡ j = ground arith in rw (below, same) (mod-eq_of_lt lj)
  | inr above ↦
      let same : i + suc (j + n - i - 1) ≡ j + n = ground arith in
      rw (above, same) (grind (arith, mod-eq_of_lt lj))
]

-- Among at least two tasks, every one, the current one too, is the current one after at most as many
-- yields as there are tasks.
pub every_task_runs :
    (s : Sched) (i j : ℕ)
    → IsValid s
    → 2 ≤ s.num_tasks
    → s.current_task_index ≡ some i
    → j < s.num_tasks
    → (k : ℕ) × (k < s.num_tasks) × (yield_times (suc k) s ≡ some (switched s j))
every_task_runs s i j v many running lt =
    let lt_i = (here s v many i running).0 in
    (
      gap i j s.num_tasks,
      ground arith,
      yield_times_lem (gap i j s.num_tasks) s i v many running
          ∙ ap (λ m. some (switched s m)) (gap-index i j s.num_tasks lt_i lt),
    )
