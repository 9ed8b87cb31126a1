-- ===== src/WorkQueue.antt =====
-- kernel/scheduler/scheduler.c: the work queue of 64 slots that all CPUs share. Each section under
-- `sched_lock` is one function; `scheduler_step` has two, and runs the task between them. What
-- `get_cpu_id` returns and the `cpu_count` of kernel/cpu/cpu.h are arguments.
pub mod Slots
pub mod Runs
mod Tests
use noverix.Base.{
  ℕ, zero, suc, ◌+◌, ◌%◌, ◌==◌, ltb, if◌then◌else◌, Bool, true, false, ◌&&◌, ◌||◌, Option, none,
  some, update, u32, not,
}

abbrev pub max_tasks : ℕ
max_tasks = 64

-- `state` is 0 for a free slot, 1 for a submitted task and 2 for a running one.
pub record TaskEntry : Type 0 where
  pub fn : ℕ
  pub arg : ℕ
  pub state : ℕ
  pub cpu_id : ℕ

pub record Scheduler : Type 0 where
  pub tasks : ℕ → TaskEntry
  pub next_id : ℕ
  pub next_task_cpu : ℕ

unfoldable pub scheduler_init : Scheduler → Scheduler
scheduler_init s = record {
  tasks =
      λ i. if ltb i max_tasks then record { fn = 0; arg = 0; state = 0; cpu_id = 0 } else s.tasks i;
  next_id = 1;
  next_task_cpu = 0;
}

-- The loops over the slots: the first of the `n` slots from `i` on that passes the test.
unfoldable pub first_slot : (TaskEntry → Bool) → (ℕ → TaskEntry) → (i n : ℕ) → Option ℕ
first_slot test tasks i zero = none
first_slot test tasks i (suc n) =
    let rest = first_slot test tasks (suc i) n in if test (tasks i) then some i else rest

abbrev pub is_vacant : TaskEntry → Bool
is_vacant e = e.state == 0

abbrev pub is_submitted : TaskEntry → Bool
is_submitted e = e.state == 1

abbrev pub is_pending : TaskEntry → Bool
is_pending e = (e.state == 1) || (e.state == 2)

abbrev pub is_for : ℕ → TaskEntry → Bool
is_for cpu e = (e.state == 1) && (e.cpu_id == cpu)

unfoldable pub submit_at : (cpu_count : ℕ) → Scheduler → (fn arg : ℕ) → Option ℕ → ℕ × Scheduler
submit_at cpu_count s fn arg none = (0, s)
submit_at cpu_count s fn arg (some i) = (
  s.next_id,
  record {
    tasks = update s.tasks i (record { fn = fn; arg = arg; state = 1; cpu_id = s.next_task_cpu });
    next_id = u32 (s.next_id + 1);
    next_task_cpu = if ltb 1 cpu_count then (s.next_task_cpu + 1) % cpu_count else s.next_task_cpu;
  },
)

unfoldable pub scheduler_submit : (cpu_count : ℕ) → Scheduler → (fn arg : ℕ) → ℕ × Scheduler
scheduler_submit cpu_count s fn arg =
    submit_at cpu_count s fn arg (first_slot is_vacant s.tasks 0 max_tasks)

unfoldable pub count_submitted : (ℕ → TaskEntry) → (i n : ℕ) → ℕ
count_submitted tasks i zero = 0
count_submitted tasks i (suc n) =
    let rest = count_submitted tasks (suc i) n in if is_submitted (tasks i) then suc rest else rest

unfoldable pub scheduler_pending : Scheduler → ℕ
scheduler_pending s = count_submitted s.tasks 0 max_tasks

-- Whether the loop of `scheduler_wait_all` finds nothing pending and ends.
unfoldable pub wait_ends : Scheduler → Bool
wait_ends s = elim (first_slot is_pending s.tasks 0 max_tasks) [ none ↦ true | some i ↦ false ]

unfoldable pub mark_running : Scheduler → ℕ → Scheduler
mark_running s i = record s { tasks = update s.tasks i (record (s.tasks i) { state = 2 }) }

-- The first section of `scheduler_step`: the slot whose task the CPU now runs.
unfoldable pub take_task : Scheduler → (cpu : ℕ) → Option ℕ × Scheduler
take_task s cpu = elim (first_slot (is_for cpu) s.tasks 0 max_tasks) [
  | none ↦ (none, s)
  | some i ↦ (some i, mark_running s i)
]

-- The second section, after `fn(arg)` has returned.
unfoldable pub finish_task : Scheduler → (i cpu : ℕ) → Scheduler
finish_task s i cpu = record s {
  tasks = update s.tasks i (record (s.tasks i) { state = 0; cpu_id = cpu });
}

-- `scheduler_step` with no other CPU in between; `run` is what `fn(arg)` does to the queue.
unfoldable pub scheduler_step :
    (run : ℕ → ℕ → Scheduler → Scheduler) → Scheduler → (cpu : ℕ) → ℕ × Scheduler
scheduler_step run s cpu =
    let taken = take_task s cpu in
    elim (taken.0) [
      | none ↦ (0, taken.1)
      | some i ↦ (1, finish_task (run ((s.tasks i).fn) ((s.tasks i).arg) (taken.1)) i cpu)
    ]
