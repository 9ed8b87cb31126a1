-- ===== src/Task.antt =====
-- kernel/task.c: how a CPU switches between the tasks of the circular list. A task is known by the
-- address of its `task_t`, 0 is null. The section under `sched_lock` is one step. The calls of
-- `gdt_set_kernel_stack` and `page_dir_switch`, which do not touch this state, are left out.
pub mod Switch
mod Tests
use noverix.Base.{
  ℕ, zero, suc, ◌==◌, ◌!=◌, ◌&&◌, if◌then◌else◌, Bool, true, false, Option, none, some, ℤ, pos,
  negsuc, update,
}

abbrev pub task_ready : ℕ
task_ready = 1

abbrev pub task_running : ℕ
task_running = 2

abbrev pub task_blocked : ℕ
task_blocked = 3

pub record TaskData : Type 0 where
  pub pid : ℕ
  pub state : ℕ
  pub cpu_assigned : ℤ
  pub page_dir : ℕ
  pub kernel_esp : ℕ
  pub kernel_stack_base : ℕ
  pub wakeup_tick : ℕ
  pub next : ℕ

-- The tasks in memory, and for each CPU its `current_task` and `resched_pending`.
pub record Kernel : Type 0 where
  pub task : ℕ → TaskData
  pub ready_head : ℕ
  pub current_task : ℕ → ℕ
  pub resched_pending : ℕ → Bool

abbrev pub may_run_on : ℕ → ℤ → Bool
may_run_on cpu (pos c) = c == cpu
may_run_on cpu (negsuc n) = true

unfoldable pub is_runnable : ℕ → TaskData → Bool
is_runnable cpu t =
    (t.state == task_ready) && (may_run_on cpu t.cpu_assigned && (t.kernel_esp != 0))

-- The loop of `pick_next_locked` at `t`, none where the fuel runs out.
unfoldable pub pick_from : (fuel : ℕ) → (ℕ → TaskData) → (cpu start t : ℕ) → Option ℕ
pick_from zero task cpu start t = none
pick_from (suc f) task cpu start t =
    let rest = pick_from f task cpu start ((task t).next) in
    if t == start
    then some (if is_runnable cpu (task start) then start else 0)
    else if is_runnable cpu (task t)
    then some t
    else rest

unfoldable pub pick_next_locked : (fuel : ℕ) → Kernel → (cpu : ℕ) → Option ℕ
pick_next_locked f k cpu =
    let curr = k.current_task cpu in
    if curr == 0
    then some 0
    else if k.ready_head == 0
    then some 0
    else pick_from f k.task cpu curr ((k.task curr).next)

abbrev pub set_task : Kernel → ℕ → TaskData → Kernel
set_task k t d = record k { task = update k.task t d }

-- `t->state = TASK_RUNNING; t->cpu_assigned = cpu;`
unfoldable pub run_on : Kernel → (cpu t : ℕ) → Kernel
run_on k cpu t = set_task k t (record (k.task t) { state = task_running; cpu_assigned = pos cpu })

-- The current task is left in `new_state`.
unfoldable pub release_current : Kernel → (cpu current_esp new_state wakeup_tick : ℕ) → Kernel
release_current k cpu current_esp new_state wakeup_tick =
    let curr = k.current_task cpu in
    set_task k curr (record (k.task curr) {
      kernel_esp = current_esp;
      wakeup_tick = wakeup_tick;
      state = new_state;
      cpu_assigned = pos cpu;
    })

-- What `task_switch_from` does with the task that was picked: the stack pointer to go on with, or 0.
unfoldable pub switch_to : Kernel → (cpu : ℕ) → Option ℕ → Option (ℕ × Kernel)
switch_to k cpu none = none
switch_to k cpu (some next) =
    let chosen = run_on k cpu next in
    if next == 0
    then some (0, run_on k cpu (k.current_task cpu))
    else if next == k.current_task cpu
    then some (0, chosen)
    else some
        ((k.task next).kernel_esp, record chosen { current_task = update k.current_task cpu next })

unfoldable pub task_switch_from :
    (fuel : ℕ) → Kernel → (cpu current_esp new_state wakeup_tick : ℕ) → Option (ℕ × Kernel)
task_switch_from f k cpu current_esp new_state wakeup_tick =
    let released = release_current k cpu current_esp new_state wakeup_tick in
    let switched = switch_to released cpu (pick_next_locked f released cpu) in
    if k.current_task cpu == 0 then some (0, k) else switched

unfoldable pub task_yield : (fuel : ℕ) → Kernel → (cpu current_esp : ℕ) → Option (ℕ × Kernel)
task_yield f k cpu current_esp = task_switch_from f k cpu current_esp task_ready 0

unfoldable pub task_block_and_switch :
    (fuel : ℕ) → Kernel → (cpu current_esp wakeup_tick : ℕ) → Option (ℕ × Kernel)
task_block_and_switch f k cpu current_esp wakeup_tick =
    task_switch_from f k cpu current_esp task_blocked wakeup_tick

unfoldable pub task_switch_tick : (fuel : ℕ) → Kernel → (cpu current_esp : ℕ) → Option (ℕ × Kernel)
task_switch_tick f k cpu current_esp =
    let calm = record k { resched_pending = update k.resched_pending cpu false } in
    let switched = task_switch_from f calm cpu current_esp task_ready 0 in
    if k.current_task cpu == 0
    then some (0, k)
    else if k.resched_pending cpu
    then switched
    else some (0, k)
