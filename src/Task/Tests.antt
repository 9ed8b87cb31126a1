-- ===== src/Task/Tests.antt =====
-- A switch between two tasks, at concrete inputs.
use noverix.Base.{ℕ, ◌≡◌, refl, arith, ◌==◌, if◌then◌else◌, Option, some, false, pos, negsuc}
use noverix.Task.{
  pick_from, release_current, is_runnable, pick_next_locked, switch_to, Kernel, task_yield,
  task_switch_from,
}
use noverix.Task.Switch.{follow, IsAssigned, Switched, task_switch_from-Switched}

-- The task at 100 runs on CPU 0, the one at 200 waits.
abbrev pair : Kernel
pair = record {
  task = λ t.
      if t == 100
      then record {
        pid = 1;
        state = 2;
        cpu_assigned = pos 0;
        page_dir = 0;
        kernel_esp = 7;
        kernel_stack_base = 0;
        wakeup_tick = 0;
        next = 200;
      }
      else record {
        pid = 2;
        state = 1;
        cpu_assigned = negsuc 0;
        page_dir = 0;
        kernel_esp = 9;
        kernel_stack_base = 0;
        wakeup_tick = 0;
        next = 100;
      };
  ready_head = 100;
  current_task = λ c. if c == 0 then 100 else 0;
  resched_pending = λ c. false;
}

pair-IsAssigned : IsAssigned pair
pair-IsAssigned = record { running = λ c z. ground arith; assigned = λ c z. ground arith }

task_switch_from-Switched_example :
    (out : ℕ × Kernel) × (task_switch_from 2 pair 0 8 1 0 ≡ some out) × Switched pair 0 out
unfolding follow
task_switch_from-Switched_example =
    task_switch_from-Switched 2 pair 0 8 1 0 1 pair-IsAssigned (ground arith) refl (omega arith)

abbrev esp_of : Option (ℕ × Kernel) → ℕ
esp_of (some out) = out.0
esp_of _ = 0

yields : esp_of (task_yield 2 pair 0 8) ≡ 9
unfolding task_yield task_switch_from switch_to pick_next_locked release_current pick_from
    is_runnable
yields = refl
