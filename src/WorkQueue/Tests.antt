-- ===== src/WorkQueue/Tests.antt =====
-- Concrete runs of the work queue, and the theorems at concrete inputs.
use noverix.Base.{◌≡◌, ◌↔◌, refl, true, [], ◌∷◌}
use noverix.WorkQueue.{
  take_task, count_submitted, mark_running, finish_task, submit_at, first_slot, Scheduler,
  scheduler_init, scheduler_submit, scheduler_pending, scheduler_step, wait_ends,
}
use noverix.WorkQueue.Runs.{
  System, submit, take_step, Reachable, starts, goes, submits, takes, IsConsistent,
  Reachable-IsConsistent, wait_ends_lem,
}

abbrev empty : Scheduler
empty = scheduler_init (record {
  tasks = λ i. record { fn = 9; arg = 9; state = 2; cpu_id = 9 };
  next_id = 7;
  next_task_cpu = 3;
})

-- Two tasks on two CPUs: the first goes to CPU 0, the second to CPU 1.
abbrev two : Scheduler
two = (scheduler_submit 2 ((scheduler_submit 2 empty 100 1).1) 200 2).1

two_pending : scheduler_pending two ≡ 2
unfolding scheduler_pending count_submitted scheduler_submit submit_at first_slot scheduler_init
two_pending = refl

second_on_1 : scheduler_pending ((scheduler_step (λ fn arg s. s) two 1).1) ≡ 1
unfolding scheduler_pending count_submitted scheduler_step take_task first_slot scheduler_submit
    submit_at scheduler_init finish_task mark_running
second_on_1 = refl

none_on_2 : (scheduler_step (λ fn arg s. s) two 2).0 ≡ 0
unfolding scheduler_step take_task first_slot scheduler_submit submit_at scheduler_init
none_on_2 = refl

-- CPU 1 takes the second task while the first waits, and CPU 0 the first before that one ends.
abbrev idle : System
idle = record { queue = empty; running = []; submitted = 0; ended = 0 }

abbrev both_run : System
both_run = take_step (take_step (submit 2 (submit 2 idle 100 1) 200 2) 1) 0

both_run-Reachable : Reachable both_run
both_run-Reachable =
    goes _ _
      (goes _ _ (goes _ _ (goes _ _ (starts _) (submits 2 100 1)) (submits 2 200 2)) (takes 1))
      (takes 0)

in_slots : both_run.running ≡ 0 ∷ 1 ∷ []
unfolding take_step take_task first_slot submit scheduler_submit submit_at scheduler_init
    mark_running
in_slots = refl

Reachable-IsConsistent_example : IsConsistent both_run
Reachable-IsConsistent_example = Reachable-IsConsistent both_run both_run-Reachable

wait_ends_lem_example :
    ((wait_ends both_run.queue ≡ true) ↔ (both_run.ended ≡ both_run.submitted))
    × (wait_ends both_run.queue ≡ true → both_run.running ≡ [])
wait_ends_lem_example = wait_ends_lem both_run both_run-Reachable
