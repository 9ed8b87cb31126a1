-- ===== src/Task/Switch.antt =====
-- Task switches of kernel/task.c: the scan of the circular list ends, and no task runs on two CPUs.
use noverix.Base.{
  ℕ, zero, suc, ◌<◌, ◌≡◌, ◌≢◌, ◌⊎◌, inl, inr, refl, arith, ◌∙◌, ap, sym, ◌==◌, true, false, some,
  pos, update, Bool-cases,
}
use noverix.Task.{
  TaskData, Kernel, is_runnable, pick_from, pick_next_locked, run_on, release_current, switch_to,
  task_switch_from,
}

-- The task `n` places on in the list.
unfoldable pub follow : (ℕ → TaskData) → (n t : ℕ) → ℕ
follow task zero t = t
follow task (suc n) t = follow task n ((task t).next)

-- What the scan may return: nothing, or a task that is ready.
abbrev Picked : (ℕ → TaskData) → ℕ → Type 0
Picked task r = (r ≡ 0) ⊎ ((task r).state ≡ 1)

runnable_ready : (cpu : ℕ) (t : TaskData) → is_runnable cpu t ≡ true → t.state ≡ 1
unfolding is_runnable
runnable_ready cpu t h = ground arith

back_at_start :
    (f : ℕ) (task : ℕ → TaskData) (cpu start t : ℕ)
    → t ≡ start
    → (r : ℕ) × (pick_from (suc f) task cpu start t ≡ some r) × Picked task r
unfolding pick_from
back_at_start f task cpu start t e =
    let s : (t == start) ≡ true = ground arith in
    elim (Bool-cases (is_runnable cpu (task start))) [
      | inl g ↦ (start, rw (s, g) refl, inr (runnable_ready cpu (task start) g))
      | inr g ↦ (0, rw (s, g) refl, inl refl)
    ]

pick_from-Picked :
    (f : ℕ) (task : ℕ → TaskData) (cpu start n t : ℕ)
    → follow task n t ≡ start
    → n < f
    → (r : ℕ) × (pick_from f task cpu start t ≡ some r) × Picked task r
unfolding pick_from follow
pick_from-Picked zero task cpu start n t e h = absurd (omega arith)
pick_from-Picked (suc f) task cpu start zero t e h = back_at_start f task cpu start t e
pick_from-Picked (suc f) task cpu start (suc n) t e h =
    let rest : (r : ℕ) × (pick_from f task cpu start ((task t).next) ≡ some r) × Picked task r =
      pick_from-Picked f task cpu start n ((task t).next) e (omega arith) in
    elim (Bool-cases (t == start)) [
      | inl s ↦ back_at_start f task cpu start t (ground arith)
      | inr s ↦ elim (Bool-cases (is_runnable cpu (task t))) [
        | inl g ↦ (t, rw (s, g) refl, inr (runnable_ready cpu (task t) g))
        | inr g ↦ rw (s, g) rest
      ]
    ]

-- A write that keeps the links keeps the list.
follow-update :
    (task : ℕ → TaskData) (c : ℕ) (d : TaskData) (n t : ℕ)
    → d.next ≡ (task c).next
    → follow (update task c d) n t ≡ follow task n t
unfolding follow
follow-update task c d zero t e = refl
follow-update task c d (suc n) t e =
    let same : (update task c d t).next ≡ (task t).next = link_kept task c d t e in
    rw same (follow-update task c d n ((task t).next) e)
  where
    link_kept :
        (task : ℕ → TaskData) (c : ℕ) (d : TaskData) (t : ℕ)
        → d.next ≡ (task c).next
        → (update task c d t).next ≡ (task t).next
    link_kept task c d t e = ground arith

-- Every task that is the current one of a CPU is running and assigned to that CPU.
pub record IsAssigned (k : Kernel) : Type 0 where
  pub running : (c : ℕ) → k.current_task c ≢ 0 → (k.task (k.current_task c)).state ≡ 2
  pub assigned : (c : ℕ) → k.current_task c ≢ 0 → (k.task (k.current_task c)).cpu_assigned ≡ pos c

pos_inj : (a b : ℕ) → pos a ≡ pos b → a ≡ b
pos_inj a b e = ground arith

-- Then no task runs on two CPUs.
pub IsAssigned-one_cpu :
    (k : Kernel) (a b : ℕ)
    → IsAssigned k
    → k.current_task a ≢ 0
    → k.current_task a ≡ k.current_task b
    → a ≡ b
IsAssigned-one_cpu k a b v n e =
    pos_inj a b
      (sym (v.assigned a n) ∙ ap (λ t. (k.task t).cpu_assigned) e ∙ v.assigned b (λ z. n (e ∙ z)))

-- A switch of CPU `cpu`: the other CPUs keep their tasks, and this one has a task that is assigned
-- to it.
pub record Switched (k : Kernel) (cpu : ℕ) (out : ℕ × Kernel) : Type 0 where
  pub assigned : IsAssigned (out.1)
  pub others : (c : ℕ) → c ≢ cpu → (out.1).current_task c ≡ k.current_task c
  pub stack : out.0 ≢ 0 → out.0 ≡ (k.task ((out.1).current_task cpu)).kernel_esp

module _ (k : Kernel) (cpu esp new_state tick : ℕ) (v : IsAssigned k)
    (n : k.current_task cpu ≢ 0) where
  abbrev released : Kernel
  released = release_current k cpu esp new_state tick

  other_differs : (c : ℕ) → c ≢ cpu → k.current_task c ≢ 0 → k.current_task c ≢ k.current_task cpu
  other_differs c d z e = d (IsAssigned-one_cpu k c cpu v z e)

  -- The current task goes on.
  goes_on : IsAssigned (run_on released cpu (k.current_task cpu))
  unfolding run_on release_current
  goes_on = record {
    running = λ c z. ground (arith, v.running c z);
    assigned = λ c z. ground (arith, v.assigned c z, v.assigned cpu n, other_differs c);
  }

  -- A task that is ready takes its place.
  takes_over :
      (next : ℕ)
      → next ≢ 0
      → next ≢ k.current_task cpu
      → (released.task next).state ≡ 1
      → IsAssigned
          (record (run_on released cpu next) { current_task = update k.current_task cpu next })
  unfolding run_on release_current
  takes_over next nz d ready = record {
    running = λ c z. ground (arith, v.running c, other_differs c);
    assigned = λ c z. ground (arith, v.assigned c, v.running c, other_differs c);
  }

  -- The list goes round from the current task in `len` places.
  picked :
      (f len : ℕ)
      → follow k.task len ((k.task (k.current_task cpu)).next) ≡ k.current_task cpu
      → len < f
      → (r : ℕ) × (pick_next_locked f released cpu ≡ some r) × Picked released.task r
  unfolding pick_next_locked release_current
  picked f len ring h =
      let some_task : (k.current_task cpu == 0) ≡ false = ground arith in
      let link : (released.task (k.current_task cpu)).next ≡ (k.task (k.current_task cpu)).next =
        ground arith in
      let around : follow released.task len ((released.task (k.current_task cpu)).next)
          ≡ k.current_task cpu =
        ap (follow released.task len) link
        ∙ follow-update k.task (k.current_task cpu) _ len ((k.task (k.current_task cpu)).next) refl
        ∙ ring in
      elim (Bool-cases (k.ready_head == 0)) [
        | inl e ↦ (0, rw (some_task, e) refl, inl refl)
        | inr e ↦
            let r : (r : ℕ) × (pick_from f released.task cpu (k.current_task cpu)
                    ((released.task (k.current_task cpu)).next)
                  ≡ some r)
                × Picked released.task r =
              pick_from-Picked f released.task cpu (k.current_task cpu) len _ around h in
            (r.0, rw (some_task, e) (r.1), r.2)
      ]

  switch_to-Switched :
      (r : ℕ)
      → Picked released.task r
      → (out : ℕ × Kernel) × (switch_to released cpu (some r) ≡ some out) × Switched k cpu out
  unfolding switch_to run_on release_current
  switch_to-Switched r ok = elim (Bool-cases (r == 0)) [
    | inl e ↦ rw e ((0, run_on released cpu (k.current_task cpu)), refl, stays)
    | inr e ↦ elim (Bool-cases (r == k.current_task cpu)) [
      | inl g ↦
          let same : r ≡ k.current_task cpu = ground arith in
          rw (e, g)
            (
              (0, run_on released cpu (k.current_task cpu)),
              ap (λ (t : ℕ). some (0, run_on released cpu t)) same,
              stays,
            )
      | inr g ↦
          rw (e, g)
            (
              _,
              refl,
              record {
                assigned = takes_over r (ground arith) (ground arith) (ground arith);
                others = λ c d. ground arith;
                stack = λ z. ground arith;
              },
            )
    ]
  ]
    where
      stays : Switched k cpu (0, run_on released cpu (k.current_task cpu))
      stays = record { assigned = goes_on; others = λ c d. refl; stack = λ z. absurd (z refl) }

-- On a circular list that goes round from the current task in `len` places, `task_switch_from` ends
-- within one round more than that. If every current task was running and assigned to its CPU, so it
-- is afterwards; the other CPUs keep their tasks, and a stack pointer that is not 0 is that of the
-- task that is then the current one.
pub task_switch_from-Switched :
    (f : ℕ) (k : Kernel) (cpu esp new_state tick len : ℕ)
    → IsAssigned k
    → k.current_task cpu ≢ 0
    → follow k.task len ((k.task (k.current_task cpu)).next) ≡ k.current_task cpu
    → len < f
    → (out : ℕ × Kernel) × (task_switch_from f k cpu esp new_state tick ≡ some out)
      × Switched k cpu out
unfolding task_switch_from
task_switch_from-Switched f k cpu esp new_state tick len v n ring h =
    let some_task : (k.current_task cpu == 0) ≡ false = ground arith in
    let r : (r : ℕ) × (pick_next_locked f (release_current k cpu esp new_state tick) cpu ≡ some r)
        × Picked ((release_current k cpu esp new_state tick).task) r =
      picked k cpu esp new_state tick v n f len ring h in
    let out : (out : ℕ × Kernel) × (switch_to (release_current k cpu esp new_state tick) cpu
            (some (r.0))
          ≡ some out)
        × Switched k cpu out =
      switch_to-Switched k cpu esp new_state tick v n (r.0) (r.2) in
    (out.0, rw (some_task, r.1) (out.1), out.2)
