-- ===== src/WorkQueue/Runs.antt =====
-- Every interleaving of the CPUs on the work queue of kernel/scheduler/scheduler.c: no task is lost
-- or run twice.
use noverix.Base.{
  ℕ, zero, suc, ◌+◌, ◌≤◌, ◌<◌, ◌≡◌, ◌≢◌, refl, arith, ◌==◌, if◌then◌else◌, Bool, true, false,
  Option, none, some, update, ◌↔◌, Bool-cases, inl, inr, ap, List, [], ◌∷◌, ◌++◌, length, ltb,
}
use noverix.WorkQueue.{
  TaskEntry, Scheduler, scheduler_init, scheduler_submit, submit_at, scheduler_pending, wait_ends,
  take_task, mark_running, finish_task, first_slot, is_vacant, is_submitted, is_pending, is_for,
  count_submitted, max_tasks,
}
use noverix.WorkQueue.Slots.{
  FirstSlot, no_slot, slot, first_slot-FirstSlot, one_if, count_submitted-update,
}

-- The queue with the slots whose tasks CPUs are running, one for each call of `scheduler_step` that
-- is between its two sections, and how many tasks were submitted and have ended.
pub record System : Type 0 where
  pub queue : Scheduler
  pub running : List ℕ
  pub submitted : ℕ
  pub ended : ℕ

unfoldable pub submit : (cpu_count : ℕ) → System → (fn arg : ℕ) → System
submit cpu_count s fn arg =
    let out = scheduler_submit cpu_count s.queue fn arg in
    record s {
      queue = out.1;
      submitted = elim (first_slot is_vacant ((s.queue).tasks) 0 max_tasks) [
        | none ↦ s.submitted
        | some i ↦ suc s.submitted
      ];
    }

unfoldable pub take_step : System → (cpu : ℕ) → System
take_step s cpu =
    let taken = take_task s.queue cpu in
    record s {
      queue = taken.1;
      running = elim (taken.0) [ none ↦ s.running | some i ↦ i ∷ s.running ];
    }

-- Steps of any CPU in any order; a task that ends may be anywhere in the list.
pub data Step (s : System) : System → Type 0 where
  submits : (cpu_count fn arg : ℕ) → Step s (submit cpu_count s fn arg)
  takes : (cpu : ℕ) → Step s (take_step s cpu)
  ends :
      (xs : List ℕ) (i : ℕ) (ys : List ℕ) (cpu : ℕ)
      → s.running ≡ xs ++ (i ∷ ys)
      → Step s
          (record s { queue = finish_task s.queue i cpu; running = xs ++ ys; ended = suc s.ended })

pub data Reachable : System → Type 0 where
  starts :
      (q : Scheduler)
      → Reachable (record { queue = scheduler_init q; running = []; submitted = 0; ended = 0 })
  goes : (s t : System) → Reachable s → Step s t → Reachable t

-- How often a slot is in the list.
pub occurrences : List ℕ → ℕ → ℕ
occurrences [] i = 0
occurrences (x ∷ xs) i = (if x == i then 1 else 0) + occurrences xs i

occurrences-append :
    (xs ys : List ℕ) (i : ℕ) → occurrences (xs ++ ys) i ≡ occurrences xs i + occurrences ys i
unfolding occurrences
occurrences-append [] ys i = omega arith
occurrences-append (x ∷ xs) ys i = omega (arith, occurrences-append xs ys i)

length-remove :
    (xs : List ℕ) (x : ℕ) (ys : List ℕ) → length (xs ++ (x ∷ ys)) ≡ suc (length (xs ++ ys))
length-remove [] x ys = refl
length-remove (y ∷ xs) x ys = ap suc (length-remove xs x ys)

pub record IsConsistent (s : System) : Type 0 where
  -- A running slot has one call of `scheduler_step` that runs it, any other slot none.
  pub run_once :
      (i : ℕ) → i < 64 → occurrences s.running i ≡ (if ((s.queue).tasks i).state == 2 then 1 else 0)
  pub in_array : (i : ℕ) → 64 ≤ i → occurrences s.running i ≡ 0
  pub states : (i : ℕ) → i < 64 → ((s.queue).tasks i).state < 3
  pub balance : scheduler_pending s.queue + length s.running + s.ended ≡ s.submitted

-- One slot is written and the running list changed to match.
module _ (s : System) (k : ℕ) (e : TaskEntry) (next_id next_cpu : ℕ) (running : List ℕ)
    (submitted ended : ℕ) where
  abbrev after : System
  after = record {
    queue = record {
      tasks = update ((s.queue).tasks) k e;
      next_id = next_id;
      next_task_cpu = next_cpu;
    };
    running = running;
    submitted = submitted;
    ended = ended;
  }

  write-IsConsistent :
      IsConsistent s
      → k < 64
      → ((i : ℕ) → i ≢ k → occurrences running i ≡ occurrences s.running i)
      → occurrences running k ≡ (if e.state == 2 then 1 else 0)
      → e.state < 3
      → one_if (is_submitted e) + length running + ended + s.submitted
        ≡ one_if (is_submitted ((s.queue).tasks k)) + length s.running + s.ended + submitted
      → IsConsistent after
  unfolding scheduler_pending
  write-IsConsistent v h others here st bal = record {
    run_once = λ i l. ground (arith, v.run_once i l, others i, here);
    in_array = λ i l. ground (arith, v.in_array i l, others i);
    states = λ i l. ground (arith, v.states i l);
    balance = omega (
      arith,
      v.balance,
      bal,
      count_submitted-update ((s.queue).tasks) k e 0 64 (omega arith) (omega arith),
    );
  }

submit-IsConsistent :
    (cpu_count : ℕ) (s : System) (fn arg : ℕ)
    → IsConsistent s
    → IsConsistent (submit cpu_count s fn arg)
unfolding submit scheduler_submit submit_at
submit-IsConsistent cpu_count s fn arg v =
    at_slot _ (first_slot-FirstSlot is_vacant ((s.queue).tasks) 0 64)
  where
    at_slot :
        (o : Option ℕ)
        → FirstSlot is_vacant ((s.queue).tasks) 0 64 o
        → IsConsistent (record s {
          queue = (submit_at cpu_count s.queue fn arg o).1;
          submitted = elim o [ none ↦ s.submitted | some i ↦ suc s.submitted ];
        })
    at_slot none f = v
    at_slot (some _) (slot k a b t f) =
        write-IsConsistent s k _ _ _ s.running (suc s.submitted) s.ended v b (λ i n. refl)
          (ground (arith, v.run_once k b)) (omega arith) (ground arith)

take_step-IsConsistent : (s : System) (cpu : ℕ) → IsConsistent s → IsConsistent (take_step s cpu)
unfolding take_step take_task mark_running occurrences
take_step-IsConsistent s cpu v =
    at_slot _ (first_slot-FirstSlot (is_for cpu) ((s.queue).tasks) 0 64)
  where
    at_slot :
        (o : Option ℕ)
        → FirstSlot (is_for cpu) ((s.queue).tasks) 0 64 o
        → IsConsistent (record s {
          queue =
              (elim o as (λ x. Option ℕ × Scheduler) [
                | none ↦ (none, s.queue)
                | some i ↦ (some i, mark_running s.queue i)
              ]).1;
          running =
              elim ((elim o as (λ x. Option ℕ × Scheduler) [
                | none ↦ (none, s.queue)
                | some i ↦ (some i, mark_running s.queue i)
              ]).0) [ none ↦ s.running | some i ↦ i ∷ s.running ];
        })
    at_slot none f = v
    at_slot (some _) (slot k a b t f) =
        write-IsConsistent s k _ _ _ (k ∷ s.running) s.submitted s.ended v b (λ i n. ground arith)
          (ground (arith, v.run_once k b)) (omega arith) (ground arith)

module _ (s : System) (xs : List ℕ) (i : ℕ) (ys : List ℕ) (e : s.running ≡ xs ++ (i ∷ ys)) where
  occurrences-split :
      (k : ℕ) → occurrences s.running k ≡ occurrences (xs ++ ys) k + (if i == k then 1 else 0)
  unfolding occurrences
  occurrences-split k =
      rw e (omega (arith, occurrences-append xs (i ∷ ys) k, occurrences-append xs ys k))

  running_state : IsConsistent s → (i < 64) × (((s.queue).tasks i).state ≡ 2)
  running_state v =
      let there : occurrences s.running i ≢ 0 = ground (arith, occurrences-split i) in
      let inside : i < 64 = ground (arith, v.in_array i) in
      (inside, ground (arith, v.run_once i inside))

  ends-IsConsistent :
      (cpu : ℕ)
      → IsConsistent s
      → IsConsistent
          (record s { queue = finish_task s.queue i cpu; running = xs ++ ys; ended = suc s.ended })
  unfolding finish_task
  ends-IsConsistent cpu v =
      let r : (i < 64) × (((s.queue).tasks i).state ≡ 2) = running_state v in
      let len : length s.running ≡ suc (length (xs ++ ys)) = rw e (length-remove xs i ys) in
      write-IsConsistent s i _ _ _ (xs ++ ys) s.submitted (suc s.ended) v (r.0)
        (λ k n. ground (arith, occurrences-split k))
        (ground (arith, occurrences-split i, v.run_once i (r.0), r.1)) (omega arith)
        (ground (arith, r.1, len))

Step-IsConsistent : (s t : System) → IsConsistent s → Step s t → IsConsistent t
Step-IsConsistent s t v (submits cpu_count fn arg) = submit-IsConsistent cpu_count s fn arg v
Step-IsConsistent s t v (takes cpu) = take_step-IsConsistent s cpu v
Step-IsConsistent s t v (ends xs i ys cpu e) = ends-IsConsistent s xs i ys e cpu v

scheduler_init-IsConsistent :
    (q : Scheduler)
    → IsConsistent (record { queue = scheduler_init q; running = []; submitted = 0; ended = 0 })
unfolding scheduler_init scheduler_pending count_submitted occurrences
scheduler_init-IsConsistent q = record {
  run_once = λ i l. ground arith;
  in_array = λ i l. refl;
  states = λ i l. ground arith;
  balance = refl;
}

-- In every reachable state each running task is in one call of `scheduler_step` only, no other slot
-- is in any, and the tasks that are submitted, running and ended add up to the submissions.
pub Reachable-IsConsistent : (s : System) → Reachable s → IsConsistent s
Reachable-IsConsistent s (starts q) = scheduler_init-IsConsistent q
Reachable-IsConsistent s (goes r t u step) = Step-IsConsistent r s (Reachable-IsConsistent r u) step

no_submitted :
    (tasks : ℕ → TaskEntry) (i n : ℕ)
    → ((j : ℕ) → j < i + n → is_submitted (tasks j) ≡ false)
    → count_submitted tasks i n ≡ 0
unfolding count_submitted
no_submitted tasks i zero absent = refl
no_submitted tasks i (suc n) absent =
    rw (absent i (omega arith)) (no_submitted tasks (suc i) n (λ j l. absent j (omega arith)))

none_counted :
    (tasks : ℕ → TaskEntry) (i n j : ℕ)
    → count_submitted tasks i n ≡ 0
    → i ≤ j
    → j < i + n
    → is_submitted (tasks j) ≡ false
unfolding count_submitted
none_counted tasks i zero j z a b = absurd (omega arith)
none_counted tasks i (suc n) j z a b = elim (Bool-cases (i == j)) [
  | inl h ↦ ground arith
  | inr h ↦ ground (arith, none_counted tasks (suc i) n j)
]

-- A list in which no number occurs is empty.
no_occurrence : (xs : List ℕ) → ((i : ℕ) → occurrences xs i ≡ 0) → xs ≡ []
unfolding occurrences
no_occurrence [] absent = refl
no_occurrence (x ∷ xs) absent = absurd (ground (arith, absent x))

zero_length : (xs : List ℕ) → length xs ≡ 0 → xs ≡ []
zero_length [] z = refl
zero_length (x ∷ xs) z = absurd (omega arith)

none_pending :
    (s : System)
    → IsConsistent s
    → ((j : ℕ) → 0 ≤ j → j < 64 → is_pending ((s.queue).tasks j) ≡ false)
    → s.running ≡ []
none_pending s v absent = no_occurrence s.running (λ i. none_at i)
  where
    none_at : (i : ℕ) → occurrences s.running i ≡ 0
    none_at i = elim (Bool-cases (ltb i 64)) [
      | inl l ↦ ground (arith, v.run_once i, absent i)
      | inr l ↦ ground (arith, v.in_array i)
    ]

-- In every reachable state the check of `scheduler_wait_all` ends its loop exactly when every
-- submitted task has ended, and then no call of `scheduler_step` is running a task.
pub wait_ends_lem :
    (s : System)
    → Reachable s
    → ((wait_ends s.queue ≡ true) ↔ (s.ended ≡ s.submitted))
      × (wait_ends s.queue ≡ true → s.running ≡ [])
unfolding wait_ends scheduler_pending occurrences
wait_ends_lem s r = by_slot _ (first_slot-FirstSlot is_pending ((s.queue).tasks) 0 64)
  where
    by_slot :
        (o : Option ℕ)
        → FirstSlot is_pending ((s.queue).tasks) 0 64 o
        → ((elim o as (λ x. Bool) [ none ↦ true | some i ↦ false ] ≡ true)
            ↔ (s.ended ≡ s.submitted))
          × (elim o as (λ x. Bool) [ none ↦ true | some i ↦ false ] ≡ true → s.running ≡ [])
    by_slot none (no_slot f) =
        let v : IsConsistent s = Reachable-IsConsistent s r in
        let idle : s.running ≡ [] = none_pending s v f in
        let zero_left : count_submitted ((s.queue).tasks) 0 64 ≡ 0 =
          no_submitted ((s.queue).tasks) 0 64 (λ j l. ground (arith, f j)) in
        let len : length s.running ≡ 0 = ap length idle in
        ((λ t. omega (arith, v.balance, zero_left, len), λ t. refl), λ t. idle)
    by_slot (some _) (slot k a b t f) =
        let v : IsConsistent s = Reachable-IsConsistent s r in
        let idle : length s.running ≡ 0 → s.running ≡ [] = zero_length s.running in
        let none_at : s.running ≡ [] → occurrences s.running k ≡ 0 =
          λ e. ap (λ xs. occurrences xs k) e in
        (
          (
            λ h. ground arith,
            λ h. absurd (
                ground (
                  arith,
                  v.balance,
                  idle,
                  none_at,
                  v.run_once k b,
                  t,
                  none_counted ((s.queue).tasks) 0 64 k,
                )),
          ),
          λ h. ground arith,
        )
