-- ===== src/WorkQueue/Slots.antt =====
-- The loops over the slots of the work queue of kernel/scheduler/scheduler.c.
use noverix.Base.{
  ℕ, zero, suc, ◌+◌, ◌≤◌, ◌<◌, ◌≡◌, refl, arith, ◌==◌, if◌then◌else◌, Bool, true, false, Option,
  none, some, update, Bool-cases, inl, inr,
}
use noverix.WorkQueue.{TaskEntry, first_slot, count_submitted, is_submitted}

-- The first of the slots from `i` up to `bound` that passes the test, or that none does.
pub data FirstSlot (test : TaskEntry → Bool) (tasks : ℕ → TaskEntry) (i bound : ℕ)
    : Option ℕ → Type 0 where
  no_slot :
      ((j : ℕ) → i ≤ j → j < bound → test (tasks j) ≡ false) → FirstSlot test tasks i bound none
  slot :
      (k : ℕ)
      → i ≤ k
      → k < bound
      → test (tasks k) ≡ true
      → ((j : ℕ) → i ≤ j → j < k → test (tasks j) ≡ false)
      → FirstSlot test tasks i bound (some k)

pub first_slot-FirstSlot :
    (test : TaskEntry → Bool) (tasks : ℕ → TaskEntry) (i n : ℕ)
    → FirstSlot test tasks i (i + n) (first_slot test tasks i n)
unfolding first_slot
first_slot-FirstSlot test tasks i zero = no_slot (λ j a b. absurd (omega arith))
first_slot-FirstSlot test tasks i (suc n) = elim (Bool-cases (test (tasks i))) [
  | inl e ↦ rw e (slot i (omega arith) (omega arith) e (λ j a b. absurd (omega arith)))
  | inr e ↦ rw e (later e _ (first_slot-FirstSlot test tasks (suc i) n))
]
  where
    later :
        test (tasks i) ≡ false
        → (o : Option ℕ) → FirstSlot test tasks (suc i) (suc i + n) o
        → FirstSlot test tasks i (i + suc n) o
    later e none (no_slot f) = no_slot (λ j a b. ground (arith, e, f j))
    later e (some _) (slot k a b t f) =
        slot k (omega arith) (omega arith) t (λ j x y. ground (arith, e, f j))

abbrev pub one_if : Bool → ℕ
one_if b = if b then 1 else 0

count_below :
    (tasks : ℕ → TaskEntry) (k : ℕ) (e : TaskEntry) (i n : ℕ)
    → k < i
    → count_submitted (update tasks k e) i n ≡ count_submitted tasks i n
unfolding count_submitted
count_below tasks k e i zero h = refl
count_below tasks k e i (suc n) h = ground (arith, count_below tasks k e (suc i) n (omega arith))

-- Writing one slot changes the count by what that slot counts for.
pub count_submitted-update :
    (tasks : ℕ → TaskEntry) (k : ℕ) (e : TaskEntry) (i n : ℕ)
    → i ≤ k
    → k < i + n
    → count_submitted (update tasks k e) i n + one_if (is_submitted (tasks k))
      ≡ count_submitted tasks i n + one_if (is_submitted e)
unfolding count_submitted
count_submitted-update tasks k e i zero a b = absurd (omega arith)
count_submitted-update tasks k e i (suc n) a b = elim (Bool-cases (i == k)) [
  | inl h ↦ ground (arith, count_below tasks k e (suc i) n)
  | inr h ↦ ground (arith, count_submitted-update tasks k e (suc i) n)
]
