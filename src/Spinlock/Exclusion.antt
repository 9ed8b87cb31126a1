-- ===== src/Spinlock/Exclusion.antt =====
-- Mutual exclusion by the spinlock, over all interleavings of any number of CPUs.
use noverix.Base.{
  ℕ, ◌<◌, ◌≡◌, refl, arith, ◌==◌, Bool, true, false, update, Bool-cases, inl, inr, sym, ◌∙◌,
}
use noverix.Spinlock.{
  atomic_xchg, lock_round, spinlock_try_lock, spinlock_unlock, spinlock_init, Place, outside, saved,
  waiting, inside, tried, restoring, plain_waiting, plain_inside, entered, is_guarded, System,
  save_flags, spin, try_lock, unlock, restore_flags, Step, saves, calls, spins, tries, leaves,
  unlocks, restores, locks, plain_spins, plain_unlocks, sets, Reachable, starts, goes,
}

unfoldable pub holds : Place → Bool
holds inside = true
holds tried = true
holds plain_inside = true
holds _ = false

pub record IsExclusive (s : System) : Type 0 where
  pub one_holder : (i j : ℕ) → holds (s.place i) ≡ true → holds (s.place j) ≡ true → i ≡ j
  pub word : s.locked < 2
  pub no_holder : s.locked ≡ 0 → (i : ℕ) → holds (s.place i) ≡ false
  pub some_holder : s.locked ≡ 1 → (i : ℕ) × (holds (s.place i) ≡ true)
  pub quiet : (i : ℕ) → is_guarded (s.place i) ≡ true → s.interrupts i ≡ false

module _ (s : System) (i : ℕ) (next : Place) (word : ℕ) (on flags : ℕ → Bool) where
  abbrev after : System
  after = record { locked = word; place = update s.place i next; interrupts = on; flags = flags }

  abbrev StaysQuiet : Type 0
  StaysQuiet = (j : ℕ) → is_guarded (update s.place i next j) ≡ true → on j ≡ false

  -- A CPU that moves without the lock.
  moves_outside :
      IsExclusive s
      → holds (s.place i) ≡ false
      → holds next ≡ false
      → word ≡ s.locked
      → StaysQuiet
      → IsExclusive after
  moves_outside v h n w q = record {
    one_holder = λ a b x y. ground (arith, v.one_holder a b);
    word = omega (arith, v.word);
    no_holder = λ z a. ground (arith, v.no_holder (sym w ∙ z) a);
    some_holder = λ z.
        let holder : (j : ℕ) × (holds (s.place j) ≡ true) = v.some_holder (sym w ∙ z) in
        (holder.0, ground (arith, holder.1));
    quiet = q;
  }

  -- A CPU that finds the lock free.
  acquires :
      IsExclusive s → s.locked ≡ 0 → holds next ≡ true → word ≡ 1 → StaysQuiet → IsExclusive after
  acquires v f n w q = record {
    one_holder = λ a b x y. ground (arith, v.no_holder f a, v.no_holder f b);
    word = omega arith;
    no_holder = λ z a. absurd (omega arith);
    some_holder = λ z. (i, ground arith);
    quiet = q;
  }

  -- The holder that leaves.
  releases :
      IsExclusive s
      → holds (s.place i) ≡ true
      → holds next ≡ false
      → word ≡ 0
      → StaysQuiet
      → IsExclusive after
  releases v h n w q = record {
    one_holder = λ a b x y. ground (arith, v.one_holder a b);
    word = omega arith;
    no_holder = λ z a. Bool-cases-false a;
    some_holder = λ z. absurd (omega arith);
    quiet = q;
  }
    where
      Bool-cases-false : (a : ℕ) → holds (update s.place i next a) ≡ false
      Bool-cases-false a = ground (arith, v.one_holder a i)

Step-IsExclusive : (s t : System) → IsExclusive s → Step s t → IsExclusive t
unfolding save_flags spin try_lock unlock restore_flags lock_round spinlock_try_lock spinlock_unlock
    atomic_xchg holds is_guarded
Step-IsExclusive s t v (saves i p) =
    moves_outside s i saved _ _ _ v (rw p refl) refl refl (λ j g. ground (arith, v.quiet j))
Step-IsExclusive s t v (calls i p) =
    moves_outside s i waiting _ _ _ v (rw p refl) refl refl (λ j g. ground (arith, p, v.quiet j))
Step-IsExclusive s t v (spins i p) = elim (Bool-cases (s.locked == 0)) [
  | inl e ↦
      rw (e, p)
        (acquires s i inside _ _ _ v (ground arith) refl refl (λ j g. ground (arith, p, v.quiet j)))
  | inr e ↦
      rw (e, p)
        (moves_outside s i waiting _ _ _ v (rw p refl) refl (ground (arith, v.word))
          (λ j g. ground (arith, p, v.quiet j)))
]
Step-IsExclusive s t v (locks i p) =
    moves_outside s i plain_waiting _ _ _ v (rw p refl) refl refl
      (λ j g. ground (arith, p, v.quiet j))
Step-IsExclusive s t v (plain_spins i p) = elim (Bool-cases (s.locked == 0)) [
  | inl e ↦
      rw (e, p)
        (acquires s i plain_inside _ _ _ v (ground arith) refl refl
          (λ j g. ground (arith, p, v.quiet j)))
  | inr e ↦
      rw (e, p)
        (moves_outside s i plain_waiting _ _ _ v (rw p refl) refl (ground (arith, v.word))
          (λ j g. ground (arith, p, v.quiet j)))
]
Step-IsExclusive s t v (plain_unlocks i p) =
    releases s i outside _ _ _ v (rw p refl) refl refl (λ j g. ground (arith, p, v.quiet j))
Step-IsExclusive s t v (tries i p) = elim (Bool-cases (s.locked == 0)) [
  | inl e ↦
      rw e
        (acquires s i tried _ _ _ v (ground arith) refl refl (λ j g. ground (arith, p, v.quiet j)))
  | inr e ↦ rw e (
      moves_outside s i outside _ _ _ v (rw p refl) refl (ground (arith, v.word))
        (λ j g. ground (arith, p, v.quiet j)))
]
Step-IsExclusive s t v (leaves i p) =
    releases s i outside _ _ _ v (rw p refl) refl refl (λ j g. ground (arith, p, v.quiet j))
Step-IsExclusive s t v (unlocks i p) =
    releases s i restoring _ _ _ v (rw p refl) refl refl (λ j g. ground (arith, p, v.quiet j))
Step-IsExclusive s t v (restores i p) =
    moves_outside s i outside _ _ _ v (rw p refl) refl refl (λ j g. ground (arith, p, v.quiet j))
Step-IsExclusive s t v (sets i on p) = record {
  one_holder = v.one_holder;
  word = v.word;
  no_holder = v.no_holder;
  some_holder = v.some_holder;
  quiet = λ j g. ground (arith, p, v.quiet j);
}

-- In every reachable state at most one CPU is in a section of the lock, the word is 0 exactly when
-- none is, and a CPU has its interrupts off from `cli` to `popf`.
pub Reachable-IsExclusive : (s : System) → Reachable s → IsExclusive s
unfolding holds is_guarded spinlock_init
Reachable-IsExclusive s (starts on) = record {
  one_holder = λ i j x y. ground arith;
  word = omega arith;
  no_holder = λ z i. refl;
  some_holder = λ z. absurd (omega arith);
  quiet = λ i g. ground arith;
}
Reachable-IsExclusive s (goes r t u step) = Step-IsExclusive r s (Reachable-IsExclusive r u) step

-- What a try of CPU `i` does: it gets the lock if no CPU is in a section, and otherwise changes
-- neither the lock word nor any place.
pub record Contends (s : System) (i : ℕ) (got : Place) (after : System) : Type 0 where
  pub gets : ((j : ℕ) → holds (s.place j) ≡ false) → after.place i ≡ got
  pub keeps_word : (j : ℕ) → holds (s.place j) ≡ true → after.locked ≡ s.locked
  pub keeps_place : (j : ℕ) → holds (s.place j) ≡ true → (c : ℕ) → after.place c ≡ s.place c

free_word : (s : System) → IsExclusive s → ((j : ℕ) → holds (s.place j) ≡ false) → s.locked ≡ 0
free_word s v none = elim (Bool-cases (s.locked == 0)) [
  | inl e ↦ ground arith
  | inr e ↦
      let holder : (j : ℕ) × (holds (s.place j) ≡ true) = v.some_holder (ground (arith, v.word)) in
      absurd (ground (arith, none (holder.0), holder.1))
]

taken_word : (s : System) (j : ℕ) → IsExclusive s → holds (s.place j) ≡ true → s.locked ≡ 1
taken_word s j v h =
    let not_free : s.locked ≡ 0 → holds (s.place j) ≡ false = λ z. v.no_holder z j in
    ground (arith, v.word, not_free)

-- In the loop of `spinlock_lock`.
unfoldable pub is_waiting : Place → Bool
is_waiting waiting = true
is_waiting plain_waiting = true
is_waiting _ = false

-- In every reachable state, one round of the loop of `spinlock_lock`, with the interrupts saved or
-- not, ends the loop if no CPU is in a section, and otherwise changes neither the lock word nor any
-- place.
pub spin-Contends :
    (s : System) (i : ℕ)
    → Reachable s
    → is_waiting (s.place i) ≡ true
    → Contends s i (entered (s.place i)) (spin s i)
unfolding spin lock_round atomic_xchg is_waiting
spin-Contends s i r p =
    let v : IsExclusive s = Reachable-IsExclusive s r in
    record {
      gets = λ none. ground (arith, free_word s v none);
      keeps_word = λ j h. ground (arith, taken_word s j v h);
      keeps_place = λ j h c. ground (arith, taken_word s j v h, p);
    }

-- In every reachable state, `spinlock_try_lock` of a CPU outside gets the lock if no CPU is in a
-- section, and otherwise changes neither the lock word nor any place.
pub try_lock-Contends :
    (s : System) (i : ℕ) → Reachable s → s.place i ≡ outside → Contends s i tried (try_lock s i)
unfolding try_lock spinlock_try_lock atomic_xchg
try_lock-Contends s i r p =
    let v : IsExclusive s = Reachable-IsExclusive s r in
    record {
      gets = λ none. ground (arith, free_word s v none);
      keeps_word = λ j h. ground (arith, taken_word s j v h);
      keeps_place = λ j h c. ground (arith, taken_word s j v h, p);
    }
