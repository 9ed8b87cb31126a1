-- ===== src/Spinlock.antt =====
-- kernel/sync/sync.h: the spinlock by `xchg`, the saving of the interrupt flag, and the atomic
-- operations. Each `asm` statement on the lock word is one step; CPUs take steps in any order.
pub mod Exclusion
mod Tests
use noverix.Base.{ℕ, ◌+◌, ◌-◌, ◌%◌, ◌^◌, ◌≡◌, ◌==◌, if◌then◌else◌, Bool, true, false, update, u32}

-- The old value and the new memory, as the operations on `*ptr` below.
unfoldable pub atomic_xchg : (mem val : ℕ) → ℕ × ℕ
atomic_xchg mem val = (mem, val)

unfoldable pub atomic_inc : ℕ → ℕ
atomic_inc mem = u32 (mem + 1)

unfoldable pub atomic_dec : ℕ → ℕ
atomic_dec mem = u32 (mem + (2 ^ 32 - 1))

unfoldable pub atomic_cmpxchg : (mem old new : ℕ) → ℕ × ℕ
atomic_cmpxchg mem old new = (mem, if mem == old then new else mem)

unfoldable pub spinlock_init : ℕ → ℕ
spinlock_init locked = 0

-- Whether the lock is got, and the lock word.
unfoldable pub spinlock_try_lock : ℕ → Bool × ℕ
spinlock_try_lock locked = let swapped = atomic_xchg locked 1 in ((swapped.0) == 0, swapped.1)

-- One round of the loop of `spinlock_lock`: whether the loop ends, and the lock word.
unfoldable pub lock_round : ℕ → Bool × ℕ
lock_round locked = let swapped = atomic_xchg locked 1 in ((swapped.0) == 0, swapped.1)

unfoldable pub spinlock_unlock : ℕ → ℕ
spinlock_unlock locked = 0

-- Where a CPU is: before the calls, behind `cli` of `spinlock_lock_irqsave`, in the loop of the
-- `spinlock_lock` that it calls, in the section behind it, in a section behind `spinlock_try_lock`,
-- between the two statements of `spinlock_unlock_irqrestore`, and in the loop of a `spinlock_lock`
-- that is called by itself and in the section behind that.
pub data Place : Type 0 where
  outside : Place
  saved : Place
  waiting : Place
  inside : Place
  tried : Place
  restoring : Place
  plain_waiting : Place
  plain_inside : Place

-- The section behind the loop of `spinlock_lock`.
abbrev pub entered : Place → Place
entered plain_waiting = plain_inside
entered _ = inside

-- Between `cli` and `popf`.
unfoldable pub is_guarded : Place → Bool
is_guarded outside = false
is_guarded tried = false
is_guarded plain_waiting = false
is_guarded plain_inside = false
is_guarded _ = true

-- One lock word, and for each CPU its place, its interrupt flag and its local `flags`.
pub record System : Type 0 where
  pub locked : ℕ
  pub place : ℕ → Place
  pub interrupts : ℕ → Bool
  pub flags : ℕ → Bool

-- `pushf; popl; cli`
unfoldable pub save_flags : System → ℕ → System
save_flags s i = record s {
  place = update s.place i saved;
  flags = update s.flags i (s.interrupts i);
  interrupts = update s.interrupts i false;
}

unfoldable pub spin : System → ℕ → System
spin s i =
    let round = lock_round s.locked in
    record s {
      locked = round.1;
      place = update s.place i (if round.0 then entered (s.place i) else s.place i);
    }

unfoldable pub try_lock : System → ℕ → System
try_lock s i =
    let round = spinlock_try_lock s.locked in
    record s { locked = round.1; place = update s.place i (if round.0 then tried else outside) }

unfoldable pub unlock : System → ℕ → Place → System
unlock s i next = record s { locked = spinlock_unlock s.locked; place = update s.place i next }

-- `pushl; popf`
unfoldable pub restore_flags : System → ℕ → System
restore_flags s i = record s {
  place = update s.place i outside;
  interrupts = update s.interrupts i (s.flags i);
}

-- The steps of a kernel in which every CPU calls the lock in one of the three ways that its code
-- does: a section between `spinlock_lock_irqsave` and `spinlock_unlock_irqrestore`, one between a
-- `spinlock_try_lock` that returns true and `spinlock_unlock`, or one between `spinlock_lock` and
-- `spinlock_unlock`, which leaves the interrupts as they are. Other code may set the flag of a CPU
-- that is not between `cli` and `popf`.
pub data Step (s : System) : System → Type 0 where
  saves : (i : ℕ) → s.place i ≡ outside → Step s (save_flags s i)
  calls : (i : ℕ) → s.place i ≡ saved → Step s (record s { place = update s.place i waiting })
  spins : (i : ℕ) → s.place i ≡ waiting → Step s (spin s i)
  tries : (i : ℕ) → s.place i ≡ outside → Step s (try_lock s i)
  leaves : (i : ℕ) → s.place i ≡ tried → Step s (unlock s i outside)
  unlocks : (i : ℕ) → s.place i ≡ inside → Step s (unlock s i restoring)
  restores : (i : ℕ) → s.place i ≡ restoring → Step s (restore_flags s i)
  locks :
      (i : ℕ) → s.place i ≡ outside → Step s (record s { place = update s.place i plain_waiting })
  plain_spins : (i : ℕ) → s.place i ≡ plain_waiting → Step s (spin s i)
  plain_unlocks : (i : ℕ) → s.place i ≡ plain_inside → Step s (unlock s i outside)
  sets :
      (i : ℕ) (on : Bool)
      → is_guarded (s.place i) ≡ false
      → Step s (record s { interrupts = update s.interrupts i on })

abbrev pub start : (ℕ → Bool) → System
start on = record { locked = spinlock_init 0; place = λ i. outside; interrupts = on; flags = on }

pub data Reachable : System → Type 0 where
  starts : (on : ℕ → Bool) → Reachable (start on)
  goes : (s t : System) → Reachable s → Step s t → Reachable t
