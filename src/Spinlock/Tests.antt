-- ===== src/Spinlock/Tests.antt =====
-- The theorems on the spinlock at concrete inputs: CPU 0 holds the lock and CPU 1 waits for it.
use noverix.Base.{ℕ, refl, true, update}
use noverix.Spinlock.{
  System, Reachable, starts, goes, saves, calls, spins, start, save_flags, spin, waiting, inside,
  tried, try_lock,
}
use noverix.Spinlock.Exclusion.{
  is_waiting, IsExclusive, Contends, Reachable-IsExclusive, spin-Contends, try_lock-Contends,
}

abbrev called : System → ℕ → System
called s i = let off = save_flags s i in record off { place = update (off.place) i waiting }

abbrev first_waits : System
first_waits = called (start (λ i. true)) 0

abbrev second_waits : System
second_waits = called (spin first_waits 0) 1

first_waits-Reachable : Reachable first_waits
unfolding save_flags
first_waits-Reachable = goes _ _ (goes _ _ (starts (λ i. true)) (saves 0 refl)) (calls 0 refl)

second_waits-Reachable : Reachable second_waits
unfolding spin save_flags
second_waits-Reachable =
    goes _ _ (goes _ _ (goes _ _ first_waits-Reachable (spins 0 refl)) (saves 1 refl))
      (calls 1 refl)

Reachable-IsExclusive_example : IsExclusive second_waits
Reachable-IsExclusive_example = Reachable-IsExclusive second_waits second_waits-Reachable

spin-Contends_example : Contends second_waits 1 inside (spin second_waits 1)
unfolding is_waiting
spin-Contends_example = spin-Contends second_waits 1 second_waits-Reachable refl

try_lock-Contends_example : Contends second_waits 2 tried (try_lock second_waits 2)
unfolding save_flags spin
try_lock-Contends_example = try_lock-Contends second_waits 2 second_waits-Reachable refl
