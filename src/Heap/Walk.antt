-- ===== src/Heap/Walk.antt =====
-- `malloc` of kernel/memory/heap.c ends on every memory, also on a heap that is corrupted.
use noverix.Base.{ℕ, zero, suc, ◌+◌, ◌*◌, ◌≤◌, ◌≢◌, arith, min}
use noverix.Memory.{Mem, IsBytes, load32, load32-lt}
use noverix.Heap.{
  heap_end, size_field, no_fuel, malloc_from, malloc_fuel, malloc, block_need, heap_start,
}
use noverix.Heap.Blocks.{size_field-eq}

malloc_from-ends :
    (f : ℕ) (m : Mem) (need addr : ℕ)
    → IsBytes m
    → heap_end + 2 ≤ min addr heap_end + 2 * f
    → malloc_from f m need addr ≢ no_fuel
unfolding malloc_from
malloc_from-ends zero m need addr b h = absurd (omega arith)
malloc_from-ends (suc f) m need addr b h = ground (
  arith,
  size_field-eq (load32 m addr) (load32-lt m addr b),
  malloc_from-ends f m need (addr + size_field (load32 m addr)) b,
)

-- On every memory, `malloc` returns or stops the machine: its walk never runs out of fuel.
pub malloc-ends : (m : Mem) (size : ℕ) → IsBytes m → malloc m size ≢ no_fuel
unfolding malloc
malloc-ends m size b =
    ground (arith, malloc_from-ends malloc_fuel m (block_need size) heap_start b (omega arith))
