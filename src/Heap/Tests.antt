-- ===== src/Heap/Tests.antt =====
-- heap.c at concrete memories, and its theorems at inputs that meet their hypotheses.
use noverix.Base.{ℕ, ◌+◌, ◌-◌, ◌≤◌, ◌<◌, ◌≡◌, ◌≢◌, ◌⊎◌, refl, arith, [], ◌∷◌, ◌++◌}
use noverix.Memory.{Mem, IsBytes, load32, store32, store32_outside}
use noverix.Heap.{
  heap_start, heap_size, heap_init, set_footer, place, block_need, returned, no_fuel, malloc, free,
  realloc, calloc, malloc_from, size_field, is_free, align_up,
}
use noverix.Heap.Blocks.{taken, vacant, IsHeap}
use noverix.Heap.Malloc.{NoFit, IsRoom, Allocated, split, malloc_lem}
use noverix.Heap.Walk.{malloc-ends}
use noverix.Heap.Release.{Freed, free_lem}
use noverix.Heap.Client.{payload-IsHeap, Zeroed, calloc_lem}
use noverix.Heap.Realloc.{pointer, realloc_wraps, realloc_shrinks}

abbrev blank : Mem
blank x = 0

-- After `heap_init` and `malloc(17)`.
abbrev one_block : Mem
one_block = place (heap_init blank) heap_start heap_size 28

one_block-IsHeap : IsHeap one_block (taken 28 ∷ vacant (heap_size - 28) ∷ [])
unfolding heap_init place set_footer store32 load32
one_block-IsHeap = record {
  tiles = (
    record { head = refl; foot = refl; large = omega arith; aligned = refl },
    (record { head = refl; foot = refl; large = omega arith; aligned = refl }, tt),
  );
  full = refl;
}

first_pointer : malloc (heap_init blank) 17 ≡ returned one_block (heap_start + 4)
unfolding malloc malloc_from size_field load32 heap_init set_footer store32 is_free block_need
    align_up
first_pointer = refl

malloc_lem_example :
    IsRoom 100 (block_need 100)
    × (Allocated one_block 100 (taken 28 ∷ vacant (heap_size - 28) ∷ []) (malloc one_block 100)
        ⊎ (NoFit (block_need 100) (taken 28 ∷ vacant (heap_size - 28) ∷ [])
            × (malloc one_block 100 ≡ returned one_block 0)))
malloc_lem_example = malloc_lem one_block 100 _ one_block-IsHeap (omega arith) (omega arith)

blank-IsBytes : IsBytes blank
blank-IsBytes a = omega arith

-- On a memory of zeros the walk meets a block of size 0, and stops the machine.
malloc-ends_example : malloc blank 17 ≢ no_fuel
malloc-ends_example = malloc-ends blank 17 blank-IsBytes

free_lem_example :
    Freed one_block (free one_block (heap_start + 0 + 4)) [] 28 (vacant (heap_size - 28) ∷ [])
free_lem_example = free_lem one_block [] 28 (vacant (heap_size - 28) ∷ []) one_block-IsHeap

payload-IsHeap_example :
    IsHeap (store32 one_block (heap_start + 8) 7) (taken 28 ∷ vacant (heap_size - 28) ∷ [])
payload-IsHeap_example =
    payload-IsHeap one_block (store32 one_block (heap_start + 8) 7) [] (taken 28)
      (vacant (heap_size - 28) ∷ []) one_block-IsHeap
      (λ x out. store32_outside one_block (heap_start + 8) 7 x (omega arith))

calloc_lem_example :
    Zeroed one_block 40 (taken 28 ∷ vacant (heap_size - 28) ∷ []) (calloc one_block 10 4)
    ⊎ (NoFit (block_need 40) (taken 28 ∷ vacant (heap_size - 28) ∷ [])
        × (calloc one_block 10 4 ≡ returned one_block 0))
calloc_lem_example = calloc_lem one_block 10 4 _ one_block-IsHeap (omega arith) (omega arith)

realloc_wraps_example :
    (28 < 0xFFFFFFFF)
    × (k : Mem) × (realloc one_block (pointer []) 0xFFFFFFFF ≡ returned k (pointer []))
    × IsHeap k (split 12 28 ++ (vacant (heap_size - 28) ∷ []))
    × ((x : ℕ) → (x < heap_start + 0) ⊎ (heap_start + 0 + 28 ≤ x) → k x ≡ one_block x)
realloc_wraps_example =
    realloc_wraps one_block [] 28 (vacant (heap_size - 28) ∷ []) one_block-IsHeap 0xFFFFFFFF
      (omega arith) (omega arith)

four_fits : block_need 4 ≤ 28
unfolding block_need align_up
four_fits = omega arith

realloc_shrinks_example :
    (k : Mem) × (realloc one_block (pointer []) 4 ≡ returned k (pointer []))
    × IsHeap k (split (block_need 4) 28 ++ (vacant (heap_size - 28) ∷ []))
    × ((i : ℕ) → i < 4 → k (pointer [] + i) ≡ one_block (pointer [] + i))
    × ((x : ℕ) → (x < heap_start + 0) ⊎ (heap_start + 0 + 28 ≤ x) → k x ≡ one_block x)
realloc_shrinks_example =
    realloc_shrinks one_block [] 28 (vacant (heap_size - 28) ∷ []) one_block-IsHeap 4 (omega arith)
      (omega arith) four_fits
