-- ===== src/Heap/Client.antt =====
-- What a client of kernel/memory/heap.c may do with its block, and `heap_init` and `calloc`.
use noverix.Base.{
  ℕ, zero, suc, ◌+◌, ◌-◌, ◌*◌, ◌/◌, ◌^◌, ◌≤◌, ◌<◌, ◌≡◌, ◌⊎◌, inl, inr, refl, arith, ltb, leb, Bool,
  true, false, List, [], ◌∷◌, ◌++◌, subst, ◌∙◌, Bool-cases, sym, ltb→lt, lt→ltb, leb→le, le→leb,
}
use native.Mathlib.Nat.{div-lt_iff_lt-mul, mod-eq_of_lt}
use noverix.Memory.{Mem}
use noverix.CLib.{memset}
use noverix.CLib.Blocks.{memset_lem}
use noverix.Heap.{
  heap_start, heap_size, min_block, heap_init, block_need, Reply, returned, malloc, cleared, calloc,
}
use noverix.Heap.Blocks.{
  Block, taken, vacant, total, BlockAt, Tiles, IsHeap, Tiles-Same, Tiles-append, Tiles-split,
  tagged-BlockAt, block_need-eq, load32-Same,
}
use noverix.Heap.Malloc.{NoFit, FirstFit, spot, split, Allocated, malloc_lem}

-- `heap_init` leaves one free block over the whole heap, whatever the memory held.
pub heap_init-IsHeap : (m : Mem) → IsHeap (heap_init m) (vacant heap_size ∷ [])
unfolding heap_init
heap_init-IsHeap m = record {
  tiles = (tagged-BlockAt m heap_start (vacant heap_size) (omega arith) (omega arith) refl, tt);
  full = refl;
}

payload-BlockAt :
    (m k : Mem) (a : ℕ) (b : Block)
    → BlockAt m a b
    → ((x : ℕ) → (x < a + 4) ⊎ (a + b.size - 4 ≤ x) → k x ≡ m x)
    → BlockAt k a b
payload-BlockAt m k a b at same = record {
  head =
      load32-Same {m = m} {n = k} {lo = a} {hi = a + 4} a (λ x u w. same x (inl w)) (omega arith)
        (omega arith)
      ∙ at.head;
  foot =
      load32-Same {m = m} {n = k} {lo = a + b.size - 4} {hi = a + b.size} (a + b.size - 4)
        (λ x u w. same x (inr u)) (omega arith) (omega (arith, at.large))
      ∙ at.foot;
  large = at.large;
  aligned = at.aligned;
}

-- Writes between the tags of one block leave the heap as it is tiled.
pub payload-IsHeap :
    (m k : Mem) (before : List Block) (b : Block) (after : List Block)
    → IsHeap m (before ++ (b ∷ after))
    → ((x : ℕ)
        → (x < heap_start + total before + 4) ⊎ (heap_start + total before + b.size - 4 ≤ x)
        → k x ≡ m x)
    → IsHeap k (before ++ (b ∷ after))
payload-IsHeap m k before b after h same = record {
  tiles =
      Tiles-append k heap_start before (b ∷ after)
        (Tiles-Same heap_start before parts.0 (λ x u w. same x (omega arith)))
        (
          payload-BlockAt m k (heap_start + total before) b parts.1.0 same,
          Tiles-Same (heap_start + total before + b.size) after parts.1.1
              (λ x u w. same x (omega arith)),
        );
  full = h.full;
}
  where
    parts : Tiles m heap_start before × Tiles m (heap_start + total before) (b ∷ after)
    parts = Tiles-split m heap_start before (b ∷ after) h.tiles

-- The head of what `malloc` splits off is in use, and holds the request between its tags.
split_head :
    (need n : ℕ)
    → need ≤ n
    → (s : ℕ) × (rest : List Block) × (split need n ≡ taken s ∷ rest) × (need ≤ s)
split_head need n fits = elim (Bool-cases (leb min_block (n - need))) [
  | inl enough ↦ (need, vacant (n - need) ∷ [], rw enough, omega arith)
  | inr little ↦ (n, [], rw little, fits)
]

-- A successful `calloc`: the heap is tiled, the block's bytes are zero, all bytes outside the free
-- block that it came from are as before.
pub record Zeroed (m : Mem) (bytes : ℕ) (bs : List Block) (r : Reply) : Type 0 where
  pub fit : FirstFit (block_need bytes) bs
  pub memory : Mem
  pub result : r ≡ returned memory (spot heap_start fit + 4)
  pub heap : IsHeap memory (fit.before ++ (split (block_need bytes) fit.block.size ++ fit.after))
  pub zero_bytes : (i : ℕ) → i < bytes → memory (spot heap_start fit + 4 + i) ≡ 0
  pub outside :
      (x : ℕ)
      → (x < spot heap_start fit) ⊎ (spot heap_start fit + fit.block.size ≤ x)
      → memory x ≡ m x

cleared-Zeroed :
    (m : Mem) (bytes : ℕ) (bs : List Block) (r : Reply)
    → 0 < bytes
    → bytes ≤ heap_size
    → Allocated m bytes bs r
    → Zeroed m bytes bs (cleared r bytes)
cleared-Zeroed m bytes bs r pos small al = record {
  fit = al.fit;
  memory = wiped;
  result = rw al.result here;
  heap =
      subst (λ l. IsHeap wiped (al.fit.before ++ (l ++ al.fit.after))) (sym cut)
        (payload-IsHeap al.memory wiped al.fit.before (taken s) (rest ++ al.fit.after)
          (subst (λ l. IsHeap al.memory (al.fit.before ++ (l ++ al.fit.after))) cut al.heap)
          (λ x out. memset_lem al.memory p 0 bytes x ∙ ground (arith, holds)));
  zero_bytes = λ i h. memset_lem al.memory p 0 bytes (p + i) ∙ ground arith;
  outside =
      λ x out. memset_lem al.memory p 0 bytes x ∙ ground (arith, al.outside x, holds, al.fit.fits);
}
  where
    p : ℕ
    p = spot heap_start al.fit + 4

    head :
        (s : ℕ) × (rest : List Block) × (split (block_need bytes) al.fit.block.size
          ≡ taken s ∷ rest)
        × (block_need bytes ≤ s)
    head = split_head (block_need bytes) al.fit.block.size al.fit.fits

    s : ℕ
    s = head.0

    rest : List Block
    rest = head.1

    cut : split (block_need bytes) al.fit.block.size ≡ taken s ∷ rest
    cut = head.2

    fits_need : bytes + 8 ≤ block_need bytes
    fits_need = omega (arith, block_need-eq bytes pos small)

    holds : bytes + 8 ≤ s
    holds = omega (arith, fits_need, head.3)

    wiped : Mem
    wiped = memset al.memory p 0 bytes

    here : cleared (returned al.memory p) bytes ≡ returned wiped p
    here = unfold cleared in ground arith

overflow_test : (num size : ℕ) → 0 < size → ltb (0xFFFFFFFF / size) num ≡ leb (2 ^ 32) (num * size)
overflow_test num size pos = elim (Bool-cases (ltb (0xFFFFFFFF / size) num)) [
  | inl above ↦
      above ∙ sym (le→leb (2 ^ 32) (num * size) ((div-lt_iff_lt-mul pos).0 (ltb→lt _ _ above)))
  | inr below ↦ elim (Bool-cases (leb (2 ^ 32) (num * size))) [
    | inl over ↦ absurd (absurd_of (lt→ltb _ _ ((div-lt_iff_lt-mul pos).1 (leb→le _ _ over))) below)
    | inr under ↦ below ∙ sym under
  ]
]
  where
    absurd_of : {b : Bool} → b ≡ true → b ≡ false → ⊥
    absurd_of p q = cc

factors : (num size : ℕ) → 0 < num * size → (0 < num) × (0 < size)
factors zero size h = absurd (omega arith)
factors (suc n) zero h = absurd (omega arith)
factors (suc n) (suc s) h = (omega arith, omega arith)

-- On a tiled heap, `calloc` of at least one byte, and no more than the heap has, finds the block that
-- `malloc` finds for the product and zeroes the bytes asked for, or returns null if none is free.
pub calloc_lem :
    (m : Mem) (num size : ℕ) (bs : List Block)
    → IsHeap m bs
    → 0 < num * size
    → num * size ≤ heap_size
    → Zeroed m (num * size) bs (calloc m num size)
      ⊎ (NoFit (block_need (num * size)) bs × (calloc m num size ≡ returned m 0))
calloc_lem m num size bs h pos small =
    rw entered (elim ((malloc_lem m (num * size) bs h pos small).1) [
      | inl al ↦ inl (cleared-Zeroed m (num * size) bs (malloc m (num * size)) pos small al)
      | inr (full, e) ↦ inr (full, rw e (unfold cleared in refl))
    ])
  where
    entered : calloc m num size ≡ cleared (malloc m (num * size)) (num * size)
    entered =
        unfold calloc in
        rw (mod-eq_of_lt {n = num * size} {m = 2 ^ 32} (omega arith))
          (ground (arith, overflow_test num size, factors num size pos))

-- A product that does not fit 32 bits is refused, and the memory stays as it is.
pub calloc_overflow :
    (m : Mem) (num size : ℕ) → 2 ^ 32 ≤ num * size → calloc m num size ≡ returned m 0
unfolding calloc
calloc_overflow m num size h =
    ground (arith, overflow_test num size, factors num size (omega arith))
