-- ===== src/Heap/Malloc.antt =====
-- `malloc` of kernel/memory/heap.c against the list of blocks: first fit.
use noverix.Base.{
  ℕ, zero, suc, ◌+◌, ◌-◌, ◌*◌, ◌/◌, ◌%◌, ◌≤◌, ◌<◌, ◌≡◌, ◌⊎◌, inl, inr, refl, arith, leb,
  if◌then◌else◌, true, false, List, [], ◌∷◌, ◌++◌, length, ap, subst, ◌∙◌, Bool-cases,
}
use noverix.Memory.{Mem}
use noverix.Heap.{
  heap_start, heap_size, heap_end, min_block, block_need, place, Reply, returned, malloc_from,
  malloc_fuel, malloc,
}
use noverix.Heap.Blocks.{
  Block, taken, vacant, total, BlockAt, Tiles, IsHeap, BlockAt-Same, total-append, replace-IsHeap,
  Tiles-split, bit_or-one, block_need-eq, size_field-head, is_free-head, tagged, tagged-BlockAt,
  tagged_outside,
}

-- What is left of a free block of `n` bytes when `need` are taken.
abbrev pub split : ℕ → ℕ → List Block
split need n =
    if leb min_block (n - need) then taken need ∷ vacant (n - need) ∷ [] else taken n ∷ []

pub place-split :
    (m : Mem) (a n need : ℕ)
    → need % 4 ≡ 0
    → n % 4 ≡ 0
    → min_block ≤ need
    → need ≤ n
    → a + n ≤ heap_end
    → Tiles (place m a n need) a (split need n)
      × ((x : ℕ) → (x < a) ⊎ (a + n ≤ x) → place m a n need x ≡ m x)
unfolding place
place-split m a n need need4 n4 large fits inside = elim (Bool-cases (leb min_block (n - need))) [
  | inl enough ↦
      let m1 = tagged m a (taken need) in
      let rest = vacant (n - need) in
      rw (enough, bit_or-one need (omega arith))
        (
          (
            BlockAt-Same (tagged-BlockAt m a (taken need) large (omega arith) need4) (λ x p q.
                tagged_outside m1 (a + need) rest (ground arith) (omega arith) x (omega arith)),
            (tagged-BlockAt m1 (a + need) rest (ground arith) (omega arith) (omega arith), tt),
          ),
          λ x out.
              tagged_outside m1 (a + need) rest (ground arith) (omega arith) x (omega arith)
              ∙ tagged_outside m a (taken need) large (omega arith) x (omega arith),
        )
  | inr little ↦
      rw (little, bit_or-one n (omega arith))
        (
          (tagged-BlockAt m a (taken n) (omega arith) (omega arith) n4, tt),
          λ x out. tagged_outside m a (taken n) (omega arith) (omega arith) x out,
        )
]

-- No block of the list can take `need` bytes.
abbrev pub NoFit : ℕ → List Block → Type 0
NoFit need [] = Unit {0}
NoFit need (b ∷ bs) = ((b.used ≡ true) ⊎ (b.size < need)) × NoFit need bs

-- The first block of the list that is free and large enough.
pub record FirstFit (need : ℕ) (bs : List Block) : Type 0 where
  pub before : List Block
  pub block : Block
  pub after : List Block
  pub whole : bs ≡ before ++ (block ∷ after)
  pub free : block.used ≡ false
  pub fits : need ≤ block.size
  pub first : NoFit need before

FirstFit-cons :
    {need : ℕ} {bs : List Block} (b : Block)
    → (b.used ≡ true) ⊎ (b.size < need)
    → FirstFit need bs
    → FirstFit need (b ∷ bs)
FirstFit-cons b busy f = record {
  before = b ∷ f.before;
  block = f.block;
  after = f.after;
  whole = ap (λ l. b ∷ l) f.whole;
  free = f.free;
  fits = f.fits;
  first = (busy, f.first);
}

-- The address of the block that was found.
abbrev pub spot : {need : ℕ} {bs : List Block} → ℕ → FirstFit need bs → ℕ
spot a f = a + total f.before

abbrev Search : (f : ℕ) (m : Mem) (need a : ℕ) → List Block → Type 0
Search f m need a bs =
    ((p : FirstFit need bs) × (malloc_from f m need a
        ≡ returned (place m (spot a p) p.block.size need) (spot a p + 4)))
    ⊎ (NoFit need bs × (malloc_from f m need a ≡ returned m 0))

module _ (f : ℕ) (m : Mem) (need a : ℕ) (b : Block) (bs : List Block) (at : BlockAt m a b)
    (small : b.size ≤ heap_size) (inside : a < heap_end) where
  malloc_from-here :
      b.used ≡ false
      → need ≤ b.size
      → malloc_from (suc f) m need a ≡ returned (place m a b.size need) (a + 4)
  unfolding malloc_from
  malloc_from-here unused fits =
      rw (size_field-head at small, is_free-head at small) (ground (arith, at.large))

  malloc_from-next :
      (b.used ≡ true) ⊎ (b.size < need)
      → malloc_from (suc f) m need a ≡ malloc_from f m need (a + b.size)
  unfolding malloc_from
  malloc_from-next busy =
      rw (size_field-head at small, is_free-head at small) (ground (arith, at.large))

  Search-cons :
      (b.used ≡ true) ⊎ (b.size < need)
      → Search f m need (a + b.size) bs
      → Search (suc f) m need a (b ∷ bs)
  unfolding FirstFit-cons
  Search-cons busy s = elim s [
    | inl (p, e) ↦ inl (
      FirstFit-cons b busy p,
      malloc_from-next busy
          ∙ subst
              (λ k.
                malloc_from f m need (a + b.size) ≡ returned (place m k p.block.size need) (k + 4))
              (omega arith) e,
    )
    | inr (none_fits, e) ↦ inr ((busy, none_fits), malloc_from-next busy ∙ e)
  ]

can_take :
    (need : ℕ) (b : Block)
    → ((b.used ≡ false) × (need ≤ b.size)) ⊎ ((b.used ≡ true) ⊎ (b.size < need))
can_take need b = elim (Bool-cases b.used) [
  | inl used ↦ inr (inl used)
  | inr unused ↦ elim (Bool-cases (leb need b.size)) [
    | inl fits ↦ inl (unused, ground arith)
    | inr short ↦ inr (inr (ground arith))
  ]
]

first_fit_found :
    (f : ℕ) (m : Mem) (need a : ℕ) (bs : List Block)
    → Tiles m a bs
    → a + total bs ≡ heap_end
    → total bs ≤ heap_size
    → length bs < f
    → Search f m need a bs
first_fit_found zero m need a bs t e small fuel = absurd (omega arith)
first_fit_found (suc f) m need a [] t e small fuel = inr (tt, at_end)
  where
    at_end : malloc_from (suc f) m need a ≡ returned m 0
    at_end = unfold malloc_from in ground arith
first_fit_found (suc f) m need a (b ∷ bs) t e small fuel = elim (can_take need b) [
  | inl (unused, fits) ↦ inl (
    record {
      before = [];
      block = b;
      after = bs;
      whole = refl;
      free = unused;
      fits = fits;
      first = tt;
    },
    malloc_from-here f m need a b bs t.0 (omega arith) (omega (arith, t.0.large)) unused fits
        ∙ ap (λ k. returned (place m k b.size need) (k + 4)) (omega arith),
  )
  | inr busy ↦
      Search-cons f m need a b bs t.0 (omega arith) (omega (arith, t.0.large)) busy
        (first_fit_found f m need (a + b.size) bs t.1 (omega arith) (omega arith) (omega arith))
]

blocks-fit : (m : Mem) (a : ℕ) (bs : List Block) → Tiles m a bs → min_block * length bs ≤ total bs
blocks-fit m a [] t = omega arith
blocks-fit m a (b ∷ bs) t = omega (arith, t.0.large, blocks-fit m (a + b.size) bs t.1)

-- A successful `malloc`: where the block was found, what the heap is then, and that the bytes
-- outside that block are as before.
pub record Allocated (m : Mem) (size : ℕ) (bs : List Block) (r : Reply) : Type 0 where
  pub fit : FirstFit (block_need size) bs
  pub memory : Mem
  pub result : r ≡ returned memory (spot heap_start fit + 4)
  pub heap : IsHeap memory (fit.before ++ (split (block_need size) fit.block.size ++ fit.after))
  pub outside :
      (x : ℕ)
      → (x < spot heap_start fit) ⊎ (spot heap_start fit + fit.block.size ≤ x)
      → memory x ≡ m x

pub total-split : (need n : ℕ) → need ≤ n → total (split need n) ≡ n
total-split need n h = ground arith

place-IsHeap :
    (m : Mem) (need : ℕ) (bs : List Block) (p : FirstFit need bs)
    → IsHeap m bs
    → need % 4 ≡ 0
    → min_block ≤ need
    → IsHeap
        (place m (spot heap_start p) p.block.size need)
        (p.before ++ (split need p.block.size ++ p.after))
      × ((x : ℕ)
          → (x < spot heap_start p) ⊎ (spot heap_start p + p.block.size ≤ x)
          → place m (spot heap_start p) p.block.size need x ≡ m x)
place-IsHeap m need bs p h need4 large = (
  replace-IsHeap m (place m (spot heap_start p) p.block.size need) p.before p.block
      (split need p.block.size) p.after tiled put.0 (total-split need p.block.size p.fits) put.1,
  put.1,
)
  where
    tiled : IsHeap m (p.before ++ (p.block ∷ p.after))
    tiled = subst (IsHeap m) p.whole h

    here : BlockAt m (spot heap_start p) p.block
    here = (Tiles-split m heap_start p.before (p.block ∷ p.after) tiled.tiles).1.0

    put :
        Tiles
          (place m (spot heap_start p) p.block.size need)
          (spot heap_start p)
          (split need p.block.size)
        × ((x : ℕ)
            → (x < spot heap_start p) ⊎ (spot heap_start p + p.block.size ≤ x)
            → place m (spot heap_start p) p.block.size need x ≡ m x)
    put =
        place-split m (spot heap_start p) p.block.size need need4 here.aligned large p.fits
          (omega (arith, total-append p.before (p.block ∷ p.after), tiled.full))

-- The bytes of a block for a request: room for the header of 4 bytes, the `size` bytes of the client
-- and the footer of 4 bytes, and no more than rounding up to a multiple of 4 adds.
pub record IsRoom (size need : ℕ) : Type 0 where
  pub room : 4 + (size + 4) ≤ need
  pub least : need < 4 + (size + 4) + 4
  pub words : need % 4 ≡ 0

-- On a heap that is tiled by blocks, `malloc` of 1 byte up to the heap's size takes the first free
-- block with room for a header of 4 bytes, the bytes asked for rounded up to a multiple of 4, and a
-- footer of 4 bytes, makes it a block of that size with what is left over split off if that makes
-- a block,
-- and returns the address behind the new block's header. It returns null exactly when no block is
-- large enough, and then the memory is as before. It never stops the machine.
pub malloc_lem :
    (m : Mem) (size : ℕ) (bs : List Block)
    → IsHeap m bs
    → 0 < size
    → size ≤ heap_size
    → IsRoom size (block_need size)
      × (Allocated m size bs (malloc m size)
          ⊎ (NoFit (block_need size) bs × (malloc m size ≡ returned m 0)))
malloc_lem m size bs h pos small = (
  room_lem,
  rw entered (elim searched [
    | inl (p, e) ↦
        let (heap, outside) =
          place-IsHeap m need bs p h (omega (arith, need_is)) (omega (arith, need_is)) in
        inl (record {
          fit = p;
          memory = place m (spot heap_start p) p.block.size need;
          result = e;
          heap = heap;
          outside = outside;
        })
    | inr (none_fits, e) ↦ inr (none_fits, e)
  ]),
)
  where
    need : ℕ
    need = block_need size

    need_is : need ≡ (size + 3) / 4 * 4 + 8
    need_is = block_need-eq size pos small

    room_lem : IsRoom size (block_need size)
    room_lem = record {
      room = omega (arith, need_is);
      least = omega (arith, need_is);
      words = omega (arith, need_is);
    }

    entered : malloc m size ≡ malloc_from malloc_fuel m need heap_start
    entered = unfold malloc in ground arith

    searched : Search malloc_fuel m need heap_start bs
    searched =
        first_fit_found malloc_fuel m need heap_start bs h.tiles (omega (arith, h.full))
          (omega (arith, h.full)) (omega (arith, h.full, blocks-fit m heap_start bs h.tiles))
