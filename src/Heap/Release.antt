-- ===== src/Heap/Release.antt =====
-- The second half of `free` in kernel/memory/heap.c: the block before, and the whole operation.
use noverix.Base.{
  ℕ, ◌+◌, ◌-◌, ◌≤◌, ◌<◌, ◌≡◌, ◌⊎◌, inl, inr, refl, arith, ltb, if◌then◌else◌, Bool, false, not,
  ◌&&◌, List, [], ◌∷◌, ◌++◌, subst, ◌∙◌, Bool-cases, u32, sub32,
}
use noverix.Memory.{Mem, load32}
use noverix.Heap.{heap_start, heap_size, heap_end, min_block, merge_prev, release, free}
use noverix.Heap.Blocks.{
  Block, taken, vacant, total, BlockAt, Tiles, IsHeap, BlockAt-Same, Tiles-Same, total-append,
  Tiles-split, size_field-head, is_free-head, tagged, tagged-BlockAt, tagged_outside,
}
use noverix.Heap.Free.{
  Keeps, Keeps-Same, Keeps-trans, join_next, join_prev, free_blocks, JoinedNext,
  merge_next-JoinedNext,
}

-- From memory `m` to memory `k` the free block at `addr` has joined the block before it.
record JoinedPrev (m k : Mem) (a : ℕ) (before : List Block) (addr n : ℕ) (after : List Block)
    : Type 0 where
  tiles : Tiles k a (join_prev a before n after)
  sizes : total (join_prev a before n after) ≡ total before + n + total after
  below : (x : ℕ) → x < a → k x ≡ m x
  above : (x : ℕ) → addr + n ≤ x → k x ≡ m x
  keeps : Keeps m k a before

-- No block stands before the first.
first_block :
    (m : Mem) (n : ℕ) (after : List Block)
    → BlockAt m heap_start (vacant n)
    → Tiles m (heap_start + n) after
    → JoinedPrev m (merge_prev m heap_start n) heap_start [] heap_start n after
first_block m n after at t = rw alone (record {
  tiles = (at, t);
  sizes = omega arith;
  below = λ x p. refl;
  above = λ x p. refl;
  keeps = tt;
})
  where
    alone : merge_prev m heap_start n ≡ m
    alone = unfold merge_prev in ground arith

module _ (m : Mem) (a n : ℕ) (q : Block) (after : List Block) (low : heap_start ≤ a)
    (prev : BlockAt m a q) (at : BlockAt m (a + q.size) (vacant n))
    (t : Tiles m (a + q.size + n) after) (high : a + q.size + n ≤ heap_end) where
  abbrev joins : Bool
  joins = ltb (heap_start + min_block) (a + q.size) && not q.used

  merge_prev-joins :
      merge_prev m (a + q.size) n ≡ (if joins then tagged m a (vacant (n + q.size)) else m)
  unfolding merge_prev
  merge_prev-joins =
      let foot : load32 m (a + q.size - 4) ≡ q.size = prev.foot in
      let start : sub32 (a + q.size) q.size ≡ a = omega (arith, prev.large) in
      let joined_size : u32 (n + q.size) ≡ n + q.size = omega arith in
      rw (foot, start, joined_size, is_free-head prev (omega (arith, at.large)))
        (ground (arith, prev.large, at.large))

  one_block_before : JoinedPrev m (merge_prev m (a + q.size) n) a (q ∷ []) (a + q.size) n after
  one_block_before = rw merge_prev-joins (elim (Bool-cases joins) [
    | inl join ↦
        let whole = vacant (n + q.size) in
        let k = tagged m a whole in
        let same = tagged_outside m a whole (omega (arith, at.large)) (omega arith) in
        let unused : q.used ≡ false = ground arith in
        record {
          tiles = rw join (
            tagged-BlockAt m a whole (omega (arith, at.large)) (omega arith)
                (omega (arith, at.aligned, prev.aligned)),
            subst (λ c. Tiles k c after) (omega arith)
                (Tiles-Same (a + q.size + n) after t (λ x u w. same x (omega arith))),
          );
          sizes = rw join (omega arith);
          below = λ x u. rw join (same x (inl u));
          above = λ x u. rw join (same x (omega arith));
          keeps = (λ used. cc, tt);
        }
    | inr apart ↦ record {
      tiles = rw apart (prev, (at, t));
      sizes = rw apart (omega arith);
      below = λ x u. rw apart;
      above = λ x u. rw apart;
      keeps = rw apart (λ used x u w. refl, tt);
    }
  ])

-- Only the last of the blocks before can join.
blocks_before :
    (m : Mem) (a addr n : ℕ) (q : Block) (qs after : List Block)
    → heap_start ≤ a
    → addr ≡ a + total (q ∷ qs)
    → Tiles m a (q ∷ qs)
    → BlockAt m addr (vacant n)
    → Tiles m (addr + n) after
    → addr + n ≤ heap_end
    → JoinedPrev m (merge_prev m addr n) a (q ∷ qs) addr n after
blocks_before m a addr n q [] after low e before at t high =
    let here : addr ≡ a + q.size = omega arith in
    rw here
      (one_block_before m a n q after low before.0 (rw here at at) (rw here at t) (omega arith))
blocks_before m a addr n q (r ∷ rs) after low e before at t high =
    let rest : JoinedPrev m (merge_prev m addr n) (a + q.size) (r ∷ rs) addr n after =
      blocks_before m (a + q.size) addr n r rs after (omega arith) (omega arith) before.1 at t
        high in
    record {
      tiles = (BlockAt-Same before.0 (λ x u w. rest.below x w), rest.tiles);
      sizes = omega (arith, rest.sizes);
      below = λ x u. rest.below x (omega arith);
      above = rest.above;
      keeps = (λ used x u w. rest.below x w, rest.keeps);
    }

any_before :
    (m : Mem) (addr n : ℕ) (before after : List Block)
    → addr ≡ heap_start + total before
    → Tiles m heap_start before
    → BlockAt m addr (vacant n)
    → Tiles m (addr + n) after
    → addr + n ≤ heap_end
    → JoinedPrev m (merge_prev m addr n) heap_start before addr n after
any_before m addr n [] after e before at t high =
    let here : addr ≡ heap_start = omega arith in
    rw here (first_block m n after (rw here at at) (rw here at t))
any_before m addr n (q ∷ qs) after e before at t high =
    blocks_before m heap_start addr n q qs after (omega arith) e before at t high

-- A joined block behind was not in use, so what lies above the join covers all that was.
Keeps-join_next :
    (m k : Mem) (a n : ℕ) (after : List Block)
    → ((x : ℕ) → a + (join_next n after).0 ≤ x → k x ≡ m x)
    → Keeps m k (a + n) after
Keeps-join_next m k a n [] same = tt
Keeps-join_next m k a n (b ∷ bs) same = (
  λ used x u w. same x (ground arith),
  Keeps-Same m k (a + n + b.size) bs (λ x u w. same x (ground arith)),
)

-- What `free` makes of the heap: the list of blocks, and the bytes of the other blocks in use.
pub record Freed (m k : Mem) (before : List Block) (n : ℕ) (after : List Block) : Type 0 where
  pub heap : IsHeap k (free_blocks before n after)
  pub keeps_before : Keeps m k heap_start before
  pub keeps_after : Keeps m k (heap_start + total before + n) after

-- `free` of the pointer that `malloc` returned for a block in use clears the block's bit and joins it
-- with the free blocks behind and before it. The result is tiled by blocks again, and every other
-- block in use keeps all of its bytes.
pub free_lem :
    (m : Mem) (before : List Block) (n : ℕ) (after : List Block)
    → IsHeap m (before ++ (taken n ∷ after))
    → Freed m (free m (heap_start + total before + 4)) before n after
free_lem m before n after h = rw entered (record {
  heap = record { tiles = last.tiles; full = omega (arith, last.sizes, next.sizes, sizes) };
  keeps_before =
      Keeps-trans m next.memory _ heap_start before
        (Keeps-Same m next.memory heap_start before (λ x u w. next.below x w ∙ cleared x (inl w)))
        last.keeps;
  keeps_after =
      Keeps-trans m m1 _ (addr + n) after
        (Keeps-Same m m1 (addr + n) after (λ x u w. cleared x (inr u)))
        (Keeps-trans m1 next.memory _ (addr + n) after next.keeps
          (Keeps-join_next next.memory _ addr n after last.above));
})
  where
    addr : ℕ
    addr = heap_start + total before

    parts : Tiles m heap_start before × Tiles m addr (taken n ∷ after)
    parts = Tiles-split m heap_start before (taken n ∷ after) h.tiles

    sizes : total before + (n + total after) ≡ heap_size
    sizes = omega (arith, total-append before (taken n ∷ after), h.full)

    block : BlockAt m addr (taken n)
    block = parts.1.0

    m1 : Mem
    m1 = tagged m addr (vacant n)

    cleared : (x : ℕ) → (x < addr) ⊎ (addr + n ≤ x) → m1 x ≡ m x
    cleared = tagged_outside m addr (vacant n) block.large (omega (arith, sizes))

    next : JoinedNext m1 addr n after
    next =
        merge_next-JoinedNext m1 addr n after (omega arith)
          (tagged-BlockAt m addr (vacant n) block.large (omega (arith, sizes)) block.aligned)
          (Tiles-Same (addr + n) after parts.1.1 (λ x u w. cleared x (inr u)))
          (omega (arith, sizes))

    last :
        JoinedPrev next.memory
          (merge_prev next.memory addr (join_next n after).0)
          heap_start
          before
          addr
          (join_next n after).0
          (join_next n after).1
    last =
        any_before next.memory addr (join_next n after).0 before (join_next n after).1 refl
          (Tiles-Same heap_start before parts.0 (λ x u w. next.below x w ∙ cleared x (inl w)))
          next.here next.behind (omega (arith, next.sizes, sizes))

    entered : free m (addr + 4) ≡ merge_prev next.memory addr (join_next n after).0
    entered =
        unfold free release in
        let here : sub32 (addr + 4) 4 ≡ addr = omega (arith, sizes) in
        rw
          (
            here,
            size_field-head block (omega (arith, sizes)),
            is_free-head block (omega (arith, sizes)),
            next.result,
          )
          (ground (arith, block.large, sizes))
