-- ===== src/Heap/Realloc.antt =====
-- `realloc` of kernel/memory/heap.c: in place, and where the size wraps.
use noverix.Base.{
  ℕ, ◌+◌, ◌-◌, ◌*◌, ◌/◌, ◌%◌, ◌^◌, ◌≤◌, ◌<◌, ◌≡◌, ◌⊎◌, inl, inr, refl, arith, leb, true, List, ◌∷◌,
  ◌++◌, ◌∙◌, ap, Bool-cases, sub32, bit_or,
}
use noverix.Memory.{Mem, store32, store32_outside}
use noverix.Heap.{
  heap_start, heap_size, min_block, block_need, set_footer, place, shrink, returned, realloc,
}
use noverix.Heap.Blocks.{
  Block, taken, total, BlockAt, Tiles, IsHeap, total-append, replace-IsHeap, Tiles-split,
  align_up-eq, block_need-eq, size_field-head, is_free-head,
}
use noverix.Heap.Malloc.{split, place-split, total-split}

-- The pointer names the block of `n` bytes, in use, behind the blocks `before`.
abbrev pub pointer : List Block → ℕ
pointer before = heap_start + total before + 4

module _ (m : Mem) (before : List Block) (n : ℕ) (after : List Block)
    (h : IsHeap m (before ++ (taken n ∷ after))) where
  addr : ℕ
  addr = heap_start + total before

  parts : Tiles m heap_start before × Tiles m (heap_start + total before) (taken n ∷ after)
  parts = Tiles-split m heap_start before (taken n ∷ after) h.tiles

  sizes : total before + (n + total after) ≡ heap_size
  sizes = omega (arith, total-append before (taken n ∷ after), h.full)

  -- Where the need is no more than the block has, `realloc` works in place.
  realloc-in_place :
      (size : ℕ)
      → 0 < size
      → block_need size ≤ n
      → realloc m (pointer before) size
        ≡ returned (shrink m (heap_start + total before) n (block_need size)) (pointer before)
  unfolding realloc
  realloc-in_place size pos fits =
      let block : BlockAt m (heap_start + total before) (taken n) = parts.1.0 in
      let here : sub32 (pointer before) 4 ≡ heap_start + total before = omega (arith, sizes) in
      rw
        (
          here,
          size_field-head block (omega (arith, sizes)),
          is_free-head block (omega (arith, sizes)),
        )
        (ground (arith, sizes, block.large))

  -- The tags that `shrink` writes stand outside the bytes that the client keeps.
  shrink-keeps :
      (need x : ℕ)
      → min_block ≤ need
      → need ≤ n
      → heap_start + total before + 4 ≤ x
      → x < heap_start + total before + need - 4
      → shrink m (heap_start + total before) n need x ≡ m x
  unfolding shrink set_footer
  shrink-keeps need x large fits lo hi = elim (Bool-cases (leb min_block (n - need))) [
    | inl enough ↦
        let a = heap_start + total before in
        let m1 = store32 m a (bit_or need 1) in
        let m2 = store32 m1 (sub32 (a + need) 4) need in
        let m3 = store32 m2 (a + need) (n - need) in
        rw enough (
          store32_outside m3 (sub32 (a + need + (n - need)) 4) (n - need) x (omega (arith, sizes))
          ∙ store32_outside m2 (a + need) (n - need) x (omega (arith, sizes))
          ∙ store32_outside m1 (sub32 (a + need) 4) need x (omega (arith, sizes))
          ∙ store32_outside m a (bit_or need 1) x (omega (arith, sizes)))
    | inr little ↦ rw little
  ]

  shrink-place :
      (need : ℕ)
      → leb min_block (n - need) ≡ true
      → shrink m (heap_start + total before) n need ≡ place m (heap_start + total before) n need
  unfolding shrink place
  shrink-place need enough = rw enough

  -- What `shrink` makes of the block.
  shrink-IsHeap :
      (need : ℕ)
      → need % 4 ≡ 0
      → min_block ≤ need
      → need ≤ n
      → IsHeap (shrink m (heap_start + total before) n need) (before ++ (split need n ++ after))
        × ((x : ℕ)
            → (x < heap_start + total before) ⊎ (heap_start + total before + n ≤ x)
            → shrink m (heap_start + total before) n need x ≡ m x)
  shrink-IsHeap need need4 large fits = elim (Bool-cases (leb min_block (n - need))) [
    | inl enough ↦
        let (made, same) =
          place-split m (heap_start + total before) n need need4 parts.1.0.aligned large fits
            (omega (arith, sizes)) in
        rw (shrink-place need enough) (
          replace-IsHeap m (place m (heap_start + total before) n need) before (taken n)
              (split need n) after h made (total-split need n fits) same,
          same,
        )
    | inr little ↦
        let stays : shrink m (heap_start + total before) n need ≡ m = unfold shrink in rw little in
        rw (stays, little) (h, λ x out. refl)
  ]

  -- Resizing a block in use to a size that it can hold works in place: the pointer stays, what is left
  -- over is split off if that makes a block, the bytes of the new size are kept, and so is all
  -- memory outside the block.
  pub realloc_shrinks :
      (size : ℕ)
      → 0 < size
      → size ≤ heap_size
      → block_need size ≤ n
      → (k : Mem) × (realloc m (pointer before) size ≡ returned k (pointer before))
        × IsHeap k (before ++ (split (block_need size) n ++ after))
        × ((i : ℕ) → i < size → k (pointer before + i) ≡ m (pointer before + i))
        × ((x : ℕ)
            → (x < heap_start + total before) ⊎ (heap_start + total before + n ≤ x)
            → k x ≡ m x)
  realloc_shrinks size pos small fits =
      let need_is : block_need size ≡ (size + 3) / 4 * 4 + 8 = block_need-eq size pos small in
      let (heap, same) =
        shrink-IsHeap (block_need size) (omega (arith, need_is)) (omega (arith, need_is)) fits in
      (
        shrink m (heap_start + total before) n (block_need size),
        realloc-in_place size pos fits,
        heap,
        λ i low.
            shrink-keeps (block_need size) (pointer before + i) (omega (arith, need_is)) fits
              (omega arith) (omega (arith, need_is)),
        same,
      )

  -- A size within 11 of 2^32 goes round when it is rounded up and the tags are added: `realloc`
  -- reports success with the old pointer, although the block is smaller than the size asked for, and
  -- cuts the block in use to 12 bytes, with the rest split off as a free block if it has 12 bytes.
  -- Memory outside the block is kept.
  pub realloc_wraps :
      (size : ℕ)
      → 2 ^ 32 ≤ size + 11
      → size < 2 ^ 32
      → (n < size)
        × (k : Mem) × (realloc m (pointer before) size ≡ returned k (pointer before))
        × IsHeap k (before ++ (split 12 n ++ after))
        × ((x : ℕ)
            → (x < heap_start + total before) ⊎ (heap_start + total before + n ≤ x)
            → k x ≡ m x)
  realloc_wraps size low high =
      let (heap, same) = shrink-IsHeap 12 refl (omega arith) (parts.1.0.large) in
      (
        omega (arith, sizes),
        shrink m (heap_start + total before) n 12,
        realloc-in_place size (omega arith) (omega (arith, tiny, parts.1.0.large))
            ∙ ap (λ need. returned (shrink m (heap_start + total before) n need) (pointer before))
                tiny,
        heap,
        same,
      )
    where
      tiny : block_need size ≡ 12
      tiny = unfold block_need in ground (arith, align_up-eq size)
