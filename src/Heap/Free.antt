-- ===== src/Heap/Free.antt =====
-- `free` of kernel/memory/heap.c against the list of blocks: the block joins its free neighbours.
use noverix.Base.{
  ℕ, ◌+◌, ◌≤◌, ◌<◌, ◌≡◌, inl, inr, refl, arith, ltb, if◌then◌else◌, true, false, not, ◌&&◌, List,
  [], ◌∷◌, subst, ◌∙◌, Bool-cases, u32,
}
use noverix.Memory.{Mem}
use noverix.Heap.{heap_start, heap_size, heap_end, min_block, merge_next}
use noverix.Heap.Blocks.{
  Block, taken, vacant, total, BlockAt, Tiles, Same, Tiles-Same, size_field-head, is_free-head,
  tagged, tagged-BlockAt, tagged_outside,
}

-- The blocks in use keep every byte, their tags included.
abbrev pub Keeps : Mem → Mem → ℕ → List Block → Type 0
Keeps m n a [] = Unit {0}
Keeps m n a (b ∷ bs) = (b.used ≡ true → Same m n a (a + b.size)) × Keeps m n (a + b.size) bs

pub Keeps-Same : (m n : Mem) (a : ℕ) (bs : List Block) → Same m n a (a + total bs) → Keeps m n a bs
Keeps-Same m n a [] same = tt
Keeps-Same m n a (b ∷ bs) same = (
  λ used x p q. same x p (omega arith),
  Keeps-Same m n (a + b.size) bs (λ x p q. same x (omega arith) (omega arith)),
)

pub Keeps-trans :
    (m n k : Mem) (a : ℕ) (bs : List Block) → Keeps m n a bs → Keeps n k a bs → Keeps m k a bs
Keeps-trans m n k a [] s t = tt
Keeps-trans m n k a (b ∷ bs) s t =
    (λ used x p q. t.0 used x p q ∙ s.0 used x p q, Keeps-trans m n k (a + b.size) bs s.1 t.1)

-- A free block of `n` bytes together with the block behind it, if that is free.
abbrev pub join_next : ℕ → List Block → ℕ × List Block
join_next n [] = (n, [])
join_next n (b ∷ bs) = if b.used then (n, b ∷ bs) else (n + b.size, bs)

-- The same with the block before it, at address `a` if it is the only one. As in the code, a first
-- block of 12 bytes is not joined.
abbrev pub join_prev : ℕ → List Block → ℕ → List Block → List Block
join_prev a [] n after = vacant n ∷ after
join_prev a (q ∷ []) n after =
    if ltb (heap_start + min_block) (a + q.size) && not q.used
    then vacant (n + q.size) ∷ after
    else q ∷ vacant n ∷ after
join_prev a (q ∷ r ∷ rs) n after = q ∷ join_prev (a + q.size) (r ∷ rs) n after

abbrev pub free_blocks : List Block → ℕ → List Block → List Block
free_blocks before n after = join_prev heap_start before (join_next n after).0 (join_next n after).1

pub record JoinedNext (m : Mem) (a n : ℕ) (after : List Block) : Type 0 where
  pub memory : Mem
  pub result : merge_next m a n ≡ (memory, (join_next n after).0)
  pub here : BlockAt memory a (vacant (join_next n after).0)
  pub behind : Tiles memory (a + (join_next n after).0) (join_next n after).1
  pub sizes : (join_next n after).0 + total (join_next n after).1 ≡ n + total after
  pub below : (x : ℕ) → x < a → memory x ≡ m x
  pub keeps : Keeps m memory (a + n) after

pub merge_next-JoinedNext :
    (m : Mem) (a n : ℕ) (after : List Block)
    → heap_start ≤ a
    → BlockAt m a (vacant n)
    → Tiles m (a + n) after
    → a + n + total after ≡ heap_end
    → JoinedNext m a n after
merge_next-JoinedNext m a n [] low at t e = record {
  memory = m;
  result = unfold merge_next in ground arith;
  here = at;
  behind = tt;
  sizes = refl;
  below = λ x p. refl;
  keeps = tt;
}
merge_next-JoinedNext m a n (b ∷ bs) low at t e = elim (Bool-cases b.used) [
  | inl used ↦ rw used (record {
    memory = m;
    result = next_used used;
    here = at;
    behind = subst (λ c. Tiles m (a + n) (c ∷ bs)) (as_taken used) t;
    sizes = refl;
    below = λ x p. refl;
    keeps = Keeps-Same m m (a + n) (taken b.size ∷ bs) (λ x p q. refl);
  })
  | inr unused ↦
      let whole = vacant (n + b.size) in
      let same = tagged_outside m a whole (omega (arith, at.large)) (omega arith) in
      rw unused (record {
        memory = tagged m a whole;
        result = next_free unused;
        here =
            tagged-BlockAt m a whole (omega (arith, at.large)) (omega arith)
              (omega (arith, at.aligned, t.0.aligned));
        behind =
            subst (λ k. Tiles (tagged m a whole) k bs) (omega arith)
              (Tiles-Same (a + n + b.size) bs t.1 (λ x p q. same x (omega arith)));
        sizes = omega arith;
        below = λ x p. same x (inl p);
        keeps = (
          λ e. cc,
          Keeps-Same m (tagged m a whole) (a + n + b.size) bs (λ x p q. same x (omega arith)),
        );
      })
]
  where
    as_taken : b.used ≡ true → b ≡ taken b.size
    as_taken used = λ i. record { size = b.size; used = used i }

    small : b.size ≤ heap_size
    small = omega (arith, at.large)

    behind_at : u32 (a + n) ≡ a + n
    behind_at = omega arith

    joined_size : u32 (n + b.size) ≡ n + b.size
    joined_size = omega arith

    next_used : b.used ≡ true → merge_next m a n ≡ (m, n)
    next_used used =
        unfold merge_next in
        rw (behind_at, size_field-head t.0 small, is_free-head t.0 small, used) (ground arith)

    next_free : b.used ≡ false → merge_next m a n ≡ (tagged m a (vacant (n + b.size)), n + b.size)
    next_free unused =
        unfold merge_next in
        rw (behind_at, size_field-head t.0 small, is_free-head t.0 small, joined_size, unused)
          (ground (arith, at.large, t.0.large))
