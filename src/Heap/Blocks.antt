-- ===== src/Heap/Blocks.antt =====
-- The heap of kernel/memory/heap.c as a list of blocks that tile it, lowest first.
use noverix.Base.{
  ℕ, ◌+◌, ◌-◌, ◌*◌, ◌/◌, ◌%◌, ◌^◌, ◌≤◌, ◌<◌, ◌≡◌, arith, ◌==◌, if◌then◌else◌, Bool, true, false,
  List, [], ◌∷◌, ◌++◌, bit_or, bit_and_mask, bit_and_high, bit_or_above, u32, sub32, ◌⊎◌, not, ap,
  subst, ◌∙◌,
}
use noverix.Memory.{Mem, load32, store32, load32-store32, load32-store32_apart, store32_outside}
use noverix.Heap.{
  heap_start, heap_size, min_block, size_field, is_free, align_up, block_need, set_footer,
}

pub record Block : Type 0 where
  pub size : ℕ
  pub used : Bool

abbrev pub taken : ℕ → Block
taken n = record { size = n; used = true }

abbrev pub vacant : ℕ → Block
vacant n = record { size = n; used = false }

-- The header word of a block.
abbrev pub header : Block → ℕ
header b = if b.used then b.size + 1 else b.size

abbrev pub total : List Block → ℕ
total [] = 0
total (b ∷ bs) = b.size + total bs

-- One block at address `a`: its two tags, and a size that is a multiple of 4 and not too small.
pub record BlockAt (m : Mem) (a : ℕ) (b : Block) : Type 0 where
  pub head : load32 m a ≡ header b
  pub foot : load32 m (a + b.size - 4) ≡ b.size
  pub large : min_block ≤ b.size
  pub aligned : b.size % 4 ≡ 0

-- The blocks stand one behind the other from `a` on.
abbrev pub Tiles : Mem → ℕ → List Block → Type 0
Tiles m a [] = Unit {0}
Tiles m a (b ∷ bs) = BlockAt m a b × Tiles m (a + b.size) bs

pub record IsHeap (m : Mem) (bs : List Block) : Type 0 where
  pub tiles : Tiles m heap_start bs
  pub full : total bs ≡ heap_size

-- Nothing changes from `lo` to `hi`.
abbrev pub Same : Mem → Mem → ℕ → ℕ → Type 0
Same m n lo hi = (x : ℕ) → lo ≤ x → x < hi → n x ≡ m x

pub load32-Same :
    {m n : Mem} {lo hi : ℕ} (a : ℕ) → Same m n lo hi → lo ≤ a → a + 4 ≤ hi → load32 n a ≡ load32 m a
unfolding load32
load32-Same a same p q = ground (
  arith,
  same a (omega arith) (omega arith),
  same (a + 1) (omega arith) (omega arith),
  same (a + 2) (omega arith) (omega arith),
  same (a + 3) (omega arith) (omega arith),
)

pub BlockAt-Same :
    {m n : Mem} {a : ℕ} {b : Block} → BlockAt m a b → Same m n a (a + b.size) → BlockAt n a b
BlockAt-Same {m} {n} {a} {b} at same = record {
  head = load32-Same a same (omega arith) (omega (arith, at.large)) ∙ at.head;
  foot =
      load32-Same (a + b.size - 4) same (omega (arith, at.large)) (omega (arith, at.large))
      ∙ at.foot;
  large = at.large;
  aligned = at.aligned;
}

pub Tiles-Same :
    {m n : Mem} (a : ℕ) (bs : List Block) → Tiles m a bs → Same m n a (a + total bs) → Tiles n a bs
Tiles-Same a [] t same = tt
Tiles-Same a (b ∷ bs) t same = (
  BlockAt-Same t.0 (λ x p q. same x p (omega arith)),
  Tiles-Same (a + b.size) bs t.1 (λ x p q. same x (omega arith) (omega arith)),
)

pub total-append : (xs ys : List Block) → total (xs ++ ys) ≡ total xs + total ys
total-append [] ys = omega arith
total-append (x ∷ xs) ys = omega (arith, total-append xs ys)

pub Tiles-append :
    (m : Mem) (a : ℕ) (xs ys : List Block)
    → Tiles m a xs
    → Tiles m (a + total xs) ys
    → Tiles m a (xs ++ ys)
Tiles-append m a [] ys s t = subst (λ k. Tiles m k ys) (omega arith) t
Tiles-append m a (x ∷ xs) ys s t =
    (s.0, Tiles-append m (a + x.size) xs ys s.1 (subst (λ k. Tiles m k ys) (omega arith) t))

pub Tiles-split :
    (m : Mem) (a : ℕ) (xs ys : List Block)
    → Tiles m a (xs ++ ys)
    → Tiles m a xs × Tiles m (a + total xs) ys
Tiles-split m a [] ys t = (tt, subst (λ k. Tiles m k ys) (omega arith) t)
Tiles-split m a (x ∷ xs) ys t =
    let (s, r) = Tiles-split m (a + x.size) xs ys t.1 in
    ((t.0, s), subst (λ k. Tiles m k ys) (omega arith) r)

-- What the code reads off a header.
pub size_field-eq : (h : ℕ) → h < 2 ^ 32 → size_field h ≡ h / 2 * 2
unfolding size_field
size_field-eq h lt = bit_and_high 1 31 h (omega arith)

pub is_free-eq : (h : ℕ) → is_free h ≡ (h % 2 == 0)
unfolding is_free
is_free-eq h = ap (λ k. k == 0) (bit_and_mask 1 h)

pub bit_or-one : (n : ℕ) → n % 2 ≡ 0 → bit_or n 1 ≡ n + 1
bit_or-one n h =
    let even : n ≡ n / 2 * 2 ^ 1 + 0 = omega arith in
    let low : bit_or (n / 2 * 2 ^ 1 + 0) 1 ≡ n / 2 * 2 ^ 1 + bit_or 0 1 =
      bit_or_above 1 (n / 2) 0 1 (omega arith) (omega arith) in
    ap (λ k. bit_or k 1) even ∙ low ∙ omega arith

pub align_up-eq : (size : ℕ) → align_up size ≡ (size + 3) % 2 ^ 32 / 4 * 4
unfolding align_up
align_up-eq size = bit_and_high 2 30 (u32 (size + 3)) (omega arith)

-- The need of a request that `malloc` does not refuse: the request rounded up, and the two tags.
pub block_need-eq :
    (size : ℕ) → 0 < size → size ≤ heap_size → block_need size ≡ (size + 3) / 4 * 4 + 8
unfolding block_need
block_need-eq size pos h = ground (arith, align_up-eq size)

module _ {m : Mem} {a : ℕ} {b : Block} (at : BlockAt m a b) (small : b.size ≤ heap_size) where
  pub size_field-head : size_field (load32 m a) ≡ b.size
  size_field-head = ground (arith, at.head, at.aligned, size_field-eq (load32 m a))

  pub is_free-head : is_free (load32 m a) ≡ not b.used
  is_free-head = ground (arith, at.head, at.aligned, is_free-eq (load32 m a))

-- Writing the two tags makes a block, and touches nothing outside it.
abbrev pub tagged : Mem → ℕ → Block → Mem
tagged m a b = set_footer (store32 m a (header b)) a b.size

module _ (m : Mem) (a : ℕ) (b : Block) (large : min_block ≤ b.size)
    (fits : a + b.size < 2 ^ 32) where
  footer_place : sub32 (a + b.size) 4 ≡ a + b.size - 4
  footer_place = omega arith

  pub tagged-BlockAt : b.size % 4 ≡ 0 → BlockAt (tagged m a b) a b
  unfolding set_footer
  tagged-BlockAt aligned = record {
    head =
        load32-store32_apart (store32 m a (header b)) (sub32 (a + b.size) 4) b.size a (omega arith)
        ∙ load32-store32 m a (header b) (ground arith);
    foot =
        rw footer_place
          (load32-store32 (store32 m a (header b)) (a + b.size - 4) b.size (omega arith));
    large = large;
    aligned = aligned;
  }

  pub tagged_outside : (x : ℕ) → (x < a) ⊎ (a + b.size ≤ x) → tagged m a b x ≡ m x
  unfolding set_footer
  tagged_outside x out =
      store32_outside (store32 m a (header b)) (sub32 (a + b.size) 4) b.size x (omega arith)
      ∙ store32_outside m a (header b) x (omega arith)

-- One block is cut up, and nothing outside it changes.
pub replace-IsHeap :
    (m k : Mem) (before : List Block) (b : Block) (mid after : List Block)
    → IsHeap m (before ++ (b ∷ after))
    → Tiles k (heap_start + total before) mid
    → total mid ≡ b.size
    → ((x : ℕ)
        → (x < heap_start + total before) ⊎ (heap_start + total before + b.size ≤ x)
        → k x ≡ m x)
    → IsHeap k (before ++ (mid ++ after))
replace-IsHeap m k before b mid after h made cut same = record {
  tiles =
      Tiles-append k heap_start before (mid ++ after)
        (Tiles-Same heap_start before parts.0 (λ x u w. same x (omega arith)))
        (Tiles-append k (heap_start + total before) mid after made (
          subst (λ a. Tiles k a after) (omega (arith, cut))
            (Tiles-Same (heap_start + total before + b.size) after parts.1.1
              (λ x u w. same x (omega arith)))));
  full = omega (
    arith,
    total-append before (mid ++ after),
    total-append mid after,
    total-append before (b ∷ after),
    cut,
    h.full,
  );
}
  where
    parts : Tiles m heap_start before × Tiles m (heap_start + total before) (b ∷ after)
    parts = Tiles-split m heap_start before (b ∷ after) h.tiles
