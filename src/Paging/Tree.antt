-- ===== src/Paging/Tree.antt =====
-- Page directories of kernel/memory/paging.c as trees: what an address is mapped to, and what the
-- two kinds of writes to the tree change.
use noverix.Base.{
  ℕ, ◌+◌, ◌*◌, ◌/◌, ◌%◌, ◌^◌, ◌<◌, ◌≡◌, ◌≢◌, ◌⊎◌, inl, inr, refl, arith, ◌∙◌, ap, sym, subst, ◌==◌,
  if◌then◌else◌, Option, none, some, Bool-cases,
}
use noverix.Memory.{Mem, IsBytes, store32-IsBytes}
use noverix.Pfa.{Pfa, test_bit}
use noverix.Pfa.Bitmap.{IsValid, IsUsed, IsFree}
use noverix.Paging.{clear_entries}
use noverix.Paging.Entries.{
  word, set_word, word-set_word, word-set_word_ne, Cleared, clear_entries-Cleared, pde_value,
  pde_value_frame, pde_value_present,
}

-- What the processor makes of an address: none is a page fault.
unfoldable pub translate : Mem → (d virt : ℕ) → Option ℕ
translate m d virt =
    let pde = word m d (virt / 2 ^ 22 % 1024) in
    let pte = word m (pde / 4096) (virt / 2 ^ 12 % 1024) in
    if pde % 2 == 0
    then none
    else if pte % 2 == 0
    then none
    else some (pte / 4096 * 4096 + virt % 4096)

abbrev pub Present : Mem → (d i : ℕ) → Type 0
Present m d i = word m d i % 2 ≡ 1

-- The directory in frame `d` and its tables are different frames in use, and so is frame 0.
pub record IsTree (m : Mem) (p : Pfa) (d : ℕ) : Type 0 where
  pub bytes : IsBytes m
  pub valid : IsValid p
  pub zero_used : IsUsed p 0
  pub dir_used : IsUsed p d
  pub table_used : (i : ℕ) → i < 1024 → Present m d i → IsUsed p (word m d i / 4096)
  pub not_dir : (i : ℕ) → i < 1024 → Present m d i → word m d i / 4096 ≢ d
  pub apart :
      (i j : ℕ)
      → i < 1024
      → j < 1024
      → Present m d i
      → Present m d j
      → word m d i / 4096 ≡ word m d j / 4096
      → i ≡ j

-- A write to entry `k` of the table behind entry `i` of the directory.
module _ (m : Mem) (p : Pfa) (d i k v : ℕ) (tree : IsTree m p d) (hi : i < 1024) (hk : k < 1024)
    (here : Present m d i) where
  abbrev written : Mem
  written = set_word m (word m d i / 4096) k v

  dir_kept : (j : ℕ) → j < 1024 → word written d j ≡ word m d j
  dir_kept j hj =
      word-set_word_ne m (word m d i / 4096) k v d j hk hj (inl (tree.not_dir i hi here))

  pub written-IsTree : IsTree written p d
  written-IsTree = record {
    bytes = store32-IsBytes m _ v tree.bytes;
    valid = tree.valid;
    zero_used = tree.zero_used;
    dir_used = tree.dir_used;
    table_used = λ j hj. rw (dir_kept j hj) (tree.table_used j hj);
    not_dir = λ j hj. rw (dir_kept j hj) (tree.not_dir j hj);
    apart = λ j l hj hl. rw (dir_kept j hj, dir_kept l hl) (tree.apart j l hj hl);
  }

  -- The page that the entry stands for.
  pub translate-written :
      (virt : ℕ)
      → virt / 2 ^ 22 % 1024 ≡ i
      → virt / 2 ^ 12 % 1024 ≡ k
      → v < 2 ^ 32
      → translate written d virt
        ≡ (if v % 2 == 0 then none else some (v / 4096 * 4096 + virt % 4096))
  unfolding translate
  translate-written virt ei ek hv =
      rw (ei, ek, dir_kept i hi, word-set_word m (word m d i / 4096) k v hv) (ground arith)

  -- Every other page.
  pub translate-written_ne :
      (virt : ℕ)
      → (virt / 2 ^ 22 % 1024 ≢ i) ⊎ (virt / 2 ^ 12 % 1024 ≢ k)
      → translate written d virt ≡ translate m d virt
  unfolding translate
  translate-written_ne virt ne =
      rw (dir_kept (virt / 2 ^ 22 % 1024) (omega arith))
        (elim (Bool-cases (word m d (virt / 2 ^ 22 % 1024) % 2 == 0)) [
          | inl e ↦ rw e refl
          | inr e ↦
              let other : Present m d (virt / 2 ^ 22 % 1024) = ground arith in
              let same : word written (word m d (virt / 2 ^ 22 % 1024) / 4096)
                    (virt / 2 ^ 12 % 1024)
                  ≡ word m (word m d (virt / 2 ^ 22 % 1024) / 4096) (virt / 2 ^ 12 % 1024) =
                word-set_word_ne m (word m d i / 4096) k v (word m d (virt / 2 ^ 22 % 1024) / 4096)
                  (virt / 2 ^ 12 % 1024) hk (omega arith)
                  (elim ne [
                    | inl n ↦ inl (λ t.
                        n (sym (tree.apart i (virt / 2 ^ 22 % 1024) hi (omega arith) here other t)))
                    | inr n ↦ inr (λ t. n (sym t))
                  ]) in
              rw same refl
        ])

-- A free frame `f` becomes the empty table behind entry `i` of the directory.
module _ (m : Mem) (p q : Pfa) (d i f flags : ℕ) (tree : IsTree m p d) (hi : i < 1024)
    (free : IsFree p f) (low : f < 2 ^ 18) (valid : IsValid q)
    (taken : (g : ℕ) → test_bit q g ≡ (if f == g then 1 else test_bit p g))
    (absent : word m d i % 2 ≡ 0) where
  abbrev pub grown : Mem
  grown = set_word (clear_entries m (f * 4096) 0 1024) d i (pde_value f flags)

  clean : Cleared m (clear_entries m (f * 4096) 0 1024) f 0
  clean = clear_entries-Cleared m f 0 1024 refl

  not_d : f ≢ d
  not_d e = ground (arith, tree.dir_used, ap (test_bit p) e)

  grown_here : word grown d i ≡ pde_value f flags
  grown_here = word-set_word _ d i (pde_value f flags) (omega (arith, pde_value_frame f flags))

  grown_dir : (j : ℕ) → j < 1024 → i ≢ j → word grown d j ≡ word m d j
  grown_dir j hj n =
      word-set_word_ne _ d i (pde_value f flags) d j hi hj (inr n)
      ∙ clean.same_pages d j (λ e. not_d (sym e)) hj

  grown_new : (j : ℕ) → j < 1024 → word grown f j ≡ 0
  grown_new j hj =
      word-set_word_ne _ d i (pde_value f flags) f j hi hj (inl (λ e. not_d (sym e)))
      ∙ clean.zero_from j (omega arith) hj

  grown_other : (t j : ℕ) → j < 1024 → t ≢ f → t ≢ d → word grown t j ≡ word m t j
  grown_other t j hj nf nd =
      word-set_word_ne _ d i (pde_value f flags) t j hi hj (inl (λ e. nd (sym e)))
      ∙ clean.same_pages t j nf hj

  not_table : (j : ℕ) → j < 1024 → Present m d j → word m d j / 4096 ≢ f
  not_table j hj h e = ground (arith, tree.table_used j hj h, ap (test_bit p) e)

  abbrev NewOrOld : ℕ → Type 0
  NewOrOld j =
      ((i ≡ j) × (word grown d j / 4096 ≡ f))
      ⊎ ((i ≢ j) × Present m d j × (word grown d j ≡ word m d j))

  new_or_old : (j : ℕ) → j < 1024 → Present grown d j → NewOrOld j
  new_or_old j hj h = elim (Bool-cases (i == j)) [
    | inl e ↦
        let same : i ≡ j = ground arith in
        inl (
          same,
          subst (λ n. word grown d n / 4096 ≡ f) same (rw grown_here (pde_value_frame f flags)),
        )
    | inr e ↦
        let differ : i ≢ j = ground arith in
        inr (differ, subst (λ w. w % 2 ≡ 1) (grown_dir j hj differ) h, grown_dir j hj differ)
  ]

  pub grown-IsTree : IsTree grown q d
  grown-IsTree = record {
    bytes = store32-IsBytes _ _ _ (clean.bytes tree.bytes);
    valid = valid;
    zero_used = ground (arith, taken 0, tree.zero_used);
    dir_used = ground (arith, taken d, tree.dir_used);
    table_used = λ j hj h. elim (new_or_old j hj h) [
      | inl n ↦ ground (arith, taken f, ap (test_bit q) (n.1))
      | inr o ↦ rw (o.2) (ground (arith, taken (word m d j / 4096), tree.table_used j hj (o.1)))
    ];
    not_dir = λ j hj h. elim (new_or_old j hj h) [
      | inl n ↦ λ e. not_d (sym (n.1) ∙ e)
      | inr o ↦ rw (o.2) (tree.not_dir j hj (o.1))
    ];
    apart = λ j l hj hl hp hr e. one_table j l hj hl e (new_or_old j hj hp) (new_or_old l hl hr);
  }
    where
      one_table :
          (j l : ℕ)
          → j < 1024
          → l < 1024
          → word grown d j / 4096 ≡ word grown d l / 4096
          → NewOrOld j
          → NewOrOld l
          → j ≡ l
      one_table j l hj hl e (inl n) (inl o) = sym (n.0) ∙ o.0
      one_table j l hj hl e (inl n) (inr o) =
          absurd (not_table l hl (o.1) (ap (λ w. w / 4096) (sym (o.2)) ∙ sym e ∙ n.1))
      one_table j l hj hl e (inr n) (inl o) =
          absurd (not_table j hj (n.1) (ap (λ w. w / 4096) (sym (n.2)) ∙ e ∙ o.1))
      one_table j l hj hl e (inr n) (inr o) =
          tree.apart j l hj hl (n.1) (o.1)
            (ap (λ w. w / 4096) (sym (n.2)) ∙ e ∙ ap (λ w. w / 4096) (o.2))

  pub grown-Present : Present grown d i
  grown-Present = rw grown_here (pde_value_present f flags)

  -- The new table maps nothing, and the other tables are as before.
  pub translate-grown : (virt : ℕ) → translate grown d virt ≡ translate m d virt
  unfolding translate
  translate-grown virt = elim (Bool-cases (i == virt / 2 ^ 22 % 1024)) [
    | inl e ↦
        let here : i ≡ virt / 2 ^ 22 % 1024 = ground arith in
        rw
          (
            sym here,
            grown_here,
            pde_value_frame f flags,
            pde_value_present f flags,
            absent,
            grown_new (virt / 2 ^ 12 % 1024) (omega arith),
          )
          refl
    | inr e ↦
        let away : i ≢ virt / 2 ^ 22 % 1024 = ground arith in
        rw (grown_dir (virt / 2 ^ 22 % 1024) (omega arith) away)
          (elim (Bool-cases (word m d (virt / 2 ^ 22 % 1024) % 2 == 0)) [
            | inl z ↦ rw z refl
            | inr z ↦
                let other : Present m d (virt / 2 ^ 22 % 1024) = ground arith in
                rw
                  (grown_other (word m d (virt / 2 ^ 22 % 1024) / 4096) (virt / 2 ^ 12 % 1024)
                    (omega arith) (not_table (virt / 2 ^ 22 % 1024) (omega arith) other)
                    (tree.not_dir (virt / 2 ^ 22 % 1024) (omega arith) other))
                  refl
          ])
  ]
