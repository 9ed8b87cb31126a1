-- ===== src/Paging/Mapping.antt =====
-- `map_page_to_dir`, `unmap_page_from_dir` and `get_page_mapping` of kernel/memory/paging.c against
-- what the processor makes of the tables.
use noverix.Base.{
  ℕ, ◌+◌, ◌*◌, ◌/◌, ◌%◌, ◌^◌, ◌<◌, ◌≡◌, ◌≢◌, ◌⊎◌, inl, inr, refl, arith, ◌∙◌, ap, ◌==◌,
  if◌then◌else◌, some, false, Bool-cases, ℤ, pos, negsuc,
}
use noverix.Memory.{load32-lt}
use noverix.Pfa.{test_bit, alloc_frame}
use noverix.Pfa.Bitmap.{IsUsed, IsFree, IsValid}
use noverix.Pfa.Single.{alloc_frame_lem, alloc_frame-IsValid}
use noverix.Paging.{Paging, clear_entries, map_page_to_dir, write_mapping, create_table_in_dir}
use noverix.Paging.Entries.{
  word, set_word, pde_idx_lem, pte_idx_lem, present_bit, frame_bits, pde_value, pte_value,
  pte_value_frame, pte_value_present,
}
use noverix.Paging.Tree.{
  translate, Present, IsTree, written-IsTree, translate-written, translate-written_ne, grown-IsTree,
  grown-Present, translate-grown,
}

pub record Mapped (s : Paging) (d virt phys : ℕ) (out : ℤ × Paging) : Type 0 where
  pub status : out.0 ≡ pos 0
  pub tree : IsTree ((out.1).mem) ((out.1).pfa) d
  pub dir : (out.1).kernel_page_dir ≡ s.kernel_page_dir
  pub here :
      (v : ℕ)
      → v / 4096 ≡ virt / 4096
      → translate ((out.1).mem) d v ≡ some (phys / 4096 * 4096 + v % 4096)
  pub elsewhere :
      (v : ℕ)
      → v < 2 ^ 32
      → v / 4096 ≢ virt / 4096
      → translate ((out.1).mem) d v ≡ translate s.mem d v

pub record Refused (s : Paging) (d virt : ℕ) (out : ℤ × Paging) : Type 0 where
  pub failed : out ≡ (negsuc 0, s)
  pub no_table : word s.mem d (virt / 2 ^ 22 % 1024) % 2 ≡ 0
  pub no_frame : (g : ℕ) → g < (s.pfa).total_frames → IsUsed s.pfa g

write_mapping-Mapped :
    (s : Paging) (d virt phys flags : ℕ)
    → IsTree s.mem s.pfa d
    → virt < 2 ^ 32
    → phys < 2 ^ 32
    → Present s.mem d (virt / 2 ^ 22 % 1024)
    → Mapped s d virt phys (write_mapping s (d * 4096) virt phys flags)
unfolding write_mapping pte_value
write_mapping-Mapped s d virt phys flags tree hv hp present =
    let pde : ℕ = word s.mem d (virt / 2 ^ 22 % 1024) in
    let value : pte_value phys flags < 2 ^ 32 = omega (arith, pte_value_frame phys flags hp) in
    rw (pde_idx_lem virt, pte_idx_lem virt, frame_bits pde (load32-lt s.mem _ tree.bytes))
      (record {
        status = refl;
        tree =
            written-IsTree s.mem s.pfa d (virt / 2 ^ 22 % 1024) (virt / 2 ^ 12 % 1024)
              (pte_value phys flags) tree (omega arith) (omega arith) present;
        dir = refl;
        here = λ v e.
            translate-written s.mem s.pfa d (virt / 2 ^ 22 % 1024) (virt / 2 ^ 12 % 1024)
              (pte_value phys flags) tree (omega arith) (omega arith) present v (omega arith)
              (omega arith) value
            ∙ rw (pte_value_present phys flags, pte_value_frame phys flags hp) refl;
        elsewhere = λ v l n.
            translate-written_ne s.mem s.pfa d (virt / 2 ^ 22 % 1024) (virt / 2 ^ 12 % 1024)
              (pte_value phys flags) tree (omega arith) (omega arith) present v (ground arith);
      })

refused :
    (s : Paging) (dir virt flags : ℕ)
    → alloc_frame s.pfa ≡ (s.pfa, 0)
    → create_table_in_dir s dir virt flags ≡ (0, s)
unfolding create_table_in_dir
refused s dir virt flags e = rw e refl

-- The state after a new table in frame `f`, and what is mapped then.
module _ (s : Paging) (d virt phys flags f : ℕ) (tree : IsTree s.mem s.pfa d) (hv : virt < 2 ^ 32)
    (hp : phys < 2 ^ 32) (below : f < (s.pfa).total_frames) (free : IsFree s.pfa f)
    (result : (alloc_frame s.pfa).1 ≡ f * 4096)
    (bits : (g : ℕ) → test_bit (alloc_frame s.pfa).0 g ≡ (if f == g then 1 else test_bit s.pfa g))
    (no_table : word s.mem d (virt / 2 ^ 22 % 1024) % 2 ≡ 0) where
  abbrev with_table : Paging
  with_table = record s {
    pfa = (alloc_frame s.pfa).0;
    mem =
        set_word (clear_entries s.mem (f * 4096) 0 1024) d (virt / 2 ^ 22 % 1024)
          (pde_value f flags);
  }

  not_null : (f * 4096 == 0) ≡ false
  not_null =
      let used : f ≡ 0 → test_bit s.pfa f ≡ 1 = λ e. ap (test_bit s.pfa) e ∙ tree.zero_used in
      ground (arith, used)

  created : create_table_in_dir s (d * 4096) virt flags ≡ (f * 4096, with_table)
  unfolding create_table_in_dir pde_value
  created = rw (pde_idx_lem virt, result, not_null) refl

  low_frame : f < 2 ^ 18
  low_frame = omega (arith, below, (tree.valid).fits)

  new-IsValid : IsValid ((alloc_frame s.pfa).0)
  new-IsValid = (alloc_frame-IsValid s.pfa tree.valid).0

  new-IsTree : IsTree with_table.mem with_table.pfa d
  new-IsTree =
      grown-IsTree s.mem s.pfa ((alloc_frame s.pfa).0) d (virt / 2 ^ 22 % 1024) f flags tree
        (omega arith) free low_frame new-IsValid bits no_table

  new-Present : Present with_table.mem d (virt / 2 ^ 22 % 1024)
  new-Present =
      grown-Present s.mem s.pfa ((alloc_frame s.pfa).0) d (virt / 2 ^ 22 % 1024) f flags tree
        (omega arith) free low_frame new-IsValid bits no_table

  created-Mapped : Mapped s d virt phys (write_mapping with_table (d * 4096) virt phys flags)
  created-Mapped =
      let done : Mapped with_table d virt phys
          (write_mapping with_table (d * 4096) virt phys flags) =
        write_mapping-Mapped with_table d virt phys flags new-IsTree hv hp new-Present in
      record {
        status = done.status;
        tree = done.tree;
        dir = done.dir;
        here = done.here;
        elsewhere = λ v l n.
            done.elsewhere v l n
            ∙ translate-grown s.mem s.pfa ((alloc_frame s.pfa).0) d (virt / 2 ^ 22 % 1024) f flags
                tree (omega arith) free low_frame new-IsValid bits no_table v;
      }

-- With a directory that is a tree, `map_page_to_dir` maps the page of `virt` to the page of `phys`,
-- keeps what every other page is mapped to, and leaves a tree; or it returns -1 with the state as
-- it was, and then the directory has no table for the page and no frame is free.
pub map_page_to_dir_lem :
    (s : Paging) (d virt phys flags : ℕ)
    → IsTree s.mem s.pfa d
    → virt < 2 ^ 32
    → phys < 2 ^ 32
    → Mapped s d virt phys (map_page_to_dir s (d * 4096) virt phys flags)
      ⊎ Refused s d virt (map_page_to_dir s (d * 4096) virt phys flags)
unfolding map_page_to_dir
map_page_to_dir_lem s d virt phys flags tree hv hp =
    elim (Bool-cases (word s.mem d (virt / 2 ^ 22 % 1024) % 2 == 0)) [
      | inr e ↦ inl (
          rw (pde_idx_lem virt, present_bit (word s.mem d (virt / 2 ^ 22 % 1024)), e)
            (write_mapping-Mapped s d virt phys flags tree hv hp (ground arith)))
      | inl e ↦ elim (alloc_frame_lem s.pfa tree.valid) [
        | inr full ↦ inr (
            rw
              (
                pde_idx_lem virt,
                present_bit (word s.mem d (virt / 2 ^ 22 % 1024)),
                e,
                refused s (d * 4096) virt flags (full.1),
              )
              (record { failed = refl; no_table = ground arith; no_frame = full.0 }))
        | inl (f, below, free, lowest, result, bits) ↦
            let zero : word s.mem d (virt / 2 ^ 22 % 1024) % 2 ≡ 0 = ground arith in
            inl (
              rw
                (
                  pde_idx_lem virt,
                  present_bit (word s.mem d (virt / 2 ^ 22 % 1024)),
                  e,
                  created s d virt phys flags f tree hv hp below free result bits zero,
                  not_null s d virt phys flags f tree hv hp below free result bits zero,
                )
                (created-Mapped s d virt phys flags f tree hv hp below free result bits zero))
      ]
    ]
