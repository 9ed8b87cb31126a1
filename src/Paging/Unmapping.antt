-- ===== src/Paging/Unmapping.antt =====
-- `unmap_page_from_dir` and `get_page_mapping` of kernel/memory/paging.c against what the processor
-- makes of the tables.
use noverix.Base.{
  ℕ, ◌*◌, ◌/◌, ◌%◌, ◌^◌, ◌<◌, ◌≡◌, ◌≢◌, ◌⊎◌, inl, inr, refl, arith, ◌∙◌, ap, sym, subst, ◌==◌,
  Option, none, some, Bool-cases, ℤ, pos, negsuc,
}
use noverix.Memory.{Mem, load32-lt, IsBytes}
use noverix.Paging.{
  Paging, unmap_page_from_dir, get_page_mapping, map_page, unmap_page, map_page_to_dir,
}
use noverix.Paging.Entries.{word, pde_idx_lem, pte_idx_lem, present_bit, frame_bits}
use noverix.Paging.Tree.{
  translate, Present, IsTree, written-IsTree, translate-written, translate-written_ne,
}
use noverix.Paging.Mapping.{Mapped, Refused, map_page_to_dir_lem}

pub record Unmapped (s : Paging) (d virt : ℕ) (out : ℤ × Paging) : Type 0 where
  pub status : out.0 ≡ pos 0
  pub was_mapped : translate s.mem d virt ≢ none
  pub tree : IsTree ((out.1).mem) ((out.1).pfa) d
  pub here : (v : ℕ) → v / 4096 ≡ virt / 4096 → translate ((out.1).mem) d v ≡ none
  pub elsewhere :
      (v : ℕ)
      → v < 2 ^ 32
      → v / 4096 ≢ virt / 4096
      → translate ((out.1).mem) d v ≡ translate s.mem d v

-- With a directory that is a tree, `unmap_page_from_dir` takes the page of `virt` out of the tree
-- and keeps what every other page is mapped to; it returns -1 with the state as it was exactly when
-- the page is not mapped.
pub unmap_page_from_dir_lem :
    (s : Paging) (d virt : ℕ)
    → IsTree s.mem s.pfa d
    → virt < 2 ^ 32
    → Unmapped s d virt (unmap_page_from_dir s (d * 4096) virt)
      ⊎ ((translate s.mem d virt ≡ none) × (unmap_page_from_dir s (d * 4096) virt ≡ (negsuc 0, s)))
unfolding unmap_page_from_dir translate
unmap_page_from_dir_lem s d virt tree hv =
    let pde : ℕ = word s.mem d (virt / 2 ^ 22 % 1024) in
    let pte : ℕ = word s.mem (pde / 4096) (virt / 2 ^ 12 % 1024) in
    rw
      (
        pde_idx_lem virt,
        pte_idx_lem virt,
        frame_bits pde (load32-lt s.mem _ tree.bytes),
        present_bit pde,
        present_bit pte,
      )
      (elim (Bool-cases (pde % 2 == 0)) [
        | inl e ↦ inr (rw e (refl, refl))
        | inr e ↦ elim (Bool-cases (pte % 2 == 0)) [
          | inl f ↦ inr (rw (e, f) (refl, refl))
          | inr f ↦
              let present : Present s.mem d (virt / 2 ^ 22 % 1024) = ground arith in
              inl (
                rw (e, f)
                  (record {
                    status = refl;
                    was_mapped = λ z. ground arith;
                    tree =
                        written-IsTree s.mem s.pfa d (virt / 2 ^ 22 % 1024) (virt / 2 ^ 12 % 1024) 0
                          tree (omega arith) (omega arith) present;
                    here = λ v h.
                        translate-written s.mem s.pfa d (virt / 2 ^ 22 % 1024)
                          (virt / 2 ^ 12 % 1024) 0 tree (omega arith) (omega arith) present v
                          (omega arith) (omega arith) (omega arith);
                    elsewhere = λ v l n.
                        translate-written_ne s.mem s.pfa d (virt / 2 ^ 22 % 1024)
                          (virt / 2 ^ 12 % 1024) 0 tree (omega arith) (omega arith) present v
                          (ground arith);
                  }))
        ]
      ])

-- The page that an address is mapped to, as `get_page_mapping` gives it.
abbrev pub page_of : Option ℕ → ℤ × Option ℕ
page_of none = (negsuc 0, none)
page_of (some a) = (pos 0, some (a / 4096 * 4096))

-- `get_page_mapping` finds exactly what the processor makes of the kernel's directory.
pub get_page_mapping-translate :
    (s : Paging) (d virt : ℕ)
    → IsBytes s.mem
    → s.kernel_page_dir ≡ d * 4096
    → get_page_mapping s virt ≡ page_of (translate s.mem d virt)
unfolding get_page_mapping translate
get_page_mapping-translate s d virt bytes dir =
    let pde : ℕ = word s.mem d (virt / 2 ^ 22 % 1024) in
    let pte : ℕ = word s.mem (pde / 4096) (virt / 2 ^ 12 % 1024) in
    rw
      (
        dir,
        pde_idx_lem virt,
        pte_idx_lem virt,
        frame_bits pde (load32-lt s.mem _ bytes),
        present_bit pde,
        present_bit pte,
        frame_bits pte (load32-lt s.mem _ bytes),
      )
      (elim (Bool-cases (pde % 2 == 0)) [
        | inl e ↦ rw e refl
        | inr e ↦ elim (Bool-cases (pte % 2 == 0)) [
          | inl f ↦ rw (e, f) refl
          | inr f ↦ rw (e, f) (ap (λ (a : ℕ). (pos 0, some a)) (omega arith))
        ]
      ])

map_page-Mapped :
    (s : Paging) (d virt phys flags : ℕ)
    → IsTree s.mem s.pfa d
    → s.kernel_page_dir ≡ d * 4096
    → virt < 2 ^ 32
    → phys < 2 ^ 32
    → (map_page s virt phys flags).0 ≡ pos 0
    → Mapped s d virt phys (map_page s virt phys flags)
unfolding map_page
map_page-Mapped s d virt phys flags tree dir hv hp ok =
    elim (subst
      (λ k.
        Mapped s d virt phys (map_page_to_dir s k virt phys flags)
        ⊎ Refused s d virt (map_page_to_dir s k virt phys flags))
      (sym dir) (map_page_to_dir_lem s d virt phys flags tree hv hp)) [
        | inl m ↦ m
        | inr r ↦ absurd (pos_ne_negsuc (sym ok ∙ ap (λ o. o.0) r.failed))
      ]
  where
    pos_ne_negsuc : pos 0 ≢ negsuc 0
    pos_ne_negsuc h = ground arith

unmap_page-Unmapped :
    (s : Paging) (d virt : ℕ)
    → IsTree s.mem s.pfa d
    → s.kernel_page_dir ≡ d * 4096
    → virt < 2 ^ 32
    → translate s.mem d virt ≢ none
    → Unmapped s d virt (unmap_page s virt)
unfolding unmap_page
unmap_page-Unmapped s d virt tree dir hv some_page =
    subst (λ k. Unmapped s d virt (unmap_page_from_dir s k virt)) (sym dir)
      (elim (unmap_page_from_dir_lem s d virt tree hv) [
        | inl u ↦ u
        | inr n ↦ absurd (some_page (n.0))
      ])

-- On the kernel's directory: what `map_page` maps, `get_page_mapping` finds, at every address of
-- the page.
pub get_page_mapping-map_page :
    (s : Paging) (d virt phys flags v : ℕ)
    → IsTree s.mem s.pfa d
    → s.kernel_page_dir ≡ d * 4096
    → virt < 2 ^ 32
    → phys < 2 ^ 32
    → (map_page s virt phys flags).0 ≡ pos 0
    → v / 4096 ≡ virt / 4096
    → get_page_mapping ((map_page s virt phys flags).1) v ≡ (pos 0, some (phys / 4096 * 4096))
get_page_mapping-map_page s d virt phys flags v tree dir hv hp ok same =
    let m : Mapped s d virt phys (map_page s virt phys flags) =
      map_page-Mapped s d virt phys flags tree dir hv hp ok in
    get_page_mapping-translate ((map_page s virt phys flags).1) d v ((m.tree).bytes) (m.dir ∙ dir)
    ∙ ap page_of (m.here v same)
    ∙ ap (λ (a : ℕ). (pos 0, some a)) (omega arith)

same_page :
    (m : Mem) (d v w : ℕ) → v / 4096 ≡ w / 4096 → translate m d w ≡ none → translate m d v ≡ none
unfolding translate
same_page m d v w e f =
    let upper : v / 2 ^ 22 % 1024 ≡ w / 2 ^ 22 % 1024 = omega arith in
    let lower : v / 2 ^ 12 % 1024 ≡ w / 2 ^ 12 % 1024 = omega arith in
    rw (upper, lower) (ground arith)

-- A page that is mapped and unmapped again leaves every address mapped as it was before, if the
-- page was not mapped then.
pub unmap_page-map_page :
    (s : Paging) (d virt phys flags v : ℕ)
    → IsTree s.mem s.pfa d
    → s.kernel_page_dir ≡ d * 4096
    → virt < 2 ^ 32
    → phys < 2 ^ 32
    → translate s.mem d virt ≡ none
    → (map_page s virt phys flags).0 ≡ pos 0
    → v < 2 ^ 32
    → ((unmap_page ((map_page s virt phys flags).1) virt).0 ≡ pos 0)
      × (translate (((unmap_page ((map_page s virt phys flags).1) virt).1).mem) d v
          ≡ translate s.mem d v)
unmap_page-map_page s d virt phys flags v tree dir hv hp fresh ok l =
    let m : Mapped s d virt phys (map_page s virt phys flags) =
      map_page-Mapped s d virt phys flags tree dir hv hp ok in
    let there : translate (((map_page s virt phys flags).1).mem) d virt ≢ none =
      λ z. ground (arith, m.here virt refl) in
    let u : Unmapped ((map_page s virt phys flags).1) d virt
        (unmap_page ((map_page s virt phys flags).1) virt) =
      unmap_page-Unmapped ((map_page s virt phys flags).1) d virt m.tree (m.dir ∙ dir) hv there in
    (
      u.status,
      elim (Bool-cases (v / 4096 == virt / 4096)) [
        | inl e ↦ u.here v (ground arith) ∙ sym (unmapped_page v (ground arith))
        | inr e ↦ u.elsewhere v l (ground arith) ∙ m.elsewhere v l (ground arith)
      ],
    )
  where
    unmapped_page : (v : ℕ) → v / 4096 ≡ virt / 4096 → translate s.mem d v ≡ none
    unmapped_page v e = same_page s.mem d v virt e fresh
