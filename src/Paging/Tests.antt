-- ===== src/Paging/Tests.antt =====
-- The theorems on paging at concrete inputs: an empty directory in frame 1.
use noverix.Base.{
  bit_at, ℕ, ◌≡◌, ◌≢◌, ◌⊎◌, refl, arith, ◌==◌, if◌then◌else◌, none, some, pos, negsuc, inl, inr,
  bit_at, ◌%◌, ◌*◌,
}
use noverix.Memory.{load32, store32}
use noverix.Pfa.{alloc_from, alloc_frame, Pfa, test_bit}
use noverix.Paging.{
  create_table_in_dir, write_mapping, pte_idx, pde_idx, Paging, map_page_to_dir, map_page,
  unmap_page, unmap_page_from_dir, get_page_mapping,
}
use noverix.Paging.Entries.{word}
use noverix.Paging.Tree.{translate, IsTree}
use noverix.Paging.Mapping.{Mapped, Refused, map_page_to_dir_lem}
use noverix.Paging.Unmapping.{
  Unmapped, unmap_page_from_dir_lem, get_page_mapping-map_page, unmap_page-map_page,
}

abbrev small : Pfa
small = record { bitmap = λ i. if i == 0 then 3 else 0; total_frames = 40 }

abbrev fresh : Paging
fresh = record { mem = λ a. 0; pfa = small; kernel_page_dir = 4096 }

none_present : (i : ℕ) → word fresh.mem 1 i % 2 ≢ 1
unfolding load32
none_present i h = ground arith

fresh-IsTree : IsTree fresh.mem fresh.pfa 1
unfolding test_bit bit_at
fresh-IsTree = record {
  bytes = λ a. omega arith;
  valid = record { bytes = λ i. ground arith; fits = omega arith };
  zero_used = refl;
  dir_used = refl;
  table_used = λ i l h. absurd (none_present i h);
  not_dir = λ i l h. absurd (none_present i h);
  apart = λ i j l k h. absurd (none_present i h);
}

mapped : get_page_mapping ((map_page fresh 0x401234 0x5000 3).1) 0x401FFF ≡ (pos 0, some 0x5000)
unfolding get_page_mapping load32 map_page map_page_to_dir create_table_in_dir alloc_frame
    alloc_from test_bit bit_at write_mapping store32 pde_idx pte_idx
mapped = refl

unmapped :
    get_page_mapping ((unmap_page ((map_page fresh 0x401234 0x5000 3).1) 0x401000).1) 0x401FFF
    ≡ (negsuc 0, none)
unfolding get_page_mapping load32 unmap_page unmap_page_from_dir map_page map_page_to_dir
    create_table_in_dir alloc_frame alloc_from test_bit bit_at write_mapping store32 pde_idx pte_idx
unmapped = refl

abbrev one_mapped : Paging
one_mapped = (map_page_to_dir fresh 4096 0x401234 0x5000 3).1

one_mapped-IsTree : IsTree one_mapped.mem one_mapped.pfa 1
unfolding test_bit bit_at
one_mapped-IsTree =
    elim (map_page_to_dir_lem fresh 1 0x401234 0x5000 3 fresh-IsTree (omega arith) (omega arith)) [
      | inl m ↦ m.tree
      | inr r ↦ absurd (ground (arith, r.no_frame 2 (omega arith)))
    ]

map_page_to_dir_lem_example :
    Mapped fresh 1 0x401234 0x5000 (map_page_to_dir fresh (1 * 4096) 0x401234 0x5000 3)
    ⊎ Refused fresh 1 0x401234 (map_page_to_dir fresh (1 * 4096) 0x401234 0x5000 3)
map_page_to_dir_lem_example =
    map_page_to_dir_lem fresh 1 0x401234 0x5000 3 fresh-IsTree (omega arith) (omega arith)

unmap_page_from_dir_lem_example :
    Unmapped one_mapped 1 0x401000 (unmap_page_from_dir one_mapped (1 * 4096) 0x401000)
    ⊎ ((translate one_mapped.mem 1 0x401000 ≡ none)
        × (unmap_page_from_dir one_mapped (1 * 4096) 0x401000 ≡ (negsuc 0, one_mapped)))
unmap_page_from_dir_lem_example =
    unmap_page_from_dir_lem one_mapped 1 0x401000 one_mapped-IsTree (omega arith)

get_page_mapping-map_page_example :
    get_page_mapping ((map_page fresh 0x401234 0x5000 3).1) 0x401FFF ≡ (pos 0, some 0x5000)
unfolding map_page map_page_to_dir load32 create_table_in_dir alloc_frame alloc_from test_bit bit_at
    write_mapping
get_page_mapping-map_page_example =
    get_page_mapping-map_page fresh 1 0x401234 0x5000 3 0x401FFF fresh-IsTree refl (omega arith)
      (omega arith) refl refl

unmap_page-map_page_example :
    ((unmap_page ((map_page fresh 0x401234 0x5000 3).1) 0x401234).0 ≡ pos 0)
    × (translate (((unmap_page ((map_page fresh 0x401234 0x5000 3).1) 0x401234).1).mem) 1 0x7000
        ≡ translate fresh.mem 1 0x7000)
unfolding translate load32 map_page map_page_to_dir create_table_in_dir alloc_frame alloc_from
    test_bit bit_at write_mapping
unmap_page-map_page_example =
    unmap_page-map_page fresh 1 0x401234 0x5000 3 0x7000 fresh-IsTree refl (omega arith)
      (omega arith) refl refl (omega arith)
