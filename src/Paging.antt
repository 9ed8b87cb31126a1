-- ===== src/Paging.antt =====
-- kernel/memory/paging.c: page directories and page tables in memory, taken from the page frame
-- allocator. Tables are read and written at their physical addresses, as under the identity map
-- that the kernel runs on. `invlpg`, the TLB shootdown and log lines are left out; the functions
-- that take `paging_lock` are one step.
pub mod Entries
pub mod Tree
pub mod Mapping
pub mod Unmapping
mod Tests
use noverix.Base.{
  ℕ, zero, suc, ◌+◌, ◌*◌, ◌/◌, ◌^◌, ◌==◌, if◌then◌else◌, bit_and, bit_or, ℤ, pos, negsuc, Option,
  none, some,
}
use noverix.Memory.{Mem, load32, store32}
use noverix.Pfa.{Pfa, alloc_frame}

pub record Paging : Type 0 where
  pub mem : Mem
  pub pfa : Pfa
  pub kernel_page_dir : ℕ

abbrev pub page_present : ℕ
page_present = 1

abbrev pub page_write : ℕ
page_write = 2

abbrev pub page_user : ℕ
page_user = 4

-- PDE_IDX and PTE_IDX
unfoldable pub pde_idx : ℕ → ℕ
pde_idx virt = bit_and (virt / 2 ^ 22) 0x3FF

unfoldable pub pte_idx : ℕ → ℕ
pte_idx virt = bit_and (virt / 2 ^ 12) 0x3FF

-- `table[i]` of a directory or a table, and a write to it.
abbrev pub entry : Mem → (table i : ℕ) → ℕ
entry m table i = load32 m (table + 4 * i)

abbrev pub set_entry : Mem → (table i v : ℕ) → Mem
set_entry m table i v = store32 m (table + 4 * i) v

-- `for (i = …; …; i++) table[i] = 0`, with the rounds that are left.
unfoldable pub clear_entries : Mem → (table i n : ℕ) → Mem
clear_entries m table i zero = m
clear_entries m table i (suc n) = clear_entries (set_entry m table i 0) table (i + 1) n

-- The new table's address, or 0.
unfoldable pub create_table_in_dir : Paging → (dir virt flags : ℕ) → ℕ × Paging
create_table_in_dir s dir virt flags =
    let taken = alloc_frame s.pfa in
    let table = taken.1 in
    let value = bit_or (bit_or (bit_or table page_present) page_write) (bit_and flags page_user) in
    if table == 0 then (0, record s { pfa = taken.0 }) else (
      table,
      record s {
        pfa = taken.0;
        mem = set_entry (clear_entries s.mem table 0 1024) dir (pde_idx virt) value;
      },
    )

abbrev pub table_mask : ℕ
table_mask = 0xFFFFF000

-- The end of `map_page_to_dir`: the entry of the table that the directory has.
unfoldable pub write_mapping : Paging → (dir virt phys flags : ℕ) → ℤ × Paging
write_mapping s dir virt phys flags =
    let table = bit_and (entry s.mem dir (pde_idx virt)) table_mask in
    let value = bit_or (bit_or (bit_and phys table_mask) page_present) (bit_and flags 7) in
    (pos 0, record s { mem = set_entry s.mem table (pte_idx virt) value })

unfoldable pub map_page_to_dir : Paging → (dir virt phys flags : ℕ) → ℤ × Paging
map_page_to_dir s dir virt phys flags =
    let created = create_table_in_dir s dir virt flags in
    if bit_and (entry s.mem dir (pde_idx virt)) page_present == 0
    then (if created.0 == 0
        then (negsuc 0, created.1)
        else write_mapping (created.1) dir virt phys flags)
    else write_mapping s dir virt phys flags

unfoldable pub map_page : Paging → (virt phys flags : ℕ) → ℤ × Paging
map_page s virt phys flags = map_page_to_dir s s.kernel_page_dir virt phys flags

unfoldable pub unmap_page_from_dir : Paging → (dir virt : ℕ) → ℤ × Paging
unmap_page_from_dir s dir virt =
    let pde = entry s.mem dir (pde_idx virt) in
    let table = bit_and pde table_mask in
    if bit_and pde page_present == 0
    then (negsuc 0, s)
    else if bit_and (entry s.mem table (pte_idx virt)) page_present == 0
    then (negsuc 0, s)
    else (pos 0, record s { mem = set_entry s.mem table (pte_idx virt) 0 })

unfoldable pub unmap_page : Paging → (virt : ℕ) → ℤ × Paging
unmap_page s virt = unmap_page_from_dir s s.kernel_page_dir virt

-- The status, and what is written to `*phys_out`.
unfoldable pub get_page_mapping : Paging → (virt : ℕ) → ℤ × Option ℕ
get_page_mapping s virt =
    let pde = entry s.mem s.kernel_page_dir (pde_idx virt) in
    let pte = entry s.mem (bit_and pde table_mask) (pte_idx virt) in
    if bit_and pde page_present == 0
    then (negsuc 0, none)
    else if bit_and pte page_present == 0
    then (negsuc 0, none)
    else (pos 0, some (bit_and pte table_mask))

-- `for (i = …; …; i++) dir[i] = kernel_page_dir[i]`
unfoldable pub copy_entries : Mem → (to from i n : ℕ) → Mem
copy_entries m to from i zero = m
copy_entries m to from i (suc n) =
    copy_entries (set_entry m to i (entry m from i)) to from (i + 1) n

unfoldable pub page_dir_create : Paging → ℕ × Paging
page_dir_create s =
    let taken = alloc_frame s.pfa in
    let dir = taken.1 in
    if dir == 0
    then (0, record s { pfa = taken.0 })
    else (dir, record s { pfa = taken.0; mem = copy_entries s.mem dir s.kernel_page_dir 0 1024 })
