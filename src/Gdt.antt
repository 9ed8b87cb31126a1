-- ===== src/Gdt.antt =====
-- kernel/cpu/gdt.c: segment descriptors, the table for the boot and one table and one TSS per CPU.
-- The loads of the table, of the task register and of the segment registers are left out. The
-- addresses of the TSS and of `cpu_info[cpu_id]`, and the size of the latter, are arguments.
pub mod Descriptors
mod Tests
use noverix.Base.{ℕ, ◌-◌, ◌/◌, ◌%◌, ◌^◌, ◌==◌, ltb, if◌then◌else◌, bit_and, bit_or, update, u16}

pub record GdtEntry : Type 0 where
  pub limit_low : ℕ
  pub base_low : ℕ
  pub base_middle : ℕ
  pub access : ℕ
  pub granularity : ℕ
  pub base_high : ℕ

unfoldable pub gdt_entry : (base limit access gran : ℕ) → GdtEntry
gdt_entry base limit access gran = record {
  base_low = bit_and base 0xFFFF;
  base_middle = bit_and (base / 2 ^ 16) 0xFF;
  base_high = bit_and (base / 2 ^ 24) 0xFF;
  limit_low = bit_and limit 0xFFFF;
  granularity = bit_or (bit_and (limit / 2 ^ 16) 0x0F) (bit_and gran 0xF0);
  access = access;
}

abbrev pub Gdt : Type 0
Gdt = ℕ → GdtEntry

unfoldable pub gdt_set_entry_at : Gdt → (num base limit access gran : ℕ) → Gdt
gdt_set_entry_at gdt num base limit access gran = update gdt num (gdt_entry base limit access gran)

unfoldable pub init_gdt : Gdt → Gdt
init_gdt boot_gdt =
    let g0 = gdt_set_entry_at boot_gdt 0 0 0 0 0 in
    let g1 = gdt_set_entry_at g0 1 0 0xFFFFFFFF 0x9A 0xCF in
    let g2 = gdt_set_entry_at g1 2 0 0xFFFFFFFF 0x92 0xCF in
    let g3 = gdt_set_entry_at g2 3 0 0xFFFFFFFF 0xFA 0xCF in
    gdt_set_entry_at g3 4 0 0xFFFFFFFF 0xF2 0xCF

-- The descriptors that `gdt_init_percpu` writes.
unfoldable pub percpu_gdt : (boot_gdt gdt : Gdt) → (tss_base cpu_base cpu_info_size : ℕ) → Gdt
percpu_gdt boot_gdt gdt tss_base cpu_base cpu_info_size =
    let copied : Gdt = λ i. if ltb i 5 then boot_gdt i else gdt i in
    gdt_set_entry_at (gdt_set_entry_at copied 5 tss_base 103 0x89 0) 6 cpu_base (cpu_info_size - 1)
      0x92 0
