-- ===== src/Gdt/Tests.antt =====
-- The theorems on descriptors at concrete inputs.
use noverix.Base.{arith}
use noverix.Gdt.{Gdt, init_gdt, percpu_gdt}
use noverix.Gdt.Descriptors.{IsCpuTable, percpu_gdt-IsCpuTable}

abbrev zeros : Gdt
zeros = λ i. record {
  limit_low = 0;
  base_low = 0;
  base_middle = 0;
  access = 0;
  granularity = 0;
  base_high = 0;
}

percpu_gdt-IsCpuTable_example :
    IsCpuTable (percpu_gdt (init_gdt zeros) zeros 0x123456 0x654321 64) 0x123456 0x654321 64
percpu_gdt-IsCpuTable_example =
    percpu_gdt-IsCpuTable zeros zeros 0x123456 0x654321 64 (omega arith) (omega arith) (omega arith)
