-- ===== src/Gdt/Descriptors.antt =====
-- What the processor reads from the descriptors of kernel/cpu/gdt.c.
use noverix.Base.{
  ℕ, ◌+◌, ◌-◌, ◌*◌, ◌/◌, ◌%◌, ◌^◌, ◌<◌, ◌≡◌, ◌≢◌, refl, arith, ◌∙◌, ap, bit_and, bit_or,
  bit_and_mask, bit_and_shifted, bit_or-low_digit, zero-bit_or,
}
use noverix.Gdt.{GdtEntry, gdt_entry, Gdt, gdt_set_entry_at, init_gdt, percpu_gdt}

-- The base address, the limit of 20 bits and the four flags of a descriptor.
unfoldable pub segment_base : GdtEntry → ℕ
segment_base e = e.base_low + e.base_middle * 2 ^ 16 + e.base_high * 2 ^ 24

unfoldable pub segment_limit : GdtEntry → ℕ
segment_limit e = e.limit_low + e.granularity % 16 * 2 ^ 16

unfoldable pub segment_flags : GdtEntry → ℕ
segment_flags e = e.granularity / 16

high_nibble : (gran : ℕ) → bit_and gran 0xF0 ≡ gran / 16 % 16 * 16
high_nibble gran = omega (arith, bit_and_shifted 4 gran 15, bit_and_mask 4 (gran / 2 ^ 4))

nibbles : (a b : ℕ) → a < 16 → bit_or a (b * 16) ≡ b * 16 + a
nibbles a b h =
    let last : bit_or (a / 2 / 2 / 2 / 2) (b * 16 / 2 / 2 / 2 / 2) ≡ b =
      ap (λ x. bit_or x (b * 16 / 2 / 2 / 2 / 2)) zero_left
      ∙ zero-bit_or (b * 16 / 2 / 2 / 2 / 2)
      ∙ omega arith in
    omega (
      arith,
      last,
      bit_or-low_digit a (b * 16),
      bit_or-low_digit (a / 2) (b * 16 / 2),
      bit_or-low_digit (a / 2 / 2) (b * 16 / 2 / 2),
      bit_or-low_digit (a / 2 / 2 / 2) (b * 16 / 2 / 2 / 2),
    )
  where
    zero_left : a / 2 / 2 / 2 / 2 ≡ 0
    zero_left = omega arith

pub record Describes (e : GdtEntry) (base limit access flags : ℕ) : Type 0 where
  pub base_is : segment_base e ≡ base
  pub limit_is : segment_limit e ≡ limit
  pub access_is : e.access ≡ access
  pub flags_is : segment_flags e ≡ flags

-- `gdt_set_entry_at` writes a descriptor from which the processor reads the base, the lower 20 bits
-- of the limit, the access byte and the upper four bits of `gran`, and keeps the other descriptors.
pub gdt_set_entry_at-Describes :
    (gdt : Gdt) (num base limit access gran : ℕ)
    → base < 2 ^ 32
    → gran < 256
    → Describes
        (gdt_set_entry_at gdt num base limit access gran num)
        base
        (limit % 2 ^ 20)
        access
        (gran / 16)
      × ((i : ℕ) → i ≢ num → gdt_set_entry_at gdt num base limit access gran i ≡ gdt i)
unfolding gdt_set_entry_at gdt_entry segment_base segment_limit segment_flags
gdt_set_entry_at-Describes gdt num base limit access gran hb hg =
    let mixed : bit_or (bit_and (limit / 2 ^ 16) 0x0F) (bit_and gran 0xF0)
        ≡ gran / 16 * 16 + limit / 2 ^ 16 % 16 =
      ap (λ x. bit_or x (bit_and gran 0xF0)) (bit_and_mask 4 (limit / 2 ^ 16))
      ∙ ap (bit_or (limit / 2 ^ 16 % 16)) (high_nibble gran)
      ∙ nibbles (limit / 2 ^ 16 % 16) (gran / 16 % 16) (omega arith)
      ∙ omega arith in
    (
      record {
        base_is = ground (
          arith,
          bit_and_mask 16 base,
          bit_and_mask 8 (base / 2 ^ 16),
          bit_and_mask 8 (base / 2 ^ 24),
        );
        limit_is = ground (arith, bit_and_mask 16 limit, mixed);
        access_is = ground arith;
        flags_is = ground (arith, mixed);
      },
      λ i n. ground arith,
    )

-- The table of a CPU, by the selectors of kernel/cpu/gdt.h divided by 8.
pub record IsCpuTable (gdt : Gdt) (tss_base cpu_base cpu_info_size : ℕ) : Type 0 where
  pub kernel_code : Describes (gdt 1) 0 0xFFFFF 0x9A 12
  pub kernel_data : Describes (gdt 2) 0 0xFFFFF 0x92 12
  pub user_code : Describes (gdt 3) 0 0xFFFFF 0xFA 12
  pub user_data : Describes (gdt 4) 0 0xFFFFF 0xF2 12
  pub task_state : Describes (gdt 5) tss_base 103 0x89 0
  pub cpu_data : Describes (gdt 6) cpu_base (cpu_info_size - 1) 0x92 0

-- After `init_gdt`, `gdt_init_percpu` leaves four flat segments of 4 GB, the task state segment of
-- 104 bytes and the segment of the CPU's data, whatever the two tables held.
pub percpu_gdt-IsCpuTable :
    (boot_gdt gdt : Gdt) (tss_base cpu_base cpu_info_size : ℕ)
    → tss_base < 2 ^ 32
    → cpu_base < 2 ^ 32
    → cpu_info_size < 2 ^ 20
    → IsCpuTable
        (percpu_gdt (init_gdt boot_gdt) gdt tss_base cpu_base cpu_info_size)
        tss_base
        cpu_base
        cpu_info_size
unfolding percpu_gdt init_gdt gdt_set_entry_at gdt_entry segment_base segment_limit segment_flags
percpu_gdt-IsCpuTable boot_gdt gdt tss_base cpu_base size ht hc hs =
    let cpu : Describes _ cpu_base ((size - 1) % 2 ^ 20) 0x92 0 =
      (gdt_set_entry_at-Describes gdt 6 cpu_base (size - 1) 0x92 0 hc (omega arith)).0 in
    record {
      kernel_code = record { base_is = refl; limit_is = refl; access_is = refl; flags_is = refl };
      kernel_data = record { base_is = refl; limit_is = refl; access_is = refl; flags_is = refl };
      user_code = record { base_is = refl; limit_is = refl; access_is = refl; flags_is = refl };
      user_data = record { base_is = refl; limit_is = refl; access_is = refl; flags_is = refl };
      task_state = (gdt_set_entry_at-Describes gdt 5 tss_base 103 0x89 0 ht (omega arith)).0;
      cpu_data = record {
        base_is = cpu.base_is;
        limit_is = cpu.limit_is ∙ omega arith;
        access_is = refl;
        flags_is = cpu.flags_is;
      };
    }
