-- ===== src/Acpi.antt =====
-- kernel/acpi/rsdp.c and kernel/acpi/madt.c: the search for the tables and the list of CPUs. The
-- tables are mapped at their own addresses before they are read; the mapping is left out here.
pub mod Walk
pub mod Processors
mod Tests
use noverix.Base.{
  ℕ, zero, suc, ◌+◌, ◌-◌, ◌*◌, ◌/◌, ◌%◌, ◌==◌, ltb, leb, ◌&&◌, ◌||◌, if◌then◌else◌, Bool, true,
  false, Option, none, some, u8, u32, List, [], ◌∷◌, ◌++◌, length,
}
use noverix.Memory.{Mem, load16, load32}

abbrev pub max_cpu : ℕ
max_cpu = 8

abbrev pub header_size : ℕ
header_size = 36

-- `for (i = …; i < length; i++) sum += data[i]` in a byte.
unfoldable pub byte_sum : Mem → (at n sum : ℕ) → ℕ
byte_sum m at zero sum = sum
byte_sum m at (suc n) sum = byte_sum m (u32 (at + 1)) n (u8 (sum + m at))

unfoldable pub acpi_checksum : Mem → (at length : ℕ) → Bool
acpi_checksum m at length = byte_sum m at length 0 == 0

abbrev pub is_rsdp : Mem → (p : ℕ) → Bool
is_rsdp m p =
    ((m p == b'R') && ((m (p + 1) == b'S') && ((m (p + 2) == b'D') && (m (p + 3) == b' '))))
    && (((m (p + 4) == b'P')
          && ((m (p + 5) == b'T') && ((m (p + 6) == b'R') && (m (p + 7) == b' '))))
        && (byte_sum m p 20 0 == 0))

-- The loop of `rsdp_search_region`; 0 is null, none where the fuel runs out.
unfoldable pub search_from : (fuel : ℕ) → Mem → (p end : ℕ) → Option ℕ
search_from zero m p end = none
search_from (suc f) m p end =
    let rest = search_from f m (p + 16) end in
    if leb (p + 20) end then (if is_rsdp m p then some p else rest) else some 0

unfoldable pub rsdp_search_region : Mem → (start length : ℕ) → Option ℕ
rsdp_search_region m start length = search_from (length / 16 + 1) m start (start + length)

abbrev pub bios_search : Mem → Option ℕ
bios_search m = rsdp_search_region m 0x000E0000 0x00020000

abbrev pub or_bios : Mem → Option ℕ → Option ℕ
or_bios m none = none
or_bios m (some rsdp) = if rsdp == 0 then bios_search m else some rsdp

unfoldable pub acpi_find_rsdp : Mem → Option ℕ
acpi_find_rsdp m =
    let ebda_seg = load16 m 0x040E in
    if ebda_seg == 0 then bios_search m else or_bios m (rsdp_search_region m (ebda_seg * 16) 1024)

abbrev pub is_madt : Mem → (hdr : ℕ) → Bool
is_madt m hdr =
    (m hdr == b'A') && ((m (hdr + 1) == b'P') && ((m (hdr + 2) == b'I') && (m (hdr + 3) == b'C')))

abbrev pub table_length : Mem → (hdr : ℕ) → ℕ
table_length m hdr = load32 m (u32 (hdr + 4))

-- The loop over the entries of the RSDT: the address of the MADT, 0 where there is none.
unfoldable pub find_madt : Mem → (rsdt i n : ℕ) → ℕ
find_madt m rsdt i zero = 0
find_madt m rsdt i (suc n) =
    let hdr = load32 m (u32 (rsdt + header_size + 4 * i)) in
    let rest = find_madt m rsdt (i + 1) n in
    if ltb (table_length m hdr) header_size
    then rest
    else if acpi_checksum m hdr (table_length m hdr)
    then (if is_madt m hdr then hdr else rest)
    else rest

-- `type == MADT_TYPE_PROCESSOR && len >= 8`, and the processor is enabled.
unfoldable pub is_cpu : Mem → (p : ℕ) → Bool
is_cpu m p = (m p == 0) && (leb 8 (m (p + 1)) && (load32 m (p + 4) % 2 == 1))

-- `cpu_info` as the list of the APIC ids, the place in it being the number of the CPU.
abbrev pub add_cpu : Mem → (p : ℕ) → List ℕ → List ℕ
add_cpu m p cpus =
    if is_cpu m p && ltb (length cpus) max_cpu then cpus ++ (m (p + 3) ∷ []) else cpus

-- The loop over the entries of the MADT, none where the fuel runs out. `p` and `end` are pointers of
-- 32 bits, so `p += len` goes round.
unfoldable pub walk : (fuel : ℕ) → Mem → (p end : ℕ) → List ℕ → Option (List ℕ)
walk zero m p end cpus = none
walk (suc f) m p end cpus =
    let rest = walk f m (u32 (p + m (p + 1))) end (add_cpu m p cpus) in
    if ltb p end then (if ltb (m (p + 1)) 2 then some cpus else rest) else some cpus

-- What `acpi_parse_madt` finds: the address of the local APIC, and the CPUs.
unfoldable pub parse_madt : Mem → (madt : ℕ) → Option (ℕ × List ℕ)
parse_madt m madt =
    let end = u32 (madt + table_length m madt) in
    elim (walk (table_length m madt + 1) m (u32 (madt + 44)) end []) [
      | none ↦ none
      | some cpus ↦ some (load32 m (u32 (madt + 36)), cpus)
    ]

-- How the function ends: with -1, or with `lapic_addr` and the CPUs.
pub data Parsed : Type 0 where
  failed : Parsed
  found : (lapic_addr : ℕ) → List ℕ → Parsed

unfoldable pub parse_rsdt : Mem → (rsdt : ℕ) → Option Parsed
parse_rsdt m rsdt =
    let len = table_length m rsdt in
    let madt = find_madt m rsdt 0 ((len - header_size) / 4) in
    if ltb len header_size
    then some failed
    else if acpi_checksum m rsdt len
    then (if madt == 0 then some failed else elim (parse_madt m madt) [
      | none ↦ none
      | some (lapic, cpus) ↦ some (found lapic cpus)
    ])
    else some failed

-- None where the fuel of a loop runs out.
unfoldable pub acpi_parse_madt : Mem → Option Parsed
acpi_parse_madt m = elim (acpi_find_rsdp m) [
  | none ↦ none
  | some rsdp ↦ if rsdp == 0 then some failed else parse_rsdt m (load32 m (rsdp + 16))
]
