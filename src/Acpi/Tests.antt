-- ===== src/Acpi/Tests.antt =====
-- The tables of a machine with one CPU and one I/O APIC, for kernel/acpi.
use noverix.Base.{ℕ, ◌+◌, ◌≡◌, refl, arith, inl, subst, some, update, take, List, [], ◌∷◌}
use noverix.Memory.{load16, IsBytes, Mem, load32}
use noverix.Acpi.{
  byte_sum, walk, parse_rsdt, is_cpu, find_madt, search_from, acpi_checksum, acpi_find_rsdp,
  rsdp_search_region, table_length, parse_madt, acpi_parse_madt, Parsed,
}
use noverix.Acpi.Walk.{EndsWell, EndsBelow, acpi_parse_madt-EndsWell}
use noverix.Acpi.Processors.{Entries, parse_madt-Entries}

abbrev place : Mem → (at : ℕ) → List ℕ → Mem
place m at [] = m
place m at (b ∷ bs) = update (place m (at + 1) bs) at b

abbrev rsdp : List ℕ
rsdp =
    b'R' ∷ b'S' ∷ b'D' ∷ b' ' ∷ b'P' ∷ b'T' ∷ b'R' ∷ b' ' ∷ 193 ∷ 0 ∷ 0 ∷ 0 ∷ 0 ∷ 0 ∷ 0 ∷ 0 ∷ 0
    ∷ 0x20 ∷ []

-- A table's signature, its length and a byte for the checksum.
abbrev header : List ℕ → (size rest : ℕ) → List ℕ
header (a ∷ b ∷ c ∷ d ∷ []) size rest = a ∷ b ∷ c ∷ d ∷ size ∷ 0 ∷ 0 ∷ 0 ∷ 0 ∷ rest ∷ []
header other size rest = []

abbrev machine : Mem
machine =
    let m0 = place (λ k. 0) 0x000E0000 rsdp in
    let m1 = place m0 0x2000 (header (0 ∷ 0 ∷ 0 ∷ 0 ∷ []) 40 200) in
    let m2 = place m1 (0x2000 + 36) (0 ∷ 0x10 ∷ 0 ∷ 0 ∷ []) in
    let m3 = place m2 0x1000 (header (b'A' ∷ b'P' ∷ b'I' ∷ b'C' ∷ []) 64 138) in
    let m4 = place m3 4140 (0 ∷ 8 ∷ 0 ∷ 3 ∷ 1 ∷ []) in place m4 4148 (1 ∷ 12 ∷ [])

machine_parsed : acpi_parse_madt machine ≡ some (Parsed.found 0 (3 ∷ []))
unfolding acpi_parse_madt acpi_find_rsdp load16 rsdp_search_region search_from byte_sum parse_rsdt
    load32 acpi_checksum find_madt parse_madt walk is_cpu
machine_parsed = refl

machine-IsBytes : IsBytes machine
machine-IsBytes a = ground arith

machine_rsdp : acpi_find_rsdp machine ≡ some 0x000E0000
unfolding acpi_find_rsdp load16 rsdp_search_region search_from byte_sum
machine_rsdp = refl

first-EndsBelow : EndsBelow machine (load32 machine (0x000E0000 + 16))
unfolding load32 find_madt acpi_checksum byte_sum
first-EndsBelow n = omega arith

machine-EndsBelow :
    (rsdp : ℕ) → acpi_find_rsdp machine ≡ some rsdp → EndsBelow machine (load32 machine (rsdp + 16))
machine-EndsBelow rsdp e =
    let same : 0x000E0000 ≡ rsdp = ground (arith, e, machine_rsdp) in
    subst (λ p. EndsBelow machine (load32 machine (p + 16))) same first-EndsBelow

acpi_parse_madt-EndsWell_example : EndsWell (acpi_parse_madt machine)
acpi_parse_madt-EndsWell_example =
    acpi_parse_madt-EndsWell machine machine-IsBytes machine-EndsBelow

madt_length : table_length machine 0x1000 ≡ 64
unfolding load32
madt_length = refl

processor_flags : load32 machine 4144 ≡ 1
unfolding load32
processor_flags = refl

machine-Entries : Entries machine (0x1000 + table_length machine 0x1000) (0x1000 + 44) (3 ∷ [])
machine-Entries =
    Entries.processor 4140 0 [] refl (omega arith) processor_flags (omega (arith, madt_length)) (
      Entries.other 4148 [] (inl (omega arith)) (omega arith) (omega (arith, madt_length))
        (Entries.no_more 4160 (omega (arith, madt_length))))

parse_madt-Entries_example :
    parse_madt machine 0x1000 ≡ some (load32 machine (0x1000 + 36), take 8 (3 ∷ []))
parse_madt-Entries_example =
    parse_madt-Entries machine 0x1000 (3 ∷ []) (omega (arith, madt_length)) machine-Entries
