-- ===== src/Acpi/Walk.antt =====
-- The search for the tables and the walk of the MADT in kernel/acpi: they end.
use noverix.Base.{
  ℕ, zero, suc, ◌+◌, ◌-◌, ◌*◌, ◌/◌, ◌≤◌, ◌<◌, ◌≡◌, inl, inr, refl, arith, ◌^◌, ◌≢◌, u32, ◌==◌, ltb,
  leb, if◌then◌else◌, Bool, true, false, Option, none, some, Bool-cases, ap, List, [], ◌∷◌, length,
  length-append,
}
use noverix.Memory.{Mem, IsBytes, load16, load32}
use noverix.Acpi.{
  is_rsdp, search_from, rsdp_search_region, bios_search, or_bios, acpi_find_rsdp, table_length,
  header_size, find_madt, acpi_checksum, add_cpu, walk, parse_madt, Parsed, parse_rsdt,
  acpi_parse_madt,
}

-- A loop that ends within its fuel.
abbrev Ends : {A : Type 0} → Option A → Type 0
Ends {A} o = (a : A) × (o ≡ some a)

guarded : {A : Type 0} (b : Bool) (x y : Option A) → Ends x → Ends y → Ends (if b then x else y)
guarded true x y v w = v
guarded false x y v w = w

search_from-Ends :
    (f : ℕ) (m : Mem) (p end : ℕ) → 1 ≤ f → end < p + 16 * f + 4 → Ends (search_from f m p end)
unfolding search_from
search_from-Ends zero m p end h l = absurd (omega arith)
search_from-Ends (suc f) m p end h l = elim (Bool-cases (leb (p + 20) end)) [
  | inr e ↦ rw e (0, refl)
  | inl e ↦ rw e (
      guarded (is_rsdp m p) (some p) (search_from f m (p + 16) end) (p, refl)
        (search_from-Ends f m (p + 16) end (ground arith) (omega arith)))
]

region-Ends : (m : Mem) (start length : ℕ) → Ends (rsdp_search_region m start length)
unfolding rsdp_search_region
region-Ends m start length =
    search_from-Ends (length / 16 + 1) m start (start + length) (omega arith) (omega arith)

or_bios-Ends : (m : Mem) (o : Option ℕ) → Ends o → Ends (or_bios m o)
or_bios-Ends m none (a, e) = absurd (ground (arith, e))
or_bios-Ends m (some rsdp) e =
    guarded (rsdp == 0) (bios_search m) (some rsdp) (region-Ends m 0x000E0000 0x00020000)
      (rsdp, refl)

acpi_find_rsdp-Ends : (m : Mem) → Ends (acpi_find_rsdp m)
unfolding acpi_find_rsdp
acpi_find_rsdp-Ends m =
    let at : ℕ = load16 m 0x040E * 16 in
    guarded (load16 m 0x040E == 0) (bios_search m) (or_bios m (rsdp_search_region m at 1024))
      (region-Ends m 0x000E0000 0x00020000)
      (or_bios-Ends m (rsdp_search_region m at 1024) (region-Ends m at 1024))

pub add_cpu-length :
    (m : Mem) (p : ℕ) (cpus : List ℕ) → length cpus ≤ 8 → length (add_cpu m p cpus) ≤ 8
add_cpu-length m p cpus h = ground (arith, length-append cpus (m (p + 3) ∷ []))

-- No more CPUs than `cpu_info` has places.
abbrev EndsBounded : Option (List ℕ) → Type 0
EndsBounded o = (cpus : List ℕ) × (o ≡ some cpus) × (length cpus ≤ 8)

walk-EndsBounded :
    (f : ℕ) (m : Mem) (p end : ℕ) (cpus : List ℕ)
    → IsBytes m
    → end + 255 ≤ 2 ^ 32
    → 1 ≤ f
    → end < p + f
    → length cpus ≤ 8
    → EndsBounded (walk f m p end cpus)
unfolding walk
walk-EndsBounded zero m p end cpus w below h l b = absurd (omega arith)
walk-EndsBounded (suc f) m p end cpus w below h l b = elim (Bool-cases (ltb p end)) [
  | inr e ↦ rw e (cpus, refl, b)
  | inl e ↦ elim (Bool-cases (ltb (m (p + 1)) 2)) [
    | inl short ↦ rw (e, short) (cpus, refl, b)
    | inr long ↦
        let next : u32 (p + m (p + 1)) ≡ p + m (p + 1) = ground (arith, w (p + 1)) in
        rw (e, long, next)
          (walk-EndsBounded f m (p + m (p + 1)) end (add_cpu m p cpus) w below (ground arith)
            (ground arith) (add_cpu-length m p cpus b))
  ]
]

-- What is known of the CPUs where some are found.
abbrev pub IsBounded : Parsed → Type 0
IsBounded Parsed.failed = Unit
IsBounded (Parsed.found lapic cpus) = length cpus ≤ 8

-- An end of the whole function.
abbrev pub EndsWell : Option Parsed → Type 0
EndsWell o = (r : Parsed) × (o ≡ some r) × IsBounded r

guarded_parsed :
    (b : Bool) (x y : Option Parsed) → EndsWell x → EndsWell y → EndsWell (if b then x else y)
guarded_parsed true x y v w = v
guarded_parsed false x y v w = w

failed-EndsWell : EndsWell (some Parsed.failed)
failed-EndsWell = (Parsed.failed, refl, tt)

-- The MADT that the RSDT at `rsdt` leads to ends at least 255 bytes below the end of the 32-bit
-- addresses.
abbrev pub EndsBelow : Mem → (rsdt : ℕ) → Type 0
EndsBelow m rsdt =
    let madt = find_madt m rsdt 0 ((table_length m rsdt - header_size) / 4) in
    madt ≢ 0 → madt + table_length m madt + 255 ≤ 2 ^ 32

pub parse_madt-walk :
    (m : Mem) (madt : ℕ) (cpus : List ℕ)
    → madt + table_length m madt < 2 ^ 32
    → madt + 44 < 2 ^ 32
    → walk (table_length m madt + 1) m (madt + 44) (madt + table_length m madt) [] ≡ some cpus
    → parse_madt m madt ≡ some (load32 m (madt + 36), cpus)
unfolding parse_madt
parse_madt-walk m madt cpus ends starts e =
    let lapic : u32 (madt + 36) ≡ madt + 36 = omega (arith, starts) in
    let first : u32 (madt + 44) ≡ madt + 44 = omega (arith, starts) in
    let end : u32 (madt + table_length m madt) ≡ madt + table_length m madt = omega (arith, ends) in
    let walked : walk (table_length m madt + 1) m (u32 (madt + 44))
          (u32 (madt + table_length m madt)) []
        ≡ some cpus =
      rw (first, end) e in
    rw (parse_madt, walked, lapic) refl

parse_madt-Ends :
    (m : Mem) (madt : ℕ)
    → IsBytes m
    → madt + table_length m madt + 255 ≤ 2 ^ 32
    → (lapic : ℕ) × (cpus : List ℕ) × (parse_madt m madt ≡ some (lapic, cpus)) × (length cpus ≤ 8)
parse_madt-Ends m madt w below =
    let (cpus, e, b) =
      walk-EndsBounded (table_length m madt + 1) m (madt + 44) (madt + table_length m madt) [] w
        below (omega arith) (omega arith) (omega arith) in
    (load32 m (madt + 36), cpus, parse_madt-walk m madt cpus (omega arith) (omega arith) e, b)

found_cpus : Option (ℕ × List ℕ) → Option Parsed
found_cpus o = elim o [ none ↦ none | some (lapic, cpus) ↦ some (Parsed.found lapic cpus) ]

madt_case :
    (m : Mem) (madt : ℕ)
    → IsBytes m
    → (madt ≢ 0 → madt + table_length m madt + 255 ≤ 2 ^ 32)
    → EndsWell (if madt == 0 then some Parsed.failed else found_cpus (parse_madt m madt))
unfolding found_cpus
madt_case m madt w below = elim (Bool-cases (madt == 0)) [
  | inl e ↦ rw e failed-EndsWell
  | inr e ↦
      let (lapic, cpus, done, b) = parse_madt-Ends m madt w (below (ground arith)) in
      rw e (Parsed.found lapic cpus, ap found_cpus done, b)
]

parse_rsdt-EndsWell :
    (m : Mem) (rsdt : ℕ) → IsBytes m → EndsBelow m rsdt → EndsWell (parse_rsdt m rsdt)
unfolding parse_rsdt found_cpus
parse_rsdt-EndsWell m rsdt w below =
    let len : ℕ = table_length m rsdt in
    let madt : ℕ = find_madt m rsdt 0 ((len - header_size) / 4) in
    let cpus_found : Option Parsed = found_cpus (parse_madt m madt) in
    let checked : Option Parsed = if madt == 0 then some Parsed.failed else cpus_found in
    let summed : Option Parsed = if acpi_checksum m rsdt len then checked else some Parsed.failed in
    guarded_parsed (ltb len header_size) (some Parsed.failed) summed failed-EndsWell (
      guarded_parsed (acpi_checksum m rsdt len) checked (some Parsed.failed)
        (madt_case m madt w below) failed-EndsWell)

-- On any memory of bytes in which the MADT, where one is found, ends at least 255 bytes below the end of
-- the 32-bit addresses, `acpi_parse_madt` ends, with -1 or with at most MAX_CPU CPUs.
pub acpi_parse_madt-EndsWell :
    (m : Mem)
    → IsBytes m
    → ((rsdp : ℕ) → acpi_find_rsdp m ≡ some rsdp → EndsBelow m (load32 m (rsdp + 16)))
    → EndsWell (acpi_parse_madt m)
unfolding acpi_parse_madt
acpi_parse_madt-EndsWell m w below =
    let (rsdp, e) = acpi_find_rsdp-Ends m in
    rw (acpi_parse_madt, e)
      (guarded_parsed (rsdp == 0) (some Parsed.failed) (parse_rsdt m (load32 m (rsdp + 16)))
        failed-EndsWell (parse_rsdt-EndsWell m (load32 m (rsdp + 16)) w (below rsdp e)))
