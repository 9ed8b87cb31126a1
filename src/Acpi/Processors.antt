-- ===== src/Acpi/Processors.antt =====
-- The processors that `acpi_parse_madt` of kernel/acpi/madt.c finds among the entries of the MADT.
use noverix.Base.{
  ℕ, zero, suc, ◌+◌, ◌*◌, ◌≤◌, ◌<◌, ◌≡◌, inl, inr, refl, arith, ◌%◌, ◌^◌, ◌≢◌, ◌⊎◌, u32, ltb, true,
  false, some, Bool-cases, ap, ◌∙◌, sym, List, [], ◌∷◌, ◌++◌, take, length, append_assoc,
  append-nil,
}
use noverix.Memory.{Mem, load32}
use noverix.Acpi.{table_length, is_cpu, add_cpu, walk, parse_madt}
use noverix.Acpi.Walk.{add_cpu-length, parse_madt-walk}

-- An entry that is not that of an enabled processor: another type, too short for a processor, or
-- with bit 0 of its flags clear.
abbrev pub IsOther : Mem → (p : ℕ) → Type 0
IsOther m p = (m p ≢ 0) ⊎ (m (p + 1) < 8) ⊎ ((k : ℕ) × (load32 m (p + 4) ≡ 2 * k))

-- The entries from `p` to `end`, each of at least two bytes, with the APIC ids of the enabled
-- processors among them: the entries of type 0 and at least 8 bytes with bit 0 of the flags set.
pub data Entries (m : Mem) (end : ℕ) : (p : ℕ) → List ℕ → Type 0 where
  no_more : (p : ℕ) → p ≡ end → Entries m end p []
  processor :
      (p k : ℕ) (ids : List ℕ)
      → m p ≡ 0
      → 8 ≤ m (p + 1)
      → load32 m (p + 4) ≡ 1 + 2 * k
      → p + m (p + 1) ≤ end
      → Entries m end (p + m (p + 1)) ids
      → Entries m end p (m (p + 3) ∷ ids)
  other :
      (p : ℕ) (ids : List ℕ)
      → IsOther m p
      → 2 ≤ m (p + 1)
      → p + m (p + 1) ≤ end
      → Entries m end (p + m (p + 1)) ids
      → Entries m end p ids

Entries-below : (m : Mem) (end p : ℕ) (ids : List ℕ) → Entries m end p ids → p ≤ end
Entries-below m end p ids (no_more q e) = omega (arith, e)
Entries-below m end p ids (processor q k rest type len flags inside v) = omega arith
Entries-below m end p ids (other q rest apart len inside v) = omega arith

take_all : (n : ℕ) (xs : List ℕ) → length xs ≤ n → take n xs ≡ xs
take_all zero [] h = refl
take_all zero (x ∷ xs) h = absurd (omega arith)
take_all (suc n) [] h = refl
take_all (suc n) (x ∷ xs) h = ap (λ l. x ∷ l) (take_all n xs (omega arith))

take_full : (n : ℕ) (xs ys : List ℕ) → length xs ≡ n → take n (xs ++ ys) ≡ xs
take_full zero [] ys h = refl
take_full zero (x ∷ xs) ys h = absurd (omega (arith, h))
take_full (suc n) [] ys h = absurd (omega (arith, h))
take_full (suc n) (x ∷ xs) ys h = ap (λ l. x ∷ l) (take_full n xs ys (omega (arith, h)))

-- One processor more among the CPUs.
add_cpu-processor :
    (m : Mem) (p : ℕ) (cpus ids : List ℕ)
    → is_cpu m p ≡ true
    → length cpus ≤ 8
    → take 8 (add_cpu m p cpus ++ ids) ≡ take 8 (cpus ++ (m (p + 3) ∷ ids))
add_cpu-processor m p cpus ids cpu h = elim (Bool-cases (ltb (length cpus) 8)) [
  | inl room ↦ rw (cpu, room) (ap (take 8) (append_assoc cpus (m (p + 3) ∷ []) ids))
  | inr full ↦
      let eight : length cpus ≡ 8 = ground arith in
      rw (cpu, full) (take_full 8 cpus ids eight ∙ sym (take_full 8 cpus (m (p + 3) ∷ ids) eight))
]

processor-is_cpu :
    (m : Mem) (p k : ℕ) → m p ≡ 0 → 8 ≤ m (p + 1) → load32 m (p + 4) ≡ 1 + 2 * k → is_cpu m p ≡ true
unfolding is_cpu
processor-is_cpu m p k type len flags =
    let odd : load32 m (p + 4) % 2 ≡ 1 = omega (arith, flags) in ground (arith, type, len, odd)

other-is_cpu : (m : Mem) (p : ℕ) → IsOther m p → is_cpu m p ≡ false
unfolding is_cpu
other-is_cpu m p (inl type) = ground (arith, type)
other-is_cpu m p (inr (inl short)) = ground (arith, short)
other-is_cpu m p (inr (inr (k, flags))) =
    let even : load32 m (p + 4) % 2 ≡ 0 = omega (arith, flags) in ground (arith, even)

walk-Entries :
    (f : ℕ) (m : Mem) (p end : ℕ) (cpus ids : List ℕ)
    → end < 2 ^ 32
    → 1 ≤ f
    → end < p + f
    → length cpus ≤ 8
    → Entries m end p ids
    → walk f m p end cpus ≡ some (take 8 (cpus ++ ids))
unfolding walk
walk-Entries zero m p end cpus ids below h l b v = absurd (omega arith)
walk-Entries (suc f) m p end cpus ids below h l b (no_more q e) =
    let over : ltb q end ≡ false = ground arith in
    rw over (ap some (sym (take_all 8 cpus b) ∙ ap (take 8) (sym (append-nil cpus))))
walk-Entries (suc f) m p end cpus ids below h l b (processor q k rest type len flags inside v) =
    let on : ltb q end ≡ true = ground arith in
    let whole : ltb (m (q + 1)) 2 ≡ false = ground arith in
    let next : u32 (q + m (q + 1)) ≡ q + m (q + 1) = omega arith in
    rw (on, whole, next)
      (walk-Entries f m (q + m (q + 1)) end (add_cpu m q cpus) rest below (omega arith)
          (omega arith) (add_cpu-length m q cpus b) v
        ∙ ap some (add_cpu-processor m q cpus rest (processor-is_cpu m q k type len flags) b))
walk-Entries (suc f) m p end cpus ids below h l b (other q rest apart len inside v) =
    let on : ltb q end ≡ true = ground arith in
    let whole : ltb (m (q + 1)) 2 ≡ false = ground arith in
    let next : u32 (q + m (q + 1)) ≡ q + m (q + 1) = omega arith in
    let same : add_cpu m q cpus ≡ cpus = rw (other-is_cpu m q apart) refl in
    rw (on, whole, next)
      (ap (walk f m (q + m (q + 1)) end) same
        ∙ walk-Entries f m (q + m (q + 1)) end cpus rest below (omega arith) (omega arith) b v)

-- Where the MADT ends below 2^32 and is filled by entries of at least two bytes, the CPUs are the
-- enabled processors among them in their order, up to MAX_CPU: the entries of type 0 and at least 8
-- bytes with bit 0 of the flags set, by their APIC id. The address of the local APIC is the word
-- at 36.
pub parse_madt-Entries :
    (m : Mem) (madt : ℕ) (ids : List ℕ)
    → madt + table_length m madt < 2 ^ 32
    → Entries m (madt + table_length m madt) (madt + 44) ids
    → parse_madt m madt ≡ some (load32 m (madt + 36), take 8 ids)
parse_madt-Entries m madt ids below v =
    let within = Entries-below m (madt + table_length m madt) (madt + 44) ids v in
    parse_madt-walk m madt (take 8 ids) below (omega (arith, below, within)) (
      walk-Entries (table_length m madt + 1) m (madt + 44) (madt + table_length m madt) [] ids below
        (omega arith) (omega arith) (omega arith) v)
