-- ===== src/Elf/Checks.antt =====
-- What a file that passes the checks of `elf_exec` in kernel/elf.c is known to be.
use noverix.Base.{
  ℕ, zero, suc, ◌+◌, ◌-◌, ◌*◌, ◌^◌, ◌≤◌, ◌<◌, ◌≡◌, inl, inr, arith, ◌==◌, none, u32, Bool-cases,
  Option-cases, subst, ap, ◌∙◌,
}
use native.Mathlib.Nat.{mul-le-mul}
use noverix.Memory.{Mem, load16-lt, load32-lt, IsBytes}
use noverix.Elf.{
  Phdr, phdr, phdr_at, e_entry, e_phoff, e_phentsize, e_phnum, table_size, check_header,
  check_segment, check_segments, check_elf,
}

-- A segment that is loaded: from within the file, to within the user range, where the end of the
-- memory goes round at 2^32.
pub record IsSegment (size : ℕ) (ph : Phdr) : Type 0 where
  pub address : (0x800000 ≤ ph.p_vaddr) × (ph.p_vaddr < 0x900000)
  pub in_file : ph.p_offset + ph.p_filesz ≤ size
  pub in_memory : ph.p_filesz ≤ ph.p_memsz
  pub in_range : u32 (ph.p_vaddr + ph.p_memsz) ≤ 0xA00000

-- A program: its entry in the user range, its table in the file, and all its segments.
pub record IsProgram (m : Mem) (file size : ℕ) : Type 0 where
  pub entry : (0x800000 ≤ e_entry m file) × (e_entry m file < 0x900000)
  pub table : e_phoff m file + e_phnum m file * e_phentsize m file ≤ size
  pub entries : 32 ≤ e_phentsize m file
  pub segments :
      (i : ℕ) → i < e_phnum m file → (phdr m file i).p_type ≡ 1 → IsSegment size (phdr m file i)

-- The fields have 32 bits.
record Fits (ph : Phdr) : Type 0 where
  offset : ph.p_offset < 2 ^ 32
  filesz : ph.p_filesz < 2 ^ 32

phdr-Fits : (m : Mem) (file i : ℕ) → IsBytes m → Fits (phdr m file i)
unfolding phdr_at
phdr-Fits m file i b = record { offset = load32-lt m _ b; filesz = load32-lt m _ b }

check_segment-IsSegment :
    (size : ℕ) (ph : Phdr)
    → Fits ph
    → check_segment size ph ≡ none
    → ph.p_type ≡ 1
    → IsSegment size ph
unfolding check_segment
check_segment-IsSegment size ph f e load = record {
  address = ground (arith, e, load);
  in_file = ground (arith, e, load, f.offset, f.filesz);
  in_memory = ground (arith, e, load);
  in_range = ground (arith, e, load);
}

check_segments-IsSegment :
    (m : Mem) (file size i n : ℕ)
    → IsBytes m
    → check_segments m file size i n ≡ none
    → (j : ℕ) → i ≤ j
    → j < i + n
    → (phdr m file j).p_type ≡ 1
    → IsSegment size (phdr m file j)
unfolding check_segments
check_segments-IsSegment m file size i zero b e j l h load = absurd (omega arith)
check_segments-IsSegment m file size i (suc n) b e j l h load =
    elim (Option-cases (check_segment size (phdr m file i))) [
      | inr (x, bad) ↦ absurd (ground (arith, bad, e))
      | inl good ↦
          let rest : check_segments m file size (i + 1) n ≡ none = ground (arith, good, e) in
          elim (Bool-cases (i == j)) [
            | inr o ↦
                check_segments-IsSegment m file size (i + 1) n b rest j (ground arith) (omega arith)
                  load
            | inl o ↦
                let same : i ≡ j = ground arith in
                subst (λ k. IsSegment size (phdr m file k)) same
                  (check_segment-IsSegment size (phdr m file i) (phdr-Fits m file i b) good
                    (ap (λ k. (phdr m file k).p_type) same ∙ load))
          ]
    ]

header_facts :
    (m : Mem) (file size : ℕ)
    → check_header m file size ≡ none
    → ((0x800000 ≤ e_entry m file) × (e_entry m file < 0x900000))
      × (table_size m file ≤ 0xFFFFFFFF - e_phoff m file)
      × (u32 (e_phoff m file + table_size m file) ≤ size)
      × (32 ≤ e_phentsize m file)
unfolding check_header
header_facts m file size e = ground (arith, e)

product_fits : (a b : ℕ) → a < 2 ^ 16 → b < 2 ^ 16 → a * b < 2 ^ 32
product_fits a b h l =
    let most : a * b ≤ 65535 * 65535 =
      mul-le-mul {n₂ = 65535} {m₂ = 65535} (omega arith) (omega arith) in
    omega (arith, most)

-- What passes all checks, of any length and any content, is a program.
pub check_elf-IsProgram :
    (m : Mem) (file size : ℕ) → IsBytes m → check_elf m file size ≡ none → IsProgram m file size
unfolding check_elf
check_elf-IsProgram m file size b e = elim (Option-cases (check_header m file size)) [
  | inr (x, bad) ↦ absurd (ground (arith, bad, e))
  | inl good ↦
      let facts = header_facts m file size good in
      let product : e_phnum m file * e_phentsize m file < 2 ^ 32 =
        product_fits (e_phnum m file) (e_phentsize m file) (load16-lt m _ b) (load16-lt m _ b) in
      let exact : table_size m file ≡ e_phnum m file * e_phentsize m file =
        omega (arith, product) in
      let segments : check_segments m file size 0 (e_phnum m file) ≡ none =
        ground (arith, good, e) in
      record {
        entry = facts.0;
        table = omega (arith, exact, facts.1, facts.2, load32-lt m (file + 28) b);
        entries = facts.3;
        segments = λ i h load.
            check_segments-IsSegment m file size 0 (e_phnum m file) b segments i (omega arith)
              (omega arith) load;
      }
]
