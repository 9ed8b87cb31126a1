-- ===== src/Elf/Loading.antt =====
-- What the loading of segments in kernel/elf.c writes.
use noverix.Base.{
  ℕ, zero, suc, ◌+◌, ◌-◌, ◌*◌, ◌^◌, ◌≤◌, ◌<◌, ◌≡◌, ◌⊎◌, inl, inr, refl, arith, ◌==◌, ltb, leb, ◌&&◌,
  if◌then◌else◌, none, Bool-cases, ap₂, subst, ◌∙◌, sym, Option-cases,
}
use native.Mathlib.Nat.{mul-le-mul}
use noverix.Memory.{Mem, load16, load32, store32, IsBytes}
use noverix.CLib.{memcpy}
use noverix.CLib.Blocks.{memcpy_lem, memset_lem}
use noverix.Elf.{
  Phdr, phdr, phdr_at, check_header, e_phoff, e_phentsize, e_phnum, check_elf, load_segment,
  load_segments, put_trampoline, load_elf,
}
use noverix.Elf.Checks.{IsSegment, IsProgram, check_elf-IsProgram}

-- A segment that does not reach past the end of the memory.
abbrev pub NoWrap : Phdr → Type 0
NoWrap ph = ph.p_vaddr + ph.p_memsz < 2 ^ 32

module _ (m : Mem) (file size : ℕ) (ph : Phdr) (v : IsSegment size ph) (n : NoWrap ph)
    (below : file + size ≤ 0x800000) where
  -- Its bytes from the file, zeros behind them, and nothing else.
  pub load_segment_lem :
      (a : ℕ)
      → ph.p_type ≡ 1
      → load_segment m file ph a ≡ (
          if leb ph.p_vaddr a && ltb a (ph.p_vaddr + ph.p_filesz)
          then m (file + ph.p_offset + (a - ph.p_vaddr))
          else if leb ph.p_vaddr a && ltb a (ph.p_vaddr + ph.p_memsz)
          then 0
          else m a)
  unfolding load_segment
  load_segment_lem a t =
      let copied : Mem = memcpy m ph.p_vaddr (file + ph.p_offset) ph.p_filesz in
      let file_bytes =
        memcpy_lem m ph.p_vaddr (file + ph.p_offset) ph.p_filesz a
          (inr (omega (arith, below, v.in_file, v.address))) in
      let zeros = memset_lem copied (ph.p_vaddr + ph.p_filesz) 0 (ph.p_memsz - ph.p_filesz) a in
      ground (arith, file_bytes, zeros, t, v.in_memory)

-- Memory that is the same outside the user range.
abbrev pub IsKept : Mem → Mem → Type 0
IsKept m t = (a : ℕ) → (a < 0x800000) ⊎ (0xA00000 ≤ a) → t a ≡ m a

load_segment-IsKept :
    (m : Mem) (file size : ℕ) (ph : Phdr)
    → (ph.p_type ≡ 1 → IsSegment size ph)
    → (ph.p_type ≡ 1 → NoWrap ph)
    → file + size ≤ 0x800000
    → IsKept m (load_segment m file ph)
unfolding load_segment
load_segment-IsKept m file size ph v n below a out = elim (Bool-cases (ph.p_type == 1)) [
  | inr e ↦ rw e refl
  | inl e ↦
      let load : ph.p_type ≡ 1 = ground arith in
      let ok : IsSegment size ph = v load in
      let whole = load_segment_lem m file size ph ok (n load) below a load in
      let outside : (ph.p_vaddr + ph.p_memsz ≤ a) ⊎ (a < ph.p_vaddr) =
        omega (arith, ok.in_range, ok.address, n load, out) in
      whole ∙ ground (arith, outside, ok.in_memory)
]

-- Reads below `top` from memory that is the same there.
module _ (m t : Mem) (top : ℕ) (same : (a : ℕ) → a < top → t a ≡ m a) where
  load32_same : (a : ℕ) → a + 4 ≤ top → load32 t a ≡ load32 m a
  unfolding load32
  load32_same a h =
      rw
        (
          same a (omega arith),
          same (a + 1) (omega arith),
          same (a + 2) (omega arith),
          same (a + 3) (omega arith),
        )
        refl

  load16_same : (a : ℕ) → a + 2 ≤ top → load16 t a ≡ load16 m a
  unfolding load16
  load16_same a h = rw (same a (omega arith), same (a + 1) (omega arith)) refl

  phdr_at_same : (a : ℕ) → a + 32 ≤ top → phdr_at t a ≡ phdr_at m a
  unfolding phdr_at
  phdr_at_same a h =
      rw
        (
          load32_same a (omega arith),
          load32_same (a + 4) (omega arith),
          load32_same (a + 8) (omega arith),
          load32_same (a + 16) (omega arith),
          load32_same (a + 20) (omega arith),
        )
        refl

  phdr_same :
      (file i : ℕ)
      → file + 52 ≤ top
      → file + e_phoff m file + i * e_phentsize m file + 32 ≤ top
      → phdr t file i ≡ phdr m file i
  phdr_same file i h l =
      ap₂ (λ o e. phdr_at t (file + o + i * e)) (load32_same (file + 28) (omega arith))
        (load16_same (file + 42) (omega arith))
      ∙ phdr_at_same (file + e_phoff m file + i * e_phentsize m file) l

-- What the theorem takes of a file that passed the checks.
record IsGood (m : Mem) (file size : ℕ) : Type 0 where
  program : IsProgram m file size
  header : 52 ≤ size
  below : file + size ≤ 0x800000
  no_wrap : (i : ℕ) → i < e_phnum m file → (phdr m file i).p_type ≡ 1 → NoWrap (phdr m file i)

entry_inside :
    (m : Mem) (file size i : ℕ)
    → IsGood m file size
    → i < e_phnum m file
    → file + e_phoff m file + i * e_phentsize m file + 32 ≤ 0x800000
entry_inside m file size i v h =
    let rows : (i + 1) * e_phentsize m file ≤ e_phnum m file * e_phentsize m file =
      mul-le-mul {n₁ = i + 1} {m₁ = e_phentsize m file} {n₂ = e_phnum m file}
        {m₂ = e_phentsize m file} (omega arith) (omega arith) in
    omega (arith, rows, v.program.table, v.program.entries, v.below)

load_segments-IsKept :
    (m t : Mem) (file size i n : ℕ)
    → IsGood m file size
    → IsKept m t
    → i + n ≤ e_phnum m file
    → IsKept m (load_segments t file i n)
unfolding load_segments
load_segments-IsKept m t file size i zero v k h = k
load_segments-IsKept m t file size i (suc n) v k h =
    let ph : phdr t file i ≡ phdr m file i =
      phdr_same m t 0x800000 (λ a l. k a (inl l)) file i (omega (arith, v.header, v.below))
        (entry_inside m file size i v (omega arith)) in
    let next : Mem = load_segment t file (phdr t file i) in
    let step : IsKept t next =
      load_segment-IsKept t file size (phdr t file i)
        (subst (λ p. p.p_type ≡ 1 → IsSegment size p) (sym ph) (v.program.segments i (omega arith)))
        (subst (λ p. p.p_type ≡ 1 → NoWrap p) (sym ph) (v.no_wrap i (omega arith))) v.below in
    load_segments-IsKept m next file size (i + 1) n v (λ a out. step a out ∙ k a out) (omega arith)

put_trampoline-IsKept : (m : Mem) → IsKept m (put_trampoline m)
unfolding put_trampoline store32
put_trampoline-IsKept m a out = ground (arith, out)

check_header_size : (m : Mem) (file size : ℕ) → check_header m file size ≡ none → 52 ≤ size
unfolding check_header
check_header_size m file size e = ground (arith, e)

check_elf_size : (m : Mem) (file size : ℕ) → check_elf m file size ≡ none → 52 ≤ size
unfolding check_elf
check_elf_size m file size e = elim (Option-cases (check_header m file size)) [
  | inr (x, bad) ↦ absurd (ground (arith, bad, e))
  | inl good ↦ check_header_size m file size good
]

-- A file that passes the checks, lies below the user range and has no segment that reaches past the
-- end of the memory is loaded without a write outside the user range, from 8 MB to 10 MB.
pub load_elf-IsKept :
    (m : Mem) (file size : ℕ)
    → IsBytes m
    → file + size ≤ 0x800000
    → check_elf m file size ≡ none
    → ((i : ℕ) → i < e_phnum m file → (phdr m file i).p_type ≡ 1 → NoWrap (phdr m file i))
    → IsKept m (load_elf m file)
unfolding load_elf
load_elf-IsKept m file size b below e n a out =
    let good : IsGood m file size = record {
      program = check_elf-IsProgram m file size b e;
      header = check_elf_size m file size e;
      below = below;
      no_wrap = n;
    } in
    let loaded : Mem = load_segments m file 0 (e_phnum m file) in
    put_trampoline-IsKept loaded a out
    ∙ load_segments-IsKept m m file size 0 (e_phnum m file) good (λ a o. refl) (omega arith) a out
