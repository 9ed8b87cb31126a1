-- ===== src/Elf/Tests.antt =====
-- A small program file for kernel/elf.c, with one segment of four bytes and four zeros.
use noverix.Base.{ℕ, zero, suc, ◌+◌, ◌<◌, ◌≡◌, refl, arith, none}
use noverix.Memory.{
  load16, Mem, load32, store16, store32, store16-IsBytes, store32-IsBytes, IsBytes,
}
use noverix.Elf.{
  push_words, check_header, check_segments, phdr_at, phdr, e_phnum, check_segment, check_elf,
  load_elf, first_frame,
}
use noverix.Elf.Checks.{IsProgram, check_elf-IsProgram}
use noverix.Elf.Loading.{NoWrap, IsKept, load_elf-IsKept}

abbrev blank : Mem
blank k = 0

abbrev file : ℕ
file = 0x100000

abbrev header : Mem
header =
    store16
      (store16
        (store32
          (store32 (store16 (store32 (store32 blank file 0x464C457F) (file + 4) 1) (file + 18) 3)
            (file + 24) 0x800000)
          (file + 28) 52)
        (file + 42) 32)
      (file + 44) 1

abbrev program : Mem
program =
    store32
      (store32
        (store32 (store32 (store32 header (file + 52) 1) (file + 56) 84) (file + 60) 0x800000)
        (file + 68) 4)
      (file + 72) 8

program-IsBytes : IsBytes program
program-IsBytes = store32-IsBytes _ _ _ (
    store32-IsBytes _ _ _ (
      store32-IsBytes _ _ _ (
        store32-IsBytes _ _ _ (
          store32-IsBytes _ _ _ (
            store16-IsBytes _ _ _ (
              store16-IsBytes _ _ _ (
                store32-IsBytes _ _ _ (
                  store32-IsBytes _ _ _ (
                    store16-IsBytes _ _ _ (
                      store32-IsBytes _ _ _ (store32-IsBytes blank _ _ (λ a. omega arith))))))))))))

program_passes : check_elf program file 88 ≡ none
unfolding check_elf check_header load32 store32 store16 load16 check_segments check_segment phdr_at
program_passes = refl

check_elf-IsProgram_example : IsProgram program file 88
check_elf-IsProgram_example = check_elf-IsProgram program file 88 program-IsBytes program_passes

segment_is : ((phdr program file 0).p_vaddr ≡ 0x800000) × ((phdr program file 0).p_memsz ≡ 8)
unfolding phdr_at load32 store32 store16 load16
segment_is = (refl, refl)

one_segment : e_phnum program file ≡ 1
unfolding load16 store32 store16
one_segment = refl

segments-NoWrap :
    (i : ℕ)
    → i < e_phnum program file
    → (phdr program file i).p_type ≡ 1
    → NoWrap (phdr program file i)
segments-NoWrap zero h load = omega (arith, segment_is.0, segment_is.1)
segments-NoWrap (suc i) h load = absurd (omega (arith, one_segment, h))

load_elf-IsKept_example : IsKept program (load_elf program file)
load_elf-IsKept_example =
    load_elf-IsKept program file 88 program-IsBytes (omega arith) program_passes segments-NoWrap

-- A segment of almost 4 GB passes the checks.
huge_passes :
    check_segment 88
      (record { p_type = 1; p_offset = 84; p_vaddr = 0x800000; p_filesz = 4; p_memsz = 0xFFFF0000 })
    ≡ none
unfolding check_segment
huge_passes = refl

framed :
    ((first_frame blank 0x300000 4096 0x9FFFFC 0x800000).1 ≡ 0x300FB4)
    × (load32 (first_frame blank 0x300000 4096 0x9FFFFC 0x800000).0 (0x300FB4 + 56) ≡ 0x800000)
unfolding first_frame push_words load32 store32
framed = (refl, refl)
