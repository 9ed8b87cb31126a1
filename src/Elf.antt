-- ===== src/Elf.antt =====
-- `elf_exec` of kernel/elf.c: the checks of the file, the copying of its segments and the first stack
-- frame. The file lies in `elf_load_buf`, at the address `file`; the memory is that of the program's
-- page directory, in which the kernel is mapped too.
pub mod Checks
pub mod Loading
mod Tests
use noverix.Base.{
  ℕ, zero, suc, ◌+◌, ◌-◌, ◌*◌, ◌==◌, ◌!=◌, ltb, leb, ◌||◌, if◌then◌else◌, Bool, true, false, Option,
  none, some, update, u32, List, [], ◌∷◌,
}
use noverix.Memory.{Mem, load16, load32, store32}
use noverix.CLib.{memcpy, memset}

abbrev pub user_elf_base : ℕ
user_elf_base = 0x00800000

abbrev pub user_elf_limit : ℕ
user_elf_limit = 0x00900000

abbrev pub user_stack_top : ℕ
user_stack_top = 0x00A00000

abbrev pub user_exit_tramp : ℕ
user_exit_tramp = 0x009FFE00

abbrev pub elf_magic : ℕ
elf_magic = 0x464C457F

abbrev pub pt_load : ℕ
pt_load = 1

abbrev pub ehdr_size : ℕ
ehdr_size = 52

abbrev pub phdr_size : ℕ
phdr_size = 32

-- The messages with which the checks end.
pub data ElfError : Type 0 where
  not_read : ElfError
  too_small : ElfError
  bad_magic : ElfError
  not_32_bit : ElfError
  not_x86 : ElfError
  bad_entry : ElfError
  table_overflow : ElfError
  table_outside : ElfError
  small_entries : ElfError
  bad_address : ElfError
  past_user_range : ElfError
  past_file : ElfError
  file_past_memory : ElfError

-- The fields of `elf32_ehdr_t` that are read.
abbrev pub e_machine : Mem → (ehdr : ℕ) → ℕ
e_machine m ehdr = load16 m (ehdr + 18)

abbrev pub e_entry : Mem → (ehdr : ℕ) → ℕ
e_entry m ehdr = load32 m (ehdr + 24)

abbrev pub e_phoff : Mem → (ehdr : ℕ) → ℕ
e_phoff m ehdr = load32 m (ehdr + 28)

abbrev pub e_phentsize : Mem → (ehdr : ℕ) → ℕ
e_phentsize m ehdr = load16 m (ehdr + 42)

abbrev pub e_phnum : Mem → (ehdr : ℕ) → ℕ
e_phnum m ehdr = load16 m (ehdr + 44)

pub record Phdr : Type 0 where
  pub p_type : ℕ
  pub p_offset : ℕ
  pub p_vaddr : ℕ
  pub p_filesz : ℕ
  pub p_memsz : ℕ

-- The fields of `elf32_phdr_t` that are read.
unfoldable pub phdr_at : Mem → (at : ℕ) → Phdr
phdr_at m at = record {
  p_type = load32 m at;
  p_offset = load32 m (at + 4);
  p_vaddr = load32 m (at + 8);
  p_filesz = load32 m (at + 16);
  p_memsz = load32 m (at + 20);
}

-- `(elf32_phdr_t *)(ph_table + i * ehdr->e_phentsize)`
abbrev pub phdr : Mem → (file i : ℕ) → Phdr
phdr m file i = phdr_at m (file + e_phoff m file + i * e_phentsize m file)

abbrev pub table_size : Mem → (file : ℕ) → ℕ
table_size m file = u32 (e_phnum m file * e_phentsize m file)

-- The checks of the header, of a file of `size` bytes. `e_phnum` and `e_phentsize` have 16 bits, so
-- that they are never above 0xFFFF.
unfoldable pub check_header : Mem → (file size : ℕ) → Option ElfError
check_header m file size =
    if size == 0
    then some not_read
    else if ltb size ehdr_size
    then some too_small
    else if load32 m file != elf_magic
    then some bad_magic
    else if m (file + 4) != 1
    then some not_32_bit
    else if e_machine m file != 3
    then some not_x86
    else if ltb (e_entry m file) user_elf_base || leb user_elf_limit (e_entry m file)
    then some bad_entry
    else if ltb (0xFFFFFFFF - e_phoff m file) (table_size m file)
    then some table_overflow
    else if ltb size (u32 (e_phoff m file + table_size m file))
    then some table_outside
    else if ltb (e_phentsize m file) phdr_size
    then some small_entries
    else none

-- The body of the loop over the program headers.
unfoldable pub check_segment : (size : ℕ) → Phdr → Option ElfError
check_segment size ph =
    if ph.p_type != pt_load
    then none
    else if ltb ph.p_vaddr user_elf_base || leb user_elf_limit ph.p_vaddr
    then some bad_address
    else if ltb user_stack_top (u32 (ph.p_vaddr + ph.p_memsz))
    then some past_user_range
    else if ltb (u32 (ph.p_offset + ph.p_filesz)) ph.p_offset
        || ltb size (u32 (ph.p_offset + ph.p_filesz))
    then some past_file
    else if ltb ph.p_memsz ph.p_filesz
    then some file_past_memory
    else none

unfoldable pub check_segments : Mem → (file size i n : ℕ) → Option ElfError
check_segments m file size i zero = none
check_segments m file size i (suc n) = elim (check_segment size (phdr m file i)) [
  | some e ↦ some e
  | none ↦ check_segments m file size (i + 1) n
]

-- All checks, none where the file passes.
unfoldable pub check_elf : Mem → (file size : ℕ) → Option ElfError
check_elf m file size = elim (check_header m file size) [
  | some e ↦ some e
  | none ↦ check_segments m file size 0 (e_phnum m file)
]

-- The body of the second loop. Addresses do not go round at 2^32 here; for a segment that does not
-- reach past it they do not in the C code either.
unfoldable pub load_segment : Mem → (file : ℕ) → Phdr → Mem
load_segment m file ph =
    let copied = memcpy m ph.p_vaddr (file + ph.p_offset) ph.p_filesz in
    let zeroed = memset copied (ph.p_vaddr + ph.p_filesz) 0 (ph.p_memsz - ph.p_filesz) in
    if ph.p_type == pt_load then (if ltb ph.p_filesz ph.p_memsz then zeroed else copied) else m

unfoldable pub load_segments : Mem → (file i n : ℕ) → Mem
load_segments m file i zero = m
load_segments m file i (suc n) = load_segments (load_segment m file (phdr m file i)) file (i + 1) n

-- The exit trampoline, and the address of it on the user stack.
unfoldable pub put_trampoline : Mem → Mem
put_trampoline m =
    let t1 = update m user_exit_tramp 0xB8 in
    let t2 = store32 t1 (user_exit_tramp + 1) 0 in
    let t3 = update (update t2 (user_exit_tramp + 5) 0xCD) (user_exit_tramp + 6) 0x80 in
    store32 t3 (user_stack_top - 4) user_exit_tramp

-- What the program finds in its memory.
unfoldable pub load_elf : Mem → (file : ℕ) → Mem
load_elf m file = put_trampoline (load_segments m file 0 (e_phnum m file))

-- `*--sp = v` for each value.
unfoldable pub push_words : Mem → (sp : ℕ) → List ℕ → Mem × ℕ
push_words m sp [] = (m, sp)
push_words m sp (v ∷ vs) = push_words (store32 m (sp - 4) v) (sp - 4) vs

-- The frame with which the task is first entered: what `iret` takes, two words for the number and
-- the code of an interrupt, eight registers and four segments. The result is `kernel_esp`.
unfoldable pub first_frame : Mem → (stack stack_size usp entry : ℕ) → Mem × ℕ
first_frame m stack stack_size usp entry = push_words m (stack + stack_size) (
    0x23 ∷ usp ∷ 0x202 ∷ 0x1B ∷ entry ∷ 0 ∷ 0 ∷ 0 ∷ 0 ∷ 0 ∷ 0 ∷ 0 ∷ 0 ∷ 0 ∷ 0 ∷ 0x23 ∷ 0x23 ∷ 0x23
    ∷ 0x23 ∷ [])
