-- ===== src/Pfa.antt =====
-- kernel/memory/pfa.c, the page frame allocator: one bit for each frame of 4096 bytes.
-- Each function runs with `pfa_lock` held, so it is one step on the state. Log lines are left out.
pub mod Bitmap
pub mod Single
pub mod Init
pub mod Runs
mod Tests
use noverix.Base.{
  ℕ, zero, suc, ◌+◌, ◌-◌, ◌*◌, ◌/◌, ◌%◌, ◌^◌, ◌==◌, ltb, leb, if◌then◌else◌, Bool, true, false,
  ◌||◌, u32, bit_and, bit_not, bit_at, with_bit, without_bit, update,
}

abbrev pub frame_size : ℕ
frame_size = 4096

abbrev pub max_memory : ℕ
max_memory = 1024 * 1024 * 1024

abbrev pub max_frames : ℕ
max_frames = max_memory / frame_size

-- `bitmap` and `total_frames`. The array has `max_frames / 8` bytes; no call reads further.
pub record Pfa : Type 0 where
  pub bitmap : ℕ → ℕ
  pub total_frames : ℕ

-- FRAME and ADDR
abbrev pub frame_of : ℕ → ℕ
frame_of addr = addr / frame_size

abbrev pub addr_of : ℕ → ℕ
addr_of frame = u32 (frame * frame_size)

unfoldable pub set_bit : Pfa → ℕ → Pfa
set_bit p frame = record p {
  bitmap = update p.bitmap (frame / 8) (with_bit (p.bitmap (frame / 8)) (frame % 8));
}

unfoldable pub clear_bit : Pfa → ℕ → Pfa
clear_bit p frame = record p {
  bitmap = update p.bitmap (frame / 8) (without_bit (p.bitmap (frame / 8)) (frame % 8));
}

unfoldable pub test_bit : Pfa → ℕ → ℕ
test_bit p frame = bit_at (p.bitmap (frame / 8)) (frame % 8)

unfoldable pub mark_frame : Pfa → ℕ → Pfa
mark_frame p addr = if ltb (frame_of addr) p.total_frames then set_bit p (frame_of addr) else p

-- `for (a = …; …; a += FRAME_SIZE) mark_frame(a)`, with the rounds that are left.
unfoldable pub mark_frames : Pfa → ℕ → ℕ → Pfa
mark_frames p a zero = p
mark_frames p a (suc n) = mark_frames (mark_frame p a) (u32 (a + frame_size)) n

-- The marking half of `pfa_init`: the kernel's image, then the memory below 1 MB.
unfoldable pub mark_reserved : Pfa → (kernel_end : ℕ) → Pfa
mark_reserved p kernel_end =
    let image = mark_frames p 0 (kernel_end / frame_size) in
    let low = mark_frame (mark_frame image 0x90000) 0xA0000 in
    mark_frames low 0xA0000 ((0x100000 - 0xA0000) / frame_size)

abbrev pub fresh_bitmap : ℕ → Pfa
fresh_bitmap ram = record { bitmap = λ _. 0; total_frames = ram / frame_size }

-- `bss_end` is the address of the linker's symbol. The bitmap starts as static storage does.
unfoldable pub pfa_init : (detected_ram bss_end : ℕ) → Pfa
pfa_init detected_ram bss_end =
    let ram = if ltb max_memory detected_ram then max_memory else detected_ram in
    let kernel_end = bit_and (u32 (bss_end + frame_size - 1)) (bit_not 32 (frame_size - 1)) in
    mark_reserved (fresh_bitmap ram) kernel_end

-- The loop of `alloc_frame` at frame `i`. The address 0 is its null pointer.
unfoldable pub alloc_from : Pfa → ℕ → ℕ → Pfa × ℕ
alloc_from p i zero = (p, 0)
alloc_from p i (suc n) =
    let rest = alloc_from p (i + 1) n in
    if test_bit p i == 0 then (set_bit p i, addr_of i) else rest

unfoldable pub alloc_frame : Pfa → Pfa × ℕ
alloc_frame p = alloc_from p 0 p.total_frames

unfoldable pub free_frame : Pfa → ℕ → Pfa
free_frame p addr =
    if addr == 0
    then p
    else if ltb (frame_of addr) p.total_frames
    then clear_bit p (frame_of addr)
    else p

unfoldable pub count_from : Pfa → ℕ → ℕ → ℕ
count_from p i zero = 0
count_from p i (suc n) = (if test_bit p i == 0 then 1 else 0) + count_from p (i + 1) n

unfoldable pub get_free_frame_count : Pfa → ℕ
get_free_frame_count p = count_from p 0 p.total_frames

-- The inner loops of `alloc_frames`: is the run free, and mark it.
unfoldable pub run_is_free : Pfa → ℕ → ℕ → Bool
run_is_free p i zero = true
run_is_free p i (suc n) =
    let rest = run_is_free p (i + 1) n in if test_bit p i == 0 then rest else false

unfoldable pub set_run : Pfa → ℕ → ℕ → Pfa
set_run p i zero = p
set_run p i (suc n) = set_run (set_bit p i) (i + 1) n

unfoldable pub alloc_run_from : Pfa → (count start rounds : ℕ) → Pfa × ℕ
alloc_run_from p count start zero = (p, 0)
alloc_run_from p count start (suc n) =
    let rest = alloc_run_from p count (start + 1) n in
    if run_is_free p start count then (set_run p start count, addr_of start) else rest

unfoldable pub alloc_frames : Pfa → ℕ → Pfa × ℕ
alloc_frames p count =
    if count == 0 || ltb p.total_frames count
    then (p, 0)
    else alloc_run_from p count 0 (p.total_frames - count + 1)

unfoldable pub clear_run : Pfa → ℕ → ℕ → Pfa
clear_run p i zero = p
clear_run p i (suc n) =
    clear_run (if ltb (u32 i) p.total_frames then clear_bit p (u32 i) else p) (i + 1) n

unfoldable pub free_frames : Pfa → (addr count : ℕ) → Pfa
free_frames p addr count = clear_run p (frame_of addr) count
