-- ===== src/Heap.antt =====
-- kernel/memory/heap.c: a first-fit allocator with boundary tags over byte-addressed memory. The
-- header word of a block holds its size with the lowest bit set while it is in use; the footer word
-- holds the size. Each function runs with `heap_lock` held. Log lines are left out.
pub mod Blocks
pub mod Malloc
pub mod Free
pub mod Release
pub mod Client
pub mod Realloc
mod Tests
pub mod Walk
use noverix.Base.{
  ℕ, zero, suc, ◌+◌, ◌-◌, ◌*◌, ◌/◌, ◌%◌, ◌^◌, ◌==◌, ltb, leb, if◌then◌else◌, Bool, true, false,
  ◌&&◌, ◌||◌, not, u32, sub32, bit_and, bit_or, bit_not,
}
use noverix.Memory.{Mem, load32, store32}
use noverix.CLib.{memcpy, memset}

abbrev pub heap_start : ℕ
heap_start = 0x800000

abbrev pub heap_size : ℕ
heap_size = 0x200000

abbrev pub heap_end : ℕ
heap_end = heap_start + heap_size

-- HEADER_SIZE + FOOTER_SIZE + 4
abbrev pub min_block : ℕ
min_block = 12

-- What a call comes back with: the memory and a pointer (0 is null), or not at all, where the
-- code stops the machine. `no_fuel` is never reached: see `Heap.Walk`.
pub data Reply : Type 0 where
  returned : Mem → ℕ → Reply
  halted no_fuel : Reply

unfoldable pub set_footer : Mem → (addr size : ℕ) → Mem
set_footer m addr size = store32 m (sub32 (addr + size) 4) size

unfoldable pub heap_init : Mem → Mem
heap_init m = set_footer (store32 m heap_start heap_size) heap_start heap_size

-- `(size + ALIGN - 1) & ~(ALIGN - 1)`
unfoldable pub align_up : ℕ → ℕ
align_up size = bit_and (u32 (size + 3)) (bit_not 32 3)

unfoldable pub block_need : ℕ → ℕ
block_need size =
    let need = u32 (4 + align_up size + 4) in if ltb need min_block then min_block else need

-- `*hdr & ~1` and `!(*hdr & 1)`
unfoldable pub size_field : ℕ → ℕ
size_field hdr = bit_and hdr (bit_not 32 1)

unfoldable pub is_free : ℕ → Bool
is_free hdr = bit_and hdr 1 == 0

-- Take `need` bytes of the free block at `addr`, and leave the rest as a free block if it is large
-- enough for one.
unfoldable pub place : Mem → (addr block_size need : ℕ) → Mem
place m addr block_size need =
    let remaining = block_size - need in
    if leb min_block remaining
    then set_footer
        (store32 (set_footer (store32 m addr (bit_or need 1)) addr need) (addr + need) remaining)
        (addr + need) remaining
    else set_footer (store32 m addr (bit_or block_size 1)) addr block_size

unfoldable pub malloc_from : (fuel : ℕ) → Mem → (need addr : ℕ) → Reply
malloc_from zero m need addr = no_fuel
malloc_from (suc f) m need addr =
    let hdr = load32 m addr in
    let block_size = size_field hdr in
    let rest = malloc_from f m need (addr + block_size) in
    if ltb addr heap_end
    then (if block_size == 0 || ltb heap_size block_size
        then halted
        else if is_free hdr && leb need block_size
        then returned (place m addr block_size need) (addr + 4)
        else rest)
    else returned m 0

-- Every block that the loop passes has at least two bytes.
abbrev pub malloc_fuel : ℕ
malloc_fuel = heap_size / 2 + 1

unfoldable pub malloc : Mem → (size : ℕ) → Reply
malloc m size =
    if size == 0
    then returned m 0
    else if ltb heap_size size
    then returned m 0
    else malloc_from malloc_fuel m (block_need size) heap_start

-- Join the block at `addr` with the block behind it, if that is free. The size goes along.
unfoldable pub merge_next : Mem → (addr size : ℕ) → Mem × ℕ
merge_next m addr size =
    let next_addr = u32 (addr + size) in
    let next_hdr = load32 m next_addr in
    let next_size = size_field next_hdr in
    let joined = u32 (size + next_size) in
    if (leb heap_start next_addr && ltb next_addr heap_end)
      && ((leb min_block next_size && ltb next_size heap_size) && is_free next_hdr)
    then (set_footer (store32 m addr joined) addr joined, joined)
    else (m, size)

unfoldable pub merge_prev : Mem → (addr size : ℕ) → Mem
merge_prev m addr size =
    let prev_size = load32 m (addr - 4) in
    let prev_addr = sub32 addr prev_size in
    let joined = u32 (size + prev_size) in
    if ltb (heap_start + min_block) addr
      && ((leb min_block prev_size && ltb prev_size heap_size)
          && ((leb heap_start prev_addr && ltb prev_addr addr) && is_free (load32 m prev_addr)))
    then set_footer (store32 m prev_addr joined) prev_addr joined
    else m

-- Clear the header's bit and join the block with its neighbours.
unfoldable pub release : Mem → (addr size : ℕ) → Mem
release m addr size =
    let (joined, total) = merge_next (set_footer (store32 m addr size) addr size) addr size in
    merge_prev joined addr total

unfoldable pub free : Mem → (ptr : ℕ) → Mem
free m ptr =
    let addr = sub32 ptr 4 in
    let hdr = load32 m addr in
    if ptr == 0
    then m
    else if ltb addr heap_start || leb heap_end addr
    then m
    else if is_free hdr
    then m
    else release m addr (size_field hdr)

-- The block at `addr` is large enough: cut off what is left over, if that makes a block.
unfoldable pub shrink : Mem → (addr old_size new_need : ℕ) → Mem
shrink m addr old_size new_need =
    let remaining = old_size - new_need in
    if leb min_block remaining
    then set_footer
        (store32 (set_footer (store32 m addr (bit_or new_need 1)) addr new_need) (addr + new_need)
          remaining)
        (addr + new_need) remaining
    else m

-- Copy to the new block and free the old one, unless there is no new one.
unfoldable pub move_to : Reply → (ptr copy_size : ℕ) → Reply
move_to halted ptr copy_size = halted
move_to no_fuel ptr copy_size = no_fuel
move_to (returned m new_ptr) ptr copy_size =
    if new_ptr == 0
    then returned m 0
    else returned (free (memcpy m new_ptr ptr copy_size) ptr) new_ptr

unfoldable pub realloc : Mem → (ptr size : ℕ) → Reply
realloc m ptr size =
    let addr = sub32 ptr 4 in
    let hdr = load32 m addr in
    let old_size = size_field hdr in
    let old_data_size = sub32 old_size 8 in
    let rounded = align_up size in
    let new_need = block_need size in
    let copy_size = if ltb old_data_size rounded then old_data_size else rounded in
    if ptr == 0
    then malloc m size
    else if size == 0
    then returned (free m ptr) 0
    else if ltb addr heap_start || leb heap_end addr
    then returned m 0
    else if is_free hdr
    then returned m 0
    else if leb new_need old_size
    then returned (shrink m addr old_size new_need) ptr
    else move_to (malloc m rounded) ptr copy_size

-- Zero the new block, if there is one.
unfoldable pub cleared : Reply → (total : ℕ) → Reply
cleared halted total = halted
cleared no_fuel total = no_fuel
cleared (returned m ptr) total = returned (if ptr == 0 then m else memset m ptr 0 total) ptr

unfoldable pub calloc : Mem → (num size : ℕ) → Reply
calloc m num size =
    if num == 0 || size == 0
    then returned m 0
    else if ltb (0xFFFFFFFF / size) num
    then returned m 0
    else cleared (malloc m (u32 (num * size))) (u32 (num * size))
