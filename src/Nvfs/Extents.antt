-- ===== src/Nvfs/Extents.antt =====
-- The data of a file in kernel/drivers/nvfs.c: `extent_read` and `extent_write`.
pub mod ReadBack
pub mod OneBlock
pub mod Written
pub mod WriteRead
use noverix.Base.{
  ℕ, zero, suc, ◌+◌, ◌-◌, ◌*◌, ◌/◌, ◌==◌, ltb, min, if◌then◌else◌, Bool, true, false, Option, none,
  some, u32, List, [], ◌∷◌, ◌++◌, length,
}
use noverix.Memory.{Mem}
use noverix.Nvfs.Disk.{
  Nvfs, sector_size, max_extents, M, pure, fail, attempt, ask, ◌>>=◌, ◌>>◌, read_block, write_block,
}
use noverix.Nvfs.Bitmap.{bitmap_set, bitmap_find}
use noverix.Nvfs.Inode.{Extent, no_extent, Inode, extent_load_all, extent_cache_max, free_blocks}

-- The bytes of a buffer at `n` places from `k` on.
unfoldable pub bytes_from : Mem → (k n : ℕ) → List ℕ
bytes_from buf k zero = []
bytes_from buf k (suc n) = buf k ∷ bytes_from buf (k + 1) n

-- The inner loop of `extent_read`: `n` blocks from `block` on, with the bytes that remain.
unfoldable pub read_run : Nvfs → (block n remain : ℕ) → Option (List ℕ)
read_run s block zero remain = some []
read_run s block (suc n) remain =
    let copy = min sector_size remain in
    let rest = read_run s (u32 (block + 1)) n (remain - copy) in
    if remain == 0 then some [] else elim (read_block s block) [
      | none ↦ none
      | some tmp ↦ elim rest [ none ↦ none | some more ↦ some (bytes_from tmp 0 copy ++ more) ]
    ]

unfoldable pub read_extents : Nvfs → List Extent → (remain : ℕ) → Option (List ℕ)
read_extents s [] remain = some []
read_extents s (e ∷ es) remain = elim (read_run s e.start e.count remain) [
  | none ↦ none
  | some first ↦ elim (read_extents s es (remain - length first)) [
    | none ↦ none
    | some more ↦ some (first ++ more)
  ]
]

-- The bytes that are put into `buf`; the C function returns their number.
unfoldable pub extent_read : Nvfs → Inode → (max : ℕ) → Option (List ℕ)
extent_read s inode max = elim (extent_load_all s inode extent_cache_max) [
  | none ↦ none
  | some cache ↦ read_extents s cache (min inode.size max)
]

-- `tmp` for the block that starts at byte `pos` of the data.
unfoldable pub block_of : (bytes : Mem) → (pos copy : ℕ) → Mem
block_of bytes pos copy k = if ltb k copy then bytes (pos + k) else 0

-- The loop that writes the blocks: how many are written.
unfoldable pub write_run : (bytes : Mem) → (start j n pos remain : ℕ) → M ℕ
write_run bytes start j zero pos remain = pure j
write_run bytes start j (suc n) pos remain =
    let copy = min sector_size remain in
    attempt (write_block (u32 (start + j)) (block_of bytes pos copy)) >>= λ r. elim r [
      | none ↦ pure j
      | some _ ↦
          attempt (bitmap_set (u32 (start + j)) true)
          >> write_run bytes start (j + 1) n (pos + copy) (remain - copy)
    ]

abbrev pub one_extent : Inode → (size start count : ℕ) → Inode
one_extent inode size start count = record inode {
  size = size;
  extent_count = 1;
  extents = λ i. if i == 0 then record { start = start; count = count } else no_extent;
}

-- The new inode; `bytes` is the buffer `data`.
unfoldable pub extent_write : Inode → (bytes : Mem) → (size : ℕ) → M Inode
extent_write inode bytes size =
    let needed = u32 (size + (sector_size - 1)) / sector_size in
    let written = (do
      start ← ask (λ s. bitmap_find s needed)
      done ← write_run bytes start 0 needed 0 size
      (if ltb done needed
          then (free_blocks start done >> fail)
          else pure (one_extent inode size start needed))) in
    if size == 0 then pure (record inode { size = 0; extent_count = 0 }) else written
