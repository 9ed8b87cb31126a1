-- ===== src/Nvfs/Extents/OneBlock.antt =====
-- One round of the loop of `extent_write` in kernel/drivers/nvfs.c: a block is written and its bit set.
use noverix.Base.{
  ℕ, ◌+◌, ◌/◌, ◌%◌, ◌≤◌, ◌<◌, ◌≡◌, ◌≢◌, ◌⊎◌, refl, arith, ◌∙◌, ap, ◌==◌, if◌then◌else◌, true, some,
}
use noverix.Memory.{Mem, IsBytes}
use noverix.Nvfs.Disk.{
  Nvfs, drive, put_sector, read_sector, read_block, write_sector, write_block, block_lba,
  read_sector-put_sector_ne,
}
use noverix.Nvfs.Bitmap.{bitmap_lba, bit_of, bitmap_test, bitmap_set}
use noverix.Nvfs.Bitmap.Bits.{
  IsLaidOut, IsManaged, bitmap_lba_small, block_lba_small, put_bit, bitmap_set-put_bit,
  put_bit-IsLaidOut, bitmap_test-put_bit,
}

-- A drive on which every sector can be read and written.
pub record IsHealthy (s : Nvfs) : Type 0 where
  pub reads : (lba : ℕ) → s.can_read (drive s) lba ≡ true
  pub writes : (lba : ℕ) → s.can_write (drive s) lba ≡ true

-- The state with other sectors.
abbrev pub on : Nvfs → ((drive lba : ℕ) → Mem) → Nvfs
on s f = record s { sector = f }

-- The state after one round.
abbrev pub block_put : Nvfs → ℕ → Mem → Nvfs
block_put s block buf = put_bit (put_sector s (block_lba s block) buf) block true

module _ (s : Nvfs) (block : ℕ) (buf : Mem) (v : IsLaidOut s) (h : IsHealthy s)
    (m : IsManaged s block) where
  pub block_put_lem :
      (write_block block buf s ≡ (some tt, put_sector s (block_lba s block) buf))
      × (bitmap_set block true (put_sector s (block_lba s block) buf)
          ≡ (some tt, block_put s block buf))
  unfolding write_block write_sector
  block_put_lem = (
    rw (h.writes (block_lba s block)) refl,
    bitmap_set-put_bit (put_sector s (block_lba s block) buf) block true
        (h.reads (bitmap_lba s block)) (h.writes (bitmap_lba s block)),
  )

  -- The block now holds the buffer.
  pub block_put_self : read_block (block_put s block buf) block ≡ some buf
  unfolding read_block read_sector
  block_put_self =
      let lba : block_lba s block ≡ s.offset + s.data_start + block = block_lba_small s block v m in
      let bit : bitmap_lba s block ≡ s.offset + s.bitmap_start + block / 4096 =
        bitmap_lba_small s block v m in
      rw (h.reads (block_lba s block)) (ground (arith, lba, bit, v.bitmap_end, v.inode_end))

  -- A sector that is neither the block's nor in the bitmap keeps its content.
  pub block_put_other :
      (l : ℕ)
      → l ≢ block_lba s block
      → (l < s.offset + s.bitmap_start) ⊎ (s.offset + s.bitmap_start + s.bitmap_sectors ≤ l)
      → (block_put s block buf).sector (drive s) l ≡ s.sector (drive s) l
  block_put_other l n away =
      let bit : bitmap_lba s block ≡ s.offset + s.bitmap_start + block / 4096 =
        bitmap_lba_small s block v m in
      let apart : l ≢ bitmap_lba s block = omega (arith, bit, away) in ground (arith, n, apart)

  put_sector-IsLaidOut : IsBytes buf → IsLaidOut (put_sector s (block_lba s block) buf)
  put_sector-IsLaidOut b = record {
    bitmap_first = v.bitmap_first;
    bitmap_end = v.bitmap_end;
    inode_end = v.inode_end;
    inodes = v.inodes;
    fits = v.fits;
    bytes = λ d lba x. ground (arith, v.bytes d lba x, b x);
  }

  pub block_put-IsLaidOut : IsBytes buf → IsLaidOut (block_put s block buf)
  block_put-IsLaidOut b =
      put_bit-IsLaidOut (put_sector s (block_lba s block) buf) block true (put_sector-IsLaidOut b)

  -- The block is in use now, and the bits of the others are as they were.
  pub bitmap_test-block_put :
      (b : ℕ)
      → IsBytes buf
      → IsManaged s b
      → bitmap_test (block_put s block buf) b ≡ (if block == b then some 1 else bitmap_test s b)
  unfolding bitmap_test
  bitmap_test-block_put b bytes managed =
      let bit : bitmap_lba s b ≡ s.offset + s.bitmap_start + b / 4096 =
        bitmap_lba_small s b v managed in
      let lba : block_lba s block ≡ s.offset + s.data_start + block = block_lba_small s block v m in
      let apart : block_lba s block ≢ bitmap_lba s b =
        omega (arith, bit, lba, v.bitmap_end, v.inode_end) in
      bitmap_test-put_bit (put_sector s (block_lba s block) buf) block b true
        (put_sector-IsLaidOut bytes) m managed (h.reads (bitmap_lba s block))
      ∙ ap (λ o. if block == b then some 1 else bit_of o (b % 4096))
          (read_sector-put_sector_ne s (block_lba s block) (bitmap_lba s b) buf apart)
