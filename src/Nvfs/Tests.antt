-- ===== src/Nvfs/Tests.antt =====
-- A small disk of kernel/drivers/nvfs.c: one bitmap sector, four inodes in one sector, and the data.
use noverix.Base.{
  bit_at, ℕ, ◌<◌, ◌%◌, ◌≡◌, ◌≢◌, refl, arith, Bool, true, false, some, ◌==◌, if◌then◌else◌, update,
  ◌&&◌,
}
use noverix.Memory.{Mem, store32}
use noverix.Nvfs.Disk.{Nvfs, read_sector}
use noverix.Nvfs.Bitmap.{rest_is_free, find_from, find_in_sector, bitmap_find, bitmap_test}
use noverix.Nvfs.Bitmap.Bits.{IsLaidOut}
use noverix.Nvfs.Bitmap.FreeRun.{FreeBlocks, bitmap_find-FreeBlocks}
use noverix.Nvfs.Inode.{Inode, inode_write, inode_read, no_extent}
use noverix.Nvfs.Inode.Codec.{IsInode}
use noverix.Nvfs.Inode.Table.{HasTable, put_inode, Finds, inode_write-inode_read}
use noverix.Nvfs.Extents.{extent_write, one_extent}
use noverix.Nvfs.Extents.OneBlock.{IsHealthy, on}
use noverix.Nvfs.Extents.WriteRead.{IsStored, blocks_of, extent_write-extent_read}

abbrev blank : Mem
blank k = 0

abbrev disk : Nvfs
disk = record {
  sector = λ d lba. blank;
  can_read = λ d lba. true;
  can_write = λ d lba. true;
  ticks = 0;
  errno = 0;
  mounted = true;
  ch = 0;
  dr = 0;
  cwd = 0;
  data_start = 4;
  inode_start = 3;
  inode_count = 4;
  inode_blocks = 1;
  bitmap_start = 2;
  bitmap_sectors = 1;
  offset = 0;
}

disk-IsLaidOut : IsLaidOut disk
disk-IsLaidOut = record {
  bitmap_first = omega arith;
  bitmap_end = omega arith;
  inode_end = omega arith;
  inodes = omega arith;
  fits = omega arith;
  bytes = λ d lba x. omega arith;
}

disk-IsHealthy : IsHealthy disk
disk-IsHealthy = record { reads = λ lba. refl; writes = λ lba. refl }

run_found : bitmap_find disk 2 ≡ some 0
unfolding bitmap_find find_from read_sector find_in_sector bit_at rest_is_free bitmap_test
run_found = refl

bitmap_find-FreeBlocks_example : FreeBlocks disk 2 0
bitmap_find-FreeBlocks_example = bitmap_find-FreeBlocks disk 2 0 disk-IsLaidOut run_found

abbrev a_file : Inode
a_file = record {
  size = 700;
  type = 1;
  ctime0 = 1;
  ctime1 = 2;
  ctime2 = 3;
  extent_count = 1;
  extents = λ i. if i == 0 then record { start = 0; count = 2 } else no_extent;
  mtime = 9;
}

a_file-IsInode : IsInode a_file
a_file-IsInode = record {
  size_fits = omega arith;
  type_fits = omega arith;
  ctime_fits = (omega arith, omega arith, omega arith);
  extents_fit = omega arith;
  starts_fit = λ i h. ground arith;
  counts_fit = λ i h. ground arith;
  mtime_fits = omega arith;
}

disk-HasTable : HasTable disk
disk-HasTable = record { inodes = omega arith; fits = omega arith }

inode_write-inode_read_example :
    (inode_write 1 a_file disk ≡ (some tt, put_inode disk 1 a_file))
    × Finds (put_inode disk 1 a_file) 1 a_file
    × ((j : ℕ) (old : Inode)
        → j < disk.inode_count
        → 1 ≢ j
        → inode_read j disk ≡ (some old, disk)
        → Finds (put_inode disk 1 a_file) j old)
inode_write-inode_read_example =
    inode_write-inode_read disk 1 a_file disk-HasTable a_file-IsInode (omega arith) refl refl

abbrev text : Mem
text k = k % 256

extent_write-extent_read_example :
    (f : (drive lba : ℕ) → Mem) × (extent_write a_file text 700 disk
      ≡ (some (one_extent a_file 700 0 (blocks_of 700)), on disk f))
    × IsStored disk a_file text 700 0 f
extent_write-extent_read_example =
    extent_write-extent_read disk a_file text 700 0 disk-IsLaidOut disk-IsHealthy (λ a. omega arith)
      (omega arith) (omega arith) run_found (omega arith)

-- The superblock of the disk, at sector 1 of the first drive.
abbrev superblock : Mem
superblock =
    store32
      (store32
        (store32
          (store32
            (store32
              (store32 (update (update (update (update blank 0 b'N') 1 b'V') 2 b'F') 3 b'S') 16 2)
              20 1)
            24 3)
          28 4)
        32 4)
      36 1

abbrev unmounted : Nvfs
unmounted = record disk {
  mounted = false;
  sector = λ d lba. if lba == 1 then superblock else blank;
}

abbrev one_drive : ℕ → ℕ → Bool
one_drive ch dr = (ch == 0) && (dr == 0)
