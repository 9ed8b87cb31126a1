-- ===== src/Nvfs/Inode.antt =====
-- Inodes of kernel/drivers/nvfs.c: their place in a sector, allocation, freeing and the growth of
-- the inode table; and the extents of an inode, 13 in it and 64 in an indirect block.
pub mod Codec
pub mod Table
use noverix.Base.{
  ℕ, zero, suc, ◌+◌, ◌-◌, ◌*◌, ◌/◌, ◌%◌, ◌^◌, ◌==◌, ltb, leb, ◌||◌, min, if◌then◌else◌, Bool, true,
  false, Option, none, some, update, u8, u32, List, [], ◌∷◌, ◌++◌, length, get_or,
}
use noverix.Memory.{Mem, load32, store32}
use noverix.Nvfs.Disk.{
  Nvfs, sector_size, inode_size, max_extents, direct_extents, indirect_ents, err_io, err_no_inode,
  M, pure, fail, fail_with, fail_if, attempt, or_errno, get, ask, ◌>>=◌, ◌>>◌, read_sector,
  write_sector, read_block, write_block,
}
use noverix.Nvfs.Bitmap.{bitmap_set, bitmap_find}

pub record Extent : Type 0 where
  pub start : ℕ
  pub count : ℕ

abbrev pub no_extent : Extent
no_extent = record { start = 0; count = 0 }

pub record Inode : Type 0 where
  pub size : ℕ
  pub type : ℕ
  pub ctime0 : ℕ
  pub ctime1 : ℕ
  pub ctime2 : ℕ
  pub extent_count : ℕ
  pub extents : ℕ → Extent
  pub mtime : ℕ

abbrev pub inode_lba : Nvfs → ℕ → ℕ
inode_lba s inum = u32 (s.offset + s.inode_start + u32 (inum * inode_size) / sector_size)

abbrev pub inode_off : ℕ → ℕ
inode_off inum = u32 (inum * inode_size) % sector_size

unfoldable pub load_inode : Mem → (p : ℕ) → Inode
load_inode buf p = record {
  size = load32 buf (p + 0);
  type = buf (p + 4);
  ctime0 = buf (p + 5);
  ctime1 = buf (p + 6);
  ctime2 = buf (p + 7);
  extent_count = if ltb max_extents (load32 buf (p + 8)) then max_extents else load32 buf (p + 8);
  extents =
      λ i. record { start = load32 buf (p + 12 + i * 8); count = load32 buf (p + 12 + i * 8 + 4) };
  mtime = load32 buf (p + 124);
}

-- `for (i = …; …; i++)` over the extents, with the rounds that are left.
unfoldable pub store_extents : Mem → (p : ℕ) → (ℕ → Extent) → (i n : ℕ) → Mem
store_extents buf p exts i zero = buf
store_extents buf p exts i (suc n) =
    store_extents
      (store32 (store32 buf (p + i * 8) ((exts i).start)) (p + i * 8 + 4) ((exts i).count)) p exts
      (i + 1) n

unfoldable pub store_inode : Mem → (p : ℕ) → Inode → Mem
store_inode buf p inode =
    let b0 = store32 buf (p + 0) inode.size in
    let b1 = update b0 (p + 4) (u8 inode.type) in
    let b2 = update b1 (p + 5) (u8 inode.ctime0) in
    let b3 = update b2 (p + 6) (u8 inode.ctime1) in
    let b4 = update b3 (p + 7) (u8 inode.ctime2) in
    let b5 = store32 b4 (p + 8) inode.extent_count in
    let b6 = store_extents b5 (p + 12) inode.extents 0 max_extents in
    store32 b6 (p + 124) inode.mtime

-- An inode that is in the table and can be read.
unfoldable pub inode_at : Nvfs → ℕ → Option Inode
inode_at s inum = elim (read_sector s (inode_lba s inum)) [
  | none ↦ none
  | some buf ↦ some (load_inode buf (inode_off inum))
]

unfoldable pub inode_read : ℕ → M Inode
inode_read inum = do s ← get; fail_if (leb s.inode_count inum) err_io; ask (λ s. inode_at s inum)

unfoldable pub inode_write : ℕ → Inode → M (Unit {0})
inode_write inum inode = do
  s ← get
  fail_if (leb s.inode_count inum) err_io
  buf ← ask (λ s. read_sector s (inode_lba s inum))
  write_sector (inode_lba s inum) (store_inode buf (inode_off inum) inode)

unfoldable pub sb_write_field : (offset val : ℕ) → M (Unit {0})
sb_write_field offset val = do
  s ← get
  buf ← ask (λ s. read_sector s (u32 (s.offset + 1)))
  write_sector (u32 (s.offset + 1)) (store32 buf offset val)

abbrev pub zeros : Mem
zeros = λ k. 0

abbrev pub per_sector : ℕ
per_sector = sector_size / inode_size

abbrev pub set_table : ℕ → ℕ → M (Unit {0})
set_table blocks count s = (some tt, record s { inode_blocks = blocks; inode_count = count })

-- What the callers of a failed step undo before they return -1.
abbrev pub undo : {A : Type 0} → M A → M (Unit {0}) → M A
undo m back s = elim (m s).0 [ none ↦ (none, (back (m s).1).1) | some a ↦ (some a, (m s).1) ]

unfoldable pub expand_inode_table : M (Unit {0})
expand_inode_table = do
  blk ← ask (λ s. bitmap_find s 1)
  _ ← attempt (bitmap_set blk true)
  undo (write_block blk zeros) (bitmap_set blk false)
  s ← get
  undo (sb_write_field 36 (u32 (s.inode_blocks + 1))) (bitmap_set blk false)
  set_table (u32 (s.inode_blocks + 1)) (u32 (u32 (s.inode_blocks + 1) * per_sector))
  undo (sb_write_field 28 (u32 (u32 (s.inode_blocks + 1) * per_sector)))
      (set_table s.inode_blocks (u32 (s.inode_blocks * per_sector)) >> bitmap_set blk false)

unfoldable pub load_extents : Mem → (i n : ℕ) → List Extent
load_extents buf i zero = []
load_extents buf i (suc n) =
    record { start = load32 buf (i * 8); count = load32 buf (i * 8 + 4) }
    ∷ load_extents buf (i + 1) n

unfoldable pub indirect_read_extents : Nvfs → (lba max : ℕ) → Option (List Extent)
indirect_read_extents s lba max = elim (read_block s lba) [
  | none ↦ none
  | some buf ↦ some (load_extents buf 0 (if ltb indirect_ents max then indirect_ents else max))
]

unfoldable pub indirect_write_extents : (lba : ℕ) → List Extent → (count : ℕ) → M (Unit {0})
indirect_write_extents lba exts count = write_block lba (
    store_extents zeros 0 (λ i. get_or exts i no_extent) 0
      (if ltb indirect_ents count then indirect_ents else count))

unfoldable pub indirect_alloc : M ℕ
indirect_alloc = do
  blk ← ask (λ s. bitmap_find s 1)
  write_block blk zeros
  _ ← attempt (bitmap_set blk true)
  pure blk

abbrev pub extent_cache_max : ℕ
extent_cache_max = direct_extents + indirect_ents

-- The extents in the inode, from `i` on.
unfoldable pub direct_from : Inode → (i n : ℕ) → List Extent
direct_from inode i zero = []
direct_from inode i (suc n) = inode.extents i ∷ direct_from inode (i + 1) n

unfoldable pub extent_load_all : Nvfs → Inode → (max : ℕ) → Option (List Extent)
extent_load_all s inode max =
    let direct = min (min inode.extent_count direct_extents) max in
    let indirect_count = min (inode.extent_count - direct_extents) (max - direct) in
    if leb inode.extent_count direct_extents
    then some (direct_from inode 0 direct)
    else elim (indirect_read_extents s ((inode.extents direct_extents).start) indirect_count) [
      | none ↦ none
      | some more ↦ some (direct_from inode 0 direct ++ more)
    ]

abbrev pub now_sec : Nvfs → ℕ
now_sec s = s.ticks / 100

abbrev pub inode_set_ctime : Inode → (t : ℕ) → Inode
inode_set_ctime inode t = record inode {
  ctime0 = t % 2 ^ 8;
  ctime1 = t / 2 ^ 8 % 2 ^ 8;
  ctime2 = t / 2 ^ 16 % 2 ^ 8;
}

abbrev pub fresh_inode : Inode → (type t : ℕ) → Inode
fresh_inode inode type t = record (inode_set_ctime inode t) {
  size = 0;
  type = type;
  mtime = t;
  extent_count = 0;
  extents = λ e. no_extent;
}

-- The two loops of `inode_alloc`, over `n` inodes from `i` on.
unfoldable pub alloc_inode_from : (type i n : ℕ) → M (Option ℕ)
alloc_inode_from type i zero = pure none
alloc_inode_from type i (suc n) =
    let rest = alloc_inode_from type (i + 1) n in
    attempt (inode_read i) >>= λ r. elim r [
      | none ↦ rest
      | some inode ↦
          if inode.type == 0
          then (get >>= λ s.
              or_errno (inode_write i (fresh_inode inode type (now_sec s))) err_io >> pure (some i))
          else rest
    ]

abbrev pub found_inode : Option ℕ → M ℕ
found_inode none = fail_with err_no_inode
found_inode (some i) = pure i

-- No free inode: the table is made longer and the new inodes are tried.
abbrev pub or_expand : (type : ℕ) → Option ℕ → M ℕ
or_expand type (some i) = pure i
or_expand type none = do
  or_errno expand_inode_table err_no_inode
  t ← get
  second ← alloc_inode_from type (t.inode_count - per_sector) per_sector
  found_inode second

unfoldable pub inode_alloc : (type : ℕ) → M ℕ
inode_alloc type = do
  s ← get
  first ← alloc_inode_from type 1 (s.inode_count - 1)
  or_expand type first

-- `for (j = 0; j < count; j++) bitmap_set(start + j, 0)`
unfoldable pub free_blocks : (start n : ℕ) → M (Unit {0})
free_blocks start zero = pure tt
free_blocks start (suc n) = attempt (bitmap_set start false) >> free_blocks (u32 (start + 1)) n

unfoldable pub free_extents : List Extent → M (Unit {0})
free_extents [] = pure tt
free_extents (e ∷ es) = free_blocks e.start e.count >> free_extents es

-- The indirect block, if there is one.
abbrev pub free_indirect : Inode → M (Option (Unit {0}))
free_indirect inode =
    if ltb direct_extents inode.extent_count
    then attempt (bitmap_set ((inode.extents direct_extents).start) false)
    else pure none

unfoldable pub inode_free : (inum : ℕ) → M (Unit {0})
inode_free inum = do
  s ← get
  (if (inum == 0) || leb s.inode_count inum then fail else pure tt)
  inode ← inode_read inum
  cache ← ask (λ s. extent_load_all s inode extent_cache_max)
  free_extents cache
  _ ← free_indirect inode
  inode_write inum (record inode { type = 0; size = 0; extent_count = 0 })
