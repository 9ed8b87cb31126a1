-- ===== src/Nvfs/Bitmap/Bits.antt =====
-- Setting and testing bits of the block bitmap of kernel/drivers/nvfs.c.
use noverix.Base.{
  ℕ, ◌+◌, ◌*◌, ◌/◌, ◌%◌, ◌^◌, ◌≤◌, ◌<◌, ◌≡◌, ◌≢◌, inl, inr, refl, arith, ◌∙◌, ap, sym, ◌==◌,
  if◌then◌else◌, Bool, true, false, some, Bool-cases, bit_at-with_bit, bit_at-without_bit,
  with_bit-lt, without_bit-lt,
}
use noverix.Memory.{Mem, IsBytes}
use noverix.Nvfs.Disk.{
  Nvfs, drive, read_sector, write_sector, put_sector, read_sector-put_sector_self,
  read_sector-put_sector_ne, block_lba,
}
use noverix.Nvfs.Bitmap.{
  bits_per_sec, bitmap_lba, block_bit, bit_of, bitmap_test, set_in, bitmap_set,
}

-- The geometry of a well-formed file system: the regions follow each other, the table has room for
-- its inodes, no sector number of a block goes round at 2^32, and sectors hold bytes. `nvfs_mount`
-- checks less: it compares sums that go round, and neither looks at `inode_count` nor at what the
-- bitmap can name.
pub record IsLaidOut (s : Nvfs) : Type 0 where
  pub bitmap_first : 2 ≤ s.bitmap_start
  pub bitmap_end : s.bitmap_start + s.bitmap_sectors ≤ s.inode_start
  pub inode_end : s.inode_start + s.inode_blocks ≤ s.data_start
  pub inodes : s.inode_count ≤ s.inode_blocks * 4
  pub fits : s.offset + s.data_start + s.bitmap_sectors * 4096 < 2 ^ 32
  pub bytes : (d lba : ℕ) → IsBytes (s.sector d lba)

-- A block that the bitmap has a bit for.
abbrev pub IsManaged : Nvfs → ℕ → Type 0
IsManaged s block = block < s.bitmap_sectors * 4096

pub bitmap_lba_small :
    (s : Nvfs) (block : ℕ)
    → IsLaidOut s
    → IsManaged s block
    → bitmap_lba s block ≡ s.offset + s.bitmap_start + block / 4096
bitmap_lba_small s block v h = omega (arith, v.fits, v.bitmap_end, v.inode_end)

pub block_lba_small :
    (s : Nvfs) (block : ℕ)
    → IsLaidOut s
    → IsManaged s block
    → block_lba s block ≡ s.offset + s.data_start + block
block_lba_small s block v h = omega (arith, v.fits)

pub block_bit-set_in :
    (buf : Mem) (bit b : ℕ) (used : Bool)
    → IsBytes buf
    → block_bit (set_in buf bit used) b
      ≡ (if bit == b then (if used then 1 else 0) else block_bit buf b)
unfolding set_in
block_bit-set_in buf bit b true h =
    ground (arith, bit_at-with_bit (buf (bit / 8)) (bit % 8) (b % 8), h (bit / 8))
block_bit-set_in buf bit b false h =
    ground (arith, bit_at-without_bit (buf (bit / 8)) (bit % 8) (b % 8), h (bit / 8))

pub set_in-IsBytes :
    (buf : Mem) (bit : ℕ) (used : Bool) → IsBytes buf → IsBytes (set_in buf bit used)
unfolding set_in
set_in-IsBytes buf bit true h x = ground (arith, h x, with_bit-lt (buf (bit / 8)) (bit % 8))
set_in-IsBytes buf bit false h x = ground (arith, h x, without_bit-lt (buf (bit / 8)) (bit % 8))

-- The state with the bit of a block changed.
abbrev pub put_bit : Nvfs → ℕ → Bool → Nvfs
put_bit s block used =
    put_sector s (bitmap_lba s block)
      (set_in (s.sector (drive s) (bitmap_lba s block)) (block % bits_per_sec) used)

-- `bitmap_set` changes that bit, or fails with the state as it was.
pub bitmap_set-put_bit :
    (s : Nvfs) (block : ℕ) (used : Bool)
    → s.can_read (drive s) (bitmap_lba s block) ≡ true
    → s.can_write (drive s) (bitmap_lba s block) ≡ true
    → bitmap_set block used s ≡ (some tt, put_bit s block used)
unfolding bitmap_set read_sector write_sector
bitmap_set-put_bit s block used r w = rw (r, w) refl

pub put_bit-IsLaidOut :
    (s : Nvfs) (block : ℕ) (used : Bool) → IsLaidOut s → IsLaidOut (put_bit s block used)
put_bit-IsLaidOut s block used v = record {
  bitmap_first = v.bitmap_first;
  bitmap_end = v.bitmap_end;
  inode_end = v.inode_end;
  inodes = v.inodes;
  fits = v.fits;
  bytes = λ d lba x. ground (
    arith,
    v.bytes d lba x,
    set_in-IsBytes (s.sector (drive s) (bitmap_lba s block)) (block % bits_per_sec) used
        (v.bytes (drive s) (bitmap_lba s block)) x,
  );
}

read_there :
    (s : Nvfs) (lba : ℕ)
    → s.can_read (drive s) lba ≡ true
    → read_sector s lba ≡ some (s.sector (drive s) lba)
unfolding read_sector
read_there s lba r = rw r refl

-- `bitmap_set` changes what `bitmap_test` finds for its block, and for no other.
pub bitmap_test-put_bit :
    (s : Nvfs) (block b : ℕ) (used : Bool)
    → IsLaidOut s
    → IsManaged s block
    → IsManaged s b
    → s.can_read (drive s) (bitmap_lba s block) ≡ true
    → bitmap_test (put_bit s block used) b
      ≡ (if block == b then some (if used then 1 else 0) else bitmap_test s b)
unfolding bitmap_test
bitmap_test-put_bit s block b used v hx hb r =
    let buf : Mem = s.sector (drive s) (bitmap_lba s block) in
    let bits : block_bit (set_in buf (block % 4096) used) (b % 4096) ≡ (
        if (block % 4096) == (b % 4096)
        then (if used then 1 else 0)
        else block_bit buf (b % 4096)) =
      block_bit-set_in buf (block % 4096) (b % 4096) used
        (v.bytes (drive s) (bitmap_lba s block)) in
    elim (Bool-cases (bitmap_lba s block == bitmap_lba s b)) [
      | inl e ↦
          let same : bitmap_lba s block ≡ bitmap_lba s b = ground arith in
          let sec : block / 4096 ≡ b / 4096 =
            omega (arith, bitmap_lba_small s block v hx, bitmap_lba_small s b v hb) in
          let tested : (block == b) ≡ ((block % 4096) == (b % 4096)) = ground (arith, sec) in
          let there : bitmap_test s b ≡ some (block_bit buf (b % 4096)) =
            ap (λ l. bit_of (read_sector s l) (b % 4096)) (sym same)
            ∙ ap (λ o. bit_of o (b % 4096)) (read_there s (bitmap_lba s block) r) in
          ap (λ l. bit_of (read_sector (put_bit s block used) l) (b % 4096)) (sym same)
          ∙ ap (λ o. bit_of o (b % 4096))
              (read_sector-put_sector_self s (bitmap_lba s block) (set_in buf (block % 4096) used)
                r)
          ∙ ap some bits
          ∙ rw (tested, there) (ground arith)
      | inr e ↦
          let differ : bitmap_lba s block ≢ bitmap_lba s b = ground arith in
          let other : (block == b) ≡ false = not_same block b differ in
          rw
            (
              other,
              read_sector-put_sector_ne s (bitmap_lba s block) (bitmap_lba s b)
                  (set_in buf (block % 4096) used) differ,
            )
            refl
    ]
  where
    not_same : (x y : ℕ) → bitmap_lba s x ≢ bitmap_lba s y → (x == y) ≡ false
    not_same x y d = let n : x ≢ y = λ e. d (ap (bitmap_lba s) e) in ground (arith, n)
