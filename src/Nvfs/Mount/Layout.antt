-- ===== src/Nvfs/Mount/Layout.antt =====
-- A superblock on a drive, and one round of `nvfs_mount` of kernel/drivers/nvfs.c.
use noverix.Base.{
  ℕ, ◌+◌, ◌*◌, ◌/◌, ◌^◌, ◌<◌, ◌≤◌, ◌≡◌, ◌⊎◌, inl, inr, refl, arith, ◌==◌, if◌then◌else◌, Bool, true,
  false, u32, Bool-cases,
}
use noverix.Memory.{Mem, load32}
use noverix.Nvfs.Disk.{Nvfs, read_sector}
use noverix.Nvfs.Mount.{has_magic, load_superblock, bad_layout, try_mount}

-- The sectors of the table of inodes: four inodes stand in a sector.
abbrev pub inode_blocks_of : Mem → ℕ
inode_blocks_of buf = if load32 buf 36 == 0 then load32 buf 28 / 4 else load32 buf 36

-- A valid superblock: the letters NVFS, a bitmap and inodes, and the regions in their order, with
-- sums that go round at 2^32 as the C code's do.
pub record IsSuperblock (buf : Mem) : Type 0 where
  pub letters : (buf 0 ≡ b'N') × (buf 1 ≡ b'V') × (buf 2 ≡ b'F') × (buf 3 ≡ b'S')
  pub bitmap_first : 2 ≤ load32 buf 16
  pub has_bitmap : 1 ≤ load32 buf 20
  pub has_inodes : 1 ≤ load32 buf 28
  pub has_table : 1 ≤ inode_blocks_of buf
  pub bitmap_end : u32 (load32 buf 16 + load32 buf 20) ≤ load32 buf 24
  pub inode_end : u32 (load32 buf 24 + inode_blocks_of buf) ≤ load32 buf 32

-- A drive with a valid superblock in the sector behind `offset`.
pub record HasFileSystem (exists : ℕ → ℕ → Bool) (s : Nvfs) (ch dr offset : ℕ) : Type 0 where
  pub drive_exists : exists ch dr ≡ true
  pub readable : s.can_read (ch * 2 + dr) (offset + 1) ≡ true
  pub superblock : IsSuperblock (s.sector (ch * 2 + dr) (offset + 1))

-- All but the variables for the drive and the superblock.
abbrev pub kept : Nvfs → Nvfs
kept s = record s {
  ch = 0;
  dr = 0;
  offset = 0;
  bitmap_start = 0;
  bitmap_sectors = 0;
  inode_start = 0;
  inode_count = 0;
  data_start = 0;
  inode_blocks = 0;
}

-- Mounted with the superblock behind `offset`, in the root.
abbrev pub mounted_at : Nvfs → (ch dr offset : ℕ) → Nvfs
mounted_at s ch dr offset =
    let buf = s.sector (ch * 2 + dr) (offset + 1) in
    record (kept s) {
      ch = ch;
      dr = dr;
      offset = offset;
      bitmap_start = load32 buf 16;
      bitmap_sectors = load32 buf 20;
      inode_start = load32 buf 24;
      inode_count = load32 buf 28;
      data_start = load32 buf 32;
      inode_blocks = inode_blocks_of buf;
      cwd = 0;
      mounted = true;
    }

superblock_good :
    (s : Nvfs) (buf : Mem)
    → has_magic buf ≡ true
    → bad_layout (load_superblock s buf) ≡ false
    → IsSuperblock buf
unfolding bad_layout load_superblock
superblock_good s buf m g = record {
  letters = (ground arith, ground arith, ground arith, ground arith);
  bitmap_first = ground arith;
  has_bitmap = ground arith;
  has_inodes = ground arith;
  has_table = ground arith;
  bitmap_end = ground arith;
  inode_end = ground arith;
}

superblock-has_magic : (buf : Mem) → IsSuperblock buf → has_magic buf ≡ true
superblock-has_magic buf b = ground (arith, b.letters.0, b.letters.1, b.letters.2, b.letters.3)

superblock-bad_layout :
    (s : Nvfs) (buf : Mem) → IsSuperblock buf → bad_layout (load_superblock s buf) ≡ false
unfolding bad_layout load_superblock
superblock-bad_layout s buf b =
    ground
      (arith, b.bitmap_first, b.has_bitmap, b.has_inodes, b.has_table, b.bitmap_end, b.inode_end)

-- How a round of the loops ends.
abbrev Tried : (exists : ℕ → ℕ → Bool) (s : Nvfs) (ch dr offset : ℕ) → Bool × Nvfs → Type 0
Tried exists s ch dr offset r =
    (HasFileSystem exists s ch dr offset × (r ≡ (true, mounted_at s ch dr offset)))
    ⊎ ((¬ HasFileSystem exists s ch dr offset) × (r.0 ≡ false) × (kept r.1 ≡ kept s))

pub try_mount-Tried :
    (exists : ℕ → ℕ → Bool) (s : Nvfs) (ch dr offset : ℕ)
    → offset < 2 ^ 31
    → Tried exists s ch dr offset (try_mount exists ch dr offset s)
unfolding try_mount read_sector
try_mount-Tried exists s ch dr offset o =
    let buf : Mem = s.sector (ch * 2 + dr) (offset + 1) in
    let chosen : Nvfs = record s { ch = ch; dr = dr; offset = offset } in
    let small : u32 (offset + 1) ≡ offset + 1 = omega arith in
    elim (Bool-cases (exists ch dr)) [
      | inr x ↦ rw x (inr (λ h. ground (arith, h.drive_exists, x), refl, refl))
      | inl x ↦ elim (Bool-cases (s.can_read (ch * 2 + dr) (offset + 1))) [
        | inr r ↦ rw (x, small, r) (inr (λ h. ground (arith, h.readable, r), refl, refl))
        | inl r ↦ elim (Bool-cases (has_magic buf)) [
          | inr m ↦
              rw (x, small, r, m)
                (inr (λ h. ground (arith, superblock-has_magic buf h.superblock, m), refl, refl))
          | inl m ↦ elim (Bool-cases (bad_layout (load_superblock chosen buf))) [
            | inl b ↦
                rw (x, small, r, m, b)
                  (inr (
                    λ h. ground (arith, superblock-bad_layout chosen buf h.superblock, b),
                    refl,
                    unfold load_superblock in refl,
                  ))
            | inr g ↦
                let found : HasFileSystem exists s ch dr offset = record {
                  drive_exists = x;
                  readable = r;
                  superblock = superblock_good chosen buf m g;
                } in
                rw (x, small, r, m, g) (inl (found, unfold load_superblock in refl))
          ]
        ]
      ]
    ]
