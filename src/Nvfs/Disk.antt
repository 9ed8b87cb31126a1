-- ===== src/Nvfs/Disk.antt =====
-- The static variables of kernel/drivers/nvfs.c, the disk behind them, and the reading and writing
-- of sectors. `ata_read_sectors` and `ata_write_sectors` of kernel/drivers/ata.c are port I/O: a
-- drive is its sectors, with the sectors that can be read and those that can be written.
use noverix.Base.{
  ℕ, ◌+◌, ◌*◌, if◌then◌else◌, Bool, true, false, Option, none, some, update, u32, ◌≡◌, ◌≢◌, arith,
}
use noverix.Memory.{Mem}

-- `ticks` is what `get_ticks` returns; a drive is the channel times two plus the device.
pub record Nvfs : Type 0 where
  pub sector : (drive lba : ℕ) → Mem
  pub can_read : (drive lba : ℕ) → Bool
  pub can_write : (drive lba : ℕ) → Bool
  pub ticks : ℕ
  pub errno : ℕ
  pub mounted : Bool
  pub ch : ℕ
  pub dr : ℕ
  pub cwd : ℕ
  pub data_start : ℕ
  pub inode_start : ℕ
  pub inode_count : ℕ
  pub inode_blocks : ℕ
  pub bitmap_start : ℕ
  pub bitmap_sectors : ℕ
  pub offset : ℕ

abbrev pub sector_size : ℕ
sector_size = 512

abbrev pub inode_size : ℕ
inode_size = 128

abbrev pub dirent_size : ℕ
dirent_size = 32

abbrev pub max_extents : ℕ
max_extents = 14

abbrev pub direct_extents : ℕ
direct_extents = 13

abbrev pub indirect_ents : ℕ
indirect_ents = 64

abbrev pub indirect_marker : ℕ
indirect_marker = 0xFFFFFFFF

abbrev pub max_name : ℕ
max_name = 27

abbrev pub type_file : ℕ
type_file = 1

abbrev pub type_dir : ℕ
type_dir = 2

abbrev pub err_not_found : ℕ
err_not_found = 1

abbrev pub err_not_dir : ℕ
err_not_dir = 2

abbrev pub err_not_file : ℕ
err_not_file = 3

abbrev pub err_dir_busy : ℕ
err_dir_busy = 4

abbrev pub err_no_space : ℕ
err_no_space = 5

abbrev pub err_no_inode : ℕ
err_no_inode = 6

abbrev pub err_exists : ℕ
err_exists = 7

abbrev pub err_io : ℕ
err_io = 8

abbrev pub err_no_mount : ℕ
err_no_mount = 9

abbrev pub err_path : ℕ
err_path = 10

-- A call of a function that changes the variables or the disk; none is its return of -1, and what
-- was written before stays written.
abbrev pub M : Type 0 → Type 0
M A = Nvfs → Option A × Nvfs

module _ {A : Type 0} where
  abbrev pub pure : A → M A
  pure a s = (some a, s)

  abbrev pub fail : M A
  fail s = (none, s)

  -- `nvfs_errno = e; return -1`
  abbrev pub fail_with : ℕ → M A
  fail_with e s = (none, record s { errno = e })

  -- A result that the caller does not look at, or looks at itself.
  abbrev pub attempt : M A → M (Option A)
  attempt m s = (some (m s).0, (m s).1)

  -- `if (m < 0) { nvfs_errno = e; return -1; }`
  abbrev pub or_errno : M A → ℕ → M A
  or_errno m e s = elim (m s).0 [
    | none ↦ (none, record (m s).1 { errno = e })
    | some a ↦ (some a, (m s).1)
  ]

abbrev pub get : M Nvfs
get s = (some s, s)

abbrev pub ask : {A : Type 0} → (Nvfs → Option A) → M A
ask f s = (f s, s)

infixl 5 ◌>>=◌ ◌>>◌
abbrev pub ◌>>=◌ : {A B : Type 0} → M A → (A → M B) → M B
◌>>=◌ m f s = elim (m s).0 [ none ↦ (none, (m s).1) | some a ↦ f a (m s).1 ]

abbrev pub ◌>>◌ : {A B : Type 0} → M A → M B → M B
m >> k = m >>= λ _. k

abbrev pub fail_if : Bool → ℕ → M (Unit {0})
fail_if true e = fail_with e
fail_if false e = pure tt

abbrev pub drive : Nvfs → ℕ
drive s = s.ch * 2 + s.dr

unfoldable pub read_sector : Nvfs → ℕ → Option Mem
read_sector s lba = if s.can_read (drive s) lba then some (s.sector (drive s) lba) else none

-- The state with one sector of the selected drive replaced.
abbrev pub put_sector : Nvfs → ℕ → Mem → Nvfs
put_sector s lba buf = record s {
  sector = update s.sector (drive s) (update (s.sector (drive s)) lba buf);
}

unfoldable pub write_sector : ℕ → Mem → M (Unit {0})
write_sector lba buf s =
    if s.can_write (drive s) lba then (some tt, put_sector s lba buf) else (none, s)

abbrev pub block_lba : Nvfs → ℕ → ℕ
block_lba s block = u32 (s.offset + s.data_start + block)

unfoldable pub read_block : Nvfs → ℕ → Option Mem
read_block s block = read_sector s (block_lba s block)

unfoldable pub write_block : ℕ → Mem → M (Unit {0})
write_block block buf s = write_sector (block_lba s block) buf s

pub read_sector-put_sector_self :
    (s : Nvfs) (lba : ℕ) (buf : Mem)
    → s.can_read (drive s) lba ≡ true
    → read_sector (put_sector s lba buf) lba ≡ some buf
unfolding read_sector
read_sector-put_sector_self s lba buf r = rw r (ground arith)

pub read_sector-put_sector_ne :
    (s : Nvfs) (lba l : ℕ) (buf : Mem)
    → lba ≢ l
    → read_sector (put_sector s lba buf) l ≡ read_sector s l
unfolding read_sector
read_sector-put_sector_ne s lba l buf n = ground arith
