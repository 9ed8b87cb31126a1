-- ===== src/Nvfs/Mount.antt =====
-- `nvfs_mount` and `nvfs_list` of kernel/drivers/nvfs.c. `ata_drive_exists` of kernel/drivers/ata.c is
-- an argument.
pub mod Layout
pub mod Drives
use noverix.Base.{
  ℕ, zero, suc, ◌+◌, ◌*◌, ◌/◌, ◌==◌, ◌!=◌, ltb, if◌then◌else◌, ◌&&◌, ◌||◌, Bool, true, false, not,
  Option, none, some, u32, List, [], ◌∷◌, ◌++◌,
}
use noverix.Memory.{Mem, load32}
use noverix.Nvfs.Disk.{
  Nvfs, sector_size, inode_size, dirent_size, max_name, type_dir, M, pure, fail, fail_with, fail_if,
  attempt, get, ask, ◌>>=◌, ◌>>◌, read_sector, read_block,
}
use noverix.Nvfs.Inode.{Extent, Inode, inode_at, inode_read, extent_load_all, extent_cache_max}
use noverix.Nvfs.Directory.{dir_find, entry_inode, entries_per_block}
use noverix.Nvfs.Paths.{resolve_path}
use noverix.Nvfs.Calls.{must_be_mounted, is_empty, name_from}

abbrev pub has_magic : Mem → Bool
has_magic buf = (buf 0 == b'N') && ((buf 1 == b'V') && ((buf 2 == b'F') && (buf 3 == b'S')))

-- The fields of the superblock, as they are read.
unfoldable pub load_superblock : Nvfs → Mem → Nvfs
load_superblock s buf = record s {
  bitmap_start = load32 buf 16;
  bitmap_sectors = load32 buf 20;
  inode_start = load32 buf 24;
  inode_count = load32 buf 28;
  data_start = load32 buf 32;
  inode_blocks =
      if load32 buf 36 == 0 then load32 buf 28 / (sector_size / inode_size) else load32 buf 36;
}

unfoldable pub bad_layout : Nvfs → Bool
bad_layout s =
    ltb s.bitmap_start 2
    || ((s.bitmap_sectors == 0)
        || ((s.inode_blocks == 0)
            || ((s.inode_count == 0)
                || (ltb s.inode_start (u32 (s.bitmap_start + s.bitmap_sectors))
                    || ltb s.data_start (u32 (s.inode_start + s.inode_blocks))))))

-- One round of the loops: whether the drive has the file system at this offset.
unfoldable pub try_mount : (exists : ℕ → ℕ → Bool) → (ch dr offset : ℕ) → Nvfs → Bool × Nvfs
try_mount exists ch dr offset s =
    let chosen = record s { ch = ch; dr = dr; offset = offset } in
    if exists ch dr
    then elim (read_sector chosen (u32 (offset + 1))) [
      | none ↦ (false, chosen)
      | some buf ↦
          let loaded = load_superblock chosen buf in
          if has_magic buf
          then (if bad_layout loaded
              then (false, loaded)
              else (true, record loaded { cwd = 0; mounted = true }))
          else (false, chosen)
    ]
    else (false, s)

unfoldable pub try_all : (exists : ℕ → ℕ → Bool) → List (ℕ × ℕ × ℕ) → Nvfs → Bool × Nvfs
try_all exists [] s = (false, s)
try_all exists ((ch, dr, offset) ∷ rest) s =
    let (done, t) = try_mount exists ch dr offset s in
    let later = try_all exists rest t in if done then (true, t) else later

-- The rounds in their order.
abbrev pub candidates : List (ℕ × ℕ × ℕ)
candidates =
    (0, 0, 0)
    ∷ (0, 0, 2880)
    ∷ (0, 1, 0)
    ∷ (0, 1, 2880)
    ∷ (1, 0, 0)
    ∷ (1, 0, 2880)
    ∷ (1, 1, 0)
    ∷ (1, 1, 2880)
    ∷ []

unfoldable pub nvfs_mount : (exists : ℕ → ℕ → Bool) → Nvfs → Bool × Nvfs
nvfs_mount exists s = try_all exists candidates s

-- What a line of `nvfs_list` shows: the type, the name and the size.
pub record Line : Type 0 where
  pub is_dir : Bool
  pub name : List ℕ
  pub size : ℕ

-- The inode of an entry; that `nvfs_errno` is set where there is none is left out.
abbrev pub entry_at : Nvfs → ℕ → Option Inode
entry_at s inum = if ltb inum s.inode_count then inode_at s inum else none

abbrev pub line_of : Nvfs → Mem → (e : ℕ) → Line
line_of s buf e = elim (entry_at s (entry_inode buf e)) [
  | none ↦ record { is_dir = false; name = name_from buf (e * dirent_size) max_name; size = 0 }
  | some ci ↦ record {
    is_dir = ci.type == type_dir;
    name = name_from buf (e * dirent_size) max_name;
    size = ci.size;
  }
]

unfoldable pub list_entries : Nvfs → Mem → (e n : ℕ) → List Line
list_entries s buf e zero = []
list_entries s buf e (suc n) =
    let rest = list_entries s buf (e + 1) n in
    if entry_inode buf e == 0 then rest else line_of s buf e ∷ rest

unfoldable pub list_run : Nvfs → (block n : ℕ) → Option (List Line)
list_run s block zero = some []
list_run s block (suc n) =
    let rest = list_run s (u32 (block + 1)) n in
    elim (read_block s block) [
      | none ↦ none
      | some buf ↦ elim rest [
        | none ↦ none
        | some more ↦ some (list_entries s buf 0 entries_per_block ++ more)
      ]
    ]

unfoldable pub list_extents : Nvfs → List Extent → Option (List Line)
list_extents s [] = some []
list_extents s (x ∷ xs) = elim (list_run s x.start x.count) [
  | none ↦ none
  | some first ↦ elim (list_extents s xs) [ none ↦ none | some more ↦ some (first ++ more) ]
]

abbrev pub dir_named : (parent : ℕ) → List ℕ → M ℕ
dir_named parent [] = pure parent
dir_named parent (c ∷ cs) = do
  inum ← dir_find parent (c ∷ cs)
  inode ← inode_read inum
  (if inode.type == type_dir then pure inum else fail)

abbrev pub listed_dir : List ℕ → M ℕ
listed_dir [] s = (some s.cwd, s)
listed_dir (c ∷ cs) s = (resolve_path (c ∷ cs) >>= λ at. dir_named at.0 at.1) s

-- The lines that are printed; the message on an error is left out. A line for an entry whose inode
-- cannot be read shows a size that the C code never set; it is 0 here.
unfoldable pub nvfs_list : List ℕ → M (List Line)
nvfs_list path = do
  must_be_mounted
  dir_inode ← listed_dir path
  inode ← inode_read dir_inode
  cache ← ask (λ s. extent_load_all s inode extent_cache_max)
  ask (λ s. list_extents s cache)
