-- ===== src/Nvfs/Calls.antt =====
-- The public functions of kernel/drivers/nvfs.c but for mounting.
use noverix.Base.{
  ℕ, zero, suc, ◌+◌, ◌-◌, ◌*◌, ◌==◌, ◌!=◌, ltb, min, if◌then◌else◌, ◌&&◌, Bool, true, false, not,
  Option, none, some, List, [], ◌∷◌, ◌++◌, take, get_or,
}
use noverix.Memory.{Mem}
use noverix.Nvfs.Disk.{
  Nvfs, direct_extents, dirent_size, max_name, type_file, type_dir, err_no_mount, err_path, err_io,
  err_not_file, err_not_dir, err_dir_busy, err_no_space, M, pure, fail_if, attempt, or_errno, get,
  ask, ◌>>=◌, ◌>>◌,
}
use noverix.Nvfs.Bitmap.{bitmap_set}
use noverix.Nvfs.Inode.{
  Extent, Inode, no_extent, inode_at, inode_read, inode_write, extent_load_all, extent_cache_max,
  now_sec, fresh_inode, inode_alloc, inode_free, free_extents, free_indirect, undo,
}
use noverix.Nvfs.Extents.{extent_read, extent_write}
use noverix.Nvfs.Directory.{
  dir_find, dir_add, dir_remove, dir_empty, find_parent, Scan, hit, scan_extents, names,
}
use noverix.Nvfs.Paths.{resolve_path}

abbrev pub must_be_mounted : M (Unit {0})
must_be_mounted s = fail_if (not s.mounted) err_no_mount s

abbrev pub is_empty : List ℕ → Bool
is_empty [] = true
is_empty (c ∷ cs) = false

-- The beginning of most calls: the parent and the name, which must not be empty.
unfoldable pub resolve_name : List ℕ → M (ℕ × List ℕ)
resolve_name path = do
  must_be_mounted
  at ← resolve_path path
  fail_if (is_empty at.1) err_path
  pure at

-- The inode number of a name in its directory, and the inode.
unfoldable pub find_inode : (parent : ℕ) → List ℕ → M (ℕ × Inode)
find_inode parent name = do
  inum ← dir_find parent name
  inode ← or_errno (inode_read inum) err_io
  pure (inum, inode)

unfoldable pub nvfs_read : List ℕ → (max : ℕ) → M (List ℕ)
nvfs_read path max = do
  at ← resolve_name path
  file ← find_inode at.0 at.1
  fail_if ((file.1).type != type_file) err_not_file
  ask (λ s. extent_read s file.1 max)

-- Shadow paging: the new blocks are written, then the inode, and then the old blocks are freed.
unfoldable pub replace_data : (inum : ℕ) → Inode → List Extent → Mem → (size : ℕ) → M (Unit {0})
replace_data inum inode old_cache bytes size = do
  written ← or_errno (extent_write inode bytes size) err_no_space
  s ← get
  or_errno (inode_write inum (record written { mtime = now_sec s })) err_io
  free_extents old_cache
  (if ltb direct_extents inode.extent_count && ((inode.extents direct_extents).start != 0)
      then (attempt (bitmap_set ((inode.extents direct_extents).start) false) >> pure tt)
      else pure tt)

abbrev pub overwrite : (inum : ℕ) → Mem → (size : ℕ) → M (Unit {0})
overwrite inum bytes size = do
  inode ← or_errno (inode_read inum) err_io
  old_cache ← or_errno (ask (λ s. extent_load_all s inode extent_cache_max)) err_io
  replace_data inum inode old_cache bytes size

-- `inode_free(inum); goto fail;`, with what stands before it.
abbrev pub drop_inode : {A : Type 0} → (inum : ℕ) → M A → M A
drop_inode inum m = undo m (attempt (inode_free inum) >> pure tt)

-- An inode that is not on the disk yet. The C variable's extents have no value before
-- `extent_write` sets them.
abbrev pub new_inode : (type t : ℕ) → Inode
new_inode type t =
    fresh_inode
      (record {
        size = 0;
        type = type;
        ctime0 = 0;
        ctime1 = 0;
        ctime2 = 0;
        extent_count = 0;
        extents = λ i. no_extent;
        mtime = 0;
      })
      type t

-- The blocks of an inode that could not be written.
abbrev pub free_written : Inode → M (Unit {0})
free_written inode = do
  s ← get
  free_extents (elim (extent_load_all s inode extent_cache_max) [ none ↦ [] | some cache ↦ cache ])
  _ ← free_indirect inode
  pure tt

unfoldable pub create_file : (parent : ℕ) → List ℕ → Mem → (size : ℕ) → M (Unit {0})
create_file parent name bytes size = do
  inum ← inode_alloc type_file
  s ← get
  written ←
      or_errno (drop_inode inum (extent_write (new_inode type_file (now_sec s)) bytes size))
        err_no_space
  or_errno (drop_inode inum (undo (inode_write inum written) (free_written written))) err_io
  drop_inode inum (dir_add parent name inum)

abbrev pub write_to : (parent : ℕ) → List ℕ → Mem → (size : ℕ) → Option ℕ → M (Unit {0})
write_to parent name bytes size none = create_file parent name bytes size
write_to parent name bytes size (some inum) = overwrite inum bytes size

unfoldable pub nvfs_write : List ℕ → Mem → (size : ℕ) → M (Unit {0})
nvfs_write path bytes size = do
  at ← resolve_name path
  found ← attempt (dir_find at.0 at.1)
  write_to at.0 at.1 bytes size found

unfoldable pub nvfs_delete : List ℕ → M (Unit {0})
nvfs_delete path = do
  at ← resolve_name path
  file ← find_inode at.0 at.1
  fail_if ((file.1).type != type_file) err_not_file
  or_errno (inode_free file.0) err_io
  or_errno (dir_remove at.0 at.1) err_io

unfoldable pub nvfs_mkdir : List ℕ → M (Unit {0})
nvfs_mkdir path = do
  at ← resolve_name path
  inum ← inode_alloc type_dir
  s ← get
  or_errno (drop_inode inum (inode_write inum (new_inode type_dir (now_sec s)))) err_io
  drop_inode inum (dir_add at.0 at.1 inum)

unfoldable pub nvfs_rmdir : List ℕ → M (Unit {0})
nvfs_rmdir path = do
  at ← resolve_name path
  dir ← find_inode at.0 at.1
  fail_if ((dir.1).type != type_dir) err_not_dir
  empty ← dir_empty dir.0
  fail_if (not empty) err_dir_busy
  or_errno (inode_free dir.0) err_io
  or_errno (dir_remove at.0 at.1) err_io

-- `nvfs_cwd = inum; if (out_inode) *out_inode = inum;`
abbrev pub set_cwd : ℕ → M ℕ
set_cwd inum s = (some inum, record s { cwd = inum })

unfoldable pub chdir_named : (parent : ℕ) → List ℕ → M ℕ
chdir_named parent [] = set_cwd parent
chdir_named parent (c ∷ cs) = do
  dir ← find_inode parent (c ∷ cs)
  fail_if ((dir.1).type != type_dir) err_not_dir
  set_cwd dir.0

-- The result is `*out_inode`.
unfoldable pub nvfs_chdir : List ℕ → M ℕ
nvfs_chdir [] = must_be_mounted >> set_cwd 0
nvfs_chdir (c ∷ cs) = do must_be_mounted; at ← resolve_path (c ∷ cs); chdir_named at.0 at.1

unfoldable pub nvfs_get_cwd : Nvfs → ℕ
nvfs_get_cwd s = s.cwd

unfoldable pub nvfs_is_mounted : Nvfs → Bool
nvfs_is_mounted s = s.mounted

-- The first `old` bytes, and behind them the new ones.
abbrev pub appended : List ℕ → (old : ℕ) → Mem → Mem
appended before old src i = if ltb i old then get_or before i 0 else src (i - old)

-- `got_memory` is whether `malloc(4096)` succeeds.
unfoldable pub nvfs_append : (got_memory : Bool) → List ℕ → Mem → (size : ℕ) → M (Unit {0})
nvfs_append got_memory path src size = do
  at ← resolve_name path
  file ← find_inode at.0 at.1
  fail_if ((file.1).type != type_file) err_not_file
  fail_if (not got_memory) err_io
  let old = min 4096 ((file.1).size)
  before ← or_errno (ask (λ s. extent_read s file.1 old)) err_io
  old_cache ← or_errno (ask (λ s. extent_load_all s file.1 extent_cache_max)) err_io
  replace_data file.0 file.1 old_cache (appended before old src) (old + min size (4096 - old))

-- `de->name`, up to a zero or 27 bytes.
unfoldable pub name_from : Mem → (at n : ℕ) → List ℕ
name_from buf at zero = []
name_from buf at (suc n) =
    let rest = name_from buf (at + 1) n in if buf at == 0 then [] else buf at ∷ rest

abbrev pub name_at : Scan → Option (List ℕ)
name_at (hit block buf e) = some (name_from buf (e * dirent_size) max_name)
name_at Scan.unreadable = none
name_at Scan.nothing = none

-- The name of `inum` in the directory `parent`.
unfoldable pub component : Nvfs → (parent inum : ℕ) → Option (List ℕ)
component s parent inum = elim (if ltb parent s.inode_count then inode_at s parent else none) [
  | none ↦ none
  | some inode ↦ elim (extent_load_all s inode extent_cache_max) [
    | none ↦ none
    | some cache ↦ name_at (scan_extents s false (names inum) cache)
  ]
]

-- The components from the inode up to the root, the last first, with the names that are left.
unfoldable pub components : Nvfs → (cur : ℕ) → (rounds room : ℕ) → List (List ℕ)
components s cur zero room = []
components s cur (suc n) zero = []
components s cur (suc n) (suc room) = elim (if cur == 0 then none else find_parent s cur) [
  | none ↦ []
  | some parent ↦ elim (component s parent cur) [
    | none ↦ components s parent n (suc room)
    | some name ↦ name ∷ components s parent n room
  ]
]

-- The components from the root on, with a slash between them, as far as `room` reaches.
unfoldable pub put_components : List (List ℕ) → List ℕ
put_components [] = []
put_components (x ∷ []) = x
put_components (x ∷ (y ∷ ys)) = put_components (y ∷ ys) ++ (b'/' ∷ x)

-- The bytes that are put into `buf` before the zero. Where no name is found the loop may go round
-- for ever; `fuel` bounds it.
unfoldable pub nvfs_path_string : (fuel : ℕ) → Nvfs → (inum size : ℕ) → Option (List ℕ)
nvfs_path_string fuel s inum size =
    if ltb size 2
    then none
    else if inum == 0
    then some (b'/' ∷ [])
    else some (take (size - 1) (b'/' ∷ put_components (components s inum fuel 16)))
