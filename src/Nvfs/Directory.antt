-- ===== src/Nvfs/Directory.antt =====
-- Directories of kernel/drivers/nvfs.c: 16 entries to a block, of a name of 28 bytes and an inode
-- number, 0 for a free entry. A name is the list of its bytes before the zero.
use noverix.Base.{
  ℕ, zero, suc, ◌+◌, ◌-◌, ◌*◌, ◌/◌, ◌==◌, ◌!=◌, ltb, leb, ◌&&◌, if◌then◌else◌, Bool, true, false,
  Option, none, some, u32, update, List, [], ◌∷◌, ◌++◌, get_or, take, map,
}
use noverix.Memory.{Mem, load32, store32}
use noverix.Nvfs.Disk.{
  Nvfs, sector_size, dirent_size, max_name, direct_extents, indirect_ents, indirect_marker,
  type_dir, err_io, err_not_dir, err_not_found, err_exists, err_no_space, M, pure, fail_with,
  fail_if, attempt, or_errno, get, ask, ◌>>=◌, ◌>>◌, read_block, write_block,
}
use noverix.Nvfs.Bitmap.{as_int, bitmap_set, bitmap_find}
use noverix.Nvfs.Inode.{
  Extent, Inode, inode_at, inode_read, inode_write, indirect_read_extents, indirect_write_extents,
  indirect_alloc, extent_load_all, extent_cache_max, now_sec, zeros, undo,
}

abbrev pub entries_per_block : ℕ
entries_per_block = sector_size / dirent_size

abbrev pub entry_inode : Mem → (e : ℕ) → ℕ
entry_inode buf e = load32 buf (e * dirent_size + 28)

-- The comparison of `de->name` with the first 27 bytes of a name.
unfoldable pub name_matches : Mem → (at : ℕ) → List ℕ → Bool
name_matches buf at [] = buf at == 0
name_matches buf at (c ∷ cs) = (buf at == c) && name_matches buf (at + 1) cs

abbrev pub is_entry : List ℕ → Mem → ℕ → Bool
is_entry name buf e =
    (entry_inode buf e != 0) && name_matches buf (e * dirent_size) (take max_name name)

-- The loop over the entries of a block: the first of the `n` from `e` on that passes.
unfoldable pub first_entry : (Mem → ℕ → Bool) → Mem → (e n : ℕ) → Option ℕ
first_entry test buf e zero = none
first_entry test buf e (suc n) =
    let rest = first_entry test buf (e + 1) n in if test buf e then some e else rest

-- How a loop over all blocks of a directory ends: with a block that cannot be read, with nothing,
-- or at an entry of a block.
pub data Scan : Type 0 where
  unreadable : Scan
  nothing : Scan
  hit : (block : ℕ) → Mem → (e : ℕ) → Scan

-- `strict` is false where the loop goes on behind a block that it cannot read.
unfoldable pub scan_run : Nvfs → (strict : Bool) → (Mem → ℕ → Bool) → (block n : ℕ) → Scan
scan_run s strict test block zero = nothing
scan_run s strict test block (suc n) =
    let rest = scan_run s strict test (u32 (block + 1)) n in
    elim (read_block s block) [
      | none ↦ if strict then unreadable else rest
      | some buf ↦ elim (first_entry test buf 0 entries_per_block) [
        | none ↦ rest
        | some e ↦ hit block buf e
      ]
    ]

unfoldable pub scan_extents : Nvfs → (strict : Bool) → (Mem → ℕ → Bool) → List Extent → Scan
scan_extents s strict test [] = nothing
scan_extents s strict test (x ∷ xs) =
    let rest = scan_extents s strict test xs in
    elim (scan_run s strict test x.start x.count) [ nothing ↦ rest | other ↦ other ]

-- The inode of a directory and its extents.
unfoldable pub open_dir : (dir_inode : ℕ) → M (Inode × List Extent)
open_dir dir_inode = do
  inode ← or_errno (inode_read dir_inode) err_io
  fail_if (inode.type != type_dir) err_not_dir
  cache ← or_errno (ask (λ s. extent_load_all s inode extent_cache_max)) err_io
  pure (inode, cache)

-- `return de->inode`, as an `int`.
abbrev pub found_entry : Scan → M ℕ
found_entry unreadable = fail_with err_io
found_entry nothing = fail_with err_not_found
found_entry (hit block buf e) = ask (λ s. as_int (some (entry_inode buf e)))

unfoldable pub dir_find : (dir_inode : ℕ) → List ℕ → M ℕ
dir_find dir_inode name = do
  dir ← open_dir dir_inode
  s ← get
  found_entry (scan_extents s true (is_entry name) dir.1)

-- The extent of `dir_add_extent` in the inode.
abbrev pub add_direct : Inode → (block : ℕ) → Inode
add_direct inode block = record inode {
  extents = update inode.extents inode.extent_count (record { start = block; count = 1 });
  extent_count = inode.extent_count + 1;
  size = u32 (inode.size + sector_size);
}

-- The 64 places of `ibuf`, of which the read has filled the first.
abbrev pub indirect_array : (indirect_count lba : ℕ) → M (List Extent)
indirect_array indirect_count lba =
    if indirect_count == 0
    then pure []
    else or_errno (ask (λ s. indirect_read_extents s lba indirect_ents)) err_io

abbrev pub marked : Inode → (lba : ℕ) → Inode
marked inode lba = record inode {
  extents = update inode.extents direct_extents (record { start = lba; count = indirect_marker });
}

-- The extent of `dir_add_extent` in the indirect block at `lba`.
unfoldable pub add_indirect : Inode → (lba block : ℕ) → M Inode
add_indirect inode lba block = do
  let count = inode.extent_count - direct_extents
  ibuf ← indirect_array count lba
  fail_if (leb indirect_ents count) err_no_space
  or_errno
      (indirect_write_extents lba (take count ibuf ++ (record { start = block; count = 1 } ∷ []))
        (count + 1))
      err_io
  pure (record inode {
    extent_count = direct_extents + (count + 1);
    size = u32 (inode.size + sector_size);
  })

unfoldable pub dir_add_extent : Inode → (block : ℕ) → M Inode
dir_add_extent inode block =
    let grown = (do
      lba ← or_errno indirect_alloc err_no_space
      undo (add_indirect (marked inode lba) lba block) (bitmap_set lba false)) in
    if ltb inode.extent_count direct_extents
    then pure (add_direct inode block)
    else if inode.extent_count == direct_extents
    then grown
    else add_indirect inode ((inode.extents direct_extents).start) block

-- `nd`: the name, cut at 27 bytes and filled up with zeros, and the inode number.
unfoldable pub new_entry : List ℕ → (child_inode : ℕ) → Mem
new_entry name child_inode = store32 (λ k. get_or (take max_name name) k 0) 28 child_inode

-- `for (k = 0; k < 32; k++) tmp[off + k] = nd[k]`
unfoldable pub put_entry : Mem → (off : ℕ) → Mem → Mem
put_entry buf off nd k = if leb off k && ltb k (off + 32) then nd (k - off) else buf k

abbrev pub touch : (inum : ℕ) → Inode → M (Unit {0})
touch inum inode s = inode_write inum (record inode { mtime = now_sec s }) s

-- A new block with the entry in front.
unfoldable pub add_block : (dir_inode : ℕ) → Inode → (nd : Mem) → M (Unit {0})
add_block dir_inode inode nd = do
  blk ← or_errno (ask (λ s. bitmap_find s 1)) err_no_space
  _ ← attempt (bitmap_set blk true)
  or_errno (write_block blk (put_entry zeros 0 nd)) err_io
  grown ← undo (dir_add_extent inode blk) (bitmap_set blk false)
  or_errno (touch dir_inode grown) err_io

abbrev pub put_at : (dir_inode : ℕ) → Inode → (nd : Mem) → Scan → M (Unit {0})
put_at dir_inode inode nd unreadable = fail_with err_io
put_at dir_inode inode nd nothing = add_block dir_inode inode nd
put_at dir_inode inode nd (hit block buf e) =
    or_errno (write_block block (put_entry buf (e * dirent_size) nd)) err_io
    >> touch dir_inode inode

abbrev pub is_vacant : Mem → ℕ → Bool
is_vacant buf e = entry_inode buf e == 0

-- `if (dir_find(dir_inode, name) >= 0) { nvfs_errno = NVFS_ERR_EXISTS; return -1; }`
abbrev pub no_duplicate : Option ℕ → M (Unit {0})
no_duplicate none = pure tt
no_duplicate (some i) = fail_with err_exists

unfoldable pub dir_add : (dir_inode : ℕ) → List ℕ → (child_inode : ℕ) → M (Unit {0})
dir_add dir_inode name child_inode = do
  inode ← or_errno (inode_read dir_inode) err_io
  fail_if (inode.type != type_dir) err_not_dir
  other ← attempt (dir_find dir_inode name)
  no_duplicate other
  cache ← or_errno (ask (λ s. extent_load_all s inode extent_cache_max)) err_io
  s ← get
  put_at dir_inode inode (new_entry name child_inode) (scan_extents s true is_vacant cache)

abbrev pub clear_at : (dir_inode : ℕ) → Inode → Scan → M (Unit {0})
clear_at dir_inode inode unreadable = fail_with err_io
clear_at dir_inode inode nothing = fail_with err_not_found
clear_at dir_inode inode (hit block buf e) =
    or_errno (write_block block (store32 buf (e * dirent_size + 28) 0)) err_io
    >> touch dir_inode inode

unfoldable pub dir_remove : (dir_inode : ℕ) → List ℕ → M (Unit {0})
dir_remove dir_inode name = do
  dir ← open_dir dir_inode
  s ← get
  clear_at dir_inode (dir.0) (scan_extents s true (is_entry name) dir.1)

abbrev pub has_no_hit : Scan → Bool
has_no_hit (hit block buf e) = false
has_no_hit unreadable = true
has_no_hit nothing = true

abbrev pub is_taken : Mem → ℕ → Bool
is_taken buf e = entry_inode buf e != 0

unfoldable pub dir_empty : (dir_inode : ℕ) → M Bool
dir_empty dir_inode = do
  inode ← attempt (inode_read dir_inode)
  s ← get
  pure (elim inode [
    | none ↦ false
    | some i ↦ elim (extent_load_all s i extent_cache_max) [
      | none ↦ false
      | some cache ↦ has_no_hit (scan_extents s false is_taken cache)
    ]
  ])

abbrev pub names : ℕ → Mem → ℕ → Bool
names inum buf e = entry_inode buf e == inum

-- Does the directory `i` name the inode, as far as it can be read.
unfoldable pub is_parent_of : Nvfs → (inum i : ℕ) → Bool
is_parent_of s inum i = elim (inode_at s i) [
  | none ↦ false
  | some inode ↦
      if inode.type == type_dir
      then elim (extent_load_all s inode extent_cache_max) [
        | none ↦ false
        | some cache ↦ if has_no_hit (scan_extents s false (names inum) cache) then false else true
      ]
      else false
]

unfoldable pub parent_from : Nvfs → (inum i n : ℕ) → Option ℕ
parent_from s inum i zero = none
parent_from s inum i (suc n) =
    let rest = parent_from s inum (i + 1) n in if is_parent_of s inum i then some i else rest

unfoldable pub find_parent : Nvfs → (inum : ℕ) → Option ℕ
find_parent s inum = if inum == 0 then none else parent_from s inum 0 s.inode_count

-- `to_upper` on the bytes of a name.
unfoldable pub to_upper : List ℕ → List ℕ
to_upper s = map (λ c. if leb b'a' c && leb c b'z' then c - 32 else c) s
