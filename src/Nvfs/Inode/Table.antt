-- ===== src/Nvfs/Inode/Table.antt =====
-- The inode table: an inode that `inode_write` of kernel/drivers/nvfs.c writes is the one `inode_read` finds.
use noverix.Base.{
  ℕ, ◌+◌, ◌/◌, ◌^◌, ◌≤◌, ◌<◌, ◌≡◌, ◌≢◌, ◌⊎◌, inl, inr, refl, arith, ◌∙◌, ap, sym, subst, ◌==◌, leb,
  true, false, Option, none, some, Bool-cases, Option-cases,
}
use noverix.Memory.{Mem}
use noverix.Nvfs.Disk.{
  Nvfs, drive, read_sector, write_sector, put_sector, read_sector-put_sector_self,
  read_sector-put_sector_ne,
}
use noverix.Nvfs.Inode.{
  Inode, inode_lba, inode_off, load_inode, store_inode, inode_at, inode_read, inode_write,
}
use noverix.Nvfs.Inode.Codec.{
  IsInode, SameInode, load_inode-store_inode, store_inode_outside, load_inode_same,
}

-- What `inode_read` finds: an inode that is the same, with the state as it was.
abbrev pub Finds : Nvfs → ℕ → Inode → Type 0
Finds s inum inode = (found : Inode) × (inode_read inum s ≡ (some found, s)) × SameInode found inode

inode_at-Finds :
    (s : Nvfs) (inum : ℕ) (buf : Mem) (inode : Inode)
    → inum < s.inode_count
    → read_sector s (inode_lba s inum) ≡ some buf
    → SameInode (load_inode buf (inode_off inum)) inode
    → Finds s inum inode
unfolding inode_read inode_at
inode_at-Finds s inum buf inode h r e =
    let inside : leb s.inode_count inum ≡ false = ground arith in
    (
      load_inode buf (inode_off inum),
      rw inside (
          ap
            (λ o. (
              elim o as (λ x. Option Inode) [
                | none ↦ none
                | some b ↦ some (load_inode b (inode_off inum))
              ],
              s,
            ))
            r),
      e,
    )

-- The inodes of a table that the 32-bit arithmetic of the C code reaches.
pub record HasTable (s : Nvfs) : Type 0 where
  pub inodes : s.inode_count ≤ 2 ^ 25
  pub fits : s.offset + s.inode_start + s.inode_count / 4 < 2 ^ 32

-- The state with an inode replaced.
abbrev pub put_inode : Nvfs → ℕ → Inode → Nvfs
put_inode s inum inode =
    put_sector s (inode_lba s inum)
      (store_inode (s.sector (drive s) (inode_lba s inum)) (inode_off inum) inode)

some_inj : {a b : Mem} → some a ≡ some b → a ≡ b
some_inj e = ground (arith, e)

is_same : {a b : Inode} → a ≡ b → SameInode a b
is_same {a} e = subst (SameInode a) e (record {
  size = refl;
  type = refl;
  ctime = (refl, refl, refl);
  extent_count = refl;
  starts = λ i h. refl;
  counts = λ i h. refl;
  mtime = refl;
})

-- A sector whose inode at `inum` was found.
found_there :
    (s : Nvfs) (inum : ℕ) (old : Inode)
    → inum < s.inode_count
    → inode_read inum s ≡ (some old, s)
    → (buf : Mem) × (read_sector s (inode_lba s inum) ≡ some buf)
      × (load_inode buf (inode_off inum) ≡ old)
unfolding inode_read inode_at
found_there s inum old h e =
    let inside : leb s.inode_count inum ≡ false = ground arith in
    elim (Option-cases (read_sector s (inode_lba s inum))) [
      | inl gone ↦ absurd (ground (arith, inside, gone))
      | inr (buf, there) ↦ (buf, there, ground (arith, inside, there))
    ]

-- Two inodes of one sector.
slots_apart :
    (s : Nvfs) (i j : ℕ)
    → HasTable s
    → i < s.inode_count
    → j < s.inode_count
    → i ≢ j
    → inode_lba s i ≡ inode_lba s j
    → (inode_off i + 128 ≤ inode_off j) ⊎ (inode_off j + 128 ≤ inode_off i)
slots_apart s i j v h l n e = omega (arith, v.inodes, v.fits)

-- For an inode whose fields are in the range of their C types and that has an `extent_count` of at
-- most 14, in a table of at most 2^25 inodes whose sector numbers do not go round at 2^32:
-- `inode_write` of it, under a number below `inode_count`, on a sector that can be read and written
-- succeeds; `inode_read` then finds that inode with its 14 extents, and finds every other inode below
-- `inode_count` as before.
pub inode_write-inode_read :
    (s : Nvfs) (i : ℕ) (inode : Inode)
    → HasTable s
    → IsInode inode
    → i < s.inode_count
    → s.can_read (drive s) (inode_lba s i) ≡ true
    → s.can_write (drive s) (inode_lba s i) ≡ true
    → (inode_write i inode s ≡ (some tt, put_inode s i inode))
      × Finds (put_inode s i inode) i inode
      × ((j : ℕ) (old : Inode)
          → j < s.inode_count
          → i ≢ j
          → inode_read j s ≡ (some old, s)
          → Finds (put_inode s i inode) j old)
unfolding inode_write read_sector write_sector
inode_write-inode_read s i inode v ok h r w = (
  written,
  inode_at-Finds (put_inode s i inode) i new inode h
      (read_sector-put_sector_self s (inode_lba s i) new r)
      (load_inode-store_inode (s.sector (drive s) (inode_lba s i)) (inode_off i) inode ok),
  others,
)
  where
    new : Mem
    new = store_inode (s.sector (drive s) (inode_lba s i)) (inode_off i) inode

    written : inode_write i inode s ≡ (some tt, put_inode s i inode)
    written = let inside : leb s.inode_count i ≡ false = ground arith in rw (inside, r, w) refl

    others :
        (j : ℕ) (old : Inode)
        → j < s.inode_count
        → i ≢ j
        → inode_read j s ≡ (some old, s)
        → Finds (put_inode s i inode) j old
    others j old l n e =
        let (b, there, is_old) = found_there s j old l e in
        elim (Bool-cases (inode_lba s i == inode_lba s j)) [
          | inr differ ↦
              inode_at-Finds (put_inode s i inode) j b old l
                (read_sector-put_sector_ne s (inode_lba s i) (inode_lba s j) new (ground arith)
                  ∙ there)
                (is_same is_old)
          | inl same ↦
              let lba : inode_lba s i ≡ inode_lba s j = ground arith in
              let apart : (inode_off i + 128 ≤ inode_off j) ⊎ (inode_off j + 128 ≤ inode_off i) =
                slots_apart s i j v h l n lba in
              let here : read_sector s (inode_lba s i) ≡ some (s.sector (drive s) (inode_lba s i)) =
                rw r refl in
              let is_b : s.sector (drive s) (inode_lba s i) ≡ b =
                some_inj (sym here ∙ ap (read_sector s) lba ∙ there) in
              inode_at-Finds (put_inode s i inode) j new old l
                (ap (read_sector (put_inode s i inode)) (sym lba)
                  ∙ read_sector-put_sector_self s (inode_lba s i) new r)
                (subst (SameInode (load_inode new (inode_off j))) is_old (
                  load_inode_same new b (inode_off j) (λ x lo hi.
                    store_inode_outside (s.sector (drive s) (inode_lba s i)) (inode_off i) inode x
                      (ground (arith, apart, lo, hi))
                    ∙ ap (λ m. m x) is_b)))
        ]
