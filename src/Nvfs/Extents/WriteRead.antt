-- ===== src/Nvfs/Extents/WriteRead.antt =====
-- What `extent_write` of kernel/drivers/nvfs.c writes `extent_read` reads.
use noverix.Base.{
  ℕ, ◌+◌, ◌-◌, ◌/◌, ◌^◌, ◌≤◌, ◌<◌, ◌≡◌, ◌⊎◌, inl, inr, refl, arith, ◌∙◌, ap, ap₂, ◌==◌, ltb, leb,
  min, ◌&&◌, if◌then◌else◌, false, Option, none, some, u32, List, [], ◌∷◌, append-nil, ◌++◌,
  Bool-cases,
}
use noverix.Memory.{Mem, IsBytes}
use noverix.Nvfs.Disk.{Nvfs, drive, read_block, block_lba, ask, M, fail, ◌>>=◌, ◌>>◌, pure}
use noverix.Nvfs.Bitmap.{bitmap_test, bitmap_find}
use noverix.Nvfs.Bitmap.Bits.{IsLaidOut, IsManaged, block_lba_small}
use noverix.Nvfs.Inode.{Extent, Inode, extent_load_all, direct_from, free_blocks}
use noverix.Nvfs.Extents.{
  bytes_from, read_run, read_extents, extent_read, write_run, one_extent, extent_write,
}
use noverix.Nvfs.Extents.ReadBack.{Holds, read_run-bytes_from}
use noverix.Nvfs.Extents.OneBlock.{IsHealthy, on}
use noverix.Nvfs.Bitmap.FreeRun.{FreeRun, bitmap_find-FreeRun}
use noverix.Nvfs.Extents.Written.{
  IsManagedRun, written, read_block_same, write_run-written, written_other, written-IsLaidOut,
  written_used, written-Holds,
}

-- The blocks that a file of this size needs.
abbrev pub blocks_of : ℕ → ℕ
blocks_of size = u32 (size + 511) / 512

-- What the call promises, with the sectors it leaves behind.
pub record IsStored (s : Nvfs) (inode : Inode) (bytes : Mem) (size start : ℕ)
    (f : (drive lba : ℕ) → Mem) : Type 0 where
  pub reads_back :
      (max : ℕ)
      → extent_read (on s f) (one_extent inode size start (blocks_of size)) max
        ≡ some (bytes_from bytes 0 (min size max))
  pub marked :
      (b : ℕ)
      → IsManaged s b
      → bitmap_test (on s f) b
        ≡ (if leb start b && ltb b (start + blocks_of size) then some 1 else bitmap_test s b)
  pub in_use_kept :
      (b : ℕ) → IsManaged s b → bitmap_test s b ≡ some 1 → read_block (on s f) b ≡ read_block s b
  pub rest_kept :
      (l : ℕ)
      → (l < s.offset + s.bitmap_start) ⊎ (s.offset + s.bitmap_start + s.bitmap_sectors ≤ l)
      → (l < s.offset + s.data_start)
      → f (drive s) l ≡ s.sector (drive s) l
  pub laid_out : IsLaidOut (on s f)

after_some :
    {A B : Type 0} (m : M A) (s : Nvfs) {a : A} {t : Nvfs}
    → m s ≡ (some a, t)
    → (k : A → M B) → (m >>= k) s ≡ k a t
after_some {A} {B} m s e k =
    ap (λ r. elim r.0 as (λ x. Option B × Nvfs) [ none ↦ (none, r.1) | some a ↦ k a r.1 ]) e

one_run :
    (s : Nvfs) (e : Extent) (remain : ℕ) (xs : List ℕ)
    → read_run s e.start e.count remain ≡ some xs
    → read_extents s (e ∷ []) remain ≡ some (xs ++ [])
unfolding read_extents
one_run s e remain xs r = rw (read_extents, r) refl

module _ (s : Nvfs) (inode : Inode) (bytes : Mem) (size start : ℕ) (v : IsLaidOut s)
    (h : IsHealthy s) (b : IsBytes bytes) (fits : size < 2 ^ 32 - 511)
    (found : bitmap_find s (blocks_of size) ≡ some start)
    (managed : IsManagedRun s start (blocks_of size)) where
  abbrev after : (drive lba : ℕ) → Mem
  after = written s bytes start (blocks_of size) 0 size

  stored_read :
      (max : ℕ)
      → extent_read (on s after) (one_extent inode size start (blocks_of size)) max
        ≡ some (bytes_from bytes 0 (min size max))
  unfolding extent_read extent_load_all direct_from
  stored_read max =
      let whole = written-Holds bytes b s start (blocks_of size) 0 size v h managed in
      let part : Holds (on s after) bytes start (blocks_of size) 0 (min size max) = λ k l.
        (let (buf, there, content) = whole k l in
          (buf, there, λ x a c. content x a (omega (arith, c)))) in
      let run =
        read_run-bytes_from (on s after) bytes start (blocks_of size) 0 (min size max) part
          (omega (arith, v.fits, managed)) (omega (arith, fits)) in
      one_run (on s after) (record { start = start; count = blocks_of size }) (min size max)
        (bytes_from bytes 0 (min size max)) run
      ∙ ap some (append-nil (bytes_from bytes 0 (min size max)))

  free_apart : (c : ℕ) → bitmap_test s c ≡ some 1 → (c < start) ⊎ (start + blocks_of size ≤ c)
  free_apart c used = elim (Bool-cases (leb start c && ltb c (start + blocks_of size))) [
    | inr out ↦ ground arith
    | inl here ↦
        let run : FreeRun s (blocks_of size) start =
          bitmap_find-FreeRun s (blocks_of size) start v found in
        let free : bitmap_test s (u32 (start + (c - start))) ≡ some 0 =
          run.free (c - start) (ground arith) in
        let place : u32 (start + (c - start)) ≡ c = ground (arith, v.fits, managed) in
        absurd (ground (arith, used, ap (bitmap_test s) place, free))
  ]

  stored : IsStored s inode bytes size start after
  stored = record {
    reads_back = stored_read;
    marked = λ c m. written_used bytes b s start (blocks_of size) 0 size c v h managed m;
    in_use_kept = λ c m used.
        let lba : block_lba s c ≡ s.offset + s.data_start + c = block_lba_small s c v m in
        read_block_same s after s.sector c (
          written_other bytes b s start (blocks_of size) 0 size (block_lba s c) v h managed
            (omega (arith, lba, free_apart c used))
            (omega (arith, lba, v.bitmap_end, v.inode_end)));
    rest_kept = λ l away below.
        written_other bytes b s start (blocks_of size) 0 size l v h managed
          (inl (omega (arith, below))) away;
    laid_out = written-IsLaidOut bytes b s start (blocks_of size) 0 size v h managed;
  }

-- On a drive without errors and a file system whose regions follow each other without a number that
-- goes round at 2^32, where `bitmap_find` finds a run of blocks that the bitmap has bits for,
-- `extent_write` of 1 to 2^32 - 512 bytes returns 0 with one extent. `extent_read` then gives the
-- first bytes of the buffer, as many as are asked for; the blocks of the run are in use and no other
-- bit changes; a block in use before, and a sector in front of the data and outside the bitmap, keeps
-- its content.
pub extent_write-extent_read :
    (s : Nvfs) (inode : Inode) (bytes : Mem) (size start : ℕ)
    → IsLaidOut s
    → IsHealthy s
    → IsBytes bytes
    → 1 ≤ size
    → size < 2 ^ 32 - 511
    → bitmap_find s (blocks_of size) ≡ some start
    → IsManagedRun s start (blocks_of size)
    → (f : (drive lba : ℕ) → Mem) × (extent_write inode bytes size s
        ≡ (some (one_extent inode size start (blocks_of size)), on s f))
      × IsStored s inode bytes size start f
unfolding extent_write
extent_write-extent_read s inode bytes size start v h b some_bytes fits found managed =
    let done : write_run bytes start 0 (blocks_of size) 0 size s
        ≡ (some (blocks_of size), on s (written s bytes start (blocks_of size) 0 size)) =
      write_run-written bytes b s start 0 (blocks_of size) 0 size v h (omega (arith, managed))
      ∙ ap₂ (λ k c. (some k, on s (written s bytes c (blocks_of size) 0 size))) (omega arith)
          (omega arith) in
    let some_size : (size == 0) ≡ false = ground arith in
    let end : ℕ → ℕ → M Inode = λ first n.
      (if ltb n (blocks_of size)
        then (free_blocks first n >> fail)
        else pure (one_extent inode size first (blocks_of size))) in
    let all_done : ltb (blocks_of size) (blocks_of size) ≡ false = ground arith in
    (
      written s bytes start (blocks_of size) 0 size,
      rw some_size (
          after_some (ask (λ s. bitmap_find s (blocks_of size))) s (ap (λ o. (o, s)) found)
            (λ first. write_run bytes first 0 (blocks_of size) 0 size >>= λ n. end first n)
          ∙ after_some (write_run bytes start 0 (blocks_of size) 0 size) s done (λ n. end start n)
          ∙ rw all_done refl),
      stored s inode bytes size start v h b fits found managed,
    )
