-- ===== src/Nvfs/Extents/Written.antt =====
-- The loop of `extent_write` in kernel/drivers/nvfs.c: what the disk holds after it.
use noverix.Base.{
  ℕ, zero, suc, ◌+◌, ◌-◌, ◌*◌, ◌≤◌, ◌<◌, ◌≡◌, ◌≢◌, ◌⊎◌, refl, arith, ◌∙◌, ap, ap₂, ◌==◌, ltb, leb,
  min, ◌&&◌, if◌then◌else◌, true, false, Option, none, some, u32,
}
use noverix.Memory.{Mem, IsBytes}
use noverix.Nvfs.Disk.{
  Nvfs, drive, read_sector, read_block, block_lba, put_sector, write_block, M, attempt, ◌>>=◌, ◌>>◌,
  pure,
}
use noverix.Nvfs.Bitmap.{bitmap_test, bitmap_set}
use noverix.Nvfs.Bitmap.Bits.{IsLaidOut, IsManaged, block_lba_small}
use noverix.Nvfs.Extents.{block_of, write_run}
use noverix.Nvfs.Extents.ReadBack.{Holds}
use noverix.Nvfs.Extents.OneBlock.{
  IsHealthy, on, block_put, block_put_lem, block_put_self, block_put_other, block_put-IsLaidOut,
  bitmap_test-block_put,
}

block_of_in :
    (bytes : Mem) (pos copy x : ℕ) → x < copy → block_of bytes pos copy x ≡ bytes (pos + x)
unfolding block_of
block_of_in bytes pos copy x h = ground arith

block_of-IsBytes : (bytes : Mem) (pos copy : ℕ) → IsBytes bytes → IsBytes (block_of bytes pos copy)
unfolding block_of
block_of-IsBytes bytes pos copy h k = ground (arith, h (pos + k))

-- The state after one round of the loop.
abbrev next : Nvfs → Mem → (block pos remain : ℕ) → Nvfs
next s bytes block pos remain = block_put s block (block_of bytes pos (min 512 remain))

-- The sectors after the loop.
unfoldable pub written : Nvfs → Mem → (block n pos remain : ℕ) → (drive lba : ℕ) → Mem
written s bytes block zero pos remain = s.sector
written s bytes block (suc n) pos remain =
    written (next s bytes block pos remain) bytes (block + 1) n (pos + min 512 remain)
      (remain - min 512 remain)

-- A run of blocks that the bitmap has bits for.
abbrev pub IsManagedRun : Nvfs → (block n : ℕ) → Type 0
IsManagedRun s block n = block + n ≤ s.bitmap_sectors * 4096

next-IsHealthy :
    (s : Nvfs) (bytes : Mem) (block pos remain : ℕ)
    → IsHealthy s
    → IsHealthy (next s bytes block pos remain)
next-IsHealthy s bytes block pos remain h = record { reads = h.reads; writes = h.writes }

no_block : (block b : ℕ) → (leb block b && ltb b (block + 0)) ≡ false
no_block block b = ground arith

one_more :
    (block b n : ℕ) (o : Option ℕ)
    → (if leb (block + 1) b && ltb b (block + 1 + n)
        then some 1
        else if block == b
        then some 1
        else o)
      ≡ (if leb block b && ltb b (block + suc n) then some 1 else o)
one_more block b n o = ground arith

pub read_block_same :
    (s : Nvfs) (f g : (drive lba : ℕ) → Mem) (block : ℕ)
    → f (drive s) (block_lba s block) ≡ g (drive s) (block_lba s block)
    → read_block (on s f) block ≡ read_block (on s g) block
unfolding read_block read_sector
read_block_same s f g block e =
    ap (λ m. if s.can_read (drive s) (block_lba s block) then some m else none) e

after_attempt :
    {A B : Type 0} (m : M A) (s : Nvfs) {r : Option A × Nvfs}
    → m s ≡ r
    → (f : Option A → M B) → (attempt m >>= f) s ≡ f r.0 r.1
after_attempt m s e f = ap (λ r. f r.0 r.1) e

module _ (bytes : Mem) (is_bytes : IsBytes bytes) where
  next-IsLaidOut :
      (s : Nvfs) (block pos remain : ℕ)
      → IsLaidOut s
      → IsHealthy s
      → IsManaged s block
      → IsLaidOut (next s bytes block pos remain)
  next-IsLaidOut s block pos remain v h m =
      block_put-IsLaidOut s block (block_of bytes pos (min 512 remain)) v h m
        (block_of-IsBytes bytes pos (min 512 remain) is_bytes)

  -- The loop writes all its blocks.
  pub write_run-written :
      (s : Nvfs) (start j n pos remain : ℕ)
      → IsLaidOut s
      → IsHealthy s
      → IsManagedRun s (start + j) n
      → write_run bytes start j n pos remain s
        ≡ (some (j + n), on s (written s bytes (start + j) n pos remain))
  unfolding write_run written
  write_run-written s start j zero pos remain v h m = ap (λ k. (some k, s)) (omega arith)
  write_run-written s start j (suc n) pos remain v h m =
      let place : u32 (start + j) ≡ start + j = omega (arith, v.fits) in
      let (put, marked) =
        block_put_lem s (start + j) (block_of bytes pos (min 512 remain)) v h (omega arith) in
      let after : Nvfs = next s bytes (start + j) pos remain in
      let left : ℕ = remain - min 512 remain in
      let rest : ℕ → M ℕ = λ k. write_run bytes start k n (pos + min 512 remain) left in
      let more : start + (j + 1) ≡ start + j + 1 = omega arith in
      let total : j + 1 + n ≡ j + suc n = omega arith in
      after_attempt (write_block (u32 (start + j)) (block_of bytes pos (min 512 remain))) s
        (ap (λ b. write_block b (block_of bytes pos (min 512 remain)) s) place ∙ put)
        (λ r. elim r as (λ x. M ℕ) [
          | none ↦ pure j
          | some _ ↦ attempt (bitmap_set (u32 (start + j)) true) >> rest (j + 1)
        ])
      ∙ after_attempt (bitmap_set (u32 (start + j)) true)
          (put_sector s (block_lba s (start + j)) (block_of bytes pos (min 512 remain)))
          (ap
              (λ b.
                bitmap_set b true
                  (put_sector s (block_lba s (start + j)) (block_of bytes pos (min 512 remain))))
              place
            ∙ marked)
          (λ _. rest (j + 1))
      ∙ write_run-written after start (j + 1) n (pos + min 512 remain) left
          (next-IsLaidOut s (start + j) pos remain v h (omega arith))
          (next-IsHealthy s bytes (start + j) pos remain h) (omega arith)
      ∙ ap₂ (λ k b. (some k, on s (written after bytes b n (pos + min 512 remain) left))) total more

  -- A sector that is neither of the run nor in the bitmap.
  pub written_other :
      (s : Nvfs) (block n pos remain l : ℕ)
      → IsLaidOut s
      → IsHealthy s
      → IsManagedRun s block n
      → (l < s.offset + s.data_start + block) ⊎ (s.offset + s.data_start + block + n ≤ l)
      → (l < s.offset + s.bitmap_start) ⊎ (s.offset + s.bitmap_start + s.bitmap_sectors ≤ l)
      → written s bytes block n pos remain (drive s) l ≡ s.sector (drive s) l
  unfolding written
  written_other s block zero pos remain l v h m out away = refl
  written_other s block (suc n) pos remain l v h m out away =
      let lba : block_lba s block ≡ s.offset + s.data_start + block =
        block_lba_small s block v (omega arith) in
      let other : l ≢ block_lba s block = omega (arith, lba, out) in
      written_other (next s bytes block pos remain) (block + 1) n (pos + min 512 remain)
        (remain - min 512 remain) l (next-IsLaidOut s block pos remain v h (omega arith))
        (next-IsHealthy s bytes block pos remain h) (omega arith) (omega (arith, out)) away
      ∙ block_put_other s block (block_of bytes pos (min 512 remain)) v h (omega arith) l other away

  pub written-IsLaidOut :
      (s : Nvfs) (block n pos remain : ℕ)
      → IsLaidOut s
      → IsHealthy s
      → IsManagedRun s block n
      → IsLaidOut (on s (written s bytes block n pos remain))
  unfolding written
  written-IsLaidOut s block zero pos remain v h m = v
  written-IsLaidOut s block (suc n) pos remain v h m =
      written-IsLaidOut (next s bytes block pos remain) (block + 1) n (pos + min 512 remain)
        (remain - min 512 remain) (next-IsLaidOut s block pos remain v h (omega arith))
        (next-IsHealthy s bytes block pos remain h) (omega arith)

  -- The blocks of the run are in use.
  pub written_used :
      (s : Nvfs) (block n pos remain b : ℕ)
      → IsLaidOut s
      → IsHealthy s
      → IsManagedRun s block n
      → IsManaged s b
      → bitmap_test (on s (written s bytes block n pos remain)) b
        ≡ (if leb block b && ltb b (block + n) then some 1 else bitmap_test s b)
  unfolding written
  written_used s block zero pos remain b v h m mb = rw (no_block block b) refl
  written_used s block (suc n) pos remain b v h m mb =
      written_used (next s bytes block pos remain) (block + 1) n (pos + min 512 remain)
        (remain - min 512 remain) b (next-IsLaidOut s block pos remain v h (omega arith))
        (next-IsHealthy s bytes block pos remain h) (omega arith) mb
      ∙ ap (λ o. if leb (block + 1) b && ltb b (block + 1 + n) then some 1 else o)
          (bitmap_test-block_put s block (block_of bytes pos (min 512 remain)) v h (omega arith) b
            (block_of-IsBytes bytes pos (min 512 remain) is_bytes) mb)
      ∙ one_more block b n (bitmap_test s b)

  -- What the blocks of the run hold.
  pub written-Holds :
      (s : Nvfs) (block n pos remain : ℕ)
      → IsLaidOut s
      → IsHealthy s
      → IsManagedRun s block n
      → Holds (on s (written s bytes block n pos remain)) bytes block n pos remain
  unfolding written
  written-Holds s block zero pos remain v h m k l = absurd (omega arith)
  written-Holds s block (suc n) pos remain v h m zero l =
      let m0 : IsManaged s block = omega arith in
      let lba : block_lba s block ≡ s.offset + s.data_start + block =
        block_lba_small s block v m0 in
      let kept =
        written_other (next s bytes block pos remain) (block + 1) n (pos + min 512 remain)
          (remain - min 512 remain) (block_lba s block) (next-IsLaidOut s block pos remain v h m0)
          (next-IsHealthy s bytes block pos remain h) (omega arith) (omega (arith, lba))
          (omega (arith, lba, v.bitmap_end, v.inode_end)) in
      (
        block_of bytes pos (min 512 remain),
        ap (read_block (on s (written s bytes block (suc n) pos remain))) (omega (arith, v.fits))
            ∙ read_block_same s (written s bytes block (suc n) pos remain)
                ((next s bytes block pos remain).sector) block kept
            ∙ block_put_self s block (block_of bytes pos (min 512 remain)) v h m0,
        λ x in_block in_file.
            block_of_in bytes pos (min 512 remain) x (omega (arith, in_file))
            ∙ ap bytes (omega arith),
      )
  written-Holds s block (suc n) pos remain v h m (suc k) l =
      let (buf, there, content) =
        written-Holds (next s bytes block pos remain) (block + 1) n (pos + min 512 remain)
          (remain - min 512 remain) (next-IsLaidOut s block pos remain v h (omega arith))
          (next-IsHealthy s bytes block pos remain h) (omega arith) k (omega arith) in
      let after : Nvfs = on s (
        written (next s bytes block pos remain) bytes (block + 1) n (pos + min 512 remain)
          (remain - min 512 remain)) in
      (
        buf,
        ap (read_block after) (omega arith) ∙ there,
        λ x in_block in_file.
            content x in_block (omega (arith, in_file)) ∙ ap bytes (omega (arith, in_file)),
      )
