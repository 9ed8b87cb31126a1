-- ===== src/Nvfs/Bitmap/FreeRun.antt =====
-- What `bitmap_find` of kernel/drivers/nvfs.c finds.
use noverix.Base.{
  ℕ, zero, suc, ◌+◌, ◌-◌, ◌*◌, ◌/◌, ◌%◌, ◌^◌, ◌≤◌, ◌<◌, ◌≡◌, ◌⊎◌, inl, inr, refl, arith, ◌∙◌, ap,
  sym, ◌==◌, ltb, if◌then◌else◌, Bool, true, false, Option, none, some, u32, Bool-cases, bit_at,
  bit_and_mask, Option-cases, subst,
}
use noverix.Memory.{Mem}
use noverix.Nvfs.Disk.{Nvfs, drive, read_sector}
use noverix.Nvfs.Bitmap.{
  bitmap_lba, block_bit, bit_of, bitmap_test, as_int, rest_is_free, find_in_sector, find_from,
  bitmap_find,
}
use noverix.Nvfs.Bitmap.Bits.{IsLaidOut, IsManaged}

-- The blocks from `r` on, going round at 2^32 as their numbers do.
pub record FreeRun (s : Nvfs) (count r : ℕ) : Type 0 where
  pub managed : IsManaged s r
  pub free : (j : ℕ) → j < count → bitmap_test s (u32 (r + j)) ≡ some 0

tested_free :
    (o : Option ℕ) (rest : Bool)
    → elim o as (λ x. Bool) [ none ↦ false | some r ↦ if r == 0 then rest else false ] ≡ true
    → (o ≡ some 0) × (rest ≡ true)
tested_free none rest e = absurd (ground arith)
tested_free (some r) rest e = ground arith

rest_free :
    (s : Nvfs) (block n : ℕ)
    → rest_is_free s block n ≡ true
    → block < 2 ^ 32
    → (j : ℕ) → j < n
    → bitmap_test s (u32 (block + j)) ≡ some 0
unfolding rest_is_free
rest_free s block zero e small j h = absurd (omega arith)
rest_free s block (suc n) e small zero h =
    let here : u32 (block + 0) ≡ block = omega arith in
    rw here (tested_free (bitmap_test s block) _ e).0
rest_free s block (suc n) e small (suc j) h =
    let later : u32 (block + suc j) ≡ u32 (u32 (block + 1) + j) = omega arith in
    rw later (
      rest_free s (u32 (block + 1)) n (tested_free (bitmap_test s block) _ e).1 (omega arith) j
        (omega arith))

-- How one round of the loop over the bits can end.
round_ends :
    (within clear one more : Bool) (x r : ℕ) (rest : Option ℕ)
    → (if within
        then (if clear then (if one then some x else if more then some x else rest) else rest)
        else none)
      ≡ some r
    → ((clear ≡ true) × ((one ≡ true) ⊎ (more ≡ true)) × (x ≡ r)) ⊎ (rest ≡ some r)
round_ends true true true more x r rest e = inl (refl, inl refl, ground arith)
round_ends true true false true x r rest e = inl (refl, inr refl, ground arith)
round_ends true true false false x r rest e = inr e
round_ends true false one more x r rest e = inr e
round_ends false clear one more x r rest e = absurd (ground arith)

module _ (s : Nvfs) (count base : ℕ) (buf : Mem) (v : IsLaidOut s)
    (there : read_sector s (s.offset + s.bitmap_start + base / 4096) ≡ some buf)
    (whole : base % 4096 ≡ 0) (within : base + 4096 ≤ s.bitmap_sectors * 4096) where
  -- The bit at `b` of the sector is that of block `base + b`.
  bit_there : (b : ℕ) → b < 4096 → bitmap_test s (base + b) ≡ some (block_bit buf b)
  unfolding bitmap_test
  bit_there b h =
      let lba : bitmap_lba s (base + b) ≡ s.offset + s.bitmap_start + base / 4096 =
        omega (arith, v.fits, v.bitmap_end, v.inode_end) in
      let bit : (base + b) % 4096 ≡ b = omega arith in
      ap (λ l. bit_of (read_sector s l) ((base + b) % 4096)) lba
      ∙ ap (λ o. bit_of o ((base + b) % 4096)) there
      ∙ ap (λ k. some (block_bit buf k)) bit

  one_free : (b : ℕ) → b < 4096 → block_bit buf b ≡ 0 → count ≡ 1 → FreeRun s count (base + b)
  one_free b h z one = record {
    managed = omega arith;
    free = λ j l. ap (bitmap_test s) (omega (arith, v.fits)) ∙ bit_there b h ∙ ap some z;
  }

  more_free :
      (b : ℕ)
      → b < 4096
      → block_bit buf b ≡ 0
      → rest_is_free s (u32 (base + b + 1)) (count - 1) ≡ true
      → FreeRun s count (base + b)
  more_free b h z rest = record { managed = omega arith; free = λ j l. at_place j l }
    where
      at_place : (j : ℕ) → j < count → bitmap_test s (u32 (base + b + j)) ≡ some 0
      at_place zero l = ap (bitmap_test s) (omega (arith, v.fits)) ∙ bit_there b h ∙ ap some z
      at_place (suc j) l =
          ap (bitmap_test s) (omega arith)
          ∙ rest_free s (u32 (base + b + 1)) (count - 1) rest (omega arith) j (omega arith)

  in_sector :
      (b n r : ℕ) → b + n ≤ 4096 → find_in_sector s count buf base b n ≡ some r → FreeRun s count r
  unfolding find_in_sector
  in_sector b zero r h e = absurd (ground arith)
  in_sector b (suc n) r h e =
      let small : u32 (base + b) ≡ base + b = omega (arith, v.fits) in
      let rest : find_in_sector s count buf base (b + 1) n ≡ some r → FreeRun s count r =
        in_sector (b + 1) n r (omega arith) in
      elim (round_ends (ltb (u32 (base + b)) (u32 (s.bitmap_sectors * 4096))) (block_bit buf b == 0)
        (count == 1) (rest_is_free s (u32 (base + b + 1)) (count - 1)) (u32 (base + b)) r
        (find_in_sector s count buf base (b + 1) n) e) [
          | inr f ↦ rest f
          | inl (z, inl one, x) ↦
              subst (FreeRun s count) (sym small ∙ x)
                (one_free b (omega arith) (ground arith) (ground arith))
          | inl (z, inr more, x) ↦
              subst (FreeRun s count) (sym small ∙ x)
                (more_free b (omega arith) (ground arith) more)
        ]

find_from-FreeRun :
    (s : Nvfs) (count sec n r : ℕ)
    → IsLaidOut s
    → sec + n ≤ s.bitmap_sectors
    → find_from s count sec n ≡ some r
    → FreeRun s count r
unfolding find_from
find_from-FreeRun s count sec zero r v h e = absurd (ground arith)
find_from-FreeRun s count sec (suc n) r v h e =
    let rest : find_from s count (sec + 1) n ≡ some r → FreeRun s count r =
      find_from-FreeRun s count (sec + 1) n r v (omega arith) in
    let base : u32 (sec * 4096) ≡ sec * 4096 = omega (arith, v.fits) in
    let lba : u32 (s.offset + s.bitmap_start + sec)
        ≡ s.offset + s.bitmap_start + sec * 4096 / 4096 =
      omega (arith, v.fits, v.bitmap_end, v.inode_end) in
    elim (Option-cases (read_sector s (u32 (s.offset + s.bitmap_start + sec)))) [
      | inl gone ↦ absurd (ground (arith, gone))
      | inr (buf, there) ↦
          elim (Option-cases (find_in_sector s count buf (u32 (sec * 4096)) 0 4096)) [
            | inl no_run ↦ rest (ground (arith, there, no_run))
            | inr (start, run) ↦ subst (FreeRun s count) (ground (arith, there, run)) (
                in_sector s count (sec * 4096) buf v (ap (read_sector s) (sym lba) ∙ there)
                  (omega arith) (omega arith) 0 4096 start (omega arith)
                  (ap (λ b. find_in_sector s count buf b 0 4096) (sym base) ∙ run))
          ]
    ]

as_int-some : (o : Option ℕ) (r : ℕ) → as_int o ≡ some r → o ≡ some r
as_int-some none r e = absurd (ground arith)
as_int-some (some x) r e = ground arith

pub bitmap_find-FreeRun :
    (s : Nvfs) (count r : ℕ) → IsLaidOut s → bitmap_find s count ≡ some r → FreeRun s count r
unfolding bitmap_find
bitmap_find-FreeRun s count r v e =
    find_from-FreeRun s count 0 s.bitmap_sectors r v (omega arith)
      (as_int-some (find_from s count 0 s.bitmap_sectors) r e)

-- The bit of a block on the disk: bit `block % 8` of a byte of the sector that has the bits of 4096
-- blocks.
abbrev pub disk_bit : Nvfs → (block : ℕ) → ℕ
disk_bit s block =
    s.sector (drive s) (s.offset + s.bitmap_start + block / 4096) (block % 4096 / 8)
    / 2 ^ (block % 8)
    % 2

-- The run begins at a block of the bitmap, and on the disk the bit of each of its blocks within the
-- bitmap is clear.
pub record FreeBlocks (s : Nvfs) (count r : ℕ) : Type 0 where
  pub first : IsManaged s r
  pub clear : (j : ℕ) → j < count → IsManaged s (r + j) → disk_bit s (r + j) ≡ 0

read_sector-some :
    (s : Nvfs) (lba k b : ℕ)
    → bit_of (read_sector s lba) k ≡ some b
    → block_bit (s.sector (drive s) lba) k ≡ b
unfolding read_sector
read_sector-some s lba k b e = elim (Bool-cases (s.can_read (drive s) lba)) [
  | inl there ↦ ground (arith, e, there)
  | inr gone ↦ absurd (ground (arith, e, gone))
]

-- On a file system whose regions follow each other without going round at 2^32, a block that
-- `bitmap_find` returns is one that the bitmap has a bit for, and of the `count` blocks from it on,
-- those that the bitmap has a bit for have their bits clear on the disk.
pub bitmap_find-FreeBlocks :
    (s : Nvfs) (count r : ℕ) → IsLaidOut s → bitmap_find s count ≡ some r → FreeBlocks s count r
unfolding bitmap_test bit_at
bitmap_find-FreeBlocks s count r v e =
    let run : FreeRun s count r = bitmap_find-FreeRun s count r v e in
    record {
      first = run.managed;
      clear = λ j h within.
          let same : u32 (r + j) ≡ r + j = omega (arith, v.fits) in
          let lba : bitmap_lba s (r + j) ≡ s.offset + s.bitmap_start + (r + j) / 4096 =
            omega (arith, v.fits, v.bitmap_end, v.inode_end) in
          let bit : (r + j) % 8 ≡ (r + j) % 4096 % 8 = omega arith in
          let tested : bitmap_test s (r + j) ≡ some 0 =
            ap (bitmap_test s) (sym same) ∙ run.free j h in
          let byte : ℕ = s.sector (drive s) (bitmap_lba s (r + j)) ((r + j) % 4096 / 8) in
          rw (bit, sym lba)
            (sym (bit_and_mask 1 (byte / 2 ^ ((r + j) % 4096 % 8)))
              ∙ read_sector-some s (bitmap_lba s (r + j)) ((r + j) % 4096) 0 tested);
    }
