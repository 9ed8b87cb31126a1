-- ===== src/Nvfs/Bitmap.antt =====
-- The block bitmap of kernel/drivers/nvfs.c: `bitmap_test`, `bitmap_set` and `bitmap_find`.
pub mod Bits
pub mod FreeRun
use noverix.Base.{
  ℕ, zero, suc, ◌+◌, ◌-◌, ◌*◌, ◌/◌, ◌%◌, ◌==◌, ltb, if◌then◌else◌, Bool, true, false, Option, none,
  some, update, u32, bit_at, with_bit, without_bit,
}
use noverix.Memory.{Mem}
use noverix.Nvfs.Disk.{Nvfs, sector_size, M, pure, get, ask, ◌>>=◌, read_sector, write_sector}

abbrev pub bits_per_sec : ℕ
bits_per_sec = sector_size * 8

abbrev pub bitmap_lba : Nvfs → ℕ → ℕ
bitmap_lba s block = u32 (s.offset + s.bitmap_start + block / bits_per_sec)

abbrev pub block_bit : Mem → ℕ → ℕ
block_bit buf bit = bit_at (buf (bit / 8)) (bit % 8)

abbrev pub bit_of : Option Mem → ℕ → Option ℕ
bit_of none bit = none
bit_of (some buf) bit = some (block_bit buf bit)

unfoldable pub bitmap_test : Nvfs → ℕ → Option ℕ
bitmap_test s block = bit_of (read_sector s (bitmap_lba s block)) (block % bits_per_sec)

unfoldable pub set_in : Mem → (bit : ℕ) → Bool → Mem
set_in buf bit used =
    update buf (bit / 8)
      (if used then with_bit (buf (bit / 8)) (bit % 8) else without_bit (buf (bit / 8)) (bit % 8))

unfoldable pub bitmap_set : ℕ → Bool → M (Unit {0})
bitmap_set block used = do
  s ← get
  buf ← ask (λ s. read_sector s (bitmap_lba s block))
  write_sector (bitmap_lba s block) (set_in buf (block % bits_per_sec) used)

-- `for (j = …; j < count; j++)`: are the next `n` blocks free.
unfoldable pub rest_is_free : Nvfs → (block n : ℕ) → Bool
rest_is_free s block zero = true
rest_is_free s block (suc n) =
    let rest = rest_is_free s (u32 (block + 1)) n in
    elim (bitmap_test s block) [ none ↦ false | some r ↦ if r == 0 then rest else false ]

-- The loop over the bits of a sector, from bit `b` on.
unfoldable pub find_in_sector : Nvfs → (count : ℕ) → Mem → (base b n : ℕ) → Option ℕ
find_in_sector s count buf base b zero = none
find_in_sector s count buf base b (suc n) =
    let rest = find_in_sector s count buf base (b + 1) n in
    if ltb (u32 (base + b)) (u32 (s.bitmap_sectors * bits_per_sec))
    then (if block_bit buf b == 0
        then (if count == 1
            then some (u32 (base + b))
            else if rest_is_free s (u32 (base + b + 1)) (count - 1)
            then some (u32 (base + b))
            else rest)
        else rest)
    else none

-- The loop over the sectors of the bitmap, from sector `sec` on.
unfoldable pub find_from : Nvfs → (count sec n : ℕ) → Option ℕ
find_from s count sec zero = none
find_from s count sec (suc n) =
    let rest = find_from s count (sec + 1) n in
    elim (read_sector s (u32 (s.offset + s.bitmap_start + sec))) [
      | none ↦ none
      | some buf ↦ elim (find_in_sector s count buf (u32 (sec * bits_per_sec)) 0 bits_per_sec) [
        | none ↦ rest
        | some start ↦ some start
      ]
    ]

-- An `unsigned` that is returned as `int`: its callers take what is negative for -1.
abbrev pub as_int : Option ℕ → Option ℕ
as_int none = none
as_int (some r) = if ltb r 0x80000000 then some r else none

-- The first run of `count` free blocks, or -1.
unfoldable pub bitmap_find : Nvfs → ℕ → Option ℕ
bitmap_find s count = as_int (find_from s count 0 s.bitmap_sectors)
