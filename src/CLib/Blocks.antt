-- ===== src/CLib/Blocks.antt =====
-- `lib_memcpy` and `lib_memset` of kernel/lib.c, byte by byte.
use noverix.Base.{
  ℕ, zero, suc, ◌+◌, ◌-◌, ◌≤◌, ◌≡◌, ◌⊎◌, arith, ◌&&◌, leb, ltb, if◌then◌else◌, update, u8,
}
use noverix.Memory.{Mem}
use noverix.CLib.{memcpy, memset}

-- Between regions that do not overlap, `memcpy` moves the `n` bytes at `src` to `dst`, and changes no
-- byte outside the destination.
pub memcpy_lem :
    (m : Mem) (dst src n a : ℕ)
    → (dst + n ≤ src) ⊎ (src + n ≤ dst)
    → memcpy m dst src n a ≡ (if leb dst a && ltb a (dst + n) then m (src + (a - dst)) else m a)
unfolding memcpy
memcpy_lem m dst src zero a h = ground arith
memcpy_lem m dst src (suc n) a h =
    ground (arith, memcpy_lem (update m dst (m src)) (dst + 1) (src + 1) n a, shift)
  where
    shift : dst + 1 ≤ a → src + 1 + (a - (dst + 1)) ≡ src + (a - dst)
    shift p = omega arith

-- `memset` stores the low byte of `v` in the `n` bytes from `dst`, and changes no other.
pub memset_lem :
    (m : Mem) (dst v n a : ℕ)
    → memset m dst v n a ≡ (if leb dst a && ltb a (dst + n) then u8 v else m a)
unfolding memset
memset_lem m dst v zero a = ground arith
memset_lem m dst v (suc n) a = ground (arith, memset_lem (update m dst (u8 v)) (dst + 1) v n a)
