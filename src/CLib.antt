-- ===== src/CLib.antt =====
-- kernel/lib.c: the memory and string functions that the kernel shares. Addresses do not wrap. A loop
-- to a zero byte takes fuel, and `none` means that the fuel ran out.
pub mod Blocks
pub mod Strings
mod Tests
use noverix.Base.{
  ℕ, zero, suc, ◌+◌, ◌==◌, ◌!=◌, if◌then◌else◌, ◌&&◌, ◌||◌, Option, none, some, update, u8, ℤ,
  sub_ℕ,
}
use noverix.Memory.{Mem}

unfoldable pub memcpy : Mem → (dst src n : ℕ) → Mem
memcpy m dst src zero = m
memcpy m dst src (suc n) = memcpy (update m dst (m src)) (dst + 1) (src + 1) n

unfoldable pub memset : Mem → (dst v n : ℕ) → Mem
memset m dst v zero = m
memset m dst v (suc n) = memset (update m dst (u8 v)) (dst + 1) v n

unfoldable pub strlen_from : ℕ → Mem → (s n : ℕ) → Option ℕ
strlen_from zero m s n = none
strlen_from (suc f) m s n =
    let rest = strlen_from f m (s + 1) (n + 1) in if m s == 0 then some n else rest

unfoldable pub strlen : (fuel : ℕ) → Mem → ℕ → Option ℕ
strlen fuel m s = strlen_from fuel m s 0

-- The result is the difference of the first bytes that differ.
unfoldable pub strcmp : (fuel : ℕ) → Mem → (a b : ℕ) → Option ℤ
strcmp zero m a b = none
strcmp (suc f) m a b =
    let rest = strcmp f m (a + 1) (b + 1) in
    if (m a != 0) && (m a == m b) then rest else some (sub_ℕ (m a) (m b))

unfoldable pub strcpy_from : ℕ → Mem → (dst src : ℕ) → Option Mem
strcpy_from zero m dst src = none
strcpy_from (suc f) m dst src =
    let copied = update m dst (m src) in
    let rest = strcpy_from f copied (dst + 1) (src + 1) in if m src == 0 then some copied else rest

unfoldable pub strcpy : (fuel : ℕ) → Mem → (dst src : ℕ) → Option Mem
strcpy fuel m dst src = if (dst == 0) || (src == 0) then some m else strcpy_from fuel m dst src
