-- ===== src/Memory.antt =====
-- Byte-addressed memory, as the C code sees it through pointers, with little-endian words.
use noverix.Base.{ℕ, ◌+◌, ◌*◌, ◌/◌, ◌%◌, ◌^◌, ◌≤◌, ◌<◌, ◌≡◌, ◌⊎◌, arith, update}

abbrev pub Mem : Type 0
Mem = ℕ → ℕ

-- `*(unsigned int *)a` on x86.
unfoldable pub load32 : Mem → ℕ → ℕ
load32 m a = m a + m (a + 1) * 2 ^ 8 + m (a + 2) * 2 ^ 16 + m (a + 3) * 2 ^ 24

unfoldable pub store32 : Mem → ℕ → ℕ → Mem
store32 m a v =
    update
      (update (update (update m a (v % 256)) (a + 1) (v / 2 ^ 8 % 256)) (a + 2) (v / 2 ^ 16 % 256))
      (a + 3) (v / 2 ^ 24 % 256)

abbrev pub IsBytes : Mem → Type 0
IsBytes m = (a : ℕ) → m a < 256

pub load32-store32 : (m : Mem) (a v : ℕ) → v < 2 ^ 32 → load32 (store32 m a v) a ≡ v
unfolding load32 store32
load32-store32 m a v h = ground arith

pub store32_outside : (m : Mem) (a v x : ℕ) → (x < a) ⊎ (a + 4 ≤ x) → store32 m a v x ≡ m x
unfolding store32
store32_outside m a v x h = ground arith

-- A word that does not overlap the one that is written.
pub load32-store32_apart :
    (m : Mem) (a v b : ℕ) → (b + 4 ≤ a) ⊎ (a + 4 ≤ b) → load32 (store32 m a v) b ≡ load32 m b
unfolding load32
load32-store32_apart m a v b h = ground (
  arith,
  store32_outside m a v b,
  store32_outside m a v (b + 1),
  store32_outside m a v (b + 2),
  store32_outside m a v (b + 3),
)

pub store32-IsBytes : (m : Mem) (a v : ℕ) → IsBytes m → IsBytes (store32 m a v)
unfolding store32
store32-IsBytes m a v h x = ground (arith, h x)

pub load32-lt : (m : Mem) (a : ℕ) → IsBytes m → load32 m a < 2 ^ 32
unfolding load32
load32-lt m a h = omega (arith, h a, h (a + 1), h (a + 2), h (a + 3))

-- `*(uint16_t *)a` on x86.
unfoldable pub load16 : Mem → ℕ → ℕ
load16 m a = m a + m (a + 1) * 2 ^ 8

unfoldable pub store16 : Mem → ℕ → ℕ → Mem
store16 m a v = update (update m a (v % 256)) (a + 1) (v / 2 ^ 8 % 256)

pub load16-store16 : (m : Mem) (a v : ℕ) → v < 2 ^ 16 → load16 (store16 m a v) a ≡ v
unfolding load16 store16
load16-store16 m a v h = ground arith

pub store16_outside : (m : Mem) (a v x : ℕ) → (x < a) ⊎ (a + 2 ≤ x) → store16 m a v x ≡ m x
unfolding store16
store16_outside m a v x h = ground arith

pub store16-IsBytes : (m : Mem) (a v : ℕ) → IsBytes m → IsBytes (store16 m a v)
unfolding store16
store16-IsBytes m a v h x = ground (arith, h x)

pub load16-lt : (m : Mem) (a : ℕ) → IsBytes m → load16 m a < 2 ^ 16
unfolding load16
load16-lt m a h = omega (arith, h a, h (a + 1))
