-- ===== src/Base/Bytes.antt =====
-- One bit of a byte, as bitmaps use it: `b >> i & 1`, `b |= 1 << i` and `b &= ~(1 << i)`.
use Prim.Native.Nat.{ℕ, zero, suc, ◌/◌, ◌^◌, ◌<◌, bit_and, bit_or}
use mathlib.Core.Path.{◌≡◌, refl}
use mathlib.Core.Bool.{false, Bool, true}
use native.Mathlib.Nat.{zero-div}
use native.Mathlib.Omega.{arith}
use noverix.Base.Bits.{u8, bit_not, bit_and_mask}
use noverix.Base.Tests.{◌==◌, if◌then◌else◌, ==_iff}

unfoldable pub bit_at : ℕ → ℕ → ℕ
bit_at b i = bit_and (b / 2 ^ i) 1

unfoldable pub with_bit : ℕ → ℕ → ℕ
with_bit b i = u8 (bit_or b (2 ^ i))

unfoldable pub without_bit : ℕ → ℕ → ℕ
without_bit b i = u8 (bit_and b (bit_not 32 (2 ^ i)))

pub bit_at-lt : (b i : ℕ) → bit_at b i < 2
unfolding bit_at
bit_at-lt b i = omega (arith, bit_and_mask 1 (b / 2 ^ i))

pub zero-bit_at : (i : ℕ) → bit_at 0 i ≡ 0
unfolding bit_at
zero-bit_at i = omega (arith, bit_and_mask 1 (0 / 2 ^ i), zero-div (2 ^ i))

-- Every byte and every bit index, by evaluation.
holds_upto : ℕ → (ℕ → Bool) → Bool
holds_upto zero test = true
holds_upto (suc n) test = if test n then holds_upto n test else false

holds_upto-true :
    (test : ℕ → Bool) (bound k : ℕ) → holds_upto bound test ≡ true → k < bound → test k ≡ true
unfolding holds_upto
holds_upto-true test zero k all below = absurd (omega arith)
holds_upto-true test (suc n) k all below = ground (arith, holds_upto-true test n k)

abbrev bit_table : (ℕ → ℕ → ℕ → ℕ) → (ℕ → ℕ → ℕ → ℕ) → Bool
bit_table f g = holds_upto 256 (λ b. holds_upto 8 (λ i. holds_upto 8 (λ j. f b i j == g b i j)))

from_table :
    (f g : ℕ → ℕ → ℕ → ℕ)
    → bit_table f g ≡ true
    → (b i j : ℕ) → b < 256
    → i < 8
    → j < 8
    → f b i j ≡ g b i j
from_table f g t b i j hb hi hj =
    (==_iff (f b i j) (g b i j)).0
      (holds_upto-true _ 8 j (holds_upto-true _ 8 i (holds_upto-true _ 256 b t hb) hi) hj)

pub bit_at-with_bit :
    (b i j : ℕ)
    → b < 256
    → i < 8
    → j < 8
    → bit_at (with_bit b i) j ≡ (if i == j then 1 else bit_at b j)
unfolding bit_at with_bit holds_upto
bit_at-with_bit =
    from_table (λ b i j. bit_at (with_bit b i) j) (λ b i j. if i == j then 1 else bit_at b j) refl

pub bit_at-without_bit :
    (b i j : ℕ)
    → b < 256
    → i < 8
    → j < 8
    → bit_at (without_bit b i) j ≡ (if i == j then 0 else bit_at b j)
unfolding bit_at without_bit holds_upto
bit_at-without_bit =
    from_table (λ b i j. bit_at (without_bit b i) j) (λ b i j. if i == j then 0 else bit_at b j)
      refl

pub with_bit-lt : (b i : ℕ) → with_bit b i < 256
unfolding with_bit
with_bit-lt b i = omega arith

pub without_bit-lt : (b i : ℕ) → without_bit b i < 256
unfolding without_bit
without_bit-lt b i = omega arith
