-- ===== src/Base/Bits.antt =====
-- Bit operations of C as arithmetic. `Base.Bits` is over any width, `Base.Bytes` over one byte.
use Prim.Native.Nat.{
  ℕ, zero, suc, ◌+◌, ◌-◌, ◌*◌, ◌/◌, ◌%◌, ◌^◌, ◌≤◌, ◌<◌, min, max, bit_and, bit_or, digits, bitwise,
  bit_and-bitwise, bit_or-bitwise,
}
use mathlib.Core.Path.{◌≡◌, refl, ap, ◌∙◌}
use native.Mathlib.Nat.{
  le_refl, pow-suc, one-le-pow, div-div-eq-div-mul, div-add-mod', mod-eq_of_lt, div-lt_iff_lt-mul,
}
use native.Mathlib.Omega.{arith}

abbrev pub u8 : ℕ → ℕ
u8 n = n % 2 ^ 8

abbrev pub u16 : ℕ → ℕ
u16 n = n % 2 ^ 16

abbrev pub u32 : ℕ → ℕ
u32 n = n % 2 ^ 32

-- `a - b` on `unsigned int`.
abbrev pub sub32 : ℕ → ℕ → ℕ
sub32 a b = (a + 2 ^ 32 - b) % 2 ^ 32

-- `~x` on a word of `w` bits.
abbrev pub bit_not : ℕ → ℕ → ℕ
bit_not w x = 2 ^ w - 1 - x

-- The native operations recur on binary digits with fuel; these equations drop the fuel.
module _ (z : ℕ → ℕ) (f : ℕ → ℕ → ℕ) where
  one_round_more : (n a b : ℕ) → a ≤ n → digits z f (suc n) a b ≡ digits z f n a b
  one_round_more zero zero b h = refl
  one_round_more zero (suc a) b h = absurd (omega arith)
  one_round_more (suc n) zero b h = refl
  one_round_more (suc n) (suc a) b h =
      ap (λ d. d * 2 + f (suc a % 2) (b % 2)) (one_round_more n (suc a / 2) (b / 2) (omega arith))

  more_rounds : (k a b : ℕ) → digits z f (k + a) a b ≡ digits z f a a b
  more_rounds zero a b = ap (λ n. digits z f n a b) (omega arith)
  more_rounds (suc k) a b =
      ap (λ n. digits z f n a b) (suc_first k a)
      ∙ one_round_more (k + a) a b (omega arith)
      ∙ more_rounds k a b
    where
      suc_first : (k a : ℕ) → suc k + a ≡ suc (k + a)
      suc_first k a = omega arith

  low_digit :
      (a b : ℕ)
      → bitwise z f (suc a) b ≡ bitwise z f (suc a / 2) (b / 2) * 2 + f (suc a % 2) (b % 2)
  low_digit a b =
      ap (λ d. d * 2 + f (suc a % 2) (b % 2))
        (ap (λ n. digits z f n (suc a / 2) (b / 2)) (rest_first a)
          ∙ more_rounds (a - suc a / 2) (suc a / 2) (b / 2))
    where
      rest_first : (a : ℕ) → a ≡ a - suc a / 2 + suc a / 2
      rest_first a = omega arith

pub bit_or-low_digit : (a b : ℕ) → bit_or a b ≡ bit_or (a / 2) (b / 2) * 2 + max (a % 2) (b % 2)
bit_or-low_digit zero b = simp bit_or-bitwise (omega arith)
bit_or-low_digit (suc a) b = simp bit_or-bitwise (low_digit (λ y. y) max a b)

pub bit_and-low_digit : (a b : ℕ) → bit_and a b ≡ bit_and (a / 2) (b / 2) * 2 + min (a % 2) (b % 2)
bit_and-low_digit zero b = simp bit_and-bitwise (omega arith)
bit_and-low_digit (suc a) b = simp bit_and-bitwise (low_digit (λ y. zero) min a b)

-- Recursion goes from `a / 2` to `a`, so these two carry a bound on `a`.
bit_or-zero_below : (n a : ℕ) → a ≤ n → bit_or a 0 ≡ a
bit_or-zero_below n zero h = refl
bit_or-zero_below zero (suc a) h = absurd (omega arith)
bit_or-zero_below (suc n) (suc a) h =
    omega (arith, bit_or-low_digit (suc a) 0, bit_or-zero_below n (suc a / 2) (omega arith))

bit_and-zero_below : (n a : ℕ) → a ≤ n → bit_and a 0 ≡ 0
bit_and-zero_below n zero h = refl
bit_and-zero_below zero (suc a) h = absurd (omega arith)
bit_and-zero_below (suc n) (suc a) h =
    omega (arith, bit_and-low_digit (suc a) 0, bit_and-zero_below n (suc a / 2) (omega arith))

pub bit_or-zero : (a : ℕ) → bit_or a 0 ≡ a
bit_or-zero a = bit_or-zero_below a a (le_refl a)

pub zero-bit_or : (b : ℕ) → bit_or 0 b ≡ b
zero-bit_or b = simp bit_or-bitwise refl

pub bit_and-zero : (a : ℕ) → bit_and a 0 ≡ 0
bit_and-zero a = bit_and-zero_below a a (le_refl a)

double : (q k : ℕ) → q * 2 ^ suc k ≡ 2 * (q * 2 ^ k)
double q k = omega (arith, ap (λ (t : ℕ). q * t) (pow-suc 2 k))

-- Low fields of `k` bits do not touch what stands above them.
pub bit_or_above :
    (k q a b : ℕ) → a < 2 ^ k → b < 2 ^ k → bit_or (q * 2 ^ k + a) b ≡ q * 2 ^ k + bit_or a b
bit_or_above zero q a b ha hb =
    let ea : a ≡ 0 = omega arith in
    let eb : b ≡ 0 = omega arith in
    rw (ea, eb) (omega (arith, bit_or-zero (q * 2 ^ 0 + 0), bit_or-zero 0))
bit_or_above (suc k) q a b ha hb = ground (
  arith,
  bit_or-low_digit (q * 2 ^ suc k + a) b,
  bit_or-low_digit a b,
  double q k,
  bit_or_above k q (a / 2) (b / 2) (omega (arith, pow-suc 2 k)) (omega (arith, pow-suc 2 k)),
)

pub bit_or-lt : (k a b : ℕ) → a < 2 ^ k → b < 2 ^ k → bit_or a b < 2 ^ k
bit_or-lt zero a b ha hb =
    let ea : a ≡ 0 = omega arith in
    let eb : b ≡ 0 = omega arith in rw (ea, eb) (omega (arith, bit_or-zero 0))
bit_or-lt (suc k) a b ha hb = omega (
  arith,
  pow-suc 2 k,
  bit_or-low_digit a b,
  bit_or-lt k (a / 2) (b / 2) (omega (arith, pow-suc 2 k)) (omega (arith, pow-suc 2 k)),
)

halves : (a k : ℕ) → a / 2 / 2 ^ k ≡ a / 2 ^ suc k
halves a k = div-div-eq-div-mul a 2 (2 ^ k) ∙ ap (λ (t : ℕ). a / t) (omega (arith, pow-suc 2 k))

mod_halves : (a k : ℕ) → a % 2 ^ suc k ≡ a / 2 % 2 ^ k * 2 + a % 2
mod_halves a k =
    let above : a / 2 / 2 ^ k * 2 ^ k ≡ a / 2 ^ suc k * 2 ^ k =
      ap (λ (t : ℕ). t * 2 ^ k) (halves a k) in
    omega (
      arith,
      div-add-mod' a (2 ^ suc k),
      div-add-mod' (a / 2) (2 ^ k),
      double (a / 2 ^ suc k) k,
      above,
    )

-- A mask shifted up by `k` bits, as in `x & 0xFFFFF000`.
pub bit_and_shifted : (k a m : ℕ) → bit_and a (m * 2 ^ k) ≡ bit_and (a / 2 ^ k) m * 2 ^ k
bit_and_shifted zero a m = ground arith
bit_and_shifted (suc k) a m = ground (
  arith,
  bit_and-low_digit a (m * 2 ^ suc k),
  double m k,
  double (bit_and (a / 2 ^ suc k) m) k,
  bit_and_shifted k (a / 2) m,
  halves a k,
)

-- A mask of `k` ones, as in `x & 0xFF`.
pub bit_and_mask : (k a : ℕ) → bit_and a (2 ^ k - 1) ≡ a % 2 ^ k
bit_and_mask zero a = ground (arith, bit_and-zero a)
bit_and_mask (suc k) a = ground (
  arith,
  pow-suc 2 k,
  one-le-pow k 2,
  bit_and-low_digit a (2 ^ suc k - 1),
  bit_and_mask k (a / 2),
  mod_halves a k,
)

-- `x & ~(2^k - 1)` rounds down to a multiple of `2^k`; `j` is the number of bits above.
pub bit_and_high :
    (k j a : ℕ) → a < 2 ^ j * 2 ^ k → bit_and a ((2 ^ j - 1) * 2 ^ k) ≡ a / 2 ^ k * 2 ^ k
bit_and_high k j a h =
    bit_and_shifted k a (2 ^ j - 1)
    ∙ ap (λ (t : ℕ). t * 2 ^ k)
        (bit_and_mask j (a / 2 ^ k)
          ∙ mod-eq_of_lt
              ((div-lt_iff_lt-mul {x = a} {y = 2 ^ j} (one-le-pow k 2 (omega arith))).1 h))
