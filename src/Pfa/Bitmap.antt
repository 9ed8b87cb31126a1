-- ===== src/Pfa/Bitmap.antt =====
-- The bitmap of kernel/memory/pfa.c as a map from frames to one bit each.
use noverix.Base.{
  ℕ, ◌/◌, ◌%◌, ◌≤◌, ◌<◌, ◌≡◌, refl, arith, ◌==◌, if◌then◌else◌, bit_at-with_bit, bit_at-without_bit,
  with_bit-lt, bit_at-lt, without_bit-lt,
}
use noverix.Pfa.{Pfa, max_frames, set_bit, clear_bit, test_bit}

-- The array holds bytes, and has a bit for every frame that is managed.
pub record IsValid (p : Pfa) : Type 0 where
  pub bytes : (i : ℕ) → p.bitmap i < 256
  pub fits : p.total_frames ≤ max_frames

pub test_bit-set_bit :
    (p : Pfa) (f g : ℕ)
    → IsValid p
    → test_bit (set_bit p f) g ≡ (if f == g then 1 else test_bit p g)
unfolding test_bit set_bit
test_bit-set_bit p f g v = ground (
  arith,
  bit_at-with_bit (p.bitmap (f / 8)) (f % 8) (g % 8) (v.bytes (f / 8)) (omega arith) (omega arith),
)

pub test_bit-clear_bit :
    (p : Pfa) (f g : ℕ)
    → IsValid p
    → test_bit (clear_bit p f) g ≡ (if f == g then 0 else test_bit p g)
unfolding test_bit clear_bit
test_bit-clear_bit p f g v = ground (
  arith,
  bit_at-without_bit (p.bitmap (f / 8)) (f % 8) (g % 8) (v.bytes (f / 8)) (omega arith)
      (omega arith),
)

pub set_bit-IsValid : (p : Pfa) (f : ℕ) → IsValid p → IsValid (set_bit p f)
unfolding set_bit
set_bit-IsValid p f v = record {
  bytes = λ i. ground (arith, v.bytes i, with_bit-lt (p.bitmap (f / 8)) (f % 8));
  fits = v.fits;
}

pub clear_bit-IsValid : (p : Pfa) (f : ℕ) → IsValid p → IsValid (clear_bit p f)
unfolding clear_bit
clear_bit-IsValid p f v = record {
  bytes = λ i. ground (arith, v.bytes i, without_bit-lt (p.bitmap (f / 8)) (f % 8));
  fits = v.fits;
}

pub test_bit-lt : (p : Pfa) (f : ℕ) → test_bit p f < 2
unfolding test_bit
test_bit-lt p f = bit_at-lt (p.bitmap (f / 8)) (f % 8)

abbrev pub IsFree : Pfa → ℕ → Type 0
IsFree p f = test_bit p f ≡ 0

abbrev pub IsUsed : Pfa → ℕ → Type 0
IsUsed p f = test_bit p f ≡ 1

pub total_frames-set_bit : (p : Pfa) (f : ℕ) → (set_bit p f).total_frames ≡ p.total_frames
unfolding set_bit
total_frames-set_bit p f = refl

pub total_frames-clear_bit : (p : Pfa) (f : ℕ) → (clear_bit p f).total_frames ≡ p.total_frames
unfolding clear_bit
total_frames-clear_bit p f = refl
