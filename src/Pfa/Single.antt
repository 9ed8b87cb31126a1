-- ===== src/Pfa/Single.antt =====
-- `alloc_frame` and `free_frame` of kernel/memory/pfa.c against the map of the bits.
use noverix.Base.{
  ℕ, zero, suc, ◌+◌, ◌*◌, ◌/◌, ◌≤◌, ◌<◌, ◌≡◌, ◌⊎◌, inl, inr, refl, arith, ◌∙◌, ◌==◌, ltb, leb, ◌&&◌,
  ◌-◌, if◌then◌else◌, Bool-cases, ap,
}
use noverix.Pfa.{
  Pfa, frame_size, addr_of, set_bit, test_bit, alloc_from, count_from, get_free_frame_count,
  alloc_frame, free_frame,
}
use noverix.Pfa.Bitmap.{
  IsValid, IsFree, IsUsed, test_bit-lt, test_bit-set_bit, test_bit-clear_bit, set_bit-IsValid,
  total_frames-set_bit,
}

-- The frame that the loop from `i` over `n` frames takes, and what it leaves.
record Taken (p : Pfa) (i n f : ℕ) : Type 0 where
  from : i ≤ f
  below : f < i + n
  free : IsFree p f
  lowest : (g : ℕ) → i ≤ g → g < f → IsUsed p g
  result : alloc_from p i n ≡ (set_bit p f, addr_of f)

record Exhausted (p : Pfa) (i n : ℕ) : Type 0 where
  full : (g : ℕ) → i ≤ g → g < i + n → IsUsed p g
  result : alloc_from p i n ≡ (p, 0)

alloc_from-cases : (p : Pfa) (i n : ℕ) → ((f : ℕ) × Taken p i n f) ⊎ Exhausted p i n
unfolding alloc_from
alloc_from-cases p i zero = inr (record { full = λ g a b. absurd (omega arith); result = refl })
alloc_from-cases p i (suc n) = elim (Bool-cases (test_bit p i == 0)) [
  | inl free ↦ inl (
    i,
    record {
      from = omega arith;
      below = omega arith;
      free = ground arith;
      lowest = λ g a b. absurd (omega arith);
      result = rw free;
    },
  )
  | inr used ↦ elim (alloc_from-cases p (i + 1) n) [
    | inl (f, t) ↦ inl (
      f,
      record {
        from = omega (arith, t.from);
        below = omega (arith, t.below);
        free = t.free;
        lowest = λ g a b. ground (arith, t.lowest g, test_bit-lt p g);
        result = rw used t.result;
      },
    )
    | inr e ↦ inr (record {
      full = λ g a b. ground (arith, e.full g, test_bit-lt p g);
      result = rw used e.result;
    })
  ]
]

-- From a valid state, `alloc_frame` takes the lowest free frame: it returns that frame's address
-- and changes that frame's bit only. It returns null exactly when every frame is used, and then
-- the state is as before.
pub alloc_frame_lem :
    (p : Pfa)
    → IsValid p
    → ((f : ℕ) × (f < p.total_frames)
        × IsFree p f
        × ((g : ℕ) → g < f → IsUsed p g)
        × ((alloc_frame p).1 ≡ f * frame_size)
        × ((g : ℕ) → test_bit (alloc_frame p).0 g ≡ (if f == g then 1 else test_bit p g)))
      ⊎ (((g : ℕ) → g < p.total_frames → IsUsed p g) × (alloc_frame p ≡ (p, 0)))
unfolding alloc_frame
alloc_frame_lem p v = elim (alloc_from-cases p 0 p.total_frames) [
  | inl (f, t) ↦ inl (
    f,
    omega (arith, t.below),
    t.free,
    λ g h. t.lowest g (omega arith) h,
    rw t.result (omega (arith, t.below, v.fits)),
    λ g. rw t.result (test_bit-set_bit p f g v),
  )
  | inr e ↦ inr (λ g h. e.full g (omega arith) (omega arith), e.result)
]

-- `alloc_frame` keeps the state valid, and manages the same frames.
pub alloc_frame-IsValid :
    (p : Pfa)
    → IsValid p
    → IsValid (alloc_frame p).0 × ((alloc_frame p).0.total_frames ≡ p.total_frames)
unfolding alloc_frame
alloc_frame-IsValid p v = elim (alloc_from-cases p 0 p.total_frames) [
  | inl (f, t) ↦ rw t.result (set_bit-IsValid p f v, total_frames-set_bit p f)
  | inr e ↦ rw e.result (v, refl)
]

-- `free_frame` clears the bit of the frame that the address lies in and no other, and does
-- nothing at the null pointer or past the managed frames.
pub free_frame_lem :
    (p : Pfa) (addr g : ℕ)
    → IsValid p
    → test_bit (free_frame p addr) g ≡ (
        if addr == 0
        then test_bit p g
        else if ltb (addr / frame_size) p.total_frames
        then (if addr / frame_size == g then 0 else test_bit p g)
        else test_bit p g)
unfolding free_frame
free_frame_lem p addr g v = ground (arith, test_bit-clear_bit p (addr / frame_size) g v)

-- Freeing what `alloc_frame` returned gives back every bit of the state before, if frame 0, whose
-- address is the null pointer, was in use.
pub free_frame-alloc_frame :
    (p : Pfa) (g : ℕ)
    → IsValid p
    → IsUsed p 0
    → test_bit (free_frame (alloc_frame p).0 (alloc_frame p).1) g ≡ test_bit p g
free_frame-alloc_frame p g v zero_used = elim (alloc_frame_lem p v) [
  | inl (f, below, free, lowest, address, marked) ↦ ground (
    arith,
    free_frame_lem (alloc_frame p).0 (alloc_frame p).1 g (alloc_frame-IsValid p v).0,
    marked g,
    (alloc_frame-IsValid p v).1,
  )
  | inr (full, same) ↦ ground (arith, free_frame_lem p 0 g v)
]

count_from-set_bit :
    (p : Pfa) (f i n : ℕ)
    → IsValid p
    → IsFree p f
    → count_from (set_bit p f) i n + (if leb i f && ltb f (i + n) then 1 else 0) ≡ count_from p i n
unfolding count_from
count_from-set_bit p f i zero v free = ground arith
count_from-set_bit p f i (suc n) v free =
    ground (arith, test_bit-set_bit p f i v, count_from-set_bit p f (i + 1) n v free)

count_from-full :
    (p : Pfa) (i n : ℕ) → ((g : ℕ) → i ≤ g → g < i + n → IsUsed p g) → count_from p i n ≡ 0
unfolding count_from
count_from-full p i zero full = refl
count_from-full p i (suc n) full = ground (
  arith,
  full i (omega arith) (omega arith),
  count_from-full p (i + 1) n (λ g a b. full g (omega arith) (omega arith)),
)

-- `alloc_frame` lowers `get_free_frame_count` by one, and leaves it at 0 if it is 0.
pub get_free_frame_count-alloc_frame :
    (p : Pfa) → IsValid p → get_free_frame_count (alloc_frame p).0 ≡ get_free_frame_count p - 1
unfolding alloc_frame get_free_frame_count
get_free_frame_count-alloc_frame p v = elim (alloc_from-cases p 0 p.total_frames) [
  | inl (f, t) ↦ rw t.result (
      ap (count_from (set_bit p f) 0) (total_frames-set_bit p f)
      ∙ fewer f t.below (count_from-set_bit p f 0 p.total_frames v t.free))
  | inr e ↦ rw e.result (omega (arith, count_from-full p 0 p.total_frames e.full))
]
  where
    fewer :
        (f : ℕ)
        → f < 0 + p.total_frames
        → count_from (set_bit p f) 0 p.total_frames
            + (if leb 0 f && ltb f (0 + p.total_frames) then 1 else 0)
          ≡ count_from p 0 p.total_frames
        → count_from (set_bit p f) 0 p.total_frames ≡ count_from p 0 p.total_frames - 1
    fewer f h e = ground arith
