-- ===== src/Pfa/Init.antt =====
-- `pfa_init` of kernel/memory/pfa.c: which frames are in use at the start.
use noverix.Base.{
  ℕ, zero, suc, ◌+◌, ◌*◌, ◌/◌, ◌%◌, ◌^◌, ◌-◌, ◌≤◌, ◌<◌, ◌≡◌, refl, arith, Bool, true, false, ◌&&◌,
  ◌||◌, ◌==◌, ltb, leb, if◌then◌else◌, u32, bit_and, bit_not, bit_and_high, zero-bit_at,
}
use native.Mathlib.Nat.{mod-eq_of_lt}
use noverix.Pfa.{
  Pfa, frame_size, max_memory, test_bit, set_bit, mark_frame, mark_frames, mark_reserved,
  fresh_bitmap, pfa_init,
}
use noverix.Pfa.Bitmap.{IsValid, test_bit-set_bit, set_bit-IsValid, total_frames-set_bit}

mark_frame-IsValid :
    (p : Pfa) (a : ℕ)
    → IsValid p
    → IsValid (mark_frame p a) × ((mark_frame p a).total_frames ≡ p.total_frames)
unfolding mark_frame
mark_frame-IsValid p a v =
    elim (ltb (a / frame_size) p.total_frames)
      as (λ b.
        IsValid (if b then set_bit p (a / frame_size) else p)
        × ((if b then set_bit p (a / frame_size) else p).total_frames ≡ p.total_frames)) [
          | true ↦ (set_bit-IsValid p (a / frame_size) v, total_frames-set_bit p (a / frame_size))
          | false ↦ (v, refl)
        ]

test_bit-mark_frame :
    (p : Pfa) (a g : ℕ)
    → IsValid p
    → test_bit (mark_frame p a) g
      ≡ (if a / frame_size == g && ltb g p.total_frames then 1 else test_bit p g)
unfolding mark_frame
test_bit-mark_frame p a g v = ground (arith, test_bit-set_bit p (a / frame_size) g v)

mark_frames-IsValid :
    (p : Pfa) (a n : ℕ)
    → IsValid p
    → IsValid (mark_frames p a n) × ((mark_frames p a n).total_frames ≡ p.total_frames)
unfolding mark_frames
mark_frames-IsValid p a zero v = (v, refl)
mark_frames-IsValid p a (suc n) v =
    let (w, same) = mark_frame-IsValid p a v in
    let (x, all) = mark_frames-IsValid (mark_frame p a) (u32 (a + frame_size)) n w in
    (x, omega arith)

test_bit-mark_frames :
    (p : Pfa) (f n g : ℕ)
    → IsValid p
    → f + n < 2 ^ 20
    → test_bit (mark_frames p (f * frame_size) n) g
      ≡ (if (leb f g && ltb g (f + n)) && ltb g p.total_frames then 1 else test_bit p g)
unfolding mark_frames
test_bit-mark_frames p f zero g v h = ground arith
test_bit-mark_frames p f (suc n) g v h =
    let next : u32 (f * frame_size + frame_size) ≡ (f + 1) * frame_size = omega arith in
    let (w, same) = mark_frame-IsValid p (f * frame_size) v in
    rw next (
      ground (
        arith,
        test_bit-mark_frames (mark_frame p (f * frame_size)) (f + 1) n g w (omega arith),
        test_bit-mark_frame p (f * frame_size) g v,
        same,
      ))

-- The frames of the kernel's image, whose end is frame `image`, and of the memory below 1 MB.
abbrev pub is_reserved : ℕ → ℕ → Bool
is_reserved image g = ltb g image || ((g == 0x90) || (leb 0xA0 g && ltb g 0x100))

-- `q` manages the frames of `p`, and uses the reserved ones beside those of `p`.
pub record Reserves (p : Pfa) (image : ℕ) (q : Pfa) : Type 0 where
  pub valid : IsValid q
  pub managed : q.total_frames ≡ p.total_frames
  pub bits :
      (g : ℕ)
      → test_bit q g ≡ (if is_reserved image g && ltb g p.total_frames then 1 else test_bit p g)

mark_reserved-Reserves :
    (p : Pfa) (image : ℕ)
    → IsValid p
    → image < 2 ^ 20
    → Reserves p image (mark_reserved p (image * frame_size))
unfolding mark_reserved
mark_reserved-Reserves p image v h =
    let rounds : image * frame_size / frame_size ≡ image = omega arith in
    let p1 : Pfa = mark_frames p 0 image in
    let p2 : Pfa = mark_frame p1 0x90000 in
    let p3 : Pfa = mark_frame p2 0xA0000 in
    let (v1, t1) = mark_frames-IsValid p 0 image v in
    let (v2, t2) = mark_frame-IsValid p1 0x90000 v1 in
    let (v3, t3) = mark_frame-IsValid p2 0xA0000 v2 in
    let (v4, t4) = mark_frames-IsValid p3 0xA0000 96 v3 in
    rw rounds (record {
      valid = v4;
      managed = omega arith;
      bits = λ g. ground (
        arith,
        test_bit-mark_frames p3 0xA0 96 g v3 (omega arith),
        test_bit-mark_frame p2 0xA0000 g v2,
        test_bit-mark_frame p1 0x90000 g v1,
        test_bit-mark_frames p 0 image g v (omega arith),
      );
    })

round_up :
    (x : ℕ)
    → x + frame_size < 2 ^ 32
    → bit_and (u32 (x + frame_size - 1)) (bit_not 32 (frame_size - 1))
      ≡ (x + frame_size - 1) / frame_size * frame_size
round_up x h =
    rw (mod-eq_of_lt {n = x + frame_size - 1} {m = 2 ^ 32} (omega arith))
      (bit_and_high 12 20 (x + frame_size - 1) (omega arith))

fresh-IsValid : (ram : ℕ) → ram ≤ max_memory → IsValid (fresh_bitmap ram)
fresh-IsValid ram h = record { bytes = λ i. omega arith; fits = omega arith }

test_bit-fresh : (ram g : ℕ) → test_bit (fresh_bitmap ram) g ≡ 0
unfolding test_bit
test_bit-fresh ram g = zero-bit_at (g % 8)

-- `detected_ram` as `pfa_init` limits it.
abbrev pub usable_ram : ℕ → ℕ
usable_ram ram = if ltb max_memory ram then max_memory else ram

-- From the detected RAM and the end of the kernel's image, `pfa_init` leaves a valid state over at
-- most 1 GB. In it exactly these frames are in use, as far as they are managed: those that the
-- image reaches into, frame 0x90, and 0xA0 to 0xFF.
pub pfa_init_lem :
    (ram bss_end : ℕ)
    → bss_end + frame_size < 2 ^ 32
    → IsValid (pfa_init ram bss_end)
      × ((pfa_init ram bss_end).total_frames ≡ usable_ram ram / frame_size)
      × ((g : ℕ)
          → test_bit (pfa_init ram bss_end) g ≡ (
              if is_reserved ((bss_end + frame_size - 1) / frame_size) g
                && ltb g (usable_ram ram / frame_size)
              then 1
              else 0))
unfolding pfa_init
pfa_init_lem ram bss_end h =
    rw (round_up bss_end h)
      (made.valid, made.managed, λ g. rw (test_bit-fresh (usable_ram ram) g) at (made.bits g))
  where
    made : Reserves (fresh_bitmap (usable_ram ram)) ((bss_end + frame_size - 1) / frame_size) (
        mark_reserved
          (fresh_bitmap (usable_ram ram))
          ((bss_end + frame_size - 1) / frame_size * frame_size))
    made =
        mark_reserved-Reserves (fresh_bitmap (usable_ram ram))
          ((bss_end + frame_size - 1) / frame_size) (fresh-IsValid (usable_ram ram) (ground arith))
          (omega arith)
