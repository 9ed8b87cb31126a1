-- ===== src/Pfa/Tests.antt =====
-- pfa.c at concrete states, and its theorems at inputs that meet their hypotheses.
use noverix.Base.{
  ℕ, ◌+◌, ◌*◌, ◌≤◌, ◌<◌, ◌≡◌, ◌⊎◌, refl, ap, arith, ◌&&◌, ◌==◌, ltb, leb, if◌then◌else◌, update,
  bit_at,
}
use noverix.Pfa.{
  count_from, alloc_from, run_is_free, alloc_run_from, Pfa, frame_size, test_bit, set_bit,
  alloc_frame, free_frame, alloc_frames, free_frames, get_free_frame_count, pfa_init,
}
use noverix.Pfa.Bitmap.{IsValid, IsFree, IsUsed}
use noverix.Pfa.Single.{
  alloc_frame_lem, alloc_frame-IsValid, free_frame_lem, free_frame-alloc_frame,
}
use noverix.Pfa.Runs.{
  FreeRun, Blocked, alloc_frames_lem, alloc_frames-IsValid, free_frames_lem,
  free_frames-alloc_frames,
}
use noverix.Pfa.Init.{is_reserved, pfa_init_lem}

-- Sixteen frames; 0 to 2, 4 and 9 are in use.
abbrev small : Pfa
small = record { bitmap = update (update (λ _. 0) 0 0x17) 1 0x02; total_frames = 16 }

small-IsValid : IsValid small
small-IsValid = record { bytes = λ i. ground arith; fits = omega arith }

next_frame : (alloc_frame small).1 ≡ 0x3000
unfolding alloc_frame test_bit set_bit bit_at alloc_from
next_frame = refl

five_frames : (alloc_frames small 5).1 ≡ 0xA000
unfolding alloc_frames test_bit bit_at alloc_run_from run_is_free
five_frames = refl

free_count : get_free_frame_count small ≡ 11
unfolding get_free_frame_count test_bit bit_at count_from
free_count = refl

alloc_frame_lem_example :
    ((f : ℕ) × (f < 16)
      × IsFree small f
      × ((g : ℕ) → g < f → IsUsed small g)
      × ((alloc_frame small).1 ≡ f * frame_size)
      × ((g : ℕ) → test_bit (alloc_frame small).0 g ≡ (if f == g then 1 else test_bit small g)))
    ⊎ (((g : ℕ) → g < 16 → IsUsed small g) × (alloc_frame small ≡ (small, 0)))
alloc_frame_lem_example = alloc_frame_lem small small-IsValid

alloc_frame-IsValid_example :
    IsValid (alloc_frame small).0 × ((alloc_frame small).0.total_frames ≡ 16)
alloc_frame-IsValid_example = alloc_frame-IsValid small small-IsValid

free_frame_lem_example : test_bit (free_frame small 0x4000) 4 ≡ 0
free_frame_lem_example = free_frame_lem small 0x4000 4 small-IsValid

free_frame-alloc_frame_example :
    test_bit (free_frame (alloc_frame small).0 (alloc_frame small).1) 3 ≡ test_bit small 3
unfolding test_bit bit_at
free_frame-alloc_frame_example = free_frame-alloc_frame small 3 small-IsValid refl

alloc_frames_lem_example :
    ((s : ℕ) × (s + 5 ≤ 16)
      × FreeRun small s 5
      × ((t : ℕ) → t < s → Blocked small t 5)
      × ((alloc_frames small 5).1 ≡ s * frame_size)
      × ((g : ℕ)
          → test_bit (alloc_frames small 5).0 g
            ≡ (if leb s g && ltb g (s + 5) then 1 else test_bit small g)))
    ⊎ (((t : ℕ) → t + 5 ≤ 16 → Blocked small t 5) × (alloc_frames small 5 ≡ (small, 0)))
alloc_frames_lem_example = alloc_frames_lem small 5 small-IsValid (omega arith) (omega arith)

alloc_frames-IsValid_example :
    IsValid (alloc_frames small 5).0 × ((alloc_frames small 5).0.total_frames ≡ 16)
alloc_frames-IsValid_example = alloc_frames-IsValid small 5 small-IsValid

free_frames_lem_example : test_bit (free_frames small 0x1000 2) 2 ≡ 0
free_frames_lem_example = free_frames_lem small 0x1000 2 2 small-IsValid (omega arith)

five_found : ¬ (alloc_frames small 5 ≡ (small, 0))
five_found e = absurd (omega (arith, ap (λ (r : Pfa × ℕ). r.1) e, five_frames))

free_frames-alloc_frames_example :
    test_bit (free_frames (alloc_frames small 5).0 (alloc_frames small 5).1 5) 11
    ≡ test_bit small 11
free_frames-alloc_frames_example =
    free_frames-alloc_frames small 5 11 small-IsValid (omega arith) (omega arith) five_found

pfa_init_lem_example :
    IsValid (pfa_init 0x2000000 0x41234)
    × ((pfa_init 0x2000000 0x41234).total_frames ≡ 8192)
    × ((g : ℕ)
        → test_bit (pfa_init 0x2000000 0x41234) g
          ≡ (if is_reserved 0x42 g && ltb g 8192 then 1 else 0))
pfa_init_lem_example = pfa_init_lem 0x2000000 0x41234 (omega arith)
