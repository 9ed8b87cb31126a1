-- ===== src/Pfa/Runs.antt =====
-- `alloc_frames` and `free_frames` of kernel/memory/pfa.c: contiguous frames, first fit.
use noverix.Base.{
  ℕ, zero, suc, ◌+◌, ◌*◌, ◌/◌, ◌^◌, ◌-◌, ◌≤◌, ◌<◌, ◌≡◌, ◌⊎◌, inl, inr, refl, arith, true, false,
  ◌&&◌, ◌||◌, ◌==◌, ltb, leb, if◌then◌else◌, Bool-cases, u32, subst, ◌∙◌,
}
use noverix.Pfa.{
  Pfa, frame_size, addr_of, set_bit, clear_bit, test_bit, run_is_free, set_run, alloc_run_from,
  alloc_frames, clear_run, free_frames,
}
use noverix.Pfa.Bitmap.{
  IsValid, IsFree, IsUsed, test_bit-lt, test_bit-set_bit, test_bit-clear_bit, set_bit-IsValid,
  clear_bit-IsValid, total_frames-set_bit, total_frames-clear_bit,
}

-- Every frame of the run is free; some frame of it is used.
abbrev pub FreeRun : Pfa → ℕ → ℕ → Type 0
FreeRun p i n = (g : ℕ) → i ≤ g → g < i + n → IsFree p g

abbrev pub Blocked : Pfa → ℕ → ℕ → Type 0
Blocked p i n = (g : ℕ) × (i ≤ g) × (g < i + n) × IsUsed p g

at_or_after : (lo t : ℕ) → lo ≤ t → (lo ≡ t) ⊎ (lo + 1 ≤ t)
at_or_after lo t h = omega arith

run_is_free-FreeRun : (p : Pfa) (i n : ℕ) → run_is_free p i n ≡ true → FreeRun p i n
unfolding run_is_free
run_is_free-FreeRun p i zero h g a b = absurd (omega arith)
run_is_free-FreeRun p i (suc n) h g a b = elim (Bool-cases (test_bit p i == 0)) [
  | inl free ↦ elim (at_or_after i g a) [
    | inl same ↦ ground arith
    | inr after ↦ run_is_free-FreeRun p (i + 1) n (rw free at h) g after (omega arith)
  ]
  | inr busy ↦ ground arith
]

run_is_free-Blocked : (p : Pfa) (i n : ℕ) → run_is_free p i n ≡ false → Blocked p i n
unfolding run_is_free
run_is_free-Blocked p i zero h = cc
run_is_free-Blocked p i (suc n) h = elim (Bool-cases (test_bit p i == 0)) [
  | inl free ↦
      let (g, a, b, used) = run_is_free-Blocked p (i + 1) n (rw free at h) in
      (g, omega arith, omega arith, used)
  | inr busy ↦ (i, omega arith, omega arith, ground (arith, test_bit-lt p i))
]

set_run-IsValid :
    (p : Pfa) (i n : ℕ)
    → IsValid p
    → IsValid (set_run p i n) × ((set_run p i n).total_frames ≡ p.total_frames)
unfolding set_run
set_run-IsValid p i zero v = (v, refl)
set_run-IsValid p i (suc n) v =
    let (w, same) = set_run-IsValid (set_bit p i) (i + 1) n (set_bit-IsValid p i v) in
    (w, omega (arith, total_frames-set_bit p i))

test_bit-set_run :
    (p : Pfa) (i n g : ℕ)
    → IsValid p
    → test_bit (set_run p i n) g ≡ (if leb i g && ltb g (i + n) then 1 else test_bit p g)
unfolding set_run
test_bit-set_run p i zero g v = ground arith
test_bit-set_run p i (suc n) g v = ground (
  arith,
  test_bit-set_run (set_bit p i) (i + 1) n g (set_bit-IsValid p i v),
  test_bit-set_bit p i g v,
)

test_bit-clear_run :
    (p : Pfa) (i n g : ℕ)
    → IsValid p
    → i + n ≤ 2 ^ 32
    → test_bit (clear_run p i n) g
      ≡ (if (leb i g && ltb g (i + n)) && ltb g p.total_frames then 0 else test_bit p g)
unfolding clear_run
test_bit-clear_run p i zero g v h = ground arith
test_bit-clear_run p i (suc n) g v h = elim (Bool-cases (ltb (u32 i) p.total_frames)) [
  | inl in_range ↦ rw in_range (
      ground (
        arith,
        test_bit-clear_run (clear_bit p (u32 i)) (i + 1) n g (clear_bit-IsValid p (u32 i) v)
            (omega arith),
        test_bit-clear_bit p (u32 i) g v,
        total_frames-clear_bit p (u32 i),
      ))
  | inr out ↦ rw out (ground (arith, test_bit-clear_run p (i + 1) n g v (omega arith)))
]

-- What the search from `lo` over `rounds` starts finds.
record FirstFit (p : Pfa) (count lo rounds s : ℕ) : Type 0 where
  from : lo ≤ s
  below : s < lo + rounds
  free : FreeRun p s count
  first : (t : ℕ) → lo ≤ t → t < s → Blocked p t count
  result : alloc_run_from p count lo rounds ≡ (set_run p s count, addr_of s)

record NoFit (p : Pfa) (count lo rounds : ℕ) : Type 0 where
  blocked : (t : ℕ) → lo ≤ t → t < lo + rounds → Blocked p t count
  result : alloc_run_from p count lo rounds ≡ (p, 0)

alloc_run_from-cases :
    (p : Pfa) (count lo rounds : ℕ)
    → ((s : ℕ) × FirstFit p count lo rounds s) ⊎ NoFit p count lo rounds
unfolding alloc_run_from
alloc_run_from-cases p count lo zero =
    inr (record { blocked = λ t a b. absurd (omega arith); result = refl })
alloc_run_from-cases p count lo (suc n) = elim (Bool-cases (run_is_free p lo count)) [
  | inl fits ↦ inl (
    lo,
    record {
      from = omega arith;
      below = omega arith;
      free = run_is_free-FreeRun p lo count fits;
      first = λ t a b. absurd (omega arith);
      result = rw fits;
    },
  )
  | inr busy ↦ elim (alloc_run_from-cases p count (lo + 1) n) [
    | inl (s, f) ↦ inl (
      s,
      record {
        from = omega (arith, f.from);
        below = omega (arith, f.below);
        free = f.free;
        first = λ t a b. extend busy (λ u. u < s) f.first t a b;
        result = rw busy f.result;
      },
    )
    | inr f ↦ inr (record {
      blocked =
          λ t a b. extend busy (λ u. u < lo + suc n) (λ u c d. f.blocked u c (omega arith)) t a b;
      result = rw busy f.result;
    })
  ]
]
  where
    extend :
        run_is_free p lo count ≡ false
        → (P : ℕ → Type 0) → ((u : ℕ) → lo + 1 ≤ u → P u → Blocked p u count)
        → (t : ℕ) → lo ≤ t
        → P t
        → Blocked p t count
    extend busy P later t a b = elim (at_or_after lo t a) [
      | inl same ↦ subst (λ u. Blocked p u count) same (run_is_free-Blocked p lo count busy)
      | inr after ↦ later t after b
    ]

-- For a count from 1 to `total_frames`, `alloc_frames` takes the first run of that many free
-- frames: it returns the address of the run's first frame and sets the bits of the run only. It
-- returns null exactly when every run of that length is blocked by a used frame, and then the
-- state is as before.
pub alloc_frames_lem :
    (p : Pfa) (count : ℕ)
    → IsValid p
    → 0 < count
    → count ≤ p.total_frames
    → ((s : ℕ) × (s + count ≤ p.total_frames)
        × FreeRun p s count
        × ((t : ℕ) → t < s → Blocked p t count)
        × ((alloc_frames p count).1 ≡ s * frame_size)
        × ((g : ℕ)
            → test_bit (alloc_frames p count).0 g
              ≡ (if leb s g && ltb g (s + count) then 1 else test_bit p g)))
      ⊎ (((t : ℕ) → t + count ≤ p.total_frames → Blocked p t count)
          × (alloc_frames p count ≡ (p, 0)))
alloc_frames_lem p count v pos fits =
    rw entered (elim (alloc_run_from-cases p count 0 (p.total_frames - count + 1)) [
      | inl (s, f) ↦ inl (
        s,
        omega (arith, f.below),
        f.free,
        λ t h. f.first t (omega arith) h,
        rw f.result (omega (arith, f.below, v.fits)),
        λ g. rw f.result (test_bit-set_run p s count g v),
      )
      | inr f ↦ inr (λ t h. f.blocked t (omega arith) (omega arith), f.result)
    ])
  where
    entered : alloc_frames p count ≡ alloc_run_from p count 0 (p.total_frames - count + 1)
    entered = unfold alloc_frames in ground arith

-- `alloc_frames` keeps the state valid, whatever the count.
pub alloc_frames-IsValid :
    (p : Pfa) (count : ℕ)
    → IsValid p
    → IsValid (alloc_frames p count).0 × ((alloc_frames p count).0.total_frames ≡ p.total_frames)
unfolding alloc_frames
alloc_frames-IsValid p count v = elim (Bool-cases (count == 0 || ltb p.total_frames count)) [
  | inl refused ↦ rw refused (v, refl)
  | inr entered ↦ rw entered (elim (alloc_run_from-cases p count 0 (p.total_frames - count + 1)) [
    | inl (s, f) ↦ rw f.result (set_run-IsValid p s count v)
    | inr f ↦ rw f.result (v, refl)
  ])
]

-- `free_frames` clears the bits of `count` frames from the one that the address lies in, as far
-- as they are managed, and no other bit.
pub free_frames_lem :
    (p : Pfa) (addr count g : ℕ)
    → IsValid p
    → addr / frame_size + count ≤ 2 ^ 32
    → test_bit (free_frames p addr count) g ≡ (
        if (leb (addr / frame_size) g && ltb g (addr / frame_size + count)) && ltb g p.total_frames
        then 0
        else test_bit p g)
unfolding free_frames
free_frames_lem p addr count g v h = test_bit-clear_run p (addr / frame_size) count g v h

-- Freeing a run that `alloc_frames` returned gives back every bit of the state before.
pub free_frames-alloc_frames :
    (p : Pfa) (count g : ℕ)
    → IsValid p
    → 0 < count
    → count ≤ p.total_frames
    → ¬ (alloc_frames p count ≡ (p, 0))
    → test_bit (free_frames (alloc_frames p count).0 (alloc_frames p count).1 count) g
      ≡ test_bit p g
free_frames-alloc_frames p count g v pos fits found = elim (alloc_frames_lem p count v pos fits) [
  | inl (s, inside, free, first, address, marked) ↦
      free_frames_lem (alloc_frames p count).0 (alloc_frames p count).1 count g
        (alloc_frames-IsValid p count v).0 (rw address (omega (arith, v.fits)))
      ∙ elim (Bool-cases (leb s g && ltb g (s + count))) [
        | inl within ↦ ground (arith, address, marked g, free g, (alloc_frames-IsValid p count v).1)
        | inr outside ↦ ground (arith, address, marked g, (alloc_frames-IsValid p count v).1)
      ]
  | inr (blocked, failed) ↦ absurd (found failed)
]
