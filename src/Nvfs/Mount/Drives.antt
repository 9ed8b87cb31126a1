-- ===== src/Nvfs/Mount/Drives.antt =====
-- The rounds of `nvfs_mount` of kernel/drivers/nvfs.c over the drives.
use noverix.Base.{ℕ, ◌^◌, ◌<◌, ◌≡◌, ◌⊎◌, Bool, true, false, List, [], ◌∷◌, ◌++◌}
use noverix.Nvfs.Disk.{Nvfs}
use noverix.Nvfs.Mount.Layout.{HasFileSystem, kept, mounted_at}

-- No round of the list finds a file system.
abbrev pub NoFileSystem : (ℕ → ℕ → Bool) → Nvfs → List (ℕ × ℕ × ℕ) → Type 0
NoFileSystem exists s [] = Unit
NoFileSystem exists s ((ch, dr, offset) ∷ rest) =
    (¬ HasFileSystem exists s ch dr offset) × NoFileSystem exists s rest

-- The first of the rounds that finds one, and the state after it.
pub record IsMounted (exists : ℕ → ℕ → Bool) (s : Nvfs) (rounds : List (ℕ × ℕ × ℕ))
    (r : Bool × Nvfs) : Type 0 where
  pub before : List (ℕ × ℕ × ℕ)
  pub ch : ℕ
  pub dr : ℕ
  pub offset : ℕ
  pub after : List (ℕ × ℕ × ℕ)
  pub whole : rounds ≡ before ++ ((ch, dr, offset) ∷ after)
  pub none_before : NoFileSystem exists s before
  pub found : HasFileSystem exists s ch dr offset
  pub result : r ≡ (true, mounted_at s ch dr offset)

-- How the rounds end.
abbrev pub Ends : (ℕ → ℕ → Bool) → Nvfs → List (ℕ × ℕ × ℕ) → Bool × Nvfs → Type 0
Ends exists s rounds r =
    IsMounted exists s rounds r
    ⊎ (NoFileSystem exists s rounds × (r.0 ≡ false) × (kept r.1 ≡ kept s))

-- The rounds that the loops make: from offset 0 or 2880.
abbrev AreSmall : List (ℕ × ℕ × ℕ) → Type 0
AreSmall [] = Unit
AreSmall ((ch, dr, offset) ∷ rest) = (offset < 2 ^ 31) × AreSmall rest
