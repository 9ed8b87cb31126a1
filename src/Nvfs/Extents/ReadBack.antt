-- ===== src/Nvfs/Extents/ReadBack.antt =====
-- Reading a run of blocks whose contents are known, in kernel/drivers/nvfs.c.
use noverix.Base.{
  ℕ, zero, suc, ◌+◌, ◌-◌, ◌*◌, ◌≤◌, ◌<◌, ◌^◌, ◌≡◌, ◌≢◌, refl, arith, ◌∙◌, ap, ap₂, min, ◌==◌,
  if◌then◌else◌, false, Option, none, some, u32, List, [], ◌∷◌, ◌++◌,
}
use noverix.Memory.{Mem}
use noverix.Nvfs.Disk.{Nvfs, read_block}
use noverix.Nvfs.Extents.{bytes_from, read_run}

suc_add : (a b : ℕ) → suc (a + b) ≡ suc a + b
suc_add a b = omega arith

pub bytes_from-append :
    (m : Mem) (k a b : ℕ) → bytes_from m k a ++ bytes_from m (k + a) b ≡ bytes_from m k (a + b)
unfolding bytes_from
bytes_from-append m k zero b = ap₂ (bytes_from m) (omega arith) (omega arith)
bytes_from-append m k (suc a) b =
    ap (λ l. m k ∷ l)
      (ap (λ x. bytes_from m (k + 1) a ++ bytes_from m x b) (omega arith)
        ∙ bytes_from-append m (k + 1) a b)
    ∙ ap (bytes_from m k) (suc_add a b)

pub bytes_from_same :
    (m n : Mem) (k l a : ℕ)
    → ((x : ℕ) → x < a → m (k + x) ≡ n (l + x))
    → bytes_from m k a ≡ bytes_from n l a
unfolding bytes_from
bytes_from_same m n k l zero h = refl
bytes_from_same m n k l (suc a) h =
    let first : m k ≡ n l = ap m (omega arith) ∙ h 0 (omega arith) ∙ ap n (omega arith) in
    ap₂ (λ x xs. x ∷ xs) first
      (bytes_from_same m n (k + 1) (l + 1) a
        (λ x b. ap m (omega arith) ∙ h (x + 1) (omega arith) ∙ ap n (omega arith)))

-- The blocks from `block` on hold the bytes from `pos` on, as far as `remain` reaches.
abbrev pub Holds : Nvfs → Mem → (block n pos remain : ℕ) → Type 0
Holds s bytes block n pos remain =
    (k : ℕ)
    → k < n
    → (buf : Mem) × (read_block s (u32 (block + k)) ≡ some buf)
      × ((x : ℕ) → x < 512 → k * 512 + x < remain → buf x ≡ bytes (pos + k * 512 + x))

read_round :
    (o : Option Mem) (rest : Option (List ℕ)) (copy remain : ℕ) (buf : Mem) (more : List ℕ)
    → remain ≢ 0
    → o ≡ some buf
    → rest ≡ some more
    → (if remain == 0 then some [] else elim o as (λ x. Option (List ℕ)) [
      | none ↦ none
      | some tmp ↦ elim rest as (λ x. Option (List ℕ)) [
        | none ↦ none
        | some more ↦ some (bytes_from tmp 0 copy ++ more)
      ]
    ])
      ≡ some (bytes_from buf 0 copy ++ more)
read_round o rest copy remain buf more n e f =
    let goes_on : (remain == 0) ≡ false = ground arith in rw (goes_on, e, f) refl

later_Holds :
    (s : Nvfs) (bytes : Mem) (block n pos r : ℕ)
    → Holds s bytes block (suc n) pos (suc r)
    → block + suc n ≤ 2 ^ 32
    → Holds s bytes (u32 (block + 1)) n (pos + min 512 (suc r)) (suc r - min 512 (suc r))
later_Holds s bytes block n pos r h small k l =
    let (buf, there, content) = h (k + 1) (omega arith) in
    (
      buf,
      ap (read_block s) (omega arith) ∙ there,
      λ x in_block in_file.
          content x in_block (omega (arith, in_file)) ∙ ap bytes (omega (arith, in_file)),
    )

pub read_run-bytes_from :
    (s : Nvfs) (bytes : Mem) (block n pos remain : ℕ)
    → Holds s bytes block n pos remain
    → block + n ≤ 2 ^ 32
    → remain ≤ n * 512
    → read_run s block n remain ≡ some (bytes_from bytes pos remain)
unfolding read_run bytes_from
read_run-bytes_from s bytes block zero pos zero h small enough = refl
read_run-bytes_from s bytes block zero pos (suc r) h small enough = absurd (omega arith)
read_run-bytes_from s bytes block (suc n) pos zero h small enough = refl
read_run-bytes_from s bytes block (suc n) pos (suc r) h small enough =
    let copy : ℕ = min 512 (suc r) in
    let left : ℕ = suc r - copy in
    let (buf, there, content) = h 0 (omega arith) in
    let rest : read_run s (u32 (block + 1)) n left ≡ some (bytes_from bytes (pos + copy) left) =
      read_run-bytes_from s bytes (u32 (block + 1)) n (pos + copy) left
        (later_Holds s bytes block n pos r h small) (omega arith) (omega arith) in
    let whole : copy + left ≡ suc r = omega arith in
    read_round (read_block s block) (read_run s (u32 (block + 1)) n left) copy (suc r) buf
      (bytes_from bytes (pos + copy) left) (λ e. absurd (omega (arith, e)))
      (ap (read_block s) (omega arith) ∙ there) rest
    ∙ ap (λ l. some (l ++ bytes_from bytes (pos + copy) left))
        (bytes_from_same buf bytes 0 pos copy (λ x l.
          ap buf (omega arith) ∙ content x (omega arith) (omega arith) ∙ ap bytes (omega arith)))
    ∙ ap some (bytes_from-append bytes pos copy left)
    ∙ ap (λ a. some (bytes_from bytes pos a)) whole
