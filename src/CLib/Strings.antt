-- ===== src/CLib/Strings.antt =====
-- `lib_strlen`, `lib_strcmp` and `lib_strcpy` of kernel/lib.c on zero-terminated strings.
use noverix.Base.{
  ℕ, zero, suc, ◌+◌, ◌<◌, ◌≡◌, ◌≢◌, ◌⊎◌, inl, inr, refl, arith, ◌==◌, if◌then◌else◌, update, List,
  [], ◌∷◌, length, some, ℤ, pos, sub_ℕ, ◌↔◌, ap, sym, ◌∙◌, Bool-cases, ◌||◌,
}
use noverix.Memory.{Mem}
use noverix.CLib.{strlen_from, strlen, strcmp, strcpy_from, strcpy, memcpy}

-- The bytes `xs`, none of them zero, stand from address `a` on, and a zero follows them.
abbrev pub CString : Mem → ℕ → List ℕ → Type 0
CString m a [] = m a ≡ 0
CString m a (x ∷ xs) = (m a ≡ x) × (x ≢ 0) × CString m (a + 1) xs

strlen_from-length :
    (f : ℕ) (m : Mem) (s n : ℕ) (xs : List ℕ)
    → CString m s xs
    → length xs < f
    → strlen_from f m s n ≡ some (n + length xs)
unfolding strlen_from
strlen_from-length zero m s n xs str h = absurd (omega arith)
strlen_from-length (suc f) m s n [] str h = ground arith
strlen_from-length (suc f) m s n (x ∷ xs) str h =
    ground (arith, strlen_from-length f m (s + 1) (n + 1) xs str.2 (omega arith))

-- `strlen` is the number of bytes before the zero; one more round of fuel than that is enough.
pub strlen-length :
    (f : ℕ) (m : Mem) (s : ℕ) (xs : List ℕ)
    → CString m s xs
    → length xs < f
    → strlen f m s ≡ some (length xs)
unfolding strlen
strlen-length f m s xs str h = ground (arith, strlen_from-length f m s 0 xs str h)

-- The order of C strings: the difference at the first place where they differ.
pub compare_strings : List ℕ → List ℕ → ℤ
compare_strings [] [] = pos 0
compare_strings [] (y ∷ ys) = sub_ℕ 0 y
compare_strings (x ∷ xs) [] = sub_ℕ x 0
compare_strings (x ∷ xs) (y ∷ ys) = if x == y then compare_strings xs ys else sub_ℕ x y

-- `strcmp` computes that order, within as many rounds as the first string has bytes, and one.
pub strcmp-compare_strings :
    (f : ℕ) (m : Mem) (a b : ℕ) (xs ys : List ℕ)
    → CString m a xs
    → CString m b ys
    → length xs < f
    → strcmp f m a b ≡ some (compare_strings xs ys)
unfolding strcmp compare_strings
strcmp-compare_strings zero m a b xs ys p q h = absurd (omega arith)
strcmp-compare_strings (suc f) m a b [] [] p q h = ground arith
strcmp-compare_strings (suc f) m a b [] (y ∷ ys) p q h = ground arith
strcmp-compare_strings (suc f) m a b (x ∷ xs) [] p q h = ground arith
strcmp-compare_strings (suc f) m a b (x ∷ xs) (y ∷ ys) p q h =
    ground (arith, strcmp-compare_strings f m (a + 1) (b + 1) xs ys p.2 q.2 (omega arith))

-- Bytes of a string are not zero.
abbrev NonZero : List ℕ → Type 0
NonZero [] = Unit
NonZero (x ∷ xs) = (x ≢ 0) × NonZero xs

CString-NonZero : (m : Mem) (a : ℕ) (xs : List ℕ) → CString m a xs → NonZero xs
CString-NonZero m a [] p = tt
CString-NonZero m a (x ∷ xs) p = (p.1, CString-NonZero m (a + 1) xs p.2)

compare_strings-eq :
    (xs ys : List ℕ) → NonZero xs → NonZero ys → compare_strings xs ys ≡ pos 0 → xs ≡ ys
unfolding compare_strings
compare_strings-eq [] [] p q h = refl
compare_strings-eq [] (y ∷ ys) p q h = ground arith
compare_strings-eq (x ∷ xs) [] p q h = ground arith
compare_strings-eq (x ∷ xs) (y ∷ ys) p q h = ground (arith, compare_strings-eq xs ys p.1 q.1)

compare_strings_self : (xs : List ℕ) → compare_strings xs xs ≡ pos 0
unfolding compare_strings
compare_strings_self [] = refl
compare_strings_self (x ∷ xs) = ground (arith, compare_strings_self xs)

-- `strcmp` returns 0 exactly at equal strings.
pub strcmp-zero_iff :
    (f : ℕ) (m : Mem) (a b : ℕ) (xs ys : List ℕ)
    → CString m a xs
    → CString m b ys
    → length xs < f
    → (strcmp f m a b ≡ some (pos 0)) ↔ (xs ≡ ys)
strcmp-zero_iff f m a b xs ys p q h = (
  λ e.
      compare_strings-eq xs ys (CString-NonZero m a xs p) (CString-NonZero m b ys q)
        (cc (strcmp-compare_strings f m a b xs ys p q h)),
  λ e.
      strcmp-compare_strings f m a b xs ys p q h
      ∙ ap some (ap (compare_strings xs) (sym e) ∙ compare_strings_self xs),
)

CString-update :
    (m : Mem) (a v s : ℕ) (xs : List ℕ)
    → CString m s xs
    → (a < s) ⊎ (s + length xs < a)
    → CString (update m a v) s xs
CString-update m a v s [] p h = ground arith
CString-update m a v s (x ∷ xs) p h =
    (ground arith, p.1, CString-update m a v (s + 1) xs p.2 (omega arith))

strcpy_from-memcpy :
    (f : ℕ) (m : Mem) (dst src : ℕ) (xs : List ℕ)
    → CString m src xs
    → (dst + length xs < src) ⊎ (src + length xs < dst)
    → length xs < f
    → strcpy_from f m dst src ≡ some (memcpy m dst src (suc (length xs)))
unfolding strcpy_from memcpy
strcpy_from-memcpy zero m dst src xs str apart h = absurd (omega arith)
strcpy_from-memcpy (suc f) m dst src [] str apart h = ground arith
strcpy_from-memcpy (suc f) m dst src (x ∷ xs) str apart h = ground (
  arith,
  strcpy_from-memcpy f (update m dst (m src)) (dst + 1) (src + 1) xs
      (CString-update m dst (m src) (src + 1) xs str.2 (omega arith)) (omega arith) (omega arith),
)

-- On regions that do not overlap, `strcpy` is `memcpy` of the string with its zero, and does nothing
-- if either pointer is null.
pub strcpy-memcpy :
    (f : ℕ) (m : Mem) (dst src : ℕ) (xs : List ℕ)
    → CString m src xs
    → (dst + length xs < src) ⊎ (src + length xs < dst)
    → length xs < f
    → strcpy f m dst src
      ≡ some (if (dst == 0) || (src == 0) then m else memcpy m dst src (length xs + 1))
unfolding strcpy
strcpy-memcpy f m dst src xs str apart h = elim (Bool-cases ((dst == 0) || (src == 0))) [
  | inl null ↦ rw null
  | inr real ↦ rw real (
      strcpy_from-memcpy f m dst src xs str apart h
      ∙ ap (λ k. some (memcpy m dst src k)) (omega arith))
]
