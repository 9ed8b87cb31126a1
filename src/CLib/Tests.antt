-- ===== src/CLib/Tests.antt =====
-- lib.c at concrete memories, and its theorems at inputs that meet their hypotheses.
use noverix.Base.{ℕ, ◌≡◌, ◌↔◌, refl, arith, List, [], ◌∷◌, some, update, pos}
use noverix.Memory.{Mem}
use noverix.CLib.{strlen_from, memcpy, memset, strlen, strcmp}
use noverix.CLib.Blocks.{memcpy_lem, memset_lem}
use noverix.CLib.Strings.{
  CString, strlen-length, compare_strings, strcmp-compare_strings, strcmp-zero_iff,
}

-- "ls" at 16 and "ld" at 32
abbrev texts : Mem
texts = update (update (update (update (λ _. 0) 16 b'l') 17 b's') 32 b'l') 33 b'd'

abbrev ls : List ℕ
ls = b'l' ∷ b's' ∷ []

abbrev ld : List ℕ
ld = b'l' ∷ b'd' ∷ []

ls_stored : CString texts 16 ls
ls_stored = omega arith

ld_stored : CString texts 32 ld
ld_stored = omega arith

ls_length : strlen 9 texts 16 ≡ some 2
unfolding strlen strlen_from
ls_length = refl

ls_after_ld : strcmp 9 texts 16 32 ≡ some (pos 15)
unfolding strcmp
ls_after_ld = refl

memcpy_lem_example : memcpy texts 64 16 2 65 ≡ b's'
memcpy_lem_example = memcpy_lem texts 64 16 2 65 (omega arith)

memset_lem_example : memset texts 16 0x141 4 18 ≡ 0x41
memset_lem_example = memset_lem texts 16 0x141 4 18

strlen-length_example : strlen 3 texts 16 ≡ some 2
strlen-length_example = strlen-length 3 texts 16 ls ls_stored (omega arith)

strcmp-compare_strings_example : strcmp 3 texts 16 32 ≡ some (compare_strings ls ld)
strcmp-compare_strings_example =
    strcmp-compare_strings 3 texts 16 32 ls ld ls_stored ld_stored (omega arith)

strcmp-zero_iff_example : (strcmp 3 texts 16 32 ≡ some (pos 0)) ↔ (ls ≡ ld)
strcmp-zero_iff_example = strcmp-zero_iff 3 texts 16 32 ls ld ls_stored ld_stored (omega arith)
