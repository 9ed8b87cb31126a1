-- ===== src/Paging/Entries.antt =====
-- The entries of page tables of kernel/memory/paging.c: their bits, and words in different places.
use noverix.Base.{
  ℕ, zero, suc, ◌+◌, ◌*◌, ◌/◌, ◌%◌, ◌^◌, ◌≤◌, ◌<◌, ◌≡◌, ◌≢◌, ◌⊎◌, refl, arith, ◌∙◌, ap, bit_and,
  bit_or, max, bit_and_mask, bit_and_high, bit_or_above, bit_or-low_digit, bit_or-lt,
  bit_and_shifted,
}
use noverix.Memory.{Mem, IsBytes, load32-store32, load32-store32_apart, store32-IsBytes}
use noverix.Paging.{pde_idx, pte_idx, entry, set_entry, clear_entries}

pub pde_idx_lem : (virt : ℕ) → pde_idx virt ≡ virt / 2 ^ 22 % 1024
unfolding pde_idx
pde_idx_lem virt = bit_and_mask 10 (virt / 2 ^ 22)

pub pte_idx_lem : (virt : ℕ) → pte_idx virt ≡ virt / 2 ^ 12 % 1024
unfolding pte_idx
pte_idx_lem virt = bit_and_mask 10 (virt / 2 ^ 12)

pub present_bit : (e : ℕ) → bit_and e 1 ≡ e % 2
present_bit e = bit_and_mask 1 e

pub frame_bits : (e : ℕ) → e < 2 ^ 32 → bit_and e 0xFFFFF000 ≡ e / 4096 * 4096
frame_bits e h = bit_and_high 12 20 e (omega arith)

or_frame : (e b : ℕ) → b < 4096 → bit_or e b / 4096 ≡ e / 4096
or_frame e b h =
    let parts : e ≡ e / 4096 * 2 ^ 12 + e % 4096 = omega arith in
    let low : bit_or (e / 4096 * 2 ^ 12 + e % 4096) b ≡ e / 4096 * 2 ^ 12 + bit_or (e % 4096) b =
      bit_or_above 12 (e / 4096) (e % 4096) b (omega arith) (omega arith) in
    let whole : bit_or e b ≡ e / 4096 * 2 ^ 12 + bit_or (e % 4096) b =
      ap (λ x. bit_or x b) parts ∙ low in
    omega (arith, whole, bit_or-lt 12 (e % 4096) b (omega arith) (omega arith))

or_parity : (e b : ℕ) → bit_or e b % 2 ≡ max (e % 2) (b % 2)
or_parity e b = omega (arith, bit_or-low_digit e b)

and_user : (flags : ℕ) → bit_and flags 4 ≡ flags / 4 % 2 * 4
and_user flags = omega (arith, bit_and_shifted 2 flags 1, bit_and_mask 1 (flags / 2 ^ 2))

-- The value of a directory's entry for a new table: its frame, and the bit for present.
unfoldable pub pde_value : ℕ → ℕ → ℕ
pde_value f flags = bit_or (bit_or (bit_or (f * 4096) 1) 2) (bit_and flags 4)

pub pde_value_frame : (f flags : ℕ) → pde_value f flags / 4096 ≡ f
unfolding pde_value
pde_value_frame f flags = omega (
  arith,
  or_frame (f * 4096) 1 (omega arith),
  or_frame (bit_or (f * 4096) 1) 2 (omega arith),
  or_frame (bit_or (bit_or (f * 4096) 1) 2) (bit_and flags 4) (omega (arith, and_user flags)),
)

pub pde_value_present : (f flags : ℕ) → pde_value f flags % 2 ≡ 1
unfolding pde_value
pde_value_present f flags = omega (
  arith,
  or_parity (f * 4096) 1,
  or_parity (bit_or (f * 4096) 1) 2,
  or_parity (bit_or (bit_or (f * 4096) 1) 2) (bit_and flags 4),
  and_user flags,
)

-- The value of a table's entry for a mapped page.
unfoldable pub pte_value : ℕ → ℕ → ℕ
pte_value phys flags = bit_or (bit_or (bit_and phys 0xFFFFF000) 1) (bit_and flags 7)

pub pte_value_frame : (phys flags : ℕ) → phys < 2 ^ 32 → pte_value phys flags / 4096 ≡ phys / 4096
unfolding pte_value
pte_value_frame phys flags h = omega (
  arith,
  frame_bits phys h,
  or_frame (bit_and phys 0xFFFFF000) 1 (omega arith),
  or_frame (bit_or (bit_and phys 0xFFFFF000) 1) (bit_and flags 7)
      (omega (arith, bit_and_mask 3 flags)),
)

pub pte_value_present : (phys flags : ℕ) → pte_value phys flags % 2 ≡ 1
unfolding pte_value
pte_value_present phys flags = omega (
  arith,
  or_parity (bit_and phys 0xFFFFF000) 1,
  or_parity (bit_or (bit_and phys 0xFFFFF000) 1) (bit_and flags 7),
)

-- Entry `i` of the table in frame `p`.
abbrev pub word : Mem → (p i : ℕ) → ℕ
word m p i = entry m (p * 4096) i

abbrev pub set_word : Mem → (p i v : ℕ) → Mem
set_word m p i v = set_entry m (p * 4096) i v

pub word-set_word : (m : Mem) (p i v : ℕ) → v < 2 ^ 32 → word (set_word m p i v) p i ≡ v
word-set_word m p i v h = load32-store32 m (p * 4096 + 4 * i) v h

pub word-set_word_ne :
    (m : Mem) (p i v q j : ℕ)
    → i < 1024
    → j < 1024
    → (p ≢ q) ⊎ (i ≢ j)
    → word (set_word m p i v) q j ≡ word m q j
word-set_word_ne m p i v q j hi hj ne =
    load32-store32_apart m (p * 4096 + 4 * i) v (q * 4096 + 4 * j) (ground arith)

-- A table that is cleared from entry `i` on.
pub record Cleared (m m' : Mem) (p i : ℕ) : Type 0 where
  pub zero_from : (j : ℕ) → i ≤ j → j < 1024 → word m' p j ≡ 0
  pub same_before : (j : ℕ) → j < i → j < 1024 → word m' p j ≡ word m p j
  pub same_pages : (q j : ℕ) → q ≢ p → j < 1024 → word m' q j ≡ word m q j
  pub bytes : IsBytes m → IsBytes m'

pub clear_entries-Cleared :
    (m : Mem) (p i n : ℕ) → i + n ≡ 1024 → Cleared m (clear_entries m (p * 4096) i n) p i
unfolding clear_entries
clear_entries-Cleared m p i zero e = record {
  zero_from = λ j a b. absurd (omega arith);
  same_before = λ j a b. refl;
  same_pages = λ q j n b. refl;
  bytes = λ b. b;
}
clear_entries-Cleared m p i (suc n) e =
    let first : Mem = set_word m p i 0 in
    let rest : Cleared first (clear_entries first (p * 4096) (i + 1) n) p (i + 1) =
      clear_entries-Cleared first p (i + 1) n (omega arith) in
    record {
      zero_from = λ j a b.
          ground (arith, rest.zero_from j, rest.same_before j, word-set_word m p i 0 (omega arith));
      same_before = λ j a b.
          rest.same_before j (omega arith) b
          ∙ word-set_word_ne m p i 0 p j (omega arith) b (ground arith);
      same_pages = λ q j n b.
          rest.same_pages q j n b ∙ word-set_word_ne m p i 0 q j (omega arith) b (ground arith);
      bytes = λ b. rest.bytes (store32-IsBytes m (p * 4096 + 4 * i) 0 b);
    }
