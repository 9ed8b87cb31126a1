-- ===== src/Net/Checksum.antt =====
-- The Internet checksum of kernel/net/net.c: what it computes, and that a packet with its checksum
-- in place passes the check of the receiver.
use noverix.Base.{
  ℕ, zero, suc, ◌+◌, ◌-◌, ◌*◌, ◌/◌, ◌%◌, ◌^◌, ◌≤◌, ◌<◌, ◌≡◌, ◌≢◌, inl, inr, refl, arith, ◌∙◌, ap,
  sym, ◌==◌, if◌then◌else◌, some, false, Bool-cases, bit_and, bit_and_mask, u32,
}
use noverix.Memory.{
  Mem, IsBytes, load16, store16, load16-store16, store16_outside, store16-IsBytes, load16-lt,
}
use noverix.Net.{net_htons, net_htonl, sum_words, fold_sum, complement, net_checksum}

-- Reading a word of a packet gives back what the other byte order wrote.
pub net_htons-net_htons : (x : ℕ) → x < 2 ^ 16 → net_htons (net_htons x) ≡ x
unfolding net_htons
net_htons-net_htons x h = omega arith

pub net_htonl-net_htonl : (x : ℕ) → x < 2 ^ 32 → net_htonl (net_htonl x) ≡ x
unfolding net_htonl
net_htonl-net_htonl x h = omega arith

-- The sum of the words and of the last byte, in ℕ.
unfoldable pub total : Mem → (ptr i n : ℕ) → ℕ
total m ptr i zero = 0
total m ptr i (suc n) = load16 m (ptr + 2 * i) + total m ptr (i + 1) n

unfoldable pub last_byte : Mem → (ptr len : ℕ) → ℕ
last_byte m ptr len = if len % 2 == 0 then 0 else m (ptr + (len - 1))

pub total-lt : (m : Mem) (ptr i n : ℕ) → IsBytes m → total m ptr i n ≤ n * 65535
unfolding total
total-lt m ptr i zero b = omega arith
total-lt m ptr i (suc n) b = omega (arith, total-lt m ptr (i + 1) n b, load16-lt m (ptr + 2 * i) b)

sum_words-total :
    (m : Mem) (ptr i n sum : ℕ)
    → IsBytes m
    → sum + n * 65535 < 2 ^ 32
    → sum_words m ptr i n sum ≡ sum + total m ptr i n
unfolding sum_words total
sum_words-total m ptr i zero sum b h = omega arith
sum_words-total m ptr i (suc n) sum b h =
    let small : sum + load16 m (ptr + 2 * i) < 2 ^ 32 =
      omega (arith, load16-lt m (ptr + 2 * i) b) in
    rw (mod-small _ small) (
      omega (
        arith,
        load16-lt m (ptr + 2 * i) b,
        sum_words-total m ptr (i + 1) n (sum + load16 m (ptr + 2 * i)) b
            (omega (arith, load16-lt m (ptr + 2 * i) b)),
      ))
  where
    mod-small : (x : ℕ) → x < 2 ^ 32 → x % 2 ^ 32 ≡ x
    mod-small x h = omega arith

-- One's complement addition: 0 for 0, and else the rest by 65535 in 1 to 65535.
unfoldable pub ones_sum : ℕ → ℕ
ones_sum s = if s == 0 then 0 else (s - 1) % 65535 + 1

one_round : (s : ℕ) → s < 2 ^ 32 → u32 (bit_and s 0xFFFF + s / 2 ^ 16) ≡ s % 2 ^ 16 + s / 2 ^ 16
one_round s h = omega (arith, bit_and_mask 16 s)

ones_sum-one_round : (s : ℕ) → ones_sum (s % 2 ^ 16 + s / 2 ^ 16) ≡ ones_sum s
unfolding ones_sum
ones_sum-one_round s = ground arith

fold_sum-below : (f s : ℕ) → s < 2 ^ 16 → fold_sum (suc f) s ≡ some (ones_sum s)
unfolding fold_sum ones_sum
fold_sum-below f s h = ground arith

fold_sum-above :
    (f s : ℕ) → s < 2 ^ 32 → 2 ^ 16 ≤ s → fold_sum (suc f) s ≡ fold_sum f (s % 2 ^ 16 + s / 2 ^ 16)
unfolding fold_sum
fold_sum-above f s h g =
    let large : (s / 2 ^ 16 == 0) ≡ false = ground arith in rw (large, one_round s h) refl

-- With one round more than the sum needs, the loop ends.
fold_sum-by_round :
    (f s : ℕ)
    → s < 2 ^ 32
    → fold_sum f (s % 2 ^ 16 + s / 2 ^ 16) ≡ some (ones_sum (s % 2 ^ 16 + s / 2 ^ 16))
    → fold_sum (suc f) s ≡ some (ones_sum s)
fold_sum-by_round f s h e = elim (Bool-cases (s / 2 ^ 16 == 0)) [
  | inl z ↦ fold_sum-below f s (ground arith)
  | inr z ↦ fold_sum-above f s h (ground arith) ∙ e ∙ ap some (ones_sum-one_round s)
]

fold_sum-ones_sum : (s : ℕ) → s < 2 ^ 32 → fold_sum 3 s ≡ some (ones_sum s)
fold_sum-ones_sum s h = fold_sum-by_round 2 s h (twice (s % 2 ^ 16 + s / 2 ^ 16) (omega arith))
  where
    twice : (r : ℕ) → r < 131071 → fold_sum 2 r ≡ some (ones_sum r)
    twice r l =
        fold_sum-by_round 1 r (omega arith)
          (fold_sum-below 0 (r % 2 ^ 16 + r / 2 ^ 16) (omega arith))

last_byte-lt : (m : Mem) (ptr len : ℕ) → IsBytes m → last_byte m ptr len < 256
unfolding last_byte
last_byte-lt m ptr len b = ground (arith, b (ptr + (len - 1)))

checked_sum-lt :
    (m : Mem) (ptr len : ℕ)
    → IsBytes m
    → len ≤ 131070
    → total m ptr 0 (len / 2) + last_byte m ptr len < 2 ^ 32
checked_sum-lt m ptr len b h = omega (arith, total-lt m ptr 0 (len / 2) b, last_byte-lt m ptr len b)

checked_sum :
    (m : Mem) (ptr len : ℕ)
    → IsBytes m
    → len ≤ 131070
    → (if bit_and len 1 == 0
        then sum_words m ptr 0 (len / 2) 0
        else u32 (sum_words m ptr 0 (len / 2) 0 + m (ptr + (len - 1))))
      ≡ total m ptr 0 (len / 2) + last_byte m ptr len
unfolding last_byte
checked_sum m ptr len b h = ground (
  arith,
  bit_and_mask 1 len,
  sum_words-total m ptr 0 (len / 2) 0 b (omega arith),
  total-lt m ptr 0 (len / 2) b,
  b (ptr + (len - 1)),
)

ones_sum-lt : (s : ℕ) → ones_sum s < 2 ^ 16
unfolding ones_sum
ones_sum-lt s = ground arith

complement-ones_sum : (s : ℕ) → complement (some (ones_sum s)) ≡ some (65535 - ones_sum s)
unfolding complement
complement-ones_sum s = ap some (omega (arith, ones_sum-lt s))

-- Up to 131070 bytes, `net_checksum` ends and is the complement of the sum of the words,
-- and of the last byte where the length is odd, in one's complement arithmetic.
pub net_checksum-ones_sum :
    (m : Mem) (ptr len : ℕ)
    → IsBytes m
    → len ≤ 131070
    → net_checksum m ptr len
      ≡ some (65535 - ones_sum (total m ptr 0 (len / 2) + last_byte m ptr len))
unfolding net_checksum
net_checksum-ones_sum m ptr len b h =
    rw
      (
        checked_sum m ptr len b h,
        fold_sum-ones_sum (total m ptr 0 (len / 2) + last_byte m ptr len)
            (checked_sum-lt m ptr len b h),
      )
      (complement-ones_sum (total m ptr 0 (len / 2) + last_byte m ptr len))

-- A write of word `k` changes the sum by the difference of the words.
load16-store16_apart :
    (m : Mem) (ptr k v i : ℕ)
    → i ≢ k
    → load16 (store16 m (ptr + 2 * k) v) (ptr + 2 * i) ≡ load16 m (ptr + 2 * i)
unfolding load16
load16-store16_apart m ptr k v i n = ground (
  arith,
  store16_outside m (ptr + 2 * k) v (ptr + 2 * i),
  store16_outside m (ptr + 2 * k) v (ptr + 2 * i + 1),
)

total_behind :
    (m : Mem) (ptr i n k v : ℕ)
    → k < i
    → total (store16 m (ptr + 2 * k) v) ptr i n ≡ total m ptr i n
unfolding total
total_behind m ptr i zero k v h = refl
total_behind m ptr i (suc n) k v h =
    ground (arith, load16-store16_apart m ptr k v i, total_behind m ptr (i + 1) n k v (omega arith))

total-store16 :
    (m : Mem) (ptr i n k v : ℕ)
    → v < 2 ^ 16
    → i ≤ k
    → k < i + n
    → total (store16 m (ptr + 2 * k) v) ptr i n + load16 m (ptr + 2 * k) ≡ total m ptr i n + v
unfolding total
total-store16 m ptr i zero k v h a b = absurd (omega arith)
total-store16 m ptr i (suc n) k v h a b = elim (Bool-cases (i == k)) [
  | inl e ↦
      let same : i ≡ k = ground arith in
      rw same (
        omega (
          arith,
          load16-store16 m (ptr + 2 * k) v h,
          total_behind m ptr (k + 1) n k v (omega arith),
        ))
  | inr e ↦ omega (
    arith,
    load16-store16_apart m ptr k v i (ground arith),
    total-store16 m ptr (i + 1) n k v h (ground arith) (ground arith),
  )
]

last_byte-store16 :
    (m : Mem) (ptr len k v : ℕ)
    → k < len / 2
    → last_byte (store16 m (ptr + 2 * k) v) ptr len ≡ last_byte m ptr len
unfolding last_byte
last_byte-store16 m ptr len k v h =
    ground (arith, store16_outside m (ptr + 2 * k) v (ptr + (len - 1)))

ones_sum_complement : (s : ℕ) → ones_sum (s + (65535 - ones_sum s)) ≡ 65535
unfolding ones_sum
ones_sum_complement s = ground arith

some_inj : {a b : ℕ} → some a ≡ some b → a ≡ b
some_inj {a} {b} e = ground arith

-- The check of a receiver: if a word of a packet of at most 131070 bytes is first set to 0 and then
-- to the checksum, as `send_icmp_echo` does, the checksum of the packet is 0.
pub net_checksum-store16 :
    (m : Mem) (ptr len k c : ℕ)
    → IsBytes m
    → len ≤ 131070
    → k < len / 2
    → net_checksum (store16 m (ptr + 2 * k) 0) ptr len ≡ some c
    → net_checksum (store16 m (ptr + 2 * k) c) ptr len ≡ some 0
net_checksum-store16 m ptr len k c b h l e =
    let blank : Mem = store16 m (ptr + 2 * k) 0 in
    let s : ℕ = total blank ptr 0 (len / 2) + last_byte blank ptr len in
    let is_c : c ≡ 65535 - ones_sum s =
      some_inj (sym e ∙ net_checksum-ones_sum blank ptr len (store16-IsBytes m _ 0 b) h) in
    let is_sum : total (store16 m (ptr + 2 * k) c) ptr 0 (len / 2)
          + last_byte (store16 m (ptr + 2 * k) c) ptr len
        ≡ s + (65535 - ones_sum s) =
      omega (
        arith,
        is_c,
        total-store16 m ptr 0 (len / 2) k 0 (omega arith) (omega arith) (omega arith),
        total-store16 m ptr 0 (len / 2) k c (omega (arith, is_c)) (omega arith) (omega arith),
        last_byte-store16 m ptr len k 0 l,
        last_byte-store16 m ptr len k c l,
      ) in
    net_checksum-ones_sum (store16 m (ptr + 2 * k) c) ptr len (store16-IsBytes m _ c b) h
    ∙ ap (λ t. some (65535 - ones_sum t)) is_sum
    ∙ ap (λ t. some (65535 - t)) (ones_sum_complement s)
