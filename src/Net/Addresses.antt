-- ===== src/Net/Addresses.antt =====
-- `net_ip_aton` of kernel/net/net.c on dotted addresses.
use noverix.Base.{
  ℕ, zero, suc, ◌+◌, ◌-◌, ◌*◌, ◌/◌, ◌%◌, ◌^◌, ◌<◌, ◌≡◌, refl, arith, ◌∙◌, ap, sym, ◌==◌, leb, ltb,
  ◌&&◌, if◌then◌else◌, some, true, false, Bool-cases, inl, inr, bit_and, bit_or, bit_and_mask,
  bit_or_above, zero-bit_or, u32, List, [], ◌∷◌, ◌++◌, length, append-nil,
}
use noverix.Memory.{Mem}
use noverix.CLib.Strings.{CString}
use noverix.Net.{aton_from, net_ip_aton}

-- A byte in decimal.
unfoldable pub decimal : ℕ → List ℕ
decimal n =
    if ltb n 10
    then (b'0' + n) ∷ []
    else if ltb n 100
    then (b'0' + n / 10) ∷ (b'0' + n % 10) ∷ []
    else (b'0' + n / 100) ∷ (b'0' + n / 10 % 10) ∷ (b'0' + n % 10) ∷ []

unfoldable pub dotted : (a b c d : ℕ) → List ℕ
dotted a b c d = decimal a ++ (b'.' ∷ (decimal b ++ (b'.' ∷ (decimal c ++ (b'.' ∷ decimal d)))))

shift_in :
    (ip val : ℕ)
    → ip < 2 ^ 24
    → val < 256
    → bit_or (u32 (ip * 2 ^ 8)) (bit_and val 0xFF) ≡ ip * 256 + val
shift_in ip val hi hv =
    let moved : u32 (ip * 2 ^ 8) ≡ ip * 2 ^ 8 + 0 = omega arith in
    let low : bit_and val 0xFF ≡ val = omega (arith, bit_and_mask 8 val) in
    rw (moved, low)
      (bit_or_above 8 ip 0 val (omega arith) (omega arith) ∙ omega (arith, zero-bit_or val))

-- The same recursion on the bytes of the string.
abbrev aton : List ℕ → (ip val : ℕ) → ℕ
aton [] ip val = bit_or (u32 (ip * 2 ^ 8)) (bit_and val 0xFF)
aton (x ∷ xs) ip val =
    if x == b'.'
    then aton xs (bit_or (u32 (ip * 2 ^ 8)) (bit_and val 0xFF)) 0
    else if leb b'0' x && leb x b'9'
    then aton xs ip (u32 (val * 10 + (x - b'0')))
    else aton xs ip val

aton_from-aton :
    (f : ℕ) (m : Mem) (str ip val : ℕ) (xs : List ℕ)
    → CString m str xs
    → length xs < f
    → aton_from f m str ip val ≡ some (aton xs ip val)
unfolding aton_from
aton_from-aton zero m str ip val xs c h = absurd (omega arith)
aton_from-aton (suc f) m str ip val [] c h = rw c refl
aton_from-aton (suc f) m str ip val (x ∷ xs) c h =
    let more : (x == 0) ≡ false = ground (arith, c.1) in
    rw (c.0, more)
      (elim (Bool-cases (x == b'.')) [
        | inl e ↦ rw e (
            aton_from-aton f m (str + 1) (bit_or (u32 (ip * 2 ^ 8)) (bit_and val 0xFF)) 0 xs (c.2)
              (omega arith))
        | inr e ↦ elim (Bool-cases (leb b'0' x && leb x b'9')) [
          | inl g ↦
              rw (e, g)
                (aton_from-aton f m (str + 1) ip (u32 (val * 10 + (x - b'0'))) xs (c.2)
                  (omega arith))
          | inr g ↦ rw (e, g) (aton_from-aton f m (str + 1) ip val xs (c.2) (omega arith))
        ]
      ])

aton_digit :
    (n ip val : ℕ) (xs : List ℕ)
    → n < 10
    → val < 256
    → aton ((b'0' + n) ∷ xs) ip val ≡ aton xs ip (val * 10 + n)
aton_digit n ip val xs hn hv =
    let no_dot : ((b'0' + n) == b'.') ≡ false = ground arith in
    let digit : (leb b'0' (b'0' + n) && leb (b'0' + n) b'9') ≡ true = ground arith in
    let value : u32 (val * 10 + (b'0' + n - b'0')) ≡ val * 10 + n = omega arith in
    rw (no_dot, digit, value) refl

aton-decimal : (n ip : ℕ) (xs : List ℕ) → n < 256 → aton (decimal n ++ xs) ip 0 ≡ aton xs ip n
unfolding decimal
aton-decimal n ip xs h = elim (Bool-cases (ltb n 10)) [
  | inl e ↦ rw e (aton_digit n ip 0 xs (ground arith) (omega arith) ∙ ap (aton xs ip) (omega arith))
  | inr e ↦ elim (Bool-cases (ltb n 100)) [
    | inl g ↦
        rw (e, g)
          (aton_digit (n / 10) ip 0 ((b'0' + n % 10) ∷ xs) (ground arith) (omega arith)
            ∙ aton_digit (n % 10) ip (0 * 10 + n / 10) xs (omega arith) (ground arith)
            ∙ ap (aton xs ip) (omega arith))
    | inr g ↦
        rw (e, g)
          (aton_digit (n / 100) ip 0 ((b'0' + n / 10 % 10) ∷ (b'0' + n % 10) ∷ xs) (omega arith)
              (omega arith)
            ∙ aton_digit (n / 10 % 10) ip (0 * 10 + n / 100) ((b'0' + n % 10) ∷ xs) (omega arith)
                (omega arith)
            ∙ aton_digit (n % 10) ip ((0 * 10 + n / 100) * 10 + n / 10 % 10) xs (omega arith)
                (omega arith)
            ∙ ap (aton xs ip) (omega arith))
  ]
]

aton_part :
    (n ip : ℕ) (xs : List ℕ)
    → n < 256
    → ip < 2 ^ 24
    → aton (decimal n ++ (b'.' ∷ xs)) ip 0 ≡ aton xs (ip * 256 + n) 0
aton_part n ip xs h l = aton-decimal n ip (b'.' ∷ xs) h ∙ ap (λ i. aton xs i 0) (shift_in ip n l h)

aton_last : (n ip : ℕ) → n < 256 → ip < 2 ^ 24 → aton (decimal n) ip 0 ≡ ip * 256 + n
aton_last n ip h l =
    ap (λ xs. aton xs ip 0) (sym (append-nil (decimal n)))
    ∙ aton-decimal n ip [] h
    ∙ shift_in ip n l h

-- `net_ip_aton` of a dotted address of four bytes in decimal is the address with its first byte on
-- top; one more round of fuel than the string has bytes is enough.
pub net_ip_aton-dotted :
    (f : ℕ) (m : Mem) (str a b c d : ℕ)
    → a < 256
    → b < 256
    → c < 256
    → d < 256
    → CString m str (dotted a b c d)
    → length (dotted a b c d) < f
    → net_ip_aton f m str ≡ some (a * 2 ^ 24 + b * 2 ^ 16 + c * 2 ^ 8 + d)
unfolding net_ip_aton dotted
net_ip_aton-dotted f m str a b c d ha hb hc hd s h =
    aton_from-aton f m str 0 0 (dotted a b c d) s h
    ∙ ap some (
        aton_part a 0 _ ha (omega arith)
        ∙ aton_part b (0 * 256 + a) _ hb (omega arith)
        ∙ aton_part c ((0 * 256 + a) * 256 + b) _ hc (omega arith)
        ∙ aton_last d (((0 * 256 + a) * 256 + b) * 256 + c) hd (omega arith)
        ∙ omega arith)
