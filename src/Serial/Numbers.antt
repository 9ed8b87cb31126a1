-- ===== src/Serial/Numbers.antt =====
-- The numbers that kernel/drivers/serial.c prints can be read back.
use noverix.Base.{
  ℕ, zero, suc, ◌+◌, ◌-◌, ◌*◌, ◌/◌, ◌%◌, ◌^◌, ◌≤◌, ◌<◌, ◌≡◌, ◌⊎◌, ◌&&◌, ◌||◌, refl, arith, ◌∙◌, ap,
  ◌==◌, ltb, if◌then◌else◌, List, [], ◌∷◌, bit_and, bit_and_mask, Bool-cases, inl, inr, false, ◌≢◌,
  length,
}
use native.Mathlib.Nat.{pow-suc}
use noverix.Serial.{
  serial_write_char, serial_write_string, hex_digit, hex_digits, serial_write_hex, decimal_digits,
  serial_write_int,
}

-- The value of a digit from 0 to 9 or A to F; 16, which no digit has, for another character.
unfoldable pub digit_value : ℕ → ℕ
digit_value c =
    if (ltb c b'0') || (ltb b'9' c && ltb c b'A') || ltb b'F' c
    then 16
    else if ltb c b'A'
    then c - b'0'
    else c - b'A' + 10

-- The characters 0 to 9 and A to F, and no other.
abbrev pub AreDigits : List ℕ → Type 0
AreDigits [] = Unit {0}
AreDigits (c ∷ cs) = (((b'0' ≤ c) × (c ≤ b'9')) ⊎ ((b'A' ≤ c) × (c ≤ b'F'))) × AreDigits cs

-- Positional notation, from the most significant digit on.
unfoldable pub read_digits : (base : ℕ) → (acc : ℕ) → List ℕ → ℕ
read_digits base acc [] = acc
read_digits base acc (c ∷ cs) = read_digits base (acc * base + digit_value c) cs

digit_value-hex_digit : (n : ℕ) → n < 16 → digit_value (hex_digit n) ≡ n
unfolding digit_value hex_digit
digit_value-hex_digit n h = ground arith

digit_value-decimal : (n : ℕ) → n < 10 → digit_value (b'0' + n) ≡ n
unfolding digit_value
digit_value-decimal n h = ground arith

read_nothing : (base num : ℕ) → read_digits base num [] ≡ num
unfolding read_digits
read_nothing base num = refl

length-hex_digits :
    (places num : ℕ) (filled : List ℕ)
    → length (hex_digits num places filled) ≡ places + length filled
unfolding hex_digits
length-hex_digits zero num filled = omega arith
length-hex_digits (suc n) num filled =
    omega (arith, length-hex_digits n (num / 16) (hex_digit (bit_and num 0x0F) ∷ filled))

read_digits-hex_digits :
    (places num : ℕ) (filled : List ℕ)
    → num < 16 ^ places
    → read_digits 16 0 (hex_digits num places filled) ≡ read_digits 16 num filled
unfolding hex_digits read_digits
read_digits-hex_digits zero num filled h = ap (λ n. read_digits 16 n filled) (omega arith)
read_digits-hex_digits (suc n) num filled h =
    let low : bit_and num 0x0F ≡ num % 16 = bit_and_mask 4 num in
    read_digits-hex_digits n (num / 16) (hex_digit (bit_and num 0x0F) ∷ filled)
      (omega (arith, pow-suc 16 n))
    ∙ ap (λ d. read_digits 16 (num / 16 * 16 + digit_value (hex_digit d)) filled) low
    ∙ ap (λ d. read_digits 16 (num / 16 * 16 + d) filled)
        (digit_value-hex_digit (num % 16) (omega arith))
    ∙ ap (λ d. read_digits 16 d filled) (omega arith)

read_digits-decimal_digits :
    (i num : ℕ) (filled : List ℕ)
    → num < 10 ^ i
    → read_digits 10 0 (decimal_digits num i filled) ≡ read_digits 10 num filled
unfolding decimal_digits read_digits
read_digits-decimal_digits zero num filled h = ap (λ n. read_digits 10 n filled) (omega arith)
read_digits-decimal_digits (suc i) num filled h = elim (Bool-cases (num == 0)) [
  | inl e ↦ rw e (ap (λ n. read_digits 10 n filled) (ground arith))
  | inr e ↦ rw e (
      read_digits-decimal_digits i (num / 10) ((b'0' + num % 10) ∷ filled)
        (omega (arith, pow-suc 10 i))
      ∙ ap (λ d. read_digits 10 (num / 10 * 10 + d) filled)
          (digit_value-decimal (num % 10) (omega arith))
      ∙ ap (λ d. read_digits 10 d filled) (omega arith))
]

-- Characters other than the line feed are put out as they are.
abbrev Plain : List ℕ → Type 0
Plain [] = Unit {0}
Plain (c ∷ cs) = (c ≢ 10) × Plain cs

serial_write_string-Plain : (cs : List ℕ) → Plain cs → serial_write_string cs ≡ cs
unfolding serial_write_string serial_write_char
serial_write_string-Plain [] p = refl
serial_write_string-Plain (c ∷ cs) p =
    let other : (c == 10) ≡ false = ground (arith, p.0) in
    rw other (ap (◌∷◌ c) (serial_write_string-Plain cs (p.1)))

hex_digits-Plain : (n num : ℕ) (filled : List ℕ) → Plain filled → Plain (hex_digits num n filled)
unfolding hex_digits hex_digit
hex_digits-Plain zero num filled p = p
hex_digits-Plain (suc n) num filled p = hex_digits-Plain n (num / 16) _ (λ e. ground arith, p)

hex_digit_range :
    (n : ℕ)
    → n < 16
    → ((b'0' ≤ hex_digit n) × (hex_digit n ≤ b'9')) ⊎ ((b'A' ≤ hex_digit n) × (hex_digit n ≤ b'F'))
unfolding hex_digit
hex_digit_range n h = elim (Bool-cases (ltb n 10)) [
  | inl low ↦ rw low (inl (omega arith, ground arith))
  | inr high ↦ rw high (inr (ground arith, omega arith))
]

hex_digits-AreDigits :
    (n num : ℕ) (filled : List ℕ) → AreDigits filled → AreDigits (hex_digits num n filled)
unfolding hex_digits
hex_digits-AreDigits zero num filled p = p
hex_digits-AreDigits (suc n) num filled p =
    let low : bit_and num 0x0F ≡ num % 16 = bit_and_mask 4 num in
    hex_digits-AreDigits n (num / 16) _ (hex_digit_range (bit_and num 0x0F) (omega (arith, low)), p)

decimal_digits-Plain :
    (i num : ℕ) (filled : List ℕ) → Plain filled → Plain (decimal_digits num i filled)
unfolding decimal_digits
decimal_digits-Plain zero num filled p = p
decimal_digits-Plain (suc i) num filled p =
    let more : Plain (decimal_digits (num / 10) i ((b'0' + num % 10) ∷ filled)) =
      decimal_digits-Plain i (num / 10) _ (λ e. omega arith, p) in
    elim (Bool-cases (num == 0)) [ inl e ↦ rw e p | inr e ↦ rw e more ]

-- `serial_write_hex` puts out 0x and then eight characters, each from 0 to 9 or from A to F, whose
-- value as hexadecimal digits is the number.
pub read_digits-serial_write_hex :
    (num : ℕ)
    → num < 2 ^ 32
    → (digits : List ℕ) × (serial_write_hex num ≡ b'0' ∷ b'x' ∷ digits)
      × (length digits ≡ 8)
      × AreDigits digits
      × (read_digits 16 0 digits ≡ num)
unfolding serial_write_hex
read_digits-serial_write_hex num h = (
  hex_digits num 8 [],
  serial_write_string-Plain (b'0' ∷ b'x' ∷ hex_digits num 8 [])
      (λ e. omega arith, (λ e. omega arith, hex_digits-Plain 8 num [] tt)),
  length-hex_digits 8 num [],
  hex_digits-AreDigits 8 num [] tt,
  read_digits-hex_digits 8 num [] (omega arith) ∙ read_nothing 16 num,
)

-- `serial_write_int` puts out characters whose value as decimal digits is the number.
pub read_digits-serial_write_int :
    (num : ℕ) → num < 2 ^ 32 → read_digits 10 0 (serial_write_int num) ≡ num
unfolding serial_write_int serial_write_char read_digits digit_value
read_digits-serial_write_int num h = elim (Bool-cases (num == 0)) [
  | inl e ↦ rw e (ground arith)
  | inr e ↦
      rw
        (
          e,
          serial_write_string-Plain (decimal_digits num 11 []) (decimal_digits-Plain 11 num [] tt),
        )
        (read_digits-decimal_digits 11 num [] (omega arith) ∙ refl)
]
