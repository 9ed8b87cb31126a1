-- ===== src/Keyboard/Layout.antt =====
-- What a scan code types in kernel/drivers/keyboard.c, against a layout of the keys.
use noverix.Base.{
  ℕ, zero, suc, ◌+◌, ◌-◌, ◌*◌, ◌/◌, ◌%◌, ◌^◌, ◌≤◌, ◌<◌, ◌≡◌, refl, arith, ◌==◌, ltb, ltb→lt,
  bit_and_shifted, bit_and_mask, if◌then◌else◌, Bool, true, false, ◌&&◌, ◌||◌, bit_and, List, [],
  ◌∷◌, get_or, ap, ◌∙◌, sym, Bool-cases, inl, inr,
}
use noverix.Keyboard.{
  Keyboard, scancode_ascii, scancode_ascii_shift, arrow_key, ascii_key, is_press,
}
use noverix.Keyboard.Handler.{is_plain, typed_key}

-- A key: its scan code and the characters that it types without and with shift.
pub record Key : Type 0 where
  pub code : ℕ
  pub plain : ℕ
  pub shifted : ℕ

abbrev pub key : (code plain shifted : ℕ) → Key
key code plain shifted = record { code = code; plain = plain; shifted = shifted }

-- The capital of a letter stands 32 places before it.
abbrev pub letter : (code c : ℕ) → Key
letter code c = key code c (c - 32)

-- The letters in the order of the alphabet, the digits, the other characters and the keys with the
-- same character on both levels: backspace, enter, the star of the keypad and space.
abbrev pub us_layout : List Key
us_layout =
    letter 0x1E b'a'
    ∷ letter 0x30 b'b'
    ∷ letter 0x2E b'c'
    ∷ letter 0x20 b'd'
    ∷ letter 0x12 b'e'
    ∷ letter 0x21 b'f'
    ∷ letter 0x22 b'g'
    ∷ letter 0x23 b'h'
    ∷ letter 0x17 b'i'
    ∷ letter 0x24 b'j'
    ∷ letter 0x25 b'k'
    ∷ letter 0x26 b'l'
    ∷ letter 0x32 b'm'
    ∷ letter 0x31 b'n'
    ∷ letter 0x18 b'o'
    ∷ letter 0x19 b'p'
    ∷ letter 0x10 b'q'
    ∷ letter 0x13 b'r'
    ∷ letter 0x1F b's'
    ∷ letter 0x14 b't'
    ∷ letter 0x16 b'u'
    ∷ letter 0x2F b'v'
    ∷ letter 0x11 b'w'
    ∷ letter 0x2D b'x'
    ∷ letter 0x15 b'y'
    ∷ letter 0x2C b'z'
    ∷ key 0x0B b'0' b')'
    ∷ key 0x02 b'1' b'!'
    ∷ key 0x03 b'2' b'@'
    ∷ key 0x04 b'3' b'#'
    ∷ key 0x05 b'4' b'$'
    ∷ key 0x06 b'5' b'%'
    ∷ key 0x07 b'6' b'^'
    ∷ key 0x08 b'7' b'&'
    ∷ key 0x09 b'8' b'*'
    ∷ key 0x0A b'9' b'('
    ∷ key 0x0C b'-' b'_'
    ∷ key 0x0D b'=' b'+'
    ∷ key 0x1A b'[' b'{'
    ∷ key 0x1B b']' b'}'
    ∷ key 0x27 b';' b':'
    ∷ key 0x28 39 34
    ∷ key 0x29 b'`' b'~'
    ∷ key 0x2B 92 b'|'
    ∷ key 0x33 b',' b'<'
    ∷ key 0x34 b'.' b'>'
    ∷ key 0x35 b'/' b'?'
    ∷ key 0x0E 8 8
    ∷ key 0x1C 10 10
    ∷ key 0x37 b'*' b'*'
    ∷ key 0x39 b' ' b' '
    ∷ []

-- KEY_UP, KEY_DOWN, KEY_LEFT and KEY_RIGHT, behind the prefix 0xE0.
abbrev pub arrows : List Key
arrows = key 0x48 1 1 ∷ key 0x50 2 2 ∷ key 0x4B 3 3 ∷ key 0x4D 4 4 ∷ []

-- What a scan code types on a layout, 0 where it has no such key.
unfoldable pub key_on : List Key → (shift : Bool) → (code : ℕ) → ℕ
key_on [] shift code = 0
key_on (k ∷ ks) shift code =
    let rest = key_on ks shift code in
    if code == k.code then (if shift then k.shifted else k.plain) else rest

-- The character that a scan code types in a state, 0 for none.
unfoldable pub typed : Keyboard → ℕ → ℕ
typed k code =
    if code == 0xE0
    then 0
    else key_on (if k.extended then arrows else us_layout) (k.shift_pressed || k.caps_on) code

tabulate : (ℕ → ℕ) → (from n : ℕ) → List ℕ
tabulate f from zero = []
tabulate f from (suc n) = f from ∷ tabulate f (from + 1) n

get_or-tabulate : (f : ℕ → ℕ) (from n i : ℕ) → i < n → get_or (tabulate f from n) i 0 ≡ f (from + i)
unfolding tabulate
get_or-tabulate f from zero i h = absurd (omega arith)
get_or-tabulate f from (suc n) zero h = ap f (omega arith)
get_or-tabulate f from (suc n) (suc i) h =
    get_or-tabulate f (from + 1) n i (omega arith) ∙ ap f (omega arith)

plain_table : tabulate (key_on us_layout false) 0 58 ≡ scancode_ascii
unfolding tabulate key_on
plain_table = refl

shift_table : tabulate (key_on us_layout true) 0 58 ≡ scancode_ascii_shift
unfolding tabulate key_on
shift_table = refl

ascii_key-key_on :
    (k : Keyboard) (code : ℕ)
    → code < 58
    → ascii_key k code ≡ key_on us_layout (k.shift_pressed || k.caps_on) code
unfolding ascii_key
ascii_key-key_on k code h = elim (Bool-cases (k.shift_pressed || k.caps_on)) [
  | inl e ↦ rw e (
      ap (λ t. get_or t code 0) (sym shift_table)
      ∙ get_or-tabulate (key_on us_layout true) 0 58 code h
      ∙ ap (key_on us_layout true) (omega arith))
  | inr e ↦ rw e (
      ap (λ t. get_or t code 0) (sym plain_table)
      ∙ get_or-tabulate (key_on us_layout false) 0 58 code h
      ∙ ap (key_on us_layout false) (omega arith))
]

abbrev all_below : ℕ → List Key → Bool
all_below n [] = true
all_below n (k ∷ ks) = ltb k.code n && all_below n ks

key_on_beyond :
    (ks : List Key) (n : ℕ) (shift : Bool) (code : ℕ)
    → all_below n ks ≡ true
    → n ≤ code
    → key_on ks shift code ≡ 0
unfolding key_on
key_on_beyond [] n shift code b h = refl
key_on_beyond (k ∷ ks) n shift code b h =
    ground (arith, key_on_beyond ks n shift code (ground arith) h)

is_plain-key_on :
    (k : Keyboard) (code : ℕ)
    → (if is_plain code then ascii_key k code else 0)
      ≡ key_on us_layout (k.shift_pressed || k.caps_on) code
is_plain-key_on k code = elim (Bool-cases (ltb code 58)) [
  | inr e ↦
      let none_there : is_plain code ≡ false = unfold is_plain in ground (arith, e) in
      rw none_there
        (sym (key_on_beyond us_layout 58 (k.shift_pressed || k.caps_on) code refl (ground arith)))
  | inl e ↦ elim (Bool-cases ((code == 0x2A) || (code == 0x36))) [
    | inl m ↦
        let modifier : is_plain code ≡ false = unfold is_plain in ground (arith, m) in
        rw modifier (unfold key_on in ground (arith, m))
    | inr m ↦
        let other : is_plain code ≡ true = unfold is_plain in ground (arith, m, e) in
        rw other (ascii_key-key_on k code (ltb→lt code 58 e))
  ]
]

arrow_key-key_on :
    (shift : Bool) (code : ℕ)
    → (if is_press code then arrow_key code else 0) ≡ key_on arrows shift code
unfolding is_press arrow_key key_on
arrow_key-key_on shift code =
    let bit : bit_and code 0x80 ≡ code / 128 % 2 * 128 =
      omega (arith, bit_and_shifted 7 code 1, bit_and_mask 1 (code / 2 ^ 7)) in
    ground (arith, bit)

pub typed_key-typed : (k : Keyboard) (code : ℕ) → typed_key k code ≡ typed k code
unfolding typed_key typed ascii_key
typed_key-typed k code = elim (Bool-cases (code == 0xE0)) [
  | inl e ↦ rw e refl
  | inr e ↦ elim (Bool-cases k.extended) [
    | inl x ↦ rw (e, x) (arrow_key-key_on (k.shift_pressed || k.caps_on) code)
    | inr x ↦ rw (e, x) (is_plain-key_on k code)
  ]
]
