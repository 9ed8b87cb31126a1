-- ===== src/Serial.antt =====
-- kernel/drivers/serial.c: the printing of text and numbers on the serial port, as the list of
-- bytes that are put out. The wait for the port and its set-up are left out.
pub mod Numbers
mod Tests
use noverix.Base.{
  ℕ, zero, suc, ◌+◌, ◌-◌, ◌/◌, ◌%◌, ◌==◌, ltb, if◌then◌else◌, List, [], ◌∷◌, ◌++◌, bit_and, u8,
}

-- `serial_write_char_impl`: a line feed is preceded by a carriage return.
unfoldable pub serial_write_char : ℕ → List ℕ
serial_write_char c = if c == 10 then 13 ∷ c ∷ [] else c ∷ []

-- `serial_write_string`, on the bytes before the zero.
unfoldable pub serial_write_string : List ℕ → List ℕ
serial_write_string [] = []
serial_write_string (c ∷ cs) = serial_write_char c ++ serial_write_string cs

unfoldable pub hex_digit : ℕ → ℕ
hex_digit nibble = if ltb nibble 10 then b'0' + nibble else b'A' + nibble - 10

-- The loop that fills `hex` from its end, with the places that are left and what is filled.
unfoldable pub hex_digits : (num places : ℕ) (filled : List ℕ) → List ℕ
hex_digits num zero filled = filled
hex_digits num (suc n) filled = hex_digits (num / 16) n (hex_digit (bit_and num 0x0F) ∷ filled)

unfoldable pub serial_write_hex : ℕ → List ℕ
serial_write_hex num = serial_write_string (b'0' ∷ b'x' ∷ hex_digits num 8 [])

-- The loop that fills `buf` from its end; `i` is the place behind the one it fills.
unfoldable pub decimal_digits : (num i : ℕ) (filled : List ℕ) → List ℕ
decimal_digits num zero filled = filled
decimal_digits num (suc i) filled =
    let more = decimal_digits (num / 10) i ((b'0' + num % 10) ∷ filled) in
    if num == 0 then filled else more

unfoldable pub serial_write_int : ℕ → List ℕ
serial_write_int num =
    if num == 0 then serial_write_char b'0' else serial_write_string (decimal_digits num 11 [])
