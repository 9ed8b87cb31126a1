-- ===== src/Serial/Tests.antt =====
-- Printed numbers at concrete inputs.
use noverix.Base.{ℕ, ◌≡◌, refl, arith, List, [], ◌∷◌, length}
use noverix.Serial.{
  serial_write_char, serial_write_string, decimal_digits, serial_write_hex, serial_write_int,
}
use noverix.Serial.Numbers.{AreDigits, read_digits, read_digits-serial_write_hex}

prints_int : serial_write_int 4096 ≡ b'4' ∷ b'0' ∷ b'9' ∷ b'6' ∷ []
unfolding serial_write_int serial_write_string decimal_digits serial_write_char
prints_int = refl

read_digits-serial_write_hex_example :
    (digits : List ℕ) × (serial_write_hex 0xDEADBEEF ≡ b'0' ∷ b'x' ∷ digits)
    × (length digits ≡ 8)
    × AreDigits digits
    × (read_digits 16 0 digits ≡ 0xDEADBEEF)
read_digits-serial_write_hex_example = read_digits-serial_write_hex 0xDEADBEEF (omega arith)
