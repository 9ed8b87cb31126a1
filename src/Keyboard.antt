-- ===== src/Keyboard.antt =====
-- kernel/drivers/keyboard.c: the PS/2 interrupt handler and the ring buffer that it fills. Each
-- function runs with `kb_lock` held; the handler gives up where the lock is taken. The values that
-- the ports give are arguments.
pub mod Queue
pub mod Handler
pub mod Layout
pub mod Interrupts
mod Tests
use noverix.Base.{
  ℕ, ◌+◌, ◌%◌, ◌==◌, ◌!=◌, ltb, if◌then◌else◌, Bool, true, false, not, ◌&&◌, ◌||◌, List, [], ◌∷◌,
  get_or, update, bit_and,
}

abbrev pub buffer_size : ℕ
buffer_size = 256

abbrev pub table_size : ℕ
table_size = 58

pub record Keyboard : Type 0 where
  pub scan_code : ℕ
  pub shift_pressed : Bool
  pub caps_on : Bool
  pub extended : Bool
  pub key_buffer : ℕ → ℕ
  pub buffer_head : ℕ
  pub buffer_tail : ℕ
  pub typematic_param : ℕ

abbrev pub scancode_ascii : List ℕ
scancode_ascii =
    0 ∷ 0 ∷ b'1' ∷ b'2' ∷ b'3' ∷ b'4' ∷ b'5' ∷ b'6' ∷ b'7' ∷ b'8' ∷ b'9' ∷ b'0' ∷ b'-' ∷ b'=' ∷ 8
    ∷ 0 ∷ b'q' ∷ b'w' ∷ b'e' ∷ b'r' ∷ b't' ∷ b'y' ∷ b'u' ∷ b'i' ∷ b'o' ∷ b'p' ∷ b'[' ∷ b']' ∷ 10 ∷ 0
    ∷ b'a' ∷ b's' ∷ b'd' ∷ b'f' ∷ b'g' ∷ b'h' ∷ b'j' ∷ b'k' ∷ b'l' ∷ b';' ∷ 39 ∷ b'`' ∷ 0 ∷ 92
    ∷ b'z' ∷ b'x' ∷ b'c' ∷ b'v' ∷ b'b' ∷ b'n' ∷ b'm' ∷ b',' ∷ b'.' ∷ b'/' ∷ 0 ∷ b'*' ∷ 0 ∷ b' ' ∷ []

abbrev pub scancode_ascii_shift : List ℕ
scancode_ascii_shift =
    0 ∷ 0 ∷ b'!' ∷ b'@' ∷ b'#' ∷ b'$' ∷ b'%' ∷ b'^' ∷ b'&' ∷ b'*' ∷ b'(' ∷ b')' ∷ b'_' ∷ b'+' ∷ 8
    ∷ 0 ∷ b'Q' ∷ b'W' ∷ b'E' ∷ b'R' ∷ b'T' ∷ b'Y' ∷ b'U' ∷ b'I' ∷ b'O' ∷ b'P' ∷ b'{' ∷ b'}' ∷ 10 ∷ 0
    ∷ b'A' ∷ b'S' ∷ b'D' ∷ b'F' ∷ b'G' ∷ b'H' ∷ b'J' ∷ b'K' ∷ b'L' ∷ b':' ∷ 34 ∷ b'~' ∷ 0 ∷ b'|'
    ∷ b'Z' ∷ b'X' ∷ b'C' ∷ b'V' ∷ b'B' ∷ b'N' ∷ b'M' ∷ b'<' ∷ b'>' ∷ b'?' ∷ 0 ∷ b'*' ∷ 0 ∷ b' ' ∷ []

-- `if (c) { … }`: store the character unless it is 0 or the ring is full.
unfoldable pub put_char : Keyboard → ℕ → Keyboard
put_char k c =
    let next = (k.buffer_head + 1) % buffer_size in
    if (c != 0) && (next != k.buffer_tail)
    then record k { key_buffer = update k.key_buffer k.buffer_head c; buffer_head = next }
    else k

-- KEY_UP, KEY_DOWN, KEY_LEFT and KEY_RIGHT, or 0.
unfoldable pub arrow_key : ℕ → ℕ
arrow_key code =
    if code == 0x48
    then 1
    else if code == 0x50
    then 2
    else if code == 0x4B
    then 3
    else if code == 0x4D
    then 4
    else 0

unfoldable pub ascii_key : Keyboard → ℕ → ℕ
ascii_key k code =
    if k.shift_pressed || k.caps_on
    then get_or scancode_ascii_shift code 0
    else get_or scancode_ascii code 0

unfoldable pub is_press : ℕ → Bool
is_press code = bit_and code 0x80 == 0

unfoldable pub extended_key : Keyboard → ℕ → Keyboard
extended_key k code = if is_press code then put_char k (arrow_key code) else k

unfoldable pub plain_key : Keyboard → ℕ → Keyboard
plain_key k code =
    if (code == 0x2A) || (code == 0x36)
    then record k { shift_pressed = true }
    else if (code == 0xAA) || (code == 0xB6)
    then record k { shift_pressed = false }
    else if code == 0x3A
    then record k { caps_on = not k.caps_on }
    else if is_press code && ltb code table_size
    then put_char k (ascii_key k code)
    else k

-- The handler with the lock held.
unfoldable pub handle_scan : Keyboard → ℕ → Keyboard
handle_scan k code =
    if code == 0xE0
    then record k { extended = true }
    else if k.extended
    then extended_key (record k { extended = false }) code
    else plain_key k code

-- `status` and `code` are what the two ports read, `lock_free` is what `spinlock_try_lock` returns.
unfoldable pub keyboard_handler : Keyboard → (status code : ℕ) → (lock_free : Bool) → Keyboard
keyboard_handler k status code lock_free =
    if bit_and status 1 == 0
    then k
    else if lock_free
    then handle_scan (record k { scan_code = code }) code
    else record k { scan_code = code }

unfoldable pub get_char : Keyboard → ℕ × Keyboard
get_char k =
    if k.buffer_head == k.buffer_tail
    then (0, k)
    else (k.key_buffer k.buffer_tail, record k { buffer_tail = (k.buffer_tail + 1) % buffer_size })

-- The waits for the controller and the two port writes are left out.
unfoldable pub keyboard_set_typematic : Keyboard → ℕ → Keyboard
keyboard_set_typematic k param = record k { typematic_param = param }

unfoldable pub init_keyboard : Keyboard → Keyboard
init_keyboard k =
    keyboard_set_typematic
      (record k {
        shift_pressed = false;
        caps_on = false;
        extended = false;
        buffer_head = 0;
        buffer_tail = 0;
        typematic_param = 0;
      })
      0
