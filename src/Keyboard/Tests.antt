-- ===== src/Keyboard/Tests.antt =====
-- Concrete runs of the keyboard, and the theorems at concrete inputs.
use noverix.Base.{ℕ, ◌≡◌, ◌↔◌, refl, arith, true, false, [], ◌∷◌}
use noverix.Keyboard.{
  put_char, handle_scan, plain_key, is_press, arrow_key, extended_key, ascii_key,
  keyboard_set_typematic, Keyboard, keyboard_handler, init_keyboard, get_char,
}
use noverix.Keyboard.Queue.{places, pending, Taken}
use noverix.Keyboard.Handler.{started, interrupted, get_char_lem}
use noverix.Keyboard.Interrupts.{Interrupted, keyboard_handler-Interrupted}

abbrev blank : Keyboard
blank = record {
  scan_code = 0;
  shift_pressed = false;
  caps_on = false;
  extended = false;
  key_buffer = λ i. 0;
  buffer_head = 255;
  buffer_tail = 254;
  typematic_param = 0;
}

-- Shift down, the key of A, shift up, the key of B, arrow up.
abbrev typing : Keyboard
typing =
    let press : Keyboard → ℕ → Keyboard = λ k code. keyboard_handler k 1 code true in
    press (press (press (press (press (press (init_keyboard blank) 0x2A) 0x1E) 0xAA) 0x30) 0xE0)
      0x48

typed : pending typing ≡ b'A' ∷ b'b' ∷ 1 ∷ []
unfolding places keyboard_handler handle_scan extended_key is_press put_char arrow_key init_keyboard
    keyboard_set_typematic plain_key ascii_key
typed = refl

locked_out : pending (keyboard_handler typing 1 0x1E false) ≡ pending typing
unfolding init_keyboard keyboard_handler
locked_out = refl

keyboard_handler-Interrupted_example :
    Interrupted blank 1 0x1E true (keyboard_handler blank 1 0x1E true)
keyboard_handler-Interrupted_example =
    keyboard_handler-Interrupted blank 1 0x1E true
      (record { head_in = omega arith; tail_in = omega arith })

abbrev one_typed : Keyboard
one_typed = keyboard_handler (init_keyboard blank) 1 0x1E true

get_char_lem_example :
    Taken one_typed (get_char one_typed) × (((get_char one_typed).0 ≡ 0) ↔ (pending one_typed ≡ []))
get_char_lem_example =
    get_char_lem one_typed (interrupted (init_keyboard blank) 1 0x1E true (started blank))
