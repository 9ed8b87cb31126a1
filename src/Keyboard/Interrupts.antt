-- ===== src/Keyboard/Interrupts.antt =====
-- How one interrupt of kernel/drivers/keyboard.c ends: the character and the modifiers.
use noverix.Base.{
  ℕ, ◌+◌, ◌%◌, ◌≡◌, refl, arith, ◌==◌, ◌!=◌, bit_and_mask, if◌then◌else◌, Bool, true, false, not,
  ◌&&◌, ◌||◌, bit_and, ap, ◌∙◌, Bool-cases, inl, inr,
}
use noverix.Keyboard.{
  Keyboard, put_char, arrow_key, ascii_key, extended_key, plain_key, handle_scan, keyboard_handler,
}
use noverix.Keyboard.Queue.{IsValid, pending, add_key}
use noverix.Keyboard.Handler.{typed_key, Types, handle_scan-Types}
use noverix.Keyboard.Layout.{typed, typed_key-typed}

record Modifiers (k k' : Keyboard) (now_shift now_caps now_extended : Bool) : Type 0 where
  shift : k'.shift_pressed ≡ now_shift
  caps : k'.caps_on ≡ now_caps
  extended : k'.extended ≡ now_extended
  code : k'.scan_code ≡ k.scan_code
  typematic : k'.typematic_param ≡ k.typematic_param

put_char-Modifiers :
    (k : Keyboard) (c : ℕ) → Modifiers k (put_char k c) k.shift_pressed k.caps_on k.extended
unfolding put_char
put_char-Modifiers k c =
    elim (Bool-cases ((c != 0) && (((k.buffer_head + 1) % 256) != k.buffer_tail))) [
      | inl e ↦
          rw e
            (record { shift = refl; caps = refl; extended = refl; code = refl; typematic = refl })
      | inr e ↦
          rw e
            (record { shift = refl; caps = refl; extended = refl; code = refl; typematic = refl })
    ]

-- Shift is on from the press of one of its two keys to the next release of one.
abbrev pub shift_after : Keyboard → (code : ℕ) → Bool
shift_after k code =
    if not k.extended && ((code == 0x2A) || (code == 0x36))
    then true
    else if not k.extended && ((code == 0xAA) || (code == 0xB6))
    then false
    else k.shift_pressed

-- Caps lock changes with each press of its key.
abbrev pub caps_after : Keyboard → (code : ℕ) → Bool
caps_after k code = if not k.extended && (code == 0x3A) then not k.caps_on else k.caps_on

abbrev Follows : (k : Keyboard) (code : ℕ) (k' : Keyboard) → Type 0
Follows k code k' = Modifiers k k' (shift_after k code) (caps_after k code) (code == 0xE0)

handle_scan-Follows : (k : Keyboard) (code : ℕ) → Follows k code (handle_scan k code)
unfolding handle_scan extended_key plain_key
handle_scan-Follows k code = record {
  shift = ground (
    arith,
    (put_char-Modifiers k (ascii_key k code)).shift,
    (put_char-Modifiers (record k { extended = false }) (arrow_key code)).shift,
  );
  caps = ground (
    arith,
    (put_char-Modifiers k (ascii_key k code)).caps,
    (put_char-Modifiers (record k { extended = false }) (arrow_key code)).caps,
  );
  extended = ground (
    arith,
    (put_char-Modifiers k (ascii_key k code)).extended,
    (put_char-Modifiers (record k { extended = false }) (arrow_key code)).extended,
  );
  code = ground (
    arith,
    (put_char-Modifiers k (ascii_key k code)).code,
    (put_char-Modifiers (record k { extended = false }) (arrow_key code)).code,
  );
  typematic = ground (
    arith,
    (put_char-Modifiers k (ascii_key k code)).typematic,
    (put_char-Modifiers (record k { extended = false }) (arrow_key code)).typematic,
  );
}

-- The state after a scan code that is handled.
pub record Handled (k : Keyboard) (code : ℕ) (k' : Keyboard) : Type 0 where
  pub queue : pending k' ≡ add_key (typed k code) (pending k)
  pub valid : IsValid k'
  pub shift : k'.shift_pressed ≡ shift_after k code
  pub caps : k'.caps_on ≡ caps_after k code
  pub extended : k'.extended ≡ (code == 0xE0)
  pub scan_code : k'.scan_code ≡ code

handled_lem :
    (k : Keyboard) (code : ℕ) → IsValid k → k.scan_code ≡ code → Handled k code (handle_scan k code)
handled_lem k code v e =
    let follows : Follows k code (handle_scan k code) = handle_scan-Follows k code in
    let types : Types k (handle_scan k code) (typed_key k code) = handle_scan-Types k code v in
    record {
      queue = types.queue ∙ ap (λ c. add_key c (pending k)) (typed_key-typed k code);
      valid = types.valid;
      shift = follows.shift;
      caps = follows.caps;
      extended = follows.extended;
      scan_code = follows.code ∙ e;
    }

-- What one interrupt does in its three cases.
pub record Interrupted (k : Keyboard) (status code : ℕ) (lock_free : Bool) (k' : Keyboard)
    : Type 0 where
  pub no_byte : status % 2 ≡ 0 → k' ≡ k
  pub locked : status % 2 ≡ 1 → lock_free ≡ false → k' ≡ record k { scan_code = code }
  pub handled : status % 2 ≡ 1 → lock_free ≡ true → Handled k code k'

-- One interrupt changes nothing where the controller has no byte, and nothing but the last scan code
-- where the lock is taken. Otherwise it appends to the pending characters, unless 255 are pending,
-- the character that the key has on the layout, on the level of shift or caps lock, or behind the
-- prefix that of the arrow key; a scan code with no key types nothing. Shift is on from the press
-- to the release of one of its keys, caps lock changes with each press, and the prefix is
-- remembered for the next scan code alone.
pub keyboard_handler-Interrupted :
    (k : Keyboard) (status code : ℕ) (lock_free : Bool)
    → IsValid k
    → Interrupted k status code lock_free (keyboard_handler k status code lock_free)
unfolding keyboard_handler typed
keyboard_handler-Interrupted k status code lock_free v =
    let bit : bit_and status 1 ≡ status % 2 = bit_and_mask 1 status in
    let scanned : Keyboard = record k { scan_code = code } in
    record {
      no_byte = λ e. ground (arith, bit);
      locked = λ e f. ground (arith, bit);
      handled = λ e f.
          let on : (bit_and status 1 == 0) ≡ false = ground (arith, bit) in
          let v' : IsValid scanned = record { head_in = v.head_in; tail_in = v.tail_in } in
          let done : Handled scanned code (handle_scan scanned code) =
            handled_lem scanned code v' refl in
          rw (on, f)
            (record {
              queue = done.queue;
              valid = done.valid;
              shift = done.shift;
              caps = done.caps;
              extended = done.extended;
              scan_code = done.scan_code;
            });
    }
