-- ===== src/Keyboard/Handler.antt =====
-- What a scan code does to the queue, and the states that scan codes and reads lead to.
use noverix.Base.{
  ℕ, ◌<◌, ◌≡◌, ◌≢◌, ◌↔◌, refl, arith, ◌==◌, ◌!=◌, ltb, ltb→lt, bit_and_shifted, bit_and_mask, ◌*◌,
  ◌/◌, ◌%◌, ◌^◌, if◌then◌else◌, Bool, true, false, ◌&&◌, ◌||◌, bit_and, List, [], ◌∷◌, ◌++◌, length,
  ap, ◌∙◌, sym, subst, Bool-cases, inl, inr,
}
use noverix.Keyboard.{
  Keyboard, put_char, get_char, arrow_key, ascii_key, is_press, extended_key, plain_key,
  handle_scan, keyboard_handler, init_keyboard, keyboard_set_typematic,
}
use noverix.Keyboard.Queue.{
  IsValid, places, pending, add_key, pending-put_char, Taken, none_pending, oldest, get_char-Taken,
}

-- A key of the main block that is no modifier.
unfoldable pub is_plain : ℕ → Bool
is_plain code =
    if (code == 0x2A) || (code == 0x36) then false else if code == 0x3A then false else ltb code 58

-- The character that a scan code types: none for a release, a modifier or a prefix.
unfoldable pub typed_key : Keyboard → ℕ → ℕ
typed_key k code =
    if code == 0xE0
    then 0
    else if k.extended
    then (if is_press code then arrow_key code else 0)
    else if is_plain code
    then ascii_key k code
    else 0

pub record Types (k k' : Keyboard) (c : ℕ) : Type 0 where
  pub queue : pending k' ≡ add_key c (pending k)
  pub valid : IsValid k'

high_bit : (a : ℕ) → bit_and a 0x80 ≡ a / 128 % 2 * 128
high_bit a = omega (arith, bit_and_shifted 7 a 1, bit_and_mask 1 (a / 2 ^ 7))

press_below : (code : ℕ) → code < 58 → is_press code ≡ true
unfolding is_press
press_below code h = ground (arith, high_bit code)

put_char-Types :
    (k m : Keyboard) (c : ℕ) → IsValid m → pending m ≡ pending k → Types k (put_char m c) c
put_char-Types k m c v e =
    let done : (pending (put_char m c) ≡ add_key c (pending m)) × IsValid (put_char m c) =
      pending-put_char m c v in
    record { queue = done.0 ∙ ap (add_key c) e; valid = done.1 }

idle : (k m : Keyboard) → IsValid m → pending m ≡ pending k → Types k m 0
idle k m v e = record { queue = e; valid = v }

by_test :
    (k : Keyboard) (b : Bool) {x y : Keyboard} {c d : ℕ}
    → Types k x c
    → Types k y d
    → Types k (if b then x else y) (if b then c else d)
by_test k true t u = t
by_test k false t u = u

extended_key-Types :
    (k : Keyboard) (code : ℕ)
    → IsValid k
    → Types k
        (extended_key (record k { extended = false }) code)
        (if is_press code then arrow_key code else 0)
unfolding extended_key
extended_key-Types k code v =
    let plain : Keyboard = record k { extended = false } in
    let v' : IsValid plain = record { head_in = v.head_in; tail_in = v.tail_in } in
    elim (Bool-cases (is_press code)) [
      | inl e ↦ rw e (put_char-Types k plain (arrow_key code) v' refl)
      | inr e ↦ rw e (idle k plain v' refl)
    ]

plain_key-Types :
    (k : Keyboard) (code : ℕ)
    → IsValid k
    → Types k (plain_key k code) (if is_plain code then ascii_key k code else 0)
unfolding plain_key is_plain
plain_key-Types k code v = elim (Bool-cases ((code == 0x2A) || (code == 0x36))) [
  | inl e ↦ rw e (idle k _ (record { head_in = v.head_in; tail_in = v.tail_in }) refl)
  | inr e ↦ elim (Bool-cases ((code == 0xAA) || (code == 0xB6))) [
    | inl f ↦
        let large : ltb code 58 ≡ false = ground arith in
        let caps : (code == 0x3A) ≡ false = ground arith in
        rw (e, f, large, caps) (idle k _ (record { head_in = v.head_in; tail_in = v.tail_in }) refl)
    | inr f ↦ elim (Bool-cases (code == 0x3A)) [
      | inl g ↦ rw (e, f, g) (idle k _ (record { head_in = v.head_in; tail_in = v.tail_in }) refl)
      | inr g ↦ elim (Bool-cases (ltb code 58)) [
        | inl l ↦
            rw (e, f, g, press_below code (ltb→lt code 58 l), l)
              (put_char-Types k k (ascii_key k code) v refl)
        | inr l ↦
            let no : (is_press code && ltb code 58) ≡ false = ground arith in
            rw (e, f, g, no, l) (idle k k v refl)
      ]
    ]
  ]
]

pub handle_scan-Types :
    (k : Keyboard) (code : ℕ) → IsValid k → Types k (handle_scan k code) (typed_key k code)
unfolding handle_scan typed_key
handle_scan-Types k code v =
    by_test k (code == 0xE0) (idle k _ (record { head_in = v.head_in; tail_in = v.tail_in }) refl)
      (by_test k k.extended (extended_key-Types k code v) (plain_key-Types k code v))

-- What the handler types: nothing if the controller has no byte or the lock is taken.
unfoldable pub handler_key : Keyboard → (status code : ℕ) → (lock_free : Bool) → ℕ
handler_key k status code lock_free =
    if bit_and status 1 == 0 then 0 else if lock_free then typed_key k code else 0

-- One interrupt appends to the pending characters exactly the character that the scan code types,
-- unless 255 are pending, and keeps the two indices in range.
pub keyboard_handler-Types :
    (k : Keyboard) (status code : ℕ) (lock_free : Bool)
    → IsValid k
    → Types k (keyboard_handler k status code lock_free) (handler_key k status code lock_free)
unfolding keyboard_handler handler_key typed_key ascii_key
keyboard_handler-Types k status code lock_free v =
    let scanned : Keyboard = record k { scan_code = code } in
    let v' : IsValid scanned = record { head_in = v.head_in; tail_in = v.tail_in } in
    let handled : Types scanned (handle_scan scanned code) (typed_key scanned code) =
      handle_scan-Types scanned code v' in
    by_test k (bit_and status 1 == 0) (idle k k v refl) (
      by_test k lock_free (record { queue = handled.queue; valid = handled.valid })
        (idle k scanned v' refl))

-- The states after `init_keyboard`, by interrupts and reads in any order.
pub data Reachable : Keyboard → Type 0 where
  started : (k : Keyboard) → Reachable (init_keyboard k)
  interrupted :
      (k : Keyboard) (status code : ℕ) (lock_free : Bool)
      → Reachable k
      → Reachable (keyboard_handler k status code lock_free)
  read : (k : Keyboard) → Reachable k → Reachable ((get_char k).1)

abbrev NonZero : List ℕ → Type 0
NonZero [] = Unit
NonZero (x ∷ xs) = (x ≢ 0) × NonZero xs

NonZero-append : (xs : List ℕ) (c : ℕ) → NonZero xs → c ≢ 0 → NonZero (xs ++ (c ∷ []))
NonZero-append [] c n h = (h, tt)
NonZero-append (x ∷ xs) c n h = (n.0, NonZero-append xs c (n.1) h)

NonZero-add_key : (c : ℕ) (xs : List ℕ) → NonZero xs → NonZero (add_key c xs)
NonZero-add_key c xs n = elim (Bool-cases ((c != 0) && ltb (length xs) 255)) [
  | inl e ↦ rw e (NonZero-append xs c n (ground arith))
  | inr e ↦ rw e n
]

-- What is known of every reachable state.
record IsReady (k : Keyboard) : Type 0 where
  valid : IsValid k
  no_zero : NonZero (pending k)

Taken-IsReady : (k : Keyboard) → IsReady k → (out : ℕ × Keyboard) → Taken k out → IsReady (out.1)
Taken-IsReady k r out (none_pending e f) = rw f r
Taken-IsReady k r out (oldest c rest e f g v) =
    let left : NonZero (c ∷ rest) = subst NonZero e r.no_zero in
    record { valid = v; no_zero = rw g (left.1) }

init_keyboard-IsReady : (k : Keyboard) → IsReady (init_keyboard k)
unfolding init_keyboard keyboard_set_typematic places
init_keyboard-IsReady k = record {
  valid = record { head_in = omega arith; tail_in = omega arith };
  no_zero = tt;
}

Reachable-IsReady : (k : Keyboard) → Reachable k → IsReady k
Reachable-IsReady k (started j) = init_keyboard-IsReady j
Reachable-IsReady k (interrupted j status code lock_free r) =
    let before : IsReady j = Reachable-IsReady j r in
    let t : Types j (keyboard_handler j status code lock_free)
        (handler_key j status code lock_free) =
      keyboard_handler-Types j status code lock_free before.valid in
    record { valid = t.valid; no_zero = rw t.queue (NonZero-add_key _ (pending j) before.no_zero) }
Reachable-IsReady k (read j r) =
    let before : IsReady j = Reachable-IsReady j r in
    Taken-IsReady j before (get_char j) (get_char-Taken j before.valid)

zero_iff_none :
    (k : Keyboard) (out : ℕ × Keyboard)
    → NonZero (pending k)
    → Taken k out
    → (out.0 ≡ 0) ↔ (pending k ≡ [])
zero_iff_none k out n (none_pending e f) = (λ z. e, λ z. ap (λ o. o.0) f)
zero_iff_none k out n (oldest c rest e f g v) =
    (λ z. absurd ((subst NonZero e n).0 (sym f ∙ z)), λ z. absurd (cons_ne_nil (sym e ∙ z)))
  where
    cons_ne_nil : {c : ℕ} {rest : List ℕ} → (c ∷ rest) ≢ []
    cons_ne_nil h = ground arith

-- In every reachable state `get_char` takes the oldest pending character, and returns 0 exactly
-- when nothing is pending.
pub get_char_lem :
    (k : Keyboard) → Reachable k → Taken k (get_char k) × (((get_char k).0 ≡ 0) ↔ (pending k ≡ []))
get_char_lem k r =
    let ready : IsReady k = Reachable-IsReady k r in
    let taken : Taken k (get_char k) = get_char-Taken k ready.valid in
    (taken, zero_iff_none k (get_char k) ready.no_zero taken)
