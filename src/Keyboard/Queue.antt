-- ===== src/Keyboard/Queue.antt =====
-- The ring buffer of kernel/drivers/keyboard.c as a queue of at most 255 characters.
use noverix.Base.{
  ℕ, zero, suc, ◌+◌, ◌-◌, ◌%◌, ◌<◌, ◌≡◌, ◌≢◌, refl, arith, ◌==◌, ◌!=◌, ltb, if◌then◌else◌, ◌&&◌,
  List, [], ◌∷◌, ◌++◌, length, update, ap, ap₂, sym, Bool-cases, inl, inr,
}
use noverix.Keyboard.{Keyboard, put_char, get_char}

pub record IsValid (k : Keyboard) : Type 0 where
  pub head_in : k.buffer_head < 256
  pub tail_in : k.buffer_tail < 256

-- The characters at `count` places from `from` on, going round at 256.
unfoldable pub places : (ℕ → ℕ) → (from count : ℕ) → List ℕ
places buffer from zero = []
places buffer from (suc count) = buffer from ∷ places buffer ((from + 1) % 256) count

abbrev pub stored : Keyboard → ℕ
stored k = (k.buffer_head + 256 - k.buffer_tail) % 256

-- What is typed and not yet read, oldest first.
abbrev pub pending : Keyboard → List ℕ
pending k = places k.key_buffer k.buffer_tail (stored k)

length-places : (b : ℕ → ℕ) (from count : ℕ) → length (places b from count) ≡ count
unfolding places
length-places b from zero = refl
length-places b from (suc count) = ap suc (length-places b ((from + 1) % 256) count)

pub length-pending : (k : Keyboard) → length (pending k) < 256
length-pending k = omega (arith, length-places k.key_buffer k.buffer_tail (stored k))

-- A write at the place behind the window makes it longer by that character.
places-update :
    (b : ℕ → ℕ) (from count at c : ℕ)
    → from < 256
    → count < 255
    → at ≡ (from + count) % 256
    → places (update b at c) from (suc count) ≡ places b from count ++ (c ∷ [])
unfolding places
places-update b from zero at c f n e = ground arith
places-update b from (suc count) at c f n e =
    ap₂ ◌∷◌ (ground arith)
      (places-update b ((from + 1) % 256) count at c (omega arith) (omega arith) (omega arith))

-- What a queue of at most 255 characters makes of one more, where 0 is no character.
abbrev pub add_key : ℕ → List ℕ → List ℕ
add_key c q = if (c != 0) && ltb (length q) 255 then q ++ (c ∷ []) else q

stored_next :
    (k : Keyboard) (c : ℕ)
    → IsValid k
    → stored k ≢ 255
    → stored (record k {
      key_buffer = update k.key_buffer k.buffer_head c;
      buffer_head = (k.buffer_head + 1) % 256;
    })
      ≡ suc (stored k)
stored_next k c v h = omega (arith, v.head_in, v.tail_in)

-- The ring is full when 255 characters are stored.
full_at_255 :
    (k : Keyboard)
    → IsValid k
    → ((k.buffer_head + 1) % 256 != k.buffer_tail) ≡ ltb (length (pending k)) 255
full_at_255 k v =
    ground (arith, v.head_in, v.tail_in, length-places k.key_buffer k.buffer_tail (stored k))

-- `put_char` adds the character to what is pending unless it is 0 or 255 are pending, and keeps the
-- two indices in range.
pub pending-put_char :
    (k : Keyboard) (c : ℕ)
    → IsValid k
    → (pending (put_char k c) ≡ add_key c (pending k)) × IsValid (put_char k c)
unfolding put_char
pending-put_char k c v =
    rw (sym (full_at_255 k v))
      (elim (Bool-cases ((c != 0) && ((k.buffer_head + 1) % 256 != k.buffer_tail))) [
        | inl e ↦
            let room : stored k ≢ 255 = ground (arith, v.head_in, v.tail_in) in
            rw (e) (
              rw (stored_next k c v room) (
                  places-update k.key_buffer k.buffer_tail (stored k) k.buffer_head c v.tail_in
                    (omega arith) (omega (arith, v.head_in, v.tail_in))),
              record { head_in = omega arith; tail_in = v.tail_in },
            )
        | inr e ↦ rw e (refl, v)
      ])

-- `get_char` takes the oldest character.
pub data Taken (k : Keyboard) (out : ℕ × Keyboard) : Type 0 where
  none_pending : pending k ≡ [] → out ≡ (0, k) → Taken k out
  oldest :
      (c : ℕ) (rest : List ℕ)
      → pending k ≡ c ∷ rest
      → out.0 ≡ c
      → pending (out.1) ≡ rest
      → IsValid (out.1)
      → Taken k out

pub get_char-Taken : (k : Keyboard) → IsValid k → Taken k (get_char k)
unfolding get_char places
get_char-Taken k v = elim (Bool-cases (k.buffer_head == k.buffer_tail)) [
  | inl e ↦
      let none : stored k ≡ 0 = ground (arith, v.head_in, v.tail_in) in
      rw e (none_pending (ap (places k.key_buffer k.buffer_tail) none) refl)
  | inr e ↦
      let some_left : stored k
          ≡ suc (stored (record k { buffer_tail = (k.buffer_tail + 1) % 256 })) =
        ground (arith, v.head_in, v.tail_in) in
      rw e (
        oldest (k.key_buffer k.buffer_tail) _ (ap (places k.key_buffer k.buffer_tail) some_left)
          refl refl (record { head_in = v.head_in; tail_in = omega arith }))
]
