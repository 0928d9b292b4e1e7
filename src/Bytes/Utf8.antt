-- ===== src/Bytes/Utf8.antt =====
-- `std::str::from_utf8`: which byte sequences are well-formed UTF-8 (the Unicode Standard,
-- table 3-7). A Rust `String` is modelled by its bytes, for which `is_utf8` holds.
use warpfile.Common.{ℕ, List, [], ◌∷◌, Bool, true, false, ◌&&◌, ◌||◌, Option, none, some}
use warpfile.Common.{leb, ◌==◌, if◌then◌else◌}

-- The ranges in which the bytes still to come of the current character must lie.
abbrev Pending : Type 0
Pending = List (ℕ × ℕ)

abbrev within : ℕ → ℕ → ℕ → Bool
within lo hi b = leb lo b && leb b hi

abbrev tail : ℕ × ℕ
tail = (0x80, 0xBF)

-- The first byte of a character.
first_byte : ℕ → Option Pending
first_byte b =
    if leb b 0x7F
    then some []
    else if within 0xC2 0xDF b
    then some (tail ∷ [])
    else if b == 0xE0
    then some ((0xA0, 0xBF) ∷ tail ∷ [])
    else if within 0xE1 0xEC b || within 0xEE 0xEF b
    then some (tail ∷ tail ∷ [])
    else if b == 0xED
    then some ((0x80, 0x9F) ∷ tail ∷ [])
    else if b == 0xF0
    then some ((0x90, 0xBF) ∷ tail ∷ tail ∷ [])
    else if within 0xF1 0xF3 b
    then some (tail ∷ tail ∷ tail ∷ [])
    else if b == 0xF4
    then some ((0x80, 0x8F) ∷ tail ∷ tail ∷ [])
    else none

next_byte : Pending → ℕ → Option Pending
unfolding first_byte
next_byte [] b = first_byte b
next_byte ((lo, hi) ∷ pending) b = if within lo hi b then some pending else none

is_utf8_from : Pending → List ℕ → Bool
unfolding next_byte
is_utf8_from [] [] = true
is_utf8_from (r ∷ pending) [] = false
is_utf8_from pending (b ∷ bs) = elim (next_byte pending b) [
  | none ↦ false
  | some rest ↦ is_utf8_from rest bs
]

unfoldable pub is_utf8 : List ℕ → Bool
unfolding is_utf8_from
is_utf8 bytes = is_utf8_from [] bytes
