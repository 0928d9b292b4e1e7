-- ===== src/Bytes/BigEndian.antt =====
-- `to_be_bytes` and `from_be_bytes` of u16, u32 and u64, for any width in bytes.
use warpfile.Common.{
  ℕ, zero, suc, ◌+◌, ◌*◌, ◌/◌, ◌%◌, ◌^◌, ◌<◌, ◌≡◌, refl, ap, ◌∙◌, List, [], ◌∷◌, reverse, arith,
}
use warpfile.Common.{length, length-reverse, All, All-reverse}
use mathlib.Core.List.{reverse-reverse}
use native.Mathlib.Nat.{pow-suc}

abbrev pub IsByte : ℕ → Type 0
IsByte b = b < 256

abbrev pub IsBytes : List ℕ → Type 0
IsBytes = All IsByte

-- The digits of `n` in base 256, lowest first.
to_le : ℕ → ℕ → List ℕ
to_le zero n = []
to_le (suc w) n = (n % 256) ∷ to_le w (n / 256)

from_le : List ℕ → ℕ
from_le [] = 0
from_le (b ∷ bs) = b + 256 * from_le bs

-- `to_be_bytes` of a number that is `w` bytes wide.
unfoldable pub to_be_bytes : ℕ → ℕ → List ℕ
unfolding to_le
to_be_bytes w n = reverse (to_le w n)

unfoldable pub from_be_bytes : List ℕ → ℕ
unfolding from_le
from_be_bytes bs = from_le (reverse bs)

length-to_le : (w n : ℕ) → length (to_le w n) ≡ w
unfolding to_le
length-to_le zero n = refl
length-to_le (suc w) n = ap suc (length-to_le w (n / 256))

from_le-to_le : (w n : ℕ) → n < 256 ^ w → from_le (to_le w n) ≡ n
unfolding to_le from_le
from_le-to_le zero n h = omega arith
from_le-to_le (suc w) n h = omega (arith, from_le-to_le w (n / 256) (omega (arith, pow-suc 256 w)))

to_le-from_le : (bs : List ℕ) → IsBytes bs → to_le (length bs) (from_le bs) ≡ bs
unfolding to_le from_le
to_le-from_le [] h = refl
to_le-from_le (b ∷ bs) h =
    let low : (b + 256 * from_le bs) % 256 ≡ b = omega arith in
    let high : (b + 256 * from_le bs) / 256 ≡ from_le bs = omega arith in
    rw (low, high) (ap (λ t. b ∷ t) (to_le-from_le bs h.1))

to_le-IsBytes : (w n : ℕ) → IsBytes (to_le w n)
unfolding to_le
to_le-IsBytes zero n = tt
to_le-IsBytes (suc w) n = (omega arith, to_le-IsBytes w (n / 256))

from_le-lt : (bs : List ℕ) → IsBytes bs → from_le bs < 256 ^ length bs
unfolding from_le
from_le-lt [] h = omega arith
from_le-lt (b ∷ bs) h = omega (arith, pow-suc 256 (length bs), from_le-lt bs h.1)

pub length-to_be_bytes : (w n : ℕ) → length (to_be_bytes w n) ≡ w
unfolding to_be_bytes
length-to_be_bytes w n = length-reverse (to_le w n) ∙ length-to_le w n

pub to_be_bytes-IsBytes : (w n : ℕ) → IsBytes (to_be_bytes w n)
unfolding to_be_bytes
to_be_bytes-IsBytes w n = All-reverse IsByte (to_le w n) (to_le-IsBytes w n)

-- A number that fits is read back.
pub from_be_bytes-to_be_bytes : (w n : ℕ) → n < 256 ^ w → from_be_bytes (to_be_bytes w n) ≡ n
unfolding to_be_bytes from_be_bytes
from_be_bytes-to_be_bytes w n h = rw reverse-reverse (from_le-to_le w n h)

-- Bytes are written back as they were read.
pub to_be_bytes-from_be_bytes :
    (w : ℕ) (bs : List ℕ) → length bs ≡ w → IsBytes bs → to_be_bytes w (from_be_bytes bs) ≡ bs
unfolding to_be_bytes from_be_bytes
to_be_bytes-from_be_bytes w bs e h =
    rw (← e, ← length-reverse bs, to_le-from_le (reverse bs) (All-reverse IsByte bs h))
      (reverse-reverse bs)

pub from_be_bytes-lt :
    (w : ℕ) (bs : List ℕ) → length bs ≡ w → IsBytes bs → from_be_bytes bs < 256 ^ w
unfolding from_be_bytes
from_be_bytes-lt w bs e h =
    rw (← e, ← length-reverse bs) (from_le-lt (reverse bs) (All-reverse IsByte bs h))
