-- ===== src/Examples/Text.antt =====
-- Runs of the UTF-8 test and of the big-endian numbers.
use warpfile.Common.{◌≡◌, refl, [], ◌∷◌, true, false}
use warpfile.Bytes.Utf8.{is_utf8}
use warpfile.Bytes.BigEndian.{to_be_bytes, from_be_bytes}

-- "ação" is accepted, a lone 0xFF and an encoded surrogate are not.
is_utf8_accepts : is_utf8 (0x61 ∷ 0xC3 ∷ 0xA7 ∷ 0xC3 ∷ 0xA3 ∷ 0x6F ∷ []) ≡ true
unfolding is_utf8
is_utf8_accepts = refl

is_utf8_rejects : (is_utf8 (0xFF ∷ []) ≡ false) × (is_utf8 (0xED ∷ 0xA0 ∷ 0x80 ∷ []) ≡ false)
unfolding is_utf8
is_utf8_rejects = (refl, refl)

to_be_bytes_1000 : to_be_bytes 8 1000 ≡ 0 ∷ 0 ∷ 0 ∷ 0 ∷ 0 ∷ 0 ∷ 0x03 ∷ 0xE8 ∷ []
unfolding to_be_bytes
to_be_bytes_1000 = refl

from_be_bytes_port : from_be_bytes (0xA4 ∷ 0x55 ∷ []) ≡ 42069
unfolding from_be_bytes
from_be_bytes_port = refl
