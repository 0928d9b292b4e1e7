-- ===== src/Hex.antt =====
-- Bytes as hexadecimal text: `encode_hex` and `parse_hex` (src/completion_receipt.rs), and
-- `encode_chunk_hash` and `parse_chunk_hash` (src/chunk_state.rs). A text is the list of its bytes.
pub mod Exact
use warpfile.Common.{ℕ, ◌+◌, ◌-◌, ◌*◌, ◌/◌, ◌%◌, List, [], ◌∷◌, Option, none, some, Bool, ◌&&◌}
use warpfile.Common.{leb, ◌==◌, if◌then◌else◌, length}
use warpfile.Chunk.Hash.{ChunkHash, chunk_hash_length}

-- The entry of `HEX_DIGITS`, which is b"0123456789abcdef".
unfoldable pub hex_digit : ℕ → ℕ
hex_digit k = if leb k 9 then 0x30 + k else 0x61 + (k - 10)

-- The high half of a byte, then the low half.
unfoldable pub encode_hex : List ℕ → List ℕ
encode_hex [] = []
encode_hex (b ∷ bytes) = hex_digit (b / 16) ∷ hex_digit (b % 16) ∷ encode_hex bytes

-- b'0'..=b'9', b'a'..=b'f' and b'A'..=b'F'
unfoldable pub decode_hex_digit : ℕ → Option ℕ
decode_hex_digit byte =
    if leb 0x30 byte && leb byte 0x39
    then some (byte - 0x30)
    else if leb 0x61 byte && leb byte 0x66
    then some (byte - 0x61 + 10)
    else if leb 0x41 byte && leb byte 0x46
    then some (byte - 0x41 + 10)
    else none

-- `(high << 4) | low` in front of the bytes that follow.
unfoldable pub push_byte : Option ℕ → Option ℕ → Option (List ℕ) → Option (List ℕ)
push_byte (some high) (some low) (some bytes) = some ((16 * high + low) ∷ bytes)
push_byte (some high) (some low) none = none
push_byte (some high) none bytes = none
push_byte none low bytes = none

-- The loop of `parse_hex`, which takes two digits for a byte; the text has an even length.
unfoldable pub parse_pairs : List ℕ → Option (List ℕ)
parse_pairs [] = some []
parse_pairs (high ∷ []) = none
parse_pairs (high ∷ low ∷ text) =
    push_byte (decode_hex_digit high) (decode_hex_digit low) (parse_pairs text)

-- `parse_hex::<LENGTH>`
unfoldable pub parse_hex : ℕ → List ℕ → Option (List ℕ)
parse_hex size text = if length text == size * 2 then parse_pairs text else none

unfoldable pub encode_chunk_hash : ChunkHash → List ℕ
encode_chunk_hash hash = encode_hex hash.bytes

unfoldable pub parse_chunk_hash : List ℕ → Option ChunkHash
parse_chunk_hash text = elim (parse_hex chunk_hash_length text) [
  | none ↦ none
  | some bytes ↦ some (record { bytes = bytes })
]
