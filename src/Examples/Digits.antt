-- ===== src/Examples/Digits.antt =====
-- Hexadecimal text.
use warpfile.Common.{ℕ, ◌≡◌, refl, ◌↔◌, arith, List, [], ◌∷◌, some, map, length}
use warpfile.Bytes.BigEndian.{IsBytes}
use warpfile.Chunk.Hash.{ChunkHash, IsChunkHash}
use warpfile.Hex.{
  encode_hex, decode_hex_digit, push_byte, parse_pairs, parse_hex, encode_chunk_hash,
  parse_chunk_hash,
}
use warpfile.Common.{ok}
use warpfile.Protocol.TransferId.{TransferId, IsTransferId, display}
use warpfile.Metadata.{parse_transfer_id}
use warpfile.Metadata.Exact.{parse_transfer_id_iff}
use warpfile.Hex.Exact.{lower, parse_hex_iff, parse_chunk_hash-encode}

-- "fA07"
abbrev mixed_case : List ℕ
mixed_case = 0x66 ∷ 0x41 ∷ 0x30 ∷ 0x37 ∷ []

mixed_case_parsed : parse_hex 2 mixed_case ≡ some (0xFA ∷ 0x07 ∷ [])
unfolding parse_hex parse_pairs push_byte decode_hex_digit
mixed_case_parsed = refl

abbrev two_bytes : List ℕ
two_bytes = 0xFA ∷ 0x07 ∷ []

parse_hex_iff_example :
    (parse_hex 2 mixed_case ≡ some two_bytes)
    ↔ ((length two_bytes ≡ 2) × IsBytes two_bytes × (map lower mixed_case ≡ encode_hex two_bytes))
parse_hex_iff_example = parse_hex_iff 2 mixed_case two_bytes

abbrev eight_of : ℕ → List ℕ → List ℕ
eight_of b rest = b ∷ b ∷ b ∷ b ∷ b ∷ b ∷ b ∷ b ∷ rest

abbrev some_hash : ChunkHash
some_hash = record { bytes = eight_of 0x0F (eight_of 0xF0 (eight_of 0 (eight_of 0xFF []))) }

some_hash-IsChunkHash : IsChunkHash some_hash
some_hash-IsChunkHash = omega arith

parse_chunk_hash-encode_example : parse_chunk_hash (encode_chunk_hash some_hash) ≡ some some_hash
parse_chunk_hash-encode_example = parse_chunk_hash-encode some_hash some_hash-IsChunkHash

abbrev sixteen : TransferId
sixteen = record { bytes = eight_of 0x0F (eight_of 0xF0 []) }

parse_transfer_id_iff_example :
    (parse_transfer_id (display sixteen) ≡ ok sixteen)
    ↔ (IsTransferId sixteen × (map lower (display sixteen) ≡ display sixteen))
parse_transfer_id_iff_example = parse_transfer_id_iff (display sixteen) sixteen
